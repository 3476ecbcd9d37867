-- ===== src/Daemon/Start.antt =====
-- src/main.rs, `main` up to its loop, and `init_cpuset` of src/process.rs.
pub mod Options
use aether_opt_ext.Base.{
  ℕ, ◌-◌, ◌^◌, Bool, true, false, not, ◌&&◌, ◌||◌, Option, none, some, List, [], ◌∷◌, State, ltb,
  ◌==◌, if◌then◌else◌,
}
use aether_opt_ext.Base.Text.{Text, codes, text_eq, parse_uint, usize_max, is_empty, trim}
use aether_opt_ext.CpuRange.{from_range}
use aether_opt_ext.Os.{Os, Aya}
use aether_opt_ext.Os.Machine.{Machine, call, set_base_cpuset}
use aether_opt_ext.Topology.{CpuTopology}
use aether_opt_ext.Topology.Detect.{init_cpu_topo, trim_or_nil}
use aether_opt_ext.Config.{AppConfig}
use aether_opt_ext.Entries.{Json}
use aether_opt_ext.ConfigFile.{load, merge}
use aether_opt_ext.ConfigFile.Save.{JsonBuild}
use aether_opt_ext.Clusters.{Clusters, detect}
use aether_opt_ext.AutoAlloc.{auto_allocate}
use aether_opt_ext.Inotify.{Inotify, init_inotify}
use aether_opt_ext.ProcMode.{new_state}
use aether_opt_ext.Tracefs.Probe.{Loader, BpfCtx, probe}
use aether_opt_ext.Daemon.{Daemon, Timing}

pub record Args : Type 0 where
  pub config_path : Text
  pub interval : ℕ

abbrev pub default_args : Args
default_args = record { config_path = codes "/sdcard/Android/Aether/threads.json"; interval = 2 }

abbrev pub or_two : Option ℕ → ℕ
or_two none = 2
or_two (some n) = n

-- The loop over the arguments behind the program's name; an option at the end has no value.
unfoldable pub read_args : List Text → Args → Args
read_args [] a = a
read_args (arg ∷ []) a = a
read_args (arg ∷ value ∷ rest) a =
    let with_path = read_args rest (record a { config_path = value }) in
    let with_interval =
      read_args rest (record a { interval = or_two (parse_uint usize_max value) }) in
    let next = read_args (value ∷ rest) a in
    if text_eq arg (codes "-c")
    then with_path
    else if text_eq arg (codes "-s")
    then with_interval
    else next

unfoldable pub at_least_one : Args → Args
at_least_one a = if ltb a.interval 1 then record a { interval = 1 } else a

unfoldable pub parse_args : List Text → Args
parse_args args = at_least_one (read_args args default_args)

-- What `main` starts its loop with.
pub record Started : Type 0 where
  pub daemon : Daemon
  pub clusters : Clusters
  pub args : Args

module _ {W B : Type 0} (os : Os W) where
  abbrev write_mems : Option Text → Machine W B → Machine W B
  write_mems none m = m
  write_mems (some mems) m =
      (call (os.write_file (codes "/dev/cpuset/AppOpt/mems") (trim mems)) m).1

  -- `CPUSET_OK` is read by dead code only.
  unfoldable pub init_cpuset : Machine W B → Machine W B
  init_cpuset m =
      let found = call (os.exists (codes "/dev/cpuset")) m in
      let made = call (os.create_dir_all (codes "/dev/cpuset/AppOpt")) found.1 in
      let present = call (os.read_file (codes "/sys/devices/system/cpu/present")) made.1 in
      let cpus =
        call (os.write_file (codes "/dev/cpuset/AppOpt/cpus") (trim_or_nil present.0)) present.1 in
      let mems = call (os.read_file (codes "/dev/cpuset/mems")) cpus.1 in
      if found.0 then write_mems mems.0 mems.1 else found.1

  -- The program itself is to run on the slow CPUs.
  unfoldable pub bind_self : ℕ → Clusters → Machine W B → Machine W B
  bind_self self_pid c m =
      if not (is_empty c.little) && not (text_eq c.little (codes "0"))
      then (call (os.setaffinity self_pid (from_range c.little)) m).1
      else m

module _ {J W B : Type 0} (json : Json J) (build : JsonBuild J) (os : Os W) (ino : Inotify W)
    (timing : Timing W) (loader : Loader W B) (self_pid : ℕ) where
  -- `main` from the loaded configuration on.
  unfoldable pub start_with : Args → Option AppConfig → State (Machine W B) (Option Started)
  start_with args none m = (none, m)
  start_with args (some loaded) m =
      let merged = merge json os loaded m in
      let clusters = detect os merged.1 in
      let bound = bind_self os self_pid clusters.0 (init_cpuset os clusters.1) in
      let probed = probe os loader merged.0.ebpf bound in
      let now = call timing.now (record probed.1 { bpf = probed.0.bpf }) in
      let allocated = auto_allocate json build os clusters.0 merged.0 now.1 in
      let fd = init_inotify ino args.config_path allocated.1 in
      (
        some (record {
          daemon = record {
            cfg = allocated.0;
            proc_state = new_state;
            ok = probed.0.ok;
            need_full_scan = true;
            comm_capacity = 8192;
            affinity_deadline = now.0;
            cache_scan = 0;
            inotify_fd = fd.0;
          };
          clusters = clusters.0;
          args = args;
        }),
        fd.1,
      )

  -- Nothing is started if the configuration cannot be loaded.
  unfoldable pub start : List Text → State (Machine W B) (Option Started)
  start arguments m =
      let args = parse_args arguments in
      let topo = init_cpu_topo os (set_base_cpuset (codes "AppOpt") m) in
      let cfg = load json os args.config_path topo.0 topo.1 in start_with args cfg.0 cfg.1
