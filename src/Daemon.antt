-- ===== src/Daemon.antt =====
-- src/main.rs, the loop of `main`: one round of it, in the eBPF mode and in the mode without.
pub mod Start
pub mod Frame
pub mod Round
pub mod Loop
pub mod Reloaded
pub mod Sound
pub mod Tracked
use aether_opt_ext.Base.{
  ℕ, ◌+◌, ◌-◌, ◌*◌, ◌%◌, ◌^◌, Bool, true, false, not, ◌&&◌, ◌||◌, Option, none, some, List, [], ◌∷◌,
  State, ltb, leb, ◌==◌, if◌then◌else◌,
}
use aether_opt_ext.Base.Text.{Text}
use aether_opt_ext.Os.{Os, Aya}
use aether_opt_ext.Os.Machine.{Machine, call}
use aether_opt_ext.Config.{AppConfig}
use aether_opt_ext.Entries.{Json}
use aether_opt_ext.ConfigFile.{hot_reload}
use aether_opt_ext.ConfigFile.Save.{JsonBuild}
use aether_opt_ext.Clusters.{Clusters}
use aether_opt_ext.AutoAlloc.{auto_allocate}
use aether_opt_ext.Inotify.{Inotify, is_negative, read_inotify, rewatch_inotify}
use aether_opt_ext.Bpf.{comm_map_init, applied_del}
use aether_opt_ext.ProcCache.{ProcCache, affinity_sync}
use aether_opt_ext.FullScan.{full_scan}
use aether_opt_ext.Events.{EbpfProcEvent, dispatch_all}
use aether_opt_ext.ProcMode.{ProcState, proc_cache_sync}

-- What `recv_timeout` returns: an event with those that `try_recv` finds behind it, or none.
pub data Received : Type 0 where
  got : EbpfProcEvent → List EbpfProcEvent → Received
  timed_out : Received
  disconnected : Received

-- The channel of the events, and the clock in nanoseconds.
pub record Timing (W : Type 0) : Type 0 where
  pub recv : State W Received
  pub now : State W ℕ
  pub sleep : ℕ → State W (Unit {0})

-- The variables of the loop.
pub record Daemon : Type 0 where
  pub cfg : AppConfig
  pub proc_state : ProcState
  -- `bpf_state.ok`
  pub ok : Bool
  pub need_full_scan : Bool
  pub comm_capacity : ℕ
  pub affinity_deadline : ℕ
  pub cache_scan : ℕ
  pub inotify_fd : ℕ

abbrev pub with_cache : ProcCache → Daemon → Daemon
with_cache pc d = record d { proc_state = record d.proc_state { cache = pc } }

-- Whether the configuration has changed is known beside the variables.
abbrev pub Checked : Type 0
Checked = Bool × Daemon

abbrev pub is_newer : Option ℕ → ℕ → Bool
is_newer none mtime = false
is_newer (some mt) mtime = ltb mtime mt

-- `elapsed() >= Duration::from_secs(3 * interval)`; the product wraps around.
abbrev pub is_due : ℕ → ℕ → ℕ → Bool
is_due now deadline interval = leb (3 * interval % 2 ^ 64 * 1000000000) (now - deadline)

module _ {J W B : Type 0} (json : Json J) (os : Os W) (ino : Inotify W) (config_path : Text) where
  unfoldable pub reload : Daemon → State (Machine W B) Checked
  reload d m =
      let r = hot_reload json os config_path d.cfg m in ((r.0.0, record d { cfg = r.0.1 }), r.1)

  unfoldable pub rewatch : Checked → State (Machine W B) Checked
  rewatch c m =
      let fd = rewatch_inotify ino config_path c.1.inotify_fd m in
      ((c.0, record c.1 { inotify_fd = fd.0 }), fd.1)

  unfoldable pub on_inotify : Option ℕ → Daemon → State (Machine W B) Checked
  on_inotify none d m = ((false, d), m)
  on_inotify (some ev) d m =
      let r = reload d m in
      let watched = rewatch r.0 r.1 in
      if ev == 2 then watched else if ev == 1 then r else ((false, d), m)

  -- With no watch, the time of the file is compared; what this reload says counts.
  unfoldable pub on_mtime : Checked → State (Machine W B) Checked
  on_mtime c m =
      let mt = call (os.modified config_path) m in
      let r = reload c.1 mt.1 in
      if not (is_negative c.1.inotify_fd)
      then (c, m)
      else if is_newer mt.0 c.1.cfg.mtime
      then r
      else (c, mt.1)

  unfoldable pub check_config : Daemon → State (Machine W B) Checked
  check_config d m =
      let ev = read_inotify ino d.inotify_fd m in
      let noted = on_inotify ev.0 d ev.1 in on_mtime noted.0 noted.1

abbrev pub mark_changed : Bool → ProcState → ProcState
mark_changed config_changed state =
    if config_changed then record state { scan_all_proc = true } else state

-- `for tid in dead_tids { applied_del(…) }`
unfoldable pub applied_del_all : {W B : Type 0} → Aya B → List ℕ → Machine W B → Machine W B
applied_del_all aya [] m = m
applied_del_all aya (tid ∷ tids) m = applied_del_all aya tids (applied_del aya tid m)

module _ {W B : Type 0} (os : Os W) (aya : Aya B) (timing : Timing W) (interval : ℕ) where
  unfoldable pub scan_round : Bool → Daemon → State (Machine W B) Daemon
  scan_round config_changed d m =
      let listed = comm_map_init aya d.cfg.pkg_set d.comm_capacity m in
      let scanned = full_scan os aya d.cfg d.proc_state.cache listed.1 in
      if config_changed || d.need_full_scan
      then (record (with_cache scanned.0 d) { need_full_scan = false }, scanned.1)
      else (d, m)

  -- A channel that is closed ends the eBPF mode: the object is dropped.
  unfoldable pub on_received : Received → Daemon → State (Machine W B) Daemon
  on_received (got event events) d m =
      let pc = dispatch_all os aya (event ∷ events) d.cfg d.proc_state.cache m in
      (with_cache pc.0 d, pc.1)
  on_received timed_out d m = (d, m)
  on_received disconnected d m =
      (record d { ok = false; need_full_scan = true }, record m { bpf = none })

  unfoldable pub sync_round : Daemon → State (Machine W B) Daemon
  sync_round d m =
      let now = call timing.now m in
      let synced = affinity_sync os d.proc_state.cache d.cfg.topo now.1 in
      let deleted = applied_del_all aya synced.0.0 synced.1 in
      let after = call timing.now deleted in
      if is_due now.0 d.affinity_deadline interval
      then (record (with_cache synced.0.1 d) { affinity_deadline = after.0 }, after.1)
      else (d, now.1)

  unfoldable pub ebpf_round : Bool → Daemon → State (Machine W B) Daemon
  ebpf_round config_changed d m =
      let scanned = scan_round config_changed d m in
      let received = call timing.recv scanned.1 in
      let dispatched = on_received received.0 scanned.0 received.1 in
      sync_round dispatched.0 dispatched.1

module _ {J W B : Type 0} (json : Json J) (build : JsonBuild J) (os : Os W) (timing : Timing W)
    (clusters : Clusters) (interval : ℕ) where
  -- The bindings are corrected in time, or at once when the number of processes has changed.
  unfoldable pub correct : Daemon → State (Machine W B) Daemon
  correct d m =
      let now = call timing.now m in
      let synced = affinity_sync os d.proc_state.cache d.cfg.topo now.1 in
      let after = call timing.now synced.1 in
      if d.proc_state.force_affinity || is_due now.0 d.affinity_deadline interval
      then (
        record d {
          proc_state = record d.proc_state { cache = synced.0.1; force_affinity = false };
          affinity_deadline = after.0;
        },
        after.1,
      )
      else (d, now.1)

  unfoldable pub look_for_apps : Daemon → State (Machine W B) Daemon
  look_for_apps d m =
      let allocated = auto_allocate json build os clusters d.cfg m in
      if leb 30 (d.cache_scan + 1)
      then (record d { cache_scan = 0; cfg = allocated.0 }, allocated.1)
      else (record d { cache_scan = d.cache_scan + 1 }, m)

  unfoldable pub proc_round : Bool → Daemon → State (Machine W B) Daemon
  proc_round config_changed d m =
      let state = mark_changed config_changed d.proc_state in
      let synced = proc_cache_sync os d.cfg state m in
      let corrected = correct (record d { proc_state = synced.0.1 }) synced.1 in
      let looked = look_for_apps corrected.0 corrected.1 in
      (looked.0, (call (timing.sleep interval) looked.1).1)

module _ {J W B : Type 0} (json : Json J) (build : JsonBuild J) (os : Os W) (aya : Aya B)
    (ino : Inotify W) (timing : Timing W) (config_path : Text) (clusters : Clusters)
    (interval : ℕ) where
  -- One round of the loop, which never ends.
  unfoldable pub main_round : Daemon → State (Machine W B) Daemon
  main_round d m =
      let checked = check_config json os ino config_path d m in
      let ebpf = ebpf_round os aya timing interval checked.0.0 checked.0.1 checked.1 in
      let proc =
        proc_round json build os timing clusters interval checked.0.0 checked.0.1 checked.1 in
      if checked.0.1.ok then ebpf else proc
