-- ===== src/Tests/Sample.antt =====
-- The system, the maps and the configuration of the examples.
use aether_opt_ext.Base.{ℕ, Bool, true, false, none, some, [], ◌∷◌, ◌++◌, if◌then◌else◌, replicate}
use aether_opt_ext.Base.Text.{Text, codes, ends_with}
use aether_opt_ext.CpuSet.{CpuSet}
use aether_opt_ext.CpuRange.{to_range_string, from_range}
use aether_opt_ext.Os.{Os}
use aether_opt_ext.Os.Machine.{Machine}
use aether_opt_ext.Topology.{CpuTopology}
use aether_opt_ext.Config.{Rule, AppConfig, rule_prio}
use aether_opt_ext.ProcCache.{TaskEntry, ProcCache}
use aether_opt_ext.Events.{EbpfProcEvent, event_exit, event_fork}
use aether_opt_ext.Tests.Maps.{plain_os, Maps}

abbrev pub cpus_of : ℕ → CpuSet
cpus_of word = record {
  bits = word ∷ 0 ∷ 0 ∷ 0 ∷ 0 ∷ 0 ∷ 0 ∷ 0 ∷ 0 ∷ 0 ∷ 0 ∷ 0 ∷ 0 ∷ 0 ∷ 0 ∷ 0 ∷ [];
}

-- Eight CPUs.
abbrev pub phone : CpuTopology
phone = record {
  present_cpus = cpus_of 255;
  present_str = codes "0-7";
  mems_str = codes "0";
  cpuset_enabled = true;
  base_cpuset_fd = 3;
  e_core = cpus_of 15;
  p_core = cpus_of 112;
  hp_core = cpus_of 128;
}

abbrev pub game : Text
game = codes "com.example.game"

abbrev pub rule_of : Text → Text → Text → Rule
rule_of pkg thread cpus = record {
  pkg = pkg;
  thread = thread;
  cpus = cpus;
  prio = rule_prio thread;
  cpuset_dir = to_range_string (from_range cpus);
}

-- The game's main threads run on the fast CPUs, its other threads on the slow ones.
abbrev pub game_config : AppConfig
game_config = record {
  rules =
      rule_of game (codes "UnityMain") (codes "7")
      ∷ rule_of game (codes "Unity*") (codes "4-6")
      ∷ rule_of game [] (codes "0-3")
      ∷ [];
  pkg_set = game ∷ [];
  wild = [];
  mtime = 1;
  ebpf = true;
  topo = phone;
}

abbrev pub no_maps : Maps
no_maps = record { applied = []; targets = []; queue = [] }

abbrev pub machine_with : Maps → Machine (Unit {0}) Maps
machine_with b = record {
  world = tt;
  base_cpuset_path = none;
  failed_once = [];
  logged = [];
  bpf = some b;
}

-- A system in which the game is the process 100 with the threads 100 and 101.
abbrev pub game_os : Os (Unit {0})
game_os = record (plain_os 0) {
  modified = λ path w. (some 1, w);
  read_file =
      λ path w. (some (if ends_with path (codes "comm") then codes "UnityMain" else game), w);
  read_dir = λ path w. (
    some (
        if ends_with path (codes "task") then codes "100" ∷ codes "101" ∷ [] else codes "100" ∷ []),
    w,
  );
}

abbrev pub bound_by : Bool → TaskEntry
bound_by is_thread_rule = record {
  pid = 100;
  cpus = cpus_of 112;
  cpuset_dir = codes "4-6";
  is_thread_rule = is_thread_rule;
}

-- The thread 101 is bound by a thread rule, the main thread by the rule of the package.
abbrev pub two_threads : ProcCache
two_threads = record {
  pkgs = (100, (game, true)) ∷ [];
  tasks = (101, bound_by true) ∷ (100, bound_by false) ∷ [];
}

abbrev pub two_keys : Maps
two_keys = record no_maps { applied = (101, 112) ∷ (100, 112) ∷ [] }

-- A worker ends, a thread of the game starts, and the game ends.
abbrev pub worker_ends : EbpfProcEvent
worker_ends = record { pid = 100; tid = 101; comm = replicate 16 0; event_type = event_exit }

abbrev pub child_starts : EbpfProcEvent
child_starts = record {
  pid = 100;
  tid = 102;
  comm = codes "UnityMain" ++ replicate 7 0;
  event_type = event_fork;
}

abbrev pub main_ends : EbpfProcEvent
main_ends = record { pid = 100; tid = 100; comm = replicate 16 0; event_type = event_exit }
