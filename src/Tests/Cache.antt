-- ===== src/Tests/Cache.antt =====
-- The cache and the dispatch of events, at a game with two threads.
use aether_opt_ext.Base.{
  any, ◌||◌, Option, ◌≡◌, refl, Bool, true, false, none, [], ◌∷◌, arith, ◌==◌, if◌then◌else◌,
}
use aether_opt_ext.Base.Map.{lookup, remove}
use aether_opt_ext.Base.Text.{codes}
use aether_opt_ext.Os.Machine.{Machine}
use aether_opt_ext.Process.{affinity_set, is_current, esrch, key_eq}
use aether_opt_ext.CpuRange.{to_range_string}
use aether_opt_ext.RuleMatch.{AffinityResult, thread_affinity}
use aether_opt_ext.Process.Reports.{LogsOnce, errno_of, affinity_set-LogsOnce}
use aether_opt_ext.ProcCache.{is_thread_bound, ProcCache, task_del, task_apply}
use aether_opt_ext.ProcCache.Tasks.{
  Rebound, StaysThreadBound, task_del_lem, task_apply-StaysThreadBound, last_of,
}
use aether_opt_ext.Events.{event_dispatch, event_affinity_apply}
use aether_opt_ext.Events.Tracked.{Tracks}
use aether_opt_ext.Events.Invariant.{exit_pending, event_dispatch-Tracks}
use aether_opt_ext.FullScan.{full_scan}
use aether_opt_ext.FullScan.Tracked.{full_scan-Tracks}
use aether_opt_ext.Tests.Sample.{
  two_threads, two_keys, worker_ends, child_starts, game_os, phone, game, game_config, machine_with,
  no_maps, cpus_of,
}
use aether_opt_ext.Tests.Maps.{plain_os, Maps, list_aya, list_aya-AppliedLaws}

-- A package rule is applied to a thread that a thread rule bound.
abbrev worker_applied : (Bool × ProcCache) × Machine (Unit {0}) Maps
worker_applied =
    task_apply (plain_os 0) 101 100 game (codes "Worker") true game_config true
      (event_affinity_apply (plain_os 0) list_aya game_config) two_threads (machine_with two_keys)

two_threads-bound : is_thread_bound (lookup 101 two_threads.tasks) ≡ true
unfolding lookup
two_threads-bound = refl

abbrev worker_affinity : Option AffinityResult × Machine (Unit {0}) Maps
worker_affinity =
    thread_affinity (plain_os 0) game (codes "Worker") game_config phone (machine_with two_keys)

task_apply-StaysThreadBound_example :
    Rebound 101 100
      (event_affinity_apply (plain_os 0) list_aya game_config)
      two_threads
      worker_affinity.0
      worker_affinity.1
      worker_applied
    × StaysThreadBound worker_applied.0.0 (lookup 101 worker_applied.0.1.tasks)
task_apply-StaysThreadBound_example =
    task_apply-StaysThreadBound (plain_os 0) 101 100 game (codes "Worker") true game_config true
      (event_affinity_apply (plain_os 0) list_aya game_config) two_threads (machine_with two_keys)
      two_threads-bound

task_del_lem_example :
    (lookup 100 (task_del 101 two_threads).tasks
      ≡ (if 101 == 100 then none else lookup 100 two_threads.tasks))
    × (lookup 100 (task_del 101 two_threads).pkgs ≡ (
        if last_of 100 (lookup 101 two_threads.tasks) (remove 101 two_threads.tasks)
        then none
        else lookup 100 two_threads.pkgs))
task_del_lem_example = task_del_lem 101 two_threads 100 100

-- The kernel has removed the key of the thread 101 and told its end.
abbrev one_key : Maps
one_key = record no_maps { applied = (100, 112) ∷ [] }

one_key-Tracks :
    Tracks list_aya
      (exit_pending (worker_ends ∷ child_starts ∷ []))
      two_threads.tasks
      (machine_with one_key).bpf
one_key-Tracks = record { reachable = refl; tracked = λ tid. unfold lookup in ground arith }

event_dispatch-Tracks_example :
    Tracks list_aya
      (exit_pending (child_starts ∷ []))
      (event_dispatch
        (plain_os 0)
        list_aya
        worker_ends
        game_config
        two_threads
        (machine_with one_key)).0.tasks
      (event_dispatch
        (plain_os 0)
        list_aya
        worker_ends
        game_config
        two_threads
        (machine_with one_key)).1.bpf
event_dispatch-Tracks_example =
    event_dispatch-Tracks (plain_os 0) list_aya list_aya-AppliedLaws game_config worker_ends
      (child_starts ∷ []) two_threads (machine_with one_key) one_key-Tracks

-- Every call fails with EPERM.
abbrev refused : Bool × Machine (Unit {0}) Maps
refused = affinity_set (plain_os 1) 101 (cpus_of 112) (codes "4-6") phone (machine_with two_keys)

affinity_set-LogsOnce_example :
    LogsOnce refused.1
    × (is_current ((plain_os 1).getaffinity 101 tt).0 (cpus_of 112)
        || errno_of (plain_os 1) 101 (cpus_of 112) (codes "4-6") phone (machine_with two_keys) == 0
        || errno_of (plain_os 1) 101 (cpus_of 112) (codes "4-6") phone (machine_with two_keys)
          == esrch
        || any (key_eq (101, to_range_string (cpus_of 112))) refused.1.logged)
      ≡ true
affinity_set-LogsOnce_example =
    affinity_set-LogsOnce (plain_os 1) 101 (cpus_of 112) (codes "4-6") phone (machine_with two_keys)
      (record { once = tt; same = λ k. refl })

-- The game runs when the program starts.
full_scan-Tracks_example :
    Tracks list_aya
      (λ j. false)
      (full_scan game_os list_aya game_config two_threads (machine_with one_key)).0.tasks
      (full_scan game_os list_aya game_config two_threads (machine_with one_key)).1.bpf
full_scan-Tracks_example =
    full_scan-Tracks game_os list_aya list_aya-AppliedLaws game_config two_threads
      (machine_with one_key) refl
