-- ===== src/Tests/Whole.antt =====
-- The kernel, the reader and the daemon together: a worker ends, and the daemon learns of it.
use aether_opt_ext.Base.{
  arith, ℕ, ◌≡◌, refl, ap, true, false, none, some, List, [], ◌∷◌, ◌++◌, ◌*◌, ◌+◌, ◌^◌,
}
use aether_opt_ext.Base.Text.{codes}
use aether_opt_ext.Base.Map.{lookup}
use aether_opt_ext.Os.Machine.{Machine}
use aether_opt_ext.Kernel.{
  ProcEvent, Context, event_exit, no_comm, sched_process_exit, applied_lookup, submit_event,
}
use aether_opt_ext.Kernel.Reports.{exit}
use aether_opt_ext.Reader.Layout.{received}
use aether_opt_ext.Events.{event_dispatch}
use aether_opt_ext.Daemon.{
  Daemon, with_cache, check_config, on_inotify, on_mtime, scan_round, on_received, sync_round,
  ebpf_round, main_round,
}
use aether_opt_ext.System.{
  beside, ring_beside, Buffer, BufferLaws, System, programs, reads, dispatches, Run, at_first,
  then_moves,
}
use aether_opt_ext.System.Round.{at}
use aether_opt_ext.System.AfterRound.{main_round-Tracks}
use aether_opt_ext.System.Told.{told}
use aether_opt_ext.Events.Tracked.{Tracks}
use aether_opt_ext.Inotify.{read_inotify}
use aether_opt_ext.System.Interleaved.{IsWatched, Run-IsWatched}
use aether_opt_ext.Tests.Maps.{Maps, list_aya, list_aya-AppliedLaws}
use aether_opt_ext.Tests.Sample.{
  child_starts, game, game_os, machine_with, no_maps, two_keys, two_threads, worker_ends,
}
use aether_opt_ext.Tests.Values.{value_json}
use aether_opt_ext.ConfigFile.Save.{JsonBuild}
use aether_opt_ext.Daemon.Start.{start}
use aether_opt_ext.Daemon.Loop.{main_rounds}
use aether_opt_ext.Daemon.Tracked.{IsPolling, main_rounds-IsPolling}
use aether_opt_ext.ProcMode.{new_state}
use aether_opt_ext.Tests.Apps.{phone_clusters}
use aether_opt_ext.Daemon.Sound.{ResultAfter, start-ResultAfter}
use aether_opt_ext.Tests.Daemon.{document}
use aether_opt_ext.Tests.Ebpf.{
  good_loader, list_aya-SeparateMaps, quiet, busy, running, two_keys-Tracks,
}

abbrev rest_of : List ProcEvent → List ProcEvent
rest_of [] = []
rest_of (e ∷ es) = es

abbrev list_buffer : Buffer (List ProcEvent)
list_buffer = record {
  ring = record { offsets = λ q. none; reserve = λ q. true; output = λ e q. q ++ e ∷ [] };
  queue = λ q. q;
  taken = rest_of;
}

list_buffer-BufferLaws : BufferLaws list_buffer
list_buffer-BufferLaws = record {
  queue_output = λ e q room. refl;
  queue_taken = λ e es q first. ap rest_of first;
}

-- The thread 101 of the process 100 ends.
abbrev in_101 : Context
in_101 = record {
  pid_tgid = 100 * 2 ^ 32 + 101;
  current_comm = none;
  read_i32 = λ offset. none;
  read_comm = λ offset. none;
}

abbrev ended : Maps × List ProcEvent
ended = sched_process_exit (beside list_aya) (ring_beside list_buffer.ring) in_101 (two_keys, [])

abbrev end_of_101 : ProcEvent
end_of_101 = record { pid = 100; tid = 101; comm = no_comm; event_type = event_exit }

end_reported : ended.1 ≡ end_of_101 ∷ []
unfolding sched_process_exit applied_lookup submit_event lookup
end_reported = refl

abbrev told_machine : Machine (Unit {0}) Maps
told_machine = record (machine_with two_keys) { bpf = some ended.0 }

abbrev Phone : Type 0
Phone = System (Unit {0}) Maps (List ProcEvent)

abbrev before : Phone
before = record { daemon = running; machine = machine_with two_keys; entries = []; channel = [] }

abbrev after : Phone
after = record {
  daemon =
      with_cache
        (event_dispatch game_os list_aya (received end_of_101) running.cfg two_threads
          told_machine).0
        running;
  machine =
      (event_dispatch game_os list_aya (received end_of_101) running.cfg two_threads
        told_machine).1;
  entries = rest_of ended.1;
  channel = [];
}

worker_ends-Run :
    Run value_json game_os list_aya quiet busy list_buffer (codes "/c.json") 2 before after
worker_ends-Run =
    then_moves
      (then_moves
        (then_moves at_first (
          programs running (machine_with two_keys) two_keys ended.0 [] ended.1 [] refl
            (exit in_101 (two_keys, []) refl)))
        (reads running told_machine ended.1 [] end_of_101 [] end_reported))
      (dispatches (received end_of_101) running told_machine (rest_of ended.1) [])

Run-IsWatched_example : IsWatched list_aya list_buffer after
Run-IsWatched_example =
    Run-IsWatched value_json game_os list_aya quiet busy list_buffer (codes "/c.json") 2
      list_aya-AppliedLaws list_aya-SeparateMaps list_buffer-BufferLaws worker_ends-Run
      two_keys-Tracks

-- Nothing of this document is ever changed.
abbrev fixed : JsonBuild ℕ
fixed = record {
  at = λ node i. 9;
  new_object = 9;
  set_field = λ node key v. node;
  new_array = 9;
  push = λ node v. node;
  string = λ text. 9;
  stringify_pretty = λ node indent. codes "[]";
}

-- The daemon has started with the document's rules, and two rounds are over.
start-ResultAfter_example :
    ResultAfter document fixed game_os list_aya quiet busy good_loader 1234 2 game
      (codes "UnityMain")
      (machine_with no_maps)
      (start document fixed game_os quiet busy good_loader 1234
        (codes "-c" ∷ codes "/c.json" ∷ codes "-s" ∷ codes "3" ∷ [])
        (machine_with no_maps))
start-ResultAfter_example =
    start-ResultAfter document fixed game_os list_aya quiet busy good_loader 1234 2 game
      (codes "UnityMain") (machine_with no_maps)
      (codes "-c" ∷ codes "/c.json" ∷ codes "-s" ∷ codes "3" ∷ []) (machine_with no_maps)

-- The mode without eBPF, before its first round.
abbrev polling : Daemon
polling = record running { ok = false; proc_state = new_state }

polling-IsPolling : IsPolling polling
unfolding lookup
polling-IsPolling = record {
  is_proc = refl;
  is_tracked = record { pkgs_in = λ j. refl; tasks_in = λ j. refl };
}

main_rounds-IsPolling_example :
    IsPolling
      (main_rounds document fixed game_os list_aya quiet busy
        (codes "/c.json")
        phone_clusters
        2
        3
        (polling, machine_with no_maps)).0
main_rounds-IsPolling_example =
    main_rounds-IsPolling document fixed game_os list_aya quiet busy (codes "/c.json")
      phone_clusters 2 3 (polling, machine_with no_maps) polling-IsPolling

-- A round in which the end of the worker is received: the configuration is as before.
still_running :
    (check_config document game_os quiet (codes "/c.json") running (machine_with two_keys)).0.1.ok
    ≡ true
unfolding check_config read_inotify on_inotify on_mtime
still_running = refl

abbrev after_round : Daemon × Machine (Unit {0}) Maps
after_round =
    main_round document fixed game_os list_aya quiet busy (codes "/c.json") phone_clusters 2 running
      (machine_with two_keys)

goes_on : after_round.0.ok ≡ true
unfolding main_round ebpf_round check_config read_inotify on_inotify on_mtime scan_round on_received
    sync_round
goes_on = refl

running-IsWatched :
    IsWatched list_aya list_buffer
      (at [] (running, machine_with two_keys) (worker_ends ∷ child_starts ∷ []))
running-IsWatched = record { reachable = refl; tracked = λ tid. unfold lookup in ground arith }

main_round-Tracks_example :
    Tracks list_aya
      (told list_buffer (child_starts ∷ []) [])
      after_round.0.proc_state.cache.tasks
      after_round.1.bpf
main_round-Tracks_example =
    main_round-Tracks document fixed game_os list_aya quiet busy list_buffer (codes "/c.json")
      phone_clusters 2 list_aya-AppliedLaws list_aya-SeparateMaps list_buffer-BufferLaws running
      (machine_with two_keys) [] (worker_ends ∷ child_starts ∷ []) (child_starts ∷ [])
      running-IsWatched still_running refl goes_on
