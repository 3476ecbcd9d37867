-- ===== src/Tests/Dispatch.antt =====
-- Single events of a game.
use aether_opt_ext.Base.{◌≡◌, refl, true, none, some, ◌++◌, arith, replicate, ◌==◌, if◌then◌else◌}
use aether_opt_ext.Base.Map.{lookup}
use aether_opt_ext.Base.Text.{codes}
use aether_opt_ext.Events.{event_dispatch}
use aether_opt_ext.Events.Dispatch.{event_dispatch-exit, event_dispatch-fork}
use aether_opt_ext.Tests.Sample.{
  game, game_config, machine_with, two_keys, two_threads, main_ends, child_starts,
}
use aether_opt_ext.Tests.Maps.{plain_os, list_aya}

event_dispatch-exit_example :
    (lookup 101
        (event_dispatch
          (plain_os 0)
          list_aya
          main_ends
          game_config
          two_threads
          (machine_with two_keys)).0.tasks
      ≡ (if 100 == 101 then none else lookup 101 two_threads.tasks))
    × (main_ends.tid ≡ main_ends.pid
        → lookup 100
            (event_dispatch
              (plain_os 0)
              list_aya
              main_ends
              game_config
              two_threads
              (machine_with two_keys)).0.pkgs
          ≡ none)
event_dispatch-exit_example =
    event_dispatch-exit (plain_os 0) list_aya game_config main_ends two_threads
      (machine_with two_keys) 101 refl

game_cached : lookup 100 two_threads.pkgs ≡ some (game, true)
unfolding lookup
game_cached = refl

event_dispatch-fork_example :
    event_dispatch
      (plain_os 0)
      list_aya
      child_starts
      game_config
      two_threads
      (machine_with two_keys)
    ≡ event_dispatch
        (plain_os 0)
        list_aya
        (record child_starts { comm = codes "Worker" ++ replicate 10 0 })
        game_config
        two_threads
        (machine_with two_keys)
event_dispatch-fork_example =
    event_dispatch-fork (plain_os 0) list_aya game_config child_starts
      (codes "Worker" ++ replicate 10 0) (game, true) two_threads (machine_with two_keys) refl
      (omega arith) game_cached
