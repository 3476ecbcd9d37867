-- ===== src/Tests/Kernel.antt =====
-- The programs in the kernel, at the threads of a game.
use aether_opt_ext.Base.{
  if◌then◌else◌, ◌==◌, none, ◌^◌, ◌*◌, ◌+◌, ◌≡◌, refl, true, false, some, [], ◌∷◌, ◌++◌, arith,
  is_some, replicate, length, ltb,
}
use aether_opt_ext.Base.Map.{lookup}
use aether_opt_ext.Base.Text.{codes, text_eq, starts_with, ends_with}
use aether_opt_ext.Bpf.{
  first_text, comm_keys_build, comm_map_init_in, has_text, all_keys, comm_to_pkg,
}
use aether_opt_ext.Bpf.Keys.{length-comm_keys_build}
use aether_opt_ext.Bpf.Targets.{comm_map_init_in-keys}
use aether_opt_ext.Kernel.{Context, whitelist_matched, sched_process_fork, sched_process_exit}
use aether_opt_ext.Kernel.{low_half, applied_lookup, offsets_load}
use aether_opt_ext.Kernel.Applied.{
  inherits, applied_get-sched_process_fork, applied_get-sched_process_exit,
}
use aether_opt_ext.Kernel.Whitelist.{padded, whitelist_matched-comm_to_pkg}
use aether_opt_ext.Kernel.Reports.{Steps, fork, exit, here, next, is_covered, Steps-is_covered}
use aether_opt_ext.Tests.Sample.{game, game_config, no_maps}
use aether_opt_ext.Tests.Maps.{
  Maps, list_aya, list_ring, queued, list_aya-AppliedLaws, list_aya-TargetLaws, list_ring-RingLaws,
}

one_package : ltb 8192 (length (comm_keys_build (game ∷ []))) ≡ false
one_package = ground (arith, length-comm_keys_build (game ∷ []))

shows_game : comm_to_pkg (codes "om.example.game") game_config ≡ some game
unfolding comm_to_pkg has_text first_text starts_with ends_with text_eq
shows_game = refl

comm_map_init_in-keys_example :
    ((comm_map_init_in list_aya (game ∷ []) 8192 no_maps).0 ≡ false)
    × (is_some (
          list_aya.target_get
            (codes "com.exam")
            (comm_map_init_in list_aya (game ∷ []) 8192 no_maps).1)
        ≡ has_text (all_keys (game ∷ [])) (codes "com.exam"))
comm_map_init_in-keys_example =
    comm_map_init_in-keys list_aya list_aya-TargetLaws (game ∷ []) 8192 no_maps (codes "com.exam")
      one_package refl

-- The name of the game's main thread, which Android cuts at the front.
whitelist_matched-comm_to_pkg_example :
    whitelist_matched list_aya
      (padded (codes "om.example.game"))
      (comm_map_init_in list_aya game_config.pkg_set 8192 no_maps).1
    ≡ true
whitelist_matched-comm_to_pkg_example =
    whitelist_matched-comm_to_pkg list_aya list_aya-TargetLaws game_config 8192 no_maps
      (codes "om.example.game") game one_package refl refl (omega arith) shows_game

-- The thread 101 of the process 100 starts the thread 102, and ends.
abbrev in_101 : Context
in_101 = record {
  pid_tgid = 100 * 2 ^ 32 + 101;
  current_comm = some (codes "Worker" ++ replicate 10 0);
  read_i32 = λ offset. some 102;
  read_comm = λ offset. some (codes "Worker" ++ replicate 10 0);
}

abbrev one_thread : Maps
one_thread = record no_maps { applied = (101, 112) ∷ [] }

abbrev forked : Maps
forked = sched_process_fork list_aya list_ring in_101 one_thread

abbrev ended : Maps
ended = sched_process_exit list_aya list_ring in_101 forked

fork_then_exit : Steps list_aya list_ring one_thread ended
fork_then_exit = next (next here (fork in_101 one_thread)) (exit in_101 forked refl)

one_thread-is_covered : is_covered list_aya list_ring queued 101 one_thread ≡ true
unfolding lookup
one_thread-is_covered = refl

Steps-is_covered_example : is_covered list_aya list_ring queued 101 ended ≡ true
Steps-is_covered_example =
    Steps-is_covered list_aya list_ring queued list_aya-AppliedLaws list_ring-RingLaws 101
      fork_then_exit one_thread-is_covered

applied_get-sched_process_fork_example : list_aya.applied_get 102 forked ≡ (
    if inherits
      (offsets_load list_ring one_thread)
      in_101
      (applied_lookup list_aya (low_half in_101.pid_tgid) one_thread)
      102
    then some 0
    else list_aya.applied_get 102 one_thread)
applied_get-sched_process_fork_example =
    applied_get-sched_process_fork list_aya list_ring queued list_aya-AppliedLaws list_ring-RingLaws
      in_101 one_thread 102

applied_get-sched_process_exit_example :
    list_aya.applied_get 101 ended
    ≡ (if low_half in_101.pid_tgid == 101 then none else list_aya.applied_get 101 forked)
applied_get-sched_process_exit_example =
    applied_get-sched_process_exit list_aya list_ring queued list_aya-AppliedLaws list_ring-RingLaws
      in_101 forked 101
