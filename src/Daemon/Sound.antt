-- ===== src/Daemon/Sound.antt =====
-- The rules in use while the loop of `main` (src/main.rs) runs.
use aether_opt_ext.Base.{
  ℕ, zero, suc, ◌+◌, Bool, false, ◌||◌, Option, none, some, List, Bool-cases, inl, inr, leb,
}
use aether_opt_ext.Base.Text.{Text}
use aether_opt_ext.Os.{Os, Aya}
use aether_opt_ext.Os.Machine.{Machine}
use aether_opt_ext.Config.{AppConfig}
use aether_opt_ext.RuleMatch.{thread_affinity}
use aether_opt_ext.RuleMatch.Dir.{ResultDir}
use aether_opt_ext.Entries.{Json}
use aether_opt_ext.ConfigFile.{merge}
use aether_opt_ext.ConfigFile.Sound.{LoadedRules, load-LoadedRules, merge-RulesOf}
use aether_opt_ext.ConfigFile.Save.{JsonBuild}
use aether_opt_ext.Clusters.{Clusters, detect}
use aether_opt_ext.AutoAlloc.{save_each, auto_allocate}
use aether_opt_ext.Scanner.{scan_unknown}
use aether_opt_ext.Inotify.{Inotify}
use aether_opt_ext.Tracefs.Probe.{Loader}
use aether_opt_ext.ProcMode.{proc_cache_sync}
use aether_opt_ext.Daemon.{
  Daemon, Timing, is_due, mark_changed, check_config, correct, look_for_apps, proc_round,
  main_round,
}
use aether_opt_ext.Daemon.Start.{Args, Started, parse_args, start_with, start}
use aether_opt_ext.Daemon.Loop.{main_rounds}
use aether_opt_ext.Daemon.Reloaded.{
  IsSound, if-IsSound, sound-ResultDir, check_config-IsSound, ebpf_round-IsSound,
}

module _ {J W B : Type 0} (json : Json J) (build : JsonBuild J) (os : Os W) where
  auto_allocate-IsSound :
      (clusters : Clusters) (cfg : AppConfig) (m : Machine W B)
      → IsSound cfg
      → IsSound (auto_allocate json build os clusters cfg m).0
  unfolding auto_allocate
  auto_allocate-IsSound clusters cfg m h =
      let unknown = scan_unknown os cfg.pkg_set cfg.wild m in
      let saved = save_each json build os clusters unknown.0 unknown.0 false unknown.1 in
      elim (Bool-cases saved.0) [
        | inl some_saved ↦ rw some_saved (merge-RulesOf json os cfg saved.1 h)
        | inr none_saved ↦ rw none_saved h
      ]

module _ {J W B : Type 0} (json : Json J) (build : JsonBuild J) (os : Os W) (timing : Timing W)
    (clusters : Clusters) (interval : ℕ) where
  correct-IsSound :
      (d : Daemon) (m : Machine W B)
      → IsSound d.cfg
      → IsSound (correct json build os timing clusters interval d m).0.cfg
  unfolding correct
  correct-IsSound d m h =
      let due = is_due (timing.now m.world).0 d.affinity_deadline interval in
      elim (Bool-cases (d.proc_state.force_affinity || due)) [
        | inl corrects ↦ rw corrects h
        | inr waits ↦ rw waits h
      ]

  look_for_apps-IsSound :
      (d : Daemon) (m : Machine W B)
      → IsSound d.cfg
      → IsSound (look_for_apps json build os timing clusters interval d m).0.cfg
  unfolding look_for_apps
  look_for_apps-IsSound d m h = elim (Bool-cases (leb 30 (d.cache_scan + 1))) [
    | inl due ↦ rw due (auto_allocate-IsSound json build os clusters d.cfg m h)
    | inr early ↦ rw early h
  ]

  proc_round-IsSound :
      (changed : Bool) (d : Daemon) (m : Machine W B)
      → IsSound d.cfg
      → IsSound (proc_round json build os timing clusters interval changed d m).0.cfg
  unfolding proc_round
  proc_round-IsSound changed d m h =
      let synced = proc_cache_sync os d.cfg (mark_changed changed d.proc_state) m in
      let synced_d : Daemon = record d { proc_state = synced.0.1 } in
      look_for_apps-IsSound _ _ (correct-IsSound synced_d synced.1 h)

module _ {J W B : Type 0} (json : Json J) (build : JsonBuild J) (os : Os W) (aya : Aya B)
    (ino : Inotify W) (timing : Timing W) (path : Text) (clusters : Clusters) (interval : ℕ) where
  main_round-IsSound :
      (d : Daemon) (m : Machine W B)
      → IsSound d.cfg
      → IsSound (main_round json build os aya ino timing path clusters interval d m).0.cfg
  unfolding main_round
  main_round-IsSound d m h =
      let checked = check_config json os ino path d m in
      let sound = check_config-IsSound json os ino path d m h in
      if-IsSound checked.0.1.ok (λ (s : Daemon × Machine W B). s.0.cfg) _ _
        (ebpf_round-IsSound os aya timing interval checked.0.0 checked.0.1 checked.1 sound)
        (proc_round-IsSound json build os timing clusters interval checked.0.0 checked.0.1 checked.1
          sound)

  main_rounds-IsSound :
      (n : ℕ) (s : Daemon × Machine W B)
      → IsSound s.0.cfg
      → IsSound (main_rounds json build os aya ino timing path clusters interval n s).0.cfg
  unfolding main_rounds
  main_rounds-IsSound zero s h = h
  main_rounds-IsSound (suc n) s h = main_rounds-IsSound n _ (main_round-IsSound s.0 s.1 h)

module _ {J W B : Type 0} (json : Json J) (build : JsonBuild J) (os : Os W) (aya : Aya B)
    (ino : Inotify W) (timing : Timing W) (loader : Loader W B) (self_pid : ℕ) where
  -- What a thread gets in the configuration that is in use after `n` rounds, if the daemon started.
  abbrev pub ResultAfter : ℕ → Text → Text → Machine W B → Option Started × Machine W B → Type 0
  ResultAfter n pkg thread now (none, m) = Unit
  ResultAfter n pkg thread now (some s, m) =
      let args = s.args in
      let later =
        main_rounds json build os aya ino timing args.config_path s.clusters args.interval n
          (s.daemon, m) in
      ResultDir (thread_affinity os pkg thread later.0.cfg later.0.cfg.topo now).0

  start_with-ResultAfter :
      (n : ℕ) (pkg thread : Text) (now : Machine W B) (args : Args) (o : Option AppConfig)
      (m : Machine W B)
      → LoadedRules o
      → ResultAfter n pkg thread now (start_with json build os ino timing loader self_pid args o m)
  unfolding start_with
  start_with-ResultAfter n pkg thread now args none m h = tt
  start_with-ResultAfter n pkg thread now args (some loaded) m h =
      let merged = merge json os loaded m in
      let clusters = detect os merged.1 in
      sound-ResultDir os pkg thread now _ (
        main_rounds-IsSound json build os aya ino timing args.config_path clusters.0 args.interval n
          _
          (auto_allocate-IsSound json build os clusters.0 merged.0 _
            (merge-RulesOf json os loaded m h)))

  -- Whatever the arguments, the files and the events are: if the daemon starts, then after any
  -- number of rounds, with reloads of the configuration and new entries for unknown apps, the
  -- directory that `thread_affinity` returns for a thread with the configuration in use is empty or
  -- named after exactly the CPUs that it returns.
  pub start-ResultAfter :
      (n : ℕ) (pkg thread : Text) (now : Machine W B) (arguments : List Text) (m : Machine W B)
      → ResultAfter n pkg thread now (start json build os ino timing loader self_pid arguments m)
  unfolding start
  start-ResultAfter n pkg thread now arguments m =
      start_with-ResultAfter n pkg thread now (parse_args arguments) _ _
        (load-LoadedRules json os (parse_args arguments).config_path _ _)
