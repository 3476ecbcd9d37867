-- ===== src/Daemon/Loop.antt =====
-- Any number of rounds of the loop of `main` (src/main.rs).
use aether_opt_ext.Base.{ℕ, zero, suc, ◌≡◌, refl, ◌∙◌, Bool, ◌||◌, Bool-cases, inl, inr, leb, ◌+◌}
use aether_opt_ext.Base.Text.{Text}
use aether_opt_ext.Os.{Os, Aya}
use aether_opt_ext.Os.Machine.{Machine, call}
use aether_opt_ext.Entries.{Json}
use aether_opt_ext.ConfigFile.Save.{JsonBuild}
use aether_opt_ext.Clusters.{Clusters}
use aether_opt_ext.Inotify.{Inotify}
use aether_opt_ext.ProcMode.{proc_cache_sync}
use aether_opt_ext.Daemon.{
  Daemon, Timing, proc_round, correct, look_for_apps, mark_changed, is_due, main_round,
}

module _ {J W B : Type 0} (json : Json J) (build : JsonBuild J) (os : Os W) (timing : Timing W)
    (clusters : Clusters) (interval : ℕ) where
  correct-ok :
      (d : Daemon) (m : Machine W B)
      → (correct json build os timing clusters interval d m).0.ok ≡ d.ok
  unfolding correct
  correct-ok d m =
      let now = call timing.now m in
      elim (Bool-cases (d.proc_state.force_affinity || is_due now.0 d.affinity_deadline interval)) [
        | inl due ↦ rw due refl
        | inr early ↦ rw early refl
      ]

  look_for_apps-ok :
      (d : Daemon) (m : Machine W B)
      → (look_for_apps json build os timing clusters interval d m).0.ok ≡ d.ok
  unfolding look_for_apps
  look_for_apps-ok d m = elim (Bool-cases (leb 30 (d.cache_scan + 1))) [
    | inl due ↦ rw due refl
    | inr early ↦ rw early refl
  ]

  pub proc_round-ok :
      (changed : Bool) (d : Daemon) (m : Machine W B)
      → (proc_round json build os timing clusters interval changed d m).0.ok ≡ d.ok
  unfolding proc_round
  proc_round-ok changed d m =
      let synced = proc_cache_sync os d.cfg (mark_changed changed d.proc_state) m in
      let synced_d : Daemon = record d { proc_state = synced.0.1 } in
      let corrected = correct json build os timing clusters interval synced_d synced.1 in
      look_for_apps-ok corrected.0 corrected.1 ∙ correct-ok synced_d synced.1

module _ {J W B : Type 0} (json : Json J) (build : JsonBuild J) (os : Os W) (aya : Aya B)
    (ino : Inotify W) (timing : Timing W) (config_path : Text) (clusters : Clusters)
    (interval : ℕ) where
  -- The variables after some rounds.
  unfoldable pub main_rounds : ℕ → Daemon × Machine W B → Daemon × Machine W B
  main_rounds zero s = s
  main_rounds (suc n) s =
      main_rounds n (main_round json build os aya ino timing config_path clusters interval s.0 s.1)
