-- ===== src/Daemon/Tracked.antt =====
-- The tracked processes and the cache through the rounds of the loop of `main` (src/main.rs) in the
-- mode without eBPF.
use mathlib.Core.Path.{subst}
use aether_opt_ext.Base.{
  ℕ, zero, suc, ◌+◌, ◌≡◌, refl, sym, ◌∙◌, Bool, true, false, not, ◌||◌, arith, is_some, Bool-cases,
  inl, inr, leb,
}
use aether_opt_ext.Base.Text.{Text}
use aether_opt_ext.Base.Map.{lookup}
use aether_opt_ext.Os.{Os, Aya}
use aether_opt_ext.Os.Machine.{Machine, call}
use aether_opt_ext.Config.{AppConfig}
use aether_opt_ext.Entries.{Json}
use aether_opt_ext.ConfigFile.Save.{JsonBuild}
use aether_opt_ext.Clusters.{Clusters}
use aether_opt_ext.Inotify.{Inotify}
use aether_opt_ext.ProcCache.{affinity_sync}
use aether_opt_ext.ProcCache.Tasks.{has_id, lookup-affinity_sync, lookup_pkgs-affinity_sync}
use aether_opt_ext.ProcMode.{ProcState, has_pid, proc_cache_sync}
use aether_opt_ext.ProcMode.Owner.{owner_in}
use aether_opt_ext.ProcMode.Tracked.{Synced, proc_cache_sync-Consistent}
use aether_opt_ext.Daemon.{
  Daemon, Timing, is_due, mark_changed, check_config, correct, look_for_apps, proc_round,
  main_round,
}
use aether_opt_ext.Daemon.Frame.{check_config-Unchanged}
use aether_opt_ext.Daemon.Loop.{main_rounds, proc_round-ok}

-- Only tracked processes have a package or threads in the cache.
pub record IsTracked (state : ProcState) : Type 0 where
  pub pkgs_in :
      (j : ℕ) → (not (is_some (lookup j state.cache.pkgs)) || has_pid j state.tracked_pids) ≡ true
  pub tasks_in :
      (j : ℕ) → owner_in (λ pid. has_pid pid state.tracked_pids) (lookup j state.cache.tasks) ≡ true

Synced-IsTracked :
    (before : ProcState) (r : Bool × ProcState) → Synced before r → IsTracked before → IsTracked r.1
Synced-IsTracked before (true, after) s t = record {
  pkgs_in = λ j. ground (arith, s.pkgs_tracked j);
  tasks_in = s.tasks_tracked;
}
Synced-IsTracked before (false, after) (cache, pids) t = record {
  pkgs_in = λ j. rw (cache, pids) (t.pkgs_in j);
  tasks_in = λ j. rw (cache, pids) (t.tasks_in j);
}

module _ {W B : Type 0} (os : Os W) where
  -- What the correction of the bindings leaves of the cache.
  affinity_sync-IsTracked :
      (cfg : AppConfig) (state next : ProcState) (m : Machine W B)
      → next.tracked_pids ≡ state.tracked_pids
      → next.cache ≡ (affinity_sync os state.cache cfg.topo m).0.1
      → IsTracked state
      → IsTracked next
  affinity_sync-IsTracked cfg state next m pids cache t = record {
    pkgs_in = λ j.
        rw (pids, cache)
          (ground (arith, t.pkgs_in j, lookup_pkgs-affinity_sync os state.cache cfg.topo m j));
    tasks_in = λ j.
        rw (pids, cache, lookup-affinity_sync os state.cache cfg.topo m j)
          (elim (Bool-cases (has_id j (affinity_sync os state.cache cfg.topo m).0.0)) [
            | inl gone ↦ rw gone refl
            | inr alive ↦ rw alive (t.tasks_in j)
          ]);
  }

module _ {J W B : Type 0} (json : Json J) (build : JsonBuild J) (os : Os W) (timing : Timing W)
    (clusters : Clusters) (interval : ℕ) where
  correct-IsTracked :
      (d : Daemon) (m : Machine W B)
      → IsTracked d.proc_state
      → IsTracked (correct json build os timing clusters interval d m).0.proc_state
  unfolding correct
  correct-IsTracked d m t =
      let now = call timing.now m in
      let due = is_due now.0 d.affinity_deadline interval in
      elim (Bool-cases (d.proc_state.force_affinity || due)) [
        | inl corrects ↦ rw corrects (
            affinity_sync-IsTracked os d.cfg d.proc_state
              (record d.proc_state {
                cache = (affinity_sync os d.proc_state.cache d.cfg.topo now.1).0.1;
                force_affinity = false;
              })
              now.1 refl refl t)
        | inr waits ↦ rw waits t
      ]

  look_for_apps-proc_state :
      (d : Daemon) (m : Machine W B)
      → (look_for_apps json build os timing clusters interval d m).0.proc_state ≡ d.proc_state
  unfolding look_for_apps
  look_for_apps-proc_state d m = elim (Bool-cases (leb 30 (d.cache_scan + 1))) [
    | inl due ↦ rw due refl
    | inr early ↦ rw early refl
  ]

  proc_round-IsTracked :
      (changed : Bool) (d : Daemon) (m : Machine W B)
      → IsTracked d.proc_state
      → IsTracked (proc_round json build os timing clusters interval changed d m).0.proc_state
  unfolding proc_round
  proc_round-IsTracked changed d m t =
      let state = mark_changed changed d.proc_state in
      let synced = proc_cache_sync os d.cfg state m in
      let synced_d : Daemon = record d { proc_state = synced.0.1 } in
      let corrected = correct json build os timing clusters interval synced_d synced.1 in
      subst (λ s. IsTracked s) (sym (look_for_apps-proc_state corrected.0 corrected.1))
        (correct-IsTracked synced_d synced.1 (
          Synced-IsTracked state synced.0 (proc_cache_sync-Consistent os d.cfg state m)
            (elim (Bool-cases changed) [
              | inl is_changed ↦
                  rw is_changed (record { pkgs_in = t.pkgs_in; tasks_in = t.tasks_in })
              | inr same ↦ rw same t
            ])))

-- The mode without eBPF, with a cache of tracked processes only.
pub record IsPolling (d : Daemon) : Type 0 where
  pub is_proc : d.ok ≡ false
  pub is_tracked : IsTracked d.proc_state

module _ {J W B : Type 0} (json : Json J) (build : JsonBuild J) (os : Os W) (aya : Aya B)
    (ino : Inotify W) (timing : Timing W) (config_path : Text) (clusters : Clusters)
    (interval : ℕ) where
  main_round-IsPolling :
      (d : Daemon) (m : Machine W B)
      → IsPolling d
      → IsPolling (main_round json build os aya ino timing config_path clusters interval d m).0
  unfolding main_round
  main_round-IsPolling d m p =
      let checked = check_config json os ino config_path d m in
      let u = check_config-Unchanged json os ino config_path d m in
      let proc_mode = u.same_ok ∙ p.is_proc in
      rw proc_mode (record {
        is_proc =
            proc_round-ok json build os timing clusters interval checked.0.0 checked.0.1 checked.1
            ∙ proc_mode;
        is_tracked =
            proc_round-IsTracked json build os timing clusters interval checked.0.0 checked.0.1
              checked.1 (subst (λ s. IsTracked s) (sym u.same_state) p.is_tracked);
      })

  -- Once the daemon is in its mode without eBPF, with packages and threads of tracked processes only
  -- in the cache, it stays in this mode through any number of rounds, with reloads, rebuilt caches,
  -- corrections and new entries for unknown apps, and the cache never holds a package or a thread of
  -- a process that is not tracked.
  pub main_rounds-IsPolling :
      (n : ℕ) (s : Daemon × Machine W B)
      → IsPolling s.0
      → IsPolling (main_rounds json build os aya ino timing config_path clusters interval n s).0
  unfolding main_rounds
  main_rounds-IsPolling zero s p = p
  main_rounds-IsPolling (suc n) s p = main_rounds-IsPolling n _ (main_round-IsPolling s.0 s.1 p)
