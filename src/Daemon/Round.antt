-- ===== src/Daemon/Round.antt =====
-- The cache against `APPLIED_MAP` through the rounds of the loop of `main` (src/main.rs).
use mathlib.Core.Path.{subst}
use aether_opt_ext.Base.{
  ℕ, ◌≡◌, refl, sym, ◌∙◌, some, Bool, true, false, not, ◌||◌, none, List, [], ◌∷◌, arith,
  Bool-cases, inl, inr, ltb, length, Option, Option-cases,
}
use aether_opt_ext.Base.Text.{Text}
use aether_opt_ext.Base.Map.{Map, lookup}
use aether_opt_ext.Os.{Os, Aya}
use aether_opt_ext.Os.Machine.{Machine, call}
use aether_opt_ext.Topology.{CpuTopology}
use aether_opt_ext.Bpf.{
  comm_map_init, comm_map_init_in, insert_targets, remove_targets, comm_keys_build, applied_del,
}
use aether_opt_ext.Process.Reports.{affinity_set-bpf}
use aether_opt_ext.ProcCache.{TaskEntry, ProcCache, dead_tasks, affinity_sync}
use aether_opt_ext.ProcCache.Tasks.{lookup-affinity_sync, has_id}
use aether_opt_ext.FullScan.Tracked.{Reachable, full_scan-Tracks}
use aether_opt_ext.Events.Tracked.{AppliedLaws, Tracks, Tracks-fewer, Tracks-del}
use aether_opt_ext.Daemon.{Daemon, Timing, scan_round, sync_round, applied_del_all, is_due}

-- `TARGET_COMM_MAP` and `APPLIED_MAP` are two maps.
pub record SeparateMaps {B : Type 0} (aya : Aya B) : Type 0 where
  pub has_target_insert :
      (k : List ℕ) (v : ℕ) (b : B) → aya.has_applied (aya.target_insert k v b) ≡ aya.has_applied b
  pub has_target_remove :
      (k : List ℕ) (b : B) → aya.has_applied (aya.target_remove k b) ≡ aya.has_applied b

abbrev pub none_pending : ℕ → Bool
none_pending j = false

-- What is said while the test holds.
abbrev pub While : Bool → Type 0 → Type 0
While true P = P
While false P = Unit

pub While-intro : {P : Type 0} (b : Bool) → (b ≡ true → P) → While b P
While-intro true p = p refl
While-intro false p = tt

pub While-elim : {P : Type 0} (b : Bool) → While b P → b ≡ true → P
While-elim true p holds = p
While-elim false p holds = absurd (ground arith)

module _ {B : Type 0} (aya : Aya B) where
  pub Tracks→Reachable :
      (pending : ℕ → Bool) (tasks : Map TaskEntry) (o : Option B)
      → Tracks aya pending tasks o
      → Reachable aya o
  Tracks→Reachable pending tasks none t = t
  Tracks→Reachable pending tasks (some b) t = t.reachable

  -- The same threads under other reasons to be missing.
  pub Tracks-more :
      (before after : ℕ → Bool) (tasks : Map TaskEntry) (o : Option B)
      → ((j : ℕ) → before j ≡ true → after j ≡ true)
      → Tracks aya before tasks o
      → Tracks aya after tasks o
  Tracks-more before after tasks o more t =
      Tracks-fewer aya before after tasks tasks o more (λ j k. k) t

module _ {B : Type 0} (aya : Aya B) (sep : SeparateMaps aya) where
  has_applied-insert_targets :
      (ks : List (List ℕ)) (b : B) → aya.has_applied (insert_targets aya ks b) ≡ aya.has_applied b
  unfolding insert_targets
  has_applied-insert_targets [] b = refl
  has_applied-insert_targets (k ∷ ks) b =
      has_applied-insert_targets ks _ ∙ sep.has_target_insert k 1 b

  has_applied-remove_targets :
      (ks : List (List ℕ)) (b : B) → aya.has_applied (remove_targets aya ks b) ≡ aya.has_applied b
  unfolding remove_targets
  has_applied-remove_targets [] b = refl
  has_applied-remove_targets (k ∷ ks) b =
      has_applied-remove_targets ks _ ∙ sep.has_target_remove k b

  comm_map_init_in-has_applied :
      (pkgs : List Text) (n : ℕ) (b : B)
      → aya.has_applied (comm_map_init_in aya pkgs n b).1 ≡ aya.has_applied b
  unfolding comm_map_init_in
  comm_map_init_in-has_applied pkgs n b =
      let entries = comm_keys_build pkgs in
      elim (Bool-cases (ltb n (length entries))) [
        | inl many ↦ rw many refl
        | inr few ↦ elim (Bool-cases (not (aya.has_target b))) [
          | inl missing ↦ rw (few, missing) refl
          | inr there ↦
              rw (few, there)
                (has_applied-insert_targets entries _ ∙ has_applied-remove_targets _ b)
        ]
      ]

  comm_map_init-Reachable :
      {W : Type 0} (pkgs : List Text) (n : ℕ) (m : Machine W B)
      → Reachable aya m.bpf
      → Reachable aya (comm_map_init aya pkgs n m).1.bpf
  unfolding comm_map_init
  comm_map_init-Reachable pkgs n m h = elim (Option-cases m.bpf) [
    | inl missing ↦ rw (missing, comm_map_init) h
    | inr (b, loaded) ↦
        rw (loaded, comm_map_init)
          (comm_map_init_in-has_applied pkgs n b ∙ subst (λ o. Reachable aya o) loaded h)
  ]

-- Threads that have gone are taken out of the map one by one.
module _ {W B : Type 0} (aya : Aya B) (laws : AppliedLaws aya) (pending : ℕ → Bool) where
  applied_del_all-Tracks :
      (tids : List ℕ) (tasks : Map TaskEntry) (m : Machine W B)
      → ((j : ℕ) → has_id j tids ≡ true → lookup j tasks ≡ none)
      → Tracks aya pending tasks m.bpf
      → Tracks aya pending tasks (applied_del_all aya tids m).bpf
  unfolding applied_del_all applied_del
  applied_del_all-Tracks [] tasks m gone t = t
  applied_del_all-Tracks (tid ∷ tids) tasks m gone t =
      applied_del_all-Tracks tids tasks _ (λ j h. gone j (ground arith))
        (Tracks-del aya laws pending pending tasks tasks tid m.bpf (λ j ne p. p)
          (λ j. ground (arith, gone j)) t)

module _ {W B : Type 0} (os : Os W) (topo : CpuTopology) where
  dead_tasks-bpf :
      (tasks : Map TaskEntry) (m : Machine W B) → (dead_tasks os tasks topo m).1.bpf ≡ m.bpf
  unfolding dead_tasks
  dead_tasks-bpf [] m = refl
  dead_tasks-bpf ((tid, e) ∷ tasks) m =
      dead_tasks-bpf tasks _ ∙ affinity_set-bpf os tid e.cpus e.cpuset_dir topo m

  affinity_sync-bpf :
      (pc : ProcCache) (m : Machine W B) → (affinity_sync os pc topo m).1.bpf ≡ m.bpf
  unfolding affinity_sync
  affinity_sync-bpf pc m = dead_tasks-bpf pc.tasks m

module _ {W B : Type 0} (os : Os W) (aya : Aya B) (laws : AppliedLaws aya) (sep : SeparateMaps aya)
    (timing : Timing W) (interval : ℕ) where
  pub scan_round-Tracks :
      (pending : ℕ → Bool) (changed : Bool) (d : Daemon) (m : Machine W B)
      → Reachable aya m.bpf
      → (d.need_full_scan ≡ false → Tracks aya pending d.proc_state.cache.tasks m.bpf)
      → Tracks aya pending
          (scan_round os aya timing interval changed d m).0.proc_state.cache.tasks
          (scan_round os aya timing interval changed d m).1.bpf
  unfolding scan_round
  scan_round-Tracks pending changed d m reach t = elim (Bool-cases (changed || d.need_full_scan)) [
    | inl scans ↦ rw scans (
        Tracks-fewer aya none_pending pending _ _ _ (λ j p. absurd (ground arith)) (λ j k. k)
          (full_scan-Tracks os aya laws d.cfg d.proc_state.cache _
            (comm_map_init-Reachable aya sep d.cfg.pkg_set d.comm_capacity m reach)))
    | inr waits ↦ rw waits (t (ground arith))
  ]

  pub sync_round-Tracks :
      (pending : ℕ → Bool) (d : Daemon) (m : Machine W B)
      → Tracks aya pending d.proc_state.cache.tasks m.bpf
      → Tracks aya pending
          (sync_round os aya timing interval d m).0.proc_state.cache.tasks
          (sync_round os aya timing interval d m).1.bpf
  unfolding sync_round
  sync_round-Tracks pending d m t =
      let now = call timing.now m in
      let pc = d.proc_state.cache in
      let synced = affinity_sync os pc d.cfg.topo now.1 in
      let lost = lookup-affinity_sync os pc d.cfg.topo now.1 in
      elim (Bool-cases (is_due now.0 d.affinity_deadline interval)) [
        | inl due ↦ rw due (
            applied_del_all-Tracks aya laws pending synced.0.0 synced.0.1.tasks synced.1
              (λ j gone. lost j ∙ rw gone refl)
              (subst (λ o. Tracks aya pending synced.0.1.tasks o)
                (sym (affinity_sync-bpf os d.cfg.topo pc now.1))
                (Tracks-fewer aya pending pending pc.tasks synced.0.1.tasks m.bpf (λ j p. p)
                  (λ j k. ground (arith, lost j)) t)))
        | inr early ↦ rw early t
      ]
