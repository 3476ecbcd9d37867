-- ===== src/Process/Reports.antt =====
-- `affinity_set` of src/process.rs: the failures that it logs, and the BPF object.
use aether_opt_ext.Base.{
  ℕ, ◌≡◌, ◌∙◌, refl, true, ap, ◌||◌, false, List, [], ◌∷◌, arith, any, ◌==◌, Bool-cases, inl, inr,
}
use aether_opt_ext.Base.Text.{Text, text_eq_refl}
use aether_opt_ext.CpuSet.{CpuSet}
use aether_opt_ext.CpuRange.{to_range_string}
use aether_opt_ext.Os.{Os}
use aether_opt_ext.Os.Machine.{Machine, call}
use aether_opt_ext.Topology.{CpuTopology}
use aether_opt_ext.Process.{
  key_eq, esrch, is_current, report_failure, write_tasks, bind_cpus, affinity_set,
}

-- No pair stands in the list twice.
abbrev pub NoRepeats : List (ℕ × Text) → Type 0
NoRepeats [] = Unit
NoRepeats (k ∷ ks) = (any (key_eq k) ks ≡ false) × NoRepeats ks

-- The log tells the failures that are noted, each of them once.
pub record LogsOnce {W B : Type 0} (m : Machine W B) : Type 0 where
  pub once : NoRepeats m.logged
  pub same : (k : ℕ × Text) → any (key_eq k) m.logged ≡ any (key_eq k) m.failed_once

module _ {W B : Type 0} where
  report_failure-LogsOnce :
      (tid : ℕ) (cpus : Text) (m : Machine W B)
      → LogsOnce m
      → LogsOnce (report_failure tid cpus m)
        × (any (key_eq (tid, cpus)) (report_failure tid cpus m).logged ≡ true)
  unfolding report_failure
  report_failure-LogsOnce tid cpus m h =
      elim (Bool-cases (any (key_eq (tid, cpus)) m.failed_once)) [
        | inl known ↦ rw known (h, h.same (tid, cpus) ∙ known)
        | inr fresh ↦ rw fresh (
          record {
            once = (h.same (tid, cpus) ∙ fresh, h.once);
            same = λ k. ap (λ b. key_eq k (tid, cpus) || b) (h.same k);
          },
          ground (arith, text_eq_refl cpus),
        )
      ]

  report_failure-bpf :
      (tid : ℕ) (cpus : Text) (m : Machine W B) → (report_failure tid cpus m).bpf ≡ m.bpf
  unfolding report_failure
  report_failure-bpf tid cpus m = ground arith

module _ {W B : Type 0} (os : Os W) (tid : ℕ) (cpus : CpuSet) where
  write_tasks-LogsOnce :
      (dir : Text) (topo : CpuTopology) (m : Machine W B)
      → LogsOnce m
      → LogsOnce (write_tasks os tid dir topo m)
  unfolding write_tasks
  write_tasks-LogsOnce dir topo m h = elim (Bool-cases topo.cpuset_enabled) [
    | inl on ↦ rw on (record { once = h.once; same = h.same })
    | inr off ↦ rw off h
  ]

  write_tasks-bpf :
      (dir : Text) (topo : CpuTopology) (m : Machine W B)
      → (write_tasks os tid dir topo m).bpf ≡ m.bpf
  unfolding write_tasks
  write_tasks-bpf dir topo m = ground arith

  bind_cpus-LogsOnce :
      (m : Machine W B)
      → LogsOnce m
      → LogsOnce (bind_cpus os tid cpus m).1
        × ((call (os.setaffinity tid cpus) m).0 == 0
            || (call (os.setaffinity tid cpus) m).0 == esrch
            || any (key_eq (tid, to_range_string cpus)) (bind_cpus os tid cpus m).1.logged)
          ≡ true
  unfolding bind_cpus
  bind_cpus-LogsOnce m h =
      let bound = call (os.setaffinity tid cpus) m in
      let kept : LogsOnce bound.1 = record { once = h.once; same = h.same } in
      elim (Bool-cases (bound.0 == 0)) [
        | inl done ↦ rw done (kept, refl)
        | inr failed ↦ elim (Bool-cases (bound.0 == esrch)) [
          | inl gone ↦ rw (failed, gone) (kept, refl)
          | inr refused ↦
              rw (failed, refused) (report_failure-LogsOnce tid (to_range_string cpus) bound.1 kept)
        ]
      ]

  bind_cpus-bpf : (m : Machine W B) → (bind_cpus os tid cpus m).1.bpf ≡ m.bpf
  unfolding bind_cpus
  bind_cpus-bpf m =
      let bound = call (os.setaffinity tid cpus) m in
      ground (arith, report_failure-bpf tid (to_range_string cpus) bound.1)

  -- What `sched_setaffinity` returns when `affinity_set` calls it.
  abbrev pub errno_of : Text → CpuTopology → Machine W B → ℕ
  errno_of dir topo m =
      (call (os.setaffinity tid cpus)
        (write_tasks os tid dir topo (call (os.getaffinity tid) m).1)).0

  -- If the log tells exactly the failures in `FAILED_ONCE`, each of them once, it does so after
  -- `affinity_set`. If the thread did not have the CPUs and `sched_setaffinity` returns another
  -- error than that the thread has gone, the log tells the failure then.
  pub affinity_set-LogsOnce :
      (dir : Text) (topo : CpuTopology) (m : Machine W B)
      → LogsOnce m
      → LogsOnce (affinity_set os tid cpus dir topo m).1
        × (is_current (call (os.getaffinity tid) m).0 cpus
            || errno_of dir topo m == 0
            || errno_of dir topo m == esrch
            || any
                (key_eq (tid, to_range_string cpus))
                (affinity_set os tid cpus dir topo m).1.logged)
          ≡ true
  unfolding affinity_set
  affinity_set-LogsOnce dir topo m h =
      let current = call (os.getaffinity tid) m in
      let kept : LogsOnce current.1 = record { once = h.once; same = h.same } in
      let written = write_tasks os tid dir topo current.1 in
      elim (Bool-cases (is_current current.0 cpus)) [
        | inl same ↦ rw same (kept, refl)
        | inr other ↦
            rw other (bind_cpus-LogsOnce written (write_tasks-LogsOnce dir topo current.1 kept))
      ]

  pub affinity_set-bpf :
      (dir : Text) (topo : CpuTopology) (m : Machine W B)
      → (affinity_set os tid cpus dir topo m).1.bpf ≡ m.bpf
  unfolding affinity_set
  affinity_set-bpf dir topo m =
      let current = call (os.getaffinity tid) m in
      elim (Bool-cases (is_current current.0 cpus)) [
        | inl same ↦ rw same
        | inr other ↦ rw other (
            bind_cpus-bpf (write_tasks os tid dir topo current.1)
            ∙ write_tasks-bpf dir topo current.1)
      ]
