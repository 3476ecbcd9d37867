-- ===== src/ProcMode/Owner.antt =====
-- The processes that own the threads in the cache.
use aether_opt_ext.Base.{
  ℕ, ◌≡◌, refl, sym, Bool, true, not, ◌||◌, ◌&&◌, Option, none, some, List, arith, Bool-cases, inl,
  inr, is_some, ◌==◌,
}
use aether_opt_ext.Base.Map.{lookup, lookup-insert, map_laws}
use aether_opt_ext.Os.Machine.{Machine}
use aether_opt_ext.RuleMatch.{AffinityResult}
use aether_opt_ext.ProcCache.{TaskEntry, ProcCache, is_thread_bound, task_bind, task_update}
use aether_opt_ext.ProcMode.{has_pid, insert_pid, apply_nothing}

-- The process of an entry passes `p`.
abbrev pub owner_in : (ℕ → Bool) → Option TaskEntry → Bool
owner_in p none = true
owner_in p (some e) = p e.pid

-- The tracked processes are those with a package in the cache, and the threads in the cache are
-- theirs.
pub record Consistent (cache : ProcCache) (tracked : List ℕ) : Type 0 where
  pub pkgs_tracked : (j : ℕ) → is_some (lookup j cache.pkgs) ≡ has_pid j tracked
  pub tasks_tracked : (j : ℕ) → owner_in (λ pid. has_pid pid tracked) (lookup j cache.tasks) ≡ true

pub owner_in_mono :
    (p q : ℕ → Bool) (o : Option TaskEntry)
    → ((x : ℕ) → p x ≡ true → q x ≡ true)
    → owner_in p o ≡ true
    → owner_in q o ≡ true
owner_in_mono p q none more h = refl
owner_in_mono p q (some e) more h = more e.pid h

pub has_pid-insert_pid :
    (pid j : ℕ) (pids : List ℕ) → has_pid j (insert_pid pid pids) ≡ (pid == j || has_pid j pids)
has_pid-insert_pid pid j pids = elim (Bool-cases (has_pid pid pids)) [
  | inl known ↦ elim (Bool-cases (pid == j)) [
    | inl same ↦ let e : pid ≡ j = ground arith in rw (known, same) (rw (sym e) known)
    | inr other ↦ rw (known, other)
  ]
  | inr new ↦ rw new
]

-- The processes that are tracked, and the present one once a thread of it was bound.
abbrev pub so_far : List ℕ → ℕ → Bool → ℕ → Bool
so_far tracked pid any_bound q = has_pid q tracked || any_bound && pid == q

module _ {W B : Type 0} (tracked : List ℕ) (tid pid : ℕ) where
  pub task_update-owned :
      (any_bound : Bool) (pc : ProcCache) (o : Option AffinityResult) (m : Machine W B)
      → ((j : ℕ) → owner_in (so_far tracked pid any_bound) (lookup j pc.tasks) ≡ true)
      → (j : ℕ)
      → owner_in
          (so_far tracked pid ((task_update tid pid apply_nothing pc o m).0.0 || any_bound))
          (lookup j (task_update tid pid apply_nothing pc o m).0.1.tasks)
        ≡ true
  unfolding task_update task_bind
  task_update-owned any_bound pc none m h j = h j
  task_update-owned any_bound pc (some r) m h j =
      let more =
        owner_in_mono (so_far tracked pid any_bound) (so_far tracked pid true) (lookup j pc.tasks)
          (λ x. ground arith) (h j) in
      elim (Bool-cases (not r.is_thread_rule && is_thread_bound (lookup tid pc.tasks))) [
        | inl keeps ↦ rw keeps more
        | inr binds ↦ elim (Bool-cases (tid == j)) [
          | inl same ↦ rw (binds, lookup-insert, same) (ground arith)
          | inr other ↦ rw binds (simp map_laws (rw other more))
        ]
      ]
