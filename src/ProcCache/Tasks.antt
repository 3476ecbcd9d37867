-- ===== src/ProcCache/Tasks.antt =====
-- What the operations of the cache do to its two maps.
use aether_opt_ext.Base.{
  ◌⊎◌, [], is_some, ℕ, ◌≡◌, ◌≢◌, inl, inr, refl, Bool, true, false, not, ◌&&◌, Option, none, some,
  List, [], ◌∷◌, State, arith, any, eq_refl, ◌==◌, if◌then◌else◌, Bool-cases,
}
use aether_opt_ext.Base.Map.{Map, lookup, remove, any_value, lookup-remove, lookup-insert, map_laws}
use aether_opt_ext.Base.Text.{Text}
use aether_opt_ext.CpuSet.{CpuSet}
use aether_opt_ext.Os.{Os}
use aether_opt_ext.Os.Machine.{Machine}
use aether_opt_ext.Topology.{CpuTopology}
use aether_opt_ext.Config.{AppConfig}
use aether_opt_ext.RuleMatch.{AffinityResult, thread_affinity}
use aether_opt_ext.ProcCache.{
  TaskEntry, ProcCache, purge_of, pkgs_purge, task_del, task_del_all, is_thread_bound, task_bind,
  task_update, task_apply, affinity_sync,
}

-- Whether the deletion of a task leaves its process with no thread in the cache.
abbrev pub last_of : ℕ → Option TaskEntry → Map TaskEntry → Bool
last_of pid none rest = false
last_of pid (some t) rest = t.pid == pid && not (any_value (λ (u : TaskEntry). u.pid == t.pid) rest)

purge_of-pkgs :
    (o : Option TaskEntry) (pc : ProcCache) (p : ℕ)
    → lookup p (purge_of o pc).pkgs ≡ (if last_of p o pc.tasks then none else lookup p pc.pkgs)
unfolding purge_of pkgs_purge
purge_of-pkgs none pc p = refl
purge_of-pkgs (some t) pc p = ground (arith, lookup-remove t.pid p pc.pkgs)

module _ (tid : ℕ) (pc : ProcCache) where
  pub lookup-task_del :
      (j : ℕ) → lookup j (task_del tid pc).tasks ≡ (if tid == j then none else lookup j pc.tasks)
  unfolding task_del purge_of pkgs_purge
  lookup-task_del j = ground (arith, lookup-remove tid j pc.tasks)

  pub lookup_pkgs-task_del :
      (p : ℕ)
      → lookup p (task_del tid pc).pkgs
        ≡ (if last_of p (lookup tid pc.tasks) (remove tid pc.tasks) then none else lookup p pc.pkgs)
  unfolding task_del
  lookup_pkgs-task_del p =
      purge_of-pkgs (lookup tid pc.tasks) (record pc { tasks = remove tid pc.tasks }) p

-- `task_del` forgets the thread and no other. It forgets a package exactly when that thread was the
-- last of the process in the cache.
pub task_del_lem :
    (tid : ℕ) (pc : ProcCache) (j p : ℕ)
    → (lookup j (task_del tid pc).tasks ≡ (if tid == j then none else lookup j pc.tasks))
      × (lookup p (task_del tid pc).pkgs ≡ (
          if last_of p (lookup tid pc.tasks) (remove tid pc.tasks) then none else lookup p pc.pkgs))
task_del_lem tid pc j p = (lookup-task_del tid pc j, lookup_pkgs-task_del tid pc p)

abbrev pub has_id : ℕ → List ℕ → Bool
has_id j ids = any (λ i. i == j) ids

pub lookup-task_del_all :
    (tids : List ℕ) (pc : ProcCache) (j : ℕ)
    → lookup j (task_del_all tids pc).tasks ≡ (if has_id j tids then none else lookup j pc.tasks)
unfolding task_del_all
lookup-task_del_all [] pc j = refl
lookup-task_del_all (tid ∷ tids) pc j =
    ground (arith, lookup-task_del tid pc j, lookup-task_del_all tids (task_del tid pc) j)

-- Packages are only forgotten.
pub lookup_pkgs-task_del_all :
    (tids : List ℕ) (pc : ProcCache) (p : ℕ)
    → is_some (lookup p (task_del_all tids pc).pkgs) ≡ true
    → is_some (lookup p pc.pkgs) ≡ true
unfolding task_del_all
lookup_pkgs-task_del_all [] pc p h = h
lookup_pkgs-task_del_all (tid ∷ tids) pc p h =
    ground
      (arith, lookup_pkgs-task_del tid pc p, lookup_pkgs-task_del_all tids (task_del tid pc) p h)

-- What a call may leave of a thread that is bound by a thread rule.
abbrev pub StaysThreadBound : Bool → Option TaskEntry → Type 0
StaysThreadBound returned none = returned ≡ false
StaysThreadBound returned (some e) = e.is_thread_rule ≡ true

bound_stays : (o : Option TaskEntry) (b : Bool) → is_thread_bound o ≡ true → StaysThreadBound b o
bound_stays none b h = cc
bound_stays (some e) b h = h

module _ {W B : Type 0} (tid pid : ℕ) (apply_fn : ℕ → CpuSet → Text → State (Machine W B) Bool)
    (pc : ProcCache) where
  task_bind_self :
      (r : AffinityResult) (m : Machine W B)
      → r.is_thread_rule ≡ true
      → StaysThreadBound
          (task_bind tid pid apply_fn pc r m).0.0
          (lookup tid (task_bind tid pid apply_fn pc r m).0.1.tasks)
  unfolding task_bind
  task_bind_self r m h = elim (Bool-cases (apply_fn tid r.cpus r.cpuset_dir m).0) [
    | inl dead ↦ rw (dead, lookup-remove, eq_refl) refl
    | inr alive ↦ rw (alive, lookup-insert, eq_refl) h
  ]

  task_bind-other :
      (r : AffinityResult) (m : Machine W B) (j : ℕ)
      → tid ≢ j
      → lookup j (task_bind tid pid apply_fn pc r m).0.1.tasks ≡ lookup j pc.tasks
  unfolding task_bind
  task_bind-other r m j ne = elim (Bool-cases (apply_fn tid r.cpus r.cpuset_dir m).0) [
    | inl dead ↦ rw dead (ground (arith, lookup-remove tid j pc.tasks))
    | inr alive ↦ rw alive (simp map_laws (ground arith))
  ]

  task_update-StaysThreadBound :
      (o : Option AffinityResult) (m : Machine W B)
      → is_thread_bound (lookup tid pc.tasks) ≡ true
      → StaysThreadBound
          (task_update tid pid apply_fn pc o m).0.0
          (lookup tid (task_update tid pid apply_fn pc o m).0.1.tasks)
  unfolding task_update
  task_update-StaysThreadBound none m h = bound_stays (lookup tid pc.tasks) false h
  task_update-StaysThreadBound (some r) m h =
      elim (Bool-cases (not r.is_thread_rule && is_thread_bound (lookup tid pc.tasks))) [
        | inl keeps ↦ rw keeps (bound_stays (lookup tid pc.tasks) true h)
        | inr binds ↦
            let thread : r.is_thread_rule ≡ true = ground arith in
            rw binds (task_bind_self r m thread)
      ]

  -- What happens to a thread that is bound by a thread rule: with no result or a fallback nothing,
  -- and `apply_fn` is not called; with a thread rule's result it is bound anew.
  abbrev pub Rebound :
      Option AffinityResult → Machine W B → (Bool × ProcCache) × Machine W B → Type 0
  Rebound none m s = s ≡ ((false, pc), m)
  Rebound (some r) m s =
      (r.is_thread_rule ≡ false) × (s ≡ ((true, pc), m))
      ⊎ (r.is_thread_rule ≡ true) × (s.1 ≡ (apply_fn tid r.cpus r.cpuset_dir m).1)

  task_update-Rebound :
      (o : Option AffinityResult) (m : Machine W B)
      → is_thread_bound (lookup tid pc.tasks) ≡ true
      → Rebound o m (task_update tid pid apply_fn pc o m)
  unfolding task_update task_bind
  task_update-Rebound none m h = refl
  task_update-Rebound (some r) m h = elim (Bool-cases r.is_thread_rule) [
    | inl thread ↦ inr (thread, rw thread refl)
    | inr fallback ↦ inl (fallback, rw (fallback, h) refl)
  ]

  task_update-other :
      (o : Option AffinityResult) (m : Machine W B) (j : ℕ)
      → tid ≢ j
      → lookup j (task_update tid pid apply_fn pc o m).0.1.tasks ≡ lookup j pc.tasks
  unfolding task_update
  task_update-other none m j ne = refl
  task_update-other (some r) m j ne =
      elim (Bool-cases (not r.is_thread_rule && is_thread_bound (lookup tid pc.tasks))) [
        | inl keeps ↦ rw keeps
        | inr binds ↦ rw binds (task_bind-other r m j ne)
      ]

  pub task_update-pkgs :
      (o : Option AffinityResult) (m : Machine W B)
      → (task_update tid pid apply_fn pc o m).0.1.pkgs ≡ pc.pkgs
  unfolding task_update task_bind
  task_update-pkgs none m = refl
  task_update-pkgs (some r) m = ground arith

module _ {W B : Type 0} (os : Os W) (tid pid : ℕ) (pkg comm : Text) (has_thread_rules : Bool)
    (cfg : AppConfig) (trust_comm : Bool) (apply_fn : ℕ → CpuSet → Text → State (Machine W B) Bool)
    (pc : ProcCache) (m : Machine W B) where
  abbrev affinity : Option AffinityResult × Machine W B
  affinity =
      thread_affinity os pkg (if has_thread_rules && trust_comm then comm else []) cfg cfg.topo m

  abbrev applied : (Bool × ProcCache) × Machine W B
  applied = task_apply os tid pid pkg comm has_thread_rules cfg trust_comm apply_fn pc m

  -- A thread that a thread rule bound is never bound by a fallback. If `thread_affinity` returns
  -- nothing or a fallback for it, `task_apply` does not call `apply_fn`, and the cache and the machine
  -- are as `thread_affinity` left them; otherwise the result is a thread rule's, with whose CPUs and
  -- directory `apply_fn` is called. In every case the thread is still bound by a thread rule, or
  -- `task_apply` returned false and forgot it.
  pub task_apply-StaysThreadBound :
      is_thread_bound (lookup tid pc.tasks) ≡ true
      → Rebound tid pid apply_fn pc affinity.0 affinity.1 applied
        × StaysThreadBound applied.0.0 (lookup tid applied.0.1.tasks)
  unfolding task_apply
  task_apply-StaysThreadBound h = (
    task_update-Rebound tid pid apply_fn pc affinity.0 affinity.1 h,
    task_update-StaysThreadBound tid pid apply_fn pc _ _ h,
  )

  -- `task_apply` changes the entry of its own thread and nothing else in the cache.
  pub task_apply-other :
      (j : ℕ)
      → tid ≢ j
      → (lookup j applied.0.1.tasks ≡ lookup j pc.tasks) × (applied.0.1.pkgs ≡ pc.pkgs)
  unfolding task_apply
  task_apply-other j ne =
      (task_update-other tid pid apply_fn pc _ _ j ne, task_update-pkgs tid pid apply_fn pc _ _)

module _ {W B : Type 0} (os : Os W) (pc : ProcCache) (topo : CpuTopology) (m : Machine W B) where
  abbrev synced : (List ℕ × ProcCache) × Machine W B
  synced = affinity_sync os pc topo m

  -- `affinity_sync` drops from the tasks the threads that it returns as dead, and no other.
  pub lookup-affinity_sync :
      (j : ℕ)
      → lookup j synced.0.1.tasks ≡ (if has_id j synced.0.0 then none else lookup j pc.tasks)
  unfolding affinity_sync
  lookup-affinity_sync j = lookup-task_del_all _ pc j

  pub lookup_pkgs-affinity_sync :
      (p : ℕ) → is_some (lookup p synced.0.1.pkgs) ≡ true → is_some (lookup p pc.pkgs) ≡ true
  unfolding affinity_sync
  lookup_pkgs-affinity_sync p h = lookup_pkgs-task_del_all _ pc p h
