-- ===== src/Events/Dispatch.antt =====
-- What single events do to the cache.
use aether_opt_ext.Base.{
  ℕ, ◌≡◌, ◌≢◌, refl, ap, Bool, true, false, Option, none, some, List, arith, if◌then◌else◌, ◌==◌,
  State,
}
use aether_opt_ext.Base.Map.{lookup, lookup-remove}
use aether_opt_ext.Base.Text.{Text}
use aether_opt_ext.CpuSet.{CpuSet}
use aether_opt_ext.Os.{Os, Aya}
use aether_opt_ext.Os.Machine.{Machine}
use aether_opt_ext.Config.{AppConfig}
use aether_opt_ext.ProcCache.{ProcCache, task_apply, pkg_or_comm, pkg_lookup_comm}
use aether_opt_ext.ProcCache.Tasks.{lookup-task_del, lookup_pkgs-task_del}
use aether_opt_ext.Events.{
  EbpfProcEvent, event_exit, event_exec, event_fork, drop_pkg, event_apply_pkg, event_apply,
  on_exit, event_dispatch,
}

module _ {W B : Type 0} (os : Os W) (aya : Aya B) (cfg : AppConfig) where
  -- An EXIT event forgets its thread and no other thread. The end of the main thread makes the
  -- package of the process forgotten even if other threads of it are still in the cache.
  pub event_dispatch-exit :
      (event : EbpfProcEvent) (pc : ProcCache) (m : Machine W B) (j : ℕ)
      → event.event_type ≡ event_exit
      → (lookup j (event_dispatch os aya event cfg pc m).0.tasks
          ≡ (if event.tid == j then none else lookup j pc.tasks))
        × (event.tid ≡ event.pid
            → lookup event.pid (event_dispatch os aya event cfg pc m).0.pkgs ≡ none)
  unfolding event_dispatch on_exit drop_pkg
  event_dispatch-exit event pc m j is_exit =
      let dropped = if event.tid == event.pid then drop_pkg event.pid pc else pc in
      let test : (event.event_type == event_exit) ≡ true = ground arith in
      rw test (
        ground (arith, lookup-task_del event.tid dropped j),
        λ main.
            (ground (
              arith,
              main,
              lookup_pkgs-task_del event.tid dropped event.pid,
              lookup-remove event.pid event.pid pc.pkgs,
            )),
      )

  task_apply-untrusted :
      (tid pid : ℕ) (pkg comm other : Text) (htr : Bool)
      (apply_fn : ℕ → CpuSet → Text → State (Machine W B) Bool) (pc : ProcCache) (m : Machine W B)
      → task_apply os tid pid pkg comm htr cfg false apply_fn pc m
        ≡ task_apply os tid pid pkg other htr cfg false apply_fn pc m
  unfolding task_apply
  task_apply-untrusted tid pid pkg comm other true apply_fn pc m = refl
  task_apply-untrusted tid pid pkg comm other false apply_fn pc m = refl

  event_apply_pkg-untrusted :
      (o : Option (Text × Bool)) (tid pid : ℕ) (comm other : Text) (pc : ProcCache)
      (m : Machine W B)
      → event_apply_pkg os aya o pc tid pid comm cfg false m
        ≡ event_apply_pkg os aya o pc tid pid other cfg false m
  unfolding event_apply_pkg
  event_apply_pkg-untrusted none tid pid comm other pc m = refl
  event_apply_pkg-untrusted (some (pkg, htr)) tid pid comm other pc m =
      ap (λ (r : (Bool × ProcCache) × Machine W B). ((true, r.0.1), r.1))
        (task_apply-untrusted tid pid pkg comm other htr _ pc m)

  -- The name in a FORK event of a thread that is not the main thread of its process, which it has
  -- from its parent, decides nothing once the package of the process is in the cache.
  pub event_dispatch-fork :
      (event : EbpfProcEvent) (comm : List ℕ) (cached : Text × Bool) (pc : ProcCache)
      (m : Machine W B)
      → event.event_type ≡ event_fork
      → event.tid ≢ event.pid
      → lookup event.pid pc.pkgs ≡ some cached
      → event_dispatch os aya event cfg pc m
        ≡ event_dispatch os aya (record event { comm = comm }) cfg pc m
  unfolding event_dispatch event_apply pkg_lookup_comm pkg_or_comm
  event_dispatch-fork event comm cached pc m is_fork child hit =
      let no_exit : (event.event_type == event_exit) ≡ false = ground arith in
      let no_exec : (event.event_type == event_exec) ≡ false = ground arith in
      let fork : (event.event_type == event_fork) ≡ true = ground arith in
      let untrusted : (event.tid == event.pid) ≡ false = ground arith in
      rw (no_exit, no_exec, fork, untrusted, hit)
        (ap (λ (r : (Bool × ProcCache) × Machine W B). (r.0.1, r.1))
          (event_apply_pkg-untrusted (some cached) event.tid event.pid _ _ pc m))
