-- ===== src/Events/Binding.antt =====
-- `event_apply` of src/main.rs, and the threads in the cache against the keys of `APPLIED_MAP`.
use aether_opt_ext.Base.{
  ℕ, ◌≡◌, refl, Bool, not, ◌&&◌, Option, none, some, [], arith, if◌then◌else◌, Bool-cases, inl, inr,
}
use aether_opt_ext.Base.Map.{lookup, remove, lookup-remove, map_laws}
use aether_opt_ext.Base.Text.{Text}
use aether_opt_ext.Os.{Os, Aya}
use aether_opt_ext.Os.Machine.{Machine}
use aether_opt_ext.Config.{AppConfig}
use aether_opt_ext.Process.{affinity_set}
use aether_opt_ext.Process.Reports.{affinity_set-bpf}
use aether_opt_ext.RuleMatch.{AffinityResult}
use aether_opt_ext.RuleMatch.Frame.{thread_affinity-bpf}
use aether_opt_ext.Bpf.{applied_set}
use aether_opt_ext.ProcCache.{
  ProcCache, is_thread_bound, task_bind, task_update, task_apply, pkg_lookup_comm, pkg_or_comm,
  cache_pkg,
}
use aether_opt_ext.Events.{event_apply_pkg, event_affinity_apply, event_apply}
use aether_opt_ext.Events.Tracked.{AppliedLaws, Tracks, Tracks-fewer, Tracks-set}

module _ {W B : Type 0} (os : Os W) (aya : Aya B) (laws : AppliedLaws aya) (cfg : AppConfig)
    (pending : ℕ → Bool) where
  task_bind-Tracks :
      (tid pid : ℕ) (pc : ProcCache) (r : AffinityResult) (m : Machine W B)
      → Tracks aya pending pc.tasks m.bpf
      → Tracks aya pending
          (task_bind tid pid (event_affinity_apply os aya cfg) pc r m).0.1.tasks
          (task_bind tid pid (event_affinity_apply os aya cfg) pc r m).1.bpf
  unfolding task_bind event_affinity_apply applied_set
  task_bind-Tracks tid pid pc r m t =
      let dead = affinity_set os tid r.cpus r.cpuset_dir cfg.topo m in
      let same = affinity_set-bpf os tid r.cpus r.cpuset_dir cfg.topo m in
      elim (Bool-cases dead.0) [
        | inl gone ↦
            rw (gone, same)
              (Tracks-fewer aya pending pending pc.tasks (remove tid pc.tasks) m.bpf (λ j h. h)
                (λ j. ground (arith, lookup-remove tid j pc.tasks)) t)
        | inr alive ↦
            rw (alive, same)
              (Tracks-set aya laws pending pc.tasks _ tid _ m.bpf
                (λ j other. simp map_laws (ground arith)) t)
      ]

  task_update-Tracks :
      (tid pid : ℕ) (pc : ProcCache) (o : Option AffinityResult) (m : Machine W B)
      → Tracks aya pending pc.tasks m.bpf
      → Tracks aya pending
          (task_update tid pid (event_affinity_apply os aya cfg) pc o m).0.1.tasks
          (task_update tid pid (event_affinity_apply os aya cfg) pc o m).1.bpf
  unfolding task_update
  task_update-Tracks tid pid pc none m t = t
  task_update-Tracks tid pid pc (some r) m t =
      elim (Bool-cases (not r.is_thread_rule && is_thread_bound (lookup tid pc.tasks))) [
        | inl keeps ↦ rw keeps t
        | inr binds ↦ rw binds (task_bind-Tracks tid pid pc r m t)
      ]

  pub task_apply-Tracks :
      (tid pid : ℕ) (pkg comm : Text) (has_thread_rules trust_comm : Bool) (pc : ProcCache)
      (m : Machine W B)
      → Tracks aya pending pc.tasks m.bpf
      → Tracks aya pending
          (task_apply os tid pid pkg comm has_thread_rules cfg trust_comm
            (event_affinity_apply os aya cfg)
            pc
            m).0.1.tasks
          (task_apply os tid pid pkg comm has_thread_rules cfg trust_comm
            (event_affinity_apply os aya cfg)
            pc
            m).1.bpf
  unfolding task_apply
  task_apply-Tracks tid pid pkg comm has_thread_rules trust_comm pc m t =
      let thread_name = if has_thread_rules && trust_comm then comm else [] in
      task_update-Tracks tid pid pc _ _
        (rw (thread_affinity-bpf os pkg cfg.topo thread_name cfg m) t)

  cache_pkg-tasks :
      (pid : ℕ) (o : Option Text) (pc : ProcCache) → (cache_pkg pid o cfg pc).1.tasks ≡ pc.tasks
  unfolding cache_pkg
  cache_pkg-tasks pid none pc = refl
  cache_pkg-tasks pid (some pkg) pc = refl

  pkg_or_comm-tasks :
      (o : Option (Text × Bool)) (pid : ℕ) (comm : Text) (pc : ProcCache)
      → (pkg_or_comm o pid comm cfg pc).1.tasks ≡ pc.tasks
  unfolding pkg_or_comm
  pkg_or_comm-tasks none pid comm pc = cache_pkg-tasks pid _ pc
  pkg_or_comm-tasks (some cached) pid comm pc = refl

  event_apply_pkg-Tracks :
      (o : Option (Text × Bool)) (tid pid : ℕ) (comm : Text) (trust_comm : Bool) (pc : ProcCache)
      (m : Machine W B)
      → Tracks aya pending pc.tasks m.bpf
      → Tracks aya pending
          (event_apply_pkg os aya o pc tid pid comm cfg trust_comm m).0.1.tasks
          (event_apply_pkg os aya o pc tid pid comm cfg trust_comm m).1.bpf
  unfolding event_apply_pkg
  event_apply_pkg-Tracks none tid pid comm trust_comm pc m t = t
  event_apply_pkg-Tracks (some (pkg, has_thread_rules)) tid pid comm trust_comm pc m t =
      task_apply-Tracks tid pid pkg comm has_thread_rules trust_comm pc m t

  pub event_apply-Tracks :
      (tid pid : ℕ) (comm : Text) (trust_comm : Bool) (pc : ProcCache) (m : Machine W B)
      → Tracks aya pending pc.tasks m.bpf
      → Tracks aya pending
          (event_apply os aya pc tid pid comm cfg trust_comm m).0.1.tasks
          (event_apply os aya pc tid pid comm cfg trust_comm m).1.bpf
  unfolding event_apply pkg_lookup_comm
  event_apply-Tracks tid pid comm trust_comm pc m t =
      event_apply_pkg-Tracks _ tid pid comm trust_comm _ m
        (rw (pkg_or_comm-tasks (lookup pid pc.pkgs) pid comm pc) t)
