-- ===== src/Events/Invariant.antt =====
-- `event_dispatch` of src/main.rs, and the threads in the cache against the keys of `APPLIED_MAP`.
use aether_opt_ext.Base.{
  any, ◌||◌, false, ℕ, ◌≡◌, ◌∙◌, Bool, true, ◌&&◌, List, [], ◌∷◌, arith, ◌==◌, if◌then◌else◌,
  Bool-cases, inl, inr,
}
use aether_opt_ext.Base.Text.{Text}
use aether_opt_ext.Os.{Os, Aya}
use aether_opt_ext.Os.Machine.{Machine}
use aether_opt_ext.Config.{AppConfig}
use aether_opt_ext.Bpf.{applied_del}
use aether_opt_ext.ProcCache.{ProcCache}
use aether_opt_ext.ProcCache.Tasks.{lookup-task_del}
use aether_opt_ext.Events.{
  comm_str, event_fork, event_exec, event_rename, event_exit, EbpfProcEvent, event_apply, on_exit,
  on_exec, drop_pkg, event_dispatch, dispatch_all,
}
use aether_opt_ext.Events.Tracked.{AppliedLaws, Tracks, Tracks-fewer, Tracks-del}
use aether_opt_ext.Events.Binding.{event_apply-Tracks}

-- Whether the event tells the end of the thread.
abbrev pub is_exit_of : ℕ → EbpfProcEvent → Bool
is_exit_of j event = event.event_type == event_exit && event.tid == j

abbrev pub exit_pending : List EbpfProcEvent → ℕ → Bool
exit_pending events j = any (is_exit_of j) events

module _ {W B : Type 0} (os : Os W) (aya : Aya B) (laws : AppliedLaws aya) (cfg : AppConfig)
    (pending : ℕ → Bool) where
  on_exit-Tracks :
      (before : ℕ → Bool) (tid pid : ℕ) (pc : ProcCache) (m : Machine W B)
      → ((j : ℕ) → (tid == j) ≡ false → before j ≡ true → pending j ≡ true)
      → Tracks aya before pc.tasks m.bpf
      → Tracks aya pending (on_exit os aya pc tid pid m).0.tasks (on_exit os aya pc tid pid m).1.bpf
  unfolding on_exit applied_del
  on_exit-Tracks before tid pid pc m keeps t =
      Tracks-del aya laws before pending pc.tasks _ tid m.bpf keeps
        (λ j.
          lookup-task_del tid (if tid == pid then drop_pkg pid pc else pc) j
          ∙ unfold drop_pkg in ground arith)
        t

  on_exec-Tracks :
      (tid pid : ℕ) (comm : Text) (pc : ProcCache) (m : Machine W B)
      → Tracks aya pending pc.tasks m.bpf
      → Tracks aya pending
          (on_exec os aya pc tid pid comm cfg m).0.tasks
          (on_exec os aya pc tid pid comm cfg m).1.bpf
  unfolding on_exec applied_del drop_pkg
  on_exec-Tracks tid pid comm pc m t =
      let applied = event_apply os aya (drop_pkg pid pc) tid pid comm cfg true m in
      let t' : Tracks aya pending applied.0.1.tasks applied.1.bpf =
        event_apply-Tracks os aya laws cfg pending tid pid comm true (drop_pkg pid pc) m t in
      elim (Bool-cases applied.0.0) [
        | inl mine ↦ rw mine t'
        | inr other ↦ rw other (
            Tracks-del aya laws pending pending applied.0.1.tasks _ tid applied.1.bpf (λ j o h. h)
              (λ j. lookup-task_del tid applied.0.1 j) t')
      ]

  -- The event is the next to be dispatched.
  pub event_dispatch-pending :
      (event : EbpfProcEvent) (pc : ProcCache) (m : Machine W B)
      → Tracks aya (λ j. is_exit_of j event || pending j) pc.tasks m.bpf
      → Tracks aya pending
          (event_dispatch os aya event cfg pc m).0.tasks
          (event_dispatch os aya event cfg pc m).1.bpf
  unfolding event_dispatch
  event_dispatch-pending event pc m told =
      let comm = comm_str event.comm in
      elim (Bool-cases (event.event_type == event_exit)) [
        | inl is_exit ↦ rw is_exit (
            on_exit-Tracks (λ j. is_exit_of j event || pending j) event.tid event.pid pc m
              (λ j other. ground arith) told)
        | inr no_exit ↦
            let t : Tracks aya pending pc.tasks m.bpf =
              Tracks-fewer aya (λ j. is_exit_of j event || pending j) pending pc.tasks pc.tasks
                m.bpf (λ j. ground arith) (λ j h. h) told in
            elim (Bool-cases (event.event_type == event_exec)) [
              | inl is_exec ↦ rw (no_exit, is_exec) (on_exec-Tracks event.tid event.pid comm pc m t)
              | inr no_exec ↦ elim (Bool-cases (event.event_type == event_fork)) [
                | inl is_fork ↦
                    rw (no_exit, no_exec, is_fork)
                      (event_apply-Tracks os aya laws cfg pending event.tid event.pid comm _ pc m t)
                | inr no_fork ↦ elim (Bool-cases (event.event_type == event_rename)) [
                  | inl is_rename ↦
                      rw (no_exit, no_exec, no_fork, is_rename)
                        (event_apply-Tracks os aya laws cfg pending event.tid event.pid comm true pc
                          m t)
                  | inr unknown ↦ rw (no_exit, no_exec, no_fork, unknown) t
                ]
              ]
            ]
      ]

-- If `APPLIED_MAP` keeps what is put in it, then `event_dispatch` on any event keeps this for a
-- loaded BPF object: every thread in the cache is a key of `APPLIED_MAP`, or its EXIT event is
-- among those that are still to come. The event itself is among them before, and not afterwards.
pub event_dispatch-Tracks :
    {W B : Type 0} (os : Os W) (aya : Aya B)
    → AppliedLaws aya
    → (cfg : AppConfig) (event : EbpfProcEvent) (events : List EbpfProcEvent) (pc : ProcCache)
      (m : Machine W B)
    → Tracks aya (exit_pending (event ∷ events)) pc.tasks m.bpf
    → Tracks aya
        (exit_pending events)
        (event_dispatch os aya event cfg pc m).0.tasks
        (event_dispatch os aya event cfg pc m).1.bpf
event_dispatch-Tracks os aya laws cfg event events pc m t =
    event_dispatch-pending os aya laws cfg (exit_pending events) event pc m t

-- If `APPLIED_MAP` keeps what is put in it, and every thread in the cache is a key of it or has its
-- EXIT event among the waiting events, then after these are dispatched every thread in the cache is
-- a key of it.
pub dispatch_all-Tracks :
    {W B : Type 0} (os : Os W) (aya : Aya B)
    → AppliedLaws aya
    → (cfg : AppConfig) (events : List EbpfProcEvent) (pc : ProcCache) (m : Machine W B)
    → Tracks aya (exit_pending events) pc.tasks m.bpf
    → Tracks aya
        (λ j. false)
        (dispatch_all os aya events cfg pc m).0.tasks
        (dispatch_all os aya events cfg pc m).1.bpf
unfolding dispatch_all
dispatch_all-Tracks os aya laws cfg [] pc m t = t
dispatch_all-Tracks os aya laws cfg (event ∷ events) pc m t =
    dispatch_all-Tracks os aya laws cfg events _ _
      (event_dispatch-Tracks os aya laws cfg event events pc m t)
