-- ===== src/Kernel/Reached.antt =====
-- What the tracepoint programs of ebpf/src/main.rs leave alone: `APPLIED_MAP` stays in reach.
use aether_opt_ext.Base.{◌≡◌, refl, ◌∙◌, not, ◌&&◌, Option, none, some, Bool-cases, inl, inr, ◌==◌}
use aether_opt_ext.Os.{Aya}
use aether_opt_ext.Events.Tracked.{AppliedLaws}
use aether_opt_ext.Kernel.{
  TracepointOffsets, ProcEvent, Ring, Context, unwrap_or, low_half, no_comm, applied_lookup,
  whitelist_matched, offsets_load, submit_event, fork_parse, fork_with, fork_if, sched_process_fork,
  sched_process_exec, rename_with, rename_if, task_rename, sched_process_exit,
}
use aether_opt_ext.Kernel.Reports.{Step, fork, exec, rename, exit}

module _ {B : Type 0} (aya : Aya B) (ring : Ring B) (applied : AppliedLaws aya)
    (has_output : (e : ProcEvent) (b : B)
      → aya.has_applied (ring.output e b) ≡ aya.has_applied b) where
  submit_event-has_applied :
      (e : ProcEvent) (b : B) → aya.has_applied (submit_event ring e b) ≡ aya.has_applied b
  unfolding submit_event
  submit_event-has_applied e b = elim (Bool-cases (ring.reserve b)) [
    | inl room ↦ rw room (has_output e b)
    | inr full ↦ rw full refl
  ]

  fork_with-has_applied :
      (ctx : Context) (offsets : TracepointOffsets) (b : B)
      → aya.has_applied (fork_with aya ring ctx offsets b) ≡ aya.has_applied b
  unfolding fork_with
  fork_with-has_applied ctx offsets b =
      let parsed = fork_parse ctx offsets in
      let tracked = applied_lookup aya (low_half ctx.pid_tgid) b in
      elim (Bool-cases (not tracked && not (whitelist_matched aya parsed.2 b))) [
        | inl silent ↦ rw silent refl
        | inr reports ↦ rw reports (
            submit_event-has_applied _ _ ∙ elim (Bool-cases tracked) [
              | inl is_tracked ↦ rw is_tracked (applied.has_insert parsed.1 0 b)
              | inr untracked ↦ rw untracked refl
            ])
      ]

  fork_if-has_applied :
      (o : Option TracepointOffsets) (ctx : Context) (b : B)
      → aya.has_applied (fork_if aya ring o ctx b) ≡ aya.has_applied b
  unfolding fork_if
  fork_if-has_applied none ctx b = refl
  fork_if-has_applied (some offsets) ctx b = fork_with-has_applied ctx offsets b

  rename_if-has_applied :
      (o : Option TracepointOffsets) (ctx : Context) (b : B)
      → aya.has_applied (rename_if aya ring o ctx b) ≡ aya.has_applied b
  unfolding rename_if rename_with
  rename_if-has_applied none ctx b = refl
  rename_if-has_applied (some offsets) ctx b =
      let new_comm = unwrap_or (ctx.read_comm offsets.rename_newcomm) no_comm in
      let tracked = applied_lookup aya (low_half ctx.pid_tgid) b in
      elim (Bool-cases (not tracked && not (whitelist_matched aya new_comm b))) [
        | inl silent ↦ rw silent refl
        | inr reports ↦ rw reports (submit_event-has_applied _ b)
      ]

  -- No run of a program takes `APPLIED_MAP` out of reach.
  pub Step-has_applied : {b c : B} → Step aya ring b c → aya.has_applied c ≡ aya.has_applied b
  unfolding sched_process_fork sched_process_exec task_rename sched_process_exit
  Step-has_applied (fork ctx b) = fork_if-has_applied (offsets_load ring b) ctx b
  Step-has_applied (exec ctx b) =
      elim (Bool-cases (not (whitelist_matched aya (unwrap_or ctx.current_comm no_comm) b))) [
        | inl silent ↦ rw silent refl
        | inr reports ↦ rw reports (submit_event-has_applied _ b)
      ]
  Step-has_applied (rename ctx b) = elim (Bool-cases (low_half ctx.pid_tgid == 0)) [
    | inl idle ↦ rw idle refl
    | inr other ↦ rw other (rename_if-has_applied (offsets_load ring b) ctx b)
  ]
  Step-has_applied (exit ctx b room) =
      elim (Bool-cases (not (applied_lookup aya (low_half ctx.pid_tgid) b))) [
        | inl silent ↦ rw silent refl
        | inr reports ↦
            rw reports (submit_event-has_applied _ _ ∙ applied.has_remove (low_half ctx.pid_tgid) b)
      ]
