-- ===== src/Kernel/Applied.antt =====
-- What the tracepoint programs do to `APPLIED_MAP`, exactly.
use aether_opt_ext.Base.{
  ℕ, ◌≡◌, refl, sym, ◌∙◌, Bool, false, ◌&&◌, Option, none, some, List, arith, Bool-cases, inl, inr,
  if◌then◌else◌, ◌==◌, is_some,
}
use aether_opt_ext.Os.{Aya}
use aether_opt_ext.Events.Tracked.{AppliedLaws}
use aether_opt_ext.Kernel.{
  TracepointOffsets, ProcEvent, Ring, Context, unwrap_or, low_half, applied_lookup,
  whitelist_matched, offsets_load, submit_event, fork_parse, fork_with, fork_if, sched_process_fork,
  sched_process_exit,
}
use aether_opt_ext.Kernel.Reports.{RingLaws}

not_found : (o : Option ℕ) → is_some o ≡ false → o ≡ none
not_found none h = refl
not_found (some v) h = cc

-- Whether the child of a fork inherits the tracking of its parent, given what `offsets_load` says.
abbrev pub inherits : Option TracepointOffsets → Context → Bool → ℕ → Bool
inherits none ctx tracked j = false
inherits (some offsets) ctx tracked j =
    tracked && unwrap_or (ctx.read_i32 offsets.fork_child_pid) 0 == j

module _ {B : Type 0} (aya : Aya B) (ring : Ring B) (queue : B → List ProcEvent)
    (applied : AppliedLaws aya) (laws : RingLaws aya ring queue) where
  applied_get-submit_event :
      (j : ℕ) (e : ProcEvent) (b : B)
      → aya.applied_get j (submit_event ring e b) ≡ aya.applied_get j b
  unfolding submit_event
  applied_get-submit_event j e b = ground (arith, laws.get_output j e b)

  applied_get-fork_if :
      (o : Option TracepointOffsets) (ctx : Context) (b : B) (j : ℕ)
      → aya.applied_get j (fork_if aya ring o ctx b) ≡ (
          if inherits o ctx (applied_lookup aya (low_half ctx.pid_tgid) b) j
          then some 0
          else aya.applied_get j b)
  unfolding fork_if fork_with fork_parse
  applied_get-fork_if none ctx b j = refl
  applied_get-fork_if (some offsets) ctx b j =
      let comm = (fork_parse ctx offsets).2 in
      let child = (fork_parse ctx offsets).1 in
      elim (Bool-cases (applied_lookup aya (low_half ctx.pid_tgid) b)) [
        | inl tracked ↦ rw tracked (applied_get-submit_event j _ _ ∙ applied.get_insert child j 0 b)
        | inr untracked ↦ elim (Bool-cases (whitelist_matched aya comm b)) [
          | inl listed ↦ rw (untracked, listed) (applied_get-submit_event j _ b)
          | inr unlisted ↦ rw (untracked, unlisted)
        ]
      ]

  -- If the map and the buffer keep what is put in them, a fork adds the child to `APPLIED_MAP`,
  -- with no CPUs yet, exactly if its parent is there and the offsets are known; it changes no other
  -- key, whether it is reported or not.
  pub applied_get-sched_process_fork :
      (ctx : Context) (b : B) (j : ℕ)
      → aya.applied_get j (sched_process_fork aya ring ctx b) ≡ (
          if inherits (offsets_load ring b) ctx (applied_lookup aya (low_half ctx.pid_tgid) b) j
          then some 0
          else aya.applied_get j b)
  unfolding sched_process_fork
  applied_get-sched_process_fork ctx b j = applied_get-fork_if (offsets_load ring b) ctx b j

  -- If the map and the buffer keep what is put in them, a thread is not in `APPLIED_MAP` after its
  -- exit, whether it was or not, and other threads are as before.
  pub applied_get-sched_process_exit :
      (ctx : Context) (b : B) (j : ℕ)
      → aya.applied_get j (sched_process_exit aya ring ctx b)
        ≡ (if low_half ctx.pid_tgid == j then none else aya.applied_get j b)
  unfolding sched_process_exit
  applied_get-sched_process_exit ctx b j =
      let tid = low_half ctx.pid_tgid in
      elim (Bool-cases (applied_lookup aya tid b)) [
        | inl tracked ↦ rw tracked (applied_get-submit_event j _ _ ∙ applied.get_remove tid j b)
        | inr untracked ↦ elim (Bool-cases (tid == j)) [
          | inl same ↦
              rw (untracked, same)
                (let e : tid ≡ j = ground arith in
                  rw (sym e)
                    (not_found (aya.applied_get tid b) (unfold applied_lookup in untracked)))
          | inr other ↦ rw (untracked, other)
        ]
      ]
