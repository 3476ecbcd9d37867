-- ===== src/Kernel/Reports.antt =====
-- What the tracepoint programs do to `APPLIED_MAP` and put in the ring buffer.
use aether_opt_ext.Base.{
  ℕ, ◌≡◌, refl, Bool, true, not, ◌||◌, ◌&&◌, Option, none, some, List, [], ◌∷◌, ◌++◌, arith,
  Bool-cases, inl, inr, ◌==◌, is_some, any,
}
use aether_opt_ext.Os.{Aya}
use aether_opt_ext.Events.Tracked.{AppliedLaws}
use aether_opt_ext.Kernel.{
  event_exit, TracepointOffsets, ProcEvent, Ring, Context, unwrap_or, low_half, high_half, no_comm,
  applied_lookup, whitelist_matched, offsets_load, submit_event, fork_parse, fork_with, fork_if,
  sched_process_fork, sched_process_exec, rename_with, rename_if, task_rename, sched_process_exit,
}

-- What a ring buffer promises: an entry that could be reserved stands behind the others, and the
-- buffer and the hash map do not touch one another. `queue` is what the reader has not read.
pub record RingLaws {B : Type 0} (aya : Aya B) (ring : Ring B) (queue : B → List ProcEvent)
    : Type 0 where
  pub queue_output :
      (e : ProcEvent) (b : B) → ring.reserve b ≡ true → queue (ring.output e b) ≡ queue b ++ e ∷ []
  pub queue_insert : (k v : ℕ) (b : B) → queue (aya.applied_insert k v b) ≡ queue b
  pub queue_remove : (k : ℕ) (b : B) → queue (aya.applied_remove k b) ≡ queue b
  pub get_output :
      (j : ℕ) (e : ProcEvent) (b : B) → aya.applied_get j (ring.output e b) ≡ aya.applied_get j b

-- Whether the event tells the end of the thread.
abbrev pub ends : ℕ → ProcEvent → Bool
ends j event = event.event_type == event_exit && event.tid == j

any-append :
    (p : ProcEvent → Bool) (es fs : List ProcEvent) → any p (es ++ fs) ≡ (any p es || any p fs)
any-append p [] fs = refl
any-append p (e ∷ es) fs = ground (arith, any-append p es fs)

module _ {B : Type 0} (aya : Aya B) (ring : Ring B) where
  -- One run of a program. A thread that ends has room in the buffer for its event.
  pub data Step : B → B → Type 0 where
    fork : (ctx : Context) (b : B) → Step b (sched_process_fork aya ring ctx b)
    exec : (ctx : Context) (b : B) → Step b (sched_process_exec aya ring ctx b)
    rename : (ctx : Context) (b : B) → Step b (task_rename aya ring ctx b)
    exit :
        (ctx : Context) (b : B)
        → ring.reserve (aya.applied_remove (low_half ctx.pid_tgid) b) ≡ true
        → Step b (sched_process_exit aya ring ctx b)

  pub data Steps (b : B) : B → Type 0 where
    here : Steps b b
    next : {c d : B} → Steps b c → Step c d → Steps b d

  module _ (queue : B → List ProcEvent) where
    -- The thread is a key of `APPLIED_MAP`, or the buffer tells that it has ended.
    abbrev pub is_covered : ℕ → B → Bool
    is_covered j b = any (ends j) (queue b) || is_some (aya.applied_get j b)

    module _ (applied : AppliedLaws aya) (laws : RingLaws aya ring queue) where
      submit_event-is_covered :
          (j : ℕ) (e : ProcEvent) (b : B)
          → is_covered j b ≡ true
          → is_covered j (submit_event ring e b) ≡ true
      unfolding submit_event
      submit_event-is_covered j e b h = ground (
        arith,
        h,
        laws.queue_output e b,
        laws.get_output j e b,
        any-append (ends j) (queue b) (e ∷ []),
      )

      insert-is_covered :
          (j k v : ℕ) (b : B)
          → is_covered j b ≡ true
          → is_covered j (aya.applied_insert k v b) ≡ true
      insert-is_covered j k v b h =
          ground (arith, h, laws.queue_insert k v b, applied.get_insert k j v b)

      fork_with-is_covered :
          (ctx : Context) (offsets : TracepointOffsets) (j : ℕ) (b : B)
          → is_covered j b ≡ true
          → is_covered j (fork_with aya ring ctx offsets b) ≡ true
      unfolding fork_with
      fork_with-is_covered ctx offsets j b h =
          let parsed = fork_parse ctx offsets in
          let tracked = applied_lookup aya (low_half ctx.pid_tgid) b in
          elim (Bool-cases (not tracked && not (whitelist_matched aya parsed.2 b))) [
            | inl silent ↦ rw silent h
            | inr reports ↦ rw reports (
                submit_event-is_covered j _ _ (elim (Bool-cases tracked) [
                  | inl is_tracked ↦ rw is_tracked (insert-is_covered j parsed.1 0 b h)
                  | inr untracked ↦ rw untracked h
                ]))
          ]

      fork_if-is_covered :
          (o : Option TracepointOffsets) (ctx : Context) (j : ℕ) (b : B)
          → is_covered j b ≡ true
          → is_covered j (fork_if aya ring o ctx b) ≡ true
      unfolding fork_if
      fork_if-is_covered none ctx j b h = h
      fork_if-is_covered (some offsets) ctx j b h = fork_with-is_covered ctx offsets j b h

      exec-is_covered :
          (ctx : Context) (j : ℕ) (b : B)
          → is_covered j b ≡ true
          → is_covered j (sched_process_exec aya ring ctx b) ≡ true
      unfolding sched_process_exec
      exec-is_covered ctx j b h =
          elim (Bool-cases (not (whitelist_matched aya (unwrap_or ctx.current_comm no_comm) b))) [
            | inl silent ↦ rw silent h
            | inr reports ↦ rw reports (submit_event-is_covered j _ b h)
          ]

      rename_if-is_covered :
          (o : Option TracepointOffsets) (ctx : Context) (j : ℕ) (b : B)
          → is_covered j b ≡ true
          → is_covered j (rename_if aya ring o ctx b) ≡ true
      unfolding rename_if rename_with
      rename_if-is_covered none ctx j b h = h
      rename_if-is_covered (some offsets) ctx j b h =
          let new_comm = unwrap_or (ctx.read_comm offsets.rename_newcomm) no_comm in
          let tracked = applied_lookup aya (low_half ctx.pid_tgid) b in
          elim (Bool-cases (not tracked && not (whitelist_matched aya new_comm b))) [
            | inl silent ↦ rw silent h
            | inr reports ↦ rw reports (submit_event-is_covered j _ b h)
          ]

      rename-is_covered :
          (ctx : Context) (j : ℕ) (b : B)
          → is_covered j b ≡ true
          → is_covered j (task_rename aya ring ctx b) ≡ true
      unfolding task_rename
      rename-is_covered ctx j b h = elim (Bool-cases (low_half ctx.pid_tgid == 0)) [
        | inl idle ↦ rw idle h
        | inr other ↦ rw other (rename_if-is_covered (offsets_load ring b) ctx j b h)
      ]

      exit-is_covered :
          (ctx : Context) (j : ℕ) (b : B)
          → ring.reserve (aya.applied_remove (low_half ctx.pid_tgid) b) ≡ true
          → is_covered j b ≡ true
          → is_covered j (sched_process_exit aya ring ctx b) ≡ true
      unfolding sched_process_exit submit_event
      exit-is_covered ctx j b room h =
          let tid = low_half ctx.pid_tgid in
          let event : ProcEvent = record {
            pid = high_half ctx.pid_tgid;
            tid = tid;
            comm = no_comm;
            event_type = event_exit;
          } in
          let removed = aya.applied_remove tid b in
          elim (Bool-cases (not (applied_lookup aya tid b))) [
            | inl silent ↦ rw silent h
            | inr reports ↦
                rw
                  (
                    reports,
                    room,
                    laws.queue_output event removed room,
                    laws.get_output j event removed,
                  )
                  (ground (
                    arith,
                    h,
                    laws.queue_remove tid b,
                    applied.get_remove tid j b,
                    any-append (ends j) (queue removed) (event ∷ []),
                  ))
          ]

      pub Step-is_covered :
          (j : ℕ) {b c : B} → Step b c → is_covered j b ≡ true → is_covered j c ≡ true
      unfolding sched_process_fork
      Step-is_covered j (fork ctx b) h = fork_if-is_covered (offsets_load ring b) ctx j b h
      Step-is_covered j (exec ctx b) h = exec-is_covered ctx j b h
      Step-is_covered j (rename ctx b) h = rename-is_covered ctx j b h
      Step-is_covered j (exit ctx b room) h = exit-is_covered ctx j b room h

      -- If the map and the buffer keep what is put in them, then through any sequence of forks,
      -- execs, renames and exits, in which the buffer has room whenever a thread exits, a thread
      -- that is a key of `APPLIED_MAP`, or whose EXIT event is in the buffer, goes on to be one or
      -- the other.
      pub Steps-is_covered :
          (j : ℕ) {b c : B} → Steps b c → is_covered j b ≡ true → is_covered j c ≡ true
      Steps-is_covered j here h = h
      Steps-is_covered j (next steps step) h = Step-is_covered j step (Steps-is_covered j steps h)
