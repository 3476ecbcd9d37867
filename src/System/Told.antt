-- ===== src/System/Told.antt =====
-- The ends of threads that the cache has not learned of yet, in the ring buffer or in the channel.
use aether_opt_ext.Base.{ℕ, ◌≡◌, refl, ap, ◌∙◌, Bool, true, ◌||◌, List, [], ◌∷◌, ◌++◌, arith, any}
use aether_opt_ext.Base.Map.{Map}
use aether_opt_ext.Os.{Aya}
use aether_opt_ext.ProcCache.{TaskEntry}
use aether_opt_ext.Events.{EbpfProcEvent}
use aether_opt_ext.Events.Tracked.{AppliedLaws, TracksIn}
use aether_opt_ext.Events.Invariant.{is_exit_of, exit_pending}
use aether_opt_ext.Kernel.{ProcEvent}
use aether_opt_ext.Kernel.Reports.{RingLaws, Step, ends, Step-is_covered}
use aether_opt_ext.Kernel.Reached.{Step-has_applied}
use aether_opt_ext.Reader.Layout.{received}
use aether_opt_ext.System.{beside, ring_beside, Buffer, BufferLaws}

module _ {B Q : Type 0} (aya : Aya B) (buffer : Buffer Q) (applied : AppliedLaws aya)
    (laws : BufferLaws buffer) where
  applied_beside : AppliedLaws (beside {B = B} {Q = Q} aya)
  applied_beside = record {
    get_insert = λ k j v s. applied.get_insert k j v s.0;
    get_remove = λ k j s. applied.get_remove k j s.0;
    has_insert = λ k v s. applied.has_insert k v s.0;
    has_remove = λ k s. applied.has_remove k s.0;
  }

  ring_laws :
      RingLaws
        (beside {B = B} {Q = Q} aya)
        (ring_beside {B = B} {Q = Q} buffer.ring)
        (λ s. buffer.queue s.1)
  ring_laws = record {
    queue_output = λ e s room. laws.queue_output e s.1 room;
    queue_insert = λ k v s. refl;
    queue_remove = λ k s. refl;
    get_output = λ j e s. refl;
  }

-- The end of the thread is told by an event in the channel or by an entry of the ring buffer.
abbrev pub told : {Q : Type 0} → Buffer Q → List EbpfProcEvent → Q → ℕ → Bool
told buffer channel q j = exit_pending channel j || any (ends j) (buffer.queue q)

exit_pending-append :
    (channel : List EbpfProcEvent) (e : EbpfProcEvent) (j : ℕ)
    → exit_pending (channel ++ e ∷ []) j ≡ (exit_pending channel j || is_exit_of j e)
exit_pending-append [] e j = ground arith
exit_pending-append (c ∷ cs) e j = ground (arith, exit_pending-append cs e j)

module _ {B : Type 0} (aya : Aya B) where
  module _ {Q : Type 0} (buffer : Buffer Q) (applied : AppliedLaws aya)
      (laws : BufferLaws buffer) where
    pub programs-Tracks :
        (scan : Bool) (channel : List EbpfProcEvent) (tasks : Map TaskEntry) (b c : B) (q r : Q)
        → Step (beside aya) (ring_beside buffer.ring) (b, q) (c, r)
        → TracksIn aya (λ j. scan || told buffer channel q j) tasks b
        → TracksIn aya (λ j. scan || told buffer channel r j) tasks c
    programs-Tracks scan channel tasks b c q r step t = record {
      reachable =
          Step-has_applied (beside aya) (ring_beside buffer.ring)
            (applied_beside aya buffer applied laws) (λ e s. refl) step
          ∙ t.reachable;
      tracked = λ j known.
          let covered =
            Step-is_covered (beside aya) (ring_beside buffer.ring) (λ s. buffer.queue s.1)
              (applied_beside aya buffer applied laws) (ring_laws aya buffer applied laws) j step in
          ground (arith, t.tracked j known, covered);
    }

    pub reads-told :
        (channel : List EbpfProcEvent) (e : ProcEvent) (es : List ProcEvent) (q : Q) (j : ℕ)
        → buffer.queue q ≡ e ∷ es
        → told buffer channel q j ≡ true
        → told buffer (channel ++ received e ∷ []) (buffer.taken q) j ≡ true
    reads-told channel e es q j first h = ground (
      arith,
      h,
      exit_pending-append channel (received e) j,
      ap (λ l. any (ends j) l) first,
      ap (λ l. any (ends j) l) (laws.queue_taken e es q first),
    )
