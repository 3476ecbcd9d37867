-- ===== src/Reader/Delivery.antt =====
-- The reader thread of src/bpf.rs delivers what the kernel wrote, and stops when it is woken.
use mathlib.Core.Path.{subst}
use aether_opt_ext.Base.{
  ℕ, zero, suc, ◌≡◌, refl, sym, ap, ◌∙◌, true, false, none, some, List, [], ◌∷◌, ◌++◌, map,
  append_assoc, append-nil, arith, ◌⊎◌, inl, inr, false, ◌==◌, length, any, All,
}
use aether_opt_ext.Base.Text.{is_empty}
use aether_opt_ext.Kernel.{ProcEvent}
use aether_opt_ext.Events.{EbpfProcEvent}
use aether_opt_ext.Reader.{
  Reading, Phase, waiting, draining, closing, ended, arrived, after_wait, take_item, reader_step,
  wake_data,
}
use aether_opt_ext.Reader.Layout.{
  proc_event_bytes, IsProcEvent, received, length-proc_event_bytes, read_event-proc_event_bytes,
}

-- The buffer after something was put behind what it held.
abbrev pub Grown : List (List ℕ) → List (List ℕ) → Type 0
Grown q after = (more : List (List ℕ)) × (after ≡ q ++ more)

-- A channel whose receiver is there, and a buffer that the reader alone empties: what is in the
-- buffer, and what was sent. The kernel may put entries into the buffer at every call.
pub record Channel {W : Type 0} (r : Reading W) : Type 0 where
  pub queue : W → List (List ℕ)
  pub sent : W → List EbpfProcEvent
  pub next_none : (w : W) → queue w ≡ [] → (r.ring_next w).0 ≡ none
  pub next_some :
      (w : W) (x : List ℕ) (q : List (List ℕ)) → queue w ≡ x ∷ q → (r.ring_next w).0 ≡ some x
  pub next_pops :
      (w : W) (x : List ℕ) (q : List (List ℕ)) → queue w ≡ x ∷ q → Grown q (queue (r.ring_next w).1)
  pub next_sent : (w : W) → sent (r.ring_next w).1 ≡ sent w
  pub send_ok : (e : EbpfProcEvent) (w : W) → (r.send e w).0 ≡ true
  pub send_queue : (e : EbpfProcEvent) (w : W) → Grown (queue w) (queue (r.send e w).1)
  pub send_appends : (e : EbpfProcEvent) (w : W) → sent (r.send e w).1 ≡ sent w ++ e ∷ []
  pub wait_queue : (epfd : ℕ) (w : W) → Grown (queue w) (queue (r.epoll_wait epfd w).1)
  pub wait_sent : (epfd : ℕ) (w : W) → sent (r.epoll_wait epfd w).1 ≡ sent w

module _ {W : Type 0} (r : Reading W) (epfd : ℕ) where
  -- The thread after some steps.
  unfoldable pub run : ℕ → Phase × W → Phase × W
  run zero s = s
  run (suc n) s = run n (reader_step r epfd s.0 s.1)

module _ {W : Type 0} (r : Reading W) (epfd : ℕ) (c : Channel r) where
  -- The events were sent behind those before, and the thread goes on with what has come in since:
  -- with nothing there, its next step takes it back to waiting.
  pub record Delivered (before : List EbpfProcEvent) (es : List ProcEvent) (s : Phase × W)
      : Type 0 where
    pub drains : s.0 ≡ draining
    pub all_sent : c.sent s.1 ≡ before ++ map received es
    pub goes_on : (is_empty (c.queue s.1) ≡ false) ⊎ ((reader_step r epfd draining s.1).0 ≡ waiting)

  when_holds :
      (q : List (List ℕ)) (w : W)
      → c.queue w ≡ q
      → (is_empty (c.queue w) ≡ false) ⊎ ((reader_step r epfd draining w).0 ≡ waiting)
  unfolding reader_step take_item
  when_holds [] w nothing = inr (rw (c.next_none w nothing) refl)
  when_holds (x ∷ q) w some_left = inl (rw some_left refl)

  take_one :
      (e : ProcEvent) (w : W)
      → IsProcEvent e
      → take_item r (some (proc_event_bytes e)) w ≡ (draining, (r.send (received e) w).1)
  unfolding take_item
  take_one e w v =
      rw (read_event-proc_event_bytes e v, length-proc_event_bytes e v, c.send_ok (received e) w)
        refl

  drain :
      (es : List ProcEvent) (more : List (List ℕ)) (w : W)
      → All IsProcEvent es
      → c.queue w ≡ map proc_event_bytes es ++ more
      → Delivered (c.sent w) es (run r epfd (length es) (draining, w))
  unfolding run
  drain [] more w v q = record {
    drains = refl;
    all_sent = sym (append-nil (c.sent w));
    goes_on = when_holds (c.queue w) w refl;
  }
  drain (e ∷ es) more w (v, vs) q =
      let popped = (r.ring_next w).1 in
      let after = (r.send (received e) popped).1 in
      let step : reader_step r epfd draining w ≡ (draining, after) =
        unfold reader_step in
        ap (λ item. take_item r item popped) (c.next_some w (proc_event_bytes e) _ q)
        ∙ take_one e popped v in
      let (m1, q1) = c.next_pops w (proc_event_bytes e) _ q in
      let (m2, q2) = c.send_queue (received e) popped in
      let rest = drain es (more ++ (m1 ++ m2)) after vs (
        q2
        ∙ (ap (λ l. l ++ m2) q1
            ∙ (append_assoc (map proc_event_bytes es ++ more) m1 m2
                ∙ append_assoc (map proc_event_bytes es) more (m1 ++ m2)))) in
      subst (λ s. Delivered (c.sent w) (e ∷ es) (run r epfd (length es) s)) (sym step)
        (record {
          drains = rest.drains;
          all_sent =
              rest.all_sent
              ∙ (ap (λ before. before ++ map received es)
                    (c.send_appends (received e) popped
                      ∙ ap (λ before. before ++ received e ∷ []) (c.next_sent w))
                  ∙ append_assoc (c.sent w) (received e ∷ []) (map received es));
          goes_on = rest.goes_on;
        })

  -- If the receiver is there, the buffer holds events of the kernel with 32-bit numbers and names of
  -- 16 bytes, nobody else takes from it, and `epoll_wait` returns with some event but no wake-up,
  -- then after one step more than there are events exactly these were sent, as they were written and
  -- in their order, whatever the kernel puts into the buffer meanwhile. The thread goes on draining,
  -- and waits again once it finds the buffer empty.
  pub reader_step-delivers :
      (es : List ProcEvent) (events : List ℕ) (w : W)
      → All IsProcEvent es
      → c.queue w ≡ map proc_event_bytes es
      → (r.epoll_wait epfd w).0 ≡ arrived events
      → is_empty events ≡ false
      → any (λ d. d == wake_data) events ≡ false
      → Delivered (c.sent w) es (run r epfd (suc (length es)) (waiting, w))
  unfolding run
  reader_step-delivers es events w v q woken some_data no_wake =
      let waited = (r.epoll_wait epfd w).1 in
      let step : reader_step r epfd waiting w ≡ (draining, waited) =
        unfold reader_step after_wait in rw (woken, some_data, no_wake) refl in
      let (more, grown) = c.wait_queue epfd w in
      let d = drain es more waited v (grown ∙ ap (λ l. l ++ more) q) in
      subst (λ s. Delivered (c.sent w) es (run r epfd (length es) s)) (sym step)
        (record {
          drains = d.drains;
          all_sent = d.all_sent ∙ ap (λ before. before ++ map received es) (c.wait_sent epfd w);
          goes_on = d.goes_on;
        })

module _ {W : Type 0} (r : Reading W) (epfd : ℕ) where
  -- If `epoll_wait` returns with a wake-up, whatever else it returns with, the thread ends in two
  -- steps and takes nothing more from the buffer.
  pub reader_step-wake :
      (events : List ℕ) (w : W)
      → (r.epoll_wait epfd w).0 ≡ arrived events
      → any (λ d. d == wake_data) events ≡ true
      → run r epfd 2 (waiting, w) ≡ (ended, (r.close epfd (r.epoll_wait epfd w).1).1)
  unfolding run
  reader_step-wake [] w woken wake = absurd (ground arith)
  reader_step-wake (d ∷ ds) w woken wake =
      let step : reader_step r epfd waiting w ≡ (closing, (r.epoll_wait epfd w).1) =
        unfold reader_step after_wait in rw (woken, wake) refl in
      ap (λ (s : Phase × W). reader_step r epfd s.0 s.1) step ∙ unfold reader_step in refl
