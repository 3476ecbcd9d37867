-- ===== src/Reader.antt =====
-- src/bpf.rs, `ebpf_reader`: the thread that reads the ring buffer and sends the events on. The loop
-- is a machine that takes one step for each call that may block or end it.
pub mod Layout
pub mod Delivery
use aether_opt_ext.Base.{
  ℕ, ◌+◌, ◌-◌, ◌^◌, Bool, true, false, Option, none, some, List, [], ◌∷◌, State, leb, ◌==◌,
  if◌then◌else◌, any, length, take, drop,
}
use aether_opt_ext.Base.Bytes.{u32_at}
use aether_opt_ext.Base.Text.{is_empty}
use aether_opt_ext.Events.{EbpfProcEvent}

-- What `epoll_wait` returns: an error, or the data of the events, none of them on a time-out.
pub data Waited : Type 0 where
  failed : ℕ → Waited
  arrived : List ℕ → Waited

-- The calls of the thread; descriptors and results are the patterns of their `i32`.
pub record Reading (W : Type 0) : Type 0 where
  pub epoll_create : State W ℕ
  -- `epoll_ctl(epfd, EPOLL_CTL_ADD, fd)` with the data of the event
  pub epoll_add : ℕ → ℕ → ℕ → State W ℕ
  pub epoll_wait : ℕ → State W Waited
  pub ring_next : State W (Option (List ℕ))
  -- `tx.send(event).is_ok()`
  pub send : EbpfProcEvent → State W Bool
  pub close : ℕ → State W (Unit {0})

abbrev pub is_negative : ℕ → Bool
is_negative n = leb (2 ^ 31) n

abbrev pub ring_data : ℕ
ring_data = 0

abbrev pub wake_data : ℕ
wake_data = 1

abbrev pub eintr : ℕ
eintr = 4

-- `size_of::<EbpfProcEvent>()`
abbrev pub event_size : ℕ
event_size = 28

-- `read_unaligned` of the structure.
unfoldable pub read_event : List ℕ → EbpfProcEvent
read_event bytes = record {
  pid = u32_at 0 bytes;
  tid = u32_at 4 bytes;
  comm = take 16 (drop 8 bytes);
  event_type = u32_at 24 bytes;
}

-- Where the thread is: at `epoll_wait`, at `ring_buf.next()`, at the last `close`, or at its end.
pub data Phase : Type 0 where
  waiting : Phase
  draining : Phase
  closing : Phase
  ended : Phase

-- After `epoll_wait`: a call that was interrupted is made again, and a wake-up goes first.
unfoldable pub after_wait : Waited → Phase
after_wait (failed errno) = if errno == eintr then waiting else closing
after_wait (arrived events) =
    if is_empty events
    then closing
    else if any (λ d. d == wake_data) events
    then closing
    else draining

module _ {W : Type 0} (r : Reading W) where
  unfoldable pub setup_wake : ℕ → ℕ → State W (Option ℕ)
  setup_wake epfd wakeup_fd w =
      let added = r.epoll_add epfd wakeup_fd wake_data w in
      if is_negative added.0 then (none, (r.close epfd added.1).1) else (some epfd, added.1)

  -- The descriptor for `epoll_wait`; `none` if the thread ends before its loop.
  unfoldable pub setup : ℕ → ℕ → State W (Option ℕ)
  unfolding setup_wake
  setup ring_fd wakeup_fd w =
      let epfd = r.epoll_create w in
      let added = r.epoll_add epfd.0 ring_fd ring_data epfd.1 in
      let ready = setup_wake epfd.0 wakeup_fd added.1 in
      if is_negative epfd.0
      then (none, epfd.1)
      else if is_negative added.0
      then (none, (r.close epfd.0 added.1).1)
      else ready

  -- An item that is too short is dropped; a receiver that is gone ends the thread.
  unfoldable pub take_item : Option (List ℕ) → State W Phase
  unfolding read_event
  take_item none w = (waiting, w)
  take_item (some bytes) w =
      let sent = r.send (read_event bytes) w in
      if leb event_size (length bytes)
      then (if sent.0 then draining else closing, sent.1)
      else (draining, w)

  unfoldable pub reader_step : ℕ → Phase → State W Phase
  unfolding after_wait take_item
  reader_step epfd waiting w = let e = r.epoll_wait epfd w in (after_wait e.0, e.1)
  reader_step epfd draining w = let item = r.ring_next w in take_item item.0 item.1
  reader_step epfd closing w = (ended, (r.close epfd w).1)
  reader_step epfd ended w = (ended, w)
