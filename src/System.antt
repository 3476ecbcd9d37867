-- ===== src/System.antt =====
-- The whole program in its eBPF mode: the tracepoint programs of ebpf/src/main.rs, the ring buffer,
-- the reader thread of src/bpf.rs with its channel, and the loop of `main` (src/main.rs), in any
-- order of their steps.

pub mod Told
pub mod Interleaved
pub mod Round
pub mod AfterRound
use aether_opt_ext.Base.{ℕ, ◌≡◌, Bool, true, ◌||◌, Option, none, some, List, [], ◌∷◌, ◌++◌, any}
use aether_opt_ext.Base.Text.{Text}
use aether_opt_ext.Os.{Os, Aya}
use aether_opt_ext.Os.Machine.{Machine, call}
use aether_opt_ext.Entries.{Json}
use aether_opt_ext.Inotify.{Inotify}
use aether_opt_ext.Events.{EbpfProcEvent, event_dispatch}
use aether_opt_ext.Kernel.{ProcEvent, Ring}
use aether_opt_ext.Kernel.Reports.{Step}
use aether_opt_ext.Reader.Layout.{received}
use aether_opt_ext.Daemon.{
  Daemon, Timing, disconnected, with_cache, check_config, scan_round, on_received, sync_round,
}

-- `take_map("EVENTS")` has taken the ring buffer out of the object: the programs see the pair.
abbrev pub beside : {B Q : Type 0} → Aya B → Aya (B × Q)
beside aya = record {
  has_target = λ s. aya.has_target s.0;
  target_keys = λ s. aya.target_keys s.0;
  target_get = λ k s. aya.target_get k s.0;
  target_insert = λ k v s. (aya.target_insert k v s.0, s.1);
  target_remove = λ k s. (aya.target_remove k s.0, s.1);
  has_applied = λ s. aya.has_applied s.0;
  applied_keys = λ s. aya.applied_keys s.0;
  applied_get = λ k s. aya.applied_get k s.0;
  applied_insert = λ k v s. (aya.applied_insert k v s.0, s.1);
  applied_remove = λ k s. (aya.applied_remove k s.0, s.1);
}

abbrev pub ring_beside : {B Q : Type 0} → Ring Q → Ring (B × Q)
ring_beside ring = record {
  offsets = λ s. ring.offsets s.1;
  reserve = λ s. ring.reserve s.1;
  output = λ e s. (s.0, ring.output e s.1);
}

-- The ring buffer as its reader sees it: the entries that it has not read, the next one taken.
pub record Buffer (Q : Type 0) : Type 0 where
  pub ring : Ring Q
  pub queue : Q → List ProcEvent
  pub taken : Q → Q

-- What a ring buffer promises: with room an entry is put behind the others, and the next one is
-- taken from their front.
pub record BufferLaws {Q : Type 0} (buffer : Buffer Q) : Type 0 where
  pub queue_output :
      (e : ProcEvent) (q : Q)
      → buffer.ring.reserve q ≡ true
      → buffer.queue (buffer.ring.output e q) ≡ buffer.queue q ++ e ∷ []
  pub queue_taken :
      (e : ProcEvent) (es : List ProcEvent) (q : Q)
      → buffer.queue q ≡ e ∷ es
      → buffer.queue (buffer.taken q) ≡ es

-- The daemon, its machine, the ring buffer, and the events in the channel.
pub record System (W B Q : Type 0) : Type 0 where
  pub daemon : Daemon
  pub machine : Machine W B
  pub entries : Q
  pub channel : List EbpfProcEvent

module _ {J W B Q : Type 0} (json : Json J) (os : Os W) (aya : Aya B) (ino : Inotify W)
    (timing : Timing W) (buffer : Buffer Q) (config_path : Text) (interval : ℕ) where
  -- A step of the system. A run of a program in the kernel changes the maps and the buffer; the
  -- reader moves an entry into the channel; the loop of `main` looks at its configuration, does a
  -- full scan if it must, waits, dispatches the next event, finds the channel closed, or corrects bindings.
  pub data Moves : System W B Q → System W B Q → Type 0 where
    programs :
        (d : Daemon) (m : Machine W B) (b c : B) (q r : Q) (channel : List EbpfProcEvent)
        → m.bpf ≡ some b
        → Step (beside aya) (ring_beside buffer.ring) (b, q) (c, r)
        → Moves
            (record { daemon = d; machine = m; entries = q; channel = channel })
            (record {
              daemon = d;
              machine = record m { bpf = some c };
              entries = r;
              channel = channel;
            })
    reads :
        (d : Daemon) (m : Machine W B) (q : Q) (channel : List EbpfProcEvent) (e : ProcEvent)
        (es : List ProcEvent)
        → buffer.queue q ≡ e ∷ es
        → Moves
            (record { daemon = d; machine = m; entries = q; channel = channel })
            (record {
              daemon = d;
              machine = m;
              entries = buffer.taken q;
              channel = channel ++ received e ∷ [];
            })
    checks :
        (d : Daemon) (m : Machine W B) (q : Q) (channel : List EbpfProcEvent)
        → Moves
            (record { daemon = d; machine = m; entries = q; channel = channel })
            (record {
              daemon = (check_config json os ino config_path d m).0.1;
              machine = (check_config json os ino config_path d m).1;
              entries = q;
              channel = channel;
            })
    scans :
        (changed : Bool) (d : Daemon) (m : Machine W B) (q : Q) (channel : List EbpfProcEvent)
        → Moves
            (record { daemon = d; machine = m; entries = q; channel = channel })
            (record {
              daemon = (scan_round os aya timing interval changed d m).0;
              machine = (scan_round os aya timing interval changed d m).1;
              entries = q;
              channel = channel;
            })
    waits :
        (d : Daemon) (m : Machine W B) (q : Q) (channel : List EbpfProcEvent)
        → Moves
            (record { daemon = d; machine = m; entries = q; channel = channel })
            (record {
              daemon = d;
              machine = (call timing.recv m).1;
              entries = q;
              channel = channel;
            })
    dispatches :
        (event : EbpfProcEvent) (d : Daemon) (m : Machine W B) (q : Q)
        (channel : List EbpfProcEvent)
        → Moves
            (record { daemon = d; machine = m; entries = q; channel = event ∷ channel })
            (record {
              daemon = with_cache (event_dispatch os aya event d.cfg d.proc_state.cache m).0 d;
              machine = (event_dispatch os aya event d.cfg d.proc_state.cache m).1;
              entries = q;
              channel = channel;
            })
    closes :
        (d : Daemon) (m : Machine W B) (q : Q)
        → Moves
            (record { daemon = d; machine = m; entries = q; channel = [] })
            (record {
              daemon = (on_received os aya timing interval disconnected d m).0;
              machine = (on_received os aya timing interval disconnected d m).1;
              entries = q;
              channel = [];
            })
    corrects :
        (d : Daemon) (m : Machine W B) (q : Q) (channel : List EbpfProcEvent)
        → Moves
            (record { daemon = d; machine = m; entries = q; channel = channel })
            (record {
              daemon = (sync_round os aya timing interval d m).0;
              machine = (sync_round os aya timing interval d m).1;
              entries = q;
              channel = channel;
            })

  pub data Run (s : System W B Q) : System W B Q → Type 0 where
    at_first : Run s s
    then_moves : {t u : System W B Q} → Run s t → Moves t u → Run s u
