-- ===== src/Tests/Ebpf.antt =====
-- The eBPF mode as a whole, at one phone: its start, its reader thread, and two rounds of the loop.
use aether_opt_ext.Base.{
  sym, ◌∙◌, append-nil, ℕ, ◌≡◌, refl, ap, true, false, Option, none, some, List, [], ◌∷◌, ◌++◌, All,
  arith, replicate,
}
use aether_opt_ext.Base.Text.{strip_prefix, trim, to_string, codes}
use aether_opt_ext.Kernel.{ProcEvent}
use aether_opt_ext.Events.{EbpfProcEvent, event_fork}
use aether_opt_ext.Base.Map.{lookup}
use aether_opt_ext.Events.Tracked.{Tracks}
use aether_opt_ext.Inotify.{Inotify}
use aether_opt_ext.Reader.{Reading, arrived, waiting, ring_data}
use aether_opt_ext.Reader.Layout.{IsProcEvent, proc_event_bytes}
use aether_opt_ext.Reader.Delivery.{Channel, Delivered, run, reader_step-delivers}
use aether_opt_ext.Tracefs.{get_field, parse_format, parse_line}
use aether_opt_ext.Tracefs.Line.{Field, IsField}
use aether_opt_ext.Tracefs.Format.{
  FormatLine, other, field, IsLine, file_text, offset_in_file, get_field-parse_format,
}
use aether_opt_ext.Tracefs.Probe.{Loader}
use aether_opt_ext.ProcMode.{new_state}
use aether_opt_ext.Daemon.{Daemon, Timing, got}
use aether_opt_ext.Daemon.Round.{SeparateMaps}
use aether_opt_ext.Tests.Maps.{Maps, list_aya}
use aether_opt_ext.Tests.Sample.{
  game_config, machine_with, no_maps, two_threads, two_keys, worker_ends,
}

-- The world of the reader: the items in the buffer, and the events that were sent.
abbrev Pipe : Type 0
Pipe = List (List ℕ) × List EbpfProcEvent

abbrev first_item : List (List ℕ) → Option (List ℕ)
first_item [] = none
first_item (x ∷ q) = some x

abbrev other_items : List (List ℕ) → List (List ℕ)
other_items [] = []
other_items (x ∷ q) = q

-- An entry that comes in while the reader waits.
abbrev late : List ℕ
late = replicate 28 0

abbrev pipe : Reading Pipe
pipe = record {
  epoll_create = λ w. (5, w);
  epoll_add = λ epfd fd tag w. (0, w);
  epoll_wait = λ epfd w. (arrived (ring_data ∷ []), (w.0 ++ late ∷ [], w.1));
  ring_next = λ w. (first_item w.0, (other_items w.0, w.1));
  send = λ e w. (true, (w.0, w.1 ++ e ∷ []));
  close = λ fd w. (tt, w);
}

abbrev pipe_channel : Channel pipe
pipe_channel = record {
  queue = λ w. w.0;
  sent = λ w. w.1;
  next_none = λ w h. ap first_item h;
  next_some = λ w x q h. ap first_item h;
  next_pops = λ w x q h. ([], ap other_items h ∙ sym (append-nil q));
  next_sent = λ w. refl;
  send_ok = λ e w. refl;
  send_queue = λ e w. ([], sym (append-nil w.0));
  send_appends = λ e w. refl;
  wait_queue = λ epfd w. (late ∷ [], refl);
  wait_sent = λ epfd w. refl;
}

abbrev forked : ProcEvent
forked = record {
  pid = 100;
  tid = 102;
  comm = codes "UnityMain" ++ replicate 7 0;
  event_type = event_fork;
}

forked-IsProcEvent : IsProcEvent forked
forked-IsProcEvent = record {
  pid_lt = omega arith;
  tid_lt = omega arith;
  comm_size = refl;
  type_lt = omega arith;
}

reader_step-delivers_example :
    Delivered pipe 5 pipe_channel []
      (forked ∷ [])
      (run pipe 5 2 (waiting, (proc_event_bytes forked ∷ [], [])))
reader_step-delivers_example =
    reader_step-delivers pipe 5 pipe_channel (forked ∷ []) (ring_data ∷ [])
      (proc_event_bytes forked ∷ [], []) (forked-IsProcEvent, tt) refl refl refl refl

-- A part of the format file of `sched_process_fork`.
abbrev child_comm : Field
child_comm = record {
  type_start = b'c';
  type_rest = codes "har";
  name_start = b'c';
  name_rest = codes "hild_comm";
  array = some (codes "16]");
  offset = 28;
  more = 9 ∷ codes "size:16;" ++ 9 ∷ codes "signed:0";
}

child_comm-IsField : IsField child_comm
child_comm-IsField = record {
  type_first = omega arith;
  type_bytes = ground arith;
  name_bytes = omega arith;
  name_lacks = omega arith;
  array_bytes = omega arith;
  offset_le = omega arith;
}

abbrev format_lines : List FormatLine
format_lines = other (codes "format:") ∷ field child_comm ∷ []

format_lines-IsLine : All IsLine format_lines
unfolding strip_prefix trim to_string
format_lines-IsLine =
    ((omega arith, unfold parse_line in refl), ((omega arith, child_comm-IsField), tt))

get_field-parse_format_example :
    get_field (codes "child_comm") (parse_format (file_text format_lines))
    ≡ offset_in_file (codes "child_comm") format_lines none
get_field-parse_format_example =
    get_field-parse_format (codes "child_comm") format_lines format_lines-IsLine

-- A loader on which every call succeeds.
abbrev pub good_loader : Loader (Unit {0}) Maps
good_loader = record {
  load_object = λ w. (some no_maps, w);
  has_offsets_map = λ b. true;
  set_offsets = λ offsets b. some b;
  has_program = λ name b. true;
  load_program = λ name b. (true, b);
  attach_program = λ category name b. (true, b);
  eventfd = λ w. (7, w);
  take_events = λ b. some b;
}

pub list_aya-SeparateMaps : SeparateMaps list_aya
list_aya-SeparateMaps = record {
  has_target_insert = λ k v b. refl;
  has_target_remove = λ k b. refl;
}

-- Nothing happens to the configuration, and every wait ends with the end of a worker.
abbrev pub quiet : Inotify (Unit {0})
quiet = record {
  init = λ w. (9, w);
  add_watch = λ fd path mask w. (1, w);
  read = λ fd w. (none, w);
  close = λ fd w. (tt, w);
}

abbrev pub busy : Timing (Unit {0})
busy = record { recv = λ w. (got worker_ends [], w); now = λ w. (0, w); sleep = λ n w. (tt, w) }

abbrev pub running : Daemon
running = record {
  cfg = game_config;
  proc_state = record new_state { cache = two_threads };
  ok = true;
  need_full_scan = false;
  comm_capacity = 8192;
  affinity_deadline = 0;
  cache_scan = 0;
  inotify_fd = 9;
}

pub two_keys-Tracks : Tracks list_aya (λ j. false) two_threads.tasks (machine_with two_keys).bpf
two_keys-Tracks = record { reachable = refl; tracked = λ tid. unfold lookup in ground arith }
