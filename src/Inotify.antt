-- ===== src/Inotify.antt =====
-- src/main.rs, `init_inotify`, `read_inotify` and `rewatch_inotify`: the watch on the
-- configuration's file. Descriptors are the patterns of their `i32`.
pub mod Walk
use aether_opt_ext.Base.{
  ℕ, zero, suc, ◌+◌, ◌*◌, ◌/◌, ◌-◌, ◌%◌, ◌^◌, ◌≡◌, refl, Bool, true, false, not, ◌&&◌, ◌||◌, Option,
  none, some, List, [], ◌∷◌, State, bit_and, leb, ◌==◌, if◌then◌else◌, length,
}
use aether_opt_ext.Base.Text.{Text, contains_char}
use aether_opt_ext.Base.Bytes.{u32_at}
use aether_opt_ext.Os.Machine.{Machine, call}

-- The system calls of inotify.
pub record Inotify (W : Type 0) : Type 0 where
  -- `inotify_init1(IN_CLOEXEC | IN_NONBLOCK)`
  pub init : State W ℕ
  pub add_watch : ℕ → Text → ℕ → State W ℕ
  -- `read` into a buffer of 1024 bytes: the bytes that it wrote, `none` if it returns 0 or less
  pub read : ℕ → State W (Option (List ℕ))
  pub close : ℕ → State W (Unit {0})

abbrev pub is_negative : ℕ → Bool
is_negative fd = leb (2 ^ 31) fd

abbrev pub minus_one : ℕ
minus_one = 2 ^ 32 - 1

abbrev pub in_close_write : ℕ
in_close_write = 0x8

-- `IN_DELETE_SELF | IN_MOVE_SELF`
abbrev pub in_gone : ℕ
in_gone = 0xc00

abbrev pub watch_mask : ℕ
watch_mask = 0xc08

-- `size_of::<inotify_event>()`; its fields are `wd`, `mask`, `cookie` and `len`.
abbrev pub header : ℕ
header = 16

pub record Seen : Type 0 where
  pub reload : Bool
  pub rewatch : Bool

abbrev pub nothing_seen : Seen
nothing_seen = record { reload = false; rewatch = false }

abbrev pub has_bits : ℕ → ℕ → Bool
has_bits mask bits = not (bit_and mask bits == 0)

unfoldable pub note_event : ℕ → Seen → Seen
note_event mask seen = record {
  reload = has_bits mask in_gone || has_bits mask in_close_write || seen.reload;
  rewatch = has_bits mask in_gone || seen.rewatch;
}

-- The loop over the events in the buffer, from `off` on; `none` if the rounds run out.
unfoldable pub walk : ℕ → ℕ → List ℕ → Seen → Option Seen
unfolding note_event
walk zero off bytes seen = none
walk (suc rounds) off bytes seen =
    let rest =
      walk rounds (off + (header + u32_at (off + 12) bytes)) bytes
        (note_event (u32_at (off + 4) bytes) seen) in
    if leb (off + header) (length bytes) then rest else some seen

unfoldable pub read_events : List ℕ → Option Seen
unfolding walk
read_events bytes = walk (length bytes / header + 1) 0 bytes nothing_seen

-- 1 to reload the configuration, 2 to watch the file anew as well.
abbrev pub outcome : Option Seen → Option ℕ
outcome none = none
outcome (some seen) = if seen.reload then some (if seen.rewatch then 2 else 1) else none

abbrev pub events_in : Option (List ℕ) → Option ℕ
events_in none = none
events_in (some bytes) = outcome (read_events bytes)

module _ {W B : Type 0} (ino : Inotify W) where
  unfoldable pub close_failed : ℕ → State (Machine W B) ℕ
  close_failed fd m = (minus_one, (call (ino.close fd) m).1)

  -- A path with a NUL is no C string.
  unfoldable pub init_inotify : Text → State (Machine W B) ℕ
  unfolding close_failed
  init_inotify path m =
      let fd = call ino.init m in
      let wd = call (ino.add_watch fd.0 path watch_mask) fd.1 in
      if is_negative fd.0
      then (minus_one, fd.1)
      else if contains_char 0 path
      then close_failed fd.0 fd.1
      else if is_negative wd.0
      then close_failed fd.0 wd.1
      else (fd.0, wd.1)

  unfoldable pub read_inotify : ℕ → State (Machine W B) (Option ℕ)
  unfolding read_events
  read_inotify fd m =
      let r = call (ino.read fd) m in if is_negative fd then (none, m) else (events_in r.0, r.1)

  -- The descriptor that is used from now on.
  unfoldable pub rewatch_inotify : Text → ℕ → State (Machine W B) ℕ
  unfolding close_failed
  rewatch_inotify path fd m =
      let wd = call (ino.add_watch fd path watch_mask) m in
      if is_negative fd || contains_char 0 path
      then (fd, m)
      else if is_negative wd.0
      then close_failed fd wd.1
      else (fd, wd.1)
