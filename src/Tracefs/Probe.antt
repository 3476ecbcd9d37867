-- ===== src/Tracefs/Probe.antt =====
-- src/bpf.rs, `offsets_inject` and `probe` on Android: the programs are loaded and attached, or there
-- is no eBPF mode.
pub mod Outcomes
pub mod Ready
use aether_opt_ext.Base.{
  ℕ, ◌-◌, ◌^◌, Bool, true, false, not, ◌&&◌, Option, none, some, State, leb, if◌then◌else◌,
}
use aether_opt_ext.Base.Text.{Text, codes}
use aether_opt_ext.Os.{Os}
use aether_opt_ext.Os.Machine.{Machine, call}
use aether_opt_ext.Tracefs.{EbpfOffsets, tracefs_root, read_offsets}

-- What `probe` asks of aya and of Linux. `B` is the loaded object before `main` holds it.
pub record Loader (W B : Type 0) : Type 0 where
  -- `EbpfLoader::new().load(elf_data).ok()`
  pub load_object : State W (Option B)
  -- whether `map_mut("OFFSETS_MAP")` and `try_from` succeed
  pub has_offsets_map : B → Bool
  -- `offsets_map.set(0, offsets, 0)`, `none` if it fails
  pub set_offsets : EbpfOffsets → B → Option B
  -- whether `program_mut(name)` and `try_into` succeed
  pub has_program : Text → B → Bool
  pub load_program : Text → B → Bool × B
  -- `attach(category, name)`
  pub attach_program : Text → Text → B → Bool × B
  -- `eventfd`, an `i32` pattern
  pub eventfd : State W ℕ
  -- `take_map("EVENTS")` and `RingBuf::try_from`
  pub take_events : B → Option B

-- The context; the channel and the thread stand for themselves: `has_reader` says that they are.
pub record BpfCtx (B : Type 0) : Type 0 where
  pub ok : Bool
  pub bpf : Option B
  pub wakeup_fd : ℕ
  pub has_reader : Bool

abbrev pub no_fd : ℕ
no_fd = 2 ^ 32 - 1

module _ {B : Type 0} where
  abbrev pub empty : BpfCtx B
  empty = record { ok = false; bpf = none; wakeup_fd = no_fd; has_reader = false }

abbrev pub program_fork : Text
program_fork = codes "sched_process_fork"

abbrev pub program_exec : Text
program_exec = codes "sched_process_exec"

abbrev pub program_exit : Text
program_exit = codes "sched_process_exit"

abbrev pub program_rename : Text
program_rename = codes "task_rename"

module _ {W B : Type 0} (l : Loader W B) where
  abbrev set_in : Option EbpfOffsets → B → Option B
  set_in none b = none
  set_in (some offsets) b = if l.has_offsets_map b then l.set_offsets offsets b else none

  unfoldable pub attach_loaded : Text → Text → Bool × B → Bool × B
  attach_loaded name category loaded =
      let attached = l.attach_program category name loaded.1 in
      if loaded.0 then attached else (false, loaded.1)

  -- The closure `attach`; what it reports is left out.
  unfoldable pub attach : Text → Text → B → Bool × B
  unfolding attach_loaded
  attach name category b =
      let done = attach_loaded name category (l.load_program name b) in
      if l.has_program name b then done else (false, b)

  abbrev with_events : ℕ → Option B → BpfCtx B
  with_events fd none = empty
  with_events fd (some b) = record { ok = true; bpf = some b; wakeup_fd = fd; has_reader = true }

  unfoldable pub start_reader : B → State (Machine W B) (BpfCtx B)
  start_reader b m =
      let fd = call l.eventfd m in
      if leb (2 ^ 31) fd.0 then (empty, fd.1) else (with_events fd.0 (l.take_events b), fd.1)

  -- The programs in their order; that for renames may be missing.
  unfoldable pub attach_all : B → State (Machine W B) (BpfCtx B)
  unfolding attach start_reader
  attach_all b m =
      let fork = attach program_fork (codes "sched") b in
      let exec = attach program_exec (codes "sched") fork.1 in
      let exit = attach program_exit (codes "sched") exec.1 in
      let rename = attach program_rename (codes "task") exit.1 in
      let started = start_reader rename.1 m in
      if not (fork.0 && exec.0 && exit.0) then (empty, m) else started

  abbrev attach_injected : Option B → State (Machine W B) (BpfCtx B)
  attach_injected none m = (empty, m)
  attach_injected (some b) m = attach_all b m

module _ {W B : Type 0} (os : Os W) (l : Loader W B) where
  unfoldable pub offsets_inject : B → State (Machine W B) (Option B)
  unfolding tracefs_root read_offsets
  offsets_inject b m =
      let root = tracefs_root os m in
      let offsets = read_offsets os root.0 root.1 in (set_in l offsets.0 b, offsets.1)

  abbrev probe_loaded : Option B → State (Machine W B) (BpfCtx B)
  probe_loaded none m = (empty, m)
  probe_loaded (some b) m =
      let injected = offsets_inject b m in attach_injected l injected.0 injected.1

  unfoldable pub probe : Bool → State (Machine W B) (BpfCtx B)
  unfolding offsets_inject attach_all
  probe enable m =
      let loaded = call l.load_object m in
      let probed = probe_loaded loaded.0 loaded.1 in if enable then probed else (empty, m)
