-- ===== src/Kernel.antt =====
-- ebpf/src/main.rs: the four tracepoint programs that run in the kernel and fill the ring buffer
-- which src/bpf.rs reads.
pub mod Whitelist
pub mod Reports
pub mod Applied
pub mod Reached
use aether_opt_ext.Base.{
  ℕ, zero, suc, ◌+◌, ◌/◌, ◌%◌, ◌^◌, Bool, true, false, not, ◌&&◌, ◌||◌, Option, none, some, List,
  [], ◌∷◌, ◌==◌, if◌then◌else◌, length, take, drop, replicate, is_some, State,
}
use aether_opt_ext.Os.{Aya}

abbrev pub event_fork : ℕ
event_fork = 1

abbrev pub event_exec : ℕ
event_exec = 2

abbrev pub event_rename : ℕ
event_rename = 3

abbrev pub event_exit : ℕ
event_exit = 4

pub record TracepointOffsets : Type 0 where
  pub fork_child_pid : ℕ
  pub fork_child_comm : ℕ
  pub rename_newcomm : ℕ

-- `pid` and `tid` are the patterns of `i32`s, `comm` has 16 bytes.
pub record ProcEvent : Type 0 where
  pub pid : ℕ
  pub tid : ℕ
  pub comm : List ℕ
  pub event_type : ℕ

-- The maps beside those of `Aya`: `OFFSETS_MAP.get(0)` and the ring buffer `EVENTS`. `output` is
-- `write` and `submit` of an entry that `reserve` returned.
pub record Ring (B : Type 0) : Type 0 where
  pub offsets : B → Option TracepointOffsets
  pub reserve : B → Bool
  pub output : ProcEvent → B → B

-- What the helpers return in one call of a tracepoint program: `bpf_get_current_pid_tgid` (64 bits),
-- `bpf_get_current_comm`, and `ctx.read_at` of a number and of 16 bytes.
pub record Context : Type 0 where
  pub pid_tgid : ℕ
  pub current_comm : Option (List ℕ)
  pub read_i32 : ℕ → Option ℕ
  pub read_comm : ℕ → Option (List ℕ)

abbrev pub unwrap_or {ℓ} : {A : Type ℓ} → Option A → A → A
unwrap_or none d = d
unwrap_or (some a) d = a

abbrev pub no_comm : List ℕ
no_comm = replicate 16 0

-- `(pid_tgid & 0xFFFFFFFF) as u32` and `(pid_tgid >> 32) as u32`
abbrev pub low_half : ℕ → ℕ
low_half pid_tgid = pid_tgid % 2 ^ 32

abbrev pub high_half : ℕ → ℕ
high_half pid_tgid = pid_tgid / 2 ^ 32 % 2 ^ 32

-- `try_into().unwrap_or([0u8; 8])`
abbrev pub as_key : List ℕ → List ℕ
as_key slice = if length slice == 8 then slice else replicate 8 0

abbrev pub usable_offsets : Option TracepointOffsets → Option TracepointOffsets
usable_offsets none = none
usable_offsets (some o) = if o.fork_child_pid == 0 then none else some o

module _ {B : Type 0} (aya : Aya B) where
  unfoldable pub applied_lookup : ℕ → B → Bool
  applied_lookup key b = is_some (aya.applied_get key b)

  -- The windows from `pos` on, `count` of them.
  unfoldable pub windows_matched : ℕ → ℕ → List ℕ → B → Bool
  windows_matched pos zero comm b = false
  windows_matched pos (suc count) comm b =
      let later = windows_matched (suc pos) count comm b in
      if is_some (aya.target_get (as_key (take 8 (drop pos comm))) b) then true else later

  unfoldable pub whitelist_matched : List ℕ → B → Bool
  whitelist_matched comm b = windows_matched 0 9 comm b

module _ {B : Type 0} (ring : Ring B) where
  unfoldable pub offsets_load : B → Option TracepointOffsets
  offsets_load b = usable_offsets (ring.offsets b)

  -- An event is lost if the buffer is full.
  unfoldable pub submit_event : ProcEvent → B → B
  submit_event event b = if ring.reserve b then ring.output event b else b

unfoldable pub fork_parse : Context → TracepointOffsets → ℕ × ℕ × List ℕ
fork_parse ctx offsets = (
  high_half ctx.pid_tgid,
  unwrap_or (ctx.read_i32 offsets.fork_child_pid) 0,
  unwrap_or (ctx.read_comm offsets.fork_child_comm) no_comm,
)

-- The programs. Each returns 0 on every path.
module _ {B : Type 0} (aya : Aya B) (ring : Ring B) where
  -- `sched_process_fork` with the offsets. `tid as u32` keeps the pattern of the `i32`.
  unfoldable pub fork_with : Context → TracepointOffsets → B → B
  fork_with ctx offsets b =
      let (pid, tid, comm) = fork_parse ctx offsets in
      let is_tracked = applied_lookup aya (low_half ctx.pid_tgid) b in
      let event : ProcEvent = record {
        pid = pid;
        tid = tid;
        comm = comm;
        event_type = event_fork;
      } in
      if not is_tracked && not (whitelist_matched aya comm b)
      then b
      else submit_event ring event (if is_tracked then aya.applied_insert tid 0 b else b)

  unfoldable pub fork_if : Option TracepointOffsets → Context → B → B
  fork_if none ctx b = b
  fork_if (some offsets) ctx b = fork_with ctx offsets b

  unfoldable pub sched_process_fork : Context → B → B
  sched_process_fork ctx b = fork_if (offsets_load ring b) ctx b

  unfoldable pub sched_process_exec : Context → B → B
  sched_process_exec ctx b =
      let comm = unwrap_or ctx.current_comm no_comm in
      let event : ProcEvent = record {
        pid = high_half ctx.pid_tgid;
        tid = low_half ctx.pid_tgid;
        comm = comm;
        event_type = event_exec;
      } in
      if not (whitelist_matched aya comm b) then b else submit_event ring event b

  -- `task_rename` with the offsets.
  unfoldable pub rename_with : Context → TracepointOffsets → B → B
  rename_with ctx offsets b =
      let tracked = applied_lookup aya (low_half ctx.pid_tgid) b in
      let new_comm = unwrap_or (ctx.read_comm offsets.rename_newcomm) no_comm in
      let event : ProcEvent = record {
        pid = high_half ctx.pid_tgid;
        tid = low_half ctx.pid_tgid;
        comm = new_comm;
        event_type = event_rename;
      } in
      if not tracked && not (whitelist_matched aya new_comm b) then b else submit_event ring event b

  unfoldable pub rename_if : Option TracepointOffsets → Context → B → B
  rename_if none ctx b = b
  rename_if (some offsets) ctx b = rename_with ctx offsets b

  unfoldable pub task_rename : Context → B → B
  task_rename ctx b =
      if low_half ctx.pid_tgid == 0 then b else rename_if (offsets_load ring b) ctx b

  unfoldable pub sched_process_exit : Context → B → B
  sched_process_exit ctx b =
      let tid = low_half ctx.pid_tgid in
      let event : ProcEvent = record {
        pid = high_half ctx.pid_tgid;
        tid = tid;
        comm = no_comm;
        event_type = event_exit;
      } in
      if not (applied_lookup aya tid b)
      then b
      else submit_event ring event (aya.applied_remove tid b)
