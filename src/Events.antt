-- ===== src/Events.antt =====
-- src/main.rs, the eBPF mode: `comm_str`, `event_affinity_apply`, `event_apply`, `event_dispatch`
-- and the loop of `main` over the events that wait.
pub mod Dispatch
pub mod Tracked
pub mod Binding
pub mod Invariant
use aether_opt_ext.Base.{
  ℕ, ◌≡◌, Bool, true, false, not, ◌&&◌, ◌||◌, Option, none, some, List, [], ◌∷◌, State, ◌>>=◌, pure,
  ◌==◌, if◌then◌else◌, get_or,
}
use aether_opt_ext.Base.Map.{Map, lookup, insert, remove}
use aether_opt_ext.Base.Text.{Text, codes, first_part, is_utf8, trim, parse_i32}
use aether_opt_ext.CpuSet.{CpuSet}
use aether_opt_ext.Os.{Os, Aya}
use aether_opt_ext.Os.Machine.{Machine, call}
use aether_opt_ext.Config.{AppConfig, pkg_has_thread_rules}
use aether_opt_ext.Process.{affinity_set}
use aether_opt_ext.ProcFs.{task_tids, tid_comm, process_pkg, interested}
use aether_opt_ext.Bpf.{applied_set, applied_del, applied_clear}
use aether_opt_ext.ProcCache.{ProcCache, clear, task_del, task_apply, pkg_lookup_comm}

abbrev pub event_fork : ℕ
event_fork = 1

abbrev pub event_exec : ℕ
event_exec = 2

abbrev pub event_rename : ℕ
event_rename = 3

abbrev pub event_exit : ℕ
event_exit = 4

-- `comm` is 16 bytes; `pid` and `tid` are `i32` patterns.
pub record EbpfProcEvent : Type 0 where
  pub pid : ℕ
  pub tid : ℕ
  pub comm : List ℕ
  pub event_type : ℕ

-- The bytes before the first NUL, if they are UTF-8, with no white space around them.
unfoldable pub comm_str : List ℕ → Text
comm_str comm = let name = first_part 0 comm in trim (if is_utf8 name then name else [])

-- `pc.pkgs.remove(&pid)`
unfoldable pub drop_pkg : ℕ → ProcCache → ProcCache
drop_pkg pid pc = record pc { pkgs = remove pid pc.pkgs }

module _ {W B : Type 0} (os : Os W) (aya : Aya B) where
  unfoldable pub event_affinity_apply : AppConfig → ℕ → CpuSet → Text → State (Machine W B) Bool
  event_affinity_apply cfg tid cpus cpuset_dir m =
      let dead = affinity_set os tid cpus cpuset_dir cfg.topo m in
      (dead.0, if dead.0 then dead.1 else applied_set aya tid (get_or cpus.bits 0 0) dead.1)

  -- The body of `event_apply` once the package is known, or known not to be there.
  unfoldable pub event_apply_pkg :
      Option (Text × Bool)
      → ProcCache
      → ℕ
      → ℕ
      → Text
      → AppConfig
      → Bool
      → State (Machine W B) (Bool × ProcCache)
  event_apply_pkg none pc tid pid comm cfg trust_comm m = ((false, pc), m)
  event_apply_pkg (some (pkg, has_thread_rules)) pc tid pid comm cfg trust_comm m =
      let applied =
        task_apply os tid pid pkg comm has_thread_rules cfg trust_comm (event_affinity_apply cfg) pc
          m in
      ((true, applied.0.1), applied.1)

  -- Whether the process belongs to a package; the result of `task_apply` is not used.
  unfoldable pub event_apply :
      ProcCache → ℕ → ℕ → Text → AppConfig → Bool → State (Machine W B) (Bool × ProcCache)
  event_apply pc tid pid comm cfg trust_comm m =
      let found = pkg_lookup_comm pid comm cfg pc in
      event_apply_pkg found.0 found.1 tid pid comm cfg trust_comm m

  unfoldable pub on_exit : ProcCache → ℕ → ℕ → State (Machine W B) ProcCache
  on_exit pc tid pid m =
      (task_del tid (if tid == pid then drop_pkg pid pc else pc), applied_del aya tid m)

  unfoldable pub on_exec : ProcCache → ℕ → ℕ → Text → AppConfig → State (Machine W B) ProcCache
  on_exec pc tid pid comm cfg m =
      let applied = event_apply (drop_pkg pid pc) tid pid comm cfg true m in
      if applied.0.0
      then (applied.0.1, applied.1)
      else (task_del tid applied.0.1, applied_del aya tid applied.1)

  -- Events of any other type change nothing.
  unfoldable pub event_dispatch :
      EbpfProcEvent → AppConfig → ProcCache → State (Machine W B) ProcCache
  event_dispatch event cfg pc m =
      let comm = comm_str event.comm in
      let fork = event_apply pc event.tid event.pid comm cfg (event.tid == event.pid) m in
      let rename = event_apply pc event.tid event.pid comm cfg true m in
      if event.event_type == event_exit
      then on_exit pc event.tid event.pid m
      else if event.event_type == event_exec
      then on_exec pc event.tid event.pid comm cfg m
      else if event.event_type == event_fork
      then (fork.0.1, fork.1)
      else if event.event_type == event_rename
      then (rename.0.1, rename.1)
      else (pc, m)

  -- `recv_timeout`, then `try_recv` until the channel is empty.
  unfoldable pub dispatch_all :
      List EbpfProcEvent → AppConfig → ProcCache → State (Machine W B) ProcCache
  dispatch_all [] cfg pc = pure pc
  dispatch_all (event ∷ events) cfg pc = do
    pc' ← event_dispatch event cfg pc
    dispatch_all events cfg pc'
