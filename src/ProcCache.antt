-- ===== src/ProcCache.antt =====
-- src/proccache.rs: the cache of threads and packages that both modes keep.
pub mod Tasks
use aether_opt_ext.Base.{
  ℕ, ◌≡◌, Bool, true, false, not, ◌&&◌, ◌||◌, Option, none, some, List, [], ◌∷◌, State, ◌>>=◌, pure,
  ◌==◌, if◌then◌else◌,
}
use aether_opt_ext.Base.Map.{Map, lookup, insert, remove, any_value}
use aether_opt_ext.Base.Text.{Text}
use aether_opt_ext.CpuSet.{CpuSet}
use aether_opt_ext.Os.{Os}
use aether_opt_ext.Os.Machine.{Machine}
use aether_opt_ext.Topology.{CpuTopology}
use aether_opt_ext.Bpf.{comm_to_pkg}
use aether_opt_ext.Config.{AppConfig, pkg_has_thread_rules}
use aether_opt_ext.RuleMatch.{AffinityResult, thread_affinity}
use aether_opt_ext.Process.{affinity_set}

pub record TaskEntry : Type 0 where
  pub pid : ℕ
  pub cpus : CpuSet
  pub cpuset_dir : Text
  pub is_thread_rule : Bool

pub record ProcCache : Type 0 where
  pub pkgs : Map (Text × Bool)
  pub tasks : Map TaskEntry

abbrev pub empty_cache : ProcCache
empty_cache = record { pkgs = []; tasks = [] }

-- `clear`
unfoldable pub clear : ProcCache → ProcCache
clear pc = record pc { pkgs = []; tasks = [] }

unfoldable pub pkgs_purge : ℕ → ProcCache → ProcCache
pkgs_purge pid pc =
    if not (any_value (λ (t : TaskEntry). t.pid == pid) pc.tasks)
    then record pc { pkgs = remove pid pc.pkgs }
    else pc

-- `if let Some(pid) = pid { self.pkgs_purge(pid); }`
unfoldable pub purge_of : Option TaskEntry → ProcCache → ProcCache
purge_of none pc = pc
purge_of (some t) pc = pkgs_purge t.pid pc

unfoldable pub task_del : ℕ → ProcCache → ProcCache
task_del tid pc = purge_of (lookup tid pc.tasks) (record pc { tasks = remove tid pc.tasks })

unfoldable pub task_del_all : List ℕ → ProcCache → ProcCache
task_del_all [] pc = pc
task_del_all (tid ∷ tids) pc = task_del_all tids (task_del tid pc)

-- The package that `comm` shows is cached with whether it has thread rules.
unfoldable pub cache_pkg :
    ℕ → Option Text → AppConfig → ProcCache → Option (Text × Bool) × ProcCache
cache_pkg pid none cfg pc = (none, pc)
cache_pkg pid (some pkg) cfg pc =
    let has_thread_rules = pkg_has_thread_rules cfg pkg in
    (some (pkg, has_thread_rules), record pc { pkgs = insert pid (pkg, has_thread_rules) pc.pkgs })

-- `pkgs.get(&pid)`, and what is done if it is not there.
unfoldable pub pkg_or_comm :
    Option (Text × Bool) → ℕ → Text → AppConfig → ProcCache → Option (Text × Bool) × ProcCache
pkg_or_comm (some cached) pid comm cfg pc = (some cached, pc)
pkg_or_comm none pid comm cfg pc = cache_pkg pid (comm_to_pkg comm cfg) cfg pc

-- The package of a process: from the cache or, if it is not there, by `comm`.
unfoldable pub pkg_lookup_comm : ℕ → Text → AppConfig → ProcCache → Option (Text × Bool) × ProcCache
pkg_lookup_comm pid comm cfg pc = pkg_or_comm (lookup pid pc.pkgs) pid comm cfg pc

-- `tasks.get(&tid)` is bound by a thread rule.
abbrev pub is_thread_bound : Option TaskEntry → Bool
is_thread_bound none = false
is_thread_bound (some old) = old.is_thread_rule

module _ {W B : Type 0} where
  -- `self.tasks.remove(&tid)`, the call of `apply_fn`, and the insertion if the thread lives.
  unfoldable pub task_bind :
      ℕ
      → ℕ
      → (ℕ → CpuSet → Text → State (Machine W B) Bool)
      → ProcCache
      → AffinityResult
      → State (Machine W B) (Bool × ProcCache)
  task_bind tid pid apply_fn pc r m =
      let bound = apply_fn tid r.cpus r.cpuset_dir m in
      let entry : TaskEntry = record {
        pid = pid;
        cpus = r.cpus;
        cpuset_dir = r.cpuset_dir;
        is_thread_rule = r.is_thread_rule;
      } in
      (
        if bound.0
            then (false, record pc { tasks = remove tid pc.tasks })
            else (true, record pc { tasks = insert tid entry (remove tid pc.tasks) }),
        bound.1,
      )

  -- A fallback does not replace a binding by a thread rule.
  unfoldable pub task_update :
      ℕ
      → ℕ
      → (ℕ → CpuSet → Text → State (Machine W B) Bool)
      → ProcCache
      → Option AffinityResult
      → State (Machine W B) (Bool × ProcCache)
  task_update tid pid apply_fn pc none m = ((false, pc), m)
  task_update tid pid apply_fn pc (some r) m =
      if not r.is_thread_rule && is_thread_bound (lookup tid pc.tasks)
      then ((true, pc), m)
      else task_bind tid pid apply_fn pc r m

module _ {W B : Type 0} (os : Os W) where
  unfoldable pub task_apply :
      ℕ
      → ℕ
      → Text
      → Text
      → Bool
      → AppConfig
      → Bool
      → (ℕ → CpuSet → Text → State (Machine W B) Bool)
      → ProcCache
      → State (Machine W B) (Bool × ProcCache)
  task_apply tid pid pkg comm has_thread_rules cfg trust_comm apply_fn pc = do
    let thread_name = if has_thread_rules && trust_comm then comm else []
    result ← thread_affinity os pkg thread_name cfg cfg.topo
    task_update tid pid apply_fn pc result

  -- The threads that have gone, in the order of the map.
  unfoldable pub dead_tasks : Map TaskEntry → CpuTopology → State (Machine W B) (List ℕ)
  dead_tasks [] topo = pure []
  dead_tasks ((tid, e) ∷ tasks) topo = do
    dead ← affinity_set os tid e.cpus e.cpuset_dir topo
    rest ← dead_tasks tasks topo
    pure (if dead then tid ∷ rest else rest)

  -- `for tid in &dead_tids { self.task_del(*tid); }`
  unfoldable pub affinity_sync : ProcCache → CpuTopology → State (Machine W B) (List ℕ × ProcCache)
  affinity_sync pc topo = do
    dead_tids ← dead_tasks pc.tasks topo
    pure (dead_tids, task_del_all dead_tids pc)
