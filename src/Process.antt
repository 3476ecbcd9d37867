-- ===== src/Process.antt =====
-- src/process.rs, `affinity_set`.
pub mod Reports
use mathlib.Core.Option
use aether_opt_ext.Base.{
  ℕ, ◌≡◌, Bool, true, false, not, ◌&&◌, ◌||◌, Option, none, some, List, [], ◌∷◌, ◌++◌, State, ◌>>=◌,
  ◌>>◌, pure, ◌==◌, if◌then◌else◌, any,
}
use aether_opt_ext.Base.Text.{Text, codes, is_empty, text_eq, print_i32}
use aether_opt_ext.CpuSet.{CpuSet, cpuset_eq}
use aether_opt_ext.CpuRange.{to_range_string}
use aether_opt_ext.Os.{Os}
use aether_opt_ext.Os.Machine.{Machine, call, base_cpuset}
use aether_opt_ext.Topology.{CpuTopology, join_path}

abbrev pub esrch : ℕ
esrch = 3

abbrev pub key_eq : ℕ × Text → ℕ × Text → Bool
key_eq (a, s) (b, t) = a == b && text_eq s t

module _ {W B : Type 0} where
  -- `if seen.insert((tid, cpus)) { info!(…) }`
  unfoldable pub report_failure : ℕ → Text → Machine W B → Machine W B
  report_failure tid cpus m =
      if any (key_eq (tid, cpus)) m.failed_once
      then m
      else record m { failed_once = (tid, cpus) ∷ m.failed_once; logged = (tid, cpus) ∷ m.logged }

  abbrev pub tasks_path : Text → Machine W B → Text
  tasks_path cpuset_dir m =
      if is_empty cpuset_dir
      then join_path (base_cpuset m) (codes "tasks")
      else join_path (join_path (base_cpuset m) cpuset_dir) (codes "tasks")

abbrev pub is_current : Option CpuSet → CpuSet → Bool
is_current none cpus = false
is_current (some curr) cpus = cpuset_eq curr cpus

module _ {W B : Type 0} (os : Os W) where
  unfoldable pub write_tasks : ℕ → Text → CpuTopology → Machine W B → Machine W B
  write_tasks tid cpuset_dir topo m =
      let moved = call (os.append_file (tasks_path cpuset_dir m) (print_i32 tid ++ 10 ∷ [])) m in
      if topo.cpuset_enabled then moved.1 else m

  unfoldable pub bind_cpus : ℕ → CpuSet → State (Machine W B) Bool
  bind_cpus tid cpus m =
      let bound = call (os.setaffinity tid cpus) m in
      if bound.0 == 0
      then (false, bound.1)
      else if bound.0 == esrch
      then (true, bound.1)
      else (false, report_failure tid (to_range_string cpus) bound.1)

  -- True if the thread has gone.
  unfoldable pub affinity_set : ℕ → CpuSet → Text → CpuTopology → State (Machine W B) Bool
  affinity_set tid cpus cpuset_dir topo m =
      let current = call (os.getaffinity tid) m in
      if is_current current.0 cpus
      then (false, current.1)
      else bind_cpus tid cpus (write_tasks tid cpuset_dir topo current.1)
