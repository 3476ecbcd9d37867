-- ===== src/Topology.antt =====
-- src/cpuset.rs, `CpuTopology`, `create_cpuset_dir` and `ensure_cpuset_dir`.
pub mod Dir
pub mod Detect
use aether_opt_ext.Base.{
  ℕ, Bool, true, false, Option, none, some, [], State, ◌>>=◌, pure, ◌++◌, ◌∷◌, not, ◌&&◌, ◌==◌,
  if◌then◌else◌,
}
use aether_opt_ext.Base.Text.{Text, codes}
use aether_opt_ext.CpuSet.{CpuSet}
use aether_opt_ext.CpuRange.{to_range_string}
use aether_opt_ext.Os.{Os}
use aether_opt_ext.Os.Machine.{Machine, call, base_cpuset}

pub record CpuTopology : Type 0 where
  pub present_cpus : CpuSet
  pub present_str : Text
  pub mems_str : Text
  pub cpuset_enabled : Bool
  pub base_cpuset_fd : ℕ
  pub e_core : CpuSet
  pub p_core : CpuSet
  pub hp_core : CpuSet

abbrev pub join_path : Text → Text → Text
join_path dir name = dir ++ b'/' ∷ name

abbrev pub eexist : ℕ
eexist = 17

module _ {W B : Type 0} (os : Os W) where
  write_mems : Text → Text → State (Machine W B) Bool
  write_mems path mems = call (os.write_file (join_path path (codes "mems")) mems)

  write_cpus : Text → Text → Text → State (Machine W B) Bool
  unfolding write_mems
  write_cpus path cpus mems = do
    ok ← call (os.write_file (join_path path (codes "cpus")) cpus)
    if ok then write_mems path mems else pure false

  own_dir : Text → Text → Text → State (Machine W B) Bool
  unfolding write_cpus
  own_dir path cpus mems = do
    errno ← call (os.chown path)
    if not (errno == 0) then pure false else write_cpus path cpus mems

  open_up_dir : Text → Text → Text → State (Machine W B) Bool
  unfolding own_dir
  open_up_dir path cpus mems = do
    errno ← call (os.chmod path)
    if not (errno == 0) then pure false else own_dir path cpus mems

  -- Every step that fails ends it; a directory that is there already is no failure.
  unfoldable pub create_cpuset_dir : Text → Text → Text → State (Machine W B) Bool
  unfolding open_up_dir
  create_cpuset_dir path cpus mems = do
    errno ← call (os.mkdir path)
    if not (errno == 0) && not (errno == eexist) then pure false else open_up_dir path cpus mems

  -- The name of the directory for the set, empty if cpusets are off or it cannot be made.
  unfoldable pub ensure_cpuset_dir : CpuSet → CpuTopology → State (Machine W B) Text
  unfolding create_cpuset_dir
  ensure_cpuset_dir cpus topo m =
      let dir_name = to_range_string cpus in
      let made = create_cpuset_dir (join_path (base_cpuset m) dir_name) dir_name topo.mems_str m in
      if not topo.cpuset_enabled then ([], m) else (if made.0 then dir_name else [], made.1)
