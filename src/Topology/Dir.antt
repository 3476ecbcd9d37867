-- ===== src/Topology/Dir.antt =====
-- What `ensure_cpuset_dir` returns.
use aether_opt_ext.Base.{◌≡◌, ◌⊎◌, [], arith}
use aether_opt_ext.CpuSet.{CpuSet}
use aether_opt_ext.CpuRange.{to_range_string}
use aether_opt_ext.Os.{Os}
use aether_opt_ext.Os.Machine.{Machine}
use aether_opt_ext.Topology.{CpuTopology, ensure_cpuset_dir}

module _ {W B : Type 0} (os : Os W) (cpus : CpuSet) (topo : CpuTopology) (m : Machine W B) where
  -- The name is that of exactly these CPUs, or empty.
  pub ensure_cpuset_dir-name :
      ((ensure_cpuset_dir os cpus topo m).0 ≡ [])
      ⊎ ((ensure_cpuset_dir os cpus topo m).0 ≡ to_range_string cpus)
  unfolding ensure_cpuset_dir
  ensure_cpuset_dir-name = ground arith

  -- The BPF object is not touched.
  pub ensure_cpuset_dir-bpf : (ensure_cpuset_dir os cpus topo m).1.bpf ≡ m.bpf
  unfolding ensure_cpuset_dir
  ensure_cpuset_dir-bpf = ground arith
