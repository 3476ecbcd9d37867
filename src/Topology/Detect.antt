-- ===== src/Topology/Detect.antt =====
-- src/cpuset.rs, `detect_core_types` and `init_cpu_topo`: the kinds of cores by the frequencies of
-- their cpufreq policies, and the first cpuset directory.
pub mod Groups
pub mod Kinds
pub mod Policies
use aether_opt_ext.Base.{
  ℕ, zero, suc, ◌+◌, ◌-◌, ◌^◌, Bool, true, false, not, Option, none, some, List, [], ◌∷◌, ◌++◌,
  State, leb, ◌==◌, if◌then◌else◌, length,
}
use aether_opt_ext.Base.Text.{
  Text, codes, is_empty, starts_with, trim, parse_uint, usize_max, split_whitespace,
}
use aether_opt_ext.CpuSet.{CpuSet, new, set}
use aether_opt_ext.CpuRange.{parse_cpu_ranges}
use aether_opt_ext.Os.{Os}
use aether_opt_ext.Os.Machine.{Machine, call, base_cpuset}
use aether_opt_ext.Topology.{CpuTopology, join_path, create_cpuset_dir}

-- A frequency with the CPUs that have it.
abbrev pub Group : Type 0
Group = ℕ × List ℕ

-- The group of the frequency is extended; a frequency with no group gets one at the end.
unfoldable pub add_group : ℕ → List ℕ → List Group → List Group
add_group freq cpus [] = (freq, cpus) ∷ []
add_group freq cpus ((f, own) ∷ groups) =
    let rest = add_group freq cpus groups in
    if f == freq then (f, own ++ cpus) ∷ groups else (f, own) ∷ rest

-- `sort_by_key` is stable: a group goes before the first that is not lower.
unfoldable pub insert_group : Group → List Group → List Group
insert_group g [] = g ∷ []
insert_group g (h ∷ hs) =
    let rest = insert_group g hs in if leb g.0 h.0 then g ∷ h ∷ hs else h ∷ rest

unfoldable pub sort_groups : List Group → List Group
unfolding insert_group
sort_groups [] = []
sort_groups (g ∷ gs) = insert_group g (sort_groups gs)

unfoldable pub set_all : List ℕ → CpuSet → CpuSet
set_all [] s = s
set_all (cpu ∷ cpus) s = set_all cpus (set s cpu)

pub record CoreTypes : Type 0 where
  pub e : CpuSet
  pub p : CpuSet
  pub h : CpuSet

-- The group at place `i` of `n`: the first is slow, the last fast.
unfoldable pub assign_group : ℕ → ℕ → List ℕ → CoreTypes → CoreTypes
unfolding set_all
assign_group i n cpus c =
    if i == 0
    then record c { e = set_all cpus c.e }
    else if i == n - 1
    then record c { h = set_all cpus c.h }
    else record c { p = set_all cpus c.p }

unfoldable pub assign_groups : ℕ → ℕ → List Group → CoreTypes → CoreTypes
unfolding assign_group
assign_groups i n [] c = c
assign_groups i n (g ∷ gs) c = assign_groups (i + 1) n gs (assign_group i n g.1 c)

abbrev pub no_cores : CoreTypes
no_cores = record { e = new; p = new; h = new }

unfoldable pub core_types : List Group → CoreTypes
unfolding assign_groups sort_groups
core_types groups =
    let sorted = sort_groups groups in assign_groups 0 (length sorted) sorted no_cores

-- `.ok().and_then(|s| s.trim().parse().ok()).unwrap_or(0)`
abbrev pub number_or_zero : Option ℕ → ℕ
number_or_zero none = 0
number_or_zero (some n) = n

abbrev pub freq_of : Option Text → ℕ
freq_of none = 0
freq_of (some s) = number_or_zero (parse_uint usize_max (trim s))

abbrev pub cons_number : Option ℕ → List ℕ → List ℕ
cons_number none ns = ns
cons_number (some n) ns = n ∷ ns

abbrev pub numbers : List Text → List ℕ
numbers [] = []
numbers (w ∷ ws) = cons_number (parse_uint usize_max w) (numbers ws)

abbrev pub cpus_in : Option Text → List ℕ
cpus_in none = []
cpus_in (some s) = numbers (split_whitespace s)

abbrev pub cpufreq : Text
cpufreq = codes "/sys/devices/system/cpu/cpufreq"

abbrev pub trim_or_nil : Option Text → Text
trim_or_nil none = []
trim_or_nil (some s) = trim s

abbrev pub trim_or_zero : Option Text → Text
trim_or_zero none = codes "0"
trim_or_zero (some s) = trim s

abbrev pub minus_one : ℕ
minus_one = 2 ^ 32 - 1

-- What is known before cpusets are looked for.
abbrev pub start_topo : Text → CoreTypes → CpuTopology
start_topo present_str cores = record {
  present_cpus = parse_cpu_ranges present_str none;
  present_str = present_str;
  mems_str = [];
  cpuset_enabled = false;
  base_cpuset_fd = minus_one;
  e_core = cores.e;
  p_core = cores.p;
  hp_core = cores.h;
}

module _ {W B : Type 0} (os : Os W) where
  -- A policy with a frequency of 0 is passed over before its CPUs are read.
  unfoldable pub scan_policy : Text → List Group → State (Machine W B) (List Group)
  unfolding add_group
  scan_policy name groups m =
      let path = join_path cpufreq name in
      let max = call (os.read_file (join_path path (codes "cpuinfo_max_freq"))) m in
      let freq = freq_of max.0 in
      let related = call (os.read_file (join_path path (codes "related_cpus"))) max.1 in
      let cpus = cpus_in related.0 in
      if not (starts_with name (codes "policy"))
      then (groups, m)
      else if freq == 0
      then (groups, max.1)
      else if is_empty cpus
      then (groups, related.1)
      else (add_group freq cpus groups, related.1)

  unfoldable pub scan_policies : List Text → List Group → State (Machine W B) (List Group)
  unfolding scan_policy
  scan_policies [] groups m = (groups, m)
  scan_policies (name ∷ names) groups m =
      let r = scan_policy name groups m in scan_policies names r.0 r.1

  abbrev scan_dir : Option (List Text) → State (Machine W B) (List Group)
  scan_dir none m = ([], m)
  scan_dir (some names) m = scan_policies names [] m

  unfoldable pub detect_core_types : State (Machine W B) CoreTypes
  unfolding core_types scan_policies
  detect_core_types m =
      let dir = call (os.read_dir cpufreq) m in
      let groups = scan_dir dir.0 dir.1 in (core_types groups.0, groups.1)

  -- `open` of the directory that was made.
  unfoldable pub open_base : CpuTopology → State (Machine W B) CpuTopology
  open_base topo m =
      let fd = call (os.open_dir (base_cpuset m)) m in
      (record topo { base_cpuset_fd = fd.0; cpuset_enabled = not (fd.0 == minus_one) }, fd.1)

  unfoldable pub make_base : CpuTopology → State (Machine W B) CpuTopology
  unfolding open_base create_cpuset_dir
  make_base topo m =
      let made = create_cpuset_dir os (base_cpuset m) topo.present_str (codes "0") m in
      let opened = open_base topo made.1 in if made.0 then opened else (topo, made.1)

  unfoldable pub init_cpuset_base : CpuTopology → State (Machine W B) CpuTopology
  unfolding make_base
  init_cpuset_base topo m =
      let found = call (os.access (codes "/dev/cpuset")) m in
      let based = make_base topo found.1 in
      let mems = call (os.read_file (join_path (base_cpuset based.1) (codes "mems"))) based.1 in
      if not (found.0 == 0)
      then (topo, found.1)
      else (record based.0 { mems_str = trim_or_zero mems.0 }, mems.1)

  unfoldable pub init_cpu_topo : State (Machine W B) CpuTopology
  unfolding init_cpuset_base detect_core_types
  init_cpu_topo m =
      let present = call (os.read_file (codes "/sys/devices/system/cpu/present")) m in
      let present_str = trim_or_nil present.0 in
      let cores = detect_core_types present.1 in
      init_cpuset_base (start_topo present_str cores.0) cores.1
