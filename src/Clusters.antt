-- ===== src/Clusters.antt =====
-- src/cpu.rs: the clusters of CPUs of one frequency, and their texts for the configuration.
pub mod Format
use aether_opt_ext.Base.{
  ℕ, zero, suc, ◌+◌, ◌-◌, ◌%◌, ◌^◌, Bool, true, false, not, ◌&&◌, ◌||◌, Option, none, some, List,
  [], ◌∷◌, ◌++◌, map, State, ltb, leb, ◌==◌, if◌then◌else◌, length, take, drop, filter, any,
}
use aether_opt_ext.Base.Text.{
  Text, codes, is_empty, starts_with, trim, find, parse_uint, to_string, usize_max, split_by, join,
}
use aether_opt_ext.Os.{Os}
use aether_opt_ext.Os.Machine.{Machine, call}
use aether_opt_ext.Topology.{join_path}
use aether_opt_ext.Topology.Detect.{Group, add_group, cpufreq, trim_or_nil, number_or_zero}

-- One part of the text: `start` or `start-end`.
abbrev pub run_text : ℕ → ℕ → Text
run_text start end =
    if start == end then to_string start else to_string start ++ b'-' ∷ to_string end

-- The inner loop: the end of the run, and the CPUs behind it. The sum wraps around.
unfoldable pub run_end : ℕ → List ℕ → ℕ × List ℕ
run_end end [] = (end, [])
run_end end (c ∷ cs) =
    let rest = run_end c cs in if c == (end + 1) % 2 ^ 64 then rest else (end, c ∷ cs)

-- The outer loop.
unfoldable pub run_parts : ℕ → List ℕ → List Text
unfolding run_end
run_parts rounds [] = []
run_parts zero (c ∷ cs) = []
run_parts (suc rounds) (c ∷ cs) = let r = run_end c cs in run_text c r.0 ∷ run_parts rounds r.1

unfoldable pub fmt_cpus : List ℕ → Text
unfolding run_parts join
fmt_cpus cpus = if is_empty cpus then codes "0" else join b',' (run_parts (length cpus) cpus)

-- `s..=e`: `rounds` numbers from `s` on.
abbrev pub range_from : ℕ → ℕ → List ℕ
range_from zero s = []
range_from (suc rounds) s = s ∷ range_from rounds (s + 1)

abbrev pub or_else_number : Option ℕ → ℕ → ℕ
or_else_number none d = d
or_else_number (some n) d = n

abbrev pub one_cpu : Option ℕ → List ℕ
one_cpu none = []
one_cpu (some c) = c ∷ []

-- A part with a dash at `pos` is a range, whose first number is 0 if it does not parse.
abbrev pub cpus_at : Text → Option ℕ → List ℕ
cpus_at part none = one_cpu (parse_uint usize_max part)
cpus_at part (some pos) =
    let s = or_else_number (parse_uint usize_max (take pos part)) 0 in
    let e = or_else_number (parse_uint usize_max (drop (pos + 1) part)) s in
    range_from (e + 1 - s) s

abbrev pub part_cpus : Text → List ℕ
part_cpus part = if is_empty part then [] else cpus_at part (find b'-' part)

abbrev pub all_part_cpus : List Text → List ℕ
all_part_cpus [] = []
all_part_cpus (part ∷ parts) = part_cpus (trim part) ++ all_part_cpus parts

abbrev pub related_cpus : Text → List ℕ
related_cpus rel = all_part_cpus (split_by (λ c. c == b',' || c == b' ') rel)

-- A policy whose frequency was read; one without CPUs is no cluster.
abbrev pub push_cluster : Option ℕ → List ℕ → List Group → List Group
push_cluster none cpus rest = rest
push_cluster (some freq) cpus rest = if is_empty cpus then rest else (freq, cpus) ∷ rest

abbrev pub parse_freq : Text → Option ℕ
parse_freq s = parse_uint usize_max (trim s)

-- `sort_by(|a, b| b.0.cmp(&a.0))`: stable, from the highest frequency down.
unfoldable pub insert_cluster : Group → List Group → List Group
insert_cluster g [] = g ∷ []
insert_cluster g (h ∷ hs) =
    let rest = insert_cluster g hs in if leb h.0 g.0 then g ∷ h ∷ hs else h ∷ rest

unfoldable pub sort_clusters : List Group → List Group
unfolding insert_cluster
sort_clusters [] = []
sort_clusters (g ∷ gs) = insert_cluster g (sort_clusters gs)

abbrev pub count_cpus : List Group → ℕ
count_cpus [] = 0
count_cpus (g ∷ gs) = length g.1 + count_cpus gs

abbrev pub last_number : List Text → Option ℕ → Option ℕ
last_number [] n = n
last_number (s ∷ ss) n =
    last_number ss (elim (parse_uint usize_max s) [ none ↦ n | some k ↦ some k ])

-- One more than the last number of the text of the present CPUs; the sum wraps around.
abbrev pub total_of : Text → ℕ
total_of present =
    (number_or_zero (last_number (split_by (λ c. c == b',' || c == b'-') present) none) + 1)
    % 2 ^ 64

abbrev pub is_known : List Group → ℕ → Bool
is_known cls c = any (λ (g : Group). any (λ k. k == c) g.1) cls

abbrev pub split_known : List Group → List ℕ → List Group
split_known [] extra = []
split_known (g ∷ gs) extra = gs ++ (1, extra) ∷ (0, g.1) ∷ []

-- CPUs that are present but have no frequency are taken for the fast ones.
unfoldable pub add_offline : Text → List Group → List Group
add_offline present cls =
    let known = count_cpus cls in
    let total = total_of present in
    let extra = filter (λ c. not (is_known cls c)) (range_from total 0) in
    if ltb known total && ltb 0 known && not (is_empty extra) then split_known cls extra else cls

-- The texts of the fast, the middle and the slow CPUs, and the sizes of the clusters.
pub record Clusters : Type 0 where
  pub big : Text
  pub mid : Text
  pub little : Text
  pub topo : Text

abbrev pub last_cpus : List Group → List ℕ
last_cpus [] = []
last_cpus (g ∷ []) = g.1
last_cpus (g ∷ h ∷ hs) = last_cpus (h ∷ hs)

-- The second of three clusters or more.
abbrev pub mid_cpus : List Group → Text
mid_cpus (g ∷ h ∷ k ∷ ks) = fmt_cpus h.1
mid_cpus _ = []

unfoldable pub report : List Group → Clusters
unfolding fmt_cpus join
report [] = record { big = codes "0"; mid = []; little = codes "0"; topo = codes "1" }
report (g ∷ gs) = record {
  big = fmt_cpus g.1;
  mid = mid_cpus (g ∷ gs);
  little = fmt_cpus (last_cpus (g ∷ gs));
  topo = join b'+' (map (λ (c : Group). to_string (length c.1)) (g ∷ gs));
}

-- The CPUs that the second method asks for.
abbrev pub max_cpus : ℕ
max_cpus = 128

abbrev pub cpu_freq_path : ℕ → Text
cpu_freq_path cpu =
    codes "/sys/devices/system/cpu/cpu" ++ to_string cpu ++ codes "/cpufreq/cpuinfo_max_freq"

abbrev add_cpu : ℕ → Option ℕ → List Group → List Group
add_cpu cpu none cls = cls
add_cpu cpu (some freq) cls = add_group freq (cpu ∷ []) cls

module _ {W B : Type 0} (os : Os W) where
  unfoldable pub present : State (Machine W B) Text
  present m =
      let r = call (os.read_file (codes "/sys/devices/system/cpu/present")) m in
      (trim_or_nil r.0, r.1)

  -- The frequency of a policy whose CPUs were read; `none` in their place if they were not.
  abbrev freq_and_cpus : Text → Option Text → Machine W B → (Option ℕ × List ℕ) × Machine W B
  freq_and_cpus path none m = ((none, []), m)
  freq_and_cpus path (some rel) m =
      let f = call (os.read_file (join_path path (codes "cpuinfo_max_freq"))) m in
      ((elim f.0 [ none ↦ none | some s ↦ parse_freq s ], related_cpus (trim rel)), f.1)

  unfoldable pub policy_clusters : List Text → State (Machine W B) (List Group)
  policy_clusters [] m = ([], m)
  policy_clusters (name ∷ names) m =
      let path = join_path cpufreq name in
      let rel = call (os.read_file (join_path path (codes "related_cpus"))) m in
      let p = freq_and_cpus path rel.0 rel.1 in
      let skipped = policy_clusters names m in
      let rest = policy_clusters names p.1 in
      if not (starts_with name (codes "policy"))
      then skipped
      else (push_cluster p.0.0 p.0.1 rest.0, rest.1)

  abbrev clusters_in : Option (List Text) → State (Machine W B) (List Group)
  clusters_in none m = ([], m)
  clusters_in (some names) m = policy_clusters names m

  -- The second method: `rounds` CPUs from `cpu` on. It ends at the first that has no file.
  unfoldable pub cpu_clusters : ℕ → ℕ → List Group → State (Machine W B) (List Group)
  unfolding add_group
  cpu_clusters zero cpu cls m = (cls, m)
  cpu_clusters (suc rounds) cpu cls m =
      let f = call (os.read_file (cpu_freq_path cpu)) m in
      elim f.0 [
        | none ↦ (cls, f.1)
        | some s ↦ cpu_clusters rounds (cpu + 1) (add_cpu cpu (parse_freq s) cls) f.1
      ]

  -- The second method, if the first found fewer than two clusters.
  unfoldable pub find_clusters : State (Machine W B) (List Group)
  unfolding policy_clusters cpu_clusters
  find_clusters m =
      let dir = call (os.read_dir cpufreq) m in
      let cls = clusters_in dir.0 dir.1 in
      let one_by_one = cpu_clusters max_cpus 0 [] cls.1 in
      if ltb (length cls.0) 2 then one_by_one else cls

  unfoldable pub detect : State (Machine W B) Clusters
  unfolding report find_clusters sort_clusters add_offline present
  detect m =
      let cls = find_clusters m in
      let sorted = sort_clusters cls.0 in
      let p = present cls.1 in
      if ltb (length sorted) 2
      then (report (add_offline p.0 sorted), p.1)
      else (report sorted, cls.1)
