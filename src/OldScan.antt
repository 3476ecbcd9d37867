-- ===== src/OldScan.antt =====
-- src/process.rs, the scanner that `thread_affinity` and `affinity_set` have replaced: `pkg_matches`,
-- `scan_one_pid`, `ensure_cpuset`, `cpuset_add` and `apply`.
pub mod Choice
use aether_opt_ext.Base.{
  ℕ, ◌+◌, ◌-◌, ◌%◌, ◌^◌, Bool, true, false, not, ◌&&◌, ◌||◌, Option, none, some, List, [], ◌∷◌,
  ◌++◌, map, State, ltb, leb, ◌==◌, if◌then◌else◌, any, length, get_or, is_some,
}
use aether_opt_ext.Base.Text.{
  Text, codes, is_empty, starts_with, first_part, trim, trim_end_matches, parse_i32, print_i32,
}
use aether_opt_ext.CpuSet.{CpuSet, new, is_zero}
use aether_opt_ext.CpuRange.{from_range, to_range_string}
use aether_opt_ext.Os.{Os}
use aether_opt_ext.Os.Machine.{Machine, call}
use aether_opt_ext.Topology.{join_path}
use aether_opt_ext.Config.{Rule, fnmatch}
use aether_opt_ext.Bpf.{has_text}
use aether_opt_ext.Process.{key_eq, is_current, esrch, report_failure}
use aether_opt_ext.ProcFs.{proc_path}
use aether_opt_ext.Scanner.{below_user, id_or_zero, text_or_empty, names_or_none}

-- The pattern itself, or the pattern and a colon in front of the rest.
unfoldable pub pkg_matches : Text → Text → Bool
pkg_matches pat name =
    fnmatch pat name
    || ltb (length pat) (length name) && get_or name (length pat) 0 == b':' && starts_with name pat

-- `a > b` on the patterns of two `i32`s.
abbrev pub signed : ℕ → ℕ
signed n = (n + 2 ^ 31) % 2 ^ 32

abbrev pub gt_i32 : ℕ → ℕ → Bool
gt_i32 a b = ltb (signed b) (signed a)

abbrev pub minus_one : ℕ
minus_one = 2 ^ 32 - 1

-- The best rule so far: its CPUs and its priority, -1 at the start.
pub record Best : Type 0 where
  pub best : CpuSet
  pub bp : ℕ

abbrev pub no_best : Best
no_best = record { best = new; bp = minus_one }

abbrev take_better : Rule → ℕ → Best → Best
take_better r prio b =
    if gt_i32 prio b.bp then record { best = from_range r.cpus; bp = prio } else b

unfoldable pub pick_rule : Text → Text → Rule → Best → Best
pick_rule pkg comm r b =
    if not (pkg_matches r.pkg pkg)
    then b
    else if is_empty r.thread
    then take_better r 200 b
    else if fnmatch r.thread comm
    then take_better r r.prio b
    else b

unfoldable pub pick_rules : Text → Text → List Rule → Best → Best
pick_rules pkg comm [] b = b
pick_rules pkg comm (r ∷ rules) b = pick_rules pkg comm rules (pick_rule pkg comm r b)

-- A process with its threads, their names and their CPUs.
pub record Scanned : Type 0 where
  pub pid : ℕ
  pub pkg : Text
  pub th : List (ℕ × (Text × CpuSet))

unfoldable pub passes : List Text → List Text → Text → Bool
passes set wild pkg =
    has_text set pkg
    || has_text set (first_part b':' pkg)
    || any (λ w. fnmatch w pkg) wild
    || any (λ w. pkg_matches w pkg) wild

module _ {W B : Type 0} (os : Os W) where
  unfoldable pub scan_tasks :
      List Rule → Text → Text → List Text → State (Machine W B) (List (ℕ × (Text × CpuSet)))
  scan_tasks rules pkg dir [] m = ([], m)
  scan_tasks rules pkg dir (name ∷ names) m =
      let read = call (os.read_file (join_path (join_path dir name) (codes "comm"))) m in
      let comm = trim (text_or_empty read.0) in
      let rest = scan_tasks rules pkg dir names read.1 in
      (
        (id_or_zero (parse_i32 name), (comm, (pick_rules pkg comm rules no_best).best)) ∷ rest.0,
        rest.1,
      )

  unfoldable pub scan_threads_of : ℕ → List Rule → Text → State (Machine W B) (Option Scanned)
  scan_threads_of pid rules pkg m =
      let dir = proc_path pid (codes "/task") in
      let names = call (os.read_dir dir) m in
      let th = scan_tasks rules pkg dir (names_or_none names.0) names.1 in
      (if is_empty th.0 then none else some (record { pid = pid; pkg = pkg; th = th.0 }), th.1)

  unfoldable pub scan_cmdline :
      ℕ → List Rule → List Text → List Text → Option Text → State (Machine W B) (Option Scanned)
  scan_cmdline pid rules set wild none m = (none, m)
  scan_cmdline pid rules set wild (some cl) m =
      let pkg = trim_end_matches 0 (first_part 0 cl) in
      let scanned = scan_threads_of pid rules pkg m in
      if is_empty pkg || not (passes set wild pkg) then (none, m) else scanned

  unfoldable pub scan_one_pid :
      ℕ → List Rule → List Text → List Text → State (Machine W B) (Option Scanned)
  scan_one_pid pid rules set wild m =
      let cl = call (os.read_file (proc_path pid (codes "/cmdline"))) m in
      let scanned = scan_cmdline pid rules set wild cl.0 cl.1 in
      if below_user pid then (none, m) else scanned

-- `cpus.replace(',', ".")`
abbrev pub dots : Text → Text
dots cpus = map (λ b. if b == b',' then b'.' else b) cpus

abbrev pub dir_of : Text → Text
dir_of cpus = codes "/dev/cpuset/AppOpt/" ++ dots cpus

-- The variables of `apply`.
pub record Applying : Type 0 where
  pub seen_cpus : List Text
  pub n : ℕ
  pub new_set : List (ℕ × Text)

abbrev pub start_applying : Applying
start_applying = record { seen_cpus = []; n = 0; new_set = [] }

abbrev pub has_key : ℕ × Text → List (ℕ × Text) → Bool
has_key key keys = any (key_eq key) keys

abbrev pub with_key : ℕ × Text → Applying → Applying
with_key key acc = record acc { new_set = key ∷ acc.new_set }

abbrev pub counted : Text → Applying → Applying
counted cpus acc = record acc {
  n = acc.n + 1;
  seen_cpus = if has_text acc.seen_cpus cpus then acc.seen_cpus else cpus ∷ acc.seen_cpus;
}

abbrev pub thread_count : List Scanned → ℕ
thread_count [] = 0
thread_count (p ∷ procs) = length p.th + thread_count procs

module _ {W B : Type 0} (os : Os W) (cpuset_ok : Bool) where
  abbrev write_mems_of : Text → Option Text → Machine W B → Machine W B
  write_mems_of dir none m = m
  write_mems_of dir (some mems) m =
      (call (os.write_file (join_path dir (codes "mems")) (trim mems)) m).1

  unfoldable pub ensure_cpuset : Text → Machine W B → Machine W B
  ensure_cpuset cpus m =
      let dir = dir_of cpus in
      let made = call (os.create_dir_all dir) m in
      let written = call (os.write_file (join_path dir (codes "cpus")) cpus) made.1 in
      let mems = call (os.read_file (codes "/dev/cpuset/mems")) written.1 in
      if not cpuset_ok then m else write_mems_of dir mems.0 mems.1

  -- What a failure would log is left out.
  unfoldable pub cpuset_add : ℕ → Text → Machine W B → Machine W B
  cpuset_add tid cpus m =
      let tasks = join_path (dir_of cpus) (codes "tasks") in
      let written = call (os.write_file tasks (print_i32 tid ++ 10 ∷ [])) m in
      if not cpuset_ok then m else written.1

  unfoldable pub bind_new : ℕ → CpuSet → Text → Machine W B → Machine W B
  bind_new tid cpus cpus_str m =
      let bound = call (os.setaffinity tid cpus) (cpuset_add tid cpus_str m) in
      if bound.0 == 0 || bound.0 == esrch then bound.1 else report_failure tid cpus_str bound.1

  unfoldable pub apply_thread :
      List (ℕ × Text) → ℕ → CpuSet → Applying → State (Machine W B) Applying
  apply_thread bound_set tid cpus acc m =
      let cpus_str = to_range_string cpus in
      let key : ℕ × Text = (tid, cpus_str) in
      let current = call (os.getaffinity tid) m in
      let made =
        if has_text acc.seen_cpus cpus_str then current.1 else ensure_cpuset cpus_str current.1 in
      if is_zero cpus
      then (acc, m)
      else if is_current current.0 cpus
      then (with_key key acc, current.1)
      else if has_key key bound_set
      then (acc, current.1)
      else (with_key key (counted cpus_str acc), bind_new tid cpus cpus_str made)

  unfoldable pub apply_threads :
      List (ℕ × Text) → List (ℕ × (Text × CpuSet)) → Applying → State (Machine W B) Applying
  apply_threads bound_set [] acc m = (acc, m)
  apply_threads bound_set ((tid, (comm, cpus)) ∷ th) acc m =
      let one = apply_thread bound_set tid cpus acc m in apply_threads bound_set th one.0 one.1

  unfoldable pub apply_all :
      List (ℕ × Text) → List Scanned → Applying → State (Machine W B) Applying
  apply_all bound_set [] acc m = (acc, m)
  apply_all bound_set (p ∷ procs) acc m =
      let one = apply_threads bound_set p.th acc m in apply_all bound_set procs one.0 one.1

  -- The numbers of processes, of threads and of new bindings, and the bindings from now on.
  unfoldable pub apply :
      List Scanned → List (ℕ × Text) → State (Machine W B) ((ℕ × (ℕ × ℕ)) × List (ℕ × Text))
  apply procs bound_set m =
      let acc = apply_all bound_set procs start_applying m in
      (((length procs, (thread_count procs, acc.0.n)), acc.0.new_set ++ bound_set), acc.1)
