-- ===== src/ProcFs.antt =====
-- src/process.rs, `read_cmdline`, `task_tids` and `tid_comm`, and the test of src/main.rs whether a
-- package is of interest.
use aether_opt_ext.Base.{
  ℕ, Bool, ◌||◌, Option, none, some, List, [], ◌∷◌, ◌++◌, State, ◌>>=◌, pure, if◌then◌else◌, any,
}
use aether_opt_ext.Base.Text.{
  Text, codes, is_empty, first_part, trim_end_matches, trim, print_i32, parse_i32,
}
use aether_opt_ext.Os.{Os}
use aether_opt_ext.Os.Machine.{Machine, call}
use aether_opt_ext.Config.{AppConfig, fnmatch}
use aether_opt_ext.Bpf.{has_text}

abbrev pub non_empty : Text → Option Text
non_empty s = if is_empty s then none else some s

abbrev pub proc_path : ℕ → Text → Text
proc_path pid rest = codes "/proc/" ++ print_i32 pid ++ rest

-- The names that parse as an `i32`.
abbrev pub parse_ids : List Text → List ℕ
parse_ids [] = []
parse_ids (name ∷ names) = elim (parse_i32 name) [
  | none ↦ parse_ids names
  | some id ↦ id ∷ parse_ids names
]

unfoldable pub cmdline_pkg : Text → Option Text
cmdline_pkg cl = non_empty (trim_end_matches 0 (first_part 0 cl))

module _ {W B : Type 0} (os : Os W) where
  unfoldable pub read_cmdline : ℕ → State (Machine W B) (Option Text)
  read_cmdline pid = do
    cl ← call (os.read_file (proc_path pid (codes "/cmdline")))
    pure (elim cl [ none ↦ none | some text ↦ cmdline_pkg text ])

  unfoldable pub tid_comm : ℕ → State (Machine W B) (Option Text)
  tid_comm tid = do
    comm ← call (os.read_file (proc_path tid (codes "/comm")))
    pure (elim comm [ none ↦ none | some text ↦ non_empty (trim text) ])

  unfoldable pub task_tids : ℕ → State (Machine W B) (Option (List ℕ))
  task_tids pid = do
    names ← call (os.read_dir (proc_path pid (codes "/task")))
    pure (elim names [ none ↦ none | some ns ↦ some (parse_ids ns) ])

  -- `or_else(|| tid_comm(pid))`
  unfoldable pub or_comm : ℕ → Option Text → State (Machine W B) (Option Text)
  or_comm pid (some pkg) m = (some pkg, m)
  or_comm pid none m = tid_comm pid m

  -- `read_cmdline(pid).or_else(|| tid_comm(pid))`
  unfoldable pub process_pkg : ℕ → State (Machine W B) (Option Text)
  process_pkg pid m = let cl = read_cmdline pid m in or_comm pid cl.0 cl.1

-- The package, its name before a colon, or a pattern of the configuration.
unfoldable pub interested : AppConfig → Text → Bool
interested cfg pkg =
    has_text cfg.pkg_set pkg
    || has_text cfg.pkg_set (first_part b':' pkg)
    || any (λ w. fnmatch w pkg) cfg.wild
