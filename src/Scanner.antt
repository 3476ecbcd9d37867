-- ===== src/Scanner.antt =====
-- src/process.rs, `scan_unknown`: the user's apps that the configuration does not name.
pub mod Unknown
use aether_opt_ext.Base.{
  ℕ, ◌^◌, ◌-◌, Bool, true, false, not, ◌&&◌, ◌||◌, Option, none, some, List, [], ◌∷◌, ◌++◌, State,
  ltb, leb, any, if◌then◌else◌,
}
use aether_opt_ext.Base.Text.{
  Text, codes, is_empty, split, starts_with, contains_char, trim, second_word, parse_i32,
  parse_uint,
}
use aether_opt_ext.Os.{Os}
use aether_opt_ext.Os.Machine.{Machine, call}
use aether_opt_ext.Topology.{join_path}
use aether_opt_ext.Config.{fnmatch}
use aether_opt_ext.Bpf.{has_text}
use aether_opt_ext.ProcFs.{cmdline_pkg}

abbrev pub min_user_pid : ℕ
min_user_pid = 1000

-- `pid < MIN_USER_PID` on the pattern of an `i32`: the negative ones are below.
abbrev pub below_user : ℕ → Bool
below_user pid = ltb pid min_user_pid || leb (2 ^ 31) pid

-- A process: its id, its package, and its threads with their names.
pub record Found : Type 0 where
  pub pid : ℕ
  pub pkg : Text
  pub th : List (ℕ × Text)

abbrev pub id_or_zero : Option ℕ → ℕ
id_or_zero none = 0
id_or_zero (some id) = id

abbrev pub text_or_empty : Option Text → Text
text_or_empty none = []
text_or_empty (some s) = s

-- A name with a dot and no slash, which is neither configured nor stands for a pattern that is.
unfoldable pub is_unknown : List Text → List Text → Text → Bool
is_unknown set wild pkg =
    not (is_empty pkg || contains_char b'/' pkg || not (contains_char b'.' pkg))
    && not (has_text set pkg || any (λ w. fnmatch w pkg) wild)

-- The user id of an app; `none` if the second word is no `u32`.
abbrev pub is_app_uid : Option ℕ → Bool
is_app_uid none = false
is_app_uid (some uid) = leb 10000 uid

-- The first line that begins with `Uid:` decides. (A carriage return at its end is white space.)
unfoldable pub is_user_in : List Text → Bool
is_user_in [] = false
is_user_in (line ∷ lines) =
    let rest = is_user_in lines in
    if starts_with line (codes "Uid:")
    then is_app_uid (parse_uint (2 ^ 32 - 1) (second_word line))
    else rest

abbrev pub is_user : Option Text → Bool
is_user none = false
is_user (some st) = is_user_in (split 10 st)

abbrev pub names_or_none : Option (List Text) → List Text
names_or_none none = []
names_or_none (some names) = names

abbrev pub push_found : Option Found → List Found → List Found
push_found none rest = rest
push_found (some found) rest = found ∷ rest

-- The package of a command line, `none` if there is none or it cannot be read.
abbrev pub pkg_of : Option Text → Option Text
pkg_of none = none
pkg_of (some cl) = cmdline_pkg cl

module _ {W B : Type 0} (os : Os W) where
  unfoldable pub read_threads : Text → List Text → State (Machine W B) (List (ℕ × Text))
  read_threads dir [] m = ([], m)
  read_threads dir (name ∷ names) m =
      let comm = call (os.read_file (join_path (join_path dir name) (codes "comm"))) m in
      let rest = read_threads dir names comm.1 in
      ((id_or_zero (parse_i32 name), trim (text_or_empty comm.0)) ∷ rest.0, rest.1)

  -- The threads of an app; a process with none is passed over.
  unfoldable pub scan_threads : ℕ → Text → Text → State (Machine W B) (Option Found)
  scan_threads pid path pkg m =
      let task = join_path path (codes "task") in
      let names = call (os.read_dir task) m in
      let th = read_threads task (names_or_none names.0) names.1 in
      (if is_empty th.0 then none else some (record { pid = pid; pkg = pkg; th = th.0 }), th.1)

  unfoldable pub scan_pkg :
      List Text → List Text → ℕ → Text → Option Text → State (Machine W B) (Option Found)
  scan_pkg set wild pid path none m = (none, m)
  scan_pkg set wild pid path (some pkg) m =
      let status = call (os.read_file (join_path path (codes "status"))) m in
      let found = scan_threads pid path pkg status.1 in
      if not (is_unknown set wild pkg)
      then (none, m)
      else if is_user status.0
      then found
      else (none, status.1)

  unfoldable pub scan_pid :
      List Text → List Text → Text → Option ℕ → State (Machine W B) (Option Found)
  scan_pid set wild path none m = (none, m)
  scan_pid set wild path (some pid) m =
      let cl = call (os.read_file (join_path path (codes "cmdline"))) m in
      let found = scan_pkg set wild pid path (pkg_of cl.0) cl.1 in
      if below_user pid then (none, m) else found

  unfoldable pub scan_each : List Text → List Text → List Text → State (Machine W B) (List Found)
  scan_each set wild [] m = ([], m)
  scan_each set wild (name ∷ names) m =
      let found = scan_pid set wild (join_path (codes "/proc") name) (parse_i32 name) m in
      let rest = scan_each set wild names found.1 in (push_found found.0 rest.0, rest.1)

  unfoldable pub scan_unknown : List Text → List Text → State (Machine W B) (List Found)
  scan_unknown set wild m =
      let dir = call (os.read_dir (codes "/proc")) m in
      scan_each set wild (names_or_none dir.0) dir.1
