-- ===== src/Scanner/Unknown.antt =====
-- What `scan_unknown` of src/process.rs returns.
use aether_opt_ext.Base.{
  ◌++◌, ◌≤◌, ◌-◌, ◌^◌, ap, arith, Option-cases, refl, ℕ, ◌≡◌, true, false, Option, none, some, List,
  [], ◌∷◌, All, Bool-cases, inl, inr,
}
use aether_opt_ext.Base.Text.{
  Text, is_empty, codes, parse_i32, parse_uint, second_word, split, starts_with,
}
use aether_opt_ext.Os.{Os}
use aether_opt_ext.Os.Machine.{Machine, call}
use aether_opt_ext.Topology.{join_path}
use aether_opt_ext.Scanner.{
  Found, below_user, is_unknown, is_user, is_user_in, pkg_of, names_or_none, push_found,
  read_threads, scan_threads, scan_pkg, scan_pid, scan_each, scan_unknown,
}

-- The lines of a status file whose first line that begins with `Uid:` has an id of an app.
pub record IsAppStatus (lines : List Text) : Type 0 where
  pub before : List Text
  pub line : Text
  pub after : List Text
  pub uid : ℕ
  pub parts : lines ≡ before ++ line ∷ after
  pub is_first : All (λ l. starts_with l (codes "Uid:") ≡ false) before
  pub is_uid : starts_with line (codes "Uid:") ≡ true
  pub word : parse_uint (2 ^ 32 - 1) (second_word line) ≡ some uid
  pub uid_ge : 10000 ≤ uid

is_user_in-IsAppStatus : (lines : List Text) → is_user_in lines ≡ true → IsAppStatus lines
unfolding is_user_in
is_user_in-IsAppStatus [] h = absurd (ground arith)
is_user_in-IsAppStatus (l ∷ ls) h = elim (Bool-cases (starts_with l (codes "Uid:"))) [
  | inl here ↦ elim (Option-cases (parse_uint (2 ^ 32 - 1) (second_word l))) [
    | inl no_number ↦ absurd (ground arith)
    | inr (uid, found) ↦ record {
      before = [];
      line = l;
      after = ls;
      uid = uid;
      parts = refl;
      is_first = tt;
      is_uid = here;
      word = found;
      uid_ge = ground arith;
    }
  ]
  | inr later ↦
      let rest = is_user_in-IsAppStatus ls (rw later at h) in
      record {
        before = l ∷ rest.before;
        line = rest.line;
        after = rest.after;
        uid = rest.uid;
        parts = ap (λ xs. l ∷ xs) rest.parts;
        is_first = (later, rest.is_first);
        is_uid = rest.is_uid;
        word = rest.word;
        uid_ge = rest.uid_ge;
      }
]

-- A status file that could be read and is that of an app.
abbrev pub HasAppStatus : Option Text → Type 0
HasAppStatus none = ⊥
HasAppStatus (some st) = IsAppStatus (split 10 st)

is_user-HasAppStatus : (o : Option Text) → is_user o ≡ true → HasAppStatus o
is_user-HasAppStatus none h = absurd (ground arith)
is_user-HasAppStatus (some st) h = is_user_in-IsAppStatus (split 10 st) h

-- A process that is reported as unknown: `name` is its directory in /proc, and `asked` and `looked`
-- are the worlds in which its command line and its status file were read.
pub record IsUnknown {W : Type 0} (os : Os W) (set wild : List Text) (found : Found) : Type 0 where
  pub name : Text
  pub asked : W
  pub looked : W
  pub pid : parse_i32 name ≡ some found.pid
  pub pid_ge : below_user found.pid ≡ false
  pub pkg :
      pkg_of (os.read_file (join_path (join_path (codes "/proc") name) (codes "cmdline")) asked).0
      ≡ some found.pkg
  pub app :
      HasAppStatus
        (os.read_file (join_path (join_path (codes "/proc") name) (codes "status")) looked).0
  pub unknown : is_unknown set wild found.pkg ≡ true
  pub threads : is_empty found.th ≡ false

abbrev FoundUnknown : {W : Type 0} → Os W → List Text → List Text → Option Found → Type 0
FoundUnknown os set wild none = Unit
FoundUnknown os set wild (some found) = IsUnknown os set wild found

push_found-IsUnknown :
    {W : Type 0} (os : Os W) (set wild : List Text) (o : Option Found) (rest : List Found)
    → FoundUnknown os set wild o
    → All (IsUnknown os set wild) rest
    → All (IsUnknown os set wild) (push_found o rest)
push_found-IsUnknown os set wild none rest h hs = hs
push_found-IsUnknown os set wild (some found) rest h hs = (h, hs)

abbrev dir_at : Text → Text
dir_at name = join_path (codes "/proc") name

module _ {W B : Type 0} (os : Os W) (set wild : List Text) where
  scan_threads-FoundUnknown :
      (name pkg : Text) (pid : ℕ) (asked looked : W) (m : Machine W B)
      → parse_i32 name ≡ some pid
      → below_user pid ≡ false
      → pkg_of ((os.read_file (join_path (dir_at name) (codes "cmdline")) asked).0) ≡ some pkg
      → HasAppStatus ((os.read_file (join_path (dir_at name) (codes "status")) looked).0)
      → is_unknown set wild pkg ≡ true
      → FoundUnknown os set wild (scan_threads os pid (dir_at name) pkg m).0
  unfolding scan_threads
  scan_threads-FoundUnknown name pkg pid asked looked m is_pid high is_pkg app unknown =
      let task = join_path (dir_at name) (codes "task") in
      let names = call (os.read_dir task) m in
      let th = read_threads os task (names_or_none names.0) names.1 in
      elim (Bool-cases (is_empty th.0)) [
        | inl empty ↦ rw empty tt
        | inr some_thread ↦ rw some_thread (record {
          name = name;
          asked = asked;
          looked = looked;
          pid = is_pid;
          pid_ge = high;
          pkg = is_pkg;
          app = app;
          unknown = unknown;
          threads = some_thread;
        })
      ]

  scan_pkg-FoundUnknown :
      (name : Text) (pid : ℕ) (asked : W) (o : Option Text) (m : Machine W B)
      → parse_i32 name ≡ some pid
      → below_user pid ≡ false
      → pkg_of ((os.read_file (join_path (dir_at name) (codes "cmdline")) asked).0) ≡ o
      → FoundUnknown os set wild (scan_pkg os set wild pid (dir_at name) o m).0
  unfolding scan_pkg
  scan_pkg-FoundUnknown name pid asked none m is_pid high is_pkg = tt
  scan_pkg-FoundUnknown name pid asked (some pkg) m is_pid high is_pkg =
      let status = call (os.read_file (join_path (dir_at name) (codes "status"))) m in
      elim (Bool-cases (is_unknown set wild pkg)) [
        | inr known ↦ rw known tt
        | inl unknown ↦ elim (Bool-cases (is_user status.0)) [
          | inl app ↦
              rw (unknown, app)
                (scan_threads-FoundUnknown name pkg pid asked m.world status.1 is_pid high is_pkg
                  (is_user-HasAppStatus status.0 app) unknown)
          | inr system ↦ rw (unknown, system) tt
        ]
      ]

  scan_pid-FoundUnknown :
      (name : Text) (o : Option ℕ) (m : Machine W B)
      → parse_i32 name ≡ o
      → FoundUnknown os set wild (scan_pid os set wild (dir_at name) o m).0
  unfolding scan_pid
  scan_pid-FoundUnknown name none m is_pid = tt
  scan_pid-FoundUnknown name (some pid) m is_pid = elim (Bool-cases (below_user pid)) [
    | inl low ↦ rw low tt
    | inr high ↦ rw high (scan_pkg-FoundUnknown name pid m.world _ _ is_pid high refl)
  ]

  scan_each-IsUnknown :
      (names : List Text) (m : Machine W B)
      → All (IsUnknown os set wild) (scan_each os set wild names m).0
  unfolding scan_each
  scan_each-IsUnknown [] m = tt
  scan_each-IsUnknown (name ∷ names) m =
      push_found-IsUnknown os set wild _ _ (scan_pid-FoundUnknown name (parse_i32 name) m refl)
        (scan_each-IsUnknown names _)

  -- Every process that `scan_unknown` returns has the id that its directory in /proc is named after,
  -- at least 1000, and at least one thread. Its status file was read, and the first line there that
  -- begins with `Uid:` has a second word of at least 10000, so it is an app's process. Its package
  -- is that of its command line, has a dot and no slash in its name, and is not configured, neither
  -- as it is written nor by a pattern.
  pub scan_unknown-IsUnknown :
      (m : Machine W B) → All (IsUnknown os set wild) (scan_unknown os set wild m).0
  unfolding scan_unknown
  scan_unknown-IsUnknown m = scan_each-IsUnknown _ _
