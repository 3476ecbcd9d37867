-- ===== src/Os.antt =====
-- What the program asks of Linux and of aya: parameters of the model. Every call may change the
-- world, so a world may also let other processes act between two calls.
pub mod Machine
use aether_opt_ext.Base.{ℕ, Bool, Option, List, State}
use aether_opt_ext.Base.Text.{Text}
use aether_opt_ext.CpuSet.{CpuSet}

-- System calls and the file functions of the standard library. An error number is 0 on success.
-- Thread ids are the two's complement patterns of their `i32`.
pub record Os (W : Type 0) : Type 0 where
  -- `fs::read_to_string(path).ok()`
  pub read_file : Text → State W (Option Text)
  -- `fs::write(path, text).is_ok()`
  pub write_file : Text → Text → State W Bool
  -- `OpenOptions::new().append(true).open(path)`, then `write_all`; the result is dropped
  pub append_file : Text → Text → State W (Unit {0})
  -- `fs::create_dir_all(path).is_ok()`
  pub create_dir_all : Text → State W Bool
  -- the names in a directory, `fs::read_dir(path).ok()` with `flatten`
  pub read_dir : Text → State W (Option (List Text))
  -- `fs::metadata(path).ok()?.modified().ok()`, as a number that grows with time
  pub modified : Text → State W (Option ℕ)
  pub mkdir : Text → State W ℕ
  pub chmod : Text → State W ℕ
  pub chown : Text → State W ℕ
  -- `Path::new(path).exists()`
  pub exists : Text → State W Bool
  pub access : Text → State W ℕ
  -- `open(path, O_RDONLY | O_DIRECTORY)`, as an `i32` pattern
  pub open_dir : Text → State W ℕ
  -- `sched_getaffinity`, `none` if it returns -1
  pub getaffinity : ℕ → State W (Option CpuSet)
  -- `sched_setaffinity`
  pub setaffinity : ℕ → CpuSet → State W ℕ
  -- `sysinfo`: `info.procs`, a 16-bit number, or `none` if the call fails
  pub process_count : State W (Option ℕ)
  -- `kill(pid, 0)`: true if it returns 0
  pub is_alive : ℕ → State W Bool

-- The maps of a loaded BPF object, as aya shows them. `has_…` is whether `map_mut` and `try_from`
-- succeed; what a failing operation returns is not used by the program.
pub record Aya (B : Type 0) : Type 0 where
  pub has_applied : B → Bool
  pub applied_get : ℕ → B → Option ℕ
  pub applied_insert : ℕ → ℕ → B → B
  pub applied_remove : ℕ → B → B
  -- the keys in the order in which the iterator gives them
  pub applied_keys : B → List ℕ
  pub has_target : B → Bool
  pub target_get : List ℕ → B → Option ℕ
  pub target_insert : List ℕ → ℕ → B → B
  pub target_remove : List ℕ → B → B
  pub target_keys : B → List (List ℕ)
