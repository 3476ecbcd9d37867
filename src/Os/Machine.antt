-- ===== src/Os/Machine.antt =====
-- The state that the functions of the program share: the world, the statics of src/common.rs and
-- src/process.rs, and the BPF object that `BpfCtx` owns.
use aether_opt_ext.Base.{ℕ, Option, none, some, List, State, if◌then◌else◌, ◌||◌, ◌++◌}
use aether_opt_ext.Base.Text.{Text, codes, is_empty, contains_char}

pub record Machine (W B : Type 0) : Type 0 where
  pub world : W
  -- `BASE_CPUSET_PATH`
  pub base_cpuset_path : Option Text
  -- `FAILED_ONCE`
  pub failed_once : List (ℕ × Text)
  -- the failures to bind that the log tells, the newest first
  pub logged : List (ℕ × Text)
  -- `bpf_state.bpf`
  pub bpf : Option B

module _ {W B : Type 0} where
  -- A call of the system.
  abbrev pub call : {A : Type 0} → State W A → State (Machine W B) A
  call op m = let r = op m.world in (r.0, record m { world = r.1 })

  -- src/common.rs, `set_base_cpuset`: only the first call has an effect.
  unfoldable pub set_base_cpuset : Text → Machine W B → Machine W B
  set_base_cpuset name m =
      if is_empty name || contains_char b'/' name then m else elim m.base_cpuset_path [
        | none ↦ record m { base_cpuset_path = some (codes "/dev/cpuset/" ++ name) }
        | some path ↦ m
      ]

  unfoldable pub base_cpuset : Machine W B → Text
  base_cpuset m = elim m.base_cpuset_path [ none ↦ codes "/dev/cpuset/AppOpt" | some path ↦ path ]
