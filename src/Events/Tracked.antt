-- ===== src/Events/Tracked.antt =====
-- src/main.rs and src/bpf.rs: the threads in the cache against the keys of `APPLIED_MAP`.
use mathlib.Core.Option
use aether_opt_ext.Base.{
  ◌||◌, is_some, ℕ, ◌≡◌, Bool, true, false, Option, none, some, arith, ◌==◌, if◌then◌else◌,
}
use aether_opt_ext.Base.Map.{Map, lookup}
use aether_opt_ext.Os.{Aya}
use aether_opt_ext.Bpf.{applied_set_in, applied_del_in}
use aether_opt_ext.ProcCache.{TaskEntry}

-- What the program relies on of the hash map `APPLIED_MAP` while it is not full: a key that is
-- written is there, a key that is removed is not, and other keys stay.
pub record AppliedLaws {B : Type 0} (aya : Aya B) : Type 0 where
  pub get_insert :
      (k j v : ℕ) (b : B)
      → aya.applied_get j (aya.applied_insert k v b)
        ≡ (if k == j then some v else aya.applied_get j b)
  pub get_remove :
      (k j : ℕ) (b : B)
      → aya.applied_get j (aya.applied_remove k b) ≡ (if k == j then none else aya.applied_get j b)
  pub has_insert :
      (k v : ℕ) (b : B) → aya.has_applied (aya.applied_insert k v b) ≡ aya.has_applied b
  pub has_remove : (k : ℕ) (b : B) → aya.has_applied (aya.applied_remove k b) ≡ aya.has_applied b

module _ {B : Type 0} (aya : Aya B) where
  -- The map can be reached, and every thread in the cache is a key of it, save those whose end is
  -- still to be told to the cache.
  pub record TracksIn (pending : ℕ → Bool) (tasks : Map TaskEntry) (b : B) : Type 0 where
    pub reachable : aya.has_applied b ≡ true
    pub tracked :
        (tid : ℕ)
        → is_some (lookup tid tasks) ≡ true
        → (pending tid || is_some (aya.applied_get tid b)) ≡ true

  -- The same of a `BpfCtx`, which holds an object.
  abbrev pub Tracks : (ℕ → Bool) → Map TaskEntry → Option B → Type 0
  Tracks pending tasks none = ⊥
  Tracks pending tasks (some b) = TracksIn pending tasks b

  -- The cache lost entries, or more ends are pending.
  pub Tracks-fewer :
      (pending after : ℕ → Bool) (tasks fewer : Map TaskEntry) (o : Option B)
      → ((j : ℕ) → pending j ≡ true → after j ≡ true)
      → ((j : ℕ) → is_some (lookup j fewer) ≡ true → is_some (lookup j tasks) ≡ true)
      → Tracks pending tasks o
      → Tracks after fewer o
  Tracks-fewer pending after tasks fewer none more sub t = t
  Tracks-fewer pending after tasks fewer (some b) more sub t = record {
    reachable = t.reachable;
    tracked = λ j known. ground (arith, t.tracked j (sub j known), more j);
  }

  module _ (laws : AppliedLaws aya) where
    pub Tracks-set :
        (pending : ℕ → Bool) (tasks more : Map TaskEntry) (tid bits : ℕ) (o : Option B)
        → ((j : ℕ) → (tid == j) ≡ false → lookup j more ≡ lookup j tasks)
        → Tracks pending tasks o
        → Tracks pending more (Option.map (applied_set_in aya tid bits) o)
    Tracks-set pending tasks more tid bits none other t = t
    Tracks-set pending tasks more tid bits (some b) other t = record {
      reachable = unfold applied_set_in in ground (arith, t.reachable, laws.has_insert tid bits b);
      tracked = λ j known.
          unfold applied_set_in in
          ground (arith, t.reachable, laws.get_insert tid j bits b, other j, t.tracked j, known);
    }

    -- The end of the thread need not be pending any more.
    pub Tracks-del :
        (pending after : ℕ → Bool) (tasks fewer : Map TaskEntry) (tid : ℕ) (o : Option B)
        → ((j : ℕ) → (tid == j) ≡ false → pending j ≡ true → after j ≡ true)
        → ((j : ℕ) → lookup j fewer ≡ (if tid == j then none else lookup j tasks))
        → Tracks pending tasks o
        → Tracks after fewer (Option.map (applied_del_in aya tid) o)
    Tracks-del pending after tasks fewer tid none keeps lost t = t
    Tracks-del pending after tasks fewer tid (some b) keeps lost t = record {
      reachable = unfold applied_del_in in ground (arith, t.reachable, laws.has_remove tid b);
      tracked = λ j known.
          unfold applied_del_in in
          ground (arith, t.reachable, laws.get_remove tid j b, lost j, keeps j, t.tracked j, known);
    }
