-- ===== src/Bpf.antt =====
-- src/bpf.rs: the keys of the whitelist, the search for a package by a thread's name, and the
-- updates of the BPF maps.
pub mod Keys
pub mod Search
pub mod Targets
use mathlib.Core.Option
use aether_opt_ext.Base.{
  State, ℕ, zero, suc, ◌-◌, ◌*◌, ◌≡◌, Bool, true, false, not, ◌&&◌, ◌||◌, Option, none, some, List,
  [], ◌∷◌, ◌++◌, ltb, leb, ◌==◌, if◌then◌else◌, length, take, drop, replicate, any, min,
}
use aether_opt_ext.Base.Text.{Text, is_empty, text_eq, starts_with, ends_with}
use aether_opt_ext.Os.{Aya}
use aether_opt_ext.Os.Machine.{Machine}
use aether_opt_ext.Config.{AppConfig}

-- `set.contains(s)`
unfoldable pub has_text : List Text → Text → Bool
has_text set s = any (λ t. text_eq t s) set

-- `for pkg in set { if p(pkg) { return Some(pkg); } }`
unfoldable pub first_text : (Text → Bool) → List Text → Option Text
first_text p [] = none
first_text p (t ∷ set) = if p t then some t else first_text p set

-- The first loop, and the second if the first did not return.
abbrev pub or_else {ℓ} : {A : Type ℓ} → Option A → Option A → Option A
or_else (some a) o = some a
or_else none o = o

unfoldable pub comm_to_pkg : Text → AppConfig → Option Text
comm_to_pkg comm cfg =
    if has_text cfg.pkg_set comm
    then some comm
    else if leb 15 (length comm)
    then or_else (first_text (λ pkg. starts_with pkg comm) cfg.pkg_set)
        (first_text (λ pkg. ends_with pkg comm) cfg.pkg_set)
    else none

-- The first 8 bytes, with zeros behind a shorter name.
unfoldable pub prefix_key : Text → List ℕ
prefix_key bytes = take 8 bytes ++ replicate (8 - min (length bytes) 8) 0

unfoldable pub suffix_key : Text → List ℕ
suffix_key bytes = drop (length bytes - 8) bytes

-- What one package adds.
unfoldable pub pkg_keys : Text → List (List ℕ)
pkg_keys bytes =
    if is_empty bytes
    then []
    else prefix_key bytes ∷ (if ltb 8 (length bytes) then suffix_key bytes ∷ [] else [])

unfoldable pub all_keys : List Text → List (List ℕ)
all_keys [] = []
all_keys (pkg ∷ pkgs) = pkg_keys pkg ++ all_keys pkgs

-- The order of byte arrays: `a <= b`.
unfoldable pub key_le : List ℕ → List ℕ → Bool
key_le [] b = true
key_le (x ∷ a) [] = false
key_le (x ∷ a) (y ∷ b) = ltb x y || x == y && key_le a b

-- `entries.sort()`, as insertion.
unfoldable pub insert_key : List ℕ → List (List ℕ) → List (List ℕ)
insert_key k [] = k ∷ []
insert_key k (j ∷ ks) = let rest = insert_key k ks in if key_le k j then k ∷ j ∷ ks else j ∷ rest

unfoldable pub sort_keys : List (List ℕ) → List (List ℕ)
sort_keys [] = []
sort_keys (k ∷ ks) = insert_key k (sort_keys ks)

-- `entries.dedup()`: of equal neighbours the first stays.
unfoldable pub dedup_after : List ℕ → List (List ℕ) → List (List ℕ)
dedup_after k [] = []
dedup_after k (j ∷ ks) = if text_eq k j then dedup_after k ks else j ∷ dedup_after j ks

unfoldable pub dedup : List (List ℕ) → List (List ℕ)
dedup [] = []
dedup (k ∷ ks) = k ∷ dedup_after k ks

unfoldable pub comm_keys_build : List Text → List (List ℕ)
comm_keys_build pkgs = dedup (sort_keys (all_keys pkgs))

module _ {B : Type 0} (aya : Aya B) where
  unfoldable pub remove_targets : List (List ℕ) → B → B
  remove_targets [] b = b
  remove_targets (k ∷ ks) b = remove_targets ks (aya.target_remove k b)

  unfoldable pub insert_targets : List (List ℕ) → B → B
  insert_targets [] b = b
  insert_targets (k ∷ ks) b = insert_targets ks (aya.target_insert k 1 b)

  unfoldable pub remove_applied : List ℕ → B → B
  remove_applied [] b = b
  remove_applied (k ∷ ks) b = remove_applied ks (aya.applied_remove k b)

  -- `applied_set`, `applied_del` and `applied_clear` on a loaded object. `tid as u32` keeps the
  -- pattern of the `i32`.
  unfoldable pub applied_set_in : ℕ → ℕ → B → B
  applied_set_in tid bits b = if aya.has_applied b then aya.applied_insert tid bits b else b

  unfoldable pub applied_del_in : ℕ → B → B
  applied_del_in tid b = if aya.has_applied b then aya.applied_remove tid b else b

  unfoldable pub applied_clear_in : B → B
  applied_clear_in b = if aya.has_applied b then remove_applied (aya.applied_keys b) b else b

  -- `comm_map_init` on a loaded object: true, and nothing done, if there are too many keys.
  unfoldable pub comm_map_init_in : List Text → ℕ → B → Bool × B
  comm_map_init_in pkgs comm_capacity b =
      let entries = comm_keys_build pkgs in
      if ltb comm_capacity (length entries)
      then (true, b)
      else if not (aya.has_target b)
      then (false, b)
      else (false, insert_targets entries (remove_targets (aya.target_keys b) b))

-- `match &mut ctx.bpf { Some(b) => …, None => return }`
abbrev pub in_bpf : {W B : Type 0} → (B → B) → Machine W B → Machine W B
in_bpf f m = record m { bpf = Option.map f m.bpf }

module _ {W B : Type 0} (aya : Aya B) where
  unfoldable pub applied_set : ℕ → ℕ → Machine W B → Machine W B
  applied_set tid bits m = in_bpf (applied_set_in aya tid bits) m

  unfoldable pub applied_del : ℕ → Machine W B → Machine W B
  applied_del tid m = in_bpf (applied_del_in aya tid) m

  unfoldable pub applied_clear : Machine W B → Machine W B
  applied_clear m = in_bpf (applied_clear_in aya) m

  unfoldable pub comm_map_init : List Text → ℕ → State (Machine W B) Bool
  comm_map_init pkgs comm_capacity m = elim m.bpf [
    | none ↦ (false, m)
    | some b ↦
        let r = comm_map_init_in aya pkgs comm_capacity b in (r.0, record m { bpf = some r.1 })
  ]
