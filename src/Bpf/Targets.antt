-- ===== src/Bpf/Targets.antt =====
-- What `comm_map_init` leaves in `TARGET_COMM_MAP`.
use aether_opt_ext.Base.{
  ℕ, ◌≡◌, refl, ◌∙◌, true, false, not, ◌||◌, ◌&&◌, none, some, List, [], ◌∷◌, arith, if◌then◌else◌,
  length, ltb, is_some,
}
use aether_opt_ext.Base.Text.{Text, text_eq}
use aether_opt_ext.Os.{Aya}
use aether_opt_ext.Bpf.{
  has_text, all_keys, comm_keys_build, remove_targets, insert_targets, comm_map_init_in,
}
use aether_opt_ext.Bpf.Keys.{has_text-comm_keys_build}

-- What the program relies on of the hash map `TARGET_COMM_MAP` while it is not full: writes and
-- removals act on their own key, and the iterator gives every key.
pub record TargetLaws {B : Type 0} (aya : Aya B) : Type 0 where
  pub get_insert :
      (k j : List ℕ) (v : ℕ) (b : B)
      → aya.target_get j (aya.target_insert k v b)
        ≡ (if text_eq k j then some v else aya.target_get j b)
  pub get_remove :
      (k j : List ℕ) (b : B)
      → aya.target_get j (aya.target_remove k b)
        ≡ (if text_eq k j then none else aya.target_get j b)
  pub keys_all :
      (j : List ℕ) (b : B)
      → is_some (aya.target_get j b) ≡ true
      → has_text (aya.target_keys b) j ≡ true

module _ {B : Type 0} (aya : Aya B) (laws : TargetLaws aya) where
  has_target-remove_targets :
      (ks : List (List ℕ)) (j : List ℕ) (b : B)
      → is_some (aya.target_get j (remove_targets aya ks b))
        ≡ (not (has_text ks j) && is_some (aya.target_get j b))
  unfolding remove_targets has_text
  has_target-remove_targets [] j b = refl
  has_target-remove_targets (k ∷ ks) j b =
      ground (arith, laws.get_remove k j b, has_target-remove_targets ks j (aya.target_remove k b))

  has_target-insert_targets :
      (ks : List (List ℕ)) (j : List ℕ) (b : B)
      → is_some (aya.target_get j (insert_targets aya ks b))
        ≡ (has_text ks j || is_some (aya.target_get j b))
  unfolding insert_targets has_text
  has_target-insert_targets [] j b = refl
  has_target-insert_targets (k ∷ ks) j b =
      ground
        (arith, laws.get_insert k j 1 b, has_target-insert_targets ks j (aya.target_insert k 1 b))

  -- If the keys fit, and the map can be reached and keeps what is put in it, then `comm_map_init`
  -- asks for no larger map, and the keys of the map are those of the packages: none is missing, and
  -- none is left from before.
  pub comm_map_init_in-keys :
      (pkgs : List Text) (comm_capacity : ℕ) (b : B) (j : List ℕ)
      → ltb comm_capacity (length (comm_keys_build pkgs)) ≡ false
      → aya.has_target b ≡ true
      → ((comm_map_init_in aya pkgs comm_capacity b).0 ≡ false)
        × (is_some (aya.target_get j (comm_map_init_in aya pkgs comm_capacity b).1)
            ≡ has_text (all_keys pkgs) j)
  unfolding comm_map_init_in
  comm_map_init_in-keys pkgs comm_capacity b j fits has =
      let entries = comm_keys_build pkgs in
      let cleared = remove_targets aya (aya.target_keys b) b in
      rw (fits, has)
        (
          refl,
          has_target-insert_targets entries j cleared
              ∙ ground (
                arith,
                has_target-remove_targets (aya.target_keys b) j b,
                laws.keys_all j b,
                has_text-comm_keys_build pkgs j,
              ),
        )
