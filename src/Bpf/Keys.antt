-- ===== src/Bpf/Keys.antt =====
-- The keys that `comm_keys_build` of src/bpf.rs collects.
use aether_opt_ext.Base.{
  suc, length, ◌≤◌, ◌*◌, ℕ, ◌≡◌, refl, ap, sym, ◌∙◌, true, ◌||◌, List, [], ◌∷◌, ◌++◌, arith,
  Bool-cases, inl, inr,
}
use aether_opt_ext.Base.Text.{Text, text_eq, text_eq→eq}
use aether_opt_ext.Bpf.{
  has_text, insert_key, sort_keys, dedup_after, dedup, all_keys, pkg_keys, comm_keys_build,
}

has_text-insert_key :
    (k : List ℕ) (ks : List (List ℕ)) (j : List ℕ)
    → has_text (insert_key k ks) j ≡ (text_eq k j || has_text ks j)
unfolding insert_key has_text
has_text-insert_key k [] j = refl
has_text-insert_key k (i ∷ ks) j = ground (arith, has_text-insert_key k ks j)

has_text-sort_keys : (ks : List (List ℕ)) (j : List ℕ) → has_text (sort_keys ks) j ≡ has_text ks j
unfolding sort_keys has_text
has_text-sort_keys [] j = refl
has_text-sort_keys (k ∷ ks) j =
    has_text-insert_key k (sort_keys ks) j ∙ ap (λ b. text_eq k j || b) (has_text-sort_keys ks j)

has_text-dedup_after :
    (k : List ℕ) (ks : List (List ℕ)) (j : List ℕ)
    → (text_eq k j || has_text (dedup_after k ks) j) ≡ (text_eq k j || has_text ks j)
unfolding dedup_after has_text
has_text-dedup_after k [] j = refl
has_text-dedup_after k (i ∷ ks) j = elim (Bool-cases (text_eq k i)) [
  | inl same ↦ rw (same, sym (text_eq→eq k i same)) (ground (arith, has_text-dedup_after k ks j))
  | inr other ↦ rw other (ground (arith, has_text-dedup_after i ks j))
]

has_text-dedup : (ks : List (List ℕ)) (j : List ℕ) → has_text (dedup ks) j ≡ has_text ks j
unfolding dedup has_text
has_text-dedup [] j = refl
has_text-dedup (k ∷ ks) j = unfold has_text in has_text-dedup_after k ks j

-- A key is in the list exactly if some package has it.
pub has_text-comm_keys_build :
    (pkgs : List Text) (j : List ℕ) → has_text (comm_keys_build pkgs) j ≡ has_text (all_keys pkgs) j
unfolding comm_keys_build
has_text-comm_keys_build pkgs j =
    has_text-dedup (sort_keys (all_keys pkgs)) j ∙ has_text-sort_keys (all_keys pkgs) j

pub has_text-append :
    (ks ls : List (List ℕ)) (j : List ℕ) → has_text (ks ++ ls) j ≡ (has_text ks j || has_text ls j)
unfolding has_text
has_text-append [] ls j = refl
has_text-append (k ∷ ks) ls j = ground (arith, has_text-append ks ls j)

pub has_text-all_keys :
    (pkgs : List Text) (pkg : Text) (j : List ℕ)
    → has_text pkgs pkg ≡ true
    → has_text (pkg_keys pkg) j ≡ true
    → has_text (all_keys pkgs) j ≡ true
unfolding has_text all_keys
has_text-all_keys [] pkg j mem key = cc
has_text-all_keys (p ∷ pkgs) pkg j mem key = elim (Bool-cases (text_eq p pkg)) [
  | inl same ↦ rw (has_text-append, text_eq→eq p pkg same) (ground arith)
  | inr other ↦
      let rest = has_text-all_keys pkgs pkg j (ground arith) key in
      rw has_text-append (ground arith)
]

length-insert_key : (k : List ℕ) (ks : List (List ℕ)) → length (insert_key k ks) ≡ suc (length ks)
unfolding insert_key
length-insert_key k [] = refl
length-insert_key k (i ∷ ks) = ground (arith, length-insert_key k ks)

length-sort_keys : (ks : List (List ℕ)) → length (sort_keys ks) ≡ length ks
unfolding sort_keys
length-sort_keys [] = refl
length-sort_keys (k ∷ ks) = length-insert_key k (sort_keys ks) ∙ ap suc (length-sort_keys ks)

length-dedup_after : (k : List ℕ) (ks : List (List ℕ)) → length (dedup_after k ks) ≤ length ks
unfolding dedup_after
length-dedup_after k [] = omega arith
length-dedup_after k (i ∷ ks) = ground (arith, length-dedup_after k ks, length-dedup_after i ks)

length-dedup : (ks : List (List ℕ)) → length (dedup ks) ≤ length ks
unfolding dedup
length-dedup [] = omega arith
length-dedup (k ∷ ks) = omega (arith, length-dedup_after k ks)

length-all_keys : (pkgs : List Text) → length (all_keys pkgs) ≤ 2 * length pkgs
unfolding all_keys pkg_keys
length-all_keys [] = omega arith
length-all_keys ([] ∷ pkgs) = omega (arith, length-all_keys pkgs)
length-all_keys ((b ∷ pkg) ∷ pkgs) = ground (arith, length-all_keys pkgs)

-- A package takes at most two places of the whitelist.
pub length-comm_keys_build : (pkgs : List Text) → length (comm_keys_build pkgs) ≤ 2 * length pkgs
unfolding comm_keys_build
length-comm_keys_build pkgs = omega (
  arith,
  length-dedup (sort_keys (all_keys pkgs)),
  length-sort_keys (all_keys pkgs),
  length-all_keys pkgs,
)
