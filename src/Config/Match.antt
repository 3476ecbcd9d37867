-- ===== src/Config/Match.antt =====
-- What `fnmatch` accepts.
use mathlib.Core.List.{cons-ne-nil}
use aether_opt_ext.Base.{
  ◌-◌, ◌≡◌, ◌≢◌, ◌↔◌, refl, ap, sym, ◌∙◌, Bool, true, false, ◌&&◌, ◌||◌, [], ◌∷◌, ◌++◌, append-nil,
  arith, length, take, drop, All, take-append, drop-append, Bool-cases, inl, inr,
}
use aether_opt_ext.Base.Text.{
  Text, is_empty, starts_with, ends_with, find-append, find-none, starts_with-append,
  starts_with→eq, ends_with→eq, ends_with-append, text_eq_iff, drop-length_suc,
}
use aether_opt_ext.Config.{fnmatch}

-- The middle that a star stands for.
abbrev pub Spans : Text → Text → Text → Type 0
Spans pre suf name = (m : Text) × (name ≡ pre ++ (m ++ suf))

module _ (pre suf name : Text) where
  abbrev star_test : Bool
  star_test = starts_with name pre && (is_empty suf || ends_with (drop (length pre) name) suf)

  not_empty : is_empty (pre ++ 42 ∷ suf) ≡ false
  not_empty = elim pre as (λ p. is_empty (p ++ 42 ∷ suf) ≡ false) [ [] ↦ refl | b ∷ p ↦ refl ]

  fnmatch-star : All (λ b. b ≢ 42) pre → fnmatch (pre ++ 42 ∷ suf) name ≡ star_test
  unfolding fnmatch
  fnmatch-star lacks = rw (
    not_empty,
    find-append 42 pre suf lacks,
    take-append pre (42 ∷ suf),
    drop-length_suc pre 42 suf,
  )

  star_test→Spans : star_test ≡ true → Spans pre suf name
  star_test→Spans h = elim (Bool-cases (is_empty suf)) [
    | inl bare ↦
        let nil : suf ≡ [] = ground arith in
        let begins : name ≡ pre ++ drop (length pre) name =
          starts_with→eq name pre (ground arith) in
        (drop (length pre) name, rw (nil, append-nil) begins)
    | inr more ↦
        let rest = drop (length pre) name in
        let begins : name ≡ pre ++ rest = starts_with→eq name pre (ground arith) in
        let stops : rest ≡ take (length rest - length suf) rest ++ suf =
          ends_with→eq rest suf (ground arith) in
        (take (length rest - length suf) rest, begins ∙ ap (λ t. pre ++ t) stops)
  ]

  Spans→star_test : Spans pre suf name → star_test ≡ true
  Spans→star_test (m, e) =
      rw (e, starts_with-append pre (m ++ suf), drop-append pre (m ++ suf), ends_with-append m suf)
        (ground arith)

-- A pattern whose first star stands between `pre` and `suf` accepts the names that begin with
-- `pre` and end, behind it, with `suf`. Later stars stand for themselves.
pub fnmatch-star_iff :
    (pre suf name : Text)
    → All (λ b. b ≢ b'*') pre
    → (fnmatch (pre ++ b'*' ∷ suf) name ≡ true) ↔ Spans pre suf name
fnmatch-star_iff pre suf name lacks = (
  λ h. star_test→Spans pre suf name (sym (fnmatch-star pre suf name lacks) ∙ h),
  λ s. fnmatch-star pre suf name lacks ∙ Spans→star_test pre suf name s,
)

-- A pattern with no star, whatever else is in it, accepts only itself, and nothing if it is empty.
pub fnmatch-plain_iff :
    (pat name : Text)
    → All (λ b. b ≢ b'*') pat
    → (fnmatch pat name ≡ true) ↔ ((pat ≢ []) × (name ≡ pat))
unfolding fnmatch
fnmatch-plain_iff [] name lacks = (λ h. absurd (ground arith), λ h. absurd (h.0 refl))
fnmatch-plain_iff (b ∷ pat) name lacks = rw (find-none 42 (b ∷ pat) lacks) (
  λ h. (cons-ne-nil b pat, sym ((text_eq_iff (b ∷ pat) name).0 h)),
  λ h. (text_eq_iff (b ∷ pat) name).1 (sym h.1),
)
