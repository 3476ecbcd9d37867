-- ===== src/Config/Priority.antt =====
-- The order that `rule_prio` of src/config.rs gives to patterns.
use aether_opt_ext.Base.{
  ◌+◌, ◌^◌, ◌≤◌, ◌<◌, ◌≡◌, ◌≢◌, refl, Bool, true, false, ◌||◌, [], ◌∷◌, arith, length,
}
use aether_opt_ext.Base.Text.{Text, is_empty, contains_char}
use aether_opt_ext.Config.{rule_prio, non_wild}

non_wild-le : (s : Text) → non_wild s ≤ length s
unfolding non_wild
non_wild-le [] = omega arith
non_wild-le (b ∷ s) = ground (arith, non_wild-le s)

abbrev pub has_wild : Text → Bool
has_wild pat = contains_char b'*' pat || contains_char b'?' pat

non_wild-lt : (s : Text) → contains_char b'*' s ≡ true → non_wild s < length s
unfolding non_wild
non_wild-lt [] h = cc
non_wild-lt (b ∷ s) h = ground (arith, non_wild-le s, non_wild-lt s)

has_wild-not_empty : (pat : Text) → has_wild pat ≡ true → is_empty pat ≡ false
has_wild-not_empty [] h = cc
has_wild-not_empty (b ∷ pat) h = refl

rule_prio-exact :
    (pat : Text)
    → pat ≢ []
    → length pat + 1000 < 2 ^ 31
    → has_wild pat ≡ false
    → rule_prio pat ≡ 1000 + length pat
unfolding rule_prio
rule_prio-exact [] ne short plain = absurd (ne refl)
rule_prio-exact (b ∷ pat) ne short plain = ground arith

rule_prio-wild :
    (pat : Text)
    → length pat < 500
    → has_wild pat ≡ true
    → (100 ≤ rule_prio pat) × (rule_prio pat < 1000)
unfolding rule_prio
rule_prio-wild pat short wild = ground (arith, non_wild-le pat, has_wild-not_empty pat)

rule_prio-package : rule_prio [] ≡ 200
unfolding rule_prio
rule_prio-package = refl

-- A pattern with no `*` and no `?` outranks every shorter-than-500-bytes pattern that has one,
-- and outranks the fallback of a package.
pub rule_prio-exact_above :
    (exact wild : Text)
    → exact ≢ []
    → length exact + 1000 < 2 ^ 31
    → has_wild exact ≡ false
    → length wild < 500
    → has_wild wild ≡ true
    → (rule_prio wild < rule_prio exact) × (rule_prio [] < rule_prio exact)
rule_prio-exact_above exact wild ne short plain short' w =
    ground
      (arith, rule_prio-exact exact ne short plain, rule_prio-wild wild short' w, rule_prio-package)

-- A star pattern with neither `?` nor `[` and with fewer than 100 other characters ranks below the
-- fallback of its package.
pub rule_prio-star_below :
    (pat : Text)
    → length pat ≤ 100
    → contains_char b'*' pat ≡ true
    → contains_char b'?' pat ≡ false
    → contains_char b'[' pat ≡ false
    → rule_prio pat < rule_prio []
unfolding rule_prio
rule_prio-star_below pat short star no_mark no_range =
    ground (arith, non_wild-lt pat star, has_wild-not_empty pat)
