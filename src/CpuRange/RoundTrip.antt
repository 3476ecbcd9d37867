-- ===== src/CpuRange/RoundTrip.antt =====
-- Reading back what `to_range_string` writes.
use aether_opt_ext.Base.{
  ℕ, ◌≤◌, ◌<◌, ◌≡◌, ◌≢◌, refl, ap, sym, ◌∙◌, false, none, some, List, [], ◌∷◌, ◌++◌, arith, ◌==◌,
  if◌then◌else◌, any, All, All-append, length, take-append, Bool-cases, inl, inr, length-append,
}
use aether_opt_ext.Base.Text.{
  Text, is_empty, split, trim, to_string, usize_max, find-append, find-none, split-lacks,
  split-append, trim-plain, drop-length_suc, IsPlain, IsDigit, to_string-digits, to_string-length,
  parse_uint-to_string,
}
use aether_opt_ext.CpuSet.{CpuSet, IsCpuSet}
use aether_opt_ext.CpuSet.Member.{cpuset_ext, is_set-bit_at}
use aether_opt_ext.CpuRange.{to_range_string, ordered, part_bounds, from_range}
use aether_opt_ext.CpuRange.Parse.{part_covers, is_set-parse_cpu_ranges, parse_cpu_ranges-IsCpuSet}
use aether_opt_ext.CpuRange.Ranges.{range_text, ranges_text, in_range, in_ranges, ValidRange}
use aether_opt_ext.CpuRange.Print.{to_range_string-covers}

All-map : (P Q : ℕ → Type 0) (s : Text) → ((b : ℕ) → P b → Q b) → All P s → All Q s
All-map P Q [] f h = tt
All-map P Q (b ∷ s) f (hb, h) = (f b hb, All-map P Q s f h)

abbrev RangeByte : ℕ → Type 0
RangeByte b = (b'-' ≤ b) × (b ≤ b'9')

range_text-bytes : (r : ℕ × ℕ) → All RangeByte (range_text r)
unfolding range_text
range_text-bytes (lo, hi) =
    let digits = λ (n : ℕ).
      All-map IsDigit RangeByte (to_string n) (λ b d. omega arith) (to_string-digits n) in
    elim (Bool-cases (lo == hi)) [
      | inl one ↦ rw one (digits lo)
      | inr two ↦
          rw two (All-append RangeByte (to_string lo) _ (digits lo) (omega arith, digits hi))
    ]

no_dash : (n : ℕ) → All (λ b. b ≢ b'-') (to_string n)
no_dash n = All-map IsDigit (λ b. b ≢ b'-') (to_string n) (λ b d. omega arith) (to_string-digits n)

no_comma : (r : ℕ × ℕ) → All (λ b. b ≢ b',') (range_text r)
no_comma r =
    All-map RangeByte (λ b. b ≢ b',') (range_text r) (λ b d. omega arith) (range_text-bytes r)

range_text-length : (r : ℕ × ℕ) → 0 < length (range_text r)
unfolding range_text
range_text-length (lo, hi) =
    ground (arith, to_string-length lo, length-append (to_string lo) (b'-' ∷ to_string hi))

ordered_lem : (a b : ℕ) → a ≤ b → b < usize_max → ordered a b ≡ some (a, b)
ordered_lem a b le lt = ground arith

part_bounds_one : (n : ℕ) → n < usize_max → part_bounds (to_string n) ≡ some (n, n)
unfolding part_bounds
part_bounds_one n h =
    rw (find-none b'-' (to_string n) (no_dash n), parse_uint-to_string usize_max n (omega arith))
      (ordered_lem n n (omega arith) h)

module _ (lo hi : ℕ) (le : lo ≤ hi) (lt : hi < usize_max) where
  abbrev two : Text
  two = to_string lo ++ b'-' ∷ to_string hi

  part_bounds-two : part_bounds two ≡ some (lo, hi)
  unfolding part_bounds
  part_bounds-two =
      rw
        (
          find-append b'-' (to_string lo) (to_string hi) (no_dash lo),
          take-append (to_string lo) (b'-' ∷ to_string hi),
          drop-length_suc (to_string lo) b'-' (to_string hi),
          parse_uint-to_string usize_max lo (omega arith),
          parse_uint-to_string usize_max hi (omega arith),
        )
        (ordered_lem lo hi le lt)

part_bounds-range_text : (r : ℕ × ℕ) → ValidRange r → part_bounds (range_text r) ≡ some r
unfolding range_text
part_bounds-range_text (lo, hi) (le, lt) = elim (Bool-cases (lo == hi)) [
  | inl one ↦ let same : hi ≡ lo = ground arith in rw (one, same) (part_bounds_one lo (omega arith))
  | inr other ↦ rw other (part_bounds-two lo hi le (omega arith))
]

part_covers-range_text :
    (j : ℕ) (r : ℕ × ℕ) → ValidRange r → part_covers j (range_text r) ≡ in_range j r
unfolding part_covers
part_covers-range_text j r v =
    rw
      (trim-plain (range_text r)
        (All-map RangeByte IsPlain (range_text r) (λ b d. omega arith) (range_text-bytes r)))
      (rw (part_bounds-range_text r v) (not_empty (range_text r) (range_text-length r)))
  where
    not_empty :
        (t : Text) → 0 < length t → (if is_empty t then false else in_range j r) ≡ in_range j r
    not_empty [] h = absurd (omega arith)
    not_empty (b ∷ t) h = refl

-- The parts of the written text cover what the ranges hold.
pub parts-ranges_text :
    (j : ℕ) (rs : List (ℕ × ℕ))
    → All ValidRange rs
    → any (part_covers j) (split b',' (ranges_text rs)) ≡ in_ranges j rs
unfolding ranges_text
parts-ranges_text j [] v = unfold split part_covers trim in refl
parts-ranges_text j (r ∷ []) (v, _) =
    rw (split-lacks b',' (range_text r) (no_comma r)) (rw (part_covers-range_text j r v))
parts-ranges_text j (r ∷ q ∷ rs) (v, vs) =
    rw (split-append b',' (range_text r) (ranges_text (q ∷ rs)) (no_comma r))
      (rw (part_covers-range_text j r v, parts-ranges_text j (q ∷ rs) vs))

-- For a set of 16 words below 2 ^ 64, printing it and reading the text gives the set back.
pub from_range-to_range_string : (s : CpuSet) → IsCpuSet s → from_range (to_range_string s) ≡ s
unfolding from_range
from_range-to_range_string s v =
    let (rs, text, valid, holds) = to_range_string-covers s v in
    cpuset_ext _ s (parse_cpu_ranges-IsCpuSet (to_range_string s) none) v (λ j. ground (
      arith,
      is_set-parse_cpu_ranges (to_range_string s) none j,
      ap (λ (t : Text). any (part_covers j) (split b',' t)) text,
      parts-ranges_text j rs valid,
      holds j,
      is_set-bit_at s j,
    ))

-- Two sets of 16 words below 2 ^ 64 with the same text, and so with the same cpuset directory, are
-- equal.
pub to_range_string-injective :
    (a b : CpuSet) → IsCpuSet a → IsCpuSet b → to_range_string a ≡ to_range_string b → a ≡ b
to_range_string-injective a b va vb e =
    sym (from_range-to_range_string a va) ∙ (ap from_range e ∙ from_range-to_range_string b vb)
