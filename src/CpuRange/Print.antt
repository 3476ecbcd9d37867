-- ===== src/CpuRange/Print.antt =====
-- The loops of `to_range_string`, src/cpuset.rs, against the CPUs of the set.
use aether_opt_ext.Base.{
  ℕ, zero, suc, ◌+◌, ◌-◌, ◌*◌, ◌/◌, ◌%◌, ◌^◌, ◌≤◌, ◌<◌, ◌≡◌, refl, sym, ◌∙◌, Bool, false, not, none,
  some, List, [], ◌∷◌, ◌++◌, arith, bit_and, ◌==◌, if◌then◌else◌, All, length, get_or, Bool-cases,
  inl, inr,
}
use native.Mathlib.Nat.{add-zero, zero-add}
use aether_opt_ext.Base.Bits.{bit_and-pow, bit-zero}
use aether_opt_ext.CpuSet.{CpuSet, IsCpuSet, is_set, cpu_setsize}
use aether_opt_ext.CpuSet.Member.{is_set-bit_at}
use aether_opt_ext.CpuRange.{
  Printer, is_some, push_range, print_cpu, print_bits, print_word, print_words, to_range_string,
  printer_start,
}
use aether_opt_ext.CpuRange.Ranges.{
  ranges_text, in_ranges, ValidRange, push_range-result, push_range-shown,
}
use aether_opt_ext.CpuRange.Cover.{Shows, IsCover-close, print_cpu-Shows, Shows-skip, IsCover}

module _ (p : ℕ → Bool) (word base : ℕ) where
  -- The inner loop, over the bits that stand for the CPUs from `base` on.
  print_bits-Shows :
      (rounds bit : ℕ) (st : Printer)
      → base + bit + rounds ≤ cpu_setsize
      → ((b : ℕ) → bit ≤ b → b < bit + rounds → not (bit_and word (2 ^ b) == 0) ≡ p (base + b))
      → Shows p (base + bit) st
      → Shows p (base + bit + rounds) (print_bits word base rounds bit st)
  unfolding print_bits
  print_bits-Shows zero bit st k h sh =
      let stop : base + bit + 0 ≡ base + bit = omega arith in rw stop sh
  print_bits-Shows (suc rounds) bit st k h sh =
      let step : base + bit + suc rounds ≡ base + (bit + 1) + rounds = omega arith in
      let next : base + bit + 1 ≡ base + (bit + 1) = omega arith in
      rw step (
        print_bits-Shows rounds (bit + 1) _ (omega arith)
          (λ b lo hi. h b (omega arith) (omega arith))
          (rw next at (one_bit (h bit (omega arith) (omega arith)))))
    where
      one_bit :
          not (bit_and word (2 ^ bit) == 0) ≡ p (base + bit)
          → Shows p
              (base + bit + 1)
              (if not (bit_and word (2 ^ bit) == 0) then print_cpu (base + bit) st else st)
      one_bit e = elim (Bool-cases (not (bit_and word (2 ^ bit) == 0))) [
        | inl on ↦ rw on (print_cpu-Shows p (base + bit) st (omega arith) (sym e ∙ on) sh)
        | inr off ↦ rw off (
            Shows-skip p (base + bit) (base + bit + 1) st (omega arith)
              (λ j lo hi. let at : j ≡ base + bit = omega arith in rw at (sym e ∙ off)) sh)
      ]

flush : Printer → Printer
flush st = if is_some st.start then record (push_range st) { start = none; end = none } else st

flush-Shows : (p : ℕ → Bool) (n : ℕ) (st : Printer) → Shows p n st → Shows p n (flush st)
unfolding flush
flush-Shows p n st (rs, none, h, at) = (rs, none, h, rw at)
flush-Shows p n st (rs, some (lo, hi), h, at) = (
  rs ++ (lo, hi) ∷ [],
  none,
  IsCover-close p n rs (lo, hi) h,
  rw at (push_range-shown rs lo hi none),
)

no_bits : (w b : ℕ) → w ≡ 0 → not (bit_and w (2 ^ b) == 0) ≡ false
no_bits w b z = rw z (ground (arith, bit_and-pow 0 b, bit-zero b))

-- `word` holds the bits of the CPUs of word `idx`.
abbrev WordOf : (ℕ → Bool) → ℕ → ℕ → Type 0
WordOf p idx word = (b : ℕ) → b < 64 → not (bit_and word (2 ^ b) == 0) ≡ p (idx * 64 + b)

idx_end : (idx : ℕ) → idx * 64 + 0 + 64 ≡ (idx + 1) * 64
idx_end idx = omega arith

print_word-Shows :
    (p : ℕ → Bool) (idx word : ℕ) (st : Printer)
    → idx < 16
    → WordOf p idx word
    → Shows p (idx * 64) st
    → Shows p ((idx + 1) * 64) (print_word idx word st)
unfolding print_word
print_word-Shows p idx word st k h sh = elim (Bool-cases (word == 0)) [
  | inl zero_word ↦ rw zero_word (
      Shows-skip p (idx * 64) ((idx + 1) * 64) _ (omega arith)
        (λ j lo hi.
          let at : j ≡ idx * 64 + (j - idx * 64) = omega arith in
          rw at (sym (h (j - idx * 64) (omega arith)) ∙ no_bits word _ (ground arith)))
        (unfold flush in flush-Shows p (idx * 64) st sh))
  | inr some_bits ↦ rw some_bits (
      rw (idx_end idx) at (
        print_bits-Shows p word (idx * 64) 64 0 st (omega arith) (λ b lo hi. h b (omega arith))
          (rw (sym (add-zero (idx * 64))) at sh)))
]

print_words-Shows :
    (p : ℕ → Bool) (idx : ℕ) (ws : List ℕ) (st : Printer)
    → idx + length ws ≤ 16
    → ((k : ℕ) → k < length ws → WordOf p (idx + k) (get_or ws k 0))
    → Shows p (idx * 64) st
    → Shows p ((idx + length ws) * 64) (print_words idx ws st)
unfolding print_words
print_words-Shows p idx [] st k h sh = rw (add-zero idx) sh
print_words-Shows p idx (w ∷ ws) st k h sh =
    let next : idx + suc (length ws) ≡ idx + 1 + length ws = omega arith in
    rw next (
      print_words-Shows p (idx + 1) ws (print_word idx w st) (omega arith)
        (λ j lt.
          let at : idx + 1 + j ≡ idx + suc j = omega arith in rw at (h (suc j) (omega arith)))
        (print_word-Shows p idx w st (omega arith) (rw (add-zero idx) at (h 0 (omega arith))) sh))

words_of :
    (s : CpuSet) (k b : ℕ)
    → k < 16
    → b < 64
    → not (bit_and (get_or s.bits k 0) (2 ^ b) == 0) ≡ is_set s (k * 64 + b)
unfolding is_set
words_of s k b hk hb =
    let word : (k * 64 + b) / 64 ≡ k = omega arith in
    let place : (k * 64 + b) % 64 ≡ b = omega arith in rw (word, place) (ground arith)

start-IsCover : (s : CpuSet) → IsCover (is_set s) (0 * 64) [] none
start-IsCover s = record { valid_rs = tt; valid_open = tt; covers = λ j. ground arith }

-- What the last `push_range` leaves.
final :
    (s : CpuSet) (st : Printer)
    → Shows (is_set s) cpu_setsize st
    → (rs : List (ℕ × ℕ)) × ((push_range st).result ≡ ranges_text rs)
      × All ValidRange rs
      × ((j : ℕ) → in_ranges j rs ≡ is_set s j)
final s st (rs, none, h, at) = (
  rs,
  rw at (unfold push_range in refl),
  h.valid_rs,
  λ j. ground (arith, h.covers j, is_set-bit_at s j),
)
final s st (rs, some (lo, hi), h, at) =
    let closed = IsCover-close (is_set s) cpu_setsize rs (lo, hi) h in
    (
      rs ++ (lo, hi) ∷ [],
      rw at (push_range-result rs lo hi),
      closed.valid_rs,
      λ j. ground (arith, closed.covers j, is_set-bit_at s j),
    )

-- For a set of 16 words below 2 ^ 64, the text is that of ranges of CPUs below 1024, no range
-- empty, which hold exactly the CPUs of the set.
pub to_range_string-covers :
    (s : CpuSet)
    → IsCpuSet s
    → (rs : List (ℕ × ℕ)) × (to_range_string s ≡ ranges_text rs)
      × All ValidRange rs
      × ((j : ℕ) → in_ranges j rs ≡ is_set s j)
to_range_string-covers s v =
    let size : (0 + length s.bits) * 64 ≡ cpu_setsize = omega (arith, v.size) in
    unfold to_range_string ranges_text in
    final s (print_words 0 s.bits printer_start) (
      rw size at (
        print_words-Shows (is_set s) 0 s.bits printer_start (omega (arith, v.size))
          (λ k lt b hb. rw zero-add (words_of s k b (omega (arith, v.size)) hb))
          ([], none, start-IsCover s, refl)))
