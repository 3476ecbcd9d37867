-- ===== src/CpuSet/Count.antt =====
-- `count` of src/cpuset.rs by the members of the set.
use aether_opt_ext.Base.{
  ℕ, zero, suc, ◌+◌, ◌*◌, ◌/◌, ◌%◌, ◌<◌, ◌≡◌, ◌↔◌, refl, ap, sym, ◌∙◌, Bool, false, List, [], ◌∷◌,
  arith, ltb, ◌==◌, if◌then◌else◌, length, get_or, Bool-cases, inl, inr,
}
use native.Mathlib.Nat.{add-zero, zero-add}
use native.Mathlib.Numerals.{one-add}
use aether_opt_ext.Base.Bits.{bit, count_ones}
use aether_opt_ext.CpuSet.{CpuSet, IsCpuSet, is_set, count, sum_ones, cpu_setsize}
use aether_opt_ext.CpuSet.Member.{is_set-bit_at}

-- How many of the `n` numbers from `start` on pass the test.
unfoldable pub tally : (ℕ → Bool) → ℕ → ℕ → ℕ
tally p start zero = 0
tally p start (suc n) = (if p start then 1 else 0) + tally p (start + 1) n

shift : (p q : ℕ → Bool) (a b i : ℕ) → p (a + suc i) ≡ q (b + suc i) → p (a + 1 + i) ≡ q (b + 1 + i)
shift p q a b i h =
    let left : a + 1 + i ≡ a + suc i = omega arith in
    let right : b + 1 + i ≡ b + suc i = omega arith in rw (left, right) h

tally_ext :
    (p q : ℕ → Bool) (a b n : ℕ)
    → ((i : ℕ) → i < n → p (a + i) ≡ q (b + i))
    → tally p a n ≡ tally q b n
unfolding tally
tally_ext p q a b zero h = refl
tally_ext p q a b (suc n) h =
    let first : p a ≡ q b = rw (add-zero, add-zero) at (h 0 (omega arith)) in
    ground (
      arith,
      first,
      tally_ext p q (a + 1) (b + 1) n (λ i k. shift p q a b i (h (suc i) (omega arith))),
    )

tally_add : (p : ℕ → Bool) (a m n : ℕ) → tally p a (m + n) ≡ tally p a m + tally p (a + m) n
unfolding tally
tally_add p a zero n = simp (zero-add, add-zero)
tally_add p a (suc m) n =
    let regroup : suc m + n ≡ suc (m + n) = omega arith in
    let place : a + suc m ≡ a + 1 + m = omega arith in
    rw (regroup, place) (omega (arith, tally_add p (a + 1) m n))

next_bit : (w i : ℕ) → (bit (w / 2) (0 + i) == 1) ≡ (bit w (1 + i) == 1)
next_bit w i = rw (zero-add, one-add)

count_ones-tally : (n w : ℕ) → count_ones n w ≡ tally (λ i. bit w i == 1) 0 n
unfolding tally count_ones
count_ones-tally zero w = refl
count_ones-tally (suc n) w = ground (
  arith,
  count_ones-tally n (w / 2),
  tally_ext (λ i. bit (w / 2) i == 1) (λ i. bit w i == 1) 0 1 n (λ i k. next_bit w i),
)

abbrev word_bit : List ℕ → ℕ → Bool
word_bit ws j = bit (get_or ws (j / 64) 0) (j % 64) == 1

first_word :
    (w : ℕ) (ws : List ℕ) (i : ℕ) → i < 64 → (bit w (0 + i) == 1) ≡ word_bit (w ∷ ws) (0 + i)
first_word w ws i k =
    let word : i / 64 ≡ 0 = omega arith in
    let place : i % 64 ≡ i = omega arith in rw (zero-add, word, place)

later_word : (w : ℕ) (ws : List ℕ) (i : ℕ) → word_bit ws (0 + i) ≡ word_bit (w ∷ ws) (0 + 64 + i)
later_word w ws i =
    let word : (64 + i) / 64 ≡ suc (i / 64) = omega arith in
    let place : (64 + i) % 64 ≡ i % 64 = omega arith in rw (zero-add, word, place)

sum_ones-tally : (ws : List ℕ) → sum_ones ws ≡ tally (word_bit ws) 0 (64 * length ws)
unfolding sum_ones
sum_ones-tally [] = unfold tally in refl
sum_ones-tally (w ∷ ws) =
    let size : 64 * suc (length ws) ≡ 64 + 64 * length ws = omega arith in
    rw (size, tally_add (word_bit (w ∷ ws)) 0 64 (64 * length ws))
      (omega (
        arith,
        count_ones-tally 64 w,
        sum_ones-tally ws,
        tally_ext (λ i. bit w i == 1) (word_bit (w ∷ ws)) 0 0 64 (λ i k. first_word w ws i k),
        tally_ext (word_bit ws) (word_bit (w ∷ ws)) 0 (0 + 64) (64 * length ws)
            (λ i k. later_word w ws i),
      ))

-- For a set of 16 words below 2 ^ 64, `count` is the number of CPUs below 1024 that are in it.
pub count-tally : (s : CpuSet) → IsCpuSet s → count s ≡ tally (is_set s) 0 cpu_setsize
unfolding count
count-tally s v =
    let size : 64 * length s.bits ≡ cpu_setsize = omega (arith, v.size) in
    sum_ones-tally s.bits
    ∙ (ap (λ (n : ℕ). tally (word_bit s.bits) 0 n) size
        ∙ tally_ext (word_bit s.bits) (is_set s) 0 0 cpu_setsize
            (λ i k. ground (arith, is_set-bit_at s (0 + i))))

tally-zero : (p : ℕ → Bool) (a n : ℕ) → tally p a n ≡ 0 → (i : ℕ) → i < n → p (a + i) ≡ false
unfolding tally
tally-zero p a zero h i k = absurd (omega arith)
tally-zero p a (suc n) h zero k = rw add-zero (ground arith)
tally-zero p a (suc n) h (suc i) k =
    let place : a + suc i ≡ a + 1 + i = omega arith in
    rw place (tally-zero p (a + 1) n (omega arith) i (omega arith))

tally_none : (p : ℕ → Bool) (a n : ℕ) → ((i : ℕ) → p i ≡ false) → tally p a n ≡ 0
unfolding tally
tally_none p a zero h = refl
tally_none p a (suc n) h = ground (arith, h a, tally_none p (a + 1) n h)

pub count-zero_iff : (s : CpuSet) → IsCpuSet s → (count s ≡ 0) ↔ ((j : ℕ) → is_set s j ≡ false)
count-zero_iff s v = (
  λ h j. elim (Bool-cases (ltb j cpu_setsize)) [
    | inl within ↦
        rw zero-add at
          (tally-zero (is_set s) 0 cpu_setsize (sym (count-tally s v) ∙ h) j (ground arith))
    | inr beyond ↦ ground (arith, is_set-bit_at s j)
  ],
  λ none. count-tally s v ∙ tally_none (is_set s) 0 cpu_setsize none,
)
