-- ===== src/Base/Bits.antt =====
-- Single bits of a word, and what `|`, `&` and `count_ones` do to them.
mod Step
use Step.{bit_or_step, bit_and_step}
use Prim.Native.Nat.{ℕ, zero, suc, ◌+◌, ◌-◌, ◌*◌, ◌/◌, ◌%◌, ◌^◌, ◌≤◌, ◌<◌, max, bit_and, bit_or}
use mathlib.Core.Path.{◌≡◌, refl, ap, sym, ◌∙◌}
use native.Mathlib.Nat.{pow-suc, one-le-pow}
use native.Mathlib.Omega.{arith}
use aether_opt_ext.Base.Tests.{◌==◌, if◌then◌else◌}

-- The bit of `w` at place `i`, 0 or 1.
abbrev pub bit : ℕ → ℕ → ℕ
bit w zero = w % 2
bit w (suc i) = bit (w / 2) i

-- `w.count_ones()` on the low `n` bits.
unfoldable pub count_ones : ℕ → ℕ → ℕ
count_ones zero w = 0
count_ones (suc n) w = w % 2 + count_ones n (w / 2)

pub bit-lt : (w i : ℕ) → bit w i < 2
bit-lt w zero = omega arith
bit-lt w (suc i) = bit-lt (w / 2) i

pub bit-zero : (i : ℕ) → bit 0 i ≡ 0
bit-zero zero = refl
bit-zero (suc i) = bit-zero i

pub bit-bit_or : (a b i : ℕ) → bit (bit_or a b) i ≡ max (bit a i) (bit b i)
bit-bit_or a b zero = omega (arith, bit_or_step a b)
bit-bit_or a b (suc i) =
    let halves : bit_or a b / 2 ≡ bit_or (a / 2) (b / 2) = omega (arith, bit_or_step a b) in
    ap (λ (t : ℕ). bit t i) halves ∙ bit-bit_or (a / 2) (b / 2) i

pub bit-pow : (i j : ℕ) → bit (2 ^ i) j ≡ (if i == j then 1 else 0)
bit-pow zero zero = refl
bit-pow zero (suc j) = ground (arith, bit-zero j)
bit-pow (suc i) zero = ground (arith, pow-suc 2 i)
bit-pow (suc i) (suc j) =
    let half : 2 ^ suc i / 2 ≡ 2 ^ i = omega (arith, pow-suc 2 i) in
    ap (λ (t : ℕ). bit t j) half ∙ (bit-pow i j ∙ ground arith)

-- No bit of `a` is in the empty mask.
and_none : (n a : ℕ) → a ≤ n → bit_and a 0 ≡ 0
and_none zero a small = let is_zero : a ≡ 0 = omega arith in rw is_zero refl
and_none (suc n) a small = omega (arith, bit_and_step a 0, and_none n (a / 2) (omega arith))

-- `w & (1 << i)` is the bit at its place.
pub bit_and-pow : (w i : ℕ) → bit_and w (2 ^ i) ≡ bit w i * 2 ^ i
bit_and-pow w zero = omega (arith, bit_and_step w 1, and_none (w / 2) (w / 2) (omega arith))
bit_and-pow w (suc i) =
    let half : 2 ^ suc i / 2 ≡ 2 ^ i = omega (arith, pow-suc 2 i) in
    omega (
      arith,
      bit_and_step w (2 ^ suc i),
      ap (λ (t : ℕ). bit_and (w / 2) t) half,
      bit_and-pow (w / 2) i,
      ap (λ (t : ℕ). bit (w / 2) i * t) (pow-suc 2 i),
      pow-suc 2 i,
    )

pub bit_or-lt : (n a b : ℕ) → a < 2 ^ n → b < 2 ^ n → bit_or a b < 2 ^ n
bit_or-lt zero a b ha hb =
    let za : a ≡ 0 = omega arith in let zb : b ≡ 0 = omega arith in rw (za, zb) (omega arith)
bit_or-lt (suc n) a b ha hb = omega (
  arith,
  bit_or_step a b,
  pow-suc 2 n,
  bit_or-lt n (a / 2) (b / 2) (omega (arith, pow-suc 2 n)) (omega (arith, pow-suc 2 n)),
)

-- Words of `n` bits with the same bits are equal.
pub bit_ext : (n a b : ℕ) → a < 2 ^ n → b < 2 ^ n → ((i : ℕ) → i < n → bit a i ≡ bit b i) → a ≡ b
bit_ext zero a b ha hb h = omega arith
bit_ext (suc n) a b ha hb h = omega (
  arith,
  h 0 (omega arith),
  bit_ext n (a / 2) (b / 2) (omega (arith, pow-suc 2 n)) (omega (arith, pow-suc 2 n))
      (λ i p. h (suc i) (omega arith)),
)

pub pow-pos : (i : ℕ) → 0 < 2 ^ i
pow-pos i = one-le-pow i 2 (omega arith)

-- A bit below the width makes a power that fits the width.
pub pow-lt_pow : (i n : ℕ) → i < n → 2 ^ i < 2 ^ n
pow-lt_pow i zero h = absurd (omega arith)
pow-lt_pow zero (suc n) h = omega (arith, pow-suc 2 n, pow-pos n)
pow-lt_pow (suc i) (suc n) h = omega (arith, pow-suc 2 n, pow-suc 2 i, pow-lt_pow i n (omega arith))
