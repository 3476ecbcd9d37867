-- ===== src/Base/Bytes.antt =====
-- Little-endian numbers of 32 bits in a buffer, as Linux and the program's `repr(C)` structures
-- hold them on its targets.
use Prim.Native.Nat.{ℕ, ◌+◌, ◌*◌, ◌/◌, ◌%◌, ◌^◌, ◌<◌}
use mathlib.Core.Path.{◌≡◌, refl, ap, ◌∙◌}
use mathlib.Core.List.{List, [], ◌∷◌, ◌++◌}
use native.Mathlib.Omega.{arith}
use aether_opt_ext.Base.Lists.{length, drop, drop-append}

-- The first four bytes as a number; bytes that are not there count as 0.
unfoldable pub le32 : List ℕ → ℕ
le32 [] = 0
le32 (a ∷ []) = a
le32 (a ∷ b ∷ []) = a + 256 * b
le32 (a ∷ b ∷ c ∷ []) = a + 256 * (b + 256 * c)
le32 (a ∷ b ∷ c ∷ d ∷ s) = a + 256 * (b + 256 * (c + 256 * d))

-- The field of 32 bits at an offset.
abbrev pub u32_at : ℕ → List ℕ → ℕ
u32_at off s = le32 (drop off s)

unfoldable pub to_le32 : ℕ → List ℕ
to_le32 n = n % 256 ∷ n / 256 % 256 ∷ n / 256 / 256 % 256 ∷ n / 256 / 256 / 256 % 256 ∷ []

pub length-to_le32 : (n : ℕ) → length (to_le32 n) ≡ 4
unfolding to_le32
length-to_le32 n = refl

-- A number of 32 bits is read back.
pub le32-to_le32 : (n : ℕ) (s : List ℕ) → n < 2 ^ 32 → le32 (to_le32 n ++ s) ≡ n
unfolding le32 to_le32
le32-to_le32 n s h = omega arith

-- The number behind a prefix.
pub u32_at-append :
    (p : List ℕ) (n : ℕ) (s : List ℕ) → n < 2 ^ 32 → u32_at (length p) (p ++ (to_le32 n ++ s)) ≡ n
u32_at-append p n s h = ap (λ t. le32 t) (drop-append p (to_le32 n ++ s)) ∙ le32-to_le32 n s h
