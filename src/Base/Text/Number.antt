-- ===== src/Base/Text/Number.antt =====
-- `str::parse` into the unsigned integer types and into `i32`, and decimal printing.
use Prim.Native.Nat.{ℕ, zero, suc, ◌+◌, ◌-◌, ◌*◌, ◌/◌, ◌%◌, ◌^◌, ◌≤◌, ◌<◌}
use mathlib.Core.Path.{◌≡◌, refl, ◌∙◌}
use mathlib.Core.Bool.{◌&&◌}
use mathlib.Core.Option.{Option, none, some}
use mathlib.Core.Option
use mathlib.Core.List.{[], ◌∷◌}
use native.Mathlib.Omega.{arith}
use aether_opt_ext.Base.Tests.{ltb, leb, ◌==◌, if◌then◌else◌}
use aether_opt_ext.Base.Lists.{All, length}
use aether_opt_ext.Base.Text.Defs.{Text, codes}

-- The checked loop over the digits: `n` is read, and `top` is the greatest value of the type.
read_digits : ℕ → ℕ → Text → Option ℕ
read_digits top n [] = some n
read_digits top n (c ∷ s) =
    let m = n * 10 + (c - b'0') in
    let rest = read_digits top m s in if leb b'0' c && leb c b'9' && leb m top then rest else none

-- `s.parse()` at an unsigned type with greatest value `top`.
unfoldable pub parse_uint : ℕ → Text → Option ℕ
unfolding read_digits
parse_uint top [] = none
parse_uint top (c ∷ []) = read_digits top 0 (c ∷ [])
parse_uint top (c ∷ d ∷ s) = read_digits top 0 (if c == b'+' then d ∷ s else c ∷ d ∷ s)

-- `s.parse::<i32>()`; the result is the two's complement pattern, below 2 ^ 32.
unfoldable pub parse_i32 : Text → Option ℕ
unfolding read_digits
parse_i32 [] = none
parse_i32 (c ∷ []) = read_digits (2 ^ 31 - 1) 0 (c ∷ [])
parse_i32 (c ∷ d ∷ s) =
    if c == b'-'
    then Option.map (λ n. (2 ^ 32 - n) % 2 ^ 32) (read_digits (2 ^ 31) 0 (d ∷ s))
    else read_digits (2 ^ 31 - 1) 0 (if c == b'+' then d ∷ s else c ∷ d ∷ s)

-- Prints `n` in front of `out`; more than `n` rounds are never needed.
print_rounds : ℕ → ℕ → Text → Text
print_rounds zero n out = out
print_rounds (suc f) n out =
    let rest = print_rounds f (n / 10) ((b'0' + n % 10) ∷ out) in
    if ltb n 10 then (b'0' + n) ∷ out else rest

-- `n.to_string()`, or `{}` in a format.
unfoldable pub to_string : ℕ → Text
unfolding print_rounds
to_string n = print_rounds (suc n) n []

-- The print of an `i32`, given by its pattern.
unfoldable pub print_i32 : ℕ → Text
unfolding to_string
print_i32 n = if ltb n (2 ^ 31) then to_string n else b'-' ∷ to_string (2 ^ 32 - n)

abbrev pub IsDigit : ℕ → Type 0
IsDigit c = (b'0' ≤ c) × (c ≤ b'9')

print_rounds-digits : (f n : ℕ) (out : Text) → All IsDigit out → All IsDigit (print_rounds f n out)
unfolding print_rounds
print_rounds-digits zero n out h = h
print_rounds-digits (suc f) n out h =
    ground (arith, print_rounds-digits f (n / 10) ((b'0' + n % 10) ∷ out) (omega arith, h))

-- A printed number is made of digits.
pub to_string-digits : (n : ℕ) → All IsDigit (to_string n)
unfolding to_string
to_string-digits n = print_rounds-digits (suc n) n [] tt

print_rounds-length : (f n : ℕ) (out : Text) → length out ≤ length (print_rounds f n out)
unfolding print_rounds
print_rounds-length zero n out = omega arith
print_rounds-length (suc f) n out =
    ground (arith, print_rounds-length f (n / 10) ((b'0' + n % 10) ∷ out))

pub to_string-length : (n : ℕ) → 0 < length (to_string n)
unfolding to_string print_rounds
to_string-length n = ground (arith, print_rounds-length n (n / 10) ((b'0' + n % 10) ∷ []))

read-print :
    (top f n : ℕ) (out : Text)
    → n < f
    → n ≤ top
    → read_digits top 0 (print_rounds f n out) ≡ read_digits top n out
unfolding read_digits print_rounds
read-print top zero n out h k = absurd (omega arith)
read-print top (suc f) n out h k = ground (arith, read-print top f (n / 10) ((b'0' + n % 10) ∷ out))

parse_uint-digits :
    (top : ℕ) (s : Text) → All IsDigit s → 0 < length s → parse_uint top s ≡ read_digits top 0 s
parse_uint-digits top [] h p = absurd (omega arith)
parse_uint-digits top (c ∷ []) h p = unfold parse_uint in refl
parse_uint-digits top (c ∷ d ∷ s) h p = unfold parse_uint in ground arith

-- A number that the type can hold is read back from its print.
pub parse_uint-to_string : (top n : ℕ) → n ≤ top → parse_uint top (to_string n) ≡ some n
parse_uint-to_string top n h =
    parse_uint-digits top (to_string n) (to_string-digits n) (to_string-length n)
    ∙ unfold to_string read_digits in read-print top (suc n) n [] (omega arith) h

abbrev pub usize_max : ℕ
usize_max = 2 ^ 64 - 1

samples :
    (parse_uint usize_max (codes "18446744073709551615") ≡ some usize_max)
    × (parse_uint usize_max (codes "18446744073709551616") ≡ none)
    × (parse_uint usize_max (codes "+7") ≡ some 7)
    × (parse_uint usize_max (codes "+") ≡ none)
    × (parse_i32 (codes "-1") ≡ some (2 ^ 32 - 1))
    × (to_string 1023 ≡ codes "1023")
unfolding parse_uint parse_i32 to_string
samples = (refl, refl, refl, refl, refl, refl)
