-- ===== src/Base/Text/Trim.antt =====
-- `str::trim`: white space by Unicode, as it is encoded in UTF-8.
use Prim.Native.Nat.{ℕ, zero, suc, ◌≤◌, ◌<◌}
use mathlib.Core.Path.{◌≡◌, refl, sym, ap, ◌∙◌}
use mathlib.Core.Bool.{Bool, ◌&&◌, ◌||◌}
use mathlib.Core.List.{[], ◌∷◌, ◌++◌, reverse, reverse-reverse, reverse-append}
use native.Mathlib.Omega.{arith}
use aether_opt_ext.Base.Tests.{leb, ◌==◌, if◌then◌else◌}
use aether_opt_ext.Base.Lists.{All, All-append}
use aether_opt_ext.Base.Text.Defs.{Text}

is_space : ℕ → Bool
is_space a = leb 9 a && leb a 13 || a == 32

-- U+0085 and U+00A0.
is_space2 : ℕ → ℕ → Bool
is_space2 a b = a == 0xc2 && (b == 0x85 || b == 0xa0)

-- U+1680, U+2000 to U+200A, U+2028, U+2029, U+202F, U+205F and U+3000.
is_space3 : ℕ → ℕ → ℕ → Bool
is_space3 a b c =
    a == 0xe1 && b == 0x9a && c == 0x80
    || a == 0xe2 && b == 0x80 && (leb 0x80 c && leb c 0x8a || c == 0xa8 || c == 0xa9 || c == 0xaf)
    || a == 0xe2 && b == 0x81 && c == 0x9f
    || a == 0xe3 && b == 0x80 && c == 0x80

-- How many bytes the white space at the front takes, 0 if none stands there.
unfoldable pub width_front : Text → ℕ
unfolding is_space is_space2 is_space3
width_front [] = 0
width_front (a ∷ []) = if is_space a then 1 else 0
width_front (a ∷ b ∷ []) = if is_space a then 1 else if is_space2 a b then 2 else 0
width_front (a ∷ b ∷ c ∷ s) =
    if is_space a then 1 else if is_space2 a b then 2 else if is_space3 a b c then 3 else 0

-- The same at the back of a text, which is given reversed.
width_back : Text → ℕ
unfolding is_space is_space2 is_space3
width_back [] = 0
width_back (c ∷ []) = if is_space c then 1 else 0
width_back (c ∷ b ∷ []) = if is_space c then 1 else if is_space2 b c then 2 else 0
width_back (c ∷ b ∷ a ∷ s) =
    if is_space c then 1 else if is_space2 b c then 2 else if is_space3 a b c then 3 else 0

-- Drops white space from the front; the number counts the bytes of a character still to drop.
trim_front : (Text → ℕ) → ℕ → Text → Text
trim_front width k [] = []
trim_front width (suc k) (b ∷ s) = trim_front width k s
trim_front width zero (b ∷ s) = elim (width (b ∷ s)) [ zero ↦ b ∷ s | suc k ↦ trim_front width k s ]

unfoldable pub trim_start : Text → Text
unfolding trim_front width_front
trim_start s = trim_front width_front 0 s

unfoldable pub trim : Text → Text
unfolding trim_start trim_front width_back
trim s = reverse (trim_front width_back 0 (reverse (trim_start s)))

-- The bytes before the first white space, and those from there on.
word_front : Text → Text
unfolding width_front
word_front [] = []
word_front (b ∷ s) = let rest = word_front s in if width_front (b ∷ s) == 0 then b ∷ rest else []

word_back : Text → Text
unfolding width_front
word_back [] = []
word_back (b ∷ s) = let rest = word_back s in if width_front (b ∷ s) == 0 then rest else b ∷ s

-- `s.split_whitespace().nth(1)`, empty if there is no second word.
unfoldable pub second_word : Text → Text
unfolding word_front word_back
second_word s = word_front (trim_start (word_back (trim_start s)))

-- A printable ASCII byte other than the blank.
abbrev pub IsPlain : ℕ → Type 0
IsPlain b = (33 ≤ b) × (b < 128)

pub width_front-plain : (b : ℕ) (s : Text) → IsPlain b → width_front (b ∷ s) ≡ 0
unfolding width_front
width_front-plain b [] h = ground arith
width_front-plain b (c ∷ []) h = ground arith
width_front-plain b (c ∷ d ∷ s) h = ground arith

width_back-plain : (b : ℕ) (s : Text) → All IsPlain (b ∷ s) → width_back (b ∷ s) ≡ 0
unfolding width_back
width_back-plain b [] h = ground arith
width_back-plain b (c ∷ []) h = ground arith
width_back-plain b (c ∷ d ∷ s) h = ground arith

trim_front-stop :
    (width : Text → ℕ) (b : ℕ) (s : Text) → width (b ∷ s) ≡ 0 → trim_front width 0 (b ∷ s) ≡ b ∷ s
unfolding trim_front
trim_front-stop width b s h = rw (h, trim_front)

All-reverse : (s : Text) → All IsPlain s → All IsPlain (reverse s)
All-reverse [] h = tt
All-reverse (b ∷ s) (hb, h) =
    rw (reverse-append (b ∷ []) s)
      (All-append IsPlain (reverse s) (b ∷ []) (All-reverse s h) (hb, tt))

trim_front-plain : (s : Text) → All IsPlain s → trim_front width_front 0 s ≡ s
trim_front-plain [] h = unfold trim_front in refl
trim_front-plain (b ∷ s) (hb, h) = trim_front-stop width_front b s (width_front-plain b s hb)

trim_back-plain : (s : Text) → All IsPlain s → trim_front width_back 0 s ≡ s
trim_back-plain [] h = unfold trim_front in refl
trim_back-plain (b ∷ s) h = trim_front-stop width_back b s (width_back-plain b s h)

-- A text of plain bytes is not changed.
pub trim-plain : (s : Text) → All IsPlain s → trim s ≡ s
unfolding trim
trim-plain s h =
    rw (trim_front-plain s h)
      (rw (trim_back-plain (reverse s) (All-reverse s h)) (reverse-reverse s))

width_front-tab : (s : Text) → width_front (9 ∷ s) ≡ 1
unfolding width_front
width_front-tab [] = refl
width_front-tab (b ∷ []) = refl
width_front-tab (b ∷ c ∷ s) = refl

-- A text that begins and ends with plain bytes is not changed, whatever stands between them.
width_back-last : (c : ℕ) (s : Text) → IsPlain c → width_back (c ∷ s) ≡ 0
unfolding width_back
width_back-last c [] h = ground arith
width_back-last c (b ∷ []) h = ground arith
width_back-last c (b ∷ a ∷ s) h = ground arith

pub trim-framed :
    (a : ℕ) (s : Text) (c : ℕ) → IsPlain a → IsPlain c → trim (a ∷ s ++ c ∷ []) ≡ a ∷ s ++ c ∷ []
unfolding trim trim_start
trim-framed a s c ha hc =
    rw (trim_front-stop width_front a (s ++ c ∷ []) (width_front-plain a (s ++ c ∷ []) ha)) (
      rw (reverse-append (a ∷ s) (c ∷ [])) (
        rw (trim_front-stop width_back c (reverse (a ∷ s)) (width_back-last c (reverse (a ∷ s)) hc))
          (ap reverse (sym (reverse-append (a ∷ s) (c ∷ []))) ∙ reverse-reverse (a ∷ s ++ c ∷ []))))

tab_dropped : (s : Text) → trim_front width_front 0 (9 ∷ s) ≡ trim_front width_front 0 s
unfolding trim_front
tab_dropped s = rw (width_front-tab s, trim_front)

-- A tab at the front is dropped.
pub trim-tab : (s : Text) → trim (9 ∷ s) ≡ trim s
unfolding trim trim_start
trim-tab s = ap (λ t. reverse (trim_front width_back 0 (reverse t))) (tab_dropped s)

pub trim_start-plain : (a : ℕ) (s : Text) → IsPlain a → trim_start (a ∷ s) ≡ a ∷ s
unfolding trim_start
trim_start-plain a s h = trim_front-stop width_front a s (width_front-plain a s h)
