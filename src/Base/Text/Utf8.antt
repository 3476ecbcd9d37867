-- ===== src/Base/Text/Utf8.antt =====
-- `std::str::from_utf8`: which bytes are UTF-8.
use Prim.Native.Nat.{ℕ, zero, suc}
use mathlib.Core.Path.{◌≡◌, refl}
use mathlib.Core.Bool.{Bool, true, false, ◌&&◌}
use mathlib.Core.List.{[], ◌∷◌}
use aether_opt_ext.Base.Tests.{leb, ltb, ◌==◌, if◌then◌else◌}
use aether_opt_ext.Base.Text.Defs.{Text, codes}

-- How many bytes follow a leading byte, 4 if none begins with it; and the range of the second.
followers : ℕ → ℕ
followers b =
    if ltb b 0x80
    then 0
    else if leb 0xc2 b && leb b 0xdf
    then 1
    else if leb 0xe0 b && leb b 0xef
    then 2
    else if leb 0xf0 b && leb b 0xf4
    then 3
    else 4

second_low : ℕ → ℕ
second_low b = if b == 0xe0 then 0xa0 else if b == 0xf0 then 0x90 else 0x80

second_high : ℕ → ℕ
second_high b = if b == 0xed then 0x9f else if b == 0xf4 then 0x8f else 0xbf

-- `left` bytes of a character are to come, the next of them from `low` to `high`.
utf8_from : ℕ → ℕ → ℕ → Text → Bool
utf8_from zero low high [] = true
utf8_from (suc left) low high [] = false
utf8_from zero low high (b ∷ s) =
    let rest = utf8_from (followers b) (second_low b) (second_high b) s in
    ltb (followers b) 4 && rest
utf8_from (suc left) low high (b ∷ s) = leb low b && leb b high && utf8_from left 0x80 0xbf s

unfoldable pub is_utf8 : Text → Bool
unfolding utf8_from followers second_low second_high
is_utf8 s = utf8_from 0 0 0 s

samples :
    (is_utf8 (codes "UnityMain") ≡ true)
    × (is_utf8 (0xe4 ∷ 0xb8 ∷ 0xad ∷ []) ≡ true)
    × (is_utf8 (0xe4 ∷ 0xb8 ∷ []) ≡ false)
    × (is_utf8 (0xed ∷ 0xa0 ∷ 0x80 ∷ []) ≡ false)
unfolding is_utf8
samples = (refl, refl, refl, refl)
