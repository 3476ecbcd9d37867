-- ===== src/Base/Text/Defs.antt =====
-- Equality, prefixes, suffixes, searches and `split` of `str`.
use Prim.Native.Nat.{ℕ, suc, ◌-◌}
use Prim.Native.Char.{code}
use Prim.Native.String.{String}
use mathlib.Core.Bool.{Bool, true, false, ◌&&◌, ◌||◌}
use mathlib.Core.Option.{Option, none, some}
use mathlib.Core.Option
use mathlib.Core.List.{List, [], ◌∷◌, reverse}
use aether_opt_ext.Base.Tests.{leb, ◌==◌, if◌then◌else◌}
use aether_opt_ext.Base.Lists.{length, drop, any}

abbrev pub Text : Type 0
Text = List ℕ

-- The bytes of an ASCII literal.
abbrev pub codes : String → Text
codes String.[] = []
codes (String.◌∷◌ c s) = code c ∷ codes s

abbrev pub is_empty {ℓ} : {A : Type ℓ} → List A → Bool
is_empty [] = true
is_empty (b ∷ s) = false

unfoldable pub text_eq : Text → Text → Bool
text_eq [] [] = true
text_eq (a ∷ s) (b ∷ t) = a == b && text_eq s t
text_eq _ _ = false

unfoldable pub starts_with : Text → Text → Bool
starts_with s [] = true
starts_with [] (b ∷ p) = false
starts_with (a ∷ s) (b ∷ p) = a == b && starts_with s p

unfoldable pub ends_with : Text → Text → Bool
unfolding text_eq
ends_with s p = leb (length p) (length s) && text_eq (drop (length s - length p) s) p

-- `s.find(c)` for an ASCII character.
unfoldable pub find : ℕ → Text → Option ℕ
find c [] = none
find c (b ∷ s) = if b == c then some 0 else Option.map suc (find c s)

-- `s.contains(c)` for an ASCII character.
abbrev pub contains_char : ℕ → Text → Bool
contains_char c s = any (λ b. b == c) s

-- `s.contains(p)` for a text.
unfoldable pub contains : Text → Text → Bool
unfolding starts_with
contains [] p = starts_with [] p
contains (b ∷ s) p = starts_with (b ∷ s) p || contains s p

abbrev pub push_head : ℕ → List Text → List Text
push_head b [] = (b ∷ []) ∷ []
push_head b (s ∷ r) = (b ∷ s) ∷ r

-- `s.split(c)` for an ASCII character; there is always a first part.
unfoldable pub split : ℕ → Text → List Text
split c [] = [] ∷ []
split c (b ∷ s) = let r = split c s in if b == c then [] ∷ r else push_head b r

abbrev pub head_or_nil : List Text → Text
head_or_nil [] = []
head_or_nil (s ∷ r) = s

-- `s.split(c).next().unwrap_or("")`
abbrev pub first_part : ℕ → Text → Text
first_part c s = head_or_nil (split c s)

abbrev pub drop_while_eq : ℕ → Text → Text
drop_while_eq c [] = []
drop_while_eq c (b ∷ s) = let rest = drop_while_eq c s in if b == c then rest else b ∷ s

-- `s.trim_end_matches(c)`
unfoldable pub trim_end_matches : ℕ → Text → Text
trim_end_matches c s = reverse (drop_while_eq c (reverse s))
