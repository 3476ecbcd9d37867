-- ===== src/Base/Text/Words.antt =====
-- `str::split_whitespace`, `str::lines` and `str::strip_prefix`.
use Prim.Native.Nat.{ℕ, zero, suc}
use mathlib.Core.Logic.{◌⊎◌, ◌≢◌, inl, inr}
use native.Mathlib.Omega.{arith}
use mathlib.Core.Path.{◌≡◌, refl, sym, ap, ◌∙◌}
use mathlib.Core.Bool.{Bool, not}
use mathlib.Core.Option.{Option, none, some}
use mathlib.Core.List.{List, [], ◌∷◌, ◌++◌}
use aether_opt_ext.Base.Tests.{if◌then◌else◌, Bool-cases}
use aether_opt_ext.Base.Lists.{length, drop, filter, All}
use aether_opt_ext.Base.Text.Defs.{Text, codes, is_empty, push_head, split, starts_with}
use aether_opt_ext.Base.Text.Laws.{split-append}
use aether_opt_ext.Base.Text.Trim.{width_front, IsPlain, width_front-plain}

-- The parts between white spaces; the number counts the bytes of a white space still to drop.
split_spaces : ℕ → Text → List Text
unfolding width_front
split_spaces k [] = [] ∷ []
split_spaces (suc k) (b ∷ s) = split_spaces k s
split_spaces zero (b ∷ s) = elim (width_front (b ∷ s)) [
  | zero ↦ push_head b (split_spaces zero s)
  | suc k ↦ [] ∷ split_spaces k s
]

unfoldable pub split_whitespace : Text → List Text
unfolding split_spaces
split_whitespace s = filter (λ w. not (is_empty w)) (split_spaces 0 s)

-- `s.split_whitespace().last().unwrap_or("")`
abbrev pub last_or_nil : List Text → Text
last_or_nil [] = []
last_or_nil (w ∷ []) = w
last_or_nil (w ∷ v ∷ ws) = last_or_nil (v ∷ ws)

-- `s.strip_prefix(p)`
unfoldable pub strip_prefix : Text → Text → Option Text
unfolding starts_with
strip_prefix s p = if starts_with s p then some (drop (length p) s) else none

-- The part behind the last line feed is a line only if it has a byte.
drop_last_empty : List Text → List Text
drop_last_empty [] = []
drop_last_empty (l ∷ []) = if is_empty l then [] else l ∷ []
drop_last_empty (l ∷ k ∷ ls) = l ∷ drop_last_empty (k ∷ ls)

-- `s.lines()`, with the carriage return of a line kept: the program trims every line.
unfoldable pub lines : Text → List Text
unfolding drop_last_empty split
lines s = drop_last_empty (split 10 s)

-- `s.split(p)` for a test of ASCII characters.
unfoldable pub split_by : (ℕ → Bool) → Text → List Text
split_by p [] = [] ∷ []
split_by p (b ∷ s) = let r = split_by p s in if p b then [] ∷ r else push_head b r

-- `parts.join(c)` for one character.
unfoldable pub join : ℕ → List Text → Text
join c [] = []
join c (s ∷ []) = s
join c (s ∷ t ∷ ts) = s ++ c ∷ join c (t ∷ ts)

samples :
    (split_whitespace (codes " 4 5  6 ") ≡ codes "4" ∷ codes "5" ∷ codes "6" ∷ [])
    × (strip_prefix (codes "field:int") (codes "field:") ≡ some (codes "int"))
    × (lines (codes "ab") ≡ codes "ab" ∷ [])
unfolding split_whitespace strip_prefix lines split
samples = (refl, refl, refl)

-- The bytes of words and blanks.
abbrev pub IsWordByte : ℕ → Type 0
IsWordByte b = IsPlain b ⊎ (b ≡ 32)

width_front-blank : (s : Text) → width_front (32 ∷ s) ≡ 1
unfolding width_front
width_front-blank [] = refl
width_front-blank (b ∷ []) = refl
width_front-blank (b ∷ c ∷ s) = refl

split_spaces-word :
    (b : ℕ) (s : Text) → IsPlain b → split_spaces 0 (b ∷ s) ≡ push_head b (split_spaces 0 s)
unfolding split_spaces
split_spaces-word b s h = rw (width_front-plain b s h, split_spaces)

split_spaces-blank : (b : ℕ) (s : Text) → b ≡ 32 → split_spaces 0 (b ∷ s) ≡ [] ∷ split_spaces 0 s
unfolding split_spaces
split_spaces-blank b s h =
    let one : width_front (b ∷ s) ≡ 1 = ap (λ c. width_front (c ∷ s)) h ∙ width_front-blank s in
    rw (one, split_spaces)

split_spaces-plain : (w : Text) → All IsPlain w → split_spaces 0 w ≡ w ∷ []
split_spaces-plain [] h = unfold split_spaces in refl
split_spaces-plain (b ∷ w) (hb, h) =
    split_spaces-word b w hb ∙ ap (λ ps. push_head b ps) (split_spaces-plain w h)

abbrev NonEmpty : List Text → Type 0
NonEmpty ps = (p : Text) × (qs : List Text) × (ps ≡ p ∷ qs)

push_head-NonEmpty : (b : ℕ) (ps : List Text) → NonEmpty (push_head b ps)
push_head-NonEmpty b [] = (b ∷ [], [], refl)
push_head-NonEmpty b (p ∷ ps) = (b ∷ p, ps, refl)

split_spaces-NonEmpty : (s : Text) → All IsWordByte s → NonEmpty (split_spaces 0 s)
split_spaces-NonEmpty [] h = ([], [], unfold split_spaces in refl)
split_spaces-NonEmpty (b ∷ s) (inl plain, h) =
    let (p, qs, e) = push_head-NonEmpty b (split_spaces 0 s) in
    (p, qs, split_spaces-word b s plain ∙ e)
split_spaces-NonEmpty (b ∷ s) (inr blank, h) = ([], split_spaces 0 s, split_spaces-blank b s blank)

push_head-append :
    (b : ℕ) (ps qs : List Text) → NonEmpty ps → push_head b (ps ++ qs) ≡ push_head b ps ++ qs
push_head-append b [] qs (p, rs, e) = absurd (ground arith)
push_head-append b (p ∷ ps) qs h = refl

split_spaces-append :
    (s w : Text)
    → All IsWordByte s
    → All IsPlain w
    → split_spaces 0 (s ++ 32 ∷ w) ≡ split_spaces 0 s ++ w ∷ []
split_spaces-append [] w h p =
    split_spaces-blank 32 w refl
    ∙ ap (λ ps. [] ∷ ps) (split_spaces-plain w p)
    ∙ unfold split_spaces in refl
split_spaces-append (b ∷ s) w (inl plain, h) p =
    split_spaces-word b (s ++ 32 ∷ w) plain
    ∙ (ap (λ ps. push_head b ps) (split_spaces-append s w h p)
        ∙ (push_head-append b (split_spaces 0 s) (w ∷ []) (split_spaces-NonEmpty s h)
            ∙ ap (λ ps. ps ++ w ∷ []) (sym (split_spaces-word b s plain))))
split_spaces-append (b ∷ s) w (inr blank, h) p =
    split_spaces-blank b (s ++ 32 ∷ w) blank
    ∙ (ap (λ ps. [] ∷ ps) (split_spaces-append s w h p)
        ∙ ap (λ ps. ps ++ w ∷ []) (sym (split_spaces-blank b s blank)))

last-append : (ps : List Text) (w : Text) → last_or_nil (ps ++ w ∷ []) ≡ w
last-append [] w = refl
last-append (p ∷ []) w = refl
last-append (p ∷ q ∷ ps) w = last-append (q ∷ ps) w

filter-append :
    (p : Text → Bool) (xs ys : List Text) → filter p (xs ++ ys) ≡ filter p xs ++ filter p ys
filter-append p [] ys = refl
filter-append p (x ∷ xs) ys = elim (Bool-cases (p x)) [
  | inl keep ↦ rw (keep, filter-append p xs ys)
  | inr drops ↦ rw (drops, filter-append p xs ys)
]

last-filter :
    (ps : List Text) (b : ℕ) (w : Text)
    → last_or_nil (filter (λ v. not (is_empty v)) (ps ++ (b ∷ w) ∷ [])) ≡ b ∷ w
last-filter ps b w =
    ap last_or_nil (filter-append (λ v. not (is_empty v)) ps ((b ∷ w) ∷ []))
    ∙ last-append (filter (λ v. not (is_empty v)) ps) (b ∷ w)

-- The last word of a text that ends with one behind a blank.
pub split_whitespace-last :
    (s : Text) (b : ℕ) (w : Text)
    → All IsWordByte s
    → All IsPlain (b ∷ w)
    → last_or_nil (split_whitespace (s ++ 32 ∷ b ∷ w)) ≡ b ∷ w
unfolding split_whitespace
split_whitespace-last s b w h p =
    rw (split_spaces-append s (b ∷ w) h p) (last-filter (split_spaces 0 s) b w)

-- Lines with a line feed behind each.
abbrev pub lines_text : List Text → Text
lines_text [] = []
lines_text (l ∷ ls) = l ++ 10 ∷ lines_text ls

split-lines_text :
    (ls : List Text) → All (λ l. All (λ b. b ≢ 10) l) ls → split 10 (lines_text ls) ≡ ls ++ [] ∷ []
split-lines_text [] h = unfold split in refl
split-lines_text (l ∷ ls) (hl, h) =
    split-append 10 l (lines_text ls) hl ∙ ap (λ ps. l ∷ ps) (split-lines_text ls h)

drop_last-append : (ls : List Text) → drop_last_empty (ls ++ [] ∷ []) ≡ ls
unfolding drop_last_empty
drop_last-append [] = refl
drop_last-append (l ∷ []) = refl
drop_last-append (l ∷ k ∷ ls) = ap (λ ps. l ∷ ps) (drop_last-append (k ∷ ls))

-- Lines without a line feed in them are read back.
pub lines-lines_text :
    (ls : List Text) → All (λ l. All (λ b. b ≢ 10) l) ls → lines (lines_text ls) ≡ ls
unfolding lines
lines-lines_text ls h = ap drop_last_empty (split-lines_text ls h) ∙ drop_last-append ls
