-- ===== src/Base/Text/Laws.antt =====
-- What the searches of `str` find.
use Prim.Native.Nat.{ℕ, zero, suc, ◌-◌, ◌+◌}
use mathlib.Core.Path.{◌≡◌, refl, ap, sym, ◌∙◌}
use mathlib.Core.Logic.{◌↔◌, ◌≢◌}
use mathlib.Core.Bool.{true}
use mathlib.Core.Option.{none, some}
use mathlib.Core.List.{[], ◌∷◌, ◌++◌}
use native.Mathlib.Omega.{arith}
use aether_opt_ext.Base.Lists.{
  length, drop, take, All, length-append, drop-append, take-append-drop,
}
use aether_opt_ext.Base.Text.Defs.{Text, text_eq, starts_with, ends_with, find, split}

pub text_eq→eq : (s t : Text) → text_eq s t ≡ true → s ≡ t
unfolding text_eq
text_eq→eq [] [] h = refl
text_eq→eq [] (b ∷ t) h = cc
text_eq→eq (a ∷ s) [] h = cc
text_eq→eq (a ∷ s) (b ∷ t) h = ground (arith, text_eq→eq s t)

pub text_eq_refl : (s : Text) → text_eq s s ≡ true
unfolding text_eq
text_eq_refl [] = refl
text_eq_refl (a ∷ s) = ground (arith, text_eq_refl s)

pub text_eq_iff : (s t : Text) → (text_eq s t ≡ true) ↔ (s ≡ t)
text_eq_iff s t = (text_eq→eq s t, λ e. ap (λ (x : Text). text_eq s x) (sym e) ∙ text_eq_refl s)

pub starts_with-append : (p m : Text) → starts_with (p ++ m) p ≡ true
unfolding starts_with
starts_with-append [] m = refl
starts_with-append (b ∷ p) m = ground (arith, starts_with-append p m)

-- A prefix is cut off by `drop`.
pub starts_with→eq : (s p : Text) → starts_with s p ≡ true → s ≡ p ++ drop (length p) s
unfolding starts_with
starts_with→eq s [] h = refl
starts_with→eq [] (b ∷ p) h = cc
starts_with→eq (a ∷ s) (b ∷ p) h = ground (arith, starts_with→eq s p)

-- A suffix stands behind what `take` leaves.
pub ends_with→eq : (s p : Text) → ends_with s p ≡ true → s ≡ take (length s - length p) s ++ p
unfolding ends_with
ends_with→eq s p h =
    let k : ℕ = length s - length p in
    sym (take-append-drop k s) ∙ ap (λ t. take k s ++ t) (text_eq→eq (drop k s) p (ground arith))

drop-length_sub : (m p : Text) → drop (length (m ++ p) - length p) (m ++ p) ≡ p
drop-length_sub m p =
    let k : length (m ++ p) - length p ≡ length m = omega (arith, length-append m p) in
    ap (λ (n : ℕ). drop n (m ++ p)) k ∙ drop-append m p

pub ends_with-append : (m p : Text) → ends_with (m ++ p) p ≡ true
unfolding ends_with
ends_with-append m p = rw (drop-length_sub m p) (ground (arith, text_eq_refl p, length-append m p))

-- `find` returns the place of the first occurrence.
pub find-append : (c : ℕ) (s r : Text) → All (λ b. b ≢ c) s → find c (s ++ c ∷ r) ≡ some (length s)
unfolding find
find-append c [] r h = ground arith
find-append c (b ∷ s) r (ne, h) = ground (arith, find-append c s r h)

pub find-none : (c : ℕ) (s : Text) → All (λ b. b ≢ c) s → find c s ≡ none
unfolding find
find-none c [] h = refl
find-none c (b ∷ s) (ne, h) = ground (arith, find-none c s h)

pub find→parts :
    (c : ℕ) (s : Text) {n : ℕ}
    → find c s ≡ some n
    → (s ≡ take n s ++ c ∷ drop (suc n) s) × All (λ b. b ≢ c) (take n s) × (length (take n s) ≡ n)
unfolding find
find→parts c [] h = absurd (ground arith)
find→parts c (b ∷ s) {n = zero} h = (ground arith, tt, refl)
find→parts c (b ∷ s) {n = suc n} h =
    let at : find c s ≡ some n = ground arith in
    let (e, lacks, len) = find→parts c s at in
    (ap (λ t. b ∷ t) e, (ground arith, lacks), ap suc len)

pub find-none→lacks : (c : ℕ) (s : Text) → find c s ≡ none → All (λ b. b ≢ c) s
unfolding find
find-none→lacks c [] h = tt
find-none→lacks c (b ∷ s) h = (ground arith, find-none→lacks c s (ground arith))

pub split-lacks : (c : ℕ) (s : Text) → All (λ b. b ≢ c) s → split c s ≡ s ∷ []
unfolding split
split-lacks c [] h = refl
split-lacks c (b ∷ s) (ne, h) = rw (split-lacks c s h) (ground arith)

-- `split` cuts at each separator.
pub split-append : (c : ℕ) (s r : Text) → All (λ b. b ≢ c) s → split c (s ++ c ∷ r) ≡ s ∷ split c r
unfolding split
split-append c [] r h = ground arith
split-append c (b ∷ s) r (ne, h) = rw (split-append c s r h) (ground arith)

-- What stands behind the byte at the end of a prefix.
pub drop-length_suc : (s : Text) (b : ℕ) (t : Text) → drop (length s + 1) (s ++ b ∷ t) ≡ t
drop-length_suc [] b t = refl
drop-length_suc (a ∷ s) b t =
    let n : suc (length s) + 1 ≡ suc (length s + 1) = omega arith in rw n (drop-length_suc s b t)
