-- ===== src/CpuRange/Ranges.antt =====
-- Ranges of CPUs and their text, and the printer's state when some ranges are written.
use aether_opt_ext.Base.{
  ℕ, ◌+◌, ◌≤◌, ◌<◌, ◌≡◌, refl, ap, sym, ◌∙◌, Bool, false, ◌||◌, Option, none, some, List, [], ◌∷◌,
  ◌++◌, append_assoc, arith, ◌==◌, if◌then◌else◌, any, Bool-cases, inl, inr,
}
use aether_opt_ext.Base.Text.{Text, is_empty, to_string}
use aether_opt_ext.CpuSet.{cpu_setsize}
use aether_opt_ext.CpuRange.{Printer, push_range, print_cpu, write_range}
use aether_opt_ext.CpuRange.Parse.{within}

-- A range as it is written, and ranges behind one another with commas.
unfoldable pub range_text : ℕ × ℕ → Text
range_text (lo, hi) = if lo == hi then to_string lo else to_string lo ++ b'-' ∷ to_string hi

unfoldable pub ranges_text : List (ℕ × ℕ) → Text
ranges_text [] = []
ranges_text (r ∷ []) = range_text r
ranges_text (r ∷ q ∷ rs) = range_text r ++ b',' ∷ ranges_text (q ∷ rs)

abbrev pub in_range : ℕ → ℕ × ℕ → Bool
in_range j (lo, hi) = within lo hi j

abbrev pub in_ranges : ℕ → List (ℕ × ℕ) → Bool
in_ranges j rs = any (in_range j) rs

abbrev pub ValidRange : ℕ × ℕ → Type 0
ValidRange (lo, hi) = (lo ≤ hi) × (hi < cpu_setsize)

ranges_text-snoc :
    (rs : List (ℕ × ℕ)) (r : ℕ × ℕ)
    → ranges_text (rs ++ r ∷ [])
      ≡ (if is_empty rs then [] else ranges_text rs ++ b',' ∷ []) ++ range_text r
unfolding ranges_text
ranges_text-snoc [] r = refl
ranges_text-snoc (q ∷ []) r = rw append_assoc
ranges_text-snoc (q ∷ q' ∷ rs) r =
    let rest : ranges_text (q' ∷ (rs ++ r ∷ []))
        ≡ (ranges_text (q' ∷ rs) ++ b',' ∷ []) ++ range_text r =
      ranges_text-snoc (q' ∷ rs) r in
    simp (rest, append_assoc)

pub any-append :
    (j : ℕ) (rs qs : List (ℕ × ℕ)) → in_ranges j (rs ++ qs) ≡ (in_ranges j rs || in_ranges j qs)
any-append j [] qs = refl
any-append j (r ∷ rs) qs = ground (arith, any-append j rs qs)

-- The range that the loop has begun and not yet written.
abbrev pub opened : Option (ℕ × ℕ) → List (ℕ × ℕ)
opened none = []
opened (some r) = r ∷ []

abbrev lower : Option (ℕ × ℕ) → Option ℕ
lower none = none
lower (some (lo, hi)) = some lo

abbrev upper : Option (ℕ × ℕ) → Option ℕ
upper none = none
upper (some (lo, hi)) = some hi

-- The loop's variables when `rs` are written and `o` is open.
abbrev pub shown : List (ℕ × ℕ) → Option (ℕ × ℕ) → Printer
shown rs o = record { result = ranges_text rs; start = lower o; end = upper o; first = is_empty rs }

is_empty-snoc : (rs : List (ℕ × ℕ)) (r : ℕ × ℕ) → is_empty (rs ++ r ∷ []) ≡ false
is_empty-snoc [] r = refl
is_empty-snoc (q ∷ rs) r = refl

after_comma :
    (rs : List (ℕ × ℕ))
    → (if is_empty rs then ranges_text rs else ranges_text rs ++ b',' ∷ [])
      ≡ (if is_empty rs then [] else ranges_text rs ++ b',' ∷ [])
unfolding ranges_text
after_comma [] = refl
after_comma (r ∷ rs) = refl

write_range-range_text : (s : Text) (lo hi : ℕ) → write_range s lo hi ≡ s ++ range_text (lo, hi)
unfolding range_text
write_range-range_text s lo hi = ground arith

module _ (rs : List (ℕ × ℕ)) (lo hi : ℕ) where
  pub push_range-result :
      (push_range (shown rs (some (lo, hi)))).result ≡ ranges_text (rs ++ (lo, hi) ∷ [])
  unfolding push_range
  push_range-result =
      write_range-range_text _ lo hi
      ∙ (ap (λ t. t ++ range_text (lo, hi)) (after_comma rs) ∙ sym (ranges_text-snoc rs (lo, hi)))

  push_range-first : (push_range (shown rs (some (lo, hi)))).first ≡ is_empty (rs ++ (lo, hi) ∷ [])
  unfolding push_range
  push_range-first = sym (is_empty-snoc rs (lo, hi))

  pub push_range-shown :
      (o : Option (ℕ × ℕ))
      → record (push_range (shown rs (some (lo, hi)))) { start = lower o; end = upper o }
        ≡ shown (rs ++ (lo, hi) ∷ []) o
  push_range-shown o = λ i. record {
    result = push_range-result i;
    start = lower o;
    end = upper o;
    first = push_range-first i;
  }

  pub print_cpu-shown :
      (n : ℕ)
      → print_cpu n (shown rs (some (lo, hi))) ≡ (
          if n == hi + 1
          then shown rs (some (lo, n))
          else shown (rs ++ (lo, hi) ∷ []) (some (n, n)))
  unfolding print_cpu
  print_cpu-shown n = elim (Bool-cases (n == hi + 1)) [
    | inl next ↦ rw (next, print_cpu)
    | inr gap ↦ rw (gap, print_cpu) (push_range-shown (some (n, n)))
  ]
