-- ===== src/CpuRange/Cover.antt =====
-- The printer's ranges against the CPUs of the set that it has passed.
use aether_opt_ext.Base.{
  ℕ, ◌+◌, ◌≤◌, ◌<◌, ◌≡◌, refl, Bool, true, false, ◌&&◌, ◌||◌, Option, none, some, List, [], ◌∷◌,
  ◌++◌, arith, ltb, ◌==◌, All, All-append, Bool-cases, inl, inr,
}
use aether_opt_ext.CpuSet.{cpu_setsize}
use aether_opt_ext.CpuRange.{Printer, print_cpu}
use aether_opt_ext.CpuRange.Parse.{within}
use aether_opt_ext.CpuRange.Ranges.{
  in_ranges, ValidRange, any-append, opened, shown, print_cpu-shown,
}

-- The ranges `rs` and the open one are valid, and hold the CPUs that pass `p` and are below `n`.
pub record IsCover (p : ℕ → Bool) (n : ℕ) (rs : List (ℕ × ℕ)) (o : Option (ℕ × ℕ)) : Type 0 where
  pub valid_rs : All ValidRange rs
  pub valid_open : All ValidRange (opened o)
  pub covers : (j : ℕ) → (in_ranges j rs || in_ranges j (opened o)) ≡ (ltb j n && p j)

-- A state that the loop can be in after the CPUs below `n`.
abbrev pub Shows : (ℕ → Bool) → ℕ → Printer → Type 0
Shows p n st = (rs : List (ℕ × ℕ)) × (o : Option (ℕ × ℕ)) × IsCover p n rs o × (st ≡ shown rs o)

add_member :
    (p : ℕ → Bool) (n j : ℕ)
    → p n ≡ true
    → (ltb j (n + 1) && p j) ≡ (ltb j n && p j || within n n j)
add_member p n j e = elim (Bool-cases (j == n)) [
  | inl same ↦ let at : j ≡ n = ground arith in rw (at, e) (ground arith)
  | inr other ↦ ground arith
]

IsCover-open :
    (p : ℕ → Bool) (n : ℕ) (rs : List (ℕ × ℕ))
    → n < cpu_setsize
    → p n ≡ true
    → IsCover p n rs none
    → IsCover p (n + 1) rs (some (n, n))
IsCover-open p n rs k e h = record {
  valid_rs = h.valid_rs;
  valid_open = omega arith;
  covers = λ j. ground (arith, h.covers j, add_member p n j e);
}

IsCover-extend :
    (p : ℕ → Bool) (n : ℕ) (rs : List (ℕ × ℕ)) (lo hi : ℕ)
    → n < cpu_setsize
    → p n ≡ true
    → n ≡ hi + 1
    → IsCover p n rs (some (lo, hi))
    → IsCover p (n + 1) rs (some (lo, n))
IsCover-extend p n rs lo hi k e next h = record {
  valid_rs = h.valid_rs;
  valid_open = let v = h.valid_open in omega (arith, v.0.0);
  covers = λ j. let v = h.valid_open in ground (arith, h.covers j, add_member p n j e);
}

pub IsCover-close :
    (p : ℕ → Bool) (n : ℕ) (rs : List (ℕ × ℕ)) (r : ℕ × ℕ)
    → IsCover p n rs (some r)
    → IsCover p n (rs ++ r ∷ []) none
IsCover-close p n rs r h = record {
  valid_rs = All-append ValidRange rs (r ∷ []) h.valid_rs h.valid_open;
  valid_open = tt;
  covers = λ j. ground (arith, any-append j rs (r ∷ []), h.covers j);
}

pub print_cpu-Shows :
    (p : ℕ → Bool) (n : ℕ) (st : Printer)
    → n < cpu_setsize
    → p n ≡ true
    → Shows p n st
    → Shows p (n + 1) (print_cpu n st)
print_cpu-Shows p n st k e (rs, none, h, at) =
    (rs, some (n, n), IsCover-open p n rs k e h, rw at (unfold print_cpu in refl))
print_cpu-Shows p n st k e (rs, some (lo, hi), h, at) = elim (Bool-cases (n == hi + 1)) [
  | inl next ↦ (
    rs,
    some (lo, n),
    IsCover-extend p n rs lo hi k e (ground arith) h,
    rw (at, print_cpu-shown rs lo hi n, next),
  )
  | inr gap ↦ (
    rs ++ (lo, hi) ∷ [],
    some (n, n),
    IsCover-open p n _ k e (IsCover-close p n rs (lo, hi) h),
    rw (at, print_cpu-shown rs lo hi n, gap),
  )
]

-- Non-members change nothing.
pub Shows-skip :
    (p : ℕ → Bool) (n m : ℕ) (st : Printer)
    → n ≤ m
    → ((j : ℕ) → n ≤ j → j < m → p j ≡ false)
    → Shows p n st
    → Shows p m st
Shows-skip p n m st k out (rs, o, h, at) = (
  rs,
  o,
  record {
    valid_rs = h.valid_rs;
    valid_open = h.valid_open;
    covers = λ j. ground (arith, h.covers j, out j);
  },
  at,
)
