-- ===== src/Topology/Detect/Kinds.antt =====
-- Which CPUs `detect_core_types` of src/cpuset.rs puts into each kind of core.
use aether_opt_ext.Base.{
  ℕ, suc, ◌+◌, ◌-◌, ◌<◌, ◌≡◌, refl, ap, ◌∙◌, fun_ext, Bool, true, false, not, ◌&&◌, ◌||◌, List, [],
  ◌∷◌, arith, ltb, leb, ◌==◌, length, Bool-cases, inl, inr,
}
use aether_opt_ext.CpuSet.{CpuSet, IsCpuSet, is_set, cpu_setsize}
use aether_opt_ext.CpuSet.Member.{is_set-new, new-IsCpuSet}
use aether_opt_ext.Topology.Detect.{
  Group, CoreTypes, assign_group, assign_groups, set_all, no_cores, core_types, sort_groups,
}
use aether_opt_ext.Topology.Detect.Groups.{
  held, every, every-weaken, Rising, Apart, sort_groups-Rising, held-sort_groups, every-sort_groups,
  set_all-IsCpuSet, is_set-set_all,
}

abbrev pub is_lowest : List Group → ℕ → Bool
is_lowest gs f = every (λ k. leb f k) gs

abbrev pub is_highest : List Group → ℕ → Bool
is_highest gs f = every (λ k. leb k f) gs

pub record ValidCores (c : CoreTypes) : Type 0 where
  pub valid_e : IsCpuSet c.e
  pub valid_p : IsCpuSet c.p
  pub valid_h : IsCpuSet c.h

pub held_ext :
    (r q q' : ℕ → Bool) (j : ℕ) (gs : List Group)
    → every r gs ≡ true
    → ((f : ℕ) → r f ≡ true → q f ≡ q' f)
    → held q j gs ≡ held q' j gs
held_ext r q q' j [] h w = refl
held_ext r q q' j (g ∷ gs) h w = ground (arith, w g.0, held_ext r q q' j gs (ground arith) w)

held-none : (j : ℕ) (gs : List Group) → held (λ f. false) j gs ≡ false
held-none j [] = refl
held-none j (g ∷ gs) = held-none j gs

module _ (i n : ℕ) (cpus : List ℕ) (c : CoreTypes) (v : ValidCores c) where
  pub assign_group-Valid : ValidCores (assign_group i n cpus c)
  unfolding assign_group
  assign_group-Valid = elim (Bool-cases (i == 0)) [
    | inl first ↦ rw first (record {
      valid_e = set_all-IsCpuSet cpus c.e v.valid_e;
      valid_p = v.valid_p;
      valid_h = v.valid_h;
    })
    | inr later ↦ elim (Bool-cases (i == n - 1)) [
      | inl last ↦
          rw (later, last)
            (record {
              valid_h = set_all-IsCpuSet cpus c.h v.valid_h;
              valid_e = v.valid_e;
              valid_p = v.valid_p;
            })
      | inr middle ↦
          rw (later, middle)
            (record {
              valid_p = set_all-IsCpuSet cpus c.p v.valid_p;
              valid_e = v.valid_e;
              valid_h = v.valid_h;
            })
    ]
  ]

-- The groups behind the first: the last is fast, and those before it are in between.
later_groups :
    (i n j : ℕ) (gs : List Group) (c : CoreTypes)
    → ValidCores c
    → Rising gs
    → 0 < i
    → i + length gs ≡ n
    → ((assign_groups i n gs c).e ≡ c.e)
      × (is_set (assign_groups i n gs c).h j
          ≡ (ltb j cpu_setsize && held (is_highest gs) j gs || is_set c.h j))
      × (is_set (assign_groups i n gs c).p j
          ≡ (ltb j cpu_setsize && held (λ f. not (is_highest gs f)) j gs || is_set c.p j))
unfolding assign_groups
later_groups i n j [] c v r p e = (refl, ground arith, ground arith)
later_groups i n j (g ∷ []) c v r p e =
    let later : (i == 0) ≡ false = ground arith in
    let last : (i == n - 1) ≡ true = ground arith in
    unfold assign_group in
    rw (later, last) (refl, ground (arith, is_set-set_all g.1 c.h j v.valid_h), ground arith)
later_groups i n j (g ∷ k ∷ ks) c v (rg, (rk, r)) p e =
    let later : (i == 0) ≡ false = ground arith in
    let middle : (i == n - 1) ≡ false = ground arith in
    let rest =
      later_groups (i + 1) n j (k ∷ ks) (assign_group i n g.1 c) (assign_group-Valid i n g.1 c v)
        (rk, r) (omega arith) (omega arith) in
    let mid : assign_group i n g.1 c ≡ record c { p = set_all g.1 c.p } =
      unfold assign_group in rw (later, middle) refl in
    let fast =
      held_ext (λ f. ltb g.0 f) (is_highest (g ∷ k ∷ ks)) (is_highest (k ∷ ks)) j (k ∷ ks) rg
        (λ f l. ground arith) in
    let between =
      held_ext (λ f. ltb g.0 f) (λ f. not (is_highest (g ∷ k ∷ ks) f))
        (λ f. not (is_highest (k ∷ ks) f)) j (k ∷ ks) rg (λ f l. ground arith) in
    let (re, rh, rp) = rest in
    (
      re ∙ ap (λ (x : CoreTypes). x.e) mid,
      ground (arith, rh, fast, ap (λ (x : CoreTypes). is_set x.h j) mid),
      ground (
        arith,
        rp,
        between,
        ap (λ (x : CoreTypes). is_set x.p j) mid,
        is_set-set_all g.1 c.p j v.valid_p,
      ),
    )

pub no_cores-Valid : ValidCores no_cores
no_cores-Valid = record { valid_e = new-IsCpuSet; valid_p = new-IsCpuSet; valid_h = new-IsCpuSet }

-- The CPUs of the lowest frequency, of the highest if it is another, and those in between.
abbrev pub KindsOf : List Group → CoreTypes → ℕ → Type 0
KindsOf gs c j =
    (is_set c.e j ≡ (ltb j cpu_setsize && held (is_lowest gs) j gs))
    × (is_set c.h j
        ≡ (ltb j cpu_setsize && held (λ f. is_highest gs f && not (is_lowest gs f)) j gs))
    × (is_set c.p j
        ≡ (ltb j cpu_setsize && held (λ f. not (is_highest gs f) && not (is_lowest gs f)) j gs))

sorted_kinds :
    (j : ℕ) (gs : List Group) → Rising gs → KindsOf gs (assign_groups 0 (length gs) gs no_cores) j
unfolding assign_groups
sorted_kinds j [] r =
    (ground (arith, is_set-new j), ground (arith, is_set-new j), ground (arith, is_set-new j))
sorted_kinds j (g ∷ gs) (rg, r) =
    let first : assign_group 0 (suc (length gs)) g.1 no_cores
        ≡ record no_cores { e = set_all g.1 no_cores.e } =
      unfold assign_group in refl in
    let (re, rh, rp) =
      later_groups (0 + 1) (suc (length gs)) j gs (assign_group 0 (suc (length gs)) g.1 no_cores)
        (assign_group-Valid 0 (suc (length gs)) g.1 no_cores no_cores-Valid) r (omega arith)
        (omega arith) in
    let low = every-weaken (λ f. ltb g.0 f) (λ f. leb g.0 f) gs (λ f l. ground arith) rg in
    let slow =
      held_ext (λ f. ltb g.0 f) (is_lowest (g ∷ gs)) (λ f. false) j gs rg (λ f l. ground arith) in
    let fast =
      held_ext (λ f. ltb g.0 f) (λ f. is_highest (g ∷ gs) f && not (is_lowest (g ∷ gs) f))
        (is_highest gs) j gs rg (λ f l. ground arith) in
    let between =
      held_ext (λ f. ltb g.0 f) (λ f. not (is_highest (g ∷ gs) f) && not (is_lowest (g ∷ gs) f))
        (λ f. not (is_highest gs f)) j gs rg (λ f l. ground arith) in
    let none = held-none j gs in
    (
      ap (λ (x : CpuSet). is_set x j) (re ∙ ap (λ (x : CoreTypes). x.e) first)
          ∙ ground
              (arith, low, slow, none, is_set-set_all g.1 no_cores.e j new-IsCpuSet, is_set-new j),
      ground (arith, rh, fast, low, ap (λ (x : CoreTypes). is_set x.h j) first, is_set-new j),
      ground (arith, rp, between, low, ap (λ (x : CoreTypes). is_set x.p j) first, is_set-new j),
    )

-- Lists that hold the same CPUs at the same frequencies have the same kinds.
module _ (gs ps : List Group) (j : ℕ) (same_held : (q : ℕ → Bool) → held q j gs ≡ held q j ps)
    (same_every : (q : ℕ → Bool) → every q gs ≡ every q ps) where
  moved :
      (q q' : ℕ → Bool)
      → q ≡ q'
      → (ltb j cpu_setsize && held q j gs) ≡ (ltb j cpu_setsize && held q' j ps)
  moved q q' e =
      ap (λ (r : ℕ → Bool). ltb j cpu_setsize && held r j gs) e
      ∙ ap (λ b. ltb j cpu_setsize && b) (same_held q')

  pub KindsOf-same : (c : CoreTypes) → KindsOf gs c j → KindsOf ps c j
  KindsOf-same c (se, sh, sp) =
      let low : is_lowest gs ≡ is_lowest ps = fun_ext (λ f. same_every (λ k. leb f k)) in
      let high : is_highest gs ≡ is_highest ps = fun_ext (λ f. same_every (λ k. leb k f)) in
      (
        se ∙ moved _ _ low,
        sh ∙ moved _ _ (λ i f. high i f && not (low i f)),
        sp ∙ moved _ _ (λ i f. not (high i f) && not (low i f)),
      )

pub core_types-KindsOf : (j : ℕ) (gs : List Group) → Apart gs → KindsOf gs (core_types gs) j
unfolding core_types
core_types-KindsOf j gs a =
    KindsOf-same (sort_groups gs) gs j (λ q. held-sort_groups q j gs) (λ q. every-sort_groups q gs)
      _ (sorted_kinds j (sort_groups gs) (sort_groups-Rising gs a))
