-- ===== src/OldScan/Choice.antt =====
-- Which rule `scan_one_pid` of src/process.rs takes for a thread.
use aether_opt_ext.Base.{
  ℕ, ◌≤◌, ◌≡◌, refl, sym, ap, ◌∙◌, not, Option, none, some, List, [], ◌∷◌, All, arith,
  if◌then◌else◌, Bool-cases, inl, inr, ◌⊎◌,
}
use aether_opt_ext.Base.Text.{Text, is_empty}
use aether_opt_ext.CpuRange.{from_range}
use aether_opt_ext.Config.{Rule, fnmatch}
use aether_opt_ext.OldScan.{
  Best, no_best, pkg_matches, signed, gt_i32, take_better, pick_rule, pick_rules,
}

-- As an `i32`, the priority of the rule, if it matches, is at most this one.
abbrev pub AtMost : ℕ → Option ℕ → Type 0
AtMost bp none = Unit
AtMost bp (some w) = signed w ≤ signed bp

module _ (pkg comm : Text) where
  -- The priority that a rule has for the thread, if it matches.
  abbrev pub weight : Rule → Option ℕ
  weight r =
      if not (pkg_matches r.pkg pkg)
      then none
      else if is_empty r.thread
      then some 200
      else if fnmatch r.thread comm
      then some r.prio
      else none

  abbrev offer : Rule → Option ℕ → Best → Best
  offer r none b = b
  offer r (some w) b = take_better r w b

  pick_rule-offer : (r : Rule) (b : Best) → pick_rule pkg comm r b ≡ offer r (weight r) b
  unfolding pick_rule
  pick_rule-offer r b = elim (Bool-cases (pkg_matches r.pkg pkg)) [
    | inl same ↦ elim (Bool-cases (is_empty r.thread)) [
      | inl whole ↦ rw (same, whole) refl
      | inr named ↦ elim (Bool-cases (fnmatch r.thread comm)) [
        | inl hit ↦ rw (same, named, hit) refl
        | inr miss ↦ rw (same, named, miss) refl
      ]
    ]
    | inr other ↦ rw other refl
  ]

  offer-rises : (r : Rule) (o : Option ℕ) (b : Best) → signed b.bp ≤ signed (offer r o b).bp
  offer-rises r none b = omega arith
  offer-rises r (some w) b = ground arith

  offer-AtMost : (r : Rule) (o : Option ℕ) (b : Best) → AtMost (offer r o b).bp o
  offer-AtMost r none b = tt
  offer-AtMost r (some w) b = ground arith

  AtMost-mono : (a b : ℕ) (o : Option ℕ) → signed a ≤ signed b → AtMost a o → AtMost b o
  AtMost-mono a b none le h = tt
  AtMost-mono a b (some w) le h = omega arith

  pick_rule-rises : (r : Rule) (b : Best) → signed b.bp ≤ signed (pick_rule pkg comm r b).bp
  pick_rule-rises r b = rw (pick_rule-offer r b) (offer-rises r (weight r) b)

  pick_rules-rises :
      (rules : List Rule) (b : Best) → signed b.bp ≤ signed (pick_rules pkg comm rules b).bp
  unfolding pick_rules
  pick_rules-rises [] b = omega arith
  pick_rules-rises (r ∷ rules) b =
      omega (arith, pick_rule-rises r b, pick_rules-rises rules (pick_rule pkg comm r b))

  -- No rule that matches has a higher priority than the one that is taken.
  pick_rules-AtMost :
      (rules : List Rule) (b : Best)
      → All (λ r. AtMost (pick_rules pkg comm rules b).bp (weight r)) rules
  unfolding pick_rules
  pick_rules-AtMost [] b = tt
  pick_rules-AtMost (r ∷ rules) b = (
    AtMost-mono (pick_rule pkg comm r b).bp _ (weight r)
        (pick_rules-rises rules (pick_rule pkg comm r b))
        (rw (pick_rule-offer r b) (offer-AtMost r (weight r) b)),
    pick_rules-AtMost rules (pick_rule pkg comm r b),
  )

  -- One of the rules matches with this priority and names these CPUs.
  abbrev pub TakenFrom : List Rule → Best → Type 0
  TakenFrom [] b = ⊥
  TakenFrom (r ∷ rules) b =
      (weight r ≡ some b.bp) × (b.best ≡ from_range r.cpus) ⊎ TakenFrom rules b

  offer-taken :
      (r : Rule) (o : Option ℕ) (b : Best)
      → (offer r o b ≡ b) ⊎ (o ≡ some (offer r o b).bp) × ((offer r o b).best ≡ from_range r.cpus)
  offer-taken r none b = inl refl
  offer-taken r (some w) b = elim (Bool-cases (gt_i32 w b.bp)) [
    | inl better ↦ inr (rw better (refl, refl))
    | inr worse ↦ inl (rw worse refl)
  ]

  pick_rules-taken :
      (rules : List Rule) (b : Best)
      → (pick_rules pkg comm rules b ≡ b) ⊎ TakenFrom rules (pick_rules pkg comm rules b)
  unfolding pick_rules
  pick_rules-taken [] b = inl refl
  pick_rules-taken (r ∷ rules) b =
      let next = pick_rule pkg comm r b in
      elim (pick_rules-taken rules next) [
        | inr later ↦ inr (inr later)
        | inl kept ↦ elim (offer-taken r (weight r) b) [
          | inl same ↦ inl (kept ∙ (pick_rule-offer r b ∙ same))
          | inr (w, cpus) ↦
              let e = kept ∙ pick_rule-offer r b in
              inr
                (inl (w ∙ ap (λ (x : Best). some x.bp) (sym e), ap (λ (x : Best). x.best) e ∙ cpus))
        ]
      ]

  -- The old scanner gives a thread the CPUs of a rule that matches it, and no rule that matches has
  -- a higher priority, an `i32`; or no rule that matches has a priority above -1, and the thread
  -- gets no CPU.
  pub pick_rules-best :
      (rules : List Rule)
      → ((pick_rules pkg comm rules no_best ≡ no_best)
          ⊎ TakenFrom rules (pick_rules pkg comm rules no_best))
        × All (λ r. AtMost (pick_rules pkg comm rules no_best).bp (weight r)) rules
  pick_rules-best rules = (pick_rules-taken rules no_best, pick_rules-AtMost rules no_best)
