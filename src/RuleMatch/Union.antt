-- ===== src/RuleMatch/Union.antt =====
-- `thread_affinity` of src/rule_match.rs against the CPUs that the rules want.
use aether_opt_ext.Base.{
  ℕ, ◌≡◌, ◌⊎◌, inl, inr, refl, sym, ap, ◌∙◌, Bool, true, false, ◌&&◌, ◌||◌, Option, none, some,
  List, [], ◌∷◌, arith, ◌==◌, any, Bool-cases,
}
use aether_opt_ext.Base.Text.{Text, is_empty}
use aether_opt_ext.CpuSet.{CpuSet, IsCpuSet, is_set, count}
use aether_opt_ext.CpuSet.Member.{is_set-new, new-IsCpuSet}
use aether_opt_ext.CpuSet.Count.{count-zero_iff}
use aether_opt_ext.Os.{Os}
use aether_opt_ext.Os.Machine.{Machine}
use aether_opt_ext.Topology.{CpuTopology}
use aether_opt_ext.Config.{Rule, AppConfig, pkg_has_thread_rules}
use aether_opt_ext.RuleMatch.{
  AffinityResult, is_thread_rule_of, is_package_rule_of, merge_start, first_loop, finish,
  thread_affinity,
}
use aether_opt_ext.RuleMatch.Loops.{
  union_of, matches_thread, wanted, merge_rules-IsCpuSet, matched-merge_rules, is_set-merge_rules,
  fallback_rules-IsCpuSet, is_set-fallback_rules,
}

-- What a result says when `wants` are the CPUs that the rules name: a set that is not empty is the
-- answer; without one, a package with thread rules gets every CPU that is present, and any other
-- package is left alone.
abbrev pub Outcome : (ℕ → Bool) → Bool → Bool → CpuSet → Option AffinityResult → Type 0
Outcome wants matched has_rules present none = ((j : ℕ) → wants j ≡ false) × (has_rules ≡ false)
Outcome wants matched has_rules present (some r) =
    ((¬ ((j : ℕ) → wants j ≡ false))
      × ((j : ℕ) → is_set r.cpus j ≡ wants j)
      × (r.is_thread_rule ≡ matched))
    ⊎ (((j : ℕ) → wants j ≡ false)
        × (has_rules ≡ true)
        × (r ≡ record { cpus = present; cpuset_dir = []; is_thread_rule = false }))

finish-Outcome :
    (pkg : Text) (cfg : AppConfig) (topo : CpuTopology) (cpus : CpuSet) (dir : Text)
    (matched : Bool) (wants : ℕ → Bool)
    → IsCpuSet cpus
    → ((j : ℕ) → is_set cpus j ≡ wants j)
    → Outcome wants matched
        (pkg_has_thread_rules cfg pkg)
        topo.present_cpus
        (finish pkg cfg topo cpus dir matched)
unfolding finish
finish-Outcome pkg cfg topo cpus dir matched wants v same = elim (Bool-cases (count cpus == 0)) [
  | inl empty ↦
      let none_set : (j : ℕ) → is_set cpus j ≡ false = (count-zero_iff cpus v).0 (ground arith) in
      elim (Bool-cases (pkg_has_thread_rules cfg pkg)) [
        | inl has ↦ rw (empty, has) (inr (λ j. sym (same j) ∙ none_set j, refl, refl))
        | inr has ↦ rw (empty, has) (λ j. sym (same j) ∙ none_set j, refl)
      ]
  | inr some_set ↦ rw some_set (
      inl (
        λ all_false.
            (let zero_count = (count-zero_iff cpus v).1 (λ j. same j ∙ all_false j) in
              cc (ap (λ n. n == 0) zero_count)),
        same,
        refl,
      ))
]

union_of-none :
    (p : Rule → Bool) (rules : List Rule) (j : ℕ) → any p rules ≡ false → union_of p rules j ≡ false
unfolding union_of
union_of-none p [] j h = refl
union_of-none p (rule ∷ rules) j h = ground (arith, union_of-none p rules j)

module _ (pkg thread : Text) (cfg : AppConfig) where
  pub first_loop-IsCpuSet : IsCpuSet (first_loop pkg thread cfg).cpus
  unfolding first_loop
  first_loop-IsCpuSet = elim (Bool-cases (is_empty thread)) [
    | inl empty ↦ rw empty new-IsCpuSet
    | inr named ↦ rw named (merge_rules-IsCpuSet pkg thread cfg.rules merge_start new-IsCpuSet)
  ]

  pub matched-first_loop : (first_loop pkg thread cfg).matched ≡ matches_thread pkg thread cfg
  unfolding first_loop matches_thread
  matched-first_loop = elim (Bool-cases (is_empty thread)) [
    | inl empty ↦ rw empty
    | inr named ↦ rw named (matched-merge_rules pkg thread cfg.rules merge_start)
  ]

  pub is_set-first_loop :
      (j : ℕ)
      → is_set (first_loop pkg thread cfg).cpus j
        ≡ (matches_thread pkg thread cfg && union_of (is_thread_rule_of pkg thread) cfg.rules j)
  unfolding first_loop matches_thread
  is_set-first_loop j = elim (Bool-cases (is_empty thread)) [
    | inl empty ↦ rw empty (is_set-new j)
    | inr named ↦
        let loop = is_set-merge_rules pkg thread cfg.rules merge_start j new-IsCpuSet in
        let start : is_set merge_start.cpus j ≡ false = is_set-new j in
        elim (Bool-cases (any (is_thread_rule_of pkg thread) cfg.rules)) [
          | inl some_rule ↦
              rw (named, some_rule)
                (loop ∙ ap (λ b. b || union_of (is_thread_rule_of pkg thread) cfg.rules j) start)
          | inr no_rule ↦
              rw (named, no_rule)
                (loop
                  ∙ (ap (λ b. b || union_of (is_thread_rule_of pkg thread) cfg.rules j) start
                      ∙ union_of-none (is_thread_rule_of pkg thread) cfg.rules j no_rule))
        ]
  ]

module _ (pkg thread : Text) (cfg : AppConfig) (j : ℕ) where
  wanted-hit :
      matches_thread pkg thread cfg ≡ true
      → wanted pkg thread cfg j ≡ union_of (is_thread_rule_of pkg thread) cfg.rules j
  unfolding wanted
  wanted-hit h = rw h

  wanted-miss :
      matches_thread pkg thread cfg ≡ false
      → wanted pkg thread cfg j ≡ union_of (is_package_rule_of pkg) cfg.rules j
  unfolding wanted
  wanted-miss h = rw h

-- For every system, `thread_affinity` returns what the rules want, in three cases. It returns
-- nothing exactly when the rules name no CPU and the package has no thread rules. A result holds
-- either the CPUs that are wanted, at least one, and says whether a thread rule matched, or, if the
-- rules name no CPU, all the CPUs that are present with no directory and as no thread rule.
pub thread_affinity_lem :
    {W B : Type 0} (os : Os W) (pkg thread : Text) (cfg : AppConfig) (topo : CpuTopology)
    (m : Machine W B)
    → Outcome
        (wanted pkg thread cfg)
        (matches_thread pkg thread cfg)
        (pkg_has_thread_rules cfg pkg)
        topo.present_cpus
        (thread_affinity os pkg thread cfg topo m).0
unfolding thread_affinity
thread_affinity_lem os pkg thread cfg topo m =
    let merged = first_loop pkg thread cfg in
    let matched = matched-first_loop pkg thread cfg in
    elim (Bool-cases (matches_thread pkg thread cfg)) [
      | inl hit ↦
          rw (matched, hit)
            (finish-Outcome pkg cfg topo merged.cpus _ true (wanted pkg thread cfg)
              (first_loop-IsCpuSet pkg thread cfg)
              (λ j.
                is_set-first_loop pkg thread cfg j
                ∙ (ap (λ b. b && union_of (is_thread_rule_of pkg thread) cfg.rules j) hit
                    ∙ sym (wanted-hit pkg thread cfg j hit))))
      | inr miss ↦
          rw (matched, miss)
            (finish-Outcome pkg cfg topo _ _ false (wanted pkg thread cfg)
              (fallback_rules-IsCpuSet os pkg topo cfg.rules _ m
                (first_loop-IsCpuSet pkg thread cfg))
              (λ j.
                let none_yet : is_set merged.cpus j ≡ false =
                  is_set-first_loop pkg thread cfg j
                  ∙ ap (λ b. b && union_of (is_thread_rule_of pkg thread) cfg.rules j) miss in
                is_set-fallback_rules os pkg topo cfg.rules _ m j
                  (first_loop-IsCpuSet pkg thread cfg)
                ∙ ap (λ b. b || union_of (is_package_rule_of pkg) cfg.rules j) none_yet
                ∙ sym (wanted-miss pkg thread cfg j miss)))
    ]
