-- ===== src/RuleMatch/Loops.antt =====
-- The CPUs that the two loops of `thread_affinity` gather.
use aether_opt_ext.Base.{
  ℕ, ◌≡◌, inl, inr, Bool, not, ◌&&◌, ◌||◌, none, List, [], ◌∷◌, arith, if◌then◌else◌, any,
  Bool-cases,
}
use aether_opt_ext.Base.Text.{Text, is_empty}
use aether_opt_ext.CpuSet.{IsCpuSet, is_set}
use aether_opt_ext.CpuSet.Member.{is_set-or, or-IsCpuSet}
use aether_opt_ext.CpuRange.{from_range}
use aether_opt_ext.CpuRange.Parse.{parse_cpu_ranges-IsCpuSet}
use aether_opt_ext.Os.{Os}
use aether_opt_ext.Os.Machine.{Machine}
use aether_opt_ext.Topology.{CpuTopology}
use aether_opt_ext.Config.{Rule, AppConfig}
use aether_opt_ext.RuleMatch.{
  Merged, Fallback, cpuset_from_rule, is_thread_rule_of, is_package_rule_of, merge_rule,
  merge_rules, fallback_rule, fallback_rules,
}

pub cpuset_from_rule-IsCpuSet : (rule : Rule) → IsCpuSet (cpuset_from_rule rule)
unfolding cpuset_from_rule from_range
cpuset_from_rule-IsCpuSet rule = parse_cpu_ranges-IsCpuSet rule.cpus none

-- The CPUs that the rules which pass `p` name together.
unfoldable pub union_of : (Rule → Bool) → List Rule → ℕ → Bool
union_of p rules j = any (λ rule. p rule && is_set (cpuset_from_rule rule) j) rules

-- Whether some thread rule of the package matches the name of the thread.
unfoldable pub matches_thread : Text → Text → AppConfig → Bool
matches_thread pkg thread cfg =
    not (is_empty thread) && any (is_thread_rule_of pkg thread) cfg.rules

-- The CPUs that the rules want for a thread: those of the thread rules that match it or, if none
-- does, those of the package rules.
unfoldable pub wanted : Text → Text → AppConfig → ℕ → Bool
wanted pkg thread cfg j =
    if matches_thread pkg thread cfg
    then union_of (is_thread_rule_of pkg thread) cfg.rules j
    else union_of (is_package_rule_of pkg) cfg.rules j

module _ (pkg thread : Text) where
  merge_rule-IsCpuSet :
      (rule : Rule) (acc : Merged)
      → IsCpuSet acc.cpus
      → IsCpuSet (merge_rule pkg thread rule acc).cpus
  unfolding merge_rule
  merge_rule-IsCpuSet rule acc v =
      let both = or-IsCpuSet acc.cpus (cpuset_from_rule rule) v (cpuset_from_rule-IsCpuSet rule) in
      elim (Bool-cases (is_thread_rule_of pkg thread rule)) [
        | inl applies ↦ rw applies both
        | inr skips ↦ rw skips v
      ]

  is_set-merge_rule :
      (rule : Rule) (acc : Merged) (j : ℕ)
      → IsCpuSet acc.cpus
      → is_set (merge_rule pkg thread rule acc).cpus j ≡ (
          is_set acc.cpus j
          || is_thread_rule_of pkg thread rule && is_set (cpuset_from_rule rule) j)
  unfolding merge_rule
  is_set-merge_rule rule acc j v = elim (Bool-cases (is_thread_rule_of pkg thread rule)) [
    | inl applies ↦
        rw applies (is_set-or acc.cpus (cpuset_from_rule rule) j v (cpuset_from_rule-IsCpuSet rule))
    | inr skips ↦ rw skips (ground arith)
  ]

  matched-merge_rule :
      (rule : Rule) (acc : Merged)
      → (merge_rule pkg thread rule acc).matched
        ≡ (acc.matched || is_thread_rule_of pkg thread rule)
  unfolding merge_rule
  matched-merge_rule rule acc = ground arith

  pub merge_rules-IsCpuSet :
      (rules : List Rule) (acc : Merged)
      → IsCpuSet acc.cpus
      → IsCpuSet (merge_rules pkg thread rules acc).cpus
  unfolding merge_rules
  merge_rules-IsCpuSet [] acc v = v
  merge_rules-IsCpuSet (rule ∷ rules) acc v =
      merge_rules-IsCpuSet rules _ (merge_rule-IsCpuSet rule acc v)

  pub matched-merge_rules :
      (rules : List Rule) (acc : Merged)
      → (merge_rules pkg thread rules acc).matched
        ≡ (acc.matched || any (is_thread_rule_of pkg thread) rules)
  unfolding merge_rules
  matched-merge_rules [] acc = ground arith
  matched-merge_rules (rule ∷ rules) acc = ground (
    arith,
    matched-merge_rule rule acc,
    matched-merge_rules rules (merge_rule pkg thread rule acc),
  )

  pub is_set-merge_rules :
      (rules : List Rule) (acc : Merged) (j : ℕ)
      → IsCpuSet acc.cpus
      → is_set (merge_rules pkg thread rules acc).cpus j
        ≡ (is_set acc.cpus j || union_of (is_thread_rule_of pkg thread) rules j)
  unfolding merge_rules union_of
  is_set-merge_rules [] acc j v = ground arith
  is_set-merge_rules (rule ∷ rules) acc j v = ground (
    arith,
    is_set-merge_rule rule acc j v,
    is_set-merge_rules rules (merge_rule pkg thread rule acc) j (merge_rule-IsCpuSet rule acc v),
  )

module _ {W B : Type 0} (os : Os W) (pkg : Text) (topo : CpuTopology) where
  fallback_rule-IsCpuSet :
      (rule : Rule) (acc : Fallback) (m : Machine W B)
      → IsCpuSet acc.cpus
      → IsCpuSet (fallback_rule os pkg topo rule acc m).0.cpus
  unfolding fallback_rule
  fallback_rule-IsCpuSet rule acc m v =
      let both = or-IsCpuSet acc.cpus (cpuset_from_rule rule) v (cpuset_from_rule-IsCpuSet rule) in
      elim (Bool-cases (is_package_rule_of pkg rule)) [
        | inl applies ↦ rw applies both
        | inr skips ↦ rw skips v
      ]

  is_set-fallback_rule :
      (rule : Rule) (acc : Fallback) (m : Machine W B) (j : ℕ)
      → IsCpuSet acc.cpus
      → is_set (fallback_rule os pkg topo rule acc m).0.cpus j
        ≡ (is_set acc.cpus j || is_package_rule_of pkg rule && is_set (cpuset_from_rule rule) j)
  unfolding fallback_rule
  is_set-fallback_rule rule acc m j v = elim (Bool-cases (is_package_rule_of pkg rule)) [
    | inl applies ↦
        rw applies (is_set-or acc.cpus (cpuset_from_rule rule) j v (cpuset_from_rule-IsCpuSet rule))
    | inr skips ↦ rw skips (ground arith)
  ]

  pub fallback_rules-IsCpuSet :
      (rules : List Rule) (acc : Fallback) (m : Machine W B)
      → IsCpuSet acc.cpus
      → IsCpuSet (fallback_rules os pkg topo rules acc m).0.cpus
  unfolding fallback_rules
  fallback_rules-IsCpuSet [] acc m v = v
  fallback_rules-IsCpuSet (rule ∷ rules) acc m v =
      fallback_rules-IsCpuSet rules _ _ (fallback_rule-IsCpuSet rule acc m v)

  pub is_set-fallback_rules :
      (rules : List Rule) (acc : Fallback) (m : Machine W B) (j : ℕ)
      → IsCpuSet acc.cpus
      → is_set (fallback_rules os pkg topo rules acc m).0.cpus j
        ≡ (is_set acc.cpus j || union_of (is_package_rule_of pkg) rules j)
  unfolding fallback_rules union_of
  is_set-fallback_rules [] acc m j v = ground arith
  is_set-fallback_rules (rule ∷ rules) acc m j v =
      let r = fallback_rule os pkg topo rule acc m in
      ground (
        arith,
        is_set-fallback_rule rule acc m j v,
        is_set-fallback_rules rules r.0 r.1 j (fallback_rule-IsCpuSet rule acc m v),
      )
