-- ===== src/RuleMatch/Unnamed.antt =====
-- A package that no rule names as it is written, such as one that a pattern stands for.
use aether_opt_ext.Base.{
  ℕ, ◌≡◌, inl, inr, refl, ap, Bool, false, Option, none, some, List, [], ◌∷◌, arith, All,
  if◌then◌else◌,
}
use aether_opt_ext.Base.Text.{Text, text_eq}
use aether_opt_ext.CpuSet.{CpuSet}
use aether_opt_ext.Os.{Os}
use aether_opt_ext.Os.Machine.{Machine}
use aether_opt_ext.Topology.{CpuTopology}
use aether_opt_ext.Config.{Rule, AppConfig, pkg_has_thread_rules}
use aether_opt_ext.RuleMatch.{
  AffinityResult, is_thread_rule_of, is_package_rule_of, thread_affinity,
}
use aether_opt_ext.RuleMatch.Loops.{union_of, matches_thread, wanted}
use aether_opt_ext.RuleMatch.Union.{Outcome, thread_affinity_lem}

-- No rule has the package, letter by letter.
abbrev pub Unnamed : Text → List Rule → Type 0
Unnamed pkg rules = All (λ (r : Rule). text_eq r.pkg pkg ≡ false) rules

module _ (pkg thread : Text) where
  union_of-thread_none :
      (rules : List Rule) (j : ℕ)
      → Unnamed pkg rules
      → union_of (is_thread_rule_of pkg thread) rules j ≡ false
  unfolding union_of
  union_of-thread_none [] j h = refl
  union_of-thread_none (rule ∷ rules) j (other, h) =
      ground (arith, other, union_of-thread_none rules j h)

  union_of-package_none :
      (rules : List Rule) (j : ℕ)
      → Unnamed pkg rules
      → union_of (is_package_rule_of pkg) rules j ≡ false
  unfolding union_of
  union_of-package_none [] j h = refl
  union_of-package_none (rule ∷ rules) j (other, h) =
      ground (arith, other, union_of-package_none rules j h)

  wanted-none : (cfg : AppConfig) (j : ℕ) → Unnamed pkg cfg.rules → wanted pkg thread cfg j ≡ false
  unfolding wanted
  wanted-none cfg j h =
      ground (arith, union_of-thread_none cfg.rules j h, union_of-package_none cfg.rules j h)

-- All CPUs that are present, or nothing.
abbrev pub all_or_nothing : Bool → CpuSet → Option AffinityResult
all_or_nothing has_rules present =
    if has_rules
    then some (record { cpus = present; cpuset_dir = []; is_thread_rule = false })
    else none

Outcome-nothing_wanted :
    (wants : ℕ → Bool) (matched has_rules : Bool) (present : CpuSet) (o : Option AffinityResult)
    → ((j : ℕ) → wants j ≡ false)
    → Outcome wants matched has_rules present o
    → o ≡ all_or_nothing has_rules present
Outcome-nothing_wanted wants matched has_rules present none nothing (n, has) = rw has
Outcome-nothing_wanted wants matched has_rules present (some r) nothing
      (inl (some_cpu, same, rest)) =
    absurd (some_cpu nothing)
Outcome-nothing_wanted wants matched has_rules present (some r) nothing (inr (n, has, e)) =
    rw has (ap some e)

-- The threads of a package that no rule names letter by letter are left alone or, if a rule for a
-- thread has a pattern of packages that matches, bound to all the CPUs that are present: whatever
-- CPUs such a rule lists, they are not used.
pub thread_affinity-Unnamed :
    {W B : Type 0} (os : Os W) (pkg thread : Text) (cfg : AppConfig) (topo : CpuTopology)
    (m : Machine W B)
    → Unnamed pkg cfg.rules
    → (thread_affinity os pkg thread cfg topo m).0
      ≡ all_or_nothing (pkg_has_thread_rules cfg pkg) topo.present_cpus
thread_affinity-Unnamed os pkg thread cfg topo m other =
    Outcome-nothing_wanted (wanted pkg thread cfg) (matches_thread pkg thread cfg)
      (pkg_has_thread_rules cfg pkg) topo.present_cpus _ (λ j. wanted-none pkg thread cfg j other)
      (thread_affinity_lem os pkg thread cfg topo m)
