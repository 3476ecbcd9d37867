-- ===== src/RuleMatch/Dir.antt =====
-- The cpuset directory in a result of `thread_affinity`, src/rule_match.rs.
use aether_opt_ext.Base.{
  ◌≡◌, ◌⊎◌, inl, inr, refl, ap, ◌∙◌, Bool, true, false, ◌||◌, Option, none, some, List, [], ◌∷◌,
  arith, All, ◌==◌, Bool-cases,
}
use aether_opt_ext.Base.Text.{Text, is_empty}
use aether_opt_ext.CpuSet.{CpuSet, IsCpuSet, new, or, is_set, count}
use aether_opt_ext.CpuSet.Member.{is_set-or, is_set-new, or-IsCpuSet, new-IsCpuSet, cpuset_ext}
use aether_opt_ext.CpuRange.{to_range_string}
use aether_opt_ext.Os.{Os}
use aether_opt_ext.Os.Machine.{Machine}
use aether_opt_ext.Topology.{CpuTopology}
use aether_opt_ext.Topology.Dir.{ensure_cpuset_dir-name}
use aether_opt_ext.Config.{Rule, AppConfig, pkg_has_thread_rules}
use aether_opt_ext.RuleMatch.{
  AffinityResult, Fallback, cpuset_from_rule, is_package_rule_of, first_loop, fallback_dir,
  fallback_rule, fallback_rules, finish, thread_affinity,
}
use aether_opt_ext.RuleMatch.Loops.{cpuset_from_rule-IsCpuSet, matches_thread}
use aether_opt_ext.RuleMatch.Union.{matched-first_loop, is_set-first_loop, first_loop-IsCpuSet}

-- No directory, or the one named after the CPUs.
abbrev pub NamesCpus : CpuSet → Text → Type 0
NamesCpus cpus dir = (dir ≡ []) ⊎ (dir ≡ to_range_string cpus)

-- What `AppConfig::load` stores in a rule.
abbrev pub RuleDir : Rule → Type 0
RuleDir rule = NamesCpus (cpuset_from_rule rule) rule.cpuset_dir

new-or : (s : CpuSet) → IsCpuSet s → or new s ≡ s
new-or s v =
    cpuset_ext (or new s) s (or-IsCpuSet new s new-IsCpuSet v) v
      (λ j. is_set-or new s j new-IsCpuSet v ∙ ap (λ b. b || is_set s j) (is_set-new j))

-- Before the first package rule nothing is gathered; after it the directory names what is.
abbrev Gathered : Fallback → Type 0
Gathered acc = (acc.fallback_seen ≡ false → acc.cpus ≡ new) × NamesCpus acc.cpus acc.cpuset_dir

is_empty→nil : (s : Text) → is_empty s ≡ true → s ≡ []
is_empty→nil [] h = refl
is_empty→nil (b ∷ s) h = cc

module _ {W B : Type 0} (os : Os W) (pkg : Text) (topo : CpuTopology) where
  fallback_dir-NamesCpus :
      (rule : Rule) (acc : Fallback) (m : Machine W B)
      → RuleDir rule
      → Gathered acc
      → NamesCpus
          (or acc.cpus (cpuset_from_rule rule))
          (fallback_dir os rule (or acc.cpus (cpuset_from_rule rule)) acc.fallback_seen topo m).0
  unfolding fallback_dir
  fallback_dir-NamesCpus rule acc m named g = elim (Bool-cases acc.fallback_seen) [
    | inl seen ↦ rw seen (inl refl)
    | inr first ↦
        let none_yet : acc.cpus ≡ new = g.0 first in
        let own : or acc.cpus (cpuset_from_rule rule) ≡ cpuset_from_rule rule =
          ap (λ (s : CpuSet). or s (cpuset_from_rule rule)) none_yet
          ∙ new-or (cpuset_from_rule rule) (cpuset_from_rule-IsCpuSet rule) in
        elim (Bool-cases (is_empty rule.cpuset_dir)) [
          | inl fresh ↦
              rw (first, fresh)
                (ensure_cpuset_dir-name os (or acc.cpus (cpuset_from_rule rule)) topo m)
          | inr stored ↦ rw (first, stored, own) named
        ]
  ]

  fallback_rule-Gathered :
      (rule : Rule) (acc : Fallback) (m : Machine W B)
      → RuleDir rule
      → Gathered acc
      → Gathered (fallback_rule os pkg topo rule acc m).0
  unfolding fallback_rule
  fallback_rule-Gathered rule acc m named g = elim (Bool-cases (is_package_rule_of pkg rule)) [
    | inl mine ↦ rw mine (λ e. (cc), fallback_dir-NamesCpus rule acc m named g)
    | inr other ↦ rw other g
  ]

  fallback_rules-Gathered :
      (rules : List Rule) (acc : Fallback) (m : Machine W B)
      → All RuleDir rules
      → Gathered acc
      → Gathered (fallback_rules os pkg topo rules acc m).0
  unfolding fallback_rules
  fallback_rules-Gathered [] acc m named g = g
  fallback_rules-Gathered (rule ∷ rules) acc m (head, named) g =
      fallback_rules-Gathered rules _ _ named (fallback_rule-Gathered rule acc m head g)

-- A result, if there is one, names its own CPUs.
abbrev pub ResultDir : Option AffinityResult → Type 0
ResultDir none = Unit
ResultDir (some r) = NamesCpus r.cpus r.cpuset_dir

finish-ResultDir :
    (pkg : Text) (cfg : AppConfig) (topo : CpuTopology) (cpus : CpuSet) (dir : Text)
    (matched : Bool)
    → NamesCpus cpus dir
    → ResultDir (finish pkg cfg topo cpus dir matched)
unfolding finish
finish-ResultDir pkg cfg topo cpus dir matched named = elim (Bool-cases (count cpus == 0)) [
  | inl empty ↦ elim (Bool-cases (pkg_has_thread_rules cfg pkg)) [
    | inl has ↦ rw (empty, has) (inl refl)
    | inr has ↦ rw (empty, has) tt
  ]
  | inr some_set ↦ rw some_set named
]

first_loop-none :
    (pkg thread : Text) (cfg : AppConfig)
    → matches_thread pkg thread cfg ≡ false
    → (first_loop pkg thread cfg).cpus ≡ new
first_loop-none pkg thread cfg miss =
    cpuset_ext _ new (first_loop-IsCpuSet pkg thread cfg) new-IsCpuSet
      (λ j. ground (arith, is_set-first_loop pkg thread cfg j, is_set-new j))

-- If the rules' own directories are empty or named after their CPUs, the directory that
-- `thread_affinity` returns is empty or named after the CPUs that it returns, merged or not.
pub thread_affinity-ResultDir :
    {W B : Type 0} (os : Os W) (pkg thread : Text) (cfg : AppConfig) (topo : CpuTopology)
    (m : Machine W B)
    → All RuleDir cfg.rules
    → ResultDir (thread_affinity os pkg thread cfg topo m).0
unfolding thread_affinity
thread_affinity-ResultDir os pkg thread cfg topo m named =
    let matched = matched-first_loop pkg thread cfg in
    elim (Bool-cases (matches_thread pkg thread cfg)) [
      | inl hit ↦
          rw (matched, hit)
            (finish-ResultDir pkg cfg topo _ _ true (ensure_cpuset_dir-name os _ topo m))
      | inr miss ↦
          rw (matched, miss)
            (finish-ResultDir pkg cfg topo _ _ false
              (fallback_rules-Gathered os pkg topo cfg.rules _ m named
                (λ e. first_loop-none pkg thread cfg miss, inl refl)).1)
    ]
