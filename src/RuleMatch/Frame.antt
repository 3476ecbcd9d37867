-- ===== src/RuleMatch/Frame.antt =====
-- `thread_affinity` of src/rule_match.rs and the BPF object.
use aether_opt_ext.Base.{◌≡◌, refl, ◌∙◌, List, [], ◌∷◌, arith, Bool-cases, inl, inr}
use aether_opt_ext.Base.Text.{Text}
use aether_opt_ext.CpuSet.{or}
use aether_opt_ext.Os.{Os}
use aether_opt_ext.Os.Machine.{Machine}
use aether_opt_ext.Topology.{CpuTopology}
use aether_opt_ext.Topology.Dir.{ensure_cpuset_dir-bpf}
use aether_opt_ext.Config.{Rule, AppConfig}
use aether_opt_ext.RuleMatch.{
  Fallback, cpuset_from_rule, is_package_rule_of, first_loop, fallback_dir, fallback_rule,
  fallback_rules, thread_affinity,
}

module _ {W B : Type 0} (os : Os W) (pkg : Text) (topo : CpuTopology) where
  fallback_rule-bpf :
      (rule : Rule) (acc : Fallback) (m : Machine W B)
      → (fallback_rule os pkg topo rule acc m).1.bpf ≡ m.bpf
  unfolding fallback_rule fallback_dir
  fallback_rule-bpf rule acc m =
      let made = ensure_cpuset_dir-bpf os (or acc.cpus (cpuset_from_rule rule)) topo m in
      elim (Bool-cases (is_package_rule_of pkg rule)) [
        | inl mine ↦ rw mine (ground (arith, made))
        | inr other ↦ rw other
      ]

  fallback_rules-bpf :
      (rules : List Rule) (acc : Fallback) (m : Machine W B)
      → (fallback_rules os pkg topo rules acc m).1.bpf ≡ m.bpf
  unfolding fallback_rules
  fallback_rules-bpf [] acc m = refl
  fallback_rules-bpf (rule ∷ rules) acc m =
      fallback_rules-bpf rules _ _ ∙ fallback_rule-bpf rule acc m

  pub thread_affinity-bpf :
      (thread : Text) (cfg : AppConfig) (m : Machine W B)
      → (thread_affinity os pkg thread cfg topo m).1.bpf ≡ m.bpf
  unfolding thread_affinity
  thread_affinity-bpf thread cfg m =
      let merged = first_loop pkg thread cfg in
      elim (Bool-cases merged.matched) [
        | inl hit ↦ rw hit (ensure_cpuset_dir-bpf os merged.cpus topo m)
        | inr miss ↦ rw miss (fallback_rules-bpf cfg.rules _ m)
      ]
