-- ===== src/RuleMatch.antt =====
-- src/rule_match.rs: the CPUs of a thread by the rules of its package.
pub mod Loops
pub mod Union
pub mod Unnamed
pub mod Dir
pub mod Frame
use aether_opt_ext.Base.{
  ℕ, ◌≡◌, Bool, true, false, not, ◌&&◌, ◌||◌, Option, none, some, List, [], ◌∷◌, State, ◌>>=◌, pure,
  ◌==◌, if◌then◌else◌,
}
use aether_opt_ext.Base.Text.{Text, is_empty, text_eq}
use aether_opt_ext.CpuSet.{CpuSet, new, or, count}
use aether_opt_ext.CpuRange.{from_range}
use aether_opt_ext.Os.{Os}
use aether_opt_ext.Os.Machine.{Machine}
use aether_opt_ext.Topology.{CpuTopology, ensure_cpuset_dir}
use aether_opt_ext.Config.{Rule, AppConfig, fnmatch, pkg_has_thread_rules}

pub record AffinityResult : Type 0 where
  pub cpus : CpuSet
  pub cpuset_dir : Text
  pub is_thread_rule : Bool

unfoldable pub cpuset_from_rule : Rule → CpuSet
cpuset_from_rule rule = from_range rule.cpus

-- `cpus` and `matched` of the first loop.
pub record Merged : Type 0 where
  pub cpus : CpuSet
  pub matched : Bool

abbrev pub is_thread_rule_of : Text → Text → Rule → Bool
is_thread_rule_of pkg thread rule =
    not (not (text_eq rule.pkg pkg) || is_empty rule.thread) && fnmatch rule.thread thread

unfoldable pub merge_rule : Text → Text → Rule → Merged → Merged
merge_rule pkg thread rule acc =
    if is_thread_rule_of pkg thread rule
    then record { cpus = or acc.cpus (cpuset_from_rule rule); matched = true }
    else acc

unfoldable pub merge_rules : Text → Text → List Rule → Merged → Merged
merge_rules pkg thread [] acc = acc
merge_rules pkg thread (rule ∷ rules) acc =
    merge_rules pkg thread rules (merge_rule pkg thread rule acc)

-- The variables of the second loop.
pub record Fallback : Type 0 where
  pub cpus : CpuSet
  pub cpuset_dir : Text
  pub fallback_seen : Bool

abbrev pub is_package_rule_of : Text → Rule → Bool
is_package_rule_of pkg rule = not (not (text_eq rule.pkg pkg) || not (is_empty rule.thread))

-- What stands behind both loops.
unfoldable pub finish :
    Text → AppConfig → CpuTopology → CpuSet → Text → Bool → Option AffinityResult
finish pkg cfg topo cpus cpuset_dir matched =
    if count cpus == 0
    then (if pkg_has_thread_rules cfg pkg
        then some (record { cpus = topo.present_cpus; cpuset_dir = []; is_thread_rule = false })
        else none)
    else some (record { cpus = cpus; cpuset_dir = cpuset_dir; is_thread_rule = matched })

abbrev pub merge_start : Merged
merge_start = record { cpus = new; matched = false }

-- The first loop runs only for a thread with a name.
unfoldable pub first_loop : Text → Text → AppConfig → Merged
first_loop pkg thread cfg =
    if is_empty thread then merge_start else merge_rules pkg thread cfg.rules merge_start

module _ {W B : Type 0} (os : Os W) where
  -- The first package rule gives the directory; a second one clears it.
  unfoldable pub fallback_dir : Rule → CpuSet → Bool → CpuTopology → State (Machine W B) Text
  fallback_dir rule cpus seen topo m =
      let made = ensure_cpuset_dir os cpus topo m in
      if seen then ([], m) else if is_empty rule.cpuset_dir then made else (rule.cpuset_dir, m)

  unfoldable pub fallback_rule : Text → CpuTopology → Rule → Fallback → State (Machine W B) Fallback
  fallback_rule pkg topo rule acc m =
      let cpus = or acc.cpus (cpuset_from_rule rule) in
      let dir = fallback_dir rule cpus acc.fallback_seen topo m in
      if is_package_rule_of pkg rule
      then (record { cpus = cpus; cpuset_dir = dir.0; fallback_seen = true }, dir.1)
      else (acc, m)

  unfoldable pub fallback_rules :
      Text → CpuTopology → List Rule → Fallback → State (Machine W B) Fallback
  fallback_rules pkg topo [] acc = pure acc
  fallback_rules pkg topo (rule ∷ rules) acc = do
    acc' ← fallback_rule pkg topo rule acc
    fallback_rules pkg topo rules acc'

  unfoldable pub thread_affinity :
      Text → Text → AppConfig → CpuTopology → State (Machine W B) (Option AffinityResult)
  thread_affinity pkg thread cfg topo m =
      let merged = first_loop pkg thread cfg in
      let dir = ensure_cpuset_dir os merged.cpus topo m in
      let rest =
        fallback_rules pkg topo cfg.rules
          (record { cpus = merged.cpus; cpuset_dir = []; fallback_seen = false }) m in
      if merged.matched
      then (finish pkg cfg topo merged.cpus dir.0 true, dir.1)
      else (finish pkg cfg topo rest.0.cpus rest.0.cpuset_dir false, rest.1)
