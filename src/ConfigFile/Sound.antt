-- ===== src/ConfigFile/Sound.antt =====
-- What `load`, `merge` and `hot_reload` make of the rules and the set of packages.
use aether_opt_ext.Base.{
  ℕ, refl, Bool, true, false, not, ◌||◌, Option, none, some, List, [], ◌∷◌, Bool-cases, inl, inr,
  if◌then◌else◌, All,
}
use aether_opt_ext.Base.Text.{Text, codes}
use aether_opt_ext.CpuRange.{from_range, to_range_string}
use aether_opt_ext.Os.{Os}
use aether_opt_ext.Os.Machine.{Machine}
use aether_opt_ext.Topology.{CpuTopology}
use aether_opt_ext.Config.{Rule, AppConfig}
use aether_opt_ext.RuleMatch.Dir.{NamesCpus, RuleDir}
use aether_opt_ext.Bpf.{has_text}
use aether_opt_ext.ConfigFile.{
  Loaded, nothing_loaded, Merging, other_cpus, comm_of, packages_of, is_joke, merge_pkgs,
  merge_entries, merge_root, merge_data, merge, other_cpuset_dir, load_pkgs, load_entries,
  config_at, load_root, load_data, load, reload_with, hot_reload,
}
use aether_opt_ext.Entries.{Json}
use aether_opt_ext.ConfigFile.Rules.{
  RulesOf, has_text-insert_texts, has_text-head, RulesOf-more, push-RulesOf,
}

module _ {J : Type 0} (json : Json J) where
  merge_pkgs-RulesOf :
      (pl : List Text) (e : J) (acc : Merging)
      → RulesOf acc.set acc.rules
      → RulesOf (merge_pkgs json pl e acc).set (merge_pkgs json pl e acc).rules
  unfolding merge_pkgs
  merge_pkgs-RulesOf [] e acc h = h
  merge_pkgs-RulesOf (def ∷ rest) e acc h = elim (Bool-cases (has_text acc.seen_pkgs def)) [
    | inl seen ↦ rw seen h
    | inr new ↦ rw new (
        push-RulesOf json _ def (has_text-head def rest acc.set) acc.rules (other_cpus json e) []
          (comm_of json e) (inl refl)
          (RulesOf-more acc.set _ acc.rules (has_text-insert_texts (def ∷ rest) acc.set) h))
  ]

  merge_entries-RulesOf :
      (es : List J) (acc : Merging)
      → RulesOf acc.set acc.rules
      → RulesOf (merge_entries json es acc).set (merge_entries json es acc).rules
  unfolding merge_entries
  merge_entries-RulesOf [] acc h = h
  merge_entries-RulesOf (e ∷ es) acc h =
      merge_entries-RulesOf es _ (merge_pkgs-RulesOf (packages_of json e) e acc h)

  -- A configuration as the program relies on it.
  merge_root-RulesOf :
      (o : Option J) (cfg : AppConfig)
      → RulesOf cfg.pkg_set cfg.rules
      → RulesOf (merge_root json o cfg).pkg_set (merge_root json o cfg).rules
  unfolding merge_root
  merge_root-RulesOf none cfg h = h
  merge_root-RulesOf (some root) cfg h =
      let start : Merging = record { seen_pkgs = []; set = cfg.pkg_set; rules = cfg.rules } in
      elim (Bool-cases (not (json.is_array root))) [
        | inl other ↦ rw other h
        | inr array ↦ rw array (merge_entries-RulesOf (json.members root) start h)
      ]

  merge_data-RulesOf :
      (o : Option Text) (cfg : AppConfig)
      → RulesOf cfg.pkg_set cfg.rules
      → RulesOf (merge_data json o cfg).pkg_set (merge_data json o cfg).rules
  unfolding merge_data
  merge_data-RulesOf none cfg h = h
  merge_data-RulesOf (some text) cfg h = merge_root-RulesOf (json.parse text) cfg h

-- What `load` returns, if it returns a configuration.
abbrev pub LoadedRules : Option AppConfig → Type 0
LoadedRules none = Unit
LoadedRules (some cfg) = RulesOf cfg.pkg_set cfg.rules

config_at-LoadedRules :
    (topo : CpuTopology) (ebpf : Bool) (acc : Loaded) (mt : Option ℕ)
    → RulesOf acc.pkg_set acc.rules
    → LoadedRules (config_at topo ebpf acc mt)
config_at-LoadedRules topo ebpf acc none h = tt
config_at-LoadedRules topo ebpf acc (some mt) h = h

module _ {J W B : Type 0} (json : Json J) (os : Os W) where
  other_cpuset_dir-NamesCpus :
      (other : Text) (topo : CpuTopology) (m : Machine W B)
      → NamesCpus (from_range other) (other_cpuset_dir json os other topo m).0
  unfolding other_cpuset_dir
  other_cpuset_dir-NamesCpus other topo m = elim (Bool-cases topo.cpuset_enabled) [
    | inr off ↦ rw off (inl refl)
    | inl on ↦ rw on (either _)
  ]
    where
      either :
          (made : Bool)
          → NamesCpus (from_range other) (if made then to_range_string (from_range other) else [])
      either true = inr refl
      either false = inl refl

  load_pkgs-RulesOf :
      (topo : CpuTopology) (pl : List Text) (e : J) (acc : Loaded) (m : Machine W B)
      → RulesOf acc.pkg_set acc.rules
      → RulesOf
          (load_pkgs json os topo pl e acc m).0.pkg_set
          (load_pkgs json os topo pl e acc m).0.rules
  unfolding load_pkgs
  load_pkgs-RulesOf topo [] e acc m h = h
  load_pkgs-RulesOf topo (def ∷ rest) e acc m h =
      push-RulesOf json _ def (has_text-head def rest acc.pkg_set) acc.rules (other_cpus json e) _
        (comm_of json e) (other_cpuset_dir-NamesCpus (other_cpus json e) topo m)
        (RulesOf-more acc.pkg_set _ acc.rules (has_text-insert_texts (def ∷ rest) acc.pkg_set) h)

  load_entries-RulesOf :
      (topo : CpuTopology) (es : List J) (acc : Loaded) (m : Machine W B)
      → RulesOf acc.pkg_set acc.rules
      → RulesOf
          (load_entries json os topo es acc m).0.pkg_set
          (load_entries json os topo es acc m).0.rules
  unfolding load_entries
  load_entries-RulesOf topo [] acc m h = h
  load_entries-RulesOf topo (e ∷ es) acc m h =
      load_entries-RulesOf topo es _ _ (load_pkgs-RulesOf topo (packages_of json e) e acc m h)

  load_root-LoadedRules :
      (path : Text) (topo : CpuTopology) (o : Option J) (m : Machine W B)
      → LoadedRules (load_root json os path topo o m).0
  unfolding load_root
  load_root-LoadedRules path topo none m = tt
  load_root-LoadedRules path topo (some root) m =
      let entries = if json.is_array root then root else json.get root (codes "rules") in
      elim (Bool-cases (is_joke json root || not (json.is_array entries))) [
        | inl stops ↦ rw stops tt
        | inr reads ↦ rw reads (
            config_at-LoadedRules topo _ _ _
              (load_entries-RulesOf topo (json.members entries) nothing_loaded m tt))
      ]

  load_data-LoadedRules :
      (path : Text) (topo : CpuTopology) (o : Option Text) (m : Machine W B)
      → LoadedRules (load_data json os path topo o m).0
  unfolding load_data
  load_data-LoadedRules path topo none m = tt
  load_data-LoadedRules path topo (some text) m =
      load_root-LoadedRules path topo (json.parse text) m

  -- Every rule of a configuration that `load` returns has a directory that is empty or named after
  -- the CPUs of the rule, and a package that is in the set of packages.
  pub load-LoadedRules :
      (path : Text) (topo : CpuTopology) (m : Machine W B)
      → LoadedRules (load json os path topo m).0
  unfolding load
  load-LoadedRules path topo m = load_data-LoadedRules path topo _ _

  pub merge-RulesOf :
      (cfg : AppConfig) (m : Machine W B)
      → RulesOf cfg.pkg_set cfg.rules
      → RulesOf (merge json os cfg m).0.pkg_set (merge json os cfg m).0.rules
  unfolding merge
  merge-RulesOf cfg m h = merge_data-RulesOf json _ cfg h

  reload_with-RulesOf :
      (o : Option AppConfig) (cfg : AppConfig) (m : Machine W B)
      → LoadedRules o
      → RulesOf cfg.pkg_set cfg.rules
      → RulesOf (reload_with json os o cfg m).0.1.pkg_set (reload_with json os o cfg m).0.1.rules
  unfolding reload_with
  reload_with-RulesOf none cfg m l h = h
  reload_with-RulesOf (some new_cfg) cfg m l h = merge-RulesOf new_cfg m l

  -- If every rule of the configuration in use has a directory that is empty or named after its
  -- CPUs, and a package of the set of packages, then `hot_reload` keeps this, with the cached rules
  -- that it merges and also if the new file cannot be read.
  pub hot_reload-RulesOf :
      (config_path : Text) (cfg : AppConfig) (m : Machine W B)
      → RulesOf cfg.pkg_set cfg.rules
      → RulesOf
          (hot_reload json os config_path cfg m).0.1.pkg_set
          (hot_reload json os config_path cfg m).0.1.rules
  unfolding hot_reload
  hot_reload-RulesOf config_path cfg m h =
      reload_with-RulesOf _ cfg _ (load-LoadedRules config_path cfg.topo m) h

pub rules-RuleDir : (set : List Text) (rules : List Rule) → RulesOf set rules → All RuleDir rules
rules-RuleDir set [] h = tt
rules-RuleDir set (rule ∷ rules) (h, hs) = (h.named, rules-RuleDir set rules hs)
