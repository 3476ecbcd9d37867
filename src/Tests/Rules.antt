-- ===== src/Tests/Rules.antt =====
-- Patterns and rules, at the configuration of a game.
use aether_opt_ext.Base.{◌<◌, ◌≡◌, ◌↔◌, ◌≢◌, inr, refl, true, some, [], ◌∷◌, ◌++◌, arith, All, ◌⊎◌}
use aether_opt_ext.Base.Text.{codes, find, text_eq, starts_with, ends_with}
use aether_opt_ext.Config.{AppConfig, fnmatch, rule_prio, pkg_has_thread_rules}
use aether_opt_ext.Config.Match.{Spans, fnmatch-star_iff, fnmatch-plain_iff}
use aether_opt_ext.Config.Priority.{rule_prio-exact_above}
use aether_opt_ext.RuleMatch.{cpuset_from_rule, thread_affinity}
use aether_opt_ext.RuleMatch.Unnamed.{all_or_nothing, thread_affinity-Unnamed}
use aether_opt_ext.RuleMatch.Loops.{wanted, matches_thread}
use aether_opt_ext.RuleMatch.Union.{Outcome, thread_affinity_lem}
use aether_opt_ext.RuleMatch.Dir.{RuleDir, ResultDir, thread_affinity-ResultDir}
use aether_opt_ext.Bpf.{comm_to_pkg, has_text, first_text}
use aether_opt_ext.Bpf.Search.{Reason, comm_to_pkg-Reason}
use aether_opt_ext.OldScan.{no_best, pkg_matches, pick_rule, pick_rules}
use aether_opt_ext.OldScan.Choice.{weight, AtMost, TakenFrom, pick_rules-best}
use aether_opt_ext.CpuRange.{from_range}
use aether_opt_ext.Tests.Sample.{rule_of, phone, game, game_config, machine_with, no_maps}
use aether_opt_ext.Tests.Maps.{plain_os}

-- The thread matches two rules and gets the CPUs of both.
thread_affinity_lem_example :
    Outcome
      (wanted game (codes "UnityMain") game_config)
      (matches_thread game (codes "UnityMain") game_config)
      (pkg_has_thread_rules game_config game)
      phone.present_cpus
      (thread_affinity
        (plain_os 0)
        game
        (codes "UnityMain")
        game_config
        phone
        (machine_with no_maps)).0
thread_affinity_lem_example =
    thread_affinity_lem (plain_os 0) game (codes "UnityMain") game_config phone
      (machine_with no_maps)

rules_RuleDir : All RuleDir game_config.rules
unfolding cpuset_from_rule
rules_RuleDir = (inr refl, (inr refl, (inr refl, tt)))

thread_affinity-ResultDir_example :
    ResultDir
      (thread_affinity
        (plain_os 0)
        game
        (codes "UnityMain")
        game_config
        phone
        (machine_with no_maps)).0
thread_affinity-ResultDir_example =
    thread_affinity-ResultDir (plain_os 0) game (codes "UnityMain") game_config phone
      (machine_with no_maps) rules_RuleDir

fnmatch-star_iff_example :
    (fnmatch (codes "Job." ++ b'*' ∷ codes "er") (codes "Job.Worker") ≡ true)
    ↔ Spans (codes "Job.") (codes "er") (codes "Job.Worker")
fnmatch-star_iff_example =
    fnmatch-star_iff (codes "Job.") (codes "er") (codes "Job.Worker") (omega arith)

-- A range in a pattern is no range.
fnmatch-plain_iff_example :
    (fnmatch (codes "Thread-[0-9]") (codes "Thread-5") ≡ true)
    ↔ ((codes "Thread-[0-9]" ≢ []) × (codes "Thread-5" ≡ codes "Thread-[0-9]"))
fnmatch-plain_iff_example =
    fnmatch-plain_iff (codes "Thread-[0-9]") (codes "Thread-5") (omega arith)

rule_prio-exact_above_example :
    (rule_prio (codes "Unity*") < rule_prio (codes "UnityMain"))
    × (rule_prio [] < rule_prio (codes "UnityMain"))
rule_prio-exact_above_example =
    rule_prio-exact_above (codes "UnityMain") (codes "Unity*") (λ e. cc) (omega arith) refl
      (omega arith) refl

found : comm_to_pkg (codes "om.example.game") game_config ≡ some game
unfolding comm_to_pkg has_text first_text starts_with ends_with text_eq
found = refl

comm_to_pkg-Reason_example :
    (has_text game_config.pkg_set game ≡ true) × Reason (codes "om.example.game") game
comm_to_pkg-Reason_example = comm_to_pkg-Reason (codes "om.example.game") game_config game found

-- The rules of the game have a pattern in place of its name.
abbrev pattern_config : AppConfig
pattern_config = record game_config {
  rules = rule_of (codes "com.example.*") (codes "UnityMain") (codes "7") ∷ [];
}

thread_affinity-Unnamed_example :
    (thread_affinity
      (plain_os 0)
      game
      (codes "UnityMain")
      pattern_config
      phone
      (machine_with no_maps)).0
    ≡ all_or_nothing (pkg_has_thread_rules pattern_config game) phone.present_cpus
unfolding text_eq
thread_affinity-Unnamed_example =
    thread_affinity-Unnamed (plain_os 0) game (codes "UnityMain") pattern_config phone
      (machine_with no_maps) (refl, tt)

-- "UnityMain" matches all three rules, and the one that is spelled out has the highest priority.
unity_best :
    pick_rules game (codes "UnityMain") game_config.rules no_best
    ≡ record { best = from_range (codes "7"); bp = 1009 }
unfolding pick_rules pick_rule pkg_matches fnmatch text_eq rule_prio from_range find starts_with
unity_best = refl

pick_rules-best_example :
    ((pick_rules game (codes "UnityMain") game_config.rules no_best ≡ no_best)
      ⊎ TakenFrom game
          (codes "UnityMain")
          game_config.rules
          (pick_rules game (codes "UnityMain") game_config.rules no_best))
    × All
        (λ r.
          AtMost
            (pick_rules game (codes "UnityMain") game_config.rules no_best).bp
            (weight game (codes "UnityMain") r))
        game_config.rules
pick_rules-best_example = pick_rules-best game (codes "UnityMain") game_config.rules
