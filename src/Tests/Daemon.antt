-- ===== src/Tests/Daemon.antt =====
-- The configuration's file and the mode without eBPF, at one document and one process.
use aether_opt_ext.Base.{All, ◌++◌, ℕ, refl, ◌||◌, none, some, [], ◌∷◌, ◌==◌, if◌then◌else◌, inr}
use aether_opt_ext.Os.{Os}
use aether_opt_ext.Scanner.{scan_unknown}
use aether_opt_ext.Scanner.Unknown.{IsUnknown, scan_unknown-IsUnknown}
use aether_opt_ext.Base.Text.{ends_with, Text, codes, text_eq}
use aether_opt_ext.RuleMatch.{cpuset_from_rule}
use aether_opt_ext.Bpf.{has_text}
use aether_opt_ext.ConfigFile.{hot_reload}
use aether_opt_ext.Entries.{Json}
use aether_opt_ext.ConfigFile.Sound.{hot_reload-RulesOf}
use aether_opt_ext.ConfigFile.Rules.{RulesOf}
use aether_opt_ext.ProcMode.{new_state, proc_cache_sync}
use aether_opt_ext.ProcMode.Tracked.{Synced, proc_cache_sync-Consistent}
use aether_opt_ext.Tests.Sample.{game_os, game, game_config, machine_with, no_maps}

-- The nodes of one document, by number: the game has the CPUs 0-3, and its thread UnityMain the CPU 7.
abbrev pub document : Json ℕ
document = record {
  parse = λ text. some 0;
  get = λ node key.
      if node == 0
      then (if text_eq key (codes "rules") then 1 else 9)
      else if node == 2
      then (if text_eq key (codes "packages") then 3 else 4)
      else if node == 4
      then (if text_eq key (codes "other") then 5 else 6)
      else 9;
  as_str = λ node.
      if node == 5
      then some (codes "0-3")
      else if node == 7
      then some game
      else if node == 8
      then some (codes "UnityMain")
      else none;
  as_bool = λ node. none;
  is_array = λ node. node == 1 || node == 3 || node == 10;
  is_object = λ node. node == 0 || node == 2 || node == 4 || node == 6;
  members = λ node.
      if node == 1 then 2 ∷ [] else if node == 3 then 7 ∷ [] else if node == 10 then 8 ∷ [] else [];
  entries = λ node. if node == 6 then (codes "7", 10) ∷ [] else [];
}

abbrev config_file : Text
config_file = codes "/data/config.json"

game_config-RulesOf : RulesOf game_config.pkg_set game_config.rules
unfolding cpuset_from_rule has_text text_eq
game_config-RulesOf = (
  record { named = inr refl; known = refl },
  (record { named = inr refl; known = refl }, (record { named = inr refl; known = refl }, tt)),
)

hot_reload-RulesOf_example :
    RulesOf
      (hot_reload document game_os config_file game_config (machine_with no_maps)).0.1.pkg_set
      (hot_reload document game_os config_file game_config (machine_with no_maps)).0.1.rules
hot_reload-RulesOf_example =
    hot_reload-RulesOf document game_os config_file game_config (machine_with no_maps)
      game_config-RulesOf

proc_cache_sync-Consistent_example :
    Synced new_state (proc_cache_sync game_os game_config new_state (machine_with no_maps)).0
proc_cache_sync-Consistent_example =
    proc_cache_sync-Consistent game_os game_config new_state (machine_with no_maps)

-- A world in which an app that is not configured runs.
abbrev other_app : Os (Unit {0})
other_app = record game_os {
  read_file = λ path w. (
    some (
        if ends_with path (codes "status")
        then codes "Uid:" ++ 9 ∷ codes "10123"
        else codes "org.example.other"),
    w,
  );
  read_dir = λ path w. (some (codes "4711" ∷ []), w);
}

scan_unknown-IsUnknown_example :
    All
      (IsUnknown other_app game_config.pkg_set game_config.wild)
      (scan_unknown other_app game_config.pkg_set game_config.wild (machine_with no_maps)).0
scan_unknown-IsUnknown_example =
    scan_unknown-IsUnknown other_app game_config.pkg_set game_config.wild (machine_with no_maps)
