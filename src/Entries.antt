-- ===== src/Entries.antt =====
-- src/config.rs: the JSON that `load` and `cache::merge` read, and the rules of one entry of it.
use aether_opt_ext.Base.{Bool, false, ◌||◌, Option, none, some, List, [], ◌∷◌, ◌++◌, if◌then◌else◌}
use aether_opt_ext.Base.Text.{Text, text_eq, contains_char}
use aether_opt_ext.Config.{Rule, rule_prio}
use aether_opt_ext.Bpf.{has_text}

-- What the program asks of the crate `json`: a member that is not there is a null value, and only
-- arrays have `members` and only objects have `entries`.
pub record Json (J : Type 0) : Type 0 where
  pub parse : Text → Option J
  pub get : J → Text → J
  pub as_str : J → Option Text
  pub as_bool : J → Option Bool
  pub is_array : J → Bool
  pub is_object : J → Bool
  pub members : J → List J
  pub entries : J → List (Text × J)

-- `set.insert(s)`
abbrev pub insert_text : Text → List Text → List Text
insert_text s set = if has_text set s then set else s ∷ set

unfoldable pub insert_texts : List Text → List Text → List Text
insert_texts [] set = set
insert_texts (s ∷ texts) set = insert_texts texts (insert_text s set)

-- The patterns among the packages, behind those that are there.
unfoldable pub push_wild : List Text → List Text → List Text
push_wild [] wild = wild
push_wild (pk ∷ pkgs) wild =
    push_wild pkgs
      (if contains_char b'*' pk || contains_char b'?' pk then wild ++ pk ∷ [] else wild)

abbrev pub str_or : Option Text → Text → Text
str_or none d = d
str_or (some s) d = s

abbrev pub is_text : Option Text → Text → Bool
is_text none s = false
is_text (some t) s = text_eq t s

abbrev pub or_false : Option Bool → Bool
or_false none = false
or_false (some b) = b

abbrev pub package_rule : Text → Text → Text → Rule
package_rule pkg cpus dir = record {
  pkg = pkg;
  thread = [];
  cpus = cpus;
  prio = 200;
  cpuset_dir = dir;
}

abbrev pub thread_rule : Text → Text → Text → Rule
thread_rule pkg cpus name = record {
  pkg = pkg;
  thread = name;
  cpus = cpus;
  prio = rule_prio name;
  cpuset_dir = [];
}

abbrev pub cons_some : Option Text → List Text → List Text
cons_some none texts = texts
cons_some (some s) texts = s ∷ texts

abbrev pub cons_rule : Text → Text → Option Text → List Rule → List Rule
cons_rule pkg cpus none rules = rules
cons_rule pkg cpus (some name) rules = thread_rule pkg cpus name ∷ rules
