-- ===== src/ConfigFile/Rules.antt =====
-- The rules of one entry of a configuration.
use aether_opt_ext.Base.{
  ◌≡◌, refl, sym, ◌∙◌, true, ◌||◌, Option, none, some, List, [], ◌∷◌, ◌++◌, arith, Bool-cases, inl,
  inr, All, All-append,
}
use aether_opt_ext.Base.Text.{Text, text_eq, text_eq_refl, text_eq→eq}
use aether_opt_ext.CpuRange.{from_range}
use aether_opt_ext.Config.{Rule}
use aether_opt_ext.RuleMatch.{cpuset_from_rule}
use aether_opt_ext.RuleMatch.Dir.{NamesCpus, RuleDir}
use aether_opt_ext.Bpf.{has_text}
use aether_opt_ext.ConfigFile.{name_rules, entry_rules, comm_rules}
use aether_opt_ext.Entries.{Json, insert_text, insert_texts, package_rule, thread_rule, cons_rule}

-- A rule as the program relies on it, when `set` are the packages.
pub record RuleOf (set : List Text) (rule : Rule) : Type 0 where
  pub named : RuleDir rule
  pub known : has_text set rule.pkg ≡ true

abbrev pub RulesOf : List Text → List Rule → Type 0
RulesOf set rules = All (RuleOf set) rules

has_text-insert_text :
    (s : Text) (set : List Text) (t : Text)
    → has_text (insert_text s set) t ≡ (text_eq s t || has_text set t)
has_text-insert_text s set t = elim (Bool-cases (has_text set s)) [
  | inl known ↦ elim (Bool-cases (text_eq s t)) [
    | inl same ↦ rw (known, same) (rw (sym (text_eq→eq s t same)) known)
    | inr other ↦ rw (known, other)
  ]
  | inr new ↦ rw new (unfold has_text in refl)
]

pub has_text-insert_texts :
    (texts set : List Text) (t : Text)
    → has_text set t ≡ true
    → has_text (insert_texts texts set) t ≡ true
unfolding insert_texts
has_text-insert_texts [] set t h = h
has_text-insert_texts (s ∷ texts) set t h =
    has_text-insert_texts texts (insert_text s set) t (has_text-insert_text s set t ∙ ground arith)

pub has_text-head :
    (s : Text) (texts set : List Text) → has_text (insert_texts (s ∷ texts) set) s ≡ true
unfolding insert_texts
has_text-head s texts set =
    has_text-insert_texts texts (insert_text s set) s
      (has_text-insert_text s set s ∙ ground (arith, text_eq_refl s))

pub RulesOf-more :
    (set more : List Text) (rules : List Rule)
    → ((t : Text) → has_text set t ≡ true → has_text more t ≡ true)
    → RulesOf set rules
    → RulesOf more rules
RulesOf-more set more [] grows h = tt
RulesOf-more set more (rule ∷ rules) grows (h, hs) = (
  record { named = h.named; known = grows rule.pkg h.known },
  RulesOf-more set more rules grows hs,
)

module _ (set : List Text) (def : Text) (mem : has_text set def ≡ true) where
  thread_rule-RuleOf : (cpus name : Text) → RuleOf set (thread_rule def cpus name)
  thread_rule-RuleOf cpus name = record { named = inl refl; known = mem }

  cons_rule-RulesOf :
      (cpus : Text) (o : Option Text) (rules : List Rule)
      → RulesOf set rules
      → RulesOf set (cons_rule def cpus o rules)
  cons_rule-RulesOf cpus none rules h = h
  cons_rule-RulesOf cpus (some name) rules h = (thread_rule-RuleOf cpus name, h)

module _ {J : Type 0} (json : Json J) (set : List Text) (def : Text)
    (mem : has_text set def ≡ true) where
  name_rules-RulesOf : (cpus : Text) (vs : List J) → RulesOf set (name_rules json def cpus vs)
  unfolding name_rules
  name_rules-RulesOf cpus [] = tt
  name_rules-RulesOf cpus (v ∷ vs) =
      cons_rule-RulesOf set def mem cpus (json.as_str v) _ (name_rules-RulesOf cpus vs)

  entry_rules-RulesOf : (es : List (Text × J)) → RulesOf set (entry_rules json def es)
  unfolding entry_rules
  entry_rules-RulesOf [] = tt
  entry_rules-RulesOf ((cpus, names) ∷ es) =
      All-append (RuleOf set) _ _ (name_rules-RulesOf cpus (json.members names))
        (entry_rules-RulesOf es)

  comm_rules-RulesOf : (comm : J) → RulesOf set (comm_rules json def comm)
  unfolding comm_rules
  comm_rules-RulesOf comm = elim (Bool-cases (json.is_object comm)) [
    | inl object ↦ rw object (entry_rules-RulesOf (json.entries comm))
    | inr other ↦ rw other tt
  ]

  -- The rules of an entry behind those that are there.
  pub push-RulesOf :
      (rules : List Rule) (cpus dir : Text) (comm : J)
      → NamesCpus (from_range cpus) dir
      → RulesOf set rules
      → RulesOf set ((rules ++ package_rule def cpus dir ∷ []) ++ comm_rules json def comm)
  unfolding cpuset_from_rule
  push-RulesOf rules cpus dir comm named h =
      All-append (RuleOf set) _ _
        (All-append (RuleOf set) rules _ h (record { named = named; known = mem }, tt))
        (comm_rules-RulesOf comm)
