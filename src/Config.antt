-- ===== src/Config.antt =====
-- src/config.rs: patterns, rules and the loaded configuration.
pub mod Match
pub mod Priority
use aether_opt_ext.Base.{
  ℕ, zero, suc, ◌+◌, ◌^◌, ◌%◌, ◌≡◌, refl, Bool, true, false, not, ◌&&◌, ◌||◌, Option, none, some,
  List, [], ◌∷◌, ltb, leb, ◌==◌, if◌then◌else◌, length, take, drop, any,
}
use aether_opt_ext.Base.Text.{
  Text, codes, is_empty, text_eq, starts_with, ends_with, find, contains_char,
}
use aether_opt_ext.Topology.{CpuTopology}

-- The part of `fnmatch` behind `pat.find('*')`.
abbrev match_at : Text → Text → Option ℕ → Bool
match_at pat name none = text_eq pat name
match_at pat name (some pos) =
    starts_with name (take pos pat)
    && (is_empty (drop (pos + 1) pat) || ends_with (drop pos name) (drop (pos + 1) pat))

unfoldable pub fnmatch : Text → Text → Bool
fnmatch pat name = if is_empty pat then false else match_at pat name (find b'*' pat)

-- `chars()` sees one character for each byte that continues no other.
abbrev begins_char : ℕ → Bool
begins_char b = not (leb 0x80 b && ltb b 0xc0)

-- `pat.chars().filter(|c| !matches!(c, '*' | '?' | '[' | ']')).count()`
non_wild : Text → ℕ
non_wild [] = 0
non_wild (b ∷ s) =
    let rest = non_wild s in
    if begins_char b && not (b == b'*' || b == b'?' || b == b'[' || b == b']')
    then suc rest
    else rest

-- The sum of two `i32` patterns.
abbrev add_i32 : ℕ → ℕ → ℕ
add_i32 a b = (a + b) % 2 ^ 32

abbrev as_i32 : ℕ → ℕ
as_i32 n = n % 2 ^ 32

unfoldable pub rule_prio : Text → ℕ
unfolding non_wild
rule_prio pat =
    let nw = as_i32 (non_wild pat) in
    if is_empty pat
    then 200
    else if not (contains_char b'*' pat) && not (contains_char b'?' pat)
    then add_i32 1000 (as_i32 (length pat))
    else if contains_char b'[' pat
    then add_i32 500 nw
    else if contains_char b'?' pat
    then add_i32 300 nw
    else add_i32 100 nw

pub record Rule : Type 0 where
  pub pkg : Text
  pub thread : Text
  pub cpus : Text
  pub prio : ℕ
  pub cpuset_dir : Text

-- `pkg_set` is a hash set: a list in its order of iteration.
pub record AppConfig : Type 0 where
  pub rules : List Rule
  pub pkg_set : List Text
  pub wild : List Text
  pub mtime : ℕ
  pub ebpf : Bool
  pub topo : CpuTopology

unfoldable pub pkg_has_thread_rules : AppConfig → Text → Bool
pkg_has_thread_rules cfg pkg =
    any (λ (r : Rule). not (is_empty r.thread) && fnmatch r.pkg pkg) cfg.rules

priorities :
    (rule_prio (codes "UnityMain") ≡ 1009)
    × (rule_prio (codes "Thread-???") ≡ 307)
    × (rule_prio (codes "Thread-[0-9]") ≡ 1012)
    × (rule_prio (codes "Render*") ≡ 106)
unfolding rule_prio
priorities = (refl, refl, refl, refl)
