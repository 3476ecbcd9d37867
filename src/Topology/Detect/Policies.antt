-- ===== src/Topology/Detect/Policies.antt =====
-- `detect_core_types` of src/cpuset.rs by the policies that it reads from sysfs.
use mathlib.Core.Path.{subst}
use aether_opt_ext.Base.{
  ℕ, ◌≡◌, refl, sym, ap, ◌∙◌, Bool, not, ◌&&◌, ◌||◌, Option, none, some, List, [], ◌∷◌, State,
  arith, ◌==◌, if◌then◌else◌,
}
use aether_opt_ext.Base.Text.{Text, codes, starts_with, is_empty}
use aether_opt_ext.Os.{Os}
use aether_opt_ext.Os.Machine.{Machine, call}
use aether_opt_ext.Topology.{join_path}
use aether_opt_ext.Topology.Detect.{
  Group, add_group, core_types, freq_of, cpus_in, cpufreq, scan_policy, scan_policies, scan_dir,
  detect_core_types,
}
use aether_opt_ext.Topology.Detect.Groups.{
  held, every, Apart, add_group-Apart, held-add_group, every-add_group,
}
use aether_opt_ext.Topology.Detect.Kinds.{KindsOf, core_types-KindsOf, KindsOf-same}

abbrev pub cons_some {ℓ} : {A : Type ℓ} → Option A → List A → List A
cons_some none xs = xs
cons_some (some x) xs = x ∷ xs

abbrev add_some : Option Group → List Group → List Group
add_some none groups = groups
add_some (some g) groups = add_group g.0 g.1 groups

add_some-Apart : (p : Option Group) (gs : List Group) → Apart gs → Apart (add_some p gs)
add_some-Apart none gs a = a
add_some-Apart (some g) gs a = add_group-Apart g.0 g.1 gs a

module _ (q : ℕ → Bool) where
  held-add_some :
      (j : ℕ) (p : Option Group) (gs ps : List Group)
      → (held q j (add_some p gs) || held q j ps) ≡ (held q j gs || held q j (cons_some p ps))
  held-add_some j none gs ps = refl
  held-add_some j (some g) gs ps = ground (arith, held-add_group q j g.0 g.1 gs)

  every-add_some :
      (p : Option Group) (gs ps : List Group)
      → (every q (add_some p gs) && every q ps) ≡ (every q gs && every q (cons_some p ps))
  every-add_some none gs ps = refl
  every-add_some (some g) gs ps = ground (arith, every-add_group q g.0 g.1 gs)

module _ {W B : Type 0} (os : Os W) where
  -- A policy that counts: its directory has the right name, its frequency is not 0, and it has a CPU.
  unfoldable pub policy : Text → State (Machine W B) (Option Group)
  policy name m =
      let path = join_path cpufreq name in
      let max = call (os.read_file (join_path path (codes "cpuinfo_max_freq"))) m in
      let related = call (os.read_file (join_path path (codes "related_cpus"))) max.1 in
      if not (starts_with name (codes "policy"))
      then (none, m)
      else if freq_of max.0 == 0
      then (none, max.1)
      else if is_empty (cpus_in related.0)
      then (none, related.1)
      else (some (freq_of max.0, cpus_in related.0), related.1)

  unfoldable pub policies : List Text → Machine W B → List Group
  unfolding policy
  policies [] m = []
  policies (name ∷ names) m = let p = policy name m in cons_some p.0 (policies names p.1)

  abbrev pub policies_in : Option (List Text) → Machine W B → List Group
  policies_in none m = []
  policies_in (some names) m = policies names m

  -- The policies that count, in the order in which they are read.
  abbrev pub all_policies : Machine W B → List Group
  all_policies m = let dir = call (os.read_dir cpufreq) m in policies_in dir.0 dir.1

  scan_policy-policy :
      (name : Text) (groups : List Group) (m : Machine W B)
      → scan_policy os name groups m ≡ (add_some (policy name m).0 groups, (policy name m).1)
  unfolding scan_policy policy
  scan_policy-policy name groups m = ground arith

  scan_policy-Apart :
      (name : Text) (gs : List Group) (m : Machine W B)
      → Apart gs
      → Apart (scan_policy os name gs m).0
  scan_policy-Apart name gs m a =
      subst (λ (r : List Group × Machine W B). Apart r.0) (sym (scan_policy-policy name gs m))
        (add_some-Apart (policy name m).0 gs a)

  scan_policies-Apart :
      (names : List Text) (gs : List Group) (m : Machine W B)
      → Apart gs
      → Apart (scan_policies os names gs m).0
  unfolding scan_policies
  scan_policies-Apart [] gs m a = a
  scan_policies-Apart (name ∷ names) gs m a =
      scan_policies-Apart names _ _ (scan_policy-Apart name gs m a)

  module _ (q : ℕ → Bool) where
    held-scan_policies :
        (j : ℕ) (names : List Text) (gs : List Group) (m : Machine W B)
        → held q j (scan_policies os names gs m).0 ≡ (held q j gs || held q j (policies names m))
    unfolding scan_policies policies
    held-scan_policies j [] gs m = ground arith
    held-scan_policies j (name ∷ names) gs m =
        ap (λ (r : List Group × Machine W B). held q j (scan_policies os names r.0 r.1).0)
          (scan_policy-policy name gs m)
        ∙ (held-scan_policies j names _ _ ∙ held-add_some q j (policy name m).0 gs _)

    every-scan_policies :
        (names : List Text) (gs : List Group) (m : Machine W B)
        → every q (scan_policies os names gs m).0 ≡ (every q gs && every q (policies names m))
    unfolding scan_policies policies
    every-scan_policies [] gs m = ground arith
    every-scan_policies (name ∷ names) gs m =
        ap (λ (r : List Group × Machine W B). every q (scan_policies os names r.0 r.1).0)
          (scan_policy-policy name gs m)
        ∙ (every-scan_policies names _ _ ∙ every-add_some q (policy name m).0 gs _)

  dir_kinds :
      (j : ℕ) (names : Option (List Text)) (m : Machine W B)
      → KindsOf (policies_in names m) (core_types (scan_dir os names m).0) j
  dir_kinds j none m = core_types-KindsOf j [] tt
  dir_kinds j (some names) m =
      KindsOf-same (scan_policies os names [] m).0 (policies names m) j
        (λ q. held-scan_policies q j names [] m) (λ q. every-scan_policies q names [] m) _
        (core_types-KindsOf j _ (scan_policies-Apart names [] m tt))

  -- A CPU below 1024 is in `e` exactly if a policy of the lowest frequency has it, in `h` if one of
  -- the highest has it and that is not the lowest, and in `p` if one of another frequency has it;
  -- a policy counts if its directory is named so, its frequency is not 0 and it has a CPU.
  pub detect_core_types-KindsOf :
      (m : Machine W B) (j : ℕ) → KindsOf (all_policies m) (detect_core_types os m).0 j
  unfolding detect_core_types
  detect_core_types-KindsOf m j = let dir = call (os.read_dir cpufreq) m in dir_kinds j dir.0 dir.1
