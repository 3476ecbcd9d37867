-- ===== src/CpuRange/Parse.antt =====
-- `parse_cpu_ranges` of src/cpuset.rs against the CPUs that the parts of its text cover.
use aether_opt_ext.Base.{
  ℕ, zero, suc, ◌+◌, ◌-◌, ◌≤◌, ◌≡◌, refl, Bool, false, ◌&&◌, ◌||◌, Option, none, some, List, [],
  ◌∷◌, arith, min, ltb, leb, if◌then◌else◌, any, Bool-cases, inl, inr,
}
use aether_opt_ext.Base.Text.{Text, is_empty, split, trim}
use aether_opt_ext.CpuSet.{CpuSet, IsCpuSet, new, set, is_set, cpu_setsize}
use aether_opt_ext.CpuSet.Member.{is_set-set, is_set-new, set-IsCpuSet, new-IsCpuSet}
use aether_opt_ext.CpuRange.{
  allowed, set_cpus, set_range, part_bounds, parse_part, parse_parts, parse_cpu_ranges,
}

abbrev pub within : ℕ → ℕ → ℕ → Bool
within lo hi j = leb lo j && leb j hi

abbrev pub covered_by : ℕ → Option (ℕ × ℕ) → Bool
covered_by j none = false
covered_by j (some (lo, hi)) = within lo hi j

-- Whether a part between commas names the CPU.
unfoldable pub part_covers : ℕ → Text → Bool
part_covers j text =
    let part = trim text in if is_empty part then false else covered_by j (part_bounds part)

set_cpus-IsCpuSet :
    (present : Option CpuSet) (n i : ℕ) (s : CpuSet)
    → IsCpuSet s
    → IsCpuSet (set_cpus present n i s)
unfolding set_cpus
set_cpus-IsCpuSet present zero i s v = v
set_cpus-IsCpuSet present (suc n) i s v =
    set_cpus-IsCpuSet present n (i + 1) _ (ground (arith, set-IsCpuSet s i v))

is_set-set_cpus :
    (present : Option CpuSet) (n i j : ℕ) (s : CpuSet)
    → IsCpuSet s
    → i + n ≤ cpu_setsize
    → is_set (set_cpus present n i s) j
      ≡ (leb i j && ltb j (i + n) && allowed present j || is_set s j)
unfolding set_cpus
is_set-set_cpus present zero i j s v h = ground arith
is_set-set_cpus present (suc n) i j s v h = ground (
  arith,
  is_set-set s i j v,
  set-IsCpuSet s i v,
  is_set-set_cpus present n (i + 1) j (if allowed present i then set s i else s),
)

set_range-IsCpuSet :
    (present : Option CpuSet) (r : Option (ℕ × ℕ)) (s : CpuSet)
    → IsCpuSet s
    → IsCpuSet (set_range present r s)
unfolding set_range
set_range-IsCpuSet present none s v = v
set_range-IsCpuSet present (some (lo, hi)) s v = set_cpus-IsCpuSet present _ lo s v

is_set-set_range :
    (present : Option CpuSet) (r : Option (ℕ × ℕ)) (s : CpuSet) (j : ℕ)
    → IsCpuSet s
    → is_set (set_range present r s) j
      ≡ (ltb j cpu_setsize && allowed present j && covered_by j r || is_set s j)
unfolding set_range
is_set-set_range present none s j v = ground arith
is_set-set_range present (some (lo, hi)) s j v =
    let n : ℕ = min hi (cpu_setsize - 1) + 1 - lo in
    elim (Bool-cases (leb lo (cpu_setsize - 1))) [
      | inl below ↦ ground (arith, is_set-set_cpus present n lo j s v)
      | inr above ↦
          let nothing : n ≡ 0 = ground arith in rw nothing (unfold set_cpus in ground arith)
    ]

parse_part-IsCpuSet :
    (present : Option CpuSet) (text : Text) (s : CpuSet)
    → IsCpuSet s
    → IsCpuSet (parse_part present text s)
unfolding parse_part
parse_part-IsCpuSet present text s v =
    ground (arith, set_range-IsCpuSet present (part_bounds (trim text)) s v)

is_set-parse_part :
    (present : Option CpuSet) (text : Text) (s : CpuSet) (j : ℕ)
    → IsCpuSet s
    → is_set (parse_part present text s) j
      ≡ (ltb j cpu_setsize && allowed present j && part_covers j text || is_set s j)
unfolding parse_part part_covers
is_set-parse_part present text s j v =
    ground (arith, is_set-set_range present (part_bounds (trim text)) s j v)

parse_parts-IsCpuSet :
    (present : Option CpuSet) (parts : List Text) (s : CpuSet)
    → IsCpuSet s
    → IsCpuSet (parse_parts present parts s)
unfolding parse_parts
parse_parts-IsCpuSet present [] s v = v
parse_parts-IsCpuSet present (part ∷ parts) s v =
    parse_parts-IsCpuSet present parts _ (parse_part-IsCpuSet present part s v)

is_set-parse_parts :
    (present : Option CpuSet) (parts : List Text) (s : CpuSet) (j : ℕ)
    → IsCpuSet s
    → is_set (parse_parts present parts s) j
      ≡ (ltb j cpu_setsize && allowed present j && any (part_covers j) parts || is_set s j)
unfolding parse_parts
is_set-parse_parts present [] s j v = ground arith
is_set-parse_parts present (part ∷ parts) s j v = ground (
  arith,
  is_set-parse_part present part s j v,
  is_set-parse_parts present parts (parse_part present part s) j
      (parse_part-IsCpuSet present part s v),
)

pub parse_cpu_ranges-IsCpuSet :
    (spec : Text) (present : Option CpuSet) → IsCpuSet (parse_cpu_ranges spec present)
unfolding parse_cpu_ranges
parse_cpu_ranges-IsCpuSet spec present =
    ground (arith, new-IsCpuSet, parse_parts-IsCpuSet present (split b',' spec) new new-IsCpuSet)

part_covers-nil : (j : ℕ) → part_covers j [] ≡ false
unfolding part_covers trim
part_covers-nil j = refl

-- A CPU is in the parsed set exactly when it is below 1024, a part between the commas covers it,
-- and it is in `present` if that is given.
pub is_set-parse_cpu_ranges :
    (spec : Text) (present : Option CpuSet) (j : ℕ)
    → is_set (parse_cpu_ranges spec present) j
      ≡ (ltb j cpu_setsize && allowed present j && any (part_covers j) (split b',' spec))
is_set-parse_cpu_ranges [] present j =
    unfold parse_cpu_ranges split in ground (arith, is_set-new j, part_covers-nil j)
is_set-parse_cpu_ranges (c ∷ spec) present j =
    unfold parse_cpu_ranges in
    ground
      (arith, is_set-new j, is_set-parse_parts present (split b',' (c ∷ spec)) new j new-IsCpuSet)
