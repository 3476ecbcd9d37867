-- ===== src/Clusters/Format.antt =====
-- Reading back what `fmt_cpus` of src/cpu.rs writes.
use aether_opt_ext.Base.{
  ℕ, zero, suc, ◌+◌, ◌%◌, ◌^◌, ◌≤◌, ◌<◌, ◌≡◌, refl, ap, ◌∙◌, true, ◌||◌, none, List, [], ◌∷◌, ◌++◌,
  map, arith, ltb, ◌==◌, length, any, All, Bool-cases, inl, inr,
}
use aether_opt_ext.Base.Text.{Text, split, join}
use aether_opt_ext.CpuSet.{is_set, cpu_setsize}
use aether_opt_ext.CpuRange.{from_range}
use aether_opt_ext.CpuRange.Parse.{part_covers, is_set-parse_cpu_ranges}
use aether_opt_ext.CpuRange.Ranges.{range_text, ranges_text, in_range, in_ranges, ValidRange}
use aether_opt_ext.CpuRange.RoundTrip.{parts-ranges_text}
use aether_opt_ext.Topology.Detect.Groups.{has_cpu}
use aether_opt_ext.Clusters.{run_text, run_end, run_parts, fmt_cpus}

abbrev pub InSet : ℕ → Type 0
InSet c = c < cpu_setsize

-- The inner loop takes a run and leaves the rest.
record RunOf (end : ℕ) (cs : List ℕ) (r : ℕ × List ℕ) : Type 0 where
  rises : end ≤ r.0
  below : r.0 < cpu_setsize
  shorter : length r.1 ≤ length cs
  in_set : All InSet r.1
  same : (j : ℕ) → (in_range j (end, r.0) || has_cpu j r.1) ≡ (end == j || has_cpu j cs)

run_end-RunOf : (end : ℕ) (cs : List ℕ) → InSet end → All InSet cs → RunOf end cs (run_end end cs)
unfolding run_end
run_end-RunOf end [] h v = record {
  rises = omega arith;
  below = h;
  shorter = omega arith;
  in_set = tt;
  same = λ j. ground arith;
}
run_end-RunOf end (c ∷ cs) h (hc, v) = elim (Bool-cases (c == (end + 1) % 2 ^ 64)) [
  | inl next ↦
      let e : c ≡ end + 1 = ground arith in
      let r = run_end-RunOf c cs hc v in
      rw next (record {
        rises = omega (arith, r.rises);
        below = r.below;
        shorter = omega (arith, r.shorter);
        in_set = r.in_set;
        same = λ j. ground (arith, r.same j, r.rises);
      })
  | inr gap ↦ rw gap (record {
    rises = omega arith;
    below = h;
    shorter = omega arith;
    in_set = (hc, v);
    same = λ j. ground arith;
  })
]

has_cpu-below :
    (j : ℕ) (cs : List ℕ) → All InSet cs → has_cpu j cs ≡ true → ltb j cpu_setsize ≡ true
has_cpu-below j [] v h = absurd (ground arith)
has_cpu-below j (c ∷ cs) (hc, v) h = ground (arith, has_cpu-below j cs v)

runs : ℕ → List ℕ → List (ℕ × ℕ)
runs rounds [] = []
runs zero (c ∷ cs) = []
runs (suc rounds) (c ∷ cs) = let r = run_end c cs in (c, r.0) ∷ runs rounds r.1

run_parts-runs :
    (rounds : ℕ) (cpus : List ℕ) → run_parts rounds cpus ≡ map range_text (runs rounds cpus)
unfolding run_parts runs range_text
run_parts-runs rounds [] = refl
run_parts-runs zero (c ∷ cs) = refl
run_parts-runs (suc rounds) (c ∷ cs) =
    let r = run_end c cs in ap (λ ps. run_text c r.0 ∷ ps) (run_parts-runs rounds r.1)

join-ranges_text : (rs : List (ℕ × ℕ)) → join b',' (map range_text rs) ≡ ranges_text rs
unfolding join ranges_text
join-ranges_text [] = refl
join-ranges_text (r ∷ []) = refl
join-ranges_text (r ∷ q ∷ rs) = ap (λ t. range_text r ++ b',' ∷ t) (join-ranges_text (q ∷ rs))

runs-Valid :
    (rounds : ℕ) (cpus : List ℕ)
    → All InSet cpus
    → length cpus ≤ rounds
    → All ValidRange (runs rounds cpus)
      × ((j : ℕ) → in_ranges j (runs rounds cpus) ≡ has_cpu j cpus)
unfolding runs
runs-Valid rounds [] v h = (tt, λ j. refl)
runs-Valid zero (c ∷ cs) v h = absurd (omega arith)
runs-Valid (suc rounds) (c ∷ cs) (hc, v) h =
    let r = run_end-RunOf c cs hc v in
    let (valid, same) = runs-Valid rounds (run_end c cs).1 r.in_set (omega (arith, r.shorter)) in
    (((r.rises, r.below), valid), λ j. ground (arith, same j, r.same j))

-- The text of CPUs below 1024, at least one, in any order and with repeats, is read back as the set
-- of exactly these CPUs.
pub from_range-fmt_cpus :
    (cpus : List ℕ) (j : ℕ)
    → 0 < length cpus
    → All InSet cpus
    → is_set (from_range (fmt_cpus cpus)) j ≡ has_cpu j cpus
unfolding fmt_cpus from_range
from_range-fmt_cpus [] j p v = absurd (omega arith)
from_range-fmt_cpus (c ∷ cs) j p v =
    let cpus : List ℕ = c ∷ cs in
    let (valid, same) = runs-Valid (length cpus) cpus v (omega arith) in
    let text =
      ap (λ ps. join b',' ps) (run_parts-runs (length cpus) cpus)
      ∙ join-ranges_text (runs (length cpus) cpus) in
    ground (
      arith,
      is_set-parse_cpu_ranges (join b',' (run_parts (length cpus) cpus)) none j,
      ap (λ (t : Text). any (part_covers j) (split b',' t)) text,
      parts-ranges_text j (runs (length cpus) cpus) valid,
      same j,
      has_cpu-below j cpus v,
    )
