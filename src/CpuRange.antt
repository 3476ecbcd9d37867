-- ===== src/CpuRange.antt =====
-- src/cpuset.rs, `to_range_string`, `push_range` and `parse_cpu_ranges`: a set of CPUs as a text
-- such as "0-3,6-7", which is a rule's `cpus` and the name of a cpuset directory.
pub mod Parse
pub mod Ranges
pub mod Cover
pub mod Print
pub mod RoundTrip
use mathlib.Core.Option
use aether_opt_ext.Base.{
  is_some, ℕ, zero, suc, ◌+◌, ◌-◌, ◌*◌, ◌^◌, ◌≡◌, refl, Bool, true, false, not, ◌&&◌, Option, none,
  some, List, [], ◌∷◌, ◌++◌, bit_and, min, ltb, ◌==◌, if◌then◌else◌, take, drop,
}
use aether_opt_ext.Base.Text.{
  Text, codes, is_empty, find, split, trim, parse_uint, to_string, usize_max,
}
use aether_opt_ext.CpuSet.{CpuSet, new, set, is_set, cpu_setsize, cpu_word_bits}

-- The variables of the loop of `to_range_string`.
pub record Printer : Type 0 where
  pub result : Text
  pub start : Option ℕ
  pub end : Option ℕ
  pub first : Bool

abbrev pub write_range : Text → ℕ → ℕ → Text
write_range s lo hi =
    if lo == hi then s ++ to_string lo else s ++ (to_string lo ++ b'-' ∷ to_string hi)

-- Writes the range, if there is one, behind a comma unless it is the first.
unfoldable pub push_range : Printer → Printer
push_range st = elim st.start [
  | none ↦ st
  | some lo ↦ elim st.end [
    | none ↦ st
    | some hi ↦ record st {
      result = write_range (if st.first then st.result else st.result ++ b',' ∷ []) lo hi;
      first = false;
    }
  ]
]

abbrev is_next : ℕ → Option ℕ → Bool
is_next cpu none = false
is_next cpu (some e) = cpu == e + 1

-- The body of the inner loop at a set bit.
unfoldable pub print_cpu : ℕ → Printer → Printer
print_cpu cpu st =
    if not (is_some st.start)
    then record st { start = some cpu; end = some cpu }
    else if is_next cpu st.end
    then record st { end = some cpu }
    else record (push_range st) { start = some cpu; end = some cpu }

-- The inner loop: `rounds` bits are left, and `bit` is the next.
print_bits : ℕ → ℕ → ℕ → ℕ → Printer → Printer
print_bits word base zero bit st = st
print_bits word base (suc rounds) bit st =
    print_bits word base rounds (bit + 1)
      (if not (bit_and word (2 ^ bit) == 0) then print_cpu (base + bit) st else st)

print_word : ℕ → ℕ → Printer → Printer
print_word word_idx word st =
    if word == 0
    then (if is_some st.start then record (push_range st) { start = none; end = none } else st)
    else print_bits word (word_idx * cpu_word_bits) cpu_word_bits 0 st

print_words : ℕ → List ℕ → Printer → Printer
print_words word_idx [] st = st
print_words word_idx (w ∷ ws) st = print_words (word_idx + 1) ws (print_word word_idx w st)

abbrev printer_start : Printer
printer_start = record { result = []; start = none; end = none; first = true }

unfoldable pub to_range_string : CpuSet → Text
unfolding print_words print_word print_bits print_cpu push_range
to_range_string s = (push_range (print_words 0 s.bits printer_start)).result

abbrev pub allowed : Option CpuSet → ℕ → Bool
allowed none i = true
allowed (some present) i = is_set present i

-- `for i in lo..=hi.min(CPU_SETSIZE - 1)`, `rounds` of it from `i` on.
set_cpus : Option CpuSet → ℕ → ℕ → CpuSet → CpuSet
set_cpus present zero i s = s
set_cpus present (suc rounds) i s =
    set_cpus present rounds (i + 1) (if allowed present i then set s i else s)

-- `usize::MAX` stands for a number that did not parse, and skips the part; else the bounds in order.
abbrev pub ordered : ℕ → ℕ → Option (ℕ × ℕ)
ordered a b = if a == usize_max then none else if ltb b a then some (b, a) else some (a, b)

-- With a dash at `pos`, a bound behind it that does not parse is the one before it.
abbrev pub bounds_at : Text → Option ℕ → Option (ℕ × ℕ)
bounds_at part none = let a = Option.get_or (parse_uint usize_max part) usize_max in ordered a a
bounds_at part (some pos) =
    let a = Option.get_or (parse_uint usize_max (take pos part)) usize_max in
    let b = Option.get_or (parse_uint usize_max (drop (pos + 1) part)) a in ordered a b

-- `lo` and `hi` of a part that is not empty; `none` is the `continue` on a part with no number.
unfoldable pub part_bounds : Text → Option (ℕ × ℕ)
part_bounds part = bounds_at part (find b'-' part)

set_range : Option CpuSet → Option (ℕ × ℕ) → CpuSet → CpuSet
set_range present none s = s
set_range present (some (lo, hi)) s = set_cpus present (min hi (cpu_setsize - 1) + 1 - lo) lo s

parse_part : Option CpuSet → Text → CpuSet → CpuSet
parse_part present text s =
    let part = trim text in if is_empty part then s else set_range present (part_bounds part) s

parse_parts : Option CpuSet → List Text → CpuSet → CpuSet
parse_parts present [] s = s
parse_parts present (part ∷ parts) s = parse_parts present parts (parse_part present part s)

unfoldable pub parse_cpu_ranges : Text → Option CpuSet → CpuSet
unfolding parse_parts parse_part set_range set_cpus
parse_cpu_ranges spec present =
    if is_empty spec then new else parse_parts present (split b',' spec) new

-- `CpuSet::from_range` and the function of that name.
unfoldable pub from_range : Text → CpuSet
from_range spec = parse_cpu_ranges spec none

reads :
    to_range_string (from_range (codes " 0-3 ,6, 9-8,x,12-,1022-5000"))
    ≡ codes "0-3,6,8-9,12,1022-1023"
unfolding to_range_string from_range parse_cpu_ranges part_bounds set new trim find split parse_uint
    to_string
reads = refl
