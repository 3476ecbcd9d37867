-- ===== src/CpuSet.antt =====
-- src/cpuset.rs, `CpuSet`, and the constants of src/common.rs: a fixed array of 64-bit words.
pub mod Member
pub mod Count
use aether_opt_ext.Base.{
  ℕ, ◌+◌, ◌*◌, ◌/◌, ◌%◌, ◌^◌, ◌<◌, ◌≡◌, Bool, not, ◌&&◌, List, [], ◌∷◌, bit_or, bit_and, ltb, ◌==◌,
  if◌then◌else◌, length, get_or, set as set_elem, replicate, all, All,
}
use aether_opt_ext.Base.Bits.{count_ones}
use aether_opt_ext.Base.Text.{text_eq}

abbrev pub cpu_setsize : ℕ
cpu_setsize = 1024

abbrev pub cpu_word_bits : ℕ
cpu_word_bits = 64

abbrev pub cpu_words : ℕ
cpu_words = cpu_setsize / cpu_word_bits

-- `bits: [u64; CPU_WORDS]`; `IsCpuSet` says what the type of the array says.
pub record CpuSet : Type 0 where
  pub bits : List ℕ

pub record IsCpuSet (s : CpuSet) : Type 0 where
  pub size : length s.bits ≡ cpu_words
  pub words : All (λ w. w < 2 ^ 64) s.bits

unfoldable pub new : CpuSet
new = record { bits = replicate cpu_words 0 }

-- `bits[cpu / 64] |= 1 << (cpu % 64)`: the guard keeps the index within the array.
unfoldable pub set : CpuSet → ℕ → CpuSet
set s cpu =
    let k = cpu / cpu_word_bits in
    if ltb cpu cpu_setsize
    then record {
      bits = set_elem s.bits k (bit_or (get_or s.bits k 0) (2 ^ (cpu % cpu_word_bits)));
    }
    else s

unfoldable pub is_set : CpuSet → ℕ → Bool
is_set s cpu =
    ltb cpu cpu_setsize
    && not (bit_and (get_or s.bits (cpu / cpu_word_bits) 0) (2 ^ (cpu % cpu_word_bits)) == 0)

sum_ones : List ℕ → ℕ
sum_ones [] = 0
sum_ones (w ∷ r) = count_ones 64 w + sum_ones r

unfoldable pub count : CpuSet → ℕ
unfolding sum_ones
count s = sum_ones s.bits

-- `iter_mut().zip(other)`: the words behind the shorter array stay.
or_words : List ℕ → List ℕ → List ℕ
or_words (d ∷ ds) (s ∷ ss) = bit_or d s ∷ or_words ds ss
or_words ds _ = ds

unfoldable pub or : CpuSet → CpuSet → CpuSet
unfolding or_words
or d s = record { bits = or_words d.bits s.bits }

unfoldable pub is_zero : CpuSet → Bool
is_zero s = all (λ w. w == 0) s.bits

-- The derived `==`.
unfoldable pub cpuset_eq : CpuSet → CpuSet → Bool
cpuset_eq a b = text_eq a.bits b.bits
