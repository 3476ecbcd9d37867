-- ===== src/CpuSet/Member.antt =====
-- `CpuSet` as the set of the CPUs below 1024: each operation by its members.
use aether_opt_ext.Base.{
  ℕ, zero, suc, ◌+◌, ◌*◌, ◌/◌, ◌%◌, ◌^◌, ◌≤◌, ◌<◌, ◌≡◌, ◌↔◌, refl, ap, sym, ◌∙◌, Bool, true, false,
  not, ◌&&◌, ◌||◌, List, [], ◌∷◌, bit_or, arith, ltb, ◌==◌, if◌then◌else◌, length, get_or,
  length-set, get_or-set_self, get_or-set_ne, get_or_ext, All, All-set, All-get_or, replicate, max,
  Bool-cases, inl, inr,
}
use aether_opt_ext.Base.Bits.{
  bit, bit-lt, bit-zero, bit-bit_or, bit-pow, bit_and-pow, bit_or-lt, bit_ext, pow-pos, pow-lt_pow,
}
use aether_opt_ext.Base.Text.{text_eq, text_eq→eq, text_eq_refl}
use aether_opt_ext.CpuSet.{CpuSet, IsCpuSet, new, set, is_set, or, or_words, cpuset_eq, cpu_setsize}

-- The bit that stands for a CPU.
abbrev pub bit_at : CpuSet → ℕ → ℕ
bit_at s cpu = bit (get_or s.bits (cpu / 64) 0) (cpu % 64)

mask_test : (b p v : ℕ) → b < 2 → 0 < p → v ≡ b * p → not (v == 0) ≡ (b == 1)
mask_test zero p v hb hp e = ground arith
mask_test (suc zero) p v hb hp e = ground arith
mask_test (suc (suc b)) p v hb hp e = absurd (omega arith)

pub is_set-bit_at : (s : CpuSet) (j : ℕ) → is_set s j ≡ (ltb j cpu_setsize && bit_at s j == 1)
unfolding is_set
is_set-bit_at s j =
    ap (λ (b : Bool). ltb j cpu_setsize && b)
      (mask_test (bit_at s j) (2 ^ (j % 64)) _ (bit-lt (get_or s.bits (j / 64) 0) (j % 64))
        (pow-pos (j % 64)) (bit_and-pow (get_or s.bits (j / 64) 0) (j % 64)))

-- The bits of one word after `|= 1 << i`.
bit-or_pow : (w i j : ℕ) → bit (bit_or w (2 ^ i)) j ≡ (if i == j then 1 else bit w j)
bit-or_pow w i j = ground (arith, bit-bit_or w (2 ^ i) j, bit-pow i j, bit-lt w j)

bit_at-set :
    (s : CpuSet) (i j : ℕ)
    → IsCpuSet s
    → i < cpu_setsize
    → bit_at (set s i) j ≡ (if i == j then 1 else bit_at s j)
unfolding set
bit_at-set s i j v h = ground (
  arith,
  bit-or_pow (get_or s.bits (i / 64) 0) (i % 64) (j % 64),
  get_or-set_self s.bits (i / 64) (bit_or (get_or s.bits (i / 64) 0) (2 ^ (i % 64))) 0,
  get_or-set_ne s.bits (i / 64) (j / 64) (bit_or (get_or s.bits (i / 64) 0) (2 ^ (i % 64))) 0,
)

set_out_of_range : (s : CpuSet) (i : ℕ) → cpu_setsize ≤ i → set s i ≡ s
unfolding set
set_out_of_range s i h = ground arith

-- On a set of 16 words below 2 ^ 64, `set` adds its CPU if it is below 1024, and changes no other.
pub is_set-set :
    (s : CpuSet) (i j : ℕ)
    → IsCpuSet s
    → is_set (set s i) j ≡ (ltb i cpu_setsize && i == j || is_set s j)
is_set-set s i j v =
    ground (
      arith,
      is_set-bit_at (set s i) j,
      is_set-bit_at s j,
      bit_at-set s i j v,
      set_out_of_range s i,
    )

get_or-zeros : (n k : ℕ) → get_or {A = ℕ} (replicate n 0) k 0 ≡ 0
get_or-zeros zero k = refl
get_or-zeros (suc n) zero = refl
get_or-zeros (suc n) (suc k) = get_or-zeros n k

bit_at-new : (j : ℕ) → bit_at new j ≡ 0
unfolding new
bit_at-new j = ap (λ (w : ℕ). bit w (j % 64)) (get_or-zeros 16 (j / 64)) ∙ bit-zero (j % 64)

pub is_set-new : (j : ℕ) → is_set new j ≡ false
is_set-new j = ground (arith, is_set-bit_at new j, bit_at-new j)

get_or-or_words :
    (ds ss : List ℕ) (k : ℕ)
    → length ds ≡ length ss
    → get_or (or_words ds ss) k 0 ≡ bit_or (get_or ds k 0) (get_or ss k 0)
unfolding or_words
get_or-or_words [] [] k h = refl
get_or-or_words [] (s ∷ ss) k h = absurd (omega arith)
get_or-or_words (d ∷ ds) [] k h = absurd (omega arith)
get_or-or_words (d ∷ ds) (s ∷ ss) zero h = refl
get_or-or_words (d ∷ ds) (s ∷ ss) (suc k) h = get_or-or_words ds ss k (omega arith)

bit_at-or :
    (a b : CpuSet) (j : ℕ)
    → IsCpuSet a
    → IsCpuSet b
    → bit_at (or a b) j ≡ max (bit_at a j) (bit_at b j)
unfolding or
bit_at-or a b j va vb =
    ap (λ (w : ℕ). bit w (j % 64)) (get_or-or_words a.bits b.bits (j / 64) (va.size ∙ sym vb.size))
    ∙ bit-bit_or (get_or a.bits (j / 64) 0) (get_or b.bits (j / 64) 0) (j % 64)

-- On sets of 16 words below 2 ^ 64, `or` makes the union.
pub is_set-or :
    (a b : CpuSet) (j : ℕ)
    → IsCpuSet a
    → IsCpuSet b
    → is_set (or a b) j ≡ (is_set a j || is_set b j)
is_set-or a b j va vb = ground (
  arith,
  is_set-bit_at (or a b) j,
  is_set-bit_at a j,
  is_set-bit_at b j,
  bit_at-or a b j va vb,
  bit-lt (get_or a.bits (j / 64) 0) (j % 64),
  bit-lt (get_or b.bits (j / 64) 0) (j % 64),
)

pub new-IsCpuSet : IsCpuSet new
unfolding new
new-IsCpuSet = omega arith

abbrev Word : ℕ → Type 0
Word w = w < 2 ^ 64

pub set-IsCpuSet : (s : CpuSet) (i : ℕ) → IsCpuSet s → IsCpuSet (set s i)
unfolding set
set-IsCpuSet s i v = elim (Bool-cases (ltb i cpu_setsize)) [
  | inl within ↦ rw within (record {
    size = length-set s.bits (i / 64) _ ∙ v.size;
    words =
        All-set Word s.bits (i / 64) _
          (bit_or-lt 64 _ _ (All-get_or Word s.bits (i / 64) 0 (omega arith) v.words)
            (pow-lt_pow (i % 64) 64 (omega arith)))
          v.words;
  })
  | inr beyond ↦ rw beyond v
]

length-or_words : (ds ss : List ℕ) → length (or_words ds ss) ≡ length ds
unfolding or_words
length-or_words [] ss = refl
length-or_words (d ∷ ds) [] = refl
length-or_words (d ∷ ds) (s ∷ ss) = ap suc (length-or_words ds ss)

All-or_words :
    (ds ss : List ℕ)
    → All (λ w. w < 2 ^ 64) ds
    → All (λ w. w < 2 ^ 64) ss
    → All (λ w. w < 2 ^ 64) (or_words ds ss)
unfolding or_words
All-or_words [] ss h k = tt
All-or_words (d ∷ ds) [] h k = h
All-or_words (d ∷ ds) (s ∷ ss) (hd, h) (hs, k) = (bit_or-lt 64 d s hd hs, All-or_words ds ss h k)

pub or-IsCpuSet : (a b : CpuSet) → IsCpuSet a → IsCpuSet b → IsCpuSet (or a b)
unfolding or
or-IsCpuSet a b va vb = record {
  size = length-or_words a.bits b.bits ∙ va.size;
  words = All-or_words a.bits b.bits va.words vb.words;
}

same_bit :
    (a b : CpuSet) (k j : ℕ)
    → k < 16
    → j < 64
    → is_set a (k * 64 + j) ≡ is_set b (k * 64 + j)
    → bit (get_or a.bits k 0) j ≡ bit (get_or b.bits k 0) j
same_bit a b k j hk hj h =
    let word : (k * 64 + j) / 64 ≡ k = omega arith in
    let place : (k * 64 + j) % 64 ≡ j = omega arith in
    let same : bit_at a (k * 64 + j) ≡ bit_at b (k * 64 + j) = ground (
      arith,
      is_set-bit_at a (k * 64 + j),
      is_set-bit_at b (k * 64 + j),
      bit-lt (get_or a.bits ((k * 64 + j) / 64) 0) ((k * 64 + j) % 64),
      bit-lt (get_or b.bits ((k * 64 + j) / 64) 0) ((k * 64 + j) % 64),
    ) in
    rw (word, place) at same

-- Two sets with the same CPUs are the same words.
pub cpuset_ext :
    (a b : CpuSet) → IsCpuSet a → IsCpuSet b → ((j : ℕ) → is_set a j ≡ is_set b j) → a ≡ b
cpuset_ext a b va vb h = λ i. record {
  bits =
      get_or_ext 0 a.bits b.bits (va.size ∙ sym vb.size)
        (λ k p.
          bit_ext 64 _ _ (All-get_or Word a.bits k 0 (omega arith) va.words)
            (All-get_or Word b.bits k 0 (omega arith) vb.words)
            (λ j q. same_bit a b k j (omega (arith, va.size)) q (h (k * 64 + j))))
        i;
}

pub cpuset_eq_iff : (a b : CpuSet) → (cpuset_eq a b ≡ true) ↔ (a ≡ b)
unfolding cpuset_eq
cpuset_eq_iff a b = (
  λ h. λ i. record { bits = text_eq→eq a.bits b.bits h i },
  λ e. ap (λ (x : CpuSet). text_eq a.bits x.bits) (sym e) ∙ text_eq_refl a.bits,
)
