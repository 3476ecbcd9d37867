-- ===== src/Topology/Detect/Groups.antt =====
-- What grouping, sorting and assigning do to the CPUs of the policies (src/cpuset.rs,
-- `detect_core_types`).
use aether_opt_ext.Base.{
  ℕ, ◌≡◌, refl, Bool, true, not, ◌&&◌, ◌||◌, List, [], ◌∷◌, ◌++◌, arith, ltb, leb, ◌==◌, any, all,
  Bool-cases, inl, inr,
}
use aether_opt_ext.CpuSet.{CpuSet, IsCpuSet, set, is_set, cpu_setsize}
use aether_opt_ext.CpuSet.Member.{is_set-set, set-IsCpuSet}
use aether_opt_ext.Topology.Detect.{Group, add_group, insert_group, sort_groups, set_all}

abbrev pub has_cpu : ℕ → List ℕ → Bool
has_cpu j cpus = any (λ c. c == j) cpus

-- Whether a group whose frequency passes the test has the CPU; whether all frequencies pass it.
abbrev pub held : (ℕ → Bool) → ℕ → List Group → Bool
held q j gs = any (λ g. q g.0 && has_cpu j g.1) gs

abbrev pub every : (ℕ → Bool) → List Group → Bool
every q gs = all (λ g. q g.0) gs

has_cpu-append : (j : ℕ) (a b : List ℕ) → has_cpu j (a ++ b) ≡ (has_cpu j a || has_cpu j b)
has_cpu-append j [] b = refl
has_cpu-append j (c ∷ a) b = ground (arith, has_cpu-append j a b)

module _ (q : ℕ → Bool) where
  pub held-add_group :
      (j freq : ℕ) (cpus : List ℕ) (gs : List Group)
      → held q j (add_group freq cpus gs) ≡ (q freq && has_cpu j cpus || held q j gs)
  unfolding add_group
  held-add_group j freq cpus [] = ground arith
  held-add_group j freq cpus ((f, own) ∷ gs) = elim (Bool-cases (f == freq)) [
    | inl same ↦
        let e : f ≡ freq = ground arith in rw (same, has_cpu-append j own cpus, e) (ground arith)
    | inr other ↦ rw (other, held-add_group j freq cpus gs) (ground arith)
  ]

  pub every-add_group :
      (freq : ℕ) (cpus : List ℕ) (gs : List Group)
      → every q (add_group freq cpus gs) ≡ (q freq && every q gs)
  unfolding add_group
  every-add_group freq cpus [] = refl
  every-add_group freq cpus ((f, own) ∷ gs) = elim (Bool-cases (f == freq)) [
    | inl same ↦ let e : f ≡ freq = ground arith in rw (same, e) (ground arith)
    | inr other ↦ rw (other, every-add_group freq cpus gs) (ground arith)
  ]

  held-insert_group :
      (j : ℕ) (g : Group) (gs : List Group)
      → held q j (insert_group g gs) ≡ (q g.0 && has_cpu j g.1 || held q j gs)
  unfolding insert_group
  held-insert_group j g [] = refl
  held-insert_group j g (h ∷ hs) = elim (Bool-cases (leb g.0 h.0)) [
    | inl le ↦ rw le
    | inr gt ↦ rw (gt, held-insert_group j g hs) (ground arith)
  ]

  pub held-sort_groups : (j : ℕ) (gs : List Group) → held q j (sort_groups gs) ≡ held q j gs
  unfolding sort_groups
  held-sort_groups j [] = refl
  held-sort_groups j (g ∷ gs) = rw (held-insert_group j g (sort_groups gs), held-sort_groups j gs)

  every-insert_group :
      (g : Group) (gs : List Group) → every q (insert_group g gs) ≡ (q g.0 && every q gs)
  unfolding insert_group
  every-insert_group g [] = refl
  every-insert_group g (h ∷ hs) = elim (Bool-cases (leb g.0 h.0)) [
    | inl le ↦ rw le
    | inr gt ↦ rw (gt, every-insert_group g hs) (ground arith)
  ]

  pub every-sort_groups : (gs : List Group) → every q (sort_groups gs) ≡ every q gs
  unfolding sort_groups
  every-sort_groups [] = refl
  every-sort_groups (g ∷ gs) = rw (every-insert_group g (sort_groups gs), every-sort_groups gs)

-- No frequency stands twice, and the same in rising order.
abbrev pub Apart : List Group → Type 0
Apart [] = Unit
Apart (g ∷ gs) = (every (λ f. not (f == g.0)) gs ≡ true) × Apart gs

abbrev pub Rising : List Group → Type 0
Rising [] = Unit
Rising (g ∷ gs) = (every (λ f. ltb g.0 f) gs ≡ true) × Rising gs

pub add_group-Apart :
    (freq : ℕ) (cpus : List ℕ) (gs : List Group) → Apart gs → Apart (add_group freq cpus gs)
unfolding add_group
add_group-Apart freq cpus [] h = (refl, tt)
add_group-Apart freq cpus ((f, own) ∷ gs) (hf, h) = elim (Bool-cases (f == freq)) [
  | inl same ↦ rw same (hf, h)
  | inr other ↦ rw other (
    ground (arith, every-add_group (λ k. not (k == f)) freq cpus gs),
    add_group-Apart freq cpus gs h,
  )
]

pub every-weaken :
    (q r : ℕ → Bool) (gs : List Group)
    → ((f : ℕ) → q f ≡ true → r f ≡ true)
    → every q gs ≡ true
    → every r gs ≡ true
every-weaken q r [] w h = refl
every-weaken q r (g ∷ gs) w h = ground (arith, w g.0, every-weaken q r gs w)

insert_group-Rising :
    (g : Group) (gs : List Group)
    → every (λ f. not (f == g.0)) gs ≡ true
    → Rising gs
    → Rising (insert_group g gs)
unfolding insert_group
insert_group-Rising g [] n h = (refl, tt)
insert_group-Rising g (k ∷ ks) n (hk, h) = elim (Bool-cases (leb g.0 k.0)) [
  | inl le ↦
      let lt : ltb g.0 k.0 ≡ true = ground arith in
      rw le (
        ground (arith, every-weaken (λ f. ltb k.0 f) (λ f. ltb g.0 f) ks (λ f l. ground arith) hk),
        (hk, h),
      )
  | inr gt ↦ rw gt (
    ground (arith, every-insert_group (λ f. ltb k.0 f) g ks),
    insert_group-Rising g ks (ground arith) h,
  )
]

pub sort_groups-Rising : (gs : List Group) → Apart gs → Rising (sort_groups gs)
unfolding sort_groups
sort_groups-Rising [] h = tt
sort_groups-Rising (g ∷ gs) (hg, h) =
    insert_group-Rising g (sort_groups gs)
      (ground (arith, every-sort_groups (λ f. not (f == g.0)) gs)) (sort_groups-Rising gs h)

pub set_all-IsCpuSet : (cpus : List ℕ) (s : CpuSet) → IsCpuSet s → IsCpuSet (set_all cpus s)
unfolding set_all
set_all-IsCpuSet [] s v = v
set_all-IsCpuSet (c ∷ cpus) s v = set_all-IsCpuSet cpus (set s c) (set-IsCpuSet s c v)

pub is_set-set_all :
    (cpus : List ℕ) (s : CpuSet) (j : ℕ)
    → IsCpuSet s
    → is_set (set_all cpus s) j ≡ (ltb j cpu_setsize && has_cpu j cpus || is_set s j)
unfolding set_all
is_set-set_all [] s j v = ground arith
is_set-set_all (c ∷ cpus) s j v =
    ground (arith, is_set-set s c j v, is_set-set_all cpus (set s c) j (set-IsCpuSet s c v))
