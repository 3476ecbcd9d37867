-- ===== src/Tests/Maps.antt =====
-- The BPF maps and the ring buffer of the examples.
use aether_opt_ext.Base.{
  ℕ, ◌≡◌, refl, ap, sym, Bool-cases, inl, inr, true, false, Option, none, some, List, [], ◌∷◌, ◌++◌,
  arith, if◌then◌else◌, is_some,
}
use aether_opt_ext.Base.Map.{Map, lookup, insert, remove, lookup-insert, lookup-remove}
use aether_opt_ext.Base.Text.{text_eq, text_eq→eq}
use aether_opt_ext.Os.{Os, Aya}
use aether_opt_ext.Bpf.{has_text}
use aether_opt_ext.Bpf.Targets.{TargetLaws}
use aether_opt_ext.Events.Tracked.{AppliedLaws}
use aether_opt_ext.Kernel.{ProcEvent, Ring}
use aether_opt_ext.Kernel.Reports.{RingLaws}

-- A system with no files, in which `sched_setaffinity` always returns the given error.
abbrev pub plain_os : ℕ → Os (Unit {0})
plain_os error = record {
  read_file = λ path w. (none, w);
  write_file = λ path text w. (true, w);
  append_file = λ path text w. (tt, w);
  create_dir_all = λ path w. (true, w);
  read_dir = λ path w. (none, w);
  modified = λ path w. (none, w);
  mkdir = λ path w. (0, w);
  chmod = λ path w. (0, w);
  chown = λ path w. (0, w);
  exists = λ path w. (true, w);
  access = λ path w. (0, w);
  open_dir = λ path w. (3, w);
  getaffinity = λ tid w. (none, w);
  setaffinity = λ tid cpus w. (error, w);
  process_count = λ w. (none, w);
  is_alive = λ pid w. (true, w);
}

abbrev pub TargetMap : Type 0
TargetMap = List (List ℕ × ℕ)

unfoldable pub target_lookup : List ℕ → TargetMap → Option ℕ
target_lookup k [] = none
target_lookup k ((j, v) ∷ m) = if text_eq j k then some v else target_lookup k m

unfoldable pub target_drop : List ℕ → TargetMap → TargetMap
target_drop k [] = []
target_drop k ((j, v) ∷ m) =
    let rest = target_drop k m in if text_eq j k then rest else (j, v) ∷ rest

abbrev pub keys_of {ℓ} : {K V : Type ℓ} → List (K × V) → List K
keys_of [] = []
keys_of ((k, v) ∷ m) = k ∷ keys_of m

-- The BPF maps and the ring buffer, as lists.
pub record Maps : Type 0 where
  pub applied : Map ℕ
  pub targets : TargetMap
  pub queue : List ProcEvent

abbrev pub list_aya : Aya Maps
list_aya = record {
  has_applied = λ b. true;
  applied_get = λ k b. lookup k b.applied;
  applied_insert = λ k v b. record b { applied = insert k v b.applied };
  applied_remove = λ k b. record b { applied = remove k b.applied };
  applied_keys = λ b. keys_of b.applied;
  has_target = λ b. true;
  target_get = λ k b. target_lookup k b.targets;
  target_insert = λ k v b. record b { targets = (k, v) ∷ b.targets };
  target_remove = λ k b. record b { targets = target_drop k b.targets };
  target_keys = λ b. keys_of b.targets;
}

pub list_aya-AppliedLaws : AppliedLaws list_aya
list_aya-AppliedLaws = record {
  get_insert = λ k j v b. lookup-insert k j v b.applied;
  get_remove = λ k j b. lookup-remove k j b.applied;
  has_insert = λ k v b. refl;
  has_remove = λ k b. refl;
}

target_lookup-target_drop :
    (k j : List ℕ) (m : TargetMap)
    → target_lookup j (target_drop k m) ≡ (if text_eq k j then none else target_lookup j m)
unfolding target_lookup target_drop
target_lookup-target_drop k j [] = ground arith
target_lookup-target_drop k j ((i, v) ∷ m) = elim (Bool-cases (text_eq i k)) [
  | inl same ↦
      let test : text_eq i j ≡ text_eq k j =
        ap (λ (t : List ℕ). text_eq t j) (text_eq→eq i k same) in
      rw same (ground (arith, target_lookup-target_drop k j m, test))
  | inr other ↦ elim (Bool-cases (text_eq k j)) [
    | inl hit ↦
        let test : text_eq i j ≡ false = rw (sym (text_eq→eq k j hit)) other in
        rw (other, hit) (ground (arith, target_lookup-target_drop k j m, test))
    | inr miss ↦ rw (other, miss) (ground (arith, target_lookup-target_drop k j m))
  ]
]

keys_of-all :
    (j : List ℕ) (m : TargetMap)
    → is_some (target_lookup j m) ≡ true
    → has_text (keys_of m) j ≡ true
unfolding target_lookup has_text
keys_of-all j [] h = cc
keys_of-all j ((i, v) ∷ m) h = ground (arith, keys_of-all j m)

pub list_aya-TargetLaws : TargetLaws list_aya
unfolding target_lookup
list_aya-TargetLaws = record {
  get_insert = λ k j v b. refl;
  get_remove = λ k j b. target_lookup-target_drop k j b.targets;
  keys_all = λ j b. keys_of-all j b.targets;
}

-- A ring buffer that is never full, on a kernel with the given offsets.
abbrev pub list_ring : Ring Maps
list_ring = record {
  offsets = λ b. some (record { fork_child_pid = 44; fork_child_comm = 28; rename_newcomm = 28 });
  reserve = λ b. true;
  output = λ e b. record b { queue = b.queue ++ e ∷ [] };
}

abbrev pub queued : Maps → List ProcEvent
queued b = b.queue

pub list_ring-RingLaws : RingLaws list_aya list_ring queued
list_ring-RingLaws = record {
  queue_output = λ e b room. refl;
  queue_insert = λ k v b. refl;
  queue_remove = λ k b. refl;
  get_output = λ j e b. refl;
}
