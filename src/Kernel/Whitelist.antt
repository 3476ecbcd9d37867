-- ===== src/Kernel/Whitelist.antt =====
-- `whitelist_matched` in the kernel against `comm_to_pkg` in src/bpf.rs.
use aether_opt_ext.Base.{
  ℕ, zero, suc, ◌+◌, ◌-◌, ◌≤◌, ◌<◌, ◌≡◌, refl, ap, sym, ◌∙◌, true, false, some, List, [], ◌∷◌, ◌++◌,
  arith, inl, inr, length, ltb, is_some, take, drop, replicate, min, length-take, length-drop,
  length-append, length-replicate, take-append_le, drop-append_le, drop-append_add, take-append,
  take-append-replicate, append-nil,
}
use aether_opt_ext.Base.Text.{
  Text, text_eq_refl, is_empty, starts_with, ends_with, starts_with→eq, ends_with→eq,
}
use aether_opt_ext.Os.{Aya}
use aether_opt_ext.Config.{AppConfig}
use aether_opt_ext.Bpf.{
  has_text, pkg_keys, prefix_key, suffix_key, comm_keys_build, comm_map_init_in, comm_to_pkg,
}
use aether_opt_ext.Bpf.Keys.{has_text-all_keys}
use aether_opt_ext.Bpf.Search.{comm_to_pkg-Reason}
use aether_opt_ext.Bpf.Targets.{TargetLaws, comm_map_init_in-keys}
use aether_opt_ext.Kernel.{as_key, windows_matched, whitelist_matched}

-- The 16 bytes of a thread's name.
abbrev pub padded : Text → List ℕ
padded name = name ++ replicate (16 - length name) 0

abbrev window : ℕ → List ℕ → List ℕ
window pos comm = take 8 (drop pos comm)

module _ {B : Type 0} (aya : Aya B) where
  windows_matched-hit :
      (pos count i : ℕ) (comm : List ℕ) (b : B)
      → i < count
      → is_some (aya.target_get (as_key (window (pos + i) comm)) b) ≡ true
      → windows_matched aya pos count comm b ≡ true
  unfolding windows_matched
  windows_matched-hit pos zero i comm b lt hit = absurd (omega arith)
  windows_matched-hit pos (suc count) zero comm b lt hit =
      let here : pos + 0 ≡ pos = omega arith in
      let hit' : is_some (aya.target_get (as_key (window pos comm)) b) ≡ true = rw (sym here) hit in
      rw hit' refl
  windows_matched-hit pos (suc count) (suc i) comm b lt hit =
      let next : pos + suc i ≡ suc pos + i = omega arith in
      let hit' : is_some (aya.target_get (as_key (window (suc pos + i) comm)) b) ≡ true =
        rw (sym next) hit in
      ground (arith, windows_matched-hit (suc pos) count i comm b (omega arith) hit')

-- The key of a window of 8 bytes is the window.
as_key-full : (slice : List ℕ) → length slice ≡ 8 → as_key slice ≡ slice
as_key-full slice h = ground arith

window-prefix : (name : Text) → length name ≤ 15 → window 0 (padded name) ≡ prefix_key name
unfolding prefix_key
window-prefix name short = take-append-replicate 8 name (16 - length name) 0 (omega arith)

-- Of a package that starts with a name of 15 bytes.
window-prefix_longer :
    (name r : Text) → length name ≡ 15 → window 0 (padded name) ≡ prefix_key (name ++ r)
unfolding prefix_key
window-prefix_longer name r full =
    let no_fill : 8 - min (length (name ++ r)) 8 ≡ 0 = omega (arith, length-append name r) in
    rw no_fill (
      take-append_le 8 name _ (omega arith)
      ∙ sym (take-append_le 8 name r (omega arith))
      ∙ sym (append-nil _))

-- Of a package that ends with one.
window-suffix : (m name : Text) → length name ≡ 15 → window 7 (padded name) ≡ suffix_key (m ++ name)
unfolding suffix_key
window-suffix m name full =
    let rest : List ℕ = replicate (16 - length name) 0 in
    let from : length (m ++ name) - 8 ≡ length m + 7 = omega (arith, length-append m name) in
    let size : length (drop 7 name) ≡ 8 = omega (arith, length-drop 7 name) in
    ap (take 8) (drop-append_le 7 name rest (omega arith))
    ∙ ap (λ (n : ℕ). take n (drop 7 name ++ rest)) (sym size)
    ∙ take-append (drop 7 name) rest
    ∙ sym (rw from (drop-append_add m 7 name))

length-padded : (name : Text) → length name ≤ 15 → length (padded name) ≡ 16
length-padded name short = omega (
  arith,
  length-append name (replicate (16 - length name) 0),
  length-replicate {A = ℕ} (16 - length name) 0,
)

length-window :
    (pos : ℕ) (name : Text) → pos ≤ 8 → length name ≤ 15 → length (window pos (padded name)) ≡ 8
length-window pos name bound short =
    length-take 8 (drop pos (padded name))
      (omega (arith, length-drop pos (padded name), length-padded name short))

-- A window of the name that is a key of a package.
record Hit (pkg name : Text) : Type 0 where
  pos : ℕ
  in_range : pos ≤ 8
  is_key : has_text (pkg_keys pkg) (window pos (padded name)) ≡ true

prefix-is_key :
    (pkg : Text) → is_empty pkg ≡ false → has_text (pkg_keys pkg) (prefix_key pkg) ≡ true
unfolding has_text pkg_keys
prefix-is_key pkg some_byte = rw some_byte (ground (arith, text_eq_refl (prefix_key pkg)))

suffix-is_key : (pkg : Text) → 8 < length pkg → has_text (pkg_keys pkg) (suffix_key pkg) ≡ true
unfolding has_text pkg_keys
suffix-is_key [] long = absurd (omega arith)
suffix-is_key (b ∷ pkg) long = ground (arith, text_eq_refl (suffix_key (b ∷ pkg)))

Hit-exact : (name : Text) → is_empty name ≡ false → length name ≤ 15 → Hit name name
Hit-exact name some_byte short = record {
  pos = 0;
  in_range = omega arith;
  is_key = rw (window-prefix name short) (prefix-is_key name some_byte);
}

is_empty-append : (name r : Text) → length name ≡ 15 → is_empty (name ++ r) ≡ false
is_empty-append [] r full = absurd (omega arith)
is_empty-append (b ∷ name) r full = refl

Hit-prefix : (pkg name : Text) → length name ≡ 15 → starts_with pkg name ≡ true → Hit pkg name
Hit-prefix pkg name full starts =
    let r : Text = drop (length name) pkg in
    let e : pkg ≡ name ++ r = starts_with→eq pkg name starts in
    record {
      pos = 0;
      in_range = omega arith;
      is_key =
          rw (e, window-prefix_longer name r full)
            (prefix-is_key (name ++ r) (is_empty-append name r full));
    }

Hit-suffix : (pkg name : Text) → length name ≡ 15 → ends_with pkg name ≡ true → Hit pkg name
Hit-suffix pkg name full ends =
    let m : Text = take (length pkg - length name) pkg in
    let e : pkg ≡ m ++ name = ends_with→eq pkg name ends in
    record {
      pos = 7;
      in_range = omega arith;
      is_key =
          rw (e, window-suffix m name full)
            (suffix-is_key (m ++ name) (omega (arith, length-append m name)));
    }

comm_to_pkg-Hit :
    (cfg : AppConfig) (name : Text) (pkg : Text)
    → is_empty name ≡ false
    → length name ≤ 15
    → comm_to_pkg name cfg ≡ some pkg
    → Hit pkg name
comm_to_pkg-Hit cfg name pkg some_byte short found =
    elim (comm_to_pkg-Reason name cfg pkg found).1 [
      | inl exact ↦ rw exact (Hit-exact name some_byte short)
      | inr (long, inl starts) ↦ Hit-prefix pkg name (omega arith) starts
      | inr (long, inr ends) ↦ Hit-suffix pkg name (omega arith) ends
    ]

-- If `TARGET_COMM_MAP` can be reached and keeps what is put in it, and the keys of the configured
-- packages fit, then after `comm_map_init` the name of a thread (1 to 15 bytes, filled with zeros)
-- that `comm_to_pkg` resolves to some package passes `whitelist_matched`.
pub whitelist_matched-comm_to_pkg :
    {B : Type 0} (aya : Aya B)
    → TargetLaws aya
    → (cfg : AppConfig) (comm_capacity : ℕ) (b : B) (name pkg : Text)
    → ltb comm_capacity (length (comm_keys_build cfg.pkg_set)) ≡ false
    → aya.has_target b ≡ true
    → is_empty name ≡ false
    → length name ≤ 15
    → comm_to_pkg name cfg ≡ some pkg
    → whitelist_matched aya (padded name) (comm_map_init_in aya cfg.pkg_set comm_capacity b).1
      ≡ true
unfolding whitelist_matched
whitelist_matched-comm_to_pkg aya laws cfg comm_capacity b name pkg fits has some_byte short found =
    let hit : Hit pkg name = comm_to_pkg-Hit cfg name pkg some_byte short found in
    let key : List ℕ = window hit.pos (padded name) in
    let mem =
      has_text-all_keys cfg.pkg_set pkg key (comm_to_pkg-Reason name cfg pkg found).0 hit.is_key in
    let b' = (comm_map_init_in aya cfg.pkg_set comm_capacity b).1 in
    let there : is_some (aya.target_get key b') ≡ true =
      (comm_map_init_in-keys aya laws cfg.pkg_set comm_capacity b key fits has).1 ∙ mem in
    windows_matched-hit aya 0 9 hit.pos (padded name) b' (omega (arith, hit.in_range)) (
      let start : 0 + hit.pos ≡ hit.pos = omega arith in
      rw (start, as_key-full key (length-window hit.pos name hit.in_range short)) there)
