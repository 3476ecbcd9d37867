-- ===== src/AutoAlloc/Saved.antt =====
-- The packages in the cache file while the loop of src/main.rs saves entries for unknown apps.
use mathlib.Core.Path.{subst}
use aether_opt_ext.Base.{
  ◌≡◌, sym, ap, ◌∙◌, Bool, true, false, some, List, [], ◌∷◌, arith, Bool-cases, Bool_ext, inl, inr,
}
use aether_opt_ext.Base.Text.{Text, text_eq, text_eq→eq, text_eq_refl}
use aether_opt_ext.Os.{Os}
use aether_opt_ext.Config.{AppConfig}
use aether_opt_ext.Bpf.{has_text}
use aether_opt_ext.Scanner.{Found, text_or_empty}
use aether_opt_ext.Entries.{Json}
use aether_opt_ext.ConfigFile.{cache_file, merge_root, merge_data}
use aether_opt_ext.ConfigFile.Save.{JsonBuild}
use aether_opt_ext.ConfigFile.Save.Unique.{JsonLaws, saved_entries-members}
use aether_opt_ext.ConfigFile.Save.Written.{old_entries_lem}
use aether_opt_ext.AutoAlloc.Laws.{cache_dir, FileLaws, PrintLaws}
use aether_opt_ext.AutoAlloc.Known.{has_entry, saved, saved-own, saved-other}
use aether_opt_ext.AutoAlloc.Merged.{merge_entries-has_entry, has_text-nil, has_text-cons}

text_eq-sym : (s t : Text) → text_eq t s ≡ text_eq s t
text_eq-sym s t =
    Bool_ext (text_eq t s) (text_eq s t)
      (λ h. ap (λ x. text_eq x t) (sym (text_eq→eq t s h)) ∙ text_eq_refl t)
      (λ h. ap (λ x. text_eq x s) (sym (text_eq→eq s t h)) ∙ text_eq_refl s)

module _ {J W : Type 0} (json : Json J) (build : JsonBuild J) (os : Os W)
    (laws : JsonLaws json build) (prints : PrintLaws json build) (files : FileLaws os) where
  -- The file holds a printed array with an entry of each of the packages.
  pub record Holds (done : List Text) (w : W) : Type 0 where
    array : J
    is_array : json.is_array array ≡ true
    file : (os.read_file cache_file w).0 ≡ some (build.stringify_pretty array 2)
    entries :
        (t : Text) → has_text done t ≡ true → has_entry json build t (json.members array) ≡ true

  pub merge_data-Holds :
      (done : List Text) (w : W) (cfg : AppConfig) (t : Text)
      → Holds done w
      → has_text done t ≡ true
      → has_text (merge_data json (os.read_file cache_file w).0 cfg).pkg_set t ≡ true
  unfolding merge_data merge_root
  merge_data-Holds done w cfg t h p =
      rw (h.file, prints.parse_back h.array h.is_array, h.is_array)
        (merge_entries-has_entry json build (json.members h.array) _ t
          (λ s b. absurd (ground (arith, has_text-nil s))) (h.entries t p))

  abbrev pub Before : Bool → List Text → W → Type 0
  Before true done w = Holds done w
  Before false done w = done ≡ []

  module _ (pkg : Text) (all : List Found) (big mid little : Text) where
    abbrev after : Text → J
    after old = saved json build laws pkg all big mid little old

    after-is_array : (old : Text) → json.is_array (after old) ≡ true
    after-is_array old = (saved_entries-members json build laws pkg _ old).0

    kept_entry :
        (flag : Bool) (done : List Text) (w : W) (t : Text)
        → Before flag done w
        → has_text done t ≡ true
        → text_eq t pkg ≡ false
        → has_entry json build t
            (json.members (after (text_or_empty (os.read_file cache_file w).0)))
          ≡ true
    kept_entry false done w t b h ne =
        absurd (ground (arith, has_text-nil t, ap (λ d. has_text d t) b))
    kept_entry true done w t b h ne = rw b.file (
        saved-other json build laws pkg all big mid little (build.stringify_pretty b.array 2) t ne
          (rw (old_entries_lem json build laws prints b.array b.is_array) (b.entries t h)))

    pub write-Holds :
        (flag : Bool) (done : List Text) (w u : W)
        → files.has_dir u ≡ true
        → Before flag done w
        → Holds
            (pkg ∷ done)
            (os.write_file cache_file
              (build.stringify_pretty (after (text_or_empty (os.read_file cache_file w).0)) 2)
              u).1
    write-Holds flag done w u dir b =
        let old = text_or_empty (os.read_file cache_file w).0 in
        record {
          array = after old;
          is_array = after-is_array old;
          file =
              files.read_back (build.stringify_pretty (after old) 2) u
                (files.can_write (build.stringify_pretty (after old) 2) u dir);
          entries = λ t h. elim (Bool-cases (text_eq pkg t)) [
            | inl same ↦
                subst (λ s. has_entry json build s (json.members (after old)) ≡ true)
                  (text_eq→eq pkg t same) (saved-own json build laws pkg all big mid little old)
            | inr other ↦
                kept_entry flag done w t b (ground (arith, has_text-cons pkg done t))
                  (text_eq-sym pkg t ∙ other)
          ];
        }

    pub dir-Before :
        (flag : Bool) (done : List Text) (w : W)
        → Before flag done w
        → Before flag done (os.create_dir_all cache_dir w).1
    dir-Before false done w b = b
    dir-Before true done w b = record {
      array = b.array;
      is_array = b.is_array;
      file = files.dir_keeps w ∙ b.file;
      entries = b.entries;
    }

-- The packages that the loop makes entries for, in front of those that are done.
