-- ===== src/ConfigFile/Save/Written.antt =====
-- What `cache::save` of src/config.rs writes to the file, given what stands in it.
use aether_opt_ext.Base.{◌≡◌, refl, true, Option, none, some, List, [], ◌∷◌, ◌++◌, filter}
use aether_opt_ext.Base.Text.{Text}
use aether_opt_ext.Os.{Os}
use aether_opt_ext.Os.Machine.{Machine, call}
use aether_opt_ext.Entries.{Json}
use aether_opt_ext.ConfigFile.{cache_file}
use aether_opt_ext.ConfigFile.Save.{JsonBuild, differs, first_package, old_entries}
use aether_opt_ext.ConfigFile.Save.Unique.{JsonLaws}
use aether_opt_ext.AutoAlloc.Laws.{PrintLaws, cache_dir}

-- The file is not there, or it holds a printed array of these entries.
abbrev pub FileLists : {J : Type 0} → Json J → JsonBuild J → Option Text → List J → Type 0
FileLists json build none es = es ≡ []
FileLists {J = J} json build (some text) es =
    (a : J) × ((json.is_array a ≡ true)
      × ((text ≡ build.stringify_pretty a 2) × (json.members a ≡ es)))

module _ {J : Type 0} (json : Json J) (build : JsonBuild J) (laws : JsonLaws json build)
    (prints : PrintLaws json build) where
  pub old_entries_lem :
      (a : J) → json.is_array a ≡ true → old_entries json build (build.stringify_pretty a 2) ≡ a
  unfolding old_entries
  old_entries_lem a h = rw (prints.not_blank a h, prints.bracket a h, prints.parse_back a h) refl

-- The machine when `save` has made the directory.
abbrev pub made : {W B : Type 0} → Os W → Machine W B → Machine W B
made os m = (call (os.create_dir_all cache_dir) m).1

module _ {J W B : Type 0} (json : Json J) (build : JsonBuild J) (os : Os W)
    (laws : JsonLaws json build) (prints : PrintLaws json build) where
  -- What `save` did: it wrote, last of all, the entries of the other packages in their order and
  -- one entry of the app.
  pub record Written (pkg : Text) (es : List J) (before : Machine W B) (after : Machine W B)
      : Type 0 where
    pub array : J
    pub entry : J
    pub is_array : json.is_array array ≡ true
    pub members :
        json.members array ≡ filter (λ e. differs (first_package json build e) pkg) es ++ entry ∷ []
    pub own : first_package json build entry ≡ some pkg
    pub written :
        after ≡ (call (os.write_file cache_file (build.stringify_pretty array 2)) before).1
