-- ===== src/ConfigFile/Save/Unique.antt =====
-- The entries of the file that `cache::save` of src/config.rs writes.
use aether_opt_ext.Base.{
  ◌≡◌, refl, sym, ap, ◌∙◌, Bool, true, false, some, List, [], ◌∷◌, ◌++◌, append_assoc, append-nil,
  filter, Bool-cases, inl, inr,
}
use aether_opt_ext.Base.Text.{Text, codes, text_eq}
use aether_opt_ext.Scanner.{Found}
use aether_opt_ext.Entries.{Json}
use aether_opt_ext.ConfigFile.{packages_of, strings}
use aether_opt_ext.ConfigFile.Save.{
  JsonBuild, differs, first_package, push_others, saved_entries, old_entries, new_entry,
}

-- What the crate `json` documents of the values that it builds.
pub record JsonLaws {J : Type 0} (json : Json J) (build : JsonBuild J) : Type 0 where
  pub is_array_new : json.is_array build.new_array ≡ true
  pub members_new : json.members build.new_array ≡ []
  pub is_array_push : (a v : J) → json.is_array a ≡ true → json.is_array (build.push a v) ≡ true
  pub members_push :
      (a v : J) → json.is_array a ≡ true → json.members (build.push a v) ≡ json.members a ++ v ∷ []
  pub at_first : (a v : J) → json.members a ≡ v ∷ [] → build.at a 0 ≡ v
  pub is_object_new : json.is_object build.new_object ≡ true
  pub is_object_set :
      (o : J) (k : Text) (v : J)
      → json.is_object o ≡ true
      → json.is_object (build.set_field o k v) ≡ true
  pub get_set_self :
      (o : J) (k : Text) (v : J) → json.is_object o ≡ true → json.get (build.set_field o k v) k ≡ v
  pub get_set_other :
      (o : J) (k l : Text) (v : J)
      → json.is_object o ≡ true
      → text_eq k l ≡ false
      → json.get (build.set_field o k v) l ≡ json.get o l
  pub as_str_string : (s : Text) → json.as_str (build.string s) ≡ some s

module _ {J : Type 0} (json : Json J) (build : JsonBuild J) (laws : JsonLaws json build) where
  abbrev kept : Text → J → Bool
  kept pkg e = differs (first_package json build e) pkg

  push_others-members :
      (pkg : Text) (es : List J) (a : J)
      → json.is_array a ≡ true
      → (json.is_array (push_others json build pkg es a) ≡ true)
        × (json.members (push_others json build pkg es a) ≡ json.members a ++ filter (kept pkg) es)
  unfolding push_others
  push_others-members pkg [] a h = (h, sym (append-nil (json.members a)))
  push_others-members pkg (e ∷ es) a h = elim (Bool-cases (kept pkg e)) [
    | inl keep ↦
        let (arr, mem) = push_others-members pkg es (build.push a e) (laws.is_array_push a e h) in
        rw keep (
          arr,
          mem
              ∙ (ap (λ ms. ms ++ filter (kept pkg) es) (laws.members_push a e h)
                  ∙ append_assoc (json.members a) (e ∷ []) (filter (kept pkg) es)),
        )
    | inr drop ↦ rw drop (push_others-members pkg es a h)
  ]

  -- The entries of other packages that a file has.
  abbrev pub others : Text → Text → List J
  others pkg old = filter (kept pkg) (json.members (old_entries json build old))

  module _ (pkg : Text) (entry : J) (old : Text) where
    pub saved_entries-members :
        (json.is_array (saved_entries json build pkg entry old) ≡ true)
        × (json.members (saved_entries json build pkg entry old) ≡ others pkg old ++ entry ∷ [])
    unfolding saved_entries
    saved_entries-members =
        let start = build.new_array in
        let (arr, mem) =
          push_others-members pkg (json.members (old_entries json build old)) start
            laws.is_array_new in
        (
          laws.is_array_push _ entry arr,
          laws.members_push _ entry arr
              ∙ ap (λ ms. ms ++ entry ∷ [])
                  (mem ∙ ap (λ ms. ms ++ others pkg old) laws.members_new),
        )

  -- The package of an entry that `save` makes.
  module _ (pkg : Text) (all : List Found) (big mid little : Text) where
    abbrev entry : J
    entry = new_entry json build pkg all big mid little

    packages : json.get entry (codes "packages") ≡ build.push build.new_array (build.string pkg)
    unfolding new_entry
    packages =
        let friendly =
          laws.is_object_set build.new_object (codes "friendly") _ laws.is_object_new in
        laws.get_set_other _ (codes "cpuset") (codes "packages") _
          (laws.is_object_set _ (codes "packages") _ friendly) (unfold text_eq in refl)
        ∙ laws.get_set_self _ (codes "packages") _ friendly

    one_package :
        json.members (build.push build.new_array (build.string pkg)) ≡ build.string pkg ∷ []
    one_package =
        laws.members_push build.new_array (build.string pkg) laws.is_array_new
        ∙ ap (λ ms. ms ++ build.string pkg ∷ []) laws.members_new

    pub new_entry-packages_of : packages_of json entry ≡ pkg ∷ []
    new_entry-packages_of =
        ap (λ v. strings json (json.members v)) packages
        ∙ (ap (λ vs. strings json vs) one_package
            ∙ unfold strings in rw (laws.as_str_string pkg) refl)

    pub new_entry-first_package : first_package json build entry ≡ some pkg
    new_entry-first_package =
        ap (λ v. json.as_str (build.at v 0)) packages
        ∙ (ap json.as_str (laws.at_first _ (build.string pkg) one_package) ∙ laws.as_str_string pkg)
