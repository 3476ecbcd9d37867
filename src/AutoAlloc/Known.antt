-- ===== src/AutoAlloc/Known.antt =====
-- Which packages have an entry in the file that `cache::save` of src/config.rs writes.
use aether_opt_ext.Base.{
  ◌≡◌, refl, ap, ◌∙◌, Bool, true, false, ◌&&◌, ◌||◌, Option, none, some, List, [], ◌∷◌, ◌++◌, arith,
  any, filter, Bool-cases, inl, inr,
}
use aether_opt_ext.Base.Text.{Text, text_eq, text_eq_refl, text_eq→eq}
use aether_opt_ext.Scanner.{Found}
use aether_opt_ext.Entries.{Json, is_text}
use aether_opt_ext.ConfigFile.{packages_of}
use aether_opt_ext.ConfigFile.Save.{
  JsonBuild, differs, first_package, saved_entries, old_entries, new_entry,
}
use aether_opt_ext.ConfigFile.Save.Unique.{
  JsonLaws, others, saved_entries-members, new_entry-packages_of, new_entry-first_package,
}

abbrev pub head_is : Text → List Text → Bool
head_is pkg [] = false
head_is pkg (def ∷ rest) = text_eq def pkg

module _ {J : Type 0} (json : Json J) (build : JsonBuild J) where
  -- An entry of the package, as `save` and as `merge` look at it.
  abbrev pub marks : Text → J → Bool
  marks pkg e = is_text (first_package json build e) pkg && head_is pkg (packages_of json e)

  abbrev pub has_entry : Text → List J → Bool
  has_entry pkg es = any (marks pkg) es

any-append :
    {J : Type 0} (p : J → Bool) (xs ys : List J) → any p (xs ++ ys) ≡ (any p xs || any p ys)
any-append p [] ys = refl
any-append p (x ∷ xs) ys = ground (arith, any-append p xs ys)

-- A test that the kept elements pass still finds one.
any-filter :
    {J : Type 0} (p keep : J → Bool) (xs : List J)
    → ((x : J) → p x ≡ true → keep x ≡ true)
    → any p xs ≡ true
    → any p (filter keep xs) ≡ true
any-filter p keep [] w h = h
any-filter p keep (x ∷ xs) w h = elim (Bool-cases (p x)) [
  | inl hit ↦ rw (w x hit) (rw hit refl)
  | inr miss ↦ elim (Bool-cases (keep x)) [
    | inl kept ↦ rw kept (ground (arith, any-filter p keep xs w))
    | inr lost ↦ rw lost (any-filter p keep xs w (ground arith))
  ]
]

differs-other :
    (first : Option Text) (p q : Text)
    → text_eq p q ≡ false
    → is_text first p ≡ true
    → differs first q ≡ true
differs-other none p q ne h = refl
differs-other (some s) p q ne h = rw (text_eq→eq s p h) (ground arith)

module _ {J : Type 0} (json : Json J) (build : JsonBuild J) (laws : JsonLaws json build)
    (pkg : Text) (all : List Found) (big mid little old : Text) where
  abbrev pub saved : J
  saved = saved_entries json build pkg (new_entry json build pkg all big mid little) old

  pub saved-own : has_entry json build pkg (json.members saved) ≡ true
  saved-own =
      let entry = new_entry json build pkg all big mid little in
      let (arr, mem) = saved_entries-members json build laws pkg entry old in
      ap (λ es. has_entry json build pkg es) mem
      ∙ (any-append (marks json build pkg) (others json build laws pkg old) (entry ∷ [])
          ∙ rw
              (
                new_entry-packages_of json build laws pkg all big mid little,
                new_entry-first_package json build laws pkg all big mid little,
                text_eq_refl pkg,
              )
              (ground arith))

  pub saved-other :
      (p : Text)
      → text_eq p pkg ≡ false
      → has_entry json build p (json.members (old_entries json build old)) ≡ true
      → has_entry json build p (json.members saved) ≡ true
  saved-other p ne h =
      let entry = new_entry json build pkg all big mid little in
      let (arr, mem) = saved_entries-members json build laws pkg entry old in
      ap (λ es. has_entry json build p es) mem
      ∙ (any-append (marks json build p) (others json build laws pkg old) (entry ∷ [])
          ∙ ground (
            arith,
            any-filter (marks json build p) (λ e. differs (first_package json build e) pkg)
                (json.members (old_entries json build old))
                (λ e m. differs-other (first_package json build e) p pkg ne (ground arith)) h,
          ))
