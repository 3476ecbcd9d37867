-- ===== src/AutoAlloc/Merged.antt =====
-- `cache::merge` of src/config.rs: a package with an entry gets into the set of the packages.
use aether_opt_ext.Base.{
  ◌≡◌, refl, sym, ap, ◌∙◌, true, false, ◌||◌, List, [], ◌∷◌, arith, Bool-cases, inl, inr,
}
use aether_opt_ext.Base.Text.{Text, text_eq, text_eq→eq}
use aether_opt_ext.Bpf.{has_text}
use aether_opt_ext.Entries.{Json, insert_texts}
use aether_opt_ext.ConfigFile.{packages_of, Merging, merge_pkgs, merge_entries}
use aether_opt_ext.ConfigFile.Rules.{has_text-insert_texts, has_text-head}
use aether_opt_ext.ConfigFile.Save.{JsonBuild}
use aether_opt_ext.AutoAlloc.Known.{head_is, has_entry}

-- What was seen is in the set.
abbrev pub SeenIn : Merging → Type 0
SeenIn acc = (t : Text) → has_text acc.seen_pkgs t ≡ true → has_text acc.set t ≡ true

pub has_text-cons :
    (s : Text) (set : List Text) (t : Text) → has_text (s ∷ set) t ≡ (text_eq s t || has_text set t)
unfolding has_text
has_text-cons s set t = refl

pub has_text-nil : (t : Text) → has_text [] t ≡ false
unfolding has_text
has_text-nil t = refl

module _ {J : Type 0} (json : Json J) where
  merge_pkgs-set :
      (pkgs : List Text) (e : J) (acc : Merging) (t : Text)
      → has_text acc.set t ≡ true
      → has_text (merge_pkgs json pkgs e acc).set t ≡ true
  unfolding merge_pkgs
  merge_pkgs-set [] e acc t h = h
  merge_pkgs-set (def ∷ rest) e acc t h = elim (Bool-cases (has_text acc.seen_pkgs def)) [
    | inl seen ↦ rw seen h
    | inr new ↦ rw new (has_text-insert_texts (def ∷ rest) acc.set t h)
  ]

  pub has_def :
      (def : Text) (set : List Text) (t : Text)
      → text_eq def t ≡ true
      → has_text set def ≡ true
      → has_text set t ≡ true
  has_def def set t e h = ap (λ s. has_text set s) (sym (text_eq→eq def t e)) ∙ h

  merge_pkgs-SeenIn :
      (pkgs : List Text) (e : J) (acc : Merging) → SeenIn acc → SeenIn (merge_pkgs json pkgs e acc)
  unfolding merge_pkgs
  merge_pkgs-SeenIn [] e acc s = s
  merge_pkgs-SeenIn (def ∷ rest) e acc s = elim (Bool-cases (has_text acc.seen_pkgs def)) [
    | inl seen ↦ rw seen s
    | inr new ↦ rw new (λ t h. elim (Bool-cases (text_eq def t)) [
      | inl same ↦
          has_def def (insert_texts (def ∷ rest) acc.set) t same (has_text-head def rest acc.set)
      | inr other ↦
          has_text-insert_texts (def ∷ rest) acc.set t
            (s t (ground (arith, has_text-cons def acc.seen_pkgs t)))
    ])
  ]

  merge_pkgs-head :
      (pkgs : List Text) (e : J) (acc : Merging) (t : Text)
      → SeenIn acc
      → head_is t pkgs ≡ true
      → has_text (merge_pkgs json pkgs e acc).set t ≡ true
  unfolding merge_pkgs
  merge_pkgs-head [] e acc t s h = absurd (ground arith)
  merge_pkgs-head (def ∷ rest) e acc t s h = elim (Bool-cases (has_text acc.seen_pkgs def)) [
    | inl seen ↦ rw seen (has_def def acc.set t h (s def seen))
    | inr new ↦
        rw new
          (has_def def (insert_texts (def ∷ rest) acc.set) t h (has_text-head def rest acc.set))
  ]

  merge_entries-set :
      (es : List J) (acc : Merging) (t : Text)
      → has_text acc.set t ≡ true
      → has_text (merge_entries json es acc).set t ≡ true
  unfolding merge_entries
  merge_entries-set [] acc t h = h
  merge_entries-set (e ∷ es) acc t h =
      merge_entries-set es _ t (merge_pkgs-set (packages_of json e) e acc t h)

  pub merge_entries-has_entry :
      (build : JsonBuild J) (es : List J) (acc : Merging) (t : Text)
      → SeenIn acc
      → has_entry json build t es ≡ true
      → has_text (merge_entries json es acc).set t ≡ true
  unfolding merge_entries
  merge_entries-has_entry build [] acc t s h = absurd (ground arith)
  merge_entries-has_entry build (e ∷ es) acc t s h =
      elim (Bool-cases (head_is t (packages_of json e))) [
        | inl own ↦ merge_entries-set es _ t (merge_pkgs-head (packages_of json e) e acc t s own)
        | inr other ↦
            merge_entries-has_entry build es _ t (merge_pkgs-SeenIn (packages_of json e) e acc s)
              (ground arith)
      ]
