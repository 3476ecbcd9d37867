-- ===== src/Bpf/Search.antt =====
-- What `comm_to_pkg` returns, and when.
use aether_opt_ext.Base.{
  ◌≤◌, ◌≡◌, refl, sym, ◌⊎◌, inl, inr, Bool, true, ◌||◌, ◌&&◌, some, List, [], ◌∷◌, arith,
  Bool-cases, Option-cases, length, leb, is_some, any,
}
use aether_opt_ext.Base.Text.{Text, text_eq_refl, starts_with, ends_with}
use aether_opt_ext.Config.{AppConfig}
use aether_opt_ext.Bpf.{has_text, first_text, comm_to_pkg}

first_text→ :
    (p : Text → Bool) (set : List Text) (pkg : Text)
    → first_text p set ≡ some pkg
    → (has_text set pkg ≡ true) × (p pkg ≡ true)
unfolding first_text has_text
first_text→ p [] pkg h = absurd (ground arith)
first_text→ p (t ∷ set) pkg h = elim (Bool-cases (p t)) [
  | inl found ↦
      let e : t ≡ pkg = ground arith in (ground (arith, text_eq_refl pkg, e), rw (sym e) found)
  | inr skipped ↦
      let rest = first_text→ p set pkg (ground arith) in (ground (arith, rest.0), rest.1)
]

is_some-first_text : (p : Text → Bool) (set : List Text) → is_some (first_text p set) ≡ any p set
unfolding first_text
is_some-first_text p [] = refl
is_some-first_text p (t ∷ set) = ground (arith, is_some-first_text p set)

-- Why a thread's name shows a package.
abbrev pub Reason : Text → Text → Type 0
Reason comm pkg =
    (pkg ≡ comm)
    ⊎ ((15 ≤ length comm) × ((starts_with pkg comm ≡ true) ⊎ (ends_with pkg comm ≡ true)))

-- The package that `comm_to_pkg` returns is one of the configuration, and it is the name, or the
-- name has at least 15 bytes and the package starts or ends with it.
pub comm_to_pkg-Reason :
    (comm : Text) (cfg : AppConfig) (pkg : Text)
    → comm_to_pkg comm cfg ≡ some pkg
    → (has_text cfg.pkg_set pkg ≡ true) × Reason comm pkg
unfolding comm_to_pkg
comm_to_pkg-Reason comm cfg pkg h = elim (Bool-cases (has_text cfg.pkg_set comm)) [
  | inl exact ↦ let e : comm ≡ pkg = ground arith in (rw (sym e) exact, inl (sym e))
  | inr inexact ↦ elim (Bool-cases (leb 15 (length comm))) [
    | inl long ↦
        let starts = first_text (λ pkg. starts_with pkg comm) cfg.pkg_set in
        elim (Option-cases starts) [
          | inl none_starts ↦
              let r = first_text→ (λ pkg. ends_with pkg comm) cfg.pkg_set pkg (ground arith) in
              (r.0, inr (ground arith, inr r.1))
          | inr (p, some_starts) ↦
              let r = first_text→ (λ pkg. starts_with pkg comm) cfg.pkg_set pkg (ground arith) in
              (r.0, inr (ground arith, inl r.1))
        ]
    | inr short ↦ absurd (ground arith)
  ]
]

-- `comm_to_pkg` returns a package exactly if the name is one, or has at least 15 bytes and some
-- package starts or ends with it.
pub is_some-comm_to_pkg :
    (comm : Text) (cfg : AppConfig)
    → is_some (comm_to_pkg comm cfg) ≡ (
        has_text cfg.pkg_set comm
        || leb 15 (length comm)
          && (any (λ pkg. starts_with pkg comm) cfg.pkg_set
              || any (λ pkg. ends_with pkg comm) cfg.pkg_set))
unfolding comm_to_pkg
is_some-comm_to_pkg comm cfg = ground (
  arith,
  is_some-first_text (λ pkg. starts_with pkg comm) cfg.pkg_set,
  is_some-first_text (λ pkg. ends_with pkg comm) cfg.pkg_set,
)
