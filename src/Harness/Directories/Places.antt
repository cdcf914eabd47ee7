-- ===== src/Harness/Directories/Places.antt =====
-- What a call on the place of a path leaves of the directories.
use text.Mathlib.Text.{◌==◌}
use text.Mathlib.TextEquality.{eq_iff}
use text.Mathlib.TextPositions.{eq_refl}
use exponent_jupiter_amm_imp.Prelude.{
  ◌≡◌, ◌≢◌, refl, Bool, true, false, is_some, ap, sym, ◌∙◌, fun_ext, String, Option, none, some,
  inl, inr, Bool-cases,
}
use exponent_jupiter_amm_imp.Prelude.Result.{Result}
use exponent_jupiter_amm_imp.Prelude.Stateful.{Method}
use exponent_jupiter_amm_imp.Crates.{Crates}
use exponent_jupiter_amm_imp.Harness.Snapshot.Files.{
  Formats, Directory, Place, no_parent, directory,
}
use exponent_jupiter_amm_imp.Harness.Snapshot.Refusing.{fits}
use exponent_jupiter_amm_imp.Harness.Directories.{
  FileSystem, put_directory, found, here, left, place_at, put_at, at_directory,
}

module _ (X : Crates) (F : Formats X) where
  pub put_directory_same :
      (name : String) (place : Option (Directory X F)) (fs : FileSystem X F)
      → put_directory X F name place fs name ≡ place
  put_directory_same name place fs = rw (eq_refl name)

  pub put_directory_other :
      (name : String) (place : Option (Directory X F)) (fs : FileSystem X F) (other : String)
      → name ≢ other
      → put_directory X F name place fs other ≡ fs other
  put_directory_other name place fs other differ = elim (Bool-cases (name == other)) [
    | inl same ↦ absurd (differ ((eq_iff name other).0 same))
    | inr apart ↦ rw apart
  ]

  put_directory_again :
      (name : String) (fs : FileSystem X F) → put_directory X F name (fs name) fs ≡ fs
  put_directory_again name fs = fun_ext (λ other. elim (Bool-cases (name == other)) [
    | inl same ↦ rw same (ap fs ((eq_iff name other).0 same))
    | inr apart ↦ rw apart
  ])

  left-here : (o : Option (Directory X F)) → left X F (here X F o) ≡ o
  left-here none = refl
  left-here (some d) = refl

  put_back :
      (fs : FileSystem X F) (there : Option String)
      → put_at X F fs (elim there [ none ↦ no_parent | some n ↦ here X F (fs n) ]) there ≡ fs
  put_back fs none = refl
  put_back fs (some n) =
      ap (λ (o : Option (Directory X F)). put_directory X F n o fs) (left-here (fs n))
      ∙ put_directory_again n fs

  pub at_directory_unchanged :
      {A : Type 0} (name : String) (call : Method (Place X F) A) (fs : FileSystem X F)
      → (call (place_at X F fs name)).1 ≡ place_at X F fs name
      → (at_directory X F name call fs).1 ≡ fs
  at_directory_unchanged name call fs kept =
      ap (λ (p : Place X F). put_at X F fs p (F.resolve fs name)) kept
      ∙ put_back fs (F.resolve fs name)

  pub place_at_plain :
      (name : String) (fs : FileSystem X F)
      → F.resolve fs name ≡ some name
      → place_at X F fs name ≡ here X F (fs name)
  place_at_plain name fs leads = rw (place_at, leads) refl

  pub found_plain :
      (name : String) (fs : FileSystem X F)
      → F.resolve fs name ≡ some name
      → found X F fs name ≡ fs name
  found_plain name fs leads = rw (found, leads) refl

  -- `force` fits a name that leads to itself if it says whether there is a directory.
  pub fits-here : (o : Option (Directory X F)) → fits X F (is_some o) (here X F o) ≡ true
  fits-here none = refl
  fits-here (some d) = refl

  pub fits_wrong :
      (force : Bool) (o : Option (Directory X F))
      → force ≢ is_some o
      → fits X F force (here X F o) ≡ false
  fits_wrong true none wrong = refl
  fits_wrong false none wrong = absurd (wrong refl)
  fits_wrong true (some d) wrong = absurd (wrong refl)
  fits_wrong false (some d) wrong = refl

  -- At a name that leads to itself.
  pub at_directory_plain :
      {A : Type 0} (name : String) (call : Method (Place X F) A) (fs : FileSystem X F)
      {a : Result A} {d : Directory X F}
      → F.resolve fs name ≡ some name
      → call (here X F (fs name)) ≡ (a, directory d)
      → at_directory X F name call fs ≡ (a, put_directory X F name (some d) fs)
  at_directory_plain {A} name call fs {a} {d} leads called =
      ap (λ (p : Place X F). ((call p).0, put_at X F fs (call p).1 (F.resolve fs name)))
        (place_at_plain name fs leads)
      ∙ ap (λ (r : Result A × Place X F). (r.0, put_at X F fs r.1 (F.resolve fs name))) called
      ∙ ap (λ (there : Option String). (a, put_at X F fs (directory d) there)) leads

  pub put_directory_twice :
      (name : String) (place : Option (Directory X F)) (fs : FileSystem X F)
      → let files = put_directory X F name place fs in put_directory X F name place files ≡ files
  put_directory_twice name place fs =
      let files = put_directory X F name place fs in
      ap (λ (p : Option (Directory X F)). put_directory X F name p files)
        (sym (put_directory_same name place fs))
      ∙ put_directory_again name files
