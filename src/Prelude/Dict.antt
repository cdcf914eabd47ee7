-- ===== src/Prelude/Dict.antt =====
-- `std::collections::HashMap` with public keys, as an association list: what the program reads
-- of a map is `get`, and the order of the entries shows nowhere in a statement.
use Prim.Native.Nat.{ℕ}
use mathlib.Core.Path.{◌≡◌, refl}
use mathlib.Core.Option.{Option, none, some}
use mathlib.Core.List.{List, [], ◌∷◌, foldl}
use native.Mathlib.Omega.{arith}
use exponent_jupiter_amm_imp.Prelude.Tests.{◌==◌, if◌then◌else◌}

abbrev pub Dict {ℓ} : Type ℓ → Type ℓ
Dict V = List (ℕ × V)

module _ {ℓ} {V : Type ℓ} where
  abbrev pub lookup : ℕ → Dict V → Option V
  lookup k [] = none
  lookup k (entry ∷ d) = if entry.0 == k then some entry.1 else lookup k d

  abbrev pub insert : ℕ → V → Dict V → Dict V
  insert k v [] = (k, v) ∷ []
  insert k v (entry ∷ d) = if entry.0 == k then (k, v) ∷ d else entry ∷ insert k v d

  -- `HashMap::from_iter`: a later entry replaces an earlier one of the same key.
  abbrev pub insert_entry : Dict V → ℕ × V → Dict V
  insert_entry d (k, v) = insert k v d

  -- `extend`
  abbrev pub insert_entries : Dict V → List (ℕ × V) → Dict V
  insert_entries d entries = foldl insert_entry d entries

  abbrev pub from_iter : List (ℕ × V) → Dict V
  from_iter entries = insert_entries [] entries

  pub lookup-insert :
      (j k : ℕ) (v : V) (d : Dict V)
      → lookup j (insert k v d) ≡ (if k == j then some v else lookup j d)
  lookup-insert j k v [] = refl
  lookup-insert j k v ((i, w) ∷ d) = ground (arith, lookup-insert j k v d)

  -- `Option::or`: an entry, or what stands for a missing one.
  abbrev pub or_entry : Option V → Option V → Option V
  or_entry none d = d
  or_entry (some a) d = some a
