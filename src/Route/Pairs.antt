-- ===== src/Route/Pairs.antt =====
-- What `itertools` documents of `permutations(2)` and `collect_tuple`, and the pairs that result.
pub mod Places
use exponent_jupiter_amm_imp.Prelude.{◌≡◌, ◌⊎◌, Option, none, some, List, [], ◌∷◌, ◌++◌, map, In}
use exponent_jupiter_amm_imp.Crates.{Crates}

module _ {A : Type 0} where
  -- Each item with the others, all in their order.
  abbrev pub picks : List A → List (A × List A)
  picks [] = []
  picks (x ∷ xs) = (x, xs) ∷ map (λ (y, rest). (y, x ∷ rest)) (picks xs)

  -- The two-item arrangements that begin with a pick, in order.
  abbrev pub arrangements : List (A × List A) → List (List A)
  arrangements [] = []
  arrangements ((x, rest) ∷ ps) = map (λ y. x ∷ y ∷ []) rest ++ arrangements ps

  abbrev pub only_two : List A → Option (A × A)
  only_two (a ∷ b ∷ []) = some (a, b)
  only_two _ = none

  -- The two items stand at different places of the list, in either order.
  abbrev pub Apart : A → A → List A → Type 0
  Apart a b [] = ⊥
  Apart a b (x ∷ xs) = ((a ≡ x) × In b xs) ⊎ (((b ≡ x) × In a xs) ⊎ Apart a b xs)

  abbrev pub pairs : List (A × List A) → List (A × A)
  pairs [] = []
  pairs ((x, rest) ∷ ps) = map (λ y. (x, y)) rest ++ pairs ps

-- `permutations(2)` lists the arrangements of two items in the order of their places;
-- `collect_tuple` is `Some` for two items exactly.
pub record ItertoolsLaws (X : Crates) : Type 1 where
  pub permutations-eq :
      (A : Type 0) (items : List A) → X.permutations A items 2 ≡ arrangements (picks items)
  pub collect_tuple-eq : (A : Type 0) (items : List A) → X.collect_tuple A items ≡ only_two items
