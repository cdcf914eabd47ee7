-- ===== src/Route.antt =====
-- jupiter-core/src/route.rs: the ordered pairs of mints that a pool trades.
pub mod Pairs
pub mod Listing
use exponent_jupiter_amm_imp.Prelude.{ℕ, List, [], ◌∷◌, if◌then◌else◌}
use exponent_jupiter_amm_imp.Prelude.Result.{Result, ok, ◌>>=◌, unwrap, index, map_result}
use exponent_jupiter_amm_imp.Solana.{Pubkey}
use exponent_jupiter_amm_imp.Crates.{Crates}
use exponent_jupiter_amm_imp.Amm.{Amm}

-- `(permutation[0].clone(), permutation[1].clone())`
unfoldable pub first_two : {A : Type 0} → List A → Result (A × A)
first_two permutation = do
  first ← index permutation 0
  second ← index permutation 1
  ok (first, second)

module _ (X : Crates) where
  unfoldable pub get_two_permutations : {A : Type 0} → List A → Result (List (A × A))
  unfolding first_two
  get_two_permutations {A} items = map_result first_two (X.permutations A items 2)

  unfoldable pub get_token_mints_permutations :
      (amm : Amm X) → amm.Self → Result (List (Pubkey × Pubkey))
  get_token_mints_permutations amm self =
      if amm.unidirectional self
      then (do pair ← unwrap (X.collect_tuple Pubkey (amm.get_reserve_mints self)); ok (pair ∷ []))
      else get_two_permutations (amm.get_reserve_mints self)
