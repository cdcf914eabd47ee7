-- ===== src/Route/Listing.antt =====
-- Which pairs of mints are listed.
use exponent_jupiter_amm_imp.Prelude.{In, ◌≡◌, refl, ◌↔◌, false, true, List, [], ◌∷◌, ◌++◌, map}
use exponent_jupiter_amm_imp.Prelude.Result.{ok, map_result}
use exponent_jupiter_amm_imp.Solana.{Pubkey}
use exponent_jupiter_amm_imp.Crates.{Crates}
use exponent_jupiter_amm_imp.Amm.{Amm}
use exponent_jupiter_amm_imp.SplTokenSwap.Pool.{SplTokenSwapAmm, get_reserve_mints}
use exponent_jupiter_amm_imp.SplTokenSwap.Implementation.{spl_token_swap_amm}
use exponent_jupiter_amm_imp.Route.{first_two, get_two_permutations, get_token_mints_permutations}
use exponent_jupiter_amm_imp.Route.Pairs.{ItertoolsLaws, picks, arrangements, pairs, Apart}
use exponent_jupiter_amm_imp.Route.Pairs.Places.{pairs-picks_iff}

module _ {A : Type 0} where
  first_two_along :
      (x : A) (ys : List A) (rows : List (List A)) (more : List (A × A))
      → map_result first_two rows ≡ ok more
      → map_result first_two (map (λ y. x ∷ y ∷ []) ys ++ rows) ≡ ok (map (λ y. (x, y)) ys ++ more)
  unfolding first_two
  first_two_along x [] rows more h = h
  first_two_along x (y ∷ ys) rows more h = rw (first_two_along x ys rows more h)

  first_two_all : (ps : List (A × List A)) → map_result first_two (arrangements ps) ≡ ok (pairs ps)
  first_two_all [] = refl
  first_two_all ((x, rest) ∷ ps) =
      first_two_along x rest (arrangements ps) (pairs ps) (first_two_all ps)

module _ (X : Crates) (L : ItertoolsLaws X) where
  get_two_permutations-eq-pairs :
      {A : Type 0} (items : List A) → get_two_permutations X items ≡ ok (pairs (picks items))
  unfolding get_two_permutations
  get_two_permutations-eq-pairs {A} items =
      rw (L.permutations-eq A items) (first_two_all (picks items))

  -- If `itertools` is as documented, a pool that trades both ways lists its mints without a panic,
  -- and a pair is listed exactly if its two mints stand at different places among the pool's mints,
  -- in either order.
  pub get_token_mints_permutations_lists :
      (amm : Amm X) (self : amm.Self)
      → amm.unidirectional self ≡ false
      → (ps : List (Pubkey × Pubkey)) × (get_token_mints_permutations X amm self ≡ ok ps)
        × ((a b : Pubkey) → In (a, b) ps ↔ Apart a b (amm.get_reserve_mints self))
  unfolding get_token_mints_permutations
  get_token_mints_permutations_lists amm self both = (
    pairs (picks (amm.get_reserve_mints self)),
    rw both (get_two_permutations-eq-pairs (amm.get_reserve_mints self)),
    λ a b. pairs-picks_iff a b (amm.get_reserve_mints self),
  )

  -- A token swap pool trades its first mint for its second and its second for its first, and
  -- nothing else, if the trait's default is to trade both ways and `itertools` is as documented.
  pub get_token_mints_permutations_of_pool :
      (self : SplTokenSwapAmm X)
      → X.default_unidirectional ≡ false
      → get_token_mints_permutations X (spl_token_swap_amm X) self
        ≡ ok (
            (self.reserve_mints.0, self.reserve_mints.1)
            ∷ (self.reserve_mints.1, self.reserve_mints.0)
            ∷ [])
  unfolding get_token_mints_permutations get_reserve_mints
  get_token_mints_permutations_of_pool self both =
      simp both (get_two_permutations-eq-pairs (get_reserve_mints X self))

  -- A pool that trades one way and has two mints lists them as they stand.
  pub get_token_mints_permutations_one_way :
      (amm : Amm X) (self : amm.Self) {a b : Pubkey}
      → amm.unidirectional self ≡ true
      → amm.get_reserve_mints self ≡ a ∷ b ∷ []
      → get_token_mints_permutations X amm self ≡ ok ((a, b) ∷ [])
  unfolding get_token_mints_permutations
  get_token_mints_permutations_one_way amm self one mints =
      rw (one, mints, L.collect_tuple-eq Pubkey)
