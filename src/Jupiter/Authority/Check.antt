-- ===== src/Jupiter/Authority/Check.antt =====
-- The test of jupiter/src/lib.rs, lines 157 to 172, on generators that it takes in turn.
use exponent_jupiter_amm_imp.Prelude.{ℕ, zero, suc, ◌+◌, Bool, ◌&&◌, ltb, leb}
use exponent_jupiter_amm_imp.Prelude.Result.{Result, ok, assert, ◌>>=◌, ◌>>◌}
use exponent_jupiter_amm_imp.Crates.{Crates}
use exponent_jupiter_amm_imp.Jupiter.Authority.{find_jupiter_program_authority_id}

module _ (X : Crates) where
  -- `for _ in 0..rounds { let id = find_jupiter_program_authority_id(ids); assert!(..) }`, from the
  -- generator with this number on.
  unfoldable pub check_ids : (ℕ → X.Rng) → ℕ × ℕ → (ℕ → Bool) → ℕ → ℕ → Result (Unit {0})
  check_ids rngs ids holds zero first = ok tt
  check_ids rngs ids holds (suc rounds) first =
      let rest = check_ids rngs ids holds rounds (first + 1) in
      (find_jupiter_program_authority_id X ids (rngs first) >>= λ id. assert (holds id)) >> rest

  unfoldable pub test_find_jupiter_program_authority_id : (ℕ → X.Rng) → Result (Unit {0})
  test_find_jupiter_program_authority_id rngs =
      check_ids rngs (0, 8) (λ id. ltb id 8) 100 0
      >> check_ids rngs (8, 16) (λ id. leb 8 id && ltb id 16) 100 100
