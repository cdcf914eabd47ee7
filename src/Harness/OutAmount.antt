-- ===== src/Harness/OutAmount.antt =====
-- `assert_out_amount_matches_simulated_swap`, for other set-ups: lines 395 to 429 and 452 to 454 of
-- jupiter-core/src/amms/test_harness.rs.
pub mod Gained
use exponent_jupiter_amm_imp.Prelude.{ℕ, Option, [], ◌∷◌, leb, unwrap_or}
use exponent_jupiter_amm_imp.Prelude.Result.{assert, Result, ok, err, panic, unwrap}
use exponent_jupiter_amm_imp.Prelude.Stateful.{Method, ◌>>=◌, ◌>>◌, lift}
use exponent_jupiter_amm_imp.Solana.{Pubkey, Instruction}
use exponent_jupiter_amm_imp.Harness.Bank.{
  Bank, ProgramTest, process_transaction, get_token_amount, attempt,
}
use exponent_jupiter_amm_imp.Harness.Simulation.{ata_of}
use exponent_jupiter_amm_imp.Harness.Verdict.{abs_diff, checked_sub}

abbrev pub get_user : ProgramTest → Pubkey
get_user self = self.program_test_user.keypair

-- `assert_matches!(result, Ok(()))`
abbrev pub assert_ok : Result (Unit {0}) → Result (Unit {0})
assert_ok (ok _) = ok tt
assert_ok (err e) = panic
assert_ok panic = panic

module _ (K : Bank) where
  -- The input mint and the amount that goes in are not read.
  unfoldable pub assert_out_amount_matches_simulated_swap :
      ProgramTest → Instruction → Pubkey → Pubkey → ℕ → ℕ → Option ℕ → Method K.Context (Unit {0})
  assert_out_amount_matches_simulated_swap self swap_instruction _ output_mint _ out_amount
        tolerance =
      do
        user_output_account ←
            lift (ata_of self.program_test_user.mint_to_ata_with_program_id output_mint)
        before ← get_token_amount K user_output_account
        process_transaction_result ← attempt K (
            process_transaction K (K.set_compute_unit_limit 1_400_000 ∷ swap_instruction ∷ [])
              (get_user self ∷ []))
        lift (assert_ok process_transaction_result)
        after ← get_token_amount K user_output_account
        simulation_amount ← lift (unwrap (checked_sub after before))
        lift (assert (leb (abs_diff out_amount simulation_amount) (unwrap_or tolerance 0)))
