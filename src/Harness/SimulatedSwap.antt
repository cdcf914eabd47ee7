-- ===== src/Harness/SimulatedSwap.antt =====
-- The test of a quote against a simulated swap: lines 129 to 393 of
-- jupiter-core/src/amms/test_harness.rs.
pub mod Tracing
pub mod Passing
use exponent_jupiter_amm_imp.Prelude.{ℕ, [], ◌∷◌}
use exponent_jupiter_amm_imp.Prelude.Result.{ok}
use exponent_jupiter_amm_imp.Prelude.Stateful.{Method, ◌>>=◌, lift}
use exponent_jupiter_amm_imp.Solana.{Instruction}
use exponent_jupiter_amm_imp.Crates.{Crates}
use exponent_jupiter_amm_imp.Amm.{Amm, Quote}
use exponent_jupiter_amm_imp.Jupiter.Wire.{Anchor}
use exponent_jupiter_amm_imp.Harness.Bank.{
  Bank, ProgramTest, process_transaction, get_token_amount, attempt,
}
use exponent_jupiter_amm_imp.Harness.QuoteSearch.{Search}
use exponent_jupiter_amm_imp.Harness.Simulation.{
  AmmTestSwapParams, TestAccounts, prepare, quote_params,
}
use exponent_jupiter_amm_imp.Harness.Verdict.{verdict}

module _ (X : Crates) (K : Bank) where
  -- The balances of the user's source and destination accounts.
  unfoldable pub user_balances : TestAccounts → Method K.Context (ℕ × ℕ)
  user_balances t = do
    source ← get_token_amount K t.user_source_token_account
    destination ← get_token_amount K t.user_destination_token_account
    lift (ok (source, destination))

  -- The transaction, signed by the user.
  abbrev pub send : ProgramTest → Instruction → Method K.Context (Unit {0})
  send self ix =
      process_transaction K (K.set_compute_unit_limit 1_400_000 ∷ ix ∷ [])
        (self.program_test_user.keypair ∷ [])

  unfoldable pub assert_quote_matches_simulated_swap :
      Anchor X
      → (amm : Amm X) → amm.Self
      → ProgramTest
      → AmmTestSwapParams
      → Method K.Context (Unit {0})
  assert_quote_matches_simulated_swap N amm pool self p = do
    (t, search, ix) ← lift (prepare X K N amm pool self p)
    before ← user_balances t
    result ← attempt K (send self ix)
    after ← user_balances t
    lift (
        verdict X K (λ n. amm.quote pool (quote_params X K p n)) p search
          (record {
            source_before = before.0;
            source_after = after.0;
            destination_before = before.1;
            destination_after = after.1;
          })
          result)
