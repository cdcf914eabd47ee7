-- ===== src/TestAmms.antt =====
-- jupiter-core/tests/test_amms.rs: the tests of a pool's quotes, from a snapshot.
pub mod Loop
pub mod Alone
pub mod Key
pub mod Taken
use exponent_jupiter_amm_imp.Prelude.{
  ℕ, suc, Bool, true, false, String, Option, List, [], ◌∷◌, unwrap_or,
}
use exponent_jupiter_amm_imp.Prelude.Result.{assert, Error, Result, ok, unwrap_result}
use exponent_jupiter_amm_imp.Prelude.Dict.{Dict}
use exponent_jupiter_amm_imp.Prelude.Stateful.{Method, ◌>>=◌, ◌>>◌, lift}
use exponent_jupiter_amm_imp.Solana.{Pubkey, AccountMap, SwapMode, KeyedAccount}
use exponent_jupiter_amm_imp.Crates.{Crates}
use exponent_jupiter_amm_imp.Amm.{Amm}
use exponent_jupiter_amm_imp.Route.{get_token_mints_permutations}
use exponent_jupiter_amm_imp.Jupiter.Wire.{Anchor}
use exponent_jupiter_amm_imp.Harness.Bank.{Bank, ProgramTest}
use exponent_jupiter_amm_imp.Harness.Setup.{Tokens}
use exponent_jupiter_amm_imp.Harness.Setup.Wallets.{Starts}
use exponent_jupiter_amm_imp.Harness.Simulation.{AmmTestSwapParams}
use exponent_jupiter_amm_imp.Harness.SimulatedSwap.{assert_quote_matches_simulated_swap}
use exponent_jupiter_amm_imp.Harness.Snapshot.Files.{Formats}
use exponent_jupiter_amm_imp.Harness.Snapshot.Addresses.{Keys}
use exponent_jupiter_amm_imp.Harness.Snapshot.Readers.{get_keyed_account_from_snapshot, get_clock}
use exponent_jupiter_amm_imp.Harness.Directories.{FileSystem, directory_name}
use exponent_jupiter_amm_imp.Harness.Client.{Remote}
use exponent_jupiter_amm_imp.Harness.Loading.Building.{Builders}
use exponent_jupiter_amm_imp.Harness.Loading.{load_program_test}

-- What a test is given beside the pool: `before_test_setup` is a closure without a state of its own.
pub record Quoting (Self : Type 0) : Type 0 where
  pub tolerance : ℕ
  pub use_shared_accounts : Bool
  pub swap_mode : SwapMode
  pub before_test_setup : Option (Self → AccountMap → AccountMap)
  pub expect_error : Option Error
  pub restricted_mint_permutations : Option (List (Pubkey × Pubkey))

-- The tests run on a bank; `keypairs` are the keys of the users that the tests make, in turn.
module _ (X : Crates) (K : Bank) (T : Tokens K) (B : Starts K) (P : Builders K) (N : Anchor X)
    (F : Formats X) (keypairs : ℕ → Pubkey) where
  module _ (amm : Amm X) (Q : Quoting amm.Self) (globbed : Result (Dict F.Text)) where
    abbrev pub test_params : Pubkey × Pubkey → AmmTestSwapParams
    test_params (source_mint, destination_mint) = record {
      source_mint = source_mint;
      destination_mint = destination_mint;
      swap_mode = Q.swap_mode;
      tolerance = Q.tolerance;
      use_shared_accounts = Q.use_shared_accounts;
      expected_error = Q.expect_error;
    }

    -- The test on the bank that was loaded, which is dropped after it.
    unfoldable pub run_test : Pubkey × Pubkey → K.Context × ProgramTest → Method amm.Self (Unit {0})
    run_test pair (context, test) self = (
      (assert_quote_matches_simulated_swap X K N amm self test (test_params pair) context).0,
      self,
    )

    -- One round of the loop.
    unfoldable pub test_pair : Pubkey → Pubkey × Pubkey → Method amm.Self (Unit {0})
    test_pair keypair pair =
        load_program_test X K T B P amm F globbed Q.before_test_setup keypair >>= run_test pair

    -- The loop, from the round's number and `one_test_passed`.
    unfoldable pub test_pairs : ℕ → Bool → List (Pubkey × Pubkey) → Method amm.Self Bool
    test_pairs n one_test_passed [] = lift (ok one_test_passed)
    test_pairs n one_test_passed (pair ∷ pairs) =
        test_pair (keypairs n) pair >> test_pairs (suc n) true pairs

    unfoldable pub test_quoting_with_amm : Method amm.Self (Unit {0})
    test_quoting_with_amm self =
        (do
          permutations ← lift (get_token_mints_permutations X amm self)
          one_test_passed ←
              test_pairs 0 false (unwrap_or Q.restricted_mint_permutations permutations)
          lift (assert one_test_passed))
          self
