-- ===== src/TestAmms/Key.antt =====
-- The test of a pool from its key: lines 14 to 48 of jupiter-core/tests/test_amms.rs.
use exponent_jupiter_amm_imp.Prelude.{ℕ, String, Option}
use exponent_jupiter_amm_imp.Prelude.Result.{Result, ◌>>=◌, unwrap_result}
use exponent_jupiter_amm_imp.Solana.{Pubkey, KeyedAccount}
use exponent_jupiter_amm_imp.Crates.{Crates}
use exponent_jupiter_amm_imp.Amm.{Amm}
use exponent_jupiter_amm_imp.Jupiter.Wire.{Anchor}
use exponent_jupiter_amm_imp.Harness.Bank.{Bank}
use exponent_jupiter_amm_imp.Harness.Setup.{Tokens}
use exponent_jupiter_amm_imp.Harness.Setup.Wallets.{Starts}
use exponent_jupiter_amm_imp.Harness.Directories.{FileSystem, directory_name, found}
use exponent_jupiter_amm_imp.Harness.Snapshot.Addresses.{Keys}
use exponent_jupiter_amm_imp.Harness.Snapshot.Files.{Formats}
use exponent_jupiter_amm_imp.Harness.Snapshot.Readers.{get_keyed_account_from_snapshot, get_clock}
use exponent_jupiter_amm_imp.Harness.Client.{Remote}
use exponent_jupiter_amm_imp.Harness.Loading.Building.{Builders}
use exponent_jupiter_amm_imp.TestAmms.{Quoting, test_quoting_with_amm}

module _ (X : Crates) (K : Bank) (T : Tokens K) (B : Starts K) (P : Builders K) (N : Anchor X)
    (F : Formats X) (keypairs : ℕ → Pubkey) (C : Remote X) (Z : Keys) where
  -- The pool is made of the account and the clock of its snapshot, by `T::from_keyed_account`; its
  -- state after the tests is dropped.
  unfoldable pub test_quoting_for_amm_key :
      (amm : Amm X)
      → (KeyedAccount X.Params → X.AmmContext → Result amm.Self)
      → Quoting amm.Self
      → FileSystem X F
      → Pubkey
      → Option String
      → Result (Unit {0})
  test_quoting_for_amm_key amm from_keyed_account Q files amm_key option = do
    let name = directory_name X amm_key option
    let globbed = F.glob files name
    keyed_account ←
        unwrap_result (get_keyed_account_from_snapshot X F (found X F files name) amm_key)
    clock ← get_clock X F C.deserialize_clock C.default_clock Z.clock_id globbed
    pool ← unwrap_result (from_keyed_account keyed_account (C.amm_context (C.clock_ref_from clock)))
    (test_quoting_with_amm X K T B P N F keypairs amm Q globbed pool).0
