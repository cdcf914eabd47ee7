-- ===== src/Harness/Loading.antt =====
-- `load_program_test`: lines 653 to 720 of jupiter-core/src/amms/test_harness.rs, from a snapshot to
-- a bank with two wallets.
pub mod Building
pub mod Ready
pub mod Paying
use exponent_jupiter_amm_imp.Prelude.{true, String, Option, none, some, List, [], ◌∷◌}
use exponent_jupiter_amm_imp.Prelude.Result.{Result, ok, err, panic}
use exponent_jupiter_amm_imp.Prelude.Dict.{Dict}
use exponent_jupiter_amm_imp.Prelude.Stateful.{Method, ◌>>=◌, ◌>>◌, lift}
use exponent_jupiter_amm_imp.Solana.{Pubkey, AccountMap}
use exponent_jupiter_amm_imp.Constants.{jupiter_id}
use exponent_jupiter_amm_imp.Crates.{Crates}
use exponent_jupiter_amm_imp.Amm.{Amm}
use exponent_jupiter_amm_imp.Harness.Bank.{Bank, ProgramTest}
use exponent_jupiter_amm_imp.Harness.Precise.{update_amm_precise, update_rounds}
use exponent_jupiter_amm_imp.Harness.Setup.{Tokens}
use exponent_jupiter_amm_imp.Harness.Setup.Wallets.{Starts, setup_user, setup_authority}
use exponent_jupiter_amm_imp.Harness.Snapshot.Files.{Formats, load_accounts_snapshot}
use exponent_jupiter_amm_imp.Harness.Loading.Building.{
  Builders, add_programs, add_accounts, set_clock,
}

module _ (X : Crates) (K : Bank) (T : Tokens K) (B : Starts K) (P : Builders K) where
  -- The authority first, then the user.
  unfoldable pub setup_wallets : Pubkey → List Pubkey → Method K.Context ProgramTest
  setup_wallets keypair reserve_mints = do
    program_test_authority ← setup_authority X K T B reserve_mints
    program_test_user ← setup_user X K T B keypair reserve_mints
    lift (
        ok (record {
          program_test_authority = program_test_authority;
          program_test_user = program_test_user;
        }))

  abbrev pub with_context : Result ProgramTest × K.Context → Result (K.Context × ProgramTest)
  with_context (ok test, context) = ok (context, test)
  with_context (err e, context) = err e
  with_context (panic, context) = panic

  module _ (amm : Amm X) where
    -- The builder with the programs that the pool needs.
    abbrev pub program_builder : amm.Self → P.Builder
    program_builder self = add_programs K P (amm.program_dependencies self) (
        P.add_program (P.modified_label (amm.label self)) (amm.program_id self) (
          P.add_program "jupiter" jupiter_id
            (P.deactivate_feature P.deactivated_feature (P.prefer_bpf true P.default))))

    -- `before_test_setup`, for a closure that keeps nothing from call to call.
    abbrev pub changed :
        Option (amm.Self → AccountMap → AccountMap) → amm.Self → AccountMap → AccountMap
    changed none self accounts = accounts
    changed (some before_test_setup) self accounts = before_test_setup self accounts

    -- The start of the bank, with the clock, and the wallets for the pool's mints.
    unfoldable pub start_test :
        Pubkey → Option P.Clock → P.Builder → Method amm.Self (K.Context × ProgramTest)
    start_test keypair clock pt self = (
      with_context (
          setup_wallets keypair (amm.get_reserve_mints self)
            (set_clock K P clock (P.start_with_context pt))),
      self,
    )

    unfoldable pub load_program_test :
        (F : Formats X)
        → Result (Dict F.Text)
        → Option (amm.Self → AccountMap → AccountMap)
        → Pubkey
        → Method amm.Self (K.Context × ProgramTest)
    load_program_test F globbed before_test_setup keypair self =
        (do
          loaded ← lift (load_accounts_snapshot X F globbed)
          let accounts_snapshot = changed before_test_setup self loaded
          (clock, pt) ← lift (add_accounts K P accounts_snapshot none (program_builder self))
          update_rounds X amm 3 (update_amm_precise X amm accounts_snapshot)
          start_test keypair clock pt)
          self
