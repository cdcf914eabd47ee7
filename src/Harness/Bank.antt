-- ===== src/Harness/Bank.antt =====
-- The program test of the harness and what it asks of the bank: lines 93 to 127, 431 to 442 and
-- 509 to 518 of jupiter-core/src/amms/test_harness.rs.
pub mod Seen
use exponent_jupiter_amm_imp.Prelude.{ℕ, Bool, Option, List, ◌∷◌}
use exponent_jupiter_amm_imp.Prelude.Result.{Error, Result, ok, err, panic, unwrap, unwrap_result}
use exponent_jupiter_amm_imp.Prelude.Stateful.{Method, ◌>>=◌, lift}
use exponent_jupiter_amm_imp.Prelude.Dict.{Dict}
use exponent_jupiter_amm_imp.Solana.{Pubkey, Bytes, Account, Instruction}

-- `solana_program_test` and the crates that only the harness calls. `Context` is the state of the
-- bank; a key pair is named by its public key; `unpack_token2022_amount` is the amount of the
-- account that `spl_token_2022` unpacks.
pub record Bank : Type 1 where
  pub Context : Type 0
  pub Transaction : Type 0
  pub payer : Pubkey
  pub get_latest_blockhash : Context → Result ℕ
  pub new_signed_with_payer : List Instruction → Pubkey → List Pubkey → ℕ → Result Transaction
  pub process_transaction_with_preflight : Transaction → Method Context (Unit {0})
  pub get_account : Context → Pubkey → Result (Option Account)
  pub unpack_token2022_amount : Bytes → Result ℕ
  pub set_compute_unit_limit : ℕ → Instruction
  pub native_mint : Pubkey
  pub spl_token_2022_id : Pubkey
  -- Errors of `anchor_lang`, inside an `anyhow::Error`, and the two comparisons of `assert_eq!`.
  pub AnchorError : Type 0
  pub downcast_ref : Error → Option AnchorError
  pub same_anchor_error : AnchorError → AnchorError → Bool
  pub same_text : Error → Error → Bool

-- `ProgramTestAuthority`
pub record ProgramTestAuthority : Type 0 where
  pub id : ℕ
  pub pubkey : Pubkey
  pub mint_to_ata_with_program_id : Dict (Pubkey × Pubkey)

-- `ProgramTestUser`
pub record ProgramTestUser : Type 0 where
  pub keypair : Pubkey
  pub mint_to_ata_with_program_id : Dict (Pubkey × Pubkey)

-- `AmmTestHarnessProgramTest` without the context, which is the state that the methods pass on,
-- and the option, which they do not read.
pub record ProgramTest : Type 0 where
  pub program_test_authority : ProgramTestAuthority
  pub program_test_user : ProgramTestUser

module _ (K : Bank) where
  unfoldable pub process_transaction : List Instruction → List Pubkey → Method K.Context (Unit {0})
  process_transaction instructions signers context =
      (do
        recent_blockhash ← lift (K.get_latest_blockhash context)
        transaction ←
            lift (K.new_signed_with_payer instructions K.payer (K.payer ∷ signers) recent_blockhash)
        K.process_transaction_with_preflight transaction)
        context

  -- `get_token_account(address).amount`
  unfoldable pub get_token_amount : Pubkey → Method K.Context ℕ
  get_token_amount address context =
      (do
        found ← lift (unwrap_result (K.get_account context address))
        account ← lift (unwrap found)
        lift (unwrap_result (K.unpack_token2022_amount account.content)))
        context

  -- A call whose failure is kept as a value; a panic is not.
  abbrev pub attempt : {S A : Type 0} → Method S A → Method S (Result A)
  attempt call s =
      let (r, s') = call s in
      elim r [ ok a ↦ (ok (ok a), s') | err e ↦ (ok (err e), s') | panic ↦ (panic, s') ]
