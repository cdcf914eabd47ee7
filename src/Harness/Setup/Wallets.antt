-- ===== src/Harness/Setup/Wallets.antt =====
-- The set-up of a wallet on the bank: lines 735 to 770 and 865 to 962 of
-- jupiter-core/src/amms/test_harness.rs.
use exponent_jupiter_amm_imp.Prelude.{ℕ, Bool, true, false, List, [], ◌∷◌, if◌then◌else◌}
use exponent_jupiter_amm_imp.Prelude.Result.{Result, ok, unwrap, unwrap_result}
use exponent_jupiter_amm_imp.Prelude.Stateful.{Method, ◌>>=◌, ◌>>◌, lift, modify}
use exponent_jupiter_amm_imp.Prelude.Dict.{Dict}
use exponent_jupiter_amm_imp.Solana.{Pubkey, Bytes}
use exponent_jupiter_amm_imp.Crates.{Crates}
use exponent_jupiter_amm_imp.Jupiter.Authority.{find_jupiter_program_authority}
use exponent_jupiter_amm_imp.Harness.Bank.{Bank, ProgramTestAuthority, ProgramTestUser}
use exponent_jupiter_amm_imp.Harness.Setup.{Tokens, setup_loop}

-- What else the set-up asks of the bank, and `with_base_amount`: the bytes of an account of
-- `spl_token_2022` with another amount, by `unpack`, an assignment and `pack_base`.
pub record Starts (K : Bank) : Type 0 where
  pub last_blockhash : K.Context → ℕ
  pub process_transaction : K.Transaction → Method K.Context (Unit {0})
  pub with_base_amount : Bytes → ℕ → Result Bytes

module _ (X : Crates) (K : Bank) (T : Tokens K) (B : Starts K) where
  -- `.await.unwrap()` on the result of a method
  abbrev pub awaited : {A : Type 0} → Method K.Context A → Method K.Context A
  awaited call context = let (r, context') = call context in (unwrap_result r, context')

  unfoldable pub bootstrap_amount : Pubkey → ℕ → Method K.Context (Unit {0})
  bootstrap_amount ata set_amount context =
      (do
        found ← lift (unwrap_result (K.get_account context ata))
        account ← lift (unwrap found)
        content ← lift (unwrap_result (B.with_base_amount account.content set_amount))
        modify (T.set_account ata (record account { content = content })))
        context

  -- The loop over the accounts that the loop over the mints left to be funded.
  unfoldable pub bootstrap_amounts : Dict ℕ → Method K.Context (Unit {0})
  bootstrap_amounts [] = lift (ok tt)
  bootstrap_amounts ((ata, set_amount) ∷ rest) =
      bootstrap_amount ata set_amount >> bootstrap_amounts rest

  unfoldable pub setup_token_accounts :
      Pubkey → List Pubkey → Bool → Method K.Context (Dict (Pubkey × Pubkey))
  setup_token_accounts wallet reserve_mints with_bootstrap_amounts context =
      (do
        s ← lift (setup_loop X K T wallet context reserve_mints)
        modify (λ _. s.context)
        transaction ← lift (
            K.new_signed_with_payer s.setup_ixs K.payer (K.payer ∷ []) (B.last_blockhash s.context))
        awaited (B.process_transaction transaction)
        (if with_bootstrap_amounts then bootstrap_amounts s.ata_to_set_amount else lift (ok tt))
        lift (ok s.mint_to_ata_with_program_id))
        context

  -- `keypair` is the key of `Keypair::new()`.
  unfoldable pub setup_user : Pubkey → List Pubkey → Method K.Context ProgramTestUser
  setup_user keypair reserve_mints = do
    mint_to_ata_with_program_id ← setup_token_accounts keypair reserve_mints true
    lift (
        ok
          (record { keypair = keypair; mint_to_ata_with_program_id = mint_to_ata_with_program_id }))

  unfoldable pub setup_authority : List Pubkey → Method K.Context ProgramTestAuthority
  setup_authority reserve_mints = do
    let program_authority = find_jupiter_program_authority X 0
    mint_to_ata_with_program_id ← setup_token_accounts program_authority reserve_mints false
    lift (
        ok (record {
          id = 0;
          pubkey = program_authority;
          mint_to_ata_with_program_id = mint_to_ata_with_program_id;
        }))
