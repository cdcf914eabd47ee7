-- ===== src/Harness/Simulation.antt =====
-- The instruction of a simulated swap: lines 77 to 85 and 141 to 282 of
-- jupiter-core/src/amms/test_harness.rs.
pub mod Asked
pub mod Sending
use exponent_jupiter_amm_imp.Prelude.{
  ℕ, ◌-◌, ◌||◌, ◌++◌, Bool, true, false, not, Option, none, some, List, [], ◌∷◌, ◌==◌,
  if◌then◌else◌,
}
use exponent_jupiter_amm_imp.Prelude.Result.{
  Error, Result, ok, ◌>>=◌, unwrap, unwrap_result, u64_mod,
}
use exponent_jupiter_amm_imp.Prelude.Dict.{Dict, lookup}
use exponent_jupiter_amm_imp.Solana.{
  Pubkey, AccountMeta, Bytes, Instruction, SwapMode, exact_in, exact_out,
}
use exponent_jupiter_amm_imp.Constants.{jupiter_id}
use exponent_jupiter_amm_imp.Crates.{Crates}
use exponent_jupiter_amm_imp.Amm.{Amm, Quote, QuoteParams, SwapParams, SwapAndAccountMetas}
use exponent_jupiter_amm_imp.Jupiter.Wire.{Anchor}
use exponent_jupiter_amm_imp.SwapTransaction.Accounts.{BuildSwapAccountsParams, build_swap_accounts}
use exponent_jupiter_amm_imp.SwapTransaction.InstructionData.{
  BuildSwapInstructionDataParams, build_swap_instruction_data,
}
use exponent_jupiter_amm_imp.Harness.Amounts.{
  token_mint_to_in_amount, token_mint_to_out_amount, token2022_mint_and_in_amount,
}
use exponent_jupiter_amm_imp.Harness.Bank.{Bank, ProgramTest}
use exponent_jupiter_amm_imp.Harness.QuoteSearch.{Search, find_quote}

-- `AmmTestSwapParams` without the pool.
pub record AmmTestSwapParams : Type 0 where
  pub source_mint : Pubkey
  pub destination_mint : Pubkey
  pub swap_mode : SwapMode
  pub tolerance : ℕ
  pub use_shared_accounts : Bool
  pub expected_error : Option Error

-- The accounts that the swap goes through.
pub record TestAccounts : Type 0 where
  pub user_source_token_account : Pubkey
  pub user_destination_token_account : Pubkey
  pub source_token_account : Pubkey
  pub destination_token_account : Pubkey
  pub token_authority : Pubkey

-- `.iter().any(|(mint, _)| mint == wanted)`
abbrev pub any_mint : List (Pubkey × ℕ) → Pubkey → Bool
any_mint [] wanted = false
any_mint (entry ∷ entries) wanted = entry.0 == wanted || any_mint entries wanted

-- `.get(mint).unwrap().0`
abbrev pub ata_of : Dict (Pubkey × Pubkey) → Pubkey → Result Pubkey
ata_of atas mint = unwrap (lookup mint atas) >>= λ (ata, _). ok ata

unfoldable pub test_accounts : ProgramTest → AmmTestSwapParams → Result TestAccounts
test_accounts self p = do
  user_source ← ata_of self.program_test_user.mint_to_ata_with_program_id p.source_mint
  user_destination ← ata_of self.program_test_user.mint_to_ata_with_program_id p.destination_mint
  program_source ← ata_of self.program_test_authority.mint_to_ata_with_program_id p.source_mint
  program_destination ←
      ata_of self.program_test_authority.mint_to_ata_with_program_id p.destination_mint
  let input_of_user =
      not p.use_shared_accounts || any_mint token2022_mint_and_in_amount p.source_mint
  let output_of_user =
      not p.use_shared_accounts || any_mint token2022_mint_and_in_amount p.destination_mint
  ok (record {
    user_source_token_account = user_source;
    user_destination_token_account = user_destination;
    source_token_account = if input_of_user then user_source else program_source;
    destination_token_account = if output_of_user then user_destination else program_destination;
    token_authority =
        if input_of_user
        then self.program_test_user.keypair
        else self.program_test_authority.pubkey;
  })

-- The amount that the search starts from.
unfoldable pub test_amount : Pubkey → AmmTestSwapParams → SwapMode → Result ℕ
test_amount native_mint p exact_in =
    unwrap (lookup p.source_mint (token_mint_to_in_amount native_mint))
test_amount native_mint p exact_out = unwrap (lookup p.destination_mint token_mint_to_out_amount)

-- No slippage is allowed for: a swap that is exact-in may return nothing, one that is exact-out
-- may take all.
abbrev pub quoted_limit : SwapMode → ℕ
quoted_limit exact_in = 0
quoted_limit exact_out = u64_mod - 1

module _ (X : Crates) (K : Bank) where
  abbrev pub accounts_params :
      ProgramTest → AmmTestSwapParams → TestAccounts → BuildSwapAccountsParams
  accounts_params self p t = record {
    use_shared_accounts = p.use_shared_accounts;
    swap_mode = p.swap_mode;
    user = self.program_test_user.keypair;
    program_authority = self.program_test_authority.pubkey;
    user_source_token_account = t.user_source_token_account;
    source_token_account = t.source_token_account;
    user_destination_token_account = t.user_destination_token_account;
    destination_token_account = t.destination_token_account;
    destination_token_program = X.spl_token_id;
    input_mint = p.source_mint;
    output_mint = p.destination_mint;
    token_ledger = none;
    platform_fee_account = none;
    optional_destination_token_account = none;
    token2022_program = some K.spl_token_2022_id;
  }

  abbrev pub data_params :
      ProgramTest → AmmTestSwapParams → ℕ → X.Swap → BuildSwapInstructionDataParams X
  data_params self p amount swap = record {
    use_shared_accounts = p.use_shared_accounts;
    use_token_ledger = false;
    program_authority_id = self.program_test_authority.id;
    route_plan = record { swap = swap; percent = 100; input_index = 0; output_index = 1 } ∷ [];
    amount = amount;
    quoted_amount = quoted_limit p.swap_mode;
    swap_mode = p.swap_mode;
    slippage_bps = 0;
    platform_fee_bps = 0;
  }

  abbrev pub quote_params : AmmTestSwapParams → ℕ → QuoteParams
  quote_params p amount = record {
    amount = amount;
    input_mint = p.source_mint;
    output_mint = p.destination_mint;
    swap_mode = p.swap_mode;
  }

  abbrev pub swap_params : AmmTestSwapParams → TestAccounts → ℕ → SwapParams X
  swap_params p t amount = record {
    swap_mode = p.swap_mode;
    in_amount = amount;
    out_amount = amount;
    source_mint = p.source_mint;
    destination_mint = p.destination_mint;
    source_token_account = t.source_token_account;
    destination_token_account = t.destination_token_account;
    token_transfer_authority = t.token_authority;
    quote_mint_to_referrer = none;
    jupiter_program_id = jupiter_id;
    missing_dynamic_accounts_as_default = false;
  }

  -- What the search ended with, and the instruction for its amount.
  unfoldable pub swap_ix :
      Anchor X
      → (amm : Amm X) → amm.Self
      → ProgramTest
      → AmmTestSwapParams
      → TestAccounts
      → ℕ
      → Result (Search (Quote X) × Instruction)
  swap_ix N amm pool self p t amount = do
    accounts ← unwrap_result (build_swap_accounts X N (accounts_params self p t))
    search ← find_quote (λ n. amm.quote pool (quote_params p n)) amount
    leg ← unwrap_result (amm.get_swap_and_account_metas pool (swap_params p t search.amount))
    bytes ←
        unwrap_result (build_swap_instruction_data X N (data_params self p search.amount leg.swap))
    ok (
      search,
      record { program_id = jupiter_id; accounts = accounts ++ leg.account_metas; content = bytes },
    )

  -- The accounts, what the search ended with, and the instruction: all before the bank is asked.
  unfoldable pub prepare :
      Anchor X
      → (amm : Amm X) → amm.Self
      → ProgramTest
      → AmmTestSwapParams
      → Result (TestAccounts × Search (Quote X) × Instruction)
  prepare N amm pool self p = do
    t ← test_accounts self p
    amount ← test_amount K.native_mint p p.swap_mode
    (search, ix) ← swap_ix N amm pool self p t amount
    ok (t, search, ix)
