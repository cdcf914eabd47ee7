-- ===== src/Harness/Simulation/Asked.antt =====
-- What a test must ask of the two builders, of the pool and of the bank.
use exponent_jupiter_amm_imp.Prelude.{ℕ, false, none, some, [], ◌∷◌}
use exponent_jupiter_amm_imp.Solana.{exact_in, exact_out}
use exponent_jupiter_amm_imp.Constants.{jupiter_id}
use exponent_jupiter_amm_imp.Crates.{Crates}
use exponent_jupiter_amm_imp.Amm.{SwapParams, QuoteParams}
use exponent_jupiter_amm_imp.SwapTransaction.Accounts.{BuildSwapAccountsParams}
use exponent_jupiter_amm_imp.SwapTransaction.InstructionData.{BuildSwapInstructionDataParams}
use exponent_jupiter_amm_imp.Harness.Bank.{Bank, ProgramTest}
use exponent_jupiter_amm_imp.Harness.Simulation.{AmmTestSwapParams, TestAccounts}

module _ (X : Crates) (K : Bank) where
  -- What the accounts of the route must be for: the user's own two accounts, the two that the swap
  -- goes through, and the program's authority, with no account of a ledger or for a fee, and the
  -- user as the recipient.
  abbrev pub parties : ProgramTest → AmmTestSwapParams → TestAccounts → BuildSwapAccountsParams
  parties self p t = record {
    use_shared_accounts = p.use_shared_accounts;
    swap_mode = p.swap_mode;
    user = self.program_test_user.keypair;
    program_authority = self.program_test_authority.pubkey;
    user_source_token_account = t.user_source_token_account;
    source_token_account = t.source_token_account;
    user_destination_token_account = t.user_destination_token_account;
    destination_token_account = t.destination_token_account;
    destination_token_program = X.spl_token_id;
    input_mint = p.source_mint;
    output_mint = p.destination_mint;
    token_ledger = none;
    platform_fee_account = none;
    optional_destination_token_account = none;
    token2022_program = some K.spl_token_2022_id;
  }

  -- The swap that the pool's leg must be for: from the account that pays, by its owner.
  abbrev pub leg_of : AmmTestSwapParams → TestAccounts → ℕ → SwapParams X
  leg_of p t amount = record {
    swap_mode = p.swap_mode;
    in_amount = amount;
    out_amount = amount;
    source_mint = p.source_mint;
    destination_mint = p.destination_mint;
    source_token_account = t.source_token_account;
    destination_token_account = t.destination_token_account;
    token_transfer_authority = t.token_authority;
    quote_mint_to_referrer = none;
    jupiter_program_id = jupiter_id;
    missing_dynamic_accounts_as_default = false;
  }

  -- The arguments that the bytes must be made of: one step that takes the whole amount through the
  -- pool, and no limit, slippage or fee.
  abbrev pub step_of :
      ProgramTest → AmmTestSwapParams → ℕ → X.Swap → BuildSwapInstructionDataParams X
  step_of self p amount swap = record {
    use_shared_accounts = p.use_shared_accounts;
    use_token_ledger = false;
    program_authority_id = self.program_test_authority.id;
    route_plan = record { swap = swap; percent = 100; input_index = 0; output_index = 1 } ∷ [];
    amount = amount;
    quoted_amount = elim p.swap_mode [ exact_in ↦ 0 | exact_out ↦ 18_446_744_073_709_551_615 ];
    swap_mode = p.swap_mode;
    slippage_bps = 0;
    platform_fee_bps = 0;
  }

  -- The quote of an amount of the test's source mint for its destination mint.
  abbrev pub quote_for : AmmTestSwapParams → ℕ → QuoteParams
  quote_for p amount = record {
    amount = amount;
    input_mint = p.source_mint;
    output_mint = p.destination_mint;
    swap_mode = p.swap_mode;
  }
