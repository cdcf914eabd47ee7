-- ===== src/Examples/Simulations.antt =====
-- A bank on which the pool's swap moves what was quoted, and the harness on it.
use exponent_jupiter_amm_imp.Prelude.{ℕ, ◌≡◌, refl, ◌↔◌, some, none, List, [], ◌∷◌, true, arith}
use exponent_jupiter_amm_imp.Prelude.Result.{Result, ok}
use exponent_jupiter_amm_imp.Prelude.Dict.{lookup, insert}
use exponent_jupiter_amm_imp.Solana.{AccountMap, Instruction, exact_in}
use exponent_jupiter_amm_imp.Constants.{usdc_mint, usdt_mint}
use exponent_jupiter_amm_imp.Amm.{Quote}
use exponent_jupiter_amm_imp.SplTokenSwap.Quoting.{trade_sides, quote}
use exponent_jupiter_amm_imp.SplTokenSwap.Implementation.{spl_token_swap_amm}
use exponent_jupiter_amm_imp.Math.Fees.{fee_pct}
use exponent_jupiter_amm_imp.Math.Fees as F
use exponent_jupiter_amm_imp.Harness.Bank.{Bank, ProgramTest, process_transaction, get_token_amount}
use exponent_jupiter_amm_imp.Harness.Amounts.{token_mint_to_in_amount}
use exponent_jupiter_amm_imp.SwapTransaction.Accounts.{build_swap_accounts}
use exponent_jupiter_amm_imp.SwapTransaction.InstructionData.{build_swap_instruction_data}
use exponent_jupiter_amm_imp.SplTokenSwap.Metas.{get_swap_and_account_metas}
use exponent_jupiter_amm_imp.Harness.QuoteSearch.{Search, find_quote, quote_loop, goes_on}
use exponent_jupiter_amm_imp.Harness.Simulation.{
  AmmTestSwapParams, TestAccounts, quote_params, swap_ix, prepare, test_accounts, test_amount,
}
use exponent_jupiter_amm_imp.Harness.Simulation.Sending.{Sent, swap_ix-Sent}
use exponent_jupiter_amm_imp.Harness.Verdict.{Balances, verdict, compare}
use exponent_jupiter_amm_imp.Harness.Verdict.Meaning.{Passes, verdict_iff_Passes}
use exponent_jupiter_amm_imp.Harness.SimulatedSwap.{
  user_balances, assert_quote_matches_simulated_swap,
}
use exponent_jupiter_amm_imp.Harness.SimulatedSwap.Passing.{Run, passes_iff_Run}
use exponent_jupiter_amm_imp.Harness.OutAmount.{assert_out_amount_matches_simulated_swap}
use exponent_jupiter_amm_imp.Harness.OutAmount.Gained.{Gained, out_amount_iff_Gained}
use exponent_jupiter_amm_imp.Examples.Libraries.{small, small-SwapLaws}
use exponent_jupiter_amm_imp.Examples.Wires.{small_anchor, small_anchor-AnchorLaws}
use exponent_jupiter_amm_imp.Examples.Pools.{account, full_pool, full_pool-IsWellFormed}

abbrev pub small_bank : Bank
small_bank = record {
  Context = AccountMap;
  Transaction = List Instruction;
  payer = 900;
  get_latest_blockhash = λ c. ok 1;
  new_signed_with_payer = λ ixs payer signers blockhash. ok ixs;
  process_transaction_with_preflight = λ tx c.
      (ok tt, insert 201 (account (445_000_000 ∷ [])) (insert 202 (account (4_964_179 ∷ [])) c));
  get_account = λ c k. ok (lookup k c);
  unpack_token2022_amount = small.unpack_token_amount;
  set_compute_unit_limit = λ n. record { program_id = 5; accounts = []; content = n ∷ [] };
  native_mint = 7;
  spl_token_2022_id = 22;
  AnchorError = ℕ;
  downcast_ref = λ e. none;
  same_anchor_error = λ a b. true;
  same_text = λ a b. true;
}

abbrev context : AccountMap
context = (201, account (1_000_000_000 ∷ [])) ∷ (202, account (1_000_000 ∷ [])) ∷ []

abbrev after_context : AccountMap
after_context = (201, account (445_000_000 ∷ [])) ∷ (202, account (4_964_179 ∷ [])) ∷ []

abbrev program_test : ProgramTest
program_test = record {
  program_test_authority = record {
    id = 0;
    pubkey = 300;
    mint_to_ata_with_program_id = (usdc_mint, (301, 6)) ∷ (usdt_mint, (302, 6)) ∷ [];
  };
  program_test_user = record {
    keypair = 200;
    mint_to_ata_with_program_id = (usdc_mint, (201, 6)) ∷ (usdt_mint, (202, 6)) ∷ [];
  };
}

abbrev test_params : AmmTestSwapParams
test_params = record {
  source_mint = usdc_mint;
  destination_mint = usdt_mint;
  swap_mode = exact_in;
  tolerance = 1;
  use_shared_accounts = true;
  expected_error = none;
}

abbrev chosen_accounts : TestAccounts
chosen_accounts = record {
  user_source_token_account = 201;
  user_destination_token_account = 202;
  source_token_account = 301;
  destination_token_account = 302;
  token_authority = 300;
}

abbrev quote_of : ℕ → Result (Quote small)
quote_of n = quote small full_pool (quote_params small small_bank test_params n)

swap_ix-Sent_example :
    Sent small small_bank small_anchor full_pool program_test test_params chosen_accounts
      1_110_000_000
      (swap_ix small small_bank small_anchor
        (spl_token_swap_amm small)
        full_pool
        program_test
        test_params
        chosen_accounts
        1_110_000_000)
swap_ix-Sent_example =
    swap_ix-Sent small small_bank small_anchor small-SwapLaws small_anchor-AnchorLaws full_pool
      program_test test_params chosen_accounts 1_110_000_000 full_pool-IsWellFormed (omega arith)
      (omega arith)

passes_iff_Run_example :
    assert_quote_matches_simulated_swap small small_bank small_anchor
        (spl_token_swap_amm small)
        full_pool
        program_test
        test_params
        context
      ≡ (ok tt, after_context)
    ↔ Run small small_bank small_anchor
        (spl_token_swap_amm small)
        full_pool
        program_test
        test_params
        context
        after_context
passes_iff_Run_example =
    passes_iff_Run small small_bank small_anchor (spl_token_swap_amm small) full_pool program_test
      test_params context after_context refl

abbrev found_search : Search (Quote small)
found_search = record {
  amount = 555_000_000;
  quote_count = 1;
  quote_result = some (record {
    in_amount = 555_000_000;
    out_amount = 3_964_179;
    fee_amount = 1_665_000;
    fee_mint = usdc_mint;
    fee_pct = 0;
    rest = tt;
  });
  quote_err = none;
}

abbrev user_moved : Balances
user_moved = record {
  source_before = 1_000_000_000;
  source_after = 445_000_000;
  destination_before = 1_000_000;
  destination_after = 4_964_179;
}

search_run : find_quote quote_of 1_110_000_000 ≡ ok found_search
unfolding find_quote quote_loop goes_on quote trade_sides fee_pct F.new
search_run = refl

verdict_run : verdict small small_bank quote_of test_params found_search user_moved (ok tt) ≡ ok tt
unfolding verdict compare quote trade_sides fee_pct F.new
verdict_run = refl

verdict_iff_Passes_example :
    verdict small small_bank quote_of test_params found_search user_moved (ok tt) ≡ ok tt
    ↔ Passes small quote_of test_params found_search user_moved (ok tt)
verdict_iff_Passes_example =
    verdict_iff_Passes small small_bank quote_of test_params found_search user_moved (ok tt) refl

test_run :
    assert_quote_matches_simulated_swap small small_bank small_anchor
      (spl_token_swap_amm small)
      full_pool
      program_test
      test_params
      context
    ≡ (ok tt, after_context)
unfolding assert_quote_matches_simulated_swap prepare test_accounts test_amount swap_ix
    build_swap_accounts build_swap_instruction_data find_quote quote_loop goes_on quote trade_sides
    fee_pct F.new get_swap_and_account_metas user_balances get_token_amount process_transaction
    verdict compare token_mint_to_in_amount
test_run = refl

abbrev swap_instruction : Instruction
swap_instruction = record { program_id = 1; accounts = []; content = [] }

out_amount_iff_Gained_example :
    assert_out_amount_matches_simulated_swap small_bank program_test swap_instruction usdc_mint
        usdt_mint 555_000_000 3_964_179 none context
      ≡ (ok tt, after_context)
    ↔ Gained small_bank program_test swap_instruction usdt_mint 3_964_179 none context after_context
out_amount_iff_Gained_example =
    out_amount_iff_Gained small_bank program_test swap_instruction usdc_mint usdt_mint 555_000_000
      3_964_179 none context after_context
