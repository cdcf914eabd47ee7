-- ===== src/Examples/Swaps.antt =====
-- The builders of a swap instruction at concrete parameters.
use exponent_jupiter_amm_imp.Prelude.{
  ◌≡◌, refl, ◌⊎◌, true, false, some, none, [], ◌∷◌, is_some, arith,
}
use exponent_jupiter_amm_imp.Prelude.Result.{ok, err, message}
use exponent_jupiter_amm_imp.Solana.{exact_in, exact_out}
use exponent_jupiter_amm_imp.Constants.{usdc_mint, usdt_mint}
use exponent_jupiter_amm_imp.Jupiter.Instructions.{RouteInstruction}
use exponent_jupiter_amm_imp.Jupiter.Wire.Writing.{instruction_data}
use exponent_jupiter_amm_imp.Jupiter.Wire.Reading.{read_instruction}
use exponent_jupiter_amm_imp.SwapTransaction.Accounts.{BuildSwapAccountsParams, build_swap_accounts}
use exponent_jupiter_amm_imp.SwapTransaction.InstructionData.{
  BuildSwapInstructionDataParams, route_instruction, build_swap_instruction_data,
}
use exponent_jupiter_amm_imp.SwapTransaction.Wanted.{
  arguments, wanted, signers, FitsParams, refusal,
}
use exponent_jupiter_amm_imp.SwapTransaction.Wanted.Listed.{listed}
use exponent_jupiter_amm_imp.SwapTransaction.Agreement.{
  build_swap_accounts_agrees, build_swap_instruction_data_reads_back,
}
use exponent_jupiter_amm_imp.Examples.Libraries.{small}
use exponent_jupiter_amm_imp.Examples.Wires.{small_anchor, small_anchor-AnchorLaws}

abbrev accounts_params : BuildSwapAccountsParams
accounts_params = record {
  use_shared_accounts = true;
  swap_mode = exact_in;
  user = 200;
  program_authority = 300;
  user_source_token_account = 201;
  source_token_account = 301;
  user_destination_token_account = 202;
  destination_token_account = 302;
  destination_token_program = 6;
  input_mint = usdc_mint;
  output_mint = usdt_mint;
  token_ledger = none;
  platform_fee_account = none;
  optional_destination_token_account = none;
  token2022_program = some 22;
}

abbrev data_params : BuildSwapInstructionDataParams small
data_params = record {
  use_shared_accounts = true;
  use_token_ledger = false;
  program_authority_id = 0;
  route_plan = record { swap = 3; percent = 100; input_index = 0; output_index = 1 } ∷ [];
  amount = 1_000_000;
  quoted_amount = 0;
  swap_mode = exact_in;
  slippage_bps = 50;
  platform_fee_bps = 0;
}

data_params-FitsParams : FitsParams small data_params
data_params-FitsParams = omega arith

build_swap_accounts_agrees_example :
    (i : RouteInstruction small) × (read_instruction small small_anchor (
        instruction_data small small_anchor
          (route_instruction small data_params exact_in true false))
      ≡ some i)
    × (((accounts_params.swap_mode ≡ exact_out)
          × (is_some accounts_params.token_ledger ≡ true)
          × (build_swap_accounts small small_anchor accounts_params ≡ err (message refusal)))
        ⊎ ((build_swap_accounts small small_anchor accounts_params
              ≡ ok (listed small (arguments small i).kind accounts_params))
            × (signers (listed small (arguments small i).kind accounts_params) ≡ 200 ∷ [])))
unfolding build_swap_instruction_data
build_swap_accounts_agrees_example =
    build_swap_accounts_agrees small small_anchor small_anchor-AnchorLaws accounts_params
      data_params data_params-FitsParams refl refl refl refl

build_swap_instruction_data_reads_back_example :
    (i : RouteInstruction small) × (read_instruction small small_anchor (
        instruction_data small small_anchor
          (route_instruction small data_params exact_in true false))
      ≡ some i)
    × (arguments small i ≡ wanted small data_params)
unfolding build_swap_instruction_data
build_swap_instruction_data_reads_back_example =
    build_swap_instruction_data_reads_back small small_anchor small_anchor-AnchorLaws data_params
      data_params-FitsParams refl
