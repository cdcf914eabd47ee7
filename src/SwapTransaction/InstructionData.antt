-- ===== src/SwapTransaction/InstructionData.antt =====
-- `build_swap_instruction_data`: lines 194 to 274 of jupiter-core/src/build_swap_transaction.rs.
use exponent_jupiter_amm_imp.Prelude.{ℕ, Bool, true, false, List}
use exponent_jupiter_amm_imp.Prelude.Result.{Result, ok}
use exponent_jupiter_amm_imp.Solana.{Bytes, SwapMode, exact_in, exact_out}
use exponent_jupiter_amm_imp.Crates.{Crates}
use exponent_jupiter_amm_imp.Jupiter.Instructions.{
  RoutePlanStep, RouteInstruction, shared_accounts_route_with_token_ledger, shared_accounts_route,
  shared_accounts_exact_out_route, route_with_token_ledger, route, exact_out_route,
}
use exponent_jupiter_amm_imp.Jupiter.Wire.{Anchor}
use exponent_jupiter_amm_imp.Jupiter.Wire.Writing.{instruction_data}

module _ (X : Crates) where
  pub record BuildSwapInstructionDataParams : Type 0 where
    pub use_shared_accounts : Bool
    pub use_token_ledger : Bool
    pub program_authority_id : ℕ
    pub route_plan : List (RoutePlanStep X)
    pub amount : ℕ
    pub quoted_amount : ℕ
    pub swap_mode : SwapMode
    pub slippage_bps : ℕ
    pub platform_fee_bps : ℕ

  -- The instruction that the `match` on the mode and the two flags builds.
  unfoldable pub route_instruction :
      BuildSwapInstructionDataParams → SwapMode → Bool → Bool → RouteInstruction X
  route_instruction p exact_in true true = shared_accounts_route_with_token_ledger (record {
    id = p.program_authority_id;
    route_plan = p.route_plan;
    quoted_out_amount = p.quoted_amount;
    slippage_bps = p.slippage_bps;
    platform_fee_bps = p.platform_fee_bps;
  })
  route_instruction p exact_in true false = shared_accounts_route (record {
    id = p.program_authority_id;
    route_plan = p.route_plan;
    in_amount = p.amount;
    quoted_out_amount = p.quoted_amount;
    slippage_bps = p.slippage_bps;
    platform_fee_bps = p.platform_fee_bps;
  })
  route_instruction p exact_in false true = route_with_token_ledger (record {
    route_plan = p.route_plan;
    quoted_out_amount = p.quoted_amount;
    slippage_bps = p.slippage_bps;
    platform_fee_bps = p.platform_fee_bps;
  })
  route_instruction p exact_in false false = route (record {
    route_plan = p.route_plan;
    in_amount = p.amount;
    quoted_out_amount = p.quoted_amount;
    slippage_bps = p.slippage_bps;
    platform_fee_bps = p.platform_fee_bps;
  })
  route_instruction p exact_out true _ = shared_accounts_exact_out_route (record {
    id = p.program_authority_id;
    route_plan = p.route_plan;
    out_amount = p.amount;
    quoted_in_amount = p.quoted_amount;
    slippage_bps = p.slippage_bps;
    platform_fee_bps = p.platform_fee_bps;
  })
  route_instruction p exact_out false _ = exact_out_route (record {
    route_plan = p.route_plan;
    out_amount = p.amount;
    quoted_in_amount = p.quoted_amount;
    slippage_bps = p.slippage_bps;
    platform_fee_bps = p.platform_fee_bps;
  })

  unfoldable pub build_swap_instruction_data :
      Anchor X → BuildSwapInstructionDataParams → Result Bytes
  unfolding route_instruction
  build_swap_instruction_data N p = ok (
      instruction_data X N
        (route_instruction p p.swap_mode p.use_shared_accounts p.use_token_ledger))
