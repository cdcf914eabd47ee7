-- ===== src/SplTokenSwap/Quoting.antt =====
-- `quote`: lines 149 to 174 of jupiter-core/src/amms/spl_token_swap_amm.rs.
pub mod Reference
use exponent_jupiter_amm_imp.Prelude.{ℕ, ◌==◌, if◌then◌else◌}
use exponent_jupiter_amm_imp.Prelude.Result.{Result, ok, ◌>>=◌, try_u64}
use exponent_jupiter_amm_imp.Solana.{Pubkey}
use exponent_jupiter_amm_imp.Crates.{Crates, TradeDirection, a_to_b, b_to_a}
use exponent_jupiter_amm_imp.Math.SwapCurveInfo.{get_swap_curve_result}
use exponent_jupiter_amm_imp.Amm.{QuoteParams, Quote}
use exponent_jupiter_amm_imp.SplTokenSwap.Pool.{SplTokenSwapAmm}

module _ (X : Crates) where
  -- The direction of the trade with the reserves of its source and of its destination.
  unfoldable pub trade_sides : SplTokenSwapAmm X → Pubkey → TradeDirection × ℕ × ℕ
  trade_sides self input_mint =
      if input_mint == self.reserve_mints.0
      then (a_to_b, self.reserves.0, self.reserves.1)
      else (b_to_a, self.reserves.1, self.reserves.0)

  unfoldable pub quote : SplTokenSwapAmm X → QuoteParams → Result (Quote X)
  unfolding get_swap_curve_result
  quote self quote_params =
      let (trade_direction, source, destination) = trade_sides self quote_params.input_mint in
      do
        swap_result ←
            get_swap_curve_result X self.state.swap_curve quote_params.amount source destination
              trade_direction self.state.fees
        in_amount ← try_u64 swap_result.input_amount
        out_amount ← try_u64 swap_result.expected_output_amount
        fee_amount ← try_u64 swap_result.fees
        ok (record {
          in_amount = in_amount;
          out_amount = out_amount;
          fee_amount = fee_amount;
          fee_mint = quote_params.input_mint;
          fee_pct = swap_result.fee_pct;
          rest = X.default_quote_rest;
        })
