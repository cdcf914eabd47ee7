-- ===== src/Math/SwapCurveInfo.antt =====
-- jupiter-core/src/math/swap_curve_info.rs and the result type of
-- jupiter-core/src/math/token_swap.rs.
use exponent_jupiter_amm_imp.Prelude.{ℕ}
use exponent_jupiter_amm_imp.Prelude.Result.{Result, ok, ◌>>=◌, context, add_u128}
use exponent_jupiter_amm_imp.Crates as C
use exponent_jupiter_amm_imp.Crates.{Crates, TradeDirection}
use exponent_jupiter_amm_imp.Math.Fees.{new, fee_pct}

module _ (X : Crates) where
  pub record SwapResult : Type 0 where
    pub fee_pct : X.Decimal
    pub fees : ℕ
    pub input_amount : ℕ
    pub expected_output_amount : ℕ

  unfoldable pub get_swap_curve_result :
      C.Curve X → ℕ → ℕ → ℕ → TradeDirection → C.Fees X → Result SwapResult
  get_swap_curve_result curve amount source destination direction fees = do
    result ← context (X.swap curve amount source destination direction fees) "quote failed"
    let pool_fees =
        new X fees.trade_fee_numerator fees.trade_fee_denominator fees.owner_trade_fee_numerator
          fees.owner_trade_fee_denominator
    pct ← context (fee_pct X pool_fees) "failed to get fee pct"
    total ← add_u128 X.overflow_checks result.trade_fee result.owner_fee
    ok (record {
      fee_pct = pct;
      fees = total;
      input_amount = result.source_amount_swapped;
      expected_output_amount = result.destination_amount_swapped;
    })
