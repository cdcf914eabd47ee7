-- ===== src/Math/Fees.antt =====
-- jupiter-core/src/math/fees.rs: the fees of a pool, and the fee as a fraction.
pub mod Pct
use exponent_jupiter_amm_imp.Prelude.{ℕ, Option, some, ltb, if◌then◌else◌}
use exponent_jupiter_amm_imp.Prelude.Maybe.{◌>>=◌}
use exponent_jupiter_amm_imp.Crates as C
use exponent_jupiter_amm_imp.Crates.{Crates, TokenSwapFees}

module _ (X : Crates) where
  -- `struct Fees(TokenSwapFees)`
  pub record Fees : Type 0 where
    pub inner : C.Fees X

  -- `Fees::new`
  unfoldable pub new : ℕ → ℕ → ℕ → ℕ → Fees
  new trade_numerator trade_denominator owner_numerator owner_denominator = record {
    inner = record {
      trade_fee_numerator = trade_numerator;
      trade_fee_denominator = trade_denominator;
      owner_trade_fee_numerator = owner_numerator;
      owner_trade_fee_denominator = owner_denominator;
      rest = X.default_fees_rest;
    };
  }

  unfoldable pub trading_fee : Fees → ℕ → Option ℕ
  trading_fee self amount = X.trading_fee self.inner amount

  unfoldable pub owner_trading_fee : Fees → ℕ → Option ℕ
  owner_trading_fee self amount = X.owner_trading_fee self.inner amount

  -- One of the two fractions of `fee_pct`: nought where the denominator is 0.
  unfoldable pub pct : ℕ → ℕ → Option X.Decimal
  pct numerator denominator =
      if ltb 0 denominator
      then (do n ← X.from_u64 numerator; d ← X.from_u64 denominator; X.checked_div n d)
      else some X.decimal_zero

  unfoldable pub fee_pct : Fees → Option X.Decimal
  unfolding pct
  fee_pct self = do
    trade_fee_pct ← pct self.inner.trade_fee_numerator self.inner.trade_fee_denominator
    owner_trade_fee_pct ←
        pct self.inner.owner_trade_fee_numerator self.inner.owner_trade_fee_denominator
    X.checked_add trade_fee_pct owner_trade_fee_pct
