-- ===== src/Math/TokenSwap.antt =====
-- The trait of jupiter-core/src/math/token_swap.rs, which nothing implements.
use exponent_jupiter_amm_imp.Prelude.{ℕ, Option, List}
use exponent_jupiter_amm_imp.Crates.{Crates}
use exponent_jupiter_amm_imp.Math.SwapCurveInfo.{SwapResult}

pub record TokenSwap (X : Crates) : Type 1 where
  pub Self : Type 0
  pub exchange : Self → List ℕ → ℕ → ℕ → Option ℕ → Option (SwapResult X)
