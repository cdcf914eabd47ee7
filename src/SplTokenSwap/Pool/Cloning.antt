-- ===== src/SplTokenSwap/Pool/Cloning.antt =====
-- `clone` copies every field.
use exponent_jupiter_amm_imp.Prelude.{◌≡◌}
use exponent_jupiter_amm_imp.Crates.{Crates, CloneLaws}
use exponent_jupiter_amm_imp.SplTokenSwap.Pool.{SplTokenSwapAmm, clone}

module _ (X : Crates) (L : CloneLaws X) where
  -- If clones of the fees and of the curve's calculator equal their originals, a clone of a pool
  -- equals the pool: no field is left out or exchanged with another.
  pub clone-eq : (self : SplTokenSwapAmm X) → clone X self ≡ self
  unfolding clone
  clone-eq self = rw (L.clone_fees-eq, L.clone_calculator-eq)
