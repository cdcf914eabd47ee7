-- ===== src/SplTokenSwap/Lifecycle.antt =====
-- Every pool that the program can hold, however often it was updated and cloned.
use exponent_jupiter_amm_imp.Prelude.{◌≡◌}
use exponent_jupiter_amm_imp.Prelude.Result.{ok}
use exponent_jupiter_amm_imp.Solana.{AccountMap, KeyedAccount}
use exponent_jupiter_amm_imp.Crates.{Crates, TokenLaws, CloneLaws}
use exponent_jupiter_amm_imp.SplTokenSwap.Pool.{SplTokenSwapAmm, from_keyed_account, clone}
use exponent_jupiter_amm_imp.SplTokenSwap.Pool.Build.{IsWellFormed, from_keyed_account-IsWellFormed}
use exponent_jupiter_amm_imp.SplTokenSwap.Pool.Cloning.{clone-eq}
use exponent_jupiter_amm_imp.SplTokenSwap.Update.{update}
use exponent_jupiter_amm_imp.SplTokenSwap.Update.Effect.{update-IsWellFormed}

module _ (X : Crates) where
  -- A pool is built from an account; then it is updated from a map, whether or not the update
  -- succeeds, or cloned.
  pub data Held : SplTokenSwapAmm X → Type 0 where
    built :
        (keyed_account : KeyedAccount X.Params) (c : X.AmmContext) {self : SplTokenSwapAmm X}
        → from_keyed_account X keyed_account c ≡ ok self
        → Held self
    updated : {self : SplTokenSwapAmm X} → Held self → (m : AccountMap) → Held (update X m self).1
    cloned : {self : SplTokenSwapAmm X} → Held self → Held (clone X self)

  -- If token accounts hold `u64` balances and clones equal their originals, every pool that is
  -- built from an account and then updated and cloned any number of times, by updates that succeed
  -- or fail, is well formed: its mints are those of its state, its reserves are `u64`s and its
  -- label is the table's.
  pub Held-IsWellFormed :
      TokenLaws X → CloneLaws X → {self : SplTokenSwapAmm X} → Held self → IsWellFormed X self
  Held-IsWellFormed T L (built k c made) = from_keyed_account-IsWellFormed X k c made
  Held-IsWellFormed T L (updated h m) = update-IsWellFormed X T m _ (Held-IsWellFormed T L h)
  Held-IsWellFormed T L (cloned {self = s} h) = rw (clone-eq X L s) (Held-IsWellFormed T L h)
