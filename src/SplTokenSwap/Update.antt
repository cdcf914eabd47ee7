-- ===== src/SplTokenSwap/Update.antt =====
-- `update`: lines 134 to 147 of jupiter-core/src/amms/spl_token_swap_amm.rs.
pub mod Effect
use exponent_jupiter_amm_imp.Prelude.{ℕ}
use exponent_jupiter_amm_imp.Prelude.Stateful.{Method, ◌>>=◌, lift, modify}
use exponent_jupiter_amm_imp.Solana.{AccountMap}
use exponent_jupiter_amm_imp.Crates.{Crates}
use exponent_jupiter_amm_imp.SplTokenSwap.Pool.{SplTokenSwapAmm}

module _ (X : Crates) where
  abbrev set_reserves : ℕ × ℕ → SplTokenSwapAmm X → SplTokenSwapAmm X
  set_reserves amounts self = record self { reserves = amounts }

  -- The reserves are written after the last call that can fail.
  unfoldable pub update : AccountMap → Method (SplTokenSwapAmm X) (Unit {0})
  update account_map self =
      (do
        token_a_account ← lift (X.try_get_account_data account_map self.state.token_a)
        token_a_amount ← lift (X.unpack_token_amount token_a_account)
        token_b_account ← lift (X.try_get_account_data account_map self.state.token_b)
        token_b_amount ← lift (X.unpack_token_amount token_b_account)
        modify (set_reserves (token_a_amount, token_b_amount)))
        self
