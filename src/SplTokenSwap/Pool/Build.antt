-- ===== src/SplTokenSwap/Pool/Build.antt =====
-- What a pool built from an account satisfies.
use exponent_jupiter_amm_imp.Prelude.{◌<◌, ◌≡◌, some, arith}
use exponent_jupiter_amm_imp.Prelude.Result.{ok, u64_mod}
use exponent_jupiter_amm_imp.Solana.{KeyedAccount}
use exponent_jupiter_amm_imp.Crates.{Crates}
use exponent_jupiter_amm_imp.SplTokenSwap.Pool.{SplTokenSwapAmm, from_keyed_account, program_label}

-- The mints are those of the state, in its order; the reserves are `u64`s; the label is the
-- table's for the program.
pub record IsWellFormed (X : Crates) (self : SplTokenSwapAmm X) : Type 0 where
  pub mint_a : self.reserve_mints.0 ≡ self.state.token_a_mint
  pub mint_b : self.reserve_mints.1 ≡ self.state.token_b_mint
  pub reserve_a_lt : self.reserves.0 < u64_mod
  pub reserve_b_lt : self.reserves.1 < u64_mod
  pub labelled : program_label self.program_id ≡ some self.label

module _ (X : Crates) where
  pub from_keyed_account-IsWellFormed :
      (keyed_account : KeyedAccount X.Params) (c : X.AmmContext) {self : SplTokenSwapAmm X}
      → from_keyed_account X keyed_account c ≡ ok self
      → IsWellFormed X self
  unfolding from_keyed_account
  from_keyed_account-IsWellFormed keyed_account c built = ground arith

  -- The pool has the account's key and its owner as the program.
  pub from_keyed_account_keeps :
      (keyed_account : KeyedAccount X.Params) (c : X.AmmContext) {self : SplTokenSwapAmm X}
      → from_keyed_account X keyed_account c ≡ ok self
      → (self.key ≡ keyed_account.key) × (self.program_id ≡ keyed_account.account.owner)
  unfolding from_keyed_account
  from_keyed_account_keeps keyed_account c built = ground arith
