-- ===== src/Loader.antt =====
-- jupiter-core/src/amms/loader.rs: the pool that an account holds, by the program that owns it.
pub mod Branches
use exponent_jupiter_amm_imp.Prelude.{ℕ, List, ◌<>◌, is_some, if◌then◌else◌}
use exponent_jupiter_amm_imp.Prelude.Result.{Result, ok, err, message, ◌>>=◌}
use exponent_jupiter_amm_imp.Solana.{Pubkey, KeyedAccount}
use exponent_jupiter_amm_imp.Crates.{Crates}
use exponent_jupiter_amm_imp.Amm.{Amm}
use exponent_jupiter_amm_imp.SplTokenSwap.Pool.{from_keyed_account, program_label}
use exponent_jupiter_amm_imp.SplTokenSwap.Implementation.{spl_token_swap_amm}

-- `Box<dyn Amm>`: an implementation of the trait with a value of its type.
pub record BoxedAmm (X : Crates) : Type 1 where
  pub amm : Amm X
  pub value : amm.Self

module _ (X : Crates) where
  -- The set of mints is passed in and not read.
  unfoldable pub amm_factory :
      KeyedAccount X.Params → X.AmmContext → List Pubkey → Result (BoxedAmm X)
  amm_factory keyed_account amm_context _ =
      let owner = keyed_account.account.owner in
      if is_some (program_label owner)
      then (do
        amm ← from_keyed_account X keyed_account amm_context
        ok (record { amm = spl_token_swap_amm X; value = amm }))
      else err (
          message (
            "Unsupported pool "
            <> X.display keyed_account.key
            <> ", from owner "
            <> X.display owner))
