-- ===== src/SplTokenSwap/Implementation.antt =====
-- `impl Amm for SplTokenSwapAmm`: the methods as one value of the trait.
use exponent_jupiter_amm_imp.Crates.{Crates}
use exponent_jupiter_amm_imp.Amm.{Amm}
use exponent_jupiter_amm_imp.SplTokenSwap.Pool.{
  SplTokenSwapAmm, clone, get_reserve_mints, get_accounts_to_update,
}
use exponent_jupiter_amm_imp.SplTokenSwap.Update.{update}
use exponent_jupiter_amm_imp.SplTokenSwap.Quoting.{quote}
use exponent_jupiter_amm_imp.SplTokenSwap.Metas.{get_swap_and_account_metas}

module _ (X : Crates) where
  -- `unidirectional` and `program_dependencies` are not overridden: they are the trait's defaults.
  abbrev pub spl_token_swap_amm : Amm X
  spl_token_swap_amm = record {
    Self = SplTokenSwapAmm X;
    label = λ self. self.label;
    program_id = λ self. self.program_id;
    program_dependencies = λ _. X.default_program_dependencies;
    key = λ self. self.key;
    get_reserve_mints = get_reserve_mints X;
    get_accounts_to_update = get_accounts_to_update X;
    update = update X;
    quote = quote X;
    get_swap_and_account_metas = get_swap_and_account_metas X;
    clone_amm = clone X;
    unidirectional = λ _. X.default_unidirectional;
  }
