-- ===== src/SplTokenSwap/Metas.antt =====
-- `get_swap_and_account_metas`: lines 176 to 208 of jupiter-core/src/amms/spl_token_swap_amm.rs.
pub mod Vaults
use exponent_jupiter_amm_imp.Prelude.{◌==◌, if◌then◌else◌}
use exponent_jupiter_amm_imp.Prelude.Result.{Result, ok}
use exponent_jupiter_amm_imp.Solana.{Pubkey}
use exponent_jupiter_amm_imp.Crates.{Crates}
use exponent_jupiter_amm_imp.TokenSwapMetas.{to_metas}
use exponent_jupiter_amm_imp.Amm.{SwapParams, SwapAndAccountMetas}
use exponent_jupiter_amm_imp.SplTokenSwap.Pool.{SplTokenSwapAmm, get_authority}

module _ (X : Crates) where
  -- The vaults that a swap of this mint pays into and pays out of.
  unfoldable pub swap_vaults : SplTokenSwapAmm X → Pubkey → Pubkey × Pubkey
  swap_vaults self source_mint =
      if source_mint == self.state.token_a_mint
      then (self.state.token_a, self.state.token_b)
      else (self.state.token_b, self.state.token_a)

  unfoldable pub get_swap_and_account_metas :
      SplTokenSwapAmm X → SwapParams X → Result (SwapAndAccountMetas X)
  unfolding swap_vaults to_metas
  get_swap_and_account_metas self swap_params =
      let (swap_source, swap_destination) = swap_vaults self swap_params.source_mint in
      ok (record {
        swap = X.token_swap;
        account_metas = to_metas (record {
          token_swap_program = self.program_id;
          token_program = X.spl_token_id;
          swap = self.key;
          authority = get_authority X self;
          user_transfer_authority = swap_params.token_transfer_authority;
          source = swap_params.source_token_account;
          swap_source = swap_source;
          swap_destination = swap_destination;
          destination = swap_params.destination_token_account;
          pool_mint = self.state.pool_mint;
          pool_fee = self.state.pool_fee_account;
        });
      })
