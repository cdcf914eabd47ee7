-- ===== src/TokenSwapMetas.antt =====
-- jupiter-core/src/amms/account_meta_from_token_swap.rs: the accounts of a swap, and their order
-- in the instruction.
use exponent_jupiter_amm_imp.Prelude.{false, List, [], ◌∷◌}
use exponent_jupiter_amm_imp.Solana.{Pubkey, AccountMeta, new, new_readonly}

pub record TokenSwap : Type 0 where
  pub token_swap_program : Pubkey
  pub token_program : Pubkey
  pub swap : Pubkey
  pub authority : Pubkey
  pub user_transfer_authority : Pubkey
  pub source : Pubkey
  pub swap_source : Pubkey
  pub swap_destination : Pubkey
  pub destination : Pubkey
  pub pool_mint : Pubkey
  pub pool_fee : Pubkey

-- `From<TokenSwap> for Vec<AccountMeta>`
unfoldable pub to_metas : TokenSwap → List AccountMeta
to_metas accounts =
    new_readonly accounts.token_swap_program false
    ∷ new_readonly accounts.token_program false
    ∷ new_readonly accounts.swap false
    ∷ new_readonly accounts.authority false
    ∷ new_readonly accounts.user_transfer_authority false
    ∷ new accounts.source false
    ∷ new accounts.swap_source false
    ∷ new accounts.swap_destination false
    ∷ new accounts.destination false
    ∷ new accounts.pool_mint false
    ∷ new accounts.pool_fee false
    ∷ []
