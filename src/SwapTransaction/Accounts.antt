-- ===== src/SwapTransaction/Accounts.antt =====
-- `build_swap_accounts`: lines 46 to 192 of jupiter-core/src/build_swap_transaction.rs.
use exponent_jupiter_amm_imp.Prelude.{Bool, true, false, Option, none, some, List, unwrap_or}
use exponent_jupiter_amm_imp.Prelude.Result.{Result, ok, err, message, ◌>>=◌}
use exponent_jupiter_amm_imp.Solana.{Pubkey, AccountMeta, SwapMode, exact_in, exact_out}
use exponent_jupiter_amm_imp.Constants.{jupiter_id}
use exponent_jupiter_amm_imp.Crates.{Crates}
use exponent_jupiter_amm_imp.Jupiter.Authority.{find_event_authority}
use exponent_jupiter_amm_imp.Jupiter.Accounts.{
  RouteAccounts, shared_accounts_route_with_token_ledger, shared_accounts_route,
  shared_accounts_exact_out_route, route_with_token_ledger, route, exact_out_route,
}
use exponent_jupiter_amm_imp.Jupiter.Wire.{Anchor}

pub record BuildSwapAccountsParams : Type 0 where
  pub use_shared_accounts : Bool
  pub swap_mode : SwapMode
  pub user : Pubkey
  pub program_authority : Pubkey
  pub user_source_token_account : Pubkey
  pub source_token_account : Pubkey
  pub user_destination_token_account : Pubkey
  pub destination_token_account : Pubkey
  pub destination_token_program : Pubkey
  pub input_mint : Pubkey
  pub output_mint : Pubkey
  pub token_ledger : Option Pubkey
  pub platform_fee_account : Option Pubkey
  pub optional_destination_token_account : Option Pubkey
  pub token2022_program : Option Pubkey

module _ (X : Crates) where
  -- The struct that the `match` on the flag, the mode and the ledger builds.
  unfoldable pub route_accounts :
      BuildSwapAccountsParams → Bool → SwapMode → Option Pubkey → Result RouteAccounts
  route_accounts p true exact_in (some token_ledger) = ok (
      shared_accounts_route_with_token_ledger (record {
        token_program = X.spl_token_id;
        program_authority = p.program_authority;
        user_transfer_authority = p.user;
        source_token_account = p.user_source_token_account;
        program_source_token_account = p.source_token_account;
        program_destination_token_account = p.destination_token_account;
        destination_token_account =
            unwrap_or p.optional_destination_token_account p.user_destination_token_account;
        source_mint = p.input_mint;
        destination_mint = p.output_mint;
        platform_fee_account = unwrap_or p.platform_fee_account jupiter_id;
        token_2022_program = unwrap_or p.token2022_program jupiter_id;
        token_ledger = token_ledger;
        event_authority = find_event_authority X;
        program = jupiter_id;
      }))
  route_accounts p true exact_in none = ok (
      shared_accounts_route (record {
        token_program = X.spl_token_id;
        program_authority = p.program_authority;
        user_transfer_authority = p.user;
        source_token_account = p.user_source_token_account;
        program_source_token_account = p.source_token_account;
        program_destination_token_account = p.destination_token_account;
        destination_token_account =
            unwrap_or p.optional_destination_token_account p.user_destination_token_account;
        source_mint = p.input_mint;
        destination_mint = p.output_mint;
        platform_fee_account = unwrap_or p.platform_fee_account jupiter_id;
        token_2022_program = unwrap_or p.token2022_program jupiter_id;
        event_authority = find_event_authority X;
        program = jupiter_id;
      }))
  route_accounts p true exact_out none = ok (
      shared_accounts_exact_out_route (record {
        token_program = X.spl_token_id;
        program_authority = p.program_authority;
        user_transfer_authority = p.user;
        source_token_account = p.user_source_token_account;
        program_source_token_account = p.source_token_account;
        program_destination_token_account = p.destination_token_account;
        destination_token_account =
            unwrap_or p.optional_destination_token_account p.user_destination_token_account;
        source_mint = p.input_mint;
        destination_mint = p.output_mint;
        platform_fee_account = unwrap_or p.platform_fee_account jupiter_id;
        token_2022_program = unwrap_or p.token2022_program jupiter_id;
        event_authority = find_event_authority X;
        program = jupiter_id;
      }))
  route_accounts p false exact_in (some token_ledger) = ok (
      route_with_token_ledger (record {
        token_program = p.destination_token_program;
        user_transfer_authority = p.user;
        user_source_token_account = p.user_source_token_account;
        user_destination_token_account = p.user_destination_token_account;
        destination_token_account =
            unwrap_or p.optional_destination_token_account p.user_destination_token_account;
        destination_mint = p.output_mint;
        platform_fee_account = unwrap_or p.platform_fee_account jupiter_id;
        token_ledger = token_ledger;
        event_authority = find_event_authority X;
        program = jupiter_id;
      }))
  route_accounts p false exact_in none = ok (
      route (record {
        token_program = p.destination_token_program;
        user_transfer_authority = p.user;
        user_source_token_account = p.user_source_token_account;
        user_destination_token_account = p.user_destination_token_account;
        destination_token_account =
            unwrap_or p.optional_destination_token_account p.user_destination_token_account;
        destination_mint = p.output_mint;
        platform_fee_account = unwrap_or p.platform_fee_account jupiter_id;
        event_authority = find_event_authority X;
        program = jupiter_id;
      }))
  route_accounts p false exact_out none = ok (
      exact_out_route (record {
        token_program = X.spl_token_id;
        user_transfer_authority = p.user;
        user_source_token_account = p.user_source_token_account;
        user_destination_token_account = p.user_destination_token_account;
        destination_token_account =
            unwrap_or p.optional_destination_token_account p.user_destination_token_account;
        source_mint = p.input_mint;
        destination_mint = p.output_mint;
        platform_fee_account = unwrap_or p.platform_fee_account jupiter_id;
        token_2022_program = unwrap_or p.token2022_program jupiter_id;
        event_authority = find_event_authority X;
        program = jupiter_id;
      }))
  route_accounts p _ exact_out _ =
      err (
        message
          "SwapMode::ExactOut is only supported with shared accounts and without token ledger")

  unfoldable pub build_swap_accounts :
      Anchor X → BuildSwapAccountsParams → Result (List AccountMeta)
  unfolding route_accounts
  build_swap_accounts N p = do
    accounts ← route_accounts p p.use_shared_accounts p.swap_mode p.token_ledger
    ok (N.to_account_metas accounts)
