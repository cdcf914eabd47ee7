-- ===== src/Jupiter/Accounts.antt =====
-- The account structs of the six routes, `jupiter::accounts` in jupiter/src/lib.rs, as the line
-- `generate_cpi_crate!` makes them from jupiter/idls/jupiter_aggregator.json: their fields, and
-- the list of accounts that the interface file declares for each instruction, in its order and
-- with its flags.
use exponent_jupiter_amm_imp.Prelude.{false, true, List, [], ◌∷◌}
use exponent_jupiter_amm_imp.Solana.{Pubkey, AccountMeta, new, new_readonly}

pub record SharedAccountsRouteWithTokenLedger : Type 0 where
  pub token_program : Pubkey
  pub program_authority : Pubkey
  pub user_transfer_authority : Pubkey
  pub source_token_account : Pubkey
  pub program_source_token_account : Pubkey
  pub program_destination_token_account : Pubkey
  pub destination_token_account : Pubkey
  pub source_mint : Pubkey
  pub destination_mint : Pubkey
  pub platform_fee_account : Pubkey
  pub token_2022_program : Pubkey
  pub token_ledger : Pubkey
  pub event_authority : Pubkey
  pub program : Pubkey

pub record SharedAccountsRoute : Type 0 where
  pub token_program : Pubkey
  pub program_authority : Pubkey
  pub user_transfer_authority : Pubkey
  pub source_token_account : Pubkey
  pub program_source_token_account : Pubkey
  pub program_destination_token_account : Pubkey
  pub destination_token_account : Pubkey
  pub source_mint : Pubkey
  pub destination_mint : Pubkey
  pub platform_fee_account : Pubkey
  pub token_2022_program : Pubkey
  pub event_authority : Pubkey
  pub program : Pubkey

pub record SharedAccountsExactOutRoute : Type 0 where
  pub token_program : Pubkey
  pub program_authority : Pubkey
  pub user_transfer_authority : Pubkey
  pub source_token_account : Pubkey
  pub program_source_token_account : Pubkey
  pub program_destination_token_account : Pubkey
  pub destination_token_account : Pubkey
  pub source_mint : Pubkey
  pub destination_mint : Pubkey
  pub platform_fee_account : Pubkey
  pub token_2022_program : Pubkey
  pub event_authority : Pubkey
  pub program : Pubkey

pub record RouteWithTokenLedger : Type 0 where
  pub token_program : Pubkey
  pub user_transfer_authority : Pubkey
  pub user_source_token_account : Pubkey
  pub user_destination_token_account : Pubkey
  pub destination_token_account : Pubkey
  pub destination_mint : Pubkey
  pub platform_fee_account : Pubkey
  pub token_ledger : Pubkey
  pub event_authority : Pubkey
  pub program : Pubkey

pub record Route : Type 0 where
  pub token_program : Pubkey
  pub user_transfer_authority : Pubkey
  pub user_source_token_account : Pubkey
  pub user_destination_token_account : Pubkey
  pub destination_token_account : Pubkey
  pub destination_mint : Pubkey
  pub platform_fee_account : Pubkey
  pub event_authority : Pubkey
  pub program : Pubkey

pub record ExactOutRoute : Type 0 where
  pub token_program : Pubkey
  pub user_transfer_authority : Pubkey
  pub user_source_token_account : Pubkey
  pub user_destination_token_account : Pubkey
  pub destination_token_account : Pubkey
  pub source_mint : Pubkey
  pub destination_mint : Pubkey
  pub platform_fee_account : Pubkey
  pub token_2022_program : Pubkey
  pub event_authority : Pubkey
  pub program : Pubkey

-- The accounts of one instruction.
pub data RouteAccounts : Type 0 where
  shared_accounts_route_with_token_ledger : SharedAccountsRouteWithTokenLedger → RouteAccounts
  shared_accounts_route : SharedAccountsRoute → RouteAccounts
  shared_accounts_exact_out_route : SharedAccountsExactOutRoute → RouteAccounts
  route_with_token_ledger : RouteWithTokenLedger → RouteAccounts
  route : Route → RouteAccounts
  exact_out_route : ExactOutRoute → RouteAccounts

-- The accounts of each instruction as the interface file lists them: writable or not, signing or
-- not.
abbrev pub shared_accounts_route_with_token_ledger_metas :
    SharedAccountsRouteWithTokenLedger → List AccountMeta
shared_accounts_route_with_token_ledger_metas a =
    new_readonly a.token_program false
    ∷ new_readonly a.program_authority false
    ∷ new_readonly a.user_transfer_authority true
    ∷ new a.source_token_account false
    ∷ new a.program_source_token_account false
    ∷ new a.program_destination_token_account false
    ∷ new a.destination_token_account false
    ∷ new_readonly a.source_mint false
    ∷ new_readonly a.destination_mint false
    ∷ new a.platform_fee_account false
    ∷ new_readonly a.token_2022_program false
    ∷ new_readonly a.token_ledger false
    ∷ new_readonly a.event_authority false
    ∷ new_readonly a.program false
    ∷ []

abbrev pub shared_accounts_route_metas : SharedAccountsRoute → List AccountMeta
shared_accounts_route_metas a =
    new_readonly a.token_program false
    ∷ new_readonly a.program_authority false
    ∷ new_readonly a.user_transfer_authority true
    ∷ new a.source_token_account false
    ∷ new a.program_source_token_account false
    ∷ new a.program_destination_token_account false
    ∷ new a.destination_token_account false
    ∷ new_readonly a.source_mint false
    ∷ new_readonly a.destination_mint false
    ∷ new a.platform_fee_account false
    ∷ new_readonly a.token_2022_program false
    ∷ new_readonly a.event_authority false
    ∷ new_readonly a.program false
    ∷ []

abbrev pub shared_accounts_exact_out_route_metas : SharedAccountsExactOutRoute → List AccountMeta
shared_accounts_exact_out_route_metas a =
    new_readonly a.token_program false
    ∷ new_readonly a.program_authority false
    ∷ new_readonly a.user_transfer_authority true
    ∷ new a.source_token_account false
    ∷ new a.program_source_token_account false
    ∷ new a.program_destination_token_account false
    ∷ new a.destination_token_account false
    ∷ new_readonly a.source_mint false
    ∷ new_readonly a.destination_mint false
    ∷ new a.platform_fee_account false
    ∷ new_readonly a.token_2022_program false
    ∷ new_readonly a.event_authority false
    ∷ new_readonly a.program false
    ∷ []

abbrev pub route_with_token_ledger_metas : RouteWithTokenLedger → List AccountMeta
route_with_token_ledger_metas a =
    new_readonly a.token_program false
    ∷ new_readonly a.user_transfer_authority true
    ∷ new a.user_source_token_account false
    ∷ new a.user_destination_token_account false
    ∷ new a.destination_token_account false
    ∷ new_readonly a.destination_mint false
    ∷ new a.platform_fee_account false
    ∷ new_readonly a.token_ledger false
    ∷ new_readonly a.event_authority false
    ∷ new_readonly a.program false
    ∷ []

abbrev pub route_metas : Route → List AccountMeta
route_metas a =
    new_readonly a.token_program false
    ∷ new_readonly a.user_transfer_authority true
    ∷ new a.user_source_token_account false
    ∷ new a.user_destination_token_account false
    ∷ new a.destination_token_account false
    ∷ new_readonly a.destination_mint false
    ∷ new a.platform_fee_account false
    ∷ new_readonly a.event_authority false
    ∷ new_readonly a.program false
    ∷ []

abbrev pub exact_out_route_metas : ExactOutRoute → List AccountMeta
exact_out_route_metas a =
    new_readonly a.token_program false
    ∷ new_readonly a.user_transfer_authority true
    ∷ new a.user_source_token_account false
    ∷ new a.user_destination_token_account false
    ∷ new a.destination_token_account false
    ∷ new_readonly a.source_mint false
    ∷ new_readonly a.destination_mint false
    ∷ new a.platform_fee_account false
    ∷ new_readonly a.token_2022_program false
    ∷ new_readonly a.event_authority false
    ∷ new_readonly a.program false
    ∷ []

-- The accounts that the generated code lists.
unfoldable pub idl_metas : RouteAccounts → List AccountMeta
idl_metas (shared_accounts_route_with_token_ledger a) =
    shared_accounts_route_with_token_ledger_metas a
idl_metas (shared_accounts_route a) = shared_accounts_route_metas a
idl_metas (shared_accounts_exact_out_route a) = shared_accounts_exact_out_route_metas a
idl_metas (route_with_token_ledger a) = route_with_token_ledger_metas a
idl_metas (route a) = route_metas a
idl_metas (exact_out_route a) = exact_out_route_metas a
