-- ===== src/Amm.antt =====
-- The trait `Amm` of `jupiter_amm_interface` with the structs that its methods take and return.
-- jupiter-core/src/amms/spl_token_swap_amm.rs implements it; jupiter-core/src/route.rs and the
-- test harness call it through `&dyn Amm`.
use exponent_jupiter_amm_imp.Prelude.{ℕ, Bool, Option, List, String}
use exponent_jupiter_amm_imp.Prelude.Result.{Result}
use exponent_jupiter_amm_imp.Prelude.Stateful.{Method}
use exponent_jupiter_amm_imp.Solana.{Pubkey, AccountMap, AccountMeta, SwapMode}
use exponent_jupiter_amm_imp.Crates.{Crates}

pub record QuoteParams : Type 0 where
  pub amount : ℕ
  pub input_mint : Pubkey
  pub output_mint : Pubkey
  pub swap_mode : SwapMode

module _ (X : Crates) where
  -- `rest` holds the fields that the program leaves to `..Quote::default()`.
  pub record Quote : Type 0 where
    pub in_amount : ℕ
    pub out_amount : ℕ
    pub fee_amount : ℕ
    pub fee_mint : Pubkey
    pub fee_pct : X.Decimal
    pub rest : X.QuoteRest

  pub record SwapParams : Type 0 where
    pub swap_mode : SwapMode
    pub in_amount : ℕ
    pub out_amount : ℕ
    pub source_mint : Pubkey
    pub destination_mint : Pubkey
    pub source_token_account : Pubkey
    pub destination_token_account : Pubkey
    pub token_transfer_authority : Pubkey
    pub quote_mint_to_referrer : Option X.Referrers
    pub jupiter_program_id : Pubkey
    pub missing_dynamic_accounts_as_default : Bool

  pub record SwapAndAccountMetas : Type 0 where
    pub swap : X.Swap
    pub account_metas : List AccountMeta

  -- The methods that the program calls on a `dyn Amm`. `update` takes `&mut self`.
  pub record Amm : Type 1 where
    pub Self : Type 0
    pub label : Self → String
    pub program_id : Self → Pubkey
    pub program_dependencies : Self → List (Pubkey × String)
    pub key : Self → Pubkey
    pub get_reserve_mints : Self → List Pubkey
    pub get_accounts_to_update : Self → List Pubkey
    pub update : AccountMap → Method Self (Unit {0})
    pub quote : Self → QuoteParams → Result Quote
    pub get_swap_and_account_metas : Self → SwapParams → Result SwapAndAccountMetas
    pub clone_amm : Self → Self
    pub unidirectional : Self → Bool
