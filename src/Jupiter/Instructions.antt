-- ===== src/Jupiter/Instructions.antt =====
-- `jupiter_override` of jupiter/src/lib.rs: the arguments of the six routes, in the order in which
-- the derived serialization writes them, with the discriminators of
-- jupiter/idls/jupiter_aggregator.json.
use exponent_jupiter_amm_imp.Prelude.{ℕ, List, [], ◌∷◌}
use exponent_jupiter_amm_imp.Solana.{Bytes}
use exponent_jupiter_amm_imp.Crates.{Crates}

abbrev pub shared_accounts_route_with_token_ledger_discriminator : Bytes
shared_accounts_route_with_token_ledger_discriminator =
    230 ∷ 121 ∷ 143 ∷ 80 ∷ 119 ∷ 159 ∷ 106 ∷ 170 ∷ []

abbrev pub shared_accounts_route_discriminator : Bytes
shared_accounts_route_discriminator = 193 ∷ 32 ∷ 155 ∷ 51 ∷ 65 ∷ 214 ∷ 156 ∷ 129 ∷ []

abbrev pub shared_accounts_exact_out_route_discriminator : Bytes
shared_accounts_exact_out_route_discriminator = 176 ∷ 209 ∷ 105 ∷ 168 ∷ 154 ∷ 125 ∷ 69 ∷ 62 ∷ []

abbrev pub route_with_token_ledger_discriminator : Bytes
route_with_token_ledger_discriminator = 150 ∷ 86 ∷ 71 ∷ 116 ∷ 167 ∷ 93 ∷ 14 ∷ 104 ∷ []

abbrev pub route_discriminator : Bytes
route_discriminator = 229 ∷ 23 ∷ 203 ∷ 151 ∷ 122 ∷ 227 ∷ 173 ∷ 42 ∷ []

abbrev pub exact_out_route_discriminator : Bytes
exact_out_route_discriminator = 208 ∷ 51 ∷ 239 ∷ 151 ∷ 123 ∷ 43 ∷ 237 ∷ 92 ∷ []

module _ (X : Crates) where
  pub record RoutePlanStep : Type 0 where
    pub swap : X.Swap
    pub percent : ℕ
    pub input_index : ℕ
    pub output_index : ℕ

  pub record Route : Type 0 where
    pub route_plan : List RoutePlanStep
    pub in_amount : ℕ
    pub quoted_out_amount : ℕ
    pub slippage_bps : ℕ
    pub platform_fee_bps : ℕ

  pub record ExactOutRoute : Type 0 where
    pub route_plan : List RoutePlanStep
    pub out_amount : ℕ
    pub quoted_in_amount : ℕ
    pub slippage_bps : ℕ
    pub platform_fee_bps : ℕ

  pub record RouteWithTokenLedger : Type 0 where
    pub route_plan : List RoutePlanStep
    pub quoted_out_amount : ℕ
    pub slippage_bps : ℕ
    pub platform_fee_bps : ℕ

  pub record SharedAccountsRoute : Type 0 where
    pub id : ℕ
    pub route_plan : List RoutePlanStep
    pub in_amount : ℕ
    pub quoted_out_amount : ℕ
    pub slippage_bps : ℕ
    pub platform_fee_bps : ℕ

  pub record SharedAccountsExactOutRoute : Type 0 where
    pub id : ℕ
    pub route_plan : List RoutePlanStep
    pub out_amount : ℕ
    pub quoted_in_amount : ℕ
    pub slippage_bps : ℕ
    pub platform_fee_bps : ℕ

  pub record SharedAccountsRouteWithTokenLedger : Type 0 where
    pub id : ℕ
    pub route_plan : List RoutePlanStep
    pub quoted_out_amount : ℕ
    pub slippage_bps : ℕ
    pub platform_fee_bps : ℕ

  -- An instruction with its arguments.
  pub data RouteInstruction : Type 0 where
    shared_accounts_route_with_token_ledger : SharedAccountsRouteWithTokenLedger → RouteInstruction
    shared_accounts_route : SharedAccountsRoute → RouteInstruction
    shared_accounts_exact_out_route : SharedAccountsExactOutRoute → RouteInstruction
    route_with_token_ledger : RouteWithTokenLedger → RouteInstruction
    route : Route → RouteInstruction
    exact_out_route : ExactOutRoute → RouteInstruction
