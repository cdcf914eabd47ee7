-- ===== src/Jupiter/Wire/Writing.antt =====
-- What is written: a step of a route plan, and each of the six instructions.
use exponent_jupiter_amm_imp.Prelude.{Option, some, List, [], ◌∷◌, ◌++◌}
use exponent_jupiter_amm_imp.Prelude.Maybe.{◌>>=◌}
use exponent_jupiter_amm_imp.Solana.{Bytes}
use exponent_jupiter_amm_imp.Crates.{Crates}
use exponent_jupiter_amm_imp.Jupiter.Instructions.{
  RoutePlanStep, Route, ExactOutRoute, RouteWithTokenLedger, SharedAccountsRoute,
  SharedAccountsExactOutRoute, SharedAccountsRouteWithTokenLedger, RouteInstruction,
  shared_accounts_route_with_token_ledger, shared_accounts_route, shared_accounts_exact_out_route,
  route_with_token_ledger, route, exact_out_route,
  shared_accounts_route_with_token_ledger_discriminator, shared_accounts_route_discriminator,
  shared_accounts_exact_out_route_discriminator, route_with_token_ledger_discriminator,
  route_discriminator, exact_out_route_discriminator,
}
use exponent_jupiter_amm_imp.Jupiter.Wire.{Codec, Anchor, fields}

module _ (X : Crates) (N : Anchor X) where
  open N use {u8, u16, u64, swap, vec}

  unfoldable pub put_step : RoutePlanStep X → Bytes
  put_step s =
      fields
        (swap.put s.swap ∷ u8.put s.percent ∷ u8.put s.input_index ∷ u8.put s.output_index ∷ [])

  unfoldable pub get_step : Bytes → Option (RoutePlanStep X × Bytes)
  get_step b = do
    (s, b₁) ← swap.get b
    (p, b₂) ← u8.get b₁
    (i, b₃) ← u8.get b₂
    (o, b₄) ← u8.get b₃
    some (record { swap = s; percent = p; input_index = i; output_index = o }, b₄)

  abbrev pub plan : Codec (List (RoutePlanStep X))
  plan = vec (RoutePlanStep X) (record { put = put_step; get = get_step })

  unfoldable pub put_shared_accounts_route_with_token_ledger :
      SharedAccountsRouteWithTokenLedger X → Bytes
  put_shared_accounts_route_with_token_ledger r = fields (
      u8.put r.id
      ∷ plan.put r.route_plan
      ∷ u64.put r.quoted_out_amount
      ∷ u16.put r.slippage_bps
      ∷ u8.put r.platform_fee_bps
      ∷ [])

  unfoldable pub put_shared_accounts_route : SharedAccountsRoute X → Bytes
  put_shared_accounts_route r = fields (
      u8.put r.id
      ∷ plan.put r.route_plan
      ∷ u64.put r.in_amount
      ∷ u64.put r.quoted_out_amount
      ∷ u16.put r.slippage_bps
      ∷ u8.put r.platform_fee_bps
      ∷ [])

  unfoldable pub put_shared_accounts_exact_out_route : SharedAccountsExactOutRoute X → Bytes
  put_shared_accounts_exact_out_route r = fields (
      u8.put r.id
      ∷ plan.put r.route_plan
      ∷ u64.put r.out_amount
      ∷ u64.put r.quoted_in_amount
      ∷ u16.put r.slippage_bps
      ∷ u8.put r.platform_fee_bps
      ∷ [])

  unfoldable pub put_route_with_token_ledger : RouteWithTokenLedger X → Bytes
  put_route_with_token_ledger r = fields (
      plan.put r.route_plan
      ∷ u64.put r.quoted_out_amount
      ∷ u16.put r.slippage_bps
      ∷ u8.put r.platform_fee_bps
      ∷ [])

  unfoldable pub put_route : Route X → Bytes
  put_route r = fields (
      plan.put r.route_plan
      ∷ u64.put r.in_amount
      ∷ u64.put r.quoted_out_amount
      ∷ u16.put r.slippage_bps
      ∷ u8.put r.platform_fee_bps
      ∷ [])

  unfoldable pub put_exact_out_route : ExactOutRoute X → Bytes
  put_exact_out_route r = fields (
      plan.put r.route_plan
      ∷ u64.put r.out_amount
      ∷ u64.put r.quoted_in_amount
      ∷ u16.put r.slippage_bps
      ∷ u8.put r.platform_fee_bps
      ∷ [])

  -- `.data()`
  unfoldable pub instruction_data : RouteInstruction X → Bytes
  unfolding put_shared_accounts_route_with_token_ledger put_shared_accounts_route
      put_shared_accounts_exact_out_route put_route_with_token_ledger put_route put_exact_out_route
  instruction_data (shared_accounts_route_with_token_ledger r) =
      shared_accounts_route_with_token_ledger_discriminator
      ++ put_shared_accounts_route_with_token_ledger r
  instruction_data (shared_accounts_route r) =
      shared_accounts_route_discriminator ++ put_shared_accounts_route r
  instruction_data (shared_accounts_exact_out_route r) =
      shared_accounts_exact_out_route_discriminator ++ put_shared_accounts_exact_out_route r
  instruction_data (route_with_token_ledger r) =
      route_with_token_ledger_discriminator ++ put_route_with_token_ledger r
  instruction_data (route r) = route_discriminator ++ put_route r
  instruction_data (exact_out_route r) = exact_out_route_discriminator ++ put_exact_out_route r
