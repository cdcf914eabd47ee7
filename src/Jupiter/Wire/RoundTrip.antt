-- ===== src/Jupiter/Wire/RoundTrip.antt =====
-- An instruction that was written is read back.
use mathlib.Core.List.{append_assoc}
use exponent_jupiter_amm_imp.Prelude.{◌^◌, ◌<◌, ◌≡◌, some, List, ◌++◌, length}
use exponent_jupiter_amm_imp.Solana.{Bytes}
use exponent_jupiter_amm_imp.Crates.{Crates}
use exponent_jupiter_amm_imp.Jupiter.Instructions.{
  RoutePlanStep, RouteInstruction, shared_accounts_route_with_token_ledger, shared_accounts_route,
  shared_accounts_exact_out_route, route_with_token_ledger, route, exact_out_route,
}
use exponent_jupiter_amm_imp.Jupiter.Wire.{Anchor, AnchorLaws, All}
use exponent_jupiter_amm_imp.Jupiter.Wire.Writing.{put_step, get_step, plan, instruction_data}
use exponent_jupiter_amm_imp.Jupiter.Wire.Reading.{read_instruction}

module _ (X : Crates) where
  -- The numbers of a step are `u8`s.
  abbrev pub FitsStep : RoutePlanStep X → Type 0
  FitsStep s = (s.percent < 2 ^ 8) × (s.input_index < 2 ^ 8) × (s.output_index < 2 ^ 8)

  abbrev pub FitsPlan : List (RoutePlanStep X) → Type 0
  FitsPlan steps = All FitsStep steps × (length steps < 2 ^ 32)

  -- The arguments are in the range of their types.
  abbrev pub Fits : RouteInstruction X → Type 0
  Fits (shared_accounts_route_with_token_ledger r) =
      (r.id < 2 ^ 8)
      × FitsPlan r.route_plan
      × (r.quoted_out_amount < 2 ^ 64)
      × (r.slippage_bps < 2 ^ 16)
      × (r.platform_fee_bps < 2 ^ 8)
  Fits (shared_accounts_route r) =
      (r.id < 2 ^ 8)
      × FitsPlan r.route_plan
      × (r.in_amount < 2 ^ 64)
      × (r.quoted_out_amount < 2 ^ 64)
      × (r.slippage_bps < 2 ^ 16)
      × (r.platform_fee_bps < 2 ^ 8)
  Fits (shared_accounts_exact_out_route r) =
      (r.id < 2 ^ 8)
      × FitsPlan r.route_plan
      × (r.out_amount < 2 ^ 64)
      × (r.quoted_in_amount < 2 ^ 64)
      × (r.slippage_bps < 2 ^ 16)
      × (r.platform_fee_bps < 2 ^ 8)
  Fits (route_with_token_ledger r) =
      FitsPlan r.route_plan
      × (r.quoted_out_amount < 2 ^ 64)
      × (r.slippage_bps < 2 ^ 16)
      × (r.platform_fee_bps < 2 ^ 8)
  Fits (route r) =
      FitsPlan r.route_plan
      × (r.in_amount < 2 ^ 64)
      × (r.quoted_out_amount < 2 ^ 64)
      × (r.slippage_bps < 2 ^ 16)
      × (r.platform_fee_bps < 2 ^ 8)
  Fits (exact_out_route r) =
      FitsPlan r.route_plan
      × (r.out_amount < 2 ^ 64)
      × (r.quoted_in_amount < 2 ^ 64)
      × (r.slippage_bps < 2 ^ 16)
      × (r.platform_fee_bps < 2 ^ 8)

module _ (X : Crates) (N : Anchor X) (L : AnchorLaws X N) where
  get_step-put_step :
      (s : RoutePlanStep X) (rest : Bytes)
      → FitsStep X s
      → get_step X N (put_step X N s ++ rest) ≡ some (s, rest)
  unfolding get_step put_step
  get_step-put_step s rest h = simp (
    append_assoc,
    L.swap-get-put,
    L.u8-get-put _ _ h.0,
    L.u8-get-put _ _ h.1,
    L.u8-get-put _ _ h.2,
  )

  plan-get-put :
      (steps : List (RoutePlanStep X)) (rest : Bytes)
      → FitsPlan X steps
      → (plan X N).get ((plan X N).put steps ++ rest) ≡ some (steps, rest)
  plan-get-put steps rest h =
      L.vec-get-put (RoutePlanStep X) (record { put = put_step X N; get = get_step X N })
        (FitsStep X) get_step-put_step steps rest h.0 h.1

  -- The bytes of an instruction, read as the interface file says, give the instruction back: its
  -- kind and every argument, each in the range of its type.
  pub read_instruction-instruction_data :
      (i : RouteInstruction X) → Fits X i → read_instruction X N (instruction_data X N i) ≡ some i
  unfolding read_instruction instruction_data
  read_instruction-instruction_data (shared_accounts_route_with_token_ledger r) h = rw (
    L.u8-get-put r.id _ h.0,
    plan-get-put r.route_plan _ h.1,
    L.u64-get-put r.quoted_out_amount _ h.2,
    L.u16-get-put r.slippage_bps _ h.3,
    L.u8-get-put r.platform_fee_bps _ h.4,
  )
  read_instruction-instruction_data (shared_accounts_route r) h = rw (
    L.u8-get-put r.id _ h.0,
    plan-get-put r.route_plan _ h.1,
    L.u64-get-put r.in_amount _ h.2,
    L.u64-get-put r.quoted_out_amount _ h.3,
    L.u16-get-put r.slippage_bps _ h.4,
    L.u8-get-put r.platform_fee_bps _ h.5,
  )
  read_instruction-instruction_data (shared_accounts_exact_out_route r) h = rw (
    L.u8-get-put r.id _ h.0,
    plan-get-put r.route_plan _ h.1,
    L.u64-get-put r.out_amount _ h.2,
    L.u64-get-put r.quoted_in_amount _ h.3,
    L.u16-get-put r.slippage_bps _ h.4,
    L.u8-get-put r.platform_fee_bps _ h.5,
  )
  read_instruction-instruction_data (route_with_token_ledger r) h = rw (
    plan-get-put r.route_plan _ h.0,
    L.u64-get-put r.quoted_out_amount _ h.1,
    L.u16-get-put r.slippage_bps _ h.2,
    L.u8-get-put r.platform_fee_bps _ h.3,
  )
  read_instruction-instruction_data (route r) h = rw (
    plan-get-put r.route_plan _ h.0,
    L.u64-get-put r.in_amount _ h.1,
    L.u64-get-put r.quoted_out_amount _ h.2,
    L.u16-get-put r.slippage_bps _ h.3,
    L.u8-get-put r.platform_fee_bps _ h.4,
  )
  read_instruction-instruction_data (exact_out_route r) h = rw (
    plan-get-put r.route_plan _ h.0,
    L.u64-get-put r.out_amount _ h.1,
    L.u64-get-put r.quoted_in_amount _ h.2,
    L.u16-get-put r.slippage_bps _ h.3,
    L.u8-get-put r.platform_fee_bps _ h.4,
  )
