-- ===== src/SwapTransaction/Wanted.antt =====
-- What a swap instruction must be for its parameters.
pub mod Listed
use exponent_jupiter_amm_imp.Prelude.{
  ℕ, ◌^◌, ◌<◌, String, Bool, false, Option, none, some, List, [], ◌∷◌, if◌then◌else◌,
}
use exponent_jupiter_amm_imp.Solana.{
  Pubkey, AccountMeta, pubkey, is_signer, SwapMode, exact_in, exact_out,
}
use exponent_jupiter_amm_imp.Crates.{Crates}
use exponent_jupiter_amm_imp.Jupiter.Instructions.{RoutePlanStep, RouteInstruction}
use exponent_jupiter_amm_imp.Jupiter.Instructions as Instructions
use exponent_jupiter_amm_imp.Jupiter.Wire.RoundTrip.{FitsPlan}
use exponent_jupiter_amm_imp.SwapTransaction.InstructionData.{BuildSwapInstructionDataParams}

-- The text of the error for a swap that cannot be built.
abbrev pub refusal : String
refusal = "SwapMode::ExactOut is only supported with shared accounts and without token ledger"

-- The accounts that must sign.
abbrev pub signers : List AccountMeta → List Pubkey
signers [] = []
signers (m ∷ ms) = if is_signer m then pubkey m ∷ signers ms else signers ms

-- The six instructions: which funds they go through, what is exact, and whether the amount comes
-- from the token ledger.
pub data Kind : Type 0 where
  shared_in_ledger shared_in shared_out direct_in_ledger direct_in direct_out : Kind

-- What an instruction carries: the authority's id and the amount where it has them.
pub record Arguments (X : Crates) : Type 0 where
  pub kind : Kind
  pub authority_id : Option ℕ
  pub route_plan : List (RoutePlanStep X)
  pub amount : Option ℕ
  pub quoted_amount : ℕ
  pub slippage_bps : ℕ
  pub platform_fee_bps : ℕ

module _ (X : Crates) where
  abbrev pub arguments : RouteInstruction X → Arguments X
  arguments (Instructions.shared_accounts_route_with_token_ledger r) = record {
    kind = shared_in_ledger;
    authority_id = some r.id;
    route_plan = r.route_plan;
    amount = none;
    quoted_amount = r.quoted_out_amount;
    slippage_bps = r.slippage_bps;
    platform_fee_bps = r.platform_fee_bps;
  }
  arguments (Instructions.shared_accounts_route r) = record {
    kind = shared_in;
    authority_id = some r.id;
    route_plan = r.route_plan;
    amount = some r.in_amount;
    quoted_amount = r.quoted_out_amount;
    slippage_bps = r.slippage_bps;
    platform_fee_bps = r.platform_fee_bps;
  }
  arguments (Instructions.shared_accounts_exact_out_route r) = record {
    kind = shared_out;
    authority_id = some r.id;
    route_plan = r.route_plan;
    amount = some r.out_amount;
    quoted_amount = r.quoted_in_amount;
    slippage_bps = r.slippage_bps;
    platform_fee_bps = r.platform_fee_bps;
  }
  arguments (Instructions.route_with_token_ledger r) = record {
    kind = direct_in_ledger;
    authority_id = none;
    route_plan = r.route_plan;
    amount = none;
    quoted_amount = r.quoted_out_amount;
    slippage_bps = r.slippage_bps;
    platform_fee_bps = r.platform_fee_bps;
  }
  arguments (Instructions.route r) = record {
    kind = direct_in;
    authority_id = none;
    route_plan = r.route_plan;
    amount = some r.in_amount;
    quoted_amount = r.quoted_out_amount;
    slippage_bps = r.slippage_bps;
    platform_fee_bps = r.platform_fee_bps;
  }
  arguments (Instructions.exact_out_route r) = record {
    kind = direct_out;
    authority_id = none;
    route_plan = r.route_plan;
    amount = some r.out_amount;
    quoted_amount = r.quoted_in_amount;
    slippage_bps = r.slippage_bps;
    platform_fee_bps = r.platform_fee_bps;
  }

  -- The kind for a mode, for shared accounts or not, with a token ledger or not: an exact-out swap
  -- takes no ledger.
  abbrev pub wanted_kind : SwapMode → Bool → Bool → Kind
  wanted_kind exact_in shared ledger =
      if shared
      then (if ledger then shared_in_ledger else shared_in)
      else (if ledger then direct_in_ledger else direct_in)
  wanted_kind exact_out shared ledger = if shared then shared_out else direct_out

  abbrev pub uses_ledger : SwapMode → Bool → Bool
  uses_ledger exact_in ledger = ledger
  uses_ledger exact_out ledger = false

  -- What an instruction for the parameters must carry.
  abbrev pub wanted : BuildSwapInstructionDataParams X → Arguments X
  wanted q = record {
    kind = wanted_kind q.swap_mode q.use_shared_accounts q.use_token_ledger;
    authority_id = if q.use_shared_accounts then some q.program_authority_id else none;
    route_plan = q.route_plan;
    amount = if uses_ledger q.swap_mode q.use_token_ledger then none else some q.amount;
    quoted_amount = q.quoted_amount;
    slippage_bps = q.slippage_bps;
    platform_fee_bps = q.platform_fee_bps;
  }

  -- The parameters are in the range of their types.
  pub record FitsParams (q : BuildSwapInstructionDataParams X) : Type 0 where
    pub id_lt : q.program_authority_id < 2 ^ 8
    pub plan_fits : FitsPlan X q.route_plan
    pub amount_lt : q.amount < 2 ^ 64
    pub quoted_lt : q.quoted_amount < 2 ^ 64
    pub slippage_lt : q.slippage_bps < 2 ^ 16
    pub fee_lt : q.platform_fee_bps < 2 ^ 8
