-- ===== src/Jupiter/Wire/Reading.antt =====
-- An independent reader: the discriminator chooses the instruction, and its arguments are read in
-- the order in which jupiter/idls/jupiter_aggregator.json lists them.
use exponent_jupiter_amm_imp.Prelude.{Option, none, some, [], ◌∷◌, ◌==◌, if◌then◌else◌}
use exponent_jupiter_amm_imp.Prelude.Maybe.{◌>>=◌}
use exponent_jupiter_amm_imp.Solana.{Bytes}
use exponent_jupiter_amm_imp.Crates.{Crates}
use exponent_jupiter_amm_imp.Jupiter.Instructions.{
  RouteInstruction, shared_accounts_route_with_token_ledger, shared_accounts_route,
  shared_accounts_exact_out_route, route_with_token_ledger, route, exact_out_route,
  shared_accounts_route_with_token_ledger_discriminator, shared_accounts_route_discriminator,
  shared_accounts_exact_out_route_discriminator, route_with_token_ledger_discriminator,
  route_discriminator, exact_out_route_discriminator,
}
use exponent_jupiter_amm_imp.Jupiter.Wire.{Anchor}
use exponent_jupiter_amm_imp.Jupiter.Wire.Writing.{plan}

-- What follows a given beginning.
abbrev pub strip : Bytes → Bytes → Option Bytes
strip [] b = some b
strip (x ∷ xs) [] = none
strip (x ∷ xs) (y ∷ ys) = if x == y then strip xs ys else none

-- All bytes were read.
abbrev pub finished {ℓ} : {A : Type ℓ} → A → Bytes → Option A
finished a [] = some a
finished a (_ ∷ _) = none

module _ (X : Crates) (N : Anchor X) where
  open N use {u8, u16, u64}

  unfoldable pub get_shared_accounts_route_with_token_ledger : Bytes → Option (RouteInstruction X)
  get_shared_accounts_route_with_token_ledger b₀ = do
    (v₀, b₁) ← u8.get b₀
    (v₁, b₂) ← (plan X N).get b₁
    (v₂, b₃) ← u64.get b₂
    (v₃, b₄) ← u16.get b₃
    (v₄, b₅) ← u8.get b₄
    finished
        (shared_accounts_route_with_token_ledger (record {
          id = v₀;
          route_plan = v₁;
          quoted_out_amount = v₂;
          slippage_bps = v₃;
          platform_fee_bps = v₄;
        }))
        b₅

  unfoldable pub get_shared_accounts_route : Bytes → Option (RouteInstruction X)
  get_shared_accounts_route b₀ = do
    (v₀, b₁) ← u8.get b₀
    (v₁, b₂) ← (plan X N).get b₁
    (v₂, b₃) ← u64.get b₂
    (v₃, b₄) ← u64.get b₃
    (v₄, b₅) ← u16.get b₄
    (v₅, b₆) ← u8.get b₅
    finished
        (shared_accounts_route (record {
          id = v₀;
          route_plan = v₁;
          in_amount = v₂;
          quoted_out_amount = v₃;
          slippage_bps = v₄;
          platform_fee_bps = v₅;
        }))
        b₆

  unfoldable pub get_shared_accounts_exact_out_route : Bytes → Option (RouteInstruction X)
  get_shared_accounts_exact_out_route b₀ = do
    (v₀, b₁) ← u8.get b₀
    (v₁, b₂) ← (plan X N).get b₁
    (v₂, b₃) ← u64.get b₂
    (v₃, b₄) ← u64.get b₃
    (v₄, b₅) ← u16.get b₄
    (v₅, b₆) ← u8.get b₅
    finished
        (shared_accounts_exact_out_route (record {
          id = v₀;
          route_plan = v₁;
          out_amount = v₂;
          quoted_in_amount = v₃;
          slippage_bps = v₄;
          platform_fee_bps = v₅;
        }))
        b₆

  unfoldable pub get_route_with_token_ledger : Bytes → Option (RouteInstruction X)
  get_route_with_token_ledger b₀ = do
    (v₀, b₁) ← (plan X N).get b₀
    (v₁, b₂) ← u64.get b₁
    (v₂, b₃) ← u16.get b₂
    (v₃, b₄) ← u8.get b₃
    finished
        (route_with_token_ledger (record {
          route_plan = v₀;
          quoted_out_amount = v₁;
          slippage_bps = v₂;
          platform_fee_bps = v₃;
        }))
        b₄

  unfoldable pub get_route : Bytes → Option (RouteInstruction X)
  get_route b₀ = do
    (v₀, b₁) ← (plan X N).get b₀
    (v₁, b₂) ← u64.get b₁
    (v₂, b₃) ← u64.get b₂
    (v₃, b₄) ← u16.get b₃
    (v₄, b₅) ← u8.get b₄
    finished
        (route (record {
          route_plan = v₀;
          in_amount = v₁;
          quoted_out_amount = v₂;
          slippage_bps = v₃;
          platform_fee_bps = v₄;
        }))
        b₅

  unfoldable pub get_exact_out_route : Bytes → Option (RouteInstruction X)
  get_exact_out_route b₀ = do
    (v₀, b₁) ← (plan X N).get b₀
    (v₁, b₂) ← u64.get b₁
    (v₂, b₃) ← u64.get b₂
    (v₃, b₄) ← u16.get b₃
    (v₄, b₅) ← u8.get b₄
    finished
        (exact_out_route (record {
          route_plan = v₀;
          out_amount = v₁;
          quoted_in_amount = v₂;
          slippage_bps = v₃;
          platform_fee_bps = v₄;
        }))
        b₅

  unfoldable pub read_instruction : Bytes → Option (RouteInstruction X)
  unfolding get_shared_accounts_route_with_token_ledger get_shared_accounts_route
      get_shared_accounts_exact_out_route get_route_with_token_ledger get_route get_exact_out_route
  read_instruction b = elim (strip shared_accounts_route_with_token_ledger_discriminator b) [
    | some rest ↦ get_shared_accounts_route_with_token_ledger rest
    | none ↦ elim (strip shared_accounts_route_discriminator b) [
      | some rest ↦ get_shared_accounts_route rest
      | none ↦ elim (strip shared_accounts_exact_out_route_discriminator b) [
        | some rest ↦ get_shared_accounts_exact_out_route rest
        | none ↦ elim (strip route_with_token_ledger_discriminator b) [
          | some rest ↦ get_route_with_token_ledger rest
          | none ↦ elim (strip route_discriminator b) [
            | some rest ↦ get_route rest
            | none ↦ elim (strip exact_out_route_discriminator b) [
              | some rest ↦ get_exact_out_route rest
              | none ↦ none
            ]
          ]
        ]
      ]
    ]
  ]
