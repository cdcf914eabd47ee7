-- ===== src/SwapTransaction/Agreement.antt =====
-- The accounts and the bytes of one swap belong to the same instruction.
use exponent_jupiter_amm_imp.Prelude.{
  ◌≡◌, refl, sym, ap, ◌∙◌, ◌⊎◌, inl, inr, Bool, true, false, Option, none, some, [], ◌∷◌, is_some,
  arith,
}
use exponent_jupiter_amm_imp.Prelude.Result.{ok, err, message}
use exponent_jupiter_amm_imp.Solana.{Pubkey, Bytes, SwapMode, exact_in, exact_out}
use exponent_jupiter_amm_imp.Crates.{Crates}
use exponent_jupiter_amm_imp.Jupiter.Accounts.{RouteAccounts, idl_metas}
use exponent_jupiter_amm_imp.Jupiter.Instructions.{RouteInstruction}
use exponent_jupiter_amm_imp.Jupiter.Wire.{Anchor, AnchorLaws}
use exponent_jupiter_amm_imp.Jupiter.Wire.Writing.{instruction_data}
use exponent_jupiter_amm_imp.Jupiter.Wire.Reading.{read_instruction}
use exponent_jupiter_amm_imp.Jupiter.Wire.RoundTrip.{Fits, read_instruction-instruction_data}
use exponent_jupiter_amm_imp.SwapTransaction.Accounts.{
  BuildSwapAccountsParams, route_accounts, build_swap_accounts,
}
use exponent_jupiter_amm_imp.SwapTransaction.InstructionData.{
  BuildSwapInstructionDataParams, route_instruction, build_swap_instruction_data,
}
use exponent_jupiter_amm_imp.SwapTransaction.Wanted.{
  Kind, shared_in_ledger, shared_in, shared_out, direct_in_ledger, direct_in, direct_out, Arguments,
  arguments, wanted_kind, wanted, FitsParams, signers, refusal,
}
use exponent_jupiter_amm_imp.SwapTransaction.Wanted.Listed.{listed}

module _ (X : Crates) where
  route_instruction-Fits :
      (q : BuildSwapInstructionDataParams X) (m : SwapMode) (shared ledger : Bool)
      → FitsParams X q
      → Fits X (route_instruction X q m shared ledger)
  unfolding route_instruction
  route_instruction-Fits q exact_in true true h =
      (h.id_lt, h.plan_fits, h.quoted_lt, h.slippage_lt, h.fee_lt)
  route_instruction-Fits q exact_in true false h =
      (h.id_lt, h.plan_fits, h.amount_lt, h.quoted_lt, h.slippage_lt, h.fee_lt)
  route_instruction-Fits q exact_in false true h =
      (h.plan_fits, h.quoted_lt, h.slippage_lt, h.fee_lt)
  route_instruction-Fits q exact_in false false h =
      (h.plan_fits, h.amount_lt, h.quoted_lt, h.slippage_lt, h.fee_lt)
  route_instruction-Fits q exact_out true _ h =
      (h.id_lt, h.plan_fits, h.amount_lt, h.quoted_lt, h.slippage_lt, h.fee_lt)
  route_instruction-Fits q exact_out false _ h =
      (h.plan_fits, h.amount_lt, h.quoted_lt, h.slippage_lt, h.fee_lt)

  arguments-route_instruction :
      (q : BuildSwapInstructionDataParams X)
      → arguments X (route_instruction X q q.swap_mode q.use_shared_accounts q.use_token_ledger)
        ≡ wanted X q
  unfolding route_instruction
  arguments-route_instruction q = ground arith

  route_accounts_cases :
      (p : BuildSwapAccountsParams) (shared : Bool) (m : SwapMode) (ledger : Option Pubkey)
      → ((m ≡ exact_out)
          × (is_some ledger ≡ true)
          × (route_accounts X p shared m ledger ≡ err (message refusal)))
        ⊎ ((a : RouteAccounts) × (route_accounts X p shared m ledger ≡ ok a)
            × (idl_metas a
                ≡ listed X
                    (wanted_kind X m shared (is_some ledger))
                    (record p { token_ledger = ledger })))
  unfolding route_accounts idl_metas
  route_accounts_cases p true exact_in (some l) = inr (_, refl, refl)
  route_accounts_cases p true exact_in none = inr (_, refl, refl)
  route_accounts_cases p true exact_out none = inr (_, refl, refl)
  route_accounts_cases p true exact_out (some l) = inl (refl, refl, refl)
  route_accounts_cases p false exact_in (some l) = inr (_, refl, refl)
  route_accounts_cases p false exact_in none = inr (_, refl, refl)
  route_accounts_cases p false exact_out none = inr (_, refl, refl)
  route_accounts_cases p false exact_out (some l) = inl (refl, refl, refl)

  signers-listed :
      (kind : Kind) (p : BuildSwapAccountsParams) → signers (listed X kind p) ≡ p.user ∷ []
  signers-listed shared_in_ledger p = refl
  signers-listed shared_in p = refl
  signers-listed shared_out p = refl
  signers-listed direct_in_ledger p = refl
  signers-listed direct_in p = refl
  signers-listed direct_out p = refl

  module _ (N : Anchor X) (L : AnchorLaws X N) where
    -- If numbers, swaps and vectors are read as they were written, the bytes that are built for
    -- parameters in the ranges of their types, read as the interface file says, are an instruction
    -- of the kind that the mode and the two flags ask for, and it carries the route plan, the
    -- quoted amount, the slippage, the fee, the authority's id if shared accounts are used and the
    -- amount if no token ledger is, each as it was passed in its range.
    pub build_swap_instruction_data_reads_back :
        (q : BuildSwapInstructionDataParams X) {bytes : Bytes}
        → FitsParams X q
        → build_swap_instruction_data X N q ≡ ok bytes
        → (i : RouteInstruction X) × (read_instruction X N bytes ≡ some i)
          × (arguments X i ≡ wanted X q)
    unfolding build_swap_instruction_data
    build_swap_instruction_data_reads_back q {bytes} fits made =
        let i = route_instruction X q q.swap_mode q.use_shared_accounts q.use_token_ledger in
        let written : instruction_data X N i ≡ bytes = cc in
        (
          i,
          rw (← written) (
              read_instruction-instruction_data X N L i (
                route_instruction-Fits q q.swap_mode q.use_shared_accounts q.use_token_ledger
                  fits)),
          arguments-route_instruction q,
        )

    -- If the generated code lists accounts as the interface file does, and numbers, swaps and
    -- vectors are read as they were written, then for parameters in range that say the same of
    -- shared accounts, mode and ledger, bytes that are built have one instruction that they are
    -- read as, and the accounts are built for that instruction: either the swap is exact-out with
    -- a token ledger, and the accounts are refused with an error, or they are those of its kind,
    -- each in its place, with its flags and from its parameter, and the user is the one account
    -- that must sign.
    pub build_swap_accounts_agrees :
        (p : BuildSwapAccountsParams) (q : BuildSwapInstructionDataParams X) {bytes : Bytes}
        → FitsParams X q
        → q.use_shared_accounts ≡ p.use_shared_accounts
        → q.swap_mode ≡ p.swap_mode
        → q.use_token_ledger ≡ is_some p.token_ledger
        → build_swap_instruction_data X N q ≡ ok bytes
        → (i : RouteInstruction X) × (read_instruction X N bytes ≡ some i)
          × (((p.swap_mode ≡ exact_out)
                × (is_some p.token_ledger ≡ true)
                × (build_swap_accounts X N p ≡ err (message refusal)))
              ⊎ ((build_swap_accounts X N p ≡ ok (listed X (arguments X i).kind p))
                  × (signers (listed X (arguments X i).kind p) ≡ p.user ∷ [])))
    unfolding build_swap_accounts
    build_swap_accounts_agrees p q fits shared mode ledger written =
        let (i, reads, carries) = build_swap_instruction_data_reads_back q fits written in
        let kind : wanted_kind X p.swap_mode p.use_shared_accounts (is_some p.token_ledger)
            ≡ (arguments X i).kind =
          rw (← shared, ← mode, ← ledger) (sym (ap (λ (v : Arguments X). v.kind) carries)) in
        (
          i,
          reads,
          elim (route_accounts_cases p p.use_shared_accounts p.swap_mode p.token_ledger) [
            | inl (out, has, refused) ↦ inl (out, has, rw refused)
            | inr (a, made, lists) ↦ inr (
              rw (made, L.to_account_metas-eq a) (ap ok (lists ∙ ap (λ k. listed X k p) kind)),
              signers-listed (arguments X i).kind p,
            )
          ],
        )
