-- ===== src/Harness/Simulation/Sending.antt =====
-- The instruction that the harness sends for a token swap pool.
use native.Mathlib.Nat.{div-le_self}
use exponent_jupiter_amm_imp.Prelude.{
  ℕ, ◌^◌, ◌≤◌, ◌<◌, ◌≡◌, ◌≢◌, refl, sym, ◌∙◌, ap, inl, inr, false, none, some, List, if◌then◌else◌,
  [], ◌∷◌, ◌++◌, arith,
}
use exponent_jupiter_amm_imp.Prelude.Result.{Result, ok, panic, u64_mod}
use exponent_jupiter_amm_imp.Solana.{Bytes, AccountMeta, Instruction, SwapMode, exact_in, exact_out}
use exponent_jupiter_amm_imp.Constants.{jupiter_id}
use exponent_jupiter_amm_imp.Crates.{Crates, SwapLaws}
use exponent_jupiter_amm_imp.Amm.{Quote}
use exponent_jupiter_amm_imp.TokenSwapMetas.{to_metas}
use exponent_jupiter_amm_imp.SplTokenSwap.Pool.{SplTokenSwapAmm}
use exponent_jupiter_amm_imp.SplTokenSwap.Pool.Build.{IsWellFormed}
use exponent_jupiter_amm_imp.SplTokenSwap.Quoting.{quote}
use exponent_jupiter_amm_imp.SplTokenSwap.Quoting.Reference.{quote-ne-panic}
use exponent_jupiter_amm_imp.SplTokenSwap.Metas.{get_swap_and_account_metas}
use exponent_jupiter_amm_imp.SplTokenSwap.Implementation.{spl_token_swap_amm}
use exponent_jupiter_amm_imp.Jupiter.Instructions.{RouteInstruction}
use exponent_jupiter_amm_imp.Jupiter.Wire.{Anchor, AnchorLaws}
use exponent_jupiter_amm_imp.Jupiter.Wire.Reading.{read_instruction}
use exponent_jupiter_amm_imp.SwapTransaction.Accounts.{build_swap_accounts}
use exponent_jupiter_amm_imp.SwapTransaction.InstructionData.{build_swap_instruction_data}
use exponent_jupiter_amm_imp.SwapTransaction.Wanted.{
  Arguments, arguments, wanted, wanted_kind, FitsParams, signers,
}
use exponent_jupiter_amm_imp.SwapTransaction.Wanted.Listed.{listed}
use exponent_jupiter_amm_imp.SwapTransaction.Agreement.{
  build_swap_accounts_agrees, build_swap_instruction_data_reads_back,
}
use exponent_jupiter_amm_imp.Harness.Bank.{Bank, ProgramTest}
use exponent_jupiter_amm_imp.Harness.QuoteSearch.{Search, find_quote}
use exponent_jupiter_amm_imp.Harness.QuoteSearch.Outcome.{find_quote_outcome}
use exponent_jupiter_amm_imp.Harness.Simulation.Asked.{parties, leg_of}
use exponent_jupiter_amm_imp.Harness.Simulation.{
  AmmTestSwapParams, TestAccounts, accounts_params, data_params, quote_params, swap_params, swap_ix,
  quoted_limit,
}

signers-append : (ms ns : List AccountMeta) → signers (ms ++ ns) ≡ signers ms ++ signers ns
signers-append [] ns = refl
signers-append (m ∷ ms) ns = ground (arith, signers-append ms ns)

-- The search ends with an amount that is no greater than the first.
search_amount :
    {Q : Type 0} (quote_of : ℕ → Result Q) (amount : ℕ)
    → ((n : ℕ) → n ≤ amount → quote_of n ≢ panic)
    → (s : Search Q) × (find_quote quote_of amount ≡ ok s) × (s.amount ≤ amount)
search_amount quote_of amount calm = elim (find_quote_outcome quote_of amount calm) [
  | inl h ↦ (h.final, h.returned, rw h.tried (div-le_self amount _))
  | inr h ↦ (h.final, h.returned, rw h.tried (div-le_self amount _))
]

module _ (X : Crates) (K : Bank) (N : Anchor X) where
  -- What the bytes must carry for the amount: the kind that the flag and the mode ask for, without
  -- a token ledger, one step that takes the whole amount through the pool, and no limit, slippage
  -- or fee.
  abbrev pub carried : ProgramTest → AmmTestSwapParams → ℕ → Arguments X
  carried self p amount = record {
    kind = wanted_kind X p.swap_mode p.use_shared_accounts false;
    authority_id = if p.use_shared_accounts then some self.program_test_authority.id else none;
    route_plan =
        record { swap = X.token_swap; percent = 100; input_index = 0; output_index = 1 } ∷ [];
    amount = some amount;
    quoted_amount = elim p.swap_mode [ exact_in ↦ 0 | exact_out ↦ 18_446_744_073_709_551_615 ];
    slippage_bps = 0;
    platform_fee_bps = 0;
  }

  -- What is sent: to the program `jupiter`, the accounts of the route that fits the bytes, then
  -- those of the pool's leg, signed by the user alone.
  pub record Sent (pool : SplTokenSwapAmm X) (self : ProgramTest) (p : AmmTestSwapParams)
      (t : TestAccounts) (amount : ℕ) (r : Result (Search (Quote X) × Instruction)) : Type 0 where
    pub search : Search (Quote X)
    pub ix : Instruction
    pub returned : r ≡ ok (search, ix)
    pub searched : find_quote (λ n. quote X pool (quote_params X K p n)) amount ≡ ok search
    pub to_jupiter : ix.program_id ≡ jupiter_id
    pub pool_part : List AccountMeta
    pub leg :
        get_swap_and_account_metas X pool (leg_of X K p t search.amount)
        ≡ ok (record { swap = X.token_swap; account_metas = pool_part })
    pub instruction : RouteInstruction X
    pub reads : read_instruction X N ix.content ≡ some instruction
    pub carries : arguments X instruction ≡ carried self p search.amount
    pub together :
        ix.accounts ≡ listed X (arguments X instruction).kind (parties X K self p t) ++ pool_part
    pub signed : signers ix.accounts ≡ self.program_test_user.keypair ∷ []

  wanted-carried :
      (self : ProgramTest) (p : AmmTestSwapParams) (amount : ℕ)
      → wanted X (data_params X K self p amount X.token_swap) ≡ carried self p amount
  wanted-carried self p amount = ground arith

  quoted_limit-lt : (m : SwapMode) → quoted_limit m < 2 ^ 64
  quoted_limit-lt exact_in = omega arith
  quoted_limit-lt exact_out = omega arith

  data_params-FitsParams :
      (self : ProgramTest) (p : AmmTestSwapParams) (amount : ℕ)
      → self.program_test_authority.id < 2 ^ 8
      → amount < u64_mod
      → FitsParams X (data_params X K self p amount X.token_swap)
  data_params-FitsParams self p amount id_lt amount_lt = record {
    id_lt = id_lt;
    plan_fits = omega arith;
    amount_lt = amount_lt;
    quoted_lt = quoted_limit-lt p.swap_mode;
    slippage_lt = omega arith;
    fee_lt = omega arith;
  }

  pool_leg :
      (pool : SplTokenSwapAmm X) (p : AmmTestSwapParams) (t : TestAccounts) (amount : ℕ)
      → (ms : List AccountMeta) × (get_swap_and_account_metas X pool (swap_params X K p t amount)
          ≡ ok (record { swap = X.token_swap; account_metas = ms }))
        × (signers ms ≡ [])
  unfolding get_swap_and_account_metas to_metas
  pool_leg pool p t amount = (_, refl, refl)

  -- The route's part of the accounts and the bytes, one instruction for the user to sign.
  route_leg :
      AnchorLaws X N
      → (self : ProgramTest) (p : AmmTestSwapParams) (t : TestAccounts) (amount : ℕ) {bytes : Bytes}
      → FitsParams X (data_params X K self p amount X.token_swap)
      → build_swap_instruction_data X N (data_params X K self p amount X.token_swap) ≡ ok bytes
      → (i : RouteInstruction X) × (read_instruction X N bytes ≡ some i)
        × (build_swap_accounts X N (accounts_params X K self p t)
            ≡ ok (listed X (arguments X i).kind (parties X K self p t)))
        × (signers (listed X (arguments X i).kind (parties X K self p t))
            ≡ self.program_test_user.keypair ∷ [])
  route_leg A self p t amount fits written =
      let (i, reads, outcome) =
        build_swap_accounts_agrees X N A (accounts_params X K self p t)
          (data_params X K self p amount X.token_swap) fits refl refl refl written in
      elim outcome [ inl (_, has, _) ↦ absurd cc | inr (made, signs) ↦ (i, reads, made, signs) ]

  -- Where the curve's documented bounds hold and bytes are read as they were written, the harness
  -- makes an instruction for every well-formed token swap pool, `u64` amount and authority below
  -- 256, without a panic: sent to `jupiter`, with the test's accounts in the places of the kind of
  -- instruction that the bytes are read as, followed by those of the pool's leg for the
  -- amount that the search ended with, signed by the user alone; its bytes carry that amount, one
  -- whole step through the pool and no limit on the other amount.
  pub swap_ix-Sent :
      SwapLaws X
      → AnchorLaws X N
      → (pool : SplTokenSwapAmm X) (self : ProgramTest) (p : AmmTestSwapParams) (t : TestAccounts)
        (amount : ℕ)
      → IsWellFormed X pool
      → self.program_test_authority.id < 2 ^ 8
      → amount < u64_mod
      → Sent pool self p t amount (swap_ix X K N (spl_token_swap_amm X) pool self p t amount)
  unfolding swap_ix build_swap_instruction_data
  swap_ix-Sent C A pool self p t amount well id_lt amount_lt =
      let quote_of = λ (n : ℕ). quote X pool (quote_params X K p n) in
      let calm : (n : ℕ) → n ≤ amount → quote_of n ≢ panic =
        λ n h. quote-ne-panic X C pool (quote_params X K p n) well (omega arith) in
      let (s, searched, le) = search_amount quote_of amount calm in
      let (ms, leg, none_sign) = pool_leg pool p t s.amount in
      let q = data_params X K self p s.amount X.token_swap in
      let fits = data_params-FitsParams self p s.amount id_lt (omega arith) in
      let (i, reads, made, signs) = route_leg A self p t s.amount fits refl in
      let (j, reads_too, carries) = build_swap_instruction_data_reads_back X N A q fits refl in
      let same : j ≡ i = cc (reads, reads_too) in
      record {
        search = s;
        ix = record {
          program_id = jupiter_id;
          accounts = listed X (arguments X i).kind (parties X K self p t) ++ ms;
          content = _;
        };
        returned = rw (made, searched, leg);
        searched = searched;
        to_jupiter = refl;
        pool_part = ms;
        leg = leg;
        instruction = i;
        reads = reads;
        carries = ap (λ k. arguments X k) (sym same) ∙ carries ∙ wanted-carried self p s.amount;
        together = refl;
        signed = rw (
          signers-append (listed X (arguments X i).kind (parties X K self p t)) ms,
          signs,
          none_sign,
        );
      }
