-- ===== src/Harness/SimulatedSwap/Passing.antt =====
-- What a test that passes has seen.
use exponent_jupiter_amm_imp.Prelude.{
  ℕ, ◌≡◌, ◌↔◌, refl, sym, subst, ◌∙◌, ap, none, [], ◌∷◌, ◌++◌, arith, List,
}
use exponent_jupiter_amm_imp.Prelude.Result.{ok, >>=-eq-ok, unwrap_result, unwrap_result-eq-ok}
use exponent_jupiter_amm_imp.Solana.{Bytes, AccountMeta, Instruction}
use exponent_jupiter_amm_imp.Constants.{jupiter_id}
use exponent_jupiter_amm_imp.Crates.{Crates}
use exponent_jupiter_amm_imp.Amm.{Amm, Quote, SwapAndAccountMetas}
use exponent_jupiter_amm_imp.Jupiter.Wire.{Anchor}
use exponent_jupiter_amm_imp.SwapTransaction.Accounts.{build_swap_accounts}
use exponent_jupiter_amm_imp.SwapTransaction.InstructionData.{build_swap_instruction_data}
use exponent_jupiter_amm_imp.Harness.Bank.{Bank, ProgramTest, get_token_amount}
use exponent_jupiter_amm_imp.Harness.Bank.Seen.{
  Holds, Processed, get_token_amount-eq-Holds, process_transaction-eq-Processed, attempt-eq-ok,
}
use exponent_jupiter_amm_imp.Harness.QuoteSearch.{Search, find_quote}
use exponent_jupiter_amm_imp.Harness.Simulation.{
  AmmTestSwapParams, TestAccounts, test_accounts, test_amount, swap_ix, prepare, accounts_params,
  quote_params, swap_params, data_params,
}
use exponent_jupiter_amm_imp.Harness.Simulation.Asked.{parties, leg_of, step_of, quote_for}
use exponent_jupiter_amm_imp.Harness.Verdict.{Balances}
use exponent_jupiter_amm_imp.Harness.Verdict.Meaning.{Passes}
use exponent_jupiter_amm_imp.Harness.SimulatedSwap.{
  user_balances, send, assert_quote_matches_simulated_swap,
}
use exponent_jupiter_amm_imp.Harness.SimulatedSwap.Tracing.{Trace, passes_iff_Trace}

module _ (X : Crates) (K : Bank) (N : Anchor X) (amm : Amm X) where
  -- A run of the test on the bank: the amount that the search ended with, the route's accounts,
  -- the pool's leg and the bytes for it, one transaction of the limit of compute units and the
  -- instruction to `jupiter` of these, signed by the user and processed, and what the user's two
  -- accounts held before and after it, which agrees with the quote.
  pub record Run (pool : amm.Self) (self : ProgramTest) (p : AmmTestSwapParams)
      (before after : K.Context) : Type 0 where
    pub t : TestAccounts
    pub amount : ℕ
    pub search : Search (Quote X)
    pub route : List AccountMeta
    pub leg : SwapAndAccountMetas X
    pub bytes : Bytes
    pub balances : Balances
    pub accounts_found : test_accounts self p ≡ ok t
    pub amount_found : test_amount K.native_mint p p.swap_mode ≡ ok amount
    pub searched : find_quote (λ n. amm.quote pool (quote_for X K p n)) amount ≡ ok search
    pub routed : build_swap_accounts X N (parties X K self p t) ≡ ok route
    pub led : amm.get_swap_and_account_metas pool (leg_of X K p t search.amount) ≡ ok leg
    pub written :
        build_swap_instruction_data X N (step_of X K self p search.amount leg.swap) ≡ ok bytes
    pub source_before : Holds K before t.user_source_token_account balances.source_before
    pub destination_before :
        Holds K before t.user_destination_token_account balances.destination_before
    pub processed :
        Processed K
          (K.set_compute_unit_limit 1_400_000
            ∷ record {
              program_id = jupiter_id;
              accounts = route ++ leg.account_metas;
              content = bytes;
            }
            ∷ [])
          (self.program_test_user.keypair ∷ [])
          before
          after
    pub source_after : Holds K after t.user_source_token_account balances.source_after
    pub destination_after :
        Holds K after t.user_destination_token_account balances.destination_after
    pub passes : Passes X (λ n. amm.quote pool (quote_for X K p n)) p search balances (ok tt)

  user_balances-amounts :
      (t : TestAccounts) (c : K.Context) (m n : ℕ)
      → (user_balances X K t c).0 ≡ ok (m, n)
      → ((get_token_amount K t.user_source_token_account c).0 ≡ ok m)
        × ((get_token_amount K t.user_destination_token_account c).0 ≡ ok n)
  unfolding user_balances get_token_amount
  user_balances-amounts t c m n done = ground (arith, done)

  user_balances-eq-Holds :
      (t : TestAccounts) (c : K.Context) (m n : ℕ)
      → ((user_balances X K t c).0 ≡ ok (m, n))
        ↔ (Holds K c t.user_source_token_account m × Holds K c t.user_destination_token_account n)
  unfolding user_balances get_token_amount
  user_balances-eq-Holds t c m n =
      let source = get_token_amount-eq-Holds K t.user_source_token_account c m in
      let destination = get_token_amount-eq-Holds K t.user_destination_token_account c n in
      (
        λ done.
            let (seen, too) = user_balances-amounts t c m n done in
            (source.0 seen, destination.0 too),
        λ h. ground (arith, source.1 h.0, destination.1 h.1),
      )

  data_params-eq-step_of :
      (self : ProgramTest) (p : AmmTestSwapParams) (amount : ℕ) (swap : X.Swap)
      → data_params X K self p amount swap ≡ step_of X K self p amount swap
  data_params-eq-step_of self p amount swap = ground arith

  module _ (pool : amm.Self) (self : ProgramTest) (p : AmmTestSwapParams) where
    -- The instruction for the amount that the search ended with, and what it is made of.
    record Made (t : TestAccounts) (amount : ℕ) (made : Search (Quote X) × Instruction)
        : Type 0 where
      route : List AccountMeta
      leg : SwapAndAccountMetas X
      bytes : Bytes
      searched : find_quote (λ n. amm.quote pool (quote_for X K p n)) amount ≡ ok made.0
      routed : build_swap_accounts X N (parties X K self p t) ≡ ok route
      led : amm.get_swap_and_account_metas pool (leg_of X K p t made.0.amount) ≡ ok leg
      written :
          build_swap_instruction_data X N (step_of X K self p made.0.amount leg.swap) ≡ ok bytes
      whole : made.1 ≡ record {
        program_id = jupiter_id;
        accounts = route ++ leg.account_metas;
        content = bytes;
      }

    swap_ix-Made :
        (t : TestAccounts) (amount : ℕ) {made : Search (Quote X) × Instruction}
        → swap_ix X K N amm pool self p t amount ≡ ok made
        → Made t amount made
    unfolding swap_ix
    swap_ix-Made t amount {made} done =
        let (route, routed, to_search) =
          >>=-eq-ok (unwrap_result (build_swap_accounts X N (accounts_params X K self p t))) _
            done in
        let (search, searched, to_leg) =
          >>=-eq-ok (find_quote (λ n. amm.quote pool (quote_params X K p n)) amount) _ to_search in
        let (leg, led, to_bytes) =
          >>=-eq-ok
            (unwrap_result
              (amm.get_swap_and_account_metas pool (swap_params X K p t search.amount)))
            _ to_leg in
        let data_of = build_swap_instruction_data X N in
        let (bytes, written, last) =
          >>=-eq-ok (unwrap_result (data_of (data_params X K self p search.amount leg.swap))) _
            to_bytes in
        let ix : Instruction = record {
          program_id = jupiter_id;
          accounts = route ++ leg.account_metas;
          content = bytes;
        } in
        let same : ◌≡◌ {A = Search (Quote X) × Instruction} (search, ix) made = cc (last) in
        subst (Made t amount) same (record {
          route = route;
          leg = leg;
          bytes = bytes;
          searched = searched;
          routed = unwrap_result-eq-ok (build_swap_accounts X N (parties X K self p t)) routed;
          led =
              unwrap_result-eq-ok
                (amm.get_swap_and_account_metas pool (leg_of X K p t search.amount)) led;
          written =
              ap data_of (sym (data_params-eq-step_of self p search.amount leg.swap))
              ∙ unwrap_result-eq-ok (data_of (data_params X K self p search.amount leg.swap))
                  written;
          whole = refl;
        })

    prepare-Made :
        {t : TestAccounts} {search : Search (Quote X)} {ix : Instruction}
        → prepare X K N amm pool self p ≡ ok (t, search, ix)
        → (amount : ℕ) × (test_accounts self p ≡ ok t)
          × (test_amount K.native_mint p p.swap_mode ≡ ok amount)
          × Made t amount (search, ix)
    unfolding prepare
    prepare-Made {t} {search} {ix} done =
        let (t', accounts_found, to_amount) = >>=-eq-ok (test_accounts self p) _ done in
        let (amount, amount_found, to_ix) =
          >>=-eq-ok (test_amount K.native_mint p p.swap_mode) _ to_amount in
        let (made, built, last) = >>=-eq-ok (swap_ix X K N amm pool self p t' amount) _ to_ix in
        let whole : ◌≡◌ {A = TestAccounts × Search (Quote X) × Instruction} (t', made.0, made.1)
            (t, search, ix) =
          cc (last) in
        let same_t : t' ≡ t = ap (λ x. x.0) whole in
        let same : made ≡ (search, ix) = ap (λ x. (x.1, x.2)) whole in
        (
          amount,
          accounts_found ∙ ap ok same_t,
          amount_found,
          swap_ix-Made t amount
              (ap (λ a. swap_ix X K N amm pool self p a amount) (sym same_t) ∙ built ∙ ap ok same),
        )

    ran : (c c' : K.Context) → Trace X K N amm pool self p c c' → Run pool self p c c'
    ran c c' h =
        let (amount, accounts_found, amount_found, m) = prepare-Made h.prepared in
        let (source_before, destination_before) =
          (user_balances-eq-Holds h.t c h.balances.source_before h.balances.destination_before).0
            h.seen_before in
        let (source_after, destination_after) =
          (user_balances-eq-Holds h.t c' h.balances.source_after h.balances.destination_after).0
            h.seen_after in
        record {
          t = h.t;
          amount = amount;
          search = h.search;
          route = m.route;
          leg = m.leg;
          bytes = m.bytes;
          balances = h.balances;
          accounts_found = accounts_found;
          amount_found = amount_found;
          searched = m.searched;
          routed = m.routed;
          led = m.led;
          written = m.written;
          source_before = source_before;
          destination_before = destination_before;
          processed =
              (process_transaction-eq-Processed K _ (self.program_test_user.keypair ∷ []) c c').0 (
                (attempt-eq-ok K (send X K self _) c c').0
                  (rw (← m.whole, ← h.passes.processed) h.processed));
          source_after = source_after;
          destination_after = destination_after;
          passes = rw (← h.passes.processed) h.passes;
        }

    to_run : (c c' : K.Context) → Run pool self p c c' → Trace X K N amm pool self p c c'
    unfolding prepare swap_ix
    to_run c c' h = record {
      t = h.t;
      search = h.search;
      ix = record {
        program_id = jupiter_id;
        accounts = h.route ++ h.leg.account_metas;
        content = h.bytes;
      };
      balances = h.balances;
      result = ok tt;
      prepared =
          rw (h.accounts_found, h.amount_found, h.routed, h.searched, h.led)
            (rw (data_params-eq-step_of self p h.search.amount h.leg.swap, h.written) refl);
      seen_before =
          (user_balances-eq-Holds h.t c h.balances.source_before h.balances.destination_before).1
            (h.source_before, h.destination_before);
      processed = (attempt-eq-ok K (send X K self _) c c').1 (
          (process_transaction-eq-Processed K _ (self.program_test_user.keypair ∷ []) c c').1
            h.processed);
      seen_after =
          (user_balances-eq-Holds h.t c' h.balances.source_after h.balances.destination_after).1
            (h.source_after, h.destination_after);
      passes = h.passes;
    }

    -- Where no error is expected, a test of any pool passes exactly if there is a run of it: an
    -- instruction for the amount that the search ended with, in one transaction that the user
    -- signed and that succeeded, between balances of the user's two accounts that agree with the
    -- quote for that amount; the bank is then in the state after that run.
    pub passes_iff_Run :
        (c c' : K.Context)
        → p.expected_error ≡ none
        → assert_quote_matches_simulated_swap X K N amm pool self p c ≡ (ok tt, c')
          ↔ Run pool self p c c'
    passes_iff_Run c c' expects_none =
        let whole = passes_iff_Trace X K N amm pool self p c c' expects_none in
        (λ done. ran c c' (whole.0 done), λ h. whole.1 (to_run c c' h))
