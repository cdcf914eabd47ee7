-- ===== src/Harness/SimulatedSwap/Tracing.antt =====
-- A test that passes, by its own calls.
use exponent_jupiter_amm_imp.Prelude.{ℕ, ◌≡◌, refl, sym, subst, ◌∙◌, ap, ◌↔◌, none, arith}
use exponent_jupiter_amm_imp.Prelude.Result.{Result, ok}
use exponent_jupiter_amm_imp.Prelude.Stateful.{
  Method, ◌>>=◌, lift, >>=-eq-ok, lift-eq-ok, lift-eq-ok_end, >>=_called,
}
use exponent_jupiter_amm_imp.Solana.{Instruction}
use exponent_jupiter_amm_imp.Crates.{Crates}
use exponent_jupiter_amm_imp.Amm.{Amm, Quote}
use exponent_jupiter_amm_imp.Jupiter.Wire.{Anchor}
use exponent_jupiter_amm_imp.Harness.Bank.{Bank, ProgramTest, get_token_amount, attempt}
use exponent_jupiter_amm_imp.Harness.QuoteSearch.{Search}
use exponent_jupiter_amm_imp.Harness.Simulation.{
  AmmTestSwapParams, TestAccounts, prepare, quote_params,
}
use exponent_jupiter_amm_imp.Harness.Verdict.{Balances, verdict}
use exponent_jupiter_amm_imp.Harness.Verdict.Meaning.{Passes, verdict_iff_Passes}
use exponent_jupiter_amm_imp.Harness.SimulatedSwap.{
  user_balances, send, assert_quote_matches_simulated_swap,
}

module _ (X : Crates) (K : Bank) (N : Anchor X) (amm : Amm X) where
  -- A run of the test on the bank: its accounts, what it sent, the balances before and
  -- after in the bank's states of the time, and how the transaction ended.
  pub record Trace (pool : amm.Self) (self : ProgramTest) (p : AmmTestSwapParams)
      (before after : K.Context) : Type 0 where
    pub t : TestAccounts
    pub search : Search (Quote X)
    pub ix : Instruction
    pub balances : Balances
    pub result : Result (Unit {0})
    pub prepared : prepare X K N amm pool self p ≡ ok (t, search, ix)
    pub seen_before :
        (user_balances X K t before).0 ≡ ok (balances.source_before, balances.destination_before)
    pub processed : attempt K (send X K self ix) before ≡ (ok result, after)
    pub seen_after :
        (user_balances X K t after).0 ≡ ok (balances.source_after, balances.destination_after)
    pub passes : Passes X (λ n. amm.quote pool (quote_params X K p n)) p search balances result

  user_balances_reads :
      (t : TestAccounts) (c : K.Context) → user_balances X K t c ≡ ((user_balances X K t c).0, c)
  unfolding user_balances get_token_amount
  user_balances_reads t c = ground arith

  module _ (pool : amm.Self) (self : ProgramTest) (p : AmmTestSwapParams) where
    abbrev judge :
        Search (Quote X) → ℕ × ℕ → Result (Unit {0}) → ℕ × ℕ → Method K.Context (Unit {0})
    judge search before result after = lift (
        verdict X K (λ n. amm.quote pool (quote_params X K p n)) p search
          (record {
            source_before = before.0;
            source_after = after.0;
            destination_before = before.1;
            destination_after = after.1;
          })
          result)

    abbrev look_again :
        TestAccounts → Search (Quote X) → ℕ × ℕ → Result (Unit {0}) → Method K.Context (Unit {0})
    look_again t search before result = user_balances X K t >>= judge search before result

    abbrev swap :
        TestAccounts → Search (Quote X) → Instruction → ℕ × ℕ → Method K.Context (Unit {0})
    swap t search ix before = attempt K (send X K self ix) >>= look_again t search before

    abbrev simulate : TestAccounts × Search (Quote X) × Instruction → Method K.Context (Unit {0})
    simulate (t, search, ix) = user_balances X K t >>= swap t search ix

    assert-eq-simulate :
        (c : K.Context)
        → assert_quote_matches_simulated_swap X K N amm pool self p c
          ≡ (lift (prepare X K N amm pool self p) >>= simulate) c
    unfolding assert_quote_matches_simulated_swap
    assert-eq-simulate c = refl

    user_balances-eq-ok :
        (t : TestAccounts) (f : ℕ × ℕ → Method K.Context (Unit {0})) (c : K.Context)
        {c' : K.Context}
        → (user_balances X K t >>= f) c ≡ (ok tt, c')
        → (b : ℕ × ℕ) × ((user_balances X K t c).0 ≡ ok b) × (f b c ≡ (ok tt, c'))
    user_balances-eq-ok t f c {c'} done =
        let (b, after, seen, rest) = >>=-eq-ok (user_balances X K t) f c done in
        let whole = sym (user_balances_reads t c) ∙ seen in
        (b, ap (λ r. r.0) whole, subst (λ s. f b s ≡ (ok tt, c')) (sym (ap (λ r. r.1) whole)) rest)

    passed :
        (c c' : K.Context)
        → p.expected_error ≡ none
        → assert_quote_matches_simulated_swap X K N amm pool self p c ≡ (ok tt, c')
        → Trace pool self p c c'
    passed c c' expects_none done =
        let ((t, search, ix), prepared, at_start) =
          lift-eq-ok (prepare X K N amm pool self p) simulate c
            (sym (assert-eq-simulate c) ∙ done) in
        let (before, seen_before, to_swap) = user_balances-eq-ok t (swap t search ix) c at_start in
        let (result, c'', processed, to_look) =
          >>=-eq-ok (attempt K (send X K self ix)) (look_again t search before) c to_swap in
        let (after, seen_after, to_judge) =
          user_balances-eq-ok t (judge search before result) c'' to_look in
        let (judged, same) = lift-eq-ok_end _ c'' to_judge in
        subst (Trace pool self p c) same (record {
          t = t;
          search = search;
          ix = ix;
          balances = record {
            source_before = before.0;
            source_after = after.0;
            destination_before = before.1;
            destination_after = after.1;
          };
          result = result;
          prepared = prepared;
          seen_before = seen_before;
          processed = processed;
          seen_after = seen_after;
          passes = (verdict_iff_Passes X K _ p search _ result expects_none).0 judged;
        })

    to_pass :
        (c c' : K.Context)
        → p.expected_error ≡ none
        → Trace pool self p c c'
        → assert_quote_matches_simulated_swap X K N amm pool self p c ≡ (ok tt, c')
    to_pass c c' expects_none h =
        assert-eq-simulate c
        ∙ >>=_called (lift (prepare X K N amm pool self p)) simulate c (ap (λ r. (r, c)) h.prepared)
        ∙ >>=_called (user_balances X K h.t) (swap h.t h.search h.ix) c
            (user_balances_reads h.t c ∙ ap (λ r. (r, c)) h.seen_before)
        ∙ >>=_called (attempt K (send X K self h.ix)) (look_again h.t h.search _) c h.processed
        ∙ >>=_called (user_balances X K h.t) (judge h.search _ h.result) c'
            (user_balances_reads h.t c' ∙ ap (λ r. (r, c')) h.seen_after)
        ∙ ap (λ r. (r, c'))
            ((verdict_iff_Passes X K _ p h.search h.balances h.result expects_none).1 h.passes)

    pub passes_iff_Trace :
        (c c' : K.Context)
        → p.expected_error ≡ none
        → assert_quote_matches_simulated_swap X K N amm pool self p c ≡ (ok tt, c')
          ↔ Trace pool self p c c'
    passes_iff_Trace c c' expects_none = (passed c c' expects_none, to_pass c c' expects_none)
