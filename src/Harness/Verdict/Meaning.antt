-- ===== src/Harness/Verdict/Meaning.antt =====
-- When a simulated swap passes.
use exponent_jupiter_amm_imp.Prelude.{
  ℕ, zero, suc, ◌+◌, ◌-◌, ◌≤◌, ◌≡◌, refl, sym, ◌∙◌, ◌↔◌, none, some, arith,
}
use exponent_jupiter_amm_imp.Prelude.Result.{
  Result, ok, unwrap, unwrap_result, ◌>>=◌, ◌>>◌, >>=-eq-ok, unwrap-eq-ok, unwrap_result-eq-ok,
}
use exponent_jupiter_amm_imp.Solana.{SwapMode, exact_in, exact_out}
use exponent_jupiter_amm_imp.Crates.{Crates}
use exponent_jupiter_amm_imp.Amm.{Quote}
use exponent_jupiter_amm_imp.Harness.Bank.{Bank}
use exponent_jupiter_amm_imp.Harness.QuoteSearch.{Search}
use exponent_jupiter_amm_imp.Harness.Simulation.{AmmTestSwapParams}
use exponent_jupiter_amm_imp.Harness.Verdict.{Balances, checked_sub, repeat, compare, verdict}

-- Two amounts that differ by no more than the tolerance.
abbrev pub Within : ℕ → ℕ → ℕ → Type 0
Within tolerance a b = (a ≤ b + tolerance) × (b ≤ a + tolerance)

repeat_ok : (n : ℕ) (call : Result (Unit {0})) → call ≡ ok tt → repeat n call ≡ ok tt
repeat_ok zero call h = refl
repeat_ok (suc n) call h = ground (arith, repeat_ok n call h)

unwrap-checked_sub_ok : (a b : ℕ) → b ≤ a → unwrap (checked_sub a b) ≡ ok (a - b)
unwrap-checked_sub_ok a b h = ground arith

unwrap-checked_sub_inv : (a b : ℕ) {n : ℕ} → unwrap (checked_sub a b) ≡ ok n → (b ≤ a) × (n ≡ a - b)
unwrap-checked_sub_inv a b h = ground arith

module _ (X : Crates) where
  -- What the mode asks of the amounts: exact-in, that the destination account gained what was
  -- quoted, within the tolerance; exact-out, that it gained the amount itself and that the source
  -- account lost what was quoted, within the tolerance.
  abbrev pub Agrees : SwapMode → ℕ → ℕ → Quote X → Balances → Type 0
  Agrees exact_in tolerance amount q b =
      Within tolerance (q.out_amount + b.destination_before) b.destination_after
  Agrees exact_out tolerance amount q b =
      Within tolerance (q.in_amount + b.source_after) b.source_before
      × (amount + b.destination_before ≡ b.destination_after)

  pub record Passes (quote_of : ℕ → Result (Quote X)) (p : AmmTestSwapParams) (s : Search (Quote X))
      (b : Balances) (process_transaction_result : Result (Unit {0})) : Type 0 where
    pub spent : b.source_after ≤ b.source_before
    pub gained : b.destination_before ≤ b.destination_after
    pub processed : process_transaction_result ≡ ok tt
    pub value : Quote X
    pub found : s.quote_result ≡ some value
    pub agrees : Agrees p.swap_mode p.tolerance s.amount value b
    pub again : Quote X
    pub quoted_again : quote_of s.amount ≡ ok again

  module _ (K : Bank) where
    compare_ok :
        (m : SwapMode) (tolerance amount : ℕ) (q : Quote X) (b : Balances)
        → b.source_after ≤ b.source_before
        → b.destination_before ≤ b.destination_after
        → Agrees m tolerance amount q b
        → compare X K m tolerance amount q
            (b.source_before - b.source_after)
            (b.destination_after - b.destination_before)
          ≡ ok tt
    unfolding compare
    compare_ok exact_in tolerance amount q b s g (h, k) = ground arith
    compare_ok exact_out tolerance amount q b s g ((h, k), e) = ground arith

    compare_inv :
        (m : SwapMode) (tolerance amount : ℕ) (q : Quote X) (b : Balances)
        → b.source_after ≤ b.source_before
        → b.destination_before ≤ b.destination_after
        → compare X K m tolerance amount q
            (b.source_before - b.source_after)
            (b.destination_after - b.destination_before)
          ≡ ok tt
        → Agrees m tolerance amount q b
    unfolding compare
    compare_inv exact_in tolerance amount q b s g h = ground arith
    compare_inv exact_out tolerance amount q b s g h = ground arith

    verdict_ok :
        (quote_of : ℕ → Result (Quote X)) (p : AmmTestSwapParams) (s : Search (Quote X))
        (b : Balances) (r : Result (Unit {0}))
        → p.expected_error ≡ none
        → Passes quote_of p s b r
        → verdict X K quote_of p s b r ≡ ok tt
    unfolding verdict
    verdict_ok quote_of p s b r expects_none h = rw (
      unwrap-checked_sub_ok b.source_before b.source_after h.spent,
      unwrap-checked_sub_ok b.destination_after b.destination_before h.gained,
      expects_none,
      h.processed,
      h.found,
      h.quoted_again,
      compare_ok p.swap_mode p.tolerance s.amount h.value b h.spent h.gained h.agrees,
    )

    -- The part of the verdict that follows the two differences, where no error is expected.
    abbrev judged :
        (ℕ → Result (Quote X))
        → AmmTestSwapParams
        → Search (Quote X)
        → Result (Unit {0})
        → ℕ
        → ℕ
        → Result (Unit {0})
    judged quote_of p s r lost gained = unwrap_result r >>= λ _. unwrap s.quote_result >>= λ quote.
        compare X K p.swap_mode p.tolerance s.amount quote lost gained >>= λ _.
        repeat 100 (unwrap_result (quote_of s.amount) >> ok tt)

    verdict-eq-judged :
        (quote_of : ℕ → Result (Quote X)) (p : AmmTestSwapParams) (s : Search (Quote X))
        (b : Balances) (r : Result (Unit {0}))
        → p.expected_error ≡ none
        → verdict X K quote_of p s b r ≡ (
            unwrap (checked_sub b.source_before b.source_after) >>= λ lost.
            unwrap (checked_sub b.destination_after b.destination_before) >>= λ gained.
            judged quote_of p s r lost gained)
    unfolding verdict
    verdict-eq-judged quote_of p s b r expects_none = rw expects_none

    judged_inv :
        (quote_of : ℕ → Result (Quote X)) (p : AmmTestSwapParams) (s : Search (Quote X))
        (b : Balances) (r : Result (Unit {0})) {lost gained : ℕ}
        → (b.source_after ≤ b.source_before) × (lost ≡ b.source_before - b.source_after)
        → (b.destination_before ≤ b.destination_after)
          × (gained ≡ b.destination_after - b.destination_before)
        → judged quote_of p s r lost gained ≡ ok tt
        → Passes quote_of p s b r
    judged_inv quote_of p s b r (spent, lost_eq) (got, gained_eq) done =
        let (_, processed, asked) = >>=-eq-ok (unwrap_result r) _ done in
        let (q, found, compared) = >>=-eq-ok (unwrap s.quote_result) _ asked in
        let (_, same, repeated) = >>=-eq-ok (compare X K _ _ _ q _ _) _ compared in
        let once = unwrap_result (quote_of s.amount) in
        let (again, quoted, _) = >>=-eq-ok once _ (>>=-eq-ok (once >> ok tt) _ repeated).1 in
        record {
          spent = spent;
          gained = got;
          processed = unwrap_result-eq-ok r processed;
          value = q;
          found = unwrap-eq-ok s.quote_result found;
          agrees =
              compare_inv p.swap_mode p.tolerance s.amount q b spent got
                (rw (← lost_eq, ← gained_eq) same);
          again = again;
          quoted_again = unwrap_result-eq-ok (quote_of s.amount) quoted;
        }

    -- Where no error is expected a simulated swap passes exactly if the transaction succeeded, an
    -- amount was quoted, the user's source account did not gain nor the destination account lose,
    -- the amounts agree with the quote as the mode asks, and the amount can be quoted again.
    pub verdict_iff_Passes :
        (quote_of : ℕ → Result (Quote X)) (p : AmmTestSwapParams) (s : Search (Quote X))
        (b : Balances) (r : Result (Unit {0}))
        → p.expected_error ≡ none
        → verdict X K quote_of p s b r ≡ ok tt ↔ Passes quote_of p s b r
    verdict_iff_Passes quote_of p s b r expects_none = (
      λ done.
          (let (_, lost, rest) =
              >>=-eq-ok (unwrap (checked_sub b.source_before b.source_after)) _
                (sym (verdict-eq-judged quote_of p s b r expects_none) ∙ done) in
            let (_, gained, end) =
              >>=-eq-ok (unwrap (checked_sub b.destination_after b.destination_before)) _ rest in
            judged_inv quote_of p s b r (unwrap-checked_sub_inv b.source_before b.source_after lost)
              (unwrap-checked_sub_inv b.destination_after b.destination_before gained) end),
      λ h. verdict_ok quote_of p s b r expects_none h,
    )
