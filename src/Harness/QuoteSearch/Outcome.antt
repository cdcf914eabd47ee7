-- ===== src/Harness/QuoteSearch/Outcome.antt =====
-- What the search finds: the first of ten halvings of the amount that can be quoted.
use native.Mathlib.Nat.{div-div-eq-div-mul, div-le_self, pow-suc}
use exponent_jupiter_amm_imp.Prelude.{
  ℕ, zero, suc, ◌+◌, ◌/◌, ◌^◌, ◌≤◌, ◌<◌, ◌≡◌, ◌≢◌, refl, sym, subst, ◌∙◌, ap, ◌⊎◌, inl, inr, true,
  none, some, arith,
}
use exponent_jupiter_amm_imp.Prelude.Result.{Error, Result, ok, err, panic, ◌>>=◌, Result-cases}
use exponent_jupiter_amm_imp.Harness.QuoteSearch.{
  Search, goes_on, after_quote, quote_loop, find_quote,
}

module _ {Q : Type 0} (quote : ℕ → Result Q) (amount : ℕ) where
  -- The quotes of the first `k` halvings all return an error.
  abbrev pub Fails : ℕ → Type 0
  Fails zero = Unit
  Fails (suc k) = Fails k × ((e : Error) × (quote (amount / 2 ^ suc k) ≡ err e))

  -- The search ended with a quote, of the halving after `k` failures.
  pub record Found (r : Result (Search Q)) : Type 0 where
    pub failures : ℕ
    pub final : Search Q
    pub value : Q
    pub returned : r ≡ ok final
    pub in_ten : failures < 10
    pub all_failed : Fails failures
    pub quoted : quote (amount / 2 ^ suc failures) ≡ ok value
    pub kept : final.quote_result ≡ some value
    pub tried : final.amount ≡ amount / 2 ^ suc failures
    pub counted : final.quote_count ≡ suc failures

  -- The search ended with no quote, after ten failures.
  pub record Exhausted (r : Result (Search Q)) : Type 0 where
    pub final : Search Q
    pub returned : r ≡ ok final
    pub all_failed : Fails 10
    pub nothing : final.quote_result ≡ none
    pub tried : final.amount ≡ amount / 2 ^ 10
    pub counted : final.quote_count ≡ 10

  half_again : (k : ℕ) → amount / 2 ^ k / 2 ≡ amount / 2 ^ suc k
  half_again k =
      div-div-eq-div-mul amount (2 ^ k) 2 ∙ ap (λ (n : ℕ). amount / n) (sym (pow-suc 2 k))

  quote_loop_done :
      (fuel : ℕ) (s : Search Q) {v : Q}
      → s.quote_result ≡ some v
      → quote_loop quote (suc fuel) s ≡ ok s
  unfolding quote_loop goes_on
  quote_loop_done fuel s h = ground arith

  quote_loop_full :
      (fuel : ℕ) (s : Search Q) → s.quote_count ≡ 10 → quote_loop quote (suc fuel) s ≡ ok s
  unfolding quote_loop goes_on
  quote_loop_full fuel s h = ground arith

  goes_on_lem : (s : Search Q) → s.quote_result ≡ none → s.quote_count < 10 → goes_on s ≡ true
  unfolding goes_on
  goes_on_lem s h lt = ground arith

  quote_loop_step :
      (fuel : ℕ) (s : Search Q)
      → goes_on s ≡ true
      → quote_loop quote (suc fuel) s
        ≡ (after_quote s (s.amount / 2) (quote (s.amount / 2)) >>= λ t. quote_loop quote fuel t)
  unfolding quote_loop
  quote_loop_step fuel s h = rw (h, quote_loop)

  -- The search from its `k`-th failure on, with fuel for the tests that are left.
  quote_loop_outcome :
      (fuel rest k : ℕ) (s : Search Q)
      → ((n : ℕ) → n ≤ amount → quote n ≢ panic)
      → rest + k ≡ 10
      → rest < fuel
      → s.amount ≡ amount / 2 ^ k
      → s.quote_count ≡ k
      → s.quote_result ≡ none
      → Fails k
      → Found (quote_loop quote fuel s) ⊎ Exhausted (quote_loop quote fuel s)
  quote_loop_outcome zero rest k s calm left enough at count unfound failed =
      absurd (omega (arith, enough))
  quote_loop_outcome (suc fuel) zero k s calm left enough at count unfound failed =
      let ten : k ≡ 10 = omega arith in
      inr (record {
        final = s;
        returned = quote_loop_full fuel s (count ∙ ten);
        all_failed = subst Fails ten failed;
        nothing = unfound;
        tried = at ∙ ap (λ (n : ℕ). amount / 2 ^ n) ten;
        counted = omega arith;
      })
  quote_loop_outcome (suc zero) (suc rest) k s calm left enough at count unfound failed =
      absurd (omega (arith, enough))
  quote_loop_outcome (suc (suc fuel)) (suc rest) k s calm left enough at count unfound failed =
      let half : s.amount / 2 ≡ amount / 2 ^ suc k = ap (λ (n : ℕ). n / 2) at ∙ half_again k in
      let step = quote_loop_step (suc fuel) s (goes_on_lem s unfound (omega arith)) in
      elim (Result-cases (quote (s.amount / 2))) [
        | inl (v, e) ↦
            let s' : Search Q = record s {
              amount = s.amount / 2;
              quote_count = s.quote_count + 1;
              quote_result = some v;
            } in
            inl (record {
              failures = k;
              final = s';
              value = v;
              returned = step ∙ rw e (quote_loop_done fuel s' refl);
              in_ten = omega arith;
              all_failed = failed;
              quoted = rw (← half) e;
              kept = refl;
              tried = half;
              counted = omega arith;
            })
        | inr (inl (e, f)) ↦
            let s' : Search Q = record s {
              amount = s.amount / 2;
              quote_count = s.quote_count + 1;
              quote_err = some e;
            } in
            let next : quote_loop quote (suc (suc fuel)) s ≡ quote_loop quote (suc fuel) s' =
              step ∙ rw f in
            rw next (
              quote_loop_outcome (suc fuel) rest (suc k) s' calm (omega arith)
                (omega (arith, enough)) half (omega arith) unfound (failed, (e, rw (← half) f)))
        | inr (inr p) ↦ absurd (calm (s.amount / 2) (rw half (div-le_self amount (2 ^ suc k))) p)
      ]

  -- If no quote up to the amount panics the search returns: with the quote of the first halving of
  -- the amount that can be quoted, among the first ten, and that halving as the amount; or, when
  -- the ten all fail, with no quote. The amount itself is never quoted.
  pub find_quote_outcome :
      ((n : ℕ) → n ≤ amount → quote n ≢ panic)
      → Found (find_quote quote amount) ⊎ Exhausted (find_quote quote amount)
  unfolding find_quote
  find_quote_outcome calm =
      quote_loop_outcome 12 10 0
        (record { amount = amount; quote_count = 0; quote_result = none; quote_err = none }) calm
        refl (omega arith) (omega arith) refl refl tt
