-- ===== src/Harness/QuoteSearch.antt =====
-- The search for an amount that can be quoted: lines 215 to 236 of
-- jupiter-core/src/amms/test_harness.rs.
pub mod Outcome
use exponent_jupiter_amm_imp.Prelude.{
  ℕ, zero, suc, ◌+◌, ◌/◌, Bool, true, false, ◌&&◌, not, Option, none, some, is_some, ltb,
}
use exponent_jupiter_amm_imp.Prelude.Result.{Error, Result, ok, err, panic, ◌>>=◌}

-- The variables of the loop.
pub record Search (Q : Type 0) : Type 0 where
  pub amount : ℕ
  pub quote_count : ℕ
  pub quote_result : Option Q
  pub quote_err : Option Error

module _ {Q : Type 0} where
  -- `quote_result.is_none() && quote_count < 10`
  unfoldable pub goes_on : Search Q → Bool
  goes_on s = not (is_some s.quote_result) && ltb s.quote_count 10

  -- The body for a quote that returned or failed; a panic of the quote is a panic of the loop.
  abbrev pub after_quote : Search Q → ℕ → Result Q → Result (Search Q)
  after_quote s amount (ok q) =
      ok (record s { amount = amount; quote_count = s.quote_count + 1; quote_result = some q })
  after_quote s amount (err e) =
      ok (record s { amount = amount; quote_count = s.quote_count + 1; quote_err = some e })
  after_quote s amount panic = panic

  -- The loop, with fuel; a loop that is out of fuel before its test fails has no result, written
  -- as a panic. The amount is halved before the first quote.
  unfoldable pub quote_loop : (ℕ → Result Q) → ℕ → Search Q → Result (Search Q)
  quote_loop quote zero s = panic
  quote_loop quote (suc fuel) s = elim (goes_on s) [
    | true ↦ after_quote s (s.amount / 2) (quote (s.amount / 2)) >>= λ s'. quote_loop quote fuel s'
    | false ↦ ok s
  ]

  -- Fuel for twelve tests, more than the counter allows: the loop ends by its test.
  unfoldable pub find_quote : (ℕ → Result Q) → ℕ → Result (Search Q)
  find_quote quote amount =
      quote_loop quote 12
        (record { amount = amount; quote_count = 0; quote_result = none; quote_err = none })
