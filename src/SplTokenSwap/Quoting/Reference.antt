-- ===== src/SplTokenSwap/Quoting/Reference.antt =====
-- `quote` against a description with no conversions: which calls succeed, with what numbers.
use exponent_jupiter_amm_imp.Prelude.{
  ◌+◌, ◌<◌, ◌≡◌, ◌≢◌, ◌⊎◌, ◌∙◌, sym, Option, none, some, arith, inl, inr, Option-cases,
}
use exponent_jupiter_amm_imp.Prelude.Result.{Result, ok, err, panic, message, u64_mod}
use exponent_jupiter_amm_imp.Crates.{Crates, CurveSwap, SwapLaws}
use exponent_jupiter_amm_imp.Math.Fees.{new, fee_pct}
use exponent_jupiter_amm_imp.Math.Fees.Pct.{DecimalLaws, FitsU64, fee_pct_total}
use exponent_jupiter_amm_imp.Amm.{QuoteParams, Quote}
use exponent_jupiter_amm_imp.SplTokenSwap.Pool.{SplTokenSwapAmm}
use exponent_jupiter_amm_imp.SplTokenSwap.Pool.Build.{IsWellFormed}
use exponent_jupiter_amm_imp.SplTokenSwap.Quoting.{trade_sides, quote}

module _ (X : Crates) where
  -- The curve's answer to the trade that the parameters describe.
  abbrev pub curve_swap : SplTokenSwapAmm X → QuoteParams → Option CurveSwap
  curve_swap self p =
      let (direction, source, destination) = trade_sides X self p.input_mint in
      X.swap self.state.swap_curve p.amount source destination direction self.state.fees

  abbrev pub pool_fee_pct : SplTokenSwapAmm X → Option X.Decimal
  pool_fee_pct self = fee_pct X (
      new X self.state.fees.trade_fee_numerator self.state.fees.trade_fee_denominator
        self.state.fees.owner_trade_fee_numerator self.state.fees.owner_trade_fee_denominator)

  abbrev pub as_quote : QuoteParams → CurveSwap → X.Decimal → Quote X
  as_quote p r pct = record {
    in_amount = r.source_amount_swapped;
    out_amount = r.destination_amount_swapped;
    fee_amount = r.trade_fee + r.owner_fee;
    fee_mint = p.input_mint;
    fee_pct = pct;
    rest = X.default_quote_rest;
  }

  abbrev pub reference : Option CurveSwap → Option X.Decimal → QuoteParams → Result (Quote X)
  reference none _ p = err (message "quote failed")
  reference (some r) none p = err (message "failed to get fee pct")
  reference (some r) (some pct) p = ok (as_quote p r pct)

  module _ (L : SwapLaws X) where
    destination-lt :
        (self : SplTokenSwapAmm X) (p : QuoteParams)
        → IsWellFormed X self
        → (trade_sides X self p.input_mint).2 < u64_mod
    unfolding trade_sides
    destination-lt self p h = ground arith

    -- If the curve's documented bounds hold, a quote of a well-formed pool for a `u64` amount is
    -- what the curve's answer and the fee fraction give: one of the two texts of failure, or the
    -- curve's amounts with the sum of the two fees, and no conversion fails, nothing overflows and
    -- nothing panics.
    pub quote-eq-reference :
        (self : SplTokenSwapAmm X) (p : QuoteParams)
        → IsWellFormed X self
        → p.amount < u64_mod
        → quote X self p ≡ reference (curve_swap self p) (pool_fee_pct self) p
    unfolding quote
    quote-eq-reference self p h small =
        let (direction, source, destination) = trade_sides X self p.input_mint in
        let curve = self.state.swap_curve in
        let fees = self.state.fees in
        let out = destination-lt self p h in
        elim (Option-cases (curve_swap self p)) [
          | inl refused ↦ rw refused
          | inr (r, swapped) ↦ elim (Option-cases (pool_fee_pct self)) [
            | inl no_pct ↦ rw (swapped, no_pct)
            | inr (pct, has_pct) ↦
                rw (swapped, has_pct)
                  (ground (
                    arith,
                    L.source-le curve p.amount source destination direction fees r swapped,
                    L.fees-le curve p.amount source destination direction fees r swapped,
                    L.destination-le curve p.amount source destination direction fees r swapped,
                  ))
          ]
        ]

    -- If the curve's and the decimals' documented behaviour holds and the pool's fees are `u64`s,
    -- a quote of a well-formed pool for a `u64` amount fails only where the curve refuses the swap,
    -- with the text of a failed quote; else it is the curve's answer with a fee fraction.
    pub quote_total :
        DecimalLaws X
        → (self : SplTokenSwapAmm X) (p : QuoteParams) → IsWellFormed X self
        → FitsU64 X self.state.fees
        → p.amount < u64_mod
        → ((curve_swap self p ≡ none) × (quote X self p ≡ err (message "quote failed")))
          ⊎ ((r : CurveSwap) × (pct : X.Decimal) × (curve_swap self p ≡ some r)
              × (quote X self p ≡ ok (as_quote p r pct)))
    unfolding new
    quote_total D self p h fits small =
        let as_reference = quote-eq-reference self p h small in
        let (pct, has_pct) =
          fee_pct_total X D
            (new X self.state.fees.trade_fee_numerator self.state.fees.trade_fee_denominator
              self.state.fees.owner_trade_fee_numerator self.state.fees.owner_trade_fee_denominator)
            (record {
              trade_numerator_lt = fits.trade_numerator_lt;
              trade_denominator_lt = fits.trade_denominator_lt;
              owner_numerator_lt = fits.owner_numerator_lt;
              owner_denominator_lt = fits.owner_denominator_lt;
            }) in
        elim (Option-cases (curve_swap self p)) [
          | inl refused ↦ inl (refused, as_reference ∙ rw refused)
          | inr (r, swapped) ↦ inr (r, pct, swapped, as_reference ∙ rw (swapped, has_pct))
        ]

    reference-ne-panic :
        (r : Option CurveSwap) (pct : Option X.Decimal) (p : QuoteParams)
        → reference r pct p ≢ panic
    reference-ne-panic none pct p = λ e. cc
    reference-ne-panic (some r) none p = λ e. cc
    reference-ne-panic (some r) (some pct) p = λ e. cc

    -- A quote of a well-formed pool for a `u64` does not panic.
    pub quote-ne-panic :
        (self : SplTokenSwapAmm X) (p : QuoteParams)
        → IsWellFormed X self
        → p.amount < u64_mod
        → quote X self p ≢ panic
    quote-ne-panic self p h small e =
        reference-ne-panic (curve_swap self p) (pool_fee_pct self) p
          (sym (quote-eq-reference self p h small) ∙ e)
