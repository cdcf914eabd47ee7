-- ===== src/Math/Fees/Pct.antt =====
-- `fee_pct` gives a fraction for every pool.
use exponent_jupiter_amm_imp.Prelude.{ℕ, ◌<◌, ◌≡◌, some, arith, ltb, ltb→lt, Bool-cases, inl, inr}
use exponent_jupiter_amm_imp.Prelude.Result.{u64_mod}
use exponent_jupiter_amm_imp.Crates as C
use exponent_jupiter_amm_imp.Crates.{Crates}
use exponent_jupiter_amm_imp.Math.Fees.{Fees, pct, fee_pct}

-- A `Decimal` holds every `u64`, a quotient of two of them by one that is not 0, and the sum of
-- two values in that range. `IsSmall` is the range, from 0 to the largest `u64`.
pub record DecimalLaws (X : Crates) : Type 1 where
  pub IsSmall : X.Decimal → Type 0
  pub zero-IsSmall : IsSmall X.decimal_zero
  pub from_u64_total : (n : ℕ) → n < u64_mod → (d : X.Decimal) × (X.from_u64 n ≡ some d)
  pub checked_div_total :
      (n m : ℕ) (a b : X.Decimal)
      → n < u64_mod
      → m < u64_mod
      → 0 < m
      → X.from_u64 n ≡ some a
      → X.from_u64 m ≡ some b
      → (q : X.Decimal) × (X.checked_div a b ≡ some q) × IsSmall q
  pub checked_add_total :
      (a b : X.Decimal) → IsSmall a → IsSmall b → (c : X.Decimal) × (X.checked_add a b ≡ some c)

-- The four numbers that `fee_pct` reads are `u64`s.
pub record FitsU64 (X : Crates) (f : C.Fees X) : Type 0 where
  pub trade_numerator_lt : f.trade_fee_numerator < u64_mod
  pub trade_denominator_lt : f.trade_fee_denominator < u64_mod
  pub owner_numerator_lt : f.owner_trade_fee_numerator < u64_mod
  pub owner_denominator_lt : f.owner_trade_fee_denominator < u64_mod

module _ (X : Crates) (L : DecimalLaws X) where
  pct_total :
      (n m : ℕ) → n < u64_mod → m < u64_mod → (q : X.Decimal) × (pct X n m ≡ some q) × L.IsSmall q
  unfolding pct
  pct_total n m hn hm = elim (Bool-cases (ltb 0 m)) [
    | inl nonzero ↦
        let (a, ea) = L.from_u64_total n hn in
        let (b, eb) = L.from_u64_total m hm in
        let (q, eq, small) = L.checked_div_total n m a b hn hm (ltb→lt 0 m nonzero) ea eb in
        (q, rw (nonzero, ea, eb) eq, small)
    | inr is_zero ↦ (X.decimal_zero, rw is_zero, L.zero-IsSmall)
  ]

  -- If decimals are as documented, the fee of a pool whose numbers are `u64`s can always be written
  -- as a fraction, also where a denominator is 0: `fee_pct` gives `Some`.
  pub fee_pct_total :
      (self : Fees X) → FitsU64 X self.inner → (d : X.Decimal) × (fee_pct X self ≡ some d)
  unfolding fee_pct
  fee_pct_total self h =
      let f = self.inner in
      let (a, ea, sa) =
        pct_total f.trade_fee_numerator f.trade_fee_denominator h.trade_numerator_lt
          h.trade_denominator_lt in
      let (b, eb, sb) =
        pct_total f.owner_trade_fee_numerator f.owner_trade_fee_denominator h.owner_numerator_lt
          h.owner_denominator_lt in
      let (c, ec) = L.checked_add_total a b sa sb in (c, ground (arith, ea, eb, ec))
