-- ===== src/Harness/Verdict.antt =====
-- What a simulated swap is compared with: lines 300 to 375 of
-- jupiter-core/src/amms/test_harness.rs.
pub mod Meaning
use exponent_jupiter_amm_imp.Prelude.{
  ℕ, zero, suc, ◌+◌, ◌-◌, Bool, Option, none, some, [], ◌∷◌, leb, ◌==◌, if◌then◌else◌,
}
use exponent_jupiter_amm_imp.Prelude.Result.{
  Error, Result, ok, err, panic, unwrap, unwrap_result, assert, ◌>>=◌, ◌>>◌,
}
use exponent_jupiter_amm_imp.Solana.{SwapMode, exact_in, exact_out}
use exponent_jupiter_amm_imp.Crates.{Crates}
use exponent_jupiter_amm_imp.Amm.{Quote}
use exponent_jupiter_amm_imp.Harness.Bank.{Bank}
use exponent_jupiter_amm_imp.Harness.QuoteSearch.{Search}
use exponent_jupiter_amm_imp.Harness.Simulation.{AmmTestSwapParams}

abbrev pub checked_sub : ℕ → ℕ → Option ℕ
checked_sub a b = if leb b a then some (a - b) else none

-- `(a as i128 - b as i128).abs()`
abbrev pub abs_diff : ℕ → ℕ → ℕ
abs_diff a b = a - b + (b - a)

-- The balances of the user's two token accounts.
pub record Balances : Type 0 where
  pub source_before : ℕ
  pub source_after : ℕ
  pub destination_before : ℕ
  pub destination_after : ℕ

-- A quote or anything else, as often as the benchmark makes it.
abbrev pub repeat : ℕ → Result (Unit {0}) → Result (Unit {0})
repeat zero call = ok tt
repeat (suc iterations) call = let rest = repeat iterations call in call >> rest

module _ (X : Crates) (K : Bank) where
  -- The branch for an expected error.
  unfoldable pub expects : Error → Option Error → Result (Unit {0}) → Result (Unit {0})
  expects expected_error quote_err process_transaction_result = unwrap quote_err >>= λ found.
      elim (K.downcast_ref expected_error) [
        | some error ↦ unwrap (K.downcast_ref found) >>= λ quote_error.
            assert (K.same_anchor_error error quote_error)
        | none ↦ assert (K.same_text expected_error found)
      ]
      >> elim process_transaction_result [ ok _ ↦ panic | err _ ↦ ok tt | panic ↦ panic ]

  -- The comparison of a quote with what the user's accounts lost and gained.
  unfoldable pub compare : SwapMode → ℕ → ℕ → Quote X → ℕ → ℕ → Result (Unit {0})
  compare exact_in tolerance amount quote lost gained =
      assert (leb (abs_diff quote.out_amount gained) tolerance)
  compare exact_out tolerance amount quote lost gained =
      assert (leb (abs_diff quote.in_amount lost) tolerance) >> assert (amount == gained)

  -- What follows the transaction.
  unfoldable pub verdict :
      (ℕ → Result (Quote X))
      → AmmTestSwapParams
      → Search (Quote X)
      → Balances
      → Result (Unit {0})
      → Result (Unit {0})
  verdict quote_of p s b process_transaction_result =
      unwrap (checked_sub b.source_before b.source_after) >>= λ lost.
      unwrap (checked_sub b.destination_after b.destination_before) >>= λ gained.
      elim p.expected_error [
        | some expected_error ↦ expects expected_error s.quote_err process_transaction_result
        | none ↦
            unwrap_result process_transaction_result
            >> (unwrap s.quote_result >>= λ quote.
                compare p.swap_mode p.tolerance s.amount quote lost gained
                >> repeat 100 (unwrap_result (quote_of s.amount) >> ok tt))
      ]
