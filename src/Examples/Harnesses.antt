-- ===== src/Examples/Harnesses.antt =====
-- The harness on the pool of `Pools`: one update after another, and the search for an amount.
use exponent_jupiter_amm_imp.Prelude.{ℕ, ◌≡◌, ◌⊎◌, refl, Option, some, List, [], ◌∷◌, arith}
use exponent_jupiter_amm_imp.Prelude.Result.{Result, ok, unwrap_result}
use exponent_jupiter_amm_imp.Solana.{Pubkey, Account, exact_in}
use exponent_jupiter_amm_imp.Constants.{usdc_mint, usdt_mint}
use exponent_jupiter_amm_imp.Amm.{Quote}
use exponent_jupiter_amm_imp.SplTokenSwap.Update.{update}
use exponent_jupiter_amm_imp.SplTokenSwap.Quoting.{quote}
use exponent_jupiter_amm_imp.SplTokenSwap.Quoting.Reference.{quote-ne-panic}
use exponent_jupiter_amm_imp.SplTokenSwap.Implementation.{spl_token_swap_amm}
use exponent_jupiter_amm_imp.Harness.Precise.{update_amm_precise, update_amm, update_rounds}
use exponent_jupiter_amm_imp.Harness.Precise.Agreement.{update_amm_precise-eq-update}
use exponent_jupiter_amm_imp.Harness.Precise.Rounds.{update_rounds_settle, update_amm_reads}
use exponent_jupiter_amm_imp.Harness.QuoteSearch.{find_quote}
use exponent_jupiter_amm_imp.Harness.QuoteSearch.Outcome.{Found, Exhausted, find_quote_outcome}
use exponent_jupiter_amm_imp.Examples.Libraries.{small, small-AccountDataLaws, small-SwapLaws}
use exponent_jupiter_amm_imp.Examples.Pools.{
  account, vaults, empty_pool, full_pool, full_pool-IsWellFormed,
}

update_amm_precise-eq-update_example :
    update_amm_precise small (spl_token_swap_amm small) vaults empty_pool
    ≡ update small vaults empty_pool
update_amm_precise-eq-update_example =
    update_amm_precise-eq-update small small-AccountDataLaws vaults empty_pool

update_rounds_settle_example :
    update_rounds small
      (spl_token_swap_amm small)
      3
      (update_amm_precise small (spl_token_swap_amm small) vaults)
      empty_pool
    ≡ (unwrap_result (update small vaults empty_pool).0, (update small vaults empty_pool).1)
update_rounds_settle_example = update_rounds_settle small small-AccountDataLaws 2 vaults empty_pool

abbrev node : List Pubkey → Result (List (Option Account))
node _ = ok (some (account (5_000_000 ∷ [])) ∷ some (account (4_000_000 ∷ [])) ∷ [])

update_amm_reads_example :
    update_amm small (spl_token_swap_amm small) node empty_pool ≡ (ok tt, full_pool)
update_amm_reads_example =
    update_amm_reads small small-AccountDataLaws node empty_pool (omega arith) refl refl refl

abbrev sell_usdc : ℕ → Result (Quote small)
sell_usdc n =
    quote small full_pool
      (record { amount = n; input_mint = usdc_mint; output_mint = usdt_mint; swap_mode = exact_in })

find_quote_outcome_example :
    Found sell_usdc 1_000_000 (find_quote sell_usdc 1_000_000)
    ⊎ Exhausted sell_usdc 1_000_000 (find_quote sell_usdc 1_000_000)
find_quote_outcome_example = find_quote_outcome sell_usdc 1_000_000 (λ n h.
    quote-ne-panic small small-SwapLaws full_pool
      (record { amount = n; input_mint = usdc_mint; output_mint = usdt_mint; swap_mode = exact_in })
      full_pool-IsWellFormed (omega arith))
