-- ===== src/Harness/Amounts.antt =====
-- The tables of mints and amounts: lines 53 to 75 of jupiter-core/src/amms/test_harness.rs.
use exponent_jupiter_amm_imp.Prelude.{ℕ, List, [], ◌∷◌}
use exponent_jupiter_amm_imp.Prelude.Dict.{Dict, from_iter, insert_entries}
use exponent_jupiter_amm_imp.Solana.{Pubkey}
use exponent_jupiter_amm_imp.Constants.{usdc_mint, usdt_mint, jitosol_mint, bsol_mint}

-- `native_mint` stands for `spl_token::native_mint::ID`.
abbrev pub token_mint_and_in_amount : Pubkey → List (Pubkey × ℕ)
token_mint_and_in_amount native_mint =
    (native_mint, 25_000_000_000)
    ∷ (jitosol_mint, 8_000_000_000)
    ∷ (bsol_mint, 100_000_000_000)
    ∷ (usdc_mint, 1_110_000_000)
    ∷ (usdt_mint, 1_110_000_000)
    ∷ []

abbrev pub token2022_mint_and_in_amount : List (Pubkey × ℕ)
token2022_mint_and_in_amount = []

abbrev pub token_mint_and_out_amount : List (Pubkey × ℕ)
token_mint_and_out_amount = []

-- The maps made of the tables.
unfoldable pub token_mint_to_in_amount : Pubkey → Dict ℕ
token_mint_to_in_amount native_mint =
    insert_entries (from_iter (token_mint_and_in_amount native_mint))
      (from_iter token2022_mint_and_in_amount)

unfoldable pub token_mint_to_out_amount : Dict ℕ
token_mint_to_out_amount = from_iter token_mint_and_out_amount
