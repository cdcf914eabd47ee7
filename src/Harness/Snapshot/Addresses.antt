-- ===== src/Harness/Snapshot/Addresses.antt =====
-- The accounts that a snapshot asks for: lines 780 to 812 of
-- jupiter-core/src/amms/test_harness.rs.
use exponent_jupiter_amm_imp.Prelude.{ℕ, false, none, List, [], ◌∷◌, map}
use exponent_jupiter_amm_imp.Prelude.Result.{Result, ok, ◌>>=◌, unwrap}
use exponent_jupiter_amm_imp.Prelude.Dict.{lookup}
use exponent_jupiter_amm_imp.Prelude.Sets.{put, put_all, remove}
use exponent_jupiter_amm_imp.Solana.{Pubkey, pubkey, exact_in}
use exponent_jupiter_amm_imp.Crates.{Crates}
use exponent_jupiter_amm_imp.Amm.{Amm, SwapParams}
use exponent_jupiter_amm_imp.Route.{get_token_mints_permutations}
use exponent_jupiter_amm_imp.Harness.Amounts.{token_mint_to_in_amount}

-- What a snapshot takes from elsewhere: a fresh key, `sysvar::clock::ID` and
-- `spl_token::native_mint::ID`.
pub record Keys : Type 0 where
  pub placeholder : Pubkey
  pub clock_id : Pubkey
  pub native_mint : Pubkey

module _ (X : Crates) (Z : Keys) where
  -- Both amounts are looked up under the source mint in the table of in-amounts.
  abbrev pub placeholder_params : Pubkey → Pubkey → ℕ → ℕ → SwapParams X
  placeholder_params source_mint destination_mint in_amount out_amount = record {
    swap_mode = exact_in;
    in_amount = in_amount;
    out_amount = out_amount;
    source_mint = source_mint;
    destination_mint = destination_mint;
    source_token_account = Z.placeholder;
    destination_token_account = Z.placeholder;
    token_transfer_authority = Z.placeholder;
    quote_mint_to_referrer = none;
    jupiter_program_id = Z.placeholder;
    missing_dynamic_accounts_as_default = false;
  }

  module _ (amm : Amm X) where
    -- The loop over the pairs of mints; it gives back the set.
    unfoldable pub swap_addresses :
        amm.Self → List (Pubkey × Pubkey) → List Pubkey → Result (List Pubkey)
    swap_addresses pool [] addresses = ok addresses
    swap_addresses pool ((source_mint, destination_mint) ∷ pairs) addresses = do
      in_amount ← unwrap (lookup source_mint (token_mint_to_in_amount Z.native_mint))
      out_amount ← unwrap (lookup source_mint (token_mint_to_in_amount Z.native_mint))
      leg ←
          amm.get_swap_and_account_metas pool
            (placeholder_params source_mint destination_mint in_amount out_amount)
      swap_addresses pool pairs (put_all (map pubkey leg.account_metas) addresses)

    unfoldable pub addresses_for_snapshot : amm.Self → Result (List Pubkey)
    addresses_for_snapshot pool = do
      pairs ← get_token_mints_permutations X amm pool
      from_swaps ← swap_addresses pool pairs []
      let all =
          put_all (amm.get_reserve_mints pool)
            (put_all (amm.get_accounts_to_update pool) from_swaps)
      ok (put Z.clock_id (remove Z.placeholder all))
