-- ===== src/Harness/Snapshot/RoundTrip.antt =====
-- A pool that is updated from its snapshot, beside one that is updated from the chain.
use exponent_jupiter_amm_imp.Prelude.{◌≡◌, ap, ◌∙◌, Option, List, [], map}
use exponent_jupiter_amm_imp.Prelude.Result.{Result, ok, unwrap_result}
use exponent_jupiter_amm_imp.Prelude.Dict.{Dict}
use exponent_jupiter_amm_imp.Solana.{Pubkey, Account, AccountMap}
use exponent_jupiter_amm_imp.Crates.{Crates, AccountDataLaws}
use exponent_jupiter_amm_imp.SplTokenSwap.Pool.{SplTokenSwapAmm, get_accounts_to_update}
use exponent_jupiter_amm_imp.SplTokenSwap.Update.{update}
use exponent_jupiter_amm_imp.SplTokenSwap.Implementation.{spl_token_swap_amm}
use exponent_jupiter_amm_imp.Harness.Precise.{update_amm, update_amm_precise, fetched, unwrapped}
use exponent_jupiter_amm_imp.Harness.Precise.Agreement.{update_amm_precise-eq-update}
use exponent_jupiter_amm_imp.Harness.Snapshot.Files.{
  Formats, load_accounts_snapshot, update_amm_from_snapshot,
}
use exponent_jupiter_amm_imp.Harness.Snapshot.Restoring.{finish}

module _ (X : Crates) (F : Formats X) where
  pub update_from_loaded :
      AccountDataLaws X
      → (d : Result (Dict F.Text)) (m : AccountMap) (pool : SplTokenSwapAmm X)
      → load_accounts_snapshot X F d ≡ ok m
      → update_amm_from_snapshot X F d (spl_token_swap_amm X) pool
        ≡ (unwrap_result (update X m pool).0, (update X m pool).1)
  unfolding update_amm_from_snapshot
  update_from_loaded L d m pool loaded = rw loaded (
      finish (unwrapped X (spl_token_swap_amm X) (update_amm_precise X (spl_token_swap_amm X) m))
        pool
      ∙ ap (λ r. (unwrap_result r.0, r.1)) (update_amm_precise-eq-update X L m pool))

  pub update_from_chain :
      (node : List Pubkey → Result (List (Option Account))) (chain : Pubkey → Option Account)
      (pool : SplTokenSwapAmm X)
      → ((ks : List Pubkey) → node ks ≡ ok (map chain ks))
      → let ks = get_accounts_to_update X pool in
        let m = fetched (map chain ks) ks [] in
        update_amm X (spl_token_swap_amm X) node pool
        ≡ (unwrap_result (update X m pool).0, (update X m pool).1)
  unfolding update_amm
  update_from_chain node chain pool answered = rw (answered (get_accounts_to_update X pool))
