-- ===== src/Harness/Snapshot/Restoring.antt =====
-- The steps from a snapshot that is made to the accounts that are read from it.
use exponent_jupiter_amm_imp.Prelude.{
  Bool, inl, inr, Bool-cases, ==_iff, ◌==◌, subst, ℕ, ◌≡◌, ◌≢◌, refl, ap, ◌∙◌, true, false, Option,
  none, some, List, [], ◌∷◌, map, arith, map_option,
}
use exponent_jupiter_amm_imp.Prelude.Result.{Result, ok, unwrap_result}
use exponent_jupiter_amm_imp.Prelude.Stateful.{Method, ◌>>=◌, ◌>>◌, lift, >>=_called}
use exponent_jupiter_amm_imp.Prelude.Dict.{Dict, lookup, from_iter}
use exponent_jupiter_amm_imp.Prelude.Sets.{
  member, put, put_all, remove, member-put, member-put_all_new, member-put_all_old, member-remove,
  member-put_same,
}
use exponent_jupiter_amm_imp.Solana.{Pubkey, Account, AccountMap, pubkey}
use exponent_jupiter_amm_imp.Crates.{Crates}
use exponent_jupiter_amm_imp.Amm.{SwapParams, SwapAndAccountMetas}
use exponent_jupiter_amm_imp.SplTokenSwap.Pool.{
  SplTokenSwapAmm, get_accounts_to_update, get_reserve_mints,
}
use exponent_jupiter_amm_imp.TokenSwapMetas.{to_metas}
use exponent_jupiter_amm_imp.SplTokenSwap.Metas.{get_swap_and_account_metas}
use exponent_jupiter_amm_imp.SplTokenSwap.Implementation.{spl_token_swap_amm}
use exponent_jupiter_amm_imp.Route.Pairs.{ItertoolsLaws}
use exponent_jupiter_amm_imp.Route.Listing.{get_token_mints_permutations_of_pool}
use exponent_jupiter_amm_imp.Harness.Amounts.{token_mint_to_in_amount}
use exponent_jupiter_amm_imp.Harness.Precise.{fetched}
use exponent_jupiter_amm_imp.Harness.Snapshot.Addresses.{
  Keys, placeholder_params, swap_addresses, addresses_for_snapshot,
}
use exponent_jupiter_amm_imp.Harness.Snapshot.Files.{
  Formats, Directory, Place, no_parent, vacant, directory, in_directory, create_params,
  create_accounts, with_accounts, snapshot_amm_accounts, load_accounts_snapshot,
}
use exponent_jupiter_amm_imp.Harness.Snapshot.Refusing.{fits}
use exponent_jupiter_amm_imp.Harness.Snapshot.Contents.{
  FormatLaws, kept, collected, lookup-collected_onto, or_entry-none, insert_kept, texts,
  create_accounts-texts, load_accounts-texts,
}

module _ (X : Crates) (Z : Keys) where
  -- The metas of a swap name the pool itself.
  metas_leg :
      (pool : SplTokenSwapAmm X) (p : SwapParams X)
      → (leg : SwapAndAccountMetas X) × (get_swap_and_account_metas X pool p ≡ ok leg)
        × (member pool.key (map pubkey leg.account_metas) ≡ true)
  unfolding get_swap_and_account_metas to_metas
  metas_leg pool p = (_, refl, ground arith)

  swap_addresses_step :
      (pool : SplTokenSwapAmm X) (a b : Pubkey) {x : ℕ} (pairs : List (Pubkey × Pubkey))
      (addresses : List Pubkey)
      → lookup a (token_mint_to_in_amount Z.native_mint) ≡ some x
      → (more : List Pubkey) × (swap_addresses X Z
            (spl_token_swap_amm X)
            pool
            ((a, b) ∷ pairs)
            addresses
          ≡ swap_addresses X Z (spl_token_swap_amm X) pool pairs more)
        × (member pool.key more ≡ true)
  unfolding swap_addresses
  swap_addresses_step pool a b {x} pairs addresses has =
      let (leg, got, named) = metas_leg pool (placeholder_params X Z a b x x) in
      let keys = map pubkey leg.account_metas in
      (
        put_all keys addresses,
        rw (swap_addresses, has, got),
        member-put_all_new pool.key keys addresses named,
      )

  swap_addresses_end :
      (pool : SplTokenSwapAmm X) (addresses : List Pubkey)
      → swap_addresses X Z (spl_token_swap_amm X) pool [] addresses ≡ ok addresses
  unfolding swap_addresses
  swap_addresses_end pool addresses = refl

  -- The addresses of a token swap pool's snapshot, if the table has its mints, have the pool, its
  -- vaults and the clock.
  pub addresses_for_snapshot_lem :
      ItertoolsLaws X
      → (pool : SplTokenSwapAmm X) {x y : ℕ} → X.default_unidirectional ≡ false
      → lookup pool.reserve_mints.0 (token_mint_to_in_amount Z.native_mint) ≡ some x
      → lookup pool.reserve_mints.1 (token_mint_to_in_amount Z.native_mint) ≡ some y
      → (ks : List Pubkey) × (addresses_for_snapshot X Z (spl_token_swap_amm X) pool ≡ ok ks)
        × ((k : Pubkey)
            → k ≢ Z.placeholder
            → member k (pool.key ∷ get_accounts_to_update X pool) ≡ true
            → member k ks ≡ true)
        × (member Z.clock_id ks ≡ true)
  unfolding addresses_for_snapshot
  addresses_for_snapshot_lem I pool both has_a has_b =
      let (m0, m1) = pool.reserve_mints in
      let (s1, first, _) = swap_addresses_step pool m0 m1 ((m1, m0) ∷ []) [] has_a in
      let (s2, second, own) = swap_addresses_step pool m1 m0 [] s1 has_b in
      let done = swap_addresses_end pool s2 in
      let accounts = get_accounts_to_update X pool in
      let vaults = put_all accounts s2 in
      let all = put_all (get_reserve_mints X pool) vaults in
      let rest = remove Z.placeholder all in
      (
        put Z.clock_id rest,
        rw (get_token_mints_permutations_of_pool X I pool both, first ∙ second ∙ done),
        λ k differ listed. member-put k Z.clock_id rest (
            member-remove k Z.placeholder all differ (
              member-put_all_old k (get_reserve_mints X pool) vaults
                (elim (Bool-cases (pool.key == k)) [
                  | inl same ↦
                      member-put_all_old k accounts s2
                        (subst (λ n. member n s2 ≡ true) ((==_iff pool.key k).0 same) own)
                  | inr other ↦ member-put_all_new k accounts s2 (ground (arith, other, listed))
                ]))),
        member-put_same Z.clock_id rest,
      )

module _ (X : Crates) (F : Formats X) where
  -- The directory of a snapshot: the accounts of its addresses on the chain, and the parameters.
  abbrev pub directory_of :
      Option X.Params → (Pubkey → Option Account) → List Pubkey → Directory X F
  directory_of params chain ks = record {
    accounts = texts X F (collected chain ks []);
    params = map_option F.write_params params;
  }

  module _ (L : FormatLaws X F) where
    written :
        (params : Option X.Params)
        → in_directory X F
            (create_params X F params)
            (directory (record { accounts = []; params = none }))
          ≡ (ok tt, directory (record { accounts = []; params = map_option F.write_params params }))
    written none = refl
    written (some v) = rw (create_params, L.create_file-ok (F.write_params v)) refl

    -- The parameters and the accounts are written into the directory that was just made.
    filled :
        (node : List Pubkey → Result (List (Option Account))) (params : Option X.Params)
        (chain : Pubkey → Option Account) (ks : List Pubkey)
        → node ks ≡ ok (map chain ks)
        → (in_directory X F (create_params X F params)
              >> (lift (unwrap_result (node ks)) >>= λ accounts.
                  in_directory X F (with_accounts X F (create_accounts X F accounts ks))))
            (directory (record { accounts = []; params = none }))
          ≡ (ok tt, directory (directory_of params chain ks))
    filled node params chain ks answered =
        >>=_called (in_directory X F (create_params X F params))
          (λ _. lift (unwrap_result (node ks)) >>= λ accounts.
            in_directory X F (with_accounts X F (create_accounts X F accounts ks)))
          (directory (record { accounts = []; params = none })) (written params)
        ∙ rw answered (
            ap
              (λ (r : Result (Unit {0}) × Dict F.Text). (
                r.0,
                directory (record { accounts = r.1; params = map_option F.write_params params }),
              ))
              (create_accounts-texts X F L chain ks []))

    -- A snapshot whose `force` fits the place ends with the directory of its addresses.
    pub snapshot_writes :
        (Z : Keys) (node : List Pubkey → Result (List (Option Account))) (pool : SplTokenSwapAmm X)
        (params : Option X.Params) (chain : Pubkey → Option Account) (ks : List Pubkey)
        (force : Bool) (place : Place X F)
        → fits X F force place ≡ true
        → addresses_for_snapshot X Z (spl_token_swap_amm X) pool ≡ ok ks
        → node ks ≡ ok (map chain ks)
        → snapshot_amm_accounts X F Z node (spl_token_swap_amm X) pool params force place
          ≡ (ok tt, directory (directory_of params chain ks))
    unfolding snapshot_amm_accounts
    snapshot_writes Z node pool params chain ks true no_parent fit asked answered = absurd cc
    snapshot_writes Z node pool params chain ks true vacant fit asked answered = absurd cc
    snapshot_writes Z node pool params chain ks false no_parent fit asked answered = absurd cc
    snapshot_writes Z node pool params chain ks false (directory d) fit asked answered = absurd cc
    snapshot_writes Z node pool params chain ks false vacant fit asked answered =
        rw asked (filled node params chain ks answered)
    snapshot_writes Z node pool params chain ks true (directory d) fit asked answered =
        rw asked (filled node params chain ks answered)

    pub load_written :
        (params : Option X.Params) (chain : Pubkey → Option Account) (ks : List Pubkey)
        → load_accounts_snapshot X F (ok (directory_of params chain ks).accounts)
          ≡ ok (from_iter (collected chain ks []))
    unfolding load_accounts_snapshot
    load_written params chain ks = load_accounts-texts X F L (collected chain ks []) []

pub kept_all :
    (o : Option Account) → ((a : Account) → o ≡ some a → a.executable ≡ false) → kept o ≡ o
kept_all none h = refl
kept_all (some a) h = ground (arith, h a refl)

fetched_kept :
    (o : Option Account) (answers : List (Option Account)) (k : Pubkey) (ks : List Pubkey)
    (m : AccountMap)
    → fetched (o ∷ answers) (k ∷ ks) m ≡ fetched answers ks (insert_kept k o m)
unfolding fetched
fetched_kept none answers k ks m = refl
fetched_kept (some a) answers k ks m = refl

-- The map of two answers holds each, if neither is a program.
pub lookup-fetched :
    (chain : Pubkey → Option Account) (j a b : Pubkey)
    → kept (chain a) ≡ chain a
    → kept (chain b) ≡ chain b
    → member j (a ∷ b ∷ []) ≡ true
    → lookup j (fetched (map chain (a ∷ b ∷ [])) (a ∷ b ∷ []) []) ≡ kept (chain j)
unfolding fetched
lookup-fetched chain j a b keep_a keep_b listed =
    ap (lookup j) (
      fetched_kept (chain a) (chain b ∷ []) a (b ∷ []) []
      ∙ fetched_kept (chain b) [] b [] (insert_kept a (chain a) []))
    ∙ rw (← keep_a, ← keep_b)
        (lookup-collected_onto chain j (a ∷ b ∷ []) []
          ∙ rw (listed, or_entry-none (kept (chain j))))

pub finish : {S : Type 0} (call : Method S (Unit {0})) (s : S) → (call >> lift (ok tt)) s ≡ call s
finish call s = ground arith
