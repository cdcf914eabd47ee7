-- ===== src/Harness/TakeSnapshot/Deployed.antt =====
-- The steps of a snapshot that is taken of a pool on the chain.
use exponent_jupiter_amm_imp.Prelude.{
  ℕ, ◌≡◌, ◌≢◌, ap, sym, map, ◌∙◌, true, false, Option, none, some, List, [], ◌∷◌, String, is_some,
  arith,
}
use exponent_jupiter_amm_imp.Prelude.Result.{Result, ok, unwrap_result}
use exponent_jupiter_amm_imp.Prelude.Sets.{member}
use exponent_jupiter_amm_imp.Solana.{Pubkey, Account}
use exponent_jupiter_amm_imp.Crates.{Crates, AccountDataLaws}
use exponent_jupiter_amm_imp.SplTokenSwap.Pool.{SplTokenSwapAmm, get_accounts_to_update}
use exponent_jupiter_amm_imp.SplTokenSwap.Pool.Build.{from_keyed_account_keeps}
use exponent_jupiter_amm_imp.SplTokenSwap.Implementation.{spl_token_swap_amm}
use exponent_jupiter_amm_imp.Loader.Branches.{amm_factory_built}
use exponent_jupiter_amm_imp.Route.Pairs.{ItertoolsLaws}
use exponent_jupiter_amm_imp.Harness.Precise.{fetched, update_amm}
use exponent_jupiter_amm_imp.Harness.Precise.Rounds.{update_from, update_rounds_fixed}
use exponent_jupiter_amm_imp.Harness.Directories.{FileSystem, directory_name, put_directory, here}
use exponent_jupiter_amm_imp.Harness.Directories.Places.{at_directory_plain, fits-here}
use exponent_jupiter_amm_imp.Harness.Snapshot.Addresses.{Keys}
use exponent_jupiter_amm_imp.Harness.Snapshot.Files.{Formats, snapshot_amm_accounts}
use exponent_jupiter_amm_imp.Harness.Snapshot.Contents.{kept, plain, FormatLaws}
use exponent_jupiter_amm_imp.Harness.Snapshot.Restoring.{
  addresses_for_snapshot_lem, directory_of, snapshot_writes, lookup-fetched,
}
use exponent_jupiter_amm_imp.Harness.Snapshot.RoundTrip.{update_from_chain}
use exponent_jupiter_amm_imp.Harness.Client.{
  Client, Remote, get_clock, get_clock_ref, get_amm_context, fetch_pool,
}
use exponent_jupiter_amm_imp.Harness.TakeSnapshot.{update_and_snapshot}
use exponent_jupiter_amm_imp.Harness.TakeSnapshot.Chain.{Answers, RemoteLaws, Stands, IsDeployed}

module _ (X : Crates) (F : Formats X) (N : Remote X) (Z : Keys) where
  pub kept-Stands :
      (chain : Pubkey → Option Account) (k : Pubkey) (a : Account)
      → Stands Z chain k a
      → kept (chain k) ≡ some a
  kept-Stands chain k a (found, plain, _) = rw (found, plain)

  pub fetch_pool-built :
      RemoteLaws X N
      → (client : Client) (chain : Pubkey → Option Account) → Answers client chain
      → (k : Pubkey) (a : Account) (pool : SplTokenSwapAmm X) (clock : N.Clock) (n : ℕ × ℕ)
      → IsDeployed X N Z chain k a pool clock n
      → (amm_id : String) → N.from_str amm_id ≡ ok k
      → fetch_pool X N Z.clock_id client k amm_id
        ≡ ok (
          record { key = k; account = a; params = none },
          record { amm = spl_token_swap_amm X; value = pool },
        )
  unfolding fetch_pool get_amm_context get_clock_ref get_clock
  fetch_pool-built V client chain A k a pool clock n D amm_id parsed =
      let (c, clock_found, _, clock_read) = D.clock_account in
      rw (
        A.get_account_with_commitment-eq Z.clock_id,
        clock_found,
        clock_read,
        A.get_account-eq k a (D.stands.0),
        V.try_into-encode_ui_account amm_id k a parsed,
        amm_factory_built X (record { key = k; account = a; params = none })
            (N.amm_context (N.clock_ref_from clock)) [] D.made,
      )

  update_amm-deployed :
      AccountDataLaws X
      → (client : Client) (chain : Pubkey → Option Account) → Answers client chain
      → (k : Pubkey) (a : Account) (pool : SplTokenSwapAmm X) (clock : N.Clock) (n r : ℕ × ℕ)
      → IsDeployed X N Z chain k a pool clock n
      → update_amm X
          (spl_token_swap_amm X)
          client.get_multiple_accounts
          (record pool { reserves = r })
        ≡ (ok tt, record pool { reserves = n })
  unfolding get_accounts_to_update
  update_amm-deployed L client chain A k account pool clock n r D =
      let (a, stands_a, unpacked_a) = D.vault_a in
      let (b, stands_b, unpacked_b) = D.vault_b in
      let ka = pool.state.token_a in
      let kb = pool.state.token_b in
      let keep_a = kept-Stands chain ka a stands_a ∙ sym (stands_a.0) in
      let keep_b = kept-Stands chain kb b stands_b ∙ sym (stands_b.0) in
      let found_a =
        lookup-fetched chain ka ka kb keep_a keep_b (ground arith)
        ∙ kept-Stands chain ka a stands_a in
      let found_b =
        lookup-fetched chain kb ka kb keep_a keep_b (ground arith)
        ∙ kept-Stands chain kb b stands_b in
      let self : SplTokenSwapAmm X = record pool { reserves = r } in
      let m = fetched (map chain (ka ∷ kb ∷ [])) (ka ∷ kb ∷ []) [] in
      update_from_chain X F client.get_multiple_accounts chain self A.get_multiple_accounts-eq
      ∙ ap (λ (o : Result (Unit {0}) × SplTokenSwapAmm X). (unwrap_result o.0, o.1))
          (update_from X L m self a b n.0 n.1 found_a found_b unpacked_a unpacked_b)

  pub update_and_snapshot-deployed :
      AccountDataLaws X
      → ItertoolsLaws X
      → (W : FormatLaws X F) → X.default_unidirectional ≡ false
      → (client : Client) (chain : Pubkey → Option Account) → Answers client chain
      → (k : Pubkey) (a : Account) (pool : SplTokenSwapAmm X) (clock : N.Clock) (n : ℕ × ℕ)
      → IsDeployed X N Z chain k a pool clock n
      → (option : Option String)
      → let name = directory_name X k option in
        plain name ≡ true
        → (ks : List Pubkey) × ((fs : FileSystem X F)
            → W.HasRoot fs
            → update_and_snapshot X F N Z
                (record { client = client; key = k; option = option })
                none
                (is_some (fs name))
                (record { amm = spl_token_swap_amm X; value = pool })
                fs
              ≡ (ok tt, put_directory X F name (some (directory_of X F none chain ks)) fs))
          × ((j : Pubkey)
              → j ≢ Z.placeholder
              → member j (k ∷ get_accounts_to_update X pool) ≡ true
              → member j ks ≡ true)
          × (member Z.clock_id ks ≡ true)
  unfolding get_accounts_to_update
  update_and_snapshot-deployed L I W both client chain A k a pool clock n D option simple =
      let self : SplTokenSwapAmm X = record pool { reserves = n } in
      let name = directory_name X k option in
      let same : pool.key ≡ k = (from_keyed_account_keeps X _ _ D.made).0 in
      let (ks, asked, has, has_clock) =
        addresses_for_snapshot_lem X Z I self both D.amount_a.1 D.amount_b.1 in
      let updated =
        update_rounds_fixed X (spl_token_swap_amm X)
          (update_amm X (spl_token_swap_amm X) client.get_multiple_accounts) 2 pool self
          (update_amm-deployed L client chain A k a pool clock n pool.reserves D)
          (update_amm-deployed L client chain A k a pool clock n n D) in
      let written = λ (fs : FileSystem X F) (root : W.HasRoot fs).
        at_directory_plain X F name
          (snapshot_amm_accounts X F Z client.get_multiple_accounts (spl_token_swap_amm X) self none
            (is_some (fs name)))
          fs (W.resolve-plain fs name root simple)
          (snapshot_writes X F W Z client.get_multiple_accounts self none chain ks
            (is_some (fs name)) (here X F (fs name)) (fits-here X F (fs name)) asked
            (A.get_multiple_accounts-eq ks)) in
      (
        ks,
        λ fs root. rw updated (written fs root),
        λ j differ listed. has j differ (ground (arith, same, listed)),
        has_clock,
      )
