-- ===== src/TestAmms/Taken.antt =====
-- The tests of a pool from the snapshot that `take_snapshot` has just made of it.
use exponent_jupiter_amm_imp.Prelude.{
  ℕ, ◌≡◌, ◌≢◌, ◌↔◌, ap, sym, ◌∙◌, true, false, Option, none, some, String, [], ◌∷◌, is_some,
  unwrap_or, arith,
}
use exponent_jupiter_amm_imp.Prelude.Result.{Result, ok, unwrap_result, unwrap_result-eq-ok}
use exponent_jupiter_amm_imp.Prelude.Dict.{Dict}
use exponent_jupiter_amm_imp.Prelude.Stateful.{◌>>◌, lift, lift-eq-ok}
use exponent_jupiter_amm_imp.Solana.{Pubkey, Account, AccountMap}
use exponent_jupiter_amm_imp.Crates.{Crates, AccountDataLaws}
use exponent_jupiter_amm_imp.SplTokenSwap.Pool.{SplTokenSwapAmm, from_keyed_account}
use exponent_jupiter_amm_imp.SplTokenSwap.Update.{update}
use exponent_jupiter_amm_imp.SplTokenSwap.Implementation.{spl_token_swap_amm}
use exponent_jupiter_amm_imp.Route.Pairs.{ItertoolsLaws}
use exponent_jupiter_amm_imp.Route.Listing.{get_token_mints_permutations_of_pool}
use exponent_jupiter_amm_imp.Jupiter.Wire.{Anchor}
use exponent_jupiter_amm_imp.Harness.Bank.{Bank}
use exponent_jupiter_amm_imp.Harness.Precise.{update_amm_precise, unwrapped}
use exponent_jupiter_amm_imp.Harness.Setup.{Tokens}
use exponent_jupiter_amm_imp.Harness.Setup.Wallets.{Starts}
use exponent_jupiter_amm_imp.Harness.Directories.{FileSystem, directory_name, put_directory}
use exponent_jupiter_amm_imp.Harness.Snapshot.Addresses.{Keys}
use exponent_jupiter_amm_imp.Harness.Snapshot.Files.{
  Formats, load_accounts_snapshot, update_amm_from_snapshot,
}
use exponent_jupiter_amm_imp.Harness.Snapshot.RoundTrip.{update_from_loaded}
use exponent_jupiter_amm_imp.Harness.Snapshot.Contents.{FormatLaws, plain}
use exponent_jupiter_amm_imp.Harness.Client.{Remote}
use exponent_jupiter_amm_imp.Harness.TakeSnapshot.{take_snapshot}
use exponent_jupiter_amm_imp.Harness.TakeSnapshot.Chain.{Answers, RemoteLaws, IsDeployed}
use exponent_jupiter_amm_imp.Harness.TakeSnapshot.Restored.{take_snapshot_restores}
use exponent_jupiter_amm_imp.Harness.Loading.Building.{Builders}
use exponent_jupiter_amm_imp.TestAmms.{Quoting}
use exponent_jupiter_amm_imp.TestAmms.Loop.{EachAlone}
use exponent_jupiter_amm_imp.TestAmms.Alone.{tests_iff_alone}
use exponent_jupiter_amm_imp.TestAmms.Key.{test_quoting_for_amm_key}

module _ (X : Crates) (F : Formats X) (L : AccountDataLaws X) where
  -- What an update from a snapshot that succeeded has read.
  update_amm_from_snapshot-eq-ok :
      (d : Result (Dict F.Text)) (pool self : SplTokenSwapAmm X)
      → update_amm_from_snapshot X F d (spl_token_swap_amm X) pool ≡ (ok tt, self)
      → (m : AccountMap) × (load_accounts_snapshot X F d ≡ ok m) × (update X m pool ≡ (ok tt, self))
  unfolding update_amm_from_snapshot
  update_amm_from_snapshot-eq-ok d pool self done =
      let (m, loaded, _) =
        lift-eq-ok (load_accounts_snapshot X F d)
          (λ m.
            unwrapped X (spl_token_swap_amm X) (update_amm_precise X (spl_token_swap_amm X) m)
            >> lift (ok tt))
          pool done in
      let both : (unwrap_result (update X m pool).0, (update X m pool).1) ≡ (ok tt, self) =
        sym (update_from_loaded X F L d m pool loaded) ∙ done in
      let returned =
        unwrap_result-eq-ok (update X m pool).0
          (ap (λ (o : Result (Unit {0}) × SplTokenSwapAmm X). o.0) both) in
      let state = ap (λ (o : Result (Unit {0}) × SplTokenSwapAmm X). o.1) both in
      (m, loaded, ground (arith, returned, state))

module _ (X : Crates) (K : Bank) (T : Tokens K) (B : Starts K) (P : Builders K) (N : Anchor X)
    (F : Formats X) (keypairs : ℕ → Pubkey) (C : Remote X) (Z : Keys) where
  -- A snapshot that is taken of a token swap pool on the chain can be tested at once: the tests of
  -- its key, from the files that were just written, pass exactly if there is a pair of mints at all
  -- and the simulated swap of each pair passes when it is run alone on the pool as it is built from
  -- the chain; with no pairs given these are both ways between its two mints. This is so under the
  -- conditions of `take_snapshot_restores`, if no closure changes the accounts.
  pub taken_tests_iff_alone :
      AccountDataLaws X
      → ItertoolsLaws X
      → (W : FormatLaws X F) → RemoteLaws X C
      → X.default_unidirectional ≡ false
      → (rpc_url amm_id : String) (option : Option String) (chain : Pubkey → Option Account)
        (k : Pubkey) (a : Account) (pool : SplTokenSwapAmm X) (clock : C.Clock) (n : ℕ × ℕ)
      → Answers (C.new_client rpc_url) chain
      → C.from_str amm_id ≡ ok k
      → IsDeployed X C Z chain k a pool clock n
      → (Q : Quoting (SplTokenSwapAmm X)) → Q.before_test_setup ≡ none
      → (fs : FileSystem X F) → W.HasRoot fs
      → let name = directory_name X k option in
        plain name ≡ true
        → let (mint_a, mint_b) = pool.reserve_mints in
          let pairs =
            unwrap_or Q.restricted_mint_permutations ((mint_a, mint_b) ∷ (mint_b, mint_a) ∷ []) in
          (files : FileSystem X F) × (take_snapshot X F C Z rpc_url amm_id option
              (is_some (fs name))
              fs
            ≡ (ok tt, files))
          × ((test_quoting_for_amm_key X K T B P N F keypairs C Z
                  (spl_token_swap_amm X)
                  (from_keyed_account X)
                  Q
                  files
                  k
                  option
                ≡ ok tt)
              ↔ ((pairs ≢ [])
                  × EachAlone X K T B P N F keypairs
                      (spl_token_swap_amm X)
                      Q
                      (F.glob files name)
                      pool
                      0
                      pairs))
  unfolding test_quoting_for_amm_key
  taken_tests_iff_alone L I W V both rpc_url amm_id option chain k a pool clock n A parsed D Q plain
        fs root simple =
      let name = directory_name X k option in
      let (d, done, keyed, clocked, updated) =
        take_snapshot_restores X F C Z L I W V both rpc_url amm_id option chain k a pool clock n A
          parsed D simple in
      let files = put_directory X F name (some d) fs in
      let (taken, there, globbed) = done fs root in
      let (m, loaded, from_map) =
        update_amm_from_snapshot-eq-ok X F L (ok d.accounts) pool (record pool { reserves = n })
          updated in
      let alone =
        tests_iff_alone X K T B P N F keypairs Q (ok d.accounts) m pool n loaded plain L from_map _
          (get_token_mints_permutations_of_pool X I pool both) in
      (files, taken, rw (there, globbed, keyed, clocked, D.made) alone)
