-- ===== src/Harness/TakeSnapshot/Restored.antt =====
-- A snapshot that is taken of a pool on the chain, and the pool that is read from it.
use exponent_jupiter_amm_imp.Prelude.{
  ℕ, ◌≡◌, ap, ◌∙◌, true, false, Option, none, some, List, [], String, is_some, arith,
}
use exponent_jupiter_amm_imp.Prelude.Result.{Result, ok, unwrap_result}
use exponent_jupiter_amm_imp.Prelude.Dict.{from_iter}
use exponent_jupiter_amm_imp.Prelude.Sets.{member}
use exponent_jupiter_amm_imp.Solana.{Pubkey, Account}
use exponent_jupiter_amm_imp.Crates.{Crates, AccountDataLaws}
use exponent_jupiter_amm_imp.SplTokenSwap.Pool.{SplTokenSwapAmm, get_accounts_to_update}
use exponent_jupiter_amm_imp.SplTokenSwap.Implementation.{spl_token_swap_amm}
use exponent_jupiter_amm_imp.Route.Pairs.{ItertoolsLaws}
use exponent_jupiter_amm_imp.Harness.Precise.Rounds.{update_from}
use exponent_jupiter_amm_imp.Harness.Directories.{FileSystem, directory_name, put_directory, found}
use exponent_jupiter_amm_imp.Harness.Directories.Places.{
  put_directory_same, put_directory_other, found_plain,
}
use exponent_jupiter_amm_imp.Harness.Snapshot.Addresses.{Keys}
use exponent_jupiter_amm_imp.Harness.Snapshot.Files.{Formats, Directory, update_amm_from_snapshot}
use exponent_jupiter_amm_imp.Harness.Snapshot.Contents.{
  FormatLaws, plain, files_in, collected, lookup-collected,
}
use exponent_jupiter_amm_imp.Harness.Snapshot.Readers.{get_keyed_account_from_snapshot, get_clock}
use exponent_jupiter_amm_imp.Harness.Snapshot.Reading.{get_keyed_account_written, get_clock_written}
use exponent_jupiter_amm_imp.Harness.Snapshot.Restoring.{directory_of, load_written}
use exponent_jupiter_amm_imp.Harness.Snapshot.RoundTrip.{update_from_loaded}
use exponent_jupiter_amm_imp.Harness.Client.{Remote, new_with_rpc_url}
use exponent_jupiter_amm_imp.Harness.TakeSnapshot.{take_snapshot}
use exponent_jupiter_amm_imp.Harness.TakeSnapshot.Split.{take_snapshot_fetched}
use exponent_jupiter_amm_imp.Harness.TakeSnapshot.Deployed.{
  kept-Stands, fetch_pool-built, update_and_snapshot-deployed,
}
use exponent_jupiter_amm_imp.Harness.TakeSnapshot.Chain.{Answers, RemoteLaws, IsDeployed}

module _ (X : Crates) (F : Formats X) (W : FormatLaws X F) where
  pub put_directory-HasRoot :
      (name : String) (d : Directory X F) (fs : FileSystem X F)
      → W.HasRoot fs
      → W.HasRoot (put_directory X F name (some d) fs)
  put_directory-HasRoot name d fs root =
      W.root_stays name fs (put_directory X F name (some d) fs)
        (λ other differ. put_directory_other X F name (some d) fs other differ) root

  -- A directory that is put under a plain name is found there, and its files by the pattern.
  put_directory_found :
      (name : String) (d : Directory X F) (fs : FileSystem X F)
      → W.HasRoot fs
      → plain name ≡ true
      → found X F (put_directory X F name (some d) fs) name ≡ some d
  put_directory_found name d fs root simple =
      let files = put_directory X F name (some d) fs in
      found_plain X F name files
        (W.resolve-plain files name (put_directory-HasRoot name d fs root) simple)
      ∙ put_directory_same X F name (some d) fs

  put_directory_globbed :
      (name : String) (d : Directory X F) (fs : FileSystem X F)
      → plain name ≡ true
      → F.glob (put_directory X F name (some d) fs) name ≡ ok d.accounts
  put_directory_globbed name d fs simple =
      W.glob-plain (put_directory X F name (some d) fs) name simple
      ∙ ap (λ (o : Option (Directory X F)). ok (files_in o))
          (put_directory_same X F name (some d) fs)

module _ (X : Crates) (F : Formats X) (N : Remote X) (Z : Keys) where
  update_from_deployed :
      AccountDataLaws X
      → FormatLaws X F
      → (chain : Pubkey → Option Account) (k : Pubkey) (a : Account) (pool : SplTokenSwapAmm X)
        (clock : N.Clock) (n : ℕ × ℕ)
      → IsDeployed X N Z chain k a pool clock n
      → (ks : List Pubkey) → member pool.state.token_a ks ≡ true
      → member pool.state.token_b ks ≡ true
      → update_amm_from_snapshot X F
          (ok (directory_of X F none chain ks).accounts)
          (spl_token_swap_amm X)
          pool
        ≡ (ok tt, record pool { reserves = n })
  update_from_deployed L W chain k account pool clock n D ks has_a has_b =
      let (a, stands_a, unpacked_a) = D.vault_a in
      let (b, stands_b, unpacked_b) = D.vault_b in
      let ka = pool.state.token_a in
      let kb = pool.state.token_b in
      let m = from_iter (collected chain ks []) in
      let found_a = lookup-collected chain ka ks has_a ∙ kept-Stands X F N Z chain ka a stands_a in
      let found_b = lookup-collected chain kb ks has_b ∙ kept-Stands X F N Z chain kb b stands_b in
      update_from_loaded X F L (ok (directory_of X F none chain ks).accounts) m pool
        (load_written X F W none chain ks)
      ∙ ap (λ (o : Result (Unit {0}) × SplTokenSwapAmm X). (unwrap_result o.0, o.1))
          (update_from X L m pool a b n.0 n.1 found_a found_b unpacked_a unpacked_b)

  -- A snapshot of a token swap pool that stands on the chain succeeds, on any files, if `force` is
  -- set exactly where the directory of its name is there: that directory alone is replaced, by one
  -- that does not depend on the files, it is found under its path, and its pattern matches its files
  -- alone. From it the harness reads back the pool's account, from which the pool is built, and the
  -- chain's clock, and the pool that is updated from it has the balances of both vaults as reserves.
  -- This is so if tests/fixtures/accounts is there, the name of the directory has no character that a
  -- path or a pattern gives a meaning and does not start with a dot, the disk takes every file, the
  -- node answers from the chain, the id is the text of the key, accounts are decoded and files read
  -- as they were written, account data is looked up by key, `itertools` is as documented, the trait's
  -- default is to trade both ways, the table has an amount for both mints, and neither the pool's
  -- account nor a vault is a program or the placeholder, nor is the clock's account a program.
  pub take_snapshot_restores :
      AccountDataLaws X
      → ItertoolsLaws X
      → (W : FormatLaws X F) → RemoteLaws X N
      → X.default_unidirectional ≡ false
      → (rpc_url amm_id : String) (option : Option String) (chain : Pubkey → Option Account)
        (k : Pubkey) (a : Account) (pool : SplTokenSwapAmm X) (clock : N.Clock) (n : ℕ × ℕ)
      → Answers (N.new_client rpc_url) chain
      → N.from_str amm_id ≡ ok k
      → IsDeployed X N Z chain k a pool clock n
      → let name = directory_name X k option in
        plain name ≡ true
        → (d : Directory X F) × ((fs : FileSystem X F)
            → W.HasRoot fs
            → (take_snapshot X F N Z rpc_url amm_id option (is_some (fs name)) fs
                ≡ (ok tt, put_directory X F name (some d) fs))
              × (found X F (put_directory X F name (some d) fs) name ≡ some d)
              × (F.glob (put_directory X F name (some d) fs) name ≡ ok d.accounts))
          × (get_keyed_account_from_snapshot X F (some d) k
              ≡ ok (record { key = k; account = a; params = none }))
          × (get_clock X F N.deserialize_clock N.default_clock Z.clock_id (ok d.accounts)
              ≡ ok clock)
          × (update_amm_from_snapshot X F (ok d.accounts) (spl_token_swap_amm X) pool
              ≡ (ok tt, record pool { reserves = n }))
  unfolding new_with_rpc_url get_accounts_to_update
  take_snapshot_restores L I W V both rpc_url amm_id option chain k a pool clock n A parsed D
        simple =
      let client = N.new_client rpc_url in
      let name = directory_name X k option in
      let (ks, done, has, has_clock) =
        update_and_snapshot-deployed X F N Z L I W both client chain A k a pool clock n D option
          simple in
      let (c, clock_found, clock_plain, clock_read) = D.clock_account in
      let got = fetch_pool-built X F N Z V client chain A k a pool clock n D amm_id parsed in
      let (_, stands_a, _) = D.vault_a in
      let (_, stands_b, _) = D.vault_b in
      (
        directory_of X F none chain ks,
        λ fs root. (
          take_snapshot_fetched X F N Z rpc_url amm_id option (is_some (fs name)) fs parsed got
              ∙ done fs root,
          put_directory_found X F W name (directory_of X F none chain ks) fs root simple,
          put_directory_globbed X F W name (directory_of X F none chain ks) fs simple,
        ),
        get_keyed_account_written X F W none chain ks k a (λ v e. absurd (ground arith))
            (has k D.stands.2 (ground arith)) (kept-Stands X F N Z chain k a D.stands),
        get_clock_written X F W none chain ks N.deserialize_clock N.default_clock clock Z.clock_id c
            has_clock (rw (clock_found, clock_plain)) clock_read,
        update_from_deployed L W chain k a pool clock n D ks
            (has pool.state.token_a stands_a.2 (ground arith))
            (has pool.state.token_b stands_b.2 (ground arith)),
      )
