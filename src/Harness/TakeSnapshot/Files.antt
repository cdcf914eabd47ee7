-- ===== src/Harness/TakeSnapshot/Files.antt =====
-- What `take_snapshot` leaves of the files that it finds.
use exponent_jupiter_amm_imp.Prelude.{◌≡◌, ◌≢◌, sym, subst, String, Bool, false, Option, inl, inr}
use exponent_jupiter_amm_imp.Prelude.Result.{ok}
use exponent_jupiter_amm_imp.Solana.{Pubkey}
use exponent_jupiter_amm_imp.Crates.{Crates}
use exponent_jupiter_amm_imp.Harness.Directories.{FileSystem, directory_name, place_at}
use exponent_jupiter_amm_imp.Harness.Directories.Places.{at_directory_unchanged}
use exponent_jupiter_amm_imp.Harness.Snapshot.Addresses.{Keys}
use exponent_jupiter_amm_imp.Harness.Snapshot.Files.{Formats, snapshot_amm_accounts}
use exponent_jupiter_amm_imp.Harness.Snapshot.Refusing.{fits, snapshot_refuses}
use exponent_jupiter_amm_imp.Harness.Client.{Remote}
use exponent_jupiter_amm_imp.Harness.TakeSnapshot.{take_snapshot}
use exponent_jupiter_amm_imp.Harness.TakeSnapshot.Split.{take_snapshot_split}

module _ (X : Crates) (F : Formats X) (N : Remote X) (Z : Keys) where
  -- If `force` is set where the path of the snapshot does not lead to a directory, or not set where
  -- it does, or the directory that it must be in is not there, the call never returns `Ok`, and
  -- every file is as it was.
  pub take_snapshot_refuses :
      (rpc_url amm_id : String) (option : Option String) (force : Bool) (fs : FileSystem X F)
      {k : Pubkey}
      → N.from_str amm_id ≡ ok k
      → fits X F force (place_at X F fs (directory_name X k option)) ≡ false
      → let (result, files) = take_snapshot X F N Z rpc_url amm_id option force fs in
        ((u : Unit {0}) → result ≢ ok u) × (files ≡ fs)
  take_snapshot_refuses rpc_url amm_id option force fs {k} parsed wrong =
      elim (take_snapshot_split X F N Z rpc_url amm_id option force fs) [
        | inl untouched ↦ untouched
        | inr (j, parsed', (boxed, pool, params, works)) ↦ rw works (
            let same : j ≡ k = cc (parsed, parsed') in
            let node = (N.new_client rpc_url).get_multiple_accounts in
            let name = directory_name X j option in
            let wrong' =
              subst (λ n. fits X F force (place_at X F fs (directory_name X n option)) ≡ false)
                (sym same) wrong in
            let (fails, kept) =
              snapshot_refuses X F Z node boxed.amm pool params force (place_at X F fs name)
                wrong' in
            (
              fails,
              at_directory_unchanged X F name
                  (snapshot_amm_accounts X F Z node boxed.amm pool params force) fs kept,
            ))
      ]
