-- ===== src/Harness/TakeSnapshot/Split.antt =====
-- The two ways of `take_snapshot`: it ends before it touches a file, or it works on one directory.
use exponent_jupiter_amm_imp.Prelude.{◌≡◌, ◌≢◌, refl, String, Bool, Option, ◌⊎◌, inl, inr, arith}
use exponent_jupiter_amm_imp.Prelude.Result.{
  Result, ok, err, panic, unwrap_result, unwrap_result-eq-ok,
}
use exponent_jupiter_amm_imp.Prelude.Stateful.{Method, ◌>>◌, lift, lift_then}
use exponent_jupiter_amm_imp.Solana.{Pubkey, KeyedAccount}
use exponent_jupiter_amm_imp.Crates.{Crates}
use exponent_jupiter_amm_imp.Loader.{BoxedAmm}
use exponent_jupiter_amm_imp.Harness.Precise.{update_amm, update_rounds}
use exponent_jupiter_amm_imp.Harness.Directories.{FileSystem, directory_name, at_directory}
use exponent_jupiter_amm_imp.Harness.Snapshot.Addresses.{Keys}
use exponent_jupiter_amm_imp.Harness.Snapshot.Files.{Formats, snapshot_amm_accounts}
use exponent_jupiter_amm_imp.Harness.Client.{Remote, new_with_rpc_url, fetch_pool}
use exponent_jupiter_amm_imp.Harness.TakeSnapshot.{update_and_snapshot, take_snapshot}

module _ (X : Crates) (F : Formats X) (N : Remote X) (Z : Keys) where
  -- The call ends without a value and leaves the files as they were.
  abbrev pub Untouched : FileSystem X F → Result (Unit {0}) × FileSystem X F → Type 0
  Untouched fs (r, fs') = ((u : Unit {0}) → r ≢ ok u) × (fs' ≡ fs)

  -- The call is a snapshot of some pool, in the directory of the name.
  abbrev pub Snapshots :
      String → Bool → String → FileSystem X F → Result (Unit {0}) × FileSystem X F → Type 1
  Snapshots rpc_url force name fs outcome =
      (boxed : BoxedAmm X) × (pool : boxed.amm.Self) × (params : Option X.Params) × (outcome
        ≡ at_directory X F name
            (snapshot_amm_accounts X F Z (N.new_client rpc_url).get_multiple_accounts boxed.amm pool
              params force)
            fs)

  -- A chain whose first call does not touch the files.
  lift_split :
      (r : Result (Unit {0})) (next : Method (FileSystem X F) (Unit {0})) (fs : FileSystem X F)
      → Untouched fs ((lift r >> next) fs) ⊎ ((lift r >> next) fs ≡ next fs)
  lift_split (ok u) next fs = inr refl
  lift_split (err e) next fs = inl (λ u h. ground arith, refl)
  lift_split panic next fs = inl (λ u h. ground arith, refl)

  update_and_snapshot_split :
      (rpc_url : String) (k : Pubkey) (option : Option String) (params : Option X.Params)
      (force : Bool) (boxed : BoxedAmm X) (fs : FileSystem X F)
      → let call =
          update_and_snapshot X F N Z
            (new_with_rpc_url X N rpc_url k option)
            params
            force
            boxed
            fs in
        Untouched fs call ⊎ Snapshots rpc_url force (directory_name X k option) fs call
  unfolding new_with_rpc_url
  update_and_snapshot_split rpc_url k option params force boxed fs =
      let node = (N.new_client rpc_url).get_multiple_accounts in
      let (updated, pool) = update_rounds X boxed.amm 3 (update_amm X boxed.amm node) boxed.value in
      let next =
        at_directory X F (directory_name X k option)
          (snapshot_amm_accounts X F Z node boxed.amm pool params force) in
      elim (lift_split updated next fs) [
        | inl untouched ↦ inl untouched
        | inr goes_on ↦ inr (boxed, pool, params, goes_on)
      ]

  -- The call goes on with the pool that was fetched.
  pub take_snapshot_fetched :
      (rpc_url amm_id : String) (option : Option String) (force : Bool) (fs : FileSystem X F)
      {k : Pubkey} {keyed : KeyedAccount X.Params} {boxed : BoxedAmm X}
      → N.from_str amm_id ≡ ok k
      → fetch_pool X N Z.clock_id (N.new_client rpc_url) k amm_id ≡ ok (keyed, boxed)
      → take_snapshot X F N Z rpc_url amm_id option force fs
        ≡ update_and_snapshot X F N Z
            (new_with_rpc_url X N rpc_url k option)
            keyed.params
            force
            boxed
            fs
  unfolding take_snapshot
  take_snapshot_fetched rpc_url amm_id option force fs parsed got = rw (take_snapshot, parsed, got)

  -- What follows a call that does not touch the files.
  lift_then_split {ℓ} :
      {A : Type ℓ} (r : Result A) (next : A → Method (FileSystem X F) (Unit {0}))
      (fs : FileSystem X F)
      → Untouched fs (lift_then r next fs)
        ⊎ ((a : A) × (r ≡ ok a) × (lift_then r next fs ≡ next a fs))
  lift_then_split (ok a) next fs = inr (a, refl, refl)
  lift_then_split (err e) next fs = inl (λ u h. ground arith, refl)
  lift_then_split panic next fs = inl (λ u h. ground arith, refl)

  pub take_snapshot_split :
      (rpc_url amm_id : String) (option : Option String) (force : Bool) (fs : FileSystem X F)
      → let call = take_snapshot X F N Z rpc_url amm_id option force fs in
        Untouched fs call
        ⊎ ((k : Pubkey) × (N.from_str amm_id ≡ ok k)
            × Snapshots rpc_url force (directory_name X k option) fs call)
  unfolding take_snapshot
  take_snapshot_split rpc_url amm_id option force fs =
      let fetch = λ (k : Pubkey). fetch_pool X N Z.clock_id (N.new_client rpc_url) k amm_id in
      let next = λ (k : Pubkey) (b : KeyedAccount X.Params × BoxedAmm X).
        update_and_snapshot X F N Z (new_with_rpc_url X N rpc_url k option) b.0.params force b.1 in
      let after = λ (k : Pubkey). lift_then (fetch k) (next k) in
      elim (lift_then_split (unwrap_result (N.from_str amm_id)) after fs) [
        | inl untouched ↦ inl untouched
        | inr (k, parsed, goes_on) ↦ rw goes_on (elim (lift_then_split (fetch k) (next k) fs) [
          | inl untouched ↦ inl untouched
          | inr ((keyed, boxed), got, works) ↦
              rw works
                (elim (update_and_snapshot_split rpc_url k option keyed.params force boxed fs) [
                  | inl untouched ↦ inl untouched
                  | inr done ↦ inr (k, unwrap_result-eq-ok (N.from_str amm_id) parsed, done)
                ])
        ])
      ]
