-- ===== src/Harness/TakeSnapshot.antt =====
-- `take_snapshot`: lines 1005 to 1040 of jupiter-core/src/amms/test_harness.rs, from a node to the
-- files of a snapshot.
pub mod Split
pub mod Files
pub mod Chain
pub mod Deployed
pub mod Restored
use exponent_jupiter_amm_imp.Prelude.{String, Bool, Option}
use exponent_jupiter_amm_imp.Prelude.Result.{unwrap_result}
use exponent_jupiter_amm_imp.Prelude.Stateful.{Method, ◌>>◌, lift, lift_then}
use exponent_jupiter_amm_imp.Crates.{Crates}
use exponent_jupiter_amm_imp.Loader.{BoxedAmm}
use exponent_jupiter_amm_imp.Harness.Precise.{update_amm, update_rounds}
use exponent_jupiter_amm_imp.Harness.Directories.{FileSystem, directory_name, at_directory}
use exponent_jupiter_amm_imp.Harness.Snapshot.Addresses.{Keys}
use exponent_jupiter_amm_imp.Harness.Snapshot.Files.{Formats, snapshot_amm_accounts}
use exponent_jupiter_amm_imp.Harness.Client.{AmmTestHarness, Remote, new_with_rpc_url, fetch_pool}

module _ (X : Crates) (F : Formats X) (N : Remote X) (Z : Keys) where
  -- Three updates from the chain, and the snapshot of the pool that they leave.
  abbrev pub update_and_snapshot :
      AmmTestHarness → Option X.Params → Bool → BoxedAmm X → Method (FileSystem X F) (Unit {0})
  update_and_snapshot test_harness params force boxed fs =
      let (updated, pool) =
        update_rounds X boxed.amm 3
          (update_amm X boxed.amm test_harness.client.get_multiple_accounts) boxed.value in
      (lift updated
          >> at_directory X F (directory_name X test_harness.key test_harness.option) (
              snapshot_amm_accounts X F Z test_harness.client.get_multiple_accounts boxed.amm pool
                params force))
        fs

  unfoldable pub take_snapshot :
      String → String → Option String → Bool → Method (FileSystem X F) (Unit {0})
  take_snapshot rpc_url amm_id option force =
      lift_then (unwrap_result (N.from_str amm_id)) (λ amm_key.
        lift_then (fetch_pool X N Z.clock_id (N.new_client rpc_url) amm_key amm_id) (λ fetched.
          update_and_snapshot (new_with_rpc_url X N rpc_url amm_key option) fetched.0.params force
            fetched.1))
