-- ===== src/Cli.antt =====
-- jupiter-core/src/main.rs: the command line. `clap` makes a `Cli` of the arguments.
pub mod Runs
use exponent_jupiter_amm_imp.Prelude.{String, Bool, Option}
use exponent_jupiter_amm_imp.Prelude.Result.{unwrap_result}
use exponent_jupiter_amm_imp.Prelude.Stateful.{Method}
use exponent_jupiter_amm_imp.Crates.{Crates}
use exponent_jupiter_amm_imp.Harness.Directories.{FileSystem}
use exponent_jupiter_amm_imp.Harness.Snapshot.Addresses.{Keys}
use exponent_jupiter_amm_imp.Harness.Snapshot.Files.{Formats}
use exponent_jupiter_amm_imp.Harness.Client.{Remote}
use exponent_jupiter_amm_imp.Harness.TakeSnapshot.{take_snapshot}

pub record ConfigOverride : Type 0 where
  pub rpc_url : String

-- The fields of `SnapshotAmm`: `amm_id`, `option` and `force`.
pub data Command : Type 0 where
  snapshot_amm : String → Option String → Bool → Command

pub record Cli : Type 0 where
  pub config_override : ConfigOverride
  pub command : Command

module _ (X : Crates) (F : Formats X) (N : Remote X) (Z : Keys) where
  abbrev pub run_command : ConfigOverride → Command → Method (FileSystem X F) (Unit {0})
  run_command config_override (snapshot_amm amm_id option force) =
      take_snapshot X F N Z config_override.rpc_url amm_id option force

  -- From the parsed arguments on: the error of a snapshot is unwrapped.
  unfoldable pub main : Cli → Method (FileSystem X F) (Unit {0})
  main cli fs =
      let (result, files) = run_command cli.config_override cli.command fs in
      (unwrap_result result, files)
