-- ===== src/Cli/Runs.antt =====
-- Runs of the command line on one pool, without `--force` and with it.
use exponent_jupiter_amm_imp.Prelude.{
  ℕ, ◌≡◌, ◌≢◌, refl, ap, ◌∙◌, String, Bool, false, true, Option, none, some, is_some, subst, arith,
}
use exponent_jupiter_amm_imp.Prelude.Result.{Result, ok, err, panic, unwrap_result}
use exponent_jupiter_amm_imp.Solana.{Pubkey, Account}
use exponent_jupiter_amm_imp.Crates.{Crates, AccountDataLaws}
use exponent_jupiter_amm_imp.SplTokenSwap.Pool.{SplTokenSwapAmm}
use exponent_jupiter_amm_imp.Route.Pairs.{ItertoolsLaws}
use exponent_jupiter_amm_imp.Harness.Directories.{
  FileSystem, directory_name, put_directory, place_at,
}
use exponent_jupiter_amm_imp.Harness.Directories.Places.{
  put_directory_same, put_directory_twice, place_at_plain, fits_wrong,
}
use exponent_jupiter_amm_imp.Harness.Snapshot.Addresses.{Keys}
use exponent_jupiter_amm_imp.Harness.Snapshot.Files.{Formats}
use exponent_jupiter_amm_imp.Harness.Snapshot.Contents.{FormatLaws, plain}
use exponent_jupiter_amm_imp.Harness.Snapshot.Refusing.{fits}
use exponent_jupiter_amm_imp.Harness.Client.{Remote}
use exponent_jupiter_amm_imp.Harness.TakeSnapshot.{take_snapshot}
use exponent_jupiter_amm_imp.Harness.TakeSnapshot.Files.{take_snapshot_refuses}
use exponent_jupiter_amm_imp.Harness.TakeSnapshot.Chain.{Answers, RemoteLaws, IsDeployed}
use exponent_jupiter_amm_imp.Harness.TakeSnapshot.Restored.{
  take_snapshot_restores, put_directory-HasRoot,
}
use exponent_jupiter_amm_imp.Cli.{Cli, snapshot_amm, main}

unwrap_failed : (r : Result (Unit {0})) → ((u : Unit {0}) → r ≢ ok u) → unwrap_result r ≡ panic
unwrap_failed (ok u) fails = absurd (fails u refl)
unwrap_failed (err e) fails = refl
unwrap_failed panic fails = refl

-- The command `snapshot-amm`.
abbrev pub command_line : String → String → Option String → Bool → Cli
command_line rpc_url amm_id option force = record {
  config_override = record { rpc_url = rpc_url };
  command = snapshot_amm amm_id option force;
}

module _ (X : Crates) (F : Formats X) (N : Remote X) (Z : Keys) where
  main_refuses :
      (rpc_url amm_id : String) (option : Option String) (force : Bool) (fs : FileSystem X F)
      {k : Pubkey}
      → N.from_str amm_id ≡ ok k
      → fits X F force (place_at X F fs (directory_name X k option)) ≡ false
      → main X F N Z (command_line rpc_url amm_id option force) fs ≡ (panic, fs)
  unfolding main
  main_refuses rpc_url amm_id option force fs parsed wrong =
      let (fails, kept) =
        take_snapshot_refuses X F N Z rpc_url amm_id option force fs parsed wrong in
      rw (kept, unwrap_failed (take_snapshot X F N Z rpc_url amm_id option force fs).0 fails)

  main_snapshots :
      (rpc_url amm_id : String) (option : Option String) (force : Bool) (fs files : FileSystem X F)
      → take_snapshot X F N Z rpc_url amm_id option force fs ≡ (ok tt, files)
      → main X F N Z (command_line rpc_url amm_id option force) fs ≡ (ok tt, files)
  unfolding main
  main_snapshots rpc_url amm_id option force fs files done = rw done

  -- If there is no snapshot of a token swap pool that stands on the chain yet: a run without
  -- `--force` makes one; then a run with `--force` succeeds and, from the same chain, leaves the same
  -- files, and a run without it panics and leaves them as they are. A first run with `--force`
  -- panics and makes nothing. This is so under the conditions of `take_snapshot_restores`.
  pub main_forces :
      AccountDataLaws X
      → ItertoolsLaws X
      → (W : FormatLaws X F) → RemoteLaws X N
      → X.default_unidirectional ≡ false
      → (rpc_url amm_id : String) (option : Option String) (chain : Pubkey → Option Account)
        (k : Pubkey) (a : Account) (pool : SplTokenSwapAmm X) (clock : N.Clock) (n : ℕ × ℕ)
      → Answers (N.new_client rpc_url) chain
      → N.from_str amm_id ≡ ok k
      → IsDeployed X N Z chain k a pool clock n
      → plain (directory_name X k option) ≡ true
      → (fs : FileSystem X F) → W.HasRoot fs
      → fs (directory_name X k option) ≡ none
      → let run = λ (force : Bool). main X F N Z (command_line rpc_url amm_id option force) in
        (files : FileSystem X F) × (is_some (files (directory_name X k option)) ≡ true)
        × (run false fs ≡ (ok tt, files))
        × (run true files ≡ (ok tt, files))
        × (run false files ≡ (panic, files))
        × (run true fs ≡ (panic, fs))
  main_forces L I W V both rpc_url amm_id option chain k a pool clock n A parsed D simple fs root
        empty =
      let name = directory_name X k option in
      let misfit =
        λ (name : String) (g : FileSystem X F) (root : W.HasRoot g) (simple : plain name ≡ true)
            (force : Bool) (wrong : force ≢ is_some (g name)).
          ap (fits X F force) (place_at_plain X F name g (W.resolve-plain g name root simple))
          ∙ fits_wrong X F force (g name) wrong in
      let (d, done, _, _, _) =
        take_snapshot_restores X F N Z L I W V both rpc_url amm_id option chain k a pool clock n A
          parsed D simple in
      let files = put_directory X F name (some d) fs in
      let root' = put_directory-HasRoot X F W name d fs root in
      let here : is_some (files name) ≡ true =
        ap is_some (put_directory_same X F name (some d) fs) in
      let first =
        subst (λ force. take_snapshot X F N Z rpc_url amm_id option force fs ≡ (ok tt, files))
          (ap is_some empty) (done fs root).0 in
      let again =
        subst
          (λ force.
            take_snapshot X F N Z rpc_url amm_id option force files
            ≡ (ok tt, put_directory X F name (some d) files))
          here (done files root').0 in
      (
        files,
        here,
        main_snapshots rpc_url amm_id option false fs files first,
        main_snapshots rpc_url amm_id option true files files (
            again
            ∙ ap (λ (g : FileSystem X F). (ok tt, g)) (put_directory_twice X F name (some d) fs)),
        main_refuses rpc_url amm_id option false files parsed
            (misfit name files root' simple false (λ e. ground (arith, here))),
        main_refuses rpc_url amm_id option true fs parsed
            (misfit name fs root simple true (λ e. ground (arith, empty))),
      )
