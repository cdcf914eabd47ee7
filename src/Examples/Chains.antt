-- ===== src/Examples/Chains.antt =====
-- The pool of `Pools` on a chain, a node that answers from it, and snapshots that are taken of it.
use text.Mathlib.Text.{◌==◌ as ◌=?◌}
use exponent_jupiter_amm_imp.Prelude.{
  ◌≡◌, ◌≢◌, refl, false, true, String, Option, none, some, List, [], ◌∷◌, map, ◌==◌, if◌then◌else◌,
  is_some, arith,
}
use exponent_jupiter_amm_imp.Prelude.Result.{Result, ok, err, panic, library, ◌>>=◌}
use exponent_jupiter_amm_imp.Solana.{Pubkey, Account}
use exponent_jupiter_amm_imp.SplTokenSwap.Implementation.{spl_token_swap_amm}
use exponent_jupiter_amm_imp.Harness.Directories.{
  FileSystem, directory_name, put_directory, found as found_at,
}
use exponent_jupiter_amm_imp.Harness.Snapshot.Contents.{files_in, plain}
use exponent_jupiter_amm_imp.Harness.Snapshot.Files.{Directory, update_amm_from_snapshot}
use exponent_jupiter_amm_imp.Harness.Snapshot.Readers.{get_keyed_account_from_snapshot, get_clock}
use exponent_jupiter_amm_imp.Harness.Client.{Client, Remote}
use exponent_jupiter_amm_imp.Harness.TakeSnapshot.{take_snapshot}
use exponent_jupiter_amm_imp.Harness.TakeSnapshot.Files.{take_snapshot_refuses}
use exponent_jupiter_amm_imp.Harness.TakeSnapshot.Chain.{Answers, RemoteLaws, IsDeployed}
use exponent_jupiter_amm_imp.Harness.TakeSnapshot.Restored.{take_snapshot_restores}
use exponent_jupiter_amm_imp.Cli.{main}
use exponent_jupiter_amm_imp.Cli.Runs.{command_line, main_forces}
use exponent_jupiter_amm_imp.Examples.Libraries.{small, small-AccountDataLaws, small-ItertoolsLaws}
use exponent_jupiter_amm_imp.Examples.Pools.{account, keyed, empty_pool, full_pool, build_run}
use exponent_jupiter_amm_imp.Examples.Snapshots.{
  small_formats, small_formats-FormatLaws, small-HasRoot, keys, usdc_amount, usdt_amount,
}

abbrev pub chain : Pubkey → Option Account
chain k =
    if k == 77
    then some keyed.account
    else if k == 101
    then some (account (5_000_000 ∷ []))
    else if k == 102
    then some (account (4_000_000 ∷ []))
    else if k == 998
    then some (account (5 ∷ []))
    else none

abbrev found : Option Account → Result Account
found none = err (library 4)
found (some a) = ok a

abbrev pub client : Client
client = record {
  get_account = λ k. found (chain k);
  get_multiple_accounts = λ ks. ok (map chain ks);
  get_account_with_commitment = λ k. ok (chain k);
}

pub client-Answers : Answers client chain
client-Answers = record {
  get_account-eq = λ k a e. rw e;
  get_multiple_accounts-eq = λ ks. refl;
  get_account_with_commitment-eq = λ k. refl;
}

abbrev pub parse : String → Result Pubkey
parse text = if text =? "77" then ok 77 else err (library 5)

abbrev pub first_byte : List Pubkey → Result Pubkey
first_byte [] = err (library 6)
first_byte (n ∷ _) = ok n

abbrev pub small_remote : Remote small
small_remote = record {
  Clock = Pubkey;
  ClockRef = Pubkey;
  UiAccount = Account;
  new_client = λ url. client;
  deserialize_clock = first_byte;
  default_clock = 0;
  clock_ref_from = λ clock. clock;
  amm_context = λ _. tt;
  from_str = parse;
  encode_ui_account = λ k a. a;
  try_into = λ u.
      parse u.pubkey >>= λ k. ok (record { key = k; account = u.ui_account; params = u.params });
}

pub small_remote-RemoteLaws : RemoteLaws small small_remote
small_remote-RemoteLaws = record { try_into-encode_ui_account = λ id k a parsed. rw parsed }

pub deployed :
    IsDeployed small small_remote keys chain 77 keyed.account empty_pool 5 (5_000_000, 4_000_000)
deployed = record {
  stands = (refl, refl, ground arith);
  made = build_run;
  vault_a = (account (5_000_000 ∷ []), (refl, refl, ground arith), refl);
  vault_b = (account (4_000_000 ∷ []), (refl, refl, ground arith), refl);
  clock_account = (account (5 ∷ []), refl, refl, refl);
  amount_a = (1_110_000_000, usdc_amount);
  amount_b = (1_110_000_000, usdt_amount);
}

abbrev pub nothing : FileSystem small small_formats
nothing _ = none

pub name_plain : plain (directory_name small 77 none) ≡ true
unfolding directory_name
name_plain = refl

take_snapshot_restores_example :
    (d : Directory small small_formats) × ((fs : FileSystem small small_formats)
      → small_formats-FormatLaws.HasRoot fs
      → (take_snapshot small small_formats small_remote keys "url" "77" none
            (is_some (fs (directory_name small 77 none)))
            fs
          ≡ (ok tt, put_directory small small_formats (directory_name small 77 none) (some d) fs))
        × (found_at small small_formats
              (put_directory small small_formats (directory_name small 77 none) (some d) fs)
              (directory_name small 77 none)
            ≡ some d)
        × (ok (
              files_in (
                put_directory small small_formats
                  (directory_name small 77 none)
                  (some d)
                  fs
                  (directory_name small 77 none)))
            ≡ ok d.accounts))
    × (get_keyed_account_from_snapshot small small_formats (some d) 77 ≡ ok keyed)
    × (get_clock small small_formats small_remote.deserialize_clock small_remote.default_clock 998
          (ok d.accounts)
        ≡ ok 5)
    × (update_amm_from_snapshot small small_formats
          (ok d.accounts)
          (spl_token_swap_amm small)
          empty_pool
        ≡ (ok tt, full_pool))
take_snapshot_restores_example =
    take_snapshot_restores small small_formats small_remote keys small-AccountDataLaws
      small-ItertoolsLaws small_formats-FormatLaws small_remote-RemoteLaws refl "url" "77" none
      chain 77 keyed.account empty_pool 5 (5_000_000, 4_000_000) client-Answers refl deployed
      name_plain

take_snapshot_refuses_example :
    ((u : Unit {0})
      → (take_snapshot small small_formats small_remote keys "url" "77" none true nothing).0 ≢ ok u)
    × ((take_snapshot small small_formats small_remote keys "url" "77" none true nothing).1
        ≡ nothing)
take_snapshot_refuses_example =
    take_snapshot_refuses small small_formats small_remote keys "url" "77" none true nothing refl
      refl

main_forces_example :
    (files : FileSystem small small_formats) × (is_some (files (directory_name small 77 none))
      ≡ true)
    × (main small small_formats small_remote keys (command_line "url" "77" none false) nothing
        ≡ (ok tt, files))
    × (main small small_formats small_remote keys (command_line "url" "77" none true) files
        ≡ (ok tt, files))
    × (main small small_formats small_remote keys (command_line "url" "77" none false) files
        ≡ (panic, files))
    × (main small small_formats small_remote keys (command_line "url" "77" none true) nothing
        ≡ (panic, nothing))
main_forces_example =
    main_forces small small_formats small_remote keys small-AccountDataLaws small-ItertoolsLaws
      small_formats-FormatLaws small_remote-RemoteLaws refl "url" "77" none chain 77 keyed.account
      empty_pool 5 (5_000_000, 4_000_000) client-Answers refl deployed name_plain nothing
      (small-HasRoot nothing) refl
