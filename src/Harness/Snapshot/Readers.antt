-- ===== src/Harness/Snapshot/Readers.antt =====
-- The readers of single files of a snapshot: lines 569 to 604 and 723 to 733 of
-- jupiter-core/src/amms/test_harness.rs.
use exponent_jupiter_amm_imp.Prelude.{Option, none, some}
use exponent_jupiter_amm_imp.Prelude.Result.{
  Result, ok, panic, ◌>>=◌, unwrap, unwrap_result, context_result,
}
use exponent_jupiter_amm_imp.Prelude.Dict.{Dict, lookup}
use exponent_jupiter_amm_imp.Solana.{Pubkey, Bytes, Account, KeyedAccount}
use exponent_jupiter_amm_imp.Crates.{Crates}
use exponent_jupiter_amm_imp.Harness.Snapshot.Files.{Formats, Directory, load_accounts_snapshot}

module _ (X : Crates) (F : Formats X) where
  -- `File::open(..)` of an account's file, which panics where there is none, and its account. The
  -- address inside the file is not read.
  unfoldable pub get_account_from_snapshot : Option (Directory X F) → Pubkey → Result Account
  get_account_from_snapshot none address = panic
  get_account_from_snapshot (some d) address = do
    file ← unwrap (lookup address d.accounts)
    (_, account) ← unwrap_result (F.read_account file)
    ok account

  abbrev pub read_params_file : Option F.Text → Result (Option X.Params)
  read_params_file none = ok none
  read_params_file (some file) = unwrap_result (F.read_params file)

  abbrev pub params_file : Option (Directory X F) → Option F.Text
  params_file none = none
  params_file (some d) = d.params

  -- `params.json` is read where it exists.
  unfoldable pub get_keyed_account_from_snapshot :
      Option (Directory X F) → Pubkey → Result (KeyedAccount X.Params)
  unfolding get_account_from_snapshot
  get_keyed_account_from_snapshot directory key = do
    account ← get_account_from_snapshot directory key
    params ← read_params_file (params_file directory)
    ok (record { key = key; account = account; params = params })

  -- `bincode` and `Clock::default()` are parameters.
  module _ {Clock : Type 0} (deserialize : Bytes → Result Clock) (default_clock : Clock) where
    abbrev pub clock_of : Option Account → Result Clock
    clock_of none = ok default_clock
    clock_of (some account) =
        unwrap_result
          (context_result (deserialize account.content) "Failed to deserialize sysvar::clock::ID")

    unfoldable pub get_clock : Pubkey → Result (Dict F.Text) → Result Clock
    get_clock clock_id globbed = do
      account_map ← load_accounts_snapshot X F globbed
      clock_of (lookup clock_id account_map)
