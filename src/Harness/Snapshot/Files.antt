-- ===== src/Harness/Snapshot/Files.antt =====
-- The files of a snapshot, written and read: lines 624 to 651 and 814 to 862 of
-- jupiter-core/src/amms/test_harness.rs.
use exponent_jupiter_amm_imp.Prelude.{
  String, Bool, Option, none, some, List, [], ◌∷◌, if◌then◌else◌,
}
use exponent_jupiter_amm_imp.Prelude.Result.{Error, Result, ok, err, unwrap_result}
use exponent_jupiter_amm_imp.Prelude.Result as R
use exponent_jupiter_amm_imp.Prelude.Stateful.{Method, ◌>>=◌, ◌>>◌, lift}
use exponent_jupiter_amm_imp.Prelude.Dict.{Dict, insert}
use exponent_jupiter_amm_imp.Solana.{Pubkey, Account, AccountMap}
use exponent_jupiter_amm_imp.Crates.{Crates}
use exponent_jupiter_amm_imp.Amm.{Amm}
use exponent_jupiter_amm_imp.Harness.Precise.{update_amm_precise, unwrapped}
use exponent_jupiter_amm_imp.Harness.Snapshot.Addresses.{Keys, addresses_for_snapshot}

-- A directory: the texts of its files `<address>.json`, by address, and of `params.json`.
pub record Stored (Text Params : Type 0) : Type 0 where
  pub accounts : Dict Text
  pub params : Option Params

-- What stands under each name in tests/fixtures/accounts.
abbrev pub Entries : Type 0 → Type 0
Entries Text = String → Option (Stored Text Text)

-- The formats of the files, by `serde_json` and `encode_ui_account`, the file system and the crate
-- `glob`. `is_null` tells `Value::Null`, which is read as no value. `resolve` is where a path under
-- tests/fixtures/accounts leads: the name that it leads to, or none where the directory that its
-- last part must be in is not there. `glob` is what the pattern of a path and `/*.json` gives: the
-- files of every directory that matches, or an error where it is no pattern. `create_file` is how
-- `File::create` and `write_all` of a text end.
pub record Formats (X : Crates) : Type 1 where
  pub Text : Type 0
  pub write_account : Pubkey → Account → Text
  pub read_account : Text → Result (Pubkey × Account)
  pub write_params : X.Params → Text
  pub read_params : Text → Result (Option X.Params)
  pub is_null : X.Params → Bool
  pub not_found : Error
  pub already_exists : Error
  pub resolve : Entries Text → String → Option String
  pub glob : Entries Text → String → Result (Dict Text)
  pub create_file : Text → Result (Unit {0})

module _ (X : Crates) (F : Formats X) where
  abbrev pub Directory : Type 0
  Directory = Stored F.Text F.Text

  -- Where a path leads: to nowhere, to nothing in a directory that is there, or to a directory.
  pub data Place : Type 0 where
    no_parent vacant : Place
    directory : Directory → Place

  abbrev pub remove_dir_all : Method Place (Unit {0})
  remove_dir_all no_parent = (err F.not_found, no_parent)
  remove_dir_all vacant = (err F.not_found, vacant)
  remove_dir_all (directory d) = (ok tt, vacant)

  abbrev pub create_dir : Method Place (Unit {0})
  create_dir no_parent = (err F.not_found, no_parent)
  create_dir vacant = (ok tt, directory (record { accounts = []; params = none }))
  create_dir (directory d) = (err F.already_exists, directory d)

  -- A file that is made by an address, or a panic.
  abbrev pub write_file : Pubkey → F.Text → Method (Dict F.Text) (Unit {0})
  write_file address text files = elim (unwrap_result (F.create_file text)) [
    | ok u ↦ (ok tt, insert address text files)
    | err e ↦ (err e, files)
    | R.panic ↦ (R.panic, files)
  ]

  abbrev pub create_params : Option X.Params → Method Directory (Unit {0})
  create_params none d = (ok tt, d)
  create_params (some v) d = elim (unwrap_result (F.create_file (F.write_params v))) [
    | ok u ↦ (ok tt, record d { params = some (F.write_params v) })
    | err e ↦ (err e, d)
    | R.panic ↦ (R.panic, d)
  ]

  -- The files of the accounts that the node returned, programs left out.
  unfoldable pub create_accounts :
      List (Option Account) → List Pubkey → Method (Dict F.Text) (Unit {0})
  create_accounts (some account ∷ accounts) (address ∷ addresses) =
      let rest = create_accounts accounts addresses in
      if account.executable
      then rest
      else write_file address (F.write_account address account) >> rest
  create_accounts (none ∷ accounts) (address ∷ addresses) = create_accounts accounts addresses
  create_accounts _ _ = lift (ok tt)

  abbrev pub with_accounts : Method (Dict F.Text) (Unit {0}) → Method Directory (Unit {0})
  with_accounts call d = let (r, files) = call d.accounts in (r, record d { accounts = files })

  abbrev pub in_directory : Method Directory (Unit {0}) → Method Place (Unit {0})
  in_directory call no_parent = (ok tt, no_parent)
  in_directory call vacant = (ok tt, vacant)
  in_directory call (directory d) = let (r, d') = call d in (r, directory d')

  unfoldable pub snapshot_amm_accounts :
      Keys
      → (List Pubkey → Result (List (Option Account)))
      → (amm : Amm X) → amm.Self
      → Option X.Params
      → Bool
      → Method Place (Unit {0})
  snapshot_amm_accounts Z get_multiple_accounts amm pool params force = do
    addresses ← lift (addresses_for_snapshot X Z amm pool)
    (if force then remove_dir_all else lift (ok tt)) >> create_dir
    in_directory (create_params params)
    accounts ← lift (unwrap_result (get_multiple_accounts addresses))
    in_directory (with_accounts (create_accounts accounts addresses))

  -- The accounts of the files. The address is the one inside the file.
  unfoldable pub load_accounts : Dict F.Text → AccountMap → Result AccountMap
  load_accounts [] account_map = ok account_map
  load_accounts (file ∷ files) account_map = elim (unwrap_result (F.read_account file.1)) [
    | ok entry ↦ load_accounts files (insert entry.0 entry.1 account_map)
    | err e ↦ err e
    | R.panic ↦ R.panic
  ]

  -- The files are what `glob` gave; a pattern that is none is a panic.
  unfoldable pub load_accounts_snapshot : Result (Dict F.Text) → Result AccountMap
  load_accounts_snapshot globbed = elim (unwrap_result globbed) [
    | ok files ↦ load_accounts files []
    | err e ↦ err e
    | R.panic ↦ R.panic
  ]

  unfoldable pub update_amm_from_snapshot :
      Result (Dict F.Text) → (amm : Amm X) → Method amm.Self (Unit {0})
  update_amm_from_snapshot globbed amm = do
    accounts_snapshot ← lift (load_accounts_snapshot globbed)
    unwrapped X amm (update_amm_precise X amm accounts_snapshot)
    lift (ok tt)
