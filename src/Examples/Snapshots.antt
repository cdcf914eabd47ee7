-- ===== src/Examples/Snapshots.antt =====
-- A snapshot of the pool of `Pools`, in files that hold the accounts themselves.
use exponent_jupiter_amm_imp.Prelude.{
  ◌≡◌, refl, false, Option, none, some, List, [], ◌∷◌, map, ◌==◌, if◌then◌else◌,
}
use exponent_jupiter_amm_imp.Prelude.Result.{Result, ok, library}
use exponent_jupiter_amm_imp.Prelude.Dict.{lookup}
use exponent_jupiter_amm_imp.Solana.{Pubkey, Account}
use exponent_jupiter_amm_imp.Constants.{usdc_mint, usdt_mint}
use exponent_jupiter_amm_imp.Harness.Amounts.{token_mint_to_in_amount}
use exponent_jupiter_amm_imp.Harness.Snapshot.Addresses.{Keys}
use exponent_jupiter_amm_imp.Harness.Snapshot.Files.{Entries, Formats}
use exponent_jupiter_amm_imp.Harness.Snapshot.Contents.{FormatLaws, files_in}
use exponent_jupiter_amm_imp.Examples.Libraries.{small}
use exponent_jupiter_amm_imp.Examples.Pools.{account}

abbrev pub small_formats : Formats small
small_formats = record {
  Text = Pubkey × Account;
  write_account = λ k a. (k, a);
  read_account = λ text. ok text;
  write_params = λ v. (0, account []);
  read_params = λ text. ok (some tt);
  is_null = λ v. false;
  not_found = library 2;
  already_exists = library 17;
  resolve = λ fs name. some name;
  glob = λ fs name. ok (files_in (fs name));
  create_file = λ text. ok tt;
}

pub small_formats-FormatLaws : FormatLaws small small_formats
small_formats-FormatLaws = record {
  read_account-write_account = λ k a. refl;
  read_params-write_params = λ v h. refl;
  create_file-ok = λ text. refl;
  HasRoot = λ fs. Unit {0};
  root_stays = λ name fs gs same root. root;
  resolve-plain = λ fs name root simple. refl;
  glob-plain = λ fs name simple. refl;
}

pub small-HasRoot : (fs : Entries (Pubkey × Account)) → small_formats-FormatLaws.HasRoot fs
unfolding small_formats-FormatLaws
small-HasRoot fs = tt

abbrev pub keys : Keys
keys = record { placeholder = 999; clock_id = 998; native_mint = 7 }

abbrev chain : Pubkey → Option Account
chain k =
    if k == 101
    then some (account (5_000_000 ∷ []))
    else if k == 102
    then some (account (4_000_000 ∷ []))
    else none

abbrev node : List Pubkey → Result (List (Option Account))
node ks = ok (map chain ks)

pub usdc_amount : lookup usdc_mint (token_mint_to_in_amount 7) ≡ some 1_110_000_000
unfolding token_mint_to_in_amount
usdc_amount = refl

pub usdt_amount : lookup usdt_mint (token_mint_to_in_amount 7) ≡ some 1_110_000_000
unfolding token_mint_to_in_amount
usdt_amount = refl
