-- ===== src/Examples/Quotings.antt =====
-- The tests of the pool of `Pools`, from a snapshot, on the bank of `Simulations`.
use exponent_jupiter_amm_imp.Prelude.{ℕ, ◌+◌, ◌≡◌, ◌≢◌, ◌↔◌, refl, false, none, List, [], ◌∷◌}
use exponent_jupiter_amm_imp.Prelude.Result.{ok}
use exponent_jupiter_amm_imp.Prelude.Dict.{insert}
use exponent_jupiter_amm_imp.Solana.{Pubkey, Account, exact_in}
use exponent_jupiter_amm_imp.Constants.{usdc_mint, usdt_mint}
use exponent_jupiter_amm_imp.SplTokenSwap.Pool.{SplTokenSwapAmm, from_keyed_account}
use exponent_jupiter_amm_imp.SplTokenSwap.Implementation.{spl_token_swap_amm}
use exponent_jupiter_amm_imp.Route.Listing.{get_token_mints_permutations_of_pool}
use exponent_jupiter_amm_imp.Harness.Snapshot.Contents.{files_in}
use exponent_jupiter_amm_imp.Harness.Directories.{FileSystem, directory_name}
use exponent_jupiter_amm_imp.Harness.Snapshot.Files.{
  Directory, load_accounts, load_accounts_snapshot,
}
use exponent_jupiter_amm_imp.Harness.Setup.Wallets.{Starts}
use exponent_jupiter_amm_imp.Harness.Loading.Building.{Builders}
use exponent_jupiter_amm_imp.Harness.TakeSnapshot.{take_snapshot}
use exponent_jupiter_amm_imp.TestAmms.{Quoting, test_quoting_with_amm}
use exponent_jupiter_amm_imp.TestAmms.Key.{test_quoting_for_amm_key}
use exponent_jupiter_amm_imp.TestAmms.Loop.{EachAlone}
use exponent_jupiter_amm_imp.TestAmms.Alone.{tests_iff_alone}
use exponent_jupiter_amm_imp.TestAmms.Taken.{taken_tests_iff_alone}
use exponent_jupiter_amm_imp.Examples.Libraries.{small, small-AccountDataLaws, small-ItertoolsLaws}
use exponent_jupiter_amm_imp.Examples.Pools.{account, keyed, vaults, empty_pool, update_run}
use exponent_jupiter_amm_imp.Examples.Snapshots.{
  small_formats, small_formats-FormatLaws, small-HasRoot, keys,
}
use exponent_jupiter_amm_imp.Examples.Simulations.{small_bank}
use exponent_jupiter_amm_imp.Examples.Setups.{small_tokens}
use exponent_jupiter_amm_imp.Examples.Wires.{small_anchor}
use exponent_jupiter_amm_imp.Examples.Chains.{
  name_plain, chain, client-Answers, small_remote, small_remote-RemoteLaws, deployed, nothing,
}

abbrev pub small_starts : Starts small_bank
small_starts = record {
  last_blockhash = λ c. 1;
  process_transaction = λ tx c. (ok tt, c);
  with_base_amount = λ bytes n. ok (n ∷ []);
}

abbrev pub small_builders : Builders small_bank
small_builders = record {
  Builder = List (Pubkey × Account);
  Clock = ℕ;
  default = [];
  prefer_bpf = λ prefer pt. pt;
  deactivate_feature = λ feature pt. pt;
  add_program = λ name program pt. pt;
  add_account = insert;
  start_with_context = λ pt. pt;
  set_sysvar = λ clock c. c;
  deserialize_clock = λ bytes. ok 5;
  clock_id = 998;
  deactivated_feature = 997;
  modified_label = λ label. label;
}

abbrev user_key : ℕ → Pubkey
user_key i = 200 + i

abbrev quoting : Quoting (SplTokenSwapAmm small)
quoting = record {
  tolerance = 1;
  use_shared_accounts = false;
  swap_mode = exact_in;
  before_test_setup = none;
  expect_error = none;
  restricted_mint_permutations = none;
}

abbrev both_ways : List (Pubkey × Pubkey)
both_ways = (usdc_mint, usdt_mint) ∷ (usdt_mint, usdc_mint) ∷ []

abbrev stored : Directory small small_formats
stored = record {
  accounts = (101, (101, account (5_000_000 ∷ []))) ∷ (102, (102, account (4_000_000 ∷ []))) ∷ [];
  params = none;
}

stored_loads : load_accounts_snapshot small small_formats (ok stored.accounts) ≡ ok vaults
unfolding load_accounts_snapshot load_accounts
stored_loads = refl

tests_iff_alone_example :
    ((test_quoting_with_amm small small_bank small_tokens small_starts small_builders small_anchor
        small_formats user_key
        (spl_token_swap_amm small)
        quoting
        (ok stored.accounts)
        empty_pool).0
      ≡ ok tt)
    ↔ ((both_ways ≢ [])
        × EachAlone small small_bank small_tokens small_starts small_builders small_anchor
            small_formats user_key
            (spl_token_swap_amm small)
            quoting
            (ok stored.accounts)
            empty_pool
            0
            both_ways)
tests_iff_alone_example =
    tests_iff_alone small small_bank small_tokens small_starts small_builders small_anchor
      small_formats user_key quoting (ok stored.accounts) vaults empty_pool (5_000_000, 4_000_000)
      stored_loads refl small-AccountDataLaws update_run both_ways
      (get_token_mints_permutations_of_pool small small-ItertoolsLaws empty_pool refl)

taken_tests_iff_alone_example :
    (files : FileSystem small small_formats) × (take_snapshot small small_formats small_remote keys
        "url" "77" none false nothing
      ≡ (ok tt, files))
    × ((test_quoting_for_amm_key small small_bank small_tokens small_starts small_builders
            small_anchor small_formats user_key small_remote keys
            (spl_token_swap_amm small)
            (from_keyed_account small)
            quoting
            files
            77
            none
          ≡ ok tt)
        ↔ ((both_ways ≢ [])
            × EachAlone small small_bank small_tokens small_starts small_builders small_anchor
                small_formats user_key
                (spl_token_swap_amm small)
                quoting
                (ok (files_in (files (directory_name small 77 none))))
                empty_pool
                0
                both_ways))
taken_tests_iff_alone_example =
    taken_tests_iff_alone small small_bank small_tokens small_starts small_builders small_anchor
      small_formats user_key small_remote keys small-AccountDataLaws small-ItertoolsLaws
      small_formats-FormatLaws small_remote-RemoteLaws refl "url" "77" none chain 77 keyed.account
      empty_pool 5 (5_000_000, 4_000_000) client-Answers refl deployed quoting refl nothing
      (small-HasRoot nothing) name_plain
