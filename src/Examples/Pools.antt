-- ===== src/Examples/Pools.antt =====
-- A pool of two tokens with a fee of 25 in 10000 for the pool and 5 in 10000 for its owner.
use exponent_jupiter_amm_imp.Prelude.{
  In, ℕ, ◌≡◌, refl, ◌↔◌, ◌⊎◌, false, true, none, some, List, [], ◌∷◌, get_elem?, arith,
}
use exponent_jupiter_amm_imp.Prelude.Result.{ok, err, message}
use exponent_jupiter_amm_imp.Solana.{
  Pubkey, Bytes, Account, AccountMap, KeyedAccount, exact_in, new,
}
use exponent_jupiter_amm_imp.Constants.{orca_v2, usdc_mint, usdt_mint}
use exponent_jupiter_amm_imp.Crates.{CurveSwap}
use exponent_jupiter_amm_imp.Math.Fees.{fee_pct}
use exponent_jupiter_amm_imp.Math.Fees as F
use exponent_jupiter_amm_imp.Math.Fees.Pct.{fee_pct_total}
use exponent_jupiter_amm_imp.Amm.{QuoteParams, SwapParams, SwapAndAccountMetas}
use exponent_jupiter_amm_imp.SplTokenSwap.Pool.{
  SplTokenSwapAmm, clone, from_keyed_account, get_authority, get_reserve_mints, program_label,
}
use exponent_jupiter_amm_imp.SplTokenSwap.Pool.Build.{IsWellFormed}
use exponent_jupiter_amm_imp.SplTokenSwap.Pool.Cloning.{clone-eq}
use exponent_jupiter_amm_imp.SplTokenSwap.Update.{update}
use exponent_jupiter_amm_imp.SplTokenSwap.Update.Effect.{
  balance, balances, take_balances, update-eq-take_balances,
}
use exponent_jupiter_amm_imp.SplTokenSwap.Quoting.{trade_sides, quote}
use exponent_jupiter_amm_imp.SplTokenSwap.Quoting.Reference.{
  quote-eq-reference, quote_total, reference, curve_swap, pool_fee_pct, as_quote,
}
use exponent_jupiter_amm_imp.SplTokenSwap.Metas.{get_swap_and_account_metas}
use exponent_jupiter_amm_imp.SplTokenSwap.Metas.Vaults.{quote_prices_vaults}
use exponent_jupiter_amm_imp.SplTokenSwap.Lifecycle.{built, updated, cloned, Held-IsWellFormed}
use exponent_jupiter_amm_imp.SplTokenSwap.Implementation.{spl_token_swap_amm}
use exponent_jupiter_amm_imp.Loader.{amm_factory}
use exponent_jupiter_amm_imp.Loader.Branches.{outcome, amm_factory-eq-outcome}
use exponent_jupiter_amm_imp.Route.{get_token_mints_permutations}
use exponent_jupiter_amm_imp.Route.Pairs.{Apart}
use exponent_jupiter_amm_imp.Route.Listing.{
  get_token_mints_permutations_lists, get_token_mints_permutations_of_pool,
}
use exponent_jupiter_amm_imp.Examples.Libraries.{
  small, small-SwapLaws, small-TokenLaws, small-CloneLaws, small-DecimalLaws, small-ItertoolsLaws,
}

abbrev pub account : Bytes → Account
account bytes = record {
  lamports = 1;
  content = bytes;
  owner = orca_v2;
  executable = false;
  rent_epoch = 0;
}

abbrev pub keyed : KeyedAccount (Unit {0})
keyed = record {
  key = 77;
  account =
      account (1 ∷ 101 ∷ 102 ∷ usdc_mint ∷ usdt_mint ∷ 103 ∷ 104 ∷ 25 ∷ 10_000 ∷ 5 ∷ 10_000 ∷ []);
  params = none;
}

abbrev pub vaults : AccountMap
vaults = (101, account (5_000_000 ∷ [])) ∷ (102, account (4_000_000 ∷ [])) ∷ []

abbrev pub pool_with : ℕ × ℕ → SplTokenSwapAmm small
pool_with amounts = record {
  key = 77;
  label = "Orca v2";
  state = record {
    is_initialized = true;
    bump_seed = 255;
    token_program_id = 6;
    token_a = 101;
    token_b = 102;
    pool_mint = 103;
    token_a_mint = usdc_mint;
    token_b_mint = usdt_mint;
    pool_fee_account = 104;
    fees = record {
      trade_fee_numerator = 25;
      trade_fee_denominator = 10_000;
      owner_trade_fee_numerator = 5;
      owner_trade_fee_denominator = 10_000;
      rest = tt;
    };
    swap_curve = record { curve_type = tt; calculator = tt };
  };
  reserve_mints = (usdc_mint, usdt_mint);
  reserves = amounts;
  program_id = orca_v2;
}

abbrev pub empty_pool : SplTokenSwapAmm small
empty_pool = pool_with (0, 0)

abbrev pub full_pool : SplTokenSwapAmm small
full_pool = pool_with (5_000_000, 4_000_000)

abbrev sale : QuoteParams
sale = record {
  amount = 1_000_000;
  input_mint = usdc_mint;
  output_mint = usdt_mint;
  swap_mode = exact_in;
}

abbrev swap_params : SwapParams small
swap_params = record {
  swap_mode = exact_in;
  in_amount = 1_000_000;
  out_amount = 0;
  source_mint = usdc_mint;
  destination_mint = usdt_mint;
  source_token_account = 201;
  destination_token_account = 202;
  token_transfer_authority = 200;
  quote_mint_to_referrer = none;
  jupiter_program_id = 1;
  missing_dynamic_accounts_as_default = false;
}

pub build_run : from_keyed_account small keyed tt ≡ ok empty_pool
unfolding from_keyed_account program_label
build_run = refl

pub update_run : update small vaults empty_pool ≡ (ok tt, full_pool)
unfolding update
update_run = refl

quote_run :
    quote small full_pool sale
    ≡ ok (record {
      in_amount = 1_000_000;
      out_amount = 664_999;
      fee_amount = 3_000;
      fee_mint = usdc_mint;
      fee_pct = 0;
      rest = tt;
    })
unfolding quote trade_sides fee_pct F.new
quote_run = refl

empty_pool-IsWellFormed : IsWellFormed small empty_pool
unfolding program_label
empty_pool-IsWellFormed = record {
  mint_a = refl;
  mint_b = refl;
  reserve_a_lt = omega arith;
  reserve_b_lt = omega arith;
  labelled = refl;
}

pub full_pool-IsWellFormed : IsWellFormed small full_pool
unfolding program_label
full_pool-IsWellFormed = record {
  mint_a = refl;
  mint_b = refl;
  reserve_a_lt = omega arith;
  reserve_b_lt = omega arith;
  labelled = refl;
}

quote-eq-reference_example :
    quote small full_pool sale
    ≡ reference small (curve_swap small full_pool sale) (pool_fee_pct small full_pool) sale
quote-eq-reference_example =
    quote-eq-reference small small-SwapLaws full_pool sale full_pool-IsWellFormed (omega arith)

quote_total_example :
    ((curve_swap small full_pool sale ≡ none)
      × (quote small full_pool sale ≡ err (message "quote failed")))
    ⊎ ((r : CurveSwap) × (pct : ℕ) × (curve_swap small full_pool sale ≡ some r)
        × (quote small full_pool sale ≡ ok (as_quote small sale r pct)))
quote_total_example =
    quote_total small small-SwapLaws small-DecimalLaws full_pool sale full_pool-IsWellFormed
      (omega arith) (omega arith)

metas_out : SwapAndAccountMetas small
unfolding get_swap_and_account_metas get_authority
metas_out = elim (get_swap_and_account_metas small full_pool swap_params) [
  | ok out ↦ out
  | _ ↦ record { swap = 0; account_metas = [] }
]

quote_prices_vaults_example :
    (vault_in vault_out : Pubkey) × (get_elem? metas_out.account_metas 6
      ≡ some (new vault_in false))
    × (get_elem? metas_out.account_metas 7 ≡ some (new vault_out false))
    × (balance small vaults vault_in ≡ ok (trade_sides small full_pool usdc_mint).1)
    × (balance small vaults vault_out ≡ ok (trade_sides small full_pool usdc_mint).2)
unfolding metas_out
quote_prices_vaults_example =
    quote_prices_vaults small vaults empty_pool sale swap_params empty_pool-IsWellFormed update_run
      refl refl

update-eq-take_balances_example :
    update small vaults empty_pool
    ≡ take_balances small (balances small vaults empty_pool) empty_pool
update-eq-take_balances_example = update-eq-take_balances small vaults empty_pool

clone-eq_example : clone small full_pool ≡ full_pool
clone-eq_example = clone-eq small small-CloneLaws full_pool

Held-IsWellFormed_example : IsWellFormed small (clone small (update small vaults empty_pool).1)
Held-IsWellFormed_example =
    Held-IsWellFormed small small-TokenLaws small-CloneLaws
      (cloned (updated (built keyed tt build_run) vaults))

amm_factory-eq-outcome_example :
    amm_factory small keyed tt []
    ≡ outcome small keyed (program_label orca_v2) keyed.account.content
amm_factory-eq-outcome_example = amm_factory-eq-outcome small keyed tt []

get_token_mints_permutations_of_pool_example :
    get_token_mints_permutations small (spl_token_swap_amm small) full_pool
    ≡ ok ((usdc_mint, usdt_mint) ∷ (usdt_mint, usdc_mint) ∷ [])
get_token_mints_permutations_of_pool_example =
    get_token_mints_permutations_of_pool small small-ItertoolsLaws full_pool refl

get_token_mints_permutations_lists_example :
    (ps : List (Pubkey × Pubkey)) × (get_token_mints_permutations small
        (spl_token_swap_amm small)
        full_pool
      ≡ ok ps)
    × ((a b : Pubkey) → In (a, b) ps ↔ Apart a b (get_reserve_mints small full_pool))
get_token_mints_permutations_lists_example =
    get_token_mints_permutations_lists small small-ItertoolsLaws (spl_token_swap_amm small)
      full_pool refl

fee_pct_total_example : (d : ℕ) × (fee_pct small (record { inner = full_pool.state.fees }) ≡ some d)
fee_pct_total_example =
    fee_pct_total small small-DecimalLaws (record { inner = full_pool.state.fees }) (omega arith)
