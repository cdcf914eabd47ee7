-- ===== src/Examples/Wallets.antt =====
-- Token accounts that differ by wallet and by mint, and the set-up of both wallets.
use exponent_jupiter_amm_imp.Prelude.{
  ℕ, ◌+◌, ◌*◌, ◌^◌, ◌≤◌, ◌<◌, ◌≡◌, ◌≢◌, refl, subst, true, false, [], ◌∷◌, ◌==◌, inl, inr, ltb,
  ltb→lt, Bool-cases, ==_iff, arith, none,
}
use exponent_jupiter_amm_imp.Prelude.Result.{ok}
use exponent_jupiter_amm_imp.Prelude.Dict.{lookup-insert}
use exponent_jupiter_amm_imp.Prelude.Sets.{member}
use exponent_jupiter_amm_imp.Solana.{Pubkey, Account, AccountMap, exact_in}
use exponent_jupiter_amm_imp.Harness.Setup.{Tokens}
use exponent_jupiter_amm_imp.Harness.Setup.Funding.{TokensLaws, Known}
use exponent_jupiter_amm_imp.Harness.Setup.Ready.{StartsLaws, HasTokens}
use exponent_jupiter_amm_imp.Constants.{usdc_mint, usdt_mint}
use exponent_jupiter_amm_imp.Jupiter.Authority.{find_jupiter_program_authority}
use exponent_jupiter_amm_imp.Harness.Bank.{ProgramTest}
use exponent_jupiter_amm_imp.Harness.Loading.{setup_wallets}
use exponent_jupiter_amm_imp.Harness.Simulation.{AmmTestSwapParams, TestAccounts, test_accounts}
use exponent_jupiter_amm_imp.Harness.Loading.Paying.{Pays, test_accounts_pay}
use exponent_jupiter_amm_imp.Harness.Loading.Ready.{setup_wallets_ready}
use exponent_jupiter_amm_imp.Examples.Setups.{small_tokens, mints}
use exponent_jupiter_amm_imp.Examples.Quotings.{small_starts, small_builders}
use exponent_jupiter_amm_imp.Examples.Libraries.{small}
use exponent_jupiter_amm_imp.Examples.Simulations.{small_bank}

abbrev pair : ℕ → ℕ → ℕ
pair w m = (w + m) * (w + m) + w

square-le : (s t : ℕ) → s < t → s * s + s + s + 1 ≤ t * t
square-le s t h = grind arith

pair_sum : (w m v k : ℕ) → w + m < v + k → pair w m < pair v k
pair_sum w m v k h = omega (arith, square-le (w + m) (v + k) h)

pair_wallet : (w m v k : ℕ) → w ≢ v → pair w m ≢ pair v k
pair_wallet w m v k differ e = elim (Bool-cases (ltb (w + m) (v + k))) [
  | inl less ↦ omega (arith, pair_sum w m v k (ltb→lt (w + m) (v + k) less), e)
  | inr more ↦ elim (Bool-cases (ltb (v + k) (w + m))) [
    | inl less ↦ omega (arith, pair_sum v k w m (ltb→lt (v + k) (w + m) less), e)
    | inr same ↦
        (let sums : w + m ≡ v + k = ground arith in
          differ (omega (arith, subst (λ s. s * s + w ≡ (v + k) * (v + k) + v) sums e)))
  ]
]

pair_mint : (w m k : ℕ) → m ≢ k → pair w m ≢ pair w k
pair_mint w m k differ e = elim (Bool-cases (ltb m k)) [
  | inl less ↦ omega (arith, pair_sum w m w k (omega (arith, ltb→lt m k less)), e)
  | inr more ↦ (let less : k < m = ground arith in omega (arith, pair_sum w k w m (omega arith), e))
]

-- Token accounts stand above every other key.
abbrev ata_of_pair : Pubkey → Pubkey → Pubkey → Pubkey
ata_of_pair wallet mint program = 2 ^ 256 + pair wallet mint

abbrev tokens : Tokens small_bank
tokens = record small_tokens { get_associated_token_address_with_program_id = ata_of_pair }

tokens-TokensLaws : TokensLaws small small_bank tokens
tokens-TokensLaws = record {
  get_set = λ k a c. ground (arith, lookup-insert k k a c);
  get_set_other = λ j k a c differ. ground (arith, lookup-insert j k a c, differ);
  ata_differs = λ wallet j k program differ e. pair_mint wallet j k differ (omega arith);
  programs_differ = ground arith;
}

tokens-StartsLaws : StartsLaws small_bank tokens small_starts
tokens-StartsLaws = record {
  fee = 5000;
  NotMade = λ wallet c. Unit {0};
  set_account-NotMade = λ wallet k a c new. new;
  transfers = λ wallet c payer own new stands pays. (
    tokens.transfer 900 wallet 1_000_000_000 ∷ [],
    c,
    payer,
    refl,
    refl,
    λ j no_payer no_wallet. refl,
    stands,
    omega arith,
    λ other differ unmade. unmade,
  );
  ata_of_wallets = λ wallet other mint mint' program differ e.
      pair_wallet wallet mint other mint' differ (omega arith);
  ata_no_payer = λ wallet mint program e. omega arith;
  IsWallet = λ k. k < 2 ^ 256;
  ata_no_wallet = λ wallet other mint program small_key e. omega arith;
}

mints-Known : (k : Pubkey) → member k mints ≡ true → Known small small_bank tokens k
mints-Known k listed = elim (Bool-cases (usdc_mint == k)) [
  | inl same ↦
      subst (Known small small_bank tokens) ((==_iff usdc_mint k).0 same) (1_110_000_000, 6, refl)
  | inr other ↦
      subst (Known small small_bank tokens) ((==_iff usdt_mint k).0 (ground arith))
        (1_110_000_000, 6, refl)
]

authority_small : find_jupiter_program_authority small 0 < 2 ^ 256
unfolding find_jupiter_program_authority
authority_small = ground arith

user_differs : 200 ≢ find_jupiter_program_authority small 0
unfolding find_jupiter_program_authority
user_differs e = ground arith

abbrev rich : Account
rich = record {
  lamports = 10_000_000_000;
  content = [];
  owner = 0;
  executable = false;
  rent_epoch = 0;
}

abbrev started : AccountMap
started = (900, rich) ∷ []

setup_wallets_ready_example :
    (test : ProgramTest) × (c' : AccountMap) × (setup_wallets small small_bank tokens small_starts
        small_builders 200 mints started
      ≡ (ok test, c'))
    × (test.program_test_user.keypair ≡ 200)
    × (test.program_test_authority.id ≡ 0)
    × (test.program_test_authority.pubkey ≡ find_jupiter_program_authority small 0)
    × ((k : Pubkey)
        → member k mints ≡ true
        → HasTokens small small_bank tokens small_starts
            test.program_test_user.mint_to_ata_with_program_id c' 200 k
          × HasTokens small small_bank tokens small_starts
              test.program_test_authority.mint_to_ata_with_program_id c'
              (find_jupiter_program_authority small 0)
              k)
unfolding tokens-StartsLaws
setup_wallets_ready_example =
    setup_wallets_ready small small_bank tokens small_starts small_builders tokens-TokensLaws
      tokens-StartsLaws 200 mints started rich user_differs (omega arith) authority_small tt tt refl
      (omega arith) mints-Known

abbrev shared_swap : AmmTestSwapParams
shared_swap = record {
  source_mint = usdc_mint;
  destination_mint = usdt_mint;
  swap_mode = exact_in;
  tolerance = 0;
  use_shared_accounts = true;
  expected_error = none;
}

test_accounts_pay_example :
    (test : ProgramTest) × (c' : AccountMap) × (t : TestAccounts) × (setup_wallets small small_bank
        tokens small_starts small_builders 200 mints started
      ≡ (ok test, c'))
    × (test_accounts test shared_swap ≡ ok t)
    × (t.token_authority ≡ find_jupiter_program_authority small 0)
    × Pays small small_bank tokens small_starts small_builders tokens-TokensLaws tokens-StartsLaws
        c' t.source_token_account t.token_authority usdc_mint
    × Pays small small_bank tokens small_starts small_builders tokens-TokensLaws tokens-StartsLaws
        c' t.user_destination_token_account 200 usdt_mint
unfolding tokens-StartsLaws
test_accounts_pay_example =
    test_accounts_pay small small_bank tokens small_starts small_builders tokens-TokensLaws
      tokens-StartsLaws 200 mints started rich shared_swap user_differs (omega arith)
      authority_small tt tt refl (omega arith) mints-Known refl refl
