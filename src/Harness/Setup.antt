-- ===== src/Harness/Setup.antt =====
-- The token accounts that the harness sets up: the loop of `setup_token_accounts` (lines 865 to
-- 929 of jupiter-core/src/amms/test_harness.rs) and `create_ata_account` (lines 965 to 1003).
pub mod Funding
pub mod Wallets
pub mod Keeping
pub mod Ready
use exponent_jupiter_amm_imp.Prelude.{
  ℕ, ◌+◌, ◌*◌, ◌/◌, ◌%◌, Bool, true, false, Option, none, some, List, [], ◌∷◌, ltb, ◌==◌,
  if◌then◌else◌, ◌++◌,
}
use exponent_jupiter_amm_imp.Prelude.Result.{
  Result, ok, err, panic, ◌>>=◌, unwrap, unwrap_result, u64_mod,
}
use exponent_jupiter_amm_imp.Prelude.Dict.{Dict, insert}
use exponent_jupiter_amm_imp.Solana.{Pubkey, Bytes, Account, Instruction}
use exponent_jupiter_amm_imp.Crates.{Crates}
use exponent_jupiter_amm_imp.Harness.Amounts.{
  token_mint_and_in_amount, token2022_mint_and_in_amount,
}
use exponent_jupiter_amm_imp.Harness.Bank.{Bank}

-- `spl_token::state::Account`, whose state the program sets to `Initialized`.
pub record TokenAccount : Type 0 where
  pub mint : Pubkey
  pub owner : Pubkey
  pub amount : ℕ
  pub delegate : Option Pubkey
  pub is_native : Option ℕ
  pub delegated_amount : ℕ
  pub close_authority : Option Pubkey

-- What the set-up calls of `spl_associated_token_account`, `spl_token`, the system program and the
-- bank.
pub record Tokens (K : Bank) : Type 0 where
  pub get_associated_token_address_with_program_id : Pubkey → Pubkey → Pubkey → Pubkey
  pub create_associated_token_account : Pubkey → Pubkey → Pubkey → Pubkey → Instruction
  pub transfer : Pubkey → Pubkey → ℕ → Instruction
  pub pack : TokenAccount → Bytes
  pub set_account : Pubkey → Account → K.Context → K.Context

-- `find_map` over a table of mints, with the program of the table's tokens.
abbrev pub find_amount : Pubkey → Pubkey → List (Pubkey × ℕ) → Option (ℕ × Pubkey)
find_amount reserve_mint program [] = none
find_amount reserve_mint program (entry ∷ entries) =
    if entry.0 == reserve_mint
    then some (entry.1, program)
    else find_amount reserve_mint program entries

-- `a * b` and `a + b` in `u64`: with overflow checks an overflow panics, without them it wraps.
abbrev pub in_u64 : Bool → ℕ → Result ℕ
in_u64 checks n = if ltb n u64_mod then ok n else if checks then panic else ok (n % u64_mod)

-- What the loop over the mints holds: the instructions, the two maps and the bank.
pub record Progress (K : Bank) : Type 0 where
  pub setup_ixs : List Instruction
  pub mint_to_ata_with_program_id : Dict (Pubkey × Pubkey)
  pub ata_to_set_amount : Dict ℕ
  pub context : K.Context

module _ (X : Crates) (K : Bank) (T : Tokens K) where
  unfoldable pub create_ata_account : Pubkey → Pubkey → ℕ → Pubkey → Result (Pubkey × Account)
  create_ata_account user mint amount token_program_id = do
    let native = mint == K.native_mint
    lamports ← (if native then in_u64 X.overflow_checks (amount + 2_039_280) else ok 10_000_000)
    ok (
      T.get_associated_token_address_with_program_id user mint token_program_id,
      record {
        lamports = lamports;
        content = T.pack (record {
          mint = mint;
          owner = user;
          amount = amount;
          delegate = none;
          is_native = if native then some 2_039_280 else none;
          delegated_amount = 0;
          close_authority = none;
        });
        owner = token_program_id;
        executable = false;
        rent_epoch = 0;
      },
    )

  -- The amount of a mint with its token program: the first table, then the second.
  unfoldable pub amount_and_program : Pubkey → Result (ℕ × Pubkey)
  amount_and_program reserve_mint =
      elim (find_amount reserve_mint X.spl_token_id (token_mint_and_in_amount K.native_mint)) [
        | some found ↦ ok found
        | none ↦ unwrap (find_amount reserve_mint K.spl_token_2022_id token2022_mint_and_in_amount)
      ]

  -- The map records `spl_token::ID` for either token program.
  abbrev pub record_ata : Pubkey → Pubkey → Progress K → Progress K
  record_ata reserve_mint ata s = record s {
    mint_to_ata_with_program_id =
        insert reserve_mint (ata, X.spl_token_id) s.mint_to_ata_with_program_id;
  }

  -- A mint of `spl_token_2022`: the account is made by an instruction and funded later.
  abbrev pub setup_token2022 : Pubkey → Pubkey → ℕ → Progress K → Progress K
  setup_token2022 wallet reserve_mint set_amount s =
      let program = K.spl_token_2022_id in
      let ata = T.get_associated_token_address_with_program_id wallet reserve_mint program in
      let ix = T.create_associated_token_account K.payer wallet reserve_mint program in
      record_ata reserve_mint ata (record s {
        setup_ixs = s.setup_ixs ++ (ix ∷ []);
        ata_to_set_amount = insert ata set_amount s.ata_to_set_amount;
      })

  -- A mint of `spl_token`: the account is put into the bank.
  abbrev pub setup_token : Pubkey → Pubkey → ℕ → Progress K → Result (Progress K)
  setup_token wallet reserve_mint set_amount s = do
    (ata, account) ← create_ata_account wallet reserve_mint set_amount X.spl_token_id
    ok (record_ata reserve_mint ata (record s { context = T.set_account ata account s.context }))

  unfoldable pub setup_mint : Pubkey → Pubkey → Progress K → Result (Progress K)
  setup_mint wallet reserve_mint s = do
    (in_amount, token_program_id) ← amount_and_program reserve_mint
    product ← in_u64 X.overflow_checks (in_amount * 110)
    (if token_program_id == K.spl_token_2022_id
        then ok (setup_token2022 wallet reserve_mint (product / 10) s)
        else setup_token wallet reserve_mint (product / 10) s)

  unfoldable pub setup_mints : Pubkey → List Pubkey → Progress K → Result (Progress K)
  setup_mints wallet [] s = ok s
  setup_mints wallet (reserve_mint ∷ reserve_mints) s =
      setup_mint wallet reserve_mint s >>= setup_mints wallet reserve_mints

  -- The loop over the mints, from the transfer of lamports to the wallet and empty maps.
  unfoldable pub setup_loop : Pubkey → K.Context → List Pubkey → Result (Progress K)
  setup_loop wallet context reserve_mints = setup_mints wallet reserve_mints (record {
    setup_ixs = T.transfer K.payer wallet 1_000_000_000 ∷ [];
    mint_to_ata_with_program_id = [];
    ata_to_set_amount = [];
    context = context;
  })
