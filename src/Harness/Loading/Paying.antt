-- ===== src/Harness/Loading/Paying.antt =====
-- The accounts that a test chooses after the wallets are set up.
use exponent_jupiter_amm_imp.Prelude.{
  ℕ, ◌+◌, ◌*◌, ◌≤◌, ◌≡◌, ◌≢◌, true, some, List, if◌then◌else◌, inl, inr, Bool-cases,
}
use exponent_jupiter_amm_imp.Prelude.Result.{ok}
use exponent_jupiter_amm_imp.Prelude.Sets.{member}
use exponent_jupiter_amm_imp.Solana.{Pubkey, Account}
use exponent_jupiter_amm_imp.Crates.{Crates}
use exponent_jupiter_amm_imp.Jupiter.Authority.{find_jupiter_program_authority}
use exponent_jupiter_amm_imp.Harness.Amounts.{token_mint_and_in_amount}
use exponent_jupiter_amm_imp.Harness.Bank.{Bank, ProgramTest}
use exponent_jupiter_amm_imp.Harness.Setup.{Tokens, find_amount}
use exponent_jupiter_amm_imp.Harness.Setup.Funding.{TokensLaws, Known, funded, ata}
use exponent_jupiter_amm_imp.Harness.Setup.Wallets.{Starts}
use exponent_jupiter_amm_imp.Harness.Setup.Ready.{StartsLaws}
use exponent_jupiter_amm_imp.Harness.Simulation.{AmmTestSwapParams, TestAccounts, test_accounts}
use exponent_jupiter_amm_imp.Harness.Loading.Building.{Builders}
use exponent_jupiter_amm_imp.Harness.Loading.{setup_wallets}
use exponent_jupiter_amm_imp.Harness.Loading.Ready.{setup_wallets_ready}

module _ (X : Crates) (K : Bank) (T : Tokens K) (B : Starts K) (P : Builders K)
    (L : TokensLaws X K T) (S : StartsLaws K T B) where
  -- The account is the wallet's for the mint, with eleven times the amount of the first table.
  abbrev pub Pays : K.Context → Pubkey → Pubkey → Pubkey → Type 0
  Pays c account wallet mint =
      (x q : ℕ) × (find_amount mint X.spl_token_id (token_mint_and_in_amount K.native_mint)
        ≡ some (x, q))
      × (K.get_account c account ≡ ok (some (funded X K T wallet mint x)))

  -- After the wallets are set up for mints of the first table, the choice of accounts for a swap
  -- between any two of them does not panic. The swap pays from an account that the signing
  -- authority owns, which is the user or, with shared accounts, the program's authority, and that
  -- account and the user's account of the destination mint hold eleven times the amounts of the
  -- table. The conditions are those of `setup_wallets_ready`.
  pub test_accounts_pay :
      (keypair : Pubkey) (mints : List Pubkey) (c : K.Context) (payer : Account)
      (p : AmmTestSwapParams)
      → keypair ≢ find_jupiter_program_authority X 0
      → S.IsWallet keypair
      → S.IsWallet (find_jupiter_program_authority X 0)
      → S.NotMade keypair c
      → S.NotMade (find_jupiter_program_authority X 0) c
      → K.get_account c K.payer ≡ ok (some payer)
      → 2 * (1_000_000_000 + S.fee) ≤ payer.lamports
      → ((k : Pubkey) → member k mints ≡ true → Known X K T k)
      → member p.source_mint mints ≡ true
      → member p.destination_mint mints ≡ true
      → (test : ProgramTest) × (c' : K.Context) × (t : TestAccounts) × (setup_wallets X K T B P
            keypair mints c
          ≡ (ok test, c'))
        × (test_accounts test p ≡ ok t)
        × (t.token_authority
            ≡ (if p.use_shared_accounts then find_jupiter_program_authority X 0 else keypair))
        × Pays c' t.source_token_account t.token_authority p.source_mint
        × Pays c' t.user_destination_token_account keypair p.destination_mint
  unfolding test_accounts
  test_accounts_pay keypair mints c payer p differ own_user own_authority new_user new_authority
        stands pays known from to =
      let (test, c', done, user, _, authority, has) =
        setup_wallets_ready X K T B P L S keypair mints c payer differ own_user own_authority
          new_user new_authority stands pays known in
      let ((x, q, found, mapped, stored), (xa, qa, found_a, mapped_a, stored_a)) =
        has p.source_mint from in
      let ((y, r, found_y, mapped_y, stored_y), (ya, ra, found_ya, mapped_ya, stored_ya)) =
        has p.destination_mint to in
      let src = p.source_mint in
      let dst = p.destination_mint in
      elim (Bool-cases p.use_shared_accounts) [
        | inl shared ↦ (
          test,
          c',
          record {
            user_source_token_account = ata X K T keypair src;
            user_destination_token_account = ata X K T keypair dst;
            source_token_account = ata X K T (find_jupiter_program_authority X 0) src;
            destination_token_account = ata X K T (find_jupiter_program_authority X 0) dst;
            token_authority = find_jupiter_program_authority X 0;
          },
          done,
          rw (mapped, mapped_a, mapped_y, mapped_ya, shared, authority),
          rw shared,
          (xa, qa, found_a, stored_a),
          (y, r, found_y, stored_y),
        )
        | inr own ↦ (
          test,
          c',
          record {
            user_source_token_account = ata X K T keypair src;
            user_destination_token_account = ata X K T keypair dst;
            source_token_account = ata X K T keypair src;
            destination_token_account = ata X K T keypair dst;
            token_authority = keypair;
          },
          done,
          rw (mapped, mapped_a, mapped_y, mapped_ya, own, user),
          rw own,
          (x, q, found, stored),
          (y, r, found_y, stored_y),
        )
      ]
