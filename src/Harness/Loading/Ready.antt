-- ===== src/Harness/Loading/Ready.antt =====
-- The wallets of a program test that is loaded.
use exponent_jupiter_amm_imp.Prelude.{
  ◌+◌, ◌*◌, ◌≤◌, some, arith, ◌≡◌, ◌≢◌, refl, sym, ◌∙◌, true, false, List,
}
use exponent_jupiter_amm_imp.Prelude.Result.{ok}
use exponent_jupiter_amm_imp.Prelude.Stateful.{◌>>=◌, lift, >>=_called}
use exponent_jupiter_amm_imp.Prelude.Dict.{Dict}
use exponent_jupiter_amm_imp.Prelude.Sets.{member}
use exponent_jupiter_amm_imp.Solana.{Pubkey, Account}
use exponent_jupiter_amm_imp.Crates.{Crates}
use exponent_jupiter_amm_imp.Jupiter.Authority.{find_jupiter_program_authority}
use exponent_jupiter_amm_imp.Harness.Bank.{Bank, ProgramTest, ProgramTestUser, ProgramTestAuthority}
use exponent_jupiter_amm_imp.Harness.Setup.{Tokens}
use exponent_jupiter_amm_imp.Harness.Setup.Funding.{TokensLaws, Known, ata}
use exponent_jupiter_amm_imp.Harness.Setup.Wallets.{
  Starts, setup_token_accounts, setup_user, setup_authority,
}
use exponent_jupiter_amm_imp.Harness.Setup.Ready.{StartsLaws, HasTokens, setup_token_accounts_lem}
use exponent_jupiter_amm_imp.Harness.Loading.Building.{Builders}
use exponent_jupiter_amm_imp.Harness.Loading.{setup_wallets}

module _ (X : Crates) (K : Bank) (T : Tokens K) (B : Starts K) (P : Builders K)
    (L : TokensLaws X K T) (S : StartsLaws K T B) where
  abbrev authority : Pubkey
  authority = find_jupiter_program_authority X 0

  abbrev as_authority : Dict (Pubkey × Pubkey) → ProgramTestAuthority
  as_authority atas = record { id = 0; pubkey = authority; mint_to_ata_with_program_id = atas }

  abbrev as_user : Pubkey → Dict (Pubkey × Pubkey) → ProgramTestUser
  as_user keypair atas = record { keypair = keypair; mint_to_ata_with_program_id = atas }

  abbrev both : ProgramTestAuthority → ProgramTestUser → ProgramTest
  both a u = record { program_test_authority = a; program_test_user = u }

  authority_called :
      (mints : List Pubkey) (c c' : K.Context) {atas : Dict (Pubkey × Pubkey)}
      → setup_token_accounts X K T B authority mints false c ≡ (ok atas, c')
      → setup_authority X K T B mints c ≡ (ok (as_authority atas), c')
  unfolding setup_authority
  authority_called mints c c' done =
      >>=_called (setup_token_accounts X K T B authority mints false)
        (λ atas. lift (ok (as_authority atas))) c done

  user_called :
      (keypair : Pubkey) (mints : List Pubkey) (c c' : K.Context) {atas : Dict (Pubkey × Pubkey)}
      → setup_token_accounts X K T B keypair mints true c ≡ (ok atas, c')
      → setup_user X K T B keypair mints c ≡ (ok (as_user keypair atas), c')
  unfolding setup_user
  user_called keypair mints c c' done =
      >>=_called (setup_token_accounts X K T B keypair mints true)
        (λ atas. lift (ok (as_user keypair atas))) c done

  -- For mints of the first table, both wallets of the test are set up without a panic, where the
  -- payer has the lamports and fees of the two transfers and neither transfer was made before: the
  -- user's and the authority's map have an account for every mint, and in the bank, after both,
  -- each of these accounts holds eleven times the amount of the table. This is so if the bank keeps
  -- the accounts that are put into it and makes a transfer that can be paid and is new, token
  -- accounts differ from one another and from the wallets, and the user is not the authority.
  pub setup_wallets_ready :
      (keypair : Pubkey) (mints : List Pubkey) (c : K.Context) (payer : Account)
      → keypair ≢ find_jupiter_program_authority X 0
      → S.IsWallet keypair
      → S.IsWallet (find_jupiter_program_authority X 0)
      → S.NotMade keypair c
      → S.NotMade (find_jupiter_program_authority X 0) c
      → K.get_account c K.payer ≡ ok (some payer)
      → 2 * (1_000_000_000 + S.fee) ≤ payer.lamports
      → ((k : Pubkey) → member k mints ≡ true → Known X K T k)
      → (test : ProgramTest) × (c' : K.Context) × (setup_wallets X K T B P keypair mints c
          ≡ (ok test, c'))
        × (test.program_test_user.keypair ≡ keypair)
        × (test.program_test_authority.id ≡ 0)
        × (test.program_test_authority.pubkey ≡ find_jupiter_program_authority X 0)
        × ((k : Pubkey)
            → member k mints ≡ true
            → HasTokens X K T B test.program_test_user.mint_to_ata_with_program_id c' keypair k
              × HasTokens X K T B test.program_test_authority.mint_to_ata_with_program_id c'
                  (find_jupiter_program_authority X 0)
                  k)
  unfolding setup_wallets
  setup_wallets_ready keypair mints c payer differ own_user own_authority new_user new_authority
        stands pays known =
      let (atas_a, c1, done_a, has_a, _, payer', left, cost, unmade) =
        setup_token_accounts_lem X K T B L S authority mints false c payer own_authority
          new_authority stands (omega (arith, pays)) known in
      let (atas_u, c2, done_u, has_u, kept, _, _, _, _) =
        setup_token_accounts_lem X K T B L S keypair mints true c1 payer' own_user
          (unmade keypair differ new_user) left (omega (arith, pays, cost)) known in
      (
        both (as_authority atas_a) (as_user keypair atas_u),
        c2,
        >>=_called (setup_authority X K T B mints)
              (λ a. setup_user X K T B keypair mints >>= λ u. lift (ok (both a u))) c
              (authority_called mints c c1 done_a)
            ∙ >>=_called (setup_user X K T B keypair mints)
                (λ u. lift (ok (both (as_authority atas_a) u))) c1
                (user_called keypair mints c1 c2 done_u),
        refl,
        refl,
        refl,
        λ k listed.
            let (x, q, found, mapped, stored) = has_a k listed in
            let spl = X.spl_token_id in
            (
              has_u k listed,
              (
                x,
                q,
                found,
                mapped,
                kept (ata X K T authority k)
                      (λ j. S.ata_of_wallets authority keypair k j spl (λ e. differ (sym e)))
                      (S.ata_no_payer authority k spl)
                      (S.ata_no_wallet authority keypair k spl own_user)
                    ∙ stored,
              ),
            ),
      )
