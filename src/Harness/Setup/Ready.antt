-- ===== src/Harness/Setup/Ready.antt =====
-- The tokens of the wallets of a program test.
use exponent_jupiter_amm_imp.Prelude.{
  ℕ, ◌+◌, ◌≤◌, ◌≡◌, ◌≢◌, ap, sym, ◌∙◌, Bool, true, some, List, [], ◌∷◌, inl, inr, Bool-cases,
}
use exponent_jupiter_amm_imp.Prelude.Result.{Result, ok, unwrap_result}
use exponent_jupiter_amm_imp.Prelude.Dict.{Dict, lookup}
use exponent_jupiter_amm_imp.Prelude.Sets.{member}
use exponent_jupiter_amm_imp.Prelude.Stateful.{Method, ◌>>◌, lift, >>=_called}
use exponent_jupiter_amm_imp.Solana.{Pubkey, Account}
use exponent_jupiter_amm_imp.Crates.{Crates}
use exponent_jupiter_amm_imp.Harness.Amounts.{token_mint_and_in_amount}
use exponent_jupiter_amm_imp.Harness.Bank.{Bank}
use exponent_jupiter_amm_imp.Harness.Setup.{Tokens, Progress, find_amount}
use exponent_jupiter_amm_imp.Harness.Setup.Funding.{TokensLaws, Known, funded, ata, setup_loop_lem}
use exponent_jupiter_amm_imp.Harness.Setup.Keeping.{setup_loop_keeps}
use exponent_jupiter_amm_imp.Harness.Setup.Wallets.{
  Starts, awaited, bootstrap_amounts, setup_token_accounts,
}

-- What the bank documents of a transfer: where the payer has the lamports and the fee, and the
-- same transfer has not been made with the last block hash, which is recent, it is signed by the
-- payer alone and succeeds. It costs the payer no more than these, changes the accounts of the payer
-- and the wallet only, and leaves the transfers to other wallets to be made. An account that is put
-- into the bank does not change what was made. Token accounts of two wallets differ, and none is a
-- wallet's own account or the payer's.
pub record StartsLaws (K : Bank) (T : Tokens K) (B : Starts K) : Type 1 where
  pub IsWallet : Pubkey → Type 0
  pub fee : ℕ
  pub NotMade : Pubkey → K.Context → Type 0
  pub set_account-NotMade :
      (wallet k : Pubkey) (a : Account) (c : K.Context)
      → NotMade wallet c
      → NotMade wallet (T.set_account k a c)
  pub transfers :
      (wallet : Pubkey) (c : K.Context) (payer : Account)
      → IsWallet wallet
      → NotMade wallet c
      → K.get_account c K.payer ≡ ok (some payer)
      → 1_000_000_000 + fee ≤ payer.lamports
      → (tx : K.Transaction) × (c' : K.Context) × (payer' : Account) × (K.new_signed_with_payer
            (T.transfer K.payer wallet 1_000_000_000 ∷ [])
            K.payer
            (K.payer ∷ [])
            (B.last_blockhash c)
          ≡ ok tx)
        × (B.process_transaction tx c ≡ (ok tt, c'))
        × ((j : Pubkey) → j ≢ K.payer → j ≢ wallet → K.get_account c' j ≡ K.get_account c j)
        × (K.get_account c' K.payer ≡ ok (some payer'))
        × (payer.lamports ≤ payer'.lamports + (1_000_000_000 + fee))
        × ((other : Pubkey) → other ≢ wallet → NotMade other c → NotMade other c')
  pub ata_of_wallets :
      (wallet other mint mint' program : Pubkey)
      → wallet ≢ other
      → T.get_associated_token_address_with_program_id wallet mint program
        ≢ T.get_associated_token_address_with_program_id other mint' program
  pub ata_no_payer :
      (wallet mint program : Pubkey)
      → T.get_associated_token_address_with_program_id wallet mint program ≢ K.payer
  pub ata_no_wallet :
      (wallet other mint program : Pubkey)
      → IsWallet other
      → T.get_associated_token_address_with_program_id wallet mint program ≢ other

module _ (X : Crates) (K : Bank) (T : Tokens K) (B : Starts K) where
  -- The map has the wallet's account of the mint, and the bank has that account with eleven times
  -- the amount of the first table.
  abbrev pub HasTokens : Dict (Pubkey × Pubkey) → K.Context → Pubkey → Pubkey → Type 0
  HasTokens atas c wallet mint =
      (x q : ℕ) × (find_amount mint X.spl_token_id (token_mint_and_in_amount K.native_mint)
        ≡ some (x, q))
      × (lookup mint atas ≡ some (ata X K T wallet mint, X.spl_token_id))
      × (K.get_account c (ata X K T wallet mint) ≡ ok (some (funded X K T wallet mint x)))

  abbrev answer : Progress K → Method K.Context (Dict (Pubkey × Pubkey))
  answer s = lift (ok s.mint_to_ata_with_program_id)

  awaited_called :
      {A : Type 0} (tx : K.Transaction) (rest : Method K.Context A) (c c' : K.Context)
      → B.process_transaction tx c ≡ (ok tt, c')
      → (awaited X K T B (B.process_transaction tx) >> rest) c ≡ rest c'
  awaited_called tx rest c c' sent =
      >>=_called (awaited X K T B (B.process_transaction tx)) (λ _. rest) c
        (ap (λ (o : Result (Unit {0}) × K.Context). (unwrap_result o.0, o.1)) sent)

  module _ (L : TokensLaws X K T) (S : StartsLaws K T B) where
    pub setup_token_accounts_lem :
        (wallet : Pubkey) (mints : List Pubkey) (with_bootstrap_amounts : Bool) (c : K.Context)
        (payer : Account)
        → S.IsWallet wallet
        → S.NotMade wallet c
        → K.get_account c K.payer ≡ ok (some payer)
        → 1_000_000_000 + S.fee ≤ payer.lamports
        → ((k : Pubkey) → member k mints ≡ true → Known X K T k)
        → (atas : Dict (Pubkey × Pubkey)) × (c' : K.Context) × (setup_token_accounts X K T B wallet
              mints with_bootstrap_amounts c
            ≡ (ok atas, c'))
          × ((k : Pubkey) → member k mints ≡ true → HasTokens atas c' wallet k)
          × ((j : Pubkey)
              → ((k : Pubkey) → j ≢ ata X K T wallet k)
              → j ≢ K.payer
              → j ≢ wallet
              → K.get_account c' j ≡ K.get_account c j)
          × (payer' : Account) × (K.get_account c' K.payer ≡ ok (some payer'))
          × (payer.lamports ≤ payer'.lamports + (1_000_000_000 + S.fee))
          × ((other : Pubkey) → other ≢ wallet → S.NotMade other c → S.NotMade other c')
    unfolding setup_token_accounts bootstrap_amounts
    setup_token_accounts_lem wallet mints flag c payer own fresh stands pays known =
        let (s, made, ixs, later, funds, others) = setup_loop_lem X K T L wallet c mints known in
        let keeps = λ (w : Pubkey) (unmade : S.NotMade w c).
          setup_loop_keeps X K T (S.NotMade w) (S.set_account-NotMade w) wallet c mints made
            unmade in
        let paid =
          others K.payer (λ k e. S.ata_no_payer wallet k X.spl_token_id (sym e)) ∙ stands in
        let (tx, c', payer', signed, sent, kept, left, cost, unmade) =
          S.transfers wallet s.context payer own (keeps wallet fresh) paid pays in
        (
          s.mint_to_ata_with_program_id,
          c',
          elim (Bool-cases flag) [
            | inl user ↦
                rw (made, ixs, signed, user, later)
                  (awaited_called tx (bootstrap_amounts X K T B [] >> answer s) s.context c' sent)
            | inr authority ↦
                rw (made, ixs, signed, authority)
                  (awaited_called tx (lift (ok tt) >> answer s) s.context c' sent)
          ],
          λ k listed.
              let h = funds k listed in
              (
                h.x,
                h.q,
                h.listed,
                h.mapped,
                kept (ata X K T wallet k) (S.ata_no_payer wallet k X.spl_token_id)
                      (S.ata_no_wallet wallet wallet k X.spl_token_id own)
                    ∙ h.stored,
              ),
          λ j apart no_payer no_wallet. kept j no_payer no_wallet ∙ others j apart,
          payer',
          left,
          cost,
          λ other differ unmade_before. unmade other differ (keeps other unmade_before),
        )
