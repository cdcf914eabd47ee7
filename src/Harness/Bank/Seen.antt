-- ===== src/Harness/Bank/Seen.antt =====
-- What the bank's answers say of a token account and of a transaction.
use exponent_jupiter_amm_imp.Prelude.{ℕ, ◌≡◌, ◌↔◌, ◌∙◌, ap, some, List, ◌∷◌, inl, inr, arith}
use exponent_jupiter_amm_imp.Prelude.Result.{
  Result, ok, unwrap, unwrap_result, Result-cases, unwrap-eq-ok, unwrap_result-eq-ok,
}
use exponent_jupiter_amm_imp.Prelude.Stateful.{Method, ◌>>=◌, lift, lift-eq-ok}
use exponent_jupiter_amm_imp.Solana.{Pubkey, Account, Instruction}
use exponent_jupiter_amm_imp.Harness.Bank.{Bank, process_transaction, get_token_amount, attempt}

module _ (K : Bank) where
  -- There is an account under the key, and the amount in it is `amount`.
  pub record Holds (context : K.Context) (address : Pubkey) (amount : ℕ) : Type 0 where
    pub account : Account
    pub stands : K.get_account context address ≡ ok (some account)
    pub unpacks : K.unpack_token2022_amount account.content ≡ ok amount

  -- The instructions were sent in one transaction with the latest block hash, signed by the payer
  -- and then the signers, and the bank processed it.
  pub record Processed (instructions : List Instruction) (signers : List Pubkey)
      (before after : K.Context) : Type 0 where
    pub blockhash : ℕ
    pub transaction : K.Transaction
    pub latest : K.get_latest_blockhash before ≡ ok blockhash
    pub signed :
        K.new_signed_with_payer instructions K.payer (K.payer ∷ signers) blockhash ≡ ok transaction
    pub ended : K.process_transaction_with_preflight transaction before ≡ (ok tt, after)

  abbrev unpack : Account → Method K.Context ℕ
  unpack account = lift (unwrap_result (K.unpack_token2022_amount account.content))

  pub get_token_amount-eq-Holds :
      (address : Pubkey) (c : K.Context) (n : ℕ)
      → ((get_token_amount K address c).0 ≡ ok n) ↔ Holds c address n
  unfolding get_token_amount
  get_token_amount-eq-Holds address c n = (seen, λ h. ground (arith, h.stands, h.unpacks))
    where
      seen : (get_token_amount K address c).0 ≡ ok n → Holds c address n
      seen done =
          let (found, asked, rest) =
            lift-eq-ok (unwrap_result (K.get_account c address))
              (λ found. lift (unwrap found) >>= unpack) c whole in
          let (account, there, last) = lift-eq-ok (unwrap found) unpack c rest in
          record {
            account = account;
            stands =
                unwrap_result-eq-ok (K.get_account c address) asked
                ∙ ap ok (unwrap-eq-ok found there);
            unpacks =
                unwrap_result-eq-ok (K.unpack_token2022_amount account.content)
                  (ap (λ r. r.0) last);
          }
        where
          whole : get_token_amount K address c ≡ (ok n, c)
          whole = ground (arith, done)

  pub process_transaction-eq-Processed :
      (instructions : List Instruction) (signers : List Pubkey) (c c' : K.Context)
      → (process_transaction K instructions signers c ≡ (ok tt, c'))
        ↔ Processed instructions signers c c'
  unfolding process_transaction
  process_transaction-eq-Processed instructions signers c c' =
      (sent, λ h. ground (arith, h.latest, h.signed, h.ended))
    where
      sign : ℕ → Result K.Transaction
      sign = K.new_signed_with_payer instructions K.payer (K.payer ∷ signers)

      process : K.Transaction → Method K.Context (Unit {0})
      process = K.process_transaction_with_preflight

      sent :
          process_transaction K instructions signers c ≡ (ok tt, c')
          → Processed instructions signers c c'
      sent done =
          let (blockhash, latest, rest) =
            lift-eq-ok (K.get_latest_blockhash c) (λ h. lift (sign h) >>= process) c done in
          let (transaction, signed, ended) = lift-eq-ok (sign blockhash) process c rest in
          record {
            blockhash = blockhash;
            transaction = transaction;
            latest = latest;
            signed = signed;
            ended = ended;
          }

  -- A call whose failure is kept as a value succeeded.
  pub attempt-eq-ok :
      (call : Method K.Context (Unit {0})) (c c' : K.Context)
      → (attempt K call c ≡ (ok (ok tt), c')) ↔ (call c ≡ (ok tt, c'))
  attempt-eq-ok call c c' = (kept, λ h. ground (arith, h))
    where
      kept : attempt K call c ≡ (ok (ok tt), c') → call c ≡ (ok tt, c')
      kept done = elim (Result-cases (call c).0) [
        | inl (u, ended) ↦ ground (arith, ended, done)
        | inr (inl (e, failed)) ↦ absurd (ground (arith, failed, done))
        | inr (inr failed) ↦ absurd (ground (arith, failed, done))
      ]
