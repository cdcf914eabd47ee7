-- ===== src/Harness/Setup/Keeping.antt =====
-- What the loop over the mints cannot change of the bank.
use exponent_jupiter_amm_imp.Prelude.{
  Bool, ℕ, ◌*◌, ◌/◌, ◌≡◌, ◌==◌, subst, ap, List, [], ◌∷◌, inl, inr, Bool-cases, if◌then◌else◌,
}
use exponent_jupiter_amm_imp.Prelude.Result.{ok, >>=-eq-ok}
use exponent_jupiter_amm_imp.Solana.{Pubkey, Account}
use exponent_jupiter_amm_imp.Crates.{Crates}
use exponent_jupiter_amm_imp.Harness.Bank.{Bank}
use exponent_jupiter_amm_imp.Harness.Setup.{
  Tokens, Progress, create_ata_account, amount_and_program, in_u64, setup_token2022, setup_token,
  setup_mint, setup_mints, setup_loop,
}

ok_injective : {A : Type 0} {a b : A} → ok a ≡ ok b → a ≡ b
ok_injective h = cc (h)

-- A predicate of the bank that no account put into it makes false.
module _ (X : Crates) (K : Bank) (T : Tokens K) (Good : K.Context → Type 0)
    (stays : (k : Pubkey) (a : Account) (c : K.Context) → Good c → Good (T.set_account k a c)) where
  setup_token_keeps :
      (wallet mint : Pubkey) (amount : ℕ) (s : Progress K) {s' : Progress K}
      → setup_token X K T wallet mint amount s ≡ ok s'
      → Good s.context
      → Good s'.context
  setup_token_keeps wallet mint amount s done good =
      let ((ata, account), _, last) =
        >>=-eq-ok (create_ata_account X K T wallet mint amount X.spl_token_id) _ done in
      subst Good (ap (λ (t : Progress K). t.context) (ok_injective last))
        (stays ata account s.context good)

  setup_mint_keeps :
      (wallet mint : Pubkey) (s : Progress K) {s' : Progress K}
      → setup_mint X K T wallet mint s ≡ ok s'
      → Good s.context
      → Good s'.context
  unfolding setup_mint
  setup_mint_keeps wallet mint s {s'} done good =
      let ((in_amount, program), _, rest) = >>=-eq-ok (amount_and_program X K T mint) _ done in
      let (product, _, last) = >>=-eq-ok (in_u64 X.overflow_checks (in_amount * 110)) _ rest in
      let branch = λ (b : Bool).
        if b
        then ok (setup_token2022 X K T wallet mint (product / 10) s)
        else setup_token X K T wallet mint (product / 10) s in
      elim (Bool-cases (program == K.spl_token_2022_id)) [
        | inl later ↦
            subst Good
              (ap (λ (t : Progress K). t.context)
                (ok_injective (subst (λ b. branch b ≡ ok s') later last)))
              good
        | inr now ↦
            setup_token_keeps wallet mint (product / 10) s (subst (λ b. branch b ≡ ok s') now last)
              good
      ]

  setup_mints_keeps :
      (wallet : Pubkey) (mints : List Pubkey) (s : Progress K) {s' : Progress K}
      → setup_mints X K T wallet mints s ≡ ok s'
      → Good s.context
      → Good s'.context
  unfolding setup_mints
  setup_mints_keeps wallet [] s done good =
      subst Good (ap (λ (t : Progress K). t.context) (ok_injective done)) good
  setup_mints_keeps wallet (mint ∷ mints) s done good =
      let (t, first, rest) = >>=-eq-ok (setup_mint X K T wallet mint s) _ done in
      setup_mints_keeps wallet mints t rest (setup_mint_keeps wallet mint s first good)

  pub setup_loop_keeps :
      (wallet : Pubkey) (c : K.Context) (mints : List Pubkey) {s : Progress K}
      → setup_loop X K T wallet c mints ≡ ok s
      → Good c
      → Good s.context
  unfolding setup_loop
  setup_loop_keeps wallet c mints done good = setup_mints_keeps wallet mints _ done good
