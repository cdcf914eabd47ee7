-- ===== src/Harness/OutAmount/Gained.antt =====
-- What a test of an amount that comes out has seen when it passes.
use exponent_jupiter_amm_imp.Prelude.{
  ℕ, ◌+◌, ◌≤◌, ◌≡◌, ◌↔◌, refl, ap, sym, ◌∙◌, subst, Option, some, [], ◌∷◌, leb, unwrap_or, inl, inr,
  arith,
}
use exponent_jupiter_amm_imp.Prelude.Result.{
  assert, Result, ok, unwrap, Result-cases, >>=-eq-ok, unwrap-eq-ok,
}
use exponent_jupiter_amm_imp.Prelude.Stateful.{Method, ◌>>=◌, ◌>>◌, lift, lift-eq-ok, >>=_called}
use exponent_jupiter_amm_imp.Prelude.Stateful as S
use exponent_jupiter_amm_imp.Prelude.Dict.{Dict, lookup}
use exponent_jupiter_amm_imp.Solana.{Pubkey, Instruction}
use exponent_jupiter_amm_imp.Harness.Bank.{
  Bank, ProgramTest, process_transaction, get_token_amount, attempt,
}
use exponent_jupiter_amm_imp.Harness.Bank.Seen.{
  Holds, Processed, get_token_amount-eq-Holds, process_transaction-eq-Processed,
}
use exponent_jupiter_amm_imp.Harness.Simulation.{ata_of}
use exponent_jupiter_amm_imp.Harness.Verdict.{abs_diff, checked_sub}
use exponent_jupiter_amm_imp.Harness.Verdict.Meaning.{Within}
use exponent_jupiter_amm_imp.Harness.OutAmount.{
  get_user, assert_ok, assert_out_amount_matches_simulated_swap,
}

ata_of-eq-ok :
    (atas : Dict (Pubkey × Pubkey)) (mint : Pubkey) {ata : Pubkey}
    → ata_of atas mint ≡ ok ata
    → (program_id : Pubkey) × (lookup mint atas ≡ some (ata, program_id))
ata_of-eq-ok atas mint h =
    let ((ata, program_id), found, same) = >>=-eq-ok (unwrap (lookup mint atas)) _ h in
    (program_id, unwrap-eq-ok (lookup mint atas) found ∙ ground (arith, same))

module _ (K : Bank) where
  abbrev pub swap_with : ProgramTest → Instruction → Method K.Context (Unit {0})
  swap_with self swap_instruction =
      process_transaction K (K.set_compute_unit_limit 1_400_000 ∷ swap_instruction ∷ [])
        (get_user self ∷ [])

  -- One transaction of the limit of compute units and the instruction, signed by the user, was
  -- processed, and the account of the mint that the user has holds more than before, by no more
  -- and no less than the amount up to the tolerance.
  pub record Gained (self : ProgramTest) (ix : Instruction) (output_mint : Pubkey) (out_amount : ℕ)
      (tolerance : Option ℕ) (before after : K.Context) : Type 0 where
    pub ata : Pubkey
    pub program_id : Pubkey
    pub had : ℕ
    pub has : ℕ
    pub mapped :
        lookup output_mint self.program_test_user.mint_to_ata_with_program_id
        ≡ some (ata, program_id)
    pub seen_before : Holds K before ata had
    pub processed :
        Processed K
          (K.set_compute_unit_limit 1_400_000 ∷ ix ∷ [])
          (self.program_test_user.keypair ∷ [])
          before
          after
    pub seen_after : Holds K after ata has
    pub had-le : had ≤ has
    pub close : Within (unwrap_or tolerance 0) (out_amount + had) has

  get_token_amount_reads :
      (a : Pubkey) (c : K.Context) → get_token_amount K a c ≡ ((get_token_amount K a c).0, c)
  unfolding get_token_amount
  get_token_amount_reads a c = ground arith

  get_token_amount-eq-ok :
      (a : Pubkey) (f : ℕ → Method K.Context (Unit {0})) (c : K.Context) {c' : K.Context}
      → (get_token_amount K a >>= f) c ≡ (ok tt, c')
      → (n : ℕ) × ((get_token_amount K a c).0 ≡ ok n) × (f n c ≡ (ok tt, c'))
  get_token_amount-eq-ok a f c {c'} done =
      let (n, after, seen, rest) = S.>>=-eq-ok (get_token_amount K a) f c done in
      let whole = sym (get_token_amount_reads a c) ∙ seen in
      (n, ap (λ r. r.0) whole, subst (λ s. f n s ≡ (ok tt, c')) (sym (ap (λ r. r.1) whole)) rest)

  abbrev checked :
      Method K.Context (Unit {0}) → Method K.Context (Unit {0}) → Method K.Context (Unit {0})
  checked call rest = attempt K call >>= λ r. lift (assert_ok r) >> rest

  checked-eq-ok :
      (call rest : Method K.Context (Unit {0})) (c : K.Context) {c' : K.Context}
      → checked call rest c ≡ (ok tt, c')
      → (between : K.Context) × (call c ≡ (ok tt, between)) × (rest between ≡ (ok tt, c'))
  checked-eq-ok call rest c {c'} done = elim (Result-cases (call c).0) [
    | inl (u, ended) ↦ ((call c).1, ground (arith, ended), ground (arith, ended, done))
    | inr (inl (e, failed)) ↦ absurd (ground (arith, failed, done))
    | inr (inr failed) ↦ absurd (ground (arith, failed, done))
  ]

  checked_called :
      (call rest : Method K.Context (Unit {0})) (c c' : K.Context)
      → call c ≡ (ok tt, c')
      → checked call rest c ≡ rest c'
  checked_called call rest c c' called = ground (arith, called)

  module _ (self : ProgramTest) (ix : Instruction) (input_mint output_mint : Pubkey)
      (in_amount out_amount : ℕ) (tolerance : Option ℕ) where
    abbrev judge : ℕ → ℕ → Method K.Context (Unit {0})
    judge had has = lift (unwrap (checked_sub has had)) >>= λ gained.
        lift (assert (leb (abs_diff out_amount gained) (unwrap_or tolerance 0)))

    judge-eq-ok :
        (had has : ℕ) (c : K.Context) {c' : K.Context}
        → judge had has c ≡ (ok tt, c')
        → (had ≤ has) × Within (unwrap_or tolerance 0) (out_amount + had) has × (c ≡ c')
    judge-eq-ok had has c passed = ground arith

    to_judge :
        (had has : ℕ) (c : K.Context)
        → had ≤ has
        → Within (unwrap_or tolerance 0) (out_amount + had) has
        → judge had has c ≡ (ok tt, c)
    to_judge had has c grows (above, below) = ground arith

    abbrev look_again : Pubkey → ℕ → Method K.Context (Unit {0})
    look_again ata had = get_token_amount K ata >>= judge had

    abbrev simulate : Pubkey → Method K.Context (Unit {0})
    simulate ata =
        get_token_amount K ata >>= λ had. checked (swap_with self ix) (look_again ata had)

    abbrev account : Result Pubkey
    account = ata_of self.program_test_user.mint_to_ata_with_program_id output_mint

    assert_out-eq-simulate :
        (c : K.Context)
        → assert_out_amount_matches_simulated_swap K self ix input_mint output_mint in_amount
            out_amount tolerance c
          ≡ (lift account >>= simulate) c
    unfolding assert_out_amount_matches_simulated_swap
    assert_out-eq-simulate c = refl

    passed :
        (c c' : K.Context)
        → assert_out_amount_matches_simulated_swap K self ix input_mint output_mint in_amount
            out_amount tolerance c
          ≡ (ok tt, c')
        → Gained self ix output_mint out_amount tolerance c c'
    passed c c' done =
        let (ata, mapped, at_start) =
          lift-eq-ok account simulate c (sym (assert_out-eq-simulate c) ∙ done) in
        let (program_id, found) = ata_of-eq-ok _ output_mint mapped in
        let (had, seen_before, to_swap) =
          get_token_amount-eq-ok ata (λ n. checked (swap_with self ix) (look_again ata n)) c
            at_start in
        let (c'', processed, to_look) =
          checked-eq-ok (swap_with self ix) (look_again ata had) c to_swap in
        let (has, seen_after, to_end) = get_token_amount-eq-ok ata (judge had) c'' to_look in
        let (grows, near, same) = judge-eq-ok had has c'' to_end in
        subst (Gained self ix output_mint out_amount tolerance c) same (record {
          ata = ata;
          had = had;
          has = has;
          program_id = program_id;
          mapped = found;
          seen_before = (get_token_amount-eq-Holds K ata c had).0 seen_before;
          processed = (process_transaction-eq-Processed K _ (get_user self ∷ []) c c'').0 processed;
          seen_after = (get_token_amount-eq-Holds K ata c'' has).0 seen_after;
          had-le = grows;
          close = near;
        })

    to_pass :
        (c c' : K.Context)
        → Gained self ix output_mint out_amount tolerance c c'
        → assert_out_amount_matches_simulated_swap K self ix input_mint output_mint in_amount
            out_amount tolerance c
          ≡ (ok tt, c')
    to_pass c c' h =
        assert_out-eq-simulate c
        ∙ >>=_called (lift account) simulate c (ap (λ r. (r, c)) (rw h.mapped refl))
        ∙ >>=_called (get_token_amount K h.ata)
            (λ n. checked (swap_with self ix) (look_again h.ata n)) c
            (get_token_amount_reads h.ata c
              ∙ ap (λ r. (r, c)) ((get_token_amount-eq-Holds K h.ata c h.had).1 h.seen_before))
        ∙ checked_called (swap_with self ix) (look_again h.ata h.had) c c'
            ((process_transaction-eq-Processed K _ (get_user self ∷ []) c c').1 h.processed)
        ∙ >>=_called (get_token_amount K h.ata) (judge h.had) c' (
            get_token_amount_reads h.ata c'
            ∙ ap (λ r. (r, c')) ((get_token_amount-eq-Holds K h.ata c' h.has).1 h.seen_after))
        ∙ to_judge h.had h.has c' h.had-le h.close

    -- The test of an amount that comes out passes exactly if the swap's transaction succeeded and
    -- the user's account of the output mint then holds what it held before and the amount, up to
    -- the tolerance, or exactly where none is given; the bank is then in the state after the
    -- transaction. The input mint and the amount that goes in do not matter.
    pub out_amount_iff_Gained :
        (c c' : K.Context)
        → assert_out_amount_matches_simulated_swap K self ix input_mint output_mint in_amount
              out_amount tolerance c
            ≡ (ok tt, c')
          ↔ Gained self ix output_mint out_amount tolerance c c'
    out_amount_iff_Gained c c' = (passed c c', to_pass c c')
