-- ===== src/TestAmms/Alone.antt =====
-- The tests of a token swap pool, one by one.
use exponent_jupiter_amm_imp.Prelude.{
  ℕ, ◌≡◌, ◌≢◌, ◌↔◌, refl, ap, sym, subst, ◌∙◌, Option, none, List, [], unwrap_or, inl, inr, arith,
}
use exponent_jupiter_amm_imp.Prelude.Result.{Result, ok, err, panic, Result-cases}
use exponent_jupiter_amm_imp.Prelude.Dict.{Dict}
use exponent_jupiter_amm_imp.Prelude.Stateful.{Method, ◌>>=◌, lift, >>=_called}
use exponent_jupiter_amm_imp.Solana.{Pubkey, AccountMap}
use exponent_jupiter_amm_imp.Crates.{Crates, AccountDataLaws}
use exponent_jupiter_amm_imp.SplTokenSwap.Pool.{SplTokenSwapAmm, get_reserve_mints}
use exponent_jupiter_amm_imp.SplTokenSwap.Update.{update}
use exponent_jupiter_amm_imp.SplTokenSwap.Update.Effect.{update_again}
use exponent_jupiter_amm_imp.SplTokenSwap.Implementation.{spl_token_swap_amm}
use exponent_jupiter_amm_imp.Route.{get_token_mints_permutations}
use exponent_jupiter_amm_imp.Jupiter.Wire.{Anchor}
use exponent_jupiter_amm_imp.Harness.Bank.{Bank, ProgramTest}
use exponent_jupiter_amm_imp.Harness.Precise.{update_amm_precise, update_rounds}
use exponent_jupiter_amm_imp.Harness.Precise.Rounds.{update_rounds_settle}
use exponent_jupiter_amm_imp.Harness.Setup.{Tokens}
use exponent_jupiter_amm_imp.Harness.Setup.Wallets.{Starts}
use exponent_jupiter_amm_imp.Harness.Snapshot.Files.{Formats, load_accounts_snapshot}
use exponent_jupiter_amm_imp.Harness.Loading.Building.{Builders, add_accounts, set_clock}
use exponent_jupiter_amm_imp.Harness.Loading.{
  setup_wallets, with_context, program_builder, start_test, load_program_test,
}
use exponent_jupiter_amm_imp.TestAmms.Loop.{EachAlone, asserted_iff}
use exponent_jupiter_amm_imp.TestAmms.{Quoting, run_test, test_pair, test_quoting_with_amm}

module _ (X : Crates) (K : Bank) (T : Tokens K) (B : Starts K) (P : Builders K) (N : Anchor X)
    (F : Formats X) (keypairs : ℕ → Pubkey) (Q : Quoting (SplTokenSwapAmm X))
    (globbed : Result (Dict F.Text)) (m : AccountMap) (pool : SplTokenSwapAmm X) (n : ℕ × ℕ)
    (loaded : load_accounts_snapshot X F globbed ≡ ok m)
    (unchanged : Q.before_test_setup ≡ none) where
  abbrev held : ℕ × ℕ → SplTokenSwapAmm X
  held r = record pool { reserves = r }

  abbrev rounds : ℕ → Method (SplTokenSwapAmm X) (Unit {0})
  rounds i =
      update_rounds X (spl_token_swap_amm X) i (update_amm_precise X (spl_token_swap_amm X) m)

  -- The rounds of updates end in one state, whatever the reserves were.
  abbrev Settles : ℕ × ℕ → Type 0
  Settles r = rounds 3 (held r) ≡ (ok tt, held n)

  abbrev built : Result (Option P.Clock × P.Builder)
  built = add_accounts K P m none (program_builder X K T B P (spl_token_swap_amm X) pool)

  -- The load, from the builder with the accounts.
  abbrev after_built :
      Result (Option P.Clock × P.Builder)
      → Pubkey
      → Method (SplTokenSwapAmm X) (K.Context × ProgramTest)
  after_built (ok (clock, pt)) keypair self =
      start_test X K T B P (spl_token_swap_amm X) keypair clock pt (held n)
  after_built (err e) keypair self = (err e, self)
  after_built panic keypair self = (panic, self)

  load_eq :
      (keypair : Pubkey) (r : ℕ × ℕ)
      → Settles r
      → load_program_test X K T B P
          (spl_token_swap_amm X)
          F
          globbed
          Q.before_test_setup
          keypair
          (held r)
        ≡ after_built built keypair (held r)
  unfolding load_program_test
  load_eq keypair r settles = elim (Result-cases built) [
    | inl ((clock, pt), made) ↦
        rw (loaded, unchanged, made)
          (>>=_called (rounds 3) (λ _. start_test X K T B P (spl_token_swap_amm X) keypair clock pt)
            (held r) settles)
    | inr (inl (e, failed)) ↦ rw (loaded, unchanged, failed)
    | inr (inr failed) ↦ rw (loaded, unchanged, failed)
  ]

  -- One test of the pool.
  abbrev test : Pubkey → Pubkey × Pubkey → Method (SplTokenSwapAmm X) (Unit {0})
  test = test_pair X K T B P N F keypairs (spl_token_swap_amm X) Q globbed

  abbrev run : Pubkey × Pubkey → K.Context × ProgramTest → Method (SplTokenSwapAmm X) (Unit {0})
  run = run_test X K T B P N F keypairs (spl_token_swap_amm X) Q globbed

  test_eq :
      (keypair : Pubkey) (pair : Pubkey × Pubkey) (r : ℕ × ℕ)
      → Settles r
      → test keypair pair (held r) ≡ (after_built built keypair >>= run pair) (held r)
  unfolding test_pair
  test_eq keypair pair r settles =
      ap
        (λ (o : Result (K.Context × ProgramTest) × SplTokenSwapAmm X). elim o.0 [
          | ok started ↦ run pair started o.1
          | err e ↦ (err e, o.1)
          | panic ↦ (panic, o.1)
        ])
        (load_eq keypair r settles)

  -- What follows the builder: it ends alike from any reserves, and a success leaves one state.
  after_same :
      (made : Result (Option P.Clock × P.Builder)) (keypair : Pubkey) (pair : Pubkey × Pubkey)
      (r q : ℕ × ℕ)
      → ((after_built made keypair >>= run pair) (held r)).0
        ≡ ((after_built made keypair >>= run pair) (held q)).0
  after_same (ok (clock, pt)) keypair pair r q = refl
  after_same (err e) keypair pair r q = refl
  after_same panic keypair pair r q = refl

  run_ok :
      (started : Result (K.Context × ProgramTest)) (pair : Pubkey × Pubkey)
      (self : SplTokenSwapAmm X)
      → ((lift started >>= run pair) self).0 ≡ ok tt
      → (lift started >>= run pair) self ≡ (ok tt, self)
  unfolding run_test
  run_ok (ok started) pair self passed =
      ap {B = Result (Unit {0}) × SplTokenSwapAmm X} (λ o. (o, self)) passed
  run_ok (err e) pair self passed = absurd (ground arith)
  run_ok panic pair self passed = absurd (ground arith)

  after_ok :
      (made : Result (Option P.Clock × P.Builder)) (keypair : Pubkey) (pair : Pubkey × Pubkey)
      (r : ℕ × ℕ)
      → ((after_built made keypair >>= run pair) (held r)).0 ≡ ok tt
      → (after_built made keypair >>= run pair) (held r) ≡ (ok tt, held n)
  unfolding start_test get_reserve_mints
  after_ok (ok (clock, pt)) keypair pair r passed =
      run_ok
        (with_context X K T B P (
          setup_wallets X K T B P keypair (get_reserve_mints X pool)
            (set_clock K P clock (P.start_with_context pt))))
        pair (held n) passed
  after_ok (err e) keypair pair r passed = absurd (ground arith)
  after_ok panic keypair pair r passed = absurd (ground arith)

  -- A test ends as it does alone, and if it passes the pool is in the one state.
  test_same :
      (keypair : Pubkey) (pair : Pubkey × Pubkey) (r q : ℕ × ℕ)
      → Settles r
      → Settles q
      → (test keypair pair (held r)).0 ≡ (test keypair pair (held q)).0
  test_same keypair pair r q settles_r settles_q =
      rw (test_eq keypair pair r settles_r, test_eq keypair pair q settles_q)
        (after_same built keypair pair r q)

  test_ok :
      (keypair : Pubkey) (pair : Pubkey × Pubkey) (r : ℕ × ℕ)
      → Settles r
      → (test keypair pair (held r)).0 ≡ ok tt
      → test keypair pair (held r) ≡ (ok tt, held n)
  test_ok keypair pair r settles passed =
      test_eq keypair pair r settles
      ∙ after_ok built keypair pair r (
          ap (λ (o : Result (Unit {0}) × SplTokenSwapAmm X). o.0)
            (sym (test_eq keypair pair r settles))
          ∙ passed)

  -- A pool with some reserves, from which the rounds of updates end in the one state.
  abbrev Good : SplTokenSwapAmm X → Type 0
  Good self = (r : ℕ × ℕ) × (self ≡ held r) × Settles r

  test-Good_same :
      (keypair : Pubkey) (pair : Pubkey × Pubkey) (self : SplTokenSwapAmm X)
      → Settles pool.reserves
      → Good self
      → (test keypair pair self).0 ≡ (test keypair pair pool).0
  test-Good_same keypair pair self settles (r, same, settles_r) =
      rw same (test_same keypair pair r pool.reserves settles_r settles)

  test-Good :
      (keypair : Pubkey) (pair : Pubkey × Pubkey) (self : SplTokenSwapAmm X)
      → Settles n
      → Good self
      → (test keypair pair self).0 ≡ ok tt
      → Good (test keypair pair self).1
  test-Good keypair pair self settles_n (r, same, settles_r) passed =
      let passed' = subst (λ s. (test keypair pair s).0 ≡ ok tt) same passed in
      (
        n,
        ap (λ s. (test keypair pair s).1) same
            ∙ ap (λ (o : Result (Unit {0}) × SplTokenSwapAmm X). o.1)
                (test_ok keypair pair r settles_r passed'),
        settles_n,
      )

  reserves-Settles :
      AccountDataLaws X → update X m pool ≡ (ok tt, held n) → Settles pool.reserves × Settles n
  reserves-Settles L done =
      let again : update X m (held n) ≡ (ok tt, held n) =
        ap (λ (o : Result (Unit {0}) × SplTokenSwapAmm X). update X m o.1) (sym done)
        ∙ update_again X m pool
        ∙ done in
      (
        update_rounds_settle X L 2 m pool ∙ rw done,
        update_rounds_settle X L 2 m (held n) ∙ rw again,
      )

  -- If account data is looked up by key, the snapshot's accounts are read and update the pool, no
  -- closure changes them, and the pool's pairs of mints are listed: the tests of a token swap pool
  -- pass exactly if there is a pair at all and the test of each pair, of those given or else of
  -- those listed, passes when it is run alone on the pool as it was at first.
  pub tests_iff_alone :
      AccountDataLaws X
      → update X m pool ≡ (ok tt, held n)
      → (listed : List (Pubkey × Pubkey))
      → get_token_mints_permutations X (spl_token_swap_amm X) pool ≡ ok listed
      → let pairs = unwrap_or Q.restricted_mint_permutations listed in
        ((test_quoting_with_amm X K T B P N F keypairs (spl_token_swap_amm X) Q globbed pool).0
          ≡ ok tt)
        ↔ ((pairs ≢ [])
            × EachAlone X K T B P N F keypairs (spl_token_swap_amm X) Q globbed pool 0 pairs)
  unfolding test_quoting_with_amm
  tests_iff_alone L done listed found =
      let (settles, settles_n) = reserves-Settles L done in
      rw found (
        asserted_iff X K T B P N F keypairs (spl_token_swap_amm X) Q globbed pool Good
          (λ keypair pair self good. test-Good_same keypair pair self settles good)
          (λ keypair pair self good passed. test-Good keypair pair self settles_n good passed)
          (pool.reserves, refl, settles) (unwrap_or Q.restricted_mint_permutations listed))
