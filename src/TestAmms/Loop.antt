-- ===== src/TestAmms/Loop.antt =====
-- The loop of the tests, over a pool whose tests can be repeated.
use exponent_jupiter_amm_imp.Prelude.{
  ℕ, suc, ◌≡◌, ◌≢◌, ◌↔◌, refl, ap, sym, ◌∙◌, Bool, true, false, List, [], ◌∷◌, inl, inr, arith,
}
use exponent_jupiter_amm_imp.Prelude.Result.{assert, Result, ok, Result-cases}
use exponent_jupiter_amm_imp.Prelude.Dict.{Dict}
use exponent_jupiter_amm_imp.Prelude.Stateful.{Method, ◌>>=◌, lift, >>=_called}
use exponent_jupiter_amm_imp.Solana.{Pubkey}
use exponent_jupiter_amm_imp.Crates.{Crates}
use exponent_jupiter_amm_imp.Amm.{Amm}
use exponent_jupiter_amm_imp.Jupiter.Wire.{Anchor}
use exponent_jupiter_amm_imp.Harness.Bank.{Bank}
use exponent_jupiter_amm_imp.Harness.Setup.{Tokens}
use exponent_jupiter_amm_imp.Harness.Setup.Wallets.{Starts}
use exponent_jupiter_amm_imp.Harness.Snapshot.Files.{Formats}
use exponent_jupiter_amm_imp.Harness.Loading.Building.{Builders}
use exponent_jupiter_amm_imp.TestAmms.{Quoting, test_pair, test_pairs}

-- Each test passes by itself, with the user of its round, on one pool.
abbrev pub EachAlone :
    (X : Crates) (K : Bank) (T : Tokens K) (B : Starts K) (P : Builders K) (N : Anchor X)
    (F : Formats X) (keypairs : ℕ → Pubkey) (amm : Amm X)
    → Quoting amm.Self
    → Result (Dict F.Text)
    → amm.Self
    → ℕ
    → List (Pubkey × Pubkey)
    → Type 0
EachAlone X K T B P N F keypairs amm Q globbed pool i [] = Unit {0}
EachAlone X K T B P N F keypairs amm Q globbed pool i (pair ∷ pairs) =
    ((test_pair X K T B P N F keypairs amm Q globbed (keypairs i) pair pool).0 ≡ ok tt)
    × EachAlone X K T B P N F keypairs amm Q globbed pool (suc i) pairs

module _ (X : Crates) (K : Bank) (T : Tokens K) (B : Starts K) (P : Builders K) (N : Anchor X)
    (F : Formats X) (keypairs : ℕ → Pubkey) (amm : Amm X) (Q : Quoting amm.Self)
    (globbed : Result (Dict F.Text)) (pool : amm.Self) where
  abbrev test : Pubkey → Pubkey × Pubkey → Method amm.Self (Unit {0})
  test = test_pair X K T B P N F keypairs amm Q globbed

  abbrev tests : ℕ → Bool → List (Pubkey × Pubkey) → Method amm.Self Bool
  tests = test_pairs X K T B P N F keypairs amm Q globbed

  abbrev EachPasses : ℕ → List (Pubkey × Pubkey) → Type 0
  EachPasses = EachAlone X K T B P N F keypairs amm Q globbed pool

  -- `one_test_passed` after the loop.
  abbrev flag : Bool → List (Pubkey × Pubkey) → Bool
  flag passed [] = passed
  flag passed (_ ∷ _) = true

  flag-true : (pairs : List (Pubkey × Pubkey)) → flag true pairs ≡ true
  flag-true [] = refl
  flag-true (_ ∷ _) = refl

  tests_step :
      (i : ℕ) (passed : Bool) (pair : Pubkey × Pubkey) (pairs : List (Pubkey × Pubkey))
      (self : amm.Self)
      → (test (keypairs i) pair self).0 ≡ ok tt
      → tests i passed (pair ∷ pairs) self
        ≡ tests (suc i) true pairs (test (keypairs i) pair self).1
  unfolding test_pairs
  tests_step i passed pair pairs self first =
      >>=_called (test (keypairs i) pair) (λ _. tests (suc i) true pairs) self
        (ap {B = Result (Unit {0}) × amm.Self} (λ o. (o, (test (keypairs i) pair self).1)) first)

  -- From each good state a test ends as from the pool's, and one that passes leaves a good state.
  module _ (Good : amm.Self → Type 0)
      (same : (keypair : Pubkey) (pair : Pubkey × Pubkey) (self : amm.Self)
        → Good self
        → (test keypair pair self).0 ≡ (test keypair pair pool).0)
      (keeps : (keypair : Pubkey) (pair : Pubkey × Pubkey) (self : amm.Self)
        → Good self
        → (test keypair pair self).0 ≡ ok tt
        → Good (test keypair pair self).1) where
    tests_pass :
        (i : ℕ) (passed : Bool) (pairs : List (Pubkey × Pubkey)) (self : amm.Self)
        → Good self
        → EachPasses i pairs
        → (tests i passed pairs self).0 ≡ ok (flag passed pairs)
    unfolding test_pairs
    tests_pass i passed [] self good each = refl
    tests_pass i passed (pair ∷ pairs) self good (first, each) =
        let here = same (keypairs i) pair self good ∙ first in
        ap (λ (o : Result Bool × amm.Self). o.0) (tests_step i passed pair pairs self here)
        ∙ tests_pass (suc i) true pairs (test (keypairs i) pair self).1
            (keeps (keypairs i) pair self good here) each
        ∙ ap ok (flag-true pairs)

    tests_passed :
        (i : ℕ) (passed : Bool) (pairs : List (Pubkey × Pubkey)) (self : amm.Self) {b : Bool}
        → Good self
        → (tests i passed pairs self).0 ≡ ok b
        → EachPasses i pairs
    unfolding test_pairs
    tests_passed i passed [] self good done = tt
    tests_passed i passed (pair ∷ pairs) self {b} good done =
        elim (Result-cases (test (keypairs i) pair self).0) [
          | inl (u, first) ↦
              (let rest =
                  ap (λ (o : Result Bool × amm.Self). o.0)
                    (sym (tests_step i passed pair pairs self first))
                  ∙ done in
                (
                  sym (same (keypairs i) pair self good) ∙ first,
                  tests_passed (suc i) true pairs (test (keypairs i) pair self).1
                      (keeps (keypairs i) pair self good first) rest,
                ))
          | inr (inl (e, failed)) ↦ absurd (ground (arith, failed, done))
          | inr (inr failed) ↦ absurd (ground (arith, failed, done))
        ]

    -- The loop with the assertion after it.
    abbrev asserted : List (Pubkey × Pubkey) → Method amm.Self (Unit {0})
    asserted pairs = tests 0 false pairs >>= λ one_test_passed. lift (assert one_test_passed)

    pub asserted_iff :
        Good pool
        → (pairs : List (Pubkey × Pubkey))
        → ((asserted pairs pool).0 ≡ ok tt) ↔ ((pairs ≢ []) × EachPasses 0 pairs)
    unfolding test_pairs
    asserted_iff good [] = (λ done. absurd (ground arith), λ (listed, _). absurd (listed refl))
    asserted_iff good (pair ∷ pairs) =
        let all = pair ∷ pairs in
        (
          λ done. elim (Result-cases (tests 0 false all pool).0) [
            | inl (b, ended) ↦ (λ e. ground arith, tests_passed 0 false all pool good ended)
            | inr (inl (e, failed)) ↦ absurd (ground (arith, failed, done))
            | inr (inr failed) ↦ absurd (ground (arith, failed, done))
          ],
          λ (_, each). ground (arith, tests_pass 0 false all pool good each),
        )
