-- ===== src/SplTokenSwap/Update/Effect.antt =====
-- What `update` does: all or nothing, from two accounts, and the same when it is done again.
use exponent_jupiter_amm_imp.Prelude.{ℕ, ◌<◌, ◌≡◌, refl, ◌∙◌, sym, arith, inl, inr, Option-cases}
use exponent_jupiter_amm_imp.Prelude.Result.{Result, ok, err, panic, ◌>>=◌, >>=-eq-ok, u64_mod}
use exponent_jupiter_amm_imp.Prelude.Dict.{lookup}
use exponent_jupiter_amm_imp.Solana.{Pubkey, AccountMap}
use exponent_jupiter_amm_imp.Crates.{Crates, TokenLaws, AccountDataLaws}
use exponent_jupiter_amm_imp.SplTokenSwap.Pool.{SplTokenSwapAmm}
use exponent_jupiter_amm_imp.SplTokenSwap.Pool.Build.{IsWellFormed}
use exponent_jupiter_amm_imp.SplTokenSwap.Update.{update}

module _ (X : Crates) where
  -- The balance of a token account in the map.
  abbrev pub balance : AccountMap → Pubkey → Result ℕ
  balance m k = X.try_get_account_data m k >>= X.unpack_token_amount

  abbrev pub balances : AccountMap → SplTokenSwapAmm X → Result (ℕ × ℕ)
  balances m self = do a ← balance m self.state.token_a; b ← balance m self.state.token_b; ok (a, b)

  -- The pool takes both balances, or it stays as it was and the call ends as the reading did.
  abbrev pub take_balances :
      Result (ℕ × ℕ) → SplTokenSwapAmm X → Result (Unit {0}) × SplTokenSwapAmm X
  take_balances (ok amounts) self = (ok tt, record self { reserves = amounts })
  take_balances (err e) self = (err e, self)
  take_balances panic self = (panic, self)

  -- An update sets both reserves to the balances of the two vaults, or it ends with the first
  -- failure of reading them and leaves the pool as it was.
  pub update-eq-take_balances :
      (m : AccountMap) (self : SplTokenSwapAmm X)
      → update X m self ≡ take_balances (balances m self) self
  unfolding update
  update-eq-take_balances m self = ground arith

  -- An update that is made again from the same map ends alike and changes nothing more.
  pub update_again :
      (m : AccountMap) (self : SplTokenSwapAmm X) → update X m (update X m self).1 ≡ update X m self
  unfolding update
  update_again m self = ground arith

  balance-lt :
      TokenLaws X → (m : AccountMap) (k : Pubkey) {n : ℕ} → balance m k ≡ ok n → n < u64_mod
  balance-lt L m k {n} h =
      let (bytes, _, unpacked) = >>=-eq-ok (X.try_get_account_data m k) X.unpack_token_amount h in
      L.amount-lt bytes n unpacked

  balances-lt :
      TokenLaws X
      → (m : AccountMap) (self : SplTokenSwapAmm X) {a b : ℕ} → balances m self ≡ ok (a, b)
      → (a < u64_mod) × (b < u64_mod)
  balances-lt L m self {a} {b} h =
      ground (
        arith,
        balance-lt L m self.state.token_a {n = a},
        balance-lt L m self.state.token_b {n = b},
      )

  take_balances-IsWellFormed :
      (r : Result (ℕ × ℕ)) (self : SplTokenSwapAmm X)
      → ((a b : ℕ) → r ≡ ok (a, b) → (a < u64_mod) × (b < u64_mod))
      → IsWellFormed X self
      → IsWellFormed X (take_balances r self).1
  take_balances-IsWellFormed (ok (a, b)) self fits h = ground (arith, fits a b refl)
  take_balances-IsWellFormed (err e) self fits h = h
  take_balances-IsWellFormed panic self fits h = h

  pub update-IsWellFormed :
      TokenLaws X
      → (m : AccountMap) (self : SplTokenSwapAmm X) → IsWellFormed X self
      → IsWellFormed X (update X m self).1
  update-IsWellFormed L m self h =
      rw (update-eq-take_balances m self)
        (take_balances-IsWellFormed (balances m self) self (λ a b e. balances-lt L m self e) h)

  balance_local :
      AccountDataLaws X
      → (m n : AccountMap) (k : Pubkey) → lookup k m ≡ lookup k n
      → balance m k ≡ balance n k
  balance_local L m n k same = elim (Option-cases (lookup k n)) [
    | inl missing ↦ rw (L.get_missing m k (same ∙ missing), L.get_missing n k missing)
    | inr (a, present) ↦ rw (L.get_present m k a (same ∙ present), L.get_present n k a present)
  ]

  pub update_local :
      AccountDataLaws X
      → (m n : AccountMap) (self : SplTokenSwapAmm X)
      → lookup self.state.token_a m ≡ lookup self.state.token_a n
      → lookup self.state.token_b m ≡ lookup self.state.token_b n
      → update X m self ≡ update X n self
  update_local L m n self same_a same_b = rw (
    update-eq-take_balances m self,
    update-eq-take_balances n self,
    balance_local L m n self.state.token_a same_a,
    balance_local L m n self.state.token_b same_b,
  )

  -- What a successful update has read.
  pub update_ok :
      (m : AccountMap) (self : SplTokenSwapAmm X) {self' : SplTokenSwapAmm X}
      → update X m self ≡ (ok tt, self')
      → (a b : ℕ) × (balance m self.state.token_a ≡ ok a)
        × (balance m self.state.token_b ≡ ok b)
        × (self' ≡ record self { reserves = (a, b) })
  update_ok m self {self'} done =
      inverse (balance m self.state.token_a) (balance m self.state.token_b)
        (sym (update-eq-take_balances m self) ∙ done)
    where
      inverse :
          (x y : Result ℕ)
          → take_balances (x >>= λ a. y >>= λ b. ok (a, b)) self ≡ (ok tt, self')
          → (a b : ℕ) × (x ≡ ok a) × (y ≡ ok b) × (self' ≡ record self { reserves = (a, b) })
      inverse (ok a) (ok b) e = (a, b, refl, refl, ground arith)
      inverse (ok a) (err e) h = absurd (ground arith)
      inverse (ok a) panic h = absurd (ground arith)
      inverse (err e) y h = absurd (ground arith)
      inverse panic y h = absurd (ground arith)
