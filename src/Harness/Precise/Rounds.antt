-- ===== src/Harness/Precise/Rounds.antt =====
-- Rounds of updates of a token swap pool, and what they leave.
use exponent_jupiter_amm_imp.Prelude.{
  ℕ, zero, suc, ◌≡◌, ◌≢◌, ◌∙◌, ap, fun_ext, Option, some, List, [], ◌∷◌, arith,
}
use exponent_jupiter_amm_imp.Prelude.Result.{Result, ok, unwrap_result}
use exponent_jupiter_amm_imp.Prelude.Stateful.{Method}
use exponent_jupiter_amm_imp.Prelude.Dict.{lookup, insert}
use exponent_jupiter_amm_imp.Solana.{Pubkey, Account, AccountMap}
use exponent_jupiter_amm_imp.Crates.{Crates, AccountDataLaws}
use exponent_jupiter_amm_imp.Amm.{Amm}
use exponent_jupiter_amm_imp.SplTokenSwap.Pool.{SplTokenSwapAmm, get_accounts_to_update}
use exponent_jupiter_amm_imp.SplTokenSwap.Update.{update}
use exponent_jupiter_amm_imp.SplTokenSwap.Update.Effect.{update-eq-take_balances, update_again}
use exponent_jupiter_amm_imp.SplTokenSwap.Implementation.{spl_token_swap_amm}
use exponent_jupiter_amm_imp.Harness.Precise.{
  fetched, update_amm_precise, update_amm, update_rounds,
}
use exponent_jupiter_amm_imp.Harness.Precise.Agreement.{update_amm_precise-eq-update}

module _ (X : Crates) (amm : Amm X) (call : Method amm.Self (Unit {0})) where
  -- A call that succeeds, and again with no further change, does so in any number of rounds.
  pub update_rounds_fixed :
      (rounds : ℕ) (self self' : amm.Self)
      → call self ≡ (ok tt, self')
      → call self' ≡ (ok tt, self')
      → update_rounds X amm (suc rounds) call self ≡ (ok tt, self')
  unfolding update_rounds
  update_rounds_fixed zero self self' first again = ground arith
  update_rounds_fixed (suc rounds) self self' first again =
      ground (arith, update_rounds_fixed rounds self' self' again again)

module _ (X : Crates) (L : AccountDataLaws X) where
  -- A call that changes nothing more when it is made again after a success.
  rounds_settle :
      (rounds : ℕ) (m : AccountMap) (self : SplTokenSwapAmm X)
      → update_rounds X (spl_token_swap_amm X) (suc rounds) (update X m) self
        ≡ (unwrap_result (update X m self).0, (update X m self).1)
  unfolding update_rounds
  rounds_settle zero m self = ground arith
  rounds_settle (suc rounds) m self =
      ground (arith, rounds_settle rounds m (update X m self).1, update_again X m self)

  -- If account data is looked up by key: however many rounds of updates from one map are made, if
  -- there is one at all, a token swap pool ends as after the first: with both balances, or with a
  -- panic where the first update failed, and its state unchanged then.
  pub update_rounds_settle :
      (rounds : ℕ) (m : AccountMap) (self : SplTokenSwapAmm X)
      → update_rounds X
          (spl_token_swap_amm X)
          (suc rounds)
          (update_amm_precise X (spl_token_swap_amm X) m)
          self
        ≡ (unwrap_result (update X m self).0, (update X m self).1)
  update_rounds_settle rounds m self =
      ap
        (λ (call : AccountMap → Method (SplTokenSwapAmm X) (Unit {0})).
          update_rounds X (spl_token_swap_amm X) (suc rounds) (call m) self)
        (fun_ext (λ n. fun_ext (λ s. update_amm_precise-eq-update X L n s)))
      ∙ rounds_settle rounds m self

  pub update_from :
      (m : AccountMap) (self : SplTokenSwapAmm X) (a b : Account) (x y : ℕ)
      → lookup self.state.token_a m ≡ some a
      → lookup self.state.token_b m ≡ some b
      → X.unpack_token_amount a.content ≡ ok x
      → X.unpack_token_amount b.content ≡ ok y
      → update X m self ≡ (ok tt, record self { reserves = (x, y) })
  update_from m self a b x y found_a found_b unpacked_a unpacked_b =
      update-eq-take_balances X m self
      ∙ rw (
        L.get_present m self.state.token_a a found_a,
        L.get_present m self.state.token_b b found_b,
        unpacked_a,
        unpacked_b,
      )

  -- If account data is looked up by key, a pool whose two vaults differ and for which the node
  -- returned two token accounts holds their balances after it is updated from the chain, the first
  -- vault's in its first reserve.
  pub update_amm_reads :
      (node : List Pubkey → Result (List (Option Account))) (self : SplTokenSwapAmm X)
      → {a b : Account} {x y : ℕ} → self.state.token_a ≢ self.state.token_b
      → node (self.state.token_a ∷ self.state.token_b ∷ []) ≡ ok (some a ∷ some b ∷ [])
      → X.unpack_token_amount a.content ≡ ok x
      → X.unpack_token_amount b.content ≡ ok y
      → update_amm X (spl_token_swap_amm X) node self ≡ (ok tt, record self { reserves = (x, y) })
  unfolding update_amm get_accounts_to_update fetched
  update_amm_reads node self {a} {b} {x} {y} differ answer unpacked_a unpacked_b =
      let m = insert self.state.token_b b (insert self.state.token_a a []) in
      let done = update_from m self a b x y (ground arith) (ground arith) unpacked_a unpacked_b in
      rw (answer, done)
