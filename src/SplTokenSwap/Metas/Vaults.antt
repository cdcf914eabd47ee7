-- ===== src/SplTokenSwap/Metas/Vaults.antt =====
-- The swap instruction names the vaults whose balances the quote was computed from.
use exponent_jupiter_amm_imp.Prelude.{
  ℕ, ◌≡◌, ◌∙◌, sym, ap, false, some, arith, inl, inr, Bool-cases, ◌==◌, get_elem?,
}
use exponent_jupiter_amm_imp.Prelude.Result.{ok}
use exponent_jupiter_amm_imp.Solana.{Pubkey, AccountMap, new}
use exponent_jupiter_amm_imp.Crates.{Crates}
use exponent_jupiter_amm_imp.Amm.{QuoteParams, SwapParams, SwapAndAccountMetas}
use exponent_jupiter_amm_imp.SplTokenSwap.Pool.{SplTokenSwapAmm}
use exponent_jupiter_amm_imp.SplTokenSwap.Pool.Build.{IsWellFormed}
use exponent_jupiter_amm_imp.SplTokenSwap.Update.{update}
use exponent_jupiter_amm_imp.SplTokenSwap.Update.Effect.{balance, update_ok}
use exponent_jupiter_amm_imp.SplTokenSwap.Quoting.{trade_sides}
use exponent_jupiter_amm_imp.SplTokenSwap.Metas.{swap_vaults, get_swap_and_account_metas}

module _ (X : Crates) where
  metas_vaults :
      (self : SplTokenSwapAmm X) (s : SwapParams X) {out : SwapAndAccountMetas X}
      → get_swap_and_account_metas X self s ≡ ok out
      → (get_elem? out.account_metas 6 ≡ some (new (swap_vaults X self s.source_mint).0 false))
        × (get_elem? out.account_metas 7 ≡ some (new (swap_vaults X self s.source_mint).1 false))
  unfolding get_swap_and_account_metas
  metas_vaults self s h = ground arith

  sides_of_vaults :
      (m : AccountMap) (self : SplTokenSwapAmm X) (mint : Pubkey) (a b : ℕ)
      → self.reserve_mints.0 ≡ self.state.token_a_mint
      → balance X m self.state.token_a ≡ ok a
      → balance X m self.state.token_b ≡ ok b
      → self.reserves ≡ (a, b)
      → (balance X m (swap_vaults X self mint).0 ≡ ok (trade_sides X self mint).1)
        × (balance X m (swap_vaults X self mint).1 ≡ ok (trade_sides X self mint).2)
  unfolding swap_vaults trade_sides
  sides_of_vaults m self mint a b h ea eb r =
      let first : self.reserves.0 ≡ a = ap (λ (t : ℕ × ℕ). t.0) r in
      let second : self.reserves.1 ≡ b = ap (λ (t : ℕ × ℕ). t.1) r in
      elim (Bool-cases (mint == self.state.token_a_mint)) [
        | inl is_a ↦ rw (h, is_a, first, second) (ea, eb)
        | inr is_b ↦ rw (h, is_b, first, second) (eb, ea)
      ]

  -- After an update of a well-formed pool that succeeded, the swap instruction for a mint names, as
  -- the accounts it pays into and pays out of (its seventh and eighth), the accounts whose balances
  -- in the map are the source and destination reserves of a quote for that mint.
  pub quote_prices_vaults :
      (m : AccountMap) (self : SplTokenSwapAmm X) (p : QuoteParams) (s : SwapParams X)
      → {self' : SplTokenSwapAmm X} {out : SwapAndAccountMetas X} → IsWellFormed X self
      → update X m self ≡ (ok tt, self')
      → p.input_mint ≡ s.source_mint
      → get_swap_and_account_metas X self' s ≡ ok out
      → (vault_in vault_out : Pubkey) × (get_elem? out.account_metas 6 ≡ some (new vault_in false))
        × (get_elem? out.account_metas 7 ≡ some (new vault_out false))
        × (balance X m vault_in ≡ ok (trade_sides X self' p.input_mint).1)
        × (balance X m vault_out ≡ ok (trade_sides X self' p.input_mint).2)
  quote_prices_vaults m self p s {self'} h done same_mint made =
      let (a, b, ea, eb, e) = update_ok X m self done in
      let mints = ap (λ (t : SplTokenSwapAmm X). t.reserve_mints.0) e in
      let (sixth, seventh) = metas_vaults self' s made in
      let (paid_in, paid_out) =
        sides_of_vaults m self' s.source_mint a b
          (mints ∙ h.mint_a ∙ sym (ap (λ (t : SplTokenSwapAmm X). t.state.token_a_mint) e))
          (ap (λ (t : SplTokenSwapAmm X). balance X m t.state.token_a) e ∙ ea)
          (ap (λ (t : SplTokenSwapAmm X). balance X m t.state.token_b) e ∙ eb)
          (ap (λ (t : SplTokenSwapAmm X). t.reserves) e) in
      (
        (swap_vaults X self' s.source_mint).0,
        (swap_vaults X self' s.source_mint).1,
        sixth,
        seventh,
        rw same_mint paid_in,
        rw same_mint paid_out,
      )
