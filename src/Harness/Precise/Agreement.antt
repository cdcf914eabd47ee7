-- ===== src/Harness/Precise/Agreement.antt =====
-- What a token swap pool asks for and what its update reads.
use exponent_jupiter_amm_imp.Prelude.{
  ◌≡◌, refl, true, List, [], ◌∷◌, if◌then◌else◌, inl, inr, Option-cases, arith,
}
use exponent_jupiter_amm_imp.Prelude.Sets.{member}
use exponent_jupiter_amm_imp.Prelude.Dict.{
  or_entry, lookup, insert, insert_entries, from_iter, lookup-insert,
}
use exponent_jupiter_amm_imp.Solana.{Pubkey, AccountMap}
use exponent_jupiter_amm_imp.Crates.{Crates, AccountDataLaws}
use exponent_jupiter_amm_imp.SplTokenSwap.Pool.{SplTokenSwapAmm, get_accounts_to_update}
use exponent_jupiter_amm_imp.SplTokenSwap.Update.{update}
use exponent_jupiter_amm_imp.SplTokenSwap.Update.Effect.{update_local}
use exponent_jupiter_amm_imp.SplTokenSwap.Implementation.{spl_token_swap_amm}
use exponent_jupiter_amm_imp.Harness.Precise.{requested, update_amm_precise}

lookup-requested_onto :
    (j : Pubkey) (ks : List Pubkey) (m d : AccountMap)
    → lookup j (insert_entries d (requested ks m))
      ≡ (if member j ks then or_entry (lookup j m) (lookup j d) else lookup j d)
unfolding requested
lookup-requested_onto j [] m d = refl
lookup-requested_onto j (k ∷ ks) m d = elim (Option-cases (lookup k m)) [
  | inl missing ↦ ground (arith, lookup-requested_onto j ks m d, missing)
  | inr (a, present) ↦
      ground (arith, lookup-requested_onto j ks m (insert k a d), lookup-insert j k a d, present)
]

-- A requested account is found in the new map exactly as in the old one.
lookup-requested :
    (j : Pubkey) (ks : List Pubkey) (m : AccountMap)
    → member j ks ≡ true
    → lookup j (from_iter (requested ks m)) ≡ lookup j m
lookup-requested j ks m h = ground (arith, lookup-requested_onto j ks m [])

module _ (X : Crates) (L : AccountDataLaws X) where
  -- If account data is looked up by key, then given only the accounts that it asks for, a token
  -- swap pool updates exactly as it does given all of them: it ends alike and in the same state.
  pub update_amm_precise-eq-update :
      (m : AccountMap) (self : SplTokenSwapAmm X)
      → update_amm_precise X (spl_token_swap_amm X) m self ≡ update X m self
  unfolding update_amm_precise get_accounts_to_update
  update_amm_precise-eq-update m self =
      let ks = get_accounts_to_update X self in
      update_local X L (from_iter (requested ks m)) m self
        (lookup-requested self.state.token_a ks m (ground arith))
        (lookup-requested self.state.token_b ks m (ground arith))
