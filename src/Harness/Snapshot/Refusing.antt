-- ===== src/Harness/Snapshot/Refusing.antt =====
-- A snapshot with the wrong `force`: lines 814 to 820 of jupiter-core/src/amms/test_harness.rs.
use exponent_jupiter_amm_imp.Prelude.{
  ◌≡◌, ◌≢◌, refl, Bool, true, false, Option, List, inl, inr, arith,
}
use exponent_jupiter_amm_imp.Prelude.Result.{Result, ok, Result-cases}
use exponent_jupiter_amm_imp.Solana.{Pubkey, Account}
use exponent_jupiter_amm_imp.Crates.{Crates}
use exponent_jupiter_amm_imp.Amm.{Amm}
use exponent_jupiter_amm_imp.Harness.Snapshot.Addresses.{Keys, addresses_for_snapshot}
use exponent_jupiter_amm_imp.Harness.Snapshot.Files.{
  Formats, Place, no_parent, vacant, directory, snapshot_amm_accounts,
}

module _ (X : Crates) (F : Formats X) where
  -- Whether `force` is set for a directory that is there, or not set for one that can be made.
  abbrev pub fits : Bool → Place X F → Bool
  fits true no_parent = false
  fits true vacant = false
  fits true (directory d) = true
  fits false no_parent = false
  fits false vacant = true
  fits false (directory d) = false

module _ (X : Crates) (F : Formats X) (Z : Keys) where
  -- Where `force` does not fit the place, nothing is written.
  pub snapshot_refuses :
      (node : List Pubkey → Result (List (Option Account))) (amm : Amm X) (pool : amm.Self)
      (params : Option X.Params) (force : Bool) (place : Place X F)
      → fits X F force place ≡ false
      → let call = snapshot_amm_accounts X F Z node amm pool params force place in
        ((u : Unit {0}) → call.0 ≢ ok u) × (call.1 ≡ place)
  unfolding snapshot_amm_accounts
  snapshot_refuses node amm pool params true (directory d) wrong = absurd (ground arith)
  snapshot_refuses node amm pool params false vacant wrong = absurd (ground arith)
  snapshot_refuses node amm pool params true vacant wrong =
      elim (Result-cases (addresses_for_snapshot X Z amm pool)) [
        | inl (ks, asked) ↦ rw asked (λ u h. ground arith, refl)
        | inr (inl (e, failed)) ↦ rw failed (λ u h. ground arith, refl)
        | inr (inr failed) ↦ rw failed (λ u h. ground arith, refl)
      ]
  snapshot_refuses node amm pool params true no_parent wrong =
      elim (Result-cases (addresses_for_snapshot X Z amm pool)) [
        | inl (ks, asked) ↦ rw asked (λ u h. ground arith, refl)
        | inr (inl (e, failed)) ↦ rw failed (λ u h. ground arith, refl)
        | inr (inr failed) ↦ rw failed (λ u h. ground arith, refl)
      ]
  snapshot_refuses node amm pool params false no_parent wrong =
      elim (Result-cases (addresses_for_snapshot X Z amm pool)) [
        | inl (ks, asked) ↦ rw asked (λ u h. ground arith, refl)
        | inr (inl (e, failed)) ↦ rw failed (λ u h. ground arith, refl)
        | inr (inr failed) ↦ rw failed (λ u h. ground arith, refl)
      ]
  snapshot_refuses node amm pool params false (directory d) wrong =
      elim (Result-cases (addresses_for_snapshot X Z amm pool)) [
        | inl (ks, asked) ↦ rw asked (λ u h. ground arith, refl)
        | inr (inl (e, failed)) ↦ rw failed (λ u h. ground arith, refl)
        | inr (inr failed) ↦ rw failed (λ u h. ground arith, refl)
      ]
