-- ===== src/Route/Pairs/Places.antt =====
-- The arrangements of two items are the pairs of items at different places.
use exponent_jupiter_amm_imp.Prelude.{
  In, ◌≡◌, refl, ap, ◌∙◌, ◌⊎◌, ◌↔◌, inl, inr, List, [], ◌∷◌, ◌++◌, map,
}
use exponent_jupiter_amm_imp.Route.Pairs.{picks, Apart, pairs}

module _ {A : Type 0} where
  -- Some pick is the first item, and the second is among its others.
  abbrev InRow : A → A → List (A × List A) → Type 0
  InRow a b [] = ⊥
  InRow a b ((x, rest) ∷ ps) = ((a ≡ x) × In b rest) ⊎ InRow a b ps

  abbrev heads : List (A × List A) → List A
  heads [] = []
  heads ((x, _) ∷ ps) = x ∷ heads ps

  InRow-along :
      (a b x : A) (R : Type 0) (ys : List A) (more : List (A × A))
      → (In (a, b) more → R)
      → In (a, b) (map (λ y. (x, y)) ys ++ more)
      → ((a ≡ x) × In b ys) ⊎ R
  InRow-along a b x R [] more later h = inr (later h)
  InRow-along a b x R (y ∷ ys) more later (inl e) =
      inl (ap (λ (t : A × A). t.0) e, inl (ap (λ (t : A × A). t.1) e))
  InRow-along a b x R (y ∷ ys) more later (inr h) = elim (InRow-along a b x R ys more later h) [
    | inl (e, m) ↦ inl (e, inr m)
    | inr m ↦ inr m
  ]

  InRow-of_pairs : (a b : A) (ps : List (A × List A)) → In (a, b) (pairs ps) → InRow a b ps
  InRow-of_pairs a b [] h = h
  InRow-of_pairs a b ((x, rest) ∷ ps) h =
      InRow-along a b x (InRow a b ps) rest (pairs ps) (InRow-of_pairs a b ps) h

  In-front :
      (a b x : A) (ys : List A) (more : List (A × A))
      → a ≡ x
      → In b ys
      → In (a, b) (map (λ y. (x, y)) ys ++ more)
  In-front a b x [] more e m = absurd m
  In-front a b x (y ∷ ys) more e (inl m) = inl (cc)
  In-front a b x (y ∷ ys) more e (inr m) = inr (In-front a b x ys more e m)

  In-behind : (c : A × A) (xs ys : List (A × A)) → In c ys → In c (xs ++ ys)
  In-behind c [] ys m = m
  In-behind c (x ∷ xs) ys m = inr (In-behind c xs ys m)

  pairs_of_InRow : (a b : A) (ps : List (A × List A)) → InRow a b ps → In (a, b) (pairs ps)
  pairs_of_InRow a b [] h = h
  pairs_of_InRow a b ((x, rest) ∷ ps) (inl (e, m)) = In-front a b x rest (pairs ps) e m
  pairs_of_InRow a b ((x, rest) ∷ ps) (inr h) =
      In-behind (a, b) (map (λ y. (x, y)) rest) (pairs ps) (pairs_of_InRow a b ps h)

  -- An item put in front of the others of every pick.
  InRow-pushed :
      (a b x : A) (ps : List (A × List A))
      → InRow a b (map (λ (y, rest). (y, x ∷ rest)) ps)
      → ((b ≡ x) × In a (heads ps)) ⊎ InRow a b ps
  InRow-pushed a b x [] h = absurd h
  InRow-pushed a b x ((y, rest) ∷ ps) (inl (e, inl f)) = inl (f, inl e)
  InRow-pushed a b x ((y, rest) ∷ ps) (inl (e, inr m)) = inr (inl (e, m))
  InRow-pushed a b x ((y, rest) ∷ ps) (inr h) = elim (InRow-pushed a b x ps h) [
    | inl (f, m) ↦ inl (f, inr m)
    | inr m ↦ inr (inr m)
  ]

  push_head :
      (a b x : A) (ps : List (A × List A))
      → b ≡ x
      → In a (heads ps)
      → InRow a b (map (λ (y, rest). (y, x ∷ rest)) ps)
  push_head a b x [] f m = absurd m
  push_head a b x ((y, rest) ∷ ps) f (inl e) = inl (e, inl f)
  push_head a b x ((y, rest) ∷ ps) f (inr m) = inr (push_head a b x ps f m)

  push_row :
      (a b x : A) (ps : List (A × List A))
      → InRow a b ps
      → InRow a b (map (λ (y, rest). (y, x ∷ rest)) ps)
  push_row a b x [] h = h
  push_row a b x ((y, rest) ∷ ps) (inl (e, m)) = inl (e, inr m)
  push_row a b x ((y, rest) ∷ ps) (inr h) = inr (push_row a b x ps h)

  heads-map :
      (x : A) (ps : List (A × List A)) → heads (map (λ (y, rest). (y, x ∷ rest)) ps) ≡ heads ps
  heads-map x [] = refl
  heads-map x ((y, rest) ∷ ps) = ap (λ (t : List A). y ∷ t) (heads-map x ps)

  heads-picks : (xs : List A) → heads (picks xs) ≡ xs
  heads-picks [] = refl
  heads-picks (x ∷ xs) = ap (λ (t : List A). x ∷ t) (heads-map x (picks xs) ∙ heads-picks xs)

  Apart-of_InRow : (a b : A) (xs : List A) → InRow a b (picks xs) → Apart a b xs
  Apart-of_InRow a b [] h = h
  Apart-of_InRow a b (x ∷ xs) (inl h) = inl h
  Apart-of_InRow a b (x ∷ xs) (inr h) = elim (InRow-pushed a b x (picks xs) h) [
    | inl (f, m) ↦ inr (inl (f, rw (heads-picks xs) at m))
    | inr row ↦ inr (inr (Apart-of_InRow a b xs row))
  ]

  InRow-of_Apart : (a b : A) (xs : List A) → Apart a b xs → InRow a b (picks xs)
  InRow-of_Apart a b [] h = h
  InRow-of_Apart a b (x ∷ xs) (inl h) = inl h
  InRow-of_Apart a b (x ∷ xs) (inr (inl (f, m))) =
      inr (push_head a b x (picks xs) f (rw (heads-picks xs) m))
  InRow-of_Apart a b (x ∷ xs) (inr (inr h)) =
      inr (push_row a b x (picks xs) (InRow-of_Apart a b xs h))

  -- A pair is among the pairs of the picks exactly if its items stand at different places.
  pub pairs-picks_iff : (a b : A) (xs : List A) → In (a, b) (pairs (picks xs)) ↔ Apart a b xs
  pairs-picks_iff a b xs = (
    λ h. Apart-of_InRow a b xs (InRow-of_pairs a b (picks xs) h),
    λ h. pairs_of_InRow a b (picks xs) (InRow-of_Apart a b xs h),
  )
