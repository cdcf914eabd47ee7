-- ===== src/Harness/Directories/Names.antt =====
-- The names of the directories of two snapshots.
use Prim.Native.Char.{Char, code}
use text.Mathlib.TextLemmas.{
  nil-append, cons-append, cons-ne-nil, head-eq_of_cons-eq, tail-eq_of_cons-eq, append_cancel_left,
}
use exponent_jupiter_amm_imp.Prelude.{
  ◌≡◌, ◌≢◌, refl, sym, ap, ◌∙◌, String, ◌<>◌, Option, none, some,
}
use exponent_jupiter_amm_imp.Solana.{Pubkey}
use exponent_jupiter_amm_imp.Crates.{Crates}
use exponent_jupiter_amm_imp.Harness.Directories.{suffix, directory_name}

-- No character of the text is a dash.
abbrev pub NoDash : String → Type 0
NoDash String.[] = Unit {0}
NoDash (String.◌∷◌ c s) = (code c ≢ b'-') × NoDash s

dash : Char
dash = "-"

suffix-some : (p : String) → suffix (some p) ≡ String.◌∷◌ dash p
unfolding dash
suffix-some p = cons-append dash String.[] p ∙ ap (String.◌∷◌ dash) (nil-append p)

-- The suffix of a text that ends here, against one that goes on with another character.
suffix-ne-cons :
    (o : Option String) (c : Char) (rest : String) → code c ≢ b'-' → suffix o ≢ String.◌∷◌ c rest
unfolding dash
suffix-ne-cons none c rest h e = cons-ne-nil c rest (sym e)
suffix-ne-cons (some p) c rest h e =
    h (ap code (sym (head-eq_of_cons-eq (sym (suffix-some p) ∙ e))))

suffix_injective : (o p : Option String) → suffix o ≡ suffix p → o ≡ p
suffix_injective none none e = refl
suffix_injective none (some p) e = absurd (cons-ne-nil dash p (sym (e ∙ suffix-some p)))
suffix_injective (some o) none e = absurd (cons-ne-nil dash o (sym (suffix-some o) ∙ e))
suffix_injective (some o) (some p) e = ap some (append_cancel_left "-" o p e)

-- Two texts with no dash, each with a suffix, are the same only part by part.
split_at_dash :
    (s t : String) (o p : Option String)
    → NoDash s
    → NoDash t
    → s <> suffix o ≡ t <> suffix p
    → (s ≡ t) × (o ≡ p)
split_at_dash String.[] String.[] o p hs ht e =
    (refl, suffix_injective o p (sym (nil-append (suffix o)) ∙ e ∙ nil-append (suffix p)))
split_at_dash String.[] (String.◌∷◌ d t) o p hs ht e = absurd (
    suffix-ne-cons o d (t <> suffix p) ht.0
      (sym (nil-append (suffix o)) ∙ e ∙ cons-append d t (suffix p)))
split_at_dash (String.◌∷◌ c s) String.[] o p hs ht e = absurd (
    suffix-ne-cons p c (s <> suffix o) hs.0
      (sym (nil-append (suffix p)) ∙ sym e ∙ cons-append c s (suffix o)))
split_at_dash (String.◌∷◌ c s) (String.◌∷◌ d t) o p hs ht e =
    let both = sym (cons-append c s (suffix o)) ∙ e ∙ cons-append d t (suffix p) in
    let (same, options) = split_at_dash s t o p hs.1 ht.1 (tail-eq_of_cons-eq both) in
    (cc (same, head-eq_of_cons-eq both), options)

-- A key is written in base 58: no character is a dash, and different keys are written differently.
pub record DisplayLaws (X : Crates) : Type 0 where
  pub display_no_dash : (key : Pubkey) → NoDash (X.display key)
  pub display_injective : (j k : Pubkey) → X.display j ≡ X.display k → j ≡ k

module _ (X : Crates) (L : DisplayLaws X) where
  -- If keys are written in base 58, two snapshots have the same directory name only if they have
  -- the same key and the same option: no option and an empty option are told apart too.
  pub directory_name_injective :
      (j k : Pubkey) (o p : Option String)
      → directory_name X j o ≡ directory_name X k p
      → (j ≡ k) × (o ≡ p)
  unfolding directory_name
  directory_name_injective j k o p e =
      let (keys, options) =
        split_at_dash (X.display j) (X.display k) o p (L.display_no_dash j) (L.display_no_dash k)
          e in
      (L.display_injective j k keys, options)
