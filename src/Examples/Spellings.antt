-- ===== src/Examples/Spellings.antt =====
-- Keys written as rows of strokes, and the names of the directories of their snapshots.
use Prim.Native.Char.{Char}
use text.Mathlib.TextLemmas.{cons-ne-nil, tail-eq_of_cons-eq}
use exponent_jupiter_amm_imp.Prelude.{ℕ, zero, suc, ◌≡◌, refl, sym, ap, String, Option, some, arith}
use exponent_jupiter_amm_imp.Solana.{Pubkey}
use exponent_jupiter_amm_imp.Crates.{Crates}
use exponent_jupiter_amm_imp.Harness.Directories.Names.{
  NoDash, DisplayLaws, directory_name_injective,
}
use exponent_jupiter_amm_imp.Examples.Libraries.{small}

stroke : Char
stroke = "1"

abbrev strokes : ℕ → String
strokes zero = String.[]
strokes (suc n) = String.◌∷◌ stroke (strokes n)

strokes-NoDash : (n : ℕ) → NoDash (strokes n)
unfolding stroke
strokes-NoDash zero = tt
strokes-NoDash (suc n) = (ground arith, strokes-NoDash n)

strokes_injective : (j k : ℕ) → strokes j ≡ strokes k → j ≡ k
strokes_injective zero zero e = refl
strokes_injective zero (suc k) e = absurd (cons-ne-nil stroke (strokes k) (sym e))
strokes_injective (suc j) zero e = absurd (cons-ne-nil stroke (strokes j) e)
strokes_injective (suc j) (suc k) e = ap suc (strokes_injective j k (tail-eq_of_cons-eq e))

abbrev spelled : Crates
spelled = record small { display = strokes }

spelled-DisplayLaws : DisplayLaws spelled
spelled-DisplayLaws = record {
  display_no_dash = strokes-NoDash;
  display_injective = strokes_injective;
}

directory_name_injective_example :
    (◌≡◌ {A = Pubkey} 3 3) × (◌≡◌ {A = Option String} (some "a") (some "a"))
directory_name_injective_example =
    directory_name_injective spelled spelled-DisplayLaws 3 3 (some "a") (some "a") refl
