-- ===== src/Prelude/Sets.antt =====
-- `std::collections::HashSet` with public keys, as a list without order of its own.
use Prim.Native.Nat.{ℕ}
use mathlib.Core.Path.{◌≡◌, subst}
use mathlib.Core.Logic.{◌≢◌, inl, inr}
use mathlib.Core.Bool.{Bool, true, false, ◌||◌}
use mathlib.Core.List.{List, [], ◌∷◌}
use native.Mathlib.Omega.{arith}
use exponent_jupiter_amm_imp.Prelude.Tests.{◌==◌, if◌then◌else◌, ==_iff, Bool-cases}

abbrev pub member : ℕ → List ℕ → Bool
member j [] = false
member j (k ∷ ks) = k == j || member j ks

-- `insert`
abbrev pub put : ℕ → List ℕ → List ℕ
put k ks = if member k ks then ks else k ∷ ks

-- `extend`
abbrev pub put_all : List ℕ → List ℕ → List ℕ
put_all [] ks = ks
put_all (j ∷ js) ks = put_all js (put j ks)

-- `remove`
abbrev pub remove : ℕ → List ℕ → List ℕ
remove k [] = []
remove k (j ∷ js) = let rest = remove k js in if j == k then rest else j ∷ rest

pub member-put : (j k : ℕ) (ks : List ℕ) → member j ks ≡ true → member j (put k ks) ≡ true
member-put j k ks h = ground arith

pub member-put_same : (k : ℕ) (ks : List ℕ) → member k (put k ks) ≡ true
member-put_same k ks = ground arith

-- What is in a set stays in it.
pub member-put_all_old :
    (j : ℕ) (js ks : List ℕ) → member j ks ≡ true → member j (put_all js ks) ≡ true
member-put_all_old j [] ks h = h
member-put_all_old j (i ∷ js) ks h = member-put_all_old j js (put i ks) (member-put j i ks h)

-- What is added to a set is in it.
pub member-put_all_new :
    (j : ℕ) (js ks : List ℕ) → member j js ≡ true → member j (put_all js ks) ≡ true
member-put_all_new j [] ks h = absurd (ground arith)
member-put_all_new j (i ∷ js) ks h = elim (Bool-cases (i == j)) [
  | inl same ↦
      member-put_all_old j js (put i ks)
        (subst (λ n. member n (put i ks) ≡ true) ((==_iff i j).0 same) (member-put_same i ks))
  | inr other ↦ member-put_all_new j js (put i ks) (ground arith)
]

pub member-remove :
    (j k : ℕ) (ks : List ℕ) → j ≢ k → member j ks ≡ true → member j (remove k ks) ≡ true
member-remove j k [] differ h = h
member-remove j k (i ∷ ks) differ h = ground (arith, member-remove j k ks differ)
