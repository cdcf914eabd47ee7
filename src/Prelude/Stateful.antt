-- ===== src/Prelude/Stateful.antt =====
-- A method with `&mut self` that returns a `Result`: it gives back the state however it ends, and
-- what was written before an error stays written.
use mathlib.Core.Path.{◌≡◌, refl, ap}
use native.Mathlib.Omega.{arith}
use exponent_jupiter_amm_imp.Prelude.Result.{Result, ok, err, panic}

abbrev pub Method : Type 0 → Type 0 → Type 0
Method S A = S → Result A × S

infixl 5 ◌>>=◌ ◌>>◌
abbrev pub ◌>>=◌ : {S A B : Type 0} → Method S A → (A → Method S B) → Method S B
◌>>=◌ m f s =
    let (r, s') = m s in elim r [ ok a ↦ f a s' | err e ↦ (err e, s') | panic ↦ (panic, s') ]

abbrev pub ◌>>◌ : {S A B : Type 0} → Method S A → Method S B → Method S B
m >> k = m >>= λ _. k

-- A call that does not touch the state.
abbrev pub lift : {S A : Type 0} → Result A → Method S A
lift r s = (r, s)

-- The same, before what follows it, for a value of any level.
abbrev pub lift_then {ℓ} : {S B : Type 0} {A : Type ℓ} → Result A → (A → Method S B) → Method S B
lift_then (ok a) f s = f a s
lift_then (err e) f s = (err e, s)
lift_then panic f s = (panic, s)

abbrev pub modify : {S : Type 0} → (S → S) → Method S (Unit {0})
modify f s = (ok tt, f s)

-- A chain of calls that returned a value: its first call did, and then the rest did.
pub >>=-eq-ok :
    {S A B : Type 0} (m : Method S A) (f : A → Method S B) (s : S) {b : B} {s'' : S}
    → (m >>= f) s ≡ (ok b, s'')
    → (a : A) × (s' : S) × (m s ≡ (ok a, s')) × (f a s' ≡ (ok b, s''))
>>=-eq-ok {S} {A} {B} m f s {b} {s''} done = inverse (m s).0 (m s).1 refl done
  where
    inverse :
        (r : Result A) (s' : S)
        → m s ≡ (r, s')
        → elim r [ ok a ↦ f a s' | err e ↦ (err e, s') | panic ↦ (panic, s') ] ≡ (ok b, s'')
        → (a : A) × (s' : S) × (m s ≡ (ok a, s')) × (f a s' ≡ (ok b, s''))
    inverse (ok a) s' called done = (a, s', called, done)
    inverse (err e) s' called done = absurd (ground arith)
    inverse panic s' called done = absurd (ground arith)

-- A chain whose first call returned a value goes on with it.
pub >>=_called :
    {S A B : Type 0} (m : Method S A) (f : A → Method S B) (s : S) {a : A} {s' : S}
    → m s ≡ (ok a, s')
    → (m >>= f) s ≡ f a s'
>>=_called {S} {A} {B} m f s {a} {s'} called =
    ap
      (λ (x : Result A × S). elim x.0 [
        | ok b ↦ f b x.1
        | err e ↦ (err e, x.1)
        | panic ↦ (panic, x.1)
      ])
      called

-- The inverse for a first call that does not touch the state.
pub lift-eq-ok :
    {S A B : Type 0} (r : Result A) (f : A → Method S B) (s : S) {b : B} {s'' : S}
    → (lift r >>= f) s ≡ (ok b, s'')
    → (a : A) × (r ≡ ok a) × (f a s ≡ (ok b, s''))
lift-eq-ok (ok a) f s done = (a, refl, done)
lift-eq-ok (err e) f s done = absurd (ground arith)
lift-eq-ok panic f s done = absurd (ground arith)

pub lift-eq-ok_end :
    {S A : Type 0} (r : Result A) (s : S) {a : A} {s' : S}
    → ◌≡◌ {A = Result A × S} (lift r s) (ok a, s')
    → (r ≡ ok a) × (s ≡ s')
lift-eq-ok_end r s done = (ap (λ x. x.0) done, ap (λ x. x.1) done)
