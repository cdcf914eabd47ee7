-- ===== src/Prelude/Result.antt =====
-- `anyhow::Result` with panics. A call returns a value, returns an error, or panics: a panic is
-- an outcome of its own, since `?` does not pass it on as an error and a caller cannot test it.
use Prim.Native.Nat.{ℕ, ◌+◌, ◌%◌, ◌^◌, ◌<◌}
use Prim.Native.String.{String}
use mathlib.Core.Path.{◌≡◌, refl}
use mathlib.Core.Logic.{◌⊎◌, inl, inr}
use mathlib.Core.Bool.{Bool}
use mathlib.Core.Option.{Option, none, some}
use mathlib.Core.List.{List, [], ◌∷◌}
use native.Mathlib.Omega.{arith}
use exponent_jupiter_amm_imp.Prelude.Tests.{ltb, if◌then◌else◌}
use exponent_jupiter_amm_imp.Prelude.Lists.{get_elem?}

-- An error made by the program, by its text; the failure of an integer conversion; an error that
-- a library returned, by its code.
pub data Error : Type 0 where
  message : String → Error
  try_from_int : Error
  library : ℕ → Error

pub data Result {ℓ} (A : Type ℓ) : Type ℓ where
  ok : A → Result A
  err : Error → Result A
  panic : Result A

-- `?`, and what goes on with the value.
infixl 5 ◌>>=◌ ◌>>◌
abbrev pub ◌>>=◌ {ℓ κ} : {A : Type ℓ} {B : Type κ} → Result A → (A → Result B) → Result B
call >>= next = elim call [ ok value ↦ next value | err e ↦ err e | panic ↦ panic ]

abbrev pub ◌>>◌ {ℓ κ} : {A : Type ℓ} {B : Type κ} → Result A → Result B → Result B
call >> last = call >>= λ _. last

-- `.context(text)?` on an option
abbrev pub context {ℓ} : {A : Type ℓ} → Option A → String → Result A
context none text = err (message text)
context (some a) text = ok a

-- `.context(text)` on a result: the error's text is the new one.
abbrev pub context_result {ℓ} : {A : Type ℓ} → Result A → String → Result A
context_result (ok a) text = ok a
context_result (err e) text = err (message text)
context_result panic text = panic

-- `.unwrap()` on an option
abbrev pub unwrap {ℓ} : {A : Type ℓ} → Option A → Result A
unwrap none = panic
unwrap (some a) = ok a

-- `.unwrap()` on a result
abbrev pub unwrap_result {ℓ} : {A : Type ℓ} → Result A → Result A
unwrap_result (ok a) = ok a
unwrap_result (err e) = panic
unwrap_result panic = panic

-- `assert!`
abbrev pub assert : Bool → Result (Unit {0})
assert holds = if holds then ok tt else panic

-- `&bytes[1..]`
abbrev pub skip_first {ℓ} : {A : Type ℓ} → List A → Result (List A)
skip_first [] = panic
skip_first (x ∷ xs) = ok xs

-- `items[i]`
abbrev pub index {ℓ} : {A : Type ℓ} → List A → ℕ → Result A
index xs i = unwrap (get_elem? xs i)

-- `.map(f).collect()` where `f` may fail: the items in turn, up to the first that fails.
abbrev pub map_result {ℓ κ} : {A : Type ℓ} {B : Type κ} → (A → Result B) → List A → Result (List B)
map_result f [] = ok []
map_result f (x ∷ xs) = f x >>= λ y. map_result f xs >>= λ ys. ok (y ∷ ys)

abbrev pub u64_mod : ℕ
u64_mod = 2 ^ 64

abbrev pub u128_mod : ℕ
u128_mod = 2 ^ 128

-- `u64::try_from` of a `u128`
abbrev pub try_u64 : ℕ → Result ℕ
try_u64 n = if ltb n u64_mod then ok n else err try_from_int

-- `a + b` in `u128`: with overflow checks an overflow panics, without them it wraps.
abbrev pub add_u128 : Bool → ℕ → ℕ → Result ℕ
add_u128 checks a b =
    if ltb (a + b) u128_mod then ok (a + b) else if checks then panic else ok ((a + b) % u128_mod)

pub try_u64_fits : (n : ℕ) → n < u64_mod → try_u64 n ≡ ok n
try_u64_fits n h = ground arith

pub add_u128_fits : (checks : Bool) (a b : ℕ) → a + b < u128_mod → add_u128 checks a b ≡ ok (a + b)
add_u128_fits checks a b h = ground arith

-- A chain that returned a value: its first call did, and then the rest did.
pub >>=-eq-ok {ℓ κ} :
    {A : Type ℓ} {B : Type κ} (call : Result A) (next : A → Result B) {result : B}
    → (call >>= next) ≡ ok result
    → (value : A) × (call ≡ ok value) × (next value ≡ ok result)
>>=-eq-ok (ok value) next returned = (value, refl, returned)
>>=-eq-ok panic next returned = cc
>>=-eq-ok (err e) next returned = cc

pub unwrap-eq-ok {ℓ} : {A : Type ℓ} (o : Option A) {a : A} → unwrap o ≡ ok a → o ≡ some a
unwrap-eq-ok none h = absurd cc
unwrap-eq-ok (some a) h = cc

pub unwrap_result-eq-ok {ℓ} :
    {A : Type ℓ} (call : Result A) {a : A} → unwrap_result call ≡ ok a → call ≡ ok a
unwrap_result-eq-ok (ok a) h = h
unwrap_result-eq-ok (err e) h = absurd cc
unwrap_result-eq-ok panic h = absurd cc

-- To split on how a call ends and keep the equation.
pub Result-cases {ℓ} :
    {A : Type ℓ} (call : Result A)
    → ((value : A) × (call ≡ ok value)) ⊎ (((e : Error) × (call ≡ err e)) ⊎ (call ≡ panic))
Result-cases (ok value) = inl (value, refl)
Result-cases (err e) = inr (inl (e, refl))
Result-cases panic = inr (inr refl)
