-- ===== src/Examples/Wires.antt =====
-- Little-endian numbers, vectors with their length in front, and a byte for the exchange: a
-- writer and reader of instructions that meets what the theorems assume.
use Prim.Native.Nat.{◌/◌, ◌%◌}
use mathlib.Core.List.{append_assoc}
use exponent_jupiter_amm_imp.Prelude.{
  ℕ, zero, suc, ◌+◌, ◌*◌, ◌^◌, ◌<◌, ◌≡◌, refl, ap, Option, none, some, List, [], ◌∷◌, ◌++◌, length,
  arith,
}
use exponent_jupiter_amm_imp.Prelude.Maybe.{◌>>=◌}
use exponent_jupiter_amm_imp.Solana.{Bytes}
use exponent_jupiter_amm_imp.Jupiter.Accounts.{idl_metas}
use exponent_jupiter_amm_imp.Jupiter.Wire.{Codec, Anchor, AnchorLaws, All}
use exponent_jupiter_amm_imp.Examples.Libraries.{small}

-- The `width` low bytes of a number, the lowest first.
unfoldable pub put_number : ℕ → ℕ → Bytes
put_number zero n = []
put_number (suc width) n = n % 256 ∷ put_number width (n / 256)

unfoldable pub get_number : ℕ → Bytes → Option (ℕ × Bytes)
get_number zero b = some (0, b)
get_number (suc width) [] = none
get_number (suc width) (x ∷ b) = do (n, rest) ← get_number width b; some (x + 256 * n, rest)

-- 256 to the width, by recursion.
abbrev capacity : ℕ → ℕ
capacity zero = 1
capacity (suc width) = 256 * capacity width

get_number-put_number :
    (width n : ℕ) (rest : Bytes)
    → n < capacity width
    → get_number width (put_number width n ++ rest) ≡ some (n, rest)
unfolding get_number put_number
get_number-put_number zero n rest h = ap (λ (k : ℕ). some (k, rest)) (omega arith)
get_number-put_number (suc width) n rest h =
    rw (get_number-put_number width (n / 256) rest (omega arith))
      (ap (λ (k : ℕ). some (k, rest)) (omega arith))

abbrev number : ℕ → Codec ℕ
number width = record { put = put_number width; get = get_number width }

unfoldable pub put_items : {A : Type 0} → (A → Bytes) → List A → Bytes
put_items put [] = []
put_items put (x ∷ xs) = put x ++ put_items put xs

unfoldable pub get_items :
    {A : Type 0} → (Bytes → Option (A × Bytes)) → ℕ → Bytes → Option (List A × Bytes)
get_items get zero b = some ([], b)
get_items get (suc count) b = do
  (x, b₁) ← get b
  (xs, b₂) ← get_items get count b₁
  some (x ∷ xs, b₂)

get_items-put_items :
    {A : Type 0} (c : Codec A) (Fits : A → Type 0)
    → ((a : A) (rest : Bytes) → Fits a → c.get (c.put a ++ rest) ≡ some (a, rest))
    → (xs : List A) (rest : Bytes) → All Fits xs
    → get_items c.get (length xs) (put_items c.put xs ++ rest) ≡ some (xs, rest)
unfolding get_items put_items
get_items-put_items c Fits law [] rest h = refl
get_items-put_items c Fits law (x ∷ xs) rest h = rw (
  append_assoc,
  law x (put_items c.put xs ++ rest) h.0,
  get_items-put_items c Fits law xs rest h.1,
)

unfoldable pub put_vec : {A : Type 0} → Codec A → List A → Bytes
put_vec c xs = put_number 4 (length xs) ++ put_items c.put xs

unfoldable pub get_vec : {A : Type 0} → Codec A → Bytes → Option (List A × Bytes)
get_vec c b = do (count, rest) ← get_number 4 b; get_items c.get count rest

get_vec-put_vec :
    (A : Type 0) (c : Codec A) (Fits : A → Type 0)
    → ((a : A) (rest : Bytes) → Fits a → c.get (c.put a ++ rest) ≡ some (a, rest))
    → (xs : List A) (rest : Bytes) → All Fits xs
    → length xs < 2 ^ 32
    → get_vec c (put_vec c xs ++ rest) ≡ some (xs, rest)
unfolding get_vec put_vec
get_vec-put_vec A c Fits law xs rest h short =
    rw (append_assoc, get_number-put_number 4 (length xs) (put_items c.put xs ++ rest) short)
      (get_items-put_items c Fits law xs rest h)

unfoldable pub get_byte : Bytes → Option (ℕ × Bytes)
get_byte [] = none
get_byte (x ∷ b) = some (x, b)

byte_back : (s : ℕ) (rest : Bytes) → get_byte ((s ∷ []) ++ rest) ≡ some (s, rest)
unfolding get_byte
byte_back s rest = refl

abbrev pub small_anchor : Anchor small
small_anchor = record {
  to_account_metas = idl_metas;
  u8 = number 1;
  u16 = number 2;
  u64 = number 8;
  swap = record { put = λ s. s ∷ []; get = get_byte };
  vec = λ A c. record { put = put_vec c; get = get_vec c };
}

pub small_anchor-AnchorLaws : AnchorLaws small small_anchor
small_anchor-AnchorLaws = record {
  to_account_metas-eq = λ a. refl;
  u8-get-put = λ n rest h. get_number-put_number 1 n rest h;
  u16-get-put = λ n rest h. get_number-put_number 2 n rest h;
  u64-get-put = λ n rest h. get_number-put_number 8 n rest h;
  swap-get-put = byte_back;
  vec-get-put = get_vec-put_vec;
}
