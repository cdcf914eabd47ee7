-- ===== src/Jupiter/Wire.antt =====
-- The bytes of an instruction: `InstructionData::data` of `anchor_lang` over the derived
-- `AnchorSerialize` of the structs in jupiter/src/lib.rs. The writers of numbers, of the enum
-- `Swap` and of vectors are the library's, so they are parameters; a struct's bytes are those of
-- its fields in their order, and an instruction's are its discriminator and its struct's.
pub mod Writing
pub mod Reading
pub mod RoundTrip
use exponent_jupiter_amm_imp.Prelude.{ℕ, ◌^◌, ◌<◌, ◌≡◌, Option, some, List, [], ◌∷◌, ◌++◌, length}
use exponent_jupiter_amm_imp.Solana.{Bytes, AccountMeta}
use exponent_jupiter_amm_imp.Crates.{Crates}
use exponent_jupiter_amm_imp.Jupiter.Accounts.{RouteAccounts, idl_metas}

-- A writer, and a reader that also gives back the bytes that it did not read.
pub record Codec (A : Type 0) : Type 0 where
  pub put : A → Bytes
  pub get : Bytes → Option (A × Bytes)

-- `anchor_lang` and the code that it generates from the interface file.
pub record Anchor (X : Crates) : Type 1 where
  pub to_account_metas : RouteAccounts → List AccountMeta
  pub u8 : Codec ℕ
  pub u16 : Codec ℕ
  pub u64 : Codec ℕ
  pub swap : Codec X.Swap
  pub vec : (A : Type 0) → Codec A → Codec (List A)

abbrev pub All {ℓ} : {A : Type ℓ} → (A → Type 0) → List A → Type 0
All P [] = Unit
All P (x ∷ xs) = P x × All P xs

-- What was written is read back, with the bytes that follow left over: a number in its range, a
-- vector of fewer than 2^32 items that are read back themselves. `to_account_metas` gives the
-- accounts as the interface file lists them.
pub record AnchorLaws (X : Crates) (N : Anchor X) : Type 1 where
  pub to_account_metas-eq : (a : RouteAccounts) → N.to_account_metas a ≡ idl_metas a
  pub u8-get-put :
      (n : ℕ) (rest : Bytes) → n < 2 ^ 8 → N.u8.get (N.u8.put n ++ rest) ≡ some (n, rest)
  pub u16-get-put :
      (n : ℕ) (rest : Bytes) → n < 2 ^ 16 → N.u16.get (N.u16.put n ++ rest) ≡ some (n, rest)
  pub u64-get-put :
      (n : ℕ) (rest : Bytes) → n < 2 ^ 64 → N.u64.get (N.u64.put n ++ rest) ≡ some (n, rest)
  pub swap-get-put :
      (s : X.Swap) (rest : Bytes) → N.swap.get (N.swap.put s ++ rest) ≡ some (s, rest)
  pub vec-get-put :
      (A : Type 0) (c : Codec A) (Fits : A → Type 0)
      → ((a : A) (rest : Bytes) → Fits a → c.get (c.put a ++ rest) ≡ some (a, rest))
      → (xs : List A) (rest : Bytes) → All Fits xs
      → length xs < 2 ^ 32
      → (N.vec A c).get ((N.vec A c).put xs ++ rest) ≡ some (xs, rest)

-- The bytes of the fields, one after the other.
abbrev pub fields : List Bytes → Bytes
fields [] = []
fields (b ∷ bs) = b ++ fields bs
