-- ===== src/SwapTransaction/Bundle.antt =====
-- `SwapInstructions` as a list: lines 12 to 44 of jupiter-core/src/build_swap_transaction.rs.
use exponent_jupiter_amm_imp.Prelude.{ℕ, Option, none, some, List, [], ◌∷◌, ◌++◌}
use exponent_jupiter_amm_imp.Solana.{Pubkey, Instruction}

pub record SwapInstructions : Type 0 where
  pub compute_budget_instructions : List Instruction
  pub setup_instructions : List Instruction
  pub token_ledger_instruction : Option Instruction
  pub swap_instruction : Instruction
  pub cleanup_instruction : Option Instruction
  pub address_lookup_table_addresses : List Pubkey

-- `SwapInstructionsWithMetadata`; `Table` stands for `AddressLookupTableAccount`.
pub record SwapInstructionsWithMetadata (Table : Type 0) : Type 0 where
  pub swap_instructions : SwapInstructions
  pub address_lookup_table_accounts : List Table
  pub prioritization_fee_lamports : ℕ

-- An option as an iterator.
abbrev pub to_list {ℓ} : {A : Type ℓ} → Option A → List A
to_list none = []
to_list (some a) = a ∷ []

-- `From<SwapInstructions> for Vec<Instruction>`
unfoldable pub to_instructions : SwapInstructions → List Instruction
to_instructions s =
    s.compute_budget_instructions
    ++ (s.setup_instructions ++ ((s.swap_instruction ∷ []) ++ to_list s.cleanup_instruction))
