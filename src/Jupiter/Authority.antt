-- ===== src/Jupiter/Authority.antt =====
-- The addresses that jupiter/src/lib.rs derives from the program's id.
pub mod Check
use exponent_jupiter_amm_imp.Prelude.{ℕ, zero, suc, ◌+◌, List, [], ◌∷◌, map}
use exponent_jupiter_amm_imp.Prelude.Result.{Result, unwrap}
use exponent_jupiter_amm_imp.Solana.{Pubkey, Bytes}
use exponent_jupiter_amm_imp.Constants.{jupiter_id, token_ledgers}
use exponent_jupiter_amm_imp.Crates.{Crates}

abbrev pub authority_count : ℕ
authority_count = 16

-- b"authority"
abbrev pub authority_seed : Bytes
authority_seed = b'a' ∷ b'u' ∷ b't' ∷ b'h' ∷ b'o' ∷ b'r' ∷ b'i' ∷ b't' ∷ b'y' ∷ []

-- b"__event_authority"
abbrev pub event_authority_seed : Bytes
event_authority_seed = b'_' ∷ b'_' ∷ b'e' ∷ b'v' ∷ b'e' ∷ b'n' ∷ b't' ∷ b'_' ∷ authority_seed

-- b"open_orders"
abbrev pub open_orders_seed : Bytes
open_orders_seed = b'o' ∷ b'p' ∷ b'e' ∷ b'n' ∷ b'_' ∷ b'o' ∷ b'r' ∷ b'd' ∷ b'e' ∷ b'r' ∷ b's' ∷ []

-- `(first..first + rounds)`
abbrev pub range_from : ℕ → ℕ → List ℕ
range_from first zero = []
range_from first (suc rounds) = first ∷ range_from (first + 1) rounds

module _ (X : Crates) where
  unfoldable pub find_jupiter_program_authority : ℕ → Pubkey
  find_jupiter_program_authority id =
      (X.find_program_address (authority_seed ∷ (id ∷ []) ∷ []) jupiter_id).0

  unfoldable pub find_authorities : List Pubkey
  find_authorities = map find_jupiter_program_authority (range_from 0 authority_count)

  unfoldable pub find_event_authority : Pubkey
  find_event_authority = (X.find_program_address (event_authority_seed ∷ []) jupiter_id).0

  unfoldable pub find_jupiter_program_authority_id : ℕ × ℕ → X.Rng → Result ℕ
  find_jupiter_program_authority_id (start, end) rng = X.sample_uniform start end rng

  unfoldable pub find_jupiter_token_ledger : X.Rng → Result Pubkey
  find_jupiter_token_ledger rng = unwrap (X.choose Pubkey token_ledgers rng)

  unfoldable pub find_jupiter_open_orders : Pubkey → Pubkey → Pubkey
  find_jupiter_open_orders market authority =
      (X.find_program_address (open_orders_seed ∷ X.to_bytes market ∷ X.to_bytes authority ∷ [])
        jupiter_id).0
