-- ===== src/Solana.antt =====
-- The data of `solana_sdk` and `jupiter_amm_interface` that the program handles.
use exponent_jupiter_amm_imp.Prelude.{ℕ, Bool, true, false, Option, List}
use exponent_jupiter_amm_imp.Prelude.Dict.{Dict}

-- A public key is the number that its 32 bytes spell, the first byte the highest.
abbrev pub Pubkey : Type 0
Pubkey = ℕ

abbrev pub Bytes : Type 0
Bytes = List ℕ

-- `solana_sdk::account::Account`; its field `data` is `content` here.
pub record Account : Type 0 where
  pub lamports : ℕ
  pub content : Bytes
  pub owner : Pubkey
  pub executable : Bool
  pub rent_epoch : ℕ

abbrev pub AccountMap : Type 0
AccountMap = Dict Account

-- `AccountMeta`, by the two functions that make one: from a key and whether it signs.
pub data AccountMeta : Type 0 where
  new : Pubkey → Bool → AccountMeta
  new_readonly : Pubkey → Bool → AccountMeta

abbrev pub pubkey : AccountMeta → Pubkey
pubkey (new k _) = k
pubkey (new_readonly k _) = k

abbrev pub is_signer : AccountMeta → Bool
is_signer (new _ s) = s
is_signer (new_readonly _ s) = s

abbrev pub is_writable : AccountMeta → Bool
is_writable (new _ _) = true
is_writable (new_readonly _ _) = false

pub record Instruction : Type 0 where
  pub program_id : Pubkey
  pub accounts : List AccountMeta
  pub content : Bytes

-- `KeyedAccount`; `Params` stands for `serde_json::Value`.
pub record KeyedAccount (Params : Type 0) : Type 0 where
  pub key : Pubkey
  pub account : Account
  pub params : Option Params

pub data SwapMode : Type 0 where
  exact_in exact_out : SwapMode
