-- ===== src/Harness/TestRpc.antt =====
-- `TestRpcSender`, by which a client asks the bank: lines 457 to 505 of
-- jupiter-core/src/amms/test_harness.rs.
use exponent_jupiter_amm_imp.Prelude.{ℕ, String, Option}
use exponent_jupiter_amm_imp.Prelude.Result.{Error, Result, ok, err, ◌>>=◌, unwrap, unwrap_result}
use exponent_jupiter_amm_imp.Solana.{Pubkey, Account}
use exponent_jupiter_amm_imp.Harness.Bank.{Bank}

-- `RpcRequest`: the two requests that are answered, and any other by its name.
pub data RpcRequest : Type 0 where
  get_account_info get_version : RpcRequest
  other_request : String → RpcRequest

-- `serde_json` and the bank's slot. `first_text` is `params[0].as_str()`; `account_response` is the
-- JSON of a `Response` with the slot, for the account in base 64; `version` is the JSON of the
-- version; `not_supported` is the `ClientError` for a request.
pub record Json (K : Bank) : Type 1 where
  pub Value : Type 0
  pub get_root_slot : K.Context → Result ℕ
  pub from_str : String → Result Pubkey
  pub first_text : Value → Option String
  pub account_response : ℕ → Pubkey → Account → Value
  pub version : Value
  pub not_supported : RpcRequest → Error

module _ (K : Bank) (V : Json K) where
  unfoldable pub answer : K.Context → ℕ → V.Value → RpcRequest → Result V.Value
  answer context slot params get_account_info = do
    text ← unwrap (V.first_text params)
    pubkey ← unwrap_result (V.from_str text)
    found ← unwrap_result (K.get_account context pubkey)
    account ← unwrap found
    ok (V.account_response slot pubkey account)
  answer context slot params get_version = ok V.version
  answer context slot params request = err (V.not_supported request)

  unfoldable pub send : K.Context → RpcRequest → V.Value → Result V.Value
  send context request params = do
    slot ← unwrap_result (V.get_root_slot context)
    answer context slot params request
