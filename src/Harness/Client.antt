-- ===== src/Harness/Client.antt =====
-- The node behind an RPC client, and the functions of jupiter-core/src/amms/test_harness.rs that
-- only ask it: lines 543 to 549, 560 to 567, 1011 to 1029 and 1042 to
-- 1063.
use exponent_jupiter_amm_imp.Prelude.{String, Option, none, List, []}
use exponent_jupiter_amm_imp.Prelude.Result.{
  Result, ok, ◌>>=◌, context, context_result, unwrap_result,
}
use exponent_jupiter_amm_imp.Solana.{Pubkey, Bytes, Account, KeyedAccount}
use exponent_jupiter_amm_imp.Crates.{Crates}
use exponent_jupiter_amm_imp.Loader.{BoxedAmm, amm_factory}

-- `RpcClient`, by the calls that the program makes. `get_account_with_commitment` is the `value` of
-- the answer, at the client's own commitment.
pub record Client : Type 0 where
  pub get_account : Pubkey → Result Account
  pub get_multiple_accounts : List Pubkey → Result (List (Option Account))
  pub get_account_with_commitment : Pubkey → Result (Option Account)

-- `KeyedUiAccount`: an account as text.
pub record KeyedUiAccount (UiAccount Params : Type 0) : Type 0 where
  pub pubkey : String
  pub ui_account : UiAccount
  pub params : Option Params

-- What asking a node takes from `solana_client`, `solana_sdk`, `solana_account_decoder` and
-- `jupiter_amm_interface`.
pub record Remote (X : Crates) : Type 1 where
  pub Clock : Type 0
  pub ClockRef : Type 0
  pub UiAccount : Type 0
  pub new_client : String → Client
  pub deserialize_clock : Bytes → Result Clock
  pub default_clock : Clock
  pub clock_ref_from : Clock → ClockRef
  pub amm_context : ClockRef → X.AmmContext
  pub from_str : String → Result Pubkey
  pub encode_ui_account : Pubkey → Account → UiAccount
  pub try_into : KeyedUiAccount UiAccount X.Params → Result (KeyedAccount X.Params)

-- `AmmTestHarness`
pub record AmmTestHarness : Type 0 where
  pub client : Client
  pub key : Pubkey
  pub option : Option String

module _ (X : Crates) (R : Remote X) where
  unfoldable pub new_with_rpc_url : String → Pubkey → Option String → AmmTestHarness
  new_with_rpc_url rpc_url key option = record {
    client = R.new_client rpc_url;
    key = key;
    option = option;
  }

  unfoldable pub get_keyed_account : AmmTestHarness → Pubkey → Result (KeyedAccount X.Params)
  get_keyed_account self key = do
    account ← self.client.get_account key
    ok (record { key = key; account = account; params = none })

  -- `clock_id` is `sysvar::clock::ID`.
  unfoldable pub get_clock : Pubkey → Client → Result R.Clock
  get_clock clock_id rpc_client = do
    value ← rpc_client.get_account_with_commitment clock_id
    clock_data ← context value "Failed to get clock account"
    context_result (R.deserialize_clock clock_data.content)
        "Failed to deserialize sysvar::clock::ID"

  unfoldable pub get_clock_ref : Pubkey → Client → Result R.ClockRef
  get_clock_ref clock_id rpc_client = do
    clock ← get_clock clock_id rpc_client
    ok (R.clock_ref_from clock)

  unfoldable pub get_amm_context : Pubkey → Client → Result X.AmmContext
  get_amm_context clock_id rpc_client = do
    clock_ref ← get_clock_ref clock_id rpc_client
    ok (R.amm_context clock_ref)

  -- The account of the pool, as text and back.
  abbrev pub pool_account : Client → Pubkey → String → Result (KeyedAccount X.Params)
  pool_account client amm_key amm_id = do
    account ← unwrap_result (client.get_account amm_key)
    R.try_into (record {
      pubkey = amm_id;
      ui_account = R.encode_ui_account amm_key account;
      params = none;
    })

  -- The account of the pool and the pool that it makes.
  unfoldable pub fetch_pool :
      Pubkey → Client → Pubkey → String → Result (KeyedAccount X.Params × BoxedAmm X)
  fetch_pool clock_id client amm_key amm_id = do
    amm_context ← get_amm_context clock_id client
    keyed_account ← pool_account client amm_key amm_id
    amm ← amm_factory X keyed_account amm_context []
    ok (keyed_account, amm)
