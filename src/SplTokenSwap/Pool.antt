-- ===== src/SplTokenSwap/Pool.antt =====
-- The table of programs, the pool's state, its construction from an account, its clone and its
-- getters: lines 19 to 132 of jupiter-core/src/amms/spl_token_swap_amm.rs.
pub mod Build
pub mod Cloning
use exponent_jupiter_amm_imp.Prelude.{ℕ, Option, List, [], ◌∷◌, String}
use exponent_jupiter_amm_imp.Prelude.Result.{Result, ok, ◌>>=◌, skip_first, unwrap}
use exponent_jupiter_amm_imp.Prelude.Dict.{Dict, lookup, insert}
use exponent_jupiter_amm_imp.Solana.{Pubkey, KeyedAccount}
use exponent_jupiter_amm_imp.Constants.{orca_v1, orca_v2, stepn, saros, penguin}
use exponent_jupiter_amm_imp.Crates.{Crates, State}

-- `SPL_TOKEN_SWAP_PROGRAMS`
abbrev spl_token_swap_programs : Dict String
spl_token_swap_programs = insert penguin "Penguin" (
    insert saros "Saros"
      (insert stepn "StepN" (insert orca_v2 "Orca v2" (insert orca_v1 "Orca v1" []))))

-- `SPL_TOKEN_SWAP_PROGRAMS.get(&owner)`
unfoldable pub program_label : Pubkey → Option String
program_label owner = lookup owner spl_token_swap_programs

module _ (X : Crates) where
  pub record SplTokenSwapAmm : Type 0 where
    pub key : Pubkey
    pub label : String
    pub state : State X
    pub reserve_mints : Pubkey × Pubkey
    pub reserves : ℕ × ℕ
    pub program_id : Pubkey

  -- The context is not read.
  unfoldable pub from_keyed_account : KeyedAccount X.Params → X.AmmContext → Result SplTokenSwapAmm
  from_keyed_account keyed_account _ = do
    body ← skip_first keyed_account.account.content
    state ← X.unpack_swap_v1 body
    label ← unwrap (program_label keyed_account.account.owner)
    ok (record {
      key = keyed_account.key;
      label = label;
      state = state;
      reserve_mints = (state.token_a_mint, state.token_b_mint);
      reserves = (0, 0);
      program_id = keyed_account.account.owner;
    })

  unfoldable pub get_authority : SplTokenSwapAmm → Pubkey
  get_authority self = (X.find_program_address (X.to_bytes self.key ∷ []) self.program_id).0

  unfoldable pub clone : SplTokenSwapAmm → SplTokenSwapAmm
  clone self = record {
    key = self.key;
    label = self.label;
    state = record {
      is_initialized = self.state.is_initialized;
      bump_seed = self.state.bump_seed;
      token_program_id = self.state.token_program_id;
      token_a = self.state.token_a;
      token_b = self.state.token_b;
      pool_mint = self.state.pool_mint;
      token_a_mint = self.state.token_a_mint;
      token_b_mint = self.state.token_b_mint;
      pool_fee_account = self.state.pool_fee_account;
      fees = X.clone_fees self.state.fees;
      swap_curve = record {
        curve_type = self.state.swap_curve.curve_type;
        calculator = X.clone_calculator self.state.swap_curve.calculator;
      };
    };
    reserve_mints = self.reserve_mints;
    reserves = self.reserves;
    program_id = self.program_id;
  }

  unfoldable pub get_reserve_mints : SplTokenSwapAmm → List Pubkey
  get_reserve_mints self = self.reserve_mints.0 ∷ self.reserve_mints.1 ∷ []

  unfoldable pub get_accounts_to_update : SplTokenSwapAmm → List Pubkey
  get_accounts_to_update self = self.state.token_a ∷ self.state.token_b ∷ []
