-- ===== src/Crates.antt =====
-- The libraries that the program calls, as parameters: `spl_token_swap`, `spl_token`,
-- `jupiter_amm_interface`, `rust_decimal`, `solana_sdk` and the code generated from jupiter/idls.
-- The structs that the source builds field by field are records; what cannot be read is a field
-- of `Crates`. The records `…Laws` state what the libraries document, and a theorem names those
-- that it needs.
use exponent_jupiter_amm_imp.Prelude.{ℕ, ◌+◌, ◌≤◌, ◌<◌, ◌≡◌, String, Bool, Option, none, some, List}
use exponent_jupiter_amm_imp.Prelude.Result.{Error, Result, ok, err, u64_mod}
use exponent_jupiter_amm_imp.Prelude.Dict.{lookup}
use exponent_jupiter_amm_imp.Solana.{Pubkey, Bytes, Account, AccountMap}

-- `spl_token_swap::curve::calculator::TradeDirection`
pub data TradeDirection : Type 0 where
  a_to_b b_to_a : TradeDirection

-- `spl_token_swap::curve::fees::Fees`; `rest` holds the fields that the program leaves to
-- `..Default::default()`.
pub record TokenSwapFees (Rest : Type 0) : Type 0 where
  pub trade_fee_numerator : ℕ
  pub trade_fee_denominator : ℕ
  pub owner_trade_fee_numerator : ℕ
  pub owner_trade_fee_denominator : ℕ
  pub rest : Rest

-- `spl_token_swap::curve::base::SwapCurve`
pub record SwapCurve (CurveType Calculator : Type 0) : Type 0 where
  pub curve_type : CurveType
  pub calculator : Calculator

-- `spl_token_swap::state::SwapV1`
pub record SwapV1 (CurveType Calculator Rest : Type 0) : Type 0 where
  pub is_initialized : Bool
  pub bump_seed : ℕ
  pub token_program_id : Pubkey
  pub token_a : Pubkey
  pub token_b : Pubkey
  pub pool_mint : Pubkey
  pub token_a_mint : Pubkey
  pub token_b_mint : Pubkey
  pub pool_fee_account : Pubkey
  pub fees : TokenSwapFees Rest
  pub swap_curve : SwapCurve CurveType Calculator

-- What the program reads of the result of `SwapCurve::swap`.
pub record CurveSwap : Type 0 where
  pub source_amount_swapped : ℕ
  pub destination_amount_swapped : ℕ
  pub trade_fee : ℕ
  pub owner_fee : ℕ

pub record Crates : Type 1 where
  -- `spl_token_swap`
  pub CurveType : Type 0
  pub Calculator : Type 0
  pub FeesRest : Type 0
  pub default_fees_rest : FeesRest
  pub clone_calculator : Calculator → Calculator
  pub clone_fees : TokenSwapFees FeesRest → TokenSwapFees FeesRest
  pub swap :
      SwapCurve CurveType Calculator
      → ℕ
      → ℕ
      → ℕ
      → TradeDirection
      → TokenSwapFees FeesRest
      → Option CurveSwap
  pub trading_fee : TokenSwapFees FeesRest → ℕ → Option ℕ
  pub owner_trading_fee : TokenSwapFees FeesRest → ℕ → Option ℕ
  pub unpack_swap_v1 : Bytes → Result (SwapV1 CurveType Calculator FeesRest)
  -- `spl_token`: the program's id, and `amount` of an unpacked token account
  pub spl_token_id : Pubkey
  pub unpack_token_amount : Bytes → Result ℕ
  -- `jupiter_amm_interface`
  pub Swap : Type 0
  pub token_swap : Swap
  pub QuoteRest : Type 0
  pub default_quote_rest : QuoteRest
  pub AmmContext : Type 0
  pub Referrers : Type 0
  pub try_get_account_data : AccountMap → Pubkey → Result Bytes
  pub default_unidirectional : Bool
  pub default_program_dependencies : List (Pubkey × String)
  -- `serde_json::Value`
  pub Params : Type 0
  -- `rust_decimal`
  pub Decimal : Type 0
  pub decimal_zero : Decimal
  pub from_u64 : ℕ → Option Decimal
  pub checked_div : Decimal → Decimal → Option Decimal
  pub checked_add : Decimal → Decimal → Option Decimal
  -- `rand`: a generator, and what it draws from a range and from a list
  pub Rng : Type 0
  pub sample_uniform : ℕ → ℕ → Rng → Result ℕ
  pub choose : (A : Type 0) → List A → Rng → Option A
  -- `itertools`
  pub permutations : (A : Type 0) → List A → ℕ → List (List A)
  pub collect_tuple : (A : Type 0) → List A → Option (A × A)
  -- `solana_sdk`
  pub find_program_address : List Bytes → Pubkey → Pubkey × ℕ
  pub to_bytes : Pubkey → Bytes
  pub display : Pubkey → String
  -- whether the build checks integer overflow, as a debug build does
  pub overflow_checks : Bool

module _ (X : Crates) where
  abbrev pub Fees : Type 0
  Fees = TokenSwapFees X.FeesRest

  abbrev pub Curve : Type 0
  Curve = SwapCurve X.CurveType X.Calculator

  abbrev pub State : Type 0
  State = SwapV1 X.CurveType X.Calculator X.FeesRest

  -- `SwapCurve::swap` takes no more than it is offered, the fees included, and pays out no more
  -- than the destination side holds.
  pub record SwapLaws : Type 0 where
    pub source-le :
        (c : Curve) (amount source destination : ℕ) (d : TradeDirection) (f : Fees) (r : CurveSwap)
        → X.swap c amount source destination d f ≡ some r
        → r.source_amount_swapped ≤ amount
    pub fees-le :
        (c : Curve) (amount source destination : ℕ) (d : TradeDirection) (f : Fees) (r : CurveSwap)
        → X.swap c amount source destination d f ≡ some r
        → r.trade_fee + r.owner_fee ≤ amount
    pub destination-le :
        (c : Curve) (amount source destination : ℕ) (d : TradeDirection) (f : Fees) (r : CurveSwap)
        → X.swap c amount source destination d f ≡ some r
        → r.destination_amount_swapped ≤ destination

  -- A token account's amount is a `u64`.
  pub record TokenLaws : Type 0 where
    pub amount-lt : (bytes : Bytes) (n : ℕ) → X.unpack_token_amount bytes ≡ ok n → n < u64_mod

  -- `try_get_account_data` returns the data of the account that the map holds, or an error.
  pub record AccountDataLaws : Type 0 where
    pub missing_error : Pubkey → Error
    pub get_missing :
        (m : AccountMap) (k : Pubkey)
        → lookup k m ≡ none
        → X.try_get_account_data m k ≡ err (missing_error k)
    pub get_present :
        (m : AccountMap) (k : Pubkey) (a : Account)
        → lookup k m ≡ some a
        → X.try_get_account_data m k ≡ ok a.content

  -- A clone is equal to what was cloned.
  pub record CloneLaws : Type 0 where
    pub clone_calculator-eq : (c : X.Calculator) → X.clone_calculator c ≡ c
    pub clone_fees-eq : (f : Fees) → X.clone_fees f ≡ f
