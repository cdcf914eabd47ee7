-- ===== src/Examples/Libraries.antt =====
-- Libraries that compute: a constant-product curve with fees, accounts whose bytes are a list of
-- numbers, whole numbers as decimals. Each documented law holds of them.
use exponent_jupiter_amm_imp.Prelude.{
  ℕ, ◌+◌, ◌-◌, ◌*◌, ◌/◌, ◌≤◌, ◌<◌, ◌≡◌, refl, true, false, Option, none, some, List, [], ◌∷◌, ltb,
  if◌then◌else◌, arith,
}
use exponent_jupiter_amm_imp.Prelude.Result.{Result, ok, err, panic, library, u64_mod}
use exponent_jupiter_amm_imp.Prelude.Dict.{lookup}
use exponent_jupiter_amm_imp.Solana.{Pubkey, Bytes, Account, AccountMap}
use exponent_jupiter_amm_imp.Crates.{
  Crates, SwapV1, CurveSwap, SwapLaws, TokenLaws, AccountDataLaws, CloneLaws,
}
use exponent_jupiter_amm_imp.Math.Fees.Pct.{DecimalLaws}
use exponent_jupiter_amm_imp.Route.Pairs.{ItertoolsLaws, picks, arrangements, only_two}

abbrev fee_part : ℕ → ℕ → ℕ → ℕ
fee_part amount numerator denominator = amount * numerator / denominator

-- What is left after the fees buys its share of the destination side.
abbrev sell : ℕ → ℕ → ℕ → ℕ → ℕ → Option CurveSwap
sell amount source destination trade_fee owner_fee =
    if ltb amount (trade_fee + owner_fee + 1)
    then none
    else some (record {
      source_amount_swapped = amount;
      destination_amount_swapped =
          destination
          * (amount - trade_fee - owner_fee)
          / (source + (amount - trade_fee - owner_fee));
      trade_fee = trade_fee;
      owner_fee = owner_fee;
    })

-- The accounts: the vaults, the two mints, the pool's mint and fee account, and the fees.
abbrev read_pool : Bytes → Result (SwapV1 (Unit {0}) (Unit {0}) (Unit {0}))
read_pool (a ∷ b ∷ mint_a ∷ mint_b ∷ mint ∷ fee ∷ n ∷ d ∷ on ∷ od ∷ []) = ok (record {
  is_initialized = true;
  bump_seed = 255;
  token_program_id = 6;
  token_a = a;
  token_b = b;
  pool_mint = mint;
  token_a_mint = mint_a;
  token_b_mint = mint_b;
  pool_fee_account = fee;
  fees = record {
    trade_fee_numerator = n;
    trade_fee_denominator = d;
    owner_trade_fee_numerator = on;
    owner_trade_fee_denominator = od;
    rest = tt;
  };
  swap_curve = record { curve_type = tt; calculator = tt };
})
read_pool _ = err (library 3)

abbrev read_amount : Bytes → Result ℕ
read_amount (n ∷ []) = if ltb n u64_mod then ok n else err (library 1)
read_amount _ = err (library 1)

abbrev account_data : AccountMap → Pubkey → Result Bytes
account_data m k = elim (lookup k m) [ none ↦ err (library k) | some a ↦ ok a.content ]

abbrev head_of : (A : Type 0) → List A → ℕ → Option A
head_of A [] _ = none
head_of A (x ∷ _) _ = some x

abbrev pub small : Crates
small = record {
  CurveType = Unit {0};
  Calculator = Unit {0};
  FeesRest = Unit {0};
  default_fees_rest = tt;
  clone_calculator = λ c. c;
  clone_fees = λ f. f;
  swap = λ c amount source destination d f.
      sell amount source destination (fee_part amount f.trade_fee_numerator f.trade_fee_denominator)
        (fee_part amount f.owner_trade_fee_numerator f.owner_trade_fee_denominator);
  trading_fee = λ f amount. some (fee_part amount f.trade_fee_numerator f.trade_fee_denominator);
  owner_trading_fee =
      λ f amount. some (fee_part amount f.owner_trade_fee_numerator f.owner_trade_fee_denominator);
  unpack_swap_v1 = read_pool;
  spl_token_id = 6;
  unpack_token_amount = read_amount;
  Swap = ℕ;
  token_swap = 3;
  QuoteRest = Unit {0};
  default_quote_rest = tt;
  AmmContext = Unit {0};
  Referrers = Unit {0};
  try_get_account_data = account_data;
  default_unidirectional = false;
  default_program_dependencies = [];
  Params = Unit {0};
  Decimal = ℕ;
  decimal_zero = 0;
  from_u64 = λ n. some n;
  checked_div = λ a b. if ltb 0 b then some (a / b) else none;
  checked_add = λ a b. some (a + b);
  Rng = ℕ;
  sample_uniform = λ start end _. if ltb start end then ok start else panic;
  choose = head_of;
  permutations = λ A items _. arrangements (picks items);
  collect_tuple = λ A items. only_two items;
  find_program_address = λ seeds program. (program + 1, 255);
  to_bytes = λ k. k ∷ [];
  display = λ k. "key";
  overflow_checks = true;
}

share-le : (d n s : ℕ) → d * n / (s + n) ≤ d
share-le d n s = grind arith

pub small-SwapLaws : SwapLaws small
small-SwapLaws = record {
  source-le = λ c amount source destination d f r e. ground arith;
  fees-le = λ c amount source destination d f r e. ground arith;
  destination-le = λ c amount source destination d f r e. ground (
    arith,
    share-le destination
        (amount
          - (fee_part amount f.trade_fee_numerator f.trade_fee_denominator)
          - (fee_part amount f.owner_trade_fee_numerator f.owner_trade_fee_denominator))
        source,
  );
}

read_amount-lt : (bytes : Bytes) (n : ℕ) → read_amount bytes ≡ ok n → n < u64_mod
read_amount-lt [] n h = absurd (ground arith)
read_amount-lt (m ∷ []) n h = ground arith
read_amount-lt (m ∷ k ∷ rest) n h = absurd (ground arith)

pub small-TokenLaws : TokenLaws small
small-TokenLaws = record { amount-lt = read_amount-lt }

account_data_missing :
    (m : AccountMap) (k : Pubkey) → lookup k m ≡ none → account_data m k ≡ err (library k)
account_data_missing m k e = ground arith

account_data_present :
    (m : AccountMap) (k : Pubkey) (a : Account)
    → lookup k m ≡ some a
    → account_data m k ≡ ok a.content
account_data_present m k a e = ground arith

pub small-AccountDataLaws : AccountDataLaws small
small-AccountDataLaws = record {
  missing_error = λ k. library k;
  get_missing = account_data_missing;
  get_present = account_data_present;
}

pub small-CloneLaws : CloneLaws small
small-CloneLaws = record { clone_calculator-eq = λ c. refl; clone_fees-eq = λ f. refl }

pub small-ItertoolsLaws : ItertoolsLaws small
small-ItertoolsLaws = record {
  permutations-eq = λ A items. refl;
  collect_tuple-eq = λ A items. refl;
}

quotient :
    (n m a b : ℕ)
    → 0 < m
    → some n ≡ some a
    → some m ≡ some b
    → (if ltb 0 b then some (a / b) else none) ≡ some (a / b)
quotient n m a b pos ea eb = ground arith

pub small-DecimalLaws : DecimalLaws small
small-DecimalLaws = record {
  IsSmall = λ _. Unit {0};
  zero-IsSmall = tt;
  from_u64_total = λ n h. (n, refl);
  checked_div_total = λ n m a b hn hm pos ea eb. (a / b, quotient n m a b pos ea eb, tt);
  checked_add_total = λ a b ha hb. (a + b, refl);
}
