-- ===== src/Harness/TakeSnapshot/Chain.antt =====
-- A chain on which a token swap pool stands, and a node that answers from it.
use exponent_jupiter_amm_imp.Prelude.{ℕ, ◌≡◌, ◌≢◌, String, false, Option, none, some, List, map}
use exponent_jupiter_amm_imp.Prelude.Result.{ok}
use exponent_jupiter_amm_imp.Prelude.Dict.{lookup}
use exponent_jupiter_amm_imp.Solana.{Pubkey, Account}
use exponent_jupiter_amm_imp.Crates.{Crates}
use exponent_jupiter_amm_imp.SplTokenSwap.Pool.{SplTokenSwapAmm, from_keyed_account}
use exponent_jupiter_amm_imp.Harness.Amounts.{token_mint_to_in_amount}
use exponent_jupiter_amm_imp.Harness.Snapshot.Addresses.{Keys}
use exponent_jupiter_amm_imp.Harness.Client.{Client, Remote}

-- The node answers every request from the chain.
pub record Answers (client : Client) (chain : Pubkey → Option Account) : Type 0 where
  pub get_account-eq : (k : Pubkey) (a : Account) → chain k ≡ some a → client.get_account k ≡ ok a
  pub get_multiple_accounts-eq :
      (ks : List Pubkey) → client.get_multiple_accounts ks ≡ ok (map chain ks)
  pub get_account_with_commitment-eq :
      (k : Pubkey) → client.get_account_with_commitment k ≡ ok (chain k)

-- An account that is encoded as text is decoded as it was, under the key that its text spells.
pub record RemoteLaws (X : Crates) (N : Remote X) : Type 0 where
  pub try_into-encode_ui_account :
      (id : String) (k : Pubkey) (a : Account)
      → N.from_str id ≡ ok k
      → N.try_into (record { pubkey = id; ui_account = N.encode_ui_account k a; params = none })
        ≡ ok (record { key = k; account = a; params = none })

-- An account that is no program stands at the key, which is not the placeholder.
abbrev pub Stands : Keys → (Pubkey → Option Account) → Pubkey → Account → Type 0
Stands Z chain k a = (chain k ≡ some a) × (a.executable ≡ false) × (k ≢ Z.placeholder)

-- The pool's account makes the pool, its vaults hold the two balances, the clock's account holds
-- the clock, and the table has an amount for both mints.
pub record IsDeployed (X : Crates) (N : Remote X) (Z : Keys) (chain : Pubkey → Option Account)
    (k : Pubkey) (account : Account) (pool : SplTokenSwapAmm X) (clock : N.Clock) (balances : ℕ × ℕ)
    : Type 0 where
  pub stands : Stands Z chain k account
  pub made :
      from_keyed_account X
        (record { key = k; account = account; params = none })
        (N.amm_context (N.clock_ref_from clock))
      ≡ ok pool
  pub vault_a :
      (a : Account) × Stands Z chain pool.state.token_a a
      × (X.unpack_token_amount a.content ≡ ok (balances.0))
  pub vault_b :
      (b : Account) × Stands Z chain pool.state.token_b b
      × (X.unpack_token_amount b.content ≡ ok (balances.1))
  pub clock_account :
      (c : Account) × (chain Z.clock_id ≡ some c)
      × (c.executable ≡ false)
      × (N.deserialize_clock c.content ≡ ok clock)
  pub amount_a :
      (n : ℕ) × (lookup pool.reserve_mints.0 (token_mint_to_in_amount Z.native_mint) ≡ some n)
  pub amount_b :
      (n : ℕ) × (lookup pool.reserve_mints.1 (token_mint_to_in_amount Z.native_mint) ≡ some n)
