-- ===== src/Harness/Precise.antt =====
-- How the harness updates a pool: `update_amm_precise` (lines 526 to 540 of
-- jupiter-core/src/amms/test_harness.rs), `update_amm` from the chain (lines 606 to 622) and the
-- rounds of both (lines 700 to 702 and 1033 to 1035).
pub mod Agreement
pub mod Rounds
use exponent_jupiter_amm_imp.Prelude.{ℕ, zero, suc, Option, none, some, List, [], ◌∷◌}
use exponent_jupiter_amm_imp.Prelude.Result.{Result, unwrap_result}
use exponent_jupiter_amm_imp.Prelude.Stateful.{Method, ◌>>=◌, ◌>>◌, lift}
use exponent_jupiter_amm_imp.Prelude.Dict.{lookup, insert, from_iter}
use exponent_jupiter_amm_imp.Solana.{Pubkey, Account, AccountMap}
use exponent_jupiter_amm_imp.Crates.{Crates}
use exponent_jupiter_amm_imp.Amm.{Amm}

-- `.cloned().map(|account| (address, account))`, before the addresses that follow.
abbrev pub with_account :
    Pubkey → Option Account → List (Pubkey × Account) → List (Pubkey × Account)
with_account address none rest = rest
with_account address (some account) rest = (address, account) ∷ rest

-- The requested accounts that the map has, in the order of the request.
unfoldable pub requested : List Pubkey → AccountMap → List (Pubkey × Account)
requested [] m = []
requested (address ∷ addresses) m = with_account address (lookup address m) (requested addresses m)

-- The accounts that the node returned, each under the address at its place.
unfoldable pub fetched : List (Option Account) → List Pubkey → AccountMap → AccountMap
fetched (some account ∷ accounts) (address ∷ addresses) m =
    fetched accounts addresses (insert address account m)
fetched (none ∷ accounts) (address ∷ addresses) m = fetched accounts addresses m
fetched _ _ m = m

module _ (X : Crates) (amm : Amm X) where
  unfoldable pub update_amm_precise : AccountMap → Method amm.Self (Unit {0})
  update_amm_precise account_map self =
      amm.update (from_iter (requested (amm.get_accounts_to_update self) account_map)) self

  -- `.unwrap()` on the result of a method
  abbrev pub unwrapped : {A : Type 0} → Method amm.Self A → Method amm.Self A
  unwrapped call self = let (r, self') = call self in (unwrap_result r, self')

  -- `get_multiple_accounts` is the node's answer for a list of addresses.
  unfoldable pub update_amm :
      (List Pubkey → Result (List (Option Account))) → Method amm.Self (Unit {0})
  update_amm get_multiple_accounts self =
      let accounts_to_update = amm.get_accounts_to_update self in
      (do
        accounts ← lift (unwrap_result (get_multiple_accounts accounts_to_update))
        unwrapped (amm.update (fetched accounts accounts_to_update [])))
        self

  -- `for _ in 0..rounds { update(..).unwrap() }`
  unfoldable pub update_rounds : ℕ → Method amm.Self (Unit {0}) → Method amm.Self (Unit {0})
  update_rounds zero call self = lift (Result.ok tt) self
  update_rounds (suc rounds) call self = (unwrapped call >> update_rounds rounds call) self
