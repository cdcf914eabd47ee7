-- ===== src/Harness/Loading/Building.antt =====
-- What the accounts of a snapshot make of a program test: lines 670 to 698 and 705 to 708 of
-- jupiter-core/src/amms/test_harness.rs.
use exponent_jupiter_amm_imp.Prelude.{
  Bool, String, Option, none, some, List, [], ◌∷◌, ◌==◌, if◌then◌else◌,
}
use exponent_jupiter_amm_imp.Prelude.Result.{Result, ok, ◌>>=◌, unwrap_result}
use exponent_jupiter_amm_imp.Solana.{Pubkey, Bytes, Account, AccountMap}
use exponent_jupiter_amm_imp.Harness.Bank.{Bank}

-- `solana_program_test::ProgramTest`, `sysvar::clock::ID`, the clock, and the text operations that
-- make the name of a program of a pool's label.
pub record Builders (K : Bank) : Type 1 where
  pub Builder : Type 0
  pub Clock : Type 0
  pub default : Builder
  pub prefer_bpf : Bool → Builder → Builder
  pub deactivate_feature : Pubkey → Builder → Builder
  pub add_program : String → Pubkey → Builder → Builder
  pub add_account : Pubkey → Account → Builder → Builder
  pub start_with_context : Builder → K.Context
  pub set_sysvar : Clock → K.Context → K.Context
  pub deserialize_clock : Bytes → Result Clock
  pub clock_id : Pubkey
  pub deactivated_feature : Pubkey
  pub modified_label : String → String

module _ (K : Bank) (P : Builders K) where
  abbrev pub add_programs : List (Pubkey × String) → P.Builder → P.Builder
  add_programs [] pt = pt
  add_programs ((program_id, program_name) ∷ programs) pt =
      add_programs programs (P.add_program program_name program_id pt)

  abbrev pub set_clock : Option P.Clock → K.Context → K.Context
  set_clock none context = context
  set_clock (some clock) context = P.set_sysvar clock context

  -- The clock of an entry of the snapshot, or the one so far.
  abbrev pub clock_of_entry : Pubkey → Account → Option P.Clock → Result (Option P.Clock)
  clock_of_entry address account clock =
      if address == P.clock_id
      then unwrap_result (P.deserialize_clock account.content) >>= (λ read. ok (some read))
      else ok clock

  -- The loop over the accounts of the snapshot, programs left out.
  unfoldable pub add_accounts :
      AccountMap → Option P.Clock → P.Builder → Result (Option P.Clock × P.Builder)
  add_accounts [] clock pt = ok (clock, pt)
  add_accounts ((address, account) ∷ accounts) clock pt =
      clock_of_entry address account clock >>= λ clock'.
      add_accounts accounts clock'
        (if account.executable then pt else P.add_account address account pt)
