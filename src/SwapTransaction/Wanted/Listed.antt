-- ===== src/SwapTransaction/Wanted/Listed.antt =====
-- The accounts that each kind of swap instruction must name, by their role.
use exponent_jupiter_amm_imp.Prelude.{
  Bool, true, false, List, [], ◌∷◌, ◌++◌, ◌||◌, if◌then◌else◌, unwrap_or,
}
use exponent_jupiter_amm_imp.Solana.{AccountMeta, new, new_readonly}
use exponent_jupiter_amm_imp.Constants.{jupiter_id}
use exponent_jupiter_amm_imp.Crates.{Crates}
use exponent_jupiter_amm_imp.Jupiter.Authority.{find_event_authority}
use exponent_jupiter_amm_imp.SwapTransaction.Accounts.{BuildSwapAccountsParams}
use exponent_jupiter_amm_imp.SwapTransaction.Wanted.{
  Kind, shared_in_ledger, shared_in, shared_out, direct_in_ledger, direct_in, direct_out,
}

abbrev through_authority : Kind → Bool
through_authority shared_in_ledger = true
through_authority shared_in = true
through_authority shared_out = true
through_authority direct_in_ledger = false
through_authority direct_in = false
through_authority direct_out = false

abbrev exact_output : Kind → Bool
exact_output shared_in_ledger = false
exact_output shared_in = false
exact_output shared_out = true
exact_output direct_in_ledger = false
exact_output direct_in = false
exact_output direct_out = true

abbrev from_ledger : Kind → Bool
from_ledger shared_in_ledger = true
from_ledger shared_in = false
from_ledger shared_out = false
from_ledger direct_in_ledger = true
from_ledger direct_in = false
from_ledger direct_out = false

-- The accounts that stand in the list only for some kinds.
abbrev only_if : Bool → AccountMeta → List AccountMeta
only_if test meta = if test then meta ∷ [] else []

module _ (X : Crates) where
  -- One list for the six kinds: the user signs and pays, the authority and its two accounts stand
  -- in between where funds are shared, and then come the recipient, the mints, the account for
  -- the fee, and what few kinds have. Where an optional account is not given, the program's own
  -- id stands for it, and the user is the recipient.
  abbrev pub listed : Kind → BuildSwapAccountsParams → List AccountMeta
  listed kind p =
      let shared = through_authority kind in
      let both = shared || exact_output kind in
      let program = if both then X.spl_token_id else p.destination_token_program in
      let recipient =
        unwrap_or p.optional_destination_token_account p.user_destination_token_account in
      only_if true (new_readonly program false)
      ++ only_if shared (new_readonly p.program_authority false)
      ++ only_if true (new_readonly p.user true)
      ++ only_if true (new p.user_source_token_account false)
      ++ only_if shared (new p.source_token_account false)
      ++ only_if shared (new p.destination_token_account false)
      ++ only_if (if shared then false else true) (new p.user_destination_token_account false)
      ++ only_if true (new recipient false)
      ++ only_if both (new_readonly p.input_mint false)
      ++ only_if true (new_readonly p.output_mint false)
      ++ only_if true (new (unwrap_or p.platform_fee_account jupiter_id) false)
      ++ only_if both (new_readonly (unwrap_or p.token2022_program jupiter_id) false)
      ++ only_if (from_ledger kind) (new_readonly (unwrap_or p.token_ledger jupiter_id) false)
      ++ only_if true (new_readonly (find_event_authority X) false)
      ++ only_if true (new_readonly jupiter_id false)
