-- ===== src/Examples/Setups.antt =====
-- The set-up of a wallet's token accounts on the bank of `Simulations`.
use exponent_jupiter_amm_imp.Prelude.{
  suc, ◌≡◌, refl, subst, true, List, [], ◌∷◌, ◌==◌, inl, inr, Bool-cases, ==_iff, arith,
}
use exponent_jupiter_amm_imp.Prelude.Result.{ok}
use exponent_jupiter_amm_imp.Prelude.Dict.{insert, lookup-insert}
use exponent_jupiter_amm_imp.Prelude.Sets.{member}
use exponent_jupiter_amm_imp.Solana.{Pubkey}
use exponent_jupiter_amm_imp.Constants.{usdc_mint, usdt_mint}
use exponent_jupiter_amm_imp.Harness.Setup.{Tokens, Progress, setup_loop}
use exponent_jupiter_amm_imp.Harness.Setup.Funding.{TokensLaws, Known, Funded, setup_loop_funds}
use exponent_jupiter_amm_imp.Examples.Libraries.{small}
use exponent_jupiter_amm_imp.Examples.Simulations.{small_bank}

abbrev pub small_tokens : Tokens small_bank
small_tokens = record {
  get_associated_token_address_with_program_id = λ wallet mint program. suc mint;
  create_associated_token_account =
      λ payer wallet mint program. record { program_id = 8; accounts = []; content = mint ∷ [] };
  transfer = λ payer wallet n. record { program_id = 0; accounts = []; content = n ∷ [] };
  pack = λ a. a.amount ∷ [];
  set_account = insert;
}

small_tokens-TokensLaws : TokensLaws small small_bank small_tokens
small_tokens-TokensLaws = record {
  get_set = λ k a c. ground (arith, lookup-insert k k a c);
  get_set_other = λ j k a c differ. ground (arith, lookup-insert j k a c, differ);
  ata_differs = λ wallet j k program differ. ground arith;
  programs_differ = ground arith;
}

abbrev pub mints : List Pubkey
mints = usdc_mint ∷ usdt_mint ∷ []

mints-Known : (k : Pubkey) → member k mints ≡ true → Known small small_bank small_tokens k
mints-Known k listed = elim (Bool-cases (usdc_mint == k)) [
  | inl same ↦
      subst (Known small small_bank small_tokens) ((==_iff usdc_mint k).0 same)
        (1_110_000_000, 6, refl)
  | inr other ↦
      subst (Known small small_bank small_tokens) ((==_iff usdt_mint k).0 (ground arith))
        (1_110_000_000, 6, refl)
]

setup_loop_funds_example :
    (s : Progress small_bank) × (setup_loop small small_bank small_tokens 200 [] mints ≡ ok s)
    × (s.setup_ixs ≡ small_tokens.transfer 900 200 1_000_000_000 ∷ [])
    × (s.ata_to_set_amount ≡ [])
    × ((k : Pubkey) → member k mints ≡ true → Funded small small_bank small_tokens 200 s k)
setup_loop_funds_example =
    setup_loop_funds small small_bank small_tokens small_tokens-TokensLaws 200 [] mints mints-Known
