-- ===== src/Loader/Branches.antt =====
-- `amm_factory` on every branch.
use exponent_jupiter_amm_imp.Prelude.{
  ◌≡◌, sym, ap, ◌∙◌, arith, inl, inr, Option, none, some, Option-cases, String, List, [], ◌∷◌, ◌<>◌,
}
use exponent_jupiter_amm_imp.Prelude.Result.{Result, ok, err, panic, message, ◌>>=◌}
use exponent_jupiter_amm_imp.Solana.{Pubkey, Bytes, KeyedAccount}
use exponent_jupiter_amm_imp.Crates.{Crates, State}
use exponent_jupiter_amm_imp.SplTokenSwap.Pool.{SplTokenSwapAmm, from_keyed_account, program_label}
use exponent_jupiter_amm_imp.SplTokenSwap.Pool.Build.{
  from_keyed_account-IsWellFormed, from_keyed_account_keeps,
}
use exponent_jupiter_amm_imp.SplTokenSwap.Implementation.{spl_token_swap_amm}
use exponent_jupiter_amm_imp.Loader.{BoxedAmm, amm_factory}

module _ (X : Crates) (k : KeyedAccount X.Params) where
  -- The new pool: nothing is in its reserves yet.
  abbrev pub fresh_pool : String → State X → SplTokenSwapAmm X
  fresh_pool label state = record {
    key = k.key;
    label = label;
    state = state;
    reserve_mints = (state.token_a_mint, state.token_b_mint);
    reserves = (0, 0);
    program_id = k.account.owner;
  }

  -- The outcome, by the owner's entry in the table and by the account's bytes.
  abbrev pub outcome : Option String → Bytes → Result (BoxedAmm X)
  outcome none _ = err (
      message
        ("Unsupported pool " <> X.display k.key <> ", from owner " <> X.display k.account.owner))
  outcome (some label) [] = panic
  outcome (some label) (version ∷ body) = X.unpack_swap_v1 body >>= λ state.
      ok (record { amm = spl_token_swap_amm X; value = fresh_pool label state })

  -- The loader refuses an account whose owner is not in the table, with the key and the owner in
  -- the message, whatever its bytes are. For an owner in the table it panics on an account with no
  -- bytes; on any other it ends as the unpacking of the bytes behind the first does, and a state
  -- makes a pool with the account's key, its owner as the program, the owner's label, the state's
  -- two mints in order and empty reserves: the look-up of the label never fails.
  pub amm_factory-eq-outcome :
      (c : X.AmmContext) (mints : List Pubkey)
      → amm_factory X k c mints ≡ outcome (program_label k.account.owner) k.account.content
  unfolding amm_factory from_keyed_account
  amm_factory-eq-outcome c mints = elim (Option-cases (program_label k.account.owner)) [
    | inl unknown ↦ rw unknown
    | inr (label, known) ↦ rw known (ground arith)
  ]

  -- Where the construction gives a pool, the loader gives the same one.
  pub amm_factory_built :
      (c : X.AmmContext) (mints : List Pubkey) {pool : SplTokenSwapAmm X}
      → from_keyed_account X k c ≡ ok pool
      → amm_factory X k c mints ≡ ok (record { amm = spl_token_swap_amm X; value = pool })
  unfolding amm_factory
  amm_factory_built c mints made =
      let owned = (from_keyed_account_keeps X k c made).1 in
      let known =
        ap program_label (sym owned) ∙ (from_keyed_account-IsWellFormed X k c made).labelled in
      rw (known, made)
