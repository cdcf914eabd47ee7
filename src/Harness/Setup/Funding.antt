-- ===== src/Harness/Setup/Funding.antt =====
-- The accounts of the mints of the first table.
use exponent_jupiter_amm_imp.Prelude.{
  ℕ, ◌+◌, ◌*◌, ◌/◌, ◌<◌, ◌≡◌, ◌≢◌, refl, subst, ◌∙◌, Bool, true, false, none, some, List, [], ◌∷◌,
  ◌==◌, if◌then◌else◌, inl, inr, Bool-cases, ==_iff, ==_ne, ==_refl, arith,
}
use exponent_jupiter_amm_imp.Prelude.Result.{ok, u64_mod}
use exponent_jupiter_amm_imp.Prelude.Dict.{lookup, lookup-insert}
use exponent_jupiter_amm_imp.Prelude.Sets.{member}
use exponent_jupiter_amm_imp.Solana.{Pubkey, Account}
use exponent_jupiter_amm_imp.Crates.{Crates}
use exponent_jupiter_amm_imp.Harness.Amounts.{token_mint_and_in_amount}
use exponent_jupiter_amm_imp.Harness.Bank.{Bank}
use exponent_jupiter_amm_imp.Harness.Setup.{
  Tokens, find_amount, in_u64, Progress, create_ata_account, amount_and_program, record_ata,
  setup_mint, setup_mints, setup_loop,
}

-- An account that is put into the bank is found there, and the others are as they were; two mints
-- have two accounts.
pub record TokensLaws (X : Crates) (K : Bank) (T : Tokens K) : Type 0 where
  pub get_set :
      (k : Pubkey) (a : Account) (c : K.Context)
      → K.get_account (T.set_account k a c) k ≡ ok (some a)
  pub get_set_other :
      (j k : Pubkey) (a : Account) (c : K.Context)
      → j ≢ k
      → K.get_account (T.set_account k a c) j ≡ K.get_account c j
  pub ata_differs :
      (wallet j k program : Pubkey)
      → j ≢ k
      → T.get_associated_token_address_with_program_id wallet j program
        ≢ T.get_associated_token_address_with_program_id wallet k program
  pub programs_differ : X.spl_token_id ≢ K.spl_token_2022_id

abbrev AllSmall : List (Pubkey × ℕ) → Type 0
AllSmall [] = Unit
AllSmall (entry ∷ entries) = (entry.1 * 110 + 2_039_280 < u64_mod) × AllSmall entries

find_amount_small :
    (m p : Pubkey) (entries : List (Pubkey × ℕ)) {x : ℕ} {q : Pubkey}
    → AllSmall entries
    → find_amount m p entries ≡ some (x, q)
    → (x * 110 + 2_039_280 < u64_mod) × (q ≡ p)
find_amount_small m p [] small found = absurd (ground arith)
find_amount_small m p ((k, y) ∷ entries) {x} {q} (s, small) found = elim (Bool-cases (k == m)) [
  | inl same ↦ ground (arith, same)
  | inr other ↦ find_amount_small m p entries small (ground (arith, other))
]

in_u64_fits : (checks : Bool) (n : ℕ) → n < u64_mod → in_u64 checks n ≡ ok n
in_u64_fits checks n h = ground arith

module _ (X : Crates) (K : Bank) (T : Tokens K) where
  -- The account that holds a mint's tokens, with eleven times the amount of the table, and more
  -- lamports where the token is native.
  abbrev pub funded : Pubkey → Pubkey → ℕ → Account
  funded wallet mint x = record {
    lamports = if mint == K.native_mint then x * 11 + 2_039_280 else 10_000_000;
    content = T.pack (record {
      mint = mint;
      owner = wallet;
      amount = x * 11;
      delegate = none;
      is_native = if mint == K.native_mint then some 2_039_280 else none;
      delegated_amount = 0;
      close_authority = none;
    });
    owner = X.spl_token_id;
    executable = false;
    rent_epoch = 0;
  }

  abbrev pub ata : Pubkey → Pubkey → Pubkey
  ata wallet mint = T.get_associated_token_address_with_program_id wallet mint X.spl_token_id

  abbrev after_mint : Pubkey → Pubkey → ℕ → Progress K → Progress K
  after_mint wallet mint x s =
      record_ata X K T mint (ata wallet mint)
        (record s { context = T.set_account (ata wallet mint) (funded wallet mint x) s.context })

  eleven : (x : ℕ) → x * 110 / 10 ≡ x * 11
  eleven x = omega arith

  create_ata_account_lem :
      (wallet mint : Pubkey) (x : ℕ)
      → x * 110 + 2_039_280 < u64_mod
      → create_ata_account X K T wallet mint (x * 11) X.spl_token_id
        ≡ ok (ata wallet mint, funded wallet mint x)
  unfolding create_ata_account
  create_ata_account_lem wallet mint x small = elim (Bool-cases (mint == K.native_mint)) [
    | inl native ↦ ground (arith, native)
    | inr other ↦ ground (arith, other)
  ]

  amount_and_program_lem :
      (mint : Pubkey) {x : ℕ} {q : Pubkey}
      → find_amount mint X.spl_token_id (token_mint_and_in_amount K.native_mint) ≡ some (x, q)
      → amount_and_program X K T mint ≡ ok (x, q)
  unfolding amount_and_program
  amount_and_program_lem mint found = ground (arith, found)

  setup_mint_lem :
      TokensLaws X K T
      → (wallet mint : Pubkey) (s : Progress K) {x : ℕ} {q : Pubkey}
      → find_amount mint X.spl_token_id (token_mint_and_in_amount K.native_mint) ≡ some (x, q)
      → setup_mint X K T wallet mint s ≡ ok (after_mint wallet mint x s)
  unfolding setup_mint
  setup_mint_lem L wallet mint s {x} {q} found =
      let (small, program) =
        find_amount_small mint X.spl_token_id (token_mint_and_in_amount K.native_mint) (omega arith)
          found in
      let fits = in_u64_fits X.overflow_checks (x * 110) (omega (arith, small)) in
      let first = ==_ne X.spl_token_id K.spl_token_2022_id L.programs_differ in
      rw (
        setup_mint,
        amount_and_program_lem mint found,
        fits,
        program,
        first,
        eleven x,
        create_ata_account_lem wallet mint x small,
      )

  -- A mint that the first table has.
  abbrev pub Known : Pubkey → Type 0
  Known mint =
      (x q : ℕ) × (find_amount mint X.spl_token_id (token_mint_and_in_amount K.native_mint)
        ≡ some (x, q))

  -- The map has the mint's account, and the bank has the account with eleven times the amount.
  pub record Funded (wallet : Pubkey) (s : Progress K) (mint : Pubkey) : Type 0 where
    pub x : ℕ
    pub q : Pubkey
    pub listed :
        find_amount mint X.spl_token_id (token_mint_and_in_amount K.native_mint) ≡ some (x, q)
    pub mapped : lookup mint s.mint_to_ata_with_program_id ≡ some (ata wallet mint, X.spl_token_id)
    pub stored : K.get_account s.context (ata wallet mint) ≡ ok (some (funded wallet mint x))

  module _ (L : TokensLaws X K T) (wallet : Pubkey) where
    after_mint-Funded :
        (mint : Pubkey) (s : Progress K) {x : ℕ} {q : Pubkey}
        → find_amount mint X.spl_token_id (token_mint_and_in_amount K.native_mint) ≡ some (x, q)
        → Funded wallet (after_mint wallet mint x s) mint
    after_mint-Funded mint s {x} {q} found = record {
      x = x;
      q = q;
      listed = found;
      mapped =
          lookup-insert mint mint (ata wallet mint, X.spl_token_id) s.mint_to_ata_with_program_id
          ∙ rw (==_refl mint);
      stored = L.get_set (ata wallet mint) (funded wallet mint x) s.context;
    }

    after_mint-Funded_old :
        (mint k : Pubkey) (s : Progress K) {x : ℕ} {q : Pubkey}
        → find_amount mint X.spl_token_id (token_mint_and_in_amount K.native_mint) ≡ some (x, q)
        → Funded wallet s k
        → Funded wallet (after_mint wallet mint x s) k
    after_mint-Funded_old mint k s {x} {q} found h = elim (Bool-cases (mint == k)) [
      | inl same ↦
          subst (Funded wallet (after_mint wallet mint x s)) ((==_iff mint k).0 same)
            (after_mint-Funded mint s found)
      | inr other ↦
          (let differ : k ≢ mint = ground arith in
            record {
              x = h.x;
              q = h.q;
              listed = h.listed;
              mapped =
                  lookup-insert k mint (ata wallet mint, X.spl_token_id)
                    s.mint_to_ata_with_program_id
                  ∙ rw (other, h.mapped);
              stored =
                  L.get_set_other (ata wallet k) (ata wallet mint) (funded wallet mint x) s.context
                    (L.ata_differs wallet k mint X.spl_token_id differ)
                  ∙ h.stored;
            })
    ]

    setup_mints_fund :
        (mints : List Pubkey) (s : Progress K)
        → ((k : Pubkey) → member k mints ≡ true → Known k)
        → (s' : Progress K) × (setup_mints X K T wallet mints s ≡ ok s')
          × (s'.setup_ixs ≡ s.setup_ixs)
          × (s'.ata_to_set_amount ≡ s.ata_to_set_amount)
          × ((k : Pubkey) → Funded wallet s k → Funded wallet s' k)
          × ((k : Pubkey) → member k mints ≡ true → Funded wallet s' k)
          × ((j : Pubkey)
              → ((k : Pubkey) → j ≢ ata wallet k)
              → K.get_account s'.context j ≡ K.get_account s.context j)
    unfolding setup_mints
    setup_mints_fund [] s known =
        (s, refl, refl, refl, λ k h. h, λ k listed. absurd (ground arith), λ j apart. refl)
    setup_mints_fund (mint ∷ mints) s known =
        let (x, q, found) = known mint (ground arith) in
        let next = after_mint wallet mint x s in
        let (s', made, ixs, later, old, new, others) =
          setup_mints_fund mints next (λ k listed. known k (ground arith)) in
        (
          s',
          rw (setup_mints, setup_mint_lem L wallet mint s found) made,
          ixs,
          later,
          λ k h. old k (after_mint-Funded_old mint k s found h),
          λ k listed. elim (Bool-cases (mint == k)) [
            | inl same ↦
                subst (Funded wallet s') ((==_iff mint k).0 same)
                  (old mint (after_mint-Funded mint s found))
            | inr other ↦ new k (ground arith)
          ],
          λ j apart.
              others j apart
              ∙ L.get_set_other j (ata wallet mint) (funded wallet mint x) s.context (apart mint),
        )

    -- The loop's end, with what it leaves of the other accounts.
    pub setup_loop_lem :
        (context : K.Context) (mints : List Pubkey)
        → ((k : Pubkey) → member k mints ≡ true → Known k)
        → (s : Progress K) × (setup_loop X K T wallet context mints ≡ ok s)
          × (s.setup_ixs ≡ T.transfer K.payer wallet 1_000_000_000 ∷ [])
          × (s.ata_to_set_amount ≡ [])
          × ((k : Pubkey) → member k mints ≡ true → Funded wallet s k)
          × ((j : Pubkey)
              → ((k : Pubkey) → j ≢ ata wallet k)
              → K.get_account s.context j ≡ K.get_account context j)
    unfolding setup_loop
    setup_loop_lem context mints known =
        let (s, made, ixs, later, old, new, others) =
          setup_mints_fund mints
            (record {
              setup_ixs = T.transfer K.payer wallet 1_000_000_000 ∷ [];
              mint_to_ata_with_program_id = [];
              ata_to_set_amount = [];
              context = context;
            })
            known in
        (s, made, ixs, later, new, others)

    -- If the bank keeps the accounts that are put into it, mints have different accounts and the
    -- two token programs differ: for any mints of the first table, a mint twice or not, the set-up
    -- makes no instruction but the transfer to the wallet, leaves no account to be funded later,
    -- and does not panic; each mint is mapped to the wallet's account for it, which holds eleven
    -- times the amount of the table, with the lamports for it where the token is native.
    pub setup_loop_funds :
        (context : K.Context) (mints : List Pubkey)
        → ((k : Pubkey) → member k mints ≡ true → Known k)
        → (s : Progress K) × (setup_loop X K T wallet context mints ≡ ok s)
          × (s.setup_ixs ≡ T.transfer K.payer wallet 1_000_000_000 ∷ [])
          × (s.ata_to_set_amount ≡ [])
          × ((k : Pubkey) → member k mints ≡ true → Funded wallet s k)
    setup_loop_funds context mints known =
        let (s, made, ixs, later, new, _) = setup_loop_lem context mints known in
        (s, made, ixs, later, new)
