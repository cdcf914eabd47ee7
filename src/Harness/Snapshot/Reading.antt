-- ===== src/Harness/Snapshot/Reading.antt =====
-- What the readers of single files find in a snapshot.
use exponent_jupiter_amm_imp.Prelude.{
  ◌≡◌, refl, ap, ◌∙◌, true, false, Option, none, some, List, [], ◌∷◌, ◌==◌, map_option, inl, inr,
  Bool-cases, ==_iff,
}
use exponent_jupiter_amm_imp.Prelude.Result.{Result, ok}
use exponent_jupiter_amm_imp.Prelude.Dict.{lookup}
use exponent_jupiter_amm_imp.Prelude.Sets.{member}
use exponent_jupiter_amm_imp.Solana.{Pubkey, Bytes, Account, AccountMap}
use exponent_jupiter_amm_imp.Crates.{Crates}
use exponent_jupiter_amm_imp.Harness.Snapshot.Files.{Formats}
use exponent_jupiter_amm_imp.Harness.Snapshot.Contents.{
  FormatLaws, kept, collected, texts, lookup-collected, lookup-collected_onto, or_entry-none,
}
use exponent_jupiter_amm_imp.Harness.Snapshot.Restoring.{directory_of, load_written}
use exponent_jupiter_amm_imp.Harness.Snapshot.Readers.{
  get_account_from_snapshot, read_params_file, get_keyed_account_from_snapshot, get_clock,
}

module _ (X : Crates) (F : Formats X) (W : FormatLaws X F) where
  lookup-texts :
      (k : Pubkey) (m : AccountMap)
      → lookup k (texts X F m) ≡ map_option (F.write_account k) (lookup k m)
  lookup-texts k [] = refl
  lookup-texts k ((j, a) ∷ m) = elim (Bool-cases (j == k)) [
    | inl same ↦ rw same (ap (λ n. some (F.write_account n a)) ((==_iff j k).0 same))
    | inr other ↦ rw other (lookup-texts k m)
  ]

  -- The parameters are read as they were written, or as none where none were.
  read_params_written :
      (params : Option X.Params)
      → ((v : X.Params) → params ≡ some v → F.is_null v ≡ false)
      → read_params_file X F (map_option F.write_params params) ≡ ok params
  read_params_written none plain = refl
  read_params_written (some v) plain = rw (W.read_params-write_params v (plain v refl))

  module _ (params : Option X.Params) (chain : Pubkey → Option Account) (ks : List Pubkey) where
    get_account_written :
        (k : Pubkey) (a : Account)
        → member k ks ≡ true
        → kept (chain k) ≡ some a
        → get_account_from_snapshot X F (some (directory_of X F params chain ks)) k ≡ ok a
    unfolding get_account_from_snapshot
    get_account_written k a listed stands =
        let found : lookup k (collected chain ks []) ≡ some a =
          lookup-collected_onto chain k ks []
          ∙ rw (listed, or_entry-none (kept (chain k)), stands) in
        rw (lookup-texts k (collected chain ks []), found, W.read_account-write_account k a)

    pub get_keyed_account_written :
        (k : Pubkey) (a : Account)
        → ((v : X.Params) → params ≡ some v → F.is_null v ≡ false)
        → member k ks ≡ true
        → kept (chain k) ≡ some a
        → get_keyed_account_from_snapshot X F (some (directory_of X F params chain ks)) k
          ≡ ok (record { key = k; account = a; params = params })
    unfolding get_keyed_account_from_snapshot
    get_keyed_account_written k a plain listed stands =
        rw (get_account_written k a listed stands, read_params_written params plain)

    pub get_clock_written :
        {Clock : Type 0} (deserialize : Bytes → Result Clock) (default_clock clock : Clock)
        (clock_id : Pubkey) (c : Account)
        → member clock_id ks ≡ true
        → kept (chain clock_id) ≡ some c
        → deserialize c.content ≡ ok clock
        → get_clock X F deserialize default_clock clock_id
            (ok (directory_of X F params chain ks).accounts)
          ≡ ok clock
    unfolding get_clock
    get_clock_written deserialize default_clock clock clock_id c listed stands reads =
        let found = lookup-collected chain clock_id ks listed ∙ stands in
        rw (load_written X F W params chain ks, found, reads)
