-- ===== src/Harness/Snapshot/Contents.antt =====
-- What is read from the files of a snapshot is what was written.
use Prim.Native.Char.{code}
use exponent_jupiter_amm_imp.Prelude.{
  ℕ, false, ◌≡◌, ◌≢◌, ◌&&◌, ◌||◌, not, Bool, String, refl, sym, ap, subst, ◌∙◌, true, Option, none,
  some, List, [], ◌∷◌, map, ◌==◌, if◌then◌else◌, inl, inr, ==_iff, Bool-cases, Option-cases, arith,
}
use exponent_jupiter_amm_imp.Prelude.Result.{ok}
use exponent_jupiter_amm_imp.Prelude.Stateful.{◌>>◌, >>=_called}
use exponent_jupiter_amm_imp.Prelude.Dict.{
  or_entry, Dict, lookup, insert, insert_entries, from_iter, lookup-insert,
}
use exponent_jupiter_amm_imp.Prelude.Sets.{member}
use exponent_jupiter_amm_imp.Solana.{Pubkey, Account, AccountMap}
use exponent_jupiter_amm_imp.Crates.{Crates}
use exponent_jupiter_amm_imp.Harness.Snapshot.Files.{
  Stored, Entries, Formats, write_file, create_accounts, load_accounts,
}

-- The characters that a path or a pattern gives a meaning.
abbrev special : ℕ → Bool
special c = c == b'/' || (c == b'*' || (c == b'?' || (c == b'[' || (c == b']' || c == 0))))

abbrev ordinary : String → Bool
ordinary String.[] = true
ordinary (String.◌∷◌ c s) = not (special (code c)) && ordinary s

-- The text is a name that has none of them and does not start with a dot.
abbrev pub plain : String → Bool
plain String.[] = false
plain (String.◌∷◌ c s) = not (code c == b'.') && (not (special (code c)) && ordinary s)

abbrev pub files_in : {A : Type 0} → Option (Stored A A) → Dict A
files_in none = []
files_in (some d) = d.accounts

-- An account's file is read as it was written, and so are parameters that are not null. The disk
-- takes every file. `HasRoot` says of the names that tests/fixtures/accounts is there, which no
-- change under one name makes untrue: then a plain name leads to itself, and as a pattern it
-- matches itself alone.
pub record FormatLaws (X : Crates) (F : Formats X) : Type 1 where
  pub read_account-write_account :
      (k : Pubkey) (a : Account) → F.read_account (F.write_account k a) ≡ ok (k, a)
  pub read_params-write_params :
      (v : X.Params) → F.is_null v ≡ false → F.read_params (F.write_params v) ≡ ok (some v)
  pub create_file-ok : (text : F.Text) → F.create_file text ≡ ok tt
  pub HasRoot : Entries F.Text → Type 0
  pub root_stays :
      (name : String) (fs gs : Entries F.Text)
      → ((other : String) → name ≢ other → gs other ≡ fs other)
      → HasRoot fs
      → HasRoot gs
  pub resolve-plain :
      (fs : Entries F.Text) (name : String)
      → HasRoot fs
      → plain name ≡ true
      → F.resolve fs name ≡ some name
  pub glob-plain :
      (fs : Entries F.Text) (name : String)
      → plain name ≡ true
      → F.glob fs name ≡ ok (files_in (fs name))

-- What a snapshot keeps of an answer: programs are left out.
abbrev pub kept : Option Account → Option Account
kept none = none
kept (some a) = if a.executable then none else some a

abbrev pub insert_kept : Pubkey → Option Account → AccountMap → AccountMap
insert_kept k none m = m
insert_kept k (some a) m = insert k a m

-- The accounts that a snapshot of these addresses has, from a chain.
abbrev pub collected : (Pubkey → Option Account) → List Pubkey → AccountMap → AccountMap
collected chain [] m = m
collected chain (k ∷ ks) m = collected chain ks (insert_kept k (kept (chain k)) m)

-- No key stands twice.
abbrev Distinct : AccountMap → Type 0
Distinct [] = Unit
Distinct (entry ∷ m) = (lookup entry.0 m ≡ none) × Distinct m

insert-Distinct : (k : Pubkey) (a : Account) (m : AccountMap) → Distinct m → Distinct (insert k a m)
insert-Distinct k a [] h = (refl, tt)
insert-Distinct k a ((i, b) ∷ m) (new, h) = elim (Bool-cases (i == k)) [
  | inl same ↦ rw same (subst (λ n. lookup n m ≡ none) ((==_iff i k).0 same) new, h)
  | inr other ↦
      (let fresh : lookup i (insert k a m) ≡ none =
          ground (arith, lookup-insert i k a m, new, other) in
        rw other (fresh, insert-Distinct k a m h))
]

collected-Distinct :
    (chain : Pubkey → Option Account) (ks : List Pubkey) (m : AccountMap)
    → Distinct m
    → Distinct (collected chain ks m)
collected-Distinct chain [] m h = h
collected-Distinct chain (k ∷ ks) m h = elim (Option-cases (kept (chain k))) [
  | inl missing ↦ rw missing (collected-Distinct chain ks m h)
  | inr (a, found) ↦ rw found (collected-Distinct chain ks (insert k a m) (insert-Distinct k a m h))
]

lookup-insert_entries :
    (j : Pubkey) (m d : AccountMap)
    → Distinct m
    → lookup j (insert_entries d m) ≡ or_entry (lookup j m) (lookup j d)
lookup-insert_entries j [] d h = refl
lookup-insert_entries j ((k, a) ∷ m) d (new, h) = elim (Bool-cases (k == j)) [
  | inl same ↦
      (let gone = subst (λ n. lookup n m ≡ none) ((==_iff k j).0 same) new in
        ground
          (arith, lookup-insert_entries j m (insert k a d) h, lookup-insert j k a d, same, gone))
  | inr other ↦
      ground (arith, lookup-insert_entries j m (insert k a d) h, lookup-insert j k a d, other)
]

or_entry-again : (o d : Option Account) → or_entry o (or_entry o d) ≡ or_entry o d
or_entry-again none d = refl
or_entry-again (some a) d = refl

pub or_entry-none : (o : Option Account) → or_entry o none ≡ o
or_entry-none none = refl
or_entry-none (some a) = refl

lookup-insert_kept :
    (j k : Pubkey) (o : Option Account) (m : AccountMap)
    → lookup j (insert_kept k o m) ≡ (if k == j then or_entry o (lookup j m) else lookup j m)
lookup-insert_kept j k none m = ground arith
lookup-insert_kept j k (some a) m = lookup-insert j k a m

pub lookup-collected_onto :
    (chain : Pubkey → Option Account) (j : Pubkey) (ks : List Pubkey) (m : AccountMap)
    → lookup j (collected chain ks m)
      ≡ (if member j ks then or_entry (kept (chain j)) (lookup j m) else lookup j m)
lookup-collected_onto chain j [] m = refl
lookup-collected_onto chain j (k ∷ ks) m =
    let o = kept (chain k) in
    let next = lookup-collected_onto chain j ks (insert_kept k o m) in
    let here = lookup-insert_kept j k o m in
    elim (Bool-cases (k == j)) [
      | inl same ↦
          (let equal = ap (λ n. kept (chain n)) ((==_iff k j).0 same) in
            let again = or_entry-again (kept (chain j)) (lookup j m) in
            elim (Bool-cases (member j ks)) [
              | inl listed ↦ next ∙ rw (here, same, equal, listed, again)
              | inr absent ↦ next ∙ rw (here, same, equal, absent)
            ])
      | inr other ↦ next ∙ rw (here, other)
    ]

-- An address of the snapshot is found as the chain has it, if no program stands there.
pub lookup-collected :
    (chain : Pubkey → Option Account) (j : Pubkey) (ks : List Pubkey)
    → member j ks ≡ true
    → lookup j (from_iter (collected chain ks [])) ≡ kept (chain j)
lookup-collected chain j ks listed =
    lookup-insert_entries j (collected chain ks []) [] (collected-Distinct chain ks [] tt)
    ∙ rw (
      lookup-collected_onto chain j ks [],
      listed,
      or_entry-none (kept (chain j)),
      or_entry-none (kept (chain j)),
    )

module _ (X : Crates) (F : Formats X) where
  -- The files of the accounts of a map.
  abbrev pub texts : AccountMap → Dict F.Text
  texts [] = []
  texts ((k, a) ∷ m) = (k, F.write_account k a) ∷ texts m

  texts-insert :
      (k : Pubkey) (a : Account) (m : AccountMap)
      → texts (insert k a m) ≡ insert k (F.write_account k a) (texts m)
  texts-insert k a [] = refl
  texts-insert k a ((i, b) ∷ m) = ground (arith, texts-insert k a m)

  module _ (L : FormatLaws X F) where
    write_file_made :
        (k : Pubkey) (text : F.Text) (files : Dict F.Text)
        → write_file X F k text files ≡ (ok tt, insert k text files)
    write_file_made k text files = rw (write_file, L.create_file-ok text) refl

    create_accounts_step :
        (o : Option Account) (answers : List (Option Account)) (k : Pubkey) (ks : List Pubkey)
        (m : AccountMap)
        → create_accounts X F (o ∷ answers) (k ∷ ks) (texts m)
          ≡ create_accounts X F answers ks (texts (insert_kept k (kept o) m))
    unfolding create_accounts
    create_accounts_step none answers k ks m = refl
    create_accounts_step (some a) answers k ks m =
        let rest = create_accounts X F answers ks in
        let text = F.write_account k a in
        let before =
          λ (b : Bool). (if b then rest else (write_file X F k text >> rest)) (texts m) in
        let after = λ (b : Bool). rest (texts (insert_kept k (if b then none else some a) m)) in
        elim (Bool-cases a.executable) [
          | inl program ↦ ap before program ∙ sym (ap after program)
          | inr account ↦
              ap before account
              ∙ >>=_called (write_file X F k text) (λ _. rest) (texts m)
                  (write_file_made k text (texts m))
              ∙ ap rest (sym (texts-insert k a m))
              ∙ sym (ap after account)
        ]

    pub create_accounts-texts :
        (chain : Pubkey → Option Account) (ks : List Pubkey) (m : AccountMap)
        → create_accounts X F (map chain ks) ks (texts m) ≡ (ok tt, texts (collected chain ks m))
    unfolding create_accounts
    create_accounts-texts chain [] m = refl
    create_accounts-texts chain (k ∷ ks) m =
        create_accounts_step (chain k) (map chain ks) k ks m
        ∙ create_accounts-texts chain ks (insert_kept k (kept (chain k)) m)

  pub load_accounts-texts :
      FormatLaws X F → (m d : AccountMap) → load_accounts X F (texts m) d ≡ ok (insert_entries d m)
  unfolding load_accounts
  load_accounts-texts L [] d = refl
  load_accounts-texts L ((k, a) ∷ m) d =
      rw (load_accounts, L.read_account-write_account k a) (load_accounts-texts L m (insert k a d))
