-- ===== src/Harness/Directories.antt =====
-- The directories of the snapshots: `directory_name`, lines 551 to 558 of
-- jupiter-core/src/amms/test_harness.rs, and the directories under tests/fixtures/accounts.
pub mod Names
pub mod Places
use text.Mathlib.Text.{◌==◌}
use exponent_jupiter_amm_imp.Prelude.{String, ◌<>◌, Option, none, some, if◌then◌else◌}
use exponent_jupiter_amm_imp.Prelude.Stateful.{Method}
use exponent_jupiter_amm_imp.Solana.{Pubkey}
use exponent_jupiter_amm_imp.Crates.{Crates}
use exponent_jupiter_amm_imp.Harness.Snapshot.Files.{
  Entries, Formats, Directory, Place, no_parent, vacant, directory,
}

-- `match &self.option`
abbrev pub suffix : Option String → String
suffix (some option) = "-" <> option
suffix none = ""

module _ (X : Crates) where
  unfoldable pub directory_name : Pubkey → Option String → String
  directory_name key option = X.display key <> suffix option

module _ (X : Crates) (F : Formats X) where
  -- What stands under each name.
  abbrev pub FileSystem : Type 0
  FileSystem = Entries F.Text

  abbrev pub put_directory : String → Option (Directory X F) → FileSystem → FileSystem
  put_directory name place fs name' = if name == name' then place else fs name'

  -- The directory that a path leads to.
  abbrev pub found : FileSystem → String → Option (Directory X F)
  found fs name = elim (F.resolve fs name) [ none ↦ none | some there ↦ fs there ]

  abbrev pub here : Option (Directory X F) → Place X F
  here none = vacant
  here (some d) = directory d

  abbrev pub left : Place X F → Option (Directory X F)
  left no_parent = none
  left vacant = none
  left (directory d) = some d

  abbrev pub place_at : FileSystem → String → Place X F
  place_at fs name = elim (F.resolve fs name) [ none ↦ no_parent | some there ↦ here (fs there) ]

  abbrev pub put_at : FileSystem → Place X F → Option String → FileSystem
  put_at fs place none = fs
  put_at fs place (some there) = put_directory there (left place) fs

  -- A call that works on the place that a path leads to.
  abbrev pub at_directory : {A : Type 0} → String → Method (Place X F) A → Method FileSystem A
  at_directory name call fs =
      let (r, place) = call (place_at fs name) in (r, put_at fs place (F.resolve fs name))
