-- ===== src/Patch.antt =====
-- crates/agents/nerd/src/tools/patch_file/types.rs and apply.rs: a batch of updates to the lines of a
-- file. A text is its list of characters. A HashSet or HashMap is a list here; what iterating over
-- one yields first shows only in which line an error names.
pub mod Lines
pub mod Plan
pub mod Apply
pub mod Diff
mod Tests
pub mod Spec
pub mod Valid
pub mod RoundTrip
use xoxo.Base.{ℕ, List, Bytes}

pub data PatchFile : Type 0 where
  remove : ℕ → ℕ → PatchFile
  replace : ℕ → Bytes → PatchFile
  insert : ℕ → List Bytes → PatchFile

pub record PlannedUpdates : Type 0 where
  pub removed : List ℕ
  pub replacements : List (ℕ × Bytes)
  pub inserts : List (ℕ × List Bytes)

-- The messages, with the numbers they are formatted with.
pub data PatchError : Type 0 where
  remove_start : ℕ → PatchError
  remove_range : ℕ → ℕ → PatchError
  remove_end : ℕ → ℕ → PatchError
  replace_line : ℕ → ℕ → PatchError
  replace_duplicate : ℕ → PatchError
  insert_after : ℕ → ℕ → PatchError
  insert_nothing : PatchError
  removed_and_replaced : ℕ → PatchError
