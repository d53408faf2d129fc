-- ===== src/Files.antt =====
-- crates/lib/xoxo-core/src/tooling/execution_context/mod.rs: the registry of the files that an agent has
-- seen; the tools that use it are in the children. An md5 sum is a text.
pub mod Tools
pub mod Traces
pub mod Effects
pub mod Patches
pub mod Fresh
mod Tests
use text.Mathlib.Text.{◌==◌ as str_eq}
use xoxo.Base.{
  Bool, true, false, List, [], ◌∷◌, Option, none, some, String, Result, ok, err, ◌>>=◌,
  if◌then◌else◌,
}
use xoxo.Base.Dict.{lookup, insert}

pub record FileMd5 : Type 0 where
  pub file_path : String
  pub md5 : String

pub record FileRecord : Type 0 where
  pub read : Option FileMd5
  pub write : Option FileMd5
  pub patch : Option FileMd5

pub data FileRegistryError : Type 0 where
  file_not_tracked : String → FileRegistryError
  missing_read_entry : String → FileRegistryError
  md5_mismatch : String → String → String → FileRegistryError

abbrev pub FileRegistry : Type 0
FileRegistry = List (String × FileRecord)

abbrev pub no_record : FileRecord
no_record = record { read = none; write = none; patch = none }

abbrev pub or_default : Option FileRecord → FileRecord
or_default none = no_record
or_default (some entry) = entry

unfoldable pub upsert : FileRegistry → String → String → FileRegistry
upsert files file_path md5 =
    insert file_path
      (record (or_default (lookup file_path files)) {
        read = some (record { file_path = file_path; md5 = md5 });
      })
      files

-- `ok_or_else`.
abbrev pub or_fail : {A E : Type 0} → Option A → E → Result A E
or_fail none e = err e
or_fail (some a) e = ok a

unfoldable pub ensure_read : FileRegistry → String → String → Result (Unit {0}) FileRegistryError
ensure_read files file_path md5 = do
  entry ← or_fail (lookup file_path files) (file_not_tracked file_path)
  read ← or_fail entry.read (missing_read_entry file_path)
  if str_eq read.md5 md5 then ok tt else err (md5_mismatch file_path read.md5 md5)

unfoldable pub update :
    FileRegistry → String → String → String → Result FileRegistry FileRegistryError
unfolding ensure_read
update files file_path old_md5 new_md5 = do
  checked ← ensure_read files file_path old_md5
  entry ← or_fail (lookup file_path files) (file_not_tracked file_path)
  ok (
      insert file_path
        (record entry { patch = some (record { file_path = file_path; md5 = new_md5 }) }) files)
