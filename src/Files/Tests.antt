-- ===== src/Files/Tests.antt =====
-- Calls of the file tools, and the theorems at them.
use xoxo.Base.{
  true, List, [], ◌∷◌, none, some, Bytes, String, codes, ◌==◌, if◌then◌else◌, ok, err, ◌≡◌, refl,
}
use xoxo.Base.Dict.{lookup, insert}
use xoxo.Patch.{PatchFile, replace}
use xoxo.Patch.Lines.{
  split_lines, replace_crlf, replace_cr, strip_last_newline, split_newline, detect_line_ending, has,
  has_crlf, has_trailing, join,
}
use xoxo.Patch.Plan.{
  contains, get, extend, remove_lines, plan_update, plan_from, check_conflicts, plan_updates,
}
use xoxo.Patch.Apply.{output_from, apply_updates}
use xoxo.Patch.Diff.{
  PatchFileDiffPreview, modified, push_inserted, push_original, push_originals, diff_rows,
  changed_indexes, push_range, context_ranges, select_rest, select_ranges, select_context_rows,
  build_diff_preview,
}
use xoxo.Files.{upsert, update, ensure_read}
use xoxo.Files.Tools.{
  World, Environment, FileToolError, Effect, changes, reads, change_all, read_file, patch_file_impl,
  patch_file,
}
use xoxo.Files.Patches.{patch_file-stale}
use xoxo.Files.Fresh.{no_others, read_file-patch_file}

-- A sum that tells these texts apart.
abbrev first_letter : Bytes → String
first_letter [] = "none"
first_letter (c ∷ _) = if c == b't' then "t" else "other"

abbrev some_environment : Environment
some_environment = record { md5 = first_letter; writable = λ path. true }

abbrev one_file : List (String × Bytes)
one_file = ("a", codes "one\n") ∷ []

abbrev to_two : List PatchFile
to_two = replace 1 (codes "two") ∷ []

abbrev one_read : World
one_read = record { disk = one_file; registry = some (upsert [] "a" "other") }

abbrev two_read_as_one : World
two_read_as_one = record {
  disk = ("a", codes "two\n") ∷ [];
  registry = some (
      (
        "a",
        record {
          read = some (record { file_path = "a"; md5 = "other" });
          write = none;
          patch = some (record { file_path = "a"; md5 = "t" });
        },
      )
      ∷ []);
}

abbrev one_to_two : PatchFileDiffPreview
one_to_two = record {
  preview_stats = record { added_lines = 0; removed_lines = 0; modified_lines = 1 };
  rows =
      record {
        change = modified;
        left_line_number = some 1;
        right_line_number = some 1;
        left_content = codes "one";
        right_content = codes "two";
      }
      ∷ [];
}

to_two_applies :
    patch_file some_environment no_others one_read "a" to_two ≡ (two_read_as_one, ok one_to_two)
unfolding patch_file patch_file_impl update ensure_read upsert lookup insert apply_updates
    build_diff_preview plan_updates plan_from plan_update extend remove_lines check_conflicts
    contains get output_from split_lines replace_crlf replace_cr strip_last_newline split_newline
    push_inserted push_original push_originals diff_rows changed_indexes push_range context_ranges
    select_rest select_ranges select_context_rows detect_line_ending has has_crlf has_trailing join
to_two_applies = refl

-- Another program writes the file, but nobody reads it.
abbrev some_changes : List Effect
some_changes = changes (λ disk. ("a", codes "two words\n") ∷ []) ∷ reads "b" ∷ []

patch_file-stale_example :
    (x : World) × (e : FileToolError) × (patch_file some_environment no_others
        (change_all some_environment some_changes two_read_as_one)
        "a"
        to_two
      ≡ (x, err e))
unfolding upsert lookup insert
patch_file-stale_example =
    patch_file-stale some_environment one_read two_read_as_one no_others no_others some_changes "a"
      to_two to_two one_to_two (codes "one\n") (codes "two words\n") refl to_two_applies refl
      (refl, (refl, tt)) tt tt refl (λ e. cc)

read_file-patch_file_example :
    (w : World) × (patch_file some_environment no_others one_read "a" to_two ≡ (w, ok one_to_two))
    × (lookup "a" w.disk ≡ some (codes "two\n"))
unfolding read_file upsert lookup insert apply_updates build_diff_preview plan_updates plan_from
    plan_update extend remove_lines check_conflicts contains get output_from split_lines
    replace_crlf replace_cr strip_last_newline split_newline push_inserted push_original
    push_originals diff_rows changed_indexes push_range context_ranges select_rest select_ranges
    select_context_rows detect_line_ending has has_crlf has_trailing join
read_file-patch_file_example =
    read_file-patch_file some_environment (record { disk = one_file; registry = some [] }) one_read
      "a" to_two one_to_two (codes "one\n") (codes "two\n") refl refl refl refl
