-- ===== src/Skills.antt =====
-- crates/agents/agentix/src/skills.rs: parsing the front matter of a skill, and listing the skills of several roots.
-- The file system is a parameter: of a root, the paths and texts of the files SKILL.md in its directories that
-- can be read, in the order of `read_dir`; none, if the root cannot be read.
pub mod Find
pub mod First
pub mod Learn
mod Tests
use text.Mathlib.Text.{◌==◌ as str_eq}
use xoxo.Base.{
  ℕ, Bool, true, false, ◌||◌, List, [], ◌∷◌, ◌++◌, Option, none, some, Bytes, String, codes, Result,
  ok, err, is_empty, not, ◌&&◌, ◌==◌, trim, reversed, same_text, if◌then◌else◌,
}
use mathlib.Core.List.{reverse}
use xoxo.Read.{text_lines}

pub record SkillDescriptor : Type 0 where
  pub name : Bytes
  pub description : Bytes

pub record ListedSkill : Type 0 where
  pub skill_name : Bytes
  pub skill_description : Bytes
  pub path : String

-- `split_once`.
unfoldable pub split_once : ℕ → Bytes → Option (Bytes × Bytes)
split_once c [] = none
split_once c (x ∷ s) =
    if x == c
    then some ([], s)
    else elim (split_once c s) [ none ↦ none | some (before, after) ↦ some (x ∷ before, after) ]

unfoldable pub trim_start_matches : ℕ → Bytes → Bytes
trim_start_matches c [] = []
trim_start_matches c (x ∷ s) = if x == c then trim_start_matches c s else x ∷ s

unfoldable pub trim_matches : ℕ → Bytes → Bytes
unfolding trim_start_matches
trim_matches c s = reverse (trim_start_matches c (reverse (trim_start_matches c s)))

-- The two variables of the loop.
pub record FrontMatter : Type 0 where
  pub name : Option Bytes
  pub description : Option Bytes

abbrev pub set_field : Bytes → Bytes → FrontMatter → FrontMatter
set_field key value f =
    if same_text key (codes "name") && not (is_empty value)
    then record f { name = some value }
    else if same_text key (codes "description") && not (is_empty value)
    then record f { description = some value }
    else f

abbrev pub value_of : Bytes → Bytes
value_of text = trim_matches b'\'' (trim_matches b'"' (trim text))

-- The loop over the lines behind the first; a line without a colon ends it with `?`.
unfoldable pub parse_lines : List Bytes → FrontMatter → Option FrontMatter
parse_lines [] f = some f
parse_lines (line ∷ lines) f =
    if same_text line (codes "---") then some f else elim (split_once b':' line) [
      | none ↦ none
      | some (key, value) ↦ parse_lines lines (set_field (trim key) (value_of value) f)
    ]

abbrev pub descriptor_of : Option Bytes → Option Bytes → Option SkillDescriptor
descriptor_of (some name) (some description) =
    some (record { name = name; description = description })
descriptor_of _ _ = none

abbrev pub descriptor_from : Option FrontMatter → Option SkillDescriptor
descriptor_from none = none
descriptor_from (some f) = descriptor_of f.name f.description

abbrev pub parse_from : List Bytes → Option SkillDescriptor
parse_from [] = none
parse_from (line ∷ lines) =
    if same_text line (codes "---")
    then descriptor_from (parse_lines lines (record { name = none; description = none }))
    else none

unfoldable pub parse_skill_front_matter : Bytes → Option SkillDescriptor
unfolding split_once trim_matches parse_lines
parse_skill_front_matter contents = parse_from (text_lines contents)

-- The names seen, and the skills so far.
pub record Collected : Type 0 where
  pub seen : List Bytes
  pub skills : List ListedSkill

unfoldable pub is_seen : Bytes → List Bytes → Bool
is_seen name [] = false
is_seen name (x ∷ seen) = same_text x name || is_seen name seen

-- `if seen.insert(…)`.
unfoldable pub add_skill : ListedSkill → Collected → Collected
unfolding is_seen
add_skill skill c =
    if is_seen skill.skill_name c.seen
    then c
    else record { seen = skill.skill_name ∷ c.seen; skills = c.skills ++ skill ∷ [] }

abbrev pub listed : String → SkillDescriptor → ListedSkill
listed path d = record { skill_name = d.name; skill_description = d.description; path = path }

abbrev pub add_parsed : String → Option SkillDescriptor → Collected → Collected
add_parsed path none c = c
add_parsed path (some d) c = add_skill (listed path d) c

-- `collect_listed_skills_from_root`.
unfoldable pub collect_files : List (String × Bytes) → Collected → Collected
collect_files [] c = c
collect_files ((path, contents) ∷ files) c =
    collect_files files (add_parsed path (parse_skill_front_matter contents) c)

pub record Disk : Type 0 where
  pub skill_files : String → List (String × Bytes)
  pub join : String → String → String
  pub is_absolute : String → Bool
  pub sort_by_name : List ListedSkill → List ListedSkill

abbrev pub joined : Disk → Option String → String → List String
joined disk none tail = []
joined disk (some dir) tail = disk.join dir tail ∷ []

unfoldable pub default_skill_roots : Disk → Option String → Option String → List String
default_skill_roots disk current_dir home_dir =
    joined disk current_dir ".xoxo/skills"
    ++ (joined disk current_dir ".agents/skills" ++ joined disk home_dir ".xoxo/skills")

unfoldable pub validate_search_paths : Disk → List String → Result (Unit {0}) String
validate_search_paths disk [] = ok tt
validate_search_paths disk (path ∷ paths) =
    if disk.is_absolute path then validate_search_paths disk paths else err path

unfoldable pub collect_roots : Disk → List String → Collected → Collected
unfolding collect_files
collect_roots disk [] c = c
collect_roots disk (root ∷ roots) c =
    collect_roots disk roots (collect_files (disk.skill_files root) c)

abbrev pub listed_if_valid :
    Disk → List String → Result (Unit {0}) String → Result (List ListedSkill) String
listed_if_valid disk roots (err path) = err path
listed_if_valid disk roots (ok _) =
    ok (disk.sort_by_name (collect_roots disk roots (record { seen = []; skills = [] })).skills)

unfoldable pub list_skills_from :
    Disk → List String → Option String → Option String → Result (List ListedSkill) String
unfolding default_skill_roots validate_search_paths collect_roots
list_skills_from disk search_paths current_dir home_dir =
    listed_if_valid disk (search_paths ++ default_skill_roots disk current_dir home_dir)
      (validate_search_paths disk search_paths)
