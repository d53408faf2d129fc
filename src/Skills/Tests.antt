-- ===== src/Skills/Tests.antt =====
-- A skill in two roots, and in one of two.
use xoxo.Base.{
  true, [], ◌∷◌, none, some, Bytes, codes, ok, same_text, ◌≡◌, refl, trim, if◌then◌else◌,
}
use text.Mathlib.Text.{◌==◌ as str_eq}
use xoxo.Read.{strip_cr, text_lines}
use xoxo.Skills.{
  SkillDescriptor, ListedSkill, parse_skill_front_matter, is_seen, add_skill, collect_files,
  collect_roots, Disk, default_skill_roots, validate_search_paths, list_skills_from,
}
use xoxo.Skills.Find.{find_skill, offered}
use xoxo.Skills.Learn.{
  learn_from_roots, learn_skill_from, AllAbsolute, IsFirst, learn_skill_from_iff,
}
use xoxo.Base.{Option, false, Result, String, is_empty, ◌↔◌}
use xoxo.Skills.First.{list_skills_from-first}

abbrev rust_skill : Bytes
rust_skill = codes "---\nname: rust\ndescription: \"Guidance: style.\"\n---\n# Body\n"

abbrev rust_descriptor : SkillDescriptor
rust_descriptor = record { name = codes "rust"; description = codes "Guidance: style." }

parses : parse_skill_front_matter rust_skill ≡ some rust_descriptor
unfolding parse_skill_front_matter text_lines same_text strip_cr trim
parses = refl

-- A blank line in the front matter.
blank_line : parse_skill_front_matter (codes "---\nname: rust\n\ndescription: d\n---\n") ≡ none
unfolding parse_skill_front_matter text_lines same_text strip_cr
blank_line = refl

abbrev some_disk : Disk
some_disk = record {
  skill_files = λ root.
      if str_eq root "/a" then ("/a/rust", rust_skill) ∷ [] else ("/b/rust", rust_skill) ∷ [];
  join = λ dir tail. dir;
  is_absolute = λ path. true;
  sort_by_name = λ skills. skills;
}

abbrev rust_listed : ListedSkill
rust_listed = record {
  skill_name = codes "rust";
  skill_description = codes "Guidance: style.";
  path = "/a/rust";
}

lists_first : list_skills_from some_disk ("/a" ∷ "/b" ∷ []) none none ≡ ok (rust_listed ∷ [])
unfolding list_skills_from default_skill_roots validate_search_paths collect_roots collect_files
    add_skill is_seen parse_skill_front_matter text_lines same_text strip_cr trim
lists_first = refl

-- The working directory and the home directory have skills of their own.
abbrev three_roots : Disk
three_roots = record {
  skill_files = λ root. if str_eq root "cwd/.xoxo/skills" then [] else (root, rust_skill) ∷ [];
  join = λ dir tail.
      if str_eq tail ".agents/skills"
      then "cwd/.agents/skills"
      else if str_eq dir "cwd"
      then "cwd/.xoxo/skills"
      else "home/.xoxo/skills";
  is_absolute = λ path. true;
  sort_by_name = λ skills. skills;
}

abbrev agents_listed : ListedSkill
agents_listed = record rust_listed { path = "cwd/.agents/skills" }

lists_agents : list_skills_from three_roots [] (some "cwd") (some "home") ≡ ok (agents_listed ∷ [])
unfolding list_skills_from default_skill_roots validate_search_paths collect_roots collect_files
    add_skill is_seen parse_skill_front_matter text_lines same_text strip_cr trim
lists_agents = refl

list_skills_from-first_example :
    find_skill (codes "rust") (agents_listed ∷ [])
    ≡ find_skill
        (codes "rust")
        (offered three_roots ("cwd/.xoxo/skills" ∷ "cwd/.agents/skills" ∷ "home/.xoxo/skills" ∷ []))
list_skills_from-first_example =
    list_skills_from-first three_roots [] (some "cwd") (some "home") (agents_listed ∷ [])
      (codes "rust") (λ l d. refl) lists_agents

-- The file of a skill is in the second root alone.
abbrev second_root : String → Bytes → Option (Result Bytes Bytes)
second_root root name = if str_eq root "/b" then some (ok rust_skill) else none

learns_second :
    learn_skill_from some_disk second_root (codes " rust ") ("/a" ∷ "/b" ∷ []) none none
    ≡ ok rust_skill
unfolding learn_skill_from learn_from_roots default_skill_roots validate_search_paths trim
learns_second = refl

learn_skill_from_iff_example :
    (learn_skill_from some_disk second_root (codes " rust ") ("/a" ∷ []) (some "/b") none
      ≡ ok rust_skill)
    ↔ ((is_empty (trim (codes " rust ")) ≡ false)
        × AllAbsolute some_disk ("/a" ∷ [])
        × IsFirst some_disk second_root
            (trim (codes " rust "))
            rust_skill
            ("/a" ∷ "/b" ∷ "/b" ∷ []))
learn_skill_from_iff_example =
    learn_skill_from_iff some_disk second_root (codes " rust ") rust_skill ("/a" ∷ []) (some "/b")
      none
