-- ===== src/Skills/Learn.antt =====
-- `learn_skill_from` of crates/agents/agentix/src/skills.rs: the text of a skill from the first root that has it.
use xoxo.Base.{
  true, false, Bool-cases, refl, List, [], ◌∷◌, ◌++◌, Option, none, some, Bytes, String, Result, ok,
  err, is_empty, trim, if◌then◌else◌, Option-cases, inl, inr, ◌⊎◌, ◌↔◌, ◌≡◌, arith,
}
use xoxo.Skills.{Disk, joined, default_skill_roots, validate_search_paths}

pub data LearnSkillError : Type 0 where
  empty_skill_name : LearnSkillError
  relative_search_path : String → LearnSkillError
  not_found : Bytes → List String → LearnSkillError
  read_failed : Bytes → String → Bytes → LearnSkillError

abbrev pub AllAbsolute : Disk → List String → Type 0
AllAbsolute disk [] = Unit {0}
AllAbsolute disk (path ∷ paths) = (disk.is_absolute path ≡ true) × AllAbsolute disk paths

validate_search_paths-AllAbsolute :
    (disk : Disk) (paths : List String)
    → validate_search_paths disk paths ≡ ok tt
    → AllAbsolute disk paths
unfolding validate_search_paths
validate_search_paths-AllAbsolute disk [] h = tt
validate_search_paths-AllAbsolute disk (path ∷ paths) h =
    elim (Bool-cases (disk.is_absolute path)) [
      | inl e ↦ (e, validate_search_paths-AllAbsolute disk paths (ground (arith, e, h)))
      | inr e ↦ absurd (grind (arith, e, h))
    ]

AllAbsolute-validate_search_paths :
    (disk : Disk) (paths : List String)
    → AllAbsolute disk paths
    → validate_search_paths disk paths ≡ ok tt
unfolding validate_search_paths
AllAbsolute-validate_search_paths disk [] h = refl
AllAbsolute-validate_search_paths disk (path ∷ paths) h =
    rw (h.0) (AllAbsolute-validate_search_paths disk paths h.1)

-- Of a root and a name, the text of the file SKILL.md or the error of reading it; none, if there is no such file.
module _ (disk : Disk) (skill_file : String → Bytes → Option (Result Bytes Bytes)) where
  abbrev pub or_read_failed : Bytes → String → Result Bytes Bytes → Result Bytes LearnSkillError
  or_read_failed name root (ok text) = ok text
  or_read_failed name root (err source) = err (read_failed name root source)

  -- The loop over the roots; all of them are named where none has the skill.
  unfoldable pub learn_from_roots : Bytes → List String → List String → Result Bytes LearnSkillError
  learn_from_roots name searched [] = err (not_found name searched)
  learn_from_roots name searched (root ∷ roots) = elim (skill_file root name) [
    | none ↦ learn_from_roots name searched roots
    | some read ↦ or_read_failed name root read
  ]

  abbrev pub learn_if_valid :
      Result (Unit {0}) String → Bytes → List String → Result Bytes LearnSkillError
  learn_if_valid (err path) name roots = err (relative_search_path path)
  learn_if_valid (ok _) name roots = learn_from_roots name roots roots

  unfoldable pub learn_skill_from :
      Bytes → List String → Option String → Option String → Result Bytes LearnSkillError
  unfolding learn_from_roots
  learn_skill_from skill_name search_paths current_dir home_dir =
      if is_empty (trim skill_name)
      then err empty_skill_name
      else learn_if_valid (validate_search_paths disk search_paths) (trim skill_name)
          (search_paths ++ default_skill_roots disk current_dir home_dir)

  -- Roots without the skill, then one that has it.
  abbrev pub IsFirst : Bytes → Bytes → List String → Type 0
  IsFirst name text [] = ⊥
  IsFirst name text (root ∷ roots) =
      (skill_file root name ≡ some (ok text))
      ⊎ ((skill_file root name ≡ none) × IsFirst name text roots)

  learn_from_roots-IsFirst :
      (name text : Bytes) (searched roots : List String)
      → learn_from_roots name searched roots ≡ ok text
      → IsFirst name text roots
  unfolding learn_from_roots
  learn_from_roots-IsFirst name text searched [] h = err_ok h
    where
      err_ok : {e : LearnSkillError} → err e ≡ ok text → ⊥
      err_ok p = cc
  learn_from_roots-IsFirst name text searched (root ∷ roots) h =
      elim (Option-cases (skill_file root name)) [
        | inl e ↦ inr (e, learn_from_roots-IsFirst name text searched roots (ground (arith, h, e)))
        | inr (r, e) ↦ inl (grind (arith, h, e))
      ]

  IsFirst-learn_from_roots :
      (name text : Bytes) (searched roots : List String)
      → IsFirst name text roots
      → learn_from_roots name searched roots ≡ ok text
  unfolding learn_from_roots
  IsFirst-learn_from_roots name text searched [] h = absurd h
  IsFirst-learn_from_roots name text searched (root ∷ roots) (inl e) = ground (arith, e)
  IsFirst-learn_from_roots name text searched (root ∷ roots) (inr (e, f)) =
      ground (arith, e, IsFirst-learn_from_roots name text searched roots f)

  -- A text is learned exactly if the trimmed name is not empty, each search path is absolute, and it is read from the first
  -- that has a file for the name of these roots: the search paths, .xoxo/skills and .agents/skills of the working directory, and
  -- .xoxo/skills of the home directory.
  pub learn_skill_from_iff :
      (skill_name text : Bytes) (search_paths : List String) (current_dir home_dir : Option String)
      → (learn_skill_from skill_name search_paths current_dir home_dir ≡ ok text) ↔ (
          (is_empty (trim skill_name) ≡ false)
          × AllAbsolute disk search_paths
          × IsFirst (trim skill_name) text (
              search_paths
              ++ (joined disk current_dir ".xoxo/skills"
                  ++ (joined disk current_dir ".agents/skills"
                      ++ joined disk home_dir ".xoxo/skills"))))
  unfolding learn_skill_from default_skill_roots
  learn_skill_from_iff skill_name text search_paths current_dir home_dir =
      let roots = search_paths ++ default_skill_roots disk current_dir home_dir in
      let name = trim skill_name in
      (
        λ h. (
          grind (arith, h),
          validate_search_paths-AllAbsolute disk search_paths (grind (arith, h)),
          learn_from_roots-IsFirst name text roots roots (grind (arith, h)),
        ),
        λ (a, b, c). grind (
          arith,
          a,
          AllAbsolute-validate_search_paths disk search_paths b,
          IsFirst-learn_from_roots name text roots roots c,
        ),
      )
