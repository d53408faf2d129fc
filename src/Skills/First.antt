-- ===== src/Skills/First.antt =====
-- Of the skills with one name the first found is listed.
use xoxo.Base.{
  false, List, [], ◌∷◌, ◌++◌, Option, none, some, Bytes, String, Result, ok, err, same_text,
  Bool-cases, inl, inr, ◌≡◌, refl, sym, ap, ◌∙◌, arith,
}
use xoxo.Skills.{
  SkillDescriptor, ListedSkill, parse_skill_front_matter, Collected, is_seen, add_skill, listed,
  add_parsed, collect_files, Disk, joined, default_skill_roots, validate_search_paths,
  collect_roots, listed_if_valid, list_skills_from,
}
use xoxo.Skills.Find.{
  same_text_eq, same_text_sym, find_skill, or_else, is_found, HasDistinctNames, offered_file,
  offered_files, offered, find_skill-append, or_else_assoc, is_found-or_else, or_else-found,
  or_else-none,
}

-- The names seen are those of the skills, which are all different.
record IsCollected (c : Collected) : Type 0 where
  seen_found : (name : Bytes) → is_seen name c.seen ≡ is_found (find_skill name c.skills)
  distinct : HasDistinctNames c.skills

HasDistinctNames-append :
    (xs : List ListedSkill) (x : ListedSkill)
    → find_skill x.skill_name xs ≡ none
    → HasDistinctNames xs
    → HasDistinctNames (xs ++ x ∷ [])
HasDistinctNames-append [] x f d = (refl, tt)
HasDistinctNames-append (y ∷ xs) x f d = (
  find_skill-append y.skill_name xs (x ∷ [])
      ∙ ground (arith, d.0, f, same_text_sym x.skill_name y.skill_name),
  HasDistinctNames-append xs x (grind (arith, f)) d.1,
)

add_skill-IsCollected :
    (s : ListedSkill) (c : Collected) → IsCollected c → IsCollected (add_skill s c)
unfolding add_skill
add_skill-IsCollected s c i = elim (Bool-cases (is_seen s.skill_name c.seen)) [
  | inl y ↦ rw y i
  | inr n ↦
      let absent =
        not_found (find_skill s.skill_name c.skills) (sym (i.seen_found s.skill_name) ∙ n) in
      rw n (record {
        seen_found = λ name. ground (
          arith,
          i.seen_found name,
          find_skill-append name c.skills (s ∷ []),
          is_found-or_else (find_skill name c.skills) (find_skill name (s ∷ [])),
        );
        distinct = HasDistinctNames-append c.skills s absent i.distinct;
      })
]
  where
    not_found : (o : Option ListedSkill) → is_found o ≡ false → o ≡ none
    not_found o e = ground (arith, e)

-- What is found behind one more skill.
find_skill-add_skill :
    (name : Bytes) (s : ListedSkill) (c : Collected)
    → IsCollected c
    → find_skill name (add_skill s c).skills
      ≡ or_else (find_skill name c.skills) (find_skill name (s ∷ []))
unfolding add_skill
find_skill-add_skill name s c i = elim (Bool-cases (is_seen s.skill_name c.seen)) [
  | inl y ↦ rw y (elim (Bool-cases (same_text s.skill_name name)) [
    | inl e ↦ sym (
        or_else-found (find_skill name c.skills) _ (
          sym (i.seen_found name)
          ∙ ap (λ x. is_seen x c.seen) (sym (same_text_eq s.skill_name name e))
          ∙ y))
    | inr e ↦ rw e (sym (or_else-none (find_skill name c.skills)))
  ])
  | inr n ↦ rw n (find_skill-append name c.skills (s ∷ []))
]

add_parsed-IsCollected :
    (path : String) (o : Option SkillDescriptor) (c : Collected)
    → IsCollected c
    → IsCollected (add_parsed path o c)
add_parsed-IsCollected path none c i = i
add_parsed-IsCollected path (some d) c i = add_skill-IsCollected (listed path d) c i

find_skill-add_parsed :
    (name : Bytes) (path : String) (o : Option SkillDescriptor) (c : Collected)
    → IsCollected c
    → find_skill name (add_parsed path o c).skills
      ≡ or_else (find_skill name c.skills) (find_skill name (offered_file path o))
find_skill-add_parsed name path none c i = sym (or_else-none (find_skill name c.skills))
find_skill-add_parsed name path (some d) c i = find_skill-add_skill name (listed path d) c i

collect_files-IsCollected :
    (files : List (String × Bytes)) (c : Collected)
    → IsCollected c
    → IsCollected (collect_files files c)
unfolding collect_files
collect_files-IsCollected [] c i = i
collect_files-IsCollected ((path, contents) ∷ files) c i =
    collect_files-IsCollected files _
      (add_parsed-IsCollected path (parse_skill_front_matter contents) c i)

find_skill-collect_files :
    (name : Bytes) (files : List (String × Bytes)) (c : Collected)
    → IsCollected c
    → find_skill name (collect_files files c).skills
      ≡ or_else (find_skill name c.skills) (find_skill name (offered_files files))
unfolding collect_files
find_skill-collect_files name [] c i = sym (or_else-none (find_skill name c.skills))
find_skill-collect_files name ((path, contents) ∷ files) c i =
    let d = parse_skill_front_matter contents in
    find_skill-collect_files name files (add_parsed path d c) (add_parsed-IsCollected path d c i)
    ∙ ap (λ o. or_else o (find_skill name (offered_files files)))
        (find_skill-add_parsed name path d c i)
    ∙ or_else_assoc (find_skill name c.skills) (find_skill name (offered_file path d))
        (find_skill name (offered_files files))
    ∙ ap (or_else (find_skill name c.skills))
        (sym (find_skill-append name (offered_file path d) (offered_files files)))

collect_roots-IsCollected :
    (disk : Disk) (roots : List String) (c : Collected)
    → IsCollected c
    → IsCollected (collect_roots disk roots c)
unfolding collect_roots
collect_roots-IsCollected disk [] c i = i
collect_roots-IsCollected disk (root ∷ roots) c i =
    collect_roots-IsCollected disk roots _ (collect_files-IsCollected (disk.skill_files root) c i)

find_skill-collect_roots :
    (name : Bytes) (disk : Disk) (roots : List String) (c : Collected)
    → IsCollected c
    → find_skill name (collect_roots disk roots c).skills
      ≡ or_else (find_skill name c.skills) (find_skill name (offered disk roots))
unfolding collect_roots
find_skill-collect_roots name disk [] c i = sym (or_else-none (find_skill name c.skills))
find_skill-collect_roots name disk (root ∷ roots) c i =
    let files = disk.skill_files root in
    find_skill-collect_roots name disk roots (collect_files files c)
      (collect_files-IsCollected files c i)
    ∙ ap (λ o. or_else o (find_skill name (offered disk roots)))
        (find_skill-collect_files name files c i)
    ∙ or_else_assoc (find_skill name c.skills) (find_skill name (offered_files files))
        (find_skill name (offered disk roots))
    ∙ ap (or_else (find_skill name c.skills))
        (sym (find_skill-append name (offered_files files) (offered disk roots)))

abbrev nothing_collected : Collected
nothing_collected = record { seen = []; skills = [] }

nothing-IsCollected : IsCollected nothing_collected
unfolding is_seen
nothing-IsCollected = record { seen_found = λ name. refl; distinct = tt }

listed_if_valid-ok :
    (disk : Disk) (roots : List String) (r : Result (Unit {0}) String) {skills : List ListedSkill}
    → listed_if_valid disk roots r ≡ ok skills
    → skills ≡ disk.sort_by_name (collect_roots disk roots nothing_collected).skills
listed_if_valid-ok disk roots (err path) h = grind (arith, h)
listed_if_valid-ok disk roots (ok _) h = grind (arith, h)

-- If sorting keeps which skill is found under a name in a list of different names, a list of skills has for each name the
-- skill that is first in the order of the roots: the search paths, .xoxo/skills and .agents/skills of the working
-- directory, and .xoxo/skills of the home directory.
pub list_skills_from-first :
    (disk : Disk) (search_paths : List String) (current_dir home_dir : Option String)
    (skills : List ListedSkill) (name : Bytes)
    → ((l : List ListedSkill)
        → HasDistinctNames l
        → find_skill name (disk.sort_by_name l) ≡ find_skill name l)
    → list_skills_from disk search_paths current_dir home_dir ≡ ok skills
    → find_skill name skills
      ≡ find_skill name (
          offered disk (
            search_paths
            ++ (joined disk current_dir ".xoxo/skills"
                ++ (joined disk current_dir ".agents/skills"
                    ++ joined disk home_dir ".xoxo/skills"))))
unfolding list_skills_from default_skill_roots
list_skills_from-first disk search_paths current_dir home_dir skills name sorts h =
    let roots = search_paths ++ default_skill_roots disk current_dir home_dir in
    let i = collect_roots-IsCollected disk roots nothing_collected nothing-IsCollected in
    ap (find_skill name) (listed_if_valid-ok disk roots (validate_search_paths disk search_paths) h)
    ∙ sorts (collect_roots disk roots nothing_collected).skills i.distinct
    ∙ find_skill-collect_roots name disk roots nothing_collected nothing-IsCollected
