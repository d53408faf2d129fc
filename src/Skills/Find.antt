-- ===== src/Skills/Find.antt =====
-- Finding a skill by its name.
use xoxo.Base.{
  Bool, true, false, ◌||◌, List, [], ◌∷◌, ◌++◌, Option, none, some, Bytes, String, same_text,
  if◌then◌else◌, ◌≡◌, refl, arith,
}
use xoxo.Skills.{SkillDescriptor, ListedSkill, parse_skill_front_matter, listed, Disk}

pub same_text_refl : (x : Bytes) → same_text x x ≡ true
unfolding same_text
same_text_refl [] = refl
same_text_refl (c ∷ x) = ground (arith, same_text_refl x)

pub same_text_eq : (x y : Bytes) → same_text x y ≡ true → x ≡ y
unfolding same_text
same_text_eq [] [] h = refl
same_text_eq [] (d ∷ y) h = grind (arith, h)
same_text_eq (c ∷ x) [] h = grind (arith, h)
same_text_eq (c ∷ x) (d ∷ y) h = grind (arith, h, same_text_eq x y)

pub same_text_sym : (x y : Bytes) → same_text x y ≡ same_text y x
unfolding same_text
same_text_sym [] [] = refl
same_text_sym [] (d ∷ y) = refl
same_text_sym (c ∷ x) [] = refl
same_text_sym (c ∷ x) (d ∷ y) = ground (arith, same_text_sym x y)

-- The first skill with a name.
abbrev pub find_skill : Bytes → List ListedSkill → Option ListedSkill
find_skill name [] = none
find_skill name (s ∷ skills) =
    if same_text s.skill_name name then some s else find_skill name skills

abbrev pub or_else : Option ListedSkill → Option ListedSkill → Option ListedSkill
or_else none o = o
or_else (some s) o = some s

abbrev pub is_found : Option ListedSkill → Bool
is_found none = false
is_found (some _) = true

-- No two have the same name.
abbrev pub HasDistinctNames : List ListedSkill → Type 0
HasDistinctNames [] = Unit
HasDistinctNames (s ∷ skills) = (find_skill s.skill_name skills ≡ none) × HasDistinctNames skills

-- The skills of some files, and of some roots: all that can be parsed, in order.
abbrev pub offered_file : String → Option SkillDescriptor → List ListedSkill
offered_file path none = []
offered_file path (some d) = listed path d ∷ []

abbrev pub offered_files : List (String × Bytes) → List ListedSkill
offered_files [] = []
offered_files ((path, contents) ∷ files) =
    offered_file path (parse_skill_front_matter contents) ++ offered_files files

abbrev pub offered : Disk → List String → List ListedSkill
offered disk [] = []
offered disk (root ∷ roots) = offered_files (disk.skill_files root) ++ offered disk roots

pub find_skill-append :
    (name : Bytes) (xs ys : List ListedSkill)
    → find_skill name (xs ++ ys) ≡ or_else (find_skill name xs) (find_skill name ys)
find_skill-append name [] ys = refl
find_skill-append name (x ∷ xs) ys = ground (arith, find_skill-append name xs ys)

pub or_else_assoc : (a b c : Option ListedSkill) → or_else (or_else a b) c ≡ or_else a (or_else b c)
or_else_assoc none b c = refl
or_else_assoc (some s) b c = refl

pub is_found-or_else :
    (a b : Option ListedSkill) → is_found (or_else a b) ≡ (is_found a || is_found b)
is_found-or_else none b = refl
is_found-or_else (some s) b = refl

pub or_else-found : (a b : Option ListedSkill) → is_found a ≡ true → or_else a b ≡ a
or_else-found none b e = grind (arith, e)
or_else-found (some s) b e = refl

pub or_else-none : (a : Option ListedSkill) → or_else a none ≡ a
or_else-none none = refl
or_else-none (some s) = refl
