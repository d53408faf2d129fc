-- ===== src/Chat/Path.antt =====
-- `ChatPath` of crates/lib/xoxo-core/src/chat/structs.rs. A path is made of one id by `vec!` and of a path by
-- `child`, so it is never empty: it is its first id and the others.
use xoxo.Base.{ℕ, List, [], ◌∷◌, ◌++◌, Option, none, some, String, length}

pub record ChatPath : Type 0 where
  pub first : String
  pub others : List String

abbrev pub root_path : String → ChatPath
root_path id = record { first = id; others = [] }

abbrev pub root_id : ChatPath → String
root_id path = path.first

abbrev last_of : String → List String → String
last_of id [] = id
last_of id (x ∷ xs) = last_of x xs

abbrev pub current : ChatPath → String
current path = last_of path.first path.others

-- The id before the last.
abbrev before_last : String → List String → Option String
before_last id [] = none
before_last id (x ∷ []) = some id
before_last id (x ∷ y ∷ xs) = before_last x (y ∷ xs)

abbrev pub parent_id : ChatPath → Option String
parent_id path = before_last path.first path.others

abbrev pub depth : ChatPath → ℕ
depth path = length path.others

abbrev pub child : ChatPath → String → ChatPath
child path id = record path { others = path.others ++ id ∷ [] }
