-- ===== src/Agent/Tree/Tests.antt =====
-- A root with a child, and the theorems at them.
use xoxo.Base.{ℕ, true, false, [], ◌∷◌, none, some, String, codes, ok, err, ◌≡◌, ◌⊎◌, refl}
use xoxo.Base.Dict.{lookup, insert}
use xoxo.Chat.{user, send_user_message}
use xoxo.Chat.Path.{root_path, root_id, child}
use xoxo.Agent.Tree.{
  Handle, non_root_user_message, send_to, roots, children_of, subtree, AgentSpawner,
  ensure_root_execution_context, spawn_root, spawn_child, cleanup_after_runner,
}
use xoxo.Agent.Tree.Contexts.{
  is_listed, Reach, here, next, root_spawned, child_spawned, new_spawner,
}
use xoxo.Agent.Tree.Lives.{context-live, cleanup-shuts}

abbrev root_handle : Handle
root_handle = record { path = root_path "r"; context = some 0 }

abbrev child_handle : Handle
child_handle = record { path = child (root_path "r") "c"; context = some 0 }

abbrev with_root : AgentSpawner
with_root = record {
  registry = ("r", root_handle) ∷ [];
  tree_execution_contexts = ("r", 0) ∷ [];
  contexts_made = 1;
  shut_down = [];
}

abbrev with_child : AgentSpawner
with_child = record with_root { registry = ("r", root_handle) ∷ ("c", child_handle) ∷ [] }

with_child-Reach : Reach new_spawner with_child
unfolding spawn_root spawn_child ensure_root_execution_context lookup insert
with_child-Reach =
    next {b = with_root} (next here (root_spawned "r" (ok tt) (ok tt) refl))
      (child_spawned "r" "c" root_handle (ok tt) refl refl)

lists_of_handles :
    (roots with_child.registry ≡ root_handle ∷ [])
    × (children_of "r" with_child.registry ≡ child_handle ∷ [])
    × (subtree "r" with_child.registry ≡ root_handle ∷ child_handle ∷ [])
unfolding roots children_of subtree
lists_of_handles = (refl, refl, refl)

child_refuses :
    send_to child_handle true
      (send_user_message child_handle.path (record { role = user; content = codes "hello" }))
    ≡ err non_root_user_message
unfolding send_to
child_refuses = refl

-- Tools that are not resolved leave the context that was started for them.
context_left :
    (spawn_root new_spawner "r" (ok tt) (err (codes "unknown tool"))).0
    ≡ record new_spawner { tree_execution_contexts = ("r", 0) ∷ []; contexts_made = 1 }
unfolding spawn_root ensure_root_execution_context lookup insert
context_left = refl

context-live_example :
    (c : ℕ) × (some 0 ≡ some c)
    × (lookup "r" with_child.tree_execution_contexts ≡ some c)
    × (is_listed c [] ≡ false)
    × ((id' : String) (h' : Handle)
        → lookup id' with_child.registry ≡ some h'
        → root_id h'.path ≡ "r"
        → h'.context ≡ some c)
unfolding lookup
context-live_example = context-live with_child "c" child_handle with_child-Reach refl

cleanup-shuts_example :
    let b = cleanup_after_runner with_child "c" child_handle in
    ((id' : String) × (h' : Handle) × (lookup id' b.registry ≡ some h')
      × (root_id h'.path ≡ "r")
      × (b.tree_execution_contexts ≡ ("r", 0) ∷ [])
      × (b.shut_down ≡ []))
    ⊎ ((c : ℕ) × (some 0 ≡ some c)
        × (is_listed c b.shut_down ≡ true)
        × (lookup "r" b.tree_execution_contexts ≡ none))
unfolding lookup
cleanup-shuts_example = cleanup-shuts with_child "c" child_handle with_child-Reach refl
