-- ===== src/Agent/Tree.antt =====
-- crates/lib/xoxo-core/src/agents: the registry of handles.rs, and how spawner.rs starts agents and cleans up behind
-- them. An agent's handle and its task end together, so the handle here also holds the execution context
-- that the task was given. A context is its number; those that were shut down are listed. What starting a
-- context and resolving tools answer is a parameter.
pub mod Contexts
pub mod Lives
mod Tests
use text.Mathlib.Text.{◌==◌ as str_eq}
use xoxo.Base.{
  ℕ, suc, Bool, true, false, List, [], ◌∷◌, ◌++◌, Option, none, some, Bytes, String, Result, ok,
  err, if◌then◌else◌, is_empty, leb, ◌==◌,
}
use xoxo.Base.Dict.{lookup, insert, remove}
use xoxo.Chat.{Command, submit_user_message, send_user_message, shutdown}
use xoxo.Chat.Path.{ChatPath, root_path, root_id, parent_id, depth, child, current}

pub record Handle : Type 0 where
  pub path : ChatPath
  pub context : Option ℕ

abbrev pub HandleRegistry : Type 0
HandleRegistry = List (String × Handle)

pub data HandleError : Type 0 where
  not_found : String → HandleError
  non_root_user_message closed : HandleError

-- `send` of `LocalAgentHandle`; the channel takes the command, or is closed.
unfoldable pub send_to : Handle → Bool → Command → Result Command HandleError
send_to h open_channel (send_user_message path m) =
    if leb 1 (depth h.path)
    then err non_root_user_message
    else if open_channel
    then ok (send_user_message path m)
    else err closed
send_to h open_channel (submit_user_message id m) =
    if open_channel then ok (submit_user_message id m) else err closed
send_to h open_channel (shutdown path) = if open_channel then ok (shutdown path) else err closed

abbrev pub filter_handles : (Handle → Bool) → HandleRegistry → List Handle
filter_handles p [] = []
filter_handles p ((id, h) ∷ registry) =
    let rest = filter_handles p registry in if p h then h ∷ rest else rest

abbrev pub is_id : String → Option String → Bool
is_id id none = false
is_id id (some x) = str_eq x id

unfoldable pub roots : HandleRegistry → List Handle
roots registry = filter_handles (λ h. depth h.path == 0) registry

unfoldable pub children_of : String → HandleRegistry → List Handle
children_of parent registry = filter_handles (λ h. is_id parent (parent_id h.path)) registry

unfoldable pub subtree : String → HandleRegistry → List Handle
subtree root registry = filter_handles (λ h. str_eq (root_id h.path) root) registry

pub data SpawnError : Type 0 where
  unavailable handoff_channel_closed : SpawnError
  execution_context_initialization invalid_input storage_failed : Bytes → SpawnError

-- The fields of `AgentSpawner` that decide about contexts, and what was done with contexts so far.
pub record AgentSpawner : Type 0 where
  pub registry : HandleRegistry
  pub tree_execution_contexts : List (String × ℕ)
  pub contexts_made : ℕ
  pub shut_down : List ℕ

-- The context of a root, and the spawner behind it; the one that is there, or a new one.
abbrev pub context_for :
    AgentSpawner
    → String
    → Option ℕ
    → Result (Unit {0}) Bytes
    → Result (AgentSpawner × ℕ) SpawnError
context_for a root (some context) started = ok (a, context)
context_for a root none (err text) = err (execution_context_initialization text)
context_for a root none (ok _) = ok (
  record a {
    tree_execution_contexts = insert root a.contexts_made a.tree_execution_contexts;
    contexts_made = suc a.contexts_made;
  },
  a.contexts_made,
)

unfoldable pub ensure_root_execution_context :
    AgentSpawner → String → Result (Unit {0}) Bytes → Result (AgentSpawner × ℕ) SpawnError
ensure_root_execution_context a root started =
    context_for a root (lookup root a.tree_execution_contexts) started

abbrev pub register : AgentSpawner → String → ChatPath → Option ℕ → AgentSpawner
register a id path context = record a {
  registry = insert id (record { path = path; context = context }) a.registry;
}

-- The spawner and the error, if the tools are not resolved.
abbrev pub start_agent :
    AgentSpawner
    → String
    → ChatPath
    → Option ℕ
    → Result (Unit {0}) Bytes
    → AgentSpawner × Result (Unit {0}) SpawnError
start_agent a id path context (err text) = (a, err (invalid_input text))
start_agent a id path context (ok _) = (register a id path context, ok tt)

abbrev pub start_root :
    AgentSpawner
    → String
    → Result (AgentSpawner × ℕ) SpawnError
    → Result (Unit {0}) Bytes
    → AgentSpawner × Result (Unit {0}) SpawnError
start_root a id (err e) resolved = (a, err e)
start_root a id (ok (a', context)) resolved =
    start_agent a' id (root_path id) (some context) resolved

-- `spawn_root`, and the part of `restore_root` behind the load of the chat.
unfoldable pub spawn_root :
    AgentSpawner
    → String
    → Result (Unit {0}) Bytes
    → Result (Unit {0}) Bytes
    → AgentSpawner × Result (Unit {0}) SpawnError
unfolding ensure_root_execution_context
spawn_root a id started resolved =
    start_root a id (ensure_root_execution_context a id started) resolved

-- `do_spawn_with_handoff`, for a new id.
unfoldable pub spawn_child :
    AgentSpawner
    → String
    → ChatPath
    → Result (Unit {0}) Bytes
    → AgentSpawner × Result (Unit {0}) SpawnError
spawn_child a id parent_path resolved =
    start_agent a id (child parent_path id) (lookup (root_id parent_path) a.tree_execution_contexts)
      resolved

abbrev pub shut : Option ℕ → List ℕ → List ℕ
shut none done = done
shut (some context) done = context ∷ done

-- `cleanup_after_runner`.
unfoldable pub cleanup_after_runner : AgentSpawner → String → Handle → AgentSpawner
unfolding subtree
cleanup_after_runner a id h =
    let registry = remove id a.registry in
    let root = root_id h.path in
    if is_empty (subtree root registry)
    then record a {
      registry = registry;
      tree_execution_contexts = remove root a.tree_execution_contexts;
      shut_down = shut h.context a.shut_down;
    }
    else record a { registry = registry }
