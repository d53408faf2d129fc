-- ===== src/Agent/Tree/Contexts.antt =====
-- The agents of a tree share one execution context, which lives as long as they do.
use text.Mathlib.TextEquality.{eq_iff}
use mathlib.Core.Path.{subst}
use xoxo.Base.{
  ℕ, suc, ◌≤◌, ◌<◌, Bool, false, List, [], ◌∷◌, Option, none, some, Bytes, String, Result, ok, err,
  ◌⊎◌, inl, inr, ◌==◌, ◌||◌, ◌≡◌, refl, sym, ap, ◌∙◌, arith,
}
use xoxo.Base.Dict.{
  HasDistinctKeys, insert-HasDistinctKeys, lookup, insert, lookup-insert, lookup-insert_cases,
}
use xoxo.Chat.Path.{ChatPath, root_path, root_id}
use xoxo.Agent.Tree.{
  Handle, AgentSpawner, context_for, register, start_agent, start_root, spawn_root, spawn_child,
  cleanup_after_runner,
}

abbrev pub is_listed : ℕ → List ℕ → Bool
is_listed c [] = false
is_listed c (x ∷ xs) = (x == c) || is_listed c xs

-- An agent is started, at the root or by a registered agent, or a registered agent's task ends.
pub data Step (a b : AgentSpawner) : Type 0 where
  root_spawned :
      (id : String) (started resolved : Result (Unit {0}) Bytes)
      → b ≡ (spawn_root a id started resolved).0
      → Step a b
  child_spawned :
      (parent id : String) (h : Handle) (resolved : Result (Unit {0}) Bytes)
      → lookup parent a.registry ≡ some h
      → b ≡ (spawn_child a id h.path resolved).0
      → Step a b
  ended :
      (id : String) (h : Handle)
      → lookup id a.registry ≡ some h
      → b ≡ cleanup_after_runner a id h
      → Step a b

pub data Reach (a : AgentSpawner) : AgentSpawner → Type 0 where
  here : Reach a a
  next : {b c : AgentSpawner} → Reach a b → Step b c → Reach a c

abbrev pub new_spawner : AgentSpawner
new_spawner = record {
  registry = [];
  tree_execution_contexts = [];
  contexts_made = 0;
  shut_down = [];
}

-- Every agent has its tree's context, no two trees share one, and none of those in use was shut down.
pub record IsSound (a : AgentSpawner) : Type 0 where
  pub keys : HasDistinctKeys a.registry
  pub own :
      (id : String) (h : Handle)
      → lookup id a.registry ≡ some h
      → (c : ℕ) × (h.context ≡ some c)
        × (lookup (root_id h.path) a.tree_execution_contexts ≡ some c)
  pub made :
      (root : String) (c : ℕ) → lookup root a.tree_execution_contexts ≡ some c → c < a.contexts_made
  pub apart :
      (x y : String) (c : ℕ)
      → lookup x a.tree_execution_contexts ≡ some c
      → lookup y a.tree_execution_contexts ≡ some c
      → x ≡ y
  pub live :
      (root : String) (c : ℕ)
      → lookup root a.tree_execution_contexts ≡ some c
      → is_listed c a.shut_down ≡ false
  pub fresh : (c : ℕ) → a.contexts_made ≤ c → is_listed c a.shut_down ≡ false

-- A context for a root without one.
new_context-IsSound :
    (a : AgentSpawner) (root : String)
    → lookup root a.tree_execution_contexts ≡ none
    → IsSound a
    → IsSound (record a {
      tree_execution_contexts = insert root a.contexts_made a.tree_execution_contexts;
      contexts_made = suc a.contexts_made;
    })
new_context-IsSound a root free i = record {
  keys = i.keys;
  own = λ id h l.
      let (c, e, f) = i.own id h l in
      (
        c,
        e,
        lookup-insert (root_id h.path) root a.contexts_made a.tree_execution_contexts
            ∙ grind (arith, f, free, eq_iff root (root_id h.path)),
      );
  made = λ r c l. elim (cases r l) [
    | inl e ↦ omega (arith, e.1)
    | inr f ↦ omega (arith, i.made r c f)
  ];
  apart = λ x y c l m. elim (cases x l) [
    | inl e ↦ elim (cases y m) [
      | inl f ↦ sym e.0 ∙ f.0
      | inr f ↦ absurd (no_less (i.made y c f) e.1)
    ]
    | inr e ↦ elim (cases y m) [
      | inl f ↦ absurd (no_less (i.made x c e) f.1)
      | inr f ↦ i.apart x y c e f
    ]
  ];
  live =
      λ r c l. elim (cases r l) [ inl e ↦ i.fresh c (omega (arith, e.1)) | inr f ↦ i.live r c f ];
  fresh = λ c l. i.fresh c (omega (arith, l));
}
  where
    cases :
        (r : String) {c : ℕ}
        → lookup r (insert root a.contexts_made a.tree_execution_contexts) ≡ some c
        → ((root ≡ r) × (a.contexts_made ≡ c)) ⊎ (lookup r a.tree_execution_contexts ≡ some c)
    cases r l = lookup-insert_cases r root a.contexts_made a.tree_execution_contexts l

    no_less : {c : ℕ} → c < a.contexts_made → a.contexts_made ≡ c → ⊥
    no_less l e = omega (arith, l, e)

-- An agent in the registry, with its tree's context.
register-IsSound :
    (a : AgentSpawner) (id : String) (path : ChatPath) (c : ℕ)
    → lookup (root_id path) a.tree_execution_contexts ≡ some c
    → IsSound a
    → IsSound (register a id path (some c))
register-IsSound a id path c f i = record {
  keys = insert-HasDistinctKeys id (record { path = path; context = some c }) a.registry i.keys;
  own = λ id' h l.
      elim (lookup-insert_cases id' id (record { path = path; context = some c }) a.registry l) [
        | inl e ↦ (
          c,
          ap (λ x. x.context) (sym e.1),
          ap (λ x. lookup (root_id x.path) a.tree_execution_contexts) (sym e.1) ∙ f,
        )
        | inr e ↦ i.own id' h e
      ];
  made = i.made;
  apart = i.apart;
  live = i.live;
  fresh = i.fresh;
}

pub start_agent-IsSound :
    (a : AgentSpawner) (id : String) (path : ChatPath) (o : Option ℕ)
    (resolved : Result (Unit {0}) Bytes) (c : ℕ)
    → o ≡ some c
    → lookup (root_id path) a.tree_execution_contexts ≡ some c
    → IsSound a
    → IsSound (start_agent a id path o resolved).0
start_agent-IsSound a id path o (err text) c e f i = i
start_agent-IsSound a id path o (ok _) c e f i =
    subst (λ x. IsSound (register a id path x)) (sym e) (register-IsSound a id path c f i)

pub context_for-IsSound :
    (a : AgentSpawner) (root : String) (o : Option ℕ) (started resolved : Result (Unit {0}) Bytes)
    → lookup root a.tree_execution_contexts ≡ o
    → IsSound a
    → IsSound (start_root a root (context_for a root o started) resolved).0
context_for-IsSound a root (some c) started resolved e i =
    start_agent-IsSound a root (root_path root) (some c) resolved c refl e i
context_for-IsSound a root none (err text) resolved e i = i
context_for-IsSound a root none (ok _) resolved e i =
    start_agent-IsSound _ root (root_path root) (some a.contexts_made) resolved a.contexts_made refl
      (lookup-insert root root a.contexts_made a.tree_execution_contexts
        ∙ grind (arith, (eq_iff root root).1 refl))
      (new_context-IsSound a root e i)
