-- ===== src/Agent/Tree/Lives.antt =====
-- The execution context of a tree through the lives of its agents.
use text.Mathlib.Text.{◌==◌ as str_eq}
use text.Mathlib.TextEquality.{eq_iff}
use mathlib.Core.Path.{subst}
use xoxo.Base.{
  ℕ, ◌≤◌, ◌<◌, Bool, true, false, List, [], ◌∷◌, Option, none, some, String, is_empty, Bool-cases,
  ◌⊎◌, inl, inr, ◌≡◌, ◌≢◌, refl, sym, ap, ◌∙◌, arith,
}
use xoxo.Base.Dict.{
  HasDistinctKeys, remove-HasDistinctKeys, lookup, remove, lookup-remove, lookup-remove-some,
}
use xoxo.Chat.Path.{root_id}
use xoxo.Agent.Tree.{
  Handle, HandleRegistry, filter_handles, subtree, AgentSpawner, ensure_root_execution_context,
  spawn_root, spawn_child, shut, cleanup_after_runner,
}
use xoxo.Agent.Tree.Contexts.{
  is_listed, Step, root_spawned, child_spawned, ended, Reach, here, next, new_spawner, IsSound,
  start_agent-IsSound, context_for-IsSound,
}

none_left :
    (p : Handle → Bool) (m : HandleRegistry) (id : String) (h : Handle)
    → is_empty (filter_handles p m) ≡ true
    → lookup id m ≡ some h
    → p h ≡ false
unfolding lookup
none_left p [] id h e l = grind (arith, l)
none_left p ((j, g) ∷ m) id h e l = elim (Bool-cases (p g)) [
  | inl y ↦ ground (arith, e, y)
  | inr n ↦ elim (Bool-cases (str_eq j id)) [
    | inl y ↦ grind (arith, l, y, n)
    | inr n' ↦ none_left p m id h (ground (arith, e, n)) (ground (arith, l, n'))
  ]
]

some_left :
    (p : Handle → Bool) (m : HandleRegistry)
    → HasDistinctKeys m
    → is_empty (filter_handles p m) ≡ false
    → (id : String) × (h : Handle) × (lookup id m ≡ some h) × (p h ≡ true)
unfolding lookup
some_left p [] d e = absurd (true_false e)
  where
    true_false : true ≢ false
    true_false q = cc
some_left p ((j, g) ∷ m) d e = elim (Bool-cases (p g)) [
  | inl y ↦ (j, g, rw ((eq_iff j j).1 refl) refl, y)
  | inr n ↦
      let (id, h, l, q) = some_left p m d.1 (ground (arith, e, n)) in
      (id, h, grind (arith, l, d.0, eq_iff j id), q)
]

not_shut :
    (x : Option ℕ) (done : List ℕ) (c c' : ℕ)
    → x ≡ some c
    → c ≢ c'
    → is_listed c' done ≡ false
    → is_listed c' (shut x done) ≡ false
not_shut x done c c' e n h = grind (arith, e, n, h)

-- The tree has no agent left: its context is shut down and forgotten.
cleared-IsSound :
    (a : AgentSpawner) (id : String) (h : Handle)
    → lookup id a.registry ≡ some h
    → is_empty (subtree (root_id h.path) (remove id a.registry)) ≡ true
    → IsSound a
    → IsSound (record a {
      registry = remove id a.registry;
      tree_execution_contexts = remove (root_id h.path) a.tree_execution_contexts;
      shut_down = shut h.context a.shut_down;
    })
unfolding subtree
cleared-IsSound a id h l empty i = record {
  keys = remove-HasDistinctKeys id a.registry i.keys;
  own = λ id' h' l'.
      let (c, e, f) = i.own id' h' (lookup-remove-some id' id a.registry l').1 in
      let other =
        none_left (λ x. str_eq (root_id x.path) (root_id h.path)) (remove id a.registry) id' h'
          empty l' in
      (
        c,
        e,
        lookup-remove (root_id h'.path) (root_id h.path) a.tree_execution_contexts
            ∙ grind (
              arith,
              f,
              other,
              eq_iff (root_id h.path) (root_id h'.path),
              eq_iff (root_id h'.path) (root_id h.path),
            ),
      );
  made = λ r c f. i.made r c (kept r f).1;
  apart = λ x y c f g. i.apart x y c (kept x f).1 (kept y g).1;
  live = λ r c f.
      let (c', e, g) = i.own id h l in
      not_shut h.context a.shut_down c' c e
        (λ q. (kept r f).0 (i.apart (root_id h.path) r c (g ∙ ap some q) (kept r f).1))
        (i.live r c (kept r f).1);
  fresh = λ c b.
      let (c', e, g) = i.own id h l in
      not_shut h.context a.shut_down c' c e (λ q. too_late c' c q b (i.made (root_id h.path) c' g))
        (i.fresh c b);
}
  where
    kept :
        (r : String) {c : ℕ}
        → lookup r (remove (root_id h.path) a.tree_execution_contexts) ≡ some c
        → (root_id h.path ≢ r) × (lookup r a.tree_execution_contexts ≡ some c)
    kept r f = lookup-remove-some r (root_id h.path) a.tree_execution_contexts f

    too_late : (c' c : ℕ) → c' ≡ c → a.contexts_made ≤ c → c' < a.contexts_made → ⊥
    too_late c' c q b m = omega (arith, q, b, m)

removed-IsSound :
    (a : AgentSpawner) (id : String)
    → IsSound a
    → IsSound (record a { registry = remove id a.registry })
removed-IsSound a id i = record {
  keys = remove-HasDistinctKeys id a.registry i.keys;
  own = λ id' h' l'. i.own id' h' (lookup-remove-some id' id a.registry l').1;
  made = i.made;
  apart = i.apart;
  live = i.live;
  fresh = i.fresh;
}

cleanup-IsSound :
    (a : AgentSpawner) (id : String) (h : Handle)
    → lookup id a.registry ≡ some h
    → IsSound a
    → IsSound (cleanup_after_runner a id h)
unfolding cleanup_after_runner
cleanup-IsSound a id h l i =
    elim (Bool-cases (is_empty (subtree (root_id h.path) (remove id a.registry)))) [
      | inl y ↦ rw y (cleared-IsSound a id h l y i)
      | inr n ↦ rw n (removed-IsSound a id i)
    ]

Step-IsSound : {a b : AgentSpawner} → Step a b → IsSound a → IsSound b
unfolding spawn_root spawn_child ensure_root_execution_context
Step-IsSound {a = a} (root_spawned id started resolved e) i =
    subst IsSound (sym e)
      (context_for-IsSound a id (lookup id a.tree_execution_contexts) started resolved refl i)
Step-IsSound {a = a} (child_spawned parent id h resolved l e) i =
    let (c, o, f) = i.own parent h l in
    subst IsSound (sym e) (
      start_agent-IsSound a id _ (lookup (root_id h.path) a.tree_execution_contexts) resolved c f f
        i)
Step-IsSound {a = a} (ended id h l e) i = subst IsSound (sym e) (cleanup-IsSound a id h l i)

new_spawner-IsSound : IsSound new_spawner
unfolding lookup
new_spawner-IsSound = record {
  keys = tt;
  own = λ id h l. absurd (none_some l);
  made = λ r c l. absurd (none_some l);
  apart = λ x y c l m. absurd (none_some l);
  live = λ r c l. refl;
  fresh = λ c l. refl;
}
  where
    none_some : {A : Type 0} {x : A} → none ≡ some x → ⊥
    none_some p = cc

Reach-IsSound : {a b : AgentSpawner} → Reach a b → IsSound a → IsSound b
Reach-IsSound here i = i
Reach-IsSound (next r st) i = Step-IsSound st (Reach-IsSound r i)

-- After any starts and ends of agents, also those that fail: a registered agent has the execution context of its
-- tree, every other registered agent of the tree has the same, and it was not shut down.
pub context-live :
    (a : AgentSpawner) (id : String) (h : Handle)
    → Reach new_spawner a
    → lookup id a.registry ≡ some h
    → (c : ℕ) × (h.context ≡ some c)
      × (lookup (root_id h.path) a.tree_execution_contexts ≡ some c)
      × (is_listed c a.shut_down ≡ false)
      × ((id' : String) (h' : Handle)
          → lookup id' a.registry ≡ some h'
          → root_id h'.path ≡ root_id h.path
          → h'.context ≡ some c)
context-live a id h r l =
    let i = Reach-IsSound r new_spawner-IsSound in
    let (c, e, f) = i.own id h l in
    (c, e, f, i.live (root_id h.path) c f, λ id' h' l' same. shared i c f id' h' l' same)
  where
    shared :
        IsSound a
        → (c : ℕ) → lookup (root_id h.path) a.tree_execution_contexts ≡ some c
        → (id' : String) (h' : Handle) → lookup id' a.registry ≡ some h'
        → root_id h'.path ≡ root_id h.path
        → h'.context ≡ some c
    shared i c f id' h' l' same =
        let (c', e', f') = i.own id' h' l' in
        e' ∙ sym f' ∙ ap (λ x. lookup x a.tree_execution_contexts) same ∙ f

shut-has : (x : Option ℕ) (done : List ℕ) (c : ℕ) → x ≡ some c → is_listed c (shut x done) ≡ true
shut-has x done c e = grind (arith, e)

cleanup-last :
    (a : AgentSpawner) (id : String) (h : Handle)
    → is_empty (subtree (root_id h.path) (remove id a.registry)) ≡ true
    → cleanup_after_runner a id h ≡ record a {
      registry = remove id a.registry;
      tree_execution_contexts = remove (root_id h.path) a.tree_execution_contexts;
      shut_down = shut h.context a.shut_down;
    }
unfolding cleanup_after_runner
cleanup-last a id h y = rw y refl

cleanup-others :
    (a : AgentSpawner) (id : String) (h : Handle)
    → is_empty (subtree (root_id h.path) (remove id a.registry)) ≡ false
    → cleanup_after_runner a id h ≡ record a { registry = remove id a.registry }
unfolding cleanup_after_runner
cleanup-others a id h n = rw n refl

-- When an agent ends, either another agent of its tree is registered and the contexts stay, or its context is shut down
-- and its root has none any more.
pub cleanup-shuts :
    (a : AgentSpawner) (id : String) (h : Handle)
    → Reach new_spawner a
    → lookup id a.registry ≡ some h
    → ((id' : String) × (h' : Handle) × (lookup id' (cleanup_after_runner a id h).registry
          ≡ some h')
        × (root_id h'.path ≡ root_id h.path)
        × ((cleanup_after_runner a id h).tree_execution_contexts ≡ a.tree_execution_contexts)
        × ((cleanup_after_runner a id h).shut_down ≡ a.shut_down))
      ⊎ ((c : ℕ) × (h.context ≡ some c)
          × (is_listed c (cleanup_after_runner a id h).shut_down ≡ true)
          × (lookup (root_id h.path) (cleanup_after_runner a id h).tree_execution_contexts ≡ none))
unfolding subtree
cleanup-shuts a id h r l =
    let i = Reach-IsSound r new_spawner-IsSound in
    let same = λ (x : Handle). str_eq (root_id x.path) (root_id h.path) in
    elim (Bool-cases (is_empty (subtree (root_id h.path) (remove id a.registry)))) [
      | inl y ↦
          let (c, e, f) = i.own id h l in
          let b = cleanup-last a id h y in
          let root = root_id h.path in
          inr (
            c,
            e,
            ap (λ x. is_listed c x.shut_down) b ∙ shut-has h.context a.shut_down c e,
            ap (λ x. lookup root x.tree_execution_contexts) b
                ∙ lookup-remove root root a.tree_execution_contexts
                ∙ grind (arith, (eq_iff root root).1 refl),
          )
      | inr n ↦
          let (id', h', l', s) =
            some_left same (remove id a.registry) (remove-HasDistinctKeys id a.registry i.keys) n in
          let b = cleanup-others a id h n in
          inl (
            id',
            h',
            ap (λ x. lookup id' x.registry) b ∙ l',
            (eq_iff (root_id h'.path) (root_id h.path)).0 s,
            ap (λ x. x.tree_execution_contexts) b,
            ap (λ x. x.shut_down) b,
          )
    ]
