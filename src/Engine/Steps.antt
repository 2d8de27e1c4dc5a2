-- ===== src/Engine/Steps.antt =====
-- crates/engine/src/lib.rs: the operations of the registry as steps, and what they do to an engine's
-- entry.
use locus.Base.{
  ◌≡◌, refl, subst, Bool, true, false, Option, none, some, String, [], arith, inl, inr, Bool-cases,
  Option-cases, string_key, if◌then◌else◌, ℕ,
}
use locus.Base.Dict.{lookup, contains_key, insert, remove}
use locus.Base.Results.{ok, ◌>>◌}
use locus.Core.Context.{World, OperationContext}
use locus.Core.Identity.{ExecutionTarget}
use locus.Engine.{
  EngineRegistry, RegisteredEngine, EngineLifecycle, Adapter, EngineExecutionPermit, map_values,
  register, acquire_execution, begin_drain_all, begin_drain, resume, stop_drained,
  stop_drained_engine, release_execution, release_entry, start_drain, end_drain, stop_idle, put,
  change, locked,
}
use locus.Engine.Permits.{acquire-IsAdmissible}

-- What an operation may do to an entry.
pub data Changes (e : RegisteredEngine) : RegisteredEngine → Type 0 where
  starts : Changes e (start_drain e)
  ends : Changes e (end_drain e)
  stops : Changes e (stop_idle e)
  acquires :
      (request_id : String) (token : ℕ)
      → e.lifecycle ≡ EngineLifecycle.ready
      → Changes e (record e { active = insert request_id token e.active })
  releases :
      (request_id : String)
      → contains_key request_id e.active ≡ true
      → Changes e (stop_idle (record e { active = remove request_id e.active }))

-- A step of the registry.
pub data Step (r : EngineRegistry) : EngineRegistry → Type 0 where
  by_register : (a : Adapter) (r' : EngineRegistry) → register r a ≡ ok r' → Step r r'
  by_acquire :
      (w : World) (target : ExecutionTarget) (context : OperationContext)
      (done : EngineRegistry × EngineExecutionPermit)
      → acquire_execution w r target context ≡ ok done
      → Step r done.0
  by_begin_drain_all : (r' : EngineRegistry) → begin_drain_all r ≡ ok r' → Step r r'
  by_begin_drain : (id : String) (r' : EngineRegistry) → begin_drain r id ≡ ok r' → Step r r'
  by_resume : (id : String) (r' : EngineRegistry) → resume r id ≡ ok r' → Step r r'
  by_stop_drained : (r' : EngineRegistry) → stop_drained r ≡ ok r' → Step r r'
  by_stop_drained_engine :
      (id : String) (r' : EngineRegistry) → stop_drained_engine r id ≡ ok r' → Step r r'
  by_release : (id request_id : String) → Step r (release_execution r id request_id).0

-- What a step does to the entries.
pub data Effect (r : EngineRegistry) : EngineRegistry → Type 0 where
  adds :
      (a : Adapter)
      → contains_key a.reference.id r.entries ≡ false
      → Effect r (record r {
        entries =
            insert a.reference.id
              (record { adapter = a; lifecycle = EngineLifecycle.ready; active = [] })
              r.entries;
      })
  changes_all :
      (f : RegisteredEngine → RegisteredEngine)
      → ((e : RegisteredEngine) → Changes e (f e))
      → Effect r (record r { entries = map_values f r.entries })
  changes_one :
      (id : String) (e e' : RegisteredEngine)
      → lookup id r.entries ≡ some e
      → Changes e e'
      → Effect r (put r id e')
  keeps : Effect r r

change-Effect :
    (f : RegisteredEngine → RegisteredEngine) (r r' : EngineRegistry) (id : String)
    → ((e : RegisteredEngine) → Changes e (f e))
    → change f r id ≡ ok r'
    → Effect r r'
change-Effect f r r' id c h = elim (Bool-cases r.poisoned) [
  | inl bad ↦ absurd (ground arith)
  | inr fine ↦ elim (Option-cases (lookup id r.entries)) [
    | inl missing ↦ absurd (ground arith)
    | inr (e, at) ↦
        let same : put r id (f e) ≡ r' = ground arith in
        subst (λ (z : EngineRegistry). Effect r z) same (changes_one id e (f e) at (c e))
  ]
]

all-Effect :
    (f : RegisteredEngine → RegisteredEngine) (r r' : EngineRegistry)
    → ((e : RegisteredEngine) → Changes e (f e))
    → (locked r >> ok (record r { entries = map_values f r.entries })) ≡ ok r'
    → Effect r r'
all-Effect f r r' c h = elim (Bool-cases r.poisoned) [
  | inl bad ↦ absurd (ground arith)
  | inr fine ↦
      let same : record r { entries = map_values f r.entries } ≡ r' = ground arith in
      subst (λ (z : EngineRegistry). Effect r z) same (changes_all f c)
]

register-Effect : (r r' : EngineRegistry) (a : Adapter) → register r a ≡ ok r' → Effect r r'
unfolding register
register-Effect r r' a h = elim (Bool-cases r.poisoned) [
  | inl bad ↦ absurd (ground arith)
  | inr fine ↦ elim (Bool-cases (contains_key a.reference.id r.entries)) [
    | inl there ↦ absurd (ground arith)
    | inr new ↦
        let fresh : EngineRegistry = record r {
          entries =
              insert a.reference.id
                (record { adapter = a; lifecycle = EngineLifecycle.ready; active = [] }) r.entries;
        } in
        let same : fresh ≡ r' = ground arith in
        subst (λ (z : EngineRegistry). Effect r z) same (adds a new)
  ]
]

release_entry-Effect :
    (r : EngineRegistry) (id request_id : String) (o : Option RegisteredEngine)
    → lookup id r.entries ≡ o
    → Effect r (release_entry r id request_id o).0
release_entry-Effect r id request_id none h = keeps
release_entry-Effect r id request_id (some e) h =
    elim (Bool-cases (contains_key request_id e.active)) [
      | inl there ↦ rw there (
          changes_one id e (stop_idle (record e { active = remove request_id e.active })) h
            (releases request_id there))
      | inr gone ↦ rw gone keeps
    ]

either-Effect :
    (r : EngineRegistry) (b : Bool) (x y : EngineRegistry × Bool)
    → Effect r x.0
    → Effect r y.0
    → Effect r (if b then x else y).0
either-Effect r true x y f g = f
either-Effect r false x y f g = g

release-Effect :
    (r : EngineRegistry) (id request_id : String) → Effect r (release_execution r id request_id).0
unfolding release_execution
release-Effect r id request_id =
    either-Effect r r.poisoned (r, false) (release_entry r id request_id (lookup id r.entries))
      keeps (release_entry-Effect r id request_id (lookup id r.entries) refl)

acquire-Effect :
    (w : World) (r : EngineRegistry) (target : ExecutionTarget) (context : OperationContext)
    (p : EngineRegistry × EngineExecutionPermit)
    → acquire_execution w r target context ≡ ok p
    → Effect r p.0
acquire-Effect w r target context p h =
    let (entry, a, same) = acquire-IsAdmissible w r target context p h in
    rw same (
      changes_one target.engine.id entry
        (record entry { active = insert context.request_id context.cancellation entry.active })
        a.found (acquires context.request_id context.cancellation a.routable))

pub Step-Effect : {r r' : EngineRegistry} → Step r r' → Effect r r'
unfolding begin_drain_all begin_drain resume stop_drained stop_drained_engine
Step-Effect {r} (by_register a r' h) = register-Effect r r' a h
Step-Effect {r} (by_acquire w target context p h) = acquire-Effect w r target context p h
Step-Effect {r} (by_begin_drain_all r' h) = all-Effect start_drain r r' (λ e. starts) h
Step-Effect {r} (by_begin_drain id r' h) = change-Effect start_drain r r' id (λ e. starts) h
Step-Effect {r} (by_resume id r' h) = change-Effect end_drain r r' id (λ e. ends) h
Step-Effect {r} (by_stop_drained r' h) = all-Effect stop_idle r r' (λ e. stops) h
Step-Effect {r} (by_stop_drained_engine id r' h) = change-Effect stop_idle r r' id (λ e. stops) h
Step-Effect {r} (by_release id request_id) = release-Effect r id request_id

-- Steps one after another.
pub data Steps (r : EngineRegistry) : EngineRegistry → Type 0 where
  done : Steps r r
  onward : {r' r'' : EngineRegistry} → Steps r r' → Step r' r'' → Steps r r''
