-- ===== src/Engine/Permits.antt =====
-- crates/engine/src/lib.rs: when an execution may begin, and what its permit gives back.
use locus.Base.{
  ◌≡◌, refl, sym, ap, ◌∙◌, subst, Bool, true, false, not, Option, some, String, arith, inl, inr,
  Bool-cases, ==_self, string_key, if◌then◌else◌, ℕ, ◌↔◌, nat_beq,
}
use locus.Base.Dict.{Dict, lookup, contains_key, replace_at, insert, remove}
use locus.Base.DictLaws.{
  lookup-replace, lookup-insert, contains-lookup, remove-insert, replace_at-replace_at,
}
use locus.Base.Results.{ok, ok_or, reject_if, map_err, bind-ok, reject_if-ok, ok_or-ok, map_err-ok}
use locus.Core.Context.{World, OperationContext, ensure_active}
use locus.Core.Identity.{ExecutionTarget}
use locus.Executor.{EngineError, target_not_found, registry, stale_generation}
use locus.Engine.{
  EngineRegistry, RegisteredEngine, EngineLifecycle, EngineExecutionPermit, acquire_execution,
  release_execution, release_entry, stop_idle, put, entry_for, locked, require_ready,
}

-- What `acquire_execution` needs of the context, the lock and the entry of the target's engine.
pub record IsAdmissible (w : World) (r : EngineRegistry) (target : ExecutionTarget)
    (context : OperationContext) (entry : RegisteredEngine) : Type 0 where
  pub active : ensure_active w context ≡ ok tt
  pub sound : r.poisoned ≡ false
  pub found : lookup target.engine.id r.entries ≡ some entry
  pub current : entry.adapter.reference.generation ≡ target.engine.generation
  pub routable : entry.lifecycle ≡ EngineLifecycle.ready
  pub unused : contains_key context.request_id entry.active ≡ false

-- What it leaves: the entry with the request under way, and a permit for it.
abbrev pub acquired :
    EngineRegistry
    → ExecutionTarget
    → OperationContext
    → RegisteredEngine
    → EngineRegistry × EngineExecutionPermit
acquired r target context entry = (
  put r target.engine.id
      (record entry { active = insert context.request_id context.cancellation entry.active }),
  record { engine_id = target.engine.id; request_id = context.request_id },
)

contains-insert : (x : String) (v : ℕ) (m : Dict String ℕ) → contains_key x (insert x v m) ≡ true
contains-insert x v m = elim (Bool-cases (contains_key x (insert x v m))) [
  | inl there ↦ there
  | inr gone ↦
      absurd
        (ground (arith, contains-lookup x (insert x v m) gone, lookup-insert x x v m, ==_self x))
]

stop_idle-ready : (e : RegisteredEngine) → e.lifecycle ≡ EngineLifecycle.ready → stop_idle e ≡ e
stop_idle-ready e h = ground arith

module _ (w : World) (r : EngineRegistry) (target : ExecutionTarget)
    (context : OperationContext) where
  acquire_ok :
      (entry : RegisteredEngine)
      → IsAdmissible w r target context entry
      → acquire_execution w r target context ≡ ok (acquired r target context entry)
  unfolding acquire_execution
  acquire_ok entry a =
      let gen : nat_beq entry.adapter.reference.generation target.engine.generation ≡ true =
        ground (arith, a.current) in
      ground (arith, a.active, a.sound, a.found, a.routable, a.unused)

  entry_for-ok :
      (entry : RegisteredEngine)
      → entry_for r target ≡ ok entry
      → (lookup target.engine.id r.entries ≡ some entry)
        × (entry.adapter.reference.generation ≡ target.engine.generation)
  unfolding entry_for
  entry_for-ok entry h =
      let (e, at, rest) =
        bind-ok (ok_or (target_not_found target.id) (lookup target.engine.id r.entries)) _ entry
          h in
      let (u, gen, same) =
        bind-ok
          (reject_if (not (nat_beq e.adapter.reference.generation target.engine.generation))
            stale_generation)
          _ entry rest in
      let current =
        reject_if-ok (not (nat_beq e.adapter.reference.generation target.engine.generation))
          stale_generation u gen in
      let found = ok_or-ok (target_not_found target.id) (lookup target.engine.id r.entries) e at in
      let value : e ≡ entry = ground arith in
      subst
        (λ (z : RegisteredEngine).
          (lookup target.engine.id r.entries ≡ some z)
          × (z.adapter.reference.generation ≡ target.engine.generation))
        value (found, ground arith)

  require_ready-ok :
      (l : EngineLifecycle) (u : Unit {0}) → require_ready l ≡ ok u → l ≡ EngineLifecycle.ready
  require_ready-ok EngineLifecycle.ready u h = refl
  require_ready-ok EngineLifecycle.draining u h = absurd (ground arith)
  require_ready-ok EngineLifecycle.stopped u h = absurd (ground arith)

  pub acquire-IsAdmissible :
      (p : EngineRegistry × EngineExecutionPermit)
      → acquire_execution w r target context ≡ ok p
      → (entry : RegisteredEngine) × IsAdmissible w r target context entry
        × (p ≡ acquired r target context entry)
  unfolding acquire_execution
  acquire-IsAdmissible p h =
      let (u1, active, h1) =
        bind-ok (map_err EngineError.context (ensure_active w context)) _ p h in
      let (u2, lock, h2) = bind-ok (locked r) _ p h1 in
      let (entry, e, h3) = bind-ok (entry_for r target) _ p h2 in
      let (u4, l, h4) = bind-ok (require_ready entry.lifecycle) _ p h3 in
      let (u5, n, h5) =
        bind-ok
          (reject_if (contains_key context.request_id entry.active)
            (registry "duplicate active request id"))
          _ p h4 in
      let (found, current) = entry_for-ok entry e in
      (
        entry,
        record {
          active = map_err-ok EngineError.context (ensure_active w context) u1 active;
          sound = reject_if-ok r.poisoned (registry "engine registry lock poisoned") u2 lock;
          found = found;
          current = current;
          routable = require_ready-ok entry.lifecycle u4 l;
          unused =
              reject_if-ok (contains_key context.request_id entry.active)
                (registry "duplicate active request id") u5 n;
        },
        ground (arith, h5),
      )

  -- `acquire_execution` succeeds exactly when the context is active, the lock is sound, the target's engine
  -- is registered in the target's generation and ready, and it has no request of that id under way; then
  -- the request is under way, with its token, and the permit names it.
  pub acquire_execution_iff :
      (p : EngineRegistry × EngineExecutionPermit)
      → (acquire_execution w r target context ≡ ok p) ↔ (
          (entry : RegisteredEngine) × IsAdmissible w r target context entry
          × (p ≡ acquired r target context entry))
  acquire_execution_iff p = (
    acquire-IsAdmissible p,
    λ x.
        let (entry, a, same) = x in
        acquire_ok entry a ∙ ap (λ (z : EngineRegistry × EngineExecutionPermit). ok z) (sym same),
  )

  release-acquired :
      (entry : RegisteredEngine)
      → IsAdmissible w r target context entry
      → release_execution (acquired r target context entry).0 target.engine.id context.request_id
        ≡ (r, true)
  unfolding release_execution
  release-acquired entry a =
      let request = context.request_id in
      let id = target.engine.id in
      let busy : RegisteredEngine = record entry {
        active = insert request context.cancellation entry.active;
      } in
      let found : lookup id (replace_at id busy r.entries) ≡ some busy =
        lookup-replace id id busy entry r.entries a.found
        ∙ ap (λ (b : Bool). if b then some busy else lookup id r.entries) (==_self id) in
      let there : contains_key request busy.active ≡ true =
        contains-insert request context.cancellation entry.active in
      let gone : remove request busy.active ≡ entry.active =
        remove-insert request context.cancellation entry.active a.unused in
      let back : stop_idle (record busy { active = remove request busy.active }) ≡ entry =
        ap (λ (x : Dict String ℕ). stop_idle (record entry { active = x })) gone
        ∙ stop_idle-ready entry a.routable in
      let whole : replace_at id entry (replace_at id busy r.entries) ≡ r.entries =
        replace_at-replace_at id busy entry r.entries a.found in
      ap
        (λ (b : Bool).
          if b
          then (put r id busy, false)
          else release_entry (put r id busy) id request (lookup id (replace_at id busy r.entries)))
        a.sound
      ∙ ap (λ (o : Option RegisteredEngine). release_entry (put r id busy) id request o) found
      ∙ ap
          (λ (b : Bool).
            if b
            then (
              put (put r id busy) id
                  (stop_idle (record busy { active = remove request busy.active })),
              true,
            )
            else (put r id busy, false))
          there
      ∙ ap (λ (e : RegisteredEngine). (put (put r id busy) id e, true)) back
      ∙ ap (λ (m : Dict String RegisteredEngine). (record r { entries = m }, true)) whole

  -- A permit that is dropped right after it was given leaves the registry as it was before, and wakes the
  -- drains.
  pub release-acquire :
      (p : EngineRegistry × EngineExecutionPermit)
      → acquire_execution w r target context ≡ ok p
      → release_execution p.0 p.1.engine_id p.1.request_id ≡ (r, true)
  release-acquire p h =
      let (entry, a, same) = acquire-IsAdmissible p h in rw same (release-acquired entry a)
