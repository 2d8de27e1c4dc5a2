-- ===== src/Engine.antt =====
-- crates/engine/src/lib.rs: the registry of engines, with the executions that each has under way. The
-- adapters are handles with the reference of their instance; whether a lock is poisoned is part of the
-- state.
pub mod Entries
pub mod Steps
pub mod Invariant
pub mod Permits
pub mod Drain
pub mod Stops
pub mod Drained
use locus.Base.{
  ℕ, suc, ◌+◌, Bool, true, false, not, ◌&&◌, Option, none, some, String, List, [], ◌∷◌, map,
  nat_beq, if◌then◌else◌, string_key,
}
use locus.Base.Dict.{Dict, lookup, contains_key, replace_at, insert, remove, sum_by}
use locus.Base.Lists.{length, is_empty}
use locus.Base.Results.{Result, ok, err, ◌>>=◌, ◌>>◌, reject_if, ok_or, map_err}
use locus.Core.Context.{World, OperationContext, ensure_active}
use locus.Core.Identity.{EngineInstanceRef, ExecutionTarget}
use locus.Executor.{EngineError, target_not_found, registry, stale_generation}

pub data EngineLifecycle : Type 0 where
  ready draining stopped : EngineLifecycle

pub record Adapter : Type 0 where
  pub handle : ℕ
  pub reference : EngineInstanceRef

-- The requests under way, each with its cancellation token.
pub record RegisteredEngine : Type 0 where
  pub adapter : Adapter
  pub lifecycle : EngineLifecycle
  pub active : Dict String ℕ

pub record EngineRegistry : Type 0 where
  pub entries : Dict String RegisteredEngine
  pub poisoned : Bool

pub record EngineDrainReport : Type 0 where
  pub completed : Bool
  pub forced_cancellations : ℕ

-- A permit that is not yet dropped.
pub record EngineExecutionPermit : Type 0 where
  pub engine_id : String
  pub request_id : String

abbrev pub lifecycle_beq : EngineLifecycle → EngineLifecycle → Bool
lifecycle_beq EngineLifecycle.ready EngineLifecycle.ready = true
lifecycle_beq EngineLifecycle.draining EngineLifecycle.draining = true
lifecycle_beq EngineLifecycle.stopped EngineLifecycle.stopped = true
lifecycle_beq _ _ = false

unfoldable pub new_registry : EngineRegistry
new_registry = record { entries = []; poisoned = false }

-- `entries.read()` and `entries.write()`.
abbrev pub locked : EngineRegistry → Result EngineError (Unit {0})
locked r = reject_if r.poisoned (registry "engine registry lock poisoned")

abbrev pub put : EngineRegistry → String → RegisteredEngine → EngineRegistry
put r id e = record r { entries = replace_at id e r.entries }

abbrev pub map_values :
    (RegisteredEngine → RegisteredEngine)
    → Dict String RegisteredEngine
    → Dict String RegisteredEngine
map_values f [] = []
map_values f ((id, e) ∷ m) = (id, f e) ∷ map_values f m

unfoldable pub register : EngineRegistry → Adapter → Result EngineError EngineRegistry
register r adapter = do
  locked r
  reject_if (contains_key adapter.reference.id r.entries) (registry "duplicate engine instance id")
  ok (record r {
    entries =
        insert adapter.reference.id
          (record { adapter = adapter; lifecycle = EngineLifecycle.ready; active = [] }) r.entries;
  })

unfoldable pub adapters : EngineRegistry → Result EngineError (List Adapter)
adapters r = locked r >> ok (map (λ entry. entry.1.adapter) r.entries)

abbrev pub ready_adapters : Dict String RegisteredEngine → List Adapter
ready_adapters [] = []
ready_adapters ((id, e) ∷ m) =
    if lifecycle_beq e.lifecycle EngineLifecycle.ready
    then e.adapter ∷ ready_adapters m
    else ready_adapters m

unfoldable pub routable_adapters : EngineRegistry → Result EngineError (List Adapter)
routable_adapters r = locked r >> ok (ready_adapters r.entries)

-- The entry of a target, if its engine is of the target's generation.
unfoldable pub entry_for : EngineRegistry → ExecutionTarget → Result EngineError RegisteredEngine
entry_for r target = do
  entry ← ok_or (target_not_found target.id) (lookup target.engine.id r.entries)
  reject_if (not (nat_beq entry.adapter.reference.generation target.engine.generation))
      stale_generation
  ok entry

unfoldable pub adapter_for : EngineRegistry → ExecutionTarget → Result EngineError Adapter
unfolding entry_for
adapter_for r target = do locked r; entry ← entry_for r target; ok entry.adapter

abbrev pub require_ready : EngineLifecycle → Result EngineError (Unit {0})
require_ready EngineLifecycle.ready = ok tt
require_ready EngineLifecycle.draining = err EngineError.draining
require_ready EngineLifecycle.stopped = err EngineError.stopped

unfoldable pub acquire_execution :
    World
    → EngineRegistry
    → ExecutionTarget
    → OperationContext
    → Result EngineError (EngineRegistry × EngineExecutionPermit)
unfolding ensure_active entry_for
acquire_execution w r target context = do
  map_err EngineError.context (ensure_active w context)
  locked r
  entry ← entry_for r target
  require_ready entry.lifecycle
  reject_if (contains_key context.request_id entry.active) (registry "duplicate active request id")
  ok (
    put r target.engine.id
        (record entry { active = insert context.request_id context.cancellation entry.active }),
    record { engine_id = target.engine.id; request_id = context.request_id },
  )

abbrev pub start_drain : RegisteredEngine → RegisteredEngine
start_drain e =
    if lifecycle_beq e.lifecycle EngineLifecycle.ready
    then record e { lifecycle = EngineLifecycle.draining }
    else e

unfoldable pub begin_drain_all : EngineRegistry → Result EngineError EngineRegistry
begin_drain_all r = locked r >> ok (record r { entries = map_values start_drain r.entries })

-- `get_mut(engine_id)` and a change of the entry.
abbrev pub change :
    (RegisteredEngine → RegisteredEngine)
    → EngineRegistry
    → String
    → Result EngineError EngineRegistry
change f r id = do
  locked r
  entry ← ok_or (target_not_found id) (lookup id r.entries)
  ok (put r id (f entry))

unfoldable pub begin_drain : EngineRegistry → String → Result EngineError EngineRegistry
begin_drain = change start_drain

unfoldable pub lifecycle : EngineRegistry → String → Result EngineError EngineLifecycle
lifecycle r id = do
  locked r
  entry ← ok_or (target_not_found id) (lookup id r.entries)
  ok entry.lifecycle

abbrev pub end_drain : RegisteredEngine → RegisteredEngine
end_drain e =
    if lifecycle_beq e.lifecycle EngineLifecycle.draining
    then record e { lifecycle = EngineLifecycle.ready }
    else e

unfoldable pub resume : EngineRegistry → String → Result EngineError EngineRegistry
resume = change end_drain

unfoldable pub active_executions : EngineRegistry → Result EngineError ℕ
unfolding sum_by
active_executions r = locked r >> ok (sum_by (λ id e. length e.active) r.entries)

unfoldable pub active_executions_for : EngineRegistry → String → Result EngineError ℕ
active_executions_for r id = do
  locked r
  entry ← ok_or (target_not_found id) (lookup id r.entries)
  ok (length entry.active)

-- A draining engine with nothing under way stops.
abbrev pub stop_idle : RegisteredEngine → RegisteredEngine
stop_idle e =
    if lifecycle_beq e.lifecycle EngineLifecycle.draining && is_empty e.active
    then record e { lifecycle = EngineLifecycle.stopped }
    else e

unfoldable pub stop_drained : EngineRegistry → Result EngineError EngineRegistry
stop_drained r = locked r >> ok (record r { entries = map_values stop_idle r.entries })

unfoldable pub stop_drained_engine : EngineRegistry → String → Result EngineError EngineRegistry
stop_drained_engine = change stop_idle

-- `drop` of a permit; whether it wakes the drains that wait.
abbrev pub release_entry :
    EngineRegistry → String → String → Option RegisteredEngine → EngineRegistry × Bool
release_entry r engine_id request_id none = (r, false)
release_entry r engine_id request_id (some e) =
    if contains_key request_id e.active
    then (put r engine_id (stop_idle (record e { active = remove request_id e.active })), true)
    else (r, false)

unfoldable pub release_execution : EngineRegistry → String → String → EngineRegistry × Bool
release_execution r engine_id request_id =
    if r.poisoned
    then (r, false)
    else release_entry r engine_id request_id (lookup engine_id r.entries)
