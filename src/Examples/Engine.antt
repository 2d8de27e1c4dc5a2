-- ===== src/Examples/Engine.antt =====
-- crates/engine/src/lib.rs: a registry with one engine, and one execution on it.
use locus.Base.{
  ℕ, true, false, none, some, String, [], ◌∷◌, ◌≡◌, refl, arith, inl, inr, ◌↔◌, string_key,
  Bool-cases, ◌==◌, subst,
}
use locus.Base.Dict.{Dict, lookup, contains_key, insert, replace_at, place, remove}
use locus.Base.Results.{ok}
use locus.Core.Context.{World, OperationContext}
use locus.Core.Identity.{ExecutionTarget}
use locus.Engine.{
  EngineRegistry, RegisteredEngine, EngineLifecycle, Adapter, EngineExecutionPermit, new_registry,
  register, acquire_execution, begin_drain, release_execution,
}
use locus.Engine.Steps.{Steps, done, onward, by_register, by_acquire, by_begin_drain, by_release}
use locus.Engine.Permits.{IsAdmissible, acquired, acquire_execution_iff, release-acquire}
use locus.Engine.Invariant.{stopped_idle, IsStopped-final, IsStopped}
use locus.Engine.Stops.{release_all, Covers, release_all-stops}
use locus.Engine.Drain.{Turn, Wait, drain, drained_report, forced_report}

abbrev world : World
world = record { now = 0; cancelled = λ t. false; receiver_open = λ t. true }

abbrev adapter : Adapter
adapter = record { handle = 1; reference = record { id = "e"; generation = 1 } }

abbrev target : ExecutionTarget
target = record {
  id = "e/m";
  engine = record { id = "e"; generation = 1 };
  model = record { model_revision = "m1"; adapter_revision = none; execution_profile = "default" };
  residency = "resident";
  capability_revision = "c1";
}

abbrev context : OperationContext
context = record { request_id = "q"; tenant_id = none; deadline = none; cancellation = 7 }

abbrev entry_with : EngineLifecycle → Dict String ℕ → RegisteredEngine
entry_with l m = record { adapter = adapter; lifecycle = l; active = m }

abbrev registry_with : EngineLifecycle → Dict String ℕ → EngineRegistry
registry_with l m = record { entries = ("e", entry_with l m) ∷ []; poisoned = false }

abbrev under_way : Dict String ℕ
under_way = ("q", 7) ∷ []

abbrev permit : EngineExecutionPermit
permit = record { engine_id = "e"; request_id = "q" }

registered : register new_registry adapter ≡ ok (registry_with EngineLifecycle.ready [])
unfolding register new_registry contains_key insert place
registered = refl

executing :
    acquire_execution world (registry_with EngineLifecycle.ready []) target context
    ≡ ok (registry_with EngineLifecycle.ready under_way, permit)
unfolding acquire_execution lookup contains_key insert place replace_at
executing = refl

drain_begun :
    begin_drain (registry_with EngineLifecycle.ready under_way) "e"
    ≡ ok (registry_with EngineLifecycle.draining under_way)
unfolding begin_drain lookup replace_at
drain_begun = refl

executing-Steps : Steps new_registry (registry_with EngineLifecycle.draining under_way)
executing-Steps =
    onward
      (onward
        (onward done (by_register adapter (registry_with EngineLifecycle.ready []) registered))
        (by_acquire world target context (registry_with EngineLifecycle.ready under_way, permit)
          executing))
      (by_begin_drain "e" (registry_with EngineLifecycle.draining under_way) drain_begun)

acquire_execution_iff_example :
    (acquire_execution world (registry_with EngineLifecycle.ready []) target context
      ≡ ok (registry_with EngineLifecycle.ready under_way, permit))
    ↔ ((entry : RegisteredEngine) × IsAdmissible world
          (registry_with EngineLifecycle.ready [])
          target
          context
          entry
        × ((registry_with EngineLifecycle.ready under_way, permit)
            ≡ acquired (registry_with EngineLifecycle.ready []) target context entry))
acquire_execution_iff_example =
    acquire_execution_iff world (registry_with EngineLifecycle.ready []) target context
      (registry_with EngineLifecycle.ready under_way, permit)

release-acquire_example :
    release_execution (registry_with EngineLifecycle.ready under_way) "e" "q"
    ≡ (registry_with EngineLifecycle.ready [], true)
release-acquire_example =
    release-acquire world (registry_with EngineLifecycle.ready []) target context
      (registry_with EngineLifecycle.ready under_way, permit) executing

found_draining :
    lookup "e" (registry_with EngineLifecycle.draining under_way).entries
    ≡ some (entry_with EngineLifecycle.draining under_way)
unfolding lookup
found_draining = refl

covered : Covers ("q" ∷ []) under_way
unfolding lookup
covered j t h = elim (Bool-cases ("q" == j)) [
  | inl same ↦ inl ((string_key.beq_iff "q" j).0 same)
  | inr other ↦ absurd (ground arith)
]

release_all-stops_example :
    IsStopped "e" adapter
      (release_all (registry_with EngineLifecycle.draining under_way) "e" ("q" ∷ []))
release_all-stops_example =
    release_all-stops (registry_with EngineLifecycle.draining under_way) "e"
      (entry_with EngineLifecycle.draining under_way) ("q" ∷ []) executing-Steps refl found_draining
      refl refl covered

abbrev stopped_registry : EngineRegistry
stopped_registry = registry_with EngineLifecycle.stopped []

released :
    (release_execution (registry_with EngineLifecycle.draining under_way) "e" "q").0
    ≡ stopped_registry
unfolding release_execution lookup contains_key replace_at remove
released = refl

stopped-Steps : Steps new_registry stopped_registry
stopped-Steps =
    subst (λ (r : EngineRegistry). Steps new_registry r) released
      (onward executing-Steps (by_release "e" "q"))

found_stopped : lookup "e" stopped_registry.entries ≡ some (entry_with EngineLifecycle.stopped [])
unfolding lookup
found_stopped = refl

stopped_idle_example : (entry_with EngineLifecycle.stopped []).active ≡ []
stopped_idle_example =
    stopped_idle stopped_registry "e" (entry_with EngineLifecycle.stopped []) stopped-Steps
      found_stopped refl

IsStopped-final_example : IsStopped "e" adapter (release_execution stopped_registry "e" "q").0
IsStopped-final_example =
    IsStopped-final "e" adapter (onward done (by_release "e" "q"))
      (entry_with EngineLifecycle.stopped [], found_stopped, refl, refl)

-- Nothing happens; another task resumes the engine and starts an execution.
abbrev alone : Turn
alone = record { before = λ r. r; between = λ r. r }

abbrev busy_again : Turn
busy_again = record {
  before = λ r. (release_execution r "e" "q").0;
  between = λ r. registry_with EngineLifecycle.ready under_way;
}

-- The execution ends in the first wait; and a grace that runs out at once.
abbrev ends : Wait
ends = record {
  timed_out = false;
  turn = record { before = λ r. (release_execution r "e" "q").0; between = λ r. r };
}

abbrev runs_out : Wait
runs_out = record { timed_out = true; turn = alone }

-- A report in time with an execution under way: between the count and the stop, another task resumed the
-- engine and started it.
resumed :
    drain (registry_with EngineLifecycle.ready under_way) "e" true busy_again []
    ≡ some (ok (drained_report (registry_with EngineLifecycle.ready under_way)))
unfolding drain lookup replace_at release_execution contains_key remove
resumed = refl

-- After the grace, the token of the execution under way is cancelled.
forced :
    drain (registry_with EngineLifecycle.ready under_way) "e" true alone (runs_out ∷ [])
    ≡ some (ok (forced_report (registry_with EngineLifecycle.draining under_way) (7 ∷ [])))
unfolding drain lookup replace_at
forced = refl
