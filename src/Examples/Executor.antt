-- ===== src/Examples/Executor.antt =====
-- crates/planner/src/executor.rs: an engine that prepares and commits an import and then fails to
-- start; a store that fails, with a plan that allows a cold start.
use locus.Base.{ℕ, ◌≡◌, refl, true, false, none, some, [], string_key}
use locus.Base.Results.{Result, ok, err}
use locus.Core.Context.{World, OperationContext, ensure_active}
use locus.Core.Identity.{model_beq}
use locus.Planner.{cold_on_same_target, PlacementPlan, ExecutionPath, reuse_path}
use locus.Executor.{
  draining, answered, StoreError, unavailable, Backend, PlanExecution, ExecutedPath, execute,
  with_adapter, execute_path, prepare_reuse, materialize_reuse, abort_import, abort_result,
  abort_then_fallback, apply_fallback, cold_result, cleanup_context,
}
use locus.Executor.Imports.{IsAccounted, prepared-IsAccounted}
use locus.Executor.Fallback.{IsPlanned, execute_honest}
use locus.Examples.Planner.{reuse_plan, reuse_up, request_q}

-- Adapters, imports, receipts, attachments and streams are numbers; `stored` is the store's answer.
abbrev engine_of : Result StoreError ℕ → Backend
engine_of stored = record {
  Adapter = ℕ;
  Import = ℕ;
  Receipt = ℕ;
  Attachment = ℕ;
  Stream = ℕ;
  adapter_for = λ _ _. ok 1;
  prepare_state_import = λ _ _ _ _. answered (ok 20);
  materialize = λ _ _ _. answered stored;
  commit_state_import = λ _ _ _ _. answered (ok 40);
  abort_state_import = λ _ _ _. answered (ok tt);
  start = λ _ _ _ attachment _. elim attachment [
    | none ↦ answered (ok 50)
    | some _ ↦ answered (err draining)
  ];
  context_text = λ _. "context";
  engine_text = λ _. "engine";
  store_text = λ _. "store";
  cleanup_token = 9;
  cleanup_now = 0;
  materialization_micros = 30;
  activation_micros = 70;
}

abbrev calm : World
calm = record { now = 0; cancelled = λ _. false; receiver_open = λ _. true }

abbrev open_context : OperationContext
open_context = record { request_id = "q"; tenant_id = none; deadline = none; cancellation = 1 }

abbrev lenient_plan : PlacementPlan
lenient_plan = record {
  target = reuse_plan.target;
  path = ExecutionPath.reuse reuse_up;
  predicted_cost = reuse_plan.predicted_cost;
  fallback = cold_on_same_target;
  rationale = [];
}

abbrev fallback_execution : PlanExecution (engine_of (err (unavailable "down")))
fallback_execution = record {
  stream = 50;
  metadata = record {
    executed_path = ExecutedPath.cold;
    fallback_used = true;
    materialization = none;
    topology_micros = none;
  };
}

-- The engine drains when the request starts: the import is aborted.
prepared-IsAccounted_example :
    IsAccounted
      (engine_of (ok 30))
      lenient_plan
      request_q
      open_context
      1
      20
      (execute (engine_of (ok 30)) calm lenient_plan request_q open_context)
unfolding ensure_active model_beq reuse_path
prepared-IsAccounted_example =
    prepared-IsAccounted (engine_of (ok 30)) calm lenient_plan request_q open_context reuse_up 1 20
      refl refl refl refl refl

-- The store is down: the request starts cold on the same target.
fallback_run :
    (execute (engine_of (err (unavailable "down"))) calm lenient_plan request_q open_context).1
    ≡ ok fallback_execution
unfolding execute with_adapter execute_path prepare_reuse materialize_reuse abort_then_fallback
    abort_import abort_result apply_fallback cold_result ensure_active model_beq reuse_path
    cleanup_context
fallback_run = refl

execute_honest_example :
    (request_q.model ≡ lenient_plan.target.model)
    × IsPlanned lenient_plan.fallback lenient_plan.path fallback_execution.metadata
execute_honest_example =
    execute_honest (engine_of (err (unavailable "down"))) calm lenient_plan request_q open_context
      fallback_execution fallback_run
