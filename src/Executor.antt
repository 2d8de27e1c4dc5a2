-- ===== src/Executor.antt =====
-- crates/planner/src/executor.rs: the default executor of placement plans. The registry, the engine
-- adapter, the store and the elapsed times are the parameter `Backend`: what each call answers. A
-- run lists the calls it made, in their order, with its result.
pub mod Imports
pub mod Fallback
use locus.Base.{
  ℕ, ◌+◌, ◌-◌, ◌≡◌, Bool, true, false, not, Option, none, some, String, List, [], ◌∷◌,
  if◌then◌else◌,
}
use locus.Base.Results.{Result, ok, err}
use locus.Core.Context.{World, OperationContext, ContextError, ensure_active, new, with_deadline}
use locus.Core.Identity.{
  ExecutionTarget, CanonicalRequest, CompatibilityResult, StateDescriptor, MaterializationOption,
  model_beq,
}
use locus.Planner.{
  FallbackAction, cold_on_same_target, replan, fail, PlacementPlan, StateReusePlan, ExecutionPath,
}

pub data EngineError : Type 0 where
  context : ContextError → EngineError
  target_not_found registry unsupported state_import execution : String → EngineError
  stale_generation draining stopped : EngineError

pub data StoreError : Type 0 where
  context : ContextError → StoreError
  unavailable unsupported incompatible protocol materialization : String → StoreError

pub data PlanExecutionError : Type 0 where
  context : ContextError → PlanExecutionError
  engine : EngineError → PlanExecutionError
  store : StoreError → PlanExecutionError
  invalid_plan planned_path_failed replan_required : String → PlanExecutionError
  cleanup_failed : String → EngineError → PlanExecutionError

pub data ExecutedPath : Type 0 where
  cold reuse : ExecutedPath

pub record MaterializationTiming : Type 0 where
  pub store : String
  pub state_kind : String
  pub target_id : String
  pub store_estimated_micros : ℕ
  pub actual_micros : ℕ

pub record PlanExecutionMetadata : Type 0 where
  pub executed_path : ExecutedPath
  pub fallback_used : Bool
  pub materialization : Option MaterializationTiming
  pub topology_micros : Option ℕ

-- `StateImportSpec::from_plan`.
pub record StateImportSpec : Type 0 where
  pub source_state : String
  pub state_kind : String
  pub compatibility : CompatibilityResult

unfoldable pub from_plan : StateDescriptor → CompatibilityResult → StateImportSpec
from_plan state compatibility = record {
  source_state = state.id;
  state_kind = state.kind;
  compatibility = compatibility;
}

-- What `context.run(call).await` gives: the call's own result, or the context's error, when the context
-- ended before the result. `run` looks at the context before it polls the call, so the callee may never
-- have run: `lapsed false` is that case.
pub data Awaited (E A : Type 0) : Type 0 where
  answered : Result E A → Awaited E A
  lapsed : Bool → ContextError → Awaited E A

-- When the registry is asked for the adapter.
pub data Moment : Type 0 where
  at_start at_cleanup at_fallback : Moment

pub record Backend : Type 1 where
  pub Adapter : Type 0
  pub Import : Type 0
  pub Receipt : Type 0
  pub Attachment : Type 0
  pub Stream : Type 0
  pub adapter_for : Moment → ExecutionTarget → Result EngineError Adapter
  pub prepare_state_import :
      Adapter → ExecutionTarget → StateImportSpec → OperationContext → Awaited EngineError Import
  pub materialize : MaterializationOption → Import → OperationContext → Awaited StoreError Receipt
  pub commit_state_import :
      Adapter → Import → Receipt → OperationContext → Awaited EngineError Attachment
  pub abort_state_import : Adapter → Import → OperationContext → Awaited EngineError (Unit {0})
  pub start :
      Adapter
      → ExecutionTarget
      → CanonicalRequest
      → Option Attachment
      → OperationContext
      → Awaited EngineError Stream
  pub context_text : ContextError → String
  pub engine_text : EngineError → String
  pub store_text : StoreError → String
  pub cleanup_token : ℕ
  pub cleanup_now : ℕ
  pub materialization_micros : ℕ
  pub activation_micros : ℕ

pub data Call (be : Backend) : Type 0 where
  prepared : StateImportSpec → Call be
  materialized : be.Import → Call be
  committed : be.Import → be.Receipt → Call be
  aborted : be.Import → Call be
  started : Option be.Attachment → Call be

pub record PlanExecution (be : Backend) : Type 0 where
  pub stream : be.Stream
  pub metadata : PlanExecutionMetadata

abbrev pub Run : Backend → Type 0
Run be = List (Call be) × Result PlanExecutionError (PlanExecution be)

-- The time a cleanup is given, in the unit of `now`: two seconds in microseconds.
abbrev cleanup_micros : ℕ
cleanup_micros = 2000000

module _ (be : Backend) where
  abbrev pub after : Call be → Run be → Run be
  after call (calls, result) = (call ∷ calls, result)

  -- The call is one that was made, unless the context had ended before its first poll.
  abbrev pub noted : {E A : Type 0} → Call be → Awaited E A → Run be → Run be
  noted call (answered _) run = after call run
  noted call (lapsed true _) run = after call run
  noted call (lapsed false _) run = run

  abbrev pub failed : PlanExecutionError → Run be
  failed error = ([], err error)

  -- `self.engines.adapter_for(&plan.target)?` and what follows it.
  unfoldable pub with_adapter : Result EngineError be.Adapter → (be.Adapter → Run be) → Run be
  with_adapter (ok adapter) next = next adapter
  with_adapter (err error) next = failed (engine error)

  -- What a cold start returns: its stream, or its error by `?`.
  unfoldable pub cold_result :
      Bool → Option MaterializationTiming → Awaited EngineError be.Stream → Run be
  cold_result fallback_used timing (answered (ok stream)) = (
    [],
    ok (record {
      stream = stream;
      metadata = record {
        executed_path = cold;
        fallback_used = fallback_used;
        materialization = timing;
        topology_micros = none;
      };
    }),
  )
  cold_result _ _ (answered (err error)) = failed (engine error)
  cold_result _ _ (lapsed _ error) = failed (context error)

  unfoldable pub apply_fallback :
      FallbackAction
      → PlacementPlan
      → CanonicalRequest
      → OperationContext
      → String
      → Option MaterializationTiming
      → Run be
  apply_fallback cold_on_same_target plan request ctx cause timing =
      with_adapter (be.adapter_for at_fallback plan.target) λ adapter.
        let answer = be.start adapter plan.target request none ctx in
        noted (started none) answer (cold_result true timing answer)
  apply_fallback replan plan request ctx cause timing = failed (replan_required cause)
  apply_fallback fail plan request ctx cause timing = failed (planned_path_failed cause)

  unfoldable pub cleanup_context : OperationContext → OperationContext
  cleanup_context ctx =
      with_deadline (new ctx.request_id be.cleanup_token) (be.cleanup_now + cleanup_micros)

  -- What follows an abort: `next` when it succeeds.
  unfoldable pub abort_result :
      be.Import → String → Run be → Awaited EngineError (Unit {0}) → Run be
  abort_result import cause next (answered (ok _)) = after (aborted import) next
  abort_result import cause next (answered (err cleanup)) =
      after (aborted import) (failed (cleanup_failed cause cleanup))
  abort_result import cause next (lapsed true cleanup) =
      after (aborted import) (failed (cleanup_failed cause (context cleanup)))
  abort_result import cause next (lapsed false cleanup) =
      failed (cleanup_failed cause (context cleanup))

  -- The abort that the three ways to clean up share.
  unfoldable pub abort_import :
      be.Import → PlacementPlan → OperationContext → String → Run be → Run be
  abort_import import plan ctx cause next =
      with_adapter (be.adapter_for at_cleanup plan.target) λ adapter.
        abort_result import cause next (be.abort_state_import adapter import (cleanup_context ctx))

  unfoldable pub abort_then_fallback :
      be.Import
      → PlacementPlan
      → CanonicalRequest
      → OperationContext
      → String
      → Option MaterializationTiming
      → Run be
  abort_then_fallback import plan request ctx cause timing =
      abort_import import plan ctx cause
        (apply_fallback plan.fallback plan request ctx cause timing)

  unfoldable pub abort_after_context_error :
      be.Import → PlacementPlan → OperationContext → ContextError → Run be
  abort_after_context_error import plan ctx error =
      abort_import import plan ctx (be.context_text error) (failed (context error))

  unfoldable pub abort_after_engine_error :
      be.Import → PlacementPlan → OperationContext → EngineError → Run be
  abort_after_engine_error import plan ctx error =
      abort_import import plan ctx (be.engine_text error) (failed (engine error))

  unfoldable pub timing_of : PlacementPlan → StateReusePlan → MaterializationTiming
  timing_of plan r = record {
    store = r.option.store;
    state_kind = r.option.state_kind;
    target_id = plan.target.id;
    store_estimated_micros = r.option.estimated_transfer_micros;
    actual_micros = be.materialization_micros;
  }

  -- The last step of the reuse path: start with the attachment.
  unfoldable pub start_reuse :
      be.Import
      → PlacementPlan
      → StateReusePlan
      → OperationContext
      → Awaited EngineError be.Stream
      → Run be
  start_reuse import plan r ctx (answered (ok stream)) = (
    [],
    ok (record {
      stream = stream;
      metadata = record {
        executed_path = reuse;
        fallback_used = false;
        materialization = some (timing_of plan r);
        topology_micros = some (be.activation_micros - be.materialization_micros);
      };
    }),
  )
  start_reuse import plan r ctx (answered (err (context error))) =
      abort_after_context_error import plan ctx error
  start_reuse import plan r ctx (answered (err error)) =
      abort_after_engine_error import plan ctx error
  start_reuse import plan r ctx (lapsed _ error) = abort_after_context_error import plan ctx error

  unfoldable pub commit_reuse :
      be.Adapter
      → be.Import
      → PlacementPlan
      → StateReusePlan
      → CanonicalRequest
      → OperationContext
      → Awaited EngineError be.Attachment
      → Run be
  commit_reuse adapter import plan r request ctx (answered (ok attachment)) =
      let answer = be.start adapter plan.target request (some attachment) ctx in
      noted (started (some attachment)) answer (start_reuse import plan r ctx answer)
  commit_reuse adapter import plan r request ctx (answered (err (context error))) =
      abort_after_context_error import plan ctx error
  commit_reuse adapter import plan r request ctx (answered (err error)) =
      abort_then_fallback import plan request ctx (be.engine_text error) (some (timing_of plan r))
  commit_reuse adapter import plan r request ctx (lapsed _ error) =
      abort_after_context_error import plan ctx error

  unfoldable pub materialize_reuse :
      be.Adapter
      → be.Import
      → PlacementPlan
      → StateReusePlan
      → CanonicalRequest
      → OperationContext
      → Awaited StoreError be.Receipt
      → Run be
  materialize_reuse adapter import plan r request ctx (answered (ok receipt)) =
      let answer = be.commit_state_import adapter import receipt ctx in
      noted (committed import receipt) answer
        (commit_reuse adapter import plan r request ctx answer)
  materialize_reuse adapter import plan r request ctx (answered (err (context error))) =
      abort_after_context_error import plan ctx error
  materialize_reuse adapter import plan r request ctx (answered (err error)) =
      abort_then_fallback import plan request ctx (be.store_text error) none
  materialize_reuse adapter import plan r request ctx (lapsed _ error) =
      abort_after_context_error import plan ctx error

  unfoldable pub prepare_reuse :
      be.Adapter
      → PlacementPlan
      → StateReusePlan
      → CanonicalRequest
      → OperationContext
      → Awaited EngineError be.Import
      → Run be
  prepare_reuse adapter plan r request ctx (answered (ok import)) =
      let answer = be.materialize r.option import ctx in
      noted (materialized import) answer
        (materialize_reuse adapter import plan r request ctx answer)
  prepare_reuse adapter plan r request ctx (answered (err (context error))) = failed (context error)
  prepare_reuse adapter plan r request ctx (answered (err error)) =
      apply_fallback plan.fallback plan request ctx (be.engine_text error) none
  prepare_reuse adapter plan r request ctx (lapsed _ error) = failed (context error)

  abbrev spec_of : StateReusePlan → StateImportSpec
  spec_of r = from_plan r.state r.compatibility

  unfoldable pub execute_path :
      be.Adapter → PlacementPlan → CanonicalRequest → OperationContext → ExecutionPath → Run be
  execute_path adapter plan request ctx ExecutionPath.cold =
      let answer = be.start adapter plan.target request none ctx in
      noted (started none) answer (cold_result false none answer)
  execute_path adapter plan request ctx (ExecutionPath.reuse r) =
      let answer = be.prepare_state_import adapter plan.target (spec_of r) ctx in
      noted (prepared (spec_of r)) answer (prepare_reuse adapter plan r request ctx answer)

  unfoldable pub execute : World → PlacementPlan → CanonicalRequest → OperationContext → Run be
  execute world plan request ctx = elim (ensure_active world ctx) [
    | err error ↦ failed (context error)
    | ok _ ↦
        if not (model_beq request.model plan.target.model)
        then failed (invalid_plan "request model does not match the selected execution target")
        else with_adapter (be.adapter_for at_start plan.target)
            λ adapter. execute_path adapter plan request ctx plan.path
  ]
