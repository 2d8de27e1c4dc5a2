-- ===== src/Executor/Fallback.antt =====
-- crates/planner/src/executor.rs: what the metadata of a returned stream say of the path taken.
use locus.Base.{
  ◌≡◌, refl, sym, ◌⊎◌, inl, inr, Bool, true, false, Option, none, String, arith, Bool-cases, subst,
}
use locus.Base.Results.{Result, ok, err, Result-cases}
use locus.Core.Context.{World, OperationContext, ensure_active}
use locus.Core.Identity.{CanonicalRequest, model_beq, model_beq→eq}
use locus.Planner.{
  FallbackAction, cold_on_same_target, replan, fail, PlacementPlan, StateReusePlan, ExecutionPath,
  is_cold,
}
use locus.Executor.{
  EngineError, StoreError, PlanExecutionError, Backend, PlanExecution, PlanExecutionMetadata,
  ExecutedPath, Run, Call, Awaited, answered, lapsed, noted, cold_result, apply_fallback,
  cleanup_context, abort_import, abort_then_fallback, abort_result, with_adapter,
  abort_after_context_error, abort_after_engine_error, start_reuse, commit_reuse, materialize_reuse,
  prepare_reuse, execute_path, execute, MaterializationTiming, context, at_start,
}
use locus.Executor.Imports.{execute-path}

-- The path that the metadata name for a planned path.
abbrev pub planned : ExecutionPath → ExecutedPath
planned ExecutionPath.cold = ExecutedPath.cold
planned (ExecutionPath.reuse _) = ExecutedPath.reuse

-- The planned path was taken, or the plan allows a cold start in its place and that was taken.
abbrev pub IsPlanned : FallbackAction → ExecutionPath → PlanExecutionMetadata → Type 0
IsPlanned fallback path m =
    ((m.fallback_used ≡ false) × (m.executed_path ≡ planned path))
    ⊎ ((m.fallback_used ≡ true)
        × (m.executed_path ≡ ExecutedPath.cold)
        × (fallback ≡ cold_on_same_target)
        × (is_cold path ≡ false))

module _ (be : Backend) where
  -- A returned stream says what was planned.
  abbrev pub IsHonest :
      FallbackAction → ExecutionPath → Result PlanExecutionError (PlanExecution be) → Type 0
  IsHonest fallback path (ok x) = IsPlanned fallback path x.metadata
  IsHonest fallback path (err _) = Unit

  with_adapter-IsHonest :
      (f : FallbackAction) (p : ExecutionPath) (r : Result EngineError be.Adapter)
      (next : be.Adapter → Run be)
      → ((a : be.Adapter) → IsHonest f p (next a).1)
      → IsHonest f p (with_adapter be r next).1
  unfolding with_adapter
  with_adapter-IsHonest f p (ok a) next h = h a
  with_adapter-IsHonest f p (err e) next h = tt

  cold_result-IsHonest :
      (f : FallbackAction) (p : ExecutionPath) (used : Bool) (timing : Option MaterializationTiming)
      (o : Awaited EngineError be.Stream)
      → ((timing' : Option MaterializationTiming)
          → IsPlanned f p (record {
            executed_path = ExecutedPath.cold;
            fallback_used = used;
            materialization = timing';
            topology_micros = none;
          }))
      → IsHonest f p (cold_result be used timing o).1
  unfolding cold_result
  cold_result-IsHonest f p used timing (answered (ok s)) h = h timing
  cold_result-IsHonest f p used timing (answered (err e)) h = tt
  cold_result-IsHonest f p used timing (lapsed _ e) h = tt

  abort_import-IsHonest :
      (f : FallbackAction) (p : ExecutionPath) (import : be.Import) (plan : PlacementPlan)
      (ctx : OperationContext) (cause : String) (next : Run be)
      → IsHonest f p next.1
      → IsHonest f p (abort_import be import plan ctx cause next).1
  unfolding abort_import abort_result
  abort_import-IsHonest f p import plan ctx cause next h =
      with_adapter-IsHonest f p _ _
        (λ adapter. cleaned (be.abort_state_import adapter import (cleanup_context be ctx)))
    where
      cleaned :
          (r : Awaited EngineError (Unit {0}))
          → IsHonest f p (abort_result be import cause next r).1
      cleaned (answered (ok _)) = h
      cleaned (answered (err _)) = tt
      cleaned (lapsed true _) = tt
      cleaned (lapsed false _) = tt

  -- What was called is not in the metadata.
  noted-IsHonest :
      {E A : Type 0} (f : FallbackAction) (p : ExecutionPath) (call : Call be) (o : Awaited E A)
      (run : Run be)
      → IsHonest f p run.1
      → IsHonest f p (noted be call o run).1
  noted-IsHonest f p call (answered _) run h = h
  noted-IsHonest f p call (lapsed true _) run h = h
  noted-IsHonest f p call (lapsed false _) run h = h

  module _ (plan : PlacementPlan) (r : StateReusePlan) (request : CanonicalRequest)
      (ctx : OperationContext) where
    abbrev Honest : Run be → Type 0
    Honest run = IsHonest plan.fallback (ExecutionPath.reuse r) run.1

    fallback-Honest :
        (f : FallbackAction) (cause : String) (timing : Option MaterializationTiming)
        → IsHonest f (ExecutionPath.reuse r) (apply_fallback be f plan request ctx cause timing).1
    unfolding apply_fallback
    fallback-Honest cold_on_same_target cause timing =
        with_adapter-IsHonest cold_on_same_target (ExecutionPath.reuse r) _ _ λ adapter.
          noted-IsHonest cold_on_same_target (ExecutionPath.reuse r) _ _ _ (
            cold_result-IsHonest cold_on_same_target (ExecutionPath.reuse r) true timing _
              λ _. inr (refl, refl, refl, refl))
    fallback-Honest replan cause timing = tt
    fallback-Honest fail cause timing = tt

    start_reuse-Honest :
        (import : be.Import) (o : Awaited EngineError be.Stream)
        → Honest (start_reuse be import plan r ctx o)
    unfolding start_reuse abort_after_context_error abort_after_engine_error
    start_reuse-Honest import (answered (ok stream)) = inl (refl, refl)
    start_reuse-Honest import (answered (err (context e))) =
        abort_import-IsHonest plan.fallback (ExecutionPath.reuse r) import plan ctx _ _ tt
    start_reuse-Honest import (answered (err _)) =
        abort_import-IsHonest plan.fallback (ExecutionPath.reuse r) import plan ctx _ _ tt
    start_reuse-Honest import (lapsed _ e) =
        abort_import-IsHonest plan.fallback (ExecutionPath.reuse r) import plan ctx _ _ tt

    commit_reuse-Honest :
        (import : be.Import) (adapter : be.Adapter) (o : Awaited EngineError be.Attachment)
        → Honest (commit_reuse be adapter import plan r request ctx o)
    unfolding commit_reuse abort_after_context_error abort_then_fallback
    commit_reuse-Honest import adapter (answered (ok attachment)) =
        noted-IsHonest plan.fallback (ExecutionPath.reuse r) _ _ _ (start_reuse-Honest import _)
    commit_reuse-Honest import adapter (answered (err (context e))) =
        abort_import-IsHonest plan.fallback (ExecutionPath.reuse r) import plan ctx _ _ tt
    commit_reuse-Honest import adapter (answered (err _)) =
        abort_import-IsHonest plan.fallback (ExecutionPath.reuse r) import plan ctx _ _
          (fallback-Honest _ _ _)
    commit_reuse-Honest import adapter (lapsed _ e) =
        abort_import-IsHonest plan.fallback (ExecutionPath.reuse r) import plan ctx _ _ tt

    materialize_reuse-Honest :
        (import : be.Import) (adapter : be.Adapter) (o : Awaited StoreError be.Receipt)
        → Honest (materialize_reuse be adapter import plan r request ctx o)
    unfolding materialize_reuse abort_after_context_error abort_then_fallback
    materialize_reuse-Honest import adapter (answered (ok receipt)) =
        noted-IsHonest plan.fallback (ExecutionPath.reuse r) _ _ _
          (commit_reuse-Honest import adapter _)
    materialize_reuse-Honest import adapter (answered (err (context e))) =
        abort_import-IsHonest plan.fallback (ExecutionPath.reuse r) import plan ctx _ _ tt
    materialize_reuse-Honest import adapter (answered (err _)) =
        abort_import-IsHonest plan.fallback (ExecutionPath.reuse r) import plan ctx _ _
          (fallback-Honest _ _ _)
    materialize_reuse-Honest import adapter (lapsed _ e) =
        abort_import-IsHonest plan.fallback (ExecutionPath.reuse r) import plan ctx _ _ tt

    prepare_reuse-Honest :
        (adapter : be.Adapter) (o : Awaited EngineError be.Import)
        → Honest (prepare_reuse be adapter plan r request ctx o)
    unfolding prepare_reuse
    prepare_reuse-Honest adapter (answered (ok import)) =
        noted-IsHonest plan.fallback (ExecutionPath.reuse r) _ _ _
          (materialize_reuse-Honest import adapter _)
    prepare_reuse-Honest adapter (answered (err (context e))) = tt
    prepare_reuse-Honest adapter (answered (err _)) = fallback-Honest _ _ _
    prepare_reuse-Honest adapter (lapsed _ e) = tt

  execute_path-IsHonest :
      (adapter : be.Adapter) (plan : PlacementPlan) (request : CanonicalRequest)
      (ctx : OperationContext) (path : ExecutionPath)
      → IsHonest plan.fallback path (execute_path be adapter plan request ctx path).1
  unfolding execute_path
  execute_path-IsHonest adapter plan request ctx ExecutionPath.cold =
      noted-IsHonest plan.fallback ExecutionPath.cold _ _ _
        (cold_result-IsHonest plan.fallback ExecutionPath.cold false none _ λ _. inl (refl, refl))
  execute_path-IsHonest adapter plan request ctx (ExecutionPath.reuse r) =
      noted-IsHonest plan.fallback (ExecutionPath.reuse r) _ _ _
        (prepare_reuse-Honest plan r request ctx adapter _)

  -- When `execute` returns a stream, whatever the registry, the engine, the store and the context
  -- answered: the request's model is that of the plan's target, and the metadata say that the planned
  -- path was taken without a fallback, or that a cold start was the fallback of a planned reuse whose
  -- plan says to fall back to that.
  pub execute_honest :
      (world : World) (plan : PlacementPlan) (request : CanonicalRequest) (ctx : OperationContext)
      (x : PlanExecution be)
      → (execute be world plan request ctx).1 ≡ ok x
      → (request.model ≡ plan.target.model) × IsPlanned plan.fallback plan.path x.metadata
  unfolding execute
  execute_honest world plan request ctx x h = elim (Result-cases (ensure_active world ctx)) [
    | inr (e, inactive) ↦ absurd (ground (arith, inactive))
    | inl (_, active) ↦ elim (Bool-cases (model_beq request.model plan.target.model)) [
      | inr other ↦ absurd (ground (arith, active, other))
      | inl same ↦ (
        model_beq→eq request.model plan.target.model same,
        subst (IsHonest plan.fallback plan.path) h (
            subst (λ (run : Run be). IsHonest plan.fallback plan.path run.1)
              (sym (execute-path be world plan request ctx active same))
              (with_adapter-IsHonest plan.fallback plan.path (be.adapter_for at_start plan.target) _
                λ adapter. execute_path-IsHonest adapter plan request ctx plan.path)),
      )
    ]
  ]
