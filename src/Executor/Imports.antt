-- ===== src/Executor/Imports.antt =====
-- crates/planner/src/executor.rs: what becomes of a prepared state import, and when the executor
-- falls back to a cold start.
use locus.Base.{◌≡◌, refl, sym, ◌⊎◌, inl, inr, true, false, some, String, [], subst}
use locus.Base.Lists.{Member}
use locus.Base.Results.{Result, ok, err}
use locus.Core.Context.{World, OperationContext, ContextError, ensure_active}
use locus.Core.Identity.{CanonicalRequest, model_beq}
use locus.Planner.{PlacementPlan, StateReusePlan, ExecutionPath}
use locus.Executor.{
  EngineError, StoreError, PlanExecutionError, Backend, Call, prepared, materialized, committed,
  aborted, started, PlanExecution, ExecutedPath, Run, Awaited, answered, lapsed, noted, after,
  cleanup_failed, engine, cleanup_context, abort_import, abort_result, with_adapter,
  abort_then_fallback, abort_after_context_error, abort_after_engine_error, start_reuse,
  commit_reuse, materialize_reuse, prepare_reuse, execute_path, execute, at_cleanup, from_plan,
  at_start, context,
}

module _ (be : Backend) where
  -- The import is in use: it was committed, and the stream is the one that the engine started with what
  -- the commit gave.
  pub record InUse (plan : PlacementPlan) (request : CanonicalRequest) (ctx : OperationContext)
      (adapter : be.Adapter) (import : be.Import) (run : Run be) : Type 0 where
    pub receipt : be.Receipt
    pub attachment : be.Attachment
    pub commit : be.commit_state_import adapter import receipt ctx ≡ answered (ok attachment)
    pub execution : PlanExecution be
    pub returned : run.1 ≡ ok execution
    pub labelled : execution.metadata.executed_path ≡ ExecutedPath.reuse
    pub stream :
        be.start adapter plan.target request (some attachment) ctx ≡ answered (ok execution.stream)
    pub listed : Member (started (some attachment)) run.0

  -- The context of the cleanup ended before the abort was polled.
  pub record Unpolled (plan : PlacementPlan) (ctx : OperationContext) (import : be.Import)
      (result : Result PlanExecutionError (PlanExecution be)) : Type 0 where
    pub adapter : be.Adapter
    pub found : be.adapter_for at_cleanup plan.target ≡ ok adapter
    pub ended : ContextError
    pub answer : be.abort_state_import adapter import (cleanup_context be ctx) ≡ lapsed false ended
    pub cause : String
    pub reported : result ≡ err (cleanup_failed cause (context ended))

  -- A run that was handed an import: the import is in use, or its abort was called, or the cleanup's
  -- context ended first, or the registry had no adapter to call.
  abbrev pub IsAccounted :
      PlacementPlan → CanonicalRequest → OperationContext → be.Adapter → be.Import → Run be → Type 0
  IsAccounted plan request ctx adapter import run =
      InUse plan request ctx adapter import run
      ⊎ Member (aborted import) run.0
      ⊎ Unpolled plan ctx import run.1
      ⊎ ((e : EngineError) × (be.adapter_for at_cleanup plan.target ≡ err e)
          × (run.1 ≡ err (engine e)))

  with_adapter_cases :
      (P : Run be → Type 0) (r : Result EngineError be.Adapter) (next : be.Adapter → Run be)
      → ((e : EngineError) → r ≡ err e → P ([], err (engine e)))
      → ((a : be.Adapter) → r ≡ ok a → P (next a))
      → P (with_adapter be r next)
  unfolding with_adapter
  with_adapter_cases P (ok a) next f g = g a refl
  with_adapter_cases P (err e) next f g = f e refl

  module _ (plan : PlacementPlan) (request : CanonicalRequest) (ctx : OperationContext)
      (adapter : be.Adapter) (import : be.Import) where
    abbrev Accounted : Run be → Type 0
    Accounted = IsAccounted plan request ctx adapter import

    abort_import-IsAccounted :
        (cause : String) (next : Run be) → Accounted (abort_import be import plan ctx cause next)
    unfolding abort_import abort_result
    abort_import-IsAccounted cause next =
        with_adapter_cases Accounted (be.adapter_for at_cleanup plan.target) _
          (λ e h. inr (inr (inr (e, h, refl))))
          (λ a h. cleaned a h (be.abort_state_import a import (cleanup_context be ctx)) refl)
      where
        cleaned :
            (a : be.Adapter)
            → be.adapter_for at_cleanup plan.target ≡ ok a
            → (o : Awaited EngineError (Unit {0}))
            → be.abort_state_import a import (cleanup_context be ctx) ≡ o
            → Accounted (abort_result be import cause next o)
        cleaned a h (answered (ok _)) e = inr (inl (inl refl))
        cleaned a h (answered (err _)) e = inr (inl (inl refl))
        cleaned a h (lapsed true _) e = inr (inl (inl refl))
        cleaned a h (lapsed false ended) e = inr (
            inr (
              inl (record {
                adapter = a;
                found = h;
                ended = ended;
                answer = e;
                cause = cause;
                reported = refl;
              })))

    -- One more call before changes nothing of what becomes of the import.
    after-IsAccounted : (call : Call be) (r : Run be) → Accounted r → Accounted (after be call r)
    after-IsAccounted call r (inl u) = inl (record {
      receipt = u.receipt;
      attachment = u.attachment;
      commit = u.commit;
      execution = u.execution;
      returned = u.returned;
      labelled = u.labelled;
      stream = u.stream;
      listed = inr u.listed;
    })
    after-IsAccounted call r (inr (inl m)) = inr (inl (inr m))
    after-IsAccounted call r (inr (inr (inl u))) = inr (inr (inl u))
    after-IsAccounted call r (inr (inr (inr h))) = inr (inr (inr h))

    noted-IsAccounted :
        {E A : Type 0} (call : Call be) (o : Awaited E A) (r : Run be)
        → Accounted r
        → Accounted (noted be call o r)
    noted-IsAccounted call (answered _) r h = after-IsAccounted call r h
    noted-IsAccounted call (lapsed true _) r h = after-IsAccounted call r h
    noted-IsAccounted call (lapsed false _) r h = h

    module _ (r : StateReusePlan) where
      start_reuse-IsAccounted :
          (receipt : be.Receipt) (attachment : be.Attachment)
          → be.commit_state_import adapter import receipt ctx ≡ answered (ok attachment)
          → (o : Awaited EngineError be.Stream)
          → be.start adapter plan.target request (some attachment) ctx ≡ o
          → Accounted (noted be (started (some attachment)) o (start_reuse be import plan r ctx o))
      unfolding start_reuse abort_after_context_error abort_after_engine_error
      start_reuse-IsAccounted receipt attachment commit (answered (ok stream)) e = inl (record {
        receipt = receipt;
        attachment = attachment;
        commit = commit;
        execution = _;
        returned = refl;
        labelled = refl;
        stream = e;
        listed = inl refl;
      })
      start_reuse-IsAccounted _ attachment _ (answered (err (context x))) _ =
          after-IsAccounted (started (some attachment)) _ (abort_import-IsAccounted _ _)
      start_reuse-IsAccounted _ attachment _ (answered (err _)) _ =
          after-IsAccounted (started (some attachment)) _ (abort_import-IsAccounted _ _)
      start_reuse-IsAccounted _ attachment _ (lapsed polled x) _ =
          noted-IsAccounted {E = EngineError} {A = be.Stream} (started (some attachment))
            (lapsed polled x) _ (abort_import-IsAccounted _ _)

      commit_reuse-IsAccounted :
          (receipt : be.Receipt) (o : Awaited EngineError be.Attachment)
          → be.commit_state_import adapter import receipt ctx ≡ o
          → Accounted (commit_reuse be adapter import plan r request ctx o)
      unfolding commit_reuse abort_after_context_error abort_then_fallback
      commit_reuse-IsAccounted receipt (answered (ok attachment)) e =
          start_reuse-IsAccounted receipt attachment e
            (be.start adapter plan.target request (some attachment) ctx) refl
      commit_reuse-IsAccounted _ (answered (err (context x))) _ = abort_import-IsAccounted _ _
      commit_reuse-IsAccounted _ (answered (err _)) _ = abort_import-IsAccounted _ _
      commit_reuse-IsAccounted _ (lapsed _ x) _ = abort_import-IsAccounted _ _

      materialize_reuse-IsAccounted :
          (o : Awaited StoreError be.Receipt)
          → Accounted (materialize_reuse be adapter import plan r request ctx o)
      unfolding materialize_reuse abort_after_context_error abort_then_fallback
      materialize_reuse-IsAccounted (answered (ok receipt)) =
          noted-IsAccounted (committed import receipt)
            (be.commit_state_import adapter import receipt ctx) _
            (commit_reuse-IsAccounted receipt (be.commit_state_import adapter import receipt ctx)
              refl)
      materialize_reuse-IsAccounted (answered (err (context x))) = abort_import-IsAccounted _ _
      materialize_reuse-IsAccounted (answered (err _)) = abort_import-IsAccounted _ _
      materialize_reuse-IsAccounted (lapsed _ x) = abort_import-IsAccounted _ _

      -- The import was prepared.
      prepare_reuse-IsAccounted :
          (o : Awaited EngineError be.Import)
          → o ≡ answered (ok import)
          → Accounted (
              noted be
                (prepared (from_plan r.state r.compatibility))
                o
                (prepare_reuse be adapter plan r request ctx o))
      unfolding prepare_reuse
      prepare_reuse-IsAccounted o e =
          subst
            (λ (o : Awaited EngineError be.Import). Accounted (
              noted be (prepared (from_plan r.state r.compatibility)) o
                (prepare_reuse be adapter plan r request ctx o)))
            (sym e)
            (after-IsAccounted (prepared (from_plan r.state r.compatibility)) _ (
              noted-IsAccounted (materialized import) (be.materialize r.option import ctx) _
                (materialize_reuse-IsAccounted (be.materialize r.option import ctx))))

  -- The checks of `execute`, when they pass.
  pub execute-path :
      (world : World) (plan : PlacementPlan) (request : CanonicalRequest) (ctx : OperationContext)
      → ensure_active world ctx ≡ ok tt
      → model_beq request.model plan.target.model ≡ true
      → execute be world plan request ctx
        ≡ with_adapter be
            (be.adapter_for at_start plan.target)
            (λ adapter. execute_path be adapter plan request ctx plan.path)
  unfolding execute
  execute-path world plan request ctx active same = rw (active, execute) (rw (same, execute) refl)

  path-IsAccounted :
      (plan : PlacementPlan) (request : CanonicalRequest) (ctx : OperationContext)
      (path : ExecutionPath) (r : StateReusePlan) (adapter : be.Adapter) (import : be.Import)
      → path ≡ ExecutionPath.reuse r
      → be.prepare_state_import adapter plan.target (from_plan r.state r.compatibility) ctx
        ≡ answered (ok import)
      → IsAccounted plan request ctx adapter import (execute_path be adapter plan request ctx path)
  unfolding execute_path from_plan
  path-IsAccounted plan request ctx path r adapter import planned done =
      subst
        (λ (p : ExecutionPath).
          IsAccounted plan request ctx adapter import (execute_path be adapter plan request ctx p))
        (sym planned) (prepare_reuse-IsAccounted plan request ctx adapter import r _ done)

  -- When the context is active, the request's model is the target's, the registry has an adapter and
  -- the engine prepares the import of a planned reuse, then whatever the store, the engine, the
  -- registry and the contexts answer afterwards, one of these holds: the import was committed, the
  -- engine started the request with the attachment that the commit gave, and the run returns that
  -- stream labelled as a reuse; or the run called the import's abort; or the cleanup's context ended
  -- before the abort's first poll and the run fails with a failed cleanup; or the registry failed to
  -- give an adapter for the abort and the run fails with that error.
  pub prepared-IsAccounted :
      (world : World) (plan : PlacementPlan) (request : CanonicalRequest) (ctx : OperationContext)
      (r : StateReusePlan) (adapter : be.Adapter) (import : be.Import)
      → ensure_active world ctx ≡ ok tt
      → model_beq request.model plan.target.model ≡ true
      → be.adapter_for at_start plan.target ≡ ok adapter
      → plan.path ≡ ExecutionPath.reuse r
      → be.prepare_state_import adapter plan.target (from_plan r.state r.compatibility) ctx
        ≡ answered (ok import)
      → IsAccounted plan request ctx adapter import (execute be world plan request ctx)
  unfolding with_adapter
  prepared-IsAccounted world plan request ctx r adapter import active same found path done =
      subst (IsAccounted plan request ctx adapter import)
        (sym (execute-path world plan request ctx active same))
        (subst
          (λ (o : Result EngineError be.Adapter).
            IsAccounted plan request ctx adapter import
              (with_adapter be o (λ a. execute_path be a plan request ctx plan.path)))
          (sym found) (path-IsAccounted plan request ctx plan.path r adapter import path done))
