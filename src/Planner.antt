-- ===== src/Planner.antt =====
-- crates/planner/src/lib.rs: the cost-based planner.
pub mod Optimal
pub mod Sound
use Prim.Native.String.{◌++◌ as append}
use locus.Base.{
  ℕ, ◌+◌, ◌≤◌, ◌≡◌, Bool, true, false, ◌&&◌, ◌||◌, not, Option, none, some, String, List, [], ◌∷◌,
  nat_beq, ltb, if◌then◌else◌, is_some_and, is_none_or, unwrap_or, ◌==◌, ◌≺◌, Key, string_key,
}
use locus.Base.Dict.{Dict, contains_key}
use locus.Base.Lists.{any}
use locus.Base.Results.{Result, ok, err}
use locus.Base.Words.{saturating_add, u64_max}
use locus.Core.Identity.{
  ExecutionTarget, EngineCapabilities, EngineSnapshot, CanonicalRequest, CompatibilityResult,
  StateDescriptor, MaterializationOption, is_compatible, satisfies, model_beq, engine_beq,
  input_semantics_beq,
}

pub record CostBreakdown : Type 0 where
  pub queue_micros : ℕ
  pub unmatched_prefill_micros : ℕ
  pub state_materialization_micros : ℕ
  pub decode_micros : ℕ
  pub topology_micros : ℕ
  pub policy_micros : ℕ

unfoldable pub total_micros : CostBreakdown → ℕ
total_micros c =
    saturating_add
      (saturating_add
        (saturating_add
          (saturating_add (saturating_add c.queue_micros c.unmatched_prefill_micros)
            c.state_materialization_micros)
          c.decode_micros)
        c.topology_micros)
      c.policy_micros

pub record ExecutionEstimate : Type 0 where
  pub unmatched_prefill_micros : ℕ
  pub decode_micros : ℕ
  pub topology_micros : ℕ
  pub policy_micros : ℕ

pub record StatePathCandidate : Type 0 where
  pub state : StateDescriptor
  pub compatibility : CompatibilityResult
  pub option : MaterializationOption
  pub materialization_estimate_micros : Option ℕ
  pub estimate : ExecutionEstimate

pub record PlanningCandidate : Type 0 where
  pub target : ExecutionTarget
  pub capabilities : EngineCapabilities
  pub snapshot : EngineSnapshot
  pub cold_estimate : ExecutionEstimate
  pub state_paths : List StatePathCandidate

pub data FallbackAction : Type 0 where
  cold_on_same_target replan fail : FallbackAction

pub record RoutingPolicy : Type 0 where
  pub allow_cold_on_store_outage : Bool
  pub import_failure_fallback : FallbackAction

pub record PlanningInput : Type 0 where
  pub request : CanonicalRequest
  pub candidates : List PlanningCandidate
  pub unavailable_stores : Dict String String
  pub policy : RoutingPolicy

pub record StateReusePlan : Type 0 where
  pub state : StateDescriptor
  pub compatibility : CompatibilityResult
  pub option : MaterializationOption

pub data ExecutionPath : Type 0 where
  cold : ExecutionPath
  reuse : StateReusePlan → ExecutionPath

pub record PlacementPlan : Type 0 where
  pub target : ExecutionTarget
  pub path : ExecutionPath
  pub predicted_cost : CostBreakdown
  pub fallback : FallbackAction
  pub rationale : List String

pub record FeasiblePath : Type 0 where
  pub target : ExecutionTarget
  pub path : ExecutionPath
  pub cost : CostBreakdown
  pub fallback : FallbackAction
  pub stable_key : String
  pub rationale : List String

pub data PlanningError : Type 0 where
  no_feasible_candidate store_unavailable : PlanningError

unfoldable pub is_better_than : FeasiblePath → FeasiblePath → Bool
unfolding total_micros
is_better_than a b =
    ltb (total_micros a.cost) (total_micros b.cost)
    || (nat_beq (total_micros a.cost) (total_micros b.cost) && a.stable_key ≺ b.stable_key)

unfoldable pub cost_for : ℕ → ExecutionEstimate → ℕ → CostBreakdown
cost_for queue_micros estimate state_materialization_micros = record {
  queue_micros = queue_micros;
  unmatched_prefill_micros = estimate.unmatched_prefill_micros;
  state_materialization_micros = state_materialization_micros;
  decode_micros = estimate.decode_micros;
  topology_micros = estimate.topology_micros;
  policy_micros = estimate.policy_micros;
}

unfoldable pub consider : Option FeasiblePath → FeasiblePath → Option FeasiblePath
consider best candidate =
    if is_none_or best (λ current. is_better_than candidate current) then some candidate else best

-- The tests by which a candidate is skipped.
unfoldable pub skips_candidate : PlanningInput → PlanningCandidate → Bool
skips_candidate input c =
    not (model_beq c.target.model input.request.model)
    || not (c.snapshot.target_id == c.target.id)
    || not c.snapshot.ready
    || not (satisfies c.capabilities input.request.requirements)

-- The tests by which a state path is skipped.
unfoldable pub skips_path : PlanningInput → PlanningCandidate → StatePathCandidate → Bool
skips_path input c p =
    not (is_compatible p.compatibility)
    || not (p.state.store == p.option.store)
    || not (p.state.id == p.option.source_state)
    || not (p.state.kind == p.option.state_kind)
    || not (model_beq p.state.model input.request.model)
    || not (p.option.target_id == c.target.id)
    || not (engine_beq p.option.target_engine c.target.engine)
    || not (any (λ k. k == p.state.kind) c.capabilities.supported_state_kinds)
    || is_some_and p.state.relevant_input_semantics
        (λ identity. not (input_semantics_beq identity input.request.input_semantics))

abbrev pub queue_of : PlanningCandidate → ℕ
queue_of c = unwrap_or u64_max c.snapshot.estimated_queue_micros

unfoldable pub cold_path : PlanningCandidate → FeasiblePath
cold_path c = record {
  target = c.target;
  path = cold;
  cost = cost_for (queue_of c) c.cold_estimate 0;
  fallback = fail;
  stable_key = append c.target.id ":0:cold";
  rationale = "feasible cold execution path" ∷ [];
}

unfoldable pub reuse_path : PlanningInput → PlanningCandidate → StatePathCandidate → FeasiblePath
reuse_path input c p = record {
  target = c.target;
  path = reuse (record { state = p.state; compatibility = p.compatibility; option = p.option });
  cost =
      cost_for (queue_of c) p.estimate
        (unwrap_or p.option.estimated_transfer_micros p.materialization_estimate_micros);
  fallback = input.policy.import_failure_fallback;
  stable_key = append c.target.id (append ":1:" (append p.state.id (append ":" p.option.id)));
  rationale = "compatible state path passed correctness and capability filters" ∷ [];
}

abbrev pub Search : Type 0
Search = Option FeasiblePath × Bool

-- One state path of a candidate: the best path so far and whether an unavailable one was seen.
unfoldable pub visit_path : PlanningInput → PlanningCandidate → Search → StatePathCandidate → Search
visit_path input c (best, unavailable_path_seen) p =
    if contains_key p.option.store input.unavailable_stores
    then (best, true)
    else if skips_path input c p
    then (best, unavailable_path_seen)
    else (consider best (reuse_path input c p), unavailable_path_seen)

unfoldable pub visit_paths :
    PlanningInput → PlanningCandidate → Search → List StatePathCandidate → Search
visit_paths input c s [] = s
visit_paths input c s (p ∷ rest) = visit_paths input c (visit_path input c s p) rest

unfoldable pub visit_candidate : PlanningInput → Search → PlanningCandidate → Search
visit_candidate input s c =
    if skips_candidate input c
    then s
    else visit_paths input c (consider s.0 (cold_path c), s.1) c.state_paths

unfoldable pub visit_candidates : PlanningInput → Search → List PlanningCandidate → Search
visit_candidates input s [] = s
visit_candidates input s (c ∷ rest) = visit_candidates input (visit_candidate input s c) rest

abbrev pub is_cold : ExecutionPath → Bool
is_cold cold = true
is_cold (reuse _) = false

unfoldable pub finish : PlanningInput → Search → Result PlanningError PlacementPlan
finish input (none, unavailable_path_seen) = err no_feasible_candidate
finish input (some selected, unavailable_path_seen) =
    if unavailable_path_seen && not input.policy.allow_cold_on_store_outage && is_cold selected.path
    then err store_unavailable
    else ok (record {
      target = selected.target;
      path = selected.path;
      predicted_cost = selected.cost;
      fallback = selected.fallback;
      rationale = selected.rationale;
    })

unfoldable pub plan : PlanningInput → Result PlanningError PlacementPlan
plan input = finish input (visit_candidates input (none, false) input.candidates)
