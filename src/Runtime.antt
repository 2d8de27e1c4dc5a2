-- ===== src/Runtime.antt =====
-- crates/runtime/src/lib.rs: how the service makes the planner's input, and the audit of its paths. What
-- the adapters and the store answer to each call is an argument.
pub mod Audit
pub mod Planning
pub mod Inputs
pub mod Discovered
pub mod Offers
use locus.Base.{
  ℕ, ◌-◌, ◌+◌, ◌%◌, Bool, true, false, not, ◌&&◌, ◌||◌, Option, none, some, String, List, [], ◌∷◌,
  ◌++◌, map, if◌then◌else◌, ◌==◌, ◌≺◌, string_key, is_some_and, unwrap_or,
}
use locus.Base.Dict.{Dict, contains_key, insert}
use locus.Base.Lists.{any, length, sum_of, is_empty, sort}
use locus.Base.Results.{Result, ok, err, ◌>>=◌, map_err}
use locus.Base.Words.{saturating_mul, u64_mod}
use locus.Core.Identity.{
  ExecutionTarget, EngineCapabilities, EngineSnapshot, CanonicalRequest, InputItemValue,
  CompatibilityVerdict, CompatibilityResult, StateDescriptor, MaterializationOption, tokens, other,
  is_compatible, satisfies, model_beq, engine_beq, input_semantics_beq,
}
use locus.Engine.{Adapter}
use locus.Executor.{EngineError, StoreError, unavailable}
use locus.Planner.{
  CostBreakdown, ExecutionEstimate, StatePathCandidate, PlanningCandidate, RoutingPolicy,
  PlanningInput,
}

-- The errors that these functions return.
pub data InferenceError : Type 0 where
  engine : EngineError → InferenceError
  store : StoreError → InferenceError
  discovery : List EngineError → InferenceError

unfoldable pub compatible_result : String → CompatibilityResult
compatible_result evidence = record {
  verdict = CompatibilityVerdict.compatible;
  checked_dimensions = "model_execution" ∷ "input_semantics" ∷ [];
  evidence = evidence ∷ [];
  required_conversion = none;
}

unfoldable pub incompatible_result : String → CompatibilityResult
incompatible_result evidence = record {
  verdict = CompatibilityVerdict.incompatible;
  checked_dimensions = "model_execution" ∷ "input_semantics" ∷ [];
  evidence = evidence ∷ [];
  required_conversion = none;
}

unfoldable pub compatibility_for : StateDescriptor → CanonicalRequest → CompatibilityResult
unfolding compatible_result incompatible_result model_beq input_semantics_beq
compatibility_for state request =
    if not (model_beq state.model request.model)
    then incompatible_result "model execution identity mismatch"
    else elim state.relevant_input_semantics [
      | some identity ↦
          if not (input_semantics_beq identity request.input_semantics)
          then incompatible_result "input semantic identity mismatch"
          else compatible_result "model and input semantics match"
      | none ↦ record {
        verdict = CompatibilityVerdict.unknown;
        checked_dimensions = "model_execution" ∷ [];
        evidence = "store omitted input semantic identity" ∷ [];
        required_conversion = none;
      }
    ]

abbrev pub token_count : InputItemValue → ℕ
token_count (tokens ids) = length ids
token_count (other kind) = 0

unfoldable pub input_token_count : CanonicalRequest → ℕ
input_token_count request = sum_of token_count request.items % u64_mod

unfoldable pub cold_estimate : CanonicalRequest → ExecutionEstimate
unfolding input_token_count
cold_estimate request = record {
  unmatched_prefill_micros = saturating_mul (input_token_count request) 10;
  decode_micros = saturating_mul (unwrap_or 16 request.max_output_tokens) 20;
  topology_micros = 0;
  policy_micros = 0;
}

unfoldable pub reuse_estimate : StateDescriptor → CanonicalRequest → ExecutionEstimate
unfolding cold_estimate
reuse_estimate state request = record (cold_estimate request) {
  unmatched_prefill_micros =
      saturating_mul
        (input_token_count request
          - sum_of (λ c. c.covered_units) state.covered_components % u64_mod)
        10;
}

-- `if excluded { reasons.push(text) }`.
abbrev pub reason : Bool → String → List String → List String
reason true text rest = text ∷ rest
reason false text rest = rest

unfoldable pub candidate_exclusions : PlanningInput → PlanningCandidate → List String
candidate_exclusions input c =
    reason (not (model_beq c.target.model input.request.model)) "model_identity_mismatch" (
      reason (not (c.snapshot.target_id == c.target.id)) "snapshot_target_mismatch" (
        reason (not c.snapshot.ready) "target_not_ready" (
          reason (not (satisfies c.capabilities input.request.requirements)) "capability_mismatch"
            [])))

unfoldable pub state_path_exclusions :
    PlanningInput → PlanningCandidate → StatePathCandidate → List String
state_path_exclusions input c p =
    reason (contains_key p.option.store input.unavailable_stores) "store_unavailable" (
      reason (not (is_compatible p.compatibility)) "state_incompatible" (
        reason (not (p.state.store == p.option.store)) "store_mismatch" (
          reason (not (p.state.id == p.option.source_state)) "source_state_mismatch" (
            reason (not (p.state.kind == p.option.state_kind)) "state_kind_mismatch" (
              reason (not (model_beq p.state.model input.request.model)) "state_model_mismatch" (
                reason (not (p.option.target_id == c.target.id)) "state_target_mismatch" (
                  reason (not (engine_beq p.option.target_engine c.target.engine))
                    "state_engine_generation_mismatch"
                    (reason
                      (not (any (λ k. k == p.state.kind) c.capabilities.supported_state_kinds))
                      "state_kind_unsupported"
                      (reason
                        (is_some_and p.state.relevant_input_semantics (λ identity.
                          not (input_semantics_beq identity input.request.input_semantics)))
                        "state_input_semantics_mismatch" [])))))))))

unfoldable pub audit_cost : ℕ → ExecutionEstimate → ℕ → CostBreakdown
audit_cost queue_micros estimate materialization_micros = record {
  queue_micros = queue_micros;
  unmatched_prefill_micros = estimate.unmatched_prefill_micros;
  state_materialization_micros = materialization_micros;
  decode_micros = estimate.decode_micros;
  topology_micros = estimate.topology_micros;
  policy_micros = estimate.policy_micros;
}

pub record DiscoveredTarget : Type 0 where
  pub target : ExecutionTarget
  pub capabilities : EngineCapabilities
  pub snapshot : EngineSnapshot

-- What the adapters answer.
pub record Engines : Type 0 where
  pub execution_targets : Adapter → Result EngineError (List ExecutionTarget)
  pub capabilities : Adapter → ExecutionTarget → Result EngineError EngineCapabilities
  pub snapshot : Adapter → ExecutionTarget → Result EngineError EngineSnapshot

abbrev pub Found : Type 0
Found = List DiscoveredTarget × List EngineError

-- One target of an adapter: found, failed, or of another model.
unfoldable pub discover_target :
    Engines → CanonicalRequest → Adapter → ExecutionTarget → Found → Found
discover_target engines request adapter target (discovered, failures) =
    if not (model_beq target.model request.model)
    then (discovered, failures)
    else elim (engines.capabilities adapter target) [
      | err e ↦ (discovered, failures ++ e ∷ [])
      | ok capabilities ↦ elim (engines.snapshot adapter target) [
        | err e ↦ (discovered, failures ++ e ∷ [])
        | ok snapshot ↦ (
          discovered
              ++ record { target = target; capabilities = capabilities; snapshot = snapshot } ∷ [],
          failures,
        )
      ]
    ]

unfoldable pub discover_targets :
    Engines → CanonicalRequest → Adapter → List ExecutionTarget → Found → Found
unfolding discover_target
discover_targets engines request adapter [] found = found
discover_targets engines request adapter (t ∷ ts) found =
    discover_targets engines request adapter ts (discover_target engines request adapter t found)

unfoldable pub discover_adapters : Engines → CanonicalRequest → List Adapter → Found → Found
unfolding discover_targets
discover_adapters engines request [] found = found
discover_adapters engines request (a ∷ as_) found =
    discover_adapters engines request as_ (elim (engines.execution_targets a) [
      | err e ↦ (found.0, found.1 ++ e ∷ [])
      | ok targets ↦ discover_targets engines request a targets found
    ])

abbrev pub by_target_id : DiscoveredTarget → DiscoveredTarget → Bool
by_target_id a b = not (b.target.id ≺ a.target.id)

-- `EngineTargetDiscovery::discover`, with the registry's answer to `routable_adapters`.
unfoldable pub discover :
    Engines
    → CanonicalRequest
    → Result EngineError (List Adapter)
    → Result InferenceError (List DiscoveredTarget)
unfolding discover_adapters
discover engines request (err e) = err (engine e)
discover engines request (ok adapters) =
    let found = discover_adapters engines request adapters ([], []) in
    if is_empty found.0 && not (is_empty found.1)
    then err (discovery found.1)
    else ok (sort by_target_id found.0)
