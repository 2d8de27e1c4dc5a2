-- ===== src/Examples/Planner.antt =====
-- crates/planner/src/lib.rs: one engine that can take a request cold, reuse a state of the store "up",
-- or reuse one of the store "down", which is unavailable; the policy forbids a cold degradation.
use locus.Base.{ℕ, ◌≤◌, ◌≡◌, refl, ◌↔◌, inl, true, false, none, some, String, [], ◌∷◌, string_key}
use locus.Base.Dict.{lookup, contains_key}
use locus.Base.Results.{ok, err}
use locus.Base.Words.{saturate}
use locus.Core.Identity.{
  EngineInstanceRef, ModelExecutionIdentity, ExecutionTarget, SemanticComponentIdentity,
  token_sequence, fresh, CanonicalRequest, CompatibilityResult, compatible, StateDescriptor,
  MaterializationOption, model_beq, engine_beq, input_semantics_beq, satisfies, is_compatible,
}
use locus.Planner.{
  ExecutionPath, ExecutionEstimate, StatePathCandidate, PlanningCandidate, replan, PlanningInput,
  PlacementPlan, FeasiblePath, is_better_than, cost_for, consider, skips_candidate, skips_path,
  cold_path, reuse_path, visit_path, visit_paths, visit_candidate, visit_candidates, finish, plan,
  total_micros, no_feasible_candidate, is_cold, StateReusePlan,
}
use locus.Planner.Optimal.{IsFeasible, by_cold}
use locus.Planner.Sound.{
  plan_of, plan-IsFeasible, plan_optimal, plan_none_iff, plan_outage-not_cold,
}

abbrev pub model_m : ModelExecutionIdentity
model_m = record { model_revision = "m1"; adapter_revision = none; execution_profile = "p" }

abbrev pub engine_e : EngineInstanceRef
engine_e = record { id = "e"; generation = 3 }

abbrev pub target_x : ExecutionTarget
target_x = record {
  id = "x";
  engine = engine_e;
  model = model_m;
  residency = "r";
  capability_revision = "1";
}

abbrev part : String → SemanticComponentIdentity
part kind = record { kind = kind; revision = "1"; fingerprint = "f" }

abbrev pub request_q : CanonicalRequest
request_q = record {
  id = "q";
  model = model_m;
  input_semantics = record {
    tokenizer = part "tok";
    template = part "tpl";
    multimodal_preprocessing = none;
  };
  items = [];
  max_output_tokens = some 16;
  requirements = record {
    input_kinds = token_sequence ∷ [];
    requires_incremental_output = true;
    requires_reasoning_deltas = false;
    requires_tool_calls = false;
    requires_structured_output = false;
  };
}

abbrev estimate : ℕ → ExecutionEstimate
estimate prefill = record {
  unmatched_prefill_micros = prefill;
  decode_micros = 100;
  topology_micros = 0;
  policy_micros = 0;
}

abbrev pub state_in : String → StateDescriptor
state_in store = record {
  id = "s";
  store = store;
  kind = "kv";
  model = model_m;
  relevant_input_semantics = none;
  covered_components = [];
}

abbrev pub option_in : String → MaterializationOption
option_in store = record {
  id = "o";
  store = store;
  source_state = "s";
  target_id = "x";
  target_engine = engine_e;
  state_kind = "kv";
  estimated_transfer_micros = 40;
}

abbrev fits_well : CompatibilityResult
fits_well = record {
  verdict = compatible;
  checked_dimensions = [];
  evidence = [];
  required_conversion = none;
}

abbrev pub path_in : String → StatePathCandidate
path_in store = record {
  state = state_in store;
  compatibility = fits_well;
  option = option_in store;
  materialization_estimate_micros = some 50;
  estimate = estimate 10;
}

abbrev pub reuse_up : StateReusePlan
reuse_up = record { state = state_in "up"; compatibility = fits_well; option = option_in "up" }

abbrev pub candidate_x : PlanningCandidate
candidate_x = record {
  target = target_x;
  capabilities = record {
    supported_input_kinds = token_sequence ∷ [];
    emits_token_deltas = true;
    emits_text_deltas = false;
    emits_reasoning_deltas = false;
    emits_tool_calls = false;
    supports_structured_output = false;
    supported_state_kinds = "kv" ∷ [];
  };
  snapshot = record {
    target_id = "x";
    ready = true;
    telemetry_status = fresh;
    observed_at_unix_millis = 0;
    valid_until_unix_millis = 1000;
    running_requests = none;
    waiting_requests = none;
    estimated_queue_micros = some 5;
    prefill_tokens_per_second = none;
    decode_tokens_per_second = none;
  };
  cold_estimate = estimate 900;
  state_paths = path_in "down" ∷ path_in "up" ∷ [];
}

abbrev pub strict_input : PlanningInput
strict_input = record {
  request = request_q;
  candidates = candidate_x ∷ [];
  unavailable_stores = ("down", "connection refused") ∷ [];
  policy = record { allow_cold_on_store_outage = false; import_failure_fallback = replan };
}

abbrev pub reuse_plan : PlacementPlan
reuse_plan = plan_of strict_input (reuse_path strict_input candidate_x (path_in "up"))

reuse_planned : plan strict_input ≡ ok reuse_plan
unfolding plan visit_candidates visit_candidate visit_paths visit_path skips_candidate skips_path
    consider is_better_than total_micros cost_for cold_path reuse_path finish model_beq engine_beq
    input_semantics_beq satisfies is_compatible contains_key lookup saturate
reuse_planned = refl

plan-IsFeasible_example :
    (f : FeasiblePath) × IsFeasible strict_input f × (reuse_plan ≡ plan_of strict_input f)
plan-IsFeasible_example = plan-IsFeasible strict_input reuse_plan reuse_planned

cold-IsFeasible : IsFeasible strict_input (cold_path candidate_x)
unfolding skips_candidate model_beq satisfies
cold-IsFeasible = by_cold candidate_x (inl refl) refl refl

plan_optimal_example :
    total_micros reuse_plan.predicted_cost ≤ total_micros (cold_path candidate_x).cost
plan_optimal_example =
    plan_optimal strict_input reuse_plan (cold_path candidate_x) reuse_planned cold-IsFeasible

plan_none_iff_example :
    (plan strict_input ≡ err no_feasible_candidate)
    ↔ (¬ ((f : FeasiblePath) × IsFeasible strict_input f))
plan_none_iff_example = plan_none_iff strict_input

plan_outage-not_cold_example : is_cold reuse_plan.path ≡ false
unfolding skips_candidate model_beq satisfies contains_key
plan_outage-not_cold_example =
    plan_outage-not_cold strict_input reuse_plan candidate_x (path_in "down") reuse_planned
      (inl refl) refl (inl refl) refl refl

abbrev pub cold_plan : PlacementPlan
cold_plan = record {
  target = target_x;
  path = ExecutionPath.cold;
  predicted_cost = record {
    queue_micros = 5;
    unmatched_prefill_micros = 900;
    state_materialization_micros = 0;
    decode_micros = 100;
    topology_micros = 0;
    policy_micros = 0;
  };
  fallback = replan;
  rationale = [];
}
