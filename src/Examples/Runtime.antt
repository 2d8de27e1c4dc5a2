-- ===== src/Examples/Runtime.antt =====
-- crates/runtime/src/lib.rs: one adapter with one target, and a store with one state for it.
use locus.Base.{◌≡◌, refl, true, false, some, [], ◌∷◌, inl, ◌↔◌, ◌||◌, string_key}
use locus.Base.Dict.{contains_key}
use locus.Base.Lists.{sort}
use locus.Base.Results.{ok}
use locus.Core.Identity.{StateDescriptor, model_beq, is_compatible}
use locus.Engine.{Adapter}
use locus.Planner.{PlanningInput, PlanningCandidate, skips_candidate, skips_path}
use locus.Runtime.{Engines, candidate_exclusions, state_path_exclusions, discover, cold_estimate}
use locus.Runtime.Planning.{Store, path_of, planning_input}
use locus.Runtime.Inputs.{Fits}
use locus.Runtime.Audit.{exclusions-skips}
use locus.Runtime.Offers.{planning_input-model, planning_input-Fits}
use locus.Examples.Planner.{
  target_x, request_q, state_in, option_in, candidate_x, path_in, strict_input,
}

abbrev adapter : Adapter
adapter = record { handle = 1; reference = target_x.engine }

abbrev engines : Engines
engines = record {
  execution_targets = λ a. ok (target_x ∷ []);
  capabilities = λ a t. ok candidate_x.capabilities;
  snapshot = λ a t. ok candidate_x.snapshot;
}

abbrev state : StateDescriptor
state = record (state_in "up") { relevant_input_semantics = some request_q.input_semantics }

abbrev store_up : Store
store_up = record {
  identity = "up";
  lookup = λ q kinds. ok (state ∷ []);
  estimate = λ s t. ok (option_in "up" ∷ []);
}

abbrev offered : PlanningCandidate
offered = record candidate_x {
  cold_estimate = cold_estimate request_q;
  state_paths = path_of request_q state (option_in "up") ∷ [];
}

abbrev input : PlanningInput
input = record {
  request = request_q;
  candidates = offered ∷ [];
  unavailable_stores = [];
  policy = strict_input.policy;
}

made :
    planning_input store_up request_q strict_input.policy
      (discover engines request_q (ok (adapter ∷ [])))
    ≡ ok input
unfolding planning_input discover sort is_compatible
made = refl

exclusions-skips_example :
    ((candidate_exclusions strict_input candidate_x ≡ [])
      ↔ (skips_candidate strict_input candidate_x ≡ false))
    × ((state_path_exclusions strict_input candidate_x (path_in "down") ≡ []) ↔ (
        (contains_key "down" strict_input.unavailable_stores
          || skips_path strict_input candidate_x (path_in "down"))
        ≡ false))
exclusions-skips_example = exclusions-skips strict_input candidate_x (path_in "down")

planning_input-model_example : model_beq target_x.model request_q.model ≡ true
planning_input-model_example =
    planning_input-model store_up engines request_q strict_input.policy (ok (adapter ∷ [])) input
      offered made (inl refl)

planning_input-Fits_example : Fits request_q ("kv" ∷ []) (path_of request_q state (option_in "up"))
planning_input-Fits_example =
    planning_input-Fits store_up request_q strict_input.policy
      (discover engines request_q (ok (adapter ∷ []))) input offered
      (path_of request_q state (option_in "up")) made (inl refl) (inl refl)
