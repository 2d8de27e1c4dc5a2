-- ===== src/Runtime/Planning.antt =====
-- crates/runtime/src/lib.rs: `planning_input`. The requirement that `lookup` is given is made of the
-- request and of the kinds of state that the candidates accept; the store's answers are an argument.
use locus.Base.{
  Bool, true, not, none, String, List, [], ◌∷◌, ◌++◌, map, if◌then◌else◌, ◌==◌, string_key,
}
use locus.Base.Dict.{Dict, insert}
use locus.Base.Lists.{any, is_empty}
use locus.Base.Results.{Result, ok, err, ◌>>=◌, map_err}
use locus.Core.Identity.{
  ExecutionTarget, CanonicalRequest, StateDescriptor, MaterializationOption, is_compatible,
}
use locus.Executor.{StoreError, unavailable}
use locus.Planner.{StatePathCandidate, PlanningCandidate, RoutingPolicy, PlanningInput}
use locus.Runtime.{
  InferenceError, store, DiscoveredTarget, compatibility_for, cold_estimate, reuse_estimate,
}

pub record Store : Type 0 where
  pub identity : String
  pub lookup : CanonicalRequest → List String → Result StoreError (List StateDescriptor)
  pub estimate : StateDescriptor → ExecutionTarget → Result StoreError (List MaterializationOption)

-- The stores that did not answer, each with its reason.
abbrev pub Observation : Type 0
Observation = Dict String String

-- An answer of the store: an outage counts as none found, and is recorded.
unfoldable pub answered {ℓ} :
    {A : Type ℓ}
    → Store
    → Observation
    → Result StoreError (List A)
    → Result StoreError (List A × Observation)
answered s seen (ok found) = ok (found, seen)
answered s seen (err (unavailable why)) = ok ([], insert s.identity why seen)
answered s seen (err e) = err e

abbrev pub path_of : CanonicalRequest → StateDescriptor → MaterializationOption → StatePathCandidate
path_of request state option = record {
  state = state;
  compatibility = compatibility_for state request;
  option = option;
  materialization_estimate_micros = none;
  estimate = reuse_estimate state request;
}

-- Whether the loop over the states goes on to the next one.
unfoldable pub skips_state : CanonicalRequest → DiscoveredTarget → StateDescriptor → Bool
unfolding compatibility_for
skips_state request d state =
    if any (λ k. k == state.kind) d.capabilities.supported_state_kinds
    then not (is_compatible (compatibility_for state request))
    else true

-- The paths of one target, in the order of the states and of their options.
unfoldable pub state_paths_of :
    Store
    → CanonicalRequest
    → DiscoveredTarget
    → List StateDescriptor
    → Observation
    → Result StoreError (List StatePathCandidate × Observation)
unfolding answered skips_state
state_paths_of s request d [] seen = ok ([], seen)
state_paths_of s request d (state ∷ states) seen =
    let later : Observation → Result StoreError (List StatePathCandidate × Observation) =
      λ seen. state_paths_of s request d states seen in
    if skips_state request d state then later seen else do
      found ← answered s seen (s.estimate state d.target)
      rest ← later found.1
      ok (map (path_of request state) found.0 ++ rest.0, rest.1)

unfoldable pub candidates_of :
    Store
    → CanonicalRequest
    → List StateDescriptor
    → List DiscoveredTarget
    → Observation
    → Result StoreError (List PlanningCandidate × Observation)
unfolding state_paths_of
candidates_of s request states [] seen = ok ([], seen)
candidates_of s request states (d ∷ ds) seen = do
  paths ← state_paths_of s request d states seen
  rest ← candidates_of s request states ds paths.1
  ok (
    record {
      target = d.target;
      capabilities = d.capabilities;
      snapshot = d.snapshot;
      cold_estimate = cold_estimate request;
      state_paths = paths.0;
    }
        ∷ rest.0,
    rest.1,
  )

abbrev pub accepted_kinds : List DiscoveredTarget → List String
accepted_kinds [] = []
accepted_kinds (d ∷ ds) = d.capabilities.supported_state_kinds ++ accepted_kinds ds

unfoldable pub known_states :
    Store
    → CanonicalRequest
    → List DiscoveredTarget
    → Result StoreError (List StateDescriptor × Observation)
unfolding answered
known_states s request discovered =
    if is_empty (accepted_kinds discovered)
    then ok ([], [])
    else answered s [] (s.lookup request (accepted_kinds discovered))

-- `planning_input`, with what discovery answers.
unfoldable pub planning_input :
    Store
    → CanonicalRequest
    → RoutingPolicy
    → Result InferenceError (List DiscoveredTarget)
    → Result InferenceError PlanningInput
unfolding known_states candidates_of
planning_input s request policy discovery = do
  discovered ← discovery
  states ← map_err store (known_states s request discovered)
  candidates ← map_err store (candidates_of s request states.0 discovered states.1)
  ok (record {
    request = request;
    candidates = candidates.0;
    unavailable_stores = candidates.1;
    policy = policy;
  })
