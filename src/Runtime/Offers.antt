-- ===== src/Runtime/Offers.antt =====
-- crates/runtime/src/lib.rs: the planner's input offers only targets and states that fit the request.
use locus.Base.{◌≡◌, sym, ap, ◌∙◌, subst, true, List, arith, string_key}
use locus.Base.Lists.{Member}
use locus.Base.Results.{Result, ok, map_err, bind-ok, map_err-ok}
use locus.Core.Identity.{
  ExecutionTarget, EngineCapabilities, CanonicalRequest, StateDescriptor, model_beq,
}
use locus.Engine.{Adapter}
use locus.Executor.{EngineError}
use locus.Planner.{StatePathCandidate, PlanningCandidate, RoutingPolicy, PlanningInput}
use locus.Runtime.{InferenceError, store, DiscoveredTarget, Engines, discover}
use locus.Runtime.Planning.{Store, Observation, candidates_of, known_states, planning_input}
use locus.Runtime.Inputs.{Fits, ComesFrom, candidates_of-ComesFrom, state_paths_of-Fits}
use locus.Runtime.Discovered.{IsOfModel-Member, discover-IsOfModel}

-- What a successful `planning_input` was made of.
record MadeOf (s : Store) (request : CanonicalRequest)
    (ds : Result InferenceError (List DiscoveredTarget)) (input : PlanningInput) : Type 0 where
  discovered : List DiscoveredTarget
  answer : ds ≡ ok discovered
  states : List StateDescriptor × Observation
  candidates : List PlanningCandidate × Observation
  computed : candidates_of s request states.0 discovered states.1 ≡ ok candidates
  same_request : input.request ≡ request
  same_candidates : input.candidates ≡ candidates.0

planning_input-MadeOf :
    (s : Store) (request : CanonicalRequest) (policy : RoutingPolicy)
    (ds : Result InferenceError (List DiscoveredTarget)) (input : PlanningInput)
    → planning_input s request policy ds ≡ ok input
    → MadeOf s request ds input
unfolding planning_input
planning_input-MadeOf s request policy ds input h =
    let (discovered, answer, h1) = bind-ok ds _ input h in
    let (states, known, h2) =
      bind-ok (map_err store (known_states s request discovered)) _ input h1 in
    let (candidates, made, h3) =
      bind-ok (map_err store (candidates_of s request states.0 discovered states.1)) _ input h2 in
    let whole : PlanningInput = record {
      request = request;
      candidates = candidates.0;
      unavailable_stores = candidates.1;
      policy = policy;
    } in
    let same : whole ≡ input = ground arith in
    record {
      discovered = discovered;
      answer = answer;
      states = states;
      candidates = candidates;
      computed =
          map_err-ok store (candidates_of s request states.0 discovered states.1) candidates made;
      same_request = ap (λ (x : PlanningInput). x.request) (sym same);
      same_candidates = ap (λ (x : PlanningInput). x.candidates) (sym same);
    }

origin_of :
    (s : Store) (request : CanonicalRequest) (ds : Result InferenceError (List DiscoveredTarget))
    (input : PlanningInput) (c : PlanningCandidate) (made : MadeOf s request ds input)
    → Member c input.candidates
    → ComesFrom s request made.states.0 made.discovered c
origin_of s request ds input c made m =
    candidates_of-ComesFrom s request made.states.0 made.discovered made.states.1 made.candidates c
      made.computed (subst (Member c) made.same_candidates m)

-- Every candidate that the service gives the planner, with what `discover` found, has a target of the
-- model of the input's request.
pub planning_input-model :
    (s : Store) (engines : Engines) (request : CanonicalRequest) (policy : RoutingPolicy)
    (r : Result EngineError (List Adapter)) (input : PlanningInput) (c : PlanningCandidate)
    → planning_input s request policy (discover engines request r) ≡ ok input
    → Member c input.candidates
    → model_beq c.target.model input.request.model ≡ true
planning_input-model s engines request policy r input c h m =
    let made = planning_input-MadeOf s request policy (discover engines request r) input h in
    let from = origin_of s request (discover engines request r) input c made m in
    let right =
      IsOfModel-Member request made.discovered from.origin
        (discover-IsOfModel engines request r made.discovered made.answer) from.found in
    ap (λ (t : ExecutionTarget). model_beq t.model input.request.model) from.same_target
    ∙ ap (λ (q : CanonicalRequest). model_beq from.origin.target.model q.model) made.same_request
    ∙ right

-- Every state path that the service gives the planner has a state of a kind that the candidate's engine
-- supports, of the request's model and input semantics, a compatible verdict, and the estimate for what
-- the state does not cover.
pub planning_input-Fits :
    (s : Store) (request : CanonicalRequest) (policy : RoutingPolicy)
    (ds : Result InferenceError (List DiscoveredTarget)) (input : PlanningInput)
    (c : PlanningCandidate) (p : StatePathCandidate)
    → planning_input s request policy ds ≡ ok input
    → Member c input.candidates
    → Member p c.state_paths
    → Fits input.request c.capabilities.supported_state_kinds p
planning_input-Fits s request policy ds input c p h m at =
    let made = planning_input-MadeOf s request policy ds input h in
    let from = origin_of s request ds input c made m in
    let fits =
      state_paths_of-Fits s request from.origin made.states.0 from.seen from.paths p from.computed
        (subst (Member p) from.same_paths at) in
    subst (λ (q : CanonicalRequest). Fits q c.capabilities.supported_state_kinds p)
      (sym made.same_request)
      (subst (λ (k : EngineCapabilities). Fits request k.supported_state_kinds p)
        (sym from.same_capabilities) fits)
