-- ===== src/Runtime/Inputs.antt =====
-- crates/runtime/src/lib.rs: the planner's input offers only targets and states that fit the request.
use locus.Base.{
  ◌≡◌, refl, sym, ap, subst, true, false, String, List, [], ◌∷◌, ◌++◌, map, arith, ◌==◌, string_key,
  Bool-cases, Option-cases, inl, inr, is_some_and,
}
use locus.Base.Lists.{any, Member, Member-append}
use locus.Base.Results.{Result, ok, ◌>>=◌, bind-ok}
use locus.Core.Identity.{
  CanonicalRequest, StateDescriptor, MaterializationOption, is_compatible, model_beq,
  input_semantics_beq,
}
use locus.Executor.{StoreError}
use locus.Planner.{StatePathCandidate, PlanningCandidate}
use locus.Runtime.{
  DiscoveredTarget, compatibility_for, compatible_result, incompatible_result, cold_estimate,
  reuse_estimate,
}
use locus.Runtime.Planning.{
  Store, Observation, answered, path_of, skips_state, state_paths_of, candidates_of,
}

-- A state path whose state the target supports and the request can use, with the estimate for it.
pub record Fits (request : CanonicalRequest) (kinds : List String) (p : StatePathCandidate)
    : Type 0 where
  pub supported : any (λ k. k == p.state.kind) kinds ≡ true
  pub compatible : is_compatible p.compatibility ≡ true
  pub model : model_beq p.state.model request.model ≡ true
  pub semantics :
      is_some_and p.state.relevant_input_semantics
        (λ identity. input_semantics_beq identity request.input_semantics)
      ≡ true
  pub estimated : p.estimate ≡ reuse_estimate p.state request

-- What a compatible verdict says.
compatibility_for-model :
    (state : StateDescriptor) (request : CanonicalRequest)
    → is_compatible (compatibility_for state request) ≡ true
    → (model_beq state.model request.model ≡ true)
      × (is_some_and state.relevant_input_semantics
            (λ identity. input_semantics_beq identity request.input_semantics)
          ≡ true)
unfolding compatibility_for is_compatible compatible_result incompatible_result
compatibility_for-model state request h = elim (Bool-cases (model_beq state.model request.model)) [
  | inr other ↦ absurd (ground arith)
  | inl same ↦ elim (Option-cases state.relevant_input_semantics) [
    | inl absent ↦ absurd (ground arith)
    | inr (identity, e) ↦ elim (Bool-cases (input_semantics_beq identity request.input_semantics)) [
      | inl agrees ↦ (same, rw (e, agrees) refl)
      | inr differs ↦ absurd (ground arith)
    ]
  ]
]

map_member :
    {A B : Type 0} (f : A → B) (b : B) (xs : List A) → Member b (map f xs) → (a : A) × (f a ≡ b)
map_member f b [] m = absurd m
map_member f b (x ∷ xs) (inl e) = (x, e)
map_member f b (x ∷ xs) (inr m) = map_member f b xs m

path_of-Fits :
    (request : CanonicalRequest) (d : DiscoveredTarget) (state : StateDescriptor)
    (o : MaterializationOption)
    → skips_state request d state ≡ false
    → Fits request d.capabilities.supported_state_kinds (path_of request state o)
unfolding skips_state
path_of-Fits request d state o h =
    elim (Bool-cases (any (λ k. k == state.kind) d.capabilities.supported_state_kinds)) [
      | inr unsupported ↦ absurd (ground arith)
      | inl supported ↦
          let verdict : is_compatible (compatibility_for state request) ≡ true = ground arith in
          let (model, semantics) = compatibility_for-model state request verdict in
          record {
            supported = supported;
            compatible = verdict;
            model = model;
            semantics = semantics;
            estimated = refl;
          }
    ]

-- The rest of a round, and the rounds after it.
abbrev more_paths :
    Store
    → CanonicalRequest
    → DiscoveredTarget
    → StateDescriptor
    → List StateDescriptor
    → List MaterializationOption × Observation
    → Result StoreError (List StatePathCandidate × Observation)
unfolding state_paths_of
more_paths s request d state states found = state_paths_of s request d states found.1 >>= λ rest.
    ok (map (path_of request state) found.0 ++ rest.0, rest.1)

pub state_paths_of-Fits :
    (s : Store) (request : CanonicalRequest) (d : DiscoveredTarget) (states : List StateDescriptor)
    (seen : Observation) (out : List StatePathCandidate × Observation) (p : StatePathCandidate)
    → state_paths_of s request d states seen ≡ ok out
    → Member p out.0
    → Fits request d.capabilities.supported_state_kinds p
unfolding state_paths_of
state_paths_of-Fits s request d [] seen out p h m =
    let same : ([], seen) ≡ out = ground arith in
    absurd (subst (λ (o : List StatePathCandidate × Observation). Member p o.0) (sym same) m)
state_paths_of-Fits s request d (state ∷ states) seen out p h m =
    elim (Bool-cases (skips_state request d state)) [
      | inl skipped ↦ state_paths_of-Fits s request d states seen out p (ground arith) m
      | inr kept ↦
          let h1 : (answered s seen (s.estimate state d.target)
                >>= more_paths s request d state states)
              ≡ ok out =
            ground (arith, kept) in
          let (found, _, h2) =
            bind-ok (answered s seen (s.estimate state d.target))
              (more_paths s request d state states) out h1 in
          let (rest, later, h3) = bind-ok (state_paths_of s request d states found.1) _ out h2 in
          let same : (map (path_of request state) found.0 ++ rest.0, rest.1) ≡ out = ground arith in
          let m' : Member p (map (path_of request state) found.0 ++ rest.0) =
            subst (λ (o : List StatePathCandidate × Observation). Member p o.0) (sym same) m in
          elim (Member-append p (map (path_of request state) found.0) rest.0 m') [
            | inr after ↦ state_paths_of-Fits s request d states found.1 rest p later after
            | inl mine ↦
                let (o, e) = map_member (path_of request state) p found.0 mine in
                subst (Fits request d.capabilities.supported_state_kinds) e
                  (path_of-Fits request d state o kept)
          ]
    ]

-- Where a candidate of the planner's input comes from.
pub record ComesFrom (s : Store) (request : CanonicalRequest) (states : List StateDescriptor)
    (ds : List DiscoveredTarget) (c : PlanningCandidate) : Type 0 where
  pub origin : DiscoveredTarget
  pub found : Member origin ds
  pub same_target : c.target ≡ origin.target
  pub same_capabilities : c.capabilities ≡ origin.capabilities
  pub seen : Observation
  pub paths : List StatePathCandidate × Observation
  pub computed : state_paths_of s request origin states seen ≡ ok paths
  pub same_paths : c.state_paths ≡ paths.0

-- The candidate made of a target and its paths.
abbrev candidate_of :
    CanonicalRequest → DiscoveredTarget → List StatePathCandidate → PlanningCandidate
candidate_of request d paths = record {
  target = d.target;
  capabilities = d.capabilities;
  snapshot = d.snapshot;
  cold_estimate = cold_estimate request;
  state_paths = paths;
}

pub candidates_of-ComesFrom :
    (s : Store) (request : CanonicalRequest) (states : List StateDescriptor)
    (ds : List DiscoveredTarget) (seen : Observation) (out : List PlanningCandidate × Observation)
    (c : PlanningCandidate)
    → candidates_of s request states ds seen ≡ ok out
    → Member c out.0
    → ComesFrom s request states ds c
unfolding candidates_of
candidates_of-ComesFrom s request states [] seen out c h m =
    let same : ([], seen) ≡ out = ground arith in
    absurd (subst (λ (o : List PlanningCandidate × Observation). Member c o.0) (sym same) m)
candidates_of-ComesFrom s request states (d ∷ ds) seen out c h m =
    let (paths, made, h1) = bind-ok (state_paths_of s request d states seen) _ out h in
    let (rest, later, h2) = bind-ok (candidates_of s request states ds paths.1) _ out h1 in
    let same : (candidate_of request d paths.0 ∷ rest.0, rest.1) ≡ out = ground arith in
    let m' : Member c (candidate_of request d paths.0 ∷ rest.0) =
      subst (λ (o : List PlanningCandidate × Observation). Member c o.0) (sym same) m in
    elim m' [
      | inl e ↦ record {
        origin = d;
        found = inl refl;
        same_target = ap (λ (x : PlanningCandidate). x.target) (sym e);
        same_capabilities = ap (λ (x : PlanningCandidate). x.capabilities) (sym e);
        seen = seen;
        paths = paths;
        computed = made;
        same_paths = ap (λ (x : PlanningCandidate). x.state_paths) (sym e);
      }
      | inr after ↦
          let r = candidates_of-ComesFrom s request states ds paths.1 rest c later after in
          record {
            origin = r.origin;
            found = inr r.found;
            same_target = r.same_target;
            same_capabilities = r.same_capabilities;
            seen = r.seen;
            paths = r.paths;
            computed = r.computed;
            same_paths = r.same_paths;
          }
    ]
