-- ===== src/Planner/Sound.antt =====
-- crates/planner/src/lib.rs: what a returned plan, and each error, says of the input.
use locus.Base.{
  ◌≤◌, ◌≡◌, refl, ◌⊎◌, inl, inr, true, false, Option, none, some, List, [], ◌∷◌, arith,
  Option-cases, if_cases, subst, string_key, sym, ◌↔◌,
}
use locus.Base.Dict.{contains_key}
use locus.Base.Lists.{Member}
use locus.Base.Results.{ok, err}
use locus.Planner.{
  FeasiblePath, PlanningInput, PlanningCandidate, StatePathCandidate, PlacementPlan, Search,
  total_micros, is_better_than, consider, skips_candidate, skips_path, cold_path, reuse_path,
  visit_path, visit_paths, visit_candidate, visit_candidates, finish, plan, is_cold,
  no_feasible_candidate,
}
use locus.Planner.Optimal.{AtMost, IsFeasible, by_cold, by_reuse, feasible-AtMost}

-- The best path so far, if there is one, is feasible.
abbrev IsSound : PlanningInput → Option FeasiblePath → Type 0
IsSound input none = Unit
IsSound input (some f) = IsFeasible input f

consider-IsSound :
    (input : PlanningInput) (best : Option FeasiblePath) (f : FeasiblePath)
    → IsSound input best
    → IsFeasible input f
    → IsSound input (consider best f)
unfolding consider
consider-IsSound input none f h g = g
consider-IsSound input (some b) f h g =
    if_cases (IsSound input) (is_better_than f b) (λ _. g) (λ _. h)

module _ (input : PlanningInput) where
  visit_paths-IsSound :
      (c : PlanningCandidate) (s : Search) (ps : List StatePathCandidate)
      → Member c input.candidates
      → skips_candidate input c ≡ false
      → ((p : StatePathCandidate) → Member p ps → Member p c.state_paths)
      → IsSound input s.0
      → IsSound input (visit_paths input c s ps).0
  unfolding visit_paths visit_path
  visit_paths-IsSound c s [] m k sub h = h
  visit_paths-IsSound c (best, seen) (p ∷ ps) m k sub h =
      visit_paths-IsSound c (visit_path input c (best, seen) p) ps m k (λ q at. sub q (inr at))
        (if_cases (λ (s : Search). IsSound input s.0)
          (contains_key p.option.store input.unavailable_stores) (λ _. h)
          λ a.
            if_cases (λ (s : Search). IsSound input s.0) (skips_path input c p) (λ _. h)
              λ k'.
                consider-IsSound input best (reuse_path input c p) h
                  (by_reuse c m k p (sub p (inl refl)) a k' refl))

  visit_candidates-IsSound :
      (s : Search) (cs : List PlanningCandidate)
      → ((c : PlanningCandidate) → Member c cs → Member c input.candidates)
      → IsSound input s.0
      → IsSound input (visit_candidates input s cs).0
  unfolding visit_candidates visit_candidate
  visit_candidates-IsSound s [] sub h = h
  visit_candidates-IsSound s (c ∷ cs) sub h =
      visit_candidates-IsSound (visit_candidate input s c) cs (λ d at. sub d (inr at))
        (if_cases (λ (s : Search). IsSound input s.0) (skips_candidate input c) (λ _. h)
          λ k.
            visit_paths-IsSound c (consider s.0 (cold_path c), s.1) c.state_paths (sub c (inl refl))
              k (λ p at. at)
              (consider-IsSound input s.0 (cold_path c) h (by_cold c (sub c (inl refl)) k refl)))

  abbrev found : Search
  found = visit_candidates input (none, false) input.candidates

  found-IsSound : IsSound input found.0
  found-IsSound = visit_candidates-IsSound (none, false) input.candidates (λ c at. at) tt

  -- The plan that a selected path becomes.
  abbrev pub plan_of : FeasiblePath → PlacementPlan
  plan_of f = record {
    target = f.target;
    path = f.path;
    predicted_cost = f.cost;
    fallback = f.fallback;
    rationale = f.rationale;
  }

  finish-ok :
      (s : Search) (p : PlacementPlan)
      → finish input s ≡ ok p
      → (f : FeasiblePath) × (s.0 ≡ some f)
        × (p ≡ plan_of f)
        × ((s.1 ≡ false)
            ⊎ (input.policy.allow_cold_on_store_outage ≡ true)
            ⊎ (is_cold f.path ≡ false))
  unfolding finish
  finish-ok (none, seen) p h = absurd (ground arith)
  finish-ok (some f, seen) p h = (f, refl, ground arith, ground arith)

  plan-found :
      (p : PlacementPlan)
      → plan input ≡ ok p
      → (f : FeasiblePath) × (found.0 ≡ some f)
        × (p ≡ plan_of f)
        × ((found.1 ≡ false)
            ⊎ (input.policy.allow_cold_on_store_outage ≡ true)
            ⊎ (is_cold f.path ≡ false))
  unfolding plan
  plan-found p h = finish-ok found p h

  -- A plan that is returned is that of a feasible path of the input: its target, path, cost, fallback
  -- and rationale are those of a cold path or a state path that no filter skips.
  pub plan-IsFeasible :
      (p : PlacementPlan)
      → plan input ≡ ok p
      → (f : FeasiblePath) × IsFeasible input f × (p ≡ plan_of f)
  plan-IsFeasible p h =
      let (f, e, e', _) = plan-found p h in (f, subst (IsSound input) e found-IsSound, e')

  -- When a plan is returned, no feasible path of the input has a smaller total predicted cost.
  pub plan_optimal :
      (p : PlacementPlan) (g : FeasiblePath)
      → plan input ≡ ok p
      → IsFeasible input g
      → total_micros p.predicted_cost ≤ total_micros g.cost
  plan_optimal p g h fg =
      let (f, e, e', _) = plan-found p h in
      rw e' (subst (AtMost (total_micros g.cost)) e (feasible-AtMost input g fg))

  finish-none : (s : Search) → finish input s ≡ err no_feasible_candidate → s.0 ≡ none
  unfolding finish
  finish-none (none, seen) h = refl
  finish-none (some f, seen) h = absurd (ground arith)

  finish-none-err : (s : Search) → s.0 ≡ none → finish input s ≡ err no_feasible_candidate
  unfolding finish
  finish-none-err (none, seen) h = refl
  finish-none-err (some f, seen) h = absurd (ground arith)

  -- The planner reports that there is no feasible candidate exactly when the input has no feasible
  -- path.
  pub plan_none_iff :
      (plan input ≡ err no_feasible_candidate) ↔ (¬ ((f : FeasiblePath) × IsFeasible input f))
  unfolding plan
  plan_none_iff = (
    λ h (f, ff).
        subst (AtMost (total_micros f.cost)) (finish-none found h) (feasible-AtMost input f ff),
    λ h. elim (Option-cases found.0) [
      | inl e ↦ finish-none-err found e
      | inr (f, e) ↦ absurd (h (f, subst (IsSound input) e found-IsSound))
    ],
  )

  visit_path-seen :
      (c : PlanningCandidate) (s : Search) (p : StatePathCandidate)
      → s.1 ≡ true
      → (visit_path input c s p).1 ≡ true
  unfolding visit_path
  visit_path-seen c (best, seen) p h = ground arith

  visit_paths-seen :
      (c : PlanningCandidate) (s : Search) (ps : List StatePathCandidate)
      → s.1 ≡ true
      → (visit_paths input c s ps).1 ≡ true
  unfolding visit_paths
  visit_paths-seen c s [] h = h
  visit_paths-seen c s (p ∷ ps) h =
      visit_paths-seen c (visit_path input c s p) ps (visit_path-seen c s p h)

  visit_candidates-seen :
      (s : Search) (cs : List PlanningCandidate)
      → s.1 ≡ true
      → (visit_candidates input s cs).1 ≡ true
  unfolding visit_candidates visit_candidate
  visit_candidates-seen s [] h = h
  visit_candidates-seen s (c ∷ cs) h = visit_candidates-seen (visit_candidate input s c) cs (
      if_cases (λ (s : Search). s.1 ≡ true) (skips_candidate input c) (λ _. h)
        λ _. visit_paths-seen c (consider s.0 (cold_path c), s.1) c.state_paths h)

  outage-path :
      (c : PlanningCandidate) (s : Search) (p : StatePathCandidate)
      → contains_key p.option.store input.unavailable_stores ≡ true
      → (visit_path input c s p).1 ≡ true
  unfolding visit_path
  outage-path c (best, seen) p a = rw a refl

  outage-paths :
      (c : PlanningCandidate) (s : Search) (p : StatePathCandidate) (ps : List StatePathCandidate)
      → Member p ps
      → contains_key p.option.store input.unavailable_stores ≡ true
      → (visit_paths input c s ps).1 ≡ true
  unfolding visit_paths
  outage-paths c s p [] m a = absurd m
  outage-paths c s p (q ∷ ps) (inl e) a =
      visit_paths-seen c (visit_path input c s q) ps (outage-path c s q (rw e a))
  outage-paths c s p (q ∷ ps) (inr m) a = outage-paths c (visit_path input c s q) p ps m a

  outage-candidates :
      (c : PlanningCandidate) (s : Search) (p : StatePathCandidate) (cs : List PlanningCandidate)
      → Member c cs
      → skips_candidate input c ≡ false
      → Member p c.state_paths
      → contains_key p.option.store input.unavailable_stores ≡ true
      → (visit_candidates input s cs).1 ≡ true
  unfolding visit_candidates
  outage-candidates c s p [] m k m' a = absurd m
  outage-candidates c s p (d ∷ cs) (inl e) k m' a =
      visit_candidates-seen (visit_candidate input s d) cs
        (subst (λ (x : PlanningCandidate). (visit_candidate input s x).1 ≡ true) (sym e) here)
    where
      here : (visit_candidate input s c).1 ≡ true
      here =
          unfold visit_candidate in
          rw k (outage-paths c (consider s.0 (cold_path c), s.1) p c.state_paths m' a)
  outage-candidates c s p (d ∷ cs) (inr m) k m' a =
      outage-candidates c (visit_candidate input s d) p cs m k m' a

  -- When a state path of a candidate that is not skipped lies on an unavailable store, and the policy
  -- forbids the cold degradation, a plan that is returned is not a cold one.
  pub plan_outage-not_cold :
      (p : PlacementPlan) (c : PlanningCandidate) (q : StatePathCandidate)
      → plan input ≡ ok p
      → Member c input.candidates
      → skips_candidate input c ≡ false
      → Member q c.state_paths
      → contains_key q.option.store input.unavailable_stores ≡ true
      → input.policy.allow_cold_on_store_outage ≡ false
      → is_cold p.path ≡ false
  plan_outage-not_cold p c q h m k m' a strict =
      let seen = outage-candidates c (none, false) q input.candidates m k m' a in
      let (f, e, e', why) = plan-found p h in ground (arith, seen)
