-- ===== src/Planner/Optimal.antt =====
-- crates/planner/src/lib.rs: the plan is feasible and no feasible path is cheaper.
use locus.Base.{
  ℕ, ◌≤◌, ◌≡◌, inl, inr, false, Option, none, some, List, [], ◌∷◌, arith, if_cases, subst,
  string_key, sym,
}
use locus.Base.Dict.{contains_key}
use locus.Base.Lists.{Member}
use locus.Planner.{
  FeasiblePath, PlanningInput, PlanningCandidate, StatePathCandidate, Search, total_micros,
  is_better_than, consider, skips_candidate, skips_path, cold_path, reuse_path, visit_path,
  visit_paths, visit_candidate, visit_candidates,
}

-- The best path so far costs at most `n`.
abbrev pub AtMost : ℕ → Option FeasiblePath → Type 0
AtMost n none = ⊥
AtMost n (some b) = total_micros b.cost ≤ n

-- A path that may be planned: the cold path of a candidate that is not skipped, or one of its state
-- paths whose store is available and that is not skipped.
pub data IsFeasible (input : PlanningInput) (f : FeasiblePath) : Type 0 where
  by_cold :
      (c : PlanningCandidate)
      → Member c input.candidates
      → skips_candidate input c ≡ false
      → f ≡ cold_path c
      → IsFeasible input f
  by_reuse :
      (c : PlanningCandidate)
      → Member c input.candidates
      → skips_candidate input c ≡ false
      → (p : StatePathCandidate) → Member p c.state_paths
      → contains_key p.option.store input.unavailable_stores ≡ false
      → skips_path input c p ≡ false
      → f ≡ reuse_path input c p
      → IsFeasible input f

consider-new :
    (best : Option FeasiblePath) (f : FeasiblePath) → AtMost (total_micros f.cost) (consider best f)
unfolding consider is_better_than
consider-new none f = omega arith
consider-new (some b) f = ground arith

consider-old :
    (n : ℕ) (best : Option FeasiblePath) (f : FeasiblePath)
    → AtMost n best
    → AtMost n (consider best f)
unfolding consider is_better_than
consider-old n none f h = absurd h
consider-old n (some b) f h = ground arith

module _ (input : PlanningInput) where
  visit_path-old :
      (n : ℕ) (c : PlanningCandidate) (s : Search) (p : StatePathCandidate)
      → AtMost n s.0
      → AtMost n (visit_path input c s p).0
  unfolding visit_path
  visit_path-old n c (best, seen) p h =
      if_cases (λ (s : Search). AtMost n s.0) (contains_key p.option.store input.unavailable_stores)
        (λ _. h)
        λ _.
          if_cases (λ (s : Search). AtMost n s.0) (skips_path input c p) (λ _. h)
            λ _. consider-old n best (reuse_path input c p) h

  visit_paths-old :
      (n : ℕ) (c : PlanningCandidate) (s : Search) (ps : List StatePathCandidate)
      → AtMost n s.0
      → AtMost n (visit_paths input c s ps).0
  unfolding visit_paths
  visit_paths-old n c s [] h = h
  visit_paths-old n c s (p ∷ ps) h =
      visit_paths-old n c (visit_path input c s p) ps (visit_path-old n c s p h)

  visit_candidate-old :
      (n : ℕ) (s : Search) (c : PlanningCandidate)
      → AtMost n s.0
      → AtMost n (visit_candidate input s c).0
  unfolding visit_candidate
  visit_candidate-old n s c h =
      if_cases (λ (s : Search). AtMost n s.0) (skips_candidate input c) (λ _. h)
        λ _. visit_paths-old n c _ c.state_paths (consider-old n s.0 (cold_path c) h)

  visit_candidates-old :
      (n : ℕ) (s : Search) (cs : List PlanningCandidate)
      → AtMost n s.0
      → AtMost n (visit_candidates input s cs).0
  unfolding visit_candidates
  visit_candidates-old n s [] h = h
  visit_candidates-old n s (c ∷ cs) h =
      visit_candidates-old n (visit_candidate input s c) cs (visit_candidate-old n s c h)

  -- A state path that is not skipped is considered.
  visit_path-new :
      (c : PlanningCandidate) (s : Search) (p : StatePathCandidate)
      → contains_key p.option.store input.unavailable_stores ≡ false
      → skips_path input c p ≡ false
      → AtMost (total_micros (reuse_path input c p).cost) (visit_path input c s p).0
  unfolding visit_path
  visit_path-new c (best, seen) p a k = rw a (rw k (consider-new best (reuse_path input c p)))

  visit_paths-new :
      (c : PlanningCandidate) (s : Search) (p : StatePathCandidate) (ps : List StatePathCandidate)
      → Member p ps
      → contains_key p.option.store input.unavailable_stores ≡ false
      → skips_path input c p ≡ false
      → AtMost (total_micros (reuse_path input c p).cost) (visit_paths input c s ps).0
  unfolding visit_paths
  visit_paths-new c s p [] m a k = absurd m
  visit_paths-new c s p (q ∷ ps) (inl e) a k = visit_paths-old _ c (visit_path input c s q) ps (
      subst
        (λ (x : StatePathCandidate).
          AtMost (total_micros (reuse_path input c p).cost) (visit_path input c s x).0)
        (sym e) (visit_path-new c s p a k))
  visit_paths-new c s p (q ∷ ps) (inr m) a k = visit_paths-new c (visit_path input c s q) p ps m a k

  visit_candidates-new :
      (f : FeasiblePath) (s : Search) (cs : List PlanningCandidate) (c : PlanningCandidate)
      → Member c cs
      → ((s : Search) → AtMost (total_micros f.cost) (visit_candidate input s c).0)
      → AtMost (total_micros f.cost) (visit_candidates input s cs).0
  unfolding visit_candidates
  visit_candidates-new f s [] c m h = absurd m
  visit_candidates-new f s (x ∷ cs) c (inl e) h =
      visit_candidates-old _ (visit_candidate input s x) cs (
        subst
          (λ (y : PlanningCandidate). AtMost (total_micros f.cost) (visit_candidate input s y).0)
          (sym e) (h s))
  visit_candidates-new f s (x ∷ cs) c (inr m) h =
      visit_candidates-new f (visit_candidate input s x) cs c m h

  pub feasible-AtMost :
      (f : FeasiblePath)
      → IsFeasible input f
      → AtMost (total_micros f.cost) (visit_candidates input (none, false) input.candidates).0
  unfolding visit_candidate
  feasible-AtMost f (by_cold c m k e) =
      visit_candidates-new f (none, false) input.candidates c m
        λ s. rw (k, e) (visit_paths-old _ c _ c.state_paths (consider-new s.0 (cold_path c)))
  feasible-AtMost f (by_reuse c m k p m' a k' e) =
      visit_candidates-new f (none, false) input.candidates c m
        λ s. rw (k, e) (visit_paths-new c _ p c.state_paths m' a k')
