-- ===== src/Runtime/Audit.antt =====
-- crates/runtime/src/lib.rs: the audit of placement gives a reason exactly for what the planner leaves
-- out.
use locus.Base.{
  ◌≡◌, refl, Bool, true, false, not, ◌||◌, String, List, [], ◌∷◌, arith, ◌↔◌, ◌==◌, string_key,
  is_some_and,
}
use locus.Base.Dict.{contains_key}
use locus.Base.Lists.{any}
use locus.Core.Identity.{satisfies, model_beq, engine_beq, input_semantics_beq, is_compatible}
use locus.Planner.{
  PlanningInput, PlanningCandidate, StatePathCandidate, skips_candidate, skips_path,
}
use locus.Runtime.{reason, candidate_exclusions, state_path_exclusions}

-- A reason more is a test more, before those of the rest.
more_reason :
    (b c : Bool) (text : String) (rest : List String)
    → (rest ≡ []) ↔ (c ≡ false)
    → (reason b text rest ≡ []) ↔ ((b || c) ≡ false)
more_reason true c text rest h = (λ e. absurd (ground arith), λ e. absurd (ground arith))
more_reason false c text rest h = h

-- Reasons and their tests, one after another.
abbrev listed : List (Bool × String) → List String
listed [] = []
listed ((b, text) ∷ tests) = reason b text (listed tests)

abbrev tested : Bool → List (Bool × String) → Bool
tested b [] = b
tested b ((c, text) ∷ tests) = tested (b || c) tests

tested-true : (tests : List (Bool × String)) → tested true tests ≡ true
tested-true [] = refl
tested-true (t ∷ tests) = tested-true tests

listed-tested : (tests : List (Bool × String)) → (listed tests ≡ []) ↔ (tested false tests ≡ false)
listed-tested [] = (λ e. refl, λ e. refl)
listed-tested ((true, text) ∷ tests) =
    (λ e. absurd (ground arith), λ e. absurd (ground (arith, tested-true tests)))
listed-tested ((false, text) ∷ tests) = listed-tested tests

module _ (input : PlanningInput) (c : PlanningCandidate) where
  candidate_tests : List (Bool × String)
  candidate_tests =
      (not (model_beq c.target.model input.request.model), "model_identity_mismatch")
      ∷ (not (c.snapshot.target_id == c.target.id), "snapshot_target_mismatch")
      ∷ (not c.snapshot.ready, "target_not_ready")
      ∷ (not (satisfies c.capabilities input.request.requirements), "capability_mismatch")
      ∷ []

  path_tests : StatePathCandidate → List (Bool × String)
  path_tests p =
      (not (is_compatible p.compatibility), "state_incompatible")
      ∷ (not (p.state.store == p.option.store), "store_mismatch")
      ∷ (not (p.state.id == p.option.source_state), "source_state_mismatch")
      ∷ (not (p.state.kind == p.option.state_kind), "state_kind_mismatch")
      ∷ (not (model_beq p.state.model input.request.model), "state_model_mismatch")
      ∷ (not (p.option.target_id == c.target.id), "state_target_mismatch")
      ∷ (
        not (engine_beq p.option.target_engine c.target.engine),
        "state_engine_generation_mismatch",
      )
      ∷ (
        not (any (λ k. k == p.state.kind) c.capabilities.supported_state_kinds),
        "state_kind_unsupported",
      )
      ∷ (
        is_some_and p.state.relevant_input_semantics
            (λ identity. not (input_semantics_beq identity input.request.input_semantics)),
        "state_input_semantics_mismatch",
      )
      ∷ []

  -- The audit gives no reason against a candidate exactly when the planner does not skip it, and none
  -- against a state path exactly when its store is available and the planner does not skip it.
  pub exclusions-skips :
      (p : StatePathCandidate)
      → ((candidate_exclusions input c ≡ []) ↔ (skips_candidate input c ≡ false))
        × ((state_path_exclusions input c p ≡ []) ↔ (
            (contains_key p.option.store input.unavailable_stores || skips_path input c p) ≡ false))
  unfolding candidate_tests path_tests candidate_exclusions skips_candidate state_path_exclusions
      skips_path
  exclusions-skips p = (
    listed-tested candidate_tests,
    more_reason (contains_key p.option.store input.unavailable_stores) (skips_path input c p)
        "store_unavailable" (listed (path_tests p)) (listed-tested (path_tests p)),
  )
