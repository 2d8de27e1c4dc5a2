-- ===== src/Calibration/Promotion.antt =====
-- crates/planner/src/calibration.rs: `promotion_status`, which lets calibrated placement become
-- active. A reason is a constructor with the numbers that its text shows; the text of the key of a
-- materialization path is the parameter `path_key`.
use locus.Base.{
  ℕ, ◌/◌, Bool, true, false, not, ◌&&◌, Option, none, some, String, List, [], ◌∷◌, ◌++◌, nat_beq,
  ltb, string_key, if◌then◌else◌,
}
use locus.Base.Dict.{lookup}
use locus.Base.Lists.{is_empty}
use locus.Base.Results.{Result, ok, err}
use locus.Base.Words.{saturating_mul}
use locus.Planner.{PlacementPlan, ExecutionPath}
use locus.Calibration.{CalibrationPolicy, CalibrationError, lock_poisoned, MetricEstimate}
use locus.Calibration.Records.{CalibrationRecord, Storage, Calibrator, Done, persist_and_clear}

pub data Reason : Type 0 where
  not_persistent unhealthy no_evidence stale : Reason
  shadow_decisions shadow_agreement : ℕ → ℕ → Reason
  replay_mismatches : ℕ → Reason
  missing : String → Reason
  too_few_samples imprecise : String → ℕ → ℕ → Reason

pub record CandidateCalibrationEvidence : Type 0 where
  pub stable_id : String
  pub snapshot_fresh : Bool
  pub queue_calibration_required : Bool
  pub revision : ℕ

pub record PromotionStatus : Type 0 where
  pub qualified : Bool
  pub revision : ℕ
  pub reasons : List Reason

-- `if bad { reasons.push(reason) }`.
abbrev pub reason_if : Bool → Reason → List Reason
reason_if true r = r ∷ []
reason_if false r = []

unfoldable pub qualify_metric : Option MetricEstimate → String → CalibrationPolicy → List Reason
qualify_metric none name policy = missing name ∷ []
qualify_metric (some m) name policy =
    reason_if (ltb m.samples policy.min_samples_per_metric)
      (too_few_samples name m.samples policy.min_samples_per_metric)
    ++ reason_if (ltb policy.max_mape_bps m.mape_bps)
        (imprecise name m.mape_bps policy.max_mape_bps)

-- `checked_div` by the number of decisions.
unfoldable pub agreement_reasons : CalibrationPolicy → ℕ → ℕ → List Reason
agreement_reasons policy agreements decisions =
    if nat_beq decisions 0
    then []
    else reason_if
        (ltb (saturating_mul agreements 10000 / decisions) policy.min_shadow_agreement_bps)
        (shadow_agreement (saturating_mul agreements 10000 / decisions)
          policy.min_shadow_agreement_bps)

-- The reasons that do not depend on the selected target.
unfoldable pub shared_reasons : CalibrationPolicy → Storage → Calibrator → List Reason
unfolding agreement_reasons
shared_reasons policy storage c =
    reason_if (not storage.persistent) not_persistent
    ++ (reason_if (not c.persistence_healthy) unhealthy
        ++ (reason_if (ltb c.state.shadow.decisions policy.min_shadow_decisions)
              (shadow_decisions c.state.shadow.decisions policy.min_shadow_decisions)
            ++ (agreement_reasons policy c.state.shadow.agreements c.state.shadow.decisions
                ++ reason_if (ltb 0 c.state.shadow.replay_mismatches)
                    (replay_mismatches c.state.shadow.replay_mismatches))))

abbrev pub metric_of :
    (CalibrationRecord → MetricEstimate) → Option CalibrationRecord → Option MetricEstimate
metric_of f none = none
metric_of f (some r) = some (f r)

abbrev pub path_metric : String → Option CalibrationRecord → Option MetricEstimate
path_metric key none = none
path_metric key (some r) = lookup key r.materialization_ratio_bps

module _ (policy : CalibrationPolicy) (path_key : String → String → String → String) where
  unfoldable pub path_reasons : Option CalibrationRecord → String → ExecutionPath → List Reason
  unfolding qualify_metric
  path_reasons r target ExecutionPath.cold = []
  path_reasons r target (ExecutionPath.reuse reuse) =
      qualify_metric (metric_of (λ x. x.topology_micros) r) "topology" policy
      ++ qualify_metric (path_metric (path_key reuse.option.store reuse.option.state_kind target) r)
          "materialization" policy

  unfoldable pub target_reasons :
      Option CalibrationRecord → PlacementPlan → CandidateCalibrationEvidence → List Reason
  unfolding qualify_metric path_reasons
  target_reasons r plan e =
      reason_if (not e.snapshot_fresh) stale
      ++ (qualify_metric (metric_of (λ x. x.prefill_micros_per_token) r) "prefill" policy
          ++ (qualify_metric (metric_of (λ x. x.decode_micros_per_token) r) "decode" policy
              ++ ((if e.queue_calibration_required
                    then qualify_metric (metric_of (λ x. x.queue_micros_per_waiting_request) r)
                        "queue" policy
                    else [])
                  ++ path_reasons r plan.target.id plan.path)))

  abbrev pub Promoted : Type 0
  Promoted = Calibrator × Result CalibrationError PromotionStatus

  -- The status, after pending updates are stored when it is a qualified one.
  unfoldable pub stored : PromotionStatus → Done → Promoted
  stored status (c, ok _) = (c, ok status)
  stored status (c, err e) = (c, err e)

  unfoldable pub conclude : Storage → Calibrator → List Reason → Promoted
  unfolding stored
  conclude storage c reasons =
      let status : PromotionStatus = record {
        qualified = is_empty reasons;
        revision = c.state.revision;
        reasons = reasons;
      } in
      if is_empty reasons && ltb 0 c.dirty_updates
      then stored status (persist_and_clear policy storage c)
      else (c, ok status)

  unfoldable pub promotion_status :
      Storage → Calibrator → PlacementPlan → Option CandidateCalibrationEvidence → Promoted
  unfolding shared_reasons target_reasons conclude
  promotion_status storage c plan evidence =
      if c.poisoned then (c, err lock_poisoned) else elim evidence [
        | none ↦ (
          c,
          ok (record {
            qualified = false;
            revision = c.state.revision;
            reasons = shared_reasons policy storage c ++ no_evidence ∷ [];
          }),
        )
        | some e ↦ conclude storage c (
            shared_reasons policy storage c
            ++ target_reasons (lookup e.stable_id c.state.records) plan e)
      ]
