-- ===== src/Examples/Calibration.antt =====
-- crates/planner/src/calibration.rs: a calibrator with room for one record, which has seen enough of
-- one target.
use locus.Base.{◌≤◌, ◌≡◌, refl, inr, true, false, none, some, [], ◌∷◌, arith, string_key}
use locus.Base.Dict.{lookup}
use locus.Base.Lists.{length}
use locus.Base.Results.{ok}
use locus.Base.Words.{saturate}
use locus.Calibration.{
  CalibrationPolicy, MetricEstimate, no_estimate, update, update_clamped, weighted_average,
}
use locus.Calibration.Records.{
  CalibrationRecord, Storage, Calibrator, CalibrationObservation, record_observation,
}
use locus.Calibration.Bounds.{IsBounded, update-IsBounded}
use locus.Calibration.Capacity.{record_observation-length}
use locus.Calibration.Promotion.{
  CandidateCalibrationEvidence, PromotionStatus, promotion_status, shared_reasons, target_reasons,
  path_reasons, qualify_metric, agreement_reasons, conclude, stored,
}
use locus.Calibration.Qualified.{IsEvident, IsMeasured, promotion_status_qualified}
use locus.Examples.Planner.{cold_plan}

abbrev small_policy : CalibrationPolicy
small_policy = record {
  ewma_alpha_bps = 5000;
  min_samples_per_metric = 2;
  max_mape_bps = 2500;
  min_shadow_decisions = 10;
  min_shadow_agreement_bps = 9000;
  conservative_queue_micros = 5000;
  conservative_queue_micros_per_waiting_request = 1000;
  conservative_prefill_micros_per_token = 100;
  conservative_decode_micros_per_token = 1000;
  conservative_materialization_ratio_bps = 15000;
  conservative_topology_micros = 0;
  max_unit_micros = 600;
  max_materialization_ratio_bps = 100000;
  persistence_flush_every_updates = 16;
  max_records = 1;
  max_materialization_paths_per_record = 4;
  max_state_bytes = 4096;
}

abbrev measured : MetricEstimate
measured = record { estimate = 200; samples = 3; mape_bps = 400 }

-- 200 and a sample of 900, which is cut to 600, at equal weight.
update_run : (update measured 900 small_policy 600).estimate ≡ 400
unfolding update update_clamped weighted_average saturate
update_run = refl

update-IsBounded_example :
    (1 ≤ (update measured 900 small_policy 600).samples)
    × IsBounded 600 (update measured 900 small_policy 600)
update-IsBounded_example =
    update-IsBounded measured 900 small_policy 600 (omega arith) (omega arith) (omega arith)
      (inr (omega arith, omega arith))

abbrev record_e : CalibrationRecord
record_e = record {
  last_updated_revision = 3;
  queue_micros_per_waiting_request = no_estimate;
  prefill_micros_per_token = measured;
  decode_micros_per_token = measured;
  topology_micros = no_estimate;
  materialization_ratio_bps = [];
}

abbrev disk : Storage
disk = record { persistent = true; serialized_bytes = λ _. ok 100; write = λ _. ok tt }

abbrev seasoned : Calibrator
seasoned = record {
  state = record {
    revision = 3;
    records = ("e", record_e) ∷ [];
    shadow = record { decisions = 20; agreements = 19; replay_mismatches = 0 };
  };
  poisoned = false;
  persistence_healthy = true;
  dirty_updates = 0;
}

abbrev first_token : CalibrationObservation
first_token = record {
  stable_id = "f";
  waiting_requests = some 0;
  input_tokens = 10;
  output_tokens = 0;
  time_to_first_token_micros = some 2500;
  generation_micros = none;
  topology_micros = none;
  materialization = none;
  completed = true;
}

-- The record of another target replaces the only one.
record_observation-length_example :
    length (record_observation small_policy disk seasoned first_token).0.state.records ≤ 1
record_observation-length_example =
    record_observation-length small_policy disk seasoned first_token (omega arith) (omega arith)

abbrev evidence_e : CandidateCalibrationEvidence
evidence_e = record {
  stable_id = "e";
  snapshot_fresh = true;
  queue_calibration_required = false;
  revision = 3;
}

abbrev qualified_status : PromotionStatus
qualified_status = record { qualified = true; revision = 3; reasons = [] }

promotion_run :
    promotion_status small_policy (λ s _ _. s) disk seasoned cold_plan (some evidence_e)
    ≡ (seasoned, ok qualified_status)
unfolding promotion_status shared_reasons target_reasons path_reasons qualify_metric
    agreement_reasons conclude stored saturate lookup
promotion_run = refl

promotion_status_qualified_example :
    IsEvident small_policy disk seasoned
    × ((e : CandidateCalibrationEvidence) × (some evidence_e ≡ some e)
        × (e.snapshot_fresh ≡ true)
        × IsMeasured small_policy (lookup e.stable_id seasoned.state.records))
promotion_status_qualified_example =
    promotion_status_qualified small_policy (λ s _ _. s) disk seasoned seasoned cold_plan
      (some evidence_e) qualified_status promotion_run refl
