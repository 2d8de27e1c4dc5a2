-- ===== src/Calibration.antt =====
-- crates/planner/src/calibration.rs: the policy of the calibrator, the running estimate of one
-- metric and the estimates that placement uses.
pub mod Records
pub mod Bounds
pub mod Capacity
pub mod Promotion
pub mod Qualified
use locus.Base.{
  ℕ, ◌+◌, ◌-◌, ◌*◌, ◌/◌, max, Bool, true, false, ◌||◌, Option, none, some, String, List, [], ◌∷◌,
  ◌++◌, ltb, leb, nat_beq, if◌then◌else◌, is_none_or,
}
use locus.Base.Results.{Result, ok, err, reject_if}
use locus.Base.Words.{u128_max, u64_max, saturate, saturating_add, saturating_mul, clamp}

pub record CalibrationPolicy : Type 0 where
  pub ewma_alpha_bps : ℕ
  pub min_samples_per_metric : ℕ
  pub max_mape_bps : ℕ
  pub min_shadow_decisions : ℕ
  pub min_shadow_agreement_bps : ℕ
  pub conservative_queue_micros : ℕ
  pub conservative_queue_micros_per_waiting_request : ℕ
  pub conservative_prefill_micros_per_token : ℕ
  pub conservative_decode_micros_per_token : ℕ
  pub conservative_materialization_ratio_bps : ℕ
  pub conservative_topology_micros : ℕ
  pub max_unit_micros : ℕ
  pub max_materialization_ratio_bps : ℕ
  pub persistence_flush_every_updates : ℕ
  pub max_records : ℕ
  pub max_materialization_paths_per_record : ℕ
  pub max_state_bytes : ℕ

-- The errors that the modelled operations return themselves, and those of the storage.
pub data CalibrationError : Type 0 where
  invalid_policy lock_poisoned : CalibrationError
  limit : ℕ → ℕ → CalibrationError
  storage : String → CalibrationError

unfoldable pub policy_invalid : CalibrationPolicy → Bool
policy_invalid p =
    nat_beq p.ewma_alpha_bps 0
    || ltb 10000 p.ewma_alpha_bps
    || nat_beq p.min_samples_per_metric 0
    || nat_beq p.max_mape_bps 0
    || nat_beq p.min_shadow_decisions 0
    || nat_beq p.min_shadow_agreement_bps 0
    || ltb 10000 p.min_shadow_agreement_bps
    || nat_beq p.conservative_queue_micros 0
    || nat_beq p.conservative_queue_micros_per_waiting_request 0
    || nat_beq p.conservative_prefill_micros_per_token 0
    || nat_beq p.conservative_decode_micros_per_token 0
    || ltb p.conservative_materialization_ratio_bps 10000
    || nat_beq p.max_unit_micros 0
    || ltb p.max_materialization_ratio_bps p.conservative_materialization_ratio_bps
    || nat_beq p.persistence_flush_every_updates 0
    || nat_beq p.max_records 0
    || nat_beq p.max_materialization_paths_per_record 0
    || nat_beq p.max_state_bytes 0

unfoldable pub validate : CalibrationPolicy → Result CalibrationError (Unit {0})
validate p = reject_if (policy_invalid p) invalid_policy

pub record MetricEstimate : Type 0 where
  pub estimate : ℕ
  pub samples : ℕ
  pub mape_bps : ℕ

abbrev pub no_estimate : MetricEstimate
no_estimate = record { estimate = 0; samples = 0; mape_bps = 0 }

-- The sum in `u128`, cut to `u64`.
unfoldable pub weighted_average : ℕ → ℕ → ℕ → ℕ
unfolding saturate
weighted_average previous sample alpha_bps = saturate u64_max (
    saturate u128_max
      (saturate u128_max (previous * (10000 - alpha_bps)) + saturate u128_max (sample * alpha_bps))
    / 10000)

abbrev pub abs_diff : ℕ → ℕ → ℕ
abs_diff a b = (a - b) + (b - a)

-- `update` after the sample is clamped.
unfoldable pub update_clamped : MetricEstimate → ℕ → CalibrationPolicy → MetricEstimate
unfolding weighted_average
update_clamped m sample policy =
    if nat_beq m.samples 0
    then record { estimate = sample; samples = 1; mape_bps = 0 }
    else record {
      estimate = weighted_average m.estimate sample policy.ewma_alpha_bps;
      samples = saturating_add m.samples 1;
      mape_bps =
          weighted_average m.mape_bps
            (saturating_mul (abs_diff m.estimate sample) 10000 / max sample 1)
            policy.ewma_alpha_bps;
    }

unfoldable pub update : MetricEstimate → ℕ → CalibrationPolicy → ℕ → MetricEstimate
unfolding update_clamped clamp
update m sample policy maximum = update_clamped m (clamp 1 maximum sample) policy

unfoldable pub value_or : MetricEstimate → ℕ → ℕ
value_or m fallback = if nat_beq m.samples 0 then fallback else m.estimate

unfoldable pub unit_estimate : CalibrationPolicy → Option MetricEstimate → Option ℕ → ℕ → ℕ × Bool
unfolding clamp
unit_estimate policy metric telemetry_rate conservative =
    let from_rate : ℕ × Bool = elim telemetry_rate [
      | none ↦ (conservative, true)
      | some rate ↦
          if ltb 0 rate
          then (clamp 1 policy.max_unit_micros (1000000 / rate), false)
          else (conservative, true)
    ] in
    elim metric [
      | none ↦ from_rate
      | some m ↦ if ltb 0 m.samples then (m.estimate, false) else from_rate
    ]
