-- ===== src/Calibration/Bounds.antt =====
-- crates/planner/src/calibration.rs: an estimate stays between the samples it is made of.
use locus.Base.{ℕ, ◌+◌, ◌-◌, ◌*◌, ◌/◌, ◌≤◌, ◌≡◌, arith, Bool-cases, ap, inl, inr, ◌⊎◌, nat_beq}
use native.Mathlib.Nat.{mul-le-mul_right}
use locus.Base.Words.{u64_max, u128_max, saturate, saturate-eq_of_le, clamp, clamp_bounds}
use locus.Calibration.{CalibrationPolicy, MetricEstimate, weighted_average, update, update_clamped}

-- The sum of both products, as the code divides it.
weighted_sum_bounds :
    (lo hi a b alpha : ℕ)
    → lo ≤ a
    → a ≤ hi
    → lo ≤ b
    → b ≤ hi
    → alpha ≤ 10000
    → (lo * 10000 ≤ a * (10000 - alpha) + b * alpha)
      × (a * (10000 - alpha) + b * alpha ≤ hi * 10000)
weighted_sum_bounds lo hi a b alpha h1 h2 h3 h4 h5 =
    let rest : (10000 - alpha) + alpha ≡ 10000 = omega arith in
    omega (
      arith,
      mul-le-mul_right (10000 - alpha) h1,
      mul-le-mul_right (10000 - alpha) h2,
      mul-le-mul_right alpha h3,
      mul-le-mul_right alpha h4,
      ap (λ (x : ℕ). lo * x) rest,
      ap (λ (x : ℕ). hi * x) rest,
    )

weighted_average_bounds :
    (lo hi a b alpha : ℕ)
    → lo ≤ a
    → a ≤ hi
    → lo ≤ b
    → b ≤ hi
    → alpha ≤ 10000
    → hi ≤ u64_max
    → (lo ≤ weighted_average a b alpha) × (weighted_average a b alpha ≤ hi)
unfolding weighted_average
weighted_average_bounds lo hi a b alpha h1 h2 h3 h4 h5 h6 =
    let (low, high) = weighted_sum_bounds lo hi a b alpha h1 h2 h3 h4 h5 in
    let whole : (saturate u128_max (a * (10000 - alpha)) ≡ a * (10000 - alpha))
        × (saturate u128_max (b * alpha) ≡ b * alpha)
        × (saturate u128_max (a * (10000 - alpha) + b * alpha) ≡ a * (10000 - alpha) + b * alpha) =
      (
        saturate-eq_of_le u128_max _ (omega arith),
        saturate-eq_of_le u128_max _ (omega arith),
        saturate-eq_of_le u128_max _ (omega arith),
      ) in
    rw (whole.0) (
      rw (whole.1) (
        rw (whole.2)
          (ground (arith, saturate-eq_of_le u64_max ((a * (10000 - alpha) + b * alpha) / 10000)))))

-- A metric that has samples estimates at least 1 and at most the maximum.
abbrev pub IsBounded : ℕ → MetricEstimate → Type 0
IsBounded maximum m = (m.samples ≡ 0) ⊎ ((1 ≤ m.estimate) × (m.estimate ≤ maximum))

-- For a maximum that is a positive machine integer and a weight of at most 10000 basis points: whatever
-- the sample, `update` leaves a metric with samples whose estimate is at least 1 and at most the
-- maximum, if the metric had no samples before or its estimate was so bounded.
pub update-IsBounded :
    (m : MetricEstimate) (sample : ℕ) (policy : CalibrationPolicy) (maximum : ℕ)
    → 1 ≤ maximum
    → maximum ≤ u64_max
    → policy.ewma_alpha_bps ≤ 10000
    → IsBounded maximum m
    → (1 ≤ (update m sample policy maximum).samples)
      × IsBounded maximum (update m sample policy maximum)
unfolding update update_clamped saturate
update-IsBounded m sample policy maximum some_room sized weight h =
    let (low, high) = clamp_bounds 1 maximum sample some_room in
    elim (Bool-cases (nat_beq m.samples 0)) [
      | inl fresh ↦ (rw fresh (omega arith), rw fresh (inr (low, high)))
      | inr old ↦ elim h [
        | inl none_yet ↦ absurd (ground arith)
        | inr (low', high') ↦ (
          rw old (ground arith),
          rw old (
              inr (
                weighted_average_bounds 1 maximum m.estimate (clamp 1 maximum sample)
                  policy.ewma_alpha_bps low' high' low high weight sized)),
        )
      ]
    ]
