-- ===== src/Calibration/Qualified.antt =====
-- crates/planner/src/calibration.rs: what a qualified promotion status has behind it.
use locus.Base.{
  ℕ, ◌/◌, ◌≤◌, ◌≡◌, refl, sym, ◌∙◌, ap, Bool, true, false, not, ◌&&◌, Option, none, some, String,
  List, [], ◌∷◌, ◌++◌, arith, Bool-cases, inl, inr, ◌⊎◌, nat_beq, ltb, string_key,
}
use locus.Base.Dict.{lookup}
use locus.Base.Lists.{is_empty}
use locus.Base.Results.{ok, err}
use locus.Base.Words.{saturating_mul}
use locus.Planner.{PlacementPlan}
use locus.Calibration.{CalibrationPolicy, MetricEstimate}
use locus.Calibration.Records.{CalibrationRecord, Storage, Calibrator, Done, persist_and_clear}
use locus.Calibration.Promotion.{
  Reason, CandidateCalibrationEvidence, PromotionStatus, qualify_metric, agreement_reasons,
  shared_reasons, target_reasons, stored, conclude, promotion_status, reason_if, not_persistent,
  unhealthy, stale, shadow_decisions, replay_mismatches, too_few_samples, imprecise,
}

is_empty-append :
    (xs ys : List Reason) → is_empty (xs ++ ys) ≡ true → (is_empty xs ≡ true) × (is_empty ys ≡ true)
is_empty-append [] ys h = (refl, h)
is_empty-append (x ∷ xs) ys h = absurd (ground arith)

is_empty-reason_if : (b : Bool) (r : Reason) → is_empty (reason_if b r) ≡ true → b ≡ false
is_empty-reason_if true r h = absurd (ground arith)
is_empty-reason_if false r h = refl

head-reason :
    (b : Bool) (r : Reason) (rest : List Reason)
    → is_empty (reason_if b r ++ rest) ≡ true
    → (b ≡ false) × (is_empty rest ≡ true)
head-reason true r rest h = absurd (ground arith)
head-reason false r rest h = (refl, h)

-- The metric of a record that there is has enough samples and a small enough error.
abbrev pub IsCalibrated : CalibrationPolicy → MetricEstimate → Type 0
IsCalibrated policy m =
    (policy.min_samples_per_metric ≤ m.samples) × (m.mape_bps ≤ policy.max_mape_bps)

qualify_metric-IsCalibrated :
    (policy : CalibrationPolicy) (m : MetricEstimate) (name : String)
    → is_empty (qualify_metric (some m) name policy) ≡ true
    → IsCalibrated policy m
unfolding qualify_metric
qualify_metric-IsCalibrated policy m name h =
    let (a, rest) =
      head-reason (ltb m.samples policy.min_samples_per_metric)
        (too_few_samples name m.samples policy.min_samples_per_metric)
        (reason_if (ltb policy.max_mape_bps m.mape_bps)
          (imprecise name m.mape_bps policy.max_mape_bps))
        h in
    let b =
      is_empty-reason_if (ltb policy.max_mape_bps m.mape_bps)
        (imprecise name m.mape_bps policy.max_mape_bps) rest in
    (ground (arith, a), ground (arith, b))

-- What holds of the calibrator itself.
abbrev pub IsEvident : CalibrationPolicy → Storage → Calibrator → Type 0
IsEvident policy storage c =
    (storage.persistent ≡ true)
    × (c.persistence_healthy ≡ true)
    × (policy.min_shadow_decisions ≤ c.state.shadow.decisions)
    × ((c.state.shadow.decisions ≡ 0)
        ⊎ (policy.min_shadow_agreement_bps
            ≤ saturating_mul c.state.shadow.agreements 10000 / c.state.shadow.decisions))
    × (c.state.shadow.replay_mismatches ≡ 0)

agreement-cases :
    (policy : CalibrationPolicy) (agreements decisions : ℕ)
    → is_empty (agreement_reasons policy agreements decisions) ≡ true
    → (decisions ≡ 0)
      ⊎ (policy.min_shadow_agreement_bps ≤ saturating_mul agreements 10000 / decisions)
unfolding agreement_reasons
agreement-cases policy agreements decisions h = elim (Bool-cases (nat_beq decisions 0)) [
  | inl e ↦ inl (ground arith)
  | inr e ↦ inr (ground (arith, is_empty-reason_if _ _ (rw e at h)))
]

shared-IsEvident :
    (policy : CalibrationPolicy) (storage : Storage) (c : Calibrator)
    → is_empty (shared_reasons policy storage c) ≡ true
    → IsEvident policy storage c
unfolding shared_reasons
shared-IsEvident policy storage c h =
    let (a, h1) = head-reason (not storage.persistent) not_persistent _ h in
    let (b, h2) = head-reason (not c.persistence_healthy) unhealthy _ h1 in
    let (d, h3) =
      head-reason (ltb c.state.shadow.decisions policy.min_shadow_decisions)
        (shadow_decisions c.state.shadow.decisions policy.min_shadow_decisions) _ h2 in
    let (g, i) =
      is_empty-append (agreement_reasons policy c.state.shadow.agreements c.state.shadow.decisions)
        (reason_if (ltb 0 c.state.shadow.replay_mismatches)
          (replay_mismatches c.state.shadow.replay_mismatches))
        h3 in
    let i' =
      is_empty-reason_if (ltb 0 c.state.shadow.replay_mismatches)
        (replay_mismatches c.state.shadow.replay_mismatches) i in
    (
      ground (arith, a),
      ground (arith, b),
      ground (arith, d),
      agreement-cases policy _ _ g,
      ground (arith, i'),
    )

-- The records' metrics that every selected target needs.
abbrev pub IsMeasured : CalibrationPolicy → Option CalibrationRecord → Type 0
IsMeasured policy none = ⊥
IsMeasured policy (some r) =
    IsCalibrated policy r.prefill_micros_per_token × IsCalibrated policy r.decode_micros_per_token

module _ (policy : CalibrationPolicy) (path_key : String → String → String → String) where
  target-IsMeasured :
      (r : Option CalibrationRecord) (plan : PlacementPlan) (e : CandidateCalibrationEvidence)
      → is_empty (target_reasons policy path_key r plan e) ≡ true
      → (e.snapshot_fresh ≡ true) × IsMeasured policy r
  unfolding target_reasons qualify_metric
  target-IsMeasured none plan e h =
      let (a, h1) = head-reason (not e.snapshot_fresh) stale _ h in absurd (ground (arith, h1))
  target-IsMeasured (some r) plan e h =
      let (a, h1) = head-reason (not e.snapshot_fresh) stale _ h in
      let (b, h2) =
        is_empty-append (qualify_metric (some r.prefill_micros_per_token) "prefill" policy) _ h1 in
      let (d, h3) =
        is_empty-append (qualify_metric (some r.decode_micros_per_token) "decode" policy) _ h2 in
      (
        ground (arith, a),
        (
          qualify_metric-IsCalibrated policy r.prefill_micros_per_token "prefill" b,
          qualify_metric-IsCalibrated policy r.decode_micros_per_token "decode" d,
        ),
      )

  stored-status :
      (status s : PromotionStatus) (d : Done) (c' : Calibrator)
      → stored policy path_key status d ≡ (c', ok s)
      → status ≡ s
  unfolding stored
  stored-status status s (c, ok _) c' h = ground arith
  stored-status status s (c, err e) c' h = absurd (ground arith)

  conclude-reasons :
      (storage : Storage) (c c' : Calibrator) (reasons : List Reason) (s : PromotionStatus)
      → conclude policy path_key storage c reasons ≡ (c', ok s)
      → s.qualified ≡ is_empty reasons
  unfolding conclude
  conclude-reasons storage c c' reasons s h =
      elim (Bool-cases (is_empty reasons && ltb 0 c.dirty_updates)) [
        | inl e ↦
            ap (λ (x : PromotionStatus). x.qualified)
              (sym (
                stored-status
                  (record {
                    qualified = is_empty reasons;
                    revision = c.state.revision;
                    reasons = reasons;
                  })
                  s (persist_and_clear policy storage c) c' (rw e at h)))
        | inr e ↦ ground (arith, rw e at h)
      ]

  -- When `promotion_status` returns a qualified status: the calibrator is persistent, its persistence
  -- healthy, it has seen enough shadow decisions, with enough agreement and no replay mismatch; there
  -- is evidence for the target, its snapshot is fresh, and its record has a prefill and a decode metric
  -- with enough samples and a small enough error.
  pub promotion_status_qualified :
      (storage : Storage) (c c' : Calibrator) (plan : PlacementPlan)
      (evidence : Option CandidateCalibrationEvidence) (s : PromotionStatus)
      → promotion_status policy path_key storage c plan evidence ≡ (c', ok s)
      → s.qualified ≡ true
      → IsEvident policy storage c
        × ((e : CandidateCalibrationEvidence) × (evidence ≡ some e)
            × (e.snapshot_fresh ≡ true)
            × IsMeasured policy (lookup e.stable_id c.state.records))
  unfolding promotion_status
  promotion_status_qualified storage c c' plan none s h q = absurd (ground arith)
  promotion_status_qualified storage c c' plan (some e) s h q = elim (Bool-cases c.poisoned) [
    | inl bad ↦ absurd (ground (arith, rw bad at h))
    | inr usable ↦
        let (a, b) =
          is_empty-append (shared_reasons policy storage c)
            (target_reasons policy path_key (lookup e.stable_id c.state.records) plan e)
            (sym (conclude-reasons storage c c' _ s (ground (arith, usable))) ∙ q) in
        let (fresh, measured) = target-IsMeasured (lookup e.stable_id c.state.records) plan e b in
        (shared-IsEvident policy storage c a, (e, refl, fresh, measured))
  ]
