-- ===== src/Calibration/Records.antt =====
-- crates/planner/src/calibration.rs: the calibrator's state and the operations that change it. The
-- mutex's contents, its poison flag and the two atomics are the record `Calibrator`. The storage,
-- serde_json and the file system, is the parameter `Storage`, as are the texts of the keys.
use locus.Base.{
  ℕ, ◌-◌, ◌/◌, max, Bool, true, false, not, ◌&&◌, ◌||◌, Option, none, some, String, [], ◌∷◌, ltb,
  leb, nat_beq, if◌then◌else◌, is_some_and, unwrap_or, ◌==◌, ◌≺◌, string_key,
}
use locus.Base.Dict.{Dict, lookup, contains_key, insert, remove}
use locus.Base.Lists.{length}
use locus.Base.Results.{Result, ok, err}
use locus.Base.Words.{saturating_add, saturating_mul, wrapping_add}
use locus.Calibration.{
  CalibrationPolicy, CalibrationError, lock_poisoned, limit, MetricEstimate, no_estimate, update,
  value_or,
}

pub record CalibrationRecord : Type 0 where
  pub last_updated_revision : ℕ
  pub queue_micros_per_waiting_request : MetricEstimate
  pub prefill_micros_per_token : MetricEstimate
  pub decode_micros_per_token : MetricEstimate
  pub topology_micros : MetricEstimate
  pub materialization_ratio_bps : Dict String MetricEstimate

abbrev pub no_record : CalibrationRecord
no_record = record {
  last_updated_revision = 0;
  queue_micros_per_waiting_request = no_estimate;
  prefill_micros_per_token = no_estimate;
  decode_micros_per_token = no_estimate;
  topology_micros = no_estimate;
  materialization_ratio_bps = [];
}

pub record ShadowEvidence : Type 0 where
  pub decisions : ℕ
  pub agreements : ℕ
  pub replay_mismatches : ℕ

pub record CalibrationState : Type 0 where
  pub revision : ℕ
  pub records : Dict String CalibrationRecord
  pub shadow : ShadowEvidence

unfoldable pub queue_estimate :
    CalibrationPolicy → Option CalibrationRecord → Option ℕ → Option ℕ → ℕ × Bool
unfolding value_or
queue_estimate policy r waiting_requests (some direct) = (direct, false)
queue_estimate policy r none none = (policy.conservative_queue_micros, true)
queue_estimate policy none (some waiting) none =
    if nat_beq waiting 0
    then (0, false)
    else (saturating_mul waiting policy.conservative_queue_micros_per_waiting_request, true)
queue_estimate policy (some r) (some waiting) none = if nat_beq waiting 0 then (0, false) else (
  saturating_mul waiting (
      value_or r.queue_micros_per_waiting_request
        policy.conservative_queue_micros_per_waiting_request),
  nat_beq r.queue_micros_per_waiting_request.samples 0,
)

-- `serde_json` and the file: the number of bytes that a state takes, or the error; and the write.
pub record Storage : Type 0 where
  pub persistent : Bool
  pub serialized_bytes : CalibrationState → Result CalibrationError ℕ
  pub write : CalibrationState → Result CalibrationError (Unit {0})

pub record Calibrator : Type 0 where
  pub state : CalibrationState
  pub poisoned : Bool
  pub persistence_healthy : Bool
  pub dirty_updates : ℕ

abbrev pub Done : Type 0
Done = Calibrator × Result CalibrationError (Unit {0})

unfoldable pub write_bytes : CalibrationPolicy → Storage → Calibrator → ℕ → Done
write_bytes policy storage c bytes =
    if ltb policy.max_state_bytes bytes
    then (record c { persistence_healthy = false }, err (limit bytes policy.max_state_bytes))
    else elim (storage.write c.state) [
      | err e ↦ (record c { persistence_healthy = false }, err e)
      | ok _ ↦ (record c { persistence_healthy = true }, ok tt)
    ]

unfoldable pub persist_locked : CalibrationPolicy → Storage → Calibrator → Done
persist_locked policy storage c =
    if not storage.persistent then (c, ok tt) else elim (storage.serialized_bytes c.state) [
      | err e ↦ (record c { persistence_healthy = false }, err e)
      | ok bytes ↦ write_bytes policy storage c bytes
    ]

unfoldable pub clear_dirty : Done → Done
clear_dirty (c, err e) = (c, err e)
clear_dirty (c, ok _) = (record c { dirty_updates = 0 }, ok tt)

-- `self.persist_locked(&state)?; self.dirty_updates.store(0)`.
unfoldable pub persist_and_clear : CalibrationPolicy → Storage → Calibrator → Done
persist_and_clear policy storage c = clear_dirty (persist_locked policy storage c)

unfoldable pub commit_update_locked : CalibrationPolicy → Storage → Calibrator → Done
commit_update_locked policy storage c =
    let dirty = wrapping_add c.dirty_updates 1 in
    let c' : Calibrator = record c { dirty_updates = dirty } in
    if storage.persistent && leb policy.persistence_flush_every_updates dirty
    then persist_and_clear policy storage c'
    else (c', ok tt)

unfoldable pub flush : CalibrationPolicy → Storage → Calibrator → Done
flush policy storage c =
    if not storage.persistent || nat_beq c.dirty_updates 0
    then (c, ok tt)
    else if c.poisoned
    then (c, err lock_poisoned)
    else persist_and_clear policy storage c

unfoldable pub older : ℕ × String → String → CalibrationRecord → ℕ × String
older best k r =
    if ltb r.last_updated_revision best.0 || (nat_beq r.last_updated_revision best.0 && k ≺ best.1)
    then (r.last_updated_revision, k)
    else best

-- The entry with the least revision, and of those the first key.
unfoldable pub oldest_of : ℕ × String → Dict String CalibrationRecord → ℕ × String
unfolding older
oldest_of best [] = best
oldest_of best ((k, r) ∷ rest) = oldest_of (older best k r) rest

unfoldable pub remove_oldest : Dict String CalibrationRecord → Dict String CalibrationRecord
remove_oldest [] = []
remove_oldest ((k, r) ∷ rest) =
    remove (oldest_of (r.last_updated_revision, k) rest).1 ((k, r) ∷ rest)

unfoldable pub ensure_record_capacity :
    Dict String CalibrationRecord → String → ℕ → Dict String CalibrationRecord
ensure_record_capacity records incoming maximum =
    if contains_key incoming records || ltb (length records) maximum
    then records
    else remove_oldest records

-- The keys' texts are those of `serde_json`.
pub record MaterializationObservation : Type 0 where
  pub stable_id : String
  pub estimated_micros : ℕ
  pub actual_micros : ℕ

pub record CalibrationObservation : Type 0 where
  pub stable_id : String
  pub waiting_requests : Option ℕ
  pub input_tokens : ℕ
  pub output_tokens : ℕ
  pub time_to_first_token_micros : Option ℕ
  pub generation_micros : Option ℕ
  pub topology_micros : Option ℕ
  pub materialization : Option MaterializationObservation
  pub completed : Bool

abbrev pub is_some : Option ℕ → Bool
is_some none = false
is_some (some _) = true

unfoldable pub has_sample : CalibrationObservation → Bool
has_sample o =
    (is_some o.time_to_first_token_micros && ltb 0 o.input_tokens && is_some o.waiting_requests)
    || (is_some o.generation_micros && ltb 0 o.output_tokens)
    || is_some o.topology_micros
    || is_some_and o.materialization (λ m. ltb 0 m.estimated_micros)

-- The four parts of an observation, each with whether it changed the record.
abbrev pub Sampled : Type 0
Sampled = CalibrationRecord × Bool

unfoldable pub sample_first_token : CalibrationPolicy → CalibrationObservation → Sampled → Sampled
unfolding update value_or
sample_first_token policy o (r, changed) = elim o.time_to_first_token_micros [
  | none ↦ (r, changed)
  | some ttft ↦ if not (ltb 0 o.input_tokens) then (r, changed) else elim o.waiting_requests [
    | none ↦ (r, changed)
    | some waiting ↦
        if nat_beq waiting 0
        then (
          record r {
            prefill_micros_per_token =
                update r.prefill_micros_per_token (ttft / max o.input_tokens 1) policy
                  policy.max_unit_micros;
          },
          true,
        )
        else (
          record r {
            queue_micros_per_waiting_request =
                update r.queue_micros_per_waiting_request
                  ((ttft
                      - saturating_mul o.input_tokens (
                          value_or r.prefill_micros_per_token
                            policy.conservative_prefill_micros_per_token))
                    / waiting)
                  policy policy.max_unit_micros;
          },
          true,
        )
  ]
]

unfoldable pub sample_generation : CalibrationPolicy → CalibrationObservation → Sampled → Sampled
unfolding update
sample_generation policy o (r, changed) = elim o.generation_micros [
  | none ↦ (r, changed)
  | some micros ↦
      if ltb 0 o.output_tokens
      then (
        record r {
          decode_micros_per_token =
              update r.decode_micros_per_token (micros / o.output_tokens) policy
                policy.max_unit_micros;
        },
        true,
      )
      else (r, changed)
]

unfoldable pub sample_topology : CalibrationPolicy → CalibrationObservation → Sampled → Sampled
unfolding update
sample_topology policy o (r, changed) = elim o.topology_micros [
  | none ↦ (r, changed)
  | some micros ↦ (
    record r { topology_micros = update r.topology_micros micros policy policy.max_unit_micros },
    true,
  )
]

-- The first key of a full map of paths makes room for a new one.
unfoldable pub path_capacity :
    CalibrationPolicy → String → Dict String MetricEstimate → Dict String MetricEstimate
path_capacity policy id [] = []
path_capacity policy id ((k, m) ∷ rest) =
    if not (contains_key id ((k, m) ∷ rest))
      && leb policy.max_materialization_paths_per_record (length ((k, m) ∷ rest))
    then rest
    else (k, m) ∷ rest

unfoldable pub sample_path :
    CalibrationPolicy
    → MaterializationObservation
    → Dict String MetricEstimate
    → Dict String MetricEstimate
unfolding update
sample_path policy o paths =
    let kept = path_capacity policy o.stable_id paths in
    insert o.stable_id
      (update (unwrap_or no_estimate (lookup o.stable_id kept))
        (saturating_mul o.actual_micros 10000 / o.estimated_micros) policy
        policy.max_materialization_ratio_bps)
      kept

unfoldable pub sample_materialization :
    CalibrationPolicy → CalibrationObservation → Sampled → Sampled
unfolding sample_path
sample_materialization policy o (r, changed) = elim o.materialization [
  | none ↦ (r, changed)
  | some m ↦
      if ltb 0 m.estimated_micros
      then (
        record r { materialization_ratio_bps = sample_path policy m r.materialization_ratio_bps },
        true,
      )
      else (r, changed)
]

unfoldable pub sample_record :
    CalibrationPolicy → CalibrationObservation → CalibrationRecord → Sampled
unfolding sample_first_token sample_generation sample_topology sample_materialization
sample_record policy o r =
    sample_materialization policy o (
      sample_topology policy o
        (sample_generation policy o (sample_first_token policy o (r, false))))

-- The sampled record is written back, under a new revision if it changed.
unfoldable pub store_sample :
    String → CalibrationState → Dict String CalibrationRecord → Sampled → CalibrationState × Bool
store_sample id st records (r, changed) =
    let revision = saturating_add st.revision 1 in
    if changed
    then (
      record st {
        revision = revision;
        records = insert id (record r { last_updated_revision = revision }) records;
      },
      true,
    )
    else (record st { records = insert id r records }, false)

-- The records after an observation, and whether it changed one.
unfoldable pub observe :
    CalibrationPolicy → CalibrationObservation → CalibrationState → CalibrationState × Bool
unfolding sample_record ensure_record_capacity store_sample
observe policy o st =
    let records = ensure_record_capacity st.records o.stable_id policy.max_records in
    store_sample o.stable_id st records
      (sample_record policy o (unwrap_or no_record (lookup o.stable_id records)))

unfoldable pub record_observation :
    CalibrationPolicy → Storage → Calibrator → CalibrationObservation → Done
unfolding observe
record_observation policy storage c o =
    if not o.completed
    then (c, ok tt)
    else if not (has_sample o)
    then (c, ok tt)
    else if c.poisoned
    then (c, err lock_poisoned)
    else let (st, changed) = observe policy o c.state in
      if changed
      then commit_update_locked policy storage (record c { state = st })
      else (record c { state = st }, ok tt)

unfoldable pub shadow_decision : Bool → String → String → ShadowEvidence → ShadowEvidence
shadow_decision replay_consistent legacy calibrated s = record {
  decisions = saturating_add s.decisions 1;
  agreements = if legacy == calibrated then saturating_add s.agreements 1 else s.agreements;
  replay_mismatches =
      if not replay_consistent then saturating_add s.replay_mismatches 1 else s.replay_mismatches;
}

unfoldable pub record_shadow_decision :
    CalibrationPolicy → Storage → Calibrator → Bool → String → String → Done
unfolding shadow_decision
record_shadow_decision policy storage c replay_consistent legacy calibrated =
    if c.poisoned
    then (c, err lock_poisoned)
    else commit_update_locked policy storage (record c {
      state = record c.state {
        shadow = shadow_decision replay_consistent legacy calibrated c.state.shadow;
        revision = saturating_add c.state.revision 1;
      };
    })
