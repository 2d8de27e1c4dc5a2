-- ===== src/Calibration/Capacity.antt =====
-- crates/planner/src/calibration.rs: the number of records, the updates that wait for the storage, and
-- the shadow counters.
use locus.Base.{
  ℕ, ◌+◌, ◌≤◌, ◌≡◌, refl, true, false, not, none, some, String, [], ◌∷◌, arith, Bool-cases, inl,
  inr, ◌⊎◌, ◌==◌, if_cases, ltb, string_key, if◌then◌else◌,
}
use locus.Base.Dict.{Dict, lookup, contains_key, insert, remove, sum_by}
use locus.Base.DictLaws.{sum_by-insert, sum_by-remove}
use locus.Base.Lists.{length}
use locus.Calibration.{CalibrationPolicy}
use locus.Calibration.Records.{
  CalibrationRecord, CalibrationState, CalibrationObservation, oldest_of, remove_oldest,
  ensure_record_capacity, observe, Storage, Calibrator, Done, commit_update_locked,
  persist_and_clear, clear_dirty, persist_locked, write_bytes, record_observation, has_sample,
  older, store_sample, Sampled,
}

length-sum : (m : Dict String CalibrationRecord) → length m ≡ sum_by (λ _ _. 1) m
unfolding sum_by
length-sum [] = refl
length-sum ((k, r) ∷ m) = omega (arith, length-sum m)

contains-some :
    (x : String) (m : Dict String CalibrationRecord)
    → contains_key x m ≡ true
    → (r : CalibrationRecord) × (lookup x m ≡ some r)
unfolding contains_key lookup
contains-some x [] h = absurd (ground arith)
contains-some x ((k, r) ∷ m) h = elim (Bool-cases (k == x)) [
  | inl e ↦ (r, ground arith)
  | inr e ↦ let (r', e') = contains-some x m (ground arith) in (r', ground arith)
]

contains-none :
    (x : String) (m : Dict String CalibrationRecord) → contains_key x m ≡ false → lookup x m ≡ none
unfolding contains_key lookup
contains-none x [] h = refl
contains-none x ((k, r) ∷ m) h = ground (arith, contains-none x m)

older-cases :
    (best : ℕ × String) (k : String) (r : CalibrationRecord)
    → ((older best k r).1 ≡ best.1) ⊎ ((older best k r).1 ≡ k)
unfolding older
older-cases best k r =
    if_cases (λ (p : ℕ × String). (p.1 ≡ best.1) ⊎ (p.1 ≡ k)) _ (λ _. inr refl) (λ _. inl refl)

present_step :
    (x a b k : String) (r : CalibrationRecord) (m : Dict String CalibrationRecord)
    → (x ≡ a) ⊎ (contains_key x m ≡ true)
    → (a ≡ b) ⊎ (a ≡ k)
    → (x ≡ b) ⊎ (contains_key x ((k, r) ∷ m) ≡ true)
unfolding contains_key
present_step x a b k r m h g = ground (arith, string_key.beq_iff k x)

-- The oldest entry is the one the search starts from, or one of the rest.
oldest_of-present :
    (best : ℕ × String) (m : Dict String CalibrationRecord)
    → ((oldest_of best m).1 ≡ best.1) ⊎ (contains_key (oldest_of best m).1 m ≡ true)
unfolding oldest_of
oldest_of-present best [] = inl refl
oldest_of-present best ((k, r) ∷ m) =
    present_step _ _ _ k r m (oldest_of-present (older best k r) m) (older-cases best k r)

length-remove :
    (x : String) (m : Dict String CalibrationRecord)
    → contains_key x m ≡ true
    → length (remove x m) + 1 ≡ length m
length-remove x m h =
    let (r, e) = contains-some x m h in
    ground (
      arith,
      sum_by-remove (λ (_ : String) (_ : CalibrationRecord). 1) x m,
      length-sum m,
      length-sum (remove x m),
    )

length-remove_oldest :
    (m : Dict String CalibrationRecord) → 1 ≤ length m → length (remove_oldest m) + 1 ≡ length m
unfolding remove_oldest contains_key
length-remove_oldest [] h = absurd (omega arith)
length-remove_oldest ((k, r) ∷ m) h =
    length-remove (oldest_of (r.last_updated_revision, k) m).1 ((k, r) ∷ m)
      (elim (present_step _ k k k r m (oldest_of-present (r.last_updated_revision, k) m)
        (inl refl)) [
          | inl same ↦
              ground (arith, string_key.beq_iff k (oldest_of (r.last_updated_revision, k) m).1)
          | inr at ↦ at
        ])

length-insert :
    (x : String) (r : CalibrationRecord) (m : Dict String CalibrationRecord)
    → length (insert x r m) ≡ (if contains_key x m then length m else length m + 1)
length-insert x r m = elim (Bool-cases (contains_key x m)) [
  | inl h ↦
      let (r', e) = contains-some x m h in
      ground (
        arith,
        sum_by-insert (λ (_ : String) (_ : CalibrationRecord). 1) x r m,
        length-sum m,
        length-sum (insert x r m),
      )
  | inr h ↦ ground (
    arith,
    sum_by-insert (λ (_ : String) (_ : CalibrationRecord). 1) x r m,
    length-sum m,
    length-sum (insert x r m),
    contains-none x m,
  )
]

-- A record of any key fits after room was made for that key.
capacity :
    (m : Dict String CalibrationRecord) (x : String) (r : CalibrationRecord) (maximum : ℕ)
    → 1 ≤ maximum
    → length m ≤ maximum
    → length (insert x r (ensure_record_capacity m x maximum)) ≤ maximum
unfolding ensure_record_capacity
capacity m x r maximum some_room h = elim (Bool-cases (contains_key x m)) [
  | inl known ↦ ground (arith, length-insert x r m)
  | inr new ↦ elim (Bool-cases (ltb (length m) maximum)) [
    | inl room ↦ ground (arith, length-insert x r m)
    | inr full ↦ ground (arith, length-insert x r (remove_oldest m), length-remove_oldest m)
  ]
]

store_sample-length :
    (id : String) (st : CalibrationState) (m : Dict String CalibrationRecord) (r : Sampled)
    (maximum : ℕ)
    → 1 ≤ maximum
    → length m ≤ maximum
    → length (store_sample id st (ensure_record_capacity m id maximum) r).0.records ≤ maximum
unfolding store_sample
store_sample-length id st m (r, true) maximum some_room h = capacity m id _ maximum some_room h
store_sample-length id st m (r, false) maximum some_room h = capacity m id _ maximum some_room h

observe-length :
    (policy : CalibrationPolicy) (o : CalibrationObservation) (st : CalibrationState)
    → 1 ≤ policy.max_records
    → length st.records ≤ policy.max_records
    → length (observe policy o st).0.records ≤ policy.max_records
unfolding observe
observe-length policy o st some_room h =
    store_sample-length o.stable_id st st.records _ policy.max_records some_room h

-- The storage operations leave the state as it is.
commit_update_locked-state :
    (policy : CalibrationPolicy) (storage : Storage) (c : Calibrator)
    → (commit_update_locked policy storage c).0.state ≡ c.state
unfolding commit_update_locked persist_and_clear clear_dirty persist_locked write_bytes
commit_update_locked-state policy storage c = ground arith

-- With a limit of at least one record: when the calibrator has at most that many, it has at most that
-- many after `record_observation`, whatever was observed and however the storage answers.
pub record_observation-length :
    (policy : CalibrationPolicy) (storage : Storage) (c : Calibrator) (o : CalibrationObservation)
    → 1 ≤ policy.max_records
    → length c.state.records ≤ policy.max_records
    → length (record_observation policy storage c o).0.state.records ≤ policy.max_records
unfolding record_observation
record_observation-length policy storage c o some_room h =
    if_cases P (not o.completed) (λ _. h)
      λ _.
        if_cases P (not (has_sample o)) (λ _. h)
          λ _.
            if_cases P c.poisoned (λ _. h)
              λ _.
                if_cases P (observe policy o c.state).1
                  (λ _.
                    rw
                      (commit_update_locked-state policy storage
                        (record c { state = (observe policy o c.state).0 }))
                      (observe-length policy o c.state some_room h))
                  (λ _. observe-length policy o c.state some_room h)
  where
    P : Done → Type 0
    P d = length d.0.state.records ≤ policy.max_records
