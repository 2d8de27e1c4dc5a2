-- ===== src/Engine/Drain.antt =====
-- crates/engine/src/lib.rs: `drain` and `drain_all`. What other tasks do to the registry between the
-- locks that a drain takes is an argument.
use locus.Base.{
  ℕ, Bool, true, false, Option, none, some, String, List, [], ◌∷◌, ◌++◌, map, nat_beq,
  if◌then◌else◌, string_key,
}
use locus.Base.Dict.{Dict, lookup}
use locus.Base.Lists.{length}
use locus.Base.Results.{Result, ok, err, ◌>>=◌, ◌>>◌, ok_or}
use locus.Executor.{EngineError, target_not_found, registry}
use locus.Engine.{
  EngineRegistry, RegisteredEngine, EngineDrainReport, locked, begin_drain, begin_drain_all,
  active_executions, active_executions_for, stop_drained, stop_drained_engine,
}

-- What other tasks do to the registry before a round's count or the read of the tokens, and between the
-- count and the lock that stops what is idle.
pub record Turn : Type 0 where
  pub before : EngineRegistry → EngineRegistry
  pub between : EngineRegistry → EngineRegistry

-- A wait: whether the grace ran out in it, and what other tasks do in it and after it.
pub record Wait : Type 0 where
  pub timed_out : Bool
  pub turn : Turn

-- What a drain leaves: the registry, its report and the tokens that it cancelled.
pub record Drained : Type 0 where
  pub left : EngineRegistry
  pub report : EngineDrainReport
  pub cancelled : List ℕ

abbrev pub tokens : RegisteredEngine → List ℕ
tokens e = map (λ entry. entry.1) e.active

abbrev pub all_tokens : Dict String RegisteredEngine → List ℕ
all_tokens [] = []
all_tokens ((id, e) ∷ m) = tokens e ++ all_tokens m

abbrev pub drained_report : EngineRegistry → Drained
drained_report r = record {
  left = r;
  report = record { completed = true; forced_cancellations = 0 };
  cancelled = [];
}

abbrev pub forced_report : EngineRegistry → List ℕ → Drained
forced_report r cancelled = record {
  left = r;
  report = record { completed = false; forced_cancellations = length cancelled };
  cancelled = cancelled;
}

-- A round of a loop: the count, and what stops the idle engines when there is nothing under way. They
-- take two locks: the registry that is counted, and the one that the second lock finds.
abbrev pub check :
    Result EngineError ℕ
    → Result EngineError EngineRegistry
    → Result EngineError (Option EngineRegistry)
check count stop = do
  active ← count
  if nat_beq active 0 then stop >>= (λ r. ok (some r)) else ok none

unfoldable pub check_engine :
    String → EngineRegistry → EngineRegistry → Result EngineError (Option EngineRegistry)
unfolding active_executions_for stop_drained_engine
check_engine id counted found =
    check (active_executions_for counted id) (stop_drained_engine found id)

unfoldable pub check_all :
    EngineRegistry → EngineRegistry → Result EngineError (Option EngineRegistry)
unfolding active_executions stop_drained
check_all counted found = check (active_executions counted) (stop_drained found)

unfoldable pub force_engine : String → EngineRegistry → Result EngineError Drained
force_engine id r = do
  locked r
  entry ← ok_or (target_not_found id) (lookup id r.entries)
  ok (forced_report r (tokens entry))

unfoldable pub force_all : EngineRegistry → Result EngineError Drained
force_all r = locked r >> ok (forced_report r (all_tokens r.entries))

-- The loop: `none` while the drain still waits.
module _ (round : EngineRegistry → EngineRegistry → Result EngineError (Option EngineRegistry))
    (force : EngineRegistry → Result EngineError Drained) where
  unfoldable pub drain_rounds :
      EngineRegistry → Turn → List Wait → Option (Result EngineError Drained)
  drain_rounds r turn [] = elim (round (turn.before r) (turn.between (turn.before r))) [
    | err e ↦ some (err e)
    | ok (some left) ↦ some (ok (drained_report left))
    | ok none ↦ none
  ]
  drain_rounds r turn (w ∷ waits) =
      let counted = turn.before r in
      let later = drain_rounds counted w.turn waits in
      elim (round counted (turn.between counted)) [
        | err e ↦ some (err e)
        | ok (some left) ↦ some (ok (drained_report left))
        | ok none ↦ if w.timed_out then some (force (w.turn.before counted)) else later
      ]

-- Whether the deadline is in the timer's range.
abbrev pub begin :
    Result EngineError EngineRegistry
    → Bool
    → (EngineRegistry → Option (Result EngineError Drained))
    → Option (Result EngineError Drained)
begin (err e) in_range loop = some (err e)
begin (ok r) false loop = some (err (registry "engine drain grace exceeds timer range"))
begin (ok r) true loop = loop r

unfoldable pub drain :
    EngineRegistry → String → Bool → Turn → List Wait → Option (Result EngineError Drained)
unfolding begin_drain drain_rounds check_engine force_engine
drain r id in_range turn waits =
    begin (begin_drain r id) in_range
      (λ r. drain_rounds (check_engine id) (force_engine id) r turn waits)

unfoldable pub drain_all :
    EngineRegistry → Bool → Turn → List Wait → Option (Result EngineError Drained)
unfolding begin_drain_all drain_rounds check_all force_all
drain_all r in_range turn waits =
    begin (begin_drain_all r) in_range (λ r. drain_rounds check_all force_all r turn waits)
