-- ===== src/Engine/Drained.antt =====
-- crates/engine/src/lib.rs: what a drain of one engine reports.
use locus.Base.{◌≡◌, ◌≢◌, true, false, some, String, List, [], ◌∷◌, ◌⊎◌, string_key}
use locus.Base.Dict.{Dict, lookup}
use locus.Base.Lists.{length, is_empty}
use locus.Engine.{EngineRegistry, RegisteredEngine, EngineLifecycle}
use locus.Engine.Drain.{Turn, Wait, Drained, tokens}

-- The registries that a round counted and then stopped the engine in.
abbrev pub IsRound : EngineRegistry → EngineRegistry → EngineRegistry → Turn → List Wait → Type 0
IsRound counted found r turn [] = (counted ≡ turn.before r) × (found ≡ turn.between (turn.before r))
IsRound counted found r turn (w ∷ waits) =
    ((counted ≡ turn.before r) × (found ≡ turn.between (turn.before r)))
    ⊎ IsRound counted found (turn.before r) w.turn waits

-- A report in time. Nothing was under way when the last round counted; after the round's stop the engine
-- does not drain idly, and no token was cancelled. If no other task came between the count and the stop,
-- nothing is under way and the engine does not drain any more.
pub record InTime (id : String) (start : EngineRegistry) (turn : Turn) (waits : List Wait)
    (d : Drained) : Type 0 where
  pub counted : EngineRegistry
  pub stopping : EngineRegistry
  pub rounds : IsRound counted stopping start turn waits
  pub seen : RegisteredEngine
  pub seen_at : lookup id counted.entries ≡ some seen
  pub idle : seen.active ≡ []
  pub entry : RegisteredEngine
  pub entry_at : lookup id d.left.entries ≡ some entry
  pub settled : entry.lifecycle ≡ EngineLifecycle.draining → is_empty entry.active ≡ false
  pub undisturbed :
      stopping ≡ counted → (entry.lifecycle ≢ EngineLifecycle.draining) × (entry.active ≡ [])
  pub completed : d.report.completed ≡ true
  pub spared : d.cancelled ≡ []

-- A report after the grace: the tokens of all that is under way were cancelled, and counted.
pub record Forced (id : String) (d : Drained) (e : RegisteredEngine) : Type 0 where
  pub late : d.report.completed ≡ false
  pub found : lookup id d.left.entries ≡ some e
  pub cancelled : d.cancelled ≡ tokens e
  pub counted : d.report.forced_cancellations ≡ length e.active

abbrev pub Outcome : String → EngineRegistry → Turn → List Wait → Drained → Type 0
Outcome id start turn waits d =
    InTime id start turn waits d ⊎ ((e : RegisteredEngine) × Forced id d e)
