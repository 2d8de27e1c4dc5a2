-- ===== src/Core/Context.antt =====
-- crates/core/src/context.rs: the operation context of one request. The clock and the shared
-- cancellation flags are read from a `World`, which stands for the instant of a call.
use locus.Base.{ℕ, Bool, Option, none, some, String, leb, ◌-◌, if◌then◌else◌, is_some_and}
use locus.Base.Results.{Result, ok, err, ◌>>◌, reject_if}

-- What an operation reads of its surroundings: `Instant::now`, the flag behind each cancellation
-- token and whether the receiver of a ticket's channel is still held.
pub record World : Type 0 where
  pub now : ℕ
  pub cancelled : ℕ → Bool
  pub receiver_open : ℕ → Bool

pub record OperationContext : Type 0 where
  pub request_id : String
  pub tenant_id : Option String
  pub deadline : Option ℕ
  pub cancellation : ℕ

pub data ContextError : Type 0 where
  cancelled deadline_exceeded : ContextError

unfoldable pub new : String → ℕ → OperationContext
new id token = record { request_id = id; tenant_id = none; deadline = none; cancellation = token }

unfoldable pub with_tenant_id : OperationContext → String → OperationContext
with_tenant_id c t = record c { tenant_id = some t }

unfoldable pub with_deadline : OperationContext → ℕ → OperationContext
with_deadline c d = record c { deadline = some d }

-- `saturating_duration_since` is the subtraction that stops at 0.
unfoldable pub remaining : World → OperationContext → Option ℕ
remaining w c = elim c.deadline [ none ↦ none | some d ↦ some (d - w.now) ]

unfoldable pub ensure_active : World → OperationContext → Result ContextError (Unit {0})
ensure_active w c = do
  reject_if (w.cancelled c.cancellation) ContextError.cancelled
  reject_if (is_some_and c.deadline (λ d. leb d w.now)) deadline_exceeded

-- What the first poll that finds a branch ready sees: the flag, the deadline's timer and the
-- future's output.
pub record Poll {ℓ} (A : Type ℓ) : Type ℓ where
  pub flag : Bool
  pub expired : Bool
  pub output : Option A

-- The biased `select!`: the first ready branch in the order of the text; `none` while none is.
unfoldable pub select {ℓ} : {A : Type ℓ} → Option ℕ → Poll A → Option (Result ContextError A)
select none p =
    if p.flag
    then some (err ContextError.cancelled)
    else elim p.output [ none ↦ none | some a ↦ some (ok a) ]
select (some d) p =
    if p.flag
    then some (err ContextError.cancelled)
    else if p.expired
    then some (err deadline_exceeded)
    else elim p.output [ none ↦ none | some a ↦ some (ok a) ]

-- `run`: the check at the start, then the first poll with a branch ready.
unfoldable pub run {ℓ} :
    {A : Type ℓ} → World → OperationContext → Poll A → Option (Result ContextError A)
unfolding select ensure_active
run w c p = elim (ensure_active w c) [ err e ↦ some (err e) | ok _ ↦ select c.deadline p ]
