-- ===== src/Traffic/Drain.antt =====
-- crates/runtime/src/traffic.rs: `begin_drain`, `resume` and `drain`.
use locus.Base.{
  ℕ, Bool, true, false, Option, none, some, String, List, [], ◌∷◌, string_key, nat_key,
  if◌then◌else◌, nat_beq,
}
use locus.Base.Dict.{Dict, lookup, insert}
use locus.Base.Lists.{length}
use locus.Base.Words.{saturating_add}
use locus.Base.Results.{Result, ok, err}
use locus.Core.Context.{World}
use locus.Traffic.Policy.{TenantPolicy, TrafficControllerInner}
use locus.Traffic.State.{
  AdmissionError, TrafficState, QueuedRequest, ActiveRequest, Queues, refused, unavailable,
  decrement, record_rejection_locked, active_requests,
}

-- One queued request is refused; the answer is lost if nobody holds the receiver.
unfoldable pub refuse_queued :
    World → TrafficState → TenantPolicy → String → QueuedRequest → TrafficState
unfolding decrement record_rejection_locked
refuse_queued world st tenant tenant_id queued =
    let st' =
      record_rejection_locked
        (record st {
          tenant_queued_requests = decrement st.tenant_queued_requests tenant_id 1;
          tenant_queued_tokens = decrement st.tenant_queued_tokens tenant_id queued.token_cost;
        })
        tenant "draining" in
    if world.receiver_open queued.ticket
    then record st' {
      channels = insert queued.ticket (refused AdmissionError.draining) st'.channels;
    }
    else st'

unfoldable pub refuse_queue :
    World → TrafficState → TenantPolicy → String → List QueuedRequest → TrafficState
refuse_queue world st tenant tenant_id [] = st
refuse_queue world st tenant tenant_id (q ∷ rest) =
    refuse_queue world (refuse_queued world st tenant tenant_id q) tenant tenant_id rest

-- The queues of one class; an unknown tenant's are skipped.
unfoldable pub refuse_queues : TrafficControllerInner → World → TrafficState → Queues → TrafficState
refuse_queues inner world st [] = st
refuse_queues inner world st ((tenant_id, queue) ∷ rest) =
    refuse_queues inner world
      (elim (lookup tenant_id inner.tenants) [
        | none ↦ st
        | some tenant ↦ refuse_queue world st tenant tenant_id queue
      ])
      rest

unfoldable pub refuse_all :
    TrafficControllerInner → World → TrafficState → Dict String Queues → TrafficState
refuse_all inner world st [] = st
refuse_all inner world st ((_, queues) ∷ rest) =
    refuse_all inner world (refuse_queues inner world st queues) rest

unfoldable pub begin_drain :
    TrafficControllerInner → World → TrafficState → TrafficState × Result AdmissionError (Unit {0})
begin_drain inner world st =
    if st.poisoned
    then (st, err unavailable)
    else if st.draining
    then (st, ok tt)
    else (refuse_all inner world (record st { draining = true; waiting = [] }) st.waiting, ok tt)

unfoldable pub resume : TrafficState → TrafficState × Result AdmissionError (Unit {0})
resume st = if st.poisoned then (st, err unavailable) else (record st { draining = false }, ok tt)

unfoldable pub is_draining : TrafficState → Bool
is_draining st = if st.poisoned then true else st.draining

pub record DrainReport : Type 0 where
  pub completed : Bool
  pub forced_cancellations : ℕ

-- The tokens of the requests that are active when the grace ends.
unfoldable pub cancellations : Dict ℕ ActiveRequest → List ℕ
cancellations [] = []
cancellations ((_, a) ∷ rest) = a.cancellation ∷ cancellations rest

-- One round of the loop in `drain`: the report when nothing is active, else `none`, and the loop
-- waits for `idle` or the deadline.
unfoldable pub drain_round : TrafficState → Result AdmissionError (Option DrainReport)
drain_round st =
    if st.poisoned
    then err unavailable
    else if nat_beq (active_requests st) 0
    then ok (some (record { completed = true; forced_cancellations = 0 }))
    else ok none

-- `drain` after its loop ran into the deadline: the tokens that are cancelled, and the report.
unfoldable pub force_drain :
    TrafficState → TrafficState × Result AdmissionError (DrainReport × List ℕ)
force_drain st =
    let tokens = cancellations st.active in
    if st.poisoned then (st, err unavailable) else (
      record st { forced_cancellations = saturating_add st.forced_cancellations (length tokens) },
      ok (record { completed = false; forced_cancellations = length tokens }, tokens),
    )
