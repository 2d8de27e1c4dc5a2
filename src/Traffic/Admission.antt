-- ===== src/Traffic/Admission.antt =====
-- crates/runtime/src/traffic.rs: `operation_context`, `admit` in its two parts (up to the wait,
-- and the `select!` that ends it), `cancel_waiter` and `record_termination`.
use locus.Base.{
  ℕ, ◌+◌, min, ◌||◌, Option, none, some, String, List, [], ◌∷◌, string_key, nat_key, pair_key,
  if◌then◌else◌, ltb, leb, nat_beq, is_some_and, unwrap_or,
}
use locus.Base.Dict.{lookup, remove}
use locus.Base.Words.{saturating_add}
use locus.Base.Results.{Result, ok, err}
use locus.Core.Context.{
  World, OperationContext, ContextError, deadline_exceeded, ensure_active, with_tenant_id,
  with_deadline,
}
use locus.Core.Context
use locus.Traffic.Policy.{ServiceClassPolicy, TenantPolicy, TrafficControllerInner}
use locus.Traffic.State.{
  AdmissionError, TrafficState, QueuedRequest, granted, refused, missing_trusted_tenant,
  unknown_tenant, invalid_deadline, request_token_limit, request_exceeds_capacity, queue_full,
  overload_shed, unavailable, count, increment, decrement, record_rejection_locked,
  active_token_utilization_bps, queued_requests, push_back, queue_of, put_queue,
}
use locus.Traffic.Candidates.{normalize_idle_vruntime_locked}
use locus.Traffic.Schedule.{schedule_locked, release}

-- `From<ContextError>`.
unfoldable pub admission_error : ContextError → AdmissionError
admission_error ContextError.cancelled = AdmissionError.cancelled
admission_error deadline_exceeded = AdmissionError.deadline_exceeded

-- The latest instant that `checked_add` can represent is a parameter of the platform.
unfoldable pub operation_context :
    ℕ
    → TrafficControllerInner
    → World
    → String
    → ℕ
    → String
    → Option ℕ
    → Result AdmissionError OperationContext
operation_context last_instant inner world request_id token tenant requested_timeout =
    elim (lookup tenant inner.tenants) [
      | none ↦ err (unknown_tenant tenant)
      | some policy ↦
          let timeout =
            min (unwrap_or policy.default_request_timeout requested_timeout)
              policy.max_request_timeout in
          if nat_beq timeout 0
          then err invalid_deadline
          else if ltb last_instant (world.now + timeout)
          then err invalid_deadline
          else ok (
              with_deadline (with_tenant_id (Context.new request_id token) tenant)
                (world.now + timeout))
    ]

-- `record_rejection` does nothing on a poisoned mutex.
unfoldable pub record_rejection : TrafficState → TenantPolicy → String → TrafficState
record_rejection st tenant reason =
    if st.poisoned then st else record_rejection_locked st tenant reason

-- The request joins its queue under a new ticket.
unfoldable pub enqueue :
    TrafficControllerInner
    → World
    → TrafficState
    → TenantPolicy
    → ℕ
    → OperationContext
    → TrafficState
unfolding normalize_idle_vruntime_locked push_back put_queue queue_of increment
enqueue inner world st tenant token_cost context =
    let ticket = saturating_add st.next_ticket 1 in
    let st' = normalize_idle_vruntime_locked inner (record st { next_ticket = ticket }) tenant in
    record st' {
      waiting = push_back st'.waiting tenant.service_class tenant.id (record {
        ticket = ticket;
        token_cost = token_cost;
        enqueued_at = world.now;
        cancellation = context.cancellation;
      });
      tenant_queued_requests = increment st'.tenant_queued_requests tenant.id 1;
      tenant_queued_tokens = increment st'.tenant_queued_tokens tenant.id token_cost;
      admissions = increment st'.admissions (tenant.service_class, (tenant.id, "queued")) 1;
    }

-- The part of `admit` under the lock: an error, or the ticket to wait for.
unfoldable pub admit_locked :
    TrafficControllerInner
    → World
    → TrafficState
    → TenantPolicy
    → ServiceClassPolicy
    → ℕ
    → OperationContext
    → Option (TrafficState × Result AdmissionError ℕ)
admit_locked inner world st tenant class token_cost context =
    if st.poisoned
    then some (st, err unavailable)
    else if st.draining
    then some (record_rejection_locked st tenant "draining", err AdmissionError.draining)
    else if is_some_and class.shed_at_global_utilization_bps
        (λ threshold. leb threshold (active_token_utilization_bps st inner.policy))
    then some (record_rejection_locked st tenant "overload_shed", err overload_shed)
    else if leb inner.policy.max_queued_requests (queued_requests st)
        || leb tenant.max_queued_requests (count st.tenant_queued_requests tenant.id)
    then some (record_rejection_locked st tenant "queue_full", err queue_full)
    else elim (schedule_locked inner world (enqueue inner world st tenant token_cost context)) [
      | none ↦ none
      | some st' ↦ some (st', ok (saturating_add st.next_ticket 1))
    ]

-- The checks of one request's size come before the lock is taken.
unfoldable pub admit_sized :
    TrafficControllerInner
    → World
    → TrafficState
    → TenantPolicy
    → ServiceClassPolicy
    → ℕ
    → OperationContext
    → Option (TrafficState × Result AdmissionError ℕ)
admit_sized inner world st tenant class token_cost context =
    if nat_beq token_cost 0 || ltb tenant.max_tokens_per_request token_cost
    then some (
      record_rejection st tenant "request_token_limit",
      err (request_token_limit token_cost tenant.max_tokens_per_request),
    )
    else if ltb inner.policy.max_active_tokens token_cost
        || ltb class.max_active_tokens token_cost
        || ltb tenant.max_active_tokens token_cost
    then some (record_rejection st tenant "active_token_capacity", err request_exceeds_capacity)
    else admit_locked inner world st tenant class token_cost context

unfoldable pub admit_tenant :
    TrafficControllerInner
    → World
    → TrafficState
    → ℕ
    → OperationContext
    → String
    → Option (TrafficState × Result AdmissionError ℕ)
admit_tenant inner world st token_cost context tenant_id = elim (lookup tenant_id inner.tenants) [
  | none ↦ some (st, err (unknown_tenant tenant_id))
  | some tenant ↦ elim (lookup tenant.service_class inner.classes) [
    | none ↦ none
    | some class ↦ admit_sized inner world st tenant class token_cost context
  ]
]

-- `admit` up to its wait; `none` is a failed `expect`.
unfoldable pub admit :
    TrafficControllerInner
    → World
    → TrafficState
    → ℕ
    → OperationContext
    → Option (TrafficState × Result AdmissionError ℕ)
admit inner world st token_cost context = elim (ensure_active world context) [
  | err e ↦ some (st, err (admission_error e))
  | ok _ ↦ elim context.tenant_id [
    | none ↦ some (st, err missing_trusted_tenant)
    | some tenant_id ↦ admit_tenant inner world st token_cost context tenant_id
  ]
]

-- `position` and `VecDeque::remove`: the entry with the ticket and the queue without it.
unfoldable pub take_ticket : ℕ → List QueuedRequest → Option (QueuedRequest × List QueuedRequest)
take_ticket ticket [] = none
take_ticket ticket (q ∷ rest) =
    let later = take_ticket ticket rest in
    if nat_beq q.ticket ticket
    then some (q, rest)
    else elim later [ none ↦ none | some (found, others) ↦ some (found, q ∷ others) ]

-- The request leaves its queue and is counted as rejected.
unfoldable pub drop_queued :
    TrafficState → TenantPolicy → String → QueuedRequest → List QueuedRequest → TrafficState
unfolding put_queue decrement record_rejection_locked
drop_queued st tenant reason queued others =
    record_rejection_locked
      (record st {
        waiting = put_queue st.waiting tenant.service_class tenant.id others;
        tenant_queued_requests = decrement st.tenant_queued_requests tenant.id 1;
        tenant_queued_tokens = decrement st.tenant_queued_tokens tenant.id queued.token_cost;
      })
      tenant reason

unfoldable pub cancel_waiter :
    TrafficControllerInner
    → World
    → TrafficState
    → ℕ
    → TenantPolicy
    → String
    → Option (TrafficState × Result AdmissionError (Unit {0}))
cancel_waiter inner world st ticket tenant reason =
    if st.poisoned
    then some (st, err unavailable)
    else elim (take_ticket ticket (queue_of st.waiting tenant.service_class tenant.id)) [
      | none ↦ some (st, ok tt)
      | some (queued, others) ↦
          elim (schedule_locked inner world (drop_queued st tenant reason queued others)) [
            | none ↦ none
            | some st' ↦ some (st', ok tt)
          ]
    ]

-- The receiver of the ticket's channel is dropped: a permit in it is dropped too, which releases
-- the request.
unfoldable pub drop_receiver :
    TrafficControllerInner → World → TrafficState → ℕ → Option TrafficState
drop_receiver inner world st ticket = elim (lookup ticket st.channels) [
  | none ↦ some st
  | some (refused e) ↦ some (record st { channels = remove ticket st.channels })
  | some granted ↦
      elim (release inner world (record st { channels = remove ticket st.channels }) ticket) [
        | none ↦ none
        | some (st', _) ↦ some st'
      ]
]

-- Which branch of the biased `select!` ends the wait.
pub data Wake : Type 0 where
  on_cancellation on_deadline on_message : Wake

abbrev pub give_up :
    TrafficControllerInner
    → World
    → Option (TrafficState × Result AdmissionError (Unit {0}))
    → ℕ
    → AdmissionError
    → Option (TrafficState × Result AdmissionError (Unit {0}))
give_up inner world none ticket e = none
give_up inner world (some (st, err f)) ticket e = elim (drop_receiver inner world st ticket) [
  | none ↦ none
  | some st' ↦ some (st', err f)
]
give_up inner world (some (st, ok _)) ticket e = elim (drop_receiver inner world st ticket) [
  | none ↦ none
  | some st' ↦ some (st', err e)
]

-- `admit` from the end of its wait. With `ok` the caller holds the permit of the ticket.
unfoldable pub finish_wait :
    TrafficControllerInner
    → World
    → TrafficState
    → ℕ
    → TenantPolicy
    → Wake
    → Option (TrafficState × Result AdmissionError (Unit {0}))
finish_wait inner world st ticket tenant on_cancellation =
    give_up inner world (cancel_waiter inner world st ticket tenant "cancelled") ticket
      AdmissionError.cancelled
finish_wait inner world st ticket tenant on_deadline =
    give_up inner world (cancel_waiter inner world st ticket tenant "deadline") ticket
      AdmissionError.deadline_exceeded
finish_wait inner world st ticket tenant on_message = elim (lookup ticket st.channels) [
  | none ↦ some (st, err unavailable)
  | some granted ↦ some (record st { channels = remove ticket st.channels }, ok tt)
  | some (refused e) ↦ some (record st { channels = remove ticket st.channels }, err e)
]

unfoldable pub record_termination :
    TrafficControllerInner → TrafficState → OperationContext → String → TrafficState
unfolding increment
record_termination inner st context reason = elim context.tenant_id [
  | none ↦ st
  | some tenant_id ↦ elim (lookup tenant_id inner.tenants) [
    | none ↦ st
    | some tenant ↦ if st.poisoned then st else record st {
      terminations = increment st.terminations (tenant.service_class, (tenant.id, reason)) 1;
    }
  ]
]
