-- ===== src/Traffic/Invariant/Notified.antt =====
-- crates/runtime/src/traffic.rs: `admit` up to its wait, `release` and `cancel_waiter` send every
-- request that they admit its permit.
use locus.Base.{
  ℕ, ◌≡◌, false, Option, none, some, String, string_key, nat_key, arith, Option-cases, inl, inr,
  if_cases, ltb, leb, nat_beq, ◌||◌, is_some_and, subst, sym, ap, ◌∙◌, refl,
}
use locus.Base.Dict.{lookup, IsDistinct}
use locus.Base.Results.{ok, Result-cases}
use locus.Core.Context.{World, OperationContext, ensure_active}
use locus.Traffic.Policy.{ServiceClassPolicy, TenantPolicy, TrafficControllerInner}
use locus.Traffic.State.{
  TrafficState, ActiveRequest, count, granted, queue_of, queued_requests, release_active_locked,
  released, record_rejection_locked, active_token_utilization_bps, initial_state,
}
use locus.Traffic.Schedule.{schedule_locked, release}
use locus.Traffic.Admission.{
  admit, admit_tenant, admit_sized, admit_locked, enqueue, take_ticket, cancel_waiter, drop_queued,
  record_rejection,
}
use locus.Traffic.Invariant.Reach.{IsReachable, at_start, by_admit, by_release, by_cancel}
use locus.Traffic.Invariant.Granted.{IsSent, Leaves, Sends, released-IsSent, schedule_locked-IsSent}
use locus.Traffic.Invariant.{uses, waiting_with, IsSized, IsConfigured, Inv}
use locus.Traffic.Invariant.Reach.{IsReachable-Inv}
use locus.Traffic.Invariant.Wait.{error_of, finish_wait-unused}
use locus.Traffic.Admission.{Wake, finish_wait}
use locus.Traffic.State.{AdmissionError}
use locus.Traffic.Counters.{waiting_sum}
use locus.Base.Lists.{sum_of}
use locus.Base.Results.{err}

-- A field outside `active` and `channels` has changed.
same-IsSent :
    (st st' : TrafficState)
    → st'.active ≡ st.active
    → st'.channels ≡ st.channels
    → IsSent st
    → IsSent st'
same-IsSent st st' e f s = record {
  distinct = subst IsDistinct (sym e) s.distinct;
  sent = λ n a found. ap (lookup n) f ∙ s.sent n a (ap (lookup n) (sym e) ∙ found);
}

-- The state after an operation that schedules at its end.
scheduled :
    {R : Type 0} (inner : TrafficControllerInner) (world : World) (st : TrafficState)
    (result : TrafficState → R)
    → IsSent st
    → Sends (elim (schedule_locked inner world st) as (λ _. Option (TrafficState × R)) [
      | none ↦ none
      | some st' ↦ some (st', result st')
    ])
scheduled inner world st result s = elim (Option-cases (schedule_locked inner world st)) [
  | inl e ↦ rw (e, Sends) tt
  | inr (st', e) ↦ rw (e, Sends) (subst Leaves e (schedule_locked-IsSent inner world st s))
]

release-IsSent :
    (inner : TrafficControllerInner) (world : World) (st : TrafficState) (n : ℕ)
    → IsSent st
    → Sends (release inner world st n)
unfolding release release_active_locked
release-IsSent inner world st n s =
    if_cases Sends st.poisoned (λ _. s)
      λ _. elim (Option-cases (lookup n st.active)) [
        | inl e ↦ rw (e, Sends) s
        | inr (a, e) ↦
            let left = released-IsSent st n a s.distinct (λ k b _ found. s.sent k b found) in
            elim (Option-cases (schedule_locked inner world (released st n a))) [
              | inl e' ↦ rw (e, Sends) (rw (e', Sends) tt)
              | inr (st', e') ↦
                  rw (e, Sends)
                    (rw (e', Sends)
                      (subst Leaves e' (schedule_locked-IsSent inner world (released st n a) left)))
            ]
      ]

cancel_waiter-IsSent :
    (inner : TrafficControllerInner) (world : World) (st : TrafficState) (n : ℕ)
    (tenant : TenantPolicy) (reason : String)
    → IsSent st
    → Sends (cancel_waiter inner world st n tenant reason)
unfolding cancel_waiter drop_queued record_rejection_locked
cancel_waiter-IsSent inner world st n tenant reason s =
    if_cases Sends st.poisoned (λ _. s)
      λ _.
        elim (Option-cases (take_ticket n (queue_of st.waiting tenant.service_class tenant.id))) [
          | inl e ↦ rw (e, Sends) s
          | inr ((q, others), e) ↦
              rw (e, Sends)
                (scheduled inner world (drop_queued st tenant reason q others) (λ _. ok tt)
                  (same-IsSent st (drop_queued st tenant reason q others) refl refl s))
        ]

module _ (inner : TrafficControllerInner) (world : World) (st : TrafficState) (s : IsSent st) where
  rejected :
      (tenant : TenantPolicy) (reason : String) → IsSent (record_rejection_locked st tenant reason)
  unfolding record_rejection_locked
  rejected tenant reason = same-IsSent st (record_rejection_locked st tenant reason) refl refl s

  admit_locked-IsSent :
      (tenant : TenantPolicy) (class : ServiceClassPolicy) (cost : ℕ) (context : OperationContext)
      → Sends (admit_locked inner world st tenant class cost context)
  unfolding admit_locked enqueue
  admit_locked-IsSent tenant class cost context =
      if_cases Sends st.poisoned (λ _. s)
        λ _.
          if_cases Sends st.draining (λ _. rejected tenant "draining")
            λ _.
              if_cases Sends
                (is_some_and class.shed_at_global_utilization_bps
                  (λ threshold. leb threshold (active_token_utilization_bps st inner.policy)))
                (λ _. rejected tenant "overload_shed")
                λ _.
                  if_cases Sends
                    (leb inner.policy.max_queued_requests (queued_requests st)
                      || leb tenant.max_queued_requests (count st.tenant_queued_requests tenant.id))
                    (λ _. rejected tenant "queue_full")
                    λ _.
                      scheduled inner world (enqueue inner world st tenant cost context) (λ _. _)
                        (same-IsSent st (enqueue inner world st tenant cost context) refl refl s)

  admit_sized-IsSent :
      (tenant : TenantPolicy) (class : ServiceClassPolicy) (cost : ℕ) (context : OperationContext)
      → Sends (admit_sized inner world st tenant class cost context)
  unfolding admit_sized record_rejection
  admit_sized-IsSent tenant class cost context =
      if_cases Sends (nat_beq cost 0 || ltb tenant.max_tokens_per_request cost)
        (λ _. if_cases IsSent st.poisoned (λ _. s) (λ _. rejected tenant "request_token_limit"))
        λ _.
          if_cases Sends
            (ltb inner.policy.max_active_tokens cost
              || ltb class.max_active_tokens cost
              || ltb tenant.max_active_tokens cost)
            (λ _.
              if_cases IsSent st.poisoned (λ _. s) (λ _. rejected tenant "active_token_capacity"))
            λ _. admit_locked-IsSent tenant class cost context

  admit-IsSent : (cost : ℕ) (context : OperationContext) → Sends (admit inner world st cost context)
  unfolding admit admit_tenant
  admit-IsSent cost context = elim (Result-cases (ensure_active world context)) [
    | inr (e, inactive) ↦ rw (inactive, Sends) s
    | inl (_, active) ↦ elim (Option-cases context.tenant_id) [
      | inl e ↦ rw (active, Sends) (rw (e, Sends) s)
      | inr (id, e) ↦ elim (Option-cases (lookup id inner.tenants)) [
        | inl e' ↦ rw (active, Sends) (rw (e, Sends) (rw (e', Sends) s))
        | inr (tenant, e') ↦ elim (Option-cases (lookup tenant.service_class inner.classes)) [
          | inl e'' ↦ rw (active, Sends) (rw (e, Sends) (rw (e', Sends) (rw (e'', Sends) tt)))
          | inr (class, e'') ↦
              rw (active, Sends)
                (rw (e, Sends)
                  (rw (e', Sends) (rw (e'', Sends) (admit_sized-IsSent tenant class cost context))))
        ]
      ]
    ]
  ]

reached-IsSent :
    (inner : TrafficControllerInner) (st : TrafficState) → IsReachable inner st → IsSent st
unfolding initial_state lookup
reached-IsSent inner _ at_start = record {
  distinct = tt;
  sent = λ n a found. absurd (ground arith);
}
reached-IsSent inner _ (by_admit world st cost context st' r before left e) =
    subst Sends e (admit-IsSent inner world st (reached-IsSent inner st before) cost context)
reached-IsSent inner _ (by_release world st n st' b before e) =
    subst Sends e (release-IsSent inner world st n (reached-IsSent inner st before))
reached-IsSent inner _ (by_cancel world st n tenant reason st' r before known e) =
    subst Sends e
      (cancel_waiter-IsSent inner world st n tenant reason (reached-IsSent inner st before))

-- In every state that `admit` up to its wait while tickets are left, `release`, and `cancel_waiter`
-- for a configured tenant lead to from the initial one, with any limits and any classes and
-- tenants, the permit of every active request has been sent to its channel.
pub IsReachable-granted :
    (inner : TrafficControllerInner) (st : TrafficState) (n : ℕ) (a : ActiveRequest)
    → IsReachable inner st
    → lookup n st.active ≡ some a
    → lookup n st.channels ≡ some granted
IsReachable-granted inner st n a reached found = (reached-IsSent inner st reached).sent n a found

-- When the limits on requests and on the queue are machine integers and the limit on active tokens
-- is below u64::MAX, every tenant is listed under its own id with a configured class, the tenant is
-- one of the configuration, `admit` up to its wait while tickets are left, `release`, and
-- `cancel_waiter` for a configured tenant led to the state from the initial one, its lock is not
-- poisoned, and the ticket waits in no queue but its tenant's: a wait of the ticket that ends by
-- cancellation or at the deadline returns that error, the state after it keeps the invariant, and
-- the ticket is neither queued nor active, also when its permit had been sent already.
pub reached_wait-unused :
    (inner : TrafficControllerInner) (world : World) (st : TrafficState) (n : ℕ)
    (tenant : TenantPolicy) (w : Wake) (e : AdmissionError)
    → IsSized inner
    → IsConfigured inner
    → IsReachable inner st
    → lookup tenant.id inner.tenants ≡ some tenant
    → st.poisoned ≡ false
    → waiting_sum (waiting_with n) st.waiting
      ≡ sum_of (waiting_with n tenant.id) (queue_of st.waiting tenant.service_class tenant.id)
    → error_of w ≡ some e
    → (st' : TrafficState) × (finish_wait inner world st n tenant w ≡ some (st', err e))
      × Inv inner st'
      × (uses n st' ≡ 0)
reached_wait-unused inner world st n tenant w e sized configured reached known usable placed ends =
    finish_wait-unused inner world st n tenant w e sized
      (IsReachable-Inv inner st sized configured reached) configured known usable placed
      (λ a held. IsReachable-granted inner st n a reached held) ends
