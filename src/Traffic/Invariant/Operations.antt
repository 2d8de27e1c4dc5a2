-- ===== src/Traffic/Invariant/Operations.antt =====
-- crates/runtime/src/traffic.rs: `admit`, `release`, `cancel_waiter` and what follows a wait always
-- return, keep the invariant and account for their ticket.
use locus.Base.{
  ℕ, ◌<◌, ◌≤◌, ◌≡◌, sym, inl, inr, false, ◌||◌, Option, none, some, String, string_key, nat_key,
  nat_beq, arith, Option-cases, if_cases, ltb, leb, subst, is_some_and,
}
use locus.Base.Dict.{lookup}
use locus.Base.Results.{Result-cases}
use locus.Base.Words.{u64_max}
use locus.Core.Context.{World, OperationContext, ensure_active}
use locus.Traffic.Policy.{ServiceClassPolicy, TenantPolicy, TrafficControllerInner}
use locus.Traffic.State.{
  TrafficState, count, queue_of, queued_requests, release_active_locked, released,
  record_rejection_locked, active_token_utilization_bps,
}
use locus.Traffic.Counters.{waiting_sum}
use locus.Traffic.Schedule.{release}
use locus.Traffic.Admission.{
  admit, admit_tenant, admit_sized, admit_locked, enqueue, take_ticket, cancel_waiter, drop_queued,
  record_rejection,
}
use locus.Traffic.Invariant.{each, queued_by, IsSized, IsConfigured, Inv}
use locus.Traffic.Invariant.Parts.{touch-Inv}
use locus.Traffic.Invariant.Release.{released-Inv}
use locus.Traffic.Invariant.Queued.{enqueue-Inv, drop_queued-Inv}
use locus.Traffic.Invariant.Schedule.{schedule_locked-IsSettled}

-- An operation returned a state that keeps the invariant.
abbrev pub Keeps : {R : Type 0} → TrafficControllerInner → Option (TrafficState × R) → Type 0
Keeps inner none = ⊥
Keeps inner (some (st, _)) = Inv inner st

record_rejection_locked-Inv :
    (inner : TrafficControllerInner) (st : TrafficState) (tenant : TenantPolicy) (reason : String)
    → Inv inner st
    → Inv inner (record_rejection_locked st tenant reason)
unfolding record_rejection_locked
record_rejection_locked-Inv inner st tenant reason inv =
    touch-Inv inner st (record_rejection_locked st tenant reason) inv

record_rejection-Inv :
    (inner : TrafficControllerInner) (st : TrafficState) (tenant : TenantPolicy) (reason : String)
    → Inv inner st
    → Inv inner (record_rejection st tenant reason)
unfolding record_rejection
record_rejection-Inv inner st tenant reason inv =
    if_cases (Inv inner) st.poisoned (λ _. inv)
      (λ _. record_rejection_locked-Inv inner st tenant reason inv)

queue_open :
    (inner : TrafficControllerInner) (st : TrafficState)
    → IsSized inner
    → Inv inner st
    → leb inner.policy.max_queued_requests (queued_requests st) ≡ false
    → waiting_sum each st.waiting < inner.policy.max_queued_requests
unfolding queued_requests
queue_open inner st sized inv h =
    ground (arith, inv.counted.queued_total, inv.within.queue_within, sized.queue_sized)

tenant_queue_open :
    (inner : TrafficControllerInner) (st : TrafficState) (tenant : TenantPolicy)
    → Inv inner st
    → leb tenant.max_queued_requests (count st.tenant_queued_requests tenant.id) ≡ false
    → waiting_sum (queued_by tenant.id) st.waiting < tenant.max_queued_requests
tenant_queue_open inner st tenant inv h = ground (arith, inv.counted.queued tenant.id)

module _ (inner : TrafficControllerInner) (world : World) (st : TrafficState)
    (sized : IsSized inner) (inv : Inv inner st) where
  admit_locked-Keeps :
      (tenant : TenantPolicy) (class : ServiceClassPolicy) (cost : ℕ) (context : OperationContext)
      → lookup tenant.id inner.tenants ≡ some tenant
      → lookup tenant.service_class inner.classes ≡ some class
      → cost ≤ inner.policy.max_active_tokens
      → st.next_ticket < u64_max
      → Keeps inner (admit_locked inner world st tenant class cost context)
  unfolding admit_locked
  admit_locked-Keeps tenant class cost context known known_class affordable left =
      if_cases (Keeps inner) st.poisoned (λ _. inv)
        λ _.
          if_cases (Keeps inner) st.draining (λ _. rejected "draining")
            λ serving.
              if_cases (Keeps inner)
                (is_some_and class.shed_at_global_utilization_bps
                  (λ threshold. leb threshold (active_token_utilization_bps st inner.policy)))
                (λ _. rejected "overload_shed")
                λ _.
                  if_cases (Keeps inner)
                    (leb inner.policy.max_queued_requests (queued_requests st)
                      || leb tenant.max_queued_requests (count st.tenant_queued_requests tenant.id))
                    (λ _. rejected "queue_full")
                    λ free.
                      let settled =
                        schedule_locked-IsSettled inner world
                          (enqueue inner world st tenant cost context) sized
                          (enqueue-Inv inner world st tenant class cost context sized inv known
                            known_class (queue_open inner st sized inv (ground arith))
                            (tenant_queue_open inner st tenant inv (ground arith)) affordable left
                            serving) in
                      rw settled.1 settled.2
    where
      rejected : (reason : String) → Inv inner (record_rejection_locked st tenant reason)
      rejected reason = record_rejection_locked-Inv inner st tenant reason inv

  admit_sized-Keeps :
      (tenant : TenantPolicy) (class : ServiceClassPolicy) (cost : ℕ) (context : OperationContext)
      → lookup tenant.id inner.tenants ≡ some tenant
      → lookup tenant.service_class inner.classes ≡ some class
      → st.next_ticket < u64_max
      → Keeps inner (admit_sized inner world st tenant class cost context)
  unfolding admit_sized
  admit_sized-Keeps tenant class cost context known known_class left =
      if_cases (Keeps inner) (nat_beq cost 0 || ltb tenant.max_tokens_per_request cost)
        (λ _. record_rejection-Inv inner st tenant "request_token_limit" inv)
        λ _.
          if_cases (Keeps inner)
            (ltb inner.policy.max_active_tokens cost
              || ltb class.max_active_tokens cost
              || ltb tenant.max_active_tokens cost)
            (λ _. record_rejection-Inv inner st tenant "active_token_capacity" inv)
            λ fits.
              admit_locked-Keeps tenant class cost context known known_class (ground arith) left

  admit_tenant-Keeps :
      (cost : ℕ) (context : OperationContext) (id : String)
      → IsConfigured inner
      → st.next_ticket < u64_max
      → Keeps inner (admit_tenant inner world st cost context id)
  unfolding admit_tenant
  admit_tenant-Keeps cost context id configured left =
      elim (Option-cases (lookup id inner.tenants)) [
        | inl e ↦ rw (e, Keeps) inv
        | inr (tenant, e) ↦
            let (class, e') = configured.tenant_class id tenant e in
            rw (e, Keeps)
              (rw (e', Keeps)
                (admit_sized-Keeps tenant class cost context
                  (subst (λ (x : String). lookup x inner.tenants ≡ some tenant)
                    (sym (configured.tenant_id id tenant e)) e)
                  e' left))
      ]

  -- When the limits on requests and on the queue are machine integers and the limit on active
  -- tokens is below u64::MAX, every tenant is listed under its own id with a configured class and
  -- the ticket counter is below u64::MAX: on a state that keeps the invariant (exact counters, kept
  -- limits, unique tickets, configured queues, nothing queued while draining), `admit` up to its
  -- wait returns on every branch without a failed `expect`, and the state it leaves keeps the
  -- invariant.
  pub admit-Keeps :
      (cost : ℕ) (context : OperationContext)
      → IsConfigured inner
      → st.next_ticket < u64_max
      → Keeps inner (admit inner world st cost context)
  unfolding admit
  admit-Keeps cost context configured left = elim (Result-cases (ensure_active world context)) [
    | inr (e, inactive) ↦ rw (inactive, Keeps) inv
    | inl (_, active) ↦ elim (Option-cases context.tenant_id) [
      | inl e ↦ rw (active, Keeps) (rw (e, Keeps) inv)
      | inr (id, e) ↦
          rw (active, Keeps) (rw (e, Keeps) (admit_tenant-Keeps cost context id configured left))
    ]
  ]

  -- When the limits on requests and on the queue are machine integers and the limit on active tokens
  -- is below u64::MAX: on a state that keeps the invariant, `release` of any ticket returns, with what
  -- it schedules next, and the state it leaves keeps the invariant.
  pub release-Keeps : (n : ℕ) → Keeps inner (release inner world st n)
  unfolding release release_active_locked
  release-Keeps n =
      if_cases (Keeps inner) st.poisoned (λ _. inv)
        λ _. elim (Option-cases (lookup n st.active)) [
          | inl e ↦ rw (e, Keeps) inv
          | inr (a, e) ↦
              let settled =
                schedule_locked-IsSettled inner world (released st n a) sized
                  (released-Inv inner st n a sized inv e) in
              rw (e, Keeps) (rw settled.1 settled.2)
        ]

  -- When the limits on requests and on the queue are machine integers and the limit on active
  -- tokens is below u64::MAX, every tenant is listed under its own id with a configured class and
  -- the tenant is one of the configuration: on a state that keeps the invariant, `cancel_waiter` of
  -- any ticket returns, with what it schedules next, and the state it leaves keeps the invariant.
  pub cancel_waiter-Keeps :
      (n : ℕ) (tenant : TenantPolicy) (reason : String)
      → IsConfigured inner
      → lookup tenant.id inner.tenants ≡ some tenant
      → Keeps inner (cancel_waiter inner world st n tenant reason)
  unfolding cancel_waiter
  cancel_waiter-Keeps n tenant reason configured known =
      if_cases (Keeps inner) st.poisoned (λ _. inv)
        λ _.
          elim (Option-cases (take_ticket n (queue_of st.waiting tenant.service_class tenant.id))) [
            | inl e ↦ rw (e, Keeps) inv
            | inr ((q, others), e) ↦
                let (class, known_class) = configured.tenant_class tenant.id tenant known in
                let settled =
                  schedule_locked-IsSettled inner world (drop_queued st tenant reason q others)
                    sized
                    (drop_queued-Inv inner st tenant class reason n q others sized inv known
                      known_class e) in
                rw (e, Keeps) (rw settled.1 settled.2)
          ]
