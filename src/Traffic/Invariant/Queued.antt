-- ===== src/Traffic/Invariant/Queued.antt =====
-- crates/runtime/src/traffic.rs: a request that joins its queue, and one that leaves it without
-- being admitted, keep the invariant.
use locus.Base.{
  ℕ, ◌+◌, ◌≤◌, ◌<◌, ◌≡◌, false, some, String, List, [], ◌∷◌, ◌++◌, string_key, nat_key, nat_beq,
  arith, Bool-cases, Option-cases, inl, inr,
}
use locus.Base.Dict.{Dict, lookup}
use locus.Base.Lists.{sum_of}
use locus.Base.Words.{u64_max, u64_mod, saturate-eq_of_le, saturating_add}
use locus.Core.Context.{World, OperationContext}
use locus.Traffic.Policy.{ServiceClassPolicy, TenantPolicy, TrafficControllerInner}
use locus.Traffic.State.{TrafficState, QueuedRequest, Queues, queue_of, push_back, put_queue}
use locus.Traffic.Counters.{
  waiting_sum, count-increment, count-decrement, increment-CountsModulo, decrement-CountsModulo,
  sum_by-increment, sum_by-decrement, waiting_sum-put_queue, waiting_sum-push_back,
  push_back-QueuesDistinct, put_queue-QueuesDistinct,
}
use locus.Traffic.Admission.{enqueue, take_ticket, drop_queued}
use locus.Traffic.Invariant.{
  each, queued_by, queued_tokens_by, oversized, waiting_with, IsSized, Inv, QueuesConfigured,
}
use locus.Traffic.Invariant.Parts.{queued_by-le, put_queue-QueuesConfigured}

push_back-QueuesConfigured :
    (inner : TrafficControllerInner) (ws : Dict String Queues) (c t : String) (q : QueuedRequest)
    (class : ServiceClassPolicy) (tenant : TenantPolicy)
    → QueuesConfigured inner ws
    → lookup c inner.classes ≡ some class
    → lookup t inner.tenants ≡ some tenant
    → QueuesConfigured inner (push_back ws c t q)
unfolding push_back
push_back-QueuesConfigured inner ws c t q class tenant h k l =
    put_queue-QueuesConfigured inner ws c t (queue_of ws c t ++ q ∷ []) class tenant h k l

module _ (inner : TrafficControllerInner) (world : World) (st : TrafficState)
    (tenant : TenantPolicy) (class : ServiceClassPolicy) (cost : ℕ) (context : OperationContext)
    (sized : IsSized inner) (inv : Inv inner st)
    (known_tenant : lookup tenant.id inner.tenants ≡ some tenant)
    (known_class : lookup tenant.service_class inner.classes ≡ some class)
    (open_queue : waiting_sum each st.waiting < inner.policy.max_queued_requests)
    (tenant_open : waiting_sum (queued_by tenant.id) st.waiting < tenant.max_queued_requests)
    (affordable : cost ≤ inner.policy.max_active_tokens) (tickets_left : st.next_ticket < u64_max)
    (serving : st.draining ≡ false) where
  abbrev request : QueuedRequest
  request = record {
    ticket = saturating_add st.next_ticket 1;
    token_cost = cost;
    enqueued_at = world.now;
    cancellation = context.cancellation;
  }

  waiting_grows :
      (w : String → QueuedRequest → ℕ)
      → waiting_sum w (push_back st.waiting tenant.service_class tenant.id request)
        ≡ waiting_sum w st.waiting + w tenant.id request
  waiting_grows w = waiting_sum-push_back w st.waiting tenant.service_class tenant.id request

  new_ticket : saturating_add st.next_ticket 1 ≡ st.next_ticket + 1
  new_ticket = saturate-eq_of_le u64_max (st.next_ticket + 1) (omega arith)

  -- The new request's ticket is the next one, so nobody holds it.
  pub enqueue-Inv : Inv inner (enqueue inner world st tenant cost context)
  unfolding enqueue
  enqueue-Inv = record {
    counted = record {
      class_requests = inv.counted.class_requests;
      class_tokens = inv.counted.class_tokens;
      tenant_requests = inv.counted.tenant_requests;
      tenant_tokens = inv.counted.tenant_tokens;
      queued = λ t. ground (
        arith,
        count-increment st.tenant_queued_requests tenant.id t 1,
        inv.counted.queued tenant.id,
        inv.counted.queued t,
        queued_by-le tenant.id st,
        waiting_grows (queued_by t),
        sized.queue_sized,
      );
      queued_tokens = λ t.
          increment-CountsModulo st.tenant_queued_tokens tenant.id t cost _ _
            (inv.counted.queued_tokens t) (waiting_grows (queued_tokens_by t));
      queued_total = ground (
        arith,
        sum_by-increment st.tenant_queued_requests tenant.id 1,
        inv.counted.queued tenant.id,
        inv.counted.queued_total,
        queued_by-le tenant.id st,
        waiting_grows each,
        sized.queue_sized,
      );
    };
    within = record {
      requests_within = inv.within.requests_within;
      tokens_within = inv.within.tokens_within;
      queue_within = ground (arith, waiting_grows each);
      class_within = inv.within.class_within;
      tenant_within = inv.within.tenant_within;
      tenant_queue_within = λ t tenant' known. ground (
        arith,
        waiting_grows (queued_by t),
        inv.within.tenant_queue_within t tenant' known,
        string_key.beq_iff tenant.id t,
      );
      queued_sized = ground (
        arith,
        waiting_grows (oversized inner.policy.max_active_tokens),
        inv.within.queued_sized,
        affordable,
      );
    };
    ticketed = record {
      active_distinct = inv.ticketed.active_distinct;
      queues_distinct =
          push_back-QueuesDistinct st.waiting tenant.service_class tenant.id request
            inv.ticketed.queues_distinct;
      single = λ n. ground (
        arith,
        waiting_grows (waiting_with n),
        new_ticket,
        inv.ticketed.single n,
        inv.ticketed.fresh n,
      );
      fresh = λ n above.
          ground (arith, waiting_grows (waiting_with n), new_ticket, inv.ticketed.fresh n);
    };
    configured =
        push_back-QueuesConfigured inner st.waiting tenant.service_class tenant.id request class
          tenant inv.configured known_class known_tenant;
    drained = λ d. absurd (ground arith);
  }

-- What `take_ticket` finds has the ticket, and measures of the rest are less by its own.
pub take_ticket-sum :
    (w : QueuedRequest → ℕ) (n : ℕ) (qs : List QueuedRequest) (q : QueuedRequest)
    (others : List QueuedRequest)
    → take_ticket n qs ≡ some (q, others)
    → (q.ticket ≡ n) × (sum_of w others + w q ≡ sum_of w qs)
unfolding take_ticket
take_ticket-sum w n [] q others h = absurd (ground arith)
take_ticket-sum w n (x ∷ xs) q others h = elim (Bool-cases (nat_beq x.ticket n)) [
  | inl same ↦ ground arith
  | inr other ↦ elim (Option-cases (take_ticket n xs)) [
    | inl e ↦ absurd (ground arith)
    | inr ((found, rest), e) ↦ ground (arith, take_ticket-sum w n xs found rest e)
  ]
]

module _ (inner : TrafficControllerInner) (st : TrafficState) (tenant : TenantPolicy)
    (class : ServiceClassPolicy) (reason : String) (n : ℕ) (q : QueuedRequest)
    (others : List QueuedRequest) (sized : IsSized inner) (inv : Inv inner st)
    (known_tenant : lookup tenant.id inner.tenants ≡ some tenant)
    (known_class : lookup tenant.service_class inner.classes ≡ some class)
    (taken : take_ticket n (queue_of st.waiting tenant.service_class tenant.id)
      ≡ some (q, others)) where
  waiting_loses :
      (w : String → QueuedRequest → ℕ)
      → waiting_sum w (put_queue st.waiting tenant.service_class tenant.id others) + w tenant.id q
        ≡ waiting_sum w st.waiting
  waiting_loses w = omega (
    arith,
    waiting_sum-put_queue w st.waiting tenant.service_class tenant.id others,
    (take_ticket-sum (w tenant.id) n (queue_of st.waiting tenant.service_class tenant.id) q others
        taken).1,
  )

  queued_some : 1 ≤ waiting_sum (queued_by tenant.id) st.waiting
  queued_some =
      ground (arith, waiting_loses (queued_by tenant.id), string_key.beq_iff tenant.id tenant.id)

  cost_fits : q.token_cost ≤ u64_mod
  cost_fits = ground (
    arith,
    waiting_loses (oversized inner.policy.max_active_tokens),
    inv.within.queued_sized,
    sized.tokens_sized,
  )

  pub drop_queued-Inv : Inv inner (drop_queued st tenant reason q others)
  unfolding drop_queued
  drop_queued-Inv = record {
    counted = record {
      class_requests = inv.counted.class_requests;
      class_tokens = inv.counted.class_tokens;
      tenant_requests = inv.counted.tenant_requests;
      tenant_tokens = inv.counted.tenant_tokens;
      queued = λ t. ground (
        arith,
        count-decrement st.tenant_queued_requests tenant.id t 1,
        inv.counted.queued tenant.id,
        inv.counted.queued t,
        queued_some,
        queued_by-le tenant.id st,
        waiting_loses (queued_by t),
        sized.queue_sized,
        inv.within.queue_within,
      );
      queued_tokens = λ t.
          decrement-CountsModulo st.tenant_queued_tokens tenant.id t q.token_cost _ _
            (inv.counted.queued_tokens t) (waiting_loses (queued_tokens_by t)) cost_fits;
      queued_total = ground (
        arith,
        sum_by-decrement st.tenant_queued_requests tenant.id 1,
        inv.counted.queued tenant.id,
        inv.counted.queued_total,
        queued_some,
        queued_by-le tenant.id st,
        waiting_loses each,
        sized.queue_sized,
        inv.within.queue_within,
      );
    };
    within = record {
      requests_within = inv.within.requests_within;
      tokens_within = inv.within.tokens_within;
      queue_within = ground (arith, waiting_loses each, inv.within.queue_within);
      class_within = inv.within.class_within;
      tenant_within = inv.within.tenant_within;
      tenant_queue_within = λ t tenant' known.
          omega
            (arith, waiting_loses (queued_by t), inv.within.tenant_queue_within t tenant' known);
      queued_sized = omega (
        arith,
        waiting_loses (oversized inner.policy.max_active_tokens),
        inv.within.queued_sized,
      );
    };
    ticketed = record {
      active_distinct = inv.ticketed.active_distinct;
      queues_distinct =
          put_queue-QueuesDistinct st.waiting tenant.service_class tenant.id others
            inv.ticketed.queues_distinct;
      single = λ k. ground (arith, waiting_loses (waiting_with k), inv.ticketed.single k);
      fresh = λ k above. ground (arith, waiting_loses (waiting_with k), inv.ticketed.fresh k above);
    };
    configured =
        put_queue-QueuesConfigured inner st.waiting tenant.service_class tenant.id others class
          tenant inv.configured known_class known_tenant;
    drained = λ d. ground (arith, waiting_loses each, inv.drained d);
  }
