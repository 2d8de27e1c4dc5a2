-- ===== src/Traffic/Invariant/Steps.antt =====
-- crates/runtime/src/traffic.rs: a request that the scheduler admits keeps the
-- invariant.
use locus.Base.{
  ℕ, ◌+◌, ◌≤◌, ◌<◌, ◌≡◌, true, none, some, String, List, ◌∷◌, string_key, nat_key, arith,
}
use locus.Base.Dict.{lookup, sum_by, insert}
use locus.Base.DictLaws.{sum_by-insert, IsDistinct-insert}
use locus.Base.Words.{u64_max, saturate-exact, saturate-eq_of_le}
use locus.Core.Context.{World}
use locus.Traffic.Policy.{ServiceClassPolicy, TenantPolicy, TrafficControllerInner}
use locus.Traffic.State.{
  TrafficState, QueuedRequest, ActiveRequest, count, queue_of, put_queue, active_tokens,
}
use locus.Traffic.Counters.{
  waiting_sum, count-increment, count-decrement, decrement-CountsModulo, sum_by-decrement,
  waiting_sum-put_queue, sum_of-le_waiting, put_queue-QueuesDistinct,
}
use locus.Traffic.Candidates.{fits}
use locus.Traffic.Schedule.{activate}
use locus.Traffic.Invariant.{
  one, tokens, requests_in, tokens_in, requests_by, tokens_by, holding, each, queued_by,
  queued_tokens_by, oversized, waiting_with, IsSized, IsCounted, IsWithin, IsTicketed, Inv,
}
use locus.Traffic.Invariant.Parts.{
  requests_in-le, tokens_in-le, requests_by-le, tokens_by-le, queued_by-le, holding_active,
  put_queue-QueuesConfigured,
}

-- The head of a queue enters `active` and leaves its queue.
module _ (inner : TrafficControllerInner) (world : World) (st : TrafficState) (c t : String)
    (class : ServiceClassPolicy) (tenant : TenantPolicy) (q : QueuedRequest)
    (rest : List QueuedRequest) (sized : IsSized inner) (inv : Inv inner st)
    (at_head : queue_of st.waiting c t ≡ q ∷ rest)
    (free : sum_by one st.active < inner.policy.max_active_requests)
    (fit : fits inner st class tenant c t q.token_cost ≡ true)
    (room : count st.class_active_requests c < class.max_active_requests)
    (known_class : lookup c inner.classes ≡ some class)
    (known_tenant : lookup t inner.tenants ≡ some tenant) where
  abbrev next : TrafficState
  next = activate world (record st { waiting = put_queue st.waiting c t rest }) c t class tenant q

  abbrev entry : ActiveRequest
  entry = record { tenant = t; class = c; token_cost = q.token_cost; cancellation = q.cancellation }

  -- The new total is within the limit, so nothing saturates and nothing wraps.
  tokens_fit : sum_by tokens st.active + q.token_cost ≤ inner.policy.max_active_tokens
  unfolding fits
  tokens_fit = ground (
    arith,
    saturate-exact u64_max (active_tokens st + q.token_cost) inner.policy.max_active_tokens,
    inv.within.tokens_within,
    sized.tokens_sized,
  )

  class_fit : sum_by (tokens_in c) st.active + q.token_cost ≤ class.max_active_tokens
  unfolding fits
  class_fit = ground (
    arith,
    saturate-eq_of_le u64_max (count st.class_active_tokens c + q.token_cost),
    inv.counted.class_tokens c,
    tokens_in-le c st,
    tokens_fit,
    sized.tokens_sized,
  )

  tenant_fit :
      (sum_by (requests_by t) st.active < tenant.max_active_requests)
      × (sum_by (tokens_by t) st.active + q.token_cost ≤ tenant.max_active_tokens)
  unfolding fits
  tenant_fit = ground (
    arith,
    saturate-eq_of_le u64_max (count st.tenant_active_tokens t + q.token_cost),
    inv.counted.tenant_tokens t,
    inv.counted.tenant_requests t,
    tokens_by-le t st,
    tokens_fit,
    sized.tokens_sized,
  )

  ticket_unused : lookup q.ticket st.active ≡ none
  ticket_unused = holding_active q.ticket st (
      ground (
        arith,
        inv.ticketed.single q.ticket,
        sum_of-le_waiting (waiting_with q.ticket) st.waiting c t,
      ))

  queued_some : 1 ≤ waiting_sum (queued_by t) st.waiting
  queued_some =
      ground
        (arith, sum_of-le_waiting (queued_by t) st.waiting c t, string_key.beq_iff t t, at_head)

  -- Measures of the active requests grow by the new one.
  active_grows :
      (f : ℕ → ActiveRequest → ℕ)
      → sum_by f (insert q.ticket entry st.active) ≡ sum_by f st.active + f q.ticket entry
  active_grows f = ground (arith, sum_by-insert f q.ticket entry st.active, ticket_unused)

  -- Measures of the queued requests shrink by the head.
  waiting_shrinks :
      (w : String → QueuedRequest → ℕ)
      → waiting_sum w (put_queue st.waiting c t rest) + w t q ≡ waiting_sum w st.waiting
  waiting_shrinks w = ground (arith, waiting_sum-put_queue w st.waiting c t rest)

  next-IsCounted : IsCounted next
  unfolding activate
  next-IsCounted = record {
    class_requests = λ c'. ground (
      arith,
      count-increment st.class_active_requests c c' 1,
      inv.counted.class_requests c,
      inv.counted.class_requests c',
      requests_in-le c st,
      active_grows (requests_in c'),
      sized.requests_sized,
    );
    class_tokens = λ c'. ground (
      arith,
      count-increment st.class_active_tokens c c' q.token_cost,
      inv.counted.class_tokens c,
      inv.counted.class_tokens c',
      tokens_in-le c st,
      tokens_fit,
      active_grows (tokens_in c'),
      sized.tokens_sized,
    );
    tenant_requests = λ t'. ground (
      arith,
      count-increment st.tenant_active_requests t t' 1,
      inv.counted.tenant_requests t,
      inv.counted.tenant_requests t',
      requests_by-le t st,
      active_grows (requests_by t'),
      sized.requests_sized,
    );
    tenant_tokens = λ t'. ground (
      arith,
      count-increment st.tenant_active_tokens t t' q.token_cost,
      inv.counted.tenant_tokens t,
      inv.counted.tenant_tokens t',
      tokens_by-le t st,
      tokens_fit,
      active_grows (tokens_by t'),
      sized.tokens_sized,
    );
    queued = λ t'. ground (
      arith,
      count-decrement st.tenant_queued_requests t t' 1,
      inv.counted.queued t,
      inv.counted.queued t',
      queued_some,
      queued_by-le t st,
      waiting_shrinks (queued_by t'),
      sized.queue_sized,
      inv.within.queue_within,
    );
    queued_tokens = λ t'.
        decrement-CountsModulo st.tenant_queued_tokens t t' q.token_cost _ _
          (inv.counted.queued_tokens t') (waiting_shrinks (queued_tokens_by t'))
          (omega (arith, tokens_fit, sized.tokens_sized));
    queued_total = ground (
      arith,
      sum_by-decrement st.tenant_queued_requests t 1,
      inv.counted.queued t,
      inv.counted.queued_total,
      queued_some,
      queued_by-le t st,
      waiting_shrinks each,
      sized.queue_sized,
      inv.within.queue_within,
    );
  }

  next-IsWithin : IsWithin inner next
  unfolding activate
  next-IsWithin = record {
    requests_within = ground (arith, active_grows one);
    tokens_within = ground (arith, active_grows tokens, tokens_fit);
    queue_within = ground (arith, waiting_shrinks each, inv.within.queue_within);
    class_within = λ c' class' known. ground (
      arith,
      string_key.beq_iff c c',
      active_grows (requests_in c'),
      active_grows (tokens_in c'),
      inv.within.class_within c' class' known,
      inv.counted.class_requests c,
      class_fit,
    );
    tenant_within = λ t' tenant' known. ground (
      arith,
      string_key.beq_iff t t',
      active_grows (requests_by t'),
      active_grows (tokens_by t'),
      inv.within.tenant_within t' tenant' known,
      tenant_fit,
    );
    tenant_queue_within = λ t' tenant' known.
        omega
          (arith, waiting_shrinks (queued_by t'), inv.within.tenant_queue_within t' tenant' known);
    queued_sized = omega (
      arith,
      waiting_shrinks (oversized inner.policy.max_active_tokens),
      inv.within.queued_sized,
    );
  }

  next-IsTicketed : IsTicketed next
  unfolding activate
  next-IsTicketed = record {
    active_distinct = IsDistinct-insert q.ticket entry st.active inv.ticketed.active_distinct;
    queues_distinct = put_queue-QueuesDistinct st.waiting c t rest inv.ticketed.queues_distinct;
    single = λ n.
        ground (
          arith,
          active_grows (holding n),
          waiting_shrinks (waiting_with n),
          inv.ticketed.single n,
        );
    fresh = λ n above. ground (
      arith,
      active_grows (holding n),
      waiting_shrinks (waiting_with n),
      inv.ticketed.fresh n above,
    );
  }

  pub activate-Inv : Inv inner next
  unfolding activate
  activate-Inv = record {
    counted = next-IsCounted;
    within = next-IsWithin;
    ticketed = next-IsTicketed;
    configured =
        put_queue-QueuesConfigured inner st.waiting c t rest class tenant inv.configured known_class
          known_tenant;
    drained = λ d. ground (arith, waiting_shrinks each, inv.drained d);
  }
