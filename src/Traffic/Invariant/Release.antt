-- ===== src/Traffic/Invariant/Release.antt =====
-- crates/runtime/src/traffic.rs: `release_active_locked` and the delivery of a permit keep the
-- invariant.
use locus.Base.{ℕ, ◌+◌, ◌≡◌, some, string_key, nat_key, arith, Bool-cases, Option-cases, inl, inr}
use locus.Base.Dict.{lookup, sum_by, remove, insert}
use locus.Base.DictLaws.{sum_by-remove, IsDistinct-remove}
use locus.Core.Context.{World}
use locus.Traffic.Policy.{TrafficControllerInner}
use locus.Traffic.State.{TrafficState, ActiveRequest, granted, released, release_active_locked}
use locus.Traffic.Counters.{count-decrement}
use locus.Traffic.Schedule.{deliver}
use locus.Traffic.Invariant.{
  one, tokens, requests_in, tokens_in, requests_by, tokens_by, holding, IsSized, IsCounted,
  IsWithin, Inv,
}
use locus.Traffic.Invariant.Parts.{
  touch-Inv, requests_in-le, tokens_in-le, requests_by-le, tokens_by-le,
}

module _ (inner : TrafficControllerInner) (st : TrafficState) (n : ℕ) (a : ActiveRequest)
    (sized : IsSized inner) (inv : Inv inner st) (found : lookup n st.active ≡ some a) where
  -- Measures of the active requests shrink by the one that is released.
  active_shrinks :
      (f : ℕ → ActiveRequest → ℕ) → sum_by f (remove n st.active) + f n a ≡ sum_by f st.active
  active_shrinks f = ground (arith, sum_by-remove f n st.active)

  released-IsCounted : IsCounted (released st n a)
  unfolding released
  released-IsCounted = record {
    class_requests = λ c. ground (
      arith,
      count-decrement st.class_active_requests a.class c 1,
      inv.counted.class_requests a.class,
      inv.counted.class_requests c,
      requests_in-le a.class st,
      active_shrinks (requests_in c),
      active_shrinks (requests_in a.class),
      string_key.beq_iff a.class a.class,
      inv.within.requests_within,
      sized.requests_sized,
    );
    class_tokens = λ c. ground (
      arith,
      count-decrement st.class_active_tokens a.class c a.token_cost,
      inv.counted.class_tokens a.class,
      inv.counted.class_tokens c,
      tokens_in-le a.class st,
      active_shrinks (tokens_in c),
      active_shrinks (tokens_in a.class),
      string_key.beq_iff a.class a.class,
      inv.within.tokens_within,
      sized.tokens_sized,
    );
    tenant_requests = λ t. ground (
      arith,
      count-decrement st.tenant_active_requests a.tenant t 1,
      inv.counted.tenant_requests a.tenant,
      inv.counted.tenant_requests t,
      requests_by-le a.tenant st,
      active_shrinks (requests_by t),
      active_shrinks (requests_by a.tenant),
      string_key.beq_iff a.tenant a.tenant,
      inv.within.requests_within,
      sized.requests_sized,
    );
    tenant_tokens = λ t. ground (
      arith,
      count-decrement st.tenant_active_tokens a.tenant t a.token_cost,
      inv.counted.tenant_tokens a.tenant,
      inv.counted.tenant_tokens t,
      tokens_by-le a.tenant st,
      active_shrinks (tokens_by t),
      active_shrinks (tokens_by a.tenant),
      string_key.beq_iff a.tenant a.tenant,
      inv.within.tokens_within,
      sized.tokens_sized,
    );
    queued = inv.counted.queued;
    queued_tokens = inv.counted.queued_tokens;
    queued_total = inv.counted.queued_total;
  }

  released-IsWithin : IsWithin inner (released st n a)
  unfolding released
  released-IsWithin = record {
    requests_within = omega (arith, active_shrinks one, inv.within.requests_within);
    tokens_within = omega (arith, active_shrinks tokens, inv.within.tokens_within);
    queue_within = inv.within.queue_within;
    class_within = λ c class known. ground (
      arith,
      active_shrinks (requests_in c),
      active_shrinks (tokens_in c),
      inv.within.class_within c class known,
    );
    tenant_within = λ t tenant known. ground (
      arith,
      active_shrinks (requests_by t),
      active_shrinks (tokens_by t),
      inv.within.tenant_within t tenant known,
    );
    tenant_queue_within = inv.within.tenant_queue_within;
    queued_sized = inv.within.queued_sized;
  }

  pub released-Inv : Inv inner (released st n a)
  unfolding released
  released-Inv = record {
    counted = released-IsCounted;
    within = released-IsWithin;
    ticketed = record {
      active_distinct = IsDistinct-remove n st.active inv.ticketed.active_distinct;
      queues_distinct = inv.ticketed.queues_distinct;
      single = λ k. ground (arith, active_shrinks (holding k), inv.ticketed.single k);
      fresh = λ k above. ground (arith, active_shrinks (holding k), inv.ticketed.fresh k above);
    };
    configured = inv.configured;
    drained = inv.drained;
  }

-- A permit is delivered or released.
pub deliver-Inv :
    (inner : TrafficControllerInner) (world : World) (st : TrafficState) (n : ℕ)
    → IsSized inner
    → Inv inner st
    → Inv inner (deliver world st n)
unfolding deliver
deliver-Inv inner world st n sized inv = elim (Bool-cases (world.receiver_open n)) [
  | inl e ↦ rw e (touch-Inv inner st (record st { channels = insert n granted st.channels }) inv)
  | inr e ↦ elim (Option-cases (lookup n st.active)) [
    | inl none_active ↦ rw e (rw (none_active, release_active_locked) inv)
    | inr (a, found) ↦
        rw e (rw (found, release_active_locked) (released-Inv inner st n a sized inv found))
  ]
]
