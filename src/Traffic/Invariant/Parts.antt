-- ===== src/Traffic/Invariant/Parts.antt =====
-- crates/runtime/src/traffic.rs: facts on the measures of active and queued
-- requests that every step of the controller needs.
use locus.Base.{
  ℕ, ◌≤◌, ◌≡◌, refl, none, some, String, List, [], ◌∷◌, string_key, nat_key, ◌==◌, arith,
  Bool-cases, Option-cases, inl, inr,
}
use locus.Base.Dict.{Dict, lookup, sum_by, insert, get_or}
use locus.Base.DictLaws.{lookup-insert, measure-le-sum_by, sum_by_mono}
use locus.Traffic.Policy.{ServiceClassPolicy, TenantPolicy, TrafficControllerInner}
use locus.Traffic.State.{TrafficState, QueuedRequest, ActiveRequest, Queues, put_queue}
use locus.Traffic.Counters.{waiting_sum, waiting_sum_mono}
use locus.Traffic.Invariant.{
  one, tokens, requests_in, tokens_in, requests_by, tokens_by, holding, each, queued_by,
  QueuesConfigured, Inv,
}

-- A part of the active requests is not more than all of them.
pub requests_in-le :
    (c : String) (st : TrafficState) → sum_by (requests_in c) st.active ≤ sum_by one st.active
requests_in-le c st = sum_by_mono (requests_in c) one (λ k a. ground arith) st.active

pub tokens_in-le :
    (c : String) (st : TrafficState) → sum_by (tokens_in c) st.active ≤ sum_by tokens st.active
tokens_in-le c st = sum_by_mono (tokens_in c) tokens (λ k a. ground arith) st.active

pub requests_by-le :
    (t : String) (st : TrafficState) → sum_by (requests_by t) st.active ≤ sum_by one st.active
requests_by-le t st = sum_by_mono (requests_by t) one (λ k a. ground arith) st.active

pub tokens_by-le :
    (t : String) (st : TrafficState) → sum_by (tokens_by t) st.active ≤ sum_by tokens st.active
tokens_by-le t st = sum_by_mono (tokens_by t) tokens (λ k a. ground arith) st.active

pub queued_by-le :
    (t : String) (st : TrafficState)
    → waiting_sum (queued_by t) st.waiting ≤ waiting_sum each st.waiting
queued_by-le t st = waiting_sum_mono (queued_by t) each (λ t' q. ground arith) st.waiting

-- An active request's ticket is in use.
pub holding_active :
    (n : ℕ) (st : TrafficState) → sum_by (holding n) st.active ≡ 0 → lookup n st.active ≡ none
holding_active n st h = elim (Option-cases (lookup n st.active)) [
  | inl e ↦ e
  | inr (a, e) ↦ absurd (ground (arith, measure-le-sum_by (holding n) n st.active))
]

-- Every tenant that has a queue in the map is configured.
abbrev TenantsKnown : TrafficControllerInner → Queues → Type 0
TenantsKnown inner m =
    (t : String) (qs : List QueuedRequest)
    → lookup t m ≡ some qs
    → (tenant : TenantPolicy) × (lookup t inner.tenants ≡ some tenant)

known_insert :
    (inner : TrafficControllerInner) (t t' : String) (qs qs' : List QueuedRequest) (m : Queues)
    (tenant : TenantPolicy)
    → lookup t inner.tenants ≡ some tenant
    → TenantsKnown inner m
    → lookup t' (insert t qs m) ≡ some qs'
    → (tenant' : TenantPolicy) × (lookup t' inner.tenants ≡ some tenant')
known_insert inner t t' qs qs' m tenant known h e = elim (Bool-cases (t == t')) [
  | inl same ↦ (tenant, rw (← (string_key.beq_iff t t').0 same) known)
  | inr other ↦ h t' qs' (ground (arith, lookup-insert t t' qs m))
]

known_get_or :
    (inner : TrafficControllerInner) (c : String) (ws : Dict String Queues)
    → QueuesConfigured inner ws
    → TenantsKnown inner (get_or [] c ws)
unfolding lookup
known_get_or inner c ws h t qs e = elim (Option-cases (lookup c ws)) [
  | inl n ↦ absurd (ground arith)
  | inr (m, e') ↦ (h c m e').1 t qs (ground arith)
]

pub put_queue-QueuesConfigured :
    (inner : TrafficControllerInner) (ws : Dict String Queues) (c t : String)
    (qs : List QueuedRequest) (class : ServiceClassPolicy) (tenant : TenantPolicy)
    → QueuesConfigured inner ws
    → lookup c inner.classes ≡ some class
    → lookup t inner.tenants ≡ some tenant
    → QueuesConfigured inner (put_queue ws c t qs)
unfolding put_queue
put_queue-QueuesConfigured inner ws c t qs class tenant h known_class known_tenant c' m' e =
    elim (Bool-cases (c == c')) [
      | inr other ↦ h c' m' (ground (arith, lookup-insert c c' (insert t qs (get_or [] c ws)) ws))
      | inl same ↦
          let key : c ≡ c' = (string_key.beq_iff c c').0 same in
          let shape : insert t qs (get_or [] c ws) ≡ m' =
            ground (arith, lookup-insert c c' (insert t qs (get_or [] c ws)) ws) in
          (
            (class, rw (← key) known_class),
            λ t' qs' e'.
                known_insert inner t t' qs qs' (get_or [] c ws) tenant known_tenant
                  (known_get_or inner c ws h) (rw (shape) e'),
          )
    ]

-- The state `st` with the fields of `other` of which the invariant says nothing: virtual runtimes,
-- statistics, channels and the mutex's flag.
abbrev pub touch : TrafficState → TrafficState → TrafficState
touch st other = record st {
  class_vruntime = other.class_vruntime;
  tenant_vruntime = other.tenant_vruntime;
  admissions = other.admissions;
  rejections = other.rejections;
  terminations = other.terminations;
  queue_wait_micros = other.queue_wait_micros;
  queue_wait_count = other.queue_wait_count;
  forced_cancellations = other.forced_cancellations;
  channels = other.channels;
  poisoned = other.poisoned;
}

pub touch-Inv :
    (inner : TrafficControllerInner) (st other : TrafficState)
    → Inv inner st
    → Inv inner (touch st other)
touch-Inv inner st other inv = record {
  counted = record {
    class_requests = inv.counted.class_requests;
    class_tokens = inv.counted.class_tokens;
    tenant_requests = inv.counted.tenant_requests;
    tenant_tokens = inv.counted.tenant_tokens;
    queued = inv.counted.queued;
    queued_tokens = inv.counted.queued_tokens;
    queued_total = inv.counted.queued_total;
  };
  within = record {
    requests_within = inv.within.requests_within;
    tokens_within = inv.within.tokens_within;
    queue_within = inv.within.queue_within;
    class_within = inv.within.class_within;
    tenant_within = inv.within.tenant_within;
    tenant_queue_within = inv.within.tenant_queue_within;
    queued_sized = inv.within.queued_sized;
  };
  ticketed = record {
    active_distinct = inv.ticketed.active_distinct;
    queues_distinct = inv.ticketed.queues_distinct;
    single = inv.ticketed.single;
    fresh = inv.ticketed.fresh;
  };
  configured = inv.configured;
  drained = inv.drained;
}

-- A ticket that no active request has is not held.
pub holding-none : (n : ℕ) (m : Dict ℕ ActiveRequest) → lookup n m ≡ none → sum_by (holding n) m ≡ 0
unfolding lookup sum_by
holding-none n [] h = refl
holding-none n ((k, a) ∷ m) h = ground (arith, holding-none n m)
