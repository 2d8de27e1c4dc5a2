-- ===== src/Traffic/Invariant.antt =====
-- crates/runtime/src/traffic.rs: what holds of the controller's state whenever the lock is free.
pub mod Parts
pub mod Steps
pub mod Release
pub mod Queued
pub mod Schedule
pub mod Operations
pub mod Wait
pub mod Reach
pub mod Granted
pub mod Notified
use locus.Base.{
  ℕ, ◌+◌, ◌≤◌, ◌<◌, ◌≡◌, Bool, true, false, Option, none, some, String, List, [], ◌∷◌, string_key,
  nat_key, if◌then◌else◌, ◌==◌, nat_beq, ltb,
}
use locus.Base.Dict.{Dict, lookup, sum_by, IsDistinct}
use locus.Base.Words.{u64_mod, u64_max}
use locus.Traffic.Policy.{ServiceClassPolicy, TenantPolicy, TrafficControllerInner}
use locus.Traffic.State.{TrafficState, QueuedRequest, ActiveRequest, Queues, count}
use locus.Traffic.Counters.{waiting_sum, QueuesDistinct, CountsModulo}

-- Measures of the active requests: their number and tokens, those of one class and of one tenant,
-- and the uses of one ticket.
abbrev pub one : ℕ → ActiveRequest → ℕ
one _ _ = 1

abbrev pub tokens : ℕ → ActiveRequest → ℕ
tokens _ a = a.token_cost

abbrev pub requests_in : String → ℕ → ActiveRequest → ℕ
requests_in c _ a = if a.class == c then 1 else 0

abbrev pub tokens_in : String → ℕ → ActiveRequest → ℕ
tokens_in c _ a = if a.class == c then a.token_cost else 0

abbrev pub requests_by : String → ℕ → ActiveRequest → ℕ
requests_by t _ a = if a.tenant == t then 1 else 0

abbrev pub tokens_by : String → ℕ → ActiveRequest → ℕ
tokens_by t _ a = if a.tenant == t then a.token_cost else 0

abbrev pub holding : ℕ → ℕ → ActiveRequest → ℕ
holding n k _ = if nat_beq k n then 1 else 0

-- Measures of the queued requests.
abbrev pub each : String → QueuedRequest → ℕ
each _ _ = 1

abbrev pub queued_by : String → String → QueuedRequest → ℕ
queued_by t t' _ = if t' == t then 1 else 0

abbrev pub queued_tokens_by : String → String → QueuedRequest → ℕ
queued_tokens_by t t' q = if t' == t then q.token_cost else 0

abbrev pub oversized : ℕ → String → QueuedRequest → ℕ
oversized limit _ q = if ltb limit q.token_cost then 1 else 0

abbrev pub waiting_with : ℕ → String → QueuedRequest → ℕ
waiting_with n _ q = if nat_beq q.ticket n then 1 else 0

-- How often a ticket is in use, by active and queued requests.
abbrev pub uses : ℕ → TrafficState → ℕ
uses n st = sum_by (holding n) st.active + waiting_sum (waiting_with n) st.waiting

-- A tenant is listed under its own id, and its class is configured.
pub record IsConfigured (inner : TrafficControllerInner) : Type 0 where
  pub tenant_id :
      (id : String) (tenant : TenantPolicy) → lookup id inner.tenants ≡ some tenant → tenant.id ≡ id
  pub tenant_class :
      (id : String) (tenant : TenantPolicy)
      → lookup id inner.tenants ≡ some tenant
      → (class : ServiceClassPolicy) × (lookup tenant.service_class inner.classes ≡ some class)

-- The limits are machine integers, and the one on tokens is not the greatest: there the saturating
-- test of `choose_candidate` would pass for every request.
pub record IsSized (inner : TrafficControllerInner) : Type 0 where
  pub requests_sized : inner.policy.max_active_requests < u64_mod
  pub tokens_sized : inner.policy.max_active_tokens < u64_max
  pub queue_sized : inner.policy.max_queued_requests < u64_mod

-- The counters are exact; the one of queued tokens, which no limit bounds, up to its wrap-around.
pub record IsCounted (st : TrafficState) : Type 0 where
  pub class_requests :
      (c : String) → count st.class_active_requests c ≡ sum_by (requests_in c) st.active
  pub class_tokens : (c : String) → count st.class_active_tokens c ≡ sum_by (tokens_in c) st.active
  pub tenant_requests :
      (t : String) → count st.tenant_active_requests t ≡ sum_by (requests_by t) st.active
  pub tenant_tokens :
      (t : String) → count st.tenant_active_tokens t ≡ sum_by (tokens_by t) st.active
  pub queued :
      (t : String) → count st.tenant_queued_requests t ≡ waiting_sum (queued_by t) st.waiting
  pub queued_tokens :
      (t : String)
      → CountsModulo
          (lookup t st.tenant_queued_tokens)
          (waiting_sum (queued_tokens_by t) st.waiting)
  pub queued_total : sum_by (λ _ n. n) st.tenant_queued_requests ≡ waiting_sum each st.waiting

-- The limits of the controller, its classes and its tenants are kept, and no queued request alone
-- exceeds the limit on active tokens.
pub record IsWithin (inner : TrafficControllerInner) (st : TrafficState) : Type 0 where
  pub requests_within : sum_by one st.active ≤ inner.policy.max_active_requests
  pub tokens_within : sum_by tokens st.active ≤ inner.policy.max_active_tokens
  pub queue_within : waiting_sum each st.waiting ≤ inner.policy.max_queued_requests
  pub class_within :
      (c : String) (class : ServiceClassPolicy)
      → lookup c inner.classes ≡ some class
      → (sum_by (requests_in c) st.active ≤ class.max_active_requests)
        × (sum_by (tokens_in c) st.active ≤ class.max_active_tokens)
  pub tenant_within :
      (t : String) (tenant : TenantPolicy)
      → lookup t inner.tenants ≡ some tenant
      → (sum_by (requests_by t) st.active ≤ tenant.max_active_requests)
        × (sum_by (tokens_by t) st.active ≤ tenant.max_active_tokens)
  pub tenant_queue_within :
      (t : String) (tenant : TenantPolicy)
      → lookup t inner.tenants ≡ some tenant
      → waiting_sum (queued_by t) st.waiting ≤ tenant.max_queued_requests
  pub queued_sized : waiting_sum (oversized inner.policy.max_active_tokens) st.waiting ≡ 0

-- No ticket is used twice, neither by queued nor by active requests, and none above the last one
-- given out.
pub record IsTicketed (st : TrafficState) : Type 0 where
  pub active_distinct : IsDistinct st.active
  pub queues_distinct : QueuesDistinct st.waiting
  pub single : (n : ℕ) → sum_by (holding n) st.active + waiting_sum (waiting_with n) st.waiting ≤ 1
  pub fresh :
      (n : ℕ)
      → st.next_ticket < n
      → sum_by (holding n) st.active + waiting_sum (waiting_with n) st.waiting ≡ 0

-- Every class and tenant that has a queue is configured.
abbrev pub QueuesConfigured : TrafficControllerInner → Dict String Queues → Type 0
QueuesConfigured inner ws =
    (c : String) (m : Queues)
    → lookup c ws ≡ some m
    → ((class : ServiceClassPolicy) × (lookup c inner.classes ≡ some class))
      × ((t : String) (qs : List QueuedRequest)
          → lookup t m ≡ some qs
          → (tenant : TenantPolicy) × (lookup t inner.tenants ≡ some tenant))

pub record Inv (inner : TrafficControllerInner) (st : TrafficState) : Type 0 where
  pub counted : IsCounted st
  pub within : IsWithin inner st
  pub ticketed : IsTicketed st
  pub configured : QueuesConfigured inner st.waiting
  pub drained : st.draining ≡ true → waiting_sum each st.waiting ≡ 0
