-- ===== src/Traffic/State.antt =====
-- crates/runtime/src/traffic.rs: the controller's mutable state, its counters and the errors of
-- admission. Counters are machine integers, so `+=` and `-=` wrap (`usize` is 64 bits wide).
use locus.Base.{
  ℕ, ◌+◌, ◌*◌, ◌/◌, ◌%◌, ◌++◌, max, Bool, false, Option, none, some, String, List, [], ◌∷◌, Key,
  string_key, nat_key, pair_key, if◌then◌else◌, nat_beq,
}
use locus.Base.Dict.{Dict, lookup, insert, remove, sum_by, get_or}
use locus.Base.Lists.{length}
use locus.Base.Words.{u64_mod, wrapping_add, wrapping_sub, saturate, saturating_mul, u128_max}
use locus.Base.Results.{Result, reject_if}
use locus.Traffic.Policy.{TenantPolicy, TrafficPolicy}

pub data AdmissionError : Type 0 where
  missing_trusted_tenant : AdmissionError
  unknown_tenant : String → AdmissionError
  invalid_deadline : AdmissionError
  request_token_limit : ℕ → ℕ → AdmissionError
  request_exceeds_capacity queue_full overload_shed draining : AdmissionError
  cancelled deadline_exceeded unavailable : AdmissionError

-- What stands in a ticket's channel: the permit, or an error.
pub data Delivery : Type 0 where
  granted : Delivery
  refused : AdmissionError → Delivery

-- The sender of a request's channel is known by its ticket.
pub record QueuedRequest : Type 0 where
  pub ticket : ℕ
  pub token_cost : ℕ
  pub enqueued_at : ℕ
  pub cancellation : ℕ

pub record ActiveRequest : Type 0 where
  pub tenant : String
  pub class : String
  pub token_cost : ℕ
  pub cancellation : ℕ

abbrev pub Queues : Type 0
Queues = Dict String (List QueuedRequest)

-- `channels` holds what was sent to each ticket and not yet received; `poisoned` is the flag of
-- the mutex around the state.
pub record TrafficState : Type 0 where
  pub next_ticket : ℕ
  pub draining : Bool
  pub waiting : Dict String Queues
  pub active : Dict ℕ ActiveRequest
  pub class_active_requests : Dict String ℕ
  pub class_active_tokens : Dict String ℕ
  pub tenant_active_requests : Dict String ℕ
  pub tenant_active_tokens : Dict String ℕ
  pub tenant_queued_requests : Dict String ℕ
  pub tenant_queued_tokens : Dict String ℕ
  pub class_vruntime : Dict String ℕ
  pub tenant_vruntime : Dict String ℕ
  pub admissions : Dict (String × (String × String)) ℕ
  pub rejections : Dict (String × (String × String)) ℕ
  pub terminations : Dict (String × (String × String)) ℕ
  pub queue_wait_micros : Dict (String × String) ℕ
  pub queue_wait_count : Dict (String × String) ℕ
  pub forced_cancellations : ℕ
  pub channels : Dict ℕ Delivery
  pub poisoned : Bool

unfoldable pub initial_state : TrafficState
initial_state = record {
  next_ticket = 0;
  draining = false;
  waiting = [];
  active = [];
  class_active_requests = [];
  class_active_tokens = [];
  tenant_active_requests = [];
  tenant_active_tokens = [];
  tenant_queued_requests = [];
  tenant_queued_tokens = [];
  class_vruntime = [];
  tenant_vruntime = [];
  admissions = [];
  rejections = [];
  terminations = [];
  queue_wait_micros = [];
  queue_wait_count = [];
  forced_cancellations = 0;
  channels = [];
  poisoned = false;
}

module _ {ℓ} {K : Type ℓ} ⦃k : Key K⦄ where
  abbrev pub count : Dict K ℕ → K → ℕ
  count m x = get_or 0 x m

  unfoldable pub increment : Dict K ℕ → K → ℕ → Dict K ℕ
  increment m x v = insert x (wrapping_add (count m x) v) m

  unfoldable pub decrement : Dict K ℕ → K → ℕ → Dict K ℕ
  decrement m x v = elim (lookup x m) [ none ↦ m | some n ↦ insert x (wrapping_sub n v) m ]

unfoldable pub virtual_runtime_delta : ℕ → ℕ → ℕ
virtual_runtime_delta tokens weight =
    max (if nat_beq weight 0 then u128_max else saturate u128_max (tokens * 1000000) / weight) 1

-- `*vruntime = vruntime.saturating_add(delta)` on an entry that is made if it is missing.
unfoldable pub charge : Dict String ℕ → String → ℕ → Dict String ℕ
charge m x delta = insert x (saturate u128_max (count m x + delta)) m

unfoldable pub record_rejection_locked : TrafficState → TenantPolicy → String → TrafficState
unfolding increment
record_rejection_locked st tenant reason = record st {
  rejections = increment st.rejections (tenant.service_class, (tenant.id, reason)) 1;
}

-- `values().map(token_cost).sum::<u64>()`.
unfoldable pub active_tokens : TrafficState → ℕ
active_tokens st = sum_by (λ _ a. a.token_cost) st.active % u64_mod

unfoldable pub active_token_utilization_bps : TrafficState → TrafficPolicy → ℕ
unfolding active_tokens
active_token_utilization_bps st policy =
    saturating_mul (active_tokens st) 10000 / policy.max_active_tokens

unfoldable pub queued_requests : TrafficState → ℕ
queued_requests st = sum_by (λ _ n. n) st.tenant_queued_requests % u64_mod

unfoldable pub active_requests : TrafficState → ℕ
active_requests st = length st.active

-- The queue that a request of the tenant stands in.
unfoldable pub queue_of : Dict String Queues → String → String → List QueuedRequest
queue_of w class tenant = get_or [] tenant (get_or [] class w)

-- The maps with one queue written anew; a missing entry is made.
unfoldable pub put_queue :
    Dict String Queues → String → String → List QueuedRequest → Dict String Queues
put_queue w class tenant qs = insert class (insert tenant qs (get_or [] class w)) w

-- `entry(class).or_default().entry(tenant).or_default().push_back(q)`.
unfoldable pub push_back : Dict String Queues → String → String → QueuedRequest → Dict String Queues
push_back w class tenant q = put_queue w class tenant (queue_of w class tenant ++ q ∷ [])

unfoldable pub take_front :
    Dict String Queues
    → String
    → String
    → List QueuedRequest
    → Option (QueuedRequest × Dict String Queues)
take_front w class tenant [] = none
take_front w class tenant (q ∷ rest) = some (q, put_queue w class tenant rest)

-- `get_mut(class).and_then(get_mut(tenant)).and_then(pop_front)`.
unfoldable pub pop_front :
    Dict String Queues → String → String → Option (QueuedRequest × Dict String Queues)
unfolding take_front
pop_front w class tenant = take_front w class tenant (queue_of w class tenant)

-- The request that holds the ticket leaves `active` and its counters.
unfoldable pub released : TrafficState → ℕ → ActiveRequest → TrafficState
unfolding decrement
released st ticket a = record st {
  active = remove ticket st.active;
  class_active_requests = decrement st.class_active_requests a.class 1;
  class_active_tokens = decrement st.class_active_tokens a.class a.token_cost;
  tenant_active_requests = decrement st.tenant_active_requests a.tenant 1;
  tenant_active_tokens = decrement st.tenant_active_tokens a.tenant a.token_cost;
}

-- `state.active.remove(&ticket)?` with its counters.
unfoldable pub release_active_locked : TrafficState → ℕ → Option (ActiveRequest × TrafficState)
unfolding released
release_active_locked st ticket = elim (lookup ticket st.active) [
  | none ↦ none
  | some a ↦ some (a, released st ticket a)
]

-- `lock_state`.
unfoldable pub lock_state : TrafficState → Result AdmissionError (Unit {0})
lock_state st = reject_if st.poisoned unavailable
