-- ===== src/Examples/Traffic.antt =====
-- crates/runtime/src/traffic.rs: a controller with room for one active request and four queued
-- ones, and two requests of one tenant: the first is active, the second waits.
use locus.Base.{
  ℕ, ◌≤◌, ◌<◌, ◌≡◌, refl, ◌≢◌, ◌⊎◌, Bool, true, false, Option, none, some, String, List, [], ◌∷◌,
  arith, string_key, nat_key, pair_key, Bool-cases, inl, inr, subst, ◌==◌,
}
use locus.Base.Dict.{Dict, lookup, contains_key, insert, remove, replace_at, place, sum_by}
use locus.Base.Lists.{sort, insert_sorted, sum_of}
use locus.Base.Results.{ok, err}
use locus.Base.Words.{u64_max, saturate, wrapping_add, wrapping_sub}
use locus.Core.Context.{World, OperationContext, ensure_active}
use locus.Traffic.Policy.{ServiceClassPolicy, TenantPolicy, TrafficControllerInner}
use locus.Traffic.State.{
  AdmissionError, deadline_exceeded, granted, TrafficState, ActiveRequest, initial_state, count,
  increment, decrement, queue_of, put_queue, push_back, take_front, pop_front, active_requests,
  active_tokens, queued_requests, virtual_runtime_delta, charge, active_token_utilization_bps,
  released, release_active_locked, record_rejection_locked,
}
use locus.Traffic.Counters.{waiting_sum, queues_sum}
use locus.Traffic.Candidates.{
  least, all_empty, normalize_idle_vruntime_locked, fits, runtime_order, tenant_candidates,
  class_entry, class_round, class_candidates, choose_candidate,
}
use locus.Traffic.Candidates.Choice.{
  IsEligible, choose_candidate_sound, choose_candidate_least, choose_candidate_complete,
}
use locus.Traffic.Schedule.{
  add_wait, activate, deliver, admit_head, schedule_rounds, waiting_requests, schedule_locked,
  release,
}
use locus.Traffic.Admission.{
  admit, admit_tenant, admit_sized, admit_locked, enqueue, cancel_waiter, finish_wait, on_deadline,
  on_cancellation,
}
use locus.Traffic.Invariant.{each, uses, waiting_with, IsSized, IsConfigured, Inv}
use locus.Traffic.Invariant.Operations.{Keeps, admit-Keeps, release-Keeps, cancel_waiter-Keeps}
use locus.Traffic.Invariant.Schedule.{schedule_locked_settles}
use locus.Traffic.Invariant.Queued.{enqueue-Inv}
use locus.Traffic.Invariant.Wait.{finish_wait-unused}
use locus.Traffic.Invariant.Notified.{IsReachable-granted, reached_wait-unused}
use locus.Traffic.Invariant.Reach.{
  IsReachable, initial_state-Inv, at_start, by_admit, IsReachable-Inv,
}

abbrev class_c : ServiceClassPolicy
class_c = record {
  id = "c";
  weight = 2;
  max_active_requests = 2;
  max_active_tokens = 80;
  shed_at_global_utilization_bps = none;
}

abbrev tenant_t : TenantPolicy
tenant_t = record {
  id = "t";
  service_class = "c";
  weight = 1;
  max_active_requests = 2;
  max_active_tokens = 60;
  max_queued_requests = 3;
  max_tokens_per_request = 40;
  default_request_timeout = 1000;
  max_request_timeout = 5000;
}

abbrev narrow : TrafficControllerInner
narrow = record {
  policy = record {
    max_active_requests = 1;
    max_active_tokens = 100;
    max_queued_requests = 4;
    default_output_tokens = 8;
    classes = class_c ∷ [];
    tenants = tenant_t ∷ [];
  };
  classes = ("c", class_c) ∷ [];
  tenants = ("t", tenant_t) ∷ [];
}

abbrev calm : World
calm = record { now = 50; cancelled = λ _. false; receiver_open = λ _. true }

abbrev by_t : OperationContext
by_t = record { request_id = "r"; tenant_id = some "t"; deadline = some 900; cancellation = 7 }

abbrev state_of : {R : Type 0} → Option (TrafficState × R) → TrafficState
state_of none = initial_state
state_of (some (st, _)) = st

state_of-Inv :
    {R : Type 0} (inner : TrafficControllerInner) (r : Option (TrafficState × R))
    → Keeps inner r
    → Inv inner (state_of r)
state_of-Inv inner none k = absurd k
state_of-Inv inner (some (st, x)) k = k

abbrev first_active : TrafficState
first_active = state_of (admit narrow calm initial_state 10 by_t)

abbrev second_waits : TrafficState
second_waits = state_of (admit narrow calm first_active 30 by_t)

narrow-IsSized : IsSized narrow
narrow-IsSized = record {
  requests_sized = omega arith;
  tokens_sized = omega arith;
  queue_sized = omega arith;
}

only_tenant :
    (id : String) (tenant : TenantPolicy)
    → lookup id narrow.tenants ≡ some tenant
    → (tenant_t ≡ tenant) × ("t" ≡ id)
unfolding lookup
only_tenant id tenant h = elim (Bool-cases ("t" == id)) [
  | inl same ↦ (ground arith, (string_key.beq_iff "t" id).0 same)
  | inr other ↦ absurd (ground arith)
]

narrow-IsConfigured : IsConfigured narrow
unfolding lookup
narrow-IsConfigured = record {
  tenant_id = λ id tenant h.
      subst (λ (x : TenantPolicy). x.id ≡ id) (only_tenant id tenant h).0
        (only_tenant id tenant h).1;
  tenant_class = λ id tenant h.
      subst
        (λ (x : TenantPolicy).
          (class : ServiceClassPolicy) × (lookup x.service_class narrow.classes ≡ some class))
        (only_tenant id tenant h).0 (class_c, refl);
}

-- What a caller can see: the active tickets with their costs, the waiting ones and the counters.
abbrev active_costs : Dict ℕ ActiveRequest → List (ℕ × ℕ)
active_costs [] = []
active_costs ((n, a) ∷ rest) = (n, a.token_cost) ∷ active_costs rest

abbrev View : Type 0
View = List (ℕ × ℕ) × ℕ × ℕ × ℕ × Bool

unfoldable view : TrafficState → View
unfolding queue_of lookup
view st = (
  active_costs st.active,
  sum_of (λ q. q.ticket) (queue_of st.waiting "c" "t"),
  count st.tenant_active_tokens "t",
  st.next_ticket,
  st.poisoned,
)

second_waits-view : view second_waits ≡ ((1, 10) ∷ [], 2, 10, 2, false)
unfolding view ensure_active admit admit_tenant admit_sized admit_locked enqueue
    normalize_idle_vruntime_locked all_empty least push_back put_queue queue_of increment decrement
    insert lookup contains_key replace_at place remove wrapping_add wrapping_sub saturate
    active_requests active_tokens queued_requests sum_by virtual_runtime_delta charge
    active_token_utilization_bps schedule_locked schedule_rounds waiting_requests admit_head
    activate deliver add_wait pop_front take_front choose_candidate class_candidates class_round
    class_entry tenant_candidates runtime_order fits sort insert_sorted record_rejection_locked
    release release_active_locked released initial_state
second_waits-view = refl

first_active-Inv : Inv narrow first_active
unfolding initial_state
first_active-Inv = state_of-Inv narrow (admit narrow calm initial_state 10 by_t) (
    admit-Keeps narrow calm initial_state narrow-IsSized (initial_state-Inv narrow) 10 by_t
      narrow-IsConfigured (omega arith))

tickets_left : first_active.next_ticket < u64_max
unfolding ensure_active admit admit_tenant admit_sized admit_locked enqueue
    normalize_idle_vruntime_locked all_empty least push_back put_queue queue_of increment decrement
    insert lookup contains_key replace_at place remove wrapping_add wrapping_sub saturate
    active_requests active_tokens queued_requests sum_by virtual_runtime_delta charge
    active_token_utilization_bps schedule_locked schedule_rounds waiting_requests admit_head
    activate deliver add_wait pop_front take_front choose_candidate class_candidates class_round
    class_entry tenant_candidates runtime_order fits sort insert_sorted record_rejection_locked
    release release_active_locked released initial_state
tickets_left = omega arith

-- The second request finds no room and waits.
admit-Keeps_example : Keeps narrow (admit narrow calm first_active 30 by_t)
admit-Keeps_example =
    admit-Keeps narrow calm first_active narrow-IsSized first_active-Inv 30 by_t narrow-IsConfigured
      tickets_left

second_waits-Inv : Inv narrow second_waits
second_waits-Inv = state_of-Inv narrow (admit narrow calm first_active 30 by_t) (
    admit-Keeps narrow calm first_active narrow-IsSized first_active-Inv 30 by_t narrow-IsConfigured
      tickets_left)

-- The release of the first request admits the second.
release-Keeps_example : Keeps narrow (release narrow calm second_waits 1)
release-Keeps_example = release-Keeps narrow calm second_waits narrow-IsSized second_waits-Inv 1

cancel_waiter-Keeps_example :
    Keeps narrow (cancel_waiter narrow calm second_waits 2 tenant_t "cancelled")
unfolding lookup
cancel_waiter-Keeps_example =
    cancel_waiter-Keeps narrow calm second_waits narrow-IsSized second_waits-Inv 2 tenant_t
      "cancelled" narrow-IsConfigured refl

after_release-view :
    view (state_of (release narrow calm second_waits 1)) ≡ ((2, 30) ∷ [], 0, 30, 2, false)
unfolding view ensure_active admit admit_tenant admit_sized admit_locked enqueue
    normalize_idle_vruntime_locked all_empty least push_back put_queue queue_of increment decrement
    insert lookup contains_key replace_at place remove wrapping_add wrapping_sub saturate
    active_requests active_tokens queued_requests sum_by virtual_runtime_delta charge
    active_token_utilization_bps schedule_locked schedule_rounds waiting_requests admit_head
    activate deliver add_wait pop_front take_front choose_candidate class_candidates class_round
    class_entry tenant_candidates runtime_order fits sort insert_sorted record_rejection_locked
    release release_active_locked released initial_state
after_release-view = refl

first_granted : lookup 1 second_waits.channels ≡ some granted
unfolding ensure_active admit admit_tenant admit_sized admit_locked enqueue
    normalize_idle_vruntime_locked all_empty least push_back put_queue queue_of increment decrement
    insert lookup contains_key replace_at place remove wrapping_add wrapping_sub saturate
    active_requests active_tokens queued_requests sum_by virtual_runtime_delta charge
    active_token_utilization_bps schedule_locked schedule_rounds waiting_requests admit_head
    activate deliver add_wait pop_front take_front choose_candidate class_candidates class_round
    class_entry tenant_candidates runtime_order fits sort insert_sorted record_rejection_locked
    release release_active_locked released initial_state
first_granted = refl

second_usable : second_waits.poisoned ≡ false
unfolding ensure_active admit admit_tenant admit_sized admit_locked enqueue
    normalize_idle_vruntime_locked all_empty least push_back put_queue queue_of increment decrement
    insert lookup contains_key replace_at place remove wrapping_add wrapping_sub saturate
    active_requests active_tokens queued_requests sum_by virtual_runtime_delta charge
    active_token_utilization_bps schedule_locked schedule_rounds waiting_requests admit_head
    activate deliver add_wait pop_front take_front choose_candidate class_candidates class_round
    class_entry tenant_candidates runtime_order fits sort insert_sorted record_rejection_locked
    release release_active_locked released initial_state
second_usable = refl

first_placed :
    waiting_sum (waiting_with 1) second_waits.waiting
    ≡ sum_of
        (waiting_with 1 tenant_t.id)
        (queue_of second_waits.waiting tenant_t.service_class tenant_t.id)
unfolding waiting_sum queues_sum ensure_active admit admit_tenant admit_sized admit_locked enqueue
    normalize_idle_vruntime_locked all_empty least push_back put_queue queue_of increment decrement
    insert lookup contains_key replace_at place remove wrapping_add wrapping_sub saturate
    active_requests active_tokens queued_requests sum_by virtual_runtime_delta charge
    active_token_utilization_bps schedule_locked schedule_rounds waiting_requests admit_head
    activate deliver add_wait pop_front take_front choose_candidate class_candidates class_round
    class_entry tenant_candidates runtime_order fits sort insert_sorted record_rejection_locked
    release release_active_locked released initial_state
first_placed = refl

-- The first request's deadline passes while its permit stands in its channel.
finish_wait-unused_example :
    (st' : TrafficState) × (finish_wait narrow calm second_waits 1 tenant_t on_deadline
      ≡ some (st', err deadline_exceeded))
    × Inv narrow st'
    × (uses 1 st' ≡ 0)
unfolding lookup
finish_wait-unused_example =
    finish_wait-unused narrow calm second_waits 1 tenant_t on_deadline deadline_exceeded
      narrow-IsSized second_waits-Inv narrow-IsConfigured refl second_usable first_placed
      (λ a held. first_granted) refl

-- One request is queued and nothing is scheduled yet.
abbrev one_queued : TrafficState
one_queued = enqueue narrow calm initial_state tenant_t 10 by_t

one_queued-Inv : Inv narrow one_queued
unfolding lookup initial_state waiting_sum sum_by
one_queued-Inv =
    enqueue-Inv narrow calm initial_state tenant_t class_c 10 by_t narrow-IsSized
      (initial_state-Inv narrow) refl refl (omega arith) (omega arith) (omega arith) (omega arith)
      refl

schedule_locked_settles_example :
    (st' : TrafficState) × (schedule_locked narrow calm one_queued ≡ some st')
    × Inv narrow st'
    × (waiting_sum each st'.waiting ≤ waiting_sum each one_queued.waiting)
    × ((narrow.policy.max_active_requests ≤ active_requests st')
        ⊎ (choose_candidate narrow st' ≡ none))
schedule_locked_settles_example =
    schedule_locked_settles narrow calm one_queued narrow-IsSized one_queued-Inv

first_chosen : choose_candidate narrow one_queued ≡ some ("c", "t")
unfolding ensure_active admit admit_tenant admit_sized admit_locked enqueue
    normalize_idle_vruntime_locked all_empty least push_back put_queue queue_of increment decrement
    insert lookup contains_key replace_at place remove wrapping_add wrapping_sub saturate
    active_requests active_tokens queued_requests sum_by virtual_runtime_delta charge
    active_token_utilization_bps schedule_locked schedule_rounds waiting_requests admit_head
    activate deliver add_wait pop_front take_front choose_candidate class_candidates class_round
    class_entry tenant_candidates runtime_order fits sort insert_sorted record_rejection_locked
    release release_active_locked released initial_state
first_chosen = refl

choose_candidate_sound_example : IsEligible narrow one_queued "c" "t"
choose_candidate_sound_example =
    choose_candidate_sound narrow one_queued "c" "t" one_queued-Inv.ticketed.queues_distinct
      first_chosen

first-IsEligible : IsEligible narrow one_queued "c" "t"
unfolding ensure_active admit admit_tenant admit_sized admit_locked enqueue
    normalize_idle_vruntime_locked all_empty least push_back put_queue queue_of increment decrement
    insert lookup contains_key replace_at place remove wrapping_add wrapping_sub saturate
    active_requests active_tokens queued_requests sum_by virtual_runtime_delta charge
    active_token_utilization_bps schedule_locked schedule_rounds waiting_requests admit_head
    activate deliver add_wait pop_front take_front choose_candidate class_candidates class_round
    class_entry tenant_candidates runtime_order fits sort insert_sorted record_rejection_locked
    release release_active_locked released initial_state
first-IsEligible = (class_c, refl, omega arith, (tenant_t, refl, refl))

choose_candidate_least_example :
    (count one_queued.class_vruntime "c" ≤ count one_queued.class_vruntime "c")
    × (count one_queued.tenant_vruntime "t" ≤ count one_queued.tenant_vruntime "t")
choose_candidate_least_example =
    choose_candidate_least narrow one_queued "c" "t" "c" "t" "t"
      one_queued-Inv.ticketed.queues_distinct first_chosen first-IsEligible first-IsEligible

choose_candidate_complete_example : choose_candidate narrow one_queued ≢ none
choose_candidate_complete_example =
    choose_candidate_complete narrow one_queued "c" "t" one_queued-Inv.ticketed.queues_distinct
      one_queued-Inv.configured first-IsEligible

first_admitted : admit narrow calm initial_state 10 by_t ≡ some (first_active, ok 1)
unfolding ensure_active admit admit_tenant admit_sized admit_locked enqueue
    normalize_idle_vruntime_locked all_empty least push_back put_queue queue_of increment decrement
    insert lookup contains_key replace_at place remove wrapping_add wrapping_sub saturate
    active_requests active_tokens queued_requests sum_by virtual_runtime_delta charge
    active_token_utilization_bps schedule_locked schedule_rounds waiting_requests admit_head
    activate deliver add_wait pop_front take_front choose_candidate class_candidates class_round
    class_entry tenant_candidates runtime_order fits sort insert_sorted record_rejection_locked
    release release_active_locked released initial_state
first_admitted = refl

second_queued : admit narrow calm first_active 30 by_t ≡ some (second_waits, ok 2)
unfolding ensure_active admit admit_tenant admit_sized admit_locked enqueue
    normalize_idle_vruntime_locked all_empty least push_back put_queue queue_of increment decrement
    insert lookup contains_key replace_at place remove wrapping_add wrapping_sub saturate
    active_requests active_tokens queued_requests sum_by virtual_runtime_delta charge
    active_token_utilization_bps schedule_locked schedule_rounds waiting_requests admit_head
    activate deliver add_wait pop_front take_front choose_candidate class_candidates class_round
    class_entry tenant_candidates runtime_order fits sort insert_sorted record_rejection_locked
    release release_active_locked released initial_state
second_queued = refl

first_ticket : initial_state.next_ticket < u64_max
unfolding initial_state
first_ticket = omega arith

second_reached : IsReachable narrow second_waits
second_reached =
    by_admit calm first_active 30 by_t second_waits (ok 2)
      (by_admit calm initial_state 10 by_t first_active (ok 1) at_start first_ticket first_admitted)
      tickets_left second_queued

IsReachable-Inv_example : Inv narrow second_waits
IsReachable-Inv_example =
    IsReachable-Inv narrow second_waits narrow-IsSized narrow-IsConfigured second_reached

abbrev first_entry : ActiveRequest
first_entry = record { tenant = "t"; class = "c"; token_cost = 10; cancellation = 7 }

first_held : lookup 1 second_waits.active ≡ some first_entry
unfolding ensure_active admit admit_tenant admit_sized admit_locked enqueue
    normalize_idle_vruntime_locked all_empty least push_back put_queue queue_of increment decrement
    insert lookup contains_key replace_at place remove wrapping_add wrapping_sub saturate
    active_requests active_tokens queued_requests sum_by virtual_runtime_delta charge
    active_token_utilization_bps schedule_locked schedule_rounds waiting_requests admit_head
    activate deliver add_wait pop_front take_front choose_candidate class_candidates class_round
    class_entry tenant_candidates runtime_order fits sort insert_sorted record_rejection_locked
    release release_active_locked released initial_state
first_held = refl

IsReachable-granted_example : lookup 1 second_waits.channels ≡ some granted
IsReachable-granted_example =
    IsReachable-granted narrow second_waits 1 first_entry second_reached first_held

-- The first request is cancelled while its permit stands in its channel.
reached_wait-unused_example :
    (st' : TrafficState) × (finish_wait narrow calm second_waits 1 tenant_t on_cancellation
      ≡ some (st', err AdmissionError.cancelled))
    × Inv narrow st'
    × (uses 1 st' ≡ 0)
unfolding lookup
reached_wait-unused_example =
    reached_wait-unused narrow calm second_waits 1 tenant_t on_cancellation AdmissionError.cancelled
      narrow-IsSized narrow-IsConfigured second_reached refl second_usable first_placed refl
