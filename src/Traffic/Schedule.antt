-- ===== src/Traffic/Schedule.antt =====
-- crates/runtime/src/traffic.rs: `schedule_locked`, the loop that moves queued requests to the
-- active ones, and `release`.
use locus.Base.{
  ℕ, suc, zero, ◌+◌, ◌-◌, ◌%◌, Bool, false, Option, none, some, String, string_key, nat_key,
  pair_key, if◌then◌else◌, ltb,
}
use locus.Base.Dict.{Dict, lookup, insert, sum_by}
use locus.Base.Lists.{is_empty, sum_of}
use locus.Base.Words.{u128_max}
use locus.Core.Context.{World}
use locus.Traffic.Policy.{ServiceClassPolicy, TenantPolicy, TrafficControllerInner}
use locus.Traffic.State.{
  TrafficState, QueuedRequest, Queues, granted, count, increment, decrement, charge,
  virtual_runtime_delta, pop_front, release_active_locked, active_requests,
}
use locus.Traffic.Candidates.{◌>>=◌, choose_candidate}

-- `u128` addition that wraps.
unfoldable pub add_wait : Dict (String × String) ℕ → String × String → ℕ → Dict (String × String) ℕ
add_wait m x micros = insert x ((count m x + micros) % (u128_max + 1)) m

-- The request enters `active` and its counters; its class and tenant are charged.
unfoldable pub activate :
    World
    → TrafficState
    → String
    → String
    → ServiceClassPolicy
    → TenantPolicy
    → QueuedRequest
    → TrafficState
unfolding increment decrement charge virtual_runtime_delta add_wait
activate world st class_id tenant_id class tenant queued =
    let cost = queued.token_cost in
    record st {
      tenant_queued_requests = decrement st.tenant_queued_requests tenant_id 1;
      tenant_queued_tokens = decrement st.tenant_queued_tokens tenant_id cost;
      class_active_requests = increment st.class_active_requests class_id 1;
      class_active_tokens = increment st.class_active_tokens class_id cost;
      tenant_active_requests = increment st.tenant_active_requests tenant_id 1;
      tenant_active_tokens = increment st.tenant_active_tokens tenant_id cost;
      active =
          insert queued.ticket
            (record {
              tenant = tenant_id;
              class = class_id;
              token_cost = cost;
              cancellation = queued.cancellation;
            })
            st.active;
      class_vruntime = charge st.class_vruntime class_id (virtual_runtime_delta cost class.weight);
      tenant_vruntime =
          charge st.tenant_vruntime tenant_id (virtual_runtime_delta cost tenant.weight);
      admissions = increment st.admissions (class_id, (tenant_id, "admitted")) 1;
      queue_wait_micros =
          add_wait st.queue_wait_micros (class_id, tenant_id) (world.now - queued.enqueued_at);
      queue_wait_count = increment st.queue_wait_count (class_id, tenant_id) 1;
    }

-- `sender.send(Ok(permit))`: a permit that nobody can receive is released at once.
unfoldable pub deliver : World → TrafficState → ℕ → TrafficState
unfolding release_active_locked
deliver world st ticket =
    if world.receiver_open ticket
    then record st { channels = insert ticket granted st.channels }
    else elim (release_active_locked st ticket) [ none ↦ st | some (_, st') ↦ st' ]

-- What one round of the loop does to the head of the chosen queue; `none` is a failed `expect`.
unfoldable pub admit_head :
    TrafficControllerInner → World → TrafficState → String × String → Option TrafficState
admit_head inner world st (class_id, tenant_id) = do
  popped ← pop_front st.waiting class_id tenant_id
  class ← lookup class_id inner.classes
  tenant ← lookup tenant_id inner.tenants
  some (
      deliver world
        (activate world (record st { waiting = popped.1 }) class_id tenant_id class tenant popped.0)
        popped.0.ticket)

-- The loop on fuel; `none` is a failed `expect` or the end of the fuel.
unfoldable pub schedule_rounds :
    ℕ → TrafficControllerInner → World → TrafficState → Option TrafficState
schedule_rounds zero inner world st = none
schedule_rounds (suc fuel) inner world st =
    if ltb (active_requests st) inner.policy.max_active_requests
    then elim (choose_candidate inner st) [
      | none ↦ some st
      | some chosen ↦ elim (admit_head inner world st chosen) [
        | none ↦ none
        | some st' ↦ schedule_rounds fuel inner world st'
      ]
    ]
    else some st

-- How many requests wait, in all queues.
unfoldable pub waiting_requests : Dict String Queues → ℕ
unfolding sum_by
waiting_requests = sum_by (λ _ queues. sum_by (λ _ qs. sum_of (λ _. 1) qs) queues)

-- Each round takes one request from a queue.
unfoldable pub schedule_locked : TrafficControllerInner → World → TrafficState → Option TrafficState
schedule_locked inner world st = schedule_rounds (suc (waiting_requests st.waiting)) inner world st

-- `release`, run when a permit is dropped; the flag says whether `idle` is notified.
unfoldable pub release :
    TrafficControllerInner → World → TrafficState → ℕ → Option (TrafficState × Bool)
release inner world st ticket =
    if st.poisoned then some (st, false) else elim (release_active_locked st ticket) [
      | none ↦ some (st, false)
      | some (_, released) ↦ do
        st' ← schedule_locked inner world released
        some (st', is_empty st'.active)
    ]
