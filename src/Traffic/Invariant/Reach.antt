-- ===== src/Traffic/Invariant/Reach.antt =====
-- crates/runtime/src/traffic.rs: the states that a controller reaches from the one `new` makes.
use locus.Base.{ℕ, ◌<◌, ◌≡◌, refl, Bool, Option, some, String, arith, string_key, nat_key, subst}
use locus.Base.Dict.{lookup, sum_by}
use locus.Base.Results.{Result}
use locus.Base.Words.{u64_max}
use locus.Core.Context.{World, OperationContext}
use locus.Traffic.Policy.{TenantPolicy, TrafficControllerInner}
use locus.Traffic.State.{AdmissionError, TrafficState, initial_state}
use locus.Traffic.Counters.{waiting_sum}
use locus.Traffic.Schedule.{release}
use locus.Traffic.Admission.{admit, cancel_waiter}
use locus.Traffic.Invariant.{IsSized, IsConfigured, Inv}
use locus.Traffic.Invariant.Operations.{Keeps, admit-Keeps, release-Keeps, cancel_waiter-Keeps}

-- The state that `new` makes.
pub initial_state-Inv : (inner : TrafficControllerInner) → Inv inner initial_state
unfolding initial_state lookup sum_by waiting_sum
initial_state-Inv inner = record {
  counted = record {
    class_requests = λ c. refl;
    class_tokens = λ c. refl;
    tenant_requests = λ t. refl;
    tenant_tokens = λ t. refl;
    queued = λ t. refl;
    queued_tokens = λ t. refl;
    queued_total = refl;
  };
  within = record {
    requests_within = omega arith;
    tokens_within = omega arith;
    queue_within = omega arith;
    class_within = λ c class known. (omega arith, omega arith);
    tenant_within = λ t tenant known. (omega arith, omega arith);
    tenant_queue_within = λ t tenant known. omega arith;
    queued_sized = refl;
  };
  ticketed = record {
    active_distinct = tt;
    queues_distinct = (tt, λ c m e. absurd (ground arith));
    single = λ n. omega arith;
    fresh = λ n above. refl;
  };
  configured = λ c m e. absurd (ground arith);
  drained = λ e. refl;
}

-- The state that an operation which keeps the invariant returned.
pub returned-Inv :
    {R : Type 0} (inner : TrafficControllerInner) (r : Option (TrafficState × R))
    (st : TrafficState) (x : R)
    → Keeps inner r
    → r ≡ some (st, x)
    → Inv inner st
returned-Inv inner r st x k e = subst (Keeps inner) e k

-- The states that `admit` up to its wait, `release` and `cancel_waiter` lead to from the initial one, in
-- any order and with any arguments, while tickets are left.
pub data IsReachable (inner : TrafficControllerInner) : TrafficState → Type 0 where
  at_start : IsReachable inner initial_state
  by_admit :
      (world : World) (st : TrafficState) (cost : ℕ) (context : OperationContext)
      (st' : TrafficState) (r : Result AdmissionError ℕ)
      → IsReachable inner st
      → st.next_ticket < u64_max
      → admit inner world st cost context ≡ some (st', r)
      → IsReachable inner st'
  by_release :
      (world : World) (st : TrafficState) (n : ℕ) (st' : TrafficState) (b : Bool)
      → IsReachable inner st
      → release inner world st n ≡ some (st', b)
      → IsReachable inner st'
  by_cancel :
      (world : World) (st : TrafficState) (n : ℕ) (tenant : TenantPolicy) (reason : String)
      (st' : TrafficState) (r : Result AdmissionError (Unit {0}))
      → IsReachable inner st
      → lookup tenant.id inner.tenants ≡ some tenant
      → cancel_waiter inner world st n tenant reason ≡ some (st', r)
      → IsReachable inner st'

-- When the limits on requests and on the queue are machine integers and the limit on active tokens
-- is below u64::MAX, and every tenant is listed under its own id with a configured class, every
-- state that `admit` up to its wait while tickets are left, `release`, and `cancel_waiter` for a
-- configured tenant lead to from the initial one keeps the invariant. The counters of active
-- requests and tokens and of queued requests are exact, that of queued tokens up to wrap-around.
-- The limits of the controller, its classes and its tenants on active requests and tokens, and
-- those of the controller and its tenants on queued requests, are kept. Tickets are unique, queues
-- are of configured classes and tenants, and nothing is queued while draining.
pub IsReachable-Inv :
    (inner : TrafficControllerInner) (st : TrafficState)
    → IsSized inner
    → IsConfigured inner
    → IsReachable inner st
    → Inv inner st
IsReachable-Inv inner st sized c at_start = initial_state-Inv inner
IsReachable-Inv inner _ sized c (by_admit world st cost context st' r before left e) =
    returned-Inv inner _ st' r
      (admit-Keeps inner world st sized (IsReachable-Inv inner st sized c before) cost context c
        left)
      e
IsReachable-Inv inner _ sized c (by_release world st n st' b before e) =
    returned-Inv inner _ st' b
      (release-Keeps inner world st sized (IsReachable-Inv inner st sized c before) n) e
IsReachable-Inv inner _ sized c (by_cancel world st n tenant reason st' r before known e) =
    returned-Inv inner _ st' r
      (cancel_waiter-Keeps inner world st sized (IsReachable-Inv inner st sized c before) n tenant
        reason c known)
      e
