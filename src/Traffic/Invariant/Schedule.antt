-- ===== src/Traffic/Invariant/Schedule.antt =====
-- crates/runtime/src/traffic.rs: `schedule_locked` ends, fails no `expect`, keeps the invariant and
-- leaves no request waiting that could be admitted.
use locus.Base.{
  ℕ, zero, suc, ◌+◌, ◌≤◌, ◌<◌, ◌≡◌, refl, ◌⊎◌, inl, inr, Option, none, some, String, List, [], ◌∷◌,
  string_key, nat_key, arith, Bool-cases, Option-cases, ltb, ltb→lt, ap, ◌∙◌,
}
use locus.Base.Dict.{Dict, lookup, sum_by}
use locus.Base.DictLaws.{sum_by-remove, sum_by-insert}
use locus.Base.Lists.{length, sum_of}
use locus.Core.Context.{World}
use locus.Traffic.Policy.{ServiceClassPolicy, TenantPolicy, TrafficControllerInner}
use locus.Traffic.State.{
  TrafficState, QueuedRequest, ActiveRequest, Queues, count, queue_of, put_queue, pop_front,
  take_front, active_requests, released,
}
use locus.Traffic.Counters.{waiting_sum, queues_sum, waiting_sum-put_queue}
use locus.Traffic.Candidates.{choose_candidate}
use locus.Traffic.Candidates.Tenants.{TenantFits}
use locus.Traffic.Candidates.Choice.{choose_candidate_sound}
use locus.Traffic.Schedule.{
  activate, deliver, admit_head, schedule_rounds, schedule_locked, waiting_requests,
}
use locus.Traffic.Invariant.{one, each, uses, holding, waiting_with, IsSized, Inv}
use locus.Traffic.Invariant.Steps.{activate-Inv}
use locus.Traffic.Invariant.Release.{deliver-Inv}

pub active_requests-sum : (m : Dict ℕ ActiveRequest) → length m ≡ sum_by one m
unfolding sum_by
active_requests-sum [] = refl
active_requests-sum ((n, a) ∷ m) = omega (arith, active_requests-sum m)

waiting_requests-sum : (ws : Dict String Queues) → waiting_requests ws ≡ waiting_sum each ws
unfolding waiting_requests waiting_sum queues_sum
waiting_requests-sum ws = refl

-- What the loop leaves alone or makes smaller, whether the permit can be delivered or not.
deliver_waiting :
    (world : World) (st : TrafficState) (n : ℕ)
    → ((deliver world st n).waiting ≡ st.waiting)
      × ((deliver world st n).draining ≡ st.draining)
      × ((deliver world st n).next_ticket ≡ st.next_ticket)
      × ((deliver world st n).poisoned ≡ st.poisoned)
unfolding deliver
deliver_waiting world st n = ground arith

-- One round: the chosen queue has a head, its class and tenant are configured, and the state after
-- it keeps the invariant and has one request less to wait for.
abbrev pub IsRound : TrafficControllerInner → TrafficState → Option TrafficState → Type 0
IsRound inner st r =
    (st' : TrafficState) × (r ≡ some st')
    × Inv inner st'
    × (waiting_sum each st'.waiting + 1 ≡ waiting_sum each st.waiting)
    × (st'.draining ≡ st.draining)
    × (st'.next_ticket ≡ st.next_ticket)
    × (st'.poisoned ≡ st.poisoned)
    × ((n : ℕ) → uses n st' ≤ uses n st)

active_free :
    (inner : TrafficControllerInner) (st : TrafficState)
    → active_requests st < inner.policy.max_active_requests
    → sum_by one st.active < inner.policy.max_active_requests
unfolding active_requests
active_free inner st h = omega (arith, active_requests-sum st.active)

activate_same :
    (world : World) (st : TrafficState) (c t : String) (class : ServiceClassPolicy)
    (tenant : TenantPolicy) (q : QueuedRequest)
    → ((activate world st c t class tenant q).waiting ≡ st.waiting)
      × ((activate world st c t class tenant q).draining ≡ st.draining)
      × ((activate world st c t class tenant q).next_ticket ≡ st.next_ticket)
      × ((activate world st c t class tenant q).poisoned ≡ st.poisoned)
unfolding activate
activate_same world st c t class tenant q = (refl, refl, refl, refl)

uses-deliver :
    (world : World) (st : TrafficState) (k n : ℕ) → uses n (deliver world st k) ≤ uses n st
unfolding deliver released
uses-deliver world st k n = ground (arith, sum_by-remove (holding n) k st.active)

uses-activate :
    (world : World) (st : TrafficState) (c t : String) (class : ServiceClassPolicy)
    (tenant : TenantPolicy) (q : QueuedRequest) (n : ℕ)
    → uses n (activate world st c t class tenant q) ≤ uses n st + waiting_with n t q
unfolding activate
uses-activate world st c t class tenant q n = omega (
  arith,
  sum_by-insert (holding n) q.ticket
      (record { tenant = t; class = c; token_cost = q.token_cost; cancellation = q.cancellation })
      st.active,
)

pop_front-head :
    (ws : Dict String Queues) (c t : String) (q : QueuedRequest) (rest : List QueuedRequest)
    → queue_of ws c t ≡ q ∷ rest
    → pop_front ws c t ≡ some (q, put_queue ws c t rest)
unfolding pop_front
pop_front-head ws c t q rest h = rw (h, take_front)

-- A ticket that goes from a queue to `active` is still used once.
round_uses :
    (inner : TrafficControllerInner) (world : World) (st : TrafficState) (c t : String)
    (class : ServiceClassPolicy) (tenant : TenantPolicy) (q : QueuedRequest)
    (rest : List QueuedRequest) (n : ℕ)
    → IsSized inner
    → Inv inner st
    → queue_of st.waiting c t ≡ q ∷ rest
    → uses n (
        deliver world
          (activate world
            (record st { waiting = put_queue st.waiting c t rest })
            c
            t
            class
            tenant
            q)
          q.ticket)
      ≤ uses n st
round_uses inner world st c t class tenant q rest n sized inv at = omega (
  arith,
  uses-deliver world
      (activate world (record st { waiting = put_queue st.waiting c t rest }) c t class tenant q)
      q.ticket n,
  uses-activate world (record st { waiting = put_queue st.waiting c t rest }) c t class tenant q n,
  waiting_sum-put_queue (waiting_with n) st.waiting c t rest,
  ap (sum_of (waiting_with n t)) at,
)

admitted-IsRound :
    (inner : TrafficControllerInner) (world : World) (st : TrafficState) (c t : String)
    (class : ServiceClassPolicy) (qs : List QueuedRequest)
    → IsSized inner
    → Inv inner st
    → active_requests st < inner.policy.max_active_requests
    → lookup c inner.classes ≡ some class
    → count st.class_active_requests c < class.max_active_requests
    → queue_of st.waiting c t ≡ qs
    → TenantFits inner st class c t qs
    → IsRound inner st (admit_head inner world st (c, t))
unfolding admit_head
admitted-IsRound inner world st c t class [] sized inv free known room at f = absurd f
admitted-IsRound inner world st c t class (q ∷ rest) sized inv free known room at
      (tenant, known', fit) =
    let active =
      activate world (record st { waiting = put_queue st.waiting c t rest }) c t class tenant q in
    let was =
      activate_same world (record st { waiting = put_queue st.waiting c t rest }) c t class tenant
        q in
    let same = deliver_waiting world active q.ticket in
    let kept =
      activate-Inv inner world st c t class tenant q rest sized inv at (active_free inner st free)
        fit room known known' in
    (
      deliver world active q.ticket,
      rw (pop_front-head st.waiting c t q rest at) (rw (known, known') refl),
      deliver-Inv inner world active q.ticket sized kept,
      omega (
        arith,
        ap (waiting_sum each) same.0,
        ap (waiting_sum each) was.0,
        waiting_sum-put_queue each st.waiting c t rest,
        ap (sum_of (each t)) at,
      ),
      same.1 ∙ was.1,
      same.2 ∙ was.2,
      same.3 ∙ was.3,
      λ n. round_uses inner world st c t class tenant q rest n sized inv at,
    )

admit_head-IsRound :
    (inner : TrafficControllerInner) (world : World) (st : TrafficState) (c t : String)
    → IsSized inner
    → Inv inner st
    → active_requests st < inner.policy.max_active_requests
    → choose_candidate inner st ≡ some (c, t)
    → IsRound inner st (admit_head inner world st (c, t))
admit_head-IsRound inner world st c t sized inv free chosen =
    let (class, known, room, fit) =
      choose_candidate_sound inner st c t inv.ticketed.queues_distinct chosen in
    admitted-IsRound inner world st c t class _ sized inv free known room refl fit

-- The loop has ended with the invariant kept, nobody new in a queue, the flags untouched, and
-- either no free place or nobody to choose.
abbrev pub IsSettled : TrafficControllerInner → TrafficState → Option TrafficState → Type 0
IsSettled inner st r =
    (st' : TrafficState) × (r ≡ some st')
    × Inv inner st'
    × (waiting_sum each st'.waiting ≤ waiting_sum each st.waiting)
    × (st'.draining ≡ st.draining)
    × (st'.next_ticket ≡ st.next_ticket)
    × (st'.poisoned ≡ st.poisoned)
    × ((n : ℕ) → uses n st' ≤ uses n st)
    × ((inner.policy.max_active_requests ≤ active_requests st')
        ⊎ (choose_candidate inner st' ≡ none))

schedule_rounds-IsSettled :
    (inner : TrafficControllerInner) (world : World) (fuel : ℕ) (st : TrafficState)
    → IsSized inner
    → Inv inner st
    → waiting_sum each st.waiting < fuel
    → IsSettled inner st (schedule_rounds fuel inner world st)
unfolding schedule_rounds
schedule_rounds-IsSettled inner world zero st sized inv enough = absurd (omega arith)
schedule_rounds-IsSettled inner world (suc fuel) st sized inv enough =
    elim (Bool-cases (ltb (active_requests st) inner.policy.max_active_requests)) [
      | inr full ↦ (
        st,
        rw full refl,
        inv,
        omega arith,
        refl,
        refl,
        refl,
        λ n. omega arith,
        inl (ground arith),
      )
      | inl free ↦ elim (Option-cases (choose_candidate inner st)) [
        | inl nobody ↦ (
          st,
          rw free (rw nobody refl),
          inv,
          omega arith,
          refl,
          refl,
          refl,
          λ n. omega arith,
          inr nobody,
        )
        | inr ((c, t), chosen) ↦
            let (st', e, inv', fewer, d, n, p, u) =
              admit_head-IsRound inner world st c t sized inv (ltb→lt _ _ free) chosen in
            let (st'', e', inv'', fewer', d', n', p', u', settled) =
              schedule_rounds-IsSettled inner world fuel st' sized inv' (omega arith) in
            (
              st'',
              rw free (rw chosen (rw e e')),
              inv'',
              omega arith,
              d' ∙ d,
              n' ∙ n,
              p' ∙ p,
              λ k. omega (arith, u k, u' k),
              settled,
            )
      ]
    ]

-- Scheduling always ends, without a failed `expect`.
pub schedule_locked-IsSettled :
    (inner : TrafficControllerInner) (world : World) (st : TrafficState)
    → IsSized inner
    → Inv inner st
    → IsSettled inner st (schedule_locked inner world st)
unfolding schedule_locked
schedule_locked-IsSettled inner world st sized inv =
    schedule_rounds-IsSettled inner world (suc (waiting_requests st.waiting)) st sized inv
      (omega (arith, waiting_requests-sum st.waiting))

-- When the limits on requests and on the queue are machine integers and the limit on active tokens is
-- below u64::MAX: on a state that keeps the invariant, `schedule_locked` returns with a state that
-- keeps it and in which no more requests wait than before; there the limit of active requests is
-- reached or `choose_candidate` finds nobody.
pub schedule_locked_settles :
    (inner : TrafficControllerInner) (world : World) (st : TrafficState)
    → IsSized inner
    → Inv inner st
    → (st' : TrafficState) × (schedule_locked inner world st ≡ some st')
      × Inv inner st'
      × (waiting_sum each st'.waiting ≤ waiting_sum each st.waiting)
      × ((inner.policy.max_active_requests ≤ active_requests st')
          ⊎ (choose_candidate inner st' ≡ none))
schedule_locked_settles inner world st sized inv =
    let (st', e, inv', fewer, _, _, _, _, settled) =
      schedule_locked-IsSettled inner world st sized inv in
    (st', e, inv', fewer, settled)
