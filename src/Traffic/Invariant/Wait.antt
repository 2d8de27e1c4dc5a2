-- ===== src/Traffic/Invariant/Wait.antt =====
-- crates/runtime/src/traffic.rs: a request that gives up its wait leaves nothing behind.
use locus.Base.{
  ℕ, ◌+◌, ◌≤◌, ◌≡◌, refl, ◌⊎◌, inl, inr, Bool, false, Option, none, some, String, List, [], ◌∷◌,
  string_key, nat_key, nat_beq, arith, Bool-cases, Option-cases, ◌∙◌,
}
use mathlib.Core.Option.{some-injective}
use locus.Base.Dict.{lookup, remove}
use locus.Base.DictLaws.{sum_by-remove}
use locus.Base.Lists.{is_empty, sum_of}
use locus.Base.Results.{ok, err}
use locus.Core.Context.{World}
use locus.Traffic.Policy.{TenantPolicy, TrafficControllerInner}
use locus.Traffic.State.{
  AdmissionError, deadline_exceeded, QueuedRequest, granted, refused, TrafficState, ActiveRequest,
  queue_of, release_active_locked, released,
}
use locus.Traffic.Counters.{waiting_sum, waiting_sum-put_queue}
use locus.Traffic.Schedule.{release}
use locus.Traffic.Admission.{
  take_ticket, cancel_waiter, drop_queued, drop_receiver, finish_wait, Wake, on_cancellation,
  on_deadline, on_message, give_up,
}
use locus.Traffic.Invariant.{uses, holding, waiting_with, IsSized, IsConfigured, Inv}
use locus.Traffic.Invariant.Parts.{touch-Inv}
use locus.Traffic.Invariant.Release.{released-Inv}
use locus.Traffic.Invariant.Queued.{drop_queued-Inv, take_ticket-sum}
use locus.Traffic.Invariant.Schedule.{schedule_locked-IsSettled}
use locus.Traffic.Invariant.Parts.{holding-none}

take_ticket-none :
    (n : ℕ) (t : String) (qs : List QueuedRequest)
    → take_ticket n qs ≡ none
    → sum_of (waiting_with n t) qs ≡ 0
unfolding take_ticket
take_ticket-none n t [] h = refl
take_ticket-none n t (q ∷ qs) h = elim (Bool-cases (nat_beq q.ticket n)) [
  | inl same ↦ absurd (ground arith)
  | inr other ↦ elim (Option-cases (take_ticket n qs)) [
    | inl e ↦ ground (arith, take_ticket-none n t qs e)
    | inr (found, e) ↦ absurd (ground arith)
  ]
]

uses-released :
    (n : ℕ) (st : TrafficState) (a : ActiveRequest)
    → lookup n st.active ≡ some a
    → uses n (released st n a) + 1 ≡ uses n st
unfolding released
uses-released n st a h = ground (arith, sum_by-remove (holding n) n st.active)

uses-drop_queued :
    (st : TrafficState) (tenant : TenantPolicy) (reason : String) (n : ℕ) (q : QueuedRequest)
    (others : List QueuedRequest)
    → take_ticket n (queue_of st.waiting tenant.service_class tenant.id) ≡ some (q, others)
    → uses n (drop_queued st tenant reason q others) + 1 ≡ uses n st
unfolding drop_queued
uses-drop_queued st tenant reason n q others h = ground (
  arith,
  waiting_sum-put_queue (waiting_with n) st.waiting tenant.service_class tenant.id others,
  take_ticket-sum (waiting_with n tenant.id) n (queue_of st.waiting tenant.service_class tenant.id)
      q others h,
)

module _ (inner : TrafficControllerInner) (world : World) (n : ℕ) (sized : IsSized inner) where
  -- A released ticket is held by nobody, whatever is admitted in its place.
  release-uses :
      (st : TrafficState)
      → Inv inner st
      → (st' : TrafficState) × (b : Bool) × (release inner world st n ≡ some (st', b))
        × Inv inner st'
        × (uses n st' ≤ uses n st)
        × (st.poisoned ≡ false → uses n st' ≤ waiting_sum (waiting_with n) st.waiting)
  unfolding release release_active_locked
  release-uses st inv = elim (Bool-cases st.poisoned) [
    | inl e ↦ (st, false, ground arith, inv, omega arith, λ e'. cc)
    | inr e ↦ elim (Option-cases (lookup n st.active)) [
      | inl e' ↦ (
        st,
        false,
        ground arith,
        inv,
        omega arith,
        λ _. omega (arith, holding-none n st.active e'),
      )
      | inr (a, e') ↦
          let settled =
            schedule_locked-IsSettled inner world (released st n a) sized
              (released-Inv inner st n a sized inv e') in
          (
            settled.0,
            is_empty settled.0.active,
            ground (arith, settled.1),
            settled.2,
            omega (arith, settled.7 n, uses-released n st a e'),
            λ _. omega (arith, settled.7 n, uses-released n st a e', inv.ticketed.single n),
          )
    ]
  ]

  drop_receiver-uses :
      (st : TrafficState)
      → Inv inner st
      → (st' : TrafficState) × (drop_receiver inner world st n ≡ some st')
        × Inv inner st'
        × (uses n st' ≤ uses n st)
        × (st.poisoned ≡ false
            → lookup n st.channels ≡ some granted
            → uses n st' ≤ waiting_sum (waiting_with n) st.waiting)
  unfolding drop_receiver
  drop_receiver-uses st inv = elim (Option-cases (lookup n st.channels)) [
    | inl e ↦ (st, ground arith, inv, omega arith, λ _ e'. absurd (ground arith))
    | inr (refused x, e) ↦ (
      record st { channels = remove n st.channels },
      ground arith,
      touch-Inv inner st (record st { channels = remove n st.channels }) inv,
      omega arith,
      λ _ e'. absurd (ground arith),
    )
    | inr (granted, e) ↦
        let emptied : TrafficState = record st { channels = remove n st.channels } in
        let (st', b, e', kept, fewer, gone) =
          release-uses emptied (touch-Inv inner st emptied inv) in
        (st', rw (e, drop_receiver) (rw (e', drop_receiver) refl), kept, fewer, λ p _. gone p)
  ]

  module _ (st : TrafficState) (tenant : TenantPolicy) (reason : String) (inv : Inv inner st)
      (configured : IsConfigured inner) (known : lookup tenant.id inner.tenants ≡ some tenant)
      (usable : st.poisoned ≡ false)
      (placed : waiting_sum (waiting_with n) st.waiting
        ≡ sum_of (waiting_with n tenant.id) (queue_of st.waiting tenant.service_class tenant.id))
      (answered : (a : ActiveRequest)
        → lookup n st.active ≡ some a
        → lookup n st.channels ≡ some granted) where
    -- After `cancel_waiter` the ticket is unused, or it is held and its permit stands in the channel.
    cancel_waiter-uses :
        (st' : TrafficState) × (cancel_waiter inner world st n tenant reason ≡ some (st', ok tt))
        × Inv inner st'
        × ((uses n st' ≡ 0)
            ⊎ ((st'.poisoned ≡ false)
                × (lookup n st'.channels ≡ some granted)
                × (waiting_sum (waiting_with n) st'.waiting ≡ 0)))
    unfolding cancel_waiter
    cancel_waiter-uses =
        elim (Option-cases (take_ticket n (queue_of st.waiting tenant.service_class tenant.id))) [
          | inl e ↦
              let nobody =
                take_ticket-none n tenant.id (queue_of st.waiting tenant.service_class tenant.id)
                  e in
              (
                st,
                ground arith,
                inv,
                elim (Option-cases (lookup n st.active)) [
                  | inl idle ↦ inl (omega (arith, holding-none n st.active idle, nobody))
                  | inr (a, held) ↦ inr (usable, answered a held, placed ∙ nobody)
                ],
              )
          | inr ((q, others), e) ↦
              let (class, known_class) = configured.tenant_class tenant.id tenant known in
              let settled =
                schedule_locked-IsSettled inner world (drop_queued st tenant reason q others) sized
                  (drop_queued-Inv inner st tenant class reason n q others sized inv known
                    known_class e) in
              (
                settled.0,
                ground (arith, settled.1),
                settled.2,
                inl (
                    omega (
                      arith,
                      settled.7 n,
                      uses-drop_queued st tenant reason n q others e,
                      inv.ticketed.single n,
                    )),
              )
        ]

    -- A request that gives up its wait gets the error, and its ticket is unused.
    gave_up :
        (e : AdmissionError)
        → (st' : TrafficState) × (give_up inner world
              (cancel_waiter inner world st n tenant reason)
              n
              e
            ≡ some (st', err e))
          × Inv inner st'
          × (uses n st' ≡ 0)
    gave_up e =
        let (st', returned, kept, left) = cancel_waiter-uses in
        let (st'', dropped, kept', fewer, gone) = drop_receiver-uses st' kept in
        (
          st'',
          rw returned (rw (dropped, give_up) refl),
          kept',
          elim left [ inl unused ↦ omega (arith, fewer) | inr (p, g, w) ↦ omega (arith, gone p g) ],
        )

-- The error that a wait ends with when no message ends it.
abbrev pub error_of : Wake → Option AdmissionError
error_of on_cancellation = some AdmissionError.cancelled
error_of on_deadline = some deadline_exceeded
error_of on_message = none

-- When the limits on requests and on the queue are machine integers and the limit on active tokens
-- is below u64::MAX, every tenant is listed under its own id with a configured class, the tenant is
-- one of the configuration, the state keeps the invariant, its lock is not poisoned, the ticket
-- waits in no queue but its tenant's, and, if it is active, its permit stands in its channel: a
-- wait that ends by cancellation or at the deadline returns that error, the state after it keeps
-- the invariant, and the ticket is neither queued nor active.
pub finish_wait-unused :
    (inner : TrafficControllerInner) (world : World) (st : TrafficState) (n : ℕ)
    (tenant : TenantPolicy) (w : Wake) (e : AdmissionError)
    → IsSized inner
    → Inv inner st
    → IsConfigured inner
    → lookup tenant.id inner.tenants ≡ some tenant
    → st.poisoned ≡ false
    → waiting_sum (waiting_with n) st.waiting
      ≡ sum_of (waiting_with n tenant.id) (queue_of st.waiting tenant.service_class tenant.id)
    → ((a : ActiveRequest) → lookup n st.active ≡ some a → lookup n st.channels ≡ some granted)
    → error_of w ≡ some e
    → (st' : TrafficState) × (finish_wait inner world st n tenant w ≡ some (st', err e))
      × Inv inner st'
      × (uses n st' ≡ 0)
unfolding finish_wait
finish_wait-unused inner world st n tenant on_cancellation e sized inv c k u p a h =
    rw (← some-injective _ _ h)
      (gave_up inner world n sized st tenant "cancelled" inv c k u p a AdmissionError.cancelled)
finish_wait-unused inner world st n tenant on_deadline e sized inv c k u p a h =
    rw (← some-injective _ _ h)
      (gave_up inner world n sized st tenant "deadline" inv c k u p a deadline_exceeded)
finish_wait-unused inner world st n tenant on_message e sized inv c k u p a h =
    absurd (ground arith)
