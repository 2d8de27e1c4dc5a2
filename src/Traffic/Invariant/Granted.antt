-- ===== src/Traffic/Invariant/Granted.antt =====
-- crates/runtime/src/traffic.rs: an active request has been sent its permit.
use locus.Base.{
  ℕ, zero, suc, ◌≡◌, false, Option, none, some, String, string_key, nat_key, arith, Bool-cases,
  Option-cases, inl, inr, if_cases, ◌==◌, ltb, subst, sym, ◌∙◌,
}
use locus.Base.Dict.{lookup, insert, IsDistinct}
use locus.Base.DictLaws.{lookup-insert, lookup-remove, IsDistinct-insert, IsDistinct-remove}
use locus.Core.Context.{World}
use locus.Traffic.Policy.{ServiceClassPolicy, TenantPolicy, TrafficControllerInner}
use locus.Traffic.State.{
  TrafficState, QueuedRequest, ActiveRequest, granted, pop_front, release_active_locked, released,
  active_requests,
}
use locus.Traffic.Candidates.{choose_candidate}
use locus.Traffic.Schedule.{
  activate, deliver, admit_head, schedule_rounds, schedule_locked, waiting_requests,
}

-- The permit of every active request, but perhaps of one ticket, stands in its channel.
abbrev SentBut : ℕ → TrafficState → Type 0
SentBut n st =
    (k : ℕ) (a : ActiveRequest)
    → (n == k) ≡ false
    → lookup k st.active ≡ some a
    → lookup k st.channels ≡ some granted

-- No ticket is listed twice as active, and the permit of every active one stands in its channel.
pub record IsSent (st : TrafficState) : Type 0 where
  pub distinct : IsDistinct st.active
  pub sent :
      (n : ℕ) (a : ActiveRequest)
      → lookup n st.active ≡ some a
      → lookup n st.channels ≡ some granted

pub released-IsSent :
    (st : TrafficState) (n : ℕ) (a : ActiveRequest)
    → IsDistinct st.active
    → SentBut n st
    → IsSent (released st n a)
unfolding released
released-IsSent st n a d h = record {
  distinct = IsDistinct-remove n st.active d;
  sent = λ k b e. elim (Bool-cases (n == k)) [
    | inl same ↦ absurd (ground (arith, lookup-remove n k st.active d))
    | inr other ↦ h k b other (ground (arith, lookup-remove n k st.active d))
  ];
}

-- The delivery sends the permit that may be missing, or releases its request.
deliver-IsSent :
    (world : World) (st : TrafficState) (n : ℕ)
    → IsDistinct st.active
    → SentBut n st
    → IsSent (deliver world st n)
unfolding deliver
deliver-IsSent world st n d h = elim (Bool-cases (world.receiver_open n)) [
  | inl e ↦ rw e (record {
    distinct = d;
    sent = λ k a found. elim (Bool-cases (n == k)) [
      | inl same ↦ ground (arith, lookup-insert n k granted st.channels)
      | inr other ↦
          let before = h k a other found in ground (arith, lookup-insert n k granted st.channels)
    ];
  })
  | inr e ↦ elim (Option-cases (lookup n st.active)) [
    | inl idle ↦ rw e (
        rw (idle, release_active_locked)
          (record {
            distinct = d;
            sent = λ k a found. elim (Bool-cases (n == k)) [
              | inl same ↦ absurd (ground (arith, nat_key.beq_iff n k))
              | inr other ↦ h k a other found
            ];
          }))
    | inr (a, found) ↦ rw e (rw (found, release_active_locked) (released-IsSent st n a d h))
  ]
]

activate-IsSent :
    (world : World) (st : TrafficState) (c t : String) (class : ServiceClassPolicy)
    (tenant : TenantPolicy) (q : QueuedRequest)
    → IsSent st
    → IsDistinct (activate world st c t class tenant q).active
      × SentBut q.ticket (activate world st c t class tenant q)
unfolding activate
activate-IsSent world st c t class tenant q s =
    let entry : ActiveRequest = record {
      tenant = t;
      class = c;
      token_cost = q.token_cost;
      cancellation = q.cancellation;
    } in
    (
      IsDistinct-insert q.ticket _ st.active s.distinct,
      λ k a other found.
          let written : lookup k (insert q.ticket entry st.active) ≡ lookup k st.active =
            ground (arith, lookup-insert q.ticket k entry st.active) in
          s.sent k a (sym written ∙ found),
    )

-- What a step leaves, if it returns, has all permits sent.
abbrev pub Leaves : Option TrafficState → Type 0
Leaves none = Unit
Leaves (some st) = IsSent st

abbrev pub Sends : {R : Type 0} → Option (TrafficState × R) → Type 0
Sends none = Unit
Sends (some (st, _)) = IsSent st

admit_head-IsSent :
    (inner : TrafficControllerInner) (world : World) (st : TrafficState) (c t : String)
    → IsSent st
    → Leaves (admit_head inner world st (c, t))
unfolding admit_head
admit_head-IsSent inner world st c t s = elim (Option-cases (pop_front st.waiting c t)) [
  | inl e ↦ rw (e, Leaves) tt
  | inr ((q, ws), e) ↦ elim (Option-cases (lookup c inner.classes)) [
    | inl e' ↦ rw (e, Leaves) (rw (e', Leaves) tt)
    | inr (class, e') ↦ elim (Option-cases (lookup t inner.tenants)) [
      | inl e'' ↦ rw (e, Leaves) (rw (e', Leaves) (rw (e'', Leaves) tt))
      | inr (tenant, e'') ↦
          let moved : IsSent (record st { waiting = ws }) = record {
            distinct = s.distinct;
            sent = s.sent;
          } in
          let (d, h) =
            activate-IsSent world (record st { waiting = ws }) c t class tenant q moved in
          rw (e, Leaves)
            (rw (e', Leaves)
              (rw (e'', Leaves)
                (deliver-IsSent world
                  (activate world (record st { waiting = ws }) c t class tenant q) q.ticket d h)))
    ]
  ]
]

schedule_rounds-IsSent :
    (inner : TrafficControllerInner) (world : World) (fuel : ℕ) (st : TrafficState)
    → IsSent st
    → Leaves (schedule_rounds fuel inner world st)
unfolding schedule_rounds
schedule_rounds-IsSent inner world zero st s = tt
schedule_rounds-IsSent inner world (suc fuel) st s =
    if_cases Leaves (ltb (active_requests st) inner.policy.max_active_requests)
      (λ _. elim (Option-cases (choose_candidate inner st)) [
        | inl e ↦ rw (e, Leaves) s
        | inr ((c, t), e) ↦ elim (Option-cases (admit_head inner world st (c, t))) [
          | inl e' ↦ rw (e, Leaves) (rw (e', Leaves) tt)
          | inr (st', e') ↦
              rw (e, Leaves)
                (rw (e', Leaves)
                  (schedule_rounds-IsSent inner world fuel st'
                    (subst Leaves e' (admit_head-IsSent inner world st c t s))))
        ]
      ])
      (λ _. s)

pub schedule_locked-IsSent :
    (inner : TrafficControllerInner) (world : World) (st : TrafficState)
    → IsSent st
    → Leaves (schedule_locked inner world st)
unfolding schedule_locked
schedule_locked-IsSent inner world st s =
    schedule_rounds-IsSent inner world (suc (waiting_requests st.waiting)) st s
