-- ===== src/Traffic/Candidates/Choice.antt =====
-- crates/runtime/src/traffic.rs: what `choose_candidate` returns, against a description of the
-- requests that may be admitted that does not follow its loops.
use locus.Base.{
  ℕ, ◌≤◌, ◌<◌, ◌≡◌, refl, sym, ap, subst, ◌∙◌, inl, inr, ◌≢◌, none, some, String, List, [], arith,
  Option-cases, string_key,
}
use mathlib.Core.Option.{some-injective}
use locus.Base.Dict.{lookup}
use locus.Base.DictLaws.{lookup-Member, Member-lookup}
use locus.Base.Lists.{Member, head?, sort, head-sort-Member, head-sort-none}
use locus.Traffic.Policy.{ServiceClassPolicy, TrafficControllerInner}
use locus.Traffic.State.{TrafficState, QueuedRequest, Queues, count, queue_of}
use locus.Traffic.Candidates.{runtime_order, pair_after, class_candidates, choose_candidate}
use locus.Traffic.Candidates.Tenants.{>>=-eq-some, runtime_least, TenantFits, IsBestTenant}
use locus.Traffic.Candidates.Classes.{
  class_candidates_sound, class_candidates_complete, class_candidates_total,
}
use locus.Traffic.Counters.{QueuesDistinct}
use locus.Traffic.Invariant.{QueuesConfigured}

module _ (inner : TrafficControllerInner) (st : TrafficState) where
  -- The class is below its limit of requests and the tenant's first request fits.
  abbrev pub IsEligible : String → String → Type 0
  IsEligible c t =
      (class : ServiceClassPolicy) × (lookup c inner.classes ≡ some class)
      × (count st.class_active_requests c < class.max_active_requests)
      × TenantFits inner st class c t (queue_of st.waiting c t)

  queue_of-entry :
      (c t : String) (m : Queues) (qs : List QueuedRequest)
      → QueuesDistinct st.waiting
      → Member (c, m) st.waiting
      → Member (t, qs) m
      → queue_of st.waiting c t ≡ qs
  unfolding queue_of
  queue_of-entry c t m qs (d, ds) at at' =
      let outer = lookup-Member c m st.waiting d at in
      let inner_entry = lookup-Member t qs m (ds c m outer) at' in rw (outer) (rw (inner_entry))

  -- A nonempty queue is an entry.
  entry-queue_of :
      (c t : String)
      → queue_of st.waiting c t ≢ []
      → (m : Queues) × Member (c, m) st.waiting × Member (t, queue_of st.waiting c t) m
  unfolding queue_of lookup
  entry-queue_of c t h = elim (Option-cases (lookup c st.waiting)) [
    | inl e ↦ absurd (h (rw (e) refl))
    | inr (m, e) ↦ elim (Option-cases (lookup t m)) [
      | inl e' ↦ absurd (h (rw (e) (rw (e') refl)))
      | inr (qs, e') ↦
          (m, Member-lookup c m st.waiting e, rw (e) (rw (e') (Member-lookup t qs m e')))
    ]
  ]

  -- The choice, taken apart.
  chosen_entry :
      (c t : String)
      → choose_candidate inner st ≡ some (c, t)
      → (cs : List (ℕ × (String × String))) × (v : ℕ) × (class_candidates inner st st.waiting
          ≡ some cs)
        × (head? (sort (runtime_order pair_after) cs) ≡ some (v, (c, t)))
  unfolding choose_candidate
  chosen_entry c t h =
      let (cs, e, h') = >>=-eq-some (class_candidates inner st st.waiting) _ h in
      let (b, e', h'') =
        >>=-eq-some (head? (sort (runtime_order pair_after) cs))
          (λ (b : ℕ × (String × String)). some b.1) h' in
      let same : b.1 ≡ (c, t) = some-injective _ _ h'' in
      (cs, b.0, e, e' ∙ ap (λ (x : String × String). some (b.0, x)) same)

  -- The entry of the chosen class.
  chosen_class :
      (c t : String)
      → choose_candidate inner st ≡ some (c, t)
      → (class : ServiceClassPolicy) × (m : Queues) × Member (c, m) st.waiting
        × (lookup c inner.classes ≡ some class)
        × (count st.class_active_requests c < class.max_active_requests)
        × IsBestTenant inner st class c m t
  chosen_class c t h =
      let (cs, v, e, first) = chosen_entry c t h in
      (class_candidates_sound inner st c t v st.waiting cs e
        (head-sort-Member (runtime_order pair_after) (v, (c, t)) cs first)).1

  -- When no class and no tenant has two queues, the class and tenant that `choose_candidate` returns are
  -- eligible: the class is below its limit of requests and the tenant's first request fits the token
  -- and request limits of the controller, the class and the tenant.
  pub choose_candidate_sound :
      (c t : String)
      → QueuesDistinct st.waiting
      → choose_candidate inner st ≡ some (c, t)
      → IsEligible c t
  choose_candidate_sound c t d h =
      let (class, m, at, known, room, ((qs, at', f), _)) = chosen_class c t h in
      (
        class,
        known,
        room,
        subst (TenantFits inner st class c t) (sym (queue_of-entry c t m qs d at at')) f,
      )

  eligible_entry :
      (c t : String) (class : ServiceClassPolicy)
      → TenantFits inner st class c t (queue_of st.waiting c t)
      → (m : Queues) × Member (c, m) st.waiting × Member (t, queue_of st.waiting c t) m
  eligible_entry c t class f = entry-queue_of c t (λ e. subst (TenantFits inner st class c t) e f)

  -- When no class and no tenant has two queues: no class with an eligible tenant has a smaller virtual
  -- runtime than the chosen class, and no eligible tenant of the chosen class a smaller one than the
  -- chosen tenant.
  pub choose_candidate_least :
      (c t c' t' s : String)
      → QueuesDistinct st.waiting
      → choose_candidate inner st ≡ some (c, t)
      → IsEligible c' t'
      → IsEligible c s
      → (count st.class_vruntime c ≤ count st.class_vruntime c')
        × (count st.tenant_vruntime t ≤ count st.tenant_vruntime s)
  choose_candidate_least c t c' t' s d h (class', known', room', f') (class'', known'', _, f'') =
      let (cs, v, e, first) = chosen_entry c t h in
      let (ve, (class, m, at, known, room, (_, best))) =
        class_candidates_sound inner st c t v st.waiting cs e
          (head-sort-Member (runtime_order pair_after) (v, (c, t)) cs first) in
      let (m', at', in') = eligible_entry c' t' class' f' in
      let (b', l) =
        class_candidates_complete inner st c' t' class' _ m' st.waiting cs e known' room' at' in'
          f' in
      let (m'', at'', in'') = eligible_entry c s class'' f'' in
      let same_class : class'' ≡ class = some-injective _ _ (sym known'' ∙ known) in
      let same_queues : m'' ≡ m =
        some-injective _ _
          (sym (lookup-Member c m'' st.waiting d.0 at'') ∙ lookup-Member c m st.waiting d.0 at) in
      (
        subst (λ (x : ℕ). x ≤ count st.class_vruntime c') ve
            (runtime_least pair_after v (c, t) _ (c', b') cs first l),
        best s (queue_of st.waiting c s)
            (subst (Member (s, queue_of st.waiting c s)) same_queues in'')
            (subst (λ (k : ServiceClassPolicy). TenantFits inner st k c s (queue_of st.waiting c s))
              same_class f''),
      )

  -- When no class and no tenant has two queues and every queue's class and tenant are configured:
  -- while some class and tenant are eligible, `choose_candidate` chooses somebody.
  pub choose_candidate_complete :
      (c t : String)
      → QueuesDistinct st.waiting
      → QueuesConfigured inner st.waiting
      → IsEligible c t
      → choose_candidate inner st ≢ none
  unfolding choose_candidate
  choose_candidate_complete c t d k (class, known, room, f) h =
      elim (Option-cases (class_candidates inner st st.waiting)) [
        | inl n ↦
            class_candidates_total inner st st.waiting
              (λ c' m at.
                let (known_class, known_tenants) = k c' m (lookup-Member c' m st.waiting d.0 at) in
                (
                  known_class,
                  λ t' qs at'.
                      known_tenants t' qs (
                        lookup-Member t' qs m (d.1 c' m (lookup-Member c' m st.waiting d.0 at))
                          at'),
                ))
              n
        | inr (cs, e) ↦
            let (m, at, in_queue) = eligible_entry c t class f in
            let (b, l) =
              class_candidates_complete inner st c t class _ m st.waiting cs e known room at
                in_queue f in
            elim (Option-cases (head? (sort (runtime_order pair_after) cs))) [
              | inl n ↦
                  subst (Member (count st.class_vruntime c, (c, b)))
                    (head-sort-none (runtime_order pair_after) cs n) l
              | inr (best, e') ↦ ground arith
            ]
      ]
