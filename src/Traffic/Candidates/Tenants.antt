-- ===== src/Traffic/Candidates/Tenants.antt =====
-- crates/runtime/src/traffic.rs: the inner loop of `choose_candidate`, over the tenants of a class.
use locus.Base.{
  ℕ, ◌≤◌, ◌<◌, ◌≡◌, refl, sym, ap, ◌⊎◌, inl, inr, ◌≢◌, Bool, true, false, Option, none, some,
  String, List, [], ◌∷◌, arith, Bool-cases, Option-cases, string_key, leb,
}
use locus.Base.Dict.{lookup}
use locus.Base.Lists.{Member, head?, sort, head-sort-Member, head-sort-none, head-sort_least}
use locus.Traffic.Policy.{ServiceClassPolicy, TenantPolicy, TrafficControllerInner}
use locus.Traffic.State.{TrafficState, QueuedRequest, Queues, count}
use locus.Traffic.Candidates.{
  ◌>>=◌, fits, runtime_order, text_after, tenant_candidates, class_entry, class_round,
}

pub >>=-eq-some {ℓ κ} :
    {A : Type ℓ} {B : Type κ} (m : Option A) (f : A → Option B) {b : B}
    → (m >>= f) ≡ some b
    → (a : A) × (m ≡ some a) × (f a ≡ some b)
>>=-eq-some none f h = cc
>>=-eq-some (some a) f h = (a, refl, h)

runtime_order-true {ℓ} :
    {A : Type ℓ} (after : A → A → Bool) (x y : ℕ × A) → runtime_order after x y ≡ true → x.0 ≤ y.0
unfolding runtime_order
runtime_order-true after (v, a) (w, b) h = ground arith

runtime_order-false {ℓ} :
    {A : Type ℓ} (after : A → A → Bool) (x y : ℕ × A) → runtime_order after x y ≡ false → y.0 ≤ x.0
unfolding runtime_order
runtime_order-false after (v, a) (w, b) h = ground arith

-- The head after sorting has the least virtual runtime.
pub runtime_least :
    {A : Type 0} (after : A → A → Bool) (v : ℕ) (a : A) (w : ℕ) (b : A) (xs : List (ℕ × A))
    → head? (sort (runtime_order after) xs) ≡ some (v, a)
    → Member (w, b) xs
    → v ≤ w
runtime_least after v a w b xs h m =
    head-sort_least (runtime_order after) (λ p. p.0) (runtime_order-true after)
      (runtime_order-false after) (v, a) (w, b) xs h m

module _ (inner : TrafficControllerInner) (st : TrafficState) where
  -- The head of the tenant's queue meets the limits of the controller, its class and its tenant.
  abbrev pub TenantFits : ServiceClassPolicy → String → String → List QueuedRequest → Type 0
  TenantFits class c t [] = ⊥
  TenantFits class c t (head ∷ rest) =
      (tenant : TenantPolicy) × (lookup t inner.tenants ≡ some tenant)
      × (fits inner st class tenant c t head.token_cost ≡ true)

  pub tenant_candidates_sound :
      (class : ServiceClassPolicy) (c t : String) (v : ℕ) (m : Queues) (ts : List (ℕ × String))
      → tenant_candidates inner st class c m ≡ some ts
      → Member (v, t) ts
      → (v ≡ count st.tenant_vruntime t)
        × ((qs : List QueuedRequest) × Member (t, qs) m × TenantFits class c t qs)
  unfolding tenant_candidates
  tenant_candidates_sound class c t v [] ts h m =
      let e : ts ≡ [] = ground arith in absurd (rw e at m)
  tenant_candidates_sound class c t v ((t', []) ∷ rest) ts h m =
      let (e, (qs, at, f)) = tenant_candidates_sound class c t v rest ts h m in (e, (qs, inr at, f))
  tenant_candidates_sound class c t v ((t', head ∷ r) ∷ rest) ts h m =
      let (tenant, found, h') = >>=-eq-some (lookup t' inner.tenants) _ h in
      let (more, eq, h'') = >>=-eq-some (tenant_candidates inner st class c rest) _ h' in
      let later : Member (v, t) more
          → (v ≡ count st.tenant_vruntime t)
            × ((qs : List QueuedRequest) × Member (t, qs) ((t', head ∷ r) ∷ rest)
                × TenantFits class c t qs) =
        λ l.
          let (e, (qs, at, f)) = tenant_candidates_sound class c t v rest more eq l in
          (e, (qs, inr at, f)) in
      elim (Bool-cases (fits inner st class tenant c t' head.token_cost)) [
        | inl yes_fits ↦
            let shape : ts ≡ (count st.tenant_vruntime t', t') ∷ more = ground arith in
            elim (rw shape at m) [
              | inl same ↦ rw (← ap (λ (p : ℕ × String). p.1) same) (
                sym (ap (λ (p : ℕ × String). p.0) same),
                (head ∷ r, inl refl, (tenant, found, yes_fits)),
              )
              | inr l ↦ later l
            ]
        | inr no_fits ↦ let shape : more ≡ ts = ground arith in later (rw (shape) m)
      ]

  pub tenant_candidates_complete :
      (class : ServiceClassPolicy) (c t : String) (m : Queues) (ts : List (ℕ × String))
      (qs : List QueuedRequest)
      → tenant_candidates inner st class c m ≡ some ts
      → Member (t, qs) m
      → TenantFits class c t qs
      → Member (count st.tenant_vruntime t, t) ts
  unfolding tenant_candidates
  tenant_candidates_complete class c t [] ts qs h m f = absurd m
  tenant_candidates_complete class c t ((t', []) ∷ rest) ts qs h (inl e) f =
      absurd (rw (← ap (λ (p : String × List QueuedRequest). p.1) e) at f)
  tenant_candidates_complete class c t ((t', []) ∷ rest) ts qs h (inr m) f =
      tenant_candidates_complete class c t rest ts qs h m f
  tenant_candidates_complete class c t ((t', head ∷ r) ∷ rest) ts qs h (inl same) f =
      let (tenant, found, h') = >>=-eq-some (lookup t' inner.tenants) _ h in
      let (more, eq, h'') = >>=-eq-some (tenant_candidates inner st class c rest) _ h' in
      let key : t' ≡ t = ap (λ (p : String × List QueuedRequest). p.0) same in
      let (tenant', found', fit) =
        rw (← ap (λ (p : String × List QueuedRequest). p.1) same, ← key) at f in
      let shape : (count st.tenant_vruntime t', t') ∷ more ≡ ts = ground arith in
      rw (← shape) (inl (ap (λ (x : String). (count st.tenant_vruntime x, x)) key))
  tenant_candidates_complete class c t ((t', head ∷ r) ∷ rest) ts qs h (inr m) f =
      let (tenant, found, h') = >>=-eq-some (lookup t' inner.tenants) _ h in
      let (more, eq, h'') = >>=-eq-some (tenant_candidates inner st class c rest) _ h' in
      let ih : Member (count st.tenant_vruntime t, t) more =
        tenant_candidates_complete class c t rest more qs eq m f in
      elim (Bool-cases (fits inner st class tenant c t' head.token_cost)) [
        | inl yes_fits ↦
            let shape : (count st.tenant_vruntime t', t') ∷ more ≡ ts = ground arith in
            rw (← shape) (inr ih)
        | inr no_fits ↦ let shape : more ≡ ts = ground arith in rw (← shape) ih
      ]

  -- The tenant's first request fits, and no tenant whose first request fits has run less.
  abbrev pub IsBestTenant : ServiceClassPolicy → String → Queues → String → Type 0
  IsBestTenant class c m t =
      ((qs : List QueuedRequest) × Member (t, qs) m × TenantFits class c t qs)
      × ((t' : String) (qs : List QueuedRequest)
          → Member (t', qs) m
          → TenantFits class c t' qs
          → count st.tenant_vruntime t ≤ count st.tenant_vruntime t')

  pub class_round_cases :
      (class : ServiceClassPolicy) (c : String) (m : Queues) (here : List (ℕ × (String × String)))
      → class_round inner st class c m ≡ some here
      → ((here ≡ [])
          × ((class.max_active_requests ≤ count st.class_active_requests c)
              ⊎ (tenant_candidates inner st class c m ≡ some [])))
        ⊎ ((ts : List (ℕ × String)) × (w : ℕ) × (t : String) × (count st.class_active_requests c
              < class.max_active_requests)
            × (tenant_candidates inner st class c m ≡ some ts)
            × (head? (sort (runtime_order text_after) ts) ≡ some (w, t))
            × (here ≡ (count st.class_vruntime c, (c, t)) ∷ []))
  unfolding class_round class_entry
  class_round_cases class c m here h =
      elim (Bool-cases (leb class.max_active_requests (count st.class_active_requests c))) [
        | inl full ↦ inl (ground arith, inl (ground arith))
        | inr room ↦ elim (Option-cases (tenant_candidates inner st class c m)) [
          | inl e ↦ absurd (ground arith)
          | inr (ts, e) ↦ elim (Option-cases (head? (sort (runtime_order text_after) ts))) [
            | inl e' ↦ inl (
              ground arith,
              inr (rw e (ap some (head-sort-none (runtime_order text_after) ts e'))),
            )
            | inr ((w, t), e') ↦ inr (ts, w, t, ground arith, e, e', ground arith)
          ]
        ]
      ]

  pub class_round_sound :
      (class : ServiceClassPolicy) (c c' t : String) (v : ℕ) (m : Queues)
      (here : List (ℕ × (String × String)))
      → class_round inner st class c m ≡ some here
      → Member (v, (c', t)) here
      → (c ≡ c')
        × (v ≡ count st.class_vruntime c)
        × (count st.class_active_requests c < class.max_active_requests)
        × IsBestTenant class c m t
  class_round_sound class c c' t v m here h mem = elim (class_round_cases class c m here h) [
    | inl (e, _) ↦ absurd (rw e at mem)
    | inr (ts, w, best, room, e, first, shape) ↦ elim (rw shape at mem) [
      | inr false_mem ↦ absurd false_mem
      | inl same ↦
          let same_t : best ≡ t = ap (λ (p : ℕ × (String × String)). p.1.1) same in
          let (we, found) =
            tenant_candidates_sound class c best w m ts e (head-sort-Member _ (w, best) ts first) in
          (
            ap (λ (p : ℕ × (String × String)). p.1.0) same,
            sym (ap (λ (p : ℕ × (String × String)). p.0) same),
            room,
            rw (← same_t) (
              found,
              λ t' qs at f. rw we at (
                  runtime_least text_after w best _ t' ts first
                    (tenant_candidates_complete class c t' m ts qs e at f)),
            ),
          )
    ]
  ]

  -- A class below its limit with a tenant whose first request fits has an entry.
  pub class_round_complete :
      (class : ServiceClassPolicy) (c t : String) (qs : List QueuedRequest) (m : Queues)
      (here : List (ℕ × (String × String)))
      → class_round inner st class c m ≡ some here
      → count st.class_active_requests c < class.max_active_requests
      → Member (t, qs) m
      → TenantFits class c t qs
      → (best : String) × Member (count st.class_vruntime c, (c, best)) here
  class_round_complete class c t qs m here h room at f = elim (class_round_cases class c m here h) [
    | inl (e, inl full) ↦ absurd (omega arith)
    | inl (e, inr nobody) ↦ absurd (tenant_candidates_complete class c t m [] qs nobody at f)
    | inr (ts, w, best, _, _, _, shape) ↦ (best, rw shape (inl refl))
  ]

  pub tenant_candidates_total :
      (class : ServiceClassPolicy) (c : String) (m : Queues)
      → ((t : String) (qs : List QueuedRequest)
          → Member (t, qs) m
          → (tenant : TenantPolicy) × (lookup t inner.tenants ≡ some tenant))
      → tenant_candidates inner st class c m ≢ none
  unfolding tenant_candidates
  tenant_candidates_total class c [] h e = cc
  tenant_candidates_total class c ((t, []) ∷ rest) h e =
      tenant_candidates_total class c rest (λ t' qs at. h t' qs (inr at)) e
  tenant_candidates_total class c ((t, q ∷ qs) ∷ rest) h e =
      let (tenant, known) = h t (q ∷ qs) (inl refl) in
      ground (arith, tenant_candidates_total class c rest (λ t' qs at. h t' qs (inr at)))

  pub class_round_total :
      (class : ServiceClassPolicy) (c : String) (m : Queues)
      → tenant_candidates inner st class c m ≢ none
      → class_round inner st class c m ≢ none
  unfolding class_round
  class_round_total class c m h e = ground arith
