-- ===== src/Traffic/Candidates/Classes.antt =====
-- crates/runtime/src/traffic.rs: the outer loop of `choose_candidate`, over the classes.
use locus.Base.{
  ℕ, ◌<◌, ◌≡◌, refl, ap, subst, inl, inr, ◌≢◌, none, some, String, List, [], ◌∷◌, ◌++◌, arith,
  Option-cases, string_key,
}
use locus.Base.Dict.{Dict, lookup}
use locus.Base.Lists.{Member, Member-append, Member-append_left, Member-append_right}
use locus.Traffic.Policy.{ServiceClassPolicy, TenantPolicy, TrafficControllerInner}
use locus.Traffic.State.{TrafficState, QueuedRequest, Queues, count}
use locus.Traffic.Candidates.{class_round, class_candidates}
use locus.Traffic.Candidates.Tenants.{
  >>=-eq-some, TenantFits, IsBestTenant, class_round_sound, class_round_complete,
  tenant_candidates_total, class_round_total,
}

module _ (inner : TrafficControllerInner) (st : TrafficState) where
  pub class_round_at :
      {class class' : ServiceClassPolicy} {c c' : String} {m m' : Queues}
      {here : List (ℕ × (String × String))}
      → c' ≡ c
      → m' ≡ m
      → class' ≡ class
      → class_round inner st class' c' m' ≡ some here
      → class_round inner st class c m ≡ some here
  class_round_at key value same h = cc

  pub class_candidates_sound :
      (c t : String) (v : ℕ) (ws : Dict String Queues) (cs : List (ℕ × (String × String)))
      → class_candidates inner st ws ≡ some cs
      → Member (v, (c, t)) cs
      → (v ≡ count st.class_vruntime c)
        × ((class : ServiceClassPolicy) × (m : Queues) × Member (c, m) ws
            × (lookup c inner.classes ≡ some class)
            × (count st.class_active_requests c < class.max_active_requests)
            × IsBestTenant inner st class c m t)
  unfolding class_candidates
  class_candidates_sound c t v [] cs h mem = let e : cs ≡ [] = ground arith in absurd (rw e at mem)
  class_candidates_sound c t v ((c', m) ∷ rest) cs h mem =
      let (class, found, h') = >>=-eq-some (lookup c' inner.classes) _ h in
      let (here, eq, h'') = >>=-eq-some (class_round inner st class c' m) _ h' in
      let (more, eq', h''') = >>=-eq-some (class_candidates inner st rest) _ h'' in
      let shape : here ++ more ≡ cs = ground arith in
      elim (Member-append (v, (c, t)) here more (rw (← shape) at mem)) [
        | inl l ↦
            let (same, ve, room, best) = class_round_sound inner st class c' c t v m here eq l in
            rw (← same) (ve, (class, m, inl refl, found, room, best))
        | inr r ↦
            let (ve, (k, m', at, known, room, best)) =
              class_candidates_sound c t v rest more eq' r in
            (ve, (k, m', inr at, known, room, best))
      ]

  pub class_candidates_complete :
      (c t : String) (class : ServiceClassPolicy) (qs : List QueuedRequest) (m : Queues)
      (ws : Dict String Queues) (cs : List (ℕ × (String × String)))
      → class_candidates inner st ws ≡ some cs
      → lookup c inner.classes ≡ some class
      → count st.class_active_requests c < class.max_active_requests
      → Member (c, m) ws
      → Member (t, qs) m
      → TenantFits inner st class c t qs
      → (best : String) × Member (count st.class_vruntime c, (c, best)) cs
  unfolding class_candidates
  class_candidates_complete c t class qs m [] cs h e room at at' f = absurd at
  class_candidates_complete c t class qs m ((c', m') ∷ rest) cs h e room (inr at) at' f =
      let (class', found, h') = >>=-eq-some (lookup c' inner.classes) _ h in
      let (here, eq, h'') = >>=-eq-some (class_round inner st class' c' m') _ h' in
      let (more, eq', h''') = >>=-eq-some (class_candidates inner st rest) _ h'' in
      let shape : here ++ more ≡ cs = ground arith in
      let (best, l) = class_candidates_complete c t class qs m rest more eq' e room at at' f in
      (
        best,
        subst (Member (count st.class_vruntime c, (c, best))) shape
            (Member-append_right _ here more l),
      )
  class_candidates_complete c t class qs m ((c', m') ∷ rest) cs h e room (inl same) at' f =
      let (class', found, h') = >>=-eq-some (lookup c' inner.classes) _ h in
      let (here, eq, h'') = >>=-eq-some (class_round inner st class' c' m') _ h' in
      let (more, eq', h''') = >>=-eq-some (class_candidates inner st rest) _ h'' in
      let shape : here ++ more ≡ cs = ground arith in
      let key : c' ≡ c = ap (λ (p : String × Queues). p.0) same in
      let value : m' ≡ m = ap (λ (p : String × Queues). p.1) same in
      let same_class : class' ≡ class = ground arith in
      let (best, l) =
        class_round_complete inner st class c t qs m here (class_round_at key value same_class eq)
          room at' f in
      (
        best,
        subst (Member (count st.class_vruntime c, (c, best))) shape
            (Member-append_left _ here more l),
      )

  pub class_candidates_total :
      (ws : Dict String Queues)
      → ((c : String) (m : Queues)
          → Member (c, m) ws
          → ((class : ServiceClassPolicy) × (lookup c inner.classes ≡ some class))
            × ((t : String) (qs : List QueuedRequest)
                → Member (t, qs) m
                → (tenant : TenantPolicy) × (lookup t inner.tenants ≡ some tenant)))
      → class_candidates inner st ws ≢ none
  unfolding class_candidates
  class_candidates_total [] h e = cc
  class_candidates_total ((c, m) ∷ rest) h e =
      let (class, known) = (h c m (inl refl)).0 in
      let round : class_round inner st class c m ≢ none =
        class_round_total inner st class c m
          (tenant_candidates_total inner st class c m (h c m (inl refl)).1) in
      let later : class_candidates inner st rest ≢ none =
        class_candidates_total rest (λ c' m' at. h c' m' (inr at)) in
      elim (Option-cases (class_round inner st class c m)) [
        | inl n ↦ round n
        | inr (here, e') ↦ elim (Option-cases (class_candidates inner st rest)) [
          | inl n ↦ later n
          | inr (more, e'') ↦ ground arith
        ]
      ]
