-- ===== src/Traffic/Candidates.antt =====
-- crates/runtime/src/traffic.rs: `normalize_idle_vruntime_locked` and `choose_candidate`, which
-- picks the class and the tenant to admit next.
pub mod Tenants
pub mod Classes
pub mod Choice
use locus.Base.{
  ℕ, min, max, Bool, true, not, ◌&&◌, ◌||◌, Option, none, some, String, List, [], ◌∷◌, ◌++◌,
  string_key, nat_key, pair_key, if◌then◌else◌, nat_beq, ltb, leb, ◌==◌, ◌≺◌, is_none_or,
  is_some_and,
}
use locus.Base.Dict.{Dict, lookup, insert}
use locus.Base.Lists.{is_empty, head?, sort}
use locus.Base.Words.{saturating_add}
use locus.Traffic.Policy.{ServiceClassPolicy, TenantPolicy, TrafficControllerInner}
use locus.Traffic.State.{TrafficState, Queues, count, active_tokens, queue_of}

infixl 5 ◌>>=◌
abbrev pub ◌>>=◌ {ℓ κ} : {A : Type ℓ} {B : Type κ} → Option A → (A → Option B) → Option B
none >>= f = none
some a >>= f = f a

-- `Iterator::min().unwrap_or_default()`.
unfoldable pub least : List ℕ → ℕ
least [] = 0
least (x ∷ []) = x
least (x ∷ y ∷ rest) = min x (least (y ∷ rest))

-- `queues.values().all(VecDeque::is_empty)`.
unfoldable pub all_empty : Queues → Bool
all_empty [] = true
all_empty ((_, qs) ∷ rest) = is_empty qs && all_empty rest

class_is_busy : TrafficState → String → Bool
unfolding all_empty
class_is_busy st class =
    ltb 0 (count st.class_active_requests class)
    || is_some_and (lookup class st.waiting) (λ queues. not (all_empty queues))

tenant_is_busy : TrafficState → TenantPolicy → Bool
unfolding queue_of
tenant_is_busy st t =
    ltb 0 (count st.tenant_active_requests t.id)
    || not (is_empty (queue_of st.waiting t.service_class t.id))

-- The virtual runtimes of the other busy classes.
class_runtimes : TrafficState → String → Dict String ServiceClassPolicy → List ℕ
unfolding class_is_busy
class_runtimes st own [] = []
class_runtimes st own ((id, _) ∷ rest) =
    let more = class_runtimes st own rest in
    if not (id == own) && class_is_busy st id then count st.class_vruntime id ∷ more else more

-- The virtual runtimes of the other busy tenants of the class.
tenant_runtimes : TrafficState → TenantPolicy → Dict String TenantPolicy → List ℕ
unfolding tenant_is_busy
tenant_runtimes st own [] = []
tenant_runtimes st own ((_, t) ∷ rest) =
    let more = tenant_runtimes st own rest in
    if (t.service_class == own.service_class && not (t.id == own.id)) && tenant_is_busy st t
    then count st.tenant_vruntime t.id ∷ more
    else more

raise : Dict String ℕ → String → ℕ → Dict String ℕ
raise m x floor = insert x (max (count m x) floor) m

normalize_class : TrafficControllerInner → TrafficState → TenantPolicy → TrafficState
unfolding class_runtimes least raise
normalize_class inner st tenant =
    let floor = least (class_runtimes st tenant.service_class inner.classes) in
    record st {
      class_vruntime =
          if nat_beq (count st.class_active_requests tenant.service_class) 0
            && is_none_or (lookup tenant.service_class st.waiting) all_empty
          then raise st.class_vruntime tenant.service_class floor
          else st.class_vruntime;
    }

normalize_tenant : TrafficControllerInner → TrafficState → TenantPolicy → TrafficState
unfolding tenant_runtimes least raise
normalize_tenant inner st tenant =
    let floor = least (tenant_runtimes st tenant inner.tenants) in
    record st {
      tenant_vruntime =
          if nat_beq (count st.tenant_active_requests tenant.id) 0
            && is_empty (queue_of st.waiting tenant.service_class tenant.id)
          then raise st.tenant_vruntime tenant.id floor
          else st.tenant_vruntime;
    }

-- A class or tenant that was idle starts at the least virtual runtime of its busy competitors.
unfoldable pub normalize_idle_vruntime_locked :
    TrafficControllerInner → TrafficState → TenantPolicy → TrafficState
unfolding normalize_class normalize_tenant all_empty queue_of
normalize_idle_vruntime_locked inner st tenant =
    normalize_tenant inner (normalize_class inner st tenant) tenant

-- The four limits that the head of a queue must meet.
unfoldable pub fits :
    TrafficControllerInner
    → TrafficState
    → ServiceClassPolicy
    → TenantPolicy
    → String
    → String
    → ℕ
    → Bool
unfolding active_tokens
fits inner st class tenant class_id tenant_id cost =
    leb (saturating_add (active_tokens st) cost) inner.policy.max_active_tokens
    && leb (saturating_add (count st.class_active_tokens class_id) cost) class.max_active_tokens
    && ltb (count st.tenant_active_requests tenant_id) tenant.max_active_requests
    && leb (saturating_add (count st.tenant_active_tokens tenant_id) cost) tenant.max_active_tokens

-- `sort` on pairs that start with a virtual runtime: smaller ones first, ties by what follows.
unfoldable pub runtime_order {ℓ} : {A : Type ℓ} → (A → A → Bool) → ℕ × A → ℕ × A → Bool
runtime_order after (v, a) (w, b) = ltb v w || (nat_beq v w && not (after a b))

abbrev pub text_after : String → String → Bool
text_after a b = b ≺ a

abbrev pub pair_after : String × String → String × String → Bool
pair_after a b = b ≺ a

-- The inner loop; `none` is the early return at an unknown tenant.
unfoldable pub tenant_candidates :
    TrafficControllerInner
    → TrafficState
    → ServiceClassPolicy
    → String
    → Queues
    → Option (List (ℕ × String))
unfolding fits
tenant_candidates inner st class class_id [] = some []
tenant_candidates inner st class class_id ((_, []) ∷ rest) =
    tenant_candidates inner st class class_id rest
tenant_candidates inner st class class_id ((tenant_id, head ∷ _) ∷ rest) = do
  tenant ← lookup tenant_id inner.tenants
  more ← tenant_candidates inner st class class_id rest
  some (
      if fits inner st class tenant class_id tenant_id head.token_cost
      then (count st.tenant_vruntime tenant_id, tenant_id) ∷ more
      else more)

-- The best tenant of a class, with the class's virtual runtime.
unfoldable pub class_entry :
    TrafficState → String → List (ℕ × String) → List (ℕ × (String × String))
unfolding runtime_order sort
class_entry st class_id tenants = elim (head? (sort (runtime_order text_after) tenants)) [
  | none ↦ []
  | some (_, tenant_id) ↦ (count st.class_vruntime class_id, (class_id, tenant_id)) ∷ []
]

-- A class at its limit of requests is passed over.
unfoldable pub class_round :
    TrafficControllerInner
    → TrafficState
    → ServiceClassPolicy
    → String
    → Queues
    → Option (List (ℕ × (String × String)))
unfolding tenant_candidates class_entry
class_round inner st class class_id queues =
    if leb class.max_active_requests (count st.class_active_requests class_id)
    then some []
    else elim (tenant_candidates inner st class class_id queues) [
      | none ↦ none
      | some tenants ↦ some (class_entry st class_id tenants)
    ]

-- The outer loop; `none` is the early return at an unknown class or tenant.
unfoldable pub class_candidates :
    TrafficControllerInner
    → TrafficState
    → Dict String Queues
    → Option (List (ℕ × (String × String)))
unfolding class_round
class_candidates inner st [] = some []
class_candidates inner st ((class_id, queues) ∷ rest) = do
  class ← lookup class_id inner.classes
  here ← class_round inner st class class_id queues
  more ← class_candidates inner st rest
  some (here ++ more)

unfoldable pub choose_candidate : TrafficControllerInner → TrafficState → Option (String × String)
unfolding class_candidates runtime_order sort
choose_candidate inner st = do
  classes ← class_candidates inner st st.waiting
  best ← head? (sort (runtime_order pair_after) classes)
  some best.1
