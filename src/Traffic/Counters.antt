-- ===== src/Traffic/Counters.antt =====
-- crates/runtime/src/traffic.rs: the laws of the counters and of the queues. A counter that stays
-- in the range of its type counts exactly.
use locus.Base.{
  ℕ, ◌+◌, ◌%◌, ◌≤◌, ◌<◌, ◌≡◌, refl, ◌&&◌, Option, none, some, unwrap_or, Bool-cases, subst, String,
  List, [], ◌∷◌, ◌++◌, arith, inl, inr, if◌then◌else◌, Option-cases, Key, ◌==◌, string_key,
}
use locus.Base.Dict.{Dict, lookup, insert, sum_by, IsDistinct, get_or}
use locus.Base.DictLaws.{
  lookup-insert, sum_by-insert, measure-le-sum_by, sum_by_mono, IsDistinct-insert,
}
use locus.Base.Lists.{sum_of, sum_of-append}
use locus.Base.Words.{
  u64_mod, wrapping_add, wrapping_sub, wrapping_add-eq_of_lt, wrapping_sub-eq_of_le,
}
use locus.Traffic.State.{
  QueuedRequest, Queues, count, increment, decrement, queue_of, push_back, put_queue,
}

module _ {K : Type 0} ⦃k : Key K⦄ where
  pub count-increment :
      (m : Dict K ℕ) (x j : K) (v : ℕ)
      → count m x + v < u64_mod
      → count (increment m x v) j ≡ count m j + (if x == j then v else 0)
  unfolding increment
  count-increment m x j v h = ground (
    arith,
    lookup-insert x j (wrapping_add (count m x) v) m,
    wrapping_add-eq_of_lt (count m x) v,
    k.beq_iff x j,
  )

  pub count-decrement :
      (m : Dict K ℕ) (x j : K) (v : ℕ)
      → v ≤ count m x
      → count m x < u64_mod
      → count (decrement m x v) j + (if x == j then v else 0) ≡ count m j
  unfolding decrement
  count-decrement m x j v h l = elim (Option-cases (lookup x m)) [
    | inl e ↦ ground arith
    | inr (n, e) ↦
        ground
          (arith, lookup-insert x j (wrapping_sub n v) m, wrapping_sub-eq_of_le n v, k.beq_iff x j)
  ]

  pub sum_by-increment :
      (m : Dict K ℕ) (x : K) (v : ℕ)
      → count m x + v < u64_mod
      → sum_by (λ _ n. n) (increment m x v) ≡ sum_by (λ _ n. n) m + v
  unfolding increment
  sum_by-increment m x v h = ground (
    arith,
    sum_by-insert (λ (_ : K) (n : ℕ). n) x (wrapping_add (count m x) v) m,
    wrapping_add-eq_of_lt (count m x) v,
  )

  pub sum_by-decrement :
      (m : Dict K ℕ) (x : K) (v : ℕ)
      → v ≤ count m x
      → count m x < u64_mod
      → sum_by (λ _ n. n) (decrement m x v) + v ≡ sum_by (λ _ n. n) m
  unfolding decrement
  sum_by-decrement m x v h l = elim (Option-cases (lookup x m)) [
    | inl e ↦ ground arith
    | inr (n, e) ↦ ground (
      arith,
      sum_by-insert (λ (_ : K) (n : ℕ). n) x (wrapping_sub n v) m,
      measure-le-sum_by (λ (_ : K) (n : ℕ). n) x m,
      wrapping_sub-eq_of_le n v,
    )
  ]

-- A counter that may wrap around: the sum modulo the size of its type, and no entry before anything was
-- counted.
abbrev pub CountsModulo : Option ℕ → ℕ → Type 0
CountsModulo none s = s ≡ 0
CountsModulo (some n) s = n ≡ s % u64_mod

counts_as : (o o' : Option ℕ) (s s' : ℕ) → o ≡ o' → s ≡ s' → CountsModulo o s → CountsModulo o' s'
counts_as o o' s s' e f h = subst (λ x. CountsModulo o' x) f (subst (λ x. CountsModulo x s) e h)

counts_more :
    (o : Option ℕ) (s v s' : ℕ)
    → CountsModulo o s
    → s' ≡ s + v
    → CountsModulo (some (wrapping_add (unwrap_or 0 o) v)) s'
unfolding wrapping_add
counts_more none s v s' h e = rw (e, h) refl
counts_more (some n) s v s' h e = omega arith

counts_less :
    (n s v s' : ℕ)
    → CountsModulo (some n) s
    → s' + v ≡ s
    → v ≤ u64_mod
    → CountsModulo (some (wrapping_sub n v)) s'
unfolding wrapping_sub
counts_less n s v s' h e l = omega arith

module _ {K : Type 0} ⦃k : Key K⦄ where
  pub increment-CountsModulo :
      (m : Dict K ℕ) (x j : K) (v s s' : ℕ)
      → CountsModulo (lookup j m) s
      → s' ≡ s + (if x == j then v else 0)
      → CountsModulo (lookup j (increment m x v)) s'
  unfolding increment
  increment-CountsModulo m x j v s s' h grown =
      let written = lookup-insert x j (wrapping_add (count m x) v) m in
      elim (Bool-cases (x == j)) [
        | inr other ↦ counts_as (lookup j m) _ s s' (ground (arith, written)) (ground arith) h
        | inl same ↦
            counts_as (some (wrapping_add (count m j) v)) _ s' s'
              (ground (arith, written, k.beq_iff x j)) refl
              (counts_more (lookup j m) s v s' h (ground arith))
      ]

  pub decrement-CountsModulo :
      (m : Dict K ℕ) (x j : K) (v s s' : ℕ)
      → CountsModulo (lookup j m) s
      → s' + (if x == j then v else 0) ≡ s
      → v ≤ u64_mod
      → CountsModulo (lookup j (decrement m x v)) s'
  unfolding decrement
  decrement-CountsModulo m x j v s s' h shrunk fits = elim (Option-cases (lookup x m)) [
    | inl e ↦ elim (Bool-cases (x == j)) [
      | inr other ↦ counts_as (lookup j m) _ s s' (ground arith) (ground arith) h
      | inl same ↦
          let absent : lookup j m ≡ none = ground (arith, k.beq_iff x j) in
          let nothing : s ≡ 0 = counts_as (lookup j m) none s s absent refl h in
          counts_as none _ 0 s' (ground arith) (ground arith) refl
    ]
    | inr (n, e) ↦
        let written = lookup-insert x j (wrapping_sub n v) m in
        elim (Bool-cases (x == j)) [
          | inr other ↦ counts_as (lookup j m) _ s s' (ground (arith, written)) (ground arith) h
          | inl same ↦
              let present : lookup j m ≡ some n = ground (arith, k.beq_iff x j) in
              counts_as (some (wrapping_sub n v)) _ s' s' (ground (arith, written)) refl (
                counts_less n s v s' (counts_as (lookup j m) (some n) s s present refl h)
                  (ground arith) fits)
        ]
  ]

-- The sum of a measure over the requests in one class's queues, and over all; the measure may look
-- at the tenant whose queue it is.
unfoldable pub queues_sum : (String → QueuedRequest → ℕ) → Queues → ℕ
queues_sum w = sum_by (λ t qs. sum_of (w t) qs)

unfoldable pub waiting_sum : (String → QueuedRequest → ℕ) → Dict String Queues → ℕ
waiting_sum w = sum_by (λ _ m. queues_sum w m)

queues_sum-nil : (w : String → QueuedRequest → ℕ) → queues_sum w [] ≡ 0
unfolding queues_sum sum_by
queues_sum-nil w = refl

queues_sum-insert :
    (w : String → QueuedRequest → ℕ) (m : Queues) (t : String) (qs : List QueuedRequest)
    → queues_sum w (insert t qs m) + sum_of (w t) (get_or [] t m) ≡ queues_sum w m + sum_of (w t) qs
unfolding queues_sum
queues_sum-insert w m t qs = elim (Option-cases (lookup t m)) [
  | inl e ↦
      rw e
        (rw e at (sum_by-insert (λ (t : String) (qs : List QueuedRequest). sum_of (w t) qs) t qs m))
  | inr (old, e) ↦
      rw e
        (rw e at (sum_by-insert (λ (t : String) (qs : List QueuedRequest). sum_of (w t) qs) t qs m))
]

-- A write of one queue adds what it holds then and takes away what it held.
pub waiting_sum-put_queue :
    (w : String → QueuedRequest → ℕ) (ws : Dict String Queues) (c t : String)
    (qs : List QueuedRequest)
    → waiting_sum w (put_queue ws c t qs) + sum_of (w t) (queue_of ws c t)
      ≡ waiting_sum w ws + sum_of (w t) qs
unfolding waiting_sum put_queue queue_of
waiting_sum-put_queue w ws c t qs = ground (
  arith,
  sum_by-insert (λ (_ : String) (m : Queues). queues_sum w m) c (insert t qs (get_or [] c ws)) ws,
  queues_sum-insert w (get_or [] c ws) t qs,
  queues_sum-nil w,
)

-- What one queue holds is part of the sum.
pub sum_of-le_waiting :
    (w : String → QueuedRequest → ℕ) (ws : Dict String Queues) (c t : String)
    → sum_of (w t) (queue_of ws c t) ≤ waiting_sum w ws
sum_of-le_waiting w ws c t = omega (arith, waiting_sum-put_queue w ws c t [])

pub waiting_sum-push_back :
    (w : String → QueuedRequest → ℕ) (ws : Dict String Queues) (c t : String) (q : QueuedRequest)
    → waiting_sum w (push_back ws c t q) ≡ waiting_sum w ws + w t q
unfolding push_back
waiting_sum-push_back w ws c t q = omega (
  arith,
  waiting_sum-put_queue w ws c t (queue_of ws c t ++ q ∷ []),
  sum_of-append (w t) (queue_of ws c t) (q ∷ []),
)

-- The queue that was written, and every other one.
pub queue_of-put_queue :
    (ws : Dict String Queues) (c t c' t' : String) (qs : List QueuedRequest)
    → queue_of (put_queue ws c t qs) c' t' ≡ (if c == c' && t == t' then qs else queue_of ws c' t')
unfolding queue_of put_queue
queue_of-put_queue ws c t c' t' qs = ground (
  arith,
  lookup-insert c c' (insert t qs (get_or [] c ws)) ws,
  lookup-insert t t' qs (get_or [] c ws),
  string_key.beq_iff c c',
)

get_or-IsDistinct :
    (c : String) (ws : Dict String Queues)
    → ((c : String) (m : Queues) → lookup c ws ≡ some m → IsDistinct m)
    → IsDistinct (get_or [] c ws)
get_or-IsDistinct c ws h = elim (Option-cases (lookup c ws)) [
  | inl e ↦ rw e tt
  | inr (m, e) ↦ rw e (h c m e)
]

-- The maps of queues list no class and no tenant twice.
abbrev pub QueuesDistinct : Dict String Queues → Type 0
QueuesDistinct ws =
    IsDistinct ws × ((c : String) (m : Queues) → lookup c ws ≡ some m → IsDistinct m)

pub put_queue-QueuesDistinct :
    (ws : Dict String Queues) (c t : String) (qs : List QueuedRequest)
    → QueuesDistinct ws
    → QueuesDistinct (put_queue ws c t qs)
unfolding put_queue
put_queue-QueuesDistinct ws c t qs (d, ds) = (
  IsDistinct-insert c _ ws d,
  λ c' m e. ground (
    arith,
    lookup-insert c c' (insert t qs (get_or [] c ws)) ws,
    string_key.beq_iff c c',
    IsDistinct-insert t qs (get_or [] c ws) (get_or-IsDistinct c ws ds),
    ds c' m,
  ),
)

sum_of_mono :
    (v w : QueuedRequest → ℕ)
    → ((q : QueuedRequest) → v q ≤ w q)
    → (qs : List QueuedRequest) → sum_of v qs ≤ sum_of w qs
sum_of_mono v w h [] = omega arith
sum_of_mono v w h (q ∷ qs) = omega (arith, h q, sum_of_mono v w h qs)

pub waiting_sum_mono :
    (v w : String → QueuedRequest → ℕ)
    → ((t : String) (q : QueuedRequest) → v t q ≤ w t q)
    → (ws : Dict String Queues) → waiting_sum v ws ≤ waiting_sum w ws
unfolding waiting_sum queues_sum
waiting_sum_mono v w h = sum_by_mono _ _ λ _ m.
    sum_by_mono (λ t qs. sum_of (v t) qs) (λ t qs. sum_of (w t) qs)
      (λ t qs. sum_of_mono (v t) (w t) (h t) qs) m

pub push_back-QueuesDistinct :
    (ws : Dict String Queues) (c t : String) (q : QueuedRequest)
    → QueuesDistinct ws
    → QueuesDistinct (push_back ws c t q)
unfolding push_back
push_back-QueuesDistinct ws c t q = put_queue-QueuesDistinct ws c t (queue_of ws c t ++ q ∷ [])
