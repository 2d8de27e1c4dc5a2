-- ===== src/Runtime/Discovered.antt =====
-- crates/runtime/src/lib.rs: what `discover` finds is of the request's model.
use locus.Base.{
  ◌≡◌, subst, true, not, ◌&&◌, List, [], ◌∷◌, ◌++◌, arith, string_key, Bool-cases, inl, inr,
}
use locus.Base.Lists.{is_empty, sort, insert_sorted, Member}
use locus.Base.Results.{Result, ok, err, Result-cases}
use locus.Core.Identity.{ExecutionTarget, CanonicalRequest, model_beq}
use locus.Engine.{Adapter}
use locus.Executor.{EngineError}
use locus.Runtime.{
  DiscoveredTarget, Engines, Found, discover, discover_target, discover_targets, discover_adapters,
  by_target_id,
}

-- The targets that were found are of the request's model.
abbrev pub IsOfModel : CanonicalRequest → List DiscoveredTarget → Type 0
IsOfModel request [] = Unit
IsOfModel request (d ∷ ds) = (model_beq d.target.model request.model ≡ true) × IsOfModel request ds

IsOfModel-append :
    (request : CanonicalRequest) (ds : List DiscoveredTarget) (d : DiscoveredTarget)
    → IsOfModel request ds
    → model_beq d.target.model request.model ≡ true
    → IsOfModel request (ds ++ d ∷ [])
IsOfModel-append request [] d a h = (h, tt)
IsOfModel-append request (x ∷ ds) d (b, a) h = (b, IsOfModel-append request ds d a h)

pub IsOfModel-Member :
    (request : CanonicalRequest) (ds : List DiscoveredTarget) (d : DiscoveredTarget)
    → IsOfModel request ds
    → Member d ds
    → model_beq d.target.model request.model ≡ true
IsOfModel-Member request [] d a m = absurd m
IsOfModel-Member request (x ∷ ds) d (b, a) (inl e) =
    subst (λ (z : DiscoveredTarget). model_beq z.target.model request.model ≡ true) e b
IsOfModel-Member request (x ∷ ds) d (b, a) (inr m) = IsOfModel-Member request ds d a m

IsOfModel-insert_sorted :
    (request : CanonicalRequest) (ds : List DiscoveredTarget) (d : DiscoveredTarget)
    → model_beq d.target.model request.model ≡ true
    → IsOfModel request ds
    → IsOfModel request (insert_sorted by_target_id d ds)
unfolding insert_sorted
IsOfModel-insert_sorted request [] d h a = (h, tt)
IsOfModel-insert_sorted request (x ∷ ds) d h (b, a) = elim (Bool-cases (by_target_id d x)) [
  | inl first ↦ rw (insert_sorted, first) (h, (b, a))
  | inr later ↦ rw (insert_sorted, later) (b, IsOfModel-insert_sorted request ds d h a)
]

IsOfModel-sort :
    (request : CanonicalRequest) (ds : List DiscoveredTarget)
    → IsOfModel request ds
    → IsOfModel request (sort by_target_id ds)
unfolding sort
IsOfModel-sort request [] a = tt
IsOfModel-sort request (d ∷ ds) (b, a) =
    IsOfModel-insert_sorted request (sort by_target_id ds) d b (IsOfModel-sort request ds a)

discover_target-IsOfModel :
    (engines : Engines) (request : CanonicalRequest) (a : Adapter) (t : ExecutionTarget)
    (found : Found)
    → IsOfModel request found.0
    → IsOfModel request (discover_target engines request a t found).0
unfolding discover_target
discover_target-IsOfModel engines request a t (ds, fs) h =
    elim (Bool-cases (model_beq t.model request.model)) [
      | inr other ↦ rw (discover_target, other) h
      | inl same ↦ elim (Result-cases (engines.capabilities a t)) [
        | inr (e, c) ↦ rw (discover_target, same, c) h
        | inl (v, c) ↦ elim (Result-cases (engines.snapshot a t)) [
          | inr (e, n) ↦ rw (discover_target, same, c, n) h
          | inl (w, n) ↦
              rw (discover_target, same, c, n)
                (IsOfModel-append request ds (record { target = t; capabilities = v; snapshot = w })
                  h same)
        ]
      ]
    ]

discover_targets-IsOfModel :
    (engines : Engines) (request : CanonicalRequest) (a : Adapter) (ts : List ExecutionTarget)
    (found : Found)
    → IsOfModel request found.0
    → IsOfModel request (discover_targets engines request a ts found).0
unfolding discover_targets
discover_targets-IsOfModel engines request a [] found h = h
discover_targets-IsOfModel engines request a (t ∷ ts) found h =
    discover_targets-IsOfModel engines request a ts (discover_target engines request a t found)
      (discover_target-IsOfModel engines request a t found h)

discover_adapters-IsOfModel :
    (engines : Engines) (request : CanonicalRequest) (as_ : List Adapter) (found : Found)
    → IsOfModel request found.0
    → IsOfModel request (discover_adapters engines request as_ found).0
unfolding discover_adapters
discover_adapters-IsOfModel engines request [] found h = h
discover_adapters-IsOfModel engines request (a ∷ as_) found h =
    elim (Result-cases (engines.execution_targets a)) [
      | inr (e, x) ↦
          rw (discover_adapters, x)
            (discover_adapters-IsOfModel engines request as_ (found.0, found.1 ++ e ∷ []) h)
      | inl (ts, x) ↦
          rw (discover_adapters, x)
            (discover_adapters-IsOfModel engines request as_
              (discover_targets engines request a ts found)
              (discover_targets-IsOfModel engines request a ts found h))
    ]

pub discover-IsOfModel :
    (engines : Engines) (request : CanonicalRequest) (r : Result EngineError (List Adapter))
    (ds : List DiscoveredTarget)
    → discover engines request r ≡ ok ds
    → IsOfModel request ds
unfolding discover
discover-IsOfModel engines request (err e) ds h = absurd (ground arith)
discover-IsOfModel engines request (ok as_) ds h =
    let found = discover_adapters engines request as_ ([], []) in
    elim (Bool-cases (is_empty found.0 && not (is_empty found.1))) [
      | inl nothing ↦ absurd (ground arith)
      | inr some_found ↦
          let same : sort by_target_id found.0 ≡ ds = ground arith in
          subst (IsOfModel request) same (
            IsOfModel-sort request found.0
              (discover_adapters-IsOfModel engines request as_ ([], []) tt))
    ]
