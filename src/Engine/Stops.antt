-- ===== src/Engine/Stops.antt =====
-- crates/engine/src/lib.rs: a draining engine stops when the last of its executions is over.
use locus.Base.{
  ◌≡◌, refl, sym, ap, ◌∙◌, subst, Bool, true, false, Option, none, some, String, List, [], ◌∷◌,
  arith, inl, inr, Bool-cases, Option-cases, ◌==◌, ==_self, string_key, if◌then◌else◌, ℕ,
}
use locus.Base.Dict.{Dict, lookup, contains_key, remove, IsDistinct}
use locus.Base.DictLaws.{
  lookup-replace, contains-lookup, lookup-contains, lookup-remove, IsDistinct-remove,
}
use locus.Base.Lists.{is_empty, Member}
use locus.Engine.{
  EngineRegistry, RegisteredEngine, EngineLifecycle, new_registry, release_execution, release_entry,
  stop_idle, put,
}
use locus.Engine.Steps.{Steps, done, onward, by_release}
use locus.Engine.Invariant.{IsStopped, IsStopped-final, active-IsDistinct}

-- Permits of one engine that are dropped one after another.
pub release_all : EngineRegistry → String → List String → EngineRegistry
release_all r id [] = r
release_all r id (q ∷ qs) = release_all (release_execution r id q).0 id qs

release_all-Steps :
    (r : EngineRegistry) (id : String) (qs : List String) → Steps r (release_all r id qs)
unfolding release_all
release_all-Steps r id qs = later r done qs
  where
    later :
        {r0 : EngineRegistry} (r : EngineRegistry)
        → Steps r0 r
        → (qs : List String) → Steps r0 (release_all r id qs)
    later r s [] = s
    later r s (q ∷ qs) = later (release_execution r id q).0 (onward s (by_release id q)) qs

-- The requests under way are among those given.
abbrev pub Covers : List String → Dict String ℕ → Type 0
Covers qs m = (j : String) (t : ℕ) → lookup j m ≡ some t → Member j qs

found-contains :
    (q : String) (t : ℕ) (m : Dict String ℕ) → lookup q m ≡ some t → contains_key q m ≡ true
found-contains q t m h = elim (Bool-cases (contains_key q m)) [
  | inl there ↦ there
  | inr gone ↦ absurd (ground (arith, contains-lookup q m gone))
]

-- What remains is covered by the rest.
Covers-rest :
    (q : String) (qs : List String) (m : Dict String ℕ)
    → IsDistinct m
    → Covers (q ∷ qs) m
    → Covers qs (remove q m)
Covers-rest q qs m d c j t h = elim (Bool-cases (q == j)) [
  | inl same ↦ absurd (ground (arith, lookup-remove q j m d))
  | inr other ↦ elim (c j t (ground (arith, lookup-remove q j m d))) [
    | inl e ↦ absurd (ground (arith, (string_key.beq_iff q j).1 e))
    | inr rest ↦ rest
  ]
]

Covers-absent :
    (q : String) (qs : List String) (m : Dict String ℕ)
    → lookup q m ≡ none
    → Covers (q ∷ qs) m
    → Covers qs m
Covers-absent q qs m gone c j t h = elim (c j t h) [
  | inl e ↦ absurd (ground (arith, ap (λ (x : String). lookup x m) e))
  | inr rest ↦ rest
]

-- An engine that is draining, with executions under way.
record IsDraining (r : EngineRegistry) (id : String) (e : RegisteredEngine) : Type 0 where
  sound : r.poisoned ≡ false
  found : lookup id r.entries ≡ some e
  draining : e.lifecycle ≡ EngineLifecycle.draining
  busy : is_empty e.active ≡ false
  distinct : IsDistinct e.active

release_absent :
    (r : EngineRegistry) (id q : String) (e : RegisteredEngine)
    → IsDraining r id e
    → lookup q e.active ≡ none
    → (release_execution r id q).0 ≡ r
unfolding release_execution
release_absent r id q e d gone =
    let absent = lookup-contains q e.active gone in ground (arith, d.sound, d.found)

release_present :
    (r : EngineRegistry) (id q : String) (e : RegisteredEngine) (t : ℕ)
    → IsDraining r id e
    → lookup q e.active ≡ some t
    → (release_execution r id q).0 ≡ put r id (stop_idle (record e { active = remove q e.active }))
unfolding release_execution
release_present r id q e t d at =
    let there = found-contains q t e.active at in
    ap (λ (p : EngineRegistry × Bool). p.0)
      (ap (λ (b : Bool). if b then (r, false) else release_entry r id q (lookup id r.entries))
          d.sound
        ∙ ap (λ (o : Option RegisteredEngine). release_entry r id q o) d.found
        ∙ ap
            (λ (b : Bool).
              if b
              then (put r id (stop_idle (record e { active = remove q e.active })), true)
              else (r, false))
            there)

found_put :
    (r : EngineRegistry) (id : String) (e v : RegisteredEngine)
    → lookup id r.entries ≡ some e
    → lookup id (put r id v).entries ≡ some v
found_put r id e v at =
    lookup-replace id id v e r.entries at
    ∙ ap (λ (b : Bool). if b then some v else lookup id r.entries) (==_self id)

no_request : (m : Dict String ℕ) → is_empty m ≡ false → Covers [] m → ⊥
unfolding lookup
no_request [] b c = absurd (ground arith)
no_request ((j, t) ∷ m) b c = c j t (ground (arith, ==_self j))

abbrev without : RegisteredEngine → String → RegisteredEngine
without e q = record e { active = remove q e.active }

release_all-IsStopped :
    (r : EngineRegistry) (id : String) (e : RegisteredEngine) (qs : List String)
    → IsDraining r id e
    → Covers qs e.active
    → IsStopped id e.adapter (release_all r id qs)
unfolding release_all
release_all-IsStopped r id e [] d c = absurd (no_request e.active d.busy c)
release_all-IsStopped r id e (q ∷ qs) d c = elim (Option-cases (lookup q e.active)) [
  | inl gone ↦
      subst (λ (z : EngineRegistry). IsStopped id e.adapter (release_all z id qs))
        (sym (release_absent r id q e d gone))
        (release_all-IsStopped r id e qs d (Covers-absent q qs e.active gone c))
  | inr (t, at) ↦
      subst (λ (z : EngineRegistry). IsStopped id e.adapter (release_all z id qs))
        (sym (release_present r id q e t d at))
        (elim (Bool-cases (is_empty (remove q e.active))) [
          | inl empty ↦
              let last : stop_idle (without e q)
                  ≡ record (without e q) { lifecycle = EngineLifecycle.stopped } =
                ground (arith, d.draining) in
              rw last (
                IsStopped-final id e.adapter
                  (release_all-Steps
                    (put r id (record (without e q) { lifecycle = EngineLifecycle.stopped })) id qs)
                  (
                    record (without e q) { lifecycle = EngineLifecycle.stopped },
                    found_put r id e (record (without e q) { lifecycle = EngineLifecycle.stopped })
                        d.found,
                    refl,
                    refl,
                  ))
          | inr more ↦
              let same : stop_idle (without e q) ≡ without e q = ground (arith, d.draining) in
              rw same (
                release_all-IsStopped (put r id (without e q)) id (without e q) qs
                  (record {
                    sound = d.sound;
                    found = found_put r id e (without e q) d.found;
                    draining = d.draining;
                    busy = more;
                    distinct = IsDistinct-remove q e.active d.distinct;
                  })
                  (Covers-rest q qs e.active d.distinct c))
        ])
]

-- However a new registry came to have a draining engine with executions under way: when their permits
-- are dropped, in any order, the engine is stopped.
pub release_all-stops :
    (r : EngineRegistry) (id : String) (e : RegisteredEngine) (qs : List String)
    → Steps new_registry r
    → r.poisoned ≡ false
    → lookup id r.entries ≡ some e
    → e.lifecycle ≡ EngineLifecycle.draining
    → is_empty e.active ≡ false
    → Covers qs e.active
    → IsStopped id e.adapter (release_all r id qs)
release_all-stops r id e qs s sound at l busy c =
    release_all-IsStopped r id e qs
      (record {
        sound = sound;
        found = at;
        draining = l;
        busy = busy;
        distinct = active-IsDistinct r id e s at;
      })
      c
