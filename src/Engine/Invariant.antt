-- ===== src/Engine/Invariant.antt =====
-- crates/engine/src/lib.rs: what holds of every registry that the operations lead to, in any order.
use locus.Base.{
  ◌≡◌, refl, ap, ◌∙◌, true, some, String, [], ◌∷◌, arith, inl, inr, Bool-cases, ◌==◌, string_key, ℕ,
}
use locus.Base.Dict.{Dict, lookup, insert, remove, IsDistinct}
use locus.Base.DictLaws.{
  lookup-replace, lookup-insert, contains-lookup, IsDistinct-insert, IsDistinct-remove,
}
use locus.Base.Lists.{is_empty}
use locus.Engine.{
  EngineRegistry, RegisteredEngine, EngineLifecycle, Adapter, new_registry, start_drain, end_drain,
  stop_idle,
}
use locus.Engine.Entries.{
  Each, Each-map_values, Each-replace_at, Each-insert, Each-lookup, lookup-map_values,
}
use locus.Engine.Steps.{
  Changes, starts, ends, stops, acquires, releases, Effect, adds, changes_all, changes_one, keeps,
  Step-Effect, Steps, done, onward,
}

-- An engine that is stopped has nothing under way.
abbrev IsQuiet : EngineLifecycle → Dict String ℕ → Type 0
IsQuiet EngineLifecycle.stopped active = active ≡ []
IsQuiet _ active = Unit

abbrev IsSound : RegisteredEngine → Type 0
IsSound e = IsQuiet e.lifecycle e.active × IsDistinct e.active

is_empty-eq : (m : Dict String ℕ) → is_empty m ≡ true → m ≡ []
is_empty-eq [] h = refl
is_empty-eq (x ∷ m) h = absurd (ground arith)

start_drain-IsQuiet :
    (l : EngineLifecycle) (a : Adapter) (m : Dict String ℕ)
    → IsQuiet l m
    → let e = start_drain (record { adapter = a; lifecycle = l; active = m }) in
      IsQuiet e.lifecycle e.active × (e.active ≡ m)
start_drain-IsQuiet EngineLifecycle.ready a m q = (tt, refl)
start_drain-IsQuiet EngineLifecycle.draining a m q = (tt, refl)
start_drain-IsQuiet EngineLifecycle.stopped a m q = (q, refl)

end_drain-IsQuiet :
    (l : EngineLifecycle) (a : Adapter) (m : Dict String ℕ)
    → IsQuiet l m
    → let e = end_drain (record { adapter = a; lifecycle = l; active = m }) in
      IsQuiet e.lifecycle e.active × (e.active ≡ m)
end_drain-IsQuiet EngineLifecycle.ready a m q = (tt, refl)
end_drain-IsQuiet EngineLifecycle.draining a m q = (tt, refl)
end_drain-IsQuiet EngineLifecycle.stopped a m q = (q, refl)

stop_idle-IsQuiet :
    (l : EngineLifecycle) (a : Adapter) (m : Dict String ℕ)
    → IsQuiet l m
    → let e = stop_idle (record { adapter = a; lifecycle = l; active = m }) in
      IsQuiet e.lifecycle e.active × (e.active ≡ m)
stop_idle-IsQuiet EngineLifecycle.ready a m q = (tt, refl)
stop_idle-IsQuiet EngineLifecycle.draining a [] q = (refl, refl)
stop_idle-IsQuiet EngineLifecycle.draining a (x ∷ m) q = (tt, refl)
stop_idle-IsQuiet EngineLifecycle.stopped a m q = (q, refl)

remove-IsQuiet :
    (q : String) (l : EngineLifecycle) (m : Dict String ℕ) → IsQuiet l m → IsQuiet l (remove q m)
unfolding remove
remove-IsQuiet q EngineLifecycle.ready m h = tt
remove-IsQuiet q EngineLifecycle.draining m h = tt
remove-IsQuiet q EngineLifecycle.stopped m h = ap (λ (x : Dict String ℕ). remove q x) h

ready-IsQuiet : (l : EngineLifecycle) (m : Dict String ℕ) → l ≡ EngineLifecycle.ready → IsQuiet l m
ready-IsQuiet EngineLifecycle.ready m h = tt
ready-IsQuiet EngineLifecycle.draining m h = tt
ready-IsQuiet EngineLifecycle.stopped m h = absurd (ground arith)

Changes-IsSound : (e e' : RegisteredEngine) → Changes e e' → IsSound e → IsSound e'
Changes-IsSound e e' starts (q, d) =
    let (q', same) = start_drain-IsQuiet e.lifecycle e.adapter e.active q in (q', rw same d)
Changes-IsSound e e' ends (q, d) =
    let (q', same) = end_drain-IsQuiet e.lifecycle e.adapter e.active q in (q', rw same d)
Changes-IsSound e e' stops (q, d) =
    let (q', same) = stop_idle-IsQuiet e.lifecycle e.adapter e.active q in (q', rw same d)
Changes-IsSound e e' (acquires request token h) (q, d) = (
  ready-IsQuiet e.lifecycle (insert request token e.active) h,
  IsDistinct-insert request token e.active d,
)
Changes-IsSound e e' (releases request h) (q, d) =
    let (q', same) =
      stop_idle-IsQuiet e.lifecycle e.adapter (remove request e.active)
        (remove-IsQuiet request e.lifecycle e.active q) in
    (q', rw same (IsDistinct-remove request e.active d))

Effect-IsSound :
    (r r' : EngineRegistry) → Effect r r' → Each IsSound r.entries → Each IsSound r'.entries
Effect-IsSound r r' (adds a new) h =
    Each-insert IsSound a.reference.id
      (record { adapter = a; lifecycle = EngineLifecycle.ready; active = [] }) r.entries (tt, tt) h
Effect-IsSound r r' (changes_all f c) h =
    Each-map_values IsSound f r.entries (λ e s. Changes-IsSound e (f e) (c e) s) h
Effect-IsSound r r' (changes_one id e e' at c) h =
    Each-replace_at IsSound id e' r.entries
      (Changes-IsSound e e' c (Each-lookup IsSound id e r.entries h at)) h
Effect-IsSound r r' keeps h = h

Steps-IsSound :
    {r r' : EngineRegistry} → Steps r r' → Each IsSound r.entries → Each IsSound r'.entries
Steps-IsSound done h = h
Steps-IsSound {r} {r' = r''} (onward {r'} s t) h =
    Effect-IsSound r' r'' (Step-Effect t) (Steps-IsSound s h)

quiet_stopped :
    (l : EngineLifecycle) (m : Dict String ℕ) → l ≡ EngineLifecycle.stopped → IsQuiet l m → m ≡ []
quiet_stopped EngineLifecycle.ready m h q = absurd (ground arith)
quiet_stopped EngineLifecycle.draining m h q = absurd (ground arith)
quiet_stopped EngineLifecycle.stopped m h q = q

-- However the operations of a new registry, and the drops of its permits, follow one another: an engine
-- that is stopped has no execution under way.
pub stopped_idle :
    (r : EngineRegistry) (id : String) (e : RegisteredEngine)
    → Steps new_registry r
    → lookup id r.entries ≡ some e
    → e.lifecycle ≡ EngineLifecycle.stopped
    → e.active ≡ []
unfolding new_registry
stopped_idle r id e s at h =
    quiet_stopped e.lifecycle e.active h
      (Each-lookup IsSound id e r.entries (Steps-IsSound s tt) at).0

-- No request stands twice among those under way.
pub active-IsDistinct :
    (r : EngineRegistry) (id : String) (e : RegisteredEngine)
    → Steps new_registry r
    → lookup id r.entries ≡ some e
    → IsDistinct e.active
unfolding new_registry
active-IsDistinct r id e s at = (Each-lookup IsSound id e r.entries (Steps-IsSound s tt) at).1

-- A stopped entry of the same adapter.
abbrev pub IsStopped : String → Adapter → EngineRegistry → Type 0
IsStopped id a r =
    (e : RegisteredEngine) × (lookup id r.entries ≡ some e)
    × (e.lifecycle ≡ EngineLifecycle.stopped)
    × (e.adapter ≡ a)

Changes-stopped :
    (e e' : RegisteredEngine)
    → Changes e e'
    → e.lifecycle ≡ EngineLifecycle.stopped
    → (e'.lifecycle ≡ EngineLifecycle.stopped) × (e'.adapter ≡ e.adapter)
Changes-stopped e e' starts h = ground arith
Changes-stopped e e' ends h = ground arith
Changes-stopped e e' stops h = ground arith
Changes-stopped e e' (acquires request token ready) h = absurd (ground arith)
Changes-stopped e e' (releases request there) h = ground arith

Effect-IsStopped :
    (id : String) (a : Adapter) (r r' : EngineRegistry)
    → Effect r r'
    → IsStopped id a r
    → IsStopped id a r'
Effect-IsStopped id a r r' (adds b new) (e, at, h, same) =
    elim (Bool-cases (b.reference.id == id)) [
      | inl eq ↦ absurd (
          ground (
            arith,
            (string_key.beq_iff b.reference.id id).0 eq,
            contains-lookup b.reference.id r.entries new,
          ))
      | inr ne ↦ (
        e,
        lookup-insert b.reference.id id
              (record { adapter = b; lifecycle = EngineLifecycle.ready; active = [] }) r.entries
            ∙ rw ne at,
        h,
        same,
      )
    ]
Effect-IsStopped id a r r' (changes_all f c) (e, at, h, same) =
    let (l, b) = Changes-stopped e (f e) (c e) h in
    (f e, lookup-map_values f id e r.entries at, l, b ∙ same)
Effect-IsStopped id a r r' (changes_one j v v' there c) (e, at, h, same) =
    elim (Bool-cases (j == id)) [
      | inl eq ↦
          let key : j ≡ id = (string_key.beq_iff j id).0 eq in
          let value : v ≡ e = ground (arith, key) in
          let (l, b) =
            Changes-stopped v v' c (ap (λ (z : RegisteredEngine). z.lifecycle) value ∙ h) in
          (
            v',
            lookup-replace j id v' v r.entries there ∙ rw eq refl,
            l,
            b ∙ ap (λ (z : RegisteredEngine). z.adapter) value ∙ same,
          )
      | inr ne ↦ (e, lookup-replace j id v' v r.entries there ∙ rw ne at, h, same)
    ]
Effect-IsStopped id a r r' keeps s = s

-- An engine that is stopped stays so, with the same adapter, whatever operations follow.
pub IsStopped-final :
    {r r' : EngineRegistry} (id : String) (a : Adapter)
    → Steps r r'
    → IsStopped id a r
    → IsStopped id a r'
IsStopped-final id a done h = h
IsStopped-final {r} {r' = r''} id a (onward {r'} s t) h =
    Effect-IsStopped id a r' r'' (Step-Effect t) (IsStopped-final id a s h)
