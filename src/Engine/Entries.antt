-- ===== src/Engine/Entries.antt =====
-- crates/engine/src/lib.rs: a property of every entry of the registry, and the changes that an operation
-- makes to entries.
use locus.Base.{
  ◌≡◌, ap, subst, some, String, [], ◌∷◌, arith, inl, inr, Bool-cases, ◌==◌, ◌≺◌, string_key,
}
use locus.Base.Dict.{Dict, lookup, contains_key, replace_at, place, insert}
use locus.Engine.{RegisteredEngine, map_values}

abbrev pub Each : (RegisteredEngine → Type 0) → Dict String RegisteredEngine → Type 0
Each P [] = Unit
Each P ((id, e) ∷ m) = P e × Each P m

module _ (P : RegisteredEngine → Type 0) where
  pub Each-map_values :
      (f : RegisteredEngine → RegisteredEngine) (m : Dict String RegisteredEngine)
      → ((e : RegisteredEngine) → P e → P (f e))
      → Each P m
      → Each P (map_values f m)
  Each-map_values f [] h a = tt
  Each-map_values f ((id, e) ∷ m) h (p, a) = (h e p, Each-map_values f m h a)

  pub Each-replace_at :
      (id : String) (v : RegisteredEngine) (m : Dict String RegisteredEngine)
      → P v
      → Each P m
      → Each P (replace_at id v m)
  unfolding replace_at
  Each-replace_at id v [] p a = tt
  Each-replace_at id v ((j, e) ∷ m) p (q, a) = elim (Bool-cases (j == id)) [
    | inl same ↦ rw (replace_at, same) (p, a)
    | inr other ↦ rw (replace_at, other) (q, Each-replace_at id v m p a)
  ]

  pub Each-place :
      (id : String) (v : RegisteredEngine) (m : Dict String RegisteredEngine)
      → P v
      → Each P m
      → Each P (place id v m)
  unfolding place
  Each-place id v [] p a = (p, tt)
  Each-place id v ((j, e) ∷ m) p (q, a) = elim (Bool-cases (id ≺ j)) [
    | inl first ↦ rw (place, first) (p, (q, a))
    | inr later ↦ rw (place, later) (q, Each-place id v m p a)
  ]

  pub Each-insert :
      (id : String) (v : RegisteredEngine) (m : Dict String RegisteredEngine)
      → P v
      → Each P m
      → Each P (insert id v m)
  unfolding insert
  Each-insert id v m p a = elim (Bool-cases (contains_key id m)) [
    | inl there ↦ rw (insert, there) (Each-replace_at id v m p a)
    | inr new ↦ rw (insert, new) (Each-place id v m p a)
  ]

  pub Each-lookup :
      (id : String) (e : RegisteredEngine) (m : Dict String RegisteredEngine)
      → Each P m
      → lookup id m ≡ some e
      → P e
  unfolding lookup
  Each-lookup id e [] a h = absurd (ground arith)
  Each-lookup id e ((j, v) ∷ m) (p, a) h = elim (Bool-cases (j == id)) [
    | inl same ↦ let value : v ≡ e = ground arith in subst P value p
    | inr other ↦ Each-lookup id e m a (ground arith)
  ]

pub lookup-map_values :
    (f : RegisteredEngine → RegisteredEngine) (id : String) (e : RegisteredEngine)
    (m : Dict String RegisteredEngine)
    → lookup id m ≡ some e
    → lookup id (map_values f m) ≡ some (f e)
unfolding lookup
lookup-map_values f id e [] h = absurd (ground arith)
lookup-map_values f id e ((j, v) ∷ m) h = elim (Bool-cases (j == id)) [
  | inl same ↦
      let value : v ≡ e = ground arith in
      rw (lookup, same) (ap (λ (x : RegisteredEngine). some (f x)) value)
  | inr other ↦ rw (lookup, other) (lookup-map_values f id e m (ground arith))
]
