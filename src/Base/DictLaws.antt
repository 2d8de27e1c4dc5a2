-- ===== src/Base/DictLaws.antt =====
-- The laws of ordered maps. Every proof about a map outside this file goes by them.
use Prim.Native.Nat.{ℕ, ◌+◌, ◌≤◌}
use mathlib.Core.Path.{◌≡◌, refl, ap}
use mathlib.Core.Bool.{true, false}
use mathlib.Core.Logic.{inl, inr}
use mathlib.Core.Option.{none, some}
use mathlib.Core.List.{[], ◌∷◌}
use native.Mathlib.Omega.{arith}
use locus.Base.Tests.{if◌then◌else◌, Bool-cases}
use locus.Base.Lists.{Member}
use locus.Base.Keys.{Key, ◌==◌}
use locus.Base.Dict.{
  Dict, lookup, contains_key, replace_at, place, insert, remove, sum_by, measure, IsDistinct,
}

module _ {ℓ κ} {K : Type ℓ} {V : Type κ} ⦃k : Key K⦄ where
  lookup-replace_at :
      (x j : K) (v : V) (m : Dict K V)
      → contains_key x m ≡ true
      → lookup j (replace_at x v m) ≡ (if x == j then some v else lookup j m)
  unfolding lookup contains_key replace_at
  lookup-replace_at x j v [] h = ground arith
  lookup-replace_at x j v ((y, w) ∷ m) h =
      ground (arith, k.beq_iff y x, k.beq_iff x j, k.beq_iff y j, lookup-replace_at x j v m)

  pub contains-lookup : (x : K) (m : Dict K V) → contains_key x m ≡ false → lookup x m ≡ none
  unfolding lookup contains_key
  contains-lookup x [] h = refl
  contains-lookup x ((y, w) ∷ m) h = ground (arith, contains-lookup x m)

  pub lookup-contains : (x : K) (m : Dict K V) → lookup x m ≡ none → contains_key x m ≡ false
  unfolding lookup contains_key
  lookup-contains x [] h = refl
  lookup-contains x ((y, w) ∷ m) h = ground (arith, lookup-contains x m)

  -- A value that replaces another one.
  pub lookup-replace :
      (x j : K) (v w : V) (m : Dict K V)
      → lookup x m ≡ some w
      → lookup j (replace_at x v m) ≡ (if x == j then some v else lookup j m)
  lookup-replace x j v w m h = ground (arith, contains-lookup x m, lookup-replace_at x j v m)

  lookup-place :
      (x j : K) (v : V) (m : Dict K V)
      → lookup x m ≡ none
      → lookup j (place x v m) ≡ (if x == j then some v else lookup j m)
  unfolding lookup place
  lookup-place x j v [] h = refl
  lookup-place x j v ((y, w) ∷ m) h =
      ground (arith, k.beq_iff y x, k.beq_iff x j, k.beq_iff y j, lookup-place x j v m)

  pub lookup-insert :
      (x j : K) (v : V) (m : Dict K V)
      → lookup j (insert x v m) ≡ (if x == j then some v else lookup j m)
  unfolding insert
  lookup-insert x j v m =
      ground (arith, lookup-replace_at x j v m, contains-lookup x m, lookup-place x j v m)

  sum_by-replace_at :
      (f : K → V → ℕ) (x : K) (v : V) (m : Dict K V)
      → contains_key x m ≡ true
      → sum_by f (replace_at x v m) + measure (f x) (lookup x m) ≡ sum_by f m + f x v
  unfolding lookup contains_key replace_at sum_by
  sum_by-replace_at f x v [] h = ground arith
  sum_by-replace_at f x v ((y, w) ∷ m) h = ground (arith, k.beq_iff y x, sum_by-replace_at f x v m)

  sum_by-place :
      (f : K → V → ℕ) (x : K) (v : V) (m : Dict K V) → sum_by f (place x v m) ≡ sum_by f m + f x v
  unfolding place sum_by
  sum_by-place f x v [] = omega arith
  sum_by-place f x v ((y, w) ∷ m) = ground (arith, sum_by-place f x v m)

  -- A write adds the new value's measure and takes the old one's away.
  pub sum_by-insert :
      (f : K → V → ℕ) (x : K) (v : V) (m : Dict K V)
      → sum_by f (insert x v m) + measure (f x) (lookup x m) ≡ sum_by f m + f x v
  unfolding insert
  sum_by-insert f x v m =
      ground (arith, sum_by-replace_at f x v m, contains-lookup x m, sum_by-place f x v m)

  pub sum_by-remove :
      (f : K → V → ℕ) (x : K) (m : Dict K V)
      → sum_by f (remove x m) + measure (f x) (lookup x m) ≡ sum_by f m
  unfolding lookup remove sum_by
  sum_by-remove f x [] = refl
  sum_by-remove f x ((y, w) ∷ m) = ground (arith, k.beq_iff y x, sum_by-remove f x m)

  -- A present entry is part of the sum.
  pub measure-le-sum_by :
      (f : K → V → ℕ) (x : K) (m : Dict K V) → measure (f x) (lookup x m) ≤ sum_by f m
  measure-le-sum_by f x m = omega (arith, sum_by-remove f x m)

  -- A removed key is gone, and no other entry changes.
  pub lookup-remove :
      (x j : K) (m : Dict K V)
      → IsDistinct m
      → lookup j (remove x m) ≡ (if x == j then none else lookup j m)
  unfolding lookup remove
  lookup-remove x j [] d = ground arith
  lookup-remove x j ((y, w) ∷ m) d =
      ground (arith, k.beq_iff y x, k.beq_iff x j, k.beq_iff y j, lookup-remove x j m d.1)

  IsDistinct-replace_at :
      (x : K) (v : V) (m : Dict K V)
      → IsDistinct m
      → contains_key x m ≡ true
      → IsDistinct (replace_at x v m)
  unfolding contains_key replace_at lookup
  IsDistinct-replace_at x v [] d h = tt
  IsDistinct-replace_at x v ((y, w) ∷ m) d h = ground (
    arith,
    IsDistinct-replace_at x v m d.1,
    lookup-replace_at x y v m,
    k.beq_iff y x,
    k.beq_iff x y,
  )

  pub IsDistinct-replace :
      (x : K) (v w : V) (m : Dict K V)
      → IsDistinct m
      → lookup x m ≡ some w
      → IsDistinct (replace_at x v m)
  IsDistinct-replace x v w m d h =
      ground (arith, contains-lookup x m, IsDistinct-replace_at x v m d)

  -- A new entry that is removed again leaves the map as it was.
  remove-place :
      (x : K) (v : V) (m : Dict K V) → contains_key x m ≡ false → remove x (place x v m) ≡ m
  unfolding contains_key place remove
  remove-place x v [] h = ground (arith, k.beq_iff x x)
  remove-place x v ((y, w) ∷ m) h = ground (arith, k.beq_iff x x, k.beq_iff y x, remove-place x v m)

  pub remove-insert :
      (x : K) (v : V) (m : Dict K V) → contains_key x m ≡ false → remove x (insert x v m) ≡ m
  unfolding insert
  remove-insert x v m h = ground (arith, remove-place x v m)

  -- A value that is put back leaves the map as it was.
  pub replace_at-replace_at :
      (x : K) (v w : V) (m : Dict K V) → lookup x m ≡ some w → replace_at x w (replace_at x v m) ≡ m
  unfolding lookup replace_at
  replace_at-replace_at x v w [] h = refl
  replace_at-replace_at x v w ((y, u) ∷ m) h = ground (arith, replace_at-replace_at x v w m)

  IsDistinct-place :
      (x : K) (v : V) (m : Dict K V) → IsDistinct m → lookup x m ≡ none → IsDistinct (place x v m)
  unfolding place lookup
  IsDistinct-place x v [] d h = (refl, tt)
  IsDistinct-place x v ((y, w) ∷ m) d h =
      ground (arith, IsDistinct-place x v m d.1, lookup-place x y v m, k.beq_iff y x, k.beq_iff x y)

  pub IsDistinct-insert : (x : K) (v : V) (m : Dict K V) → IsDistinct m → IsDistinct (insert x v m)
  unfolding insert
  IsDistinct-insert x v m d =
      ground (arith, IsDistinct-replace_at x v m d, contains-lookup x m, IsDistinct-place x v m d)

  pub IsDistinct-remove : (x : K) (m : Dict K V) → IsDistinct m → IsDistinct (remove x m)
  unfolding remove lookup
  IsDistinct-remove x [] d = tt
  IsDistinct-remove x ((y, w) ∷ m) d =
      ground (arith, IsDistinct-remove x m d.1, lookup-remove x y m d.1)

-- A measure that is nowhere greater has no greater sum.
pub sum_by_mono {ℓ κ} :
    {K : Type ℓ} {V : Type κ} (f g : K → V → ℕ)
    → ((x : K) (v : V) → f x v ≤ g x v)
    → (m : Dict K V) → sum_by f m ≤ sum_by g m
unfolding sum_by
sum_by_mono f g h [] = omega arith
sum_by_mono f g h ((x, v) ∷ m) = omega (arith, h x v, sum_by_mono f g h m)

-- An entry of a map is what its key finds.
pub lookup-Member :
    {K V : Type 0} ⦃k : Key K⦄ (x : K) (v : V) (m : Dict K V)
    → IsDistinct m
    → Member (x, v) m
    → lookup x m ≡ some v
unfolding lookup
lookup-Member x v [] d h = absurd h
lookup-Member ⦃k⦄ x v ((y, w) ∷ m) d (inl e) =
    let key : y ≡ x = ap (λ p. p.0) e in
    let value : w ≡ v = ap (λ p. p.1) e in ground (arith, k.beq_iff y x)
lookup-Member ⦃k⦄ x v ((y, w) ∷ m) d (inr h) =
    ground (arith, k.beq_iff y x, lookup-Member x v m d.1 h)

-- What a key finds is an entry of the map.
pub Member-lookup :
    {K V : Type 0} ⦃k : Key K⦄ (x : K) (v : V) (m : Dict K V)
    → lookup x m ≡ some v
    → Member (x, v) m
unfolding lookup
Member-lookup x v [] h = cc
Member-lookup {K} {V} ⦃k⦄ x v ((y, w) ∷ m) h = elim (Bool-cases (y == x)) [
  | inl e ↦
      let key : y ≡ x = (k.beq_iff y x).0 e in
      let value : w ≡ v = ground arith in inl (rw (key, value) refl)
  | inr e ↦ inr (Member-lookup x v m (ground arith))
]
