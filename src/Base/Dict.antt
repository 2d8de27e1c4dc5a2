-- ===== src/Base/Dict.antt =====
-- `BTreeMap`: an association list in the order of its keys, with the operations that the sources
-- use. A write to a key that is there replaces its value in place; a new key goes before the first
-- greater one.
use Prim.Native.Nat.{ℕ, ◌+◌}
use mathlib.Core.Path.{◌≡◌}
use mathlib.Core.Bool.{Bool, true, false}
use mathlib.Core.Option.{Option, none, some}
use mathlib.Core.List.{List, [], ◌∷◌}
use locus.Base.Tests.{if◌then◌else◌, unwrap_or}
use locus.Base.Keys.{Key, ◌==◌, ◌≺◌}

abbrev pub Dict {ℓ κ} : Type ℓ → Type κ → Type (ℓ ⊔ κ)
Dict K V = List (K × V)

module _ {ℓ κ} {K : Type ℓ} {V : Type κ} ⦃k : Key K⦄ where
  unfoldable pub lookup : K → Dict K V → Option V
  lookup x [] = none
  lookup x ((y, v) ∷ m) = if y == x then some v else lookup x m

  unfoldable pub contains_key : K → Dict K V → Bool
  contains_key x [] = false
  contains_key x ((y, v) ∷ m) = if y == x then true else contains_key x m

  unfoldable pub replace_at : K → V → Dict K V → Dict K V
  replace_at x v [] = []
  replace_at x v ((y, w) ∷ m) = if y == x then (y, v) ∷ m else (y, w) ∷ replace_at x v m

  unfoldable pub place : K → V → Dict K V → Dict K V
  place x v [] = (x, v) ∷ []
  place x v ((y, w) ∷ m) = if x ≺ y then (x, v) ∷ (y, w) ∷ m else (y, w) ∷ place x v m

  unfoldable pub insert : K → V → Dict K V → Dict K V
  unfolding contains_key replace_at place
  insert x v m = if contains_key x m then replace_at x v m else place x v m

  unfoldable pub remove : K → Dict K V → Dict K V
  remove x [] = []
  remove x ((y, w) ∷ m) = if y == x then m else (y, w) ∷ remove x m

  -- `map.get(key).copied().unwrap_or_default()`, with the default of the value's type.
  abbrev pub get_or : V → K → Dict K V → V
  get_or d x m = unwrap_or d (lookup x m)

  -- No key stands twice.
  abbrev pub IsDistinct : Dict K V → Type κ
  IsDistinct [] = Unit
  IsDistinct ((y, v) ∷ m) = (lookup y m ≡ none) × IsDistinct m

-- The sum of a measure over the entries.
unfoldable pub sum_by {ℓ κ} : {K : Type ℓ} {V : Type κ} → (K → V → ℕ) → Dict K V → ℕ
sum_by f [] = 0
sum_by f ((y, v) ∷ m) = f y v + sum_by f m

-- The measure of an entry that may be missing.
abbrev pub measure {κ} : {V : Type κ} → (V → ℕ) → Option V → ℕ
measure f none = 0
measure f (some v) = f v
