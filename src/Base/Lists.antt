-- ===== src/Base/Lists.antt =====
-- Lists over the native numbers: the library's names, and sums, tests and sorting.
use Prim.Native.Nat.{ℕ, suc, ◌+◌, ◌≤◌}
use mathlib.Core.Path.{◌≡◌, refl}
use mathlib.Core.Logic.{◌⊎◌, ◌≢◌, inl, inr}
use mathlib.Core.Bool.{Bool, true, false, ◌&&◌, ◌||◌}
use mathlib.Core.Option.{Option, none, some}
use mathlib.Core.List.{List, [], ◌∷◌, ◌++◌}
use native.Mathlib.Omega.{arith}
use locus.Base.Tests.{if◌then◌else◌, Bool-cases, Option-cases}

module _ {ℓ} {A : Type ℓ} where
  abbrev pub length : List A → ℕ
  length [] = 0
  length (x ∷ xs) = suc (length xs)

  abbrev pub is_empty : List A → Bool
  is_empty [] = true
  is_empty (x ∷ xs) = false

  abbrev pub head? : List A → Option A
  head? [] = none
  head? (x ∷ xs) = some x

  abbrev pub any : (A → Bool) → List A → Bool
  any p [] = false
  any p (x ∷ xs) = p x || any p xs

  abbrev pub all : (A → Bool) → List A → Bool
  all p [] = true
  all p (x ∷ xs) = p x && all p xs

  abbrev pub sum_of : (A → ℕ) → List A → ℕ
  sum_of f [] = 0
  sum_of f (x ∷ xs) = f x + sum_of f xs

  -- `Iterator::filter` with a Boolean test.
  unfoldable pub keep : (A → Bool) → List A → List A
  keep p [] = []
  keep p (x ∷ xs) = if p x then x ∷ keep p xs else keep p xs

  pub sum_of-append : (f : A → ℕ) (xs ys : List A) → sum_of f (xs ++ ys) ≡ sum_of f xs + sum_of f ys
  sum_of-append f [] ys = omega arith
  sum_of-append f (x ∷ xs) ys = omega (arith, sum_of-append f xs ys)

  -- `sort`: a stable insertion sort by the order that `before_or_same` decides.
  unfoldable pub insert_sorted : (A → A → Bool) → A → List A → List A
  insert_sorted le a [] = a ∷ []
  insert_sorted le a (x ∷ xs) = if le a x then a ∷ x ∷ xs else x ∷ insert_sorted le a xs

  unfoldable pub sort : (A → A → Bool) → List A → List A
  unfolding insert_sorted
  sort le [] = []
  sort le (x ∷ xs) = insert_sorted le x (sort le xs)

-- Membership with the position kept.
abbrev pub Member : {A : Type 0} → A → List A → Type 0
Member a [] = ⊥
Member a (x ∷ xs) = (x ≡ a) ⊎ Member a xs

-- The head of a sorted list is one of the items.
module _ {A : Type 0} (le : A → A → Bool) where
  head-insert_sorted :
      (a x : A) (ys : List A)
      → head? (insert_sorted le a ys) ≡ some x
      → ((a ≡ x) × ((w : A) → head? ys ≡ some w → le a w ≡ true))
        ⊎ ((head? ys ≡ some x) × (le a x ≡ false))
  unfolding insert_sorted
  head-insert_sorted a x [] h = inl (ground arith, λ w e. cc)
  head-insert_sorted a x (y ∷ ys) h = elim (Bool-cases (le a y)) [
    | inl t ↦ inl (ground arith, λ w e. ground arith)
    | inr f ↦ inr (ground arith, ground arith)
  ]

  pub head-sort-Member : (x : A) (xs : List A) → head? (sort le xs) ≡ some x → Member x xs
  unfolding sort
  head-sort-Member x [] h = cc
  head-sort-Member x (y ∷ ys) h = elim (head-insert_sorted y x (sort le ys) h) [
    | inl (e, _) ↦ inl e
    | inr (e, _) ↦ inr (head-sort-Member x ys e)
  ]

  head-insert_sorted_some : (a : A) (ys : List A) → head? (insert_sorted le a ys) ≢ none
  unfolding insert_sorted
  head-insert_sorted_some a [] h = cc
  head-insert_sorted_some a (y ∷ ys) h = ground arith

  -- Only the empty list has no head after sorting.
  pub head-sort-none : (xs : List A) → head? (sort le xs) ≡ none → xs ≡ []
  unfolding sort
  head-sort-none [] h = refl
  head-sort-none (x ∷ xs) h = absurd (head-insert_sorted_some x (sort le xs) h)

  -- The rank of the head is the least, where `le` never puts a greater rank first.
  pub head-sort_least :
      (rank : A → ℕ)
      → ((a b : A) → le a b ≡ true → rank a ≤ rank b)
      → ((a b : A) → le a b ≡ false → rank b ≤ rank a)
      → (x y : A) (xs : List A) → head? (sort le xs) ≡ some x
      → Member y xs
      → rank x ≤ rank y
  unfolding sort insert_sorted
  head-sort_least rank up down x y [] h m = absurd m
  head-sort_least rank up down x y (z ∷ zs) h (inl e) =
      elim (head-insert_sorted z x (sort le zs) h) [
        | inl (same, _) ↦ ground arith
        | inr (_, after) ↦ ground (arith, down z x after)
      ]
  head-sort_least rank up down x y (z ∷ zs) h (inr m) = elim (Option-cases (head? (sort le zs))) [
    | inl e ↦ absurd (rw (head-sort-none zs e) at m)
    | inr (w, e) ↦
        let ih : rank w ≤ rank y = head-sort_least rank up down w y zs e m in
        elim (head-insert_sorted z x (sort le zs) h) [
          | inl (same, first) ↦ ground (arith, up z w (first w e))
          | inr (same, _) ↦ ground arith
        ]
  ]

pub Member-append_left : {A : Type 0} (a : A) (xs ys : List A) → Member a xs → Member a (xs ++ ys)
Member-append_left a [] ys h = absurd h
Member-append_left a (x ∷ xs) ys (inl e) = inl e
Member-append_left a (x ∷ xs) ys (inr h) = inr (Member-append_left a xs ys h)

pub Member-append_right : {A : Type 0} (a : A) (xs ys : List A) → Member a ys → Member a (xs ++ ys)
Member-append_right a [] ys h = h
Member-append_right a (x ∷ xs) ys h = inr (Member-append_right a xs ys h)

pub Member-append :
    {A : Type 0} (a : A) (xs ys : List A) → Member a (xs ++ ys) → Member a xs ⊎ Member a ys
Member-append a [] ys h = inr h
Member-append a (x ∷ xs) ys (inl e) = inl (inl e)
Member-append a (x ∷ xs) ys (inr h) = elim (Member-append a xs ys h) [
  | inl l ↦ inl (inr l)
  | inr r ↦ inr r
]
