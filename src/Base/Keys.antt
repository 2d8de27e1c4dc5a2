-- ===== src/Base/Keys.antt =====
-- Keys of ordered maps: a Boolean equality that decides equality, and a strict order.
use Prim.Native.Nat.{ℕ, Ordering}
use Prim.Native.String.{String, compare}
use mathlib.Core.Path.{◌≡◌, refl, ap}
use mathlib.Core.Logic.{◌↔◌}
use mathlib.Core.Bool.{Bool, true, false, ◌&&◌, ◌||◌}
use native.Mathlib.Omega.{arith}
use text.Mathlib.Text.{◌==◌ as str_eq}
use text.Mathlib.TextEquality.{eq_iff}
use locus.Base.Tests.{ltb, nat_beq, nat_beq→eq, eq→nat_beq}

pub record Key {ℓ} (A : Type ℓ) : Type ℓ where
  pub beq : A → A → Bool
  pub beq_iff : (a b : A) → (beq a b ≡ true) ↔ (a ≡ b)
  pub before : A → A → Bool

infix 50 ◌==◌
abbrev pub ◌==◌ {ℓ} : {A : Type ℓ} ⦃k : Key A⦄ → A → A → Bool
◌==◌ ⦃k⦄ = k.beq

infix 50 ◌≺◌
abbrev pub ◌≺◌ {ℓ} : {A : Type ℓ} ⦃k : Key A⦄ → A → A → Bool
◌≺◌ ⦃k⦄ = k.before

pub nat_beq_iff : (a b : ℕ) → (nat_beq a b ≡ true) ↔ (a ≡ b)
nat_beq_iff a b = (nat_beq→eq a b, eq→nat_beq a b)

instance abbrev pub nat_key : Key ℕ
nat_key = record { beq = nat_beq; beq_iff = nat_beq_iff; before = ltb }

-- The order of texts is that of their code points, which is the order of their UTF-8 bytes.
abbrev str_before : String → String → Bool
str_before s t = elim (compare s t) [ Ordering.lt ↦ true | _ ↦ false ]

instance abbrev pub string_key : Key String
string_key = record { beq = str_eq; beq_iff = eq_iff; before = str_before }

module _ {ℓ κ} {A : Type ℓ} {B : Type κ} ⦃k : Key A⦄ ⦃l : Key B⦄ where
  abbrev pair_beq : A × B → A × B → Bool
  pair_beq (a, b) (c, d) = a == c && b == d

  pub pair_beq_iff : (x y : A × B) → (pair_beq x y ≡ true) ↔ (x ≡ y)
  pair_beq_iff (a, b) (c, d) = (
    λ h. ground (arith, k.beq_iff a c, l.beq_iff b d),
    λ e.
        ground (
          arith,
          k.beq_iff a c,
          l.beq_iff b d,
          ap (λ (x : A × B). x.0) e,
          ap (λ (x : A × B). x.1) e,
        ),
  )

  -- Pairs are ordered lexicographically.
  abbrev pair_before : A × B → A × B → Bool
  pair_before (a, b) (c, d) = a ≺ c || (a == c && b ≺ d)

  instance abbrev pub pair_key : Key (A × B)
  pair_key = record { beq = pair_beq; beq_iff = pair_beq_iff; before = pair_before }

pub ==_self {ℓ} : {A : Type ℓ} ⦃k : Key A⦄ (a : A) → (a == a) ≡ true
==_self ⦃k⦄ a = (k.beq_iff a a).1 refl
