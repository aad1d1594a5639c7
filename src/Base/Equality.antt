-- ===== src/Base/Equality.antt =====
-- Python's `==` and `in`, for the types whose equality the program tests.
use Prim.Native.Nat.{ℕ}
use Prim.Native.String.{String}
use mathlib.Core.Path.{◌≡◌, refl}
use mathlib.Core.Logic.{◌↔◌}
use mathlib.Core.Bool.{Bool, true, false, ◌||◌}
use mathlib.Core.Option.{Option, none, some}
use mathlib.Core.List.{List, [], ◌∷◌}
use native.Mathlib.Omega.{arith}
use text.Mathlib.Text.{◌==◌ as str_beq}
use text.Mathlib.TextEquality.{eq_iff}
use scylla_k8s_example.Base.Tests.{nat_beq, nat_beq_iff}

-- A type whose values the program compares: the test, and that it tests equality.
pub record Comparable {ℓ} (K : Type ℓ) : Type ℓ where
  pub same : K → K → Bool
  pub same_iff : (x y : K) → (same x y ≡ true) ↔ (x ≡ y)

instance abbrev pub string_eq : Comparable String
string_eq = record { same_iff = eq_iff; same = str_beq }

instance abbrev pub nat_eq : Comparable ℕ
nat_eq = record { same_iff = nat_beq_iff; same = nat_beq }

infix 50 ◌==◌
abbrev pub ◌==◌ {ℓ} : {K : Type ℓ} ⦃c : Comparable K⦄ → K → K → Bool
◌==◌ ⦃c⦄ x y = c.same x y

pub str_iff : (s t : String) → ((s == t) ≡ true) ↔ (s ≡ t)
str_iff s t = eq_iff s t

pub str_refl : (s : String) → (s == s) ≡ true
str_refl s = (eq_iff s s).1 refl

module _ {ℓ} {A : Type ℓ} ⦃c : Comparable A⦄ where
  -- `a in xs`
  abbrev pub contains : A → List A → Bool
  contains a [] = false
  contains a (x ∷ xs) = a == x || contains a xs

  -- `o == a`, for an `o` that may be `None`
  abbrev pub is_some_eq : Option A → A → Bool
  is_some_eq none a = false
  is_some_eq (some b) a = b == a

  pub is_some_eq_iff : (o : Option A) (a : A) → (is_some_eq o a ≡ true) ↔ (o ≡ some a)
  is_some_eq_iff none a = ground arith
  is_some_eq_iff (some b) a = ground (arith, c.same_iff b a)
