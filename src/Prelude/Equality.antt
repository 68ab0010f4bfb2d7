-- ===== src/Prelude/Equality.antt =====
-- Equality tests as an interface, and `Array.includes` over it.
use Prim.Native.Nat.{ℕ}
use Prim.Native.String.{String}
use mathlib.Core.Path.{◌≡◌, refl, subst}
use mathlib.Core.Logic.{◌↔◌, inl, inr}
use mathlib.Core.Bool.{Bool, true, false, ◌||◌}
use mathlib.Core.List.{List, [], ◌∷◌}
use native.Mathlib.Omega.{arith}
use text.Mathlib.Text.{◌==◌ as str_eq}
use text.Mathlib.TextEquality.{eq_iff}
use casper_agops_server.Prelude.Tests.{◌=?◌, =?_iff, Bool-cases}

-- A type whose equality the code tests.
pub record HasEquality {ℓ} (A : Type ℓ) : Type ℓ where
  pub is_equal : A → A → Bool
  pub is_equal_iff : (a b : A) → (is_equal a b ≡ true) ↔ (a ≡ b)

instance abbrev pub string_eq : HasEquality String
string_eq = record { is_equal = str_eq; is_equal_iff = eq_iff }

instance abbrev pub nat_eq : HasEquality ℕ
nat_eq = record { is_equal = ◌=?◌; is_equal_iff = =?_iff }

-- `===`, for any such type.
infix 50 ◌==◌
abbrev pub ◌==◌ {κ} : {B : Type κ} ⦃test : HasEquality B⦄ → B → B → Bool
◌==◌ ⦃test⦄ b c = test.is_equal b c

abbrev pub All {ℓ κ} : {A : Type ℓ} → (A → Type κ) → List A → Type κ
All P [] = Unit
All P (x ∷ xs) = P x × All P xs

pub All-map {ℓ κ} :
    {A : Type ℓ} {P Q : A → Type κ} → ((a : A) → P a → Q a) → (xs : List A) → All P xs → All Q xs
All-map f [] h = tt
All-map f (x ∷ xs) h = (f x h.0, All-map f xs h.1)

module _ {ℓ} {A : Type ℓ} ⦃e : HasEquality A⦄ where
  pub beq_refl : (a : A) → (a == a) ≡ true
  beq_refl a = (e.is_equal_iff a a).1 refl

  abbrev pub includes : List A → A → Bool
  includes [] a = false
  includes (x ∷ xs) a = x == a || includes xs a

  -- What holds of all members holds of an included element.
  pub includes-All {κ} :
      (P : A → Type κ) (xs : List A) (a : A) → All P xs → includes xs a ≡ true → P a
  includes-All P [] a h m = absurd (cc)
  includes-All P (x ∷ xs) a (p, h) m = elim (Bool-cases (x == a)) [
    | inl same ↦ subst P ((e.is_equal_iff x a).0 same) p
    | inr other ↦ includes-All P xs a h (ground arith)
  ]
