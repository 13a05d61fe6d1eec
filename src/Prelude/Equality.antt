-- ===== src/Prelude/Equality.antt =====
-- Decidable equality as an interface, so that one `==` serves numbers, texts and enumerations.
use Prim.Native.Nat.{ℕ}
use mathlib.Core.Path.{◌≡◌, refl}
use mathlib.Core.Logic.{◌↔◌}
use mathlib.Core.Bool.{Bool, true, false, ◌||◌}
use mathlib.Core.List.{List, [], ◌∷◌}
use web_accessible.Prelude.Tests.{nat_beq, nat_beq_iff}

-- A test of a type that answers exactly its equality.
pub record Comparable {ℓ} (T : Type ℓ) : Type ℓ where
  pub same : T → T → Bool
  pub same_iff : (x y : T) → (same x y ≡ true) ↔ (x ≡ y)

-- `x == y`
abbrev pub ◌==◌ {ℓ} : {T : Type ℓ} ⦃c : Comparable T⦄ → T → T → Bool
◌==◌ ⦃c⦄ x y = c.same x y

infix 50 ◌==◌
instance abbrev pub nat_eq : Comparable ℕ
nat_eq = record { same_iff = nat_beq_iff; same = nat_beq }

-- A decision procedure, read as a Boolean test.
abbrev pub dec_beq {ℓ} : {A : Type ℓ} → Discrete A → A → A → Bool
dec_beq d a b = elim (d a b) [ yes h ↦ true | no h ↦ false ]

pub dec_beq_iff {ℓ} : {A : Type ℓ} (d : Discrete A) (a b : A) → (dec_beq d a b ≡ true) ↔ (a ≡ b)
dec_beq_iff d a b =
    elim (d a b) as (λ z. (elim z [ yes h ↦ true | no h ↦ false ] ≡ true) ↔ (a ≡ b)) [
      | yes h ↦ (λ e. h, λ e. refl)
      | no h ↦ (λ e. cc, λ e. absurd (h e))
    ]

-- The equality of an enumeration.
abbrev pub eq_of_discrete {ℓ} : {A : Type ℓ} → Discrete A → Comparable A
eq_of_discrete d = record { same = dec_beq d; same_iff = dec_beq_iff d }

module _ {ℓ} {A : Type ℓ} ⦃e : Comparable A⦄ where
  -- `a in xs`
  abbrev pub contains : List A → A → Bool
  contains [] a = false
  contains (x ∷ xs) a = x == a || contains xs a
