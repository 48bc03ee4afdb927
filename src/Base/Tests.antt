-- ===== src/Base/Tests.antt =====
-- Boolean tests, the conditional, equality as an interface, and the case lemmas.
use Prim.Native.Nat.{ℕ, compare, Ordering}
use mathlib.Core.Path.{◌≡◌, refl}
use mathlib.Core.Logic.{◌↔◌, ◌⊎◌, inl, inr}
use mathlib.Core.Bool.{Bool, true, false, ◌&&◌}
use mathlib.Core.Option.{Option, none, some}
use mathlib.Core.List.{List, [], ◌∷◌}
use native.Mathlib.Omega.{arith}

abbrev pub ltb : ℕ → ℕ → Bool
ltb a b = elim (compare a b) [ Ordering.lt ↦ true | _ ↦ false ]

abbrev pub leb : ℕ → ℕ → Bool
leb a b = elim (compare a b) [ Ordering.gt ↦ false | _ ↦ true ]

infix 1 if◌then◌else◌
abbrev pub if◌then◌else◌ {ℓ} : {A : Type ℓ} → Bool → A → A → A
if true then x else y = x
if false then x else y = y

-- Types whose values the program compares by `==`.
pub record Eq {ℓ} (A : Type ℓ) : Type ℓ where
  pub beq : A → A → Bool
  pub beq_iff : (x y : A) → (beq x y ≡ true) ↔ (x ≡ y)

infix 50 ◌==◌
abbrev pub ◌==◌ {ℓ} : {A : Type ℓ} ⦃e : Eq A⦄ → A → A → Bool
◌==◌ ⦃e⦄ = e.beq

pub ==_iff {ℓ} : {A : Type ℓ} ⦃e : Eq A⦄ (a b : A) → ((a == b) ≡ true) ↔ (a ≡ b)
==_iff ⦃e⦄ a b = e.beq_iff a b

pub ==_self {ℓ} : {A : Type ℓ} ⦃e : Eq A⦄ (a : A) → (a == a) ≡ true
==_self ⦃e⦄ a = (e.beq_iff a a).1 refl

abbrev beq_nat : ℕ → ℕ → Bool
beq_nat a b = elim (compare a b) [ Ordering.eq ↦ true | _ ↦ false ]

pub beq_nat_iff : (a b : ℕ) → (beq_nat a b ≡ true) ↔ (a ≡ b)
beq_nat_iff a b = ground arith

instance abbrev pub nat_eq : Eq ℕ
nat_eq = record { beq = beq_nat; beq_iff = beq_nat_iff }

-- A text is the list of its code points.
abbrev pub Text : Type 0
Text = List ℕ

unfoldable pub beq_text : Text → Text → Bool
beq_text [] [] = true
beq_text (a ∷ s) (b ∷ t) = beq_nat a b && beq_text s t
beq_text _ _ = false

pub beq_text_iff : (s t : Text) → (beq_text s t ≡ true) ↔ (s ≡ t)
unfolding beq_text
beq_text_iff [] [] = (λ _. refl, λ _. refl)
beq_text_iff [] (b ∷ t) = (λ h. cc, λ h. cc)
beq_text_iff (a ∷ s) [] = (λ h. cc, λ h. cc)
beq_text_iff (a ∷ s) (b ∷ t) = ground (arith, beq_text_iff s t)

instance abbrev pub text_eq : Eq Text
text_eq = record { beq = beq_text; beq_iff = beq_text_iff }

pub Bool-cases : (b : Bool) → (b ≡ true) ⊎ (b ≡ false)
Bool-cases true = inl refl
Bool-cases false = inr refl

pub Option-cases {ℓ} : {A : Type ℓ} (o : Option A) → (o ≡ none) ⊎ ((a : A) × (o ≡ some a))
Option-cases none = inl refl
Option-cases (some a) = inr (a, refl)
