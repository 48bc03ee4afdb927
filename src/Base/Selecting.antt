-- ===== src/Base/Selecting.antt =====
-- The members of a list that pass a test.
use mathlib.Core.Path.{◌≡◌, refl}
use mathlib.Core.Logic.{◌↔◌, inl, inr}
use mathlib.Core.Bool.{Bool, true, false}
use mathlib.Core.List.{List, [], ◌∷◌}
use native.Mathlib.Omega.{arith}
use wa_agent_pipeline.Base.Tests.{Bool-cases, if◌then◌else◌}
use wa_agent_pipeline.Base.Lists.{In, select}

module _ {A : Type 0} where
  pub In-select :
      (p : A → Bool) (a : A) (xs : List A) → In a (select p xs) ↔ (In a xs × (p a ≡ true))
  unfolding select
  In-select p a [] = (λ m. absurd m, λ (m, h). absurd m)
  In-select p a (x ∷ xs) =
      let (to, from) = In-select p a xs in
      elim (Bool-cases (p x)) [
        | inl keep ↦ rw keep (
          λ m. elim m [ inl e ↦ (inl e, rw e keep) | inr later ↦ (inr (to later).0, (to later).1) ],
          λ (m, h). elim m [ inl e ↦ inl e | inr later ↦ inr (from (later, h)) ],
        )
        | inr drop ↦ rw drop (
          λ m. (inr (to m).0, (to m).1),
          λ (m, h). elim m [
            | inl e ↦ absurd (ground (arith, e, h, drop))
            | inr later ↦ from (later, h)
          ],
        )
      ]

-- A property of either branch is one of the conditional.
pub if_holds {ℓ κ} :
    {A : Type ℓ} (P : A → Type κ) (b : Bool) (x y : A)
    → (b ≡ true → P x)
    → (b ≡ false → P y)
    → P (if b then x else y)
if_holds P true x y h k = h refl
if_holds P false x y h k = k refl
