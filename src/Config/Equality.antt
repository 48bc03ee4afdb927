-- ===== src/Config/Equality.antt =====
-- config.go: `sameGroup` compares groups field by field.
use wa_agent_pipeline.Base.{
  Text, ◌≡◌, ◌↔◌, Bool, true, Option, none, some, List, [], ◌∷◌, arith, ==_iff, text_eq,
}
use wa_agent_pipeline.Base.Int.{ℤ, int_eq}
use wa_agent_pipeline.Config.{Group, beq_bool, same_strings, same_retention, same_group}

same_strings_iff : (a b : List Text) → (same_strings a b ≡ true) ↔ (a ≡ b)
unfolding same_strings
same_strings_iff [] [] = ground arith
same_strings_iff [] (t ∷ b) = ground arith
same_strings_iff (s ∷ a) [] = ground arith
same_strings_iff (s ∷ a) (t ∷ b) = ground (arith, ==_iff s t, same_strings_iff a b)

beq_bool_iff : (a b : Bool) → (beq_bool a b ≡ true) ↔ (a ≡ b)
beq_bool_iff a b = ground arith

same_retention_iff : (a b : Option ℤ) → (same_retention a b ≡ true) ↔ (a ≡ b)
same_retention_iff none none = ground arith
same_retention_iff none (some b) = ground arith
same_retention_iff (some a) none = ground arith
same_retention_iff (some a) (some b) = ground (arith, ==_iff a b)

-- `sameGroup` holds of two groups exactly when they are equal in every field.
pub same_group_iff : (a b : Group) → (same_group a b ≡ true) ↔ (a ≡ b)
unfolding same_group
same_group_iff a b = ground (
  arith,
  ==_iff a.jid b.jid,
  ==_iff a.label b.label,
  ==_iff a.purpose b.purpose,
  same_strings_iff a.tenants b.tenants,
  same_retention_iff a.retention_days b.retention_days,
)
