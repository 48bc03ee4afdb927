-- ===== src/Config/Tenants.antt =====
-- config.go: `normalizeTenants`.
use mathlib.Core.List.{append-nil, append_assoc}
use wa_agent_pipeline.Base.{
  Text, ◌≡◌, ◌≢◌, ◌↔◌, refl, sym, ap, ◌∙◌, false, List, [], ◌∷◌, ◌++◌, map, arith, All, Distinct,
  Distinct-snoc, Distinct-middle, contains, contains-false_iff, ==_iff, text_eq, ok,
}
use wa_agent_pipeline.Texts.{trim_space}
use wa_agent_pipeline.Config.{normalize_from, normalize_tenants}

abbrev pub IsFilled : Text → Type 0
IsFilled s = s ≢ []

normalize_from_sound :
    (out values r : List Text)
    → Distinct out
    → normalize_from out values ≡ ok r
    → (r ≡ out ++ map trim_space values) × All IsFilled (map trim_space values) × Distinct r
unfolding normalize_from
normalize_from_sound out [] r d h =
    let e : out ≡ r = ground arith in (rw append-nil (sym e), tt, rw (← e) d)
normalize_from_sound out (value ∷ values) r d h =
    let t = trim_space value in
    let filled : t ≢ [] = ground (arith, ==_iff t []) in
    let fresh : contains out t ≡ false = ground arith in
    let rest : normalize_from (out ++ t ∷ []) values ≡ ok r = ground arith in
    let (e, f, d') =
      normalize_from_sound (out ++ t ∷ []) values r
        (Distinct-snoc t out d ((contains-false_iff out t).0 fresh)) rest in
    (e ∙ append_assoc out (t ∷ []) (map trim_space values), (filled, f), d')

normalize_from_complete :
    (out values : List Text)
    → All IsFilled (map trim_space values)
    → Distinct (out ++ map trim_space values)
    → normalize_from out values ≡ ok (out ++ map trim_space values)
unfolding normalize_from
normalize_from_complete out [] f d = rw append-nil
normalize_from_complete out (value ∷ values) f d =
    let t = trim_space value in
    let shift = append_assoc out (t ∷ []) (map trim_space values) in
    let fresh = (contains-false_iff out t).1 (Distinct-middle t out (map trim_space values) d) in
    let rest : normalize_from (out ++ t ∷ []) values ≡ ok (out ++ t ∷ map trim_space values) =
      normalize_from_complete (out ++ t ∷ []) values f.1 (rw shift d) ∙ ap ok shift in
    ground (arith, fresh, rest, ==_iff t [], f.0)

-- `normalizeTenants` succeeds with `out` exactly when there is a value, `out` is the values
-- trimmed, in order, no entry of `out` is empty and none stands twice.
pub normalize_tenants_iff :
    (values out : List Text)
    → (normalize_tenants values ≡ ok out)
      ↔ ((values ≢ []) × (out ≡ map trim_space values) × All IsFilled out × Distinct out)
unfolding normalize_tenants
normalize_tenants_iff [] out = (λ h. absurd (ground arith), λ h. absurd (h.0 refl))
normalize_tenants_iff (value ∷ values) out = (
  λ h.
      let (e, f, d) = normalize_from_sound [] (value ∷ values) out tt h in
      (ground arith, e, rw e f, d),
  λ (n, e, f, d). rw e (normalize_from_complete [] (value ∷ values) (rw e at f) (rw e at d)),
)
