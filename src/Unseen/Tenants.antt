-- ===== src/Unseen/Tenants.antt =====
-- unseen.go: the tenants that an entry lists, `groupTenants`.
use wa_agent_pipeline.Base.{
  Text, ◌≡◌, ◌≢◌, ◌↔◌, ap, sym, ◌∙◌, Option, none, some, Option-cases, inl, inr, refl, List, [],
  ◌∷◌, arith, Bool-cases, ok, In, ==_iff, text_eq, ◌==◌,
}
use wa_agent_pipeline.Texts.{trim_space}
use wa_agent_pipeline.Unseen.{RawEntry, raw_string, listed_tenants, trimmed_tenants, group_tenants}

-- The list holds the texts of `values`, trimmed, and they are texts that are not blank.
pub record AreTrimmed (values : List (Option Text)) (tenants : List Text) : Type 0 where
  pub texts :
      (value : Option Text) → In value values → (t : Text) × (value ≡ some t) × (trim_space t ≢ [])
  pub trimmed :
      (tenant : Text)
      → In tenant tenants ↔ ((value : Text) × In (some value) values × (trim_space value ≡ tenant))

cons-AreTrimmed :
    (t : Text) (values : List (Option Text)) (tenants : List Text)
    → trim_space t ≢ []
    → AreTrimmed values tenants
    → AreTrimmed (some t ∷ values) (trim_space t ∷ tenants)
cons-AreTrimmed t values tenants filled v = record {
  texts = λ value i. elim i [ inl e ↦ (t, e, filled) | inr j ↦ v.texts value j ];
  trimmed = λ tenant. (
    λ i. elim i [
      | inl e ↦ (t, inl refl, sym e)
      | inr j ↦ let (value, k, e) = (v.trimmed tenant).0 j in (value, inr k, e)
    ],
    λ (value, i, e). elim i [
      | inl same ↦ let s : value ≡ t = ground (arith, same) in inl (sym e ∙ ap trim_space s)
      | inr j ↦ inr ((v.trimmed tenant).1 (value, j, e))
    ],
  );
}

trimmed_tenants-AreTrimmed :
    (values : List (Option Text)) (tenants : List Text)
    → trimmed_tenants values ≡ some tenants
    → AreTrimmed values tenants
unfolding trimmed_tenants
trimmed_tenants-AreTrimmed [] tenants h =
    let e : tenants ≡ [] = ground (arith, h) in
    rw e (record { texts = λ _ i. absurd i; trimmed = λ _. (λ i. absurd i, λ (_, i, _). absurd i) })
trimmed_tenants-AreTrimmed (none ∷ values) tenants h = absurd (ground (arith, h))
trimmed_tenants-AreTrimmed (some t ∷ values) tenants h = elim (Bool-cases (trim_space t == [])) [
  | inl blank ↦ absurd (ground (arith, h, blank))
  | inr filled ↦ elim (Option-cases (trimmed_tenants values)) [
    | inl bad ↦ absurd (ground (arith, h, filled, bad))
    | inr (rest, good) ↦
        let e : tenants ≡ trim_space t ∷ rest = ground (arith, h, filled, good) in
        rw e (
          cons-AreTrimmed t values rest
            (λ b. absurd (ground (arith, filled, (==_iff (trim_space t) []).1 b)))
            (trimmed_tenants-AreTrimmed values rest good))
  ]
]

-- What `groupTenants` reads where it succeeds.
pub record Reads (group : RawEntry) (tenants : List Text) : Type 0 where
  pub values : List (Option Text)
  pub listed : group.tenants ≡ some (some values)
  pub filled : values ≢ []
  pub trimmed : AreTrimmed values tenants

listed_tenants-Reads :
    (group : RawEntry) (r : Option (Option (List (Option Text)))) (tenants : List Text)
    → group.tenants ≡ r
    → listed_tenants r ≡ some tenants
    → Reads group tenants
listed_tenants-Reads group none tenants e h = absurd (ground (arith, h))
listed_tenants-Reads group (some none) tenants e h = absurd (ground (arith, h))
listed_tenants-Reads group (some (some [])) tenants e h = absurd (ground (arith, h))
listed_tenants-Reads group (some (some (value ∷ values))) tenants e h = record {
  values = value ∷ values;
  listed = e;
  filled = λ n. absurd (ground (arith, n));
  trimmed = trimmed_tenants-AreTrimmed (value ∷ values) tenants h;
}

pub group_tenants-Reads :
    (group : RawEntry) (tenants : List Text)
    → group_tenants group ≡ ok tenants
    → Reads group tenants
unfolding group_tenants
group_tenants-Reads group tenants h = elim (Option-cases (listed_tenants group.tenants)) [
  | inl bad ↦ absurd (ground (arith, h, bad))
  | inr (ts, good) ↦
      let same : ts ≡ tenants = ground (arith, h, good) in
      listed_tenants-Reads group group.tenants tenants refl (rw same at good)
]

pub raw_string-filled :
    (o : Option Text) (jid : Text)
    → jid ≡ trim_space (raw_string o [])
    → jid ≢ []
    → (name : Text) × (o ≡ some name) × (jid ≡ trim_space name)
unfolding trim_space
raw_string-filled none jid e n = absurd (n e)
raw_string-filled (some name) jid e n = (name, refl, e)
