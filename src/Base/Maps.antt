-- ===== src/Base/Maps.antt =====
-- Go's maps, and tables under a primary key, as association lists.
use mathlib.Core.Path.{◌≡◌, refl, sym, ap}
use mathlib.Core.Logic.{◌⊎◌, inl, inr}
use mathlib.Core.Option.{Option, none, some}
use mathlib.Core.List.{List, [], ◌∷◌, map}
use native.Mathlib.Omega.{arith}
use wa_agent_pipeline.Base.Tests.{Eq, ◌==◌, ==_iff, Bool-cases, if◌then◌else◌}
use wa_agent_pipeline.Base.Lists.{In, Distinct}

module _ {ℓ κ} {K : Type ℓ} {V : Type κ} ⦃e : Eq K⦄ where
  -- m[k]
  unfoldable pub lookup : K → List (K × V) → Option V
  lookup k [] = none
  lookup k ((j, v) ∷ m) = if j == k then some v else lookup k m

  pub lookup-nil : (k : K) → lookup k [] ≡ none
  unfolding lookup
  lookup-nil k = refl

  -- m[k] = v
  unfoldable pub insert : K → V → List (K × V) → List (K × V)
  insert k v [] = (k, v) ∷ []
  insert k v (entry ∷ m) = if entry.0 == k then (k, v) ∷ m else entry ∷ insert k v m

  pub lookup-insert :
      (key other : K) (v : V) (m : List (K × V))
      → lookup other (insert key v m) ≡ (if key == other then some v else lookup other m)
  unfolding insert lookup
  lookup-insert key other v [] = refl
  lookup-insert key other v ((j, w) ∷ m) =
      let later = lookup-insert key other v m in
      ground (arith, later, ==_iff key other, ==_iff j key, ==_iff j other)

module _ {K : Type 0} {V : Type 0} ⦃e : Eq K⦄ where
  abbrev pub keys : List (K × V) → List K
  keys = map λ kv. kv.0

  pub In-keys_of_lookup : (k : K) (m : List (K × V)) {v : V} → lookup k m ≡ some v → In k (keys m)
  unfolding lookup
  In-keys_of_lookup k [] h = cc
  In-keys_of_lookup k ((j, w) ∷ m) h = elim (Bool-cases (j == k)) [
    | inl hit ↦ inl (sym ((==_iff j k).0 hit))
    | inr miss ↦ inr (In-keys_of_lookup k m (rw miss at h))
  ]

  pub lookup_of_In-keys :
      (k : K) (m : List (K × V)) → In k (keys m) → (v : V) × (lookup k m ≡ some v)
  unfolding lookup
  lookup_of_In-keys k [] h = elim h [ ]
  lookup_of_In-keys k ((j, w) ∷ m) h = elim (Bool-cases (j == k)) [
    | inl hit ↦ (w, rw hit)
    | inr miss ↦ rw miss (elim h [
      | inl same ↦ absurd (ground (arith, ==_iff j k))
      | inr later ↦ lookup_of_In-keys k m later
    ])
  ]

  keys-insert :
      (k j : K) (v : V) (m : List (K × V)) → In j (keys (insert k v m)) → (j ≡ k) ⊎ In j (keys m)
  unfolding insert
  keys-insert k j v [] h = elim h [ inl e ↦ inl e | inr n ↦ absurd n ]
  keys-insert k j v ((i, w) ∷ m) h = elim (Bool-cases (i == k)) [
    | inl hit ↦ elim (rw hit at h) [ inl same ↦ inl same | inr later ↦ inr (inr later) ]
    | inr miss ↦ elim (rw miss at h) [
      | inl same ↦ inr (inl same)
      | inr later ↦ elim (keys-insert k j v m later) [ inl e ↦ inl e | inr o ↦ inr (inr o) ]
    ]
  ]

  -- A map holds a key once.
  pub Distinct-keys-insert :
      (k : K) (v : V) (m : List (K × V)) → Distinct (keys m) → Distinct (keys (insert k v m))
  unfolding insert
  Distinct-keys-insert k v [] d = (λ n. n, tt)
  Distinct-keys-insert k v ((i, w) ∷ m) d = elim (Bool-cases (i == k)) [
    | inl hit ↦ rw hit (let same = (==_iff i k).0 hit in rw same at d)
    | inr miss ↦ rw miss (
      λ h. elim (keys-insert k i v m h) [
        | inl same ↦ ground (arith, ==_iff i k)
        | inr old ↦ d.0 old
      ],
      Distinct-keys-insert k v m d.1,
    )
  ]

  In-keys_of_In : (k : K) (v : V) (m : List (K × V)) → In (k, v) m → In k (keys m)
  In-keys_of_In k v [] h = h
  In-keys_of_In k v (kv ∷ m) (inl e) = inl (ap (λ (p : K × V). p.0) e)
  In-keys_of_In k v (kv ∷ m) (inr h) = inr (In-keys_of_In k v m h)

  pub In-of_lookup : (k : K) (m : List (K × V)) {v : V} → lookup k m ≡ some v → In (k, v) m
  unfolding lookup
  In-of_lookup k [] h = cc
  In-of_lookup k ((j, w) ∷ m) h = elim (Bool-cases (j == k)) [
    | inl hit ↦ inl (ground (arith, ==_iff j k))
    | inr miss ↦ inr (In-of_lookup k m (rw miss at h))
  ]

  pub lookup_of_In :
      (k : K) (v : V) (m : List (K × V)) → Distinct (keys m) → In (k, v) m → lookup k m ≡ some v
  unfolding lookup
  lookup_of_In k v [] d h = absurd h
  lookup_of_In k v ((j, w) ∷ m) d (inl e) = ground (arith, ==_iff j k)
  lookup_of_In k v ((j, w) ∷ m) d (inr h) =
      let later = In-keys_of_In k v m h in
      elim (Bool-cases (j == k)) [
        | inl hit ↦ let same = (==_iff j k).0 hit in absurd (d.0 (rw (sym same) at later))
        | inr miss ↦ rw miss (lookup_of_In k v m d.1 h)
      ]
