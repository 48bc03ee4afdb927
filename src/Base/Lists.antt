-- ===== src/Base/Lists.antt =====
-- Lists over the native numbers, membership by recursion, and association lists as Go's maps.
use Prim.Native.Nat.{ℕ, zero, suc, ◌+◌, ◌≤◌}
use mathlib.Core.Path.{◌≡◌, refl, sym, ap}
use mathlib.Core.Logic.{◌↔◌, ◌⊎◌, inl, inr}
use mathlib.Core.Bool.{Bool, true, false, ◌||◌}
use mathlib.Core.Option.{Option, none, some}
use mathlib.Core.List.{List, [], ◌∷◌, ◌++◌, map}
use native.Mathlib.Omega.{arith}
use wa_agent_pipeline.Base.Tests.{Eq, ◌==◌, ==_iff, Bool-cases, if◌then◌else◌}

module _ {ℓ} {A : Type ℓ} where
  abbrev pub length : List A → ℕ
  length [] = 0
  length (x ∷ xs) = suc (length xs)

  abbrev pub take : ℕ → List A → List A
  take zero xs = []
  take (suc n) [] = []
  take (suc n) (x ∷ xs) = x ∷ take n xs

  abbrev pub is_some : Option A → Bool
  is_some none = false
  is_some (some _) = true

  -- The elements that a test passes.
  unfoldable pub select : (A → Bool) → List A → List A
  select p [] = []
  select p (x ∷ xs) = if p x then x ∷ select p xs else select p xs

  pub length-append : (xs ys : List A) → length (xs ++ ys) ≡ length xs + length ys
  length-append [] ys = omega arith
  length-append (x ∷ xs) ys = omega (arith, length-append xs ys)

module _ {A : Type 0} where
  -- Membership and universal statements, by recursion.
  abbrev pub In : A → List A → Type 0
  In a [] = ⊥
  In a (x ∷ xs) = (a ≡ x) ⊎ In a xs

  abbrev pub All {κ} : (A → Type κ) → List A → Type κ
  All P [] = Unit
  All P (x ∷ xs) = P x × All P xs

  pub All-append {κ} : (P : A → Type κ) (xs ys : List A) → All P xs → All P ys → All P (xs ++ ys)
  All-append P [] ys hx hy = hy
  All-append P (x ∷ xs) ys hx hy = (hx.0, All-append P xs ys hx.1 hy)

  pub All-at {κ} : (P : A → Type κ) (a : A) (xs : List A) → All P xs → In a xs → P a
  All-at P a [] h m = absurd m
  All-at P a (x ∷ xs) h (inl e) = rw e h.0
  All-at P a (x ∷ xs) h (inr m) = All-at P a xs h.1 m

  pub All-map {κ μ} :
      (P : A → Type κ) (Q : A → Type μ) (f : (a : A) → P a → Q a) (xs : List A)
      → All P xs
      → All Q xs
  All-map P Q f [] h = tt
  All-map P Q f (x ∷ xs) h = (f x h.0, All-map P Q f xs h.1)

  -- No element stands twice.
  abbrev pub Distinct : List A → Type 0
  Distinct [] = Unit
  Distinct (x ∷ xs) = (¬ In x xs) × Distinct xs

  pub In-append : (a : A) (xs ys : List A) → In a (xs ++ ys) ↔ (In a xs ⊎ In a ys)
  In-append a [] ys = (inr, λ m. elim m [ inl n ↦ absurd n | inr k ↦ k ])
  In-append a (x ∷ xs) ys = (
    λ m. elim m [
      | inl e ↦ inl (inl e)
      | inr k ↦ elim ((In-append a xs ys).0 k) [ inl l ↦ inl (inr l) | inr r ↦ inr r ]
    ],
    λ m. elim m [
      | inl (inl e) ↦ inl e
      | inl (inr l) ↦ inr ((In-append a xs ys).1 (inl l))
      | inr r ↦ inr ((In-append a xs ys).1 (inr r))
    ],
  )

  pub In-snoc : (a b : A) (xs : List A) → In a (xs ++ b ∷ []) → In a xs ⊎ (a ≡ b)
  In-snoc a b xs m = elim ((In-append a xs (b ∷ [])).0 m) [
    | inl l ↦ inl l
    | inr (inl e) ↦ inr e
    | inr (inr n) ↦ absurd n
  ]

  pub Distinct-snoc : (a : A) (xs : List A) → Distinct xs → ¬ In a xs → Distinct (xs ++ a ∷ [])
  Distinct-snoc a [] d n = (λ m. m, tt)
  Distinct-snoc a (x ∷ xs) d n = (
    λ m. elim (In-snoc x a xs m) [ inl l ↦ d.0 l | inr e ↦ n (inl (sym e)) ],
    Distinct-snoc a xs d.1 (λ m. n (inr m)),
  )

  -- An element stands in no second place.
  pub Distinct-middle : (a : A) (xs ys : List A) → Distinct (xs ++ a ∷ ys) → ¬ In a xs
  Distinct-middle a [] ys d m = m
  Distinct-middle a (x ∷ xs) ys d (inl e) = d.0 ((In-append x xs (a ∷ ys)).1 (inr (inl (sym e))))
  Distinct-middle a (x ∷ xs) ys d (inr m) = Distinct-middle a xs ys d.1 m

module _ {A : Type 0} ⦃e : Eq A⦄ where
  unfoldable pub contains : List A → A → Bool
  contains [] a = false
  contains (x ∷ xs) a = x == a || contains xs a

  pub contains_iff : (xs : List A) (a : A) → (contains xs a ≡ true) ↔ In a xs
  unfolding contains
  contains_iff [] a = (λ h. absurd (ground arith), λ m. absurd m)
  contains_iff (x ∷ xs) a = elim (Bool-cases (x == a)) [
    | inl hit ↦ (λ _. inl (sym ((==_iff x a).0 hit)), λ _. rw hit)
    | inr miss ↦ rw miss (
      λ h. inr ((contains_iff xs a).0 h),
      λ m. elim m [
        | inl e ↦ absurd (ground (arith, ==_iff x a))
        | inr m' ↦ (contains_iff xs a).1 m'
      ],
    )
  ]

module _ {A : Type 0} ⦃e : Eq A⦄ where
  pub contains-false_iff : (xs : List A) (a : A) → (contains xs a ≡ false) ↔ (¬ In a xs)
  contains-false_iff xs a = (
    λ h m. cc ((contains_iff xs a).1 m),
    λ n. elim (Bool-cases (contains xs a)) [
      | inl hit ↦ absurd (n ((contains_iff xs a).0 hit))
      | inr miss ↦ miss
    ],
  )

module _ {A : Type 0} where
  In-split :
      (a : A) (xs : List A) → In a xs → (pre : List A) × (post : List A) × (xs ≡ pre ++ a ∷ post)
  In-split a [] m = elim m [ ]
  In-split a (x ∷ xs) (inl e) = ([], xs, rw e)
  In-split a (x ∷ xs) (inr m) =
      let (pre, post, e) = In-split a xs m in (x ∷ pre, post, ap (◌∷◌ x) e)

  Distinct-remove :
      (a : A) (pre post : List A) → Distinct (pre ++ a ∷ post) → Distinct (pre ++ post)
  Distinct-remove a [] post d = d.1
  Distinct-remove a (x ∷ pre) post d = (
    λ m. d.0 (elim ((In-append x pre post).0 m) [
      | inl l ↦ (In-append x pre (a ∷ post)).1 (inl l)
      | inr r ↦ (In-append x pre (a ∷ post)).1 (inr (inr r))
    ]),
    Distinct-remove a pre post d.1,
  )

  length-remove :
      (a : A) (pre post : List A) → length (pre ++ a ∷ post) ≡ suc (length (pre ++ post))
  length-remove a [] post = refl
  length-remove a (x ∷ pre) post = ap suc (length-remove a pre post)

  In-remove : (a b : A) (pre post : List A) → In b (pre ++ a ∷ post) → (b ≡ a) ⊎ In b (pre ++ post)
  In-remove a b [] post m = m
  In-remove a b (x ∷ pre) post (inl e) = inr (inl e)
  In-remove a b (x ∷ pre) post (inr m) = elim (In-remove a b pre post m) [
    | inl e ↦ inl e
    | inr k ↦ inr (inr k)
  ]

  -- A list without repeats that lies in another of the same length has all its elements.
  pub In-of_same_length :
      (xs ys : List A)
      → Distinct xs
      → Distinct ys
      → length xs ≡ length ys
      → ((a : A) → In a xs → In a ys)
      → (b : A) → In b ys
      → In b xs
  In-of_same_length [] [] dx dy e h b m = m
  In-of_same_length [] (y ∷ ys) dx dy e h b m = absurd (omega arith)
  In-of_same_length (x ∷ xs) ys dx dy e h b m =
      let (pre, post, cut) = In-split x ys (h x (inl refl)) in
      let smaller =
        In-of_same_length xs (pre ++ post) dx.1 (Distinct-remove x pre post (rw cut at dy))
          (omega (arith, length-remove x pre post, ap length cut))
          (λ a k. elim (In-remove x a pre post (rw cut at (h a (inr k)))) [
            | inl same ↦ absurd (dx.0 (rw same at k))
            | inr kept ↦ kept
          ]) in
      elim (In-remove x b pre post (rw cut at m)) [
        | inl same ↦ inl same
        | inr kept ↦ inr (smaller b kept)
      ]

  -- A list without repeats is no longer than a list that has all its elements.
  pub length-le_of_In :
      (xs ys : List A) → Distinct xs → ((a : A) → In a xs → In a ys) → length xs ≤ length ys
  length-le_of_In [] ys dx h = omega arith
  length-le_of_In (x ∷ xs) ys dx h =
      let (pre, post, cut) = In-split x ys (h x (inl refl)) in
      let smaller = length-le_of_In xs (pre ++ post) dx.1 (λ a k.
        elim (In-remove x a pre post (rw cut at (h a (inr k)))) [
          | inl same ↦ absurd (dx.0 (rw same at k))
          | inr kept ↦ kept
        ]) in
      omega (arith, length-remove x pre post, ap length cut)

module _ {ℓ κ} {A : Type ℓ} {B : Type κ} where
  pub length-map : (f : A → B) (xs : List A) → length (map f xs) ≡ length xs
  length-map f [] = refl
  length-map f (x ∷ xs) = ap suc (length-map f xs)
