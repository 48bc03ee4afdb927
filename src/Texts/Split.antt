-- ===== src/Texts/Split.antt =====
-- What `strings.Split` at one character returns: the two pieces round the only separator.
use wa_agent_pipeline.Base.{
  ℕ, Text, ◌≡◌, ◌≢◌, ◌↔◌, refl, ap, ◌∙◌, false, List, [], ◌∷◌, ◌++◌, arith, Bool-cases, inl, inr,
  contains, ◌==◌, ==_iff, ==_self, nat_eq,
}
use wa_agent_pipeline.Texts.{onto_first, split}

pub split_whole : (sep : ℕ) (s : Text) → contains s sep ≡ false → split sep s ≡ s ∷ []
unfolding split contains
split_whole sep [] h = refl
split_whole sep (c ∷ s) h = ground (arith, split_whole sep s)

pub split-append :
    (sep : ℕ) (s t : Text) → contains s sep ≡ false → split sep (s ++ sep ∷ t) ≡ s ∷ split sep t
unfolding split contains
split-append sep [] t h = rw ==_self
split-append sep (c ∷ s) t h = ground (arith, split-append sep s t)

-- A list of pieces against the text that it was cut from.
record Pieces (sep : ℕ) (s : Text) (pieces : List Text) : Type 0 where
  pub some_piece : pieces ≢ []
  pub one : (a : Text) → pieces ≡ a ∷ [] → (s ≡ a) × (contains a sep ≡ false)
  pub two :
      (a b : Text)
      → pieces ≡ a ∷ b ∷ []
      → (s ≡ a ++ sep ∷ b) × (contains a sep ≡ false) × (contains b sep ≡ false)

Pieces-cut :
    (sep c : ℕ) (s : Text) (rest : List Text)
    → c ≡ sep
    → Pieces sep s rest
    → Pieces sep (c ∷ s) ([] ∷ rest)
unfolding contains
Pieces-cut sep c s rest e p = record {
  some_piece = λ h. cc;
  one = λ a h. absurd (p.some_piece (ground arith));
  two = λ a b h. ground (arith, p.one b);
}

Pieces-grow :
    (sep c : ℕ) (s : Text) (rest : List Text)
    → (c == sep) ≡ false
    → Pieces sep s rest
    → Pieces sep (c ∷ s) (onto_first c rest)
unfolding contains
Pieces-grow sep c s [] n p = absurd (p.some_piece refl)
Pieces-grow sep c s (x ∷ rest) n p = record {
  some_piece = λ h. cc;
  one = λ a h. ground (arith, p.one x);
  two = λ a b h. ground (arith, p.two x b);
}

split-Pieces : (sep : ℕ) (s : Text) → Pieces sep s (split sep s)
unfolding split contains
split-Pieces sep [] = record {
  some_piece = λ h. cc;
  one = λ a h. ground arith;
  two = λ a b h. absurd (ground arith);
}
split-Pieces sep (c ∷ s) = elim (Bool-cases (c == sep)) [
  | inl hit ↦ rw hit (Pieces-cut sep c s _ ((==_iff c sep).0 hit) (split-Pieces sep s))
  | inr miss ↦ rw miss (Pieces-grow sep c s _ miss (split-Pieces sep s))
]

onto_first_snoc :
    (c : ℕ) (xs : List Text) (t : Text)
    → xs ≢ []
    → onto_first c (xs ++ t ∷ []) ≡ onto_first c xs ++ t ∷ []
onto_first_snoc c [] t n = absurd (n refl)
onto_first_snoc c (x ∷ xs) t n = refl

-- The last piece.
pub split-snoc :
    (sep : ℕ) (s t : Text)
    → contains t sep ≡ false
    → split sep (s ++ sep ∷ t) ≡ split sep s ++ t ∷ []
unfolding split
split-snoc sep [] t h = rw ==_self (ap (λ r. [] ∷ r) (split_whole sep t h))
split-snoc sep (c ∷ s) t h = elim (Bool-cases (c == sep)) [
  | inl hit ↦ rw hit (ap (λ r. [] ∷ r) (split-snoc sep s t h))
  | inr miss ↦ rw miss (
      ap (onto_first c) (split-snoc sep s t h)
      ∙ onto_first_snoc c (split sep s) t ((split-Pieces sep s).some_piece))
]

-- Two pieces come from a text with one separator, and that text gives the two pieces.
pub split_two_iff :
    (sep : ℕ) (s a b : Text)
    → (split sep s ≡ a ∷ b ∷ [])
      ↔ ((s ≡ a ++ sep ∷ b) × (contains a sep ≡ false) × (contains b sep ≡ false))
split_two_iff sep s a b = (
  (split-Pieces sep s).two a b,
  λ h. rw h.0 (split-append sep a b h.1 ∙ ap (λ r. a ∷ r) (split_whole sep b h.2)),
)
