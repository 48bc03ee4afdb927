-- ===== src/Texts/Trim.antt =====
-- What `strings.TrimSpace` leaves has no space at either end, and trimming it again changes nothing.
use wa_agent_pipeline.Base.{ℕ, Text, ◌≡◌, refl, false, [], ◌∷◌, All, ap, Bool-cases, inl, inr}
use wa_agent_pipeline.Texts.{is_space, end_with, trim_left, trim_right, trim_space}

-- The first character, if any, is no space.
abbrev StartsSolid : Text → Type 0
StartsSolid [] = Unit
StartsSolid (c ∷ s) = is_space c ≡ false

trim_left-StartsSolid : (s : Text) → StartsSolid (trim_left s)
unfolding trim_left
trim_left-StartsSolid [] = tt
trim_left-StartsSolid (c ∷ s) = elim (Bool-cases (is_space c)) [
  | inl sp ↦ rw sp (trim_left-StartsSolid s)
  | inr solid ↦ rw solid solid
]

trim_left_id : (s : Text) → StartsSolid s → trim_left s ≡ s
unfolding trim_left
trim_left_id [] h = refl
trim_left_id (c ∷ s) h = rw h

trim_right-end_with :
    (c : ℕ) (r : Text) → trim_right r ≡ r → trim_right (end_with c r) ≡ end_with c r
unfolding trim_right
trim_right-end_with c [] h = elim (Bool-cases (is_space c)) [
  | inl sp ↦ rw sp
  | inr solid ↦ rw solid (rw solid)
]
trim_right-end_with c (d ∷ s) h = rw h

trim_right_idem : (s : Text) → trim_right (trim_right s) ≡ trim_right s
unfolding trim_right
trim_right_idem [] = refl
trim_right_idem (c ∷ s) = trim_right-end_with c (trim_right s) (trim_right_idem s)

end_with-StartsSolid : (c : ℕ) (r : Text) → is_space c ≡ false → StartsSolid (end_with c r)
end_with-StartsSolid c [] h = rw h h
end_with-StartsSolid c (d ∷ s) h = h

trim_right-StartsSolid : (s : Text) → StartsSolid s → StartsSolid (trim_right s)
unfolding trim_right
trim_right-StartsSolid [] h = tt
trim_right-StartsSolid (c ∷ s) h = end_with-StartsSolid c (trim_right s) h

-- A trimmed text is left alone by a second trim.
pub trim_space_idem : (s : Text) → trim_space (trim_space s) ≡ trim_space s
unfolding trim_space
trim_space_idem s =
    rw (trim_left_id _ (trim_right-StartsSolid _ (trim_left-StartsSolid s)))
      (trim_right_idem (trim_left s))

trim_right_id : (s : Text) → All (λ c. is_space c ≡ false) s → trim_right s ≡ s
unfolding trim_right
trim_right_id [] h = refl
trim_right_id (c ∷ []) (h, k) = rw h
trim_right_id (c ∷ d ∷ s) (h, k) = ap (end_with c) (trim_right_id (d ∷ s) k)

-- A text without spaces is left alone.
pub trim_space_id : (s : Text) → All (λ c. is_space c ≡ false) s → trim_space s ≡ s
unfolding trim_space
trim_space_id [] h = refl
trim_space_id (c ∷ s) (h, k) = rw (trim_left_id (c ∷ s) h) (trim_right_id (c ∷ s) (h, k))
