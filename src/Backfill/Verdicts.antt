-- ===== src/Backfill/Verdicts.antt =====
-- backfill.go: what merging keeps of the verdicts and the dates of two summaries.
use wa_agent_pipeline.Base.{
  Text, ◌≡◌, ◌≢◌, ◌⊎◌, ◌↔◌, inl, inr, refl, true, false, not, ◌&&◌, ◌||◌, List, arith, Bool-cases,
  nat_eq, ◌==◌, ==_iff, if◌then◌else◌,
}
use wa_agent_pipeline.Base.Int.{ℤ, pos, ◌≤ℤ◌, int_eq, ltb_ℤ}
use wa_agent_pipeline.Backfill.{Summary, verdict, merge_summaries}

-- A summary that is viable has messages, media and messages of the anchor's day.
pub record IsViable (s : Summary) : Type 0 where
  pub messages : s.messages ≢ 0
  pub media : s.media_envelopes ≢ 0
  pub same_day : s.same_day_before_anchor ≡ true

pub IsViable-parts : (s : Summary) → (verdict s).0 ≡ true → IsViable s
unfolding verdict
IsViable-parts s h = record {
  messages = ground (arith, h);
  media = ground (arith, h);
  same_day = ground (arith, h);
}

viable_of_parts : (s : Summary) → IsViable s → (verdict s).0 ≡ true
unfolding verdict
viable_of_parts s v = ground (arith, v.messages, v.media, v.same_day)

-- `v` is the least of the dates `t` and `u`, where 0 stands for no date.
pub record IsLeastDate (t u v : ℤ) : Type 0 where
  pub is_missing : (v ≡ pos 0) ↔ ((t ≡ pos 0) × (u ≡ pos 0))
  pub one_of : (v ≡ t) ⊎ (v ≡ u)
  pub first : (t ≡ pos 0) ⊎ (v ≤ℤ t)
  pub second : (u ≡ pos 0) ⊎ (v ≤ℤ u)

pub record IsGreatestDate (t u v : ℤ) : Type 0 where
  pub one_of : (v ≡ t) ⊎ (v ≡ u)
  pub first : t ≤ℤ v
  pub second : u ≤ℤ v

least_date :
    (t u : ℤ) → IsLeastDate t u (if (t == pos 0) || (not (u == pos 0) && ltb_ℤ u t) then u else t)
least_date t u = elim (Bool-cases (t == pos 0)) [
  | inl none_first ↦
      let e = (==_iff t (pos 0)).0 none_first in
      rw none_first (record {
        is_missing = (λ h. (e, h), λ (_, h). h);
        one_of = inr refl;
        first = inl e;
        second = inr (omega arith);
      })
  | inr some_first ↦ elim (Bool-cases (u == pos 0)) [
    | inl none_second ↦
        let e = (==_iff u (pos 0)).0 none_second in
        rw (some_first, none_second)
          (record {
            is_missing = (λ h. (h, e), λ (h, _). h);
            one_of = inl refl;
            first = inr (omega arith);
            second = inl e;
          })
    | inr some_second ↦ elim (Bool-cases (ltb_ℤ u t)) [
      | inl less ↦
          rw (some_first, some_second, less)
            (record {
              is_missing =
                  (λ h. absurd (ground (arith, some_second, (==_iff u (pos 0)).1 h)), λ (_, h). h);
              one_of = inr refl;
              first = inr (ground (arith, less));
              second = inr (omega arith);
            })
      | inr not_less ↦
          rw (some_first, some_second, not_less)
            (record {
              is_missing =
                  (λ h. absurd (ground (arith, some_first, (==_iff t (pos 0)).1 h)), λ (h, _). h);
              one_of = inl refl;
              first = inr (omega arith);
              second = inr (ground (arith, not_less));
            })
    ]
  ]
]

greatest_date : (t u : ℤ) → IsGreatestDate t u (if ltb_ℤ t u then u else t)
greatest_date t u = record { one_of = ground arith; first = ground arith; second = ground arith }

module _ (sort : List Text → List Text) where
  merged-IsViable : (a b : Summary) → IsViable a ⊎ IsViable b → IsViable (merge_summaries sort a b)
  unfolding merge_summaries
  merged-IsViable a b h = elim h [
    | inl v ↦ record {
      messages = ground (arith, v.messages);
      media = ground (arith, v.media);
      same_day = ground (arith, v.same_day);
    }
    | inr v ↦ record {
      messages = ground (arith, v.messages);
      media = ground (arith, v.media);
      same_day = ground (arith, v.same_day);
    }
  ]

  unviable : (s : Summary) → (verdict s).0 ≡ false → ¬ IsViable s
  unviable s h v = absurd (ground (arith, h, viable_of_parts s v))

  -- The verdict on the merged summary of two is viable exactly where it has messages, media and
  -- messages of the anchor's day before the anchor; and it has them, or neither of the two has. Its
  -- earliest date is the earlier of theirs, where 0 stands for no date: it is 0 only where both are,
  -- one of the two, and not after either that is a date. Its latest date is the later of theirs.
  pub merge_summaries-verdict :
      (a b : Summary)
      → (((verdict (merge_summaries sort a b)).0 ≡ true) ↔ IsViable (merge_summaries sort a b))
        × (IsViable (merge_summaries sort a b) ⊎ ((¬ IsViable a) × (¬ IsViable b)))
        × IsLeastDate a.min_timestamp b.min_timestamp (merge_summaries sort a b).min_timestamp
        × IsGreatestDate a.max_timestamp b.max_timestamp (merge_summaries sort a b).max_timestamp
  unfolding merge_summaries
  merge_summaries-verdict a b = (
    (IsViable-parts (merge_summaries sort a b), viable_of_parts (merge_summaries sort a b)),
    elim (Bool-cases (verdict a).0) [
      | inl va ↦ inl (merged-IsViable a b (inl (IsViable-parts a va)))
      | inr not_a ↦ elim (Bool-cases (verdict b).0) [
        | inl vb ↦ inl (merged-IsViable a b (inr (IsViable-parts b vb)))
        | inr not_b ↦ inr (unviable a not_a, unviable b not_b)
      ]
    ],
    least_date a.min_timestamp b.min_timestamp,
    greatest_date a.max_timestamp b.max_timestamp,
  )
