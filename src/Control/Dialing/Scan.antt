-- ===== src/Control/Dialing/Scan.antt =====
-- control.go: the loop of the client over the lines of the daemon.
use mathlib.Core.Path.{subst}
use wa_agent_pipeline.Base.{
  ℕ, suc, Text, ◌≡◌, ◌⊎◌, inl, inr, refl, sym, ap, ◌∙◌, Bool, true, false, Option, none, some, ok,
  err, List, [], ◌∷◌, ◌++◌, map, text_eq, arith, Option-cases, Result-cases,
}
use wa_agent_pipeline.Base.Int.{ℤ}
use wa_agent_pipeline.Texts.{text}
use wa_agent_pipeline.Control.{Event, last_done}
use wa_agent_pipeline.Control.Dialing.{
  Link, Ended, print_human_event, final_of, at_end, ended, scan,
}

module _ (rfc3339 : ℤ → Text) (link : Link) where
  -- The lines are these events, in JSON.
  abbrev pub Decodes : List Text → List Event → Type 0
  Decodes lines evts = map link.decode lines ≡ map (λ evt. ok evt) evts

  abbrev pub IsFailure : Ended → Type 0
  IsFailure out = (out.code ≡ 1) × (e : Text) × (out.error ≡ some e)

  abbrev pub Same : Ended → Ended → Type 0
  Same a b = (a.code ≡ b.code) × (a.error ≡ b.error)

  -- What is left of the lines was decoded, and the last done event decides.
  abbrev pub Read : Option Event → List Text → Ended → Type 0
  Read final lines out =
      (evts : List Event) × Decodes lines evts
      × Same out (at_end rfc3339 link link.scan_error (last_done final evts) [])

  at_end-Same :
      (e : Option Text) (final : Option Event) (output : Text)
      → Same (at_end rfc3339 link e final output) (at_end rfc3339 link e final [])
  at_end-Same (some e) final output = (refl, refl)
  at_end-Same none none output = (refl, refl)
  at_end-Same none (some final) output = (refl, refl)

  Read-cons :
      (final : Option Event) (line : Text) (rest : List Text) (evt : Event) (out : Ended)
      → link.decode line ≡ ok evt
      → IsFailure out ⊎ Read (final_of rfc3339 link final evt) rest out
      → IsFailure out ⊎ Read final (line ∷ rest) out
  unfolding last_done
  Read-cons final line rest evt out e (inl f) = inl f
  Read-cons final line rest evt out e (inr (evts, d, s)) =
      inr (evt ∷ evts, ap (λ r. r ∷ map link.decode rest) e ∙ ap (λ t. ok evt ∷ t) d, s)

  -- One line of the loop.
  scan_bad :
      (human : Bool) (n : ℕ) (final : Option Event) (output line : Text) (rest : List Text)
      (e : Text)
      → link.decode line ≡ err e
      → scan rfc3339 link human n final output (line ∷ rest)
        ≡ ended rfc3339 link 1 (text "decode daemon event: " ++ e) output
  unfolding scan
  scan_bad human n final output line rest e bad = ground (arith, bad)

  scan_human :
      (n : ℕ) (final : Option Event) (output line : Text) (rest : List Text) (evt : Event)
      → link.decode line ≡ ok evt
      → scan rfc3339 link true n final output (line ∷ rest)
        ≡ scan rfc3339 link true n
            (final_of rfc3339 link final evt)
            (output ++ print_human_event rfc3339 evt)
            rest
  unfolding scan
  scan_human n final output line rest evt good = ground (arith, good)

  scan_unwritten :
      (n : ℕ) (final : Option Event) (output line : Text) (rest : List Text) (evt : Event)
      (e : Text)
      → link.decode line ≡ ok evt
      → link.write n ≡ some e
      → scan rfc3339 link false n final output (line ∷ rest) ≡ ended rfc3339 link 1 e output
  unfolding scan
  scan_unwritten n final output line rest evt e good bad = ground (arith, good, bad)

  scan_written :
      (n : ℕ) (final : Option Event) (output line : Text) (rest : List Text) (evt : Event)
      → link.decode line ≡ ok evt
      → link.write n ≡ none
      → scan rfc3339 link false n final output (line ∷ rest)
        ≡ scan rfc3339 link false
            (suc n)
            (final_of rfc3339 link final evt)
            (output ++ line ++ text "\n")
            rest
  unfolding scan
  scan_written n final output line rest evt good fine = ground (arith, good, fine)

  abbrev pub Fate : Option Event → List Text → Ended → Type 0
  Fate final lines out = IsFailure out ⊎ Read final lines out

  pub scan-Fate :
      (human : Bool) (n : ℕ) (final : Option Event) (output : Text) (lines : List Text)
      → Fate final lines (scan rfc3339 link human n final output lines)
  unfolding scan last_done
  scan-Fate human n final output [] = inr ([], refl, at_end-Same link.scan_error final output)
  scan-Fate true n final output (line ∷ rest) = elim (Result-cases (link.decode line)) [
    | inl (e, bad) ↦
        subst (Fate final (line ∷ rest)) (sym (scan_bad true n final output line rest e bad))
          (inl (refl, _, refl))
    | inr (evt, good) ↦
        subst (Fate final (line ∷ rest)) (sym (scan_human n final output line rest evt good)) (
          Read-cons final line rest evt
            (scan rfc3339 link true n (final_of rfc3339 link final evt)
              (output ++ print_human_event rfc3339 evt) rest)
            good
            (scan-Fate true n (final_of rfc3339 link final evt)
              (output ++ print_human_event rfc3339 evt) rest))
  ]
  scan-Fate false n final output (line ∷ rest) = elim (Result-cases (link.decode line)) [
    | inl (e, bad) ↦
        subst (Fate final (line ∷ rest)) (sym (scan_bad false n final output line rest e bad))
          (inl (refl, _, refl))
    | inr (evt, good) ↦ elim (Option-cases (link.write n)) [
      | inr (e, bad) ↦
          subst (Fate final (line ∷ rest))
            (sym (scan_unwritten n final output line rest evt e good bad)) (inl (refl, _, refl))
      | inl fine ↦
          subst (Fate final (line ∷ rest))
            (sym (scan_written n final output line rest evt good fine))
            (Read-cons final line rest evt
              (scan rfc3339 link false (suc n) (final_of rfc3339 link final evt)
                (output ++ line ++ text "\n") rest)
              good
              (scan-Fate false (suc n) (final_of rfc3339 link final evt)
                (output ++ line ++ text "\n") rest))
    ]
  ]

  -- Where the output takes every line and the events are decoded, the loop comes to its end.
  abbrev pub IsWritable : Bool → Type 0
  IsWritable human = (human ≡ true) ⊎ ((n : ℕ) → link.write n ≡ none)

  pub scan_read :
      (human : Bool) (n : ℕ) (final : Option Event) (output : Text) (lines : List Text)
      (evts : List Event)
      → IsWritable human
      → Decodes lines evts
      → Same
          (scan rfc3339 link human n final output lines)
          (at_end rfc3339 link link.scan_error (last_done final evts) [])
  unfolding scan last_done
  scan_read human n final output [] [] w d = at_end-Same link.scan_error final output
  scan_read human n final output [] (evt ∷ evts) w d = absurd (ground (arith, d))
  scan_read human n final output (line ∷ rest) [] w d = absurd (ground (arith, d))
  scan_read true n final output (line ∷ rest) (evt ∷ evts) w d =
      let good : link.decode line ≡ ok evt = ground (arith, d) in
      subst
        (λ out. Same out (
          at_end rfc3339 link link.scan_error (last_done (final_of rfc3339 link final evt) evts)
            []))
        (sym (scan_human n final output line rest evt good))
        (scan_read true n (final_of rfc3339 link final evt)
          (output ++ print_human_event rfc3339 evt) rest evts w (ground (arith, d)))
  scan_read false n final output (line ∷ rest) (evt ∷ evts) (inl e) d = absurd (ground (arith, e))
  scan_read false n final output (line ∷ rest) (evt ∷ evts) (inr w) d =
      let good : link.decode line ≡ ok evt = ground (arith, d) in
      subst
        (λ out. Same out (
          at_end rfc3339 link link.scan_error (last_done (final_of rfc3339 link final evt) evts)
            []))
        (sym (scan_written n final output line rest evt good (w n)))
        (scan_read false (suc n) (final_of rfc3339 link final evt) (output ++ line ++ text "\n")
          rest evts (inr w) (ground (arith, d)))
