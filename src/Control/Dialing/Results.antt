-- ===== src/Control/Dialing/Results.antt =====
-- control.go: when the client of a backfill exits with 0.
use mathlib.Core.Path.{subst}
use wa_agent_pipeline.Base.{
  ◌≤◌, Text, ◌≡◌, ◌⊎◌, inl, inr, ◌↔◌, refl, sym, ap, ◌∙◌, Bool, Option, none, some, List, [], ◌++◌,
  ==_iff, text_eq, arith, Option-cases,
}
use wa_agent_pipeline.Base.Int.{ℤ}
use wa_agent_pipeline.Texts.{text}
use wa_agent_pipeline.Control.{Request, Event, verdict_viable, exit_code_for_verdict, last_done}
use wa_agent_pipeline.Control.Client.{client_request}
use wa_agent_pipeline.Control.Dialing.{Link, Ended, at_end, ended, scan, run_backfill_client}
use wa_agent_pipeline.Control.Dialing.Scan.{
  Decodes, IsFailure, Read, IsWritable, scan-Fate, scan_read,
}

module _ (rfc3339 : ℤ → Text) (link : Link) where
  at_end_zero :
      (e : Option Text) (final : Option Event)
      → (at_end rfc3339 link e final []).code ≡ 0
      → (done : Event) × (e ≡ none) × (final ≡ some done) × (done.verdict ≡ verdict_viable)
  unfolding exit_code_for_verdict
  at_end_zero (some e) final h = absurd (omega (arith, h))
  at_end_zero none none h = absurd (omega (arith, h))
  at_end_zero none (some done) h =
      (done, refl, refl, ground (arith, h, ==_iff done.verdict verdict_viable))

  at_end_codes :
      (e : Option Text) (final : Option Event)
      → ((at_end rfc3339 link e final []).code ≤ 2)
        × ((at_end rfc3339 link e final []).code ≡ 0
            → (at_end rfc3339 link e final []).error ≡ none)
  unfolding exit_code_for_verdict
  at_end_codes (some e) final = (omega arith, λ h. absurd (omega (arith, h)))
  at_end_codes none none = (omega arith, λ h. absurd (omega (arith, h)))
  at_end_codes none (some final) = (ground arith, λ h. refl)

  viable_code : (verdict : Text) → verdict ≡ verdict_viable → exit_code_for_verdict verdict ≡ 0
  unfolding exit_code_for_verdict
  viable_code verdict e = ground (arith, (==_iff verdict verdict_viable).1 e)

  -- The daemon was reached and answered the request with events of which the last done event says
  -- VIABLE, and the connection was read to its end.
  abbrev pub IsViable : Text → Request → Type 0
  IsViable socket r =
      (link.dial socket ≡ none)
      × (link.send (client_request r) ≡ none)
      × (link.scan_error ≡ none)
      × (evts : List Event) × (done : Event) × Decodes rfc3339 link (link.lines (client_request r))
          evts
      × (last_done none evts ≡ some done)
      × (done.verdict ≡ verdict_viable)

  pub run_sent :
      (socket : Text) (human : Bool) (r : Request)
      → link.dial socket ≡ none
      → link.send (client_request r) ≡ none
      → run_backfill_client rfc3339 link socket human r
        ≡ scan rfc3339 link human 0 none [] (link.lines (client_request r))
  unfolding run_backfill_client
  run_sent socket human r dialed sent = ground (arith, dialed, sent)

  run_undialed :
      (socket : Text) (human : Bool) (r : Request) (e : Text)
      → link.dial socket ≡ some e
      → run_backfill_client rfc3339 link socket human r
        ≡ ended rfc3339 link 1
            (text "daemon not running or control socket unavailable at "
              ++ socket
              ++ text ": "
              ++ e)
            []
  unfolding run_backfill_client
  run_undialed socket human r e bad = ground (arith, bad)

  run_unsent :
      (socket : Text) (human : Bool) (r : Request) (e : Text)
      → link.dial socket ≡ none
      → link.send (client_request r) ≡ some e
      → run_backfill_client rfc3339 link socket human r ≡ ended rfc3339 link 1 e []
  unfolding run_backfill_client
  run_unsent socket human r e dialed bad = ground (arith, dialed, bad)

  -- How a run ends.
  abbrev End : Text → Request → Ended → Type 0
  End socket r out =
      IsFailure rfc3339 link out
      ⊎ ((link.dial socket ≡ none)
          × (link.send (client_request r) ≡ none)
          × Read rfc3339 link none (link.lines (client_request r)) out)

  run-End :
      (socket : Text) (human : Bool) (r : Request)
      → End socket r (run_backfill_client rfc3339 link socket human r)
  run-End socket human r = elim (Option-cases (link.dial socket)) [
    | inr (e, bad) ↦
        subst (End socket r) (sym (run_undialed socket human r e bad)) (inl (refl, _, refl))
    | inl dialed ↦ elim (Option-cases (link.send (client_request r))) [
      | inr (e, bad) ↦
          subst (End socket r) (sym (run_unsent socket human r e dialed bad)) (inl (refl, _, refl))
      | inl sent ↦
          subst (End socket r) (sym (run_sent socket human r dialed sent))
            (elim (scan-Fate rfc3339 link human 0 none [] (link.lines (client_request r))) [
              | inl f ↦ inl f
              | inr read ↦ inr (dialed, sent, read)
            ])
    ]
  ]

  -- The client exits with 0 exactly where the daemon was reached, the request sent, every line
  -- decoded and read, and the last done event says VIABLE; where it prints JSON, the output takes
  -- every line.
  pub run_backfill_client_iff :
      (socket : Text) (human : Bool) (r : Request)
      → IsWritable rfc3339 link human
      → ((run_backfill_client rfc3339 link socket human r).code ≡ 0) ↔ IsViable socket r
  run_backfill_client_iff socket human r w = (
    λ h. elim (run-End socket human r) [
      | inl (one, _, _) ↦ absurd (omega (arith, h, one))
      | inr (dialed, sent, (evts, d, same)) ↦
          let (done, scanned, last, viable) =
            at_end_zero link.scan_error (last_done none evts) (sym same.0 ∙ h) in
          (dialed, sent, scanned, evts, done, d, last, viable)
    ],
    λ (dialed, sent, scanned, evts, done, d, last, viable).
        let read =
          scan_read rfc3339 link human 0 none [] (link.lines (client_request r)) evts w d in
        ap (λ (out : Ended). out.code) (run_sent socket human r dialed sent)
        ∙ read.0
        ∙ ap (λ e. (at_end rfc3339 link e (last_done none evts) []).code) scanned
        ∙ ap (λ final. (at_end rfc3339 link none final []).code) last
        ∙ viable_code done.verdict viable,
  )

  -- The codes of the client: 0, 1 or 2, and no error where it is 0.
  pub run_backfill_client-codes :
      (socket : Text) (human : Bool) (r : Request)
      → let out = run_backfill_client rfc3339 link socket human r in
        (out.code ≤ 2) × (out.code ≡ 0 → out.error ≡ none)
  unfolding exit_code_for_verdict
  run_backfill_client-codes socket human r = elim (run-End socket human r) [
    | inl (one, _, _) ↦ (omega (arith, one), λ h. absurd (omega (arith, h, one)))
    | inr (dialed, sent, (evts, d, (code, error))) ↦
        let (small, clean) = at_end_codes link.scan_error (last_done none evts) in
        (rw code small, λ h. error ∙ clean (sym code ∙ h))
  ]
