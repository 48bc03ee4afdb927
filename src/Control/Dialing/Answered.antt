-- ===== src/Control/Dialing/Answered.antt =====
-- control.go: `RunBackfillClient` against `handleConn`: what the caller of the client learns.
use wa_agent_pipeline.Base.{
  ℕ, Text, ◌≡◌, ◌≢◌, inl, inr, ap, ◌∙◌, Bool, Option, none, List, ◌∷◌, [], ◌++◌, arith, Bool-cases,
  ok, ==_iff, ◌==◌, text_eq,
}
use wa_agent_pipeline.Base.Int.{ℤ}
use wa_agent_pipeline.Config.Manager.{Manager}
use wa_agent_pipeline.Control.{
  Request, Event, Executor, Answer, replied, event_done, verdict_viable, verdict_unavailable,
  handle_conn, exit_code_for_verdict, last_done,
}
use wa_agent_pipeline.Control.Client.{client_request, IsExecutor, Concludes, handle_conn-Concludes}
use wa_agent_pipeline.Control.Dialing.{Link, Ended, at_end, run_backfill_client}
use wa_agent_pipeline.Control.Dialing.Scan.{Decodes, IsWritable, scan_read}
use wa_agent_pipeline.Control.Dialing.Results.{run_sent}

-- The exit code that the verdict calls for.
pub data CallsFor (verdict : Text) (code : ℕ) : Type 0 where
  viable_code : verdict ≡ verdict_viable → code ≡ 0 → CallsFor verdict code
  unavailable_code : verdict ≡ verdict_unavailable → code ≡ 2 → CallsFor verdict code
  other_code :
      verdict ≢ verdict_viable → verdict ≢ verdict_unavailable → code ≡ 1 → CallsFor verdict code

exit_code_for_verdict-CallsFor : (verdict : Text) → CallsFor verdict (exit_code_for_verdict verdict)
unfolding exit_code_for_verdict
exit_code_for_verdict-CallsFor verdict = elim (Bool-cases (verdict == verdict_viable)) [
  | inl viable ↦ viable_code ((==_iff verdict verdict_viable).0 viable) (ground (arith, viable))
  | inr unviable ↦ elim (Bool-cases (verdict == verdict_unavailable)) [
    | inl gone ↦
        unavailable_code ((==_iff verdict verdict_unavailable).0 gone)
          (ground (arith, unviable, gone))
    | inr failed ↦
        other_code (λ e. absurd (ground (arith, unviable, (==_iff verdict verdict_viable).1 e)))
          (λ e. absurd (ground (arith, failed, (==_iff verdict verdict_unavailable).1 e)))
          (ground (arith, unviable, failed))
  ]
]

module _ (rfc3339 : ℤ → Text) (link : Link) where
  -- The connection delivers the answer of a daemon: it is reached, takes the request and is read to
  -- its end, and its lines are the events of the answer.
  pub record Delivers (socket : Text) (r : Request) (answer : Answer) : Type 0 where
    pub dialed : link.dial socket ≡ none
    pub sent : link.send (client_request r) ≡ none
    pub scanned : link.scan_error ≡ none
    pub decoded :
        (evts : List Event)
        → answer ≡ replied evts
        → Decodes rfc3339 link (link.lines (client_request r)) evts

  answered_by :
      (socket : Text) (human : Bool) (r : Request) (answer : Answer)
      → IsWritable rfc3339 link human
      → Delivers socket r answer
      → (c : Concludes answer)
      → ((run_backfill_client rfc3339 link socket human r).code
          ≡ exit_code_for_verdict c.final.verdict)
        × ((run_backfill_client rfc3339 link socket human r).error ≡ none)
  answered_by socket human r answer w d c =
      let evts = c.events ++ c.final ∷ [] in
      let (code, error) =
        scan_read rfc3339 link human 0 none [] (link.lines (client_request r)) evts w
          (d.decoded evts c.answered) in
      let run = run_sent rfc3339 link socket human r d.dialed d.sent in
      (
        ap (λ (out : Ended). out.code) run
            ∙ code
            ∙ ap (λ e. (at_end rfc3339 link e (last_done none evts) []).code) d.scanned
            ∙ ap (λ final. (at_end rfc3339 link none final []).code) c.last,
        ap (λ (out : Ended). out.error) run
            ∙ error
            ∙ ap (λ e. (at_end rfc3339 link e (last_done none evts) []).error) d.scanned
            ∙ ap (λ final. (at_end rfc3339 link none final []).error) c.last,
      )

  -- Against a daemon whose executor returns a done event or none, where the connection delivers the
  -- daemon's answer and the output takes every line, or the client prints for a reader, the client
  -- of a backfill is never left without a done event: the answer is a list of events that ends with
  -- one, and the client ends without an error and with the code of its verdict: 0 for VIABLE, 2 for
  -- UNAVAILABLE and 1 for any other.
  pub run_backfill_client-handle_conn :
      {S : Type 0}
      → (quote : Text → Text) (executor : Executor S) (config : Option Manager) (socket : Text)
        (human : Bool) (r : Request) (s : S)
      → IsExecutor executor
      → IsWritable rfc3339 link human
      → Delivers socket r (handle_conn quote executor config (ok (client_request r)) s).0
      → (evts : List Event) × (final : Event) × ((handle_conn quote executor config
            (ok (client_request r))
            s).0
          ≡ replied (evts ++ final ∷ []))
        × (final.event ≡ event_done)
        × CallsFor final.verdict (run_backfill_client rfc3339 link socket human r).code
        × ((run_backfill_client rfc3339 link socket human r).error ≡ none)
  run_backfill_client-handle_conn quote executor config socket human r s v w d =
      let c = handle_conn-Concludes quote executor config r s v in
      let (code, error) = answered_by socket human r _ w d c in
      (
        c.events,
        c.final,
        c.answered,
        c.done,
        rw code (exit_code_for_verdict-CallsFor c.final.verdict),
        error,
      )
