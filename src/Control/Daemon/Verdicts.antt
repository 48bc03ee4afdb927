-- ===== src/Control/Daemon/Verdicts.antt =====
-- control.go: the verdict of the daemon's executor.
use mathlib.Core.Path.{subst}
use wa_agent_pipeline.Base.{
  ℕ, ◌+◌, ◌≤◌, Text, ◌≡◌, ◌≢◌, ◌⊎◌, inl, inr, Bool-cases, ==_iff, ◌==◌, if◌then◌else◌, refl, sym,
  ap, ◌∙◌, true, not, Option, none, some, List, [], Result, ok, err, arith, if_holds, text_eq,
}
use wa_agent_pipeline.Base.Int.{ℤ, pos, pos_part, ltb_ℤ, ◌<ℤ◌, ◌≤ℤ◌}
use wa_agent_pipeline.Texts.{text, trim_space}
use wa_agent_pipeline.Backfill
use wa_agent_pipeline.Backfill.{verdict}
use wa_agent_pipeline.Backfill.Requests.{
  Jid, Failure, envelope_unavailable, failed, RunResult, Outside, Progress,
}
use wa_agent_pipeline.Backfill.Requests.Rounds.{IsMetered}
use wa_agent_pipeline.Backfill.Requests.Limit.{Limited, run_processed_requests-Limited}
use wa_agent_pipeline.Backfill.Anchors.{AnchorError, Messages}
use wa_agent_pipeline.Backfill.Anchors.Found.{
  IsNamedAnchor, IsNewestAnchor, anchor_by_message_id-IsNamedAnchor, latest_anchor-IsNewestAnchor,
}
use wa_agent_pipeline.Backfill.Verdicts.{IsViable, IsViable-parts}
use wa_agent_pipeline.Control.{Request, Event, event_done, verdict_viable, done_event, Executed}
use wa_agent_pipeline.Control.Daemon.{
  verdict_for_result, anchor_error_text, Line, Daemon, Setup, emitting, run_request, resolve_anchor,
  not_run, finished, run_for, resolved, execute,
}

verdict_for_result-done :
    {T : Type 0} (result : RunResult T) (e : Option Failure)
    → (verdict_for_result result e).event ≡ event_done
unfolding verdict_for_result done_event
verdict_for_result-done result none = ground arith
verdict_for_result-done result (some envelope_unavailable) = refl
verdict_for_result-done result (some (failed e)) = refl

verdict_for_result-viable :
    {T : Type 0} (result : RunResult T) (e : Option Failure)
    → (verdict_for_result result e).verdict ≡ verdict_viable
    → (e ≡ none) × ((verdict result.summary).0 ≡ true)
unfolding verdict_for_result done_event
verdict_for_result-viable result none h = (refl, ground (arith, h))
verdict_for_result-viable result (some envelope_unavailable) h = absurd (ground (arith, h))
verdict_for_result-viable result (some (failed e)) h = absurd (ground (arith, h))

-- The time before which the request wants its anchor, if any.
abbrev IsBound : Request → Option ℤ → Type 0
IsBound req before =
    ((pos 0 <ℤ req.before_unix) × (before ≡ some req.before_unix))
    ⊎ ((req.before_unix ≤ℤ pos 0) × (before ≡ none))

-- The anchor is the message that the request names; where it names none, it is the newest message of
-- the chat, before the time that is asked for, if any.
pub data HasAnchor (db : Messages) (req : Request) (a : Backfill.Anchor) : Type 0 where
  given :
      req.anchor_msg_id ≢ []
      → IsNamedAnchor db req.chat_jid req.anchor_msg_id a
      → HasAnchor db req a
  latest :
      (before : Option ℤ)
      → req.anchor_msg_id ≡ []
      → IsBound req before
      → IsNewestAnchor db req.chat_jid before a
      → HasAnchor db req a

before-IsBound :
    (req : Request)
    → IsBound req (if ltb_ℤ (pos 0) req.before_unix then some req.before_unix else none)
before-IsBound req = elim (Bool-cases (ltb_ℤ (pos 0) req.before_unix)) [
  | inl later ↦ rw later (inl (ground (arith, later), refl))
  | inr absent ↦ rw absent (inr (ground (arith, absent), refl))
]

resolve_anchor-HasAnchor :
    (parse_jid : Text → Result Text Jid) (db_path : Text) (db : Messages) (req : Request)
    (a : Backfill.Anchor)
    → resolve_anchor parse_jid db_path db req ≡ ok a
    → HasAnchor db req a
unfolding resolve_anchor
resolve_anchor-HasAnchor parse_jid db_path db req a h =
    elim (Bool-cases (trim_space db_path == [])) [
      | inl missing ↦ absurd (ground (arith, rw missing at h))
      | inr set ↦ elim (Bool-cases (req.anchor_msg_id == [])) [
        | inr named ↦
            given (λ e. absurd (ground (arith, named, (==_iff req.anchor_msg_id []).1 e)))
              (anchor_by_message_id-IsNamedAnchor parse_jid db req.chat_jid req.anchor_msg_id a
                (rw (set, named) at h))
        | inl unnamed ↦
            let before = if ltb_ℤ (pos 0) req.before_unix then some req.before_unix else none in
            latest before ((==_iff req.anchor_msg_id []).0 unnamed) (before-IsBound req) (
              latest_anchor-IsNewestAnchor parse_jid db req.chat_jid before a
                (rw (set, unnamed) at h))
      ]
    ]

-- The run's calls, with the callbacks that emit, count as the calls of the world do.
emitting-IsMetered :
    {W T : Type 0} (sent requests : W → ℕ) (outside : Outside W T)
    (broken : Event → ℕ → Option Text)
    → IsMetered sent requests outside
    → IsMetered (λ (l : Line W). sent l.world) (λ l. requests l.world) (emitting broken outside)
emitting-IsMetered sent requests outside broken m = record {
  send_adds = λ a count l. m.send_adds a count l.world;
  now_keeps = λ l. m.now_keeps l.world;
  sleep_keeps = λ d l. m.sleep_keeps d l.world;
  request_sent_keeps = λ id a count l. (ground arith, ground arith);
  received_keeps = λ summary l. (ground arith, ground arith);
  ingested_keeps = λ stats l. (ground arith, ground arith);
}

module _ {W T D : Type 0} (outside : Outside W T) (broken : Event → ℕ → Option Text)
    (date : ℤ → ℤ × ℕ × ℕ) (age : T → ℤ → Option ℤ) (sort : List Text → List Text)
    (parse_jid : Text → Result Text Jid) (setup : Setup) (sent requests : W → ℕ) where
  -- What a viable verdict rests on: the anchor that the request wants, and a run from it that ended
  -- well and asked for as many messages as the limit says.
  pub record IsJustified (req : Request) (d : Daemon W D) (out : Executed (Daemon W D))
      : Type 0 where
    pub anchor : Backfill.Anchor
    pub progress : Progress (Line W) T D
    pub anchored : HasAnchor d.messages req anchor
    pub ran :
        run_for outside broken date age sort parse_jid setup req anchor d ≡ some (none, progress)
    pub summary : IsViable progress.result.summary
    pub requested : pos progress.result.requested ≡ req.limit
    pub sent_all : sent out.state.world ≡ sent d.world + pos_part req.limit
    pub emitted : out.emitted ≡ progress.world.events

  -- A done event, no more messages asked for than the limit, and where the verdict is VIABLE, why.
  pub record Decided (req : Request) (d : Daemon W D) (out : Executed (Daemon W D)) : Type 0 where
    pub done : out.done.event ≡ event_done
    pub no_error : out.error ≡ none
    pub at_most : sent out.state.world ≤ sent d.world + pos_part req.limit
    pub viable : out.done.verdict ≡ verdict_viable → IsJustified req d out

  not_run-Decided :
      (req : Request) (reason : Text) (d : Daemon W D)
      → Decided req d (not_run outside broken date age sort parse_jid setup reason d)
  unfolding done_event
  not_run-Decided req reason d = record {
    done = refl;
    no_error = refl;
    at_most = omega arith;
    viable = λ h. absurd (ground (arith, h));
  }

  finished-Decided :
      (req : Request) (anchor : Backfill.Anchor) (d : Daemon W D)
      (out : Option Failure × Progress (Line W) T D)
      → resolve_anchor parse_jid setup.db_path d.messages req ≡ ok anchor
      → run_for outside broken date age sort parse_jid setup req anchor d ≡ some out
      → Limited
          (λ (l : Line W). sent l.world)
          (λ l. requests l.world)
          req.limit
          (record { world = d.world; events = [] })
          out
      → Decided req d (finished outside broken date age sort parse_jid setup d (some out))
  finished-Decided req anchor d (e, p) resolves ran limited = record {
    done = verdict_for_result-done p.result e;
    no_error = refl;
    at_most = limited.sent_le;
    viable = λ h.
        let (well, summary) = verdict_for_result-viable p.result e h in
        record {
          anchor = anchor;
          progress = p;
          anchored =
              resolve_anchor-HasAnchor parse_jid setup.db_path d.messages req anchor resolves;
          ran = ran ∙ ap (λ x. some (x, p)) well;
          summary = IsViable-parts p.result.summary summary;
          requested = limited.finished well;
          sent_all = limited.sent_all well;
          emitted = refl;
        };
  }

  resolved-Decided :
      (metered : IsMetered sent requests outside) (req : Request) (d : Daemon W D)
      (r : Result AnchorError Backfill.Anchor)
      → resolve_anchor parse_jid setup.db_path d.messages req ≡ r
      → Decided req d (resolved outside broken date age sort parse_jid setup req d r)
  resolved-Decided metered req d (err e) resolves = not_run-Decided req (anchor_error_text e) d
  resolved-Decided metered req d (ok anchor) resolves =
      let (out, ran, limited) =
        run_processed_requests-Limited (λ (l : Line W). sent l.world) (λ l. requests l.world)
          (emitting broken outside) (emitting-IsMetered sent requests outside broken metered) date
          age sort parse_jid (run_request req anchor) (record { world = d.world; events = [] })
          d.received in
      subst (λ o. Decided req d (finished outside broken date age sort parse_jid setup d o))
        (sym ran) (finished-Decided req anchor d out resolves ran limited)

  -- The daemon's executor always returns a done event and no error. In a world that counts the
  -- messages asked for, whether the request succeeds or not, it asks for no more than the request's
  -- limit. Where its verdict is VIABLE, the anchor is that of the message that the request names, or,
  -- where it names none, that of the newest message of the chat, before the time that is asked for,
  -- if any; the run from it ended without an error and asked for as many messages as the limit; its
  -- summary has messages, media and messages of the anchor's day before the anchor; and the events
  -- before the done event are those of the run.
  pub execute-Decided :
      (metered : IsMetered sent requests outside) (req : Request) (d : Daemon W D)
      → Decided req d (execute outside broken date age sort parse_jid setup req d)
  unfolding execute
  execute-Decided metered req d =
      if_holds (Decided req d) (not setup.has_client) _ _
        (λ _. not_run-Decided req (text "daemon WhatsApp client is not ready") d)
        (λ _.
          if_holds (Decided req d) (not setup.has_channel) _ _
            (λ _. not_run-Decided req (text "daemon history-sync channel is not ready") d)
            (λ _.
              resolved-Decided metered req d (resolve_anchor parse_jid setup.db_path d.messages req)
                refl))
