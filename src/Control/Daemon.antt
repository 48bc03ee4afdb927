-- ===== src/Control/Daemon.antt =====
-- control.go: `DaemonBackfillExecutor`, the executor of the daemon, over the requests of backfill.go.
pub mod Verdicts
use wa_agent_pipeline.Base.{
  ℕ, Text, Bool, true, false, not, Option, none, some, List, [], ◌∷◌, ◌++◌, Result, ok, err, length,
  ◌==◌, text_eq, if◌then◌else◌,
}
use wa_agent_pipeline.Base.Int.{ℤ, pos, ltb_ℤ}
use wa_agent_pipeline.Texts.{text, trim_space}
use wa_agent_pipeline.Session.History.{Stats}
use wa_agent_pipeline.Backfill
use wa_agent_pipeline.Backfill.{Summary, verdict}
use wa_agent_pipeline.Backfill.Requests
use wa_agent_pipeline.Backfill.Requests.{
  Jid, Received, Failure, envelope_unavailable, failed, failure_text, RunResult, Outside, Progress,
  run_processed_requests,
}
use wa_agent_pipeline.Backfill.Anchors.{
  Messages, AnchorError, anchor_not_found, other, latest_anchor, anchor_by_message_id,
}
use wa_agent_pipeline.Control.{
  Request, Anchor, Event, no_event, verdict_viable, verdict_unavailable, verdict_error, done_event,
  Executed, Executor,
}

-- `anchorToWire`
unfoldable pub anchor_to_wire : Backfill.Anchor → Anchor
anchor_to_wire a = record {
  chat_jid = a.chat_jid;
  msg_id = a.msg_id;
  sender_jid = a.sender_jid;
  timestamp = a.timestamp;
  from_me = a.from_me;
}

-- The events of the three callbacks.
unfoldable pub request_sent_event : Text → Backfill.Anchor → ℕ → Event
unfolding anchor_to_wire
request_sent_event send_id anchor count = record (no_event) {
  event = text "request_sent";
  send_id = send_id;
  anchor = some (anchor_to_wire anchor);
  requested = count;
}

unfoldable pub received_event : Summary → Event
received_event summary = record (no_event) {
  event = text "history_sync_received";
  messages = summary.messages;
  media_envelopes = summary.media_envelopes;
  chats = summary.chat_jids;
}

unfoldable pub ingested_event : Stats → Event
ingested_event stats = record (no_event) {
  event = text "ingested";
  rows_inserted = stats.rows_inserted;
  rows_updated = stats.rows_updated;
  media_hydrated = stats.media_hydrated;
}

abbrev anchor_error_text : AnchorError → Text
anchor_error_text anchor_not_found = text "no local anchor message found"
anchor_error_text (other e) = e

abbrev of_summary : Bool × Text → Event
of_summary (viable, reason) =
    if viable then done_event verdict_viable reason else done_event verdict_unavailable reason

-- `verdictForResult`
unfoldable pub verdict_for_result : {T : Type 0} → RunResult T → Option Failure → Event
unfolding done_event verdict
verdict_for_result result (some envelope_unavailable) =
    done_event verdict_unavailable (failure_text envelope_unavailable)
verdict_for_result result (some (failed e)) = done_event verdict_error e
verdict_for_result result none = of_summary (verdict result.summary)

-- The world of a run with the events that it has encoded; the encoder fails where `broken` says so.
pub record Line (W : Type 0) : Type 0 where
  pub world : W
  pub events : List Event

-- What the executor acts on: the world, the history syncs that are still to be received, and the
-- stored messages.
pub record Daemon (W D : Type 0) : Type 0 where
  pub world : W
  pub received : List (Received D)
  pub messages : Messages

-- What the executor is given: whether the client and the channel are there, and the path of the
-- database.
pub record Setup : Type 0 where
  pub has_client : Bool
  pub has_channel : Bool
  pub db_path : Text

module _ {W : Type 0} (broken : Event → ℕ → Option Text) where
  -- `emit`
  abbrev emit : Event → Line W → Option Text × Line W
  emit evt l = elim (broken evt (length l.events)) [
    | some e ↦ (some e, l)
    | none ↦ (none, record l { events = l.events ++ evt ∷ [] })
  ]

  abbrev on_line : {A : Type 0} → Line W → A × W → A × Line W
  on_line l (a, w) = (a, record l { world = w })

  -- The calls of the run, with the callbacks that emit an event.
  abbrev pub emitting : {T : Type 0} → Outside W T → Outside (Line W) T
  emitting outside = record {
    send = λ a count l. on_line l (outside.send a count l.world);
    now = λ l. on_line l (outside.now l.world);
    sleep = λ d l. on_line l (outside.sleep d l.world);
    on_request_sent = λ send_id a count l. emit (request_sent_event send_id a count) l;
    on_history_sync_received = λ summary l. emit (received_event summary) l;
    on_history_sync_ingested = λ stats l. emit (ingested_event stats) l;
  }

-- The request of a run; a chunk has 50 messages, and the backoff is the default one.
abbrev pub run_request : Request → Backfill.Anchor → Requests.Request
run_request req anchor = record {
  chat_jid = req.chat_jid;
  anchor = anchor;
  limit = req.limit;
  chunk_size = pos 50;
  backoff = pos 0;
}

-- `resolveAnchor`
unfoldable pub resolve_anchor :
    (Text → Result Text Jid) → Text → Messages → Request → Result AnchorError Backfill.Anchor
unfolding latest_anchor anchor_by_message_id
resolve_anchor parse_jid db_path messages req =
    let before = if ltb_ℤ (pos 0) req.before_unix then some req.before_unix else none in
    if trim_space db_path == []
    then err (other (text "missing message database path"))
    else if not (req.anchor_msg_id == [])
    then anchor_by_message_id parse_jid messages req.chat_jid req.anchor_msg_id
    else latest_anchor parse_jid messages req.chat_jid before false

module _ {W T D : Type 0} (outside : Outside W T) (broken : Event → ℕ → Option Text)
    (date : ℤ → ℤ × ℕ × ℕ) (age : T → ℤ → Option ℤ) (sort : List Text → List Text)
    (parse_jid : Text → Result Text Jid) (setup : Setup) where
  abbrev not_run : Text → Daemon W D → Executed (Daemon W D)
  not_run reason d = record {
    emitted = [];
    done = done_event verdict_error reason;
    error = none;
    state = d;
  }

  -- What the executor does after the run; one that does not end has no event.
  abbrev finished :
      Daemon W D → Option (Option Failure × Progress (Line W) T D) → Executed (Daemon W D)
  finished d none = record { emitted = []; done = no_event; error = none; state = d }
  finished d (some (e, p)) = record {
    emitted = p.world.events;
    done = verdict_for_result p.result e;
    error = none;
    state = record d { world = p.world.world; received = p.received };
  }

  abbrev pub run_for :
      Request → Backfill.Anchor → Daemon W D → Option (Option Failure × Progress (Line W) T D)
  run_for req anchor d =
      run_processed_requests (emitting broken outside) date age sort parse_jid
        (run_request req anchor) (record { world = d.world; events = [] }) d.received

  abbrev resolved :
      Request → Daemon W D → Result AnchorError Backfill.Anchor → Executed (Daemon W D)
  resolved req d (err e) = not_run (anchor_error_text e) d
  resolved req d (ok anchor) = finished d (run_for req anchor d)

  -- `Execute`
  unfoldable pub execute : Request → Daemon W D → Executed (Daemon W D)
  unfolding verdict_for_result run_processed_requests resolve_anchor done_event request_sent_event
      received_event ingested_event
  execute req d =
      if not setup.has_client
      then not_run (text "daemon WhatsApp client is not ready") d
      else if not setup.has_channel
      then not_run (text "daemon history-sync channel is not ready") d
      else resolved req d (resolve_anchor parse_jid setup.db_path d.messages req)

  abbrev pub daemon_executor : Executor (Daemon W D)
  daemon_executor = record { execute = execute }
