-- ===== src/Control.antt =====
-- whatsapp-daemon/internal/control/control.go: requests and events of the control socket, the
-- server's handling of one connection, and the exit code of the client. Sockets and the JSON
-- coding are the library's: a connection is the request as it was decoded, or the decoding error,
-- and the list of the events that are encoded to it.
pub mod Dialing
pub mod Socket
pub mod Requests
pub mod Gate
pub mod Client
pub mod Changes
pub mod Daemon
use wa_agent_pipeline.Base.{
  ℕ, Text, Bool, true, false, not, ◌&&◌, ◌||◌, Option, none, some, List, [], ◌∷◌, ◌++◌, Result, ok,
  err, ◌==◌, text_eq, nat_eq, length, if◌then◌else◌,
}
use wa_agent_pipeline.Base.Int.{ℤ, pos, leb_ℤ, ltb_ℤ}
use wa_agent_pipeline.Texts.{text, trim_space}
use wa_agent_pipeline.Config.{Group, has_tenant}
use wa_agent_pipeline.Config.Manager.{Manager, group}

pub record Request : Type 0 where
  pub op : Text
  pub chat_jid : Text
  pub tenant : Text
  pub anchor_msg_id : Text
  pub before_unix : ℤ
  pub limit : ℤ

-- `Anchor`, on the wire.
pub record Anchor : Type 0 where
  pub chat_jid : Text
  pub msg_id : Text
  pub sender_jid : Text
  pub timestamp : ℤ
  pub from_me : Bool

pub record Event : Type 0 where
  pub event : Text
  pub send_id : Text
  pub anchor : Option Anchor
  pub requested : ℕ
  pub messages : ℕ
  pub media_envelopes : ℕ
  pub chats : List Text
  pub rows_inserted : ℕ
  pub rows_updated : ℕ
  pub media_hydrated : ℕ
  pub verdict : Text
  pub reason : Text

-- `Event{}`
abbrev pub no_event : Event
no_event = record {
  event = [];
  send_id = [];
  anchor = none;
  requested = 0;
  messages = 0;
  media_envelopes = 0;
  chats = [];
  rows_inserted = 0;
  rows_updated = 0;
  media_hydrated = 0;
  verdict = [];
  reason = [];
}

abbrev pub op_backfill : Text
op_backfill = text "backfill"

abbrev pub op_watch : Text
op_watch = text "watch_ingest"

abbrev pub event_done : Text
event_done = text "done"

abbrev pub verdict_viable : Text
verdict_viable = text "VIABLE"

abbrev pub verdict_unavailable : Text
verdict_unavailable = text "UNAVAILABLE"

abbrev pub verdict_error : Text
verdict_error = text "ERROR"

-- `backfill.DefaultChunkSize`
abbrev pub default_chunk_size : ℤ
default_chunk_size = pos 50

unfoldable pub done_event : Text → Text → Event
done_event verdict reason = record (no_event) {
  event = event_done;
  verdict = verdict;
  reason = reason;
}

abbrev cap_limit : ℤ → ℤ
cap_limit limit =
    let positive = if leb_ℤ limit (pos 0) then default_chunk_size else limit in
    if ltb_ℤ default_chunk_size positive then default_chunk_size else positive

unfoldable pub normalize_request : Request → Request
normalize_request req = record req {
  op = trim_space req.op;
  chat_jid = trim_space req.chat_jid;
  tenant = trim_space req.tenant;
  anchor_msg_id = trim_space req.anchor_msg_id;
  limit = cap_limit req.limit;
}

-- What `Executor.Execute` does: the events that it emits, the event and the error that it returns,
-- and the state of all that it acts on.
pub record Executed (S : Type 0) : Type 0 where
  pub emitted : List Event
  pub done : Event
  pub error : Option Text
  pub state : S

pub record Executor (S : Type 0) : Type 0 where
  pub execute : Request → S → Executed S

-- How the server answers: with events, after which it closes the connection, or by a subscription.
pub data Answer : Type 0 where
  replied : List Event → Answer
  watching : Request → Answer

abbrev pub refuse : Text → Answer
refuse reason = replied (done_event verdict_error reason ∷ [])

abbrev verdict_or : Option Text → Event → Event
verdict_or none done = done
verdict_or (some e) done = if done.event == [] then done_event verdict_error e else done

-- The last event of a backfill: `handleConn` makes up a verdict where the executor gives none.
unfoldable pub final_event : Option Text → Event → Event
final_event error done =
    let known = verdict_or error done in
    if known.event == []
    then done_event verdict_error (text "backfill executor returned no verdict")
    else known

abbrev exact_tenant : Group → Text → Bool
exact_tenant g tenant = not (tenant == []) && length g.tenants == 1 && has_tenant g tenant

abbrev pub group_in : Option Manager → Text → Option Group
group_in none jid = none
group_in (some m) jid = group m jid

module _ {S : Type 0} (quote : Text → Text) (executor : Executor S) where
  abbrev pub run_backfill : Request → S → Answer × S
  run_backfill req s =
      let ran = executor.execute req s in
      (replied (ran.emitted ++ final_event ran.error ran.done ∷ []), ran.state)

  -- The part of `handleConn` for a chat of the allowlist.
  unfoldable pub handle_listed : Group → Request → S → Answer × S
  unfolding final_event
  handle_listed g req s =
      let backfilled = run_backfill req s in
      if not (req.tenant == []) && not (has_tenant g req.tenant)
      then (refuse (text "jid_not_owned_by_tenant"), s)
      else if req.op == op_watch
      then (if exact_tenant g req.tenant
          then (watching req, s)
          else (refuse (text "change subscription requires an exact single-tenant chat"), s))
      else backfilled

  abbrev pub handle_chat : Option Group → Request → S → Answer × S
  handle_chat none req s = (refuse (text "chat_jid is not in the WhatsApp allowlist"), s)
  handle_chat (some g) req s = handle_listed g req s

  -- `quote` is the verb %q of package `fmt`.
  unfoldable pub handle_request : Option Manager → Request → S → Answer × S
  unfolding handle_listed
  handle_request config req s =
      let served = handle_chat (group_in config req.chat_jid) req s in
      if not (req.op == op_backfill) && not (req.op == op_watch)
      then (refuse (text "unsupported op " ++ quote req.op), s)
      else if req.chat_jid == []
      then (refuse (text "backfill requires chat_jid"), s)
      else served

  -- `handleConn`
  unfoldable pub handle_conn : Option Manager → Result Text Request → S → Answer × S
  unfolding handle_request normalize_request
  handle_conn config (err e) s = (refuse (text "decode request: " ++ e), s)
  handle_conn config (ok req) s = handle_request config (normalize_request req) s

unfoldable pub exit_code_for_verdict : Text → ℕ
exit_code_for_verdict verdict =
    if verdict == verdict_viable then 0 else if verdict == verdict_unavailable then 2 else 1

-- The loop of `RunBackfillClient` over the events that arrive: the last `done` event.
unfoldable pub last_done : Option Event → List Event → Option Event
last_done final [] = final
last_done final (evt ∷ rest) = last_done (if evt.event == event_done then some evt else final) rest
