-- ===== src/Tests/Requests.antt =====
-- The theorems on the requests of a backfill, at concrete inputs.
use wa_agent_pipeline.Base.{
  refl, err, ◌+◌, length, ◌*◌, ◌≤◌, ◌<◌, ℕ, suc, nat_eq, Text, ◌≡◌, true, false, none, some, Option,
  List, [], ◌∷◌, In, ok, Result, text_eq, arith,
}
use wa_agent_pipeline.Base.Int.{ℤ, pos, pos_part, ◌-ℤ◌, ◌+ℤ◌, wrap64}
use wa_agent_pipeline.Texts.{text}
use wa_agent_pipeline.Session.Message.{Body, plain}
use wa_agent_pipeline.Session.History.{WebMessage, Conversation, SyncData, no_stats}
use wa_agent_pipeline.Backfill.{Anchor}
use wa_agent_pipeline.Backfill.Summaries.{summarize_history_sync, valid_web_message}
use wa_agent_pipeline.Backfill.Summaries.Oldest.{
  Covered, IsReturned, AllUint64, summarize_history_sync-Covered,
}
use wa_agent_pipeline.Backfill.Summaries.Anchored.{Tallied}
use wa_agent_pipeline.Backfill.Requests.{
  Failure, Jid, Received, processed, Request, Outside, Progress, run_processed_requests,
}
use wa_agent_pipeline.Backfill.Requests.Rounds.{IsMetered}
use wa_agent_pipeline.Backfill.Requests.Limit.{Limited, run_processed_requests-Limited}
use wa_agent_pipeline.Session.Connection.{poll}
use wa_agent_pipeline.Backfill.Sending.{
  SendRetryOptions, normalize_send_retry_options, Poll, ready_loop, wait_for_peer_send_ready,
  Attempt, send_history_sync_request,
}
use wa_agent_pipeline.Backfill.Sending.Attempts.{
  Starts, Timed, Awaited, Sent, send_history_sync_request-Settled,
}
use wa_agent_pipeline.Writer.{MessageRow}
use wa_agent_pipeline.Backfill.Anchors.{Messages, latest_anchor}
use wa_agent_pipeline.Backfill.Anchors.Newest.{FindsOr, latest_anchor-FindsOr}
use wa_agent_pipeline.Control
use wa_agent_pipeline.Control.{Event}
use wa_agent_pipeline.Control.Daemon.{Daemon, Setup, execute}
use wa_agent_pipeline.Control.Daemon.Verdicts.{Decided, execute-Decided}
use wa_agent_pipeline.Tests.{family_jid}

-- A sync with one message of the family, and the anchor of a later one. Days have 100 seconds here.
abbrev old_body : Body Text
old_body = record {
  conversation = text "hello";
  extended_text = none;
  polls = plain [];
  poll_update = false;
  image = none;
  document = none;
  video = none;
  audio = none;
  ptv = none;
  sticker = none;
}

abbrev old_message : WebMessage Text
old_message = record {
  key =
      some (record { id = text "M0"; remote_jid = family_jid; participant = []; from_me = false });
  timestamp = 80;
  body = some old_body;
}

abbrev old_chat : Conversation Text
old_chat = record { id = family_jid; messages = some old_message ∷ [] }

abbrev answer : SyncData Text
answer = record {
  sync_type = text "ON_DEMAND";
  on_demand = true;
  conversations = some old_chat ∷ [];
}

abbrev anchor : Anchor
anchor = record {
  chat_jid = family_jid;
  msg_id = text "M1";
  sender_jid = [];
  timestamp = pos 90;
  from_me = true;
}

abbrev one_day : ℤ → ℤ × ℕ × ℕ
one_day _ = (pos 1970, 1, 1)

abbrev no_age : ℤ → Option ℤ
no_age _ = none

abbrev unsorted : List Text → List Text
unsorted jids = jids

answer_uint64 : AllUint64 answer.conversations
answer_uint64 = ((omega arith, tt), tt)

summarize_history_sync-Covered_example :
    let s = summarize_history_sync one_day no_age anchor family_jid unsorted (some answer) in
    ((conv : Conversation Text) (m : WebMessage Text)
      → In (some conv) answer.conversations
      → In (some m) conv.messages
      → valid_web_message m ≡ true
      → Covered one_day no_age anchor family_jid conv.id m s)
    × Tallied (IsReturned family_jid answer.conversations) s
summarize_history_sync-Covered_example =
    summarize_history_sync-Covered one_day no_age anchor family_jid unsorted answer answer_uint64

-- A world that counts the messages asked for and the requests; the daemon answers the first of two.
abbrev outside : Outside (ℕ × ℕ) ℕ
outside = record {
  send = λ a count n. (ok (text "S"), (n.0 + count, suc n.1));
  now = λ n. (100, n);
  sleep = λ d n. (none, n);
  on_request_sent = λ id a count n. (none, n);
  on_history_sync_received = λ s n. (none, n);
  on_history_sync_ingested = λ s n. (none, n);
}

abbrev messages_sent : ℕ × ℕ → ℕ
messages_sent n = n.0

abbrev requests_sent : ℕ × ℕ → ℕ
requests_sent n = n.1

outside-IsMetered : IsMetered messages_sent requests_sent outside
outside-IsMetered = record {
  send_adds = λ a count n. (refl, omega arith);
  now_keeps = λ n. (refl, refl);
  sleep_keeps = λ d n. (refl, refl);
  request_sent_keeps = λ id a count n. (refl, refl);
  received_keeps = λ s n. (refl, refl);
  ingested_keeps = λ s n. (refl, refl);
}

abbrev request : Request
request = record {
  chat_jid = family_jid;
  anchor = anchor;
  limit = pos 60;
  chunk_size = pos 0;
  backoff = pos 0;
}

abbrev group_jid : Text → Result Text Jid
group_jid t = ok (record { full = t; server = text "g.us" })

abbrev no_age_at : ℕ → ℤ → Option ℤ
no_age_at _ _ = none

abbrev arrived : List (Received Text)
arrived = processed (some answer) (no_stats (text "ON_DEMAND")) ∷ []

run_processed_requests-Limited_example :
    (out : Option Failure × Progress (ℕ × ℕ) ℕ Text) × (run_processed_requests outside one_day
        no_age_at unsorted group_jid request
        (0, 0)
        arrived
      ≡ some out)
    × Limited messages_sent requests_sent (pos 60) (0, 0) out
run_processed_requests-Limited_example =
    run_processed_requests-Limited messages_sent requests_sent outside outside-IsMetered one_day
      no_age_at unsorted group_jid request (0, 0) arrived

-- Three attempts: the first fails for a while, and the second is answered.
abbrev brief : SendRetryOptions
brief = record {
  ready_timeout = pos 2;
  stable_duration = pos 0;
  poll_interval = pos 1;
  initial_backoff = pos 1;
  max_backoff = pos 1;
}

abbrev ready_poll : Poll
ready_poll = record { now = pos 5; connected = true; logged_in = true; select = poll }

abbrev attempts : List Attempt
attempts =
    record {
      until = pos 2;
      polls = ready_poll ∷ [];
      sent = λ info count. err (record { message = text "not connected"; transient = true });
      until_after = pos 2;
      slept = none;
    }
    ∷ record {
      until = pos 1;
      polls = ready_poll ∷ [];
      sent = λ info count. ok (text "S");
      until_after = pos 1;
      slept = none;
    }
    ∷ record {
      until = pos 0;
      polls = ready_poll ∷ [];
      sent = λ info count. ok (text "T");
      until_after = pos 0;
      slept = none;
    }
    ∷ []

attempts_long : 2 < length attempts
attempts_long = omega arith

brief_enough :
    pos_part (normalize_send_retry_options brief).ready_timeout
    ≤ 2 * pos_part (normalize_send_retry_options brief).initial_backoff
unfolding normalize_send_retry_options
brief_enough = omega arith

attempts_start : Starts (normalize_send_retry_options brief).ready_timeout attempts
unfolding normalize_send_retry_options
attempts_start = omega arith

attempts-Timed :
    Timed
      (normalize_send_retry_options brief).max_backoff
      (normalize_send_retry_options brief).initial_backoff
      attempts
unfolding normalize_send_retry_options ◌-ℤ◌ ◌+ℤ◌ wrap64
attempts-Timed = (omega arith, omega arith, (omega arith, omega arith, (omega arith, tt, tt)))

attempts-Awaited : Awaited (normalize_send_retry_options brief) attempts
unfolding normalize_send_retry_options wait_for_peer_send_ready ready_loop
attempts-Awaited = (λ e. ground (arith, e), (λ e. ground (arith, e), (λ e. ground (arith, e), tt)))

send_history_sync_request-Settled_example :
    (r : Result Text Text) × (send_history_sync_request group_jid brief anchor (pos 60) attempts
      ≡ some r)
    × ((id : Text)
        → r ≡ ok id
        → Sent group_jid (normalize_send_retry_options brief) anchor (pos 60) attempts id)
send_history_sync_request-Settled_example =
    send_history_sync_request-Settled group_jid brief anchor (pos 60) attempts 2
      (omega arith, omega arith) (omega arith, omega arith) brief_enough attempts_long
      attempts_start attempts-Timed attempts-Awaited

-- Two stored messages, of which the later one is the anchor.
abbrev old_row : MessageRow
old_row = record {
  source_pk = pos 1;
  chat_jid = family_jid;
  chat_label = text "Family";
  msg_id = text "M0";
  sender_jid = none;
  sender_name = none;
  ts = pos 80;
  from_me = false;
  body = none;
  raw_type = 0;
  message_type = none;
  media_type = none;
  media_title = none;
  media_path = none;
  media_url = none;
  media_size = none;
  text_hash = [];
  ingested_at = pos 100;
  deleted_or_missing = false;
  media_local_path = none;
  media_extracted_text = none;
  media_extracted_by = none;
  media_hydrated_at = none;
  media_hydration_status = none;
  media_hydration_attempts = 0;
  media_surfaced_at = none;
}

abbrev new_row : MessageRow
new_row = record old_row { source_pk = pos 2; msg_id = text "M1"; ts = pos 90 }

abbrev stored : Messages
stored = record { rows = old_row ∷ new_row ∷ []; open_error = none; query_error = λ n. none }

latest_anchor-FindsOr_example :
    FindsOr group_jid false stored family_jid none
      (latest_anchor group_jid stored family_jid none false)
latest_anchor-FindsOr_example =
    latest_anchor-FindsOr group_jid stored family_jid none false refl (λ n. refl)

-- The daemon, asked for one message, with the answer on its way.
abbrev setup : Setup
setup = record { has_client = true; has_channel = true; db_path = text "wa.db" }

abbrev daemon : Daemon (ℕ × ℕ) Text
daemon = record { world = (0, 0); received = arrived; messages = stored }

abbrev backfill_request : Control.Request
backfill_request = record {
  op = text "backfill";
  chat_jid = family_jid;
  tenant = [];
  anchor_msg_id = [];
  before_unix = pos 0;
  limit = pos 1;
}

abbrev unbroken : Event → ℕ → Option Text
unbroken _ _ = none

execute-Decided_example :
    Decided outside unbroken one_day no_age_at unsorted group_jid setup messages_sent requests_sent
      backfill_request daemon
      (execute outside unbroken one_day no_age_at unsorted group_jid setup backfill_request daemon)
execute-Decided_example =
    execute-Decided outside unbroken one_day no_age_at unsorted group_jid setup messages_sent
      requests_sent outside-IsMetered backfill_request daemon
