-- ===== src/Backfill/Requests.antt =====
-- backfill.go: `RunProcessedRequests`, which asks for the messages before an anchor, chunk by chunk,
-- and waits for the answer to each request.
pub mod Rounds
pub mod Limit
use wa_agent_pipeline.Base.{
  ℕ, zero, suc, ◌+◌, ◌-◌, Text, Bool, true, false, not, ◌&&◌, ◌||◌, Option, none, some, List, [],
  ◌∷◌, ◌++◌, Result, ok, err, ltb, ◌==◌, nat_eq, text_eq, if◌then◌else◌,
}
use wa_agent_pipeline.Base.Int.{ℤ, pos, ltb_ℤ, leb_ℤ, pos_part, int_eq}
use wa_agent_pipeline.Texts.{text, trim_space}
use wa_agent_pipeline.Session.History.{Conversation, HistorySync, Stats, no_stats, is_on_demand}
use wa_agent_pipeline.Backfill.{Anchor, Summary, merge_summaries}
use wa_agent_pipeline.Backfill.Summaries.{no_anchor, no_summary, summarize_history_sync}

-- A JID of whatsmeow, as far as it is looked at.
pub record Jid : Type 0 where
  pub full : Text
  pub server : Text

abbrev empty_jid : Jid
empty_jid = record { full = []; server = [] }

-- `types.MessageInfo`
pub record MessageInfo : Type 0 where
  pub chat : Jid
  pub sender : Jid
  pub from_me : Bool
  pub is_group : Bool
  pub id : Text
  pub timestamp : ℤ

abbrev prefixed : {A : Type 0} → Text → Result Text A → Result Text A
prefixed context (ok a) = ok a
prefixed context (err e) = err (context ++ e)

module _ (parse_jid : Text → Result Text Jid) where
  abbrev sender_info : Anchor → Jid → Result Text Jid → Result Text MessageInfo
  sender_info a chat (err e) = err (text "parse anchor sender jid: " ++ e)
  sender_info a chat (ok sender) = ok (record {
    chat = chat;
    sender = sender;
    from_me = a.from_me;
    is_group = chat.server == text "g.us";
    id = a.msg_id;
    timestamp = a.timestamp;
  })

  abbrev chat_info : Anchor → Result Text Jid → Result Text MessageInfo
  chat_info a (err e) = err (text "parse anchor chat jid: " ++ e)
  chat_info a (ok chat) =
      sender_info a chat
        (if trim_space a.sender_jid == [] then ok empty_jid else parse_jid a.sender_jid)

  -- `Anchor.MessageInfo`
  unfoldable pub message_info : Anchor → Result Text MessageInfo
  message_info a =
      if (trim_space a.chat_jid == []) || (trim_space a.msg_id == []) || (a.timestamp == pos 0)
      then err (text "anchor missing chat_jid, msg_id, or timestamp")
      else chat_info a (parse_jid a.chat_jid)

-- `MergeStats`
unfoldable pub merge_stats : Stats → Stats → Stats
merge_stats a b = record {
  sync_type = if a.sync_type == [] then b.sync_type else a.sync_type;
  conversations = a.conversations + b.conversations;
  allowed_conversations = a.allowed_conversations + b.allowed_conversations;
  messages = a.messages + b.messages;
  dispatched = a.dispatched + b.dispatched;
  rows_inserted = a.rows_inserted + b.rows_inserted;
  rows_updated = a.rows_updated + b.rows_updated;
  media_hydrated = a.media_hydrated + b.media_hydrated;
  skipped_conversations = a.skipped_conversations + b.skipped_conversations;
  skipped_messages = a.skipped_messages + b.skipped_messages;
  parse_errors = a.parse_errors + b.parse_errors;
}

-- What the select of `WaitForProcessedOnDemand` yields; `closed` is the channel closed.
pub data Received (D : Type 0) : Type 0 where
  cancelled : Text → Received D
  expired closed : Received D
  processed : HistorySync D → Stats → Received D

-- An error, and whether it is `ErrEnvelopeUnavailable`.
pub data Failure : Type 0 where
  envelope_unavailable : Failure
  failed : Text → Failure

-- `err.Error()`
abbrev pub failure_text : Failure → Text
failure_text envelope_unavailable =
    text "envelope not available - server-side retention may have pruned it"
failure_text (failed e) = e

module _ {D : Type 0} where
  abbrev has_conversation : Text → List (Option (Conversation D)) → Bool
  has_conversation chat_jid [] = false
  has_conversation chat_jid (none ∷ convs) = has_conversation chat_jid convs
  has_conversation chat_jid (some conv ∷ convs) =
      (conv.id == chat_jid) || has_conversation chat_jid convs

  -- `historySyncHasConversation`
  unfoldable pub history_sync_has_conversation : HistorySync D → Text → Bool
  history_sync_has_conversation none chat_jid = false
  history_sync_has_conversation (some evt) chat_jid = has_conversation chat_jid evt.conversations

  abbrev pub is_answer : Text → HistorySync D → Bool
  is_answer chat_jid evt =
      is_on_demand evt && ((chat_jid == []) || history_sync_has_conversation evt chat_jid)

  -- `WaitForProcessedOnDemand`, and what is left to be received. At the end of the list nothing
  -- comes before the timer.
  unfoldable pub wait_for_processed_on_demand :
      Text → List (Received D) → Result Failure (HistorySync D × Stats) × List (Received D)
  unfolding history_sync_has_conversation
  wait_for_processed_on_demand chat_jid [] = (err envelope_unavailable, [])
  wait_for_processed_on_demand chat_jid (cancelled e ∷ rest) = (err (failed e), rest)
  wait_for_processed_on_demand chat_jid (expired ∷ rest) = (err envelope_unavailable, rest)
  wait_for_processed_on_demand chat_jid (closed ∷ rest) = (err envelope_unavailable, rest)
  wait_for_processed_on_demand chat_jid (processed evt stats ∷ rest) =
      let later = wait_for_processed_on_demand chat_jid rest in
      if is_answer chat_jid evt then (ok (evt, stats), rest) else later

-- `Request`, less its callbacks and the timeout of the wait.
pub record Request : Type 0 where
  pub chat_jid : Text
  pub anchor : Anchor
  pub limit : ℤ
  pub chunk_size : ℤ
  pub backoff : ℤ

-- `RunResult`; `T` is the type of times.
pub record RunResult (T : Type 0) : Type 0 where
  pub anchor : Anchor
  pub requested : ℕ
  pub chunks : ℕ
  pub summary : Summary
  pub stats : Stats
  pub last_send_id : Text
  pub last_response : Option T

abbrev pub no_result : {T : Type 0} → Anchor → RunResult T
no_result anchor = record {
  anchor = anchor;
  requested = 0;
  chunks = 0;
  summary = no_summary [];
  stats = no_stats [];
  last_send_id = [];
  last_response = none;
}

-- What the loop calls, over a world of its own: `sendHistorySyncRequest`, the clock, `sleepContext`
-- and the callbacks of the request. A callback that is nil leaves the world alone.
pub record Outside (W T : Type 0) : Type 0 where
  pub send : Anchor → ℕ → W → Result Text Text × W
  pub now : W → T × W
  pub sleep : ℤ → W → Option Text × W
  pub on_request_sent : Text → Anchor → ℕ → W → Option Text × W
  pub on_history_sync_received : Summary → W → Option Text × W
  pub on_history_sync_ingested : Stats → W → Option Text × W

-- The variables of the loop; its anchor is that of the result.
pub record Progress (W T D : Type 0) : Type 0 where
  pub result : RunResult T
  pub world : W
  pub received : List (Received D)

-- `requestTimeout` and the like: what stands where a duration is not positive.
abbrev pub or_default : ℤ → ℤ → ℤ
or_default value default = if leb_ℤ value (pos 0) then default else value

-- `chunkSize`, at most 50
abbrev pub chunk_of : ℤ → ℕ
chunk_of size = if leb_ℤ size (pos 0) || ltb_ℤ (pos 50) size then 50 else pos_part size

abbrev pub backoff_of : ℤ → ℤ
backoff_of backoff = or_default backoff (pos 2000000000)

-- `count`, at most what remains
abbrev pub count_of : Request → ℕ → ℕ
count_of req remaining =
    if ltb remaining (chunk_of req.chunk_size) then remaining else chunk_of req.chunk_size

abbrev failed_with : Option Text → Option Failure
failed_with none = none
failed_with (some e) = some (failed e)

module _ {W T D : Type 0} (outside : Outside W T) where
  abbrev called : Progress W T D → Option Text × W → Option Failure × Progress W T D
  called p (e, w) = (failed_with e, record p { world = w })

  abbrev before :
      Option Failure × Progress W T D
      → (Progress W T D → Option Failure × Progress W T D)
      → Option Failure × Progress W T D
  before (some e, p) next = (some e, p)
  before (none, p) next = next p

  abbrev advance : Summary → Progress W T D → Option Failure × Progress W T D
  advance summary p =
      if (summary.requested_chat_messages == 0) || not summary.oldest_requested_chat_found
      then (some envelope_unavailable, p)
      else (
        none,
        record p { result = record (p.result) { anchor = summary.oldest_requested_chat } },
      )

  module _ (date : ℤ → ℤ × ℕ × ℕ) (age : T → ℤ → Option ℤ) (sort : List Text → List Text) where
    -- The summary of an answer, and the result with it.
    abbrev noted_answer :
        Request → HistorySync D → Stats → Progress W T D → Summary × Progress W T D
    noted_answer req evt stats p =
        let (t, w) = outside.now p.world in
        let (t', w') = outside.now w in
        let summary = summarize_history_sync date (age t) p.result.anchor req.chat_jid sort evt in
        (
          summary,
          record p {
            world = w';
            result = record (p.result) {
              summary = merge_summaries sort p.result.summary summary;
              stats = merge_stats p.result.stats stats;
              last_response = some t';
            };
          },
        )

    abbrev ingested : Summary → Stats → Progress W T D → Option Failure × Progress W T D
    ingested summary stats p =
        before (called p (outside.on_history_sync_ingested stats p.world)) (advance summary)

    -- The loop from the answer on.
    abbrev on_answer :
        Request → HistorySync D → Stats → Progress W T D → Option Failure × Progress W T D
    on_answer req evt stats p =
        let (summary, p') = noted_answer req evt stats p in
        before (called p' (outside.on_history_sync_received summary p'.world))
          (ingested summary stats)

    abbrev after_wait :
        Request
        → Progress W T D
        → Result Failure (HistorySync D × Stats) × List (Received D)
        → Option Failure × Progress W T D
    after_wait req p (err e, rest) = (some e, record p { received = rest })
    after_wait req p (ok (evt, stats), rest) =
        on_answer req evt stats (record p { received = rest })

    abbrev wait_for_answer : Request → Progress W T D → Option Failure × Progress W T D
    wait_for_answer req p = after_wait req p (wait_for_processed_on_demand req.chat_jid p.received)

    abbrev sent_chunk : Text → ℕ → W → Progress W T D → Progress W T D
    sent_chunk send_id count w p = record p {
      world = w;
      result = record (p.result) {
        last_send_id = send_id;
        requested = p.result.requested + count;
        chunks = suc p.result.chunks;
      };
    }

    abbrev after_send :
        Request → ℕ → Progress W T D → Result Text Text × W → Option Failure × Progress W T D
    after_send req count p (err e, w) = (some (failed e), record p { world = w })
    after_send req count p (ok send_id, w) =
        let p' = sent_chunk send_id count w p in
        before (called p' (outside.on_request_sent send_id p'.result.anchor count p'.world))
          (wait_for_answer req)

    -- One round of the loop, without the wait before the next.
    unfoldable pub request_chunk : Request → ℕ → Progress W T D → Option Failure × Progress W T D
    unfolding merge_stats merge_summaries wait_for_processed_on_demand
    request_chunk req count p = after_send req count p (outside.send p.result.anchor count p.world)

    abbrev pause : Request → ℕ → Progress W T D → Option Failure × Progress W T D
    pause req remaining p =
        if ltb 0 remaining
        then called p (outside.sleep (backoff_of req.backoff) p.world)
        else (none, p)

    abbrev pub request_round : Request → ℕ → Progress W T D → Option Failure × Progress W T D
    request_round req remaining p =
        let count = count_of req remaining in
        before (request_chunk req count p) (pause req (remaining - count))

    abbrev pub unless_failed :
        Option Failure × Progress W T D
        → (Progress W T D → Option (Option Failure × Progress W T D))
        → Option (Option Failure × Progress W T D)
    unless_failed (some e, p) next = some (some e, p)
    unless_failed (none, p) next = next p

    -- The loop, on fuel.
    unfoldable pub request_loop :
        Request → ℕ → ℕ → Progress W T D → Option (Option Failure × Progress W T D)
    unfolding request_chunk
    request_loop req zero remaining p = if remaining == 0 then some (none, p) else none
    request_loop req (suc fuel) remaining p =
        let rest =
          λ (p' : Progress W T D). request_loop req fuel (remaining - count_of req remaining) p' in
        if remaining == 0
        then some (none, p)
        else unless_failed (request_round req remaining p) rest

    abbrev refused : Text → W → List (Received D) → Option (Option Failure × Progress W T D)
    refused e w received =
        some
          (some (failed e), record { result = no_result no_anchor; world = w; received = received })

    abbrev requested_from :
        Request
        → W
        → List (Received D)
        → Anchor
        → Result Text MessageInfo
        → Option (Option Failure × Progress W T D)
    requested_from req w received anchor (err e) = refused e w received
    requested_from req w received anchor (ok info) =
        request_loop req (pos_part req.limit) (pos_part req.limit)
          (record { result = no_result anchor; world = w; received = received })

    -- `RunProcessedRequests` with a client; the fuel is the limit.
    unfoldable pub run_processed_requests :
        (Text → Result Text Jid)
        → Request
        → W
        → List (Received D)
        → Option (Option Failure × Progress W T D)
    unfolding message_info request_loop
    run_processed_requests parse_jid req w received =
        let anchor =
          if req.anchor.chat_jid == []
          then record (req.anchor) { chat_jid = req.chat_jid }
          else req.anchor in
        if leb_ℤ req.limit (pos 0)
        then refused (text "limit must be positive") w received
        else requested_from req w received anchor (message_info parse_jid anchor)
