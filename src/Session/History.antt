-- ===== src/Session/History.antt =====
-- auth.go: `handleHistorySync`, which goes through the conversations of a history sync. Parsing a JID
-- or a message is whatsmeow's; a panic in the latter is an error, as in `parseHistorySyncMessage`.
pub mod Accounting
use wa_agent_pipeline.Base.{
  ℕ, zero, suc, ◌+◌, Text, Bool, true, false, not, ◌&&◌, Option, none, some, List, [], ◌∷◌, Result,
  ok, err, length, is_some, ◌==◌, nat_eq, text_eq, if◌then◌else◌,
}
use wa_agent_pipeline.Base.Int.{ℤ}
use wa_agent_pipeline.Texts.{text, trim_space}
use wa_agent_pipeline.Config.Manager.{Manager, is_allowed}
use wa_agent_pipeline.Writer.{WriteResult}
use wa_agent_pipeline.Listener.{Stores, Handler, Handled}
use wa_agent_pipeline.Session.Message.{Incoming, Body}
use wa_agent_pipeline.Session.Handling.{Source, history_sync, Downloads, handle_message_from}

-- `historySyncStats`
pub record Stats : Type 0 where
  pub sync_type : Text
  pub conversations : ℕ
  pub allowed_conversations : ℕ
  pub messages : ℕ
  pub dispatched : ℕ
  pub rows_inserted : ℕ
  pub rows_updated : ℕ
  pub media_hydrated : ℕ
  pub skipped_conversations : ℕ
  pub skipped_messages : ℕ
  pub parse_errors : ℕ

abbrev pub no_stats : Text → Stats
no_stats sync_type = record {
  sync_type = sync_type;
  conversations = 0;
  allowed_conversations = 0;
  messages = 0;
  dispatched = 0;
  rows_inserted = 0;
  rows_updated = 0;
  media_hydrated = 0;
  skipped_conversations = 0;
  skipped_messages = 0;
  parse_errors = 0;
}

-- The key of a message of the web client.
pub record Key : Type 0 where
  pub id : Text
  pub remote_jid : Text
  pub participant : Text
  pub from_me : Bool

pub record WebMessage (D : Type 0) : Type 0 where
  pub key : Option Key
  pub timestamp : ℕ
  pub body : Option (Body D)

pub record Conversation (D : Type 0) : Type 0 where
  pub id : Text
  pub messages : List (Option (WebMessage D))

-- The data of a history sync; `none` among the conversations is a nil pointer.
pub record SyncData (D : Type 0) : Type 0 where
  pub sync_type : Text
  pub on_demand : Bool
  pub conversations : List (Option (Conversation D))

-- `events.HistorySync`: a nil event, or one without data, is `none`.
abbrev pub HistorySync : Type 0 → Type 0
HistorySync D = Option (SyncData D)

abbrev has_id : Option Key → Bool
has_id none = false
has_id (some key) = not (key.id == [])

module _ {D : Type 0} where
  abbrev pub is_on_demand : HistorySync D → Bool
  is_on_demand none = false
  is_on_demand (some evt) = evt.on_demand

  abbrev pub sync_type_of : HistorySync D → Text
  sync_type_of none = text "unknown"
  sync_type_of (some evt) = evt.sync_type

  abbrev valid_message : WebMessage D → Bool
  valid_message m = has_id m.key && is_some m.body && not (m.timestamp == 0)

  -- `validHistorySyncWebMessage`
  unfoldable pub is_valid_web_message : Option (WebMessage D) → Bool
  is_valid_web_message none = false
  is_valid_web_message (some m) = valid_message m

  -- `len(historySyncMessages(conv))`
  abbrev pub message_count : Option (Conversation D) → ℕ
  message_count none = 0
  message_count (some conv) = length conv.messages

  unfoldable pub all_messages : List (Option (Conversation D)) → ℕ
  all_messages [] = 0
  all_messages (conv ∷ convs) = message_count conv + all_messages convs

abbrev count_if : Bool → ℕ → ℕ
count_if test n = if test then suc n else n

abbrev pub count_result : WriteResult → Stats → Stats
count_result result s = record s {
  dispatched = suc s.dispatched;
  rows_inserted = count_if result.inserted s.rows_inserted;
  rows_updated = count_if result.updated s.rows_updated;
  media_hydrated = count_if (not (result.media_path == [])) s.media_hydrated;
}

-- What the loops act on. `checks` is the number of times that `ctx.Err()` will still return nil.
pub record Sync (C S : Type 0) : Type 0 where
  pub stats : Stats
  pub client : C
  pub handler : Handler S
  pub checks : ℕ
  pub stopped : Bool

module _ {D C S : Type 0} (downloads : Downloads D C) (stores : Stores S) (now : ℤ)
    (file_ext : Text → Text) (mime_extensions : Text → List Text) (parse_jid : Text → Option Text)
    (parse_message : Text → WebMessage D → Result Text (Option (Incoming D))) where
  abbrev counted : Sync C S → Handled × C × Handler S → Sync C S
  counted s (outcome, client, handler) = record s {
    stats = count_result outcome.result s.stats;
    client = client;
    handler = handler;
  }

  abbrev dispatch : Sync C S → Result Text (Option (Incoming D)) → Sync C S
  dispatch s (err e) = record s {
    stats = record (s.stats) { parse_errors = suc s.stats.parse_errors };
  }
  dispatch s (ok none) = record s {
    stats = record (s.stats) { skipped_messages = suc s.stats.skipped_messages };
  }
  dispatch s (ok (some msg)) = counted s (
      handle_message_from downloads stores now file_ext mime_extensions history_sync msg s.client
        s.handler)

  abbrev sync_web_message : Text → Option (WebMessage D) → Sync C S → Sync C S
  sync_web_message chat none s = dispatch s (ok none)
  sync_web_message chat (some m) s =
      if valid_message m then dispatch s (parse_message chat m) else dispatch s (ok none)

  -- One round of the loop over the messages of a conversation.
  unfoldable pub sync_message : Text → Option (WebMessage D) → Sync C S → Sync C S
  unfolding handle_message_from
  sync_message chat m s =
      sync_web_message chat m
        (record s { stats = record (s.stats) { messages = suc s.stats.messages } })

  -- The loop over the messages; a check that fails stops the whole sync.
  unfoldable pub sync_messages : Text → List (Option (WebMessage D)) → ℕ → Sync C S → Sync C S
  unfolding sync_message
  sync_messages chat [] checks s = record s { checks = checks }
  sync_messages chat (m ∷ ms) zero s = record s { checks = zero; stopped = true }
  sync_messages chat (m ∷ ms) (suc checks) s = sync_messages chat ms checks (sync_message chat m s)

  abbrev skip_conversation : Option (Conversation D) → Sync C S → Sync C S
  skip_conversation conv s = record s {
    stats = record (s.stats) {
      skipped_conversations = suc s.stats.skipped_conversations;
      skipped_messages = s.stats.skipped_messages + message_count conv;
    };
  }

  abbrev sync_allowed : Text → Conversation D → Sync C S → Sync C S
  sync_allowed chat conv s = sync_messages chat conv.messages s.checks (record s {
    stats = record (s.stats) { allowed_conversations = suc s.stats.allowed_conversations };
  })

  abbrev sync_parsed : Manager → Option Text → Conversation D → Sync C S → Sync C S
  sync_parsed cfg none conv s = skip_conversation (some conv) s
  sync_parsed cfg (some chat) conv s =
      if is_allowed cfg chat then sync_allowed chat conv s else skip_conversation (some conv) s

  -- `parseHistorySyncChatJID`
  unfoldable pub parse_chat_jid : Conversation D → Option Text
  parse_chat_jid conv = let raw = trim_space conv.id in if raw == [] then none else parse_jid raw

  -- One round of the loop over the conversations.
  unfoldable pub sync_conversation : Manager → Option (Conversation D) → Sync C S → Sync C S
  unfolding parse_chat_jid sync_messages
  sync_conversation cfg none s = skip_conversation none s
  sync_conversation cfg (some conv) s = sync_parsed cfg (parse_chat_jid conv) conv s

  abbrev guarded : ℕ → (Sync C S → Sync C S) → Sync C S → Sync C S
  guarded zero f s = record s { stopped = true }
  guarded (suc checks) f s = f (record s { checks = checks })

  unfoldable pub sync_conversations : Manager → List (Option (Conversation D)) → Sync C S → Sync C S
  unfolding sync_conversation
  sync_conversations cfg [] s = s
  sync_conversations cfg (conv ∷ convs) s =
      let s' = guarded s.checks (sync_conversation cfg conv) s in
      let rest = sync_conversations cfg convs s' in if s'.stopped then s' else rest

  abbrev skip_all : List (Option (Conversation D)) → Sync C S → Sync C S
  skip_all convs s = record s {
    stats = record (s.stats) {
      skipped_conversations = length convs;
      skipped_messages = all_messages convs;
    };
  }

  abbrev sync_all : Option Manager → List (Option (Conversation D)) → Sync C S → Sync C S
  sync_all none convs s = skip_all convs s
  sync_all (some cfg) convs s = sync_conversations cfg convs s

  -- `handleHistorySync`; `cfg` is `historySyncConfig`.
  unfoldable pub handle_history_sync : Option Manager → HistorySync D → ℕ → C → Handler S → Sync C S
  unfolding sync_conversations all_messages
  handle_history_sync cfg none checks client handler = record {
    stats = no_stats (text "unknown");
    client = client;
    handler = handler;
    checks = checks;
    stopped = false;
  }
  handle_history_sync cfg (some evt) checks client handler =
      sync_all cfg evt.conversations (record {
        stats = record (no_stats evt.sync_type) { conversations = length evt.conversations };
        client = client;
        handler = handler;
        checks = checks;
        stopped = false;
      })
