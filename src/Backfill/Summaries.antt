-- ===== src/Backfill/Summaries.antt =====
-- backfill.go: `SummarizeHistorySync`, the summary of an answer to a history request. `sort` is
-- sort.Strings, `date` the UTC date of a Unix time, and `age` what now.Sub(time.Unix(ts, 0)) is in
-- nanoseconds, or `none` where now is the zero time.
pub mod Anchored
pub mod Oldest
use wa_agent_pipeline.Base.{
  ℕ, suc, ◌*◌, Text, Bool, true, false, not, ◌&&◌, ◌||◌, Option, none, some, List, [], ◌∷◌, is_some,
  length, ◌==◌, nat_eq, text_eq, if◌then◌else◌,
}
use wa_agent_pipeline.Base.Int.{ℤ, pos, ltb_ℤ, leb_ℤ, wrap64, int_eq}
use wa_agent_pipeline.Texts.{text}
use wa_agent_pipeline.Session.Message.{Body}
use wa_agent_pipeline.Session.History.{Key, WebMessage, Conversation, SyncData, HistorySync}
use wa_agent_pipeline.Backfill.{Anchor, Summary, chat_set}

-- `DefaultPruneAge`
abbrev default_prune_age : ℤ
default_prune_age = pos (30 * 24 * 3600 * 1000000000)

abbrev pub no_anchor : Anchor
no_anchor = record {
  chat_jid = [];
  msg_id = [];
  sender_jid = [];
  timestamp = pos 0;
  from_me = false;
}

abbrev pub no_summary : Text → Summary
no_summary sync_type = record {
  sync_type = sync_type;
  conversations = 0;
  messages = 0;
  requested_chat_messages = 0;
  media_envelopes = 0;
  pruned_age_media_envelopes = 0;
  min_timestamp = pos 0;
  max_timestamp = pos 0;
  chat_jids = [];
  contains_requested_chat = false;
  same_day_before_anchor = false;
  oldest_requested_chat = no_anchor;
  oldest_requested_chat_found = false;
}

-- A getter of a key, which is not nil in a valid message.
abbrev of_key : {A : Type 0} → A → (Key → A) → Option Key → A
of_key zero_value get none = zero_value
of_key zero_value get (some key) = get key

module _ {D : Type 0} where
  -- int64(webMsg.GetMessageTimestamp())
  abbrev pub timestamp_of : WebMessage D → ℤ
  timestamp_of m = wrap64 (pos m.timestamp)

  -- `validWebMessage` where there is a message.
  unfoldable pub valid_web_message : WebMessage D → Bool
  valid_web_message m =
      not (of_key [] (λ k. k.id) m.key == []) && is_some m.body && not (m.timestamp == 0)

  -- `hasMediaEnvelope`
  unfoldable pub has_media_envelope : Option (Body D) → Bool
  has_media_envelope none = false
  has_media_envelope (some b) = is_some b.image || is_some b.document || is_some b.video

  abbrev pub anchor_of : Text → WebMessage D → Anchor
  anchor_of chat_jid m =
      let remote = of_key [] (λ k. k.remote_jid) m.key in
      let participant = of_key [] (λ k. k.participant) m.key in
      let from_me = of_key false (λ k. k.from_me) m.key in
      record {
        chat_jid = if chat_jid == [] then remote else chat_jid;
        msg_id = of_key [] (λ k. k.id) m.key;
        sender_jid = if (participant == []) && not from_me then remote else participant;
        timestamp = timestamp_of m;
        from_me = from_me;
      }

  -- `AnchorFromWebMessage` where there is a message.
  unfoldable pub anchor_from_web_message : Text → WebMessage D → Option Anchor
  unfolding valid_web_message
  anchor_from_web_message chat_jid m =
      if valid_web_message m then some (anchor_of chat_jid m) else none

  -- What is added to `chatSet`.
  unfoldable pub chat_ids : List (Option (Conversation D)) → List Text
  chat_ids [] = []
  chat_ids (none ∷ convs) = chat_ids convs
  chat_ids (some conv ∷ convs) =
      let rest = chat_ids convs in if conv.id == [] then rest else conv.id ∷ rest

abbrev pub begin_summary : {D : Type 0} → SyncData D → Summary
begin_summary evt = record (no_summary evt.sync_type) { conversations = length evt.conversations }

abbrev pub note_anchor : Option Anchor → Summary → Summary
note_anchor none s = s
note_anchor (some a) s =
    if not s.oldest_requested_chat_found || ltb_ℤ a.timestamp s.oldest_requested_chat.timestamp
    then record s { oldest_requested_chat = a; oldest_requested_chat_found = true }
    else s

abbrev pub note_requested : Bool → Option Anchor → Summary → Summary
note_requested asked a s =
    if asked
    then note_anchor a (record s { requested_chat_messages = suc s.requested_chat_messages })
    else s

module _ (date : ℤ → ℤ × ℕ × ℕ) where
  -- `sameUTCDay`
  unfoldable pub same_utc_day : ℤ → ℤ → Bool
  same_utc_day a b =
      let (ay, am, ad) = date a in
      let (by, bm, bd) = date b in
      if (a == pos 0) || (b == pos 0) then false else (ay == by) && (am == bm) && (ad == bd)

  abbrev pub is_earlier : Anchor → ℤ → Bool
  is_earlier anchor ts = same_utc_day ts anchor.timestamp && ltb_ℤ ts anchor.timestamp

  module _ (age : ℤ → Option ℤ) where
    abbrev is_pruned_age : ℤ → Bool
    is_pruned_age ts = elim (age ts) [ none ↦ false | some d ↦ leb_ℤ default_prune_age d ]

    abbrev pub note_message : Anchor → ℤ → Bool → Summary → Summary
    note_message anchor ts has_media s = record s {
      messages = suc s.messages;
      min_timestamp =
          if (s.min_timestamp == pos 0) || ltb_ℤ ts s.min_timestamp then ts else s.min_timestamp;
      max_timestamp = if ltb_ℤ s.max_timestamp ts then ts else s.max_timestamp;
      media_envelopes = if has_media then suc s.media_envelopes else s.media_envelopes;
      pruned_age_media_envelopes =
          if has_media && is_pruned_age ts
          then suc s.pruned_age_media_envelopes
          else s.pruned_age_media_envelopes;
      same_day_before_anchor = s.same_day_before_anchor || is_earlier anchor ts;
    }

    module _ {D : Type 0} (anchor : Anchor) (requested_chat : Text) where
      -- What the loop over the messages does with a valid message.
      unfoldable pub add_message : Text → WebMessage D → Summary → Summary
      unfolding anchor_from_web_message has_media_envelope
      add_message chat_jid m s =
          note_requested (chat_jid == requested_chat) (anchor_from_web_message chat_jid m)
            (note_message anchor (timestamp_of m) (has_media_envelope m.body) s)

      unfoldable pub add_messages : Text → List (Option (WebMessage D)) → Summary → Summary
      unfolding add_message valid_web_message
      add_messages chat_jid [] s = s
      add_messages chat_jid (none ∷ ms) s = add_messages chat_jid ms s
      add_messages chat_jid (some m ∷ ms) s =
          add_messages chat_jid ms (if valid_web_message m then add_message chat_jid m s else s)

      unfoldable pub add_conversations : List (Option (Conversation D)) → Summary → Summary
      unfolding add_messages
      add_conversations [] s = s
      add_conversations (none ∷ convs) s = add_conversations convs s
      add_conversations (some conv ∷ convs) s = add_conversations convs (
          add_messages conv.id conv.messages (record s {
            contains_requested_chat = s.contains_requested_chat || (conv.id == requested_chat);
          }))

      module _ (sort : List Text → List Text) where
        unfoldable pub summarize_history_sync : HistorySync D → Summary
        unfolding add_conversations chat_set chat_ids
        summarize_history_sync none = no_summary (text "unknown")
        summarize_history_sync (some evt) =
            let s = add_conversations evt.conversations (begin_summary evt) in
            record s { chat_jids = sort (chat_set [] (chat_ids evt.conversations)) }
