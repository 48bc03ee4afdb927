-- ===== src/Backfill.antt =====
-- whatsapp-daemon/internal/backfill/backfill.go: what is kept of the answers to history requests, how
-- two such summaries are merged, and the verdict. Counts are Go's int, far from its bounds; the
-- requests themselves are calls of whatsmeow.
pub mod Timestamps
pub mod Verdicts
pub mod Summaries
pub mod Requests
pub mod Sending
pub mod Anchors
use wa_agent_pipeline.Base.{
  ℕ, ◌+◌, Text, Bool, true, false, not, ◌&&◌, ◌||◌, List, [], ◌∷◌, ◌++◌, ◌==◌, nat_eq, text_eq,
  contains, if◌then◌else◌,
}
use wa_agent_pipeline.Base.Int.{ℤ, pos, ltb_ℤ, int_eq}
use wa_agent_pipeline.Texts.{text}

pub record Anchor : Type 0 where
  pub chat_jid : Text
  pub msg_id : Text
  pub sender_jid : Text
  pub timestamp : ℤ
  pub from_me : Bool

pub record Summary : Type 0 where
  pub sync_type : Text
  pub conversations : ℕ
  pub messages : ℕ
  pub requested_chat_messages : ℕ
  pub media_envelopes : ℕ
  pub pruned_age_media_envelopes : ℕ
  pub min_timestamp : ℤ
  pub max_timestamp : ℤ
  pub chat_jids : List Text
  pub contains_requested_chat : Bool
  pub same_day_before_anchor : Bool
  pub oldest_requested_chat : Anchor
  pub oldest_requested_chat_found : Bool

-- `Verdict`
unfoldable pub verdict : Summary → Bool × Text
verdict s =
    if s.messages == 0
    then (false, text "no ON_DEMAND messages returned")
    else if s.media_envelopes == 0
    then (false, text "no image/document/video media envelopes returned")
    else if not s.same_day_before_anchor
    then (false, text "no same-day messages before the anchor returned")
    else (true, text "ON_DEMAND returned same-day message history with media envelopes")

-- The members of a list, each once: the keys of `chatSet`, added one by one.
unfoldable pub chat_set : List Text → List Text → List Text
chat_set set [] = set
chat_set set (jid ∷ jids) = chat_set (if contains set jid then set else set ++ jid ∷ []) jids

abbrev pub takes_min : Summary → Summary → Bool
takes_min a b =
    a.min_timestamp == pos 0
    || (not (b.min_timestamp == pos 0) && ltb_ℤ b.min_timestamp a.min_timestamp)

abbrev takes_oldest : Summary → Summary → Bool
takes_oldest a b =
    b.oldest_requested_chat_found
    && (not a.oldest_requested_chat_found
        || ltb_ℤ b.oldest_requested_chat.timestamp a.oldest_requested_chat.timestamp)

module _ (sort : List Text → List Text) where
  -- `MergeSummaries`; `sort` is sort.Strings.
  unfoldable pub merge_summaries : Summary → Summary → Summary
  unfolding chat_set
  merge_summaries a b = record {
    sync_type = if a.sync_type == [] then b.sync_type else a.sync_type;
    conversations = a.conversations + b.conversations;
    messages = a.messages + b.messages;
    requested_chat_messages = a.requested_chat_messages + b.requested_chat_messages;
    media_envelopes = a.media_envelopes + b.media_envelopes;
    pruned_age_media_envelopes = a.pruned_age_media_envelopes + b.pruned_age_media_envelopes;
    min_timestamp = if takes_min a b then b.min_timestamp else a.min_timestamp;
    max_timestamp =
        if ltb_ℤ a.max_timestamp b.max_timestamp then b.max_timestamp else a.max_timestamp;
    chat_jids = sort (chat_set [] (a.chat_jids ++ b.chat_jids));
    contains_requested_chat = a.contains_requested_chat || b.contains_requested_chat;
    same_day_before_anchor = a.same_day_before_anchor || b.same_day_before_anchor;
    oldest_requested_chat =
        if takes_oldest a b then b.oldest_requested_chat else a.oldest_requested_chat;
    oldest_requested_chat_found = takes_oldest a b || a.oldest_requested_chat_found;
  }
