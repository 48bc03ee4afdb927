-- ===== src/Backfill/Anchors.antt =====
-- backfill.go: the lookup of anchors among the stored messages. A query is what the SQL text means on
-- the rows of whatsapp_messages; opening the database and running the n-th query may fail.
pub mod Newest
pub mod Found
use wa_agent_pipeline.Base.{
  ℕ, zero, suc, Text, Bool, true, false, not, ◌&&◌, ◌||◌, Option, none, some, List, [], ◌∷◌, Result,
  ok, err, select, ◌==◌, text_eq, if◌then◌else◌,
}
use wa_agent_pipeline.Base.Int.{ℤ, ltb_ℤ, int_eq}
use wa_agent_pipeline.Texts.{text, trim_space}
use wa_agent_pipeline.Writer.{MessageRow}
use wa_agent_pipeline.Backfill.{Anchor}
use wa_agent_pipeline.Backfill.Requests.{Jid, MessageInfo, message_info}

pub record Messages : Type 0 where
  pub rows : List MessageRow
  pub open_error : Option Text
  pub query_error : ℕ → Option Text

-- `ErrAnchorNotFound`, or another error.
pub data AnchorError : Type 0 where
  anchor_not_found : AnchorError
  other : Text → AnchorError

-- order by ts, ingested_at, source_pk: `a` comes after `b`.
abbrev pub is_newer : MessageRow → MessageRow → Bool
is_newer a b =
    ltb_ℤ b.ts a.ts
    || ((a.ts == b.ts)
        && (ltb_ℤ b.ingested_at a.ingested_at
            || ((a.ingested_at == b.ingested_at) && ltb_ℤ b.source_pk a.source_pk)))

abbrev pub newer_of : MessageRow → Option MessageRow → MessageRow
newer_of a none = a
newer_of a (some b) = if is_newer b a then b else a

-- order by ts desc, ingested_at desc, source_pk desc limit 1
unfoldable pub newest : List MessageRow → Option MessageRow
newest [] = none
newest (row ∷ rows) = some (newer_of row (newest rows))

-- where chat_jid=? and ts<?, each where it is asked for
abbrev in_chat : Text → MessageRow → Bool
in_chat chat_jid row = (trim_space chat_jid == []) || (row.chat_jid == chat_jid)

abbrev is_before : Option ℤ → MessageRow → Bool
is_before none row = true
is_before (some before) row = ltb_ℤ row.ts before

unfoldable pub is_candidate : Text → Option ℤ → MessageRow → Bool
is_candidate chat_jid before row = in_chat chat_jid row && is_before before row

-- where chat_jid=? and msg_id=?
unfoldable pub is_message : Text → Text → MessageRow → Bool
is_message chat_jid msg_id row = (row.chat_jid == chat_jid) && (row.msg_id == msg_id)

abbrev pub text_or_empty : Option Text → Text
text_or_empty none = []
text_or_empty (some t) = t

abbrev pub row_anchor : MessageRow → Anchor
row_anchor row = record {
  chat_jid = row.chat_jid;
  msg_id = row.msg_id;
  sender_jid = text_or_empty row.sender_jid;
  timestamp = row.ts;
  from_me = row.from_me;
}

abbrev checked : Option Text → Result AnchorError Anchor → Result AnchorError Anchor
checked none found = found
checked (some e) found = err (other e)

module _ (parse_jid : Text → Result Text Jid) where
  abbrev with_info : Anchor → Result Text MessageInfo → Result AnchorError Anchor
  with_info a (ok info) = ok a
  with_info a (err e) = err (other e)

  -- `anchorFromRow`; the column ts is an integer in every row.
  abbrev pub anchor_from_row : MessageRow → Result AnchorError Anchor
  anchor_from_row row = with_info (row_anchor row) (message_info parse_jid (row_anchor row))

  abbrev pub first_row : Option MessageRow → Result AnchorError Anchor
  first_row none = err anchor_not_found
  first_row (some row) = anchor_from_row row

  -- `latestAnchorFromDB`, as the n-th query.
  unfoldable pub latest_anchor_from_db : ℕ → Messages → Text → Option ℤ → Result AnchorError Anchor
  unfolding newest is_candidate message_info
  latest_anchor_from_db n db chat_jid before =
      checked (db.query_error n)
        (first_row (newest (select (is_candidate chat_jid before) db.rows)))

  abbrev or_any :
      Bool → Result AnchorError Anchor → Result AnchorError Anchor → Result AnchorError Anchor
  or_any fallback_any (ok a) any = ok a
  or_any fallback_any (err anchor_not_found) any =
      if fallback_any then any else err anchor_not_found
  or_any fallback_any (err (other e)) any = err (other e)

  -- `LatestAnchor` with a live context; `before` is none for the zero time.
  unfoldable pub latest_anchor : Messages → Text → Option ℤ → Bool → Result AnchorError Anchor
  unfolding latest_anchor_from_db
  latest_anchor db chat_jid before fallback_any = checked db.open_error (
      or_any fallback_any (latest_anchor_from_db 0 db chat_jid before)
        (latest_anchor_from_db 1 db [] before))

  -- `AnchorByMessageID` with a live context.
  unfoldable pub anchor_by_message_id : Messages → Text → Text → Result AnchorError Anchor
  unfolding newest is_message message_info
  anchor_by_message_id db chat_jid msg_id =
      let chat = trim_space chat_jid in
      let msg = trim_space msg_id in
      if (chat == []) || (msg == [])
      then err (other (text "anchor lookup requires chat_jid and msg_id"))
      else checked db.open_error
          (checked (db.query_error 0) (first_row (newest (select (is_message chat msg) db.rows))))
