-- ===== src/Backfill/Anchors/Found.antt =====
-- backfill.go: the message of an anchor that a lookup returns.
use wa_agent_pipeline.Base.{
  ℕ, Text, ◌≡◌, inl, inr, refl, sym, ap, ◌∙◌, true, false, Option, none, some, List, [], ◌∷◌, In,
  Result, ok, err, arith, Bool-cases, select, In-select, ◌||◌, ◌==◌, ==_iff, text_eq,
}
use wa_agent_pipeline.Base.Int.{ℤ, ◌≤ℤ◌}
use wa_agent_pipeline.Texts.{trim_space}
use wa_agent_pipeline.Writer.{MessageRow}
use wa_agent_pipeline.Backfill.{Anchor}
use wa_agent_pipeline.Backfill.Requests.{Jid}
use wa_agent_pipeline.Backfill.Anchors.{
  Messages, AnchorError, anchor_not_found, other, newest, is_message, checked, or_any, first_row,
  latest_anchor_from_db, latest_anchor, anchor_by_message_id, anchor_from_row,
}
use wa_agent_pipeline.Backfill.Anchors.Newest.{
  Fits, IsAnchorOf, Returned, named, malformed, Finds, newest-IsNewest, anchor_from_row-Returned,
  latest_anchor_from_db-Finds,
}

-- The anchor is that of the newest message that fits.
pub record IsNewestAnchor (db : Messages) (chat_jid : Text) (before : Option ℤ) (a : Anchor)
    : Type 0 where
  pub row : MessageRow
  pub stored : In row db.rows
  pub fits : Fits chat_jid before row
  pub latest :
      (other_row : MessageRow)
      → In other_row db.rows
      → Fits chat_jid before other_row
      → other_row.ts ≤ℤ row.ts
  pub anchor : IsAnchorOf row a

-- The anchor is that of a message of the chat with the identifier, both of them trimmed.
pub record IsNamedAnchor (db : Messages) (chat_jid msg_id : Text) (a : Anchor) : Type 0 where
  pub row : MessageRow
  pub stored : In row db.rows
  pub chat : row.chat_jid ≡ trim_space chat_jid
  pub message : row.msg_id ≡ trim_space msg_id
  pub anchor : IsAnchorOf row a

checked-eq-ok :
    (o : Option Text) (r : Result AnchorError Anchor) (a : Anchor)
    → checked o r ≡ ok a
    → (o ≡ none) × (r ≡ ok a)
checked-eq-ok none r a h = (ground arith, h)
checked-eq-ok (some e) r a h = absurd (ground (arith, h))

Returned-ok :
    (parse_jid : Text → Result Text Jid) (row : MessageRow) (r : Result AnchorError Anchor)
    (a : Anchor)
    → Returned parse_jid row r
    → r ≡ ok a
    → IsAnchorOf row a
Returned-ok parse_jid row r a (named b e v) h =
    let same : b ≡ a = ground (arith, e, h) in rw same at v
Returned-ok parse_jid row r a (malformed b f e v bad) h = absurd (ground (arith, e, h))

module _ (parse_jid : Text → Result Text Jid) where
  or_any-eq-ok :
      (in_chat any : Result AnchorError Anchor) (a : Anchor)
      → or_any parse_jid false in_chat any ≡ ok a
      → in_chat ≡ ok a
  or_any-eq-ok (ok b) any a h = h
  or_any-eq-ok (err anchor_not_found) any a h = absurd (ground (arith, h))
  or_any-eq-ok (err (other e)) any a h = absurd (ground (arith, h))

  Finds-ok :
      (db : Messages) (chat_jid : Text) (before : Option ℤ) (r : Result AnchorError Anchor)
      (a : Anchor)
      → r ≡ ok a
      → Finds parse_jid db chat_jid before r
      → IsNewestAnchor db chat_jid before a
  Finds-ok db chat_jid before r a e (inl (_, missing)) = absurd (ground (arith, e, missing))
  Finds-ok db chat_jid before r a e (inr found) = record {
    row = found.row;
    stored = found.stored;
    fits = found.candidate;
    latest = found.latest;
    anchor = Returned-ok parse_jid found.row r a found.returned e;
  }

  answered :
      (n : ℕ) (db : Messages) (chat_jid : Text) (before : Option ℤ) (a : Anchor)
      → latest_anchor_from_db parse_jid n db chat_jid before ≡ ok a
      → db.query_error n ≡ none
  unfolding latest_anchor_from_db
  answered n db chat_jid before a h = (checked-eq-ok (db.query_error n) _ a h).0

  -- The lookup of the newest message, without the fallback, where it returns an anchor.
  pub latest_anchor-IsNewestAnchor :
      (db : Messages) (chat_jid : Text) (before : Option ℤ) (a : Anchor)
      → latest_anchor parse_jid db chat_jid before false ≡ ok a
      → IsNewestAnchor db chat_jid before a
  unfolding latest_anchor
  latest_anchor-IsNewestAnchor db chat_jid before a h =
      let r = latest_anchor_from_db parse_jid 0 db chat_jid before in
      let (_, h) = checked-eq-ok db.open_error _ a h in
      let h = or_any-eq-ok r (latest_anchor_from_db parse_jid 1 db [] before) a h in
      Finds-ok db chat_jid before r a h (
        latest_anchor_from_db-Finds parse_jid 0 db chat_jid before
          (answered 0 db chat_jid before a h))

  is_message-parts :
      (chat_jid msg_id : Text) (row : MessageRow)
      → is_message chat_jid msg_id row ≡ true
      → (row.chat_jid ≡ chat_jid) × (row.msg_id ≡ msg_id)
  unfolding is_message
  is_message-parts chat_jid msg_id row h = (
    (==_iff row.chat_jid chat_jid).0 (ground (arith, h)),
    (==_iff row.msg_id msg_id).0 (ground (arith, h)),
  )

  named_rows :
      (db : Messages) (chat_jid msg_id : Text) (a : Anchor) (rows : List MessageRow)
      → select (is_message (trim_space chat_jid) (trim_space msg_id)) db.rows ≡ rows
      → first_row parse_jid (newest rows) ≡ ok a
      → IsNamedAnchor db chat_jid msg_id a
  unfolding newest
  named_rows db chat_jid msg_id a [] e h = absurd (ground (arith, h))
  named_rows db chat_jid msg_id a (first ∷ rest) e h =
      let (best, found, v) = newest-IsNewest first rest in
      let is = is_message (trim_space chat_jid) (trim_space msg_id) in
      let (i, fits) = (In-select is best db.rows).0 (rw e v.stored) in
      let (chat, message) = is_message-parts (trim_space chat_jid) (trim_space msg_id) best fits in
      record {
        row = best;
        stored = i;
        chat = chat;
        message = message;
        anchor =
            Returned-ok parse_jid best (anchor_from_row parse_jid best) a
              (anchor_from_row-Returned parse_jid best) (ap (first_row parse_jid) (sym found) ∙ h);
      }

  -- The lookup by the identifier, where it returns an anchor.
  pub anchor_by_message_id-IsNamedAnchor :
      (db : Messages) (chat_jid msg_id : Text) (a : Anchor)
      → anchor_by_message_id parse_jid db chat_jid msg_id ≡ ok a
      → IsNamedAnchor db chat_jid msg_id a
  unfolding anchor_by_message_id
  anchor_by_message_id-IsNamedAnchor db chat_jid msg_id a h =
      elim (Bool-cases ((trim_space chat_jid == []) || (trim_space msg_id == []))) [
        | inl blank ↦ absurd (ground (arith, rw blank at h))
        | inr filled ↦
            let (_, h) = checked-eq-ok db.open_error _ a (rw filled at h) in
            let (_, h) = checked-eq-ok (db.query_error 0) _ a h in
            named_rows db chat_jid msg_id a _ refl h
      ]
