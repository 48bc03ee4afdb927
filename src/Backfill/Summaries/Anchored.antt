-- ===== src/Backfill/Summaries/Anchored.antt =====
-- backfill.go: what `noteAnchor` and `noteRequestedAnchor` do with the anchor of a message.
use wa_agent_pipeline.Base.{
  ℕ, suc, ◌^◌, ◌≤◌, ◌<◌, ◌≡◌, ◌≢◌, inl, inr, refl, Bool, true, false, not, ◌||◌, Option, none, some,
  arith, Bool-cases, text_eq,
}
use wa_agent_pipeline.Base.Int.{ℤ, pos, ◌≤ℤ◌, ltb_ℤ, int_eq, wrap64}
use wa_agent_pipeline.Session.History.{WebMessage}
use wa_agent_pipeline.Backfill.{Anchor, Summary}
use wa_agent_pipeline.Backfill.Summaries.{
  timestamp_of, valid_web_message, note_anchor, note_requested, is_earlier, note_message,
}

pub stamp_nonzero :
    {D : Type 0} (m : WebMessage D)
    → m.timestamp < 2 ^ 64
    → valid_web_message m ≡ true
    → timestamp_of m ≢ pos 0
unfolding valid_web_message wrap64
stamp_nonzero m range valid = ground (arith, valid)

-- An anchor was found, and none that is later than `ts` was kept.
abbrev pub Anchored : ℤ → Summary → Type 0
Anchored ts s = (s.oldest_requested_chat_found ≡ true) × (s.oldest_requested_chat.timestamp ≤ℤ ts)

module _ (date : ℤ → ℤ × ℕ × ℕ) (anchor : Anchor) where
  -- The dates of the summary reach to the time `ts`.
  pub record Dated (ts : ℤ) (s : Summary) : Type 0 where
    pub some_date : s.min_timestamp ≢ pos 0
    pub not_before : s.min_timestamp ≤ℤ ts
    pub not_after : ts ≤ℤ s.max_timestamp
    pub same_day : is_earlier date anchor ts ≡ true → s.same_day_before_anchor ≡ true

  module _ (age : ℤ → Option ℤ) where
    pub note_message-Dated-own :
        (ts : ℤ) (has_media : Bool) (s : Summary)
        → ts ≢ pos 0
        → Dated ts (note_message date age anchor ts has_media s)
    note_message-Dated-own ts has_media s h = record {
      some_date = ground (arith, h);
      not_before = ground arith;
      not_after = ground arith;
      same_day = ground arith;
    }

    pub note_message-Dated-kept :
        (old ts : ℤ) (has_media : Bool) (s : Summary)
        → ts ≢ pos 0
        → Dated old s
        → Dated old (note_message date age anchor ts has_media s)
    note_message-Dated-kept old ts has_media s h v = record {
      some_date = ground (arith, h, v.some_date);
      not_before = ground (arith, v.some_date, v.not_before);
      not_after = ground (arith, v.not_after);
      same_day = λ e. ground (arith, v.same_day e);
    }

  pub note_requested-Dated :
      (ts : ℤ) (asked : Bool) (a : Option Anchor) (s : Summary)
      → Dated ts s
      → Dated ts (note_requested asked a s)
  note_requested-Dated ts false a s v = v
  note_requested-Dated ts true none s v = record {
    some_date = v.some_date;
    not_before = v.not_before;
    not_after = v.not_after;
    same_day = v.same_day;
  }
  note_requested-Dated ts true (some a) s v = record {
    some_date = ground (arith, v.some_date);
    not_before = ground (arith, v.not_before);
    not_after = ground (arith, v.not_after);
    same_day = λ e. ground (arith, v.same_day e);
  }

-- The counts of the summary fit, and its oldest anchor is one of those that `P` holds of.
pub record Tallied (P : Anchor → Type 0) (s : Summary) : Type 0 where
  pub media : s.media_envelopes ≤ s.messages
  pub requested : s.requested_chat_messages ≤ s.messages
  pub found : s.requested_chat_messages ≢ 0 → s.oldest_requested_chat_found ≡ true
  pub origin : s.oldest_requested_chat_found ≡ true → P s.oldest_requested_chat

pub note_anchor-Anchored-own :
    (a : Anchor) (s : Summary) → Anchored a.timestamp (note_anchor (some a) s)
note_anchor-Anchored-own a s = (ground arith, ground arith)

note_anchor-Anchored-kept :
    (ts : ℤ) (a : Option Anchor) (s : Summary) → Anchored ts s → Anchored ts (note_anchor a s)
note_anchor-Anchored-kept ts none s v = v
note_anchor-Anchored-kept ts (some a) s (found, v) =
    (ground (arith, found), ground (arith, found, v))

pub note_requested-Anchored-kept :
    (ts : ℤ) (asked : Bool) (a : Option Anchor) (s : Summary)
    → Anchored ts s
    → Anchored ts (note_requested asked a s)
note_requested-Anchored-kept ts false a s v = v
note_requested-Anchored-kept ts true a s v =
    note_anchor-Anchored-kept ts a
      (record s { requested_chat_messages = suc s.requested_chat_messages }) v

-- A valid message of the requested chat: one more is counted, and its anchor is noted.
pub note_anchor-Tallied :
    (P : Anchor → Type 0) (a : Anchor) (s : Summary)
    → P a
    → s.media_envelopes ≤ s.messages
    → s.requested_chat_messages < s.messages
    → (s.oldest_requested_chat_found ≡ true → P s.oldest_requested_chat)
    → Tallied P (
        note_anchor (some a) (record s { requested_chat_messages = suc s.requested_chat_messages }))
note_anchor-Tallied P a s p media requested origin =
    elim (Bool-cases
      (not s.oldest_requested_chat_found || ltb_ℤ a.timestamp s.oldest_requested_chat.timestamp)) [
        | inl takes ↦ rw takes (record {
          media = media;
          requested = omega (arith, requested);
          found = λ h. refl;
          origin = λ h. p;
        })
        | inr keeps ↦ rw keeps (record {
          media = media;
          requested = omega (arith, requested);
          found = λ h. ground (arith, keeps);
          origin = origin;
        })
      ]
