-- ===== src/Writer/Write/Upserts.antt =====
-- writer.go: what an upsert into whatsapp_messages keeps and takes over, and what `Write` says of it.
use wa_agent_pipeline.Base.{
  ◌+◌, Text, ◌≡◌, ◌≢◌, ◌⊎◌, ◌↔◌, inl, inr, refl, sym, true, false, Option, none, some, [], ◌∷◌,
  arith, ◌==◌, ==_iff, text_eq, Bool-cases,
}
use wa_agent_pipeline.Base.Int.{ℤ, pos, int_eq}
use wa_agent_pipeline.Writer.{Event, WriteResult, MessageRow, null_empty, null_zero}
use wa_agent_pipeline.Writer.Store.{new_row, merge_row, hash_of, outcome}

-- The value is the text, and none where the text is empty.
abbrev pub IsFilledBy : Option Text → Text → Type 0
IsFilledBy o t = (o ≡ some t) ⊎ ((o ≡ none) × (t ≡ []))

-- The columns that every write takes from the event.
pub record IsUpdated (ev : Event) (thash : Text) (now : ℤ) (row : MessageRow) : Type 0 where
  pub sender_name : IsFilledBy row.sender_name ev.sender_name
  pub body : IsFilledBy row.body ev.body
  pub message_type : IsFilledBy row.message_type ev.message_type
  pub media_type : IsFilledBy row.media_type ev.media_type
  pub media_title : IsFilledBy row.media_title ev.media_title
  pub media_path : IsFilledBy row.media_path ev.media_path
  pub media_url : IsFilledBy row.media_url ev.media_url
  pub media_size :
      (row.media_size ≡ some ev.media_size) ⊎ ((row.media_size ≡ none) × (ev.media_size ≡ pos 0))
  pub text_hash : row.text_hash ≡ thash
  pub ingested_at : row.ingested_at ≡ now
  pub present : row.deleted_or_missing ≡ false

-- A row that is new: the columns that no later write changes, and no media yet.
pub record IsInserted (ev : Event) (row : MessageRow) : Type 0 where
  pub source_pk : row.source_pk ≡ ev.source_pk
  pub chat_jid : row.chat_jid ≡ ev.chat_jid
  pub chat_label : row.chat_label ≡ ev.chat_label
  pub msg_id : row.msg_id ≡ ev.msg_id
  pub sender_jid : IsFilledBy row.sender_jid ev.sender_jid
  pub ts : row.ts ≡ ev.timestamp
  pub from_me : row.from_me ≡ ev.from_me
  pub raw_type : row.raw_type ≡ ev.raw_type
  pub media_local_path : row.media_local_path ≡ none
  pub media_extracted_text : row.media_extracted_text ≡ none
  pub media_extracted_by : row.media_extracted_by ≡ none
  pub media_hydrated_at : row.media_hydrated_at ≡ none
  pub media_surfaced_at : row.media_surfaced_at ≡ none
  pub hydration :
      ((ev.media_hydration_status ≢ [])
        × (row.media_hydration_status ≡ some ev.media_hydration_status)
        × (row.media_hydration_attempts ≡ ev.media_hydration_attempts))
      ⊎ ((ev.media_hydration_status ≡ [])
          × (row.media_hydration_status ≡ none)
          × (row.media_hydration_attempts ≡ 0))

-- An old row after a write: what it keeps, and the event's hydration status where it has one, with
-- the attempts added up.
pub record IsKept (old : MessageRow) (ev : Event) (row : MessageRow) : Type 0 where
  pub source_pk : row.source_pk ≡ old.source_pk
  pub chat_jid : row.chat_jid ≡ old.chat_jid
  pub chat_label : row.chat_label ≡ old.chat_label
  pub msg_id : row.msg_id ≡ old.msg_id
  pub sender_jid : row.sender_jid ≡ old.sender_jid
  pub ts : row.ts ≡ old.ts
  pub from_me : row.from_me ≡ old.from_me
  pub raw_type : row.raw_type ≡ old.raw_type
  pub media_local_path : row.media_local_path ≡ old.media_local_path
  pub media_extracted_text : row.media_extracted_text ≡ old.media_extracted_text
  pub media_extracted_by : row.media_extracted_by ≡ old.media_extracted_by
  pub media_hydrated_at : row.media_hydrated_at ≡ old.media_hydrated_at
  pub media_surfaced_at : row.media_surfaced_at ≡ old.media_surfaced_at
  pub hydration :
      ((ev.media_hydration_status ≢ [])
        × (row.media_hydration_status ≡ some ev.media_hydration_status)
        × (row.media_hydration_attempts
            ≡ old.media_hydration_attempts + ev.media_hydration_attempts))
      ⊎ ((ev.media_hydration_status ≡ [])
          × (row.media_hydration_status ≡ old.media_hydration_status)
          × (row.media_hydration_attempts ≡ old.media_hydration_attempts))

-- The row under the key after a write, where `o` stood there before.
pub data LeavesRow (ev : Event) (thash : Text) (now : ℤ) (o : Option MessageRow) (row : MessageRow)
    : Type 0 where
  inserts : o ≡ none → IsUpdated ev thash now row → IsInserted ev row → LeavesRow ev thash now o row
  updates :
      (old : MessageRow)
      → o ≡ some old
      → IsUpdated ev thash now row
      → IsKept old ev row
      → LeavesRow ev thash now o row

-- What the result of a write says, where `o` stood under the key before.
pub record IsOutcome (id : Text) (ev : Event) (thash : Text) (o : Option MessageRow)
    (r : WriteResult) : Type 0 where
  pub key : r.id ≡ id
  pub no_media : r.media_path ≡ []
  pub inserted : (r.inserted ≡ true) ↔ (o ≡ none)
  pub updated : (r.updated ≡ true) ↔ (
      (old : MessageRow) × (o ≡ some old)
      × ((old.text_hash ≢ thash) ⊎ (ev.media_hydration_status ≢ [])))

abbrev pub merged : Option MessageRow → MessageRow → MessageRow
merged none row = row
merged (some old) row = merge_row old row

null_empty-IsFilledBy : (t : Text) → IsFilledBy (null_empty t) t
unfolding null_empty
null_empty-IsFilledBy [] = inr (refl, refl)
null_empty-IsFilledBy (c ∷ t) = inl refl

null_zero-cases : (v : ℤ) → (null_zero v ≡ some v) ⊎ ((null_zero v ≡ none) × (v ≡ pos 0))
unfolding null_zero
null_zero-cases v = elim (Bool-cases (v == pos 0)) [
  | inl zero ↦ inr (ground (arith, zero), (==_iff v (pos 0)).0 zero)
  | inr filled ↦ inl (ground (arith, filled))
]

null_empty-cases :
    (t : Text) → ((t ≢ []) × (null_empty t ≡ some t)) ⊎ ((t ≡ []) × (null_empty t ≡ none))
unfolding null_empty
null_empty-cases [] = inr (refl, refl)
null_empty-cases (c ∷ t) = inl (λ e. ground (arith, e), refl)

new_row-IsUpdated :
    (ev : Event) (thash : Text) (now : ℤ) → IsUpdated ev thash now (new_row ev thash now)
new_row-IsUpdated ev thash now = record {
  sender_name = null_empty-IsFilledBy ev.sender_name;
  body = null_empty-IsFilledBy ev.body;
  message_type = null_empty-IsFilledBy ev.message_type;
  media_type = null_empty-IsFilledBy ev.media_type;
  media_title = null_empty-IsFilledBy ev.media_title;
  media_path = null_empty-IsFilledBy ev.media_path;
  media_url = null_empty-IsFilledBy ev.media_url;
  media_size = null_zero-cases ev.media_size;
  text_hash = refl;
  ingested_at = refl;
  present = refl;
}

new_row-IsInserted : (ev : Event) (thash : Text) (now : ℤ) → IsInserted ev (new_row ev thash now)
new_row-IsInserted ev thash now = record {
  source_pk = refl;
  chat_jid = refl;
  chat_label = refl;
  msg_id = refl;
  sender_jid = null_empty-IsFilledBy ev.sender_jid;
  ts = refl;
  from_me = refl;
  raw_type = refl;
  media_local_path = refl;
  media_extracted_text = refl;
  media_extracted_by = refl;
  media_hydrated_at = refl;
  media_surfaced_at = refl;
  hydration = elim (null_empty-cases ev.media_hydration_status) [
    | inl (filled, e) ↦ inl (filled, e, ground (arith, e))
    | inr (empty, e) ↦ inr (empty, e, ground (arith, e))
  ];
}

merge_row-IsUpdated :
    (old : MessageRow) (ev : Event) (thash : Text) (now : ℤ)
    → IsUpdated ev thash now (merge_row old (new_row ev thash now))
merge_row-IsUpdated old ev thash now =
    let v = new_row-IsUpdated ev thash now in
    record {
      sender_name = v.sender_name;
      body = v.body;
      message_type = v.message_type;
      media_type = v.media_type;
      media_title = v.media_title;
      media_path = v.media_path;
      media_url = v.media_url;
      media_size = v.media_size;
      text_hash = refl;
      ingested_at = refl;
      present = refl;
    }

merge_row-IsKept :
    (old : MessageRow) (ev : Event) (thash : Text) (now : ℤ)
    → IsKept old ev (merge_row old (new_row ev thash now))
merge_row-IsKept old ev thash now = record {
  source_pk = refl;
  chat_jid = refl;
  chat_label = refl;
  msg_id = refl;
  sender_jid = refl;
  ts = refl;
  from_me = refl;
  raw_type = refl;
  media_local_path = refl;
  media_extracted_text = refl;
  media_extracted_by = refl;
  media_hydrated_at = refl;
  media_surfaced_at = refl;
  hydration = elim (null_empty-cases ev.media_hydration_status) [
    | inl (filled, e) ↦ inl (filled, ground (arith, e), ground (arith, e))
    | inr (empty, e) ↦ inr (empty, ground (arith, e), ground (arith, e))
  ];
}

pub merged-LeavesRow :
    (ev : Event) (thash : Text) (now : ℤ) (o : Option MessageRow)
    → LeavesRow ev thash now o (merged o (new_row ev thash now))
merged-LeavesRow ev thash now none =
    inserts refl (new_row-IsUpdated ev thash now) (new_row-IsInserted ev thash now)
merged-LeavesRow ev thash now (some old) =
    updates old refl (merge_row-IsUpdated old ev thash now) (merge_row-IsKept old ev thash now)

outcome_updated_iff :
    (id : Text) (ev : Event) (thash : Text) (old : MessageRow)
    → ((outcome id ev thash (some old.text_hash)).updated ≡ true)
      ↔ ((old.text_hash ≢ thash) ⊎ (ev.media_hydration_status ≢ []))
outcome_updated_iff id ev thash old = elim (null_empty-cases ev.media_hydration_status) [
  | inl (filled, e) ↦ (λ h. inr filled, λ h. ground (arith, e))
  | inr (empty, e) ↦ elim (Bool-cases (old.text_hash == thash)) [
    | inl same ↦ (
      λ h. absurd (ground (arith, h, e, same)),
      λ h. elim h [
        | inl other ↦ absurd (other ((==_iff old.text_hash thash).0 same))
        | inr filled ↦ absurd (filled empty)
      ],
    )
    | inr other ↦ (
      λ h. inl (λ same. absurd (ground (arith, other, (==_iff old.text_hash thash).1 same))),
      λ h. ground (arith, other),
    )
  ]
]

pub outcome-IsOutcome :
    (id : Text) (ev : Event) (thash : Text) (o : Option MessageRow)
    → IsOutcome id ev thash o (outcome id ev thash (hash_of o))
outcome-IsOutcome id ev thash none = record {
  key = refl;
  no_media = refl;
  inserted = (λ h. refl, λ e. refl);
  updated = (λ h. absurd (ground (arith, h)), λ (old, e, _). absurd (ground (arith, e)));
}
outcome-IsOutcome id ev thash (some old) =
    let (to, from) = outcome_updated_iff id ev thash old in
    record {
      key = refl;
      no_media = refl;
      inserted = (λ h. absurd (ground (arith, h)), λ e. absurd (ground (arith, e)));
      updated = (
        λ h. (old, refl, to h),
        λ (row, e, why). let same : old ≡ row = ground (arith, e) in from (rw (sym same) at why),
      );
    }
