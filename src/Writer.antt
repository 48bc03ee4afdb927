-- ===== src/Writer.antt =====
-- whatsapp-daemon/internal/writer/writer.go: the message store. This file has the data, the tables
-- of schema.sql as maps under their primary keys, and the functions on texts; `Writer/Store.antt`
-- has the transactions and `Write`. SHA-256 in hexadecimal is a parameter.
pub mod Store
pub mod Write
pub mod PathParts
pub mod Schema
use wa_agent_pipeline.Base.{
  ℕ, suc, ◌+◌, Text, Bool, true, false, not, ◌&&◌, ◌||◌, Option, none, some, List, [], ◌∷◌, ◌++◌,
  contains, ◌==◌, text_eq, nat_eq, ltb, leb, take, if◌then◌else◌,
}
use wa_agent_pipeline.Base.Int.{ℤ, pos, int_eq}
use wa_agent_pipeline.Texts.{text, join, has_prefix, has_infix, to_lower, byte_length}
use wa_agent_pipeline.Texts.Decimal.{print_int}

-- `Event`
pub record Event : Type 0 where
  pub chat_jid : Text
  pub chat_label : Text
  pub msg_id : Text
  pub sender_jid : Text
  pub sender_name : Text
  pub timestamp : ℤ
  pub from_me : Bool
  pub body : Text
  pub raw_type : ℕ
  pub message_type : Text
  pub media_type : Text
  pub media_title : Text
  pub media_path : Text
  pub media_url : Text
  pub media_size : ℤ
  pub media_bytes : List ℕ
  pub media_ext : Text
  pub media_hydration_status : Text
  pub media_hydration_attempts : ℕ
  pub source_pk : ℤ

-- `Result`
pub record WriteResult : Type 0 where
  pub id : Text
  pub inserted : Bool
  pub updated : Bool
  pub media_path : Text

abbrev pub no_result : WriteResult
no_result = record { id = []; inserted = false; updated = false; media_path = [] }

-- A row of whatsapp_messages; a nullable column is an `Option`.
pub record MessageRow : Type 0 where
  pub source_pk : ℤ
  pub chat_jid : Text
  pub chat_label : Text
  pub msg_id : Text
  pub sender_jid : Option Text
  pub sender_name : Option Text
  pub ts : ℤ
  pub from_me : Bool
  pub body : Option Text
  pub raw_type : ℕ
  pub message_type : Option Text
  pub media_type : Option Text
  pub media_title : Option Text
  pub media_path : Option Text
  pub media_url : Option Text
  pub media_size : Option ℤ
  pub text_hash : Text
  pub ingested_at : ℤ
  pub deleted_or_missing : Bool
  pub media_local_path : Option Text
  pub media_extracted_text : Option Text
  pub media_extracted_by : Option Text
  pub media_hydrated_at : Option ℤ
  pub media_hydration_status : Option Text
  pub media_hydration_attempts : ℕ
  pub media_surfaced_at : Option ℤ

-- A row of whatsapp_groups.
pub record GroupRow : Type 0 where
  pub label : Text
  pub purpose : Text
  pub ingest_text : Bool
  pub ingest_media_metadata : Bool
  pub copy_media : Bool
  pub index_embeddings : Bool
  pub retention_days : Option ℤ
  pub updated_at : ℤ

-- A row of whatsapp_messages_fts.
pub record FtsRow : Type 0 where
  pub id : Text
  pub body : Text
  pub chat_label : Text
  pub sender_name : Text
  pub media_title : Text

-- A row of whatsapp_ingest_runs. The column `error` is never written.
pub record RunRow : Type 0 where
  pub started_at : ℤ
  pub finished_at : Option ℤ
  pub mode : Text
  pub dry_run : Bool
  pub allowed_group_count : ℕ
  pub scanned_messages : ℕ
  pub inserted_messages : ℕ
  pub updated_messages : ℕ
  pub skipped_messages : ℕ
  pub media_copied : ℕ
  pub status : Text

pub record Tables : Type 0 where
  pub groups : List (Text × GroupRow)
  pub messages : List (Text × MessageRow)
  pub fts : List FtsRow
  pub runs : List (Text × RunRow)

unfoldable pub null_empty : Text → Option Text
null_empty [] = none
null_empty (c ∷ s) = some (c ∷ s)

unfoldable pub null_zero : ℤ → Option ℤ
null_zero v = if v == pos 0 then none else some v

-- `parts` joined by the character NUL.
abbrev nul : Text
nul = 0 ∷ []

module _ (sha256_hex : Text → Text) where
  unfoldable pub stable_message_id : Text → Text → Text → ℤ → ℤ → Text
  stable_message_id chat_jid msg_id sender_jid ts source_pk =
      sha256_hex
        (join nul (chat_jid ∷ msg_id ∷ sender_jid ∷ print_int ts ∷ print_int source_pk ∷ []))

  unfoldable pub text_hash : Text → Text → Text
  text_hash body media_title = sha256_hex (body ++ nul ++ media_title)

  -- The first 16 of the 32 bytes are the first 32 hexadecimal digits.
  unfoldable pub stable_run_id : Text → ℤ → Text
  stable_run_id message_id now = take 32 (sha256_hex (print_int now ++ nul ++ message_id))

unfoldable pub is_fts_unavailable : Text → Bool
is_fts_unavailable msg =
    has_infix (text "no such module: fts5") msg
    || has_infix (text "no such table: whatsapp_messages_fts") msg

-- A character of `[A-Za-z0-9@._-]`.
unfoldable pub is_safe : ℕ → Bool
is_safe c =
    (leb b'A' c && leb c b'Z')
    || (leb b'a' c && leb c b'z')
    || (leb b'0' c && leb c b'9')
    || c == b'@'
    || c == b'.'
    || c == b'_'
    || c == b'-'

-- `unsafePath.ReplaceAllString(v, "_")`: each longest run of other characters becomes one '_'.
-- The flag says that the character before was in such a run.
unfoldable pub replace_unsafe : Bool → Text → Text
replace_unsafe in_run [] = []
replace_unsafe in_run (c ∷ s) =
    let rest = replace_unsafe (not (is_safe c)) s in
    if is_safe c then c ∷ rest else if in_run then rest else b'_' ∷ rest

-- strings.Trim(v, "._")
abbrev is_trimmed_char : ℕ → Bool
is_trimmed_char c = c == b'.' || c == b'_'

unfoldable pub trim_start : Text → Text
trim_start [] = []
trim_start (c ∷ s) = if is_trimmed_char c then trim_start s else c ∷ s

abbrev keep_end : ℕ → Text → Text
keep_end c [] = if is_trimmed_char c then [] else c ∷ []
keep_end c (d ∷ s) = c ∷ d ∷ s

unfoldable pub trim_end : Text → Text
trim_end [] = []
trim_end (c ∷ s) = keep_end c (trim_end s)

abbrev or_unknown : Text → Text
or_unknown [] = text "unknown"
or_unknown (c ∷ s) = c ∷ s

unfoldable pub safe_path_part : Text → Text
unfolding is_safe replace_unsafe trim_start trim_end
safe_path_part v = or_unknown (trim_end (trim_start (replace_unsafe false v)))

abbrev with_dot : Text → Text
with_dot ext = if has_prefix (text ".") ext then ext else b'.' ∷ ext

unfoldable pub clean_ext : Text → Text
clean_ext [] = []
clean_ext (c ∷ s) =
    let ext = with_dot (c ∷ s) in
    if contains ext b'/' || contains ext b'\\' || ltb 12 (byte_length ext) then [] else to_lower ext

unfoldable pub ext_for_type : Text → Text
ext_for_type t =
    let kind = to_lower t in
    if kind == text "image"
    then text ".jpg"
    else if kind == text "video"
    then text ".mp4"
    else if kind == text "audio" || kind == text "ptt"
    then text ".ogg"
    else if kind == text "sticker"
    then text ".webp"
    else text ".bin"
