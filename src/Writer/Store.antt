-- ===== src/Writer/Store.antt =====
-- writer.go: the transactions of the message store, `EnsureGroups` and `Write`. Each SQL statement
-- is a function on the tables. `now n` is the n-th reading of the clock, in Unix seconds. Counters
-- in the tables are counts of messages and attempts, far below 2^63.
use wa_agent_pipeline.Base.{
  ℕ, suc, ◌+◌, Text, Bool, true, false, not, ◌&&◌, ◌||◌, Option, none, some, List, [], ◌∷◌, ◌++◌,
  Result, ok, err, ◌==◌, text_eq, nat_eq, length, lookup, insert, is_some, if◌then◌else◌,
}
use wa_agent_pipeline.Base.Int.{ℤ, int_eq}
use wa_agent_pipeline.Texts.{text}
use wa_agent_pipeline.Config.{Group}
use wa_agent_pipeline.Files.{Files}
use wa_agent_pipeline.Sqlite.{Db, Action, pure, ◌>>=◌, ◌>>◌, query, with_tx}
use wa_agent_pipeline.Writer.{
  Event, WriteResult, MessageRow, GroupRow, FtsRow, RunRow, Tables, null_empty, null_zero,
  stable_run_id, is_fts_unavailable,
}

-- The field of the writer that a transaction writes beside the tables.
pub record Memory : Type 0 where
  pub fts_unavailable : Bool

abbrev pub Store : Type 0
Store = Db Tables Memory

abbrev pub Tx : Type 0 → Type 0
Tx = Action Tables Memory

-- `Writer`, with the environment that it acts on.
pub record Writer : Type 0 where
  pub db : Store
  pub files : Files
  pub media_root : Text
  pub now : ℕ → ℤ
  pub readings : ℕ
  pub allowed_group_count : ℕ

abbrev group_row : Group → ℤ → GroupRow
group_row g now = record {
  label = g.label;
  purpose = g.purpose;
  ingest_text = g.ingest_text;
  ingest_media_metadata = g.ingest_media_metadata;
  copy_media = g.copy_media;
  index_embeddings = g.index_embeddings;
  retention_days = g.retention_days;
  updated_at = now;
}

upsert_group : Group → ℤ → Tx Unit
upsert_group g now =
    query λ t. ok (tt, record t { groups = insert g.jid (group_row g now) t.groups })

upsert_groups : List Group → ℤ → Tx Unit
unfolding upsert_group
upsert_groups [] now = pure tt
upsert_groups (g ∷ rest) now = upsert_group g now >> upsert_groups rest now

unfoldable pub ensure_groups : List Group → Writer → Result Text Unit × Writer
unfolding upsert_groups
ensure_groups groups w =
    let (r, db) = with_tx (upsert_groups groups (w.now w.readings)) w.db in
    (r, record w { db = db; readings = suc w.readings; allowed_group_count = length groups })

-- The row that the statement's values make.
abbrev pub new_row : Event → Text → ℤ → MessageRow
new_row ev thash now = record {
  source_pk = ev.source_pk;
  chat_jid = ev.chat_jid;
  chat_label = ev.chat_label;
  msg_id = ev.msg_id;
  sender_jid = null_empty ev.sender_jid;
  sender_name = null_empty ev.sender_name;
  ts = ev.timestamp;
  from_me = ev.from_me;
  body = null_empty ev.body;
  raw_type = ev.raw_type;
  message_type = null_empty ev.message_type;
  media_type = null_empty ev.media_type;
  media_title = null_empty ev.media_title;
  media_path = null_empty ev.media_path;
  media_url = null_empty ev.media_url;
  media_size = null_zero ev.media_size;
  text_hash = thash;
  ingested_at = now;
  deleted_or_missing = false;
  media_local_path = none;
  media_extracted_text = none;
  media_extracted_by = none;
  media_hydrated_at = none;
  media_hydration_status = null_empty ev.media_hydration_status;
  media_hydration_attempts =
      if is_some (null_empty ev.media_hydration_status) then ev.media_hydration_attempts else 0;
  media_surfaced_at = none;
}

-- `on conflict(id) do update set …`
abbrev pub merge_row : MessageRow → MessageRow → MessageRow
merge_row old excluded = record old {
  sender_name = excluded.sender_name;
  body = excluded.body;
  message_type = excluded.message_type;
  media_type = excluded.media_type;
  media_title = excluded.media_title;
  media_path = excluded.media_path;
  media_url = excluded.media_url;
  media_size = excluded.media_size;
  text_hash = excluded.text_hash;
  ingested_at = excluded.ingested_at;
  deleted_or_missing = false;
  media_hydration_status =
      if is_some excluded.media_hydration_status
      then excluded.media_hydration_status
      else old.media_hydration_status;
  media_hydration_attempts =
      if is_some excluded.media_hydration_status
      then old.media_hydration_attempts + excluded.media_hydration_attempts
      else old.media_hydration_attempts;
}

-- The table's foreign key wants the chat among the groups; only an insertion can break it.
abbrev upsert_row : Text → MessageRow → Option MessageRow → Tables → Result Text (Unit {0} × Tables)
upsert_row id row none t =
    if is_some (lookup row.chat_jid t.groups)
    then ok (tt, record t { messages = insert id row t.messages })
    else err (text "FOREIGN KEY constraint failed")
upsert_row id row (some old) t =
    ok (tt, record t { messages = insert id (merge_row old row) t.messages })

unfoldable pub upsert_message : Text → MessageRow → Tx Unit
upsert_message id row = query λ t. upsert_row id row (lookup id t.messages) t

abbrev pub hash_of : Option MessageRow → Option Text
hash_of none = none
hash_of (some row) = some row.text_hash

unfoldable pub select_text_hash : Text → Tx (Option Text)
select_text_hash id = query λ t. ok (hash_of (lookup id t.messages), t)

unfoldable pub without_fts : Text → List FtsRow → List FtsRow
without_fts id [] = []
without_fts id (r ∷ rest) = let kept = without_fts id rest in if r.id == id then kept else r ∷ kept

delete_fts : Text → Tx Unit
unfolding without_fts
delete_fts id = query λ t. ok (tt, record t { fts = without_fts id t.fts })

abbrev fts_row : Text → Event → FtsRow
fts_row id ev = record {
  id = id;
  body = ev.body;
  chat_label = ev.chat_label;
  sender_name = ev.sender_name;
  media_title = ev.media_title;
}

insert_fts : Text → Event → Tx Unit
insert_fts id ev = query λ t. ok (tt, record t { fts = t.fts ++ fts_row id ev ∷ [] })

-- `handleFTSError`, at an error of the statement before it.
unfoldable pub handle_fts_error : Text → Tx Unit
handle_fts_error e d =
    if is_fts_unavailable e
    then (ok tt, record d { memory = record { fts_unavailable = true } })
    else (err e, d)

abbrev fts_step : Tx Unit → Tx Unit → Tx Unit
fts_step m next d = let (r, d') = m d in elim r [ err e ↦ handle_fts_error e d' | ok _ ↦ next d' ]

unfoldable pub refresh_fts : Text → Event → Tx Unit
unfolding delete_fts insert_fts handle_fts_error
refresh_fts id ev d =
    if d.memory.fts_unavailable
    then (ok tt, d)
    else fts_step (delete_fts id) (fts_step (insert_fts id ev) (pure tt)) d

abbrev one_if : Bool → ℕ
one_if true = 1
one_if false = 0

abbrev pub run_row : ℤ → WriteResult → Bool → ℕ → RunRow
run_row now res media_pending allowed = record {
  started_at = now;
  finished_at = some now;
  mode = text "whatsmeow-live";
  dry_run = false;
  allowed_group_count = allowed;
  scanned_messages = 1;
  inserted_messages = one_if res.inserted;
  updated_messages = one_if (not res.inserted && res.updated);
  skipped_messages = one_if (not res.inserted && not res.updated);
  media_copied = 0;
  status = if media_pending then text "pending" else text "ok";
}

abbrev merge_run : Option RunRow → RunRow → RunRow
merge_run none excluded = excluded
merge_run (some old) excluded = record old {
  finished_at = excluded.finished_at;
  scanned_messages = old.scanned_messages + excluded.scanned_messages;
  inserted_messages = old.inserted_messages + excluded.inserted_messages;
  updated_messages = old.updated_messages + excluded.updated_messages;
  skipped_messages = old.skipped_messages + excluded.skipped_messages;
  status = excluded.status;
}

upsert_run : Text → RunRow → Tx Unit
upsert_run id row =
    query λ t. ok (tt, record t { runs = insert id (merge_run (lookup id t.runs) row) t.runs })

abbrev pub non_empty : List ℕ → Bool
non_empty [] = false
non_empty (c ∷ s) = true

-- What `Write` finds out about the message before it stores it.
abbrev pub outcome : Text → Event → Text → Option Text → WriteResult
outcome id ev thash existing = record {
  id = id;
  inserted = not (is_some existing);
  updated = elim existing [
    | none ↦ false
    | some old ↦ not (old == thash) || is_some (null_empty ev.media_hydration_status)
  ];
  media_path = [];
}

module _ (sha256_hex : Text → Text) where
  unfoldable pub record_run : Text → ℤ → WriteResult → Bool → ℕ → Tx Text
  unfolding upsert_run
  record_run id now res media_pending allowed = do
    let run_id = stable_run_id sha256_hex id now
    upsert_run run_id (run_row now res media_pending allowed)
    pure run_id

  -- The closure of `Write`'s transaction: the message, its index entry and its run.
  unfoldable pub store_message : Text → Text → ℤ → ℕ → Event → Tx (WriteResult × Text)
  unfolding select_text_hash upsert_message refresh_fts record_run
  store_message id thash now allowed ev = do
    existing ← select_text_hash id
    let res = outcome id ev thash existing
    upsert_message id (new_row ev thash now)
    refresh_fts id ev
    run_id ← record_run id now res (non_empty ev.media_bytes) allowed
    pure (res, run_id)
