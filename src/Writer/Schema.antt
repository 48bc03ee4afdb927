-- ===== src/Writer/Schema.antt =====
-- writer.go: `EnsureSchema`, which brings a database of an earlier version to the schema of
-- schema.sql. The catalogue has the columns of the tables and the names of the indexes. Names are
-- as the schema writes them; keys play no part in what the migration does. Whether SQLite was built
-- with FTS5 is a parameter.
pub mod Names
pub mod Columns
pub mod Steady
pub mod Scripts
pub mod Success
pub mod Stages
pub mod Migration
use wa_agent_pipeline.Base.{
  ℕ, Text, Bool, true, false, not, ◌&&◌, Option, none, some, List, [], ◌∷◌, ◌++◌, map, Result, ok,
  err, contains, lookup, insert, is_some, ◌==◌, text_eq, if◌then◌else◌,
}
use wa_agent_pipeline.Texts.{text}
use wa_agent_pipeline.Sqlite.{Db, Action, pure, ◌>>=◌, ◌>>◌, query}

pub data ColumnType : Type 0 where
  text_column integer_column : ColumnType

pub record Column : Type 0 where
  pub name : Text
  pub declared : ColumnType
  pub not_null : Bool
  pub default : Option Text

-- The tables and virtual tables with their columns, and the indexes with their tables.
pub record Catalog : Type 0 where
  pub tables : List (Text × List Column)
  pub indexes : List (Text × Text)
  pub virtual_tables : List (Text × List Text)

-- A statement of schema.sql, each create with `if not exists`. Of an index it has the columns that
-- it names, in its condition too.
pub data Statement : Type 0 where
  pragma : Text → Text → Statement
  create_table : Text → List Column → Statement
  create_index : Text → Text → List Text → Statement
  create_fts5 : Text → List Text → Statement

abbrev pub Schema : Type 0
Schema = List Statement

abbrev pub Migrating : Type 0 → Type 0
Migrating = Action Catalog Unit

-- name type, name type not null, and name type not null default value
abbrev pub nullable : Text → ColumnType → Column
nullable n ty = record { name = n; declared = ty; not_null = false; default = none }

abbrev pub required : Text → ColumnType → Column
required n ty = record { name = n; declared = ty; not_null = true; default = none }

abbrev defaulted : Text → ColumnType → Text → Column
defaulted n ty value = record { name = n; declared = ty; not_null = true; default = some value }

abbrev pub groups_table : Text
groups_table = text "whatsapp_groups"

abbrev pub messages_table : Text
messages_table = text "whatsapp_messages"

abbrev pub runs_table : Text
runs_table = text "whatsapp_ingest_runs"

abbrev create_groups : List Column
create_groups =
    nullable (text "jid") text_column
    ∷ required (text "label") text_column
    ∷ nullable (text "purpose") text_column
    ∷ defaulted (text "ingest_text") integer_column (text "1")
    ∷ defaulted (text "ingest_media_metadata") integer_column (text "1")
    ∷ defaulted (text "copy_media") integer_column (text "0")
    ∷ defaulted (text "index_embeddings") integer_column (text "0")
    ∷ nullable (text "retention_days") integer_column
    ∷ required (text "updated_at") integer_column
    ∷ []

abbrev create_messages : List Column
create_messages =
    nullable (text "id") text_column
    ∷ required (text "source_pk") integer_column
    ∷ required (text "chat_jid") text_column
    ∷ required (text "chat_label") text_column
    ∷ required (text "msg_id") text_column
    ∷ nullable (text "sender_jid") text_column
    ∷ nullable (text "sender_name") text_column
    ∷ required (text "ts") integer_column
    ∷ required (text "from_me") integer_column
    ∷ nullable (text "text") text_column
    ∷ required (text "raw_type") integer_column
    ∷ nullable (text "message_type") text_column
    ∷ nullable (text "media_type") text_column
    ∷ nullable (text "media_title") text_column
    ∷ nullable (text "media_path") text_column
    ∷ nullable (text "media_url") text_column
    ∷ nullable (text "media_size") integer_column
    ∷ required (text "text_hash") text_column
    ∷ required (text "ingested_at") integer_column
    ∷ defaulted (text "deleted_or_missing") integer_column (text "0")
    ∷ nullable (text "media_local_path") text_column
    ∷ nullable (text "media_extracted_text") text_column
    ∷ nullable (text "media_extracted_by") text_column
    ∷ nullable (text "media_hydrated_at") integer_column
    ∷ nullable (text "media_hydration_status") text_column
    ∷ defaulted (text "media_hydration_attempts") integer_column (text "0")
    ∷ nullable (text "media_surfaced_at") integer_column
    ∷ []

abbrev create_runs : List Column
create_runs =
    nullable (text "run_id") text_column
    ∷ required (text "started_at") integer_column
    ∷ nullable (text "finished_at") integer_column
    ∷ required (text "mode") text_column
    ∷ defaulted (text "dry_run") integer_column (text "0")
    ∷ required (text "allowed_group_count") integer_column
    ∷ defaulted (text "scanned_messages") integer_column (text "0")
    ∷ defaulted (text "inserted_messages") integer_column (text "0")
    ∷ defaulted (text "updated_messages") integer_column (text "0")
    ∷ defaulted (text "skipped_messages") integer_column (text "0")
    ∷ defaulted (text "media_copied") integer_column (text "0")
    ∷ required (text "status") text_column
    ∷ nullable (text "error") text_column
    ∷ []

abbrev first_index : Text
first_index = text "idx_whatsapp_messages_chat_ts"

-- schema.sql
abbrev pub schema : Schema
schema =
    pragma (text "journal_mode") (text "wal")
    ∷ pragma (text "synchronous") (text "normal")
    ∷ pragma (text "foreign_keys") (text "on")
    ∷ create_table groups_table create_groups
    ∷ create_table messages_table create_messages
    ∷ create_index first_index messages_table (text "chat_jid" ∷ text "ts" ∷ [])
    ∷ create_index (text "idx_whatsapp_messages_sender_ts") messages_table
        (text "sender_jid" ∷ text "ts" ∷ [])
    ∷ create_index (text "idx_whatsapp_messages_source_pk") messages_table (text "source_pk" ∷ [])
    ∷ create_index (text "idx_whatsapp_messages_media_hydrated_at") messages_table
        (text "media_hydrated_at" ∷ [])
    ∷ create_fts5 (text "whatsapp_messages_fts")
        (text "id" ∷ text "text" ∷ text "chat_label" ∷ text "sender_name" ∷ text "media_title" ∷ [])
    ∷ create_table runs_table create_runs
    ∷ []

abbrev pub names : List Column → List Text
names cols = map (λ (c : Column). c.name) cols

-- The rows of pragma table_info: a table that is not there has none.
abbrev columns_of : Option (List Column) → List Column
columns_of none = []
columns_of (some cols) = cols

unfoldable pub table_info : Text → Catalog → List Text
table_info table c = names (columns_of (lookup table c.tables))

abbrev pub has_all : List Text → List Text → Bool
has_all have [] = true
has_all have (n ∷ ns) = contains have n && has_all have ns

-- What SQLite does with a statement.
unfoldable pub apply : Bool → Statement → Catalog → Result Text (Unit × Catalog)
unfolding table_info
apply fts5 (pragma _ _) c = ok (tt, c)
apply fts5 (create_table table cols) c =
    if is_some (lookup table c.tables)
    then ok (tt, c)
    else ok (tt, record c { tables = insert table cols c.tables })
apply fts5 (create_index index table ns) c =
    if is_some (lookup index c.indexes)
    then ok (tt, c)
    else if not (is_some (lookup table c.tables))
    then err (text "no such table: " ++ table)
    else if has_all (table_info table c) ns
    then ok (tt, record c { indexes = insert index table c.indexes })
    else err (text "table has no such column")
apply fts5 (create_fts5 table ns) c =
    if is_some (lookup table c.virtual_tables)
    then ok (tt, c)
    else if fts5
    then ok (tt, record c { virtual_tables = insert table ns c.virtual_tables })
    else err (text "no such module: fts5")

-- alter table ... add column
abbrev added : Text → Column → Option (List Column) → Catalog → Result Text (Unit × Catalog)
added table col none c = err (text "no such table: " ++ table)
added table col (some cols) c =
    if contains (names cols) col.name
    then err (text "duplicate column name: " ++ col.name)
    else if col.not_null && not (is_some col.default)
    then err (text "Cannot add a NOT NULL column with default value NULL")
    else ok (tt, record c { tables = insert table (cols ++ col ∷ []) c.tables })

unfoldable pub add_column : Text → Column → Catalog → Result Text (Unit × Catalog)
add_column table col c = added table col (lookup table c.tables) c

-- `ExecScript`: it stops at the first error.
unfoldable pub exec_script : Bool → Schema → Migrating Unit
exec_script fts5 [] = pure tt
exec_script fts5 (s ∷ rest) = query (apply fts5 s) >> exec_script fts5 rest

-- strings.Index finds the text of this statement.
abbrev is_marker : Statement → Bool
is_marker (create_index index _ _) = index == first_index
is_marker _ = false

unfoldable pub split_schema : Schema → Schema × Schema
split_schema [] = ([], [])
split_schema (s ∷ rest) =
    let (base, post) = split_schema rest in if is_marker s then ([], s ∷ rest) else (s ∷ base, post)

abbrev pub group_columns : List Column
group_columns =
    nullable (text "purpose") text_column
    ∷ defaulted (text "ingest_text") integer_column (text "1")
    ∷ defaulted (text "ingest_media_metadata") integer_column (text "1")
    ∷ defaulted (text "copy_media") integer_column (text "0")
    ∷ defaulted (text "index_embeddings") integer_column (text "0")
    ∷ nullable (text "retention_days") integer_column
    ∷ defaulted (text "updated_at") integer_column (text "0")
    ∷ []

abbrev pub message_columns : List Column
message_columns =
    nullable (text "media_url") text_column
    ∷ nullable (text "media_size") integer_column
    ∷ defaulted (text "deleted_or_missing") integer_column (text "0")
    ∷ nullable (text "media_local_path") text_column
    ∷ nullable (text "media_extracted_text") text_column
    ∷ nullable (text "media_extracted_by") text_column
    ∷ nullable (text "media_hydrated_at") integer_column
    ∷ nullable (text "media_hydration_status") text_column
    ∷ defaulted (text "media_hydration_attempts") integer_column (text "0")
    ∷ nullable (text "media_surfaced_at") integer_column
    ∷ []

abbrev pub run_columns : List Column
run_columns =
    defaulted (text "started_at") integer_column (text "0")
    ∷ nullable (text "finished_at") integer_column
    ∷ defaulted (text "mode") text_column (text "''")
    ∷ defaulted (text "dry_run") integer_column (text "0")
    ∷ defaulted (text "allowed_group_count") integer_column (text "0")
    ∷ defaulted (text "scanned_messages") integer_column (text "0")
    ∷ defaulted (text "inserted_messages") integer_column (text "0")
    ∷ defaulted (text "updated_messages") integer_column (text "0")
    ∷ defaulted (text "skipped_messages") integer_column (text "0")
    ∷ defaulted (text "media_copied") integer_column (text "0")
    ∷ defaulted (text "status") text_column (text "''")
    ∷ nullable (text "error") text_column
    ∷ []

-- fmt.Errorf("migrate %s.%s: %w", table, col.name, err)
abbrev migrating : Text → Text → Result Text Unit → Result Text Unit
migrating table col (ok _) = ok tt
migrating table col (err e) = err (text "migrate " ++ table ++ text "." ++ col ++ text ": " ++ e)

-- `have` is read once, before the first column is added.
unfoldable pub add_columns : Text → List Text → List Column → Migrating Unit
add_columns table have [] = pure tt
add_columns table have (col ∷ cols) =
    let rest = add_columns table have cols in
    if contains have col.name
    then rest
    else (λ d. let (r, d') = query (add_column table col) d in (migrating table col.name r, d'))
      >> rest

unfoldable pub add_missing_columns : Text → List Column → Migrating Unit
add_missing_columns table cols =
    query (λ c. ok (table_info table c, c)) >>= λ have. add_columns table have cols

-- The first argument is ctx.Err().
unfoldable pub ensure_schema : Option Text → Bool → Migrating Unit
ensure_schema (some e) fts5 = λ d. (err e, d)
ensure_schema none fts5 =
    exec_script fts5 (split_schema schema).0
    >> add_missing_columns groups_table group_columns
    >> add_missing_columns messages_table message_columns
    >> exec_script fts5 (split_schema schema).1
    >> add_missing_columns runs_table run_columns
