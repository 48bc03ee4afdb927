-- ===== src/Tests/Migrating.antt =====
-- The theorems on the migration of the schema, at a database of an earlier version.
use wa_agent_pipeline.Base.{
  true, false, ◌≡◌, refl, none, some, [], ◌∷◌, ok, lookup, contains, leb, if◌then◌else◌, beq_text,
}
use wa_agent_pipeline.Texts.{text}
use wa_agent_pipeline.Sqlite.{Engine, Db}
use wa_agent_pipeline.Writer.Schema.{
  Catalog, nullable, required, text_column, integer_column, groups_table, messages_table,
  ensure_schema,
}
use wa_agent_pipeline.Writer.Schema.Columns.{Grows, IsMigratable, IsMigratable-of}
use wa_agent_pipeline.Writer.Schema.Migration.{ensure_schema-IsComplete, ensure_schema_resumes}
use wa_agent_pipeline.Writer.Schema.Stages.{IsComplete}
use wa_agent_pipeline.Tests.{quiet}

-- From the fourth call on all fail, as on a full disk.
abbrev full_disk : Engine
full_disk = record {
  fault = λ n. if leb 3 n then some (text "disk full") else none;
  stays_open = λ n. false;
}

-- Groups and messages without the columns that were added since, and no runs.
abbrev old_catalog : Catalog
old_catalog = record {
  tables =
      (
        groups_table,
        nullable (text "jid") text_column
            ∷ required (text "label") text_column
            ∷ nullable (text "purpose") text_column
            ∷ [],
      )
      ∷ (
        messages_table,
        nullable (text "id") text_column
            ∷ required (text "source_pk") integer_column
            ∷ required (text "chat_jid") text_column
            ∷ required (text "chat_label") text_column
            ∷ required (text "msg_id") text_column
            ∷ nullable (text "sender_jid") text_column
            ∷ nullable (text "sender_name") text_column
            ∷ required (text "ts") integer_column
            ∷ required (text "from_me") integer_column
            ∷ nullable (text "text") text_column
            ∷ required (text "raw_type") integer_column
            ∷ nullable (text "message_type") text_column
            ∷ nullable (text "media_type") text_column
            ∷ nullable (text "media_title") text_column
            ∷ nullable (text "media_path") text_column
            ∷ required (text "text_hash") text_column
            ∷ required (text "ingested_at") integer_column
            ∷ [],
      )
      ∷ [];
  indexes = [];
  virtual_tables = [];
}

abbrev old_database : Engine → Db Catalog Unit
old_database engine = record {
  tables = old_catalog;
  before = none;
  memory = tt;
  calls = 0;
  engine = engine;
}

old_catalog-IsMigratable : IsMigratable old_catalog
unfolding lookup contains beq_text
old_catalog-IsMigratable = IsMigratable-of old_catalog (refl, (refl, tt))

ensure_schema-IsComplete_example :
    ((ensure_schema none true (old_database quiet)).0 ≡ ok tt)
    × IsComplete (ensure_schema none true (old_database quiet)).1.tables
    × Grows old_catalog (ensure_schema none true (old_database quiet)).1.tables
ensure_schema-IsComplete_example =
    ensure_schema-IsComplete (old_database quiet) (λ n. refl) old_catalog-IsMigratable

ensure_schema_resumes_example :
    let stopped = record ((ensure_schema none true (old_database full_disk)).1) {
      engine = quiet;
    } in
    Grows old_catalog stopped.tables
    × ((ensure_schema none true stopped).0 ≡ ok tt)
    × IsComplete (ensure_schema none true stopped).1.tables
ensure_schema_resumes_example =
    ensure_schema_resumes none true quiet (old_database full_disk) (λ n. refl)
      old_catalog-IsMigratable
