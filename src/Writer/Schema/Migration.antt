-- ===== src/Writer/Schema/Migration.antt =====
-- writer.go: `EnsureSchema` brings a database of an earlier version to the schema of schema.sql.
use wa_agent_pipeline.Base.{
  ℕ, Text, ◌≡◌, refl, Bool, true, Option, none, some, ok, contains, lookup, text_eq, All, beq_text,
}
use wa_agent_pipeline.Sqlite.{Engine, Db, ◌>>◌}
use wa_agent_pipeline.Writer.Schema.{
  Catalog, Migrating, exec_script, split_schema, add_missing_columns, ensure_schema, groups_table,
  messages_table, runs_table, group_columns, message_columns, run_columns,
}
use wa_agent_pipeline.Writer.Schema.Columns.{IsMigratable, Grows, Grows-refl}
use wa_agent_pipeline.Writer.Schema.Steady.{
  IsSteady, bind-IsSteady, exec_script-IsSteady, add_missing_columns-IsSteady,
}
use wa_agent_pipeline.Writer.Schema.Steady.{
  IsSteady, bind-IsSteady, exec_script-IsSteady, add_missing_columns-IsSteady,
}
use wa_agent_pipeline.Writer.Schema.Scripts.{IsQuiet, Created, Succeeds, exec_script_ok}
use wa_agent_pipeline.Writer.Schema.Stages.{
  IsComplete, IsQuiet-kept, in_turn, add_missing_columns_ok, base, post, base-IsSound, post-IsSound,
  HasColumns, Based, Grouped, Messaged, Posted, Migrated, Based-IsStable, Grouped-IsStable,
  Messaged-IsStable, Posted-IsStable, Messaged-Runs, Migrated-IsComplete,
}

module _ (fts5 : Bool) where
  abbrev to_base : Migrating Unit
  to_base = exec_script fts5 base

  abbrev to_groups : Migrating Unit
  to_groups = to_base >> add_missing_columns groups_table group_columns

  abbrev to_messages : Migrating Unit
  to_messages = to_groups >> add_missing_columns messages_table message_columns

  abbrev to_post : Migrating Unit
  to_post = to_messages >> exec_script fts5 post

  to_base-IsSteady : IsSteady to_base
  to_base-IsSteady = exec_script-IsSteady fts5 base base-IsSound

  to_groups-IsSteady : IsSteady to_groups
  to_groups-IsSteady =
      bind-IsSteady to_base _ to_base-IsSteady
        (λ _. add_missing_columns-IsSteady groups_table group_columns)

  to_messages-IsSteady : IsSteady to_messages
  to_messages-IsSteady =
      bind-IsSteady to_groups _ to_groups-IsSteady
        (λ _. add_missing_columns-IsSteady messages_table message_columns)

  to_post-IsSteady : IsSteady to_post
  to_post-IsSteady =
      bind-IsSteady to_messages _ to_messages-IsSteady
        (λ _. exec_script-IsSteady fts5 post post-IsSound)

  ensure_schema-IsSteady : (expired : Option Text) → IsSteady (ensure_schema expired fts5)
  unfolding ensure_schema
  ensure_schema-IsSteady (some e) = record { grows = λ d. Grows-refl d.tables; engine = λ d. refl }
  ensure_schema-IsSteady none =
      bind-IsSteady to_post _ to_post-IsSteady
        (λ _. add_missing_columns-IsSteady runs_table run_columns)

  to_base_ok :
      (d : Db Catalog Unit) → IsQuiet d → IsMigratable d.tables → Succeeds (to_base d) Based
  unfolding split_schema contains lookup beq_text
  to_base_ok d q v =
      let (fine, made) =
        exec_script_ok fts5 base d q base-IsSound (tt, (tt, (tt, (tt, (tt, tt))))) in
      (fine, ((to_base-IsSteady.grows d).migratable v, made))

  to_groups_ok :
      (d : Db Catalog Unit) → IsQuiet d → IsMigratable d.tables → Succeeds (to_groups d) Grouped
  unfolding split_schema contains lookup beq_text
  to_groups_ok d q v =
      in_turn to_base _ d Based (HasColumns groups_table group_columns) Based-IsStable
        (add_missing_columns-IsSteady groups_table group_columns) (to_base_ok d q v)
        (λ h.
          add_missing_columns_ok groups_table group_columns _
            (IsQuiet-kept to_base to_base-IsSteady d q) h.1.1.1.1.0 refl refl)

  to_messages_ok :
      (d : Db Catalog Unit) → IsQuiet d → IsMigratable d.tables → Succeeds (to_messages d) Messaged
  unfolding split_schema contains lookup beq_text
  to_messages_ok d q v =
      in_turn to_groups _ d Grouped (HasColumns messages_table message_columns) Grouped-IsStable
        (add_missing_columns-IsSteady messages_table message_columns) (to_groups_ok d q v)
        (λ h.
          add_missing_columns_ok messages_table message_columns _
            (IsQuiet-kept to_groups to_groups-IsSteady d q) h.0.1.1.1.1.1.0 refl refl)

  to_post_ok :
      (d : Db Catalog Unit)
      → fts5 ≡ true
      → IsQuiet d
      → IsMigratable d.tables
      → Succeeds (to_post d) Posted
  to_post_ok d built q v =
      in_turn to_messages _ d Messaged (λ c. All (Created c) post) Messaged-IsStable
        (exec_script-IsSteady fts5 post post-IsSound) (to_messages_ok d q v)
        (λ h.
          exec_script_ok fts5 post _ (IsQuiet-kept to_messages to_messages-IsSteady d q)
            post-IsSound (Messaged-Runs fts5 _ built h))

  ensure_schema_ok :
      (d : Db Catalog Unit)
      → fts5 ≡ true
      → IsQuiet d
      → IsMigratable d.tables
      → Succeeds (ensure_schema none fts5 d) Migrated
  unfolding ensure_schema split_schema contains lookup beq_text
  ensure_schema_ok d built q v =
      in_turn to_post _ d Posted (HasColumns runs_table run_columns) Posted-IsStable
        (add_missing_columns-IsSteady runs_table run_columns) (to_post_ok d built q v)
        (λ h.
          add_missing_columns_ok runs_table run_columns _
            (IsQuiet-kept to_post to_post-IsSteady d q) h.1.1.1.1.1.1.0 refl refl)

-- On a database whose tables have the columns that an earlier version gave them, where every call
-- goes through and SQLite has FTS5, EnsureSchema succeeds: every table of schema.sql has all its
-- columns, every index and the full-text table are there, and no table, column or index is lost.
pub ensure_schema-IsComplete :
    (d : Db Catalog Unit)
    → IsQuiet d
    → IsMigratable d.tables
    → ((ensure_schema none true d).0 ≡ ok tt)
      × IsComplete (ensure_schema none true d).1.tables
      × Grows d.tables (ensure_schema none true d).1.tables
ensure_schema-IsComplete d q v =
    let (fine, migrated) = ensure_schema_ok true d refl q v in
    (fine, Migrated-IsComplete _ migrated, (ensure_schema-IsSteady true none).grows d)

-- Whatever stops EnsureSchema on such a database, a fault at any of its calls, a missing FTS5 or a
-- context that is done, no table, column or index is lost, and a later run on an engine that lets
-- every call through succeeds and completes the schema.
pub ensure_schema_resumes :
    (expired : Option Text) (fts5 : Bool) (later : Engine) (d : Db Catalog Unit)
    → ((n : ℕ) → later.fault n ≡ none)
    → IsMigratable d.tables
    → let stopped = record ((ensure_schema expired fts5 d).1) { engine = later } in
      Grows d.tables stopped.tables
      × ((ensure_schema none true stopped).0 ≡ ok tt)
      × IsComplete (ensure_schema none true stopped).1.tables
ensure_schema_resumes expired fts5 later d q v =
    let stopped : Db Catalog Unit = record ((ensure_schema expired fts5 d).1) { engine = later } in
    let grown = (ensure_schema-IsSteady fts5 expired).grows d in
    let (fine, complete, _) = ensure_schema-IsComplete stopped q (grown.migratable v) in
    (grown, fine, complete)
