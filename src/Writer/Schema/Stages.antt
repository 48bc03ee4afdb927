-- ===== src/Writer/Schema/Stages.antt =====
-- writer.go: what each stage of `EnsureSchema` leaves.
use wa_agent_pipeline.Base.{
  suc, Text, ◌≡◌, refl, sym, ap, ◌∙◌, Bool, true, List, [], ◌∷◌, ◌++◌, Result, ok, contains, lookup,
  is_some, text_eq, All, beq_text,
}
use mathlib.Core.Path.{subst}
use wa_agent_pipeline.Texts.{text}
use wa_agent_pipeline.Sqlite.{Db, ◌>>◌, query}
use wa_agent_pipeline.Sqlite.Transactions.{bind_ok}
use wa_agent_pipeline.Writer.Schema.{
  Column, Catalog, Statement, pragma, create_table, create_index, create_fts5, Schema, schema,
  Migrating, create_groups, create_messages, create_runs, names, table_info, has_all, split_schema,
  add_columns, add_missing_columns, groups_table, messages_table, runs_table, group_columns,
  message_columns, run_columns,
}
use wa_agent_pipeline.Writer.Schema.Columns.{kept, IsMigratable, Grows, IsSound}
use wa_agent_pipeline.Writer.Schema.Names.{has_all_mono, has_all-cover}
use wa_agent_pipeline.Writer.Schema.Steady.{IsSteady}
use wa_agent_pipeline.Writer.Schema.Steady.{IsSteady}
use wa_agent_pipeline.Writer.Schema.Success.{all_distinct, all_addable, add_columns_ok}
use wa_agent_pipeline.Writer.Schema.Scripts.{
  IsQuiet, Runs, Created, Created-Grows, Succeeds, query_quiet,
}

-- What schema.sql asks for is there.
abbrev pub Present : Catalog → Statement → Type 0
Present c (pragma _ _) = Unit
Present c (create_table table cols) = has_all (table_info table c) (names cols) ≡ true
Present c (create_index index _ _) = is_some (lookup index c.indexes) ≡ true
Present c (create_fts5 table _) = is_some (lookup table c.virtual_tables) ≡ true

abbrev pub IsComplete : Catalog → Type 0
IsComplete c = All (Present c) schema

pub IsStable : (Catalog → Type 0) → Type 0
IsStable Q = (c c' : Catalog) → Grows c c' → Q c → Q c'

pub IsQuiet-kept :
    {A : Type 0} (m : Migrating A)
    → IsSteady m
    → (d : Db Catalog Unit) → IsQuiet d
    → IsQuiet (m d).1
IsQuiet-kept m s d q n = rw (s.engine d) (q n)

-- One action after another: what the first has done stays.
pub in_turn :
    (m k : Migrating Unit) (d : Db Catalog Unit) (Q R : Catalog → Type 0)
    → IsStable Q
    → IsSteady k
    → Succeeds (m d) Q
    → (Q (m d).1.tables → Succeeds (k (m d).1) R)
    → Succeeds ((m >> k) d) (λ c. Q c × R c)
unfolding IsStable
in_turn m k d Q R stable steady (fine, first) later =
    let (fine', second) = later first in
    subst (λ out. Succeeds out (λ c. Q c × R c)) (sym (bind_ok m (λ _. k) d fine))
      (fine', (stable _ _ (steady.grows (m d).1) first, second))

pub add_missing_columns_ok :
    (table : Text) (cols : List Column) (d : Db Catalog Unit)
    → IsQuiet d
    → is_some (lookup table d.tables.tables) ≡ true
    → all_distinct (names cols) ≡ true
    → all_addable cols ≡ true
    → Succeeds
        (add_missing_columns table cols d)
        (λ c. has_all (table_info table c) (names cols) ≡ true)
unfolding add_missing_columns
add_missing_columns_ok table cols d q there distinct fits =
    let read : Migrating (List Text) = query λ c. ok (table_info table c, c) in
    let have = table_info table d.tables in
    let ran = query_quiet (λ c. ok (table_info table c, c)) d q refl in
    let d' = record d { calls = suc d.calls } in
    let step =
      bind_ok read (λ ns. add_columns table ns cols) d
        (ap (λ (r : Result Text (List Text) × Db Catalog Unit). r.0) ran)
      ∙ ap (λ (r : Result Text (List Text) × Db Catalog Unit). add_columns table have cols r.1)
          ran in
    subst (λ out. Succeeds out (λ c. has_all (table_info table c) (names cols) ≡ true)) (sym step)
      (add_columns_ok table have cols d' q there distinct fits (λ n h. refl))

abbrev pub base : Schema
base = (split_schema schema).0

abbrev pub post : Schema
post = (split_schema schema).1

pub base-IsSound : All IsSound base
unfolding split_schema contains lookup beq_text
base-IsSound = (tt, (tt, (tt, (refl, (refl, tt)))))

pub post-IsSound : All IsSound post
unfolding split_schema contains lookup beq_text
post-IsSound = (tt, (tt, (tt, (tt, (tt, (refl, tt))))))

-- A table that has the columns of an earlier version and those of the migration.
enough :
    (table : Text) (cols : List Column) (ns : List Text) (c : Catalog)
    → IsMigratable c
    → is_some (lookup table c.tables) ≡ true
    → has_all (table_info table c) (names cols) ≡ true
    → has_all (kept table ++ names cols) ns ≡ true
    → has_all (table_info table c) ns ≡ true
enough table cols ns c v there more h =
    has_all-cover (table_info table c) (kept table) (names cols) ns (v table there) more h

has_all-IsStable :
    (table : Text) (ns : List Text) → IsStable (λ c. has_all (table_info table c) ns ≡ true)
unfolding IsStable
has_all-IsStable table ns c c' g h =
    has_all_mono (table_info table c) (table_info table c') ns (g.columns table) h

Created-IsStable : (ss : Schema) → IsStable (λ c. All (Created c) ss)
unfolding IsStable
Created-IsStable [] c c' g h = tt
Created-IsStable (s ∷ ss) c c' g h = (Created-Grows s g h.0, Created-IsStable ss c c' g h.1)

both-IsStable : (Q R : Catalog → Type 0) → IsStable Q → IsStable R → IsStable (λ c. Q c × R c)
unfolding IsStable
both-IsStable Q R q r c c' g (a, b) = (q c c' g a, r c c' g b)

IsMigratable-IsStable : IsStable IsMigratable
unfolding IsStable
IsMigratable-IsStable c c' g h = g.migratable h

abbrev pub HasColumns : Text → List Column → Catalog → Type 0
HasColumns table cols c = has_all (table_info table c) (names cols) ≡ true

-- What each stage of the migration leaves.
abbrev pub Based : Catalog → Type 0
Based c = IsMigratable c × All (Created c) base

abbrev pub Grouped : Catalog → Type 0
Grouped c = Based c × HasColumns groups_table group_columns c

abbrev pub Messaged : Catalog → Type 0
Messaged c = Grouped c × HasColumns messages_table message_columns c

abbrev pub Posted : Catalog → Type 0
Posted c = Messaged c × All (Created c) post

abbrev pub Migrated : Catalog → Type 0
Migrated c = Posted c × HasColumns runs_table run_columns c

pub Based-IsStable : IsStable Based
Based-IsStable =
    both-IsStable IsMigratable (λ c. All (Created c) base) IsMigratable-IsStable
      (Created-IsStable base)

pub Grouped-IsStable : IsStable Grouped
Grouped-IsStable =
    both-IsStable Based (HasColumns groups_table group_columns) Based-IsStable
      (has_all-IsStable groups_table (names group_columns))

pub Messaged-IsStable : IsStable Messaged
Messaged-IsStable =
    both-IsStable Grouped (HasColumns messages_table message_columns) Grouped-IsStable
      (has_all-IsStable messages_table (names message_columns))

pub Posted-IsStable : IsStable Posted
Posted-IsStable =
    both-IsStable Messaged (λ c. All (Created c) post) Messaged-IsStable (Created-IsStable post)

pub Messaged-Runs : (fts5 : Bool) (c : Catalog) → fts5 ≡ true → Messaged c → All (Runs fts5 c) post
unfolding split_schema contains lookup beq_text
Messaged-Runs fts5 c built (((v, made), _), cols) =
    let there = made.1.1.1.1.0 in
    let has =
      λ (ns : List Text) (h : has_all (kept messages_table ++ names message_columns) ns ≡ true).
        enough messages_table message_columns ns c v there cols h in
    (
      (there, has (text "chat_jid" ∷ text "ts" ∷ []) refl),
      (
        (there, has (text "sender_jid" ∷ text "ts" ∷ []) refl),
        (
          (there, has (text "source_pk" ∷ []) refl),
          ((there, has (text "media_hydrated_at" ∷ []) refl), (built, (tt, tt))),
        ),
      ),
    )

pub Migrated-IsComplete : (c : Catalog) → Migrated c → IsComplete c
unfolding split_schema contains lookup beq_text
Migrated-IsComplete c (((((v, made), groups), messages), posted), runs) = (
  tt,
  (
    tt,
    (
      tt,
      (
        enough groups_table group_columns (names create_groups) c v made.1.1.1.0 groups refl,
        (
          enough messages_table message_columns (names create_messages) c v made.1.1.1.1.0 messages
              refl,
          (
            posted.0,
            (
              posted.1.0,
              (
                posted.1.1.0,
                (
                  posted.1.1.1.0,
                  (
                    posted.1.1.1.1.0,
                    (
                      enough runs_table run_columns (names create_runs) c v posted.1.1.1.1.1.0 runs
                          refl,
                      tt,
                    ),
                  ),
                ),
              ),
            ),
          ),
        ),
      ),
    ),
  ),
)
