-- ===== src/Writer/Schema/Columns.antt =====
-- writer.go: what a statement of the migration does to the columns of a catalogue.
use wa_agent_pipeline.Base.{
  Text, ◌≡◌, inl, inr, refl, sym, Bool, true, false, not, ◌&&◌, Option, none, some, List, [], ◌∷◌,
  ◌++◌, Result, ok, err, arith, contains, lookup, insert, lookup-insert, is_some, ◌==◌, ==_iff,
  text_eq, if◌then◌else◌, Bool-cases, Option-cases, if_holds, All, All-at, In-of_lookup,
}
use mathlib.Core.Path.{subst}
use wa_agent_pipeline.Texts.{text}
use wa_agent_pipeline.Writer.Schema.{
  Column, Catalog, Statement, pragma, create_table, create_index, create_fts5, names, columns_of,
  table_info, has_all, apply, add_column, added, groups_table, messages_table, runs_table,
}
use wa_agent_pipeline.Writer.Schema.Names.{has_all_mono, contains_added}

-- The columns that a table of an earlier version must have: those of schema.sql that the migration
-- does not add.
abbrev pub earlier : List (Text × List Text)
earlier =
    (groups_table, text "jid" ∷ text "label" ∷ [])
    ∷ (
      messages_table,
      text "id"
          ∷ text "source_pk"
          ∷ text "chat_jid"
          ∷ text "chat_label"
          ∷ text "msg_id"
          ∷ text "sender_jid"
          ∷ text "sender_name"
          ∷ text "ts"
          ∷ text "from_me"
          ∷ text "text"
          ∷ text "raw_type"
          ∷ text "message_type"
          ∷ text "media_type"
          ∷ text "media_title"
          ∷ text "media_path"
          ∷ text "text_hash"
          ∷ text "ingested_at"
          ∷ [],
    )
    ∷ (runs_table, text "run_id" ∷ [])
    ∷ []

abbrev kept_of : Option (List Text) → List Text
kept_of none = []
kept_of (some ns) = ns

abbrev pub kept : Text → List Text
kept table = kept_of (lookup table earlier)

-- Each table that is there has the columns of an earlier version.
abbrev pub IsMigratable : Catalog → Type 0
IsMigratable c =
    (table : Text)
    → is_some (lookup table c.tables) ≡ true
    → has_all (table_info table c) (kept table) ≡ true

abbrev pub HasColumn : Catalog → Text → Text → Type 0
HasColumn c table n = contains (table_info table c) n ≡ true

-- Nothing is lost, and what can be migrated still can.
pub record Grows (c c' : Catalog) : Type 0 where
  pub columns : (table n : Text) → HasColumn c table n → HasColumn c' table n
  pub tables :
      (table : Text)
      → is_some (lookup table c.tables) ≡ true
      → is_some (lookup table c'.tables) ≡ true
  pub indexes :
      (index : Text)
      → is_some (lookup index c.indexes) ≡ true
      → is_some (lookup index c'.indexes) ≡ true
  pub virtual_tables :
      (table : Text)
      → is_some (lookup table c.virtual_tables) ≡ true
      → is_some (lookup table c'.virtual_tables) ≡ true
  pub migratable : IsMigratable c → IsMigratable c'

pub Grows-refl : (c : Catalog) → Grows c c
Grows-refl c = record {
  columns = λ table n h. h;
  tables = λ table h. h;
  indexes = λ index h. h;
  virtual_tables = λ table h. h;
  migratable = λ h. h;
}

pub Grows-trans : {a b c : Catalog} → Grows a b → Grows b c → Grows a c
Grows-trans f g = record {
  columns = λ table n h. g.columns table n (f.columns table n h);
  tables = λ table h. g.tables table (f.tables table h);
  indexes = λ index h. g.indexes index (f.indexes index h);
  virtual_tables = λ table h. g.virtual_tables table (f.virtual_tables table h);
  migratable = λ h. g.migratable (f.migratable h);
}

abbrev pub with_table : Text → List Column → Catalog → Catalog
with_table table cols c = record c { tables = insert table cols c.tables }

pub table_info-with_table :
    (table other : Text) (cols : List Column) (c : Catalog)
    → table_info other (with_table table cols c)
      ≡ (if table == other then names cols else table_info other c)
unfolding table_info
table_info-with_table table other cols c = ground (arith, lookup-insert table other cols c.tables)

no_columns :
    (table : Text) (c : Catalog) (n : Text)
    → is_some (lookup table c.tables) ≡ false
    → contains (table_info table c) n ≡ false
unfolding table_info contains
no_columns table c n new = ground (arith, new)

-- A table is put in or replaced.
with_table-Grows :
    (table : Text) (cols : List Column) (c : Catalog)
    → ((n : Text) → HasColumn c table n → contains (names cols) n ≡ true)
    → (IsMigratable c → has_all (names cols) (kept table) ≡ true)
    → Grows c (with_table table cols c)
with_table-Grows table cols c more enough = record {
  columns = λ other n h. elim (Bool-cases (table == other)) [
    | inl e ↦
        rw (table_info-with_table table other cols c)
          (rw e (more n (subst (λ k. HasColumn c k n) (sym ((==_iff table other).0 e)) h)))
    | inr e ↦ rw (table_info-with_table table other cols c) (rw e h)
  ];
  tables = λ other h. ground (arith, lookup-insert table other cols c.tables, h);
  indexes = λ index h. h;
  virtual_tables = λ other h. h;
  migratable = λ v other there. elim (Bool-cases (table == other)) [
    | inl e ↦ rw (table_info-with_table table other cols c) (
        rw e
          (subst (λ k. has_all (names cols) (kept k) ≡ true) ((==_iff table other).0 e) (enough v)))
    | inr e ↦
        rw (table_info-with_table table other cols c)
          (rw e (v other (ground (arith, lookup-insert table other cols c.tables, there, e))))
  ];
}

-- A new table has the columns of an earlier version.
abbrev pub IsSound : Statement → Type 0
IsSound (create_table table cols) = has_all (names cols) (kept table) ≡ true
IsSound _ = Unit

abbrev pub Grown : {A : Type 0} → Catalog → Result Text (A × Catalog) → Type 0
Grown c (ok (_, c')) = Grows c c'
Grown c (err _) = Unit

-- A new index, and a new virtual table.
with_index-Grows :
    (index table : Text) (c : Catalog)
    → Grows c (record c { indexes = insert index table c.indexes })
unfolding table_info
with_index-Grows index table c = record {
  columns = λ other n h. h;
  tables = λ other h. h;
  indexes = λ i h. ground (arith, lookup-insert index i table c.indexes, h);
  virtual_tables = λ other h. h;
  migratable = λ v. v;
}

with_virtual-Grows :
    (table : Text) (ns : List Text) (c : Catalog)
    → Grows c (record c { virtual_tables = insert table ns c.virtual_tables })
unfolding table_info
with_virtual-Grows table ns c = record {
  columns = λ other n h. h;
  tables = λ other h. h;
  indexes = λ i h. h;
  virtual_tables = λ other h. ground (arith, lookup-insert table other ns c.virtual_tables, h);
  migratable = λ v. v;
}

pub apply-Grown : (fts5 : Bool) (s : Statement) (c : Catalog) → IsSound s → Grown c (apply fts5 s c)
unfolding apply
apply-Grown fts5 (pragma k v) c sound = Grows-refl c
apply-Grown fts5 (create_table table cols) c sound =
    if_holds (Grown c) (is_some (lookup table c.tables)) _ _ (λ there. Grows-refl c)
      (λ new.
        with_table-Grows table cols c (λ n h. absurd (ground (arith, h, no_columns table c n new)))
          (λ v. sound))
apply-Grown fts5 (create_index index table ns) c sound =
    if_holds (Grown c) (is_some (lookup index c.indexes)) _ _ (λ there. Grows-refl c)
      (λ new.
        if_holds (Grown c) (not (is_some (lookup table c.tables))) _ _ (λ absent. tt)
          (λ present.
            if_holds (Grown c) (has_all (table_info table c) ns) _ _
              (λ all. with_index-Grows index table c) (λ missing. tt)))
apply-Grown fts5 (create_fts5 table ns) c sound =
    if_holds (Grown c) (is_some (lookup table c.virtual_tables)) _ _ (λ there. Grows-refl c)
      (λ new. if_holds (Grown c) fts5 _ _ (λ built. with_virtual-Grows table ns c) (λ lacking. tt))

added-Grown :
    (table : Text) (col : Column) (old : Option (List Column)) (c : Catalog)
    → lookup table c.tables ≡ old
    → Grown c (added table col old c)
unfolding table_info
added-Grown table col none c e = tt
added-Grown table col (some cols) c e =
    if_holds (Grown c) (contains (names cols) col.name) _ _ (λ twice. tt)
      (λ new.
        if_holds (Grown c) (col.not_null && not (is_some col.default)) _ _ (λ no_default. tt)
          (λ fits.
            with_table-Grows table (cols ++ col ∷ []) c
              (λ n h. ground (arith, contains_added cols col n, h, e))
              (λ v.
                has_all_mono (names cols) (names (cols ++ col ∷ [])) (kept table)
                  (λ n h. ground (arith, contains_added cols col n, h))
                  (subst (λ o. has_all (names (columns_of o)) (kept table) ≡ true) e
                    (v table (ground (arith, e)))))))

pub add_column-Grown :
    (table : Text) (col : Column) (c : Catalog) → Grown c (add_column table col c)
unfolding add_column
add_column-Grown table col c = added-Grown table col (lookup table c.tables) c refl

-- IsMigratable, by a look at every table.
pub IsMigratable-of :
    (c : Catalog)
    → All (λ (entry : Text × List Column). has_all (names entry.1) (kept entry.0) ≡ true) c.tables
    → IsMigratable c
unfolding table_info
IsMigratable-of c all table there = elim (Option-cases (lookup table c.tables)) [
  | inl absent ↦ absurd (ground (arith, there, absent))
  | inr (cols, e) ↦ rw e (
      All-at (λ (entry : Text × List Column). has_all (names entry.1) (kept entry.0) ≡ true)
        (table, cols) c.tables all (In-of_lookup table c.tables e))
]
