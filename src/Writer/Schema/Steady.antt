-- ===== src/Writer/Schema/Steady.antt =====
-- writer.go: whatever fails in `EnsureSchema`, the catalogue only grows.
use wa_agent_pipeline.Base.{
  Text, ◌≡◌, inl, inr, refl, ◌∙◌, Bool, List, [], ◌∷◌, Result, ok, arith, contains, text_eq,
  Option-cases, Result-cases, if_holds, All,
}
use wa_agent_pipeline.Sqlite.{Db, pure, ◌>>=◌, query}
use wa_agent_pipeline.Sqlite.Transactions.{bind_ok, bind_err}
use wa_agent_pipeline.Writer.Schema.{
  Column, Catalog, Schema, Migrating, table_info, apply, add_column, exec_script, migrating,
  add_columns, add_missing_columns,
}
use wa_agent_pipeline.Writer.Schema.Columns.{
  Grows, Grows-refl, Grows-trans, IsSound, Grown, apply-Grown, add_column-Grown,
}

-- Whatever fails, the catalogue grows.
pub record IsSteady {A : Type 0} (m : Migrating A) : Type 0 where
  pub grows : (d : Db Catalog Unit) → Grows d.tables (m d).1.tables
  pub engine : (d : Db Catalog Unit) → (m d).1.engine ≡ d.engine

ran-Grows :
    {A : Type 0} (f : Catalog → Result Text (A × Catalog)) (d : Db Catalog Unit)
    → Grown d.tables (f d.tables)
    → Grows d.tables (query f d).1.tables
unfolding query
ran-Grows f d g = elim (Option-cases (d.engine.fault d.calls)) [
  | inr (e, broken) ↦ rw (query, broken) (Grows-refl d.tables)
  | inl quiet ↦ elim (Result-cases (f d.tables)) [
    | inl (e, refused) ↦ rw (query, quiet, refused) (Grows-refl d.tables)
    | inr ((a, c), ran_) ↦ rw (query, quiet, ran_) (rw ran_ at g)
  ]
]

query-IsSteady :
    {A : Type 0} (f : Catalog → Result Text (A × Catalog))
    → ((c : Catalog) → Grown c (f c))
    → IsSteady (query f)
unfolding query
query-IsSteady f g = record { grows = λ d. ran-Grows f d (g d.tables); engine = λ d. ground arith }

pure-IsSteady : {A : Type 0} (a : A) → IsSteady (pure a)
pure-IsSteady a = record { grows = λ d. Grows-refl d.tables; engine = λ d. refl }

pub bind-IsSteady :
    {A B : Type 0} (m : Migrating A) (f : A → Migrating B)
    → IsSteady m
    → ((a : A) → IsSteady (f a))
    → IsSteady (m >>= f)
bind-IsSteady m f hm hf = record {
  grows = λ d. elim (Result-cases (m d).0) [
    | inl (e, stop) ↦ rw (bind_err m f d stop) (hm.grows d)
    | inr (a, go) ↦ rw (bind_ok m f d go) (Grows-trans (hm.grows d) ((hf a).grows (m d).1))
  ];
  engine = λ d. elim (Result-cases (m d).0) [
    | inl (e, stop) ↦ rw (bind_err m f d stop) (hm.engine d)
    | inr (a, go) ↦ rw (bind_ok m f d go) ((hf a).engine (m d).1 ∙ hm.engine d)
  ];
}

pub exec_script-IsSteady :
    (fts5 : Bool) (ss : Schema) → All IsSound ss → IsSteady (exec_script fts5 ss)
unfolding exec_script
exec_script-IsSteady fts5 [] sound = pure-IsSteady tt
exec_script-IsSteady fts5 (s ∷ ss) sound =
    bind-IsSteady (query (apply fts5 s)) (λ _. exec_script fts5 ss)
      (query-IsSteady (apply fts5 s) (λ c. apply-Grown fts5 s c sound.0))
      (λ _. exec_script-IsSteady fts5 ss sound.1)

-- One alter table, with the text that is put before its error.
unfoldable pub alter : Text → Column → Migrating Unit
alter table col d = let (r, d') = query (add_column table col) d in (migrating table col.name r, d')

pub alter-IsSteady : (table : Text) (col : Column) → IsSteady (alter table col)
unfolding alter
alter-IsSteady table col =
    let q = query-IsSteady (add_column table col) (λ c. add_column-Grown table col c) in
    record { grows = λ d. q.grows d; engine = λ d. q.engine d }

pub add_columns-IsSteady :
    (table : Text) (have : List Text) (cols : List Column) → IsSteady (add_columns table have cols)
unfolding add_columns alter
add_columns-IsSteady table have [] = pure-IsSteady tt
add_columns-IsSteady table have (col ∷ cols) =
    let rest = add_columns-IsSteady table have cols in
    if_holds IsSteady (contains have col.name) _ _ (λ there. rest)
      (λ missing.
        bind-IsSteady (alter table col) (λ _. add_columns table have cols)
          (alter-IsSteady table col) (λ _. rest))

pub add_missing_columns-IsSteady :
    (table : Text) (cols : List Column) → IsSteady (add_missing_columns table cols)
unfolding add_missing_columns
add_missing_columns-IsSteady table cols =
    bind-IsSteady (query λ c. ok (table_info table c, c)) (λ have. add_columns table have cols)
      (query-IsSteady (λ c. ok (table_info table c, c)) (λ c. Grows-refl c))
      (λ have. add_columns-IsSteady table have cols)
