-- ===== src/Writer/Schema/Scripts.antt =====
-- writer.go: on an engine that lets every call through, a script runs to its end.
use wa_agent_pipeline.Base.{
  ℕ, suc, Text, ◌≡◌, inl, inr, refl, sym, ap, ◌∙◌, Bool, true, none, [], ◌∷◌, Result, ok, arith,
  lookup, insert, lookup-insert, is_some, ==_iff, text_eq, Bool-cases, All,
}
use mathlib.Core.Path.{subst}
use wa_agent_pipeline.Sqlite.{Db, query}
use wa_agent_pipeline.Sqlite.Transactions.{bind_ok}
use wa_agent_pipeline.Writer.Schema.{
  Catalog, Statement, pragma, create_table, create_index, create_fts5, Schema, table_info, has_all,
  apply, exec_script,
}
use wa_agent_pipeline.Writer.Schema.Columns.{Grows, with_table, IsSound, apply-Grown}
use wa_agent_pipeline.Writer.Schema.Names.{has_all_mono}
use wa_agent_pipeline.Writer.Schema.Steady.{exec_script-IsSteady}

-- The engine lets every call through.
abbrev pub IsQuiet : Db Catalog Unit → Type 0
IsQuiet d = (n : ℕ) → d.engine.fault n ≡ none

-- A statement can run, and what it leaves.
abbrev pub Runs : Bool → Catalog → Statement → Type 0
Runs fts5 c (pragma _ _) = Unit
Runs fts5 c (create_table _ _) = Unit
Runs fts5 c (create_index _ table ns) =
    (is_some (lookup table c.tables) ≡ true) × (has_all (table_info table c) ns ≡ true)
Runs fts5 c (create_fts5 _ _) = fts5 ≡ true

abbrev pub Created : Catalog → Statement → Type 0
Created c (pragma _ _) = Unit
Created c (create_table table _) = is_some (lookup table c.tables) ≡ true
Created c (create_index index _ _) = is_some (lookup index c.indexes) ≡ true
Created c (create_fts5 table _) = is_some (lookup table c.virtual_tables) ≡ true

pub Created-Grows : {c c' : Catalog} (s : Statement) → Grows c c' → Created c s → Created c' s
Created-Grows (pragma _ _) g h = tt
Created-Grows (create_table table _) g h = g.tables table h
Created-Grows (create_index index _ _) g h = g.indexes index h
Created-Grows (create_fts5 table _) g h = g.virtual_tables table h

Runs-Grows :
    {c c' : Catalog} (fts5 : Bool) (s : Statement) → Grows c c' → Runs fts5 c s → Runs fts5 c' s
Runs-Grows fts5 (pragma _ _) g h = tt
Runs-Grows fts5 (create_table _ _) g h = tt
Runs-Grows {c = c} {c' = c'} fts5 (create_index _ table ns) g h = (
  g.tables table h.0,
  has_all_mono (table_info table c) (table_info table c') ns (g.columns table) h.1,
)
Runs-Grows fts5 (create_fts5 _ _) g h = h

All-Runs-Grows :
    {c c' : Catalog} (fts5 : Bool) (ss : Schema)
    → Grows c c'
    → All (Runs fts5 c) ss
    → All (Runs fts5 c') ss
All-Runs-Grows fts5 [] g h = tt
All-Runs-Grows fts5 (s ∷ ss) g h = (Runs-Grows fts5 s g h.0, All-Runs-Grows fts5 ss g h.1)

apply_ok :
    (fts5 : Bool) (s : Statement) (c : Catalog)
    → Runs fts5 c s
    → (c' : Catalog) × (apply fts5 s c ≡ ok (tt, c')) × Created c' s
unfolding apply
apply_ok fts5 (pragma _ _) c h = (c, refl, tt)
apply_ok fts5 (create_table table cols) c h = elim (Bool-cases (is_some (lookup table c.tables))) [
  | inl there ↦ (c, ground (arith, there), there)
  | inr new ↦ (
    with_table table cols c,
    ground (arith, new),
    ground (arith, lookup-insert table table cols c.tables, ==_iff table table),
  )
]
apply_ok fts5 (create_index index table ns) c h =
    elim (Bool-cases (is_some (lookup index c.indexes))) [
      | inl there ↦ (c, ground (arith, there), there)
      | inr new ↦ (
        record c { indexes = insert index table c.indexes },
        ground (arith, new, h.0, h.1),
        ground (arith, lookup-insert index index table c.indexes, ==_iff index index),
      )
    ]
apply_ok fts5 (create_fts5 table ns) c h =
    elim (Bool-cases (is_some (lookup table c.virtual_tables))) [
      | inl there ↦ (c, ground (arith, there), there)
      | inr new ↦ (
        record c { virtual_tables = insert table ns c.virtual_tables },
        ground (arith, new, h),
        ground (arith, lookup-insert table table ns c.virtual_tables, ==_iff table table),
      )
    ]

-- An action succeeds, and its catalogue has the property.
abbrev pub Succeeds : (Result Text Unit × Db Catalog Unit) → (Catalog → Type 0) → Type 0
Succeeds out Q = (out.0 ≡ ok tt) × Q out.1.tables

pub query_quiet :
    {A : Type 0} (f : Catalog → Result Text (A × Catalog)) (d : Db Catalog Unit) {a : A}
    {c : Catalog}
    → IsQuiet d
    → f d.tables ≡ ok (a, c)
    → query f d ≡ (ok a, record d { tables = c; calls = suc d.calls })
unfolding query
query_quiet f d q e = ground (arith, q d.calls, e)

pub exec_script_ok :
    (fts5 : Bool) (ss : Schema) (d : Db Catalog Unit)
    → IsQuiet d
    → All IsSound ss
    → All (Runs fts5 d.tables) ss
    → Succeeds (exec_script fts5 ss d) (λ c. All (Created c) ss)
unfolding exec_script
exec_script_ok fts5 [] d q sound h = (refl, tt)
exec_script_ok fts5 (s ∷ ss) d q sound h =
    let (c, e, made) = apply_ok fts5 s d.tables h.0 in
    let d' = record d { tables = c; calls = suc d.calls } in
    let g : Grows d.tables c = rw e at (apply-Grown fts5 s d.tables sound.0) in
    let (fine, rest) = exec_script_ok fts5 ss d' q sound.1 (All-Runs-Grows fts5 ss g h.1) in
    let ran = query_quiet (apply fts5 s) d q e in
    let step =
      bind_ok (query (apply fts5 s)) (λ _. exec_script fts5 ss) d
        (ap (λ (r : Result Text Unit × Db Catalog Unit). r.0) ran)
      ∙ ap (λ (r : Result Text Unit × Db Catalog Unit). exec_script fts5 ss r.1) ran in
    subst (λ out. Succeeds out (λ c. All (Created c) (s ∷ ss))) (sym step)
      (fine, (Created-Grows s ((exec_script-IsSteady fts5 ss sound.1).grows d') made, rest))
