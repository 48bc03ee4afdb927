-- ===== src/Writer/Schema/Success.antt =====
-- writer.go: on an engine that lets every call through, the scripts run and the columns are added.
use wa_agent_pipeline.Base.{
  suc, Text, ◌≡◌, inl, inr, refl, sym, ap, ◌∙◌, Bool, true, false, not, ◌&&◌, ◌||◌, List, [], ◌∷◌,
  ◌++◌, Result, ok, arith, contains, lookup, lookup-insert, is_some, ◌==◌, ==_iff, text_eq,
  Bool-cases, Option-cases,
}
use mathlib.Core.Path.{subst}
use wa_agent_pipeline.Sqlite.{Db, query}
use wa_agent_pipeline.Sqlite.Transactions.{bind_ok}
use wa_agent_pipeline.Writer.Schema.{
  Column, Catalog, names, columns_of, table_info, has_all, add_column, add_columns,
}
use wa_agent_pipeline.Writer.Schema.Columns.{HasColumn, with_table}
use wa_agent_pipeline.Writer.Schema.Names.{contains_added}
use wa_agent_pipeline.Writer.Schema.Steady.{alter, add_columns-IsSteady}
use wa_agent_pipeline.Writer.Schema.Scripts.{IsQuiet, Succeeds}

abbrev pub all_distinct : List Text → Bool
all_distinct [] = true
all_distinct (n ∷ ns) = not (contains ns n) && all_distinct ns

-- A column without a default may be null.
abbrev pub all_addable : List Column → Bool
all_addable [] = true
all_addable (col ∷ cols) = not (col.not_null && not (is_some col.default)) && all_addable cols

-- The names that were read are up to date for these columns.
abbrev pub IsCurrent : Text → List Text → List Column → Catalog → Type 0
IsCurrent table have cols c =
    (n : Text) → contains (names cols) n ≡ true → contains have n ≡ contains (table_info table c) n

alter_ok :
    (table : Text) (col : Column) (d : Db Catalog Unit)
    → IsQuiet d
    → is_some (lookup table d.tables.tables) ≡ true
    → contains (table_info table d.tables) col.name ≡ false
    → not (col.not_null && not (is_some col.default)) ≡ true
    → alter table col d ≡ (
      ok tt,
      record d {
        tables = with_table table (columns_of (lookup table d.tables.tables) ++ col ∷ []) d.tables;
        calls = suc d.calls;
      },
    )
unfolding alter add_column table_info query
alter_ok table col d q there new fits = elim (Option-cases (lookup table d.tables.tables)) [
  | inl none_ ↦ absurd (ground (arith, there, none_))
  | inr (old, some_) ↦ ground (arith, some_, new, fits, q d.calls)
]

-- The catalogue after it.
abbrev altered : Text → Column → Catalog → Catalog
altered table col c = with_table table (columns_of (lookup table c.tables) ++ col ∷ []) c

abbrev stepped : Text → Column → Db Catalog Unit → Db Catalog Unit
stepped table col d = record d { tables = altered table col d.tables; calls = suc d.calls }

altered_column :
    (table : Text) (col : Column) (c : Catalog) (n : Text)
    → contains (table_info table (altered table col c)) n
      ≡ (contains (table_info table c) n || (col.name == n))
unfolding table_info
altered_column table col c n = ground (
  arith,
  ==_iff table table,
  lookup-insert table table (columns_of (lookup table c.tables) ++ col ∷ []) c.tables,
  contains_added (columns_of (lookup table c.tables)) col n,
)

add_columns_known :
    (table : Text) (have : List Text) (col : Column) (cols : List Column) (d : Db Catalog Unit)
    → contains have col.name ≡ true
    → add_columns table have (col ∷ cols) d ≡ add_columns table have cols d
unfolding add_columns
add_columns_known table have col cols d known = rw known refl

add_columns_missing :
    (table : Text) (have : List Text) (col : Column) (cols : List Column) (d d' : Db Catalog Unit)
    → contains have col.name ≡ false
    → alter table col d ≡ (ok tt, d')
    → add_columns table have (col ∷ cols) d ≡ add_columns table have cols d'
unfolding add_columns alter
add_columns_missing table have col cols d d' missing e = rw missing (
    bind_ok (alter table col) (λ _. add_columns table have cols) d
      (ap (λ (r : Result Text Unit × Db Catalog Unit). r.0) e)
    ∙ ap (λ (r : Result Text Unit × Db Catalog Unit). add_columns table have cols r.1) e)

-- One column more, which is there before the others are added.
one_more :
    (table : Text) (have : List Text) (col : Column) (cols : List Column) (d : Db Catalog Unit)
    → HasColumn d.tables table col.name
    → Succeeds
        (add_columns table have cols d)
        (λ c. has_all (table_info table c) (names cols) ≡ true)
    → Succeeds
        (add_columns table have cols d)
        (λ c. has_all (table_info table c) (names (col ∷ cols)) ≡ true)
one_more table have col cols d there (fine, rest) =
    let g = (add_columns-IsSteady table have cols).grows d in
    (fine, ground (arith, rest, g.columns table col.name there))

nothing_to_add :
    (table : Text) (have : List Text) (d : Db Catalog Unit)
    → Succeeds (add_columns table have [] d) (λ c. has_all (table_info table c) [] ≡ true)
unfolding add_columns
nothing_to_add table have d = (refl, refl)

pub add_columns_ok :
    (table : Text) (have : List Text) (cols : List Column) (d : Db Catalog Unit)
    → IsQuiet d
    → is_some (lookup table d.tables.tables) ≡ true
    → all_distinct (names cols) ≡ true
    → all_addable cols ≡ true
    → IsCurrent table have cols d.tables
    → Succeeds
        (add_columns table have cols d)
        (λ c. has_all (table_info table c) (names cols) ≡ true)
unfolding contains
add_columns_ok table have [] d q there distinct fits current = nothing_to_add table have d
add_columns_ok table have (col ∷ cols) d q there distinct fits current =
    let seen = current col.name (ground (arith, ==_iff col.name col.name)) in
    elim (Bool-cases (contains have col.name)) [
      | inl known ↦
          subst
            (λ out. Succeeds out (λ c. has_all (table_info table c) (names (col ∷ cols)) ≡ true))
            (sym (add_columns_known table have col cols d known))
            (one_more table have col cols d (ground (arith, known, seen)) (
              add_columns_ok table have cols d q there (ground (arith, distinct))
                (ground (arith, fits)) (λ n h. current n (ground (arith, h)))))
      | inr missing ↦
          subst
            (λ out. Succeeds out (λ c. has_all (table_info table c) (names (col ∷ cols)) ≡ true))
            (sym (
              add_columns_missing table have col cols d (stepped table col d) missing (
                alter_ok table col d q there (ground (arith, missing, seen))
                  (ground (arith, fits)))))
            (one_more table have col cols (stepped table col d)
              (ground (arith, altered_column table col d.tables col.name, ==_iff col.name col.name))
              (add_columns_ok table have cols (stepped table col d) q
                (ground (
                  arith,
                  lookup-insert table table (columns_of (lookup table d.tables.tables) ++ col ∷ [])
                      d.tables.tables,
                  ==_iff table table,
                ))
                (ground (arith, distinct)) (ground (arith, fits))
                (λ n h. elim (Bool-cases (col.name == n)) [
                  | inl same ↦ absurd (
                      ground (
                        arith,
                        subst (λ k. contains (names cols) k ≡ true)
                            (sym ((==_iff col.name n).0 same)) h,
                        distinct,
                      ))
                  | inr other ↦ ground (
                    arith,
                    altered_column table col d.tables n,
                    other,
                    current n (ground (arith, h)),
                  )
                ])))
    ]
