-- ===== src/Unseen/Others.antt =====
-- unseen.go: a run touches no file but its cursor file and the temporary one.
use wa_agent_pipeline.Base.{
  Text, ◌≡◌, ◌≢◌, ap, Option, none, some, List, [], arith, Bool-cases, Result-cases, inl, inr,
  Result, lookup, ◌==◌, text_eq,
}
use wa_agent_pipeline.Base.Int.{ℤ, leb_ℤ, sub64}
use wa_agent_pipeline.Texts.Decimal.{print_int}
use wa_agent_pipeline.Files.{Files, atomic_write_text}
use wa_agent_pipeline.Files.Atomic.{at, done, undone, atomic_write_text-Replaced}
use wa_agent_pipeline.Writer.{MessageRow}
use wa_agent_pipeline.Unseen.{
  Options, Database, Ran, ConfigFile, ingest_margin, least, prior_cursor, tenant_group_jids,
  cutoff_for, fetch_rows, shown, latest_ok_ingest_finished_at, advance, after_output, run,
}
use wa_agent_pipeline.Unseen.Cursor.{cutoff_for-content, prior_cursor-content}
use wa_agent_pipeline.Unseen.Entry.{Call, Machine, options_of, run_with_db, run_at, run_on}

module _ (order : List (Text × MessageRow) → List (Text × MessageRow)) (tmp path : Text) where
  -- A run that leaves the file at `path` as it was.
  abbrev Leaves : Files → Ran → Type 0
  Leaves fs ran = at path ran.files ≡ at path fs

  module _ (opts : Options) (apart : tmp ≢ path) (other : opts.state_path ≢ path) where
    written-Leaves :
        (content : Text) (fs : Files)
        → at path (atomic_write_text tmp opts.state_path content fs).1 ≡ at path fs
    written-Leaves content fs = elim (atomic_write_text-Replaced tmp opts.state_path content fs) [
      | done r full rest ↦ rest path apart other
      | undone e r rest ↦ rest path apart
    ]

    advance-Leaves :
        (msgs : List (Text × MessageRow)) (cutoff ingest : ℤ) (fs : Files) (db : Database)
        → Leaves fs (advance order tmp opts msgs cutoff ingest fs db)
    unfolding advance
    advance-Leaves msgs cutoff ingest fs db =
        let fs₁ = (prior_cursor opts.state_path fs).1 in
        let v = sub64 ingest ingest_margin in
        let at_start : at path fs₁ ≡ at path fs =
          ap (lookup path) (prior_cursor-content opts.state_path fs) in
        elim (Result-cases (prior_cursor opts.state_path fs).0) [
          | inl (e, bad) ↦ ground (arith, bad, at_start)
          | inr (prior, read) ↦ elim (Bool-cases (leb_ℤ v prior)) [
            | inl old ↦ ground (arith, read, old, at_start)
            | inr new ↦
                ground
                  (arith, read, new, at_start, written-Leaves (print_int (least opts.now v)) fs₁)
          ]
        ]

    after_output-Leaves :
        (msgs : List (Text × MessageRow)) (cutoff : ℤ) (fs : Files) (db : Database)
        → Leaves fs (after_output order tmp opts msgs cutoff fs db)
    unfolding after_output
    after_output-Leaves msgs cutoff fs db = elim (Bool-cases opts.no_advance) [
      | inl still ↦ ground (arith, still)
      | inr goes ↦ elim (Result-cases (latest_ok_ingest_finished_at db)) [
        | inl (e, bad) ↦ ground (arith, goes, bad)
        | inr (none, unknown) ↦ ground (arith, goes, unknown)
        | inr (some ingest, found) ↦
            ground (arith, goes, found, advance-Leaves msgs cutoff ingest fs db)
      ]
    ]

    pub run-Leaves : (fs : Files) (db : Database) → Leaves fs (run order tmp opts fs db)
    unfolding run
    run-Leaves fs db = elim (Bool-cases (opts.tenant == [])) [
      | inl missing ↦ ground (arith, missing)
      | inr named ↦ elim (Result-cases (tenant_group_jids opts.config opts.tenant)) [
        | inl (e, bad) ↦ ground (arith, named, bad)
        | inr (jids, good) ↦
            let (cut, fs₁) = cutoff_for opts.now opts.state_path opts.since_hours fs in
            let at_start : at path fs₁ ≡ at path fs =
              ap (lookup path) (cutoff_for-content opts.now opts.state_path opts.since_hours fs) in
            elim (Result-cases cut) [
              | inl (e, bad) ↦ ground (arith, named, good, bad, at_start)
              | inr (c, cut) ↦ elim (Result-cases (fetch_rows order db jids c)) [
                | inl (e, bad) ↦ ground (arith, named, good, cut, bad, at_start)
                | inr (rows, got) ↦ ground (
                  arith,
                  named,
                  good,
                  cut,
                  got,
                  at_start,
                  after_output-Leaves (shown rows) c fs₁ db,
                )
              ]
            ]
      ]
    ]

-- Of `Run`, with its own tests.
pub run_on-Leaves :
    (order : List (Text × MessageRow) → List (Text × MessageRow)) (tmp path : Text)
    (config_at : Text → Result Text ConfigFile) (open_error : Option Text) (now : ℤ) (c : Call)
    (m : Machine)
    → tmp ≢ path
    → c.state_path ≢ path
    → at path (run_on order tmp config_at open_error now c m).1.files ≡ at path m.files
unfolding run_on run_at run_with_db
run_on-Leaves order tmp path config_at open_error now c m apart other =
    let ran =
      run-Leaves order tmp path (options_of order tmp config_at open_error now c) apart other
        m.files m.db in
    ground (arith, ran)
