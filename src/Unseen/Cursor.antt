-- ===== src/Unseen/Cursor.antt =====
-- unseen.go: the cursor file. A run moves it, if at all, to a moment that is covered by a run of the
-- ingest that succeeded, and not past its own clock.
use wa_agent_pipeline.Base.{
  ℕ, Text, ◌≡◌, ◌≢◌, ◌⊎◌, inl, inr, refl, sym, ap, ◌∙◌, Option, none, some, List, [], arith,
  Bool-cases, Option-cases, Result-cases, ok, lookup, ◌==◌, text_eq,
}
use wa_agent_pipeline.Base.Int.{ℤ, ◌≤ℤ◌, ◌<ℤ◌, leb_ℤ, pos, int_eq, sub64}
use wa_agent_pipeline.Texts.Decimal.{print_int}
use wa_agent_pipeline.Files.{Files, read_file, atomic_write_text}
use wa_agent_pipeline.Files.Atomic.{done, undone, atomic_write_text-Replaced}
use wa_agent_pipeline.Writer.{MessageRow, RunRow}
use wa_agent_pipeline.Unseen.{
  Options, SinceHours, Database, ingest_margin, least, write_cursor, tenant_group_jids, cutoff_for,
  prior_cursor, fetch_rows, shown, latest_finished, latest_ok_ingest_finished_at, advance,
  parse_cursor, after_output, run,
}
use wa_agent_pipeline.Unseen.Runs.{IsLatest, latest_ok-known, latest_finished-Ends, found_IsLatest}

abbrev pub content_of : Text → Files → Option (List ℕ)
content_of path fs = lookup path fs.content

read_file-content : (path : Text) (fs : Files) → (read_file path fs).1.content ≡ fs.content
unfolding read_file
read_file-content path fs = ground arith

pub prior_cursor-content :
    (path : Text) (fs : Files) → (prior_cursor path fs).1.content ≡ fs.content
unfolding prior_cursor
prior_cursor-content path fs = ground (arith, read_file-content path fs)

-- The cursor that the file holds, 0 where there is no file or what it holds is no integer.
pub data Holds (path : Text) (fs : Files) (prior : ℤ) : Type 0 where
  no_file : content_of path fs ≡ none → prior ≡ pos 0 → Holds path fs prior
  no_integer :
      (bytes : List ℕ)
      → content_of path fs ≡ some bytes
      → parse_cursor bytes ≡ none
      → prior ≡ pos 0
      → Holds path fs prior
  holds :
      (bytes : List ℕ)
      → content_of path fs ≡ some bytes
      → parse_cursor bytes ≡ some prior
      → Holds path fs prior

-- The cursor file after a run: as it was, or moved to `v` after a run of the ingest that ended at
-- `ingest`.
pub data Moved (opts : Options) (runs : List (Text × RunRow)) (fs fs' : Files) : Type 0 where
  kept : content_of opts.state_path fs' ≡ content_of opts.state_path fs → Moved opts runs fs fs'
  moved :
      (ingest prior v : ℤ)
      → IsLatest runs ingest
      → Holds opts.state_path fs prior
      → prior <ℤ sub64 ingest (pos 60)
      → v ≤ℤ sub64 ingest (pos 60)
      → v ≤ℤ opts.now
      → (v ≡ sub64 ingest (pos 60)) ⊎ (v ≡ opts.now)
      → content_of opts.state_path fs' ≡ some (print_int v)
      → Moved opts runs fs fs'

pub cutoff_for-content :
    (now : ℤ) (path : Text) (since : Option SinceHours) (fs : Files)
    → (cutoff_for now path since fs).1.content ≡ fs.content
unfolding cutoff_for
cutoff_for-content now path none fs = ground (arith, read_file-content path fs)
cutoff_for-content now path (some since) fs = refl

prior_cursor-Holds :
    (path : Text) (fs : Files) (prior : ℤ)
    → (prior_cursor path fs).0 ≡ ok prior
    → Holds path fs prior
unfolding prior_cursor read_file
prior_cursor-Holds path fs prior h = elim (Option-cases (fs.fault fs.calls)) [
  | inr (f, bad) ↦ absurd (ground (arith, h, bad))
  | inl fine ↦ elim (Option-cases (lookup path fs.content)) [
    | inl gone ↦ no_file gone (ground (arith, h, fine, gone))
    | inr (bytes, there) ↦ elim (Option-cases (parse_cursor bytes)) [
      | inl bad ↦ no_integer bytes there bad (ground (arith, h, fine, there, bad))
      | inr (v, good) ↦
          let same : v ≡ prior = ground (arith, h, fine, there, good) in
          holds bytes there (good ∙ ap some same)
    ]
  ]
]

Holds-from :
    (path : Text) (fs fs₁ : Files) (prior : ℤ)
    → fs₁.content ≡ fs.content
    → Holds path fs₁ prior
    → Holds path fs prior
Holds-from path fs fs₁ prior same (no_file e z) = no_file (ap (lookup path) (sym same) ∙ e) z
Holds-from path fs fs₁ prior same (no_integer bytes e p z) =
    no_integer bytes (ap (lookup path) (sym same) ∙ e) p z
Holds-from path fs fs₁ prior same (holds bytes e p) =
    holds bytes (ap (lookup path) (sym same) ∙ e) p

least_lem :
    (now v : ℤ)
    → (least now v ≤ℤ v) × (least now v ≤ℤ now) × ((least now v ≡ v) ⊎ (least now v ≡ now))
least_lem now v = ground arith

module _ (order : List (Text × MessageRow) → List (Text × MessageRow)) (tmp : Text) where
  write_cursor-content :
      (opts : Options) (msgs : List (Text × MessageRow)) (cutoff v : ℤ) (fs : Files) (db : Database)
      → (write_cursor order tmp opts msgs cutoff v fs db).files
        ≡ (atomic_write_text tmp opts.state_path (print_int (least opts.now v)) fs).1
  write_cursor-content opts msgs cutoff v fs db = ground arith

  advance-Moved :
      (opts : Options) (msgs : List (Text × MessageRow)) (cutoff ingest : ℤ)
      (runs : List (Text × RunRow)) (fs : Files) (db : Database)
      → tmp ≢ opts.state_path
      → IsLatest runs ingest
      → Moved opts runs fs (advance order tmp opts msgs cutoff ingest fs db).files
  unfolding advance
  advance-Moved opts msgs cutoff ingest runs fs db apart known =
      let fs₁ = (prior_cursor opts.state_path fs).1 in
      let v = sub64 ingest ingest_margin in
      let same = prior_cursor-content opts.state_path fs in
      let at_start : content_of opts.state_path fs₁ ≡ content_of opts.state_path fs =
        ap (lookup opts.state_path) same in
      elim (Result-cases (prior_cursor opts.state_path fs).0) [
        | inl (e, bad) ↦ kept (ground (arith, bad, at_start))
        | inr (prior, held) ↦ elim (Bool-cases (leb_ℤ v prior)) [
          | inl old ↦ kept (ground (arith, held, old, at_start))
          | inr new ↦
              let w = least opts.now v in
              let after : (advance order tmp opts msgs cutoff ingest fs db).files
                  ≡ (atomic_write_text tmp opts.state_path (print_int w) fs₁).1 =
                ground (arith, held, new) in
              rw after (elim (atomic_write_text-Replaced tmp opts.state_path (print_int w) fs₁) [
                | done r full other ↦
                    let (below, past, which) = least_lem opts.now v in
                    moved ingest prior w known (prior_cursor-Holds opts.state_path fs prior held)
                      (ground (arith, new)) below past which full
                | undone e r other ↦ kept (other opts.state_path apart ∙ at_start)
              ])
        ]
      ]

  after_output-Moved :
      (opts : Options) (msgs : List (Text × MessageRow)) (cutoff : ℤ) (fs : Files) (db : Database)
      → tmp ≢ opts.state_path
      → Moved opts db.tables.runs fs (after_output order tmp opts msgs cutoff fs db).files
  unfolding after_output
  after_output-Moved opts msgs cutoff fs db apart = elim (Bool-cases opts.no_advance) [
    | inl still ↦ kept (ground (arith, still))
    | inr goes ↦ elim (Result-cases (latest_ok_ingest_finished_at db)) [
      | inl (e, bad) ↦ kept (ground (arith, goes, bad))
      | inr (none, unknown) ↦ kept (ground (arith, goes, unknown))
      | inr (some ingest, found) ↦
          let after : (after_output order tmp opts msgs cutoff fs db).files
              ≡ (advance order tmp opts msgs cutoff ingest fs db).files =
            ground (arith, goes, found) in
          rw after (
            advance-Moved opts msgs cutoff ingest db.tables.runs fs db apart (
              found_IsLatest db.tables.runs (latest_finished db.tables.runs) ingest
                (latest_ok-known db (some ingest) found) (latest_finished-Ends db.tables.runs)))
    ]
  ]

  Moved-from :
      (opts : Options) (runs : List (Text × RunRow)) (fs fs₁ fs' : Files)
      → fs₁.content ≡ fs.content
      → Moved opts runs fs₁ fs'
      → Moved opts runs fs fs'
  Moved-from opts runs fs fs₁ fs' same (kept e) = kept (e ∙ ap (lookup opts.state_path) same)
  Moved-from opts runs fs fs₁ fs' same (moved ingest prior v known held new below past which full) =
      moved ingest prior v known (Holds-from opts.state_path fs fs₁ prior same held) new below past
        which full

  -- A run, whatever fails in it, where the temporary name is not the cursor file's, leaves the
  -- cursor file as it was, or moves it to a moment `v`: then a run of the ingest succeeded that was
  -- not a dry one, `v` is the moment 60 seconds before the last such run ended, or the clock's where
  -- that is earlier, and the cursor that the file held, 0 where it held none, was before the moment
  -- 60 seconds before that end.
  pub run-Moved :
      (opts : Options) (fs : Files) (db : Database)
      → tmp ≢ opts.state_path
      → Moved opts db.tables.runs fs (run order tmp opts fs db).files
  unfolding run
  run-Moved opts fs db apart = elim (Bool-cases (opts.tenant == [])) [
    | inl missing ↦ kept (ground (arith, missing))
    | inr named ↦ elim (Result-cases (tenant_group_jids opts.config opts.tenant)) [
      | inl (e, bad) ↦ kept (ground (arith, named, bad))
      | inr (jids, good) ↦
          let (cut, fs₁) = cutoff_for opts.now opts.state_path opts.since_hours fs in
          let same = cutoff_for-content opts.now opts.state_path opts.since_hours fs in
          let at_start : content_of opts.state_path fs₁ ≡ content_of opts.state_path fs =
            ap (lookup opts.state_path) same in
          elim (Result-cases cut) [
            | inl (e, bad) ↦ kept (ground (arith, named, good, bad, at_start))
            | inr (c, cut) ↦ elim (Result-cases (fetch_rows order db jids c)) [
              | inl (e, bad) ↦ kept (ground (arith, named, good, cut, bad, at_start))
              | inr (rows, got) ↦
                  let after : (run order tmp opts fs db).files
                      ≡ (after_output order tmp opts (shown rows) c fs₁ db).files =
                    ground (arith, named, good, cut, got) in
                  rw after (
                    Moved-from opts db.tables.runs fs fs₁ _ same
                      (after_output-Moved opts (shown rows) c fs₁ db apart))
            ]
          ]
    ]
  ]
