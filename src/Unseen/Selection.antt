-- ===== src/Unseen/Selection.antt =====
-- unseen.go: which messages the digest of `runWithDB` shows.
use wa_agent_pipeline.Base.{
  Text, ◌≡◌, ◌≢◌, ◌⊎◌, ◌↔◌, inl, inr, Bool, true, false, not, Option, none, some, List, arith,
  Option-cases, Result-cases, ok, In, In-select, contains_iff, select, text_eq,
}
use wa_agent_pipeline.Base.Int.{ℤ, ◌≤ℤ◌}
use wa_agent_pipeline.Files.{Files}
use wa_agent_pipeline.Writer.{MessageRow}
use wa_agent_pipeline.Unseen.{
  Options, Database, tenant_group_jids, cutoff_for, fetch_rows, is_fetched, is_skipped, shown,
  latest_ok_ingest_finished_at, advance, after_output, run,
}

-- The conditions under which a row belongs to the digest.
pub record IsUnseen (jids : List Text) (cutoff : ℤ) (row : MessageRow) : Type 0 where
  pub received : row.from_me ≡ false
  pub owned : In row.chat_jid jids
  pub news : (cutoff ≤ℤ row.ts) ⊎ ((row.media_hydrated_at ≢ none) × (row.media_surfaced_at ≡ none))
  pub not_skipped : is_skipped row ≡ false

IsUnseen-iff :
    (jids : List Text) (cutoff : ℤ) (row : MessageRow)
    → ((is_fetched jids cutoff row ≡ true) × (not (is_skipped row) ≡ true))
      ↔ IsUnseen jids cutoff row
unfolding is_fetched
IsUnseen-iff jids cutoff row = (
  λ (f, k). record {
    received = ground (arith, f);
    owned = (contains_iff jids row.chat_jid).0 (ground (arith, f));
    news = ground (arith, f);
    not_skipped = ground (arith, k);
  },
  λ u. (
    ground (arith, u.received, (contains_iff jids row.chat_jid).1 u.owned, u.news),
    ground (arith, u.not_skipped),
  ),
)

module _ (order : List (Text × MessageRow) → List (Text × MessageRow)) (tmp : Text) where
  advance-output :
      (opts : Options) (msgs : List (Text × MessageRow)) (cutoff ingest : ℤ) (fs : Files)
      (db : Database)
      → (advance order tmp opts msgs cutoff ingest fs db).output ≡ some (cutoff, msgs)
  unfolding advance
  advance-output opts msgs cutoff ingest fs db = ground arith

  after_output-output :
      (opts : Options) (msgs : List (Text × MessageRow)) (cutoff : ℤ) (fs : Files) (db : Database)
      → (after_output order tmp opts msgs cutoff fs db).output ≡ some (cutoff, msgs)
  unfolding after_output
  after_output-output opts msgs cutoff fs db =
      elim (Result-cases (latest_ok_ingest_finished_at db)) [
        | inl (e, bad) ↦ ground (arith, bad)
        | inr (none, unknown) ↦ ground (arith, unknown)
        | inr (some ingest, known) ↦
            ground (arith, known, advance-output opts msgs cutoff ingest fs db)
      ]

  -- A digest that is written is that of the rows that the query returns.
  run-shown :
      (opts : Options) (fs : Files) (db : Database) (cutoff : ℤ) (msgs : List (Text × MessageRow))
      → (run order tmp opts fs db).output ≡ some (cutoff, msgs)
      → (jids : List Text) × (rows : List (Text × MessageRow)) × (tenant_group_jids opts.config
            opts.tenant
          ≡ ok jids)
        × ((cutoff_for opts.now opts.state_path opts.since_hours fs).0 ≡ ok cutoff)
        × (fetch_rows order db jids cutoff ≡ ok rows)
        × (msgs ≡ shown rows)
  unfolding run
  run-shown opts fs db cutoff msgs h =
      elim (Result-cases (tenant_group_jids opts.config opts.tenant)) [
        | inl (e, bad) ↦ absurd (ground (arith, h, bad))
        | inr (jids, good) ↦
            elim (Result-cases (cutoff_for opts.now opts.state_path opts.since_hours fs).0) [
              | inl (e, bad) ↦ absurd (ground (arith, h, good, bad))
              | inr (c, cut) ↦ elim (Result-cases (fetch_rows order db jids c)) [
                | inl (e, bad) ↦ absurd (ground (arith, h, good, cut, bad))
                | inr (rows, got) ↦
                    let fs' = (cutoff_for opts.now opts.state_path opts.since_hours fs).1 in
                    let out = after_output-output opts (shown rows) c fs' db in
                    let same : ◌≡◌ {A = Option (ℤ × List (Text × MessageRow))}
                        (some (c, shown rows)) (some (cutoff, msgs)) =
                      ground (arith, h, good, cut, got, out) in
                    (jids, rows, good, cc (cut, same), cc (got, same), cc (same))
              ]
            ]
      ]

  fetch_rows-rows :
      (db : Database) (jids : List Text) (cutoff : ℤ) (rows : List (Text × MessageRow))
      → fetch_rows order db jids cutoff ≡ ok rows
      → rows ≡ order (select (λ m. is_fetched jids cutoff m.1) db.tables.messages)
  unfolding fetch_rows
  fetch_rows-rows db jids cutoff rows h = elim (Option-cases db.fetch_error) [
    | inl fine ↦ ground (arith, h, fine)
    | inr (e, bad) ↦ absurd (ground (arith, h, bad))
  ]

  -- Where "order by" keeps the rows as a set, and a run writes a digest, then the tenant's chats
  -- could be read from the configuration, and the digest has exactly the rows of the table that
  -- are not the user's own, stand in one of these chats, are as new as the cutoff or have media
  -- that is hydrated and not yet surfaced, and are of no skipped type.
  pub run-digest_iff :
      (opts : Options) (fs : Files) (db : Database) (cutoff : ℤ) (msgs : List (Text × MessageRow))
      → ((xs : List (Text × MessageRow)) (m : Text × MessageRow) → In m (order xs) ↔ In m xs)
      → (run order tmp opts fs db).output ≡ some (cutoff, msgs)
      → (jids : List Text) × (tenant_group_jids opts.config opts.tenant ≡ ok jids)
        × ((m : Text × MessageRow)
            → In m msgs ↔ (In m db.tables.messages × IsUnseen jids cutoff m.1))
  unfolding shown
  run-digest_iff opts fs db cutoff msgs keeps h =
      let (jids, rows, owned, cut, got, e) = run-shown opts fs db cutoff msgs h in
      let e' = fetch_rows-rows db jids cutoff rows got in
      let fetched : (Text × MessageRow) → Bool = λ m. is_fetched jids cutoff m.1 in
      let kept : (Text × MessageRow) → Bool = λ m. not (is_skipped m.1) in
      let table = db.tables.messages in
      (
        jids,
        owned,
        λ m.
            let (unskip, skip) = In-select kept m rows in
            let (unorder, reorder) = keeps (select fetched table) m in
            let (unfetch, fetch) = In-select fetched m table in
            let (is, conditions) = IsUnseen-iff jids cutoff m.1 in
            (
              λ shown_m.
                  let (in_rows, k) = unskip (rw e at shown_m) in
                  let (in_table, f) = unfetch (unorder (rw e' at in_rows)) in (in_table, is (f, k)),
              λ (in_table, u).
                  let (f, k) = conditions u in
                  rw e (skip (rw e' (reorder (fetch (in_table, f))), k)),
            ),
      )
