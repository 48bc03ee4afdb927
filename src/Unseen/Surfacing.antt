-- ===== src/Unseen/Surfacing.antt =====
-- unseen.go: `markSurfaced`, and what a run with `NoAdvance` leaves alone.
use wa_agent_pipeline.Base.{
  Text, ◌≡◌, ◌≢◌, ◌⊎◌, ◌↔◌, ◌∙◌, ap, Bool, In, In-select, select, contains_iff, inl, inr, refl, sym,
  true, Option, none, some, List, [], ◌∷◌, map, arith, Bool-cases, Option-cases, Result-cases, ok,
  err, lookup, contains, ==_iff, ◌==◌, text_eq, if◌then◌else◌,
}
use wa_agent_pipeline.Base.Int.{ℤ, pos, int_eq}
use wa_agent_pipeline.Files.{Files}
use wa_agent_pipeline.Writer.{MessageRow}
use wa_agent_pipeline.Unseen.{
  Options, Database, marked, ids_to_mark, needs_surface_mark, update_surfaced, mark_surfaced,
  tenant_group_jids, cutoff_for, fetch_rows, after_output, run,
}
use wa_agent_pipeline.Unseen.Cursor.{cutoff_for-content}

-- The row of a message after the update: marked where its id is in the list.
abbrev marked_row : List Text → ℤ → Text → Option MessageRow → Option MessageRow
marked_row ids now id none = none
marked_row ids now id (some row) =
    some (if contains ids id then record row { media_surfaced_at = some now } else row)

lookup-marked :
    (ids : List Text) (now : ℤ) (id : Text) (rows : List (Text × MessageRow))
    → lookup id (map (marked ids now) rows) ≡ marked_row ids now id (lookup id rows)
unfolding lookup
lookup-marked ids now id [] = refl
lookup-marked ids now id ((j, row) ∷ rows) = elim (Bool-cases (j == id)) [
  | inl hit ↦ let same = (==_iff j id).0 hit in ground (arith, hit, same)
  | inr miss ↦ ground (arith, miss, lookup-marked ids now id rows)
]

marked_row-nil : (now : ℤ) (id : Text) (row : Option MessageRow) → marked_row [] now id row ≡ row
unfolding contains
marked_row-nil now id none = refl
marked_row-nil now id (some row) = refl

update_surfaced_lem :
    (ids : List Text) (now : ℤ) (db : Database)
    → ((e : Text) × (update_surfaced ids now db ≡ (err e, db)))
      ⊎ (((update_surfaced ids now db).0 ≡ ok tt)
          × ((id : Text)
              → lookup id (update_surfaced ids now db).1.tables.messages
                ≡ marked_row ids now id (lookup id db.tables.messages)))
update_surfaced_lem [] now db =
    inr (refl, λ id. sym (marked_row-nil now id (lookup id db.tables.messages)))
update_surfaced_lem (j ∷ rest) now db = elim (Option-cases db.mark_error) [
  | inr (e, bad) ↦ inl (e, ground (arith, bad))
  | inl fine ↦ inr (
    ground (arith, fine),
    λ id. ground (arith, fine, lookup-marked (j ∷ rest) now id db.tables.messages),
  )
]

-- The digest has the message with media that is hydrated, at a time that is not 0, and has not been
-- surfaced.
pub record NeedsMark (msgs : List (Text × MessageRow)) (id : Text) : Type 0 where
  pub row : MessageRow
  pub shown : In (id, row) msgs
  pub hydrated_at : ℤ
  pub hydrated : row.media_hydrated_at ≡ some hydrated_at
  pub not_zero : hydrated_at ≢ pos 0
  pub not_surfaced : row.media_surfaced_at ≡ none

needs_surface_mark_iff :
    (row : MessageRow)
    → (needs_surface_mark row ≡ true) ↔ (
        ((t : ℤ) × (row.media_hydrated_at ≡ some t) × (t ≢ pos 0)) × (row.media_surfaced_at ≡ none))
unfolding needs_surface_mark
needs_surface_mark_iff row = (
  λ h. (
    elim (Option-cases row.media_hydrated_at) [
      | inl bare ↦ absurd (ground (arith, h, bare))
      | inr (t, e) ↦ (t, e, λ z. absurd (ground (arith, h, e, (==_iff t (pos 0)).1 z)))
    ],
    elim (Option-cases row.media_surfaced_at) [
      | inl fresh ↦ fresh
      | inr (t, e) ↦ absurd (ground (arith, h, e))
    ],
  ),
  λ ((t, e, n), fresh). elim (Bool-cases (t == pos 0)) [
    | inl zero ↦ absurd (n ((==_iff t (pos 0)).0 zero))
    | inr filled ↦ ground (arith, e, fresh, filled)
  ],
)

In-ids :
    (id : Text) (msgs : List (Text × MessageRow))
    → In id (map (λ m. m.0) msgs) ↔ ((row : MessageRow) × In (id, row) msgs)
In-ids id [] = (λ i. absurd i, λ (_, i). absurd i)
In-ids id ((j, row) ∷ msgs) =
    let (to, from) = In-ids id msgs in
    (
      λ i. elim i [
        | inl e ↦ (row, inl (ap (λ (k : Text). (k, row)) e))
        | inr later ↦ let (r, k) = to later in (r, inr k)
      ],
      λ (r, i). elim i [
        | inl e ↦ inl (ap (λ (m : Text × MessageRow). m.0) e)
        | inr later ↦ inr (from (r, later))
      ],
    )

ids_to_mark_iff :
    (msgs : List (Text × MessageRow)) (id : Text)
    → (contains (ids_to_mark msgs) id ≡ true) ↔ NeedsMark msgs id
ids_to_mark_iff msgs id =
    let needs : Text × MessageRow → Bool = λ m. needs_surface_mark m.1 in
    let (to, from) = contains_iff (ids_to_mark msgs) id in
    let (to', from') = In-ids id (select needs msgs) in
    (
      λ h.
          let (row, i) = to' (to h) in
          let (shown, marks) = (In-select needs (id, row) msgs).0 i in
          let ((t, hydrated, not_zero), fresh) = (needs_surface_mark_iff row).0 marks in
          record {
            row = row;
            shown = shown;
            hydrated_at = t;
            hydrated = hydrated;
            not_zero = not_zero;
            not_surfaced = fresh;
          },
      λ n.
          let marks =
            (needs_surface_mark_iff n.row).1
              ((n.hydrated_at, n.hydrated, n.not_zero), n.not_surfaced) in
          from (from' (n.row, (In-select needs (id, n.row) msgs).1 (n.shown, marks))),
    )

-- The row of a message, surfaced now.
abbrev pub surfaced : ℤ → Option MessageRow → Option MessageRow
surfaced now none = none
surfaced now (some row) = some (record row { media_surfaced_at = some now })

marked_row-cases :
    (msgs : List (Text × MessageRow)) (now : ℤ) (id : Text) (o : Option MessageRow)
    → (NeedsMark msgs id × (marked_row (ids_to_mark msgs) now id o ≡ surfaced now o))
      ⊎ ((¬ NeedsMark msgs id) × (marked_row (ids_to_mark msgs) now id o ≡ o))
marked_row-cases msgs now id o = elim (Bool-cases (contains (ids_to_mark msgs) id)) [
  | inl hit ↦ inl ((ids_to_mark_iff msgs id).0 hit, ground (arith, hit))
  | inr miss ↦
      inr (λ n. absurd (ground (arith, miss, (ids_to_mark_iff msgs id).1 n)), ground (arith, miss))
]

-- `markSurfaced` fails and leaves the database as it is, or it succeeds, and then a row of the table
-- is marked as surfaced now where the digest has its message with media that is hydrated, at a time
-- that is not 0, and not surfaced; and it is as it was where the digest has not.
pub mark_surfaced_lem :
    (msgs : List (Text × MessageRow)) (now : ℤ) (db : Database)
    → ((e : Text) × (mark_surfaced msgs now db ≡ (err e, db)))
      ⊎ (((mark_surfaced msgs now db).0 ≡ ok tt)
          × ((id : Text)
              → (NeedsMark msgs id
                  × (lookup id (mark_surfaced msgs now db).1.tables.messages
                      ≡ surfaced now (lookup id db.tables.messages)))
                ⊎ ((¬ NeedsMark msgs id)
                    × (lookup id (mark_surfaced msgs now db).1.tables.messages
                        ≡ lookup id db.tables.messages))))
unfolding mark_surfaced
mark_surfaced_lem msgs now db = elim (update_surfaced_lem (ids_to_mark msgs) now db) [
  | inl failed ↦ inl failed
  | inr (fine, rows) ↦ inr (
    fine,
    λ id. elim (marked_row-cases msgs now id (lookup id db.tables.messages)) [
      | inl (needs, e) ↦ inl (needs, rows id ∙ e)
      | inr (not_needed, e) ↦ inr (not_needed, rows id ∙ e)
    ],
  )
]

-- A run with `NoAdvance` changes no file and no row.
pub run-no_advance :
    (order : List (Text × MessageRow) → List (Text × MessageRow)) (tmp : Text) (opts : Options)
    (fs : Files) (db : Database)
    → opts.no_advance ≡ true
    → ((run order tmp opts fs db).files.content ≡ fs.content) × ((run order tmp opts fs db).db ≡ db)
unfolding run after_output
run-no_advance order tmp opts fs db still =
    let (cut, fs₁) = cutoff_for opts.now opts.state_path opts.since_hours fs in
    let same = cutoff_for-content opts.now opts.state_path opts.since_hours fs in
    elim (Bool-cases (opts.tenant == [])) [
      | inl missing ↦ (ground (arith, missing), ground (arith, missing))
      | inr named ↦ elim (Result-cases (tenant_group_jids opts.config opts.tenant)) [
        | inl (e, bad) ↦ (ground (arith, named, bad), ground (arith, named, bad))
        | inr (jids, good) ↦ elim (Result-cases cut) [
          | inl (e, bad) ↦
              (ground (arith, named, good, bad, same), ground (arith, named, good, bad))
          | inr (c, cut) ↦ elim (Result-cases (fetch_rows order db jids c)) [
            | inl (e, bad) ↦
                (ground (arith, named, good, cut, bad, same), ground (arith, named, good, cut, bad))
            | inr (rows, got) ↦ (
              ground (arith, named, good, cut, got, still, same),
              ground (arith, named, good, cut, got, still),
            )
          ]
        ]
      ]
    ]
