-- ===== src/Unseen.antt =====
-- whatsapp-daemon/internal/unseen/unseen.go: the unseen messages of one tenant, the cursor that is
-- kept in a file, and the marks of surfaced media. The database, the JSON decoder, floats and the
-- formatting of times are the libraries'.
pub mod Display
pub mod Grouping
pub mod Tenants
pub mod Chats
pub mod Entry
pub mod Others
pub mod Selection
pub mod Runs
pub mod Cursor
pub mod CursorFile
pub mod Surfacing
use wa_agent_pipeline.Base.{
  ℕ, Text, Bool, true, false, not, ◌&&◌, ◌||◌, Option, none, some, List, [], ◌∷◌, ◌++◌, map, Result,
  ok, err, ◌>>=◌, ◌==◌, text_eq, is_some, contains, select, if◌then◌else◌,
}
use wa_agent_pipeline.Base.Int.{ℤ, pos, int_eq, leb_ℤ, ltb_ℤ, add64, sub64}
use wa_agent_pipeline.Texts.{text, trim_space, to_lower}
use wa_agent_pipeline.Texts.Decimal.{print_int, parse_int}
use wa_agent_pipeline.Files.{
  Files, ReadResult, absent, unreadable, bytes_of, read_file, atomic_write_text,
}
use wa_agent_pipeline.Writer.{MessageRow, RunRow, Tables}

abbrev pub default_overlap : ℤ
default_overlap = pos 1800

abbrev pub ingest_margin : ℤ
ingest_margin = pos 60

-- `now - 24*3600`
abbrev pub one_day : ℤ
one_day = pos 86400

abbrev skip_types : List Text
skip_types =
    text "reaction"
    ∷ text "sticker"
    ∷ text "system"
    ∷ text "group_event"
    ∷ text "type_46"
    ∷ text "type_66"
    ∷ text "ptt"
    ∷ []

-- An entry of `groups`: `rawString` of its `jid`, or `none` where that is no string; and its
-- `tenants`: no such key, no list, or a list, in which `none` is a value that is no string.
pub record RawEntry : Type 0 where
  pub jid : Option Text
  pub tenants : Option (Option (List (Option Text)))

pub record ConfigFile : Type 0 where
  pub enabled : Bool
  pub groups : List RawEntry

abbrev raw_string : Option Text → Text → Text
raw_string none fallback = fallback
raw_string (some s) fallback = s

abbrev invalid_tenants_error : RawEntry → Text
invalid_tenants_error group =
    text "invalid or missing tenants for group "
    ++ raw_string group.jid (text "<missing jid>")
    ++ text ": expected non-empty list of strings"

abbrev filled_tenant : Option Text → Option Text
filled_tenant none = none
filled_tenant (some value) =
    let tenant = trim_space value in if tenant == [] then none else some tenant

abbrev cons_some : Option Text → Option (List Text) → Option (List Text)
cons_some (some t) (some ts) = some (t ∷ ts)
cons_some _ _ = none

-- The loop of `groupTenants`; `none` is its error.
unfoldable pub trimmed_tenants : List (Option Text) → Option (List Text)
trimmed_tenants [] = some []
trimmed_tenants (value ∷ values) = cons_some (filled_tenant value) (trimmed_tenants values)

abbrev pub listed_tenants : Option (Option (List (Option Text))) → Option (List Text)
listed_tenants (some (some (value ∷ values))) = trimmed_tenants (value ∷ values)
listed_tenants _ = none

unfoldable pub group_tenants : RawEntry → Result Text (List Text)
unfolding trimmed_tenants
group_tenants group = elim (listed_tenants group.tenants) [
  | none ↦ err (invalid_tenants_error group)
  | some tenants ↦ ok tenants
]

abbrev owned_jid : RawEntry → Text → List Text → List Text
owned_jid group tenant tenants =
    let jid = trim_space (raw_string group.jid []) in
    if not (jid == []) && contains tenants tenant then jid ∷ [] else []

-- The loop of `TenantGroupJIDs`.
unfoldable pub owned_jids : List RawEntry → Text → Result Text (List Text)
unfolding group_tenants
owned_jids [] tenant = ok []
owned_jids (group ∷ groups) tenant = do
  tenants ← group_tenants group
  jids ← owned_jids groups tenant
  ok (owned_jid group tenant tenants ++ jids)

-- `TenantGroupJIDs`; `config` is what reading and decoding the file gives.
unfoldable pub tenant_group_jids : Result Text ConfigFile → Text → Result Text (List Text)
unfolding owned_jids
tenant_group_jids config tenant = do
  cfg ← config
  if cfg.enabled then owned_jids cfg.groups tenant else ok []

-- `SinceHours`, a float64: whether it is 0, and `int64(float64(now) - *sinceHours*3600)`.
pub record SinceHours : Type 0 where
  pub is_zero : Bool
  pub cutoff : ℤ → ℤ

unfoldable pub parse_cursor : List ℕ → Option ℤ
parse_cursor bytes = parse_int (trim_space bytes)

abbrev not_negative : ℤ → ℤ
not_negative v = if ltb_ℤ v (pos 0) then pos 0 else v

abbrev cutoff_of_prior : ℤ → Option ℤ → ℤ
cutoff_of_prior now none = sub64 now one_day
cutoff_of_prior now (some prior) = not_negative (sub64 prior default_overlap)

abbrev cutoff_of_file : ℤ → ReadResult → Result Text ℤ
cutoff_of_file now absent = ok (sub64 now one_day)
cutoff_of_file now (unreadable e) = err e
cutoff_of_file now (bytes_of b) = ok (cutoff_of_prior now (parse_cursor b))

-- `cutoffFor`
unfoldable pub cutoff_for : ℤ → Text → Option SinceHours → Files → Result Text ℤ × Files
unfolding read_file parse_cursor
cutoff_for now state_path (some since) fs =
    (ok (if since.is_zero then pos 0 else since.cutoff now), fs)
cutoff_for now state_path none fs =
    let (file, fs') = read_file state_path fs in (cutoff_of_file now file, fs')

abbrev pub or_zero : Option ℤ → ℤ
or_zero none = pos 0
or_zero (some v) = v

abbrev prior_of_file : ReadResult → Result Text ℤ
prior_of_file absent = ok (pos 0)
prior_of_file (unreadable e) = err e
prior_of_file (bytes_of b) = ok (or_zero (parse_cursor b))

-- `priorCursor`
unfoldable pub prior_cursor : Text → Files → Result Text ℤ × Files
unfolding read_file parse_cursor
prior_cursor state_path fs = let (file, fs') = read_file state_path fs in (prior_of_file file, fs')

-- The condition of the query in `fetchRows`.
unfoldable pub is_fetched : List Text → ℤ → MessageRow → Bool
is_fetched jids cutoff row =
    not row.from_me
    && contains jids row.chat_jid
    && (leb_ℤ cutoff row.ts
        || (is_some row.media_hydrated_at && not (is_some row.media_surfaced_at)))

abbrev pub or_empty : Option Text → Text
or_empty none = []
or_empty (some s) = s

unfoldable pub is_skipped : MessageRow → Bool
is_skipped row = contains skip_types (to_lower (or_empty row.message_type))

-- `row.NeedsSurfaceMark`
unfoldable pub needs_surface_mark : MessageRow → Bool
needs_surface_mark row =
    not (or_zero row.media_hydrated_at == pos 0) && not (is_some row.media_surfaced_at)

-- The database as the command sees it: the tables, and the errors of its three statements.
pub record Database : Type 0 where
  pub tables : Tables
  pub fetch_error : Option Text
  pub ingest_error : Option Text
  pub mark_error : Option Text

abbrev checked : {A : Type 0} → Option Text → A → Result Text A
checked none a = ok a
checked (some e) a = err e

module _ (order : List (Text × MessageRow) → List (Text × MessageRow)) where
  -- `fetchRows`; `order` is the engine's "order by chat_label, ts".
  unfoldable pub fetch_rows : Database → List Text → ℤ → Result Text (List (Text × MessageRow))
  unfolding is_fetched
  fetch_rows db jids cutoff =
      checked db.fetch_error (order (select (λ m. is_fetched jids cutoff m.1) db.tables.messages))

-- The loop of `runWithDB` over the rows.
unfoldable pub shown : List (Text × MessageRow) → List (Text × MessageRow)
unfolding is_skipped
shown = select λ m. not (is_skipped m.1)

abbrev pub counts : RunRow → Bool
counts run = run.status == text "ok" && not run.dry_run

abbrev pub larger : Option ℤ → Option ℤ → Option ℤ
larger none b = b
larger (some a) none = some a
larger (some a) (some b) = some (if ltb_ℤ a b then b else a)

-- max(finished_at) of the runs that count
unfoldable pub latest_finished : List (Text × RunRow) → Option ℤ
latest_finished [] = none
latest_finished ((id, run) ∷ runs) =
    larger (if counts run then run.finished_at else none) (latest_finished runs)

-- `latestOKIngestFinishedAt`
unfoldable pub latest_ok_ingest_finished_at : Database → Result Text (Option ℤ)
unfolding latest_finished
latest_ok_ingest_finished_at db = checked db.ingest_error (latest_finished db.tables.runs)

abbrev marked : List Text → ℤ → Text × MessageRow → Text × MessageRow
marked ids now (id, row) =
    (id, if contains ids id then record row { media_surfaced_at = some now } else row)

abbrev pub ids_to_mark : List (Text × MessageRow) → List Text
ids_to_mark msgs = map (λ m. m.0) (select (λ m. needs_surface_mark m.1) msgs)

abbrev update_surfaced : List Text → ℤ → Database → Result Text Unit × Database
update_surfaced [] now db = (ok tt, db)
update_surfaced (id ∷ rest) now db = elim db.mark_error [
  | some e ↦ (err e, db)
  | none ↦ (
    ok tt,
    record db {
      tables = record (db.tables) { messages = map (marked (id ∷ rest) now) db.tables.messages };
    },
  )
]

-- `markSurfaced`
unfoldable pub mark_surfaced : List (Text × MessageRow) → ℤ → Database → Result Text Unit × Database
unfolding needs_surface_mark
mark_surfaced msgs now db = update_surfaced (ids_to_mark msgs) now db

-- `Options`: the decoded file of groups in place of its path, and a reading of the clock.
pub record Options : Type 0 where
  pub tenant : Text
  pub config : Result Text ConfigFile
  pub state_path : Text
  pub since_hours : Option SinceHours
  pub no_advance : Bool
  pub now : ℤ

-- What a run writes: the digest, if it comes so far, and whether it warns that the cursor stays.
pub record Ran : Type 0 where
  pub result : Result Text Unit
  pub output : Option (ℤ × List (Text × MessageRow))
  pub warned : Bool
  pub files : Files
  pub db : Database

abbrev pub least : ℤ → ℤ → ℤ
least now v = if ltb_ℤ now v then now else v

module _ (order : List (Text × MessageRow) → List (Text × MessageRow)) (tmp : Text) where
  abbrev mark : Options → Bool → List (Text × MessageRow) → ℤ → Files → Database → Ran
  mark opts warned msgs cutoff fs db =
      let (result, db') = mark_surfaced msgs opts.now db in
      record {
        result = result;
        output = some (cutoff, msgs);
        warned = warned;
        files = fs;
        db = db';
      }

  abbrev stop : Result Text Unit → Bool → List (Text × MessageRow) → ℤ → Files → Database → Ran
  stop result warned msgs cutoff fs db = record {
    result = result;
    output = some (cutoff, msgs);
    warned = warned;
    files = fs;
    db = db;
  }

  abbrev write_cursor : Options → List (Text × MessageRow) → ℤ → ℤ → Files → Database → Ran
  write_cursor opts msgs cutoff max_advance fs db =
      let (written, fs') =
        atomic_write_text tmp opts.state_path (print_int (least opts.now max_advance)) fs in
      elim written [
        | err e ↦ stop (err e) false msgs cutoff fs' db
        | ok _ ↦ mark opts false msgs cutoff fs' db
      ]

  -- `runWithDB` from the call of `priorCursor` on.
  unfoldable pub advance : Options → List (Text × MessageRow) → ℤ → ℤ → Files → Database → Ran
  unfolding prior_cursor atomic_write_text mark_surfaced print_int
  advance opts msgs cutoff ingest_ts fs db =
      let max_advance = sub64 ingest_ts ingest_margin in
      let (prior, fs') = prior_cursor opts.state_path fs in
      elim prior [
        | err e ↦ stop (err e) false msgs cutoff fs' db
        | ok cursor ↦
            if leb_ℤ max_advance cursor
            then mark opts true msgs cutoff fs' db
            else write_cursor opts msgs cutoff max_advance fs' db
      ]

  -- `runWithDB` after the digest is written.
  unfoldable pub after_output : Options → List (Text × MessageRow) → ℤ → Files → Database → Ran
  unfolding advance latest_ok_ingest_finished_at
  after_output opts msgs cutoff fs db =
      let ingest = latest_ok_ingest_finished_at db in
      if opts.no_advance then stop (ok tt) false msgs cutoff fs db else elim ingest [
        | err e ↦ stop (err e) false msgs cutoff fs db
        | ok none ↦ stop (ok tt) true msgs cutoff fs db
        | ok (some ingest_ts) ↦ advance opts msgs cutoff ingest_ts fs db
      ]

  abbrev pub failed : Text → Files → Database → Ran
  failed e fs db = record { result = err e; output = none; warned = false; files = fs; db = db }

  abbrev fetch_and_show : Options → List Text → ℤ → Files → Database → Ran
  fetch_and_show opts jids cutoff fs db = elim (fetch_rows order db jids cutoff) [
    | err e ↦ failed e fs db
    | ok rows ↦ after_output opts (shown rows) cutoff fs db
  ]

  -- `runWithDB`, with the paths that it needs set.
  unfoldable pub run : Options → Files → Database → Ran
  unfolding tenant_group_jids cutoff_for fetch_rows shown after_output
  run opts fs db =
      if opts.tenant == []
      then failed (text "unseen requires --tenant <name>") fs db
      else elim (tenant_group_jids opts.config opts.tenant) [
        | err e ↦ failed e fs db
        | ok jids ↦
            let (cutoff, fs') = cutoff_for opts.now opts.state_path opts.since_hours fs in
            elim cutoff [ err e ↦ failed e fs' db | ok c ↦ fetch_and_show opts jids c fs' db ]
      ]
