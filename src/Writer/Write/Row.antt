-- ===== src/Writer/Write/Row.antt =====
-- writer.go: the row that `Write` leaves in whatsapp_messages.
use wa_agent_pipeline.Base.{
  ℕ, suc, Text, ◌≡◌, ◌⊎◌, inl, inr, refl, sym, ==_iff, Bool-cases, ap, ◌∙◌, Bool, true, false, ◌||◌,
  Option, none, some, [], arith, Result, ok, lookup, insert, lookup-insert, is_some, ◌==◌, text_eq,
  if◌then◌else◌,
}
use wa_agent_pipeline.Base.Int.{ℤ}
use wa_agent_pipeline.Sqlite.{Engine, query}
use wa_agent_pipeline.Sqlite.Transactions.{opened, with_tx_quiet}
use wa_agent_pipeline.Writer.{Event, WriteResult, MessageRow, Tables, stable_run_id, text_hash}
use wa_agent_pipeline.Writer.Write.Upserts.{
  merged, IsOutcome, LeavesRow, merged-LeavesRow, outcome-IsOutcome,
}
use wa_agent_pipeline.Writer.Write.{source_pk_for, message_id, write, is_incomplete}
use wa_agent_pipeline.Writer.Store.{
  Store, Writer, new_row, hash_of, select_text_hash, upsert_message, refresh_fts, outcome,
  record_run, store_message, non_empty,
}

-- The engine lets every call through.
abbrev pub IsQuiet : Store → Type 0
IsQuiet d = (n : ℕ) → d.engine.fault n ≡ none

-- The foreign key holds: the chat is a known group, or the message is there already.
abbrev pub HasParent : Text → MessageRow → Tables → Type 0
HasParent id row t =
    (is_some (lookup row.chat_jid t.groups) || is_some (lookup id t.messages)) ≡ true

select_quiet :
    (id : Text) (d : Store)
    → IsQuiet d
    → select_text_hash id d
      ≡ (ok (hash_of (lookup id d.tables.messages)), record d { calls = suc d.calls })
unfolding select_text_hash query
select_quiet id d h = ground (arith, h d.calls)

upsert_quiet :
    (id : Text) (row : MessageRow) (d : Store)
    → IsQuiet d
    → HasParent id row d.tables
    → upsert_message id row d ≡ (
      ok tt,
      record d {
        calls = suc d.calls;
        tables = record (d.tables) {
          messages = insert id (merged (lookup id d.tables.messages) row) d.tables.messages;
        };
      },
    )
unfolding upsert_message query
upsert_quiet id row d h p = ground (arith, h d.calls)

-- What `refreshFTSTx` may change.
record OnlyFts (d d' : Store) : Type 0 where
  pub messages : d'.tables.messages ≡ d.tables.messages
  pub groups : d'.tables.groups ≡ d.tables.groups
  pub runs : d'.tables.runs ≡ d.tables.runs
  pub before : d'.before ≡ d.before
  pub engine : d'.engine ≡ d.engine

refresh_fts-OnlyFts : (id : Text) (ev : Event) (d : Store) → OnlyFts d (refresh_fts id ev d).1
unfolding refresh_fts query
refresh_fts-OnlyFts id ev d = ground arith

refresh_quiet : (id : Text) (ev : Event) (d : Store) → IsQuiet d → (refresh_fts id ev d).0 ≡ ok tt
unfolding refresh_fts query
refresh_quiet id ev d h = ground (arith, h d.calls, h (suc d.calls))

record_run_quiet :
    (sha : Text → Text) (id : Text) (now : ℤ) (res : WriteResult) (pending : Bool) (allowed : ℕ)
    (d : Store)
    → IsQuiet d
    → ((record_run sha id now res pending allowed d).0 ≡ ok (stable_run_id sha id now))
      × ((record_run sha id now res pending allowed d).1.tables.messages ≡ d.tables.messages)
      × ((record_run sha id now res pending allowed d).1.before ≡ d.before)
      × ((record_run sha id now res pending allowed d).1.engine ≡ d.engine)
unfolding record_run query
record_run_quiet sha id now res pending allowed d h = ground (arith, h d.calls)

module _ (sha : Text → Text) (id thash : Text) (now : ℤ) (allowed : ℕ) (ev : Event) where
  abbrev existing_in : Store → Option MessageRow
  existing_in d = lookup id d.tables.messages

  abbrev found : Store → WriteResult
  found d = outcome id ev thash (hash_of (existing_in d))

  record Stored (d : Store) (r : Result Text (WriteResult × Text) × Store) : Type 0 where
    pub value : r.0 ≡ ok (found d, stable_run_id sha id now)
    pub messages :
        r.1.tables.messages
        ≡ insert id (merged (existing_in d) (new_row ev thash now)) d.tables.messages
    pub engine : r.1.engine ≡ d.engine

  -- On a quiet engine the transaction's closure succeeds and leaves the merged row.
  store_message-Stored :
      (d : Store)
      → IsQuiet d
      → HasParent id (new_row ev thash now) d.tables
      → Stored d (store_message sha id thash now allowed ev d)
  unfolding store_message
  store_message-Stored d h p =
      let row = new_row ev thash now in
      let d₁ = record d { calls = suc d.calls } in
      let d₂ = record d {
        calls = suc (suc d.calls);
        tables = record (d.tables) {
          messages = insert id (merged (existing_in d) row) d.tables.messages;
        };
      } in
      let d₃ = (refresh_fts id ev d₂).1 in
      let s₁ = select_quiet id d h in
      let s₂ = upsert_quiet id row d₁ h p in
      let s₃ = refresh_quiet id ev d₂ h in
      let o = refresh_fts-OnlyFts id ev d₂ in
      let s₄ =
        record_run_quiet sha id now (found d) (non_empty ev.media_bytes) allowed d₃
          (λ n. ap (λ (g : Engine). g.fault n) o.engine ∙ h n) in
      record {
        value = ground (arith, s₁, s₂, s₃, s₄);
        messages = ground (arith, s₁, s₂, s₃, s₄, o.messages);
        engine = ground (arith, s₁, s₂, s₃, s₄, o.engine);
      }

source_pk_for-db :
    (ev : Event) (d : Store)
    → ((source_pk_for ev d).1.tables ≡ d.tables)
      × ((source_pk_for ev d).1.before ≡ d.before)
      × ((source_pk_for ev d).1.engine ≡ d.engine)
unfolding source_pk_for query
source_pk_for-db ev d = ground arith

-- The event as `Write` stores it: its key is completed by the source_pk that `sourcePKFor` finds.
abbrev pub keyed : Writer → Event → Event
keyed w ev = record ev { source_pk = (source_pk_for ev w.db).0 }

module _ (sha : Text → Text) (w : Writer) (ev : Event) where
  abbrev pub key_of : Text
  key_of = message_id sha (keyed w ev)

  abbrev pub hash : Text
  hash = text_hash sha ev.body ev.media_title

  abbrev pub row_of : MessageRow
  row_of = new_row (keyed w ev) hash (w.now w.readings)

  abbrev pub old_row : Option MessageRow
  old_row = lookup key_of w.db.tables.messages

  -- On such an engine, what `Write` returns and leaves, with the rows as the code makes them.
  write-merged :
      IsQuiet w.db
      → w.db.before ≡ none
      → is_incomplete ev ≡ false
      → ev.media_bytes ≡ []
      → HasParent key_of row_of w.db.tables
      → ((write sha none ev w).error ≡ none)
        × ((write sha none ev w).result ≡ outcome key_of (keyed w ev) hash (hash_of old_row))
        × ((j : Text)
            → lookup j (write sha none ev w).writer.db.tables.messages ≡ (
                if key_of == j
                then some (merged old_row row_of)
                else lookup j w.db.tables.messages))
  unfolding write
  write-merged quiet closed complete bare parent =
      let ev' = keyed w ev in
      let d = (source_pk_for ev w.db).1 in
      let (tables, before, engine) = source_pk_for-db ev w.db in
      let still_quiet : IsQuiet d = λ n. ap (λ (g : Engine). g.fault n) engine ∙ quiet n in
      let fn = store_message sha key_of hash (w.now w.readings) w.allowed_group_count ev' in
      let s =
        store_message-Stored sha key_of hash (w.now w.readings) w.allowed_group_count ev' (opened d)
          still_quiet (rw tables parent) in
      let run = with_tx_quiet fn d (before ∙ closed) still_quiet s.value s.engine in
      rw complete (
        ground (arith, run, bare),
        ground (arith, run, bare, tables),
        λ j. ground (
          arith,
          run,
          bare,
          tables,
          s.messages,
          lookup-insert key_of j (merged old_row row_of) w.db.tables.messages,
        ),
      )

  -- On a quiet engine, with no transaction open, `Write` of a complete event without media bytes,
  -- whose chat is a known group or whose row is there already, returns no error; under the message's
  -- key stands a new row with the event's data, or the old row in which they are updated, and every
  -- other row is untouched; the result has the key, says whether the row was inserted, and says that
  -- it was updated exactly where an old row had another text hash or the event has a hydration
  -- status.
  pub write_upserts :
      IsQuiet w.db
      → w.db.before ≡ none
      → is_incomplete ev ≡ false
      → ev.media_bytes ≡ []
      → HasParent key_of row_of w.db.tables
      → ((write sha none ev w).error ≡ none)
        × IsOutcome key_of
            (keyed w ev)
            hash
            (lookup key_of w.db.tables.messages)
            (write sha none ev w).result
        × ((row : MessageRow) × (lookup key_of (write sha none ev w).writer.db.tables.messages
              ≡ some row)
            × LeavesRow
                (keyed w ev)
                hash
                (w.now w.readings)
                (lookup key_of w.db.tables.messages)
                row)
        × ((j : Text)
            → (j ≡ key_of)
              ⊎ (lookup j (write sha none ev w).writer.db.tables.messages
                  ≡ lookup j w.db.tables.messages))
  write_upserts quiet closed complete bare parent =
      let (fine, result, rows) = write-merged quiet closed complete bare parent in
      let old = lookup key_of w.db.tables.messages in
      (
        fine,
        rw result (outcome-IsOutcome key_of (keyed w ev) hash old),
        (
          merged old row_of,
          ground (arith, rows key_of, (==_iff key_of key_of).1 refl),
          merged-LeavesRow (keyed w ev) hash (w.now w.readings) old,
        ),
        λ j. elim (Bool-cases (key_of == j)) [
          | inl same ↦ inl (sym ((==_iff key_of j).0 same))
          | inr apart ↦ inr (ground (arith, rows j, apart))
        ],
      )
