-- ===== src/Writer/Write.antt =====
-- writer.go: `Write`, with `sourcePKFor`, `writeMedia`, `markMediaOK` and `markMediaFailure`.
-- The media root is a clean path; `filepath.Join` then puts a slash between the parts.
pub mod Row
pub mod Upserts
use wa_agent_pipeline.Base.{
  ℕ, suc, ◌+◌, Text, Bool, true, false, not, ◌&&◌, ◌||◌, Option, none, some, List, [], ◌∷◌, ◌++◌,
  Result, ok, err, ◌==◌, text_eq, nat_eq, ltb, length, lookup, insert, is_some, if◌then◌else◌,
}
use wa_agent_pipeline.Base.Int.{ℤ, pos, ltb_ℤ, int_eq}
use wa_agent_pipeline.Texts.{text}
use wa_agent_pipeline.Files
use wa_agent_pipeline.Files.{Files, replace_file}
use wa_agent_pipeline.Sqlite.{Db, Action, pure, ◌>>=◌, ◌>>◌, query, with_tx}
use wa_agent_pipeline.Writer.{
  Event, WriteResult, no_result, MessageRow, RunRow, Tables, stable_message_id, text_hash,
  safe_path_part, clean_ext, ext_for_type,
}
use wa_agent_pipeline.Writer.Store.{Memory, Store, Tx, Writer, non_empty, store_message}

abbrev or_empty : Option Text → Text
or_empty none = []
or_empty (some s) = s

-- The condition of `sourcePKFor`'s query.
unfoldable pub is_same_message : Event → MessageRow → Bool
is_same_message ev row =
    row.chat_jid == ev.chat_jid
    && row.msg_id == ev.msg_id
    && or_empty row.sender_jid == ev.sender_jid
    && row.ts == ev.timestamp

abbrev larger : Option ℤ → ℤ → Option ℤ
larger none v = some v
larger (some u) v = if ltb_ℤ u v then some v else some u

-- `order by source_pk desc limit 1`: the largest source_pk of the rows that fit.
unfoldable pub largest_source_pk : Event → Option ℤ → List (Text × MessageRow) → Option ℤ
unfolding is_same_message
largest_source_pk ev best [] = best
largest_source_pk ev best ((id, row) ∷ rest) =
    largest_source_pk ev (if is_same_message ev row then larger best row.source_pk else best) rest

abbrev found_pk : Result Text (Option ℤ) → ℤ
found_pk (ok (some pk)) = pk
found_pk (ok none) = pos 0
found_pk (err e) = pos 0

-- An error of the query counts as no row.
unfoldable pub source_pk_for : Event → Store → ℤ × Store
unfolding largest_source_pk
source_pk_for ev d =
    let (r, d') = query (λ t. ok (largest_source_pk ev none t.messages, t)) d in
    if ev.source_pk == pos 0 then (found_pk r, d') else (ev.source_pk, d)

abbrev ext_or : Text → Text → Text
ext_or [] kind = ext_for_type kind
ext_or (c ∷ s) kind = c ∷ s

-- The file that `writeMedia` makes for an event.
unfoldable pub media_file : Text → Event → Text
media_file root ev =
    root
    ++ b'/' ∷ safe_path_part ev.chat_jid
    ++ b'/' ∷ safe_path_part ev.msg_id
    ++ ext_or (clean_ext ev.media_ext) ev.message_type

abbrev media_result : Text → Result Text Unit × Files → Result Text Text × Files
media_result path (ok _, fs) = (ok path, fs)
media_result path (err e, fs) = (err e, fs)

unfoldable pub write_media : Text → Event → Files → Result Text Text × Files
write_media root ev fs =
    let path = media_file root ev in
    media_result path (replace_file (path ++ text ".tmp") path ev.media_bytes fs)

abbrev pub update_at : {V : Type 0} → (V → V) → Text → Option V → List (Text × V) → List (Text × V)
update_at f k none m = m
update_at f k (some v) m = insert k (f v) m

-- update … where id=?
update_message : Text → (MessageRow → MessageRow) → Tx Unit
update_message id f =
    query λ t. ok (tt, record t { messages = update_at f id (lookup id t.messages) t.messages })

update_run : Text → (RunRow → RunRow) → Tx Unit
update_run id f = query λ t. ok (tt, record t { runs = update_at f id (lookup id t.runs) t.runs })

abbrev pub hydrated : Text → ℤ → MessageRow → MessageRow
hydrated path now row = record row {
  media_local_path = some path;
  media_hydrated_at = some now;
  media_hydration_status = some (text "ok");
  media_hydration_attempts = row.media_hydration_attempts + 1;
  media_surfaced_at = none;
}

abbrev pub run_copied : RunRow → RunRow
run_copied run = record run { status = text "ok"; media_copied = run.media_copied + 1 }

unfoldable pub mark_media_ok : Text → Text → Text → Writer → Result Text Unit × Writer
unfolding update_message update_run
mark_media_ok id run_id path w =
    let now = w.now w.readings in
    let (r, db) =
      with_tx (update_message id (hydrated path now) >> update_run run_id run_copied) w.db in
    (r, record w { db = db; readings = suc w.readings })

abbrev pub not_hydrated : MessageRow → MessageRow
not_hydrated row = record row {
  media_hydration_status = some (text "failed");
  media_hydration_attempts = row.media_hydration_attempts + 1;
}

abbrev pub run_done : RunRow → RunRow
run_done run = record run { status = text "ok" }

unfoldable pub mark_media_failure : Text → Text → Writer → Result Text Unit × Writer
unfolding update_message update_run
mark_media_failure id run_id w =
    let (r, db) = with_tx (update_message id not_hydrated >> update_run run_id run_done) w.db in
    (r, record w { db = db })

-- The result, the error and the writer after a call.
pub record Written : Type 0 where
  pub result : WriteResult
  pub error : Option Text
  pub writer : Writer

abbrev failed : Text → Writer → Written
failed e w = record { result = no_result; error = some e; writer = w }

-- The error that `Write` returns where `writeMedia` failed with `e`.
abbrev media_error : Text → Result Text Unit → Text
media_error e (ok _) = e
media_error e (err m) = text "write media: " ++ e ++ text "; mark media failure: " ++ m

abbrev finish_failure : WriteResult → Text → Result Text Unit × Writer → Written
finish_failure res e (r, w) = record { result = res; error = some (media_error e r); writer = w }

abbrev finish_ok : WriteResult → Result Text Unit × Writer → Written
finish_ok res (ok _, w) = record { result = res; error = none; writer = w }
finish_ok res (err e, w) = record { result = res; error = some e; writer = w }

abbrev with_media : WriteResult → Text → WriteResult
with_media res path = record res { media_path = path; updated = not res.inserted || res.updated }

-- The part of `Write` after the transaction, where the event has media bytes.
unfoldable pub store_media : WriteResult → Text → Event → Writer → Written
unfolding write_media mark_media_ok mark_media_failure
store_media res run_id ev w =
    let (r, files) = write_media w.media_root ev w.files in
    let w' = record w { files = files } in
    elim r [
      | err e ↦ finish_failure res e (mark_media_failure res.id run_id w')
      | ok path ↦ finish_ok (with_media res path) (mark_media_ok res.id run_id path w')
    ]

abbrev pub after_tx : Event → Result Text (WriteResult × Text) × Store → Writer → Written
after_tx ev (err e, db) w = failed e (record w { db = db })
after_tx ev (ok (res, run_id), db) w =
    let w' = record w { db = db } in
    let stored = store_media res run_id ev w' in
    if non_empty ev.media_bytes then stored else record { result = res; error = none; writer = w' }

-- `event missing chat_jid, msg_id, or timestamp`
unfoldable pub is_incomplete : Event → Bool
is_incomplete ev = ev.chat_jid == [] || ev.msg_id == [] || ev.timestamp == pos 0

module _ (sha256_hex : Text → Text) where
  abbrev pub message_id : Event → Text
  message_id ev =
      stable_message_id sha256_hex ev.chat_jid ev.msg_id ev.sender_jid ev.timestamp ev.source_pk

  -- `Write` of a complete event.
  unfoldable pub write_complete : Event → Writer → Written
  write_complete event w =
      let (pk, db) = source_pk_for event w.db in
      let ev = record event { source_pk = pk } in
      let thash = text_hash sha256_hex ev.body ev.media_title in
      let now = w.now w.readings in
      let w' = record w { readings = suc w.readings } in
      after_tx ev
        (with_tx (store_message sha256_hex (message_id ev) thash now w.allowed_group_count ev) db)
        w'

  -- `cancelled` is `ctx.Err()`.
  unfoldable pub write : Option Text → Event → Writer → Written
  unfolding write_complete
  write (some cancelled) ev w = failed cancelled w
  write none ev w =
      if is_incomplete ev
      then failed (text "event missing chat_jid, msg_id, or timestamp") w
      else write_complete ev w
