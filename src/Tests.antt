-- ===== src/Tests.antt =====
-- Concrete data: an allowlist of one group, its message store over an engine and a file system that
-- let every call through, and a message. The children apply the theorems of the library to it.
pub mod Allowlist
pub mod Storing
pub mod Listening
pub mod Serving
pub mod Digest
pub mod Backfilling
pub mod Session
pub mod Requests
pub mod Written
pub mod Migrating
pub mod Commands
pub mod Socket
use wa_agent_pipeline.Base.{
  ℕ, ◌+◌, nat_eq, Text, ◌≡◌, ◌⊎◌, ◌↔◌, refl, true, false, none, some, List, [], ◌∷◌, ◌++◌, map, In,
  ok, err, lookup, ◌==◌, text_eq, if◌then◌else◌, Distinct, inl, ◌≢◌, All, contains, beq_text,
}
use wa_agent_pipeline.Base.Int.{ℤ, pos, ◌≤ℤ◌}
use wa_agent_pipeline.Texts.{text, trim_space, split}
use wa_agent_pipeline.Config.{
  Group, RawGroup, FileConfig, LoadError, Disk, load, load_group, checked_tenants,
  normalize_tenants, supported_chat_jid, same_group, bool_default,
}
use wa_agent_pipeline.Config.Jid.{IsChatJid, supported_chat_jid_iff}
use wa_agent_pipeline.Config.Tenants.{IsFilled, normalize_tenants_iff}
use wa_agent_pipeline.Config.Equality.{same_group_iff}
use wa_agent_pipeline.Config.Load.{
  IsAllowlist, Entries, enabled_entries, load-IsAllowlist, load-Entries,
}
use wa_agent_pipeline.Config.Manager.{Manager, Change, empty, offer, reload, group}
use wa_agent_pipeline.Config.Manager.Reload.{reload-group, reload_notifies}
use wa_agent_pipeline.Config.Manager.Maps.{nil-IsMap}
use wa_agent_pipeline.Files.{Files}
use wa_agent_pipeline.Sqlite.{Db, Engine, Action, with_tx, query}
use wa_agent_pipeline.Sqlite.Transactions.{Undone, with_tx_atomic, with_tx-open, query-IsBody}
use wa_agent_pipeline.Writer.{Event, Tables, no_result}
use wa_agent_pipeline.Writer.Store.{Store, Writer, hash_of, outcome}
use wa_agent_pipeline.Writer.Write.{write, is_incomplete}
use wa_agent_pipeline.Writer.Write.Row.{keyed, key_of, hash, row_of, HasParent, write_upserts}
use wa_agent_pipeline.Listener.{Stores, Handler, ignored, redact, apply_policy, handle_result}
use wa_agent_pipeline.Listener.Policy.{Redacted, apply_policy_twice}
use wa_agent_pipeline.Listener.Handling.{handle_result_policy, handle_result_wakes}
use wa_agent_pipeline.Control
use wa_agent_pipeline.Control.{
  Request, Executor, replied, op_backfill, verdict_viable, done_event, default_chunk_size,
  normalize_request, handle_conn, exit_code_for_verdict,
}
use wa_agent_pipeline.Control.Changes.{Changes, notify, receive, notify-wakes}
use wa_agent_pipeline.Control.Requests.{normalize_request_lem}
use wa_agent_pipeline.Control.Gate.{Answered, handle_conn-Answered}
use wa_agent_pipeline.Control.Client.{client_request, IsExecutor}
use wa_agent_pipeline.Files.{atomic_write_text}
use wa_agent_pipeline.Files.Atomic.{Replaced, atomic_write_text-Replaced}
use wa_agent_pipeline.Base.{arith, inr, select}
use wa_agent_pipeline.Texts.{to_lower}
use wa_agent_pipeline.Writer.{MessageRow, null_empty, safe_path_part}
use wa_agent_pipeline.Writer.Store.{run_row}
use wa_agent_pipeline.Writer.PathParts.{IsPathPart, safe_path_part-IsPathPart}
use wa_agent_pipeline.Unseen.{
  RawEntry, ConfigFile, Options, Database, tenant_group_jids, ids_to_mark, mark_surfaced, run,
  latest_finished,
}
use wa_agent_pipeline.Unseen.Chats.{Grants, tenant_group_jids_iff}
use wa_agent_pipeline.Unseen.Selection.{IsUnseen, run-digest_iff}
use wa_agent_pipeline.Unseen.Cursor.{Moved, run-Moved}
use wa_agent_pipeline.Unseen.Surfacing.{mark_surfaced_lem, run-no_advance}
use wa_agent_pipeline.Unseen.Display.{group_messages, or_nil, one_line}
use wa_agent_pipeline.Unseen.Grouping.{of_chat, group_messages_lem, one_line_lem}
use wa_agent_pipeline.Backfill.{Summary, verdict, merge_summaries}
use wa_agent_pipeline.Backfill.Verdicts.{merge_summaries-verdict}

abbrev pub family_jid : Text
family_jid = text "120@g.us"

abbrev pub raw_family : RawGroup
raw_family = record {
  jid = family_jid;
  label = text "Family";
  tenants = some (text " home " ∷ []);
  purpose = [];
  ingest_text = none;
  ingest_media_metadata = some false;
  copy_media = none;
  index_embeddings = none;
  retention_days = none;
}

abbrev pub family : Group
family = record {
  jid = family_jid;
  label = text "Family";
  tenants = text "home" ∷ [];
  purpose = [];
  ingest_text = true;
  ingest_media_metadata = false;
  copy_media = false;
  index_embeddings = false;
  retention_days = none;
}

abbrev pub family_disk : Disk
family_disk = record {
  content = ok (record { enabled = true; groups = raw_family ∷ [] });
  mod_time = ok (pos 7);
}

-- What the program stores and who writes it: the tables, the writer over a quiet engine, and a
-- message of the family. The digest of a text is the text.
abbrev pub quiet : Engine
quiet = record { fault = λ n. none; stays_open = λ n. false }

abbrev pub tables : Tables
tables = record {
  groups =
      (
        family_jid,
        record {
          label = text "Family";
          purpose = [];
          ingest_text = true;
          ingest_media_metadata = false;
          copy_media = false;
          index_embeddings = false;
          retention_days = none;
          updated_at = pos 1;
        },
      )
      ∷ [];
  messages = [];
  fts = [];
  runs = [];
}

abbrev pub store : Store
store = record {
  tables = tables;
  before = none;
  memory = record { fts_unavailable = false };
  calls = 0;
  engine = quiet;
}

abbrev pub no_faults : Files
no_faults = record { content = []; calls = 0; fault = λ n. none }

abbrev pub writer : Writer
writer = record {
  db = store;
  files = no_faults;
  media_root = text "/media";
  now = λ n. pos 100;
  readings = 0;
  allowed_group_count = 1;
}

abbrev pub hello : Event
hello = record {
  chat_jid = family_jid;
  chat_label = text "Family";
  msg_id = text "M1";
  sender_jid = text "49@s.whatsapp.net";
  sender_name = text "Ada";
  timestamp = pos 90;
  from_me = false;
  body = text "hello";
  raw_type = 1;
  message_type = text "text";
  media_type = text "image";
  media_title = [];
  media_path = [];
  media_url = [];
  media_size = pos 0;
  media_bytes = [];
  media_ext = [];
  media_hydration_status = [];
  media_hydration_attempts = 0;
  source_pk = pos 1;
}

abbrev pub digest : Text → Text
digest t = t

abbrev pub loaded : Manager
loaded = record { groups = (family_jid, family) ∷ []; mod_time = pos 7; subs = [] }
