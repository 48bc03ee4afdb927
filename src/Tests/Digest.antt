-- ===== src/Tests/Digest.antt =====
-- The theorems on the unseen digest and its files, at concrete inputs.
use wa_agent_pipeline.Base.{
  nat_eq, Text, ◌≡◌, ◌⊎◌, ◌↔◌, refl, true, false, none, some, List, [], ◌∷◌, In, ok, err, lookup,
  text_eq, Distinct, ◌≢◌, contains, beq_text,
}
use wa_agent_pipeline.Base.Int.{pos}
use wa_agent_pipeline.Texts.{text, trim_space}
use wa_agent_pipeline.Files.{Files}
use wa_agent_pipeline.Writer.{no_result}
use wa_agent_pipeline.Writer.Write.Row.{row_of}
use wa_agent_pipeline.Files.{atomic_write_text}
use wa_agent_pipeline.Files.Atomic.{Replaced, atomic_write_text-Replaced}
use wa_agent_pipeline.Base.{arith, select}
use wa_agent_pipeline.Texts.{to_lower}
use wa_agent_pipeline.Writer.{MessageRow, null_empty}
use wa_agent_pipeline.Writer.Store.{run_row}
use wa_agent_pipeline.Unseen.{
  RawEntry, ConfigFile, Options, Database, tenant_group_jids, mark_surfaced, run,
}
use wa_agent_pipeline.Unseen.Chats.{Grants, HasTenants, tenant_group_jids_iff}
use wa_agent_pipeline.Unseen.Selection.{IsUnseen, run-digest_iff}
use wa_agent_pipeline.Unseen.Cursor.{Moved, run-Moved}
use wa_agent_pipeline.Unseen.Surfacing.{NeedsMark, surfaced, mark_surfaced_lem}
use wa_agent_pipeline.Unseen.Display.{group_messages, or_nil}
use wa_agent_pipeline.Unseen.Grouping.{of_chat, group_messages_lem}
use wa_agent_pipeline.Tests.{digest, family_jid, hello, tables, writer}

-- A run for the tenant of the family's chat, with one message in the table and the cursor at 10.
abbrev state_file : Text
state_file = text "/state/seen"

abbrev pub temporary : Text
temporary = text "/state/.seen.tmp.1"

abbrev pub as_written : List (Text × MessageRow) → List (Text × MessageRow)
as_written xs = xs

abbrev hello_row : MessageRow
hello_row = row_of digest writer hello

abbrev pub one_message : Database
one_message = record {
  tables = record (tables) {
    messages = (text "m1", hello_row) ∷ [];
    runs = (text "r1", run_row (pos 95) no_result false 1) ∷ [];
  };
  fetch_error = none;
  ingest_error = none;
  mark_error = none;
}

abbrev state_files : Files
state_files = record { content = (state_file, text "10") ∷ []; calls = 0; fault = λ n. none }

abbrev pub family_config : ConfigFile
family_config = record {
  enabled = true;
  groups = record { jid = some family_jid; tenants = some (some (some (text "home") ∷ [])) } ∷ [];
}

abbrev options : Options
options = record {
  tenant = text "home";
  config = ok family_config;
  state_path = state_file;
  since_hours = some (record { is_zero = true; cutoff = λ now. now });
  no_advance = true;
  now = pos 100;
}

family_owned : tenant_group_jids (ok family_config) (text "home") ≡ ok (family_jid ∷ [])
unfolding tenant_group_jids beq_text trim_space contains
family_owned = refl

tenant_group_jids_iff_example :
    (cfg : ConfigFile) × (options.config ≡ ok cfg)
    × ((cfg.enabled ≡ false) ⊎ ((group : RawEntry) → In group cfg.groups → HasTenants group))
    × ((jid : Text)
        → In jid (family_jid ∷ []) ↔ (
            (cfg.enabled ≡ true)
            × (group : RawEntry) × In group cfg.groups
            × Grants group (text "home") jid))
tenant_group_jids_iff_example =
    tenant_group_jids_iff (ok family_config) (text "home") (family_jid ∷ []) family_owned

hello_shown :
    (run as_written temporary options state_files one_message).output
    ≡ some (pos 0, (text "m1", hello_row) ∷ [])
unfolding run tenant_group_jids beq_text trim_space contains select to_lower null_empty
hello_shown = refl

run-digest_iff_example :
    (jids : List Text) × (tenant_group_jids (ok family_config) (text "home") ≡ ok jids)
    × ((m : Text × MessageRow)
        → In m ((text "m1", hello_row) ∷ [])
          ↔ (In m ((text "m1", hello_row) ∷ []) × IsUnseen jids (pos 0) m.1))
run-digest_iff_example =
    run-digest_iff as_written temporary options state_files one_message (pos 0)
      ((text "m1", hello_row) ∷ []) (λ xs m. (λ i. i, λ i. i)) hello_shown

temporary_apart : temporary ≢ state_file
temporary_apart e = ground (arith, e)

abbrev moving : Options
moving = record options { no_advance = false }

run-Moved_example :
    Moved moving one_message.tables.runs state_files
      (run as_written temporary moving state_files one_message).files
run-Moved_example = run-Moved as_written temporary moving state_files one_message temporary_apart

abbrev hydrated_message : List (Text × MessageRow)
hydrated_message = (text "m1", record (hello_row) { media_hydrated_at = some (pos 95) }) ∷ []

mark_surfaced_lem_example :
    ((e : Text) × (mark_surfaced hydrated_message (pos 100) one_message ≡ (err e, one_message)))
    ⊎ (((mark_surfaced hydrated_message (pos 100) one_message).0 ≡ ok tt)
        × ((id : Text)
            → (NeedsMark hydrated_message id
                × (lookup id
                      (mark_surfaced hydrated_message (pos 100) one_message).1.tables.messages
                    ≡ surfaced (pos 100) (lookup id one_message.tables.messages)))
              ⊎ ((¬ NeedsMark hydrated_message id)
                  × (lookup id
                        (mark_surfaced hydrated_message (pos 100) one_message).1.tables.messages
                      ≡ lookup id one_message.tables.messages))))
mark_surfaced_lem_example = mark_surfaced_lem hydrated_message (pos 100) one_message

group_messages_lem_example :
    let g = group_messages (record { order = []; by_group = [] }) hydrated_message in
    Distinct g.order
    × ((label : Text) → In label g.order ↔ (of_chat label hydrated_message ≢ []))
    × ((label : Text) → or_nil (lookup label g.by_group) ≡ of_chat label hydrated_message)
group_messages_lem_example = group_messages_lem hydrated_message

atomic_write_text-Replaced_example :
    Replaced temporary state_file
      (text "40")
      state_files
      (atomic_write_text temporary state_file (text "40") state_files)
atomic_write_text-Replaced_example =
    atomic_write_text-Replaced temporary state_file (text "40") state_files
