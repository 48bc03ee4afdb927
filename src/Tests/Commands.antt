-- ===== src/Tests/Commands.antt =====
-- The theorems on the command line, at concrete arguments.
use wa_agent_pipeline.Base.{
  ◌↔◌, nat_eq, Text, ◌≡◌, ◌≢◌, refl, false, inr, none, some, [], ◌∷◌, ok, Result, text_eq, arith,
  contains, beq_text,
}
use wa_agent_pipeline.Base.Int.{ℤ, pos}
use wa_agent_pipeline.Texts.{text, trim_space, split}
use wa_agent_pipeline.Files.Atomic.{at}
use wa_agent_pipeline.Unseen.{ConfigFile}
use wa_agent_pipeline.Unseen.Entry.{Machine}
use wa_agent_pipeline.Paths.{root, default_state_path}
use wa_agent_pipeline.Control.{Request, Event, done_event, verdict_viable}
use wa_agent_pipeline.Control.Dialing.{Link, run_backfill_client}
use wa_agent_pipeline.Control.Dialing.Results.{IsViable, run_backfill_client_iff}
use wa_agent_pipeline.Command.{
  help, invalid, given, CronFlags, Parsers, Parts, Surroundings, run, run_cron_check_command,
}
use wa_agent_pipeline.Command.Exits.{
  IsClient, client_of, client_of-IsClientExit, Contract, run-Contract,
}
use wa_agent_pipeline.Command.Cursors.{with_unseen, run_cron_check_command-leaves}
use wa_agent_pipeline.Tests.Digest.{temporary, as_written, one_message, family_config}

-- Flags that are read as those of the tenant `home`, and parts that do nothing.
abbrev home_flags : CronFlags
home_flags = record { db = none; config = none; tenant = some (text "home") }

abbrev parsers : Parsers
parsers = record {
  daemon = λ mode args. help;
  backfill = λ args. invalid (text "flag provided but not defined: -x");
  unseen = λ args. help;
  cron_check = λ args. given home_flags;
}

-- A daemon that answers with one done event.
abbrev answer : Event
answer = done_event verdict_viable []

abbrev link : Link
link = record {
  dial = λ socket. none;
  send = λ r. none;
  lines = λ r. text "done" ∷ [];
  scan_error = none;
  decode = λ line. ok answer;
  write = λ n. none;
}

abbrev no_format : ℤ → Text
no_format t = []

abbrev request : Request
request = record {
  op = [];
  chat_jid = text "123@g.us";
  tenant = [];
  anchor_msg_id = [];
  before_unix = pos 0;
  limit = pos 50;
}

run_backfill_client_iff_example :
    ((run_backfill_client no_format link (text "/run/control.sock") false request).code ≡ 0)
    ↔ IsViable no_format link (text "/run/control.sock") request
run_backfill_client_iff_example =
    run_backfill_client_iff no_format link (text "/run/control.sock") false request
      (inr (λ n. refl))

abbrev parts : Parts Machine
parts = record {
  new_logger = λ path w. (none, w);
  new_config = λ path w. (none, w);
  new_writer = λ db media w. (none, w);
  ensure_groups = λ w. (none, w);
  pair = λ db w. (none, w);
  serve = λ db socket w. (some (text "WhatsApp logged out"), w);
  client = client_of no_format link false;
  unseen = λ call w. (some (text "missing db path"), w);
}

abbrev surroundings : Surroundings
surroundings = record {
  root_variable = [];
  home = ok (text "/home/ann");
  quote = λ s. s;
  parse_time = λ layout s. none;
}

-- The cursors of two tenants.
abbrev work_cursor : Text
work_cursor = text "/home/ann/wa-agent-pipeline/state/whatsapp_seen_ts.work"

abbrev machine : Machine
machine = record {
  files = record { content = (work_cursor, text "10") ∷ []; calls = 0; fault = λ n. none };
  db = one_message;
}

abbrev config_at : Text → Result Text ConfigFile
config_at path = ok family_config

parts-IsClient : IsClient parts
parts-IsClient socket r w = client_of-IsClientExit no_format link false socket r w

run-Contract_example :
    Contract
      (text "cron-check")
      (run parsers parts surroundings
        (text "cron-check" ∷ text "--tenant" ∷ text "home" ∷ [])
        machine).0
run-Contract_example =
    run-Contract parsers parts surroundings (text "/home/ann")
      (text "cron-check" ∷ text "--tenant" ∷ text "home" ∷ []) machine refl parts-IsClient

state_of_work : default_state_path (root [] (text "/home/ann")) (text "work") ≡ work_cursor
unfolding default_state_path root beq_text trim_space split
state_of_work = refl

apart_from_work : temporary ≢ default_state_path (root [] (text "/home/ann")) (text "work")
apart_from_work e = ground (arith, e, state_of_work)

run_cron_check_command-leaves_example :
    at
      (default_state_path (root [] (text "/home/ann")) (text "work"))
      (run_cron_check_command parsers
        (with_unseen as_written temporary config_at none (pos 100) parts)
        surroundings
        (text "/home/ann")
        []
        machine).1.files
    ≡ at (default_state_path (root [] (text "/home/ann")) (text "work")) machine.files
unfolding contains
run_cron_check_command-leaves_example =
    run_cron_check_command-leaves as_written temporary config_at none (pos 100) parsers parts
      surroundings (text "/home/ann") [] home_flags (text "work") machine refl refl refl
      (λ e. ground (arith, e)) apart_from_work
