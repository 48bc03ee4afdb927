-- ===== src/Command.antt =====
-- whatsapp-daemon/cmd/whatsapp-daemon/main.go: the modes of the program and their exit codes. What
-- package flag makes of the arguments is a parameter: the flags that are given, the others being
-- absent. So are the parts that a mode calls, as actions on a state: the daemon's, the client of
-- backfills and the unseen command, which `Command/Cursors.antt` fills in.
pub mod Exits
pub mod Cursors
use wa_agent_pipeline.Base.{
  ℕ, Text, Bool, true, false, not, ◌&&◌, ◌||◌, Option, none, some, Result, ok, err, List, [], ◌∷◌,
  ◌++◌, ◌==◌, text_eq, nat_eq, if◌then◌else◌,
}
use wa_agent_pipeline.Base.Int.{ℤ, pos}
use wa_agent_pipeline.Texts.{text}
use wa_agent_pipeline.Control.{Request}
use wa_agent_pipeline.Unseen.{SinceHours}
use wa_agent_pipeline.Unseen.Entry.{Call}
use wa_agent_pipeline.Paths.{
  root, join_paths, default_db, default_config, default_socket_path, default_state_path,
}
use wa_agent_pipeline.Backfill.Timestamps.{Moment, is_zero, parse_timestamp}

-- (*flag.FlagSet).Parse: ErrHelp, another error, or the flags.
pub data Parsed (F : Type 0) : Type 0 where
  help : Parsed F
  invalid : Text → Parsed F
  given : F → Parsed F

-- A code and the error that is printed.
abbrev pub Exit : Type 0
Exit = ℕ × Option Text

abbrev pub or_default : {A : Type 0} → A → Option A → A
or_default d none = d
or_default d (some v) = v

pub record DaemonFlags : Type 0 where
  pub config : Option Text
  pub db : Option Text
  pub media_root : Option Text
  pub auth_db : Option Text
  pub log : Option Text
  pub health : Option Text
  pub control_socket : Option Text

pub record BackfillFlags : Type 0 where
  pub chat : Option Text
  pub tenant : Option Text
  pub before : Option Text
  pub anchor_msg_id : Option Text
  pub limit : Option ℤ
  pub control_socket : Option Text

pub record UnseenFlags : Type 0 where
  pub db : Option Text
  pub config : Option Text
  pub tenant : Option Text
  pub state : Option Text
  pub no_advance : Option Bool
  pub since_hours : Option SinceHours

pub record CronFlags : Type 0 where
  pub db : Option Text
  pub config : Option Text
  pub tenant : Option Text

-- What package flag answers for the arguments of each mode.
pub record Parsers : Type 0 where
  pub daemon : Text → List Text → Parsed DaemonFlags
  pub backfill : List Text → Parsed BackfillFlags
  pub unseen : List Text → Parsed UnseenFlags
  pub cron_check : List Text → Parsed CronFlags

-- The parts, each with the error that it returns.
pub record Parts (W : Type 0) : Type 0 where
  pub new_logger : Text → W → Option Text × W
  pub new_config : Text → W → Option Text × W
  pub new_writer : Text → Text → W → Option Text × W
  pub ensure_groups : W → Option Text × W
  pub pair : Text → W → Option Text × W
  pub serve : Text → Text → W → Option Text × W
  pub client : Text → Request → W → Exit × W
  pub unseen : Call → W → Option Text × W

-- The value of WA_AGENT_PIPELINE_HOME, os.UserHomeDir, %q, and time.Parse by its layout.
pub record Surroundings : Type 0 where
  pub root_variable : Text
  pub home : Result Text Text
  pub quote : Text → Text
  pub parse_time : Text → Text → Option Moment

-- The mode, and the arguments that are left.
abbrev pub select_mode : List Text → Text × List Text
select_mode [] = (text "serve", [])
select_mode ([] ∷ args) = (text "serve", [] ∷ args)
select_mode ((c ∷ s) ∷ args) = if c == b'-' then (text "serve", (c ∷ s) ∷ args) else (c ∷ s, args)

abbrev pub is_mode : Text → Bool
is_mode mode =
    mode == text "pair"
    || mode == text "serve"
    || mode == text "backfill"
    || mode == text "unseen"
    || mode == text "cron-check"

module _ {W : Type 0} (parsers : Parsers) (parts : Parts W) (env : Surroundings) where
  abbrev refuse : ℕ → Text → W → Exit × W
  refuse code e w = ((code, some e), w)

  abbrev pub attempted : Option Text × W → (W → Exit × W) → Exit × W
  attempted (some e, w) next = refuse 1 e w
  attempted (none, w) next = next w

  -- if err := part; err != nil { return 1, err }
  abbrev pub attempt : (W → Option Text × W) → (W → Exit × W) → W → Exit × W
  attempt part next w = attempted (part w) next

  -- return 0, part
  abbrev finish : (W → Option Text × W) → W → Exit × W
  finish part w = let (e, w') = part w in ((0, e), w')

  abbrev pub with_flags : {F : Type 0} → ℕ → Parsed F → (F → W → Exit × W) → W → Exit × W
  with_flags code help next w = ((0, none), w)
  with_flags code (invalid e) next w = refuse code e w
  with_flags code (given f) next w = next f w

  -- if value == "" { return code, e }
  abbrev pub required : ℕ → Text → Text → (W → Exit × W) → W → Exit × W
  required code e [] next = refuse code e
  required code e (c ∷ s) next = next

  abbrev daemon_dir : Text → Text → Text
  daemon_dir home file =
      join_paths (root env.root_variable home ∷ text "whatsapp-daemon" ∷ file ∷ [])

  abbrev pub start_mode : Text → Text → DaemonFlags → W → Exit × W
  start_mode home mode f =
      let auth_db = or_default (daemon_dir home (text "auth.db")) f.auth_db in
      if mode == text "pair"
      then finish (parts.pair auth_db)
      else if mode == text "serve"
      then finish (
          parts.serve auth_db
            (or_default (default_socket_path env.root_variable home) f.control_socket))
      else refuse 1 (text "unknown mode " ++ env.quote mode)

  abbrev pub open_log : Text → DaemonFlags → W → Option Text × W
  open_log home f = parts.new_logger (or_default (daemon_dir home (text "daemon.log")) f.log)

  abbrev pub open_config : Text → DaemonFlags → W → Option Text × W
  open_config home f =
      parts.new_config (or_default (default_config env.root_variable home) f.config)

  abbrev pub open_store : Text → DaemonFlags → W → Option Text × W
  open_store home f =
      let top = root env.root_variable home in
      parts.new_writer (or_default (default_db top) f.db)
        (or_default (join_paths (top ∷ text "media-cache" ∷ [])) f.media_root)

  abbrev pub from_groups : Text → Text → DaemonFlags → W → Exit × W
  from_groups home mode f = attempt parts.ensure_groups (start_mode home mode f)

  abbrev pub from_store : Text → Text → DaemonFlags → W → Exit × W
  from_store home mode f = attempt (open_store home f) (from_groups home mode f)

  abbrev pub from_config : Text → Text → DaemonFlags → W → Exit × W
  from_config home mode f = attempt (open_config home f) (from_store home mode f)

  unfoldable pub run_daemon_mode : Text → Text → List Text → W → Exit × W
  unfolding root join_paths default_db default_config default_socket_path
  run_daemon_mode home mode args =
      with_flags 1 (parsers.daemon mode args)
        λ f. attempt (open_log home f) (from_config home mode f)

  abbrev before_unix : Moment → ℤ
  before_unix t = if is_zero t then pos 0 else t.unix

  abbrev request_of : BackfillFlags → Moment → Request
  request_of f before = record {
    op = [];
    chat_jid = or_default [] f.chat;
    tenant = or_default [] f.tenant;
    anchor_msg_id = or_default [] f.anchor_msg_id;
    before_unix = before_unix before;
    limit = or_default (pos 50) f.limit;
  }

  abbrev pub ask : Text → BackfillFlags → Result Text Moment → W → Exit × W
  ask home f (err e) = refuse 1 e
  ask home f (ok before) =
      parts.client (or_default (default_socket_path env.root_variable home) f.control_socket)
        (request_of f before)

  unfoldable pub run_backfill_client : Text → List Text → W → Exit × W
  unfolding default_socket_path parse_timestamp
  run_backfill_client home args = with_flags 1 (parsers.backfill args) λ f.
      required 1 (text "backfill requires --chat <jid>") (or_default [] f.chat)
        (ask home f (parse_timestamp env.parse_time (or_default [] f.before)))

  abbrev unseen_call : Text → UnseenFlags → Text → Call
  unseen_call home f tenant =
      let top = root env.root_variable home in
      let state = or_default [] f.state in
      record {
        db_path = or_default (default_db top) f.db;
        config_path = or_default (default_config env.root_variable home) f.config;
        tenant = tenant;
        state_path = if state == [] then default_state_path top tenant else state;
        since_hours = f.since_hours;
        no_advance = or_default false f.no_advance;
      }

  unfoldable pub run_unseen_command : Text → List Text → W → Exit × W
  unfolding root default_db default_config default_state_path
  run_unseen_command home args = with_flags 1 (parsers.unseen args) λ f.
      let tenant = or_default [] f.tenant in
      required 1 (text "unseen requires --tenant <name>") tenant
        (finish (parts.unseen (unseen_call home f tenant)))

  abbrev pub cron_call : Text → CronFlags → Text → Call
  cron_call home f tenant =
      let top = root env.root_variable home in
      record {
        db_path = or_default (default_db top) f.db;
        config_path = or_default (default_config env.root_variable home) f.config;
        tenant = tenant;
        state_path = default_state_path top tenant;
        since_hours = none;
        no_advance = false;
      }

  abbrev pub report : Option Text × W → Exit × W
  report (some e, w) = refuse 3 e w
  report (none, w) = ((0, none), w)

  -- if err := part; err != nil { return 3, err }
  abbrev pub checked : (W → Option Text × W) → W → Exit × W
  checked part w = report (part w)

  unfoldable pub run_cron_check_command : Text → List Text → W → Exit × W
  unfolding root default_db default_config default_state_path
  run_cron_check_command home args = with_flags 3 (parsers.cron_check args) λ f.
      let tenant = or_default [] f.tenant in
      required 3 (text "cron-check requires --tenant <name>") tenant
        (checked (parts.unseen (cron_call home f tenant)))

  abbrev pub dispatch : Text → List Text → Text → W → Exit × W
  dispatch mode args home =
      if mode == text "backfill"
      then run_backfill_client home args
      else if mode == text "unseen"
      then run_unseen_command home args
      else if mode == text "cron-check"
      then run_cron_check_command home args
      else run_daemon_mode home mode args

  abbrev pub at_home : Text → List Text → Result Text Text → W → Exit × W
  at_home mode args (err e) = refuse 1 e
  at_home mode args (ok home) = dispatch mode args home

  abbrev pub run_mode : Text → List Text → W → Exit × W
  run_mode mode args w =
      if mode == text "help"
      then ((0, none), w)
      else if not (is_mode mode)
      then refuse 1
          (text "unknown mode "
            ++ env.quote mode
            ++ text "; use pair, serve, backfill, unseen, or cron-check")
          w
      else at_home mode args env.home w

  -- The first argument is os.Args[1:].
  unfoldable pub run : List Text → W → Exit × W
  unfolding run_backfill_client run_unseen_command run_cron_check_command run_daemon_mode
  run arguments = let (mode, args) = select_mode arguments in run_mode mode args
