-- ===== src/Unseen/Entry.antt =====
-- unseen.go: `Run`, which opens the database, and the tests of the paths at the start of `runWithDB`.
-- The file of groups at a path, the error of opening the database and the clock are parameters.
use wa_agent_pipeline.Base.{
  Text, Bool, Option, none, some, Result, ok, err, List, [], ◌==◌, text_eq, if◌then◌else◌,
}
use wa_agent_pipeline.Base.Int.{ℤ}
use wa_agent_pipeline.Texts.{text}
use wa_agent_pipeline.Files.{Files}
use wa_agent_pipeline.Writer.{MessageRow}
use wa_agent_pipeline.Unseen.{ConfigFile, SinceHours, Options, Database, Ran, failed, run}

-- `Options`, as the command fills it in.
pub record Call : Type 0 where
  pub db_path : Text
  pub config_path : Text
  pub tenant : Text
  pub state_path : Text
  pub since_hours : Option SinceHours
  pub no_advance : Bool

-- What the command acts on.
pub record Machine : Type 0 where
  pub files : Files
  pub db : Database

abbrev error_of : Result Text Unit → Option Text
error_of (ok _) = none
error_of (err e) = some e

module _ (order : List (Text × MessageRow) → List (Text × MessageRow)) (tmp : Text)
    (config_at : Text → Result Text ConfigFile) (open_error : Option Text) (now : ℤ) where
  abbrev pub options_of : Call → Options
  options_of c = record {
    tenant = c.tenant;
    config = config_at c.config_path;
    state_path = c.state_path;
    since_hours = c.since_hours;
    no_advance = c.no_advance;
    now = now;
  }

  -- `runWithDB`
  unfoldable pub run_with_db : Call → Files → Database → Ran
  unfolding run
  run_with_db c fs db =
      if c.tenant == []
      then failed order tmp (text "unseen requires --tenant <name>") fs db
      else if c.config_path == []
      then failed order tmp (text "missing config path") fs db
      else if c.state_path == []
      then failed order tmp (text "missing state path") fs db
      else run order tmp (options_of c) fs db

  -- `Run`
  unfoldable pub run_at : Call → Files → Database → Ran
  unfolding run_with_db
  run_at c fs db =
      if c.db_path == []
      then failed order tmp (text "missing db path") fs db
      else elim open_error [ some e ↦ failed order tmp e fs db | none ↦ run_with_db c fs db ]

  -- As the command sees it.
  unfoldable pub run_on : Call → Machine → Option Text × Machine
  unfolding run_at
  run_on c m =
      let ran = run_at c m.files m.db in
      (error_of ran.result, record { files = ran.files; db = ran.db })
