-- ===== src/Command/Cursors.antt =====
-- main.go and unseen.go: `cron-check` of one tenant, with the unseen command as it is, and the
-- cursors of the others.
use wa_agent_pipeline.Base.{
  Text, ◌≡◌, ◌≢◌, refl, false, Option, none, some, Result, List, [], ◌∷◌, contains, text_eq, nat_eq,
  arith,
}
use wa_agent_pipeline.Base.Int.{ℤ}
use wa_agent_pipeline.Texts.{text}
use wa_agent_pipeline.Files.Atomic.{at}
use wa_agent_pipeline.Writer.{MessageRow}
use wa_agent_pipeline.Unseen.{ConfigFile}
use wa_agent_pipeline.Unseen.Entry.{Machine, run_on}
use wa_agent_pipeline.Unseen.Others.{run_on-Leaves}
use wa_agent_pipeline.Paths.{slash, root, default_state_path}
use wa_agent_pipeline.Paths.State.{default_state_path_apart}
use wa_agent_pipeline.Command.{
  given, Exit, CronFlags, Parsers, Parts, Surroundings, or_default, required, report, checked,
  cron_call, run_cron_check_command,
}

module _ (order : List (Text × MessageRow) → List (Text × MessageRow)) (tmp : Text)
    (config_at : Text → Result Text ConfigFile) (open_error : Option Text) (now : ℤ) where
  -- The parts, with the unseen command.
  abbrev pub with_unseen : Parts Machine → Parts Machine
  with_unseen parts = record parts { unseen = run_on order tmp config_at open_error now }

  module _ (parsers : Parsers) (others : Parts Machine) (env : Surroundings) (path : Text) where
    abbrev Leaves : Machine → Exit × Machine → Type 0
    Leaves m out = at path out.1.files ≡ at path m.files

    report-Leaves :
        (m : Machine) (out : Option Text × Machine)
        → at path out.1.files ≡ at path m.files
        → Leaves m (report parsers (with_unseen others) env out)
    report-Leaves m (none, m') h = h
    report-Leaves m (some e, m') h = h

    required-Leaves :
        (e value : Text) (next : Machine → Exit × Machine) (m : Machine)
        → (value ≢ [] → Leaves m (next m))
        → Leaves m (required parsers (with_unseen others) env 3 e value next m)
    required-Leaves e [] next m h = refl
    required-Leaves e (c ∷ s) next m h = h (λ e. ground (arith, e))

  -- Where the names of two tenants differ and have no slash, `cron-check` for the one, whatever fails
  -- in it, leaves the cursor file of the other as it was, if the temporary file is another one.
  pub run_cron_check_command-leaves :
      (parsers : Parsers) (others : Parts Machine) (env : Surroundings) (home : Text)
      (args : List Text) (f : CronFlags) (other : Text) (m : Machine)
      → parsers.cron_check args ≡ given f
      → contains (or_default [] f.tenant) slash ≡ false
      → contains other slash ≡ false
      → or_default [] f.tenant ≢ other
      → tmp ≢ default_state_path (root env.root_variable home) other
      → at
          (default_state_path (root env.root_variable home) other)
          (run_cron_check_command parsers (with_unseen others) env home args m).1.files
        ≡ at (default_state_path (root env.root_variable home) other) m.files
  unfolding run_cron_check_command
  run_cron_check_command-leaves parsers others env home args f other m read plain plain' differ
        apart =
      let top = root env.root_variable home in
      let tenant = or_default [] f.tenant in
      let path = default_state_path top other in
      let c = cron_call parsers (with_unseen others) env home f tenant in
      rw read (
        required-Leaves parsers others env path (text "cron-check requires --tenant <name>") tenant
          (checked parsers (with_unseen others) env ((with_unseen others).unseen c)) m
          (λ named.
            report-Leaves parsers others env path m (run_on order tmp config_at open_error now c m)
              (run_on-Leaves order tmp path config_at open_error now c m apart
                (λ same. differ (default_state_path_apart top tenant other plain plain' same)))))
