-- ===== src/Command/Exits.antt =====
-- main.go: the exit code of every mode.
use mathlib.Core.Path.{subst}
use wa_agent_pipeline.Base.{
  Bool, ℕ, ◌≤◌, Text, ◌≡◌, ◌≢◌, ◌⊎◌, inl, inr, refl, sym, false, Option, none, some, Result, ok,
  err, List, [], ◌∷◌, ◌==◌, ==_iff, text_eq, nat_eq, arith, Bool-cases, beq_text,
}
use wa_agent_pipeline.Base.Int.{ℤ}
use wa_agent_pipeline.Texts.{text}
use wa_agent_pipeline.Control.{Request}
use wa_agent_pipeline.Control.Dialing.{Link, run_backfill_client as run_client}
use wa_agent_pipeline.Control.Dialing.Results.{run_backfill_client-codes}
use wa_agent_pipeline.Backfill.Timestamps.{Moment, parse_timestamp}
use wa_agent_pipeline.Command.{
  Parsed, help, invalid, given, Exit, DaemonFlags, Parsers, Parts, Surroundings, with_flags,
  start_mode, attempted, required, open_log, open_config, open_store, from_groups, from_store,
  from_config, report, or_default, cron_call, ask, at_home, BackfillFlags, run_daemon_mode,
  run_backfill_client, run_unseen_command, run_cron_check_command, select_mode, is_mode, run_mode,
  dispatch, run,
}

-- What a client of backfills answers: a code of at most 2, which is not 0 where there is an error.
abbrev pub IsClientExit : Exit → Type 0
IsClientExit out = (out.0 ≤ 2) × (out.0 ≡ 0 → out.1 ≡ none)

abbrev pub IsClient : {W : Type 0} → Parts W → Type 0
IsClient {W} parts =
    (socket : Text) (r : Request) (w : W) → IsClientExit (parts.client socket r w).0

-- The client as it is, where its connection does not depend on the state.
abbrev pub client_of : {W : Type 0} → (ℤ → Text) → Link → Bool → Text → Request → W → Exit × W
client_of rfc3339 link human socket r w =
    let out = run_client rfc3339 link socket human r in ((out.code, out.error), w)

-- The code is 0, or 3 with an error.
abbrev pub IsCronExit : Exit → Type 0
IsCronExit out = (out ≡ (0, none)) ⊎ ((e : Text) × (out ≡ (3, some e)))

-- The code is 0 or 1, and 1 where there is an error before the part that the mode is for.
abbrev pub IsPlainExit : Exit → Type 0
IsPlainExit out = (out.0 ≡ 0) ⊎ ((e : Text) × (out ≡ (1, some e)))

-- The exit codes of the modes.
pub record Contract (mode : Text) (out : Exit) : Type 0 where
  pub cron_check : mode ≡ text "cron-check" → IsCronExit out
  pub backfill : mode ≡ text "backfill" → IsClientExit out
  pub plain : mode ≢ text "cron-check" → mode ≢ text "backfill" → IsPlainExit out

pub client_of-IsClientExit :
    {W : Type 0}
    → (rfc3339 : ℤ → Text) (link : Link) (human : Bool) (socket : Text) (r : Request) (w : W)
    → IsClientExit (client_of rfc3339 link human socket r w).0
client_of-IsClientExit rfc3339 link human socket r w =
    run_backfill_client-codes rfc3339 link socket human r

module _ {W : Type 0} (parsers : Parsers) (parts : Parts W) (env : Surroundings) where
  -- A property of what a mode does with its flags, where it holds of every way that they are read.
  with_flags_holds :
      {F : Type 0} (P : Exit → Type 0) (code : ℕ) (p : Parsed F) (next : F → W → Exit × W) (w : W)
      → P (0, none)
      → ((e : Text) → P (code, some e))
      → ((f : F) → P (next f w).0)
      → P (with_flags parsers parts env code p next w).0
  with_flags_holds P code help next w a b c = a
  with_flags_holds P code (invalid e) next w a b c = b e
  with_flags_holds P code (given f) next w a b c = c f

  required_holds :
      (P : Exit → Type 0) (code : ℕ) (e value : Text) (next : W → Exit × W) (w : W)
      → P (code, some e)
      → P (next w).0
      → P (required parsers parts env code e value next w).0
  required_holds P code e [] next w a b = a
  required_holds P code e (c ∷ s) next w a b = b

  report-IsCronExit : (out : Option Text × W) → IsCronExit (report parsers parts env out).0
  report-IsCronExit (none, w) = inl refl
  report-IsCronExit (some e, w) = inr (e, refl)

  cron_check-IsCronExit :
      (home : Text) (args : List Text) (w : W)
      → IsCronExit (run_cron_check_command parsers parts env home args w).0
  unfolding run_cron_check_command
  cron_check-IsCronExit home args w =
      with_flags_holds IsCronExit 3 (parsers.cron_check args) _ w (inl refl) (λ e. inr (e, refl))
        (λ f.
          let tenant = or_default [] f.tenant in
          required_holds IsCronExit 3 (text "cron-check requires --tenant <name>") tenant _ w
            (inr (_, refl))
            (report-IsCronExit (parts.unseen (cron_call parsers parts env home f tenant) w)))

  refused-IsClientExit : (e : Text) → IsClientExit (1, some e)
  refused-IsClientExit e = (omega arith, λ h. absurd (omega (arith, h)))

  ask-IsClientExit :
      (home : Text) (f : BackfillFlags) (before : Result Text Moment) (w : W)
      → IsClient parts
      → IsClientExit (ask parsers parts env home f before w).0
  ask-IsClientExit home f (err e) w client = refused-IsClientExit e
  ask-IsClientExit home f (ok before) w client = client _ _ w

  backfill-IsClientExit :
      (home : Text) (args : List Text) (w : W)
      → IsClient parts
      → IsClientExit (run_backfill_client parsers parts env home args w).0
  unfolding run_backfill_client
  backfill-IsClientExit home args w client =
      with_flags_holds IsClientExit 1 (parsers.backfill args) _ w (omega arith, λ h. refl)
        refused-IsClientExit
        (λ f.
          required_holds IsClientExit 1 (text "backfill requires --chat <jid>")
            (or_default [] f.chat) _ w (refused-IsClientExit _)
            (ask-IsClientExit home f (parse_timestamp env.parse_time (or_default [] f.before)) w
              client))

  unseen-IsPlainExit :
      (home : Text) (args : List Text) (w : W)
      → IsPlainExit (run_unseen_command parsers parts env home args w).0
  unfolding run_unseen_command
  unseen-IsPlainExit home args w =
      with_flags_holds IsPlainExit 1 (parsers.unseen args) _ w (inl refl) (λ e. inr (e, refl))
        (λ f.
          required_holds IsPlainExit 1 (text "unseen requires --tenant <name>")
            (or_default [] f.tenant) _ w (inr (_, refl)) (inl refl))

  attempted-IsPlainExit :
      (out : Option Text × W) (next : W → Exit × W)
      → ((w : W) → IsPlainExit (next w).0)
      → IsPlainExit (attempted parsers parts env out next).0
  attempted-IsPlainExit (none, w) next h = h w
  attempted-IsPlainExit (some e, w) next h = inr (e, refl)

  start_mode-IsPlainExit :
      (home mode : Text) (f : DaemonFlags) (w : W)
      → IsPlainExit (start_mode parsers parts env home mode f w).0
  start_mode-IsPlainExit home mode f w = elim (Bool-cases (mode == text "pair")) [
    | inl pair ↦ rw pair (inl refl)
    | inr other ↦ elim (Bool-cases (mode == text "serve")) [
      | inl serve ↦ rw (other, serve) (inl refl)
      | inr unknown ↦ rw (other, unknown) (inr (_, refl))
    ]
  ]

  daemon-IsPlainExit :
      (home mode : Text) (args : List Text) (w : W)
      → IsPlainExit (run_daemon_mode parsers parts env home mode args w).0
  unfolding run_daemon_mode
  daemon-IsPlainExit home mode args w =
      with_flags_holds IsPlainExit 1 (parsers.daemon mode args) _ w (inl refl) (λ e. inr (e, refl))
        (λ f.
          attempted-IsPlainExit (open_log parsers parts env home f w)
            (from_config parsers parts env home mode f)
            (λ w₁.
              attempted-IsPlainExit (open_config parsers parts env home f w₁)
                (from_store parsers parts env home mode f)
                (λ w₂.
                  attempted-IsPlainExit (open_store parsers parts env home f w₂)
                    (from_groups parsers parts env home mode f)
                    (λ w₃.
                      attempted-IsPlainExit (parts.ensure_groups w₃)
                        (start_mode parsers parts env home mode f)
                        (λ w₄. start_mode-IsPlainExit home mode f w₄)))))

  dispatch-Contract :
      (mode home : Text) (args : List Text) (w : W)
      → IsClient parts
      → Contract mode (dispatch parsers parts env mode args home w).0
  unfolding beq_text
  dispatch-Contract mode home args w client = record {
    cron_check = λ e.
        subst (λ m. IsCronExit (dispatch parsers parts env m args home w).0) (sym e)
          (cron_check-IsCronExit home args w);
    backfill = λ e.
        subst (λ m. IsClientExit (dispatch parsers parts env m args home w).0) (sym e)
          (backfill-IsClientExit home args w client);
    plain = λ not_cron not_backfill. elim (Bool-cases (mode == text "backfill")) [
      | inl e ↦ absurd (not_backfill ((==_iff mode (text "backfill")).0 e))
      | inr b ↦ elim (Bool-cases (mode == text "cron-check")) [
        | inl e ↦ absurd (not_cron ((==_iff mode (text "cron-check")).0 e))
        | inr c ↦ elim (Bool-cases (mode == text "unseen")) [
          | inl u ↦ rw (b, u) (unseen-IsPlainExit home args w)
          | inr u ↦ rw (b, u, c) (daemon-IsPlainExit home mode args w)
        ]
      ]
    ];
  }

  refused-Contract :
      (mode e : Text) → (mode == text "cron-check") ≡ false → Contract mode (1, some e)
  refused-Contract mode e other = record {
    cron_check = λ same. absurd (ground (arith, other, (==_iff mode (text "cron-check")).1 same));
    backfill = λ same. refused-IsClientExit e;
    plain = λ _ _. inr (e, refl);
  }

  done-Contract : (mode : Text) → (mode == text "cron-check") ≡ false → Contract mode (0, none)
  done-Contract mode other = record {
    cron_check = λ same. inl refl;
    backfill = λ same. (omega arith, λ h. refl);
    plain = λ _ _. inl refl;
  }

  run_mode-Contract :
      (home mode : Text) (args : List Text) (w : W)
      → env.home ≡ ok home
      → IsClient parts
      → Contract mode (run_mode parsers parts env mode args w).0
  unfolding beq_text
  run_mode-Contract home mode args w known client = elim (Bool-cases (mode == text "help")) [
    | inl h ↦ rw h (
        subst (λ m. Contract m (0, none)) (sym ((==_iff mode (text "help")).0 h))
          (done-Contract (text "help") refl))
    | inr other ↦ elim (Bool-cases (is_mode mode)) [
      | inl m ↦
          rw (other, m)
            (subst (λ h. Contract mode (at_home parsers parts env mode args h w).0) (sym known)
              (dispatch-Contract mode home args w client))
      | inr m ↦ rw (other, m) (refused-Contract mode _ (ground (arith, m)))
    ]
  ]

  -- Where the home directory is known and the client of backfills keeps its codes: `cron-check`
  -- exits with 0 and no error, or with 3 and one. `backfill` exits with at most 2, and with 0 only
  -- without an error. Every other mode, the unknown ones too, exits with 1 and an error, or with 0.
  pub run-Contract :
      (home : Text) (arguments : List Text) (w : W)
      → env.home ≡ ok home
      → IsClient parts
      → Contract (select_mode arguments).0 (run parsers parts env arguments w).0
  unfolding run
  run-Contract home arguments w known client =
      run_mode-Contract home (select_mode arguments).0 (select_mode arguments).1 w known client
