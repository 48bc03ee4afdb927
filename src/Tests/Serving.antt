-- ===== src/Tests/Serving.antt =====
-- The theorems on the control socket, at concrete inputs.
use wa_agent_pipeline.Base.{
  ℕ, ◌+◌, nat_eq, Text, ◌≡◌, ◌⊎◌, refl, true, false, none, some, List, [], ◌∷◌, ◌++◌, ok, lookup,
  text_eq, inl, inr, ◌≢◌, arith, beq_text, contains,
}
use wa_agent_pipeline.Base.Int.{ℤ, pos}
use wa_agent_pipeline.Texts.{text, trim_space}
use wa_agent_pipeline.Control
use wa_agent_pipeline.Control.{
  Request, Executor, replied, op_backfill, verdict_viable, done_event, default_chunk_size,
  normalize_request, handle_conn, event_done,
}
use wa_agent_pipeline.Control.Changes.{Changes, notify, receive, notify-wakes}
use wa_agent_pipeline.Control.Gate.{Answered, handle_conn-Answered}
use wa_agent_pipeline.Control.Client.{client_request, IsExecutor}
use wa_agent_pipeline.Control.Dialing.{Link, run_backfill_client}
use wa_agent_pipeline.Control.Dialing.Answered.{Delivers, CallsFor, run_backfill_client-handle_conn}
use wa_agent_pipeline.Config.{has_tenant}
use wa_agent_pipeline.Config.Manager.{group}
use wa_agent_pipeline.Tests.{family_jid, loaded}

abbrev request : Request
request = record {
  op = op_backfill;
  chat_jid = text " 120@g.us";
  tenant = text "home";
  anchor_msg_id = [];
  before_unix = pos 0;
  limit = pos 500;
}

abbrev no_quote : Text → Text
no_quote t = t

abbrev viable : Executor ℕ
viable = record {
  execute = λ req n. record {
    emitted = [];
    done = done_event verdict_viable [];
    error = none;
    state = n + 1;
  };
}

handle_conn-Answered_example :
    Answered no_quote viable
      (some loaded)
      (normalize_request request)
      0
      (handle_conn no_quote viable (some loaded) (ok request) 0)
handle_conn-Answered_example = handle_conn-Answered no_quote viable (some loaded) request 0

viable-IsExecutor : IsExecutor viable
unfolding done_event
viable-IsExecutor = record { verdict = λ req n. inl refl }

-- A connection that delivers the executor's event.
abbrev link : Link
link = record {
  dial = λ socket. none;
  send = λ r. none;
  lines = λ r. text "done" ∷ [];
  scan_error = none;
  decode = λ line. ok (done_event verdict_viable []);
  write = λ n. none;
}

abbrev no_format : ℤ → Text
no_format t = []

viable_answers :
    (handle_conn no_quote viable (some loaded) (ok (client_request request)) 0).0
    ≡ replied (done_event verdict_viable [] ∷ [])
unfolding handle_conn normalize_request group lookup beq_text trim_space done_event contains
    has_tenant
viable_answers = refl

link-Delivers :
    Delivers no_format link
      (text "/run/control.sock")
      request
      (handle_conn no_quote viable (some loaded) (ok (client_request request)) 0).0
link-Delivers = record {
  dialed = refl;
  sent = refl;
  scanned = refl;
  decoded = λ evts e.
      let same : evts ≡ done_event verdict_viable [] ∷ [] = ground (arith, e, viable_answers) in
      rw same refl;
}

run_backfill_client-handle_conn_example :
    (evts : List Control.Event) × (final : Control.Event) × ((handle_conn no_quote viable
        (some loaded)
        (ok (client_request request))
        0).0
      ≡ replied (evts ++ final ∷ []))
    × (final.event ≡ event_done)
    × CallsFor final.verdict
        (run_backfill_client no_format link (text "/run/control.sock") false request).code
    × ((run_backfill_client no_format link (text "/run/control.sock") false request).error ≡ none)
run_backfill_client-handle_conn_example =
    run_backfill_client-handle_conn no_format link no_quote viable (some loaded)
      (text "/run/control.sock") false request 0 viable-IsExecutor (inr λ n. refl) link-Delivers

-- One subscriber to the family's chat.
abbrev one_subscriber : Changes
one_subscriber = record { subs = (0, record { jid = family_jid; waiting = false }) ∷ []; next = 1 }

subscriber_found :
    lookup 0 one_subscriber.subs ≡ some (record { jid = family_jid; waiting = false })
unfolding lookup
subscriber_found = refl

notify-wakes_example :
    ((family_jid ≡ family_jid)
      × (lookup 0 (notify family_jid one_subscriber).subs
          ≡ some (record { jid = family_jid; waiting = true }))
      × ((receive 0 (notify family_jid one_subscriber)).0 ≡ true))
    ⊎ ((family_jid ≢ family_jid)
        × (lookup 0 (notify family_jid one_subscriber).subs
            ≡ some (record { jid = family_jid; waiting = false }))
        × ((receive 0 (notify family_jid one_subscriber)).0 ≡ false))
notify-wakes_example =
    notify-wakes family_jid 0 one_subscriber (record { jid = family_jid; waiting = false })
      subscriber_found
