-- ===== src/Control/Client.antt =====
-- control.go: the request of `RunBackfillClient`, and how `handleConn` answers it.
use wa_agent_pipeline.Base.{
  Text, ◌≡◌, ◌≢◌, ◌⊎◌, refl, ap, Option, none, some, List, [], ◌∷◌, ◌++◌, arith, ok, ◌==◌, ==_iff,
  text_eq, if◌then◌else◌,
}
use wa_agent_pipeline.Texts.{trim_space}
use wa_agent_pipeline.Config.Manager.{Manager}
use wa_agent_pipeline.Control.{
  Request, Event, Executor, replied, op_backfill, op_watch, event_done, verdict_error, done_event,
  final_event, normalize_request, handle_conn, last_done, Answer,
}
use wa_agent_pipeline.Control.Gate.{refused, watched, executed, handle_conn-Answered}

-- `normalizeRequest(opts.Request)` with the op of the client.
abbrev pub client_request : Request → Request
client_request r = record (normalize_request r) { op = op_backfill }

-- An executor of the daemon: the event that it returns is a done event, or is empty.
pub record IsExecutor {S : Type 0} (executor : Executor S) : Type 0 where
  pub verdict :
      (req : Request) (s : S)
      → ((executor.execute req s).done.event ≡ event_done)
        ⊎ ((executor.execute req s).done.event ≡ [])

last_done-snoc :
    (final : Option Event) (evts : List Event) (done : Event)
    → done.event ≡ event_done
    → last_done final (evts ++ done ∷ []) ≡ some done
unfolding last_done
last_done-snoc final [] done h = rw ((==_iff done.event event_done).1 h)
last_done-snoc final (e ∷ evts) done h =
    last_done-snoc (if e.event == event_done then some e else final) evts done h

final_event-done :
    (error : Option Text) (done : Event)
    → (done.event ≡ event_done) ⊎ (done.event ≡ [])
    → (final_event error done).event ≡ event_done
unfolding final_event done_event
final_event-done error done h = ground (arith, ==_iff done.event [])

backfill_is_not_watch : trim_space op_backfill ≢ op_watch
unfolding trim_space
backfill_is_not_watch e = ground (arith, (==_iff (trim_space op_backfill) op_watch).1 e)

-- The answer of a daemon is a list of events that ends with a done event.
pub record Concludes (answer : Answer) : Type 0 where
  pub events : List Event
  pub final : Event
  pub done : final.event ≡ event_done
  pub answered : answer ≡ replied (events ++ final ∷ [])
  pub last : last_done none (events ++ final ∷ []) ≡ some final

concludes :
    (events : List Event) (final : Event) (answer : Answer)
    → final.event ≡ event_done
    → answer ≡ replied (events ++ final ∷ [])
    → Concludes answer
concludes events final answer done answered = record {
  events = events;
  final = final;
  done = done;
  answered = answered;
  last = last_done-snoc none events final done;
}

pub handle_conn-Concludes :
    {S : Type 0}
    → (quote : Text → Text) (executor : Executor S) (config : Option Manager) (r : Request) (s : S)
    → IsExecutor executor
    → Concludes (handle_conn quote executor config (ok (client_request r)) s).0
unfolding normalize_request done_event
handle_conn-Concludes quote executor config r s v =
    elim (handle_conn-Answered quote executor config (client_request r) s) [
      | refused reason e ↦ concludes [] (done_event verdict_error reason) _ refl (ap (λ p. p.0) e)
      | watched g op alone e ↦ absurd (backfill_is_not_watch op)
      | executed g op owns e ↦
          let req = normalize_request (client_request r) in
          let ran = executor.execute req s in
          concludes ran.emitted (final_event ran.error ran.done) _
            (final_event-done ran.error ran.done (v.verdict req s)) (ap (λ p. p.0) e)
    ]
