-- ===== src/Session/Connection.antt =====
-- auth.go: `handleConnectionEvent`, the part of the event handler that follows the connection, and
-- the wait for it, `waitForClientReady`.
pub mod Run
use wa_agent_pipeline.Base.{
  ℕ, zero, suc, Text, Bool, true, false, ◌&&◌, Option, none, some, List, [], ◌∷◌, ◌++◌, Result, ok,
  err, if◌then◌else◌,
}
use wa_agent_pipeline.Base.Int.{ℤ}
use wa_agent_pipeline.Texts.{text}
use wa_agent_pipeline.Files.{Files}
use wa_agent_pipeline.Health.{Status, Report, set_connection, write}

-- The events of whatsmeow, with the description of a reason; `permanent_disconnect` is another event
-- that has the interface of that name, and `other` any event besides.
pub data LinkEvent : Type 0 where
  connected disconnected stream_replaced other : LinkEvent
  logged_out permanent_disconnect : Text → LinkEvent

-- What the handler acts on: the options' status, the file system that health.json is written to, and
-- the channels `connected` and `fatal`, of one place each.
pub record Link : Type 0 where
  pub status : Option Status
  pub files : Files
  pub connected_signal : Bool
  pub fatal : Option Text

-- `select { case fatal <- err: default: }`
abbrev pub offer_fatal : Text → Link → Link
offer_fatal error l = record l { fatal = elim l.fatal [ none ↦ some error | some e ↦ some e ] }

module _ (encode : Report → List ℕ) (health_path : Text) (now : ℤ) where
  abbrev pub written_status : Bool → Bool → Option Status → Files → Option Status × Files
  written_status is_connected logged_in none fs = (none, fs)
  written_status is_connected logged_in (some s) fs =
      let (result, (s', fs')) =
        write encode health_path now (set_connection is_connected logged_in s, fs) in
      (some s', fs')

  -- `setConnection`; a failing write of health.json is ignored.
  unfoldable pub set_link : Bool → Bool → Link → Link
  unfolding set_connection write
  set_link is_connected logged_in l =
      let (status, files) = written_status is_connected logged_in l.status l.files in
      record l { status = status; files = files }

  -- Whether the event is one of the connection, and what is left after it.
  unfoldable pub handle_connection_event : LinkEvent → Link → Bool × Link
  unfolding set_link
  handle_connection_event connected l =
      (true, record (set_link true true l) { connected_signal = true })
  handle_connection_event disconnected l = (true, set_link false false l)
  handle_connection_event (logged_out reason) l =
      (true, offer_fatal (text "WhatsApp logged out: " ++ reason) (set_link false false l))
  handle_connection_event stream_replaced l = (
    true,
    offer_fatal (text "WhatsApp stream replaced by another client") (set_link false false l),
  )
  handle_connection_event (permanent_disconnect description) l = (
    true,
    offer_fatal (text "WhatsApp permanent disconnect: " ++ description) (set_link false false l),
  )
  handle_connection_event other l = (false, l)

  unfoldable pub handle_events : List LinkEvent → Link → Link
  unfolding handle_connection_event
  handle_events [] l = l
  handle_events (e ∷ es) l = handle_events es (handle_connection_event e l).1

-- What the loop of `waitForClientReady` meets: a tick or a signal, the end of the context with its
-- error, or of the timer.
pub data Wait : Type 0 where
  poll : Wait
  cancelled : Text → Wait
  expired : Wait

-- `waitForClientReady`: the client's answers to `IsConnected() && IsLoggedIn()`, one before each wait.
-- `none` is a wait that goes on at the end of the
-- list. The error is written without its figures.
unfoldable pub wait_for_client_ready : List (Bool × Wait) → Option (Result Text Unit)
wait_for_client_ready [] = none
wait_for_client_ready ((true, w) ∷ rest) = some (ok tt)
wait_for_client_ready ((false, poll) ∷ rest) = wait_for_client_ready rest
wait_for_client_ready ((false, cancelled e) ∷ rest) = some (err e)
wait_for_client_ready ((false, expired) ∷ rest) =
    some (err (text "timed out waiting for WhatsApp serve readiness"))
