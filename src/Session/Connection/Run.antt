-- ===== src/Session/Connection/Run.antt =====
-- auth.go: the state of the connection after any events of the session.
use wa_agent_pipeline.Base.{
  ℕ, Text, ◌≡◌, refl, ap, ◌∙◌, Bool, true, false, Option, none, some, List, [], ◌∷◌, ◌++◌, arith,
}
use wa_agent_pipeline.Base.Int.{ℤ}
use wa_agent_pipeline.Texts.{text}
use wa_agent_pipeline.Files.{Files}
use wa_agent_pipeline.Health.{Status, Report, set_connection, prune, write}
use wa_agent_pipeline.Session.Connection.{
  LinkEvent, connected, disconnected, stream_replaced, other, logged_out, permanent_disconnect,
  Link, written_status, set_link, handle_connection_event, handle_events,
}

-- The state that the last event of the connection tells, or the one before.
abbrev told : Bool → LinkEvent → Bool
told up connected = true
told up other = up
told up _ = false

abbrev pub last_told : Bool → List LinkEvent → Bool
last_told up [] = up
last_told up (e ∷ es) = last_told (told up e) es

-- The error of an event that ends the session.
abbrev pub ending : LinkEvent → Option Text
ending (logged_out reason) = some (text "WhatsApp logged out: " ++ reason)
ending stream_replaced = some (text "WhatsApp stream replaced by another client")
ending (permanent_disconnect description) =
    some (text "WhatsApp permanent disconnect: " ++ description)
ending _ = none

abbrev either : Option Text → Option Text → Option Text
either none b = b
either (some a) b = some a

-- The first of them.
abbrev pub first_ending : List LinkEvent → Option Text
first_ending [] = none
first_ending (e ∷ es) = either (ending e) (first_ending es)

-- The status says that the session is up, or down: connected and logged in go together.
abbrev pub Says : Bool → Option Status → Type 0
Says up none = Unit
Says up (some s) = (s.connected ≡ up) × (s.logged_in ≡ up)

either_assoc : (a b c : Option Text) → either (either a b) c ≡ either a (either b c)
either_assoc none b c = refl
either_assoc (some a) b c = refl

module _ (encode : Report → List ℕ) (health_path : Text) (now : ℤ) where
  written_status-Says :
      (up : Bool) (s : Option Status) (fs : Files)
      → Says up (written_status encode health_path now up up s fs).0
  unfolding set_connection write prune
  written_status-Says up none fs = tt
  written_status-Says up (some s) fs = (ground arith, ground arith)

  abbrev handled : LinkEvent → Link → Link
  handled e l = (handle_connection_event encode health_path now e l).1

  set_link-Says : (up : Bool) (l : Link) → Says up (set_link encode health_path now up up l).status
  unfolding set_link
  set_link-Says up l = written_status-Says up l.status l.files

  set_link-fatal :
      (up : Bool) (l : Link) → (set_link encode health_path now up up l).fatal ≡ l.fatal
  unfolding set_link
  set_link-fatal up l = refl

  handled-Says :
      (up : Bool) (e : LinkEvent) (l : Link)
      → Says up l.status
      → Says (told up e) (handled e l).status
  unfolding handle_connection_event
  handled-Says up connected l v = set_link-Says true l
  handled-Says up disconnected l v = set_link-Says false l
  handled-Says up (logged_out reason) l v = set_link-Says false l
  handled-Says up stream_replaced l v = set_link-Says false l
  handled-Says up (permanent_disconnect description) l v = set_link-Says false l
  handled-Says up other l v = v

  handled-fatal : (e : LinkEvent) (l : Link) → (handled e l).fatal ≡ either l.fatal (ending e)
  unfolding handle_connection_event set_link
  handled-fatal e l = ground arith

  -- After any events of the session, from a status that says that the session is up or that it is
  -- down, the status says so of the state that the last event of the connection told, connected and
  -- logged in alike; and the error that ends the daemon is the one that was waiting before, or else
  -- that of the first event that ends the session.
  pub handle_events-Says :
      (es : List LinkEvent) (up : Bool) (l : Link)
      → Says up l.status
      → Says (last_told up es) (handle_events encode health_path now es l).status
        × ((handle_events encode health_path now es l).fatal ≡ either l.fatal (first_ending es))
  unfolding handle_events
  handle_events-Says [] up l v = (v, ground arith)
  handle_events-Says (e ∷ es) up l v =
      let (says, fatal) = handle_events-Says es (told up e) (handled e l) (handled-Says up e l v) in
      (
        says,
        fatal
            ∙ ap (λ f. either f (first_ending es)) (handled-fatal e l)
            ∙ either_assoc l.fatal (ending e) (first_ending es),
      )
