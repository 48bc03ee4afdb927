-- ===== src/Listener.antt =====
-- whatsapp-daemon/internal/listener/listener.go: the handler of one event. The message store is
-- behind the interface `Store`, as in the source; `Listener/Policy.antt` and
-- `Listener/Handling.antt` have the proofs.
pub mod Policy
pub mod Handling
use wa_agent_pipeline.Base.{
  Text, Bool, true, false, not, ◌&&◌, ◌||◌, Option, none, some, List, [], ◌∷◌, ◌++◌, if◌then◌else◌,
}
use wa_agent_pipeline.Base.Int.{ℤ, pos}
use wa_agent_pipeline.Config.{Group}
use wa_agent_pipeline.Config.Manager.{Manager, group}
use wa_agent_pipeline.Health.{Status, message_at, media_failure}
use wa_agent_pipeline.Writer.{Event, WriteResult, no_result}
use wa_agent_pipeline.Writer.Store.{non_empty}

-- `Store`: one operation, on a state of its own.
pub record Stores (S : Type 0) : Type 0 where
  pub write : Event → S → WriteResult × Option Text × S

pub data LogLine : Type 0 where
  dropped_disallowed : Text → Text → LogLine
  write_failed : Text → Text → Text → LogLine
  ingested : Text → Text → WriteResult → LogLine

-- `Handler`, with the store's state. A nil status or log is `none`; `wakes` are the calls of
-- `OnCommitted`, and `none` is a nil function.
pub record Handler (S : Type 0) : Type 0 where
  pub config : Manager
  pub store : S
  pub log : Option (List LogLine)
  pub status : Option Status
  pub wakes : Option (List Text)

unfoldable pub drop_text : Bool → Event → Event
drop_text keep ev = if keep then ev else record ev { body = [] }

unfoldable pub drop_media_metadata : Bool → Event → Event
drop_media_metadata keep ev = if keep then ev else record ev {
  media_type = [];
  media_title = [];
  media_path = [];
  media_url = [];
  media_size = pos 0;
}

unfoldable pub drop_media_bytes : Bool → Event → Event
drop_media_bytes keep ev = if keep then ev else record ev { media_bytes = [] }

-- What `ApplyPolicy` makes of an event of a listed chat.
unfoldable pub redact : Group → Event → Event
unfolding drop_text drop_media_metadata drop_media_bytes
redact g ev = drop_media_bytes g.copy_media (
    drop_media_metadata g.ingest_media_metadata
      (drop_text g.ingest_text (record ev { chat_label = g.label })))

abbrev pub logged : {S : Type 0} → LogLine → Handler S → Handler S
logged line h = record h { log = elim h.log [ none ↦ none | some ls ↦ some (ls ++ line ∷ []) ] }

abbrev apply_group :
    {S : Type 0} → Option Group → Event → Handler S → Option (Event × Group) × Handler S
apply_group none ev h = (none, logged (dropped_disallowed ev.chat_jid ev.msg_id) h)
apply_group (some g) ev h = (some (redact g ev, g), h)

-- `none` is a chat that the allowlist does not have.
unfoldable pub apply_policy : {S : Type 0} → Event → Handler S → Option (Event × Group) × Handler S
unfolding redact
apply_policy ev h = apply_group (group h.config ev.chat_jid) ev h

abbrev pub with_status : {S : Type 0} → (Status → Status) → Handler S → Handler S
with_status f h = record h { status = elim h.status [ none ↦ none | some s ↦ some (f s) ] }

abbrev woken : {S : Type 0} → Text → Handler S → Handler S
woken jid h = record h { wakes = elim h.wakes [ none ↦ none | some js ↦ some (js ++ jid ∷ []) ] }

-- What `HandleResult` returns: whether the event was accepted, the result, and the error.
pub record Handled : Type 0 where
  pub accepted : Bool
  pub result : WriteResult
  pub error : Option Text

abbrev pub ignored : Handled
ignored = record { accepted = false; result = no_result; error = none }

module _ {S : Type 0} (stores : Stores S) (now : ℤ) where
  -- `HandleResult` after `Store.Write` has answered.
  unfoldable pub after_write : Event → WriteResult → Option Text → Handler S → Handled × Handler S
  after_write ev res (some e) h =
      let h' = if non_empty ev.media_bytes then with_status (media_failure now) h else h in
      (
        record { accepted = true; result = no_result; error = some e },
        logged (write_failed ev.chat_jid ev.msg_id e) h',
      )
  after_write ev res none h =
      let h₁ = with_status (message_at now) h in
      let h₂ = if res.inserted || res.updated then woken ev.chat_jid h₁ else h₁ in
      (
        record { accepted = true; result = res; error = none },
        logged (ingested ev.chat_jid ev.msg_id res) h₂,
      )

  abbrev handle_applied : Option (Event × Group) × Handler S → Handled × Handler S
  handle_applied (none, h) = (ignored, h)
  handle_applied (some (ev, g), h) =
      let (res, error, store) = stores.write ev h.store in
      after_write ev res error (record h { store = store })

  unfoldable pub handle_result : Event → Handler S → Handled × Handler S
  unfolding apply_policy after_write
  handle_result ev h = handle_applied (apply_policy ev h)
