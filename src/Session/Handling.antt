-- ===== src/Session/Handling.antt =====
-- auth.go: `handleMessageFrom`. The options' status is the handler's, as main.go sets them up. The
-- log lines of auth.go itself are left out.
pub mod Delivery
use wa_agent_pipeline.Base.{
  ℕ, Text, Bool, true, false, ◌&&◌, Option, none, some, List, Result, ok, err, if◌then◌else◌,
}
use wa_agent_pipeline.Base.Int.{ℤ}
use wa_agent_pipeline.Texts.{text}
use wa_agent_pipeline.Config.{Group}
use wa_agent_pipeline.Health.{media_failure}
use wa_agent_pipeline.Writer.{Event}
use wa_agent_pipeline.Listener.{
  Stores, Handler, Handled, ignored, with_status, apply_policy, handle_result,
}
use wa_agent_pipeline.Session.Message.{Incoming, normalize_message}

pub data Source : Type 0 where
  live history_sync : Source

abbrev is_history : Source → Bool
is_history live = false
is_history history_sync = true

-- The client of whatsmeow, in a state of its own: the bytes of a download, or whether the error is
-- one of the two that say that the media has expired.
pub record Downloads (D C : Type 0) : Type 0 where
  pub download : D → C → Result Bool (List ℕ) × C

abbrev pub mark_expired : Source → Bool → Event → Event
mark_expired source expired ev =
    if is_history source && expired
    then record ev { media_hydration_status = text "failed: expired"; media_hydration_attempts = 1 }
    else ev

module _ {D C S : Type 0} (downloads : Downloads D C) (stores : Stores S) (now : ℤ) where
  abbrev pub downloaded :
      Source → Event → Result Bool (List ℕ) × C → Handler S → Event × C × Handler S
  downloaded source ev (err expired, client) h =
      (mark_expired source expired ev, client, with_status (media_failure now) h)
  downloaded source ev (ok body, client) h = (record ev { media_bytes = body }, client, h)

  -- The part of `handleMessageFrom` between the policy and `HandleResult`.
  unfoldable pub fetch : Source → Group → Option D → Event → C → Handler S → Event × C × Handler S
  fetch source group none ev client h = (ev, client, h)
  fetch source group (some media) ev client h =
      if group.copy_media
      then downloaded source ev (downloads.download media client) h
      else (ev, client, h)

  abbrev pub deliver :
      Source → Option D → Option (Event × Group) × Handler S → C → Handled × C × Handler S
  deliver source media (none, h) client = (ignored, client, h)
  deliver source media (some (ev, group), h) client =
      let (ev', client', h') = fetch source group media ev client h in
      let (handled, h'') = handle_result stores now ev' h' in (handled, client', h'')

  module _ (file_ext : Text → Text) (mime_extensions : Text → List Text) where
    unfoldable pub handle_message_from :
        Source → Incoming D → C → Handler S → Handled × C × Handler S
    unfolding fetch
    handle_message_from source msg client h =
        let (ev, media) = normalize_message file_ext mime_extensions now msg in
        deliver source media (apply_policy ev h) client
