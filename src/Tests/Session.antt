-- ===== src/Tests/Session.antt =====
-- The theorems on the session of WhatsApp, at concrete inputs.
use wa_agent_pipeline.Base.{
  ℕ, ◌+◌, ◌≤◌, nat_eq, Text, ◌≡◌, ◌⊎◌, refl, true, false, none, some, Option, List, [], ◌∷◌, ok,
  Result, text_eq, arith, length,
}
use wa_agent_pipeline.Base.Int.{pos}
use wa_agent_pipeline.Texts.{text}
use wa_agent_pipeline.Config.{Group}
use wa_agent_pipeline.Config.Manager.{group}
use wa_agent_pipeline.Health.{new_status, Report}
use wa_agent_pipeline.Writer.{Event, no_result}
use wa_agent_pipeline.Listener.{Stores, Handler, ignored}
use wa_agent_pipeline.Session.Message.{Media, Body, Incoming, plain, normalize_message}
use wa_agent_pipeline.Session.Message.Shape.{IsNormal, normalize_message-IsNormal}
use wa_agent_pipeline.Session.Handling.{Downloads, live, handle_message_from}
use wa_agent_pipeline.Session.Handling.Delivery.{Delivered, handle_message_from-Delivered}
use wa_agent_pipeline.Session.History.{
  no_stats, WebMessage, SyncData, all_messages, handle_history_sync,
}
use wa_agent_pipeline.Session.History.Accounting.{
  settled, decided, Within, handle_history_sync-accounts,
}
use wa_agent_pipeline.Session.Connection.{connected, stream_replaced, Link, handle_events}
use wa_agent_pipeline.Session.Connection.Run.{Says, handle_events-Says}
use wa_agent_pipeline.Session.Queue.{Action, arrive, take_message, handle_message, no_messages, run}
use wa_agent_pipeline.Session.Queue.Order.{InOrder, run-InOrder}
use wa_agent_pipeline.Session.Serve.{
  Serving, arrive as serve_arrive, started, sync_arrives, sync_handled, parent_done, Reach, here,
  next, handling, leaving, add_sync, report_result,
}
use wa_agent_pipeline.Session.Serve.Shutdown.{IsOrderly, CanReturn, Reach-IsOrderly}
use wa_agent_pipeline.Tests.{family_jid, loaded, no_faults}

-- An image of the family, downloads by name, and libraries that know no extension.
abbrev image : Media Text
image = record {
  caption = text " at the lake ";
  mimetype = text "image/jpeg";
  file_name = [];
  title = [];
  url = text "https://mmg.whatsapp.net/1";
  file_length = 4096;
  source = text "image 1";
}

abbrev image_body : Body Text
image_body = record {
  conversation = [];
  extended_text = none;
  polls = plain [];
  poll_update = false;
  image = some image;
  document = none;
  video = none;
  audio = none;
  ptv = none;
  sticker = none;
}

abbrev image_message : Incoming Text
image_message = record {
  chat = family_jid;
  id = text "M2";
  sender = text "49@s.whatsapp.net";
  push_name = text "Ada";
  timestamp = pos 90;
  from_me = false;
  info_type = text "media";
  body = some image_body;
}

abbrev no_ext : Text → Text
no_ext _ = []

abbrev no_extensions : Text → List Text
no_extensions _ = []

abbrev all_found : Downloads Text ℕ
all_found = record { download = λ d n. (ok (1 ∷ []), n + 1) }

abbrev counting : Stores ℕ
counting = record { write = λ ev n. (record (no_result) { inserted = true }, none, n + 1) }

abbrev handler : Handler ℕ
handler = record { config = loaded; store = 0; log = none; status = none; wakes = some [] }

normalize_message-IsNormal_example :
    IsNormal (normalize_message no_ext no_extensions (pos 100) image_message).0
normalize_message-IsNormal_example =
    normalize_message-IsNormal no_ext no_extensions (pos 100) image_message

abbrev image_event : Event
image_event = (normalize_message no_ext no_extensions (pos 100) image_message).0

handle_message_from-Delivered_example :
    let out =
      handle_message_from all_found counting
        (pos 100)
        no_ext
        no_extensions
        live
        image_message
        0
        handler in
    ((group loaded image_event.chat_jid ≡ none)
      × (out.0 ≡ ignored)
      × (out.1 ≡ 0)
      × (out.2.store ≡ 0)
      × (out.2.status ≡ none)
      × (out.2.wakes ≡ some []))
    ⊎ ((g : Group) × (stored : Event) × (group loaded image_event.chat_jid ≡ some g)
        × Delivered g image_event stored 0 out.1
        × (out.0.accepted ≡ true)
        × (out.2.store ≡ 1))
handle_message_from-Delivered_example =
    handle_message_from-Delivered all_found counting (pos 100) no_ext no_extensions live
      image_message 0 handler

-- A sync with a conversation of the family, with one message and a nil pointer, and one without.
abbrev web_message : WebMessage Text
web_message = record {
  key =
      some (record { id = text "M2"; remote_jid = family_jid; participant = []; from_me = false });
  timestamp = 90;
  body = some image_body;
}

abbrev sync : SyncData Text
sync = record {
  sync_type = text "ON_DEMAND";
  on_demand = true;
  conversations =
      some (record { id = family_jid; messages = some web_message ∷ none ∷ [] })
      ∷ some (record { id = []; messages = some web_message ∷ [] })
      ∷ [];
}

abbrev as_is : Text → Option Text
as_is jid = some jid

abbrev parsed : Text → WebMessage Text → Result Text (Option (Incoming Text))
parsed _ _ = ok (some image_message)

five_checks : all_messages sync.conversations + length sync.conversations ≤ 5
unfolding all_messages
five_checks = omega arith

handle_history_sync-accounts_example :
    let out =
      handle_history_sync all_found counting
        (pos 100)
        no_ext
        no_extensions
        as_is
        parsed
        (some loaded)
        (some sync)
        5
        0
        handler in
    (out.stopped ≡ false)
    × (out.stats.conversations ≡ 2)
    × (out.stats.conversations ≡ decided out.stats)
    × (all_messages sync.conversations ≡ settled out.stats)
    × Within out.stats
handle_history_sync-accounts_example =
    handle_history_sync-accounts all_found counting (pos 100) no_ext no_extensions as_is parsed
      (some loaded) sync 5 0 handler five_checks

abbrev no_bytes : Report → List ℕ
no_bytes _ = []

abbrev link : Link
link = record {
  status = some new_status;
  files = no_faults;
  connected_signal = false;
  fatal = none;
}

handle_events-Says_example :
    let out =
      handle_events no_bytes
        (text "health.json")
        (pos 100)
        (connected ∷ stream_replaced ∷ connected ∷ [])
        link in
    Says true out.status × (out.fatal ≡ some (text "WhatsApp stream replaced by another client"))
handle_events-Says_example =
    handle_events-Says no_bytes (text "health.json") (pos 100)
      (connected ∷ stream_replaced ∷ connected ∷ []) false link (refl, refl)

abbrev actions : List (Action ℕ)
actions = arrive 1 ∷ take_message ∷ arrive 2 ∷ handle_message ∷ arrive 3 ∷ take_message ∷ []

run-InOrder_example : InOrder (1 ∷ 2 ∷ 3 ∷ []) (run actions (no_messages none))
run-InOrder_example = run-InOrder actions none

-- A sync that arrives and is handled, and a second one that is still there when the daemon is told to stop.
abbrev two_syncs : Serving Text
two_syncs = add_sync (some sync) (add_sync (some sync) started)

abbrev stopping : Serving Text
stopping =
    record (report_result (some sync) (no_stats [])
      (record two_syncs { syncs = handling (some sync) ∷ leaving ∷ [] })) { context_done = true }

Reach-stopping : Reach started stopping
unfolding serve_arrive
Reach-stopping =
    next
      (next (next (next here (sync_arrives (some sync))) (sync_arrives (some sync)))
        (sync_handled (handling (some sync) ∷ []) [] (some sync) (no_stats []) refl))
      parent_done

Reach-IsOrderly_example : IsOrderly stopping × CanReturn stopping
Reach-IsOrderly_example = Reach-IsOrderly stopping Reach-stopping
