-- ===== src/Session/Handling/Delivery.antt =====
-- auth.go with listener.go: what is downloaded and what is stored of a message of the session.
use wa_agent_pipeline.Base.{
  ℕ, Text, ◌≡◌, ◌⊎◌, inl, inr, refl, ap, ◌∙◌, Bool, true, false, Option, none, some, List, [],
  arith, Bool-cases, Option-cases, Result, ok, err,
}
use wa_agent_pipeline.Base.Int.{ℤ, pos}
use wa_agent_pipeline.Texts.{text}
use wa_agent_pipeline.Config.{Group}
use wa_agent_pipeline.Config.Manager.{group}
use wa_agent_pipeline.Writer.{Event}
use wa_agent_pipeline.Listener.{
  Stores, Handler, Handled, ignored, redact, apply_policy, handle_result,
}
use wa_agent_pipeline.Listener.Policy.{Switched, Redacted, redact-Redacted, listed}
use wa_agent_pipeline.Listener.Handling.{handle_result_policy}
use wa_agent_pipeline.Session.Message.{Incoming, normalize_message}
use wa_agent_pipeline.Session.Handling.{
  Source, live, history_sync, downloaded, Downloads, mark_expired, fetch, handle_message_from,
}

-- What is stored of a message of a listed chat, and whether the client was asked for its media.
pub record Delivered {C : Type 0} (g : Group) (ev stored : Event) (client client' : C)
    : Type 0 where
  pub label : stored.chat_label ≡ g.label
  pub body : Switched g.ingest_text [] ev.body stored.body
  pub media_type : Switched g.ingest_media_metadata [] ev.media_type stored.media_type
  pub media_title : Switched g.ingest_media_metadata [] ev.media_title stored.media_title
  pub media_path : Switched g.ingest_media_metadata [] ev.media_path stored.media_path
  pub media_url : Switched g.ingest_media_metadata [] ev.media_url stored.media_url
  pub media_size : Switched g.ingest_media_metadata (pos 0) ev.media_size stored.media_size
  pub media : (g.copy_media ≡ true) ⊎ ((stored.media_bytes ≡ []) × (client' ≡ client))
  pub chat : stored.chat_jid ≡ ev.chat_jid
  pub message : stored.msg_id ≡ ev.msg_id

-- What a download changes of an event.
record OnlyMedia (ev ev' : Event) : Type 0 where
  pub bytes : List ℕ
  pub status : Text
  pub attempts : ℕ
  pub same : ev' ≡ record ev {
    media_bytes = bytes;
    media_hydration_status = status;
    media_hydration_attempts = attempts;
  }

unchanged-OnlyMedia : (ev : Event) → OnlyMedia ev ev
unchanged-OnlyMedia ev = record {
  bytes = ev.media_bytes;
  status = ev.media_hydration_status;
  attempts = ev.media_hydration_attempts;
  same = refl;
}

mark_expired-OnlyMedia :
    (source : Source) (expired : Bool) (ev : Event) → OnlyMedia ev (mark_expired source expired ev)
mark_expired-OnlyMedia live expired ev = unchanged-OnlyMedia ev
mark_expired-OnlyMedia history_sync true ev = record {
  bytes = ev.media_bytes;
  status = text "failed: expired";
  attempts = 1;
  same = refl;
}
mark_expired-OnlyMedia history_sync false ev = unchanged-OnlyMedia ev

module _ {D C S : Type 0} (downloads : Downloads D C) (stores : Stores S) (now : ℤ) where
  fetch_quiet :
      (source : Source) (g : Group) (media : Option D) (ev : Event) (client : C) (h : Handler S)
      → g.copy_media ≡ false
      → fetch downloads stores now source g media ev client h ≡ (ev, client, h)
  unfolding fetch
  fetch_quiet source g none ev client h off = refl
  fetch_quiet source g (some media) ev client h off = ground (arith, off)

  fetch_config :
      (source : Source) (g : Group) (media : Option D) (ev : Event) (client : C) (h : Handler S)
      → ((fetch downloads stores now source g media ev client h).2.config ≡ h.config)
        × ((fetch downloads stores now source g media ev client h).2.store ≡ h.store)
        × ((fetch downloads stores now source g media ev client h).2.wakes ≡ h.wakes)
  unfolding fetch
  fetch_config source g media ev client h = ground arith

  downloaded-OnlyMedia :
      (source : Source) (ev : Event) (r : Result Bool (List ℕ) × C) (h : Handler S)
      → OnlyMedia ev (downloaded downloads stores now source ev r h).0
  downloaded-OnlyMedia source ev (err expired, client) h = mark_expired-OnlyMedia source expired ev
  downloaded-OnlyMedia source ev (ok body, client) h = record {
    bytes = body;
    status = ev.media_hydration_status;
    attempts = ev.media_hydration_attempts;
    same = refl;
  }

  fetch-OnlyMedia :
      (source : Source) (g : Group) (media : Option D) (ev : Event) (client : C) (h : Handler S)
      → OnlyMedia ev (fetch downloads stores now source g media ev client h).0
  unfolding fetch
  fetch-OnlyMedia source g none ev client h = unchanged-OnlyMedia ev
  fetch-OnlyMedia source g (some media) ev client h = elim (Bool-cases g.copy_media) [
    | inr off ↦ rw off (unchanged-OnlyMedia ev)
    | inl on ↦ rw on (downloaded-OnlyMedia source ev (downloads.download media client) h)
  ]

twice-Switched :
    {A : Type 0} (on : Bool) (empty a b c : A)
    → Switched on empty a b
    → Switched on empty b c
    → Switched on empty a c
twice-Switched on empty a b c (inl (e, h)) (inl (_, k)) = inl (e, k ∙ h)
twice-Switched on empty a b c (inl (e, h)) (inr (f, k)) = inr (f, k)
twice-Switched on empty a b c (inr (e, h)) (inl (f, k)) = inr (e, k ∙ h)
twice-Switched on empty a b c (inr (e, h)) (inr (_, k)) = inr (e, k)

-- The policy, a download, and the policy again.
twice-Delivered :
    {C : Type 0} (g : Group) (ev first second stored : Event) (client client' : C)
    → Redacted g ev first
    → OnlyMedia first second
    → Redacted g second stored
    → ((g.copy_media ≡ true) ⊎ (client' ≡ client))
    → Delivered g ev stored client client'
twice-Delivered g ev first second stored client client' r m r' k =
    let between = m.same in
    record {
      label = r'.label;
      body =
          twice-Switched g.ingest_text [] ev.body first.body stored.body r.body
            (rw between at r'.body);
      media_type =
          twice-Switched g.ingest_media_metadata [] ev.media_type first.media_type stored.media_type
            r.media_type (rw between at r'.media_type);
      media_title =
          twice-Switched g.ingest_media_metadata [] ev.media_title first.media_title
            stored.media_title r.media_title (rw between at r'.media_title);
      media_path =
          twice-Switched g.ingest_media_metadata [] ev.media_path first.media_path stored.media_path
            r.media_path (rw between at r'.media_path);
      media_url =
          twice-Switched g.ingest_media_metadata [] ev.media_url first.media_url stored.media_url
            r.media_url (rw between at r'.media_url);
      media_size =
          twice-Switched g.ingest_media_metadata (pos 0) ev.media_size first.media_size
            stored.media_size r.media_size (rw between at r'.media_size);
      media = ground (arith, r'.media_bytes, k);
      chat = r'.chat ∙ ap (λ (e : Event). e.chat_jid) between ∙ r.chat;
      message = r'.message ∙ ap (λ (e : Event). e.msg_id) between ∙ r.message;
    }

module _ {D C S : Type 0} (downloads : Downloads D C) (stores : Stores S) (now : ℤ)
    (file_ext : Text → Text) (mime_extensions : Text → List Text) where
  abbrev handled : Source → Incoming D → C → Handler S → Handled × C × Handler S
  handled = handle_message_from downloads stores now file_ext mime_extensions

  abbrev event_of : Incoming D → Event
  event_of msg = (normalize_message file_ext mime_extensions now msg).0

  refused :
      (source : Source) (msg : Incoming D) (client : C) (h : Handler S)
      → group h.config (event_of msg).chat_jid ≡ none
      → ((handled source msg client h).0 ≡ ignored)
        × ((handled source msg client h).1 ≡ client)
        × ((handled source msg client h).2.store ≡ h.store)
        × ((handled source msg client h).2.status ≡ h.status)
        × ((handled source msg client h).2.wakes ≡ h.wakes)
  unfolding handle_message_from apply_policy
  refused source msg client h absent = (
    ground (arith, absent),
    ground (arith, absent),
    ground (arith, absent),
    ground (arith, absent),
    ground (arith, absent),
  )

  accepted :
      (source : Source) (msg : Incoming D) (client : C) (h : Handler S) (g : Group)
      → group h.config (event_of msg).chat_jid ≡ some g
      → handled source msg client h ≡ (
          let (ev', client', h') =
            fetch downloads stores now source g
              (normalize_message file_ext mime_extensions now msg).1
              (redact g (event_of msg))
              client
              h in
          let (out, h'') = handle_result stores now ev' h' in (out, client', h''))
  unfolding handle_message_from
  accepted source msg client h g found = ground (arith, listed (event_of msg) h g found)

  quiet :
      (source : Source) (g : Group) (media : Option D) (ev : Event) (client : C) (h : Handler S)
      {client' : C}
      → client' ≡ (fetch downloads stores now source g media ev client h).1
      → (g.copy_media ≡ true) ⊎ (client' ≡ client)
  quiet source g media ev client h same = elim (Bool-cases g.copy_media) [
    | inl on ↦ inl on
    | inr off ↦
        inr (same ∙ ap (λ o. o.1) (fetch_quiet downloads stores now source g media ev client h off))
  ]

  -- A message of a chat that is not listed is dropped: nothing is downloaded, stored, counted or
  -- announced. For a message of a listed chat one event is written, with the group's label, in which
  -- text and media metadata are kept or emptied as the group's switches say; and where the group
  -- copies no media, the event has no bytes and the client was not asked for any.
  pub handle_message_from-Delivered :
      (source : Source) (msg : Incoming D) (client : C) (h : Handler S)
      → ((group h.config (event_of msg).chat_jid ≡ none)
          × ((handled source msg client h).0 ≡ ignored)
          × ((handled source msg client h).1 ≡ client)
          × ((handled source msg client h).2.store ≡ h.store)
          × ((handled source msg client h).2.status ≡ h.status)
          × ((handled source msg client h).2.wakes ≡ h.wakes))
        ⊎ ((g : Group) × (stored : Event) × (group h.config (event_of msg).chat_jid ≡ some g)
            × Delivered g (event_of msg) stored client (handled source msg client h).1
            × ((handled source msg client h).0.accepted ≡ true)
            × ((handled source msg client h).2.store ≡ (stores.write stored h.store).2))
  handle_message_from-Delivered source msg client h =
      let ev = event_of msg in
      let media = (normalize_message file_ext mime_extensions now msg).1 in
      elim (Option-cases (group h.config ev.chat_jid)) [
        | inl absent ↦
            let (a, b, c, d, e) = refused source msg client h absent in inl (absent, a, b, c, d, e)
        | inr (g, found) ↦
            let fetched = fetch downloads stores now source g media (redact g ev) client h in
            let ran = accepted source msg client h g found in
            let only = fetch-OnlyMedia downloads stores now source g media (redact g ev) client h in
            let (config, store, wakes) =
              fetch_config downloads stores now source g media (redact g ev) client h in
            let first = redact-Redacted g ev in
            let same_chat : fetched.0.chat_jid ≡ ev.chat_jid =
              ap (λ (e : Event). e.chat_jid) only.same ∙ first.chat in
            let still : group fetched.2.config fetched.0.chat_jid ≡ some g =
              cc (config, same_chat, found) in
            elim (handle_result_policy stores now fetched.0 fetched.2) [
              | inl (absent, _, _, _, _) ↦ absurd (cc (absent, still))
              | inr (g', stored, found', redacted, acc, written) ↦
                  let same : g' ≡ g = cc (found', still) in
                  let asked : (handled source msg client h).1 ≡ fetched.1 = ap (λ o. o.1) ran in
                  inr (
                    g,
                    stored,
                    found,
                    twice-Delivered g ev (redact g ev) fetched.0 stored client
                        (handled source msg client h).1 first only (rw same at redacted)
                        (quiet source g media (redact g ev) client h asked),
                    ap (λ o. o.0.accepted) ran ∙ acc,
                    ap (λ o. o.2.store) ran ∙ written ∙ ap (λ t. (stores.write stored t).2) store,
                  )
            ]
      ]
