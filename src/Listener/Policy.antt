-- ===== src/Listener/Policy.antt =====
-- listener.go: what `ApplyPolicy` leaves of an event.
use wa_agent_pipeline.Base.{
  ◌≡◌, ap, ◌∙◌, ◌⊎◌, inl, inr, Option-cases, Bool, true, false, none, some, [], arith,
}
use wa_agent_pipeline.Base.Int.{pos}
use wa_agent_pipeline.Config.{Group}
use wa_agent_pipeline.Config.Manager.{group}
use wa_agent_pipeline.Writer.{Event}
use wa_agent_pipeline.Listener.{Handler, redact, apply_policy}

-- A switch that is on keeps the value, and one that is off empties it.
abbrev pub Switched : {A : Type 0} → Bool → A → A → A → Type 0
Switched on empty before after = ((on ≡ true) × (after ≡ before)) ⊎ ((on ≡ false) × (after ≡ empty))

-- What a group's switches promise of an event that passes them.
pub record Redacted (g : Group) (ev ev' : Event) : Type 0 where
  pub label : ev'.chat_label ≡ g.label
  pub body : Switched g.ingest_text [] ev.body ev'.body
  pub media_type : Switched g.ingest_media_metadata [] ev.media_type ev'.media_type
  pub media_title : Switched g.ingest_media_metadata [] ev.media_title ev'.media_title
  pub media_path : Switched g.ingest_media_metadata [] ev.media_path ev'.media_path
  pub media_url : Switched g.ingest_media_metadata [] ev.media_url ev'.media_url
  pub media_size : Switched g.ingest_media_metadata (pos 0) ev.media_size ev'.media_size
  pub media_bytes : Switched g.copy_media [] ev.media_bytes ev'.media_bytes
  pub chat : ev'.chat_jid ≡ ev.chat_jid
  pub message : ev'.msg_id ≡ ev.msg_id

pub redact-Redacted : (g : Group) (ev : Event) → Redacted g ev (redact g ev)
unfolding redact
redact-Redacted g ev = record {
  label = ground arith;
  body = ground arith;
  media_type = ground arith;
  media_title = ground arith;
  media_path = ground arith;
  media_url = ground arith;
  media_size = ground arith;
  media_bytes = ground arith;
  chat = ground arith;
  message = ground arith;
}

redact_idem : (g : Group) (ev : Event) → redact g (redact g ev) ≡ redact g ev
unfolding redact
redact_idem g ev = ground arith

pub listed :
    {S : Type 0} (ev : Event) (h : Handler S) (g : Group)
    → group h.config ev.chat_jid ≡ some g
    → apply_policy ev h ≡ (some (redact g ev, g), h)
unfolding apply_policy
listed ev h g e = ground (arith, e)

pub unlisted :
    {S : Type 0} (ev : Event) (h : Handler S)
    → group h.config ev.chat_jid ≡ none
    → (apply_policy ev h).0 ≡ none
unfolding apply_policy
unlisted ev h e = ground (arith, e)

-- `handleMessageFrom` applies the policy before it downloads, and `HandleResult` applies it again:
-- the second pass lets the event through as the first one left it.
pub apply_policy_twice :
    {S : Type 0} (ev : Event) (h : Handler S) (ev' : Event) (g : Group)
    → (apply_policy ev h).0 ≡ some (ev', g)
    → ((apply_policy ev h).1 ≡ h) × (apply_policy ev' h ≡ (some (ev', g), h))
apply_policy_twice ev h ev' g e = elim (Option-cases (group h.config ev.chat_jid)) [
  | inl absent ↦ cc (unlisted ev h absent)
  | inr (g', found) ↦
      let first = listed ev h g' found in
      let same_event : redact g' ev ≡ ev' = cc in
      let same_group : g' ≡ g = cc in
      let chat = (redact-Redacted g' ev).chat in
      let again = listed (redact g' ev) h g' (ap (group h.config) chat ∙ found) in
      (cc, cc (again, redact_idem g' ev))
]
