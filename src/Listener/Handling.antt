-- ===== src/Listener/Handling.antt =====
-- listener.go: what `HandleResult` does to the store, the status and the waiting subscribers.
use wa_agent_pipeline.Base.{
  Text, ◌≡◌, ◌⊎◌, inl, inr, true, false, ◌||◌, Option, none, some, List, [], ◌∷◌, ◌++◌, arith,
  Option-cases, if◌then◌else◌,
}
use wa_agent_pipeline.Base.Int.{ℤ}
use wa_agent_pipeline.Config.{Group}
use wa_agent_pipeline.Config.Manager.{group}
use wa_agent_pipeline.Writer.{Event, WriteResult}
use wa_agent_pipeline.Listener.{Handler, Stores, ignored, redact, after_write, handle_result}
use wa_agent_pipeline.Listener.Policy.{Redacted, redact-Redacted}

module _ {S : Type 0} (stores : Stores S) (now : ℤ) where
  abbrev answer : Event → S → WriteResult × Option Text × S
  answer ev s = stores.write ev s

  handle_listed :
      (ev : Event) (h : Handler S) (g : Group)
      → group h.config ev.chat_jid ≡ some g
      → handle_result stores now ev h ≡ (
          let (res, error, store) = stores.write (redact g ev) h.store in
          after_write stores now (redact g ev) res error (record h { store = store }))
  unfolding handle_result
  handle_listed ev h g e = ground (arith, e)

  -- An event of a chat that the allowlist does not have is not accepted, without an error, and
  -- leaves the store, the status and the subscribers alone. An event of a listed chat is accepted,
  -- and one event is written, which the group's switches have cleared.
  pub handle_result_policy :
      (ev : Event) (h : Handler S)
      → ((group h.config ev.chat_jid ≡ none)
          × ((handle_result stores now ev h).0 ≡ ignored)
          × ((handle_result stores now ev h).1.store ≡ h.store)
          × ((handle_result stores now ev h).1.status ≡ h.status)
          × ((handle_result stores now ev h).1.wakes ≡ h.wakes))
        ⊎ ((g : Group) × (ev' : Event) × (group h.config ev.chat_jid ≡ some g)
            × Redacted g ev ev'
            × ((handle_result stores now ev h).0.accepted ≡ true)
            × ((handle_result stores now ev h).1.store ≡ (stores.write ev' h.store).2))
  unfolding handle_result
  handle_result_policy ev h = elim (Option-cases (group h.config ev.chat_jid)) [
    | inl e ↦ inl (e, ground (arith, e), ground (arith, e), ground (arith, e), ground (arith, e))
    | inr (g, e) ↦
        inr (g, redact g ev, e, redact-Redacted g ev, ground (arith, e), ground (arith, e))
  ]

  -- For an event of a listed chat a subscriber is woken, with the event's chat, exactly where the
  -- store returns no error and has inserted or updated a row. The store's result is returned; but
  -- where the store returns an error, the error is returned, with an empty result.
  pub handle_result_wakes :
      (ev : Event) (h : Handler S) (g : Group) (js : List Text)
      → group h.config ev.chat_jid ≡ some g
      → h.wakes ≡ some js
      → let (res, error, store) = stores.write (redact g ev) h.store in
        ((handle_result stores now ev h).0.error ≡ error)
        × ((handle_result stores now ev h).0.result ≡ elim error [
          | none ↦ res
          | some e ↦ record { id = []; inserted = false; updated = false; media_path = [] }
        ])
        × ((handle_result stores now ev h).1.wakes ≡ elim error [
          | none ↦ some (if res.inserted || res.updated then js ++ ev.chat_jid ∷ [] else js)
          | some e ↦ some js
        ])
  unfolding handle_result
  handle_result_wakes ev h g js e w = ground (arith, e, w, (redact-Redacted g ev).chat)
