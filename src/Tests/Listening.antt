-- ===== src/Tests/Listening.antt =====
-- The theorems on the listener, at concrete inputs.
use wa_agent_pipeline.Base.{
  ℕ, ◌+◌, nat_eq, ◌≡◌, ◌⊎◌, refl, true, none, some, [], ◌∷◌, lookup, text_eq, beq_text,
}
use wa_agent_pipeline.Base.Int.{pos}
use wa_agent_pipeline.Config.{Group}
use wa_agent_pipeline.Config.Manager.{group}
use wa_agent_pipeline.Writer.{Event, no_result}
use wa_agent_pipeline.Listener.{Stores, Handler, ignored, redact, apply_policy, handle_result}
use wa_agent_pipeline.Listener.Policy.{Redacted}
use wa_agent_pipeline.Listener.Handling.{handle_result_policy, handle_result_wakes}
use wa_agent_pipeline.Tests.{family, family_jid, hello, loaded}

-- A store that accepts every event as a new row.
abbrev counting : Stores ℕ
counting = record { write = λ ev n. (record (no_result) { inserted = true }, none, n + 1) }

abbrev handler : Handler ℕ
handler = record { config = loaded; store = 0; log = none; status = none; wakes = some [] }

family_is_listed : group loaded family_jid ≡ some family
unfolding group lookup beq_text
family_is_listed = refl

handle_result_policy_example :
    ((group loaded family_jid ≡ none)
      × ((handle_result counting (pos 100) hello handler).0 ≡ ignored)
      × ((handle_result counting (pos 100) hello handler).1.store ≡ 0)
      × ((handle_result counting (pos 100) hello handler).1.status ≡ none)
      × ((handle_result counting (pos 100) hello handler).1.wakes ≡ some []))
    ⊎ ((g : Group) × (ev' : Event) × (group loaded family_jid ≡ some g)
        × Redacted g hello ev'
        × ((handle_result counting (pos 100) hello handler).0.accepted ≡ true)
        × ((handle_result counting (pos 100) hello handler).1.store ≡ 1))
handle_result_policy_example = handle_result_policy counting (pos 100) hello handler

handle_result_wakes_example :
    ((handle_result counting (pos 100) hello handler).0.error ≡ none)
    × ((handle_result counting (pos 100) hello handler).0.result
        ≡ (counting.write (redact family hello) 0).0)
    × ((handle_result counting (pos 100) hello handler).1.wakes ≡ some (family_jid ∷ []))
handle_result_wakes_example =
    handle_result_wakes counting (pos 100) hello handler family [] family_is_listed refl

hello_applied : (apply_policy hello handler).0 ≡ some (redact family hello, family)
unfolding apply_policy group lookup beq_text
hello_applied = refl
