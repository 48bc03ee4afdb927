-- ===== src/Control/Changes.antt =====
-- changes.go: coalesced wake-ups. A subscription is a channel of one place: whether a wake-up waits
-- in it. The lock makes each method one step; a receive is one step of `watchChanges`.
use wa_agent_pipeline.Base.{
  ℕ, suc, Text, ◌≡◌, ◌≢◌, ◌⊎◌, inl, inr, Bool, true, false, ◌&&◌, Option, none, some, List, [], ◌∷◌,
  arith, Bool-cases, length, lookup, insert, ==_iff, ◌==◌, nat_eq, text_eq, if◌then◌else◌,
}
use wa_agent_pipeline.Texts.{text}
use wa_agent_pipeline.Config.{has_tenant}
use wa_agent_pipeline.Config.Manager.{Manager}
use wa_agent_pipeline.Control.{Request, Event, no_event, group_in, done_event, verdict_error}

pub record Subscription : Type 0 where
  pub jid : Text
  pub waiting : Bool

-- `Changes`; a channel is its number, and the next new one has the number `next`.
pub record Changes : Type 0 where
  pub subs : List (ℕ × Subscription)
  pub next : ℕ

unfoldable pub subscribe : Text → Changes → ℕ × Changes
subscribe jid c = (
  c.next,
  record { subs = insert c.next (record { jid = jid; waiting = false }) c.subs; next = suc c.next },
)

unfoldable pub drop_sub : ℕ → List (ℕ × Subscription) → List (ℕ × Subscription)
drop_sub ch [] = []
drop_sub ch ((i, s) ∷ subs) = let rest = drop_sub ch subs in if i == ch then rest else (i, s) ∷ rest

-- The function that `Subscribe` returns.
unfoldable pub unsubscribe : ℕ → Changes → Changes
unfolding drop_sub
unsubscribe ch c = record c { subs = drop_sub ch c.subs }

abbrev pub wake : Text → Subscription → Subscription
wake jid s = if s.jid == jid then record s { waiting = true } else s

unfoldable pub wake_all : Text → List (ℕ × Subscription) → List (ℕ × Subscription)
wake_all jid [] = []
wake_all jid ((i, s) ∷ subs) = (i, wake jid s) ∷ wake_all jid subs

-- `Notify`
unfoldable pub notify : Text → Changes → Changes
unfolding wake_all
notify jid c = record c { subs = wake_all jid c.subs }

abbrev taken : ℕ → Option Subscription → Changes → Bool × Changes
taken ch none c = (false, c)
taken ch (some s) c =
    (s.waiting, record c { subs = insert ch (record s { waiting = false }) c.subs })

-- A receive from the channel: whether a wake-up was there.
unfoldable pub receive : ℕ → Changes → Bool × Changes
receive ch c = taken ch (lookup ch c.subs) c

abbrev pub ready_event : Request → Event
ready_event req = record (no_event) { event = text "ready"; chats = req.chat_jid ∷ [] }

abbrev pub changed_event : Request → Event
changed_event req = record (no_event) { event = text "changed"; chats = req.chat_jid ∷ [] }

-- `watchChanges` up to its loop: the answer, and the channel where the loop is reached.
unfoldable pub start_watch : Option Changes → Request → Event × Option (ℕ × Changes)
unfolding subscribe done_event
start_watch none req = (done_event verdict_error (text "change subscription unavailable"), none)
start_watch (some c) req =
    if req.tenant == []
    then (done_event verdict_error (text "change subscription unavailable"), none)
    else (ready_event req, some (subscribe req.chat_jid c))

-- The loop's case of a wake-up: the event that is sent, or `none` where the subscription ends since
-- the chat is no longer the tenant's alone.
unfoldable pub on_wake : Option Manager → Request → Option Event
on_wake config req = elim (group_in config req.chat_jid) [
  | none ↦ none
  | some g ↦
      if length g.tenants == 1 && has_tenant g req.tenant then some (changed_event req) else none
]

lookup-wake_all :
    (jid : Text) (ch : ℕ) (subs : List (ℕ × Subscription)) (s : Subscription)
    → lookup ch subs ≡ some s
    → lookup ch (wake_all jid subs) ≡ some (wake jid s)
unfolding lookup wake_all
lookup-wake_all jid ch [] s h = absurd (ground (arith, h))
lookup-wake_all jid ch ((i, t) ∷ subs) s h = elim (Bool-cases (i == ch)) [
  | inl hit ↦ let same : t ≡ s = ground (arith, h, hit) in ground (arith, hit, same)
  | inr miss ↦
      let later = lookup-wake_all jid ch subs s (ground (arith, h, miss)) in
      ground (arith, miss, later)
]

-- After `Notify` of a chat, a subscription to it has a wake-up waiting, and every other subscription
-- is as it was; the next receive of the woken subscriber then reports a change.
pub notify-wakes :
    (jid : Text) (ch : ℕ) (c : Changes) (s : Subscription)
    → lookup ch c.subs ≡ some s
    → ((s.jid ≡ jid)
        × (lookup ch (notify jid c).subs ≡ some (record s { waiting = true }))
        × ((receive ch (notify jid c)).0 ≡ true))
      ⊎ ((s.jid ≢ jid)
          × (lookup ch (notify jid c).subs ≡ some s)
          × ((receive ch (notify jid c)).0 ≡ s.waiting))
unfolding notify receive
notify-wakes jid ch c s h =
    let woken = lookup-wake_all jid ch c.subs s h in
    elim (Bool-cases (s.jid == jid)) [
      | inl same ↦
          inl ((==_iff s.jid jid).0 same, ground (arith, woken, same), ground (arith, woken, same))
      | inr other ↦ inr (
        ground (arith, other, ==_iff s.jid jid),
        ground (arith, woken, other),
        ground (arith, woken, other),
      )
    ]
