-- ===== src/Session/Queue.antt =====
-- auth.go: the queue of messages in `Serve`, between the event handler and the worker. Each action is
-- one step; a message is any value here, and `handle` is what the worker does with it.
pub mod Order
use wa_agent_pipeline.Base.{
  ℕ, suc, Bool, true, false, Option, none, some, List, [], ◌∷◌, ◌++◌, length, ltb, if◌then◌else◌,
}
use wa_agent_pipeline.Health.{Status, set_queue_depth}

-- `messageQueueSize`
abbrev pub message_queue_size : ℕ
message_queue_size = 128

-- A message arrives; the worker takes the oldest one, handles it, and reports the depth again.
pub data Action (M : Type 0) : Type 0 where
  arrive : M → Action M
  take_message handle_message : Action M

-- `current` is the message that the worker has taken; `handled` and `dropped` are kept in order.
pub record Queue (M : Type 0) : Type 0 where
  pub messages : List M
  pub current : Option M
  pub handled : List M
  pub dropped : List M
  pub status : Option Status

module _ {M : Type 0} where
  abbrev pub no_messages : Option Status → Queue M
  no_messages status = record {
    messages = [];
    current = none;
    handled = [];
    dropped = [];
    status = status;
  }

  abbrev depth_set : Queue M → Queue M
  depth_set q = record q {
    status = elim q.status [ none ↦ none | some s ↦ some (set_queue_depth (length q.messages) s) ];
  }

  abbrev take_oldest : List M → Queue M → Queue M
  take_oldest [] q = q
  take_oldest (m ∷ rest) q = depth_set (record q { messages = rest; current = some m })

  abbrev take_if_free : Option M → Queue M → Queue M
  take_if_free none q = take_oldest q.messages q
  take_if_free (some m) q = q

  abbrev finish : Option M → Queue M → Queue M
  finish none q = q
  finish (some m) q = depth_set (record q { current = none; handled = q.handled ++ m ∷ [] })

  unfoldable pub step : Action M → Queue M → Queue M
  unfolding set_queue_depth
  step (arrive m) q =
      if ltb (length q.messages) message_queue_size
      then depth_set (record q { messages = q.messages ++ m ∷ [] })
      else record q { dropped = q.dropped ++ m ∷ [] }
  step take_message q = take_if_free q.current q
  step handle_message q = finish q.current q

  unfoldable pub run : List (Action M) → Queue M → Queue M
  unfolding step
  run [] q = q
  run (a ∷ rest) q = run rest (step a q)
