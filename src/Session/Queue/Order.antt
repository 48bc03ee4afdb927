-- ===== src/Session/Queue/Order.antt =====
-- auth.go: the worker of `Serve` handles messages in the order in which they arrive.
use mathlib.Core.List.{append_assoc, append-nil}
use wa_agent_pipeline.Base.{
  ◌≤◌, ◌≡◌, ◌⊎◌, inl, inr, refl, sym, ap, ◌∙◌, Option, none, some, List, [], ◌∷◌, ◌++◌, arith,
  Bool-cases, length, length-append, ltb,
}
use wa_agent_pipeline.Health.{Status}
use wa_agent_pipeline.Session.Queue.{
  Action, arrive, take_message, handle_message, Queue, message_queue_size, no_messages, take_oldest,
  take_if_free, finish, step, run,
}

-- `zs` is `xs` and `ys` put together, each in its order.
pub data Shuffle {M : Type 0} : List M → List M → List M → Type 0 where
  empty : Shuffle [] [] []
  left :
      {xs ys zs xs' zs' : List M} (m : M)
      → Shuffle xs ys zs
      → xs' ≡ xs ++ m ∷ []
      → zs' ≡ zs ++ m ∷ []
      → Shuffle xs' ys zs'
  right :
      {xs ys zs ys' zs' : List M} (m : M)
      → Shuffle xs ys zs
      → ys' ≡ ys ++ m ∷ []
      → zs' ≡ zs ++ m ∷ []
      → Shuffle xs ys' zs'

module _ {M : Type 0} where
  abbrev in_hand : Option M → List M
  in_hand none = []
  in_hand (some m) = m ∷ []

  -- The messages that were accepted: handled, in hand, and waiting.
  abbrev pub accepted : Queue M → List M
  accepted q = q.handled ++ (in_hand q.current ++ q.messages)

  abbrev pub arrivals : List (Action M) → List M
  arrivals [] = []
  arrivals (arrive m ∷ actions) = m ∷ arrivals actions
  arrivals (take_message ∷ actions) = arrivals actions
  arrivals (handle_message ∷ actions) = arrivals actions

  -- What holds after the messages `ms` have arrived.
  pub record InOrder (ms : List M) (q : Queue M) : Type 0 where
    pub bounded : length q.messages ≤ message_queue_size
    pub shuffled : Shuffle (accepted q) q.dropped ms
    pub dropped_when_full : (q.dropped ≡ []) ⊎ (message_queue_size ≤ length (accepted q))

  accepted-snoc :
      (handled : List M) (current : Option M) (messages : List M) (m : M)
      → handled ++ (in_hand current ++ (messages ++ m ∷ []))
        ≡ (handled ++ (in_hand current ++ messages)) ++ m ∷ []
  accepted-snoc handled current messages m =
      ap (λ l. handled ++ l) (sym (append_assoc (in_hand current) messages (m ∷ [])))
      ∙ sym (append_assoc handled (in_hand current ++ messages) (m ∷ []))

  waiting-le : (q : Queue M) → length q.messages ≤ length (accepted q)
  waiting-le q = omega (
    arith,
    length-append {0} q.handled (in_hand q.current ++ q.messages),
    length-append {0} (in_hand q.current) q.messages,
  )

  -- A step that moves an accepted message along.
  moved-InOrder :
      (ms : List M) (q q' : Queue M)
      → accepted q' ≡ accepted q
      → q'.dropped ≡ q.dropped
      → length q'.messages ≤ length q.messages
      → InOrder ms q
      → InOrder ms q'
  moved-InOrder ms q q' e d k v = record {
    bounded = omega (arith, k, v.bounded);
    shuffled = rw (e, d) v.shuffled;
    dropped_when_full = rw (e, d) v.dropped_when_full;
  }

  arrive-InOrder :
      (ms : List M) (m : M) (q : Queue M)
      → InOrder ms q
      → InOrder (ms ++ m ∷ []) (step (arrive m) q)
  unfolding step
  arrive-InOrder ms m q v =
      let grown = accepted-snoc q.handled q.current q.messages m in
      elim (Bool-cases (ltb (length q.messages) message_queue_size)) [
        | inl room ↦ rw room (record {
          bounded = ground (arith, room, length-append {0} q.messages (m ∷ []));
          shuffled = left m v.shuffled grown refl;
          dropped_when_full = elim v.dropped_when_full [
            | inl clean ↦ inl clean
            | inr full ↦
                inr (rw grown (omega (arith, full, length-append {0} (accepted q) (m ∷ []))))
          ];
        })
        | inr full ↦ rw full (record {
          bounded = v.bounded;
          shuffled = right m v.shuffled refl refl;
          dropped_when_full = inr (ground (arith, full, waiting-le q));
        })
      ]

  take_oldest-InOrder :
      (ms : List M) (waiting : List M) (q : Queue M)
      → q.current ≡ none
      → q.messages ≡ waiting
      → InOrder ms q
      → InOrder ms (take_oldest waiting q)
  take_oldest-InOrder ms [] q free e v = v
  take_oldest-InOrder ms (m ∷ rest) q free e v =
      moved-InOrder ms q (take_oldest (m ∷ rest) q)
        (ap (λ l. q.handled ++ l)
          (sym (ap (λ l. in_hand q.current ++ l) e ∙ ap (λ c. in_hand c ++ m ∷ rest) free)))
        refl (ground (arith, ap (λ l. length {0} l) e)) v

  take_message-InOrder :
      (ms : List M) (o : Option M) (q : Queue M)
      → q.current ≡ o
      → InOrder ms q
      → InOrder ms (take_if_free o q)
  take_message-InOrder ms none q free v = take_oldest-InOrder ms q.messages q free refl v
  take_message-InOrder ms (some m) q busy v = v

  handle_message-InOrder :
      (ms : List M) (o : Option M) (q : Queue M)
      → q.current ≡ o
      → InOrder ms q
      → InOrder ms (finish o q)
  handle_message-InOrder ms none q free v = v
  handle_message-InOrder ms (some m) q busy v =
      moved-InOrder ms q (finish (some m) q)
        (append_assoc q.handled (m ∷ []) q.messages
          ∙ ap (λ c. q.handled ++ (in_hand c ++ q.messages)) (sym busy))
        refl (ground arith) v

  run-InOrder-from :
      (actions : List (Action M)) (ms : List M) (q : Queue M)
      → InOrder ms q
      → InOrder (ms ++ arrivals actions) (run actions q)
  unfolding run step
  run-InOrder-from [] ms q v = rw (append-nil ms) v
  run-InOrder-from (arrive m ∷ actions) ms q v =
      rw⁻¹ (append_assoc ms (m ∷ []) (arrivals actions))
        (run-InOrder-from actions (ms ++ m ∷ []) (step (arrive m) q) (arrive-InOrder ms m q v))
  run-InOrder-from (take_message ∷ actions) ms q v =
      run-InOrder-from actions ms (step take_message q) (take_message-InOrder ms q.current q refl v)
  run-InOrder-from (handle_message ∷ actions) ms q v =
      run-InOrder-from actions ms (step handle_message q)
        (handle_message-InOrder ms q.current q refl v)

  -- After any sequence of arrivals and of steps of the worker that starts with an empty queue, at most
  -- 128 messages wait; the messages handled, in hand and waiting, read in that order, and the dropped
  -- ones make up the messages that arrived, each in their order of arrival; and nothing is dropped
  -- unless at least 128 messages have been accepted.
  pub run-InOrder :
      (actions : List (Action M)) (status : Option Status)
      → InOrder (arrivals actions) (run actions (no_messages status))
  run-InOrder actions status =
      run-InOrder-from actions [] (no_messages status)
        (record { bounded = ground arith; shuffled = empty; dropped_when_full = inl refl })
