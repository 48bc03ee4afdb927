-- ===== src/Backfill/Summaries/Oldest.antt =====
-- backfill.go: the summary of an answer covers every valid message of it, and its oldest anchor is
-- the anchor of one of them.
use wa_agent_pipeline.Base.{
  ℕ, ◌^◌, ◌<◌, Text, ◌≡◌, ◌≢◌, inl, inr, refl, true, ◌||◌, Option, none, some, List, [], ◌∷◌, In,
  All, arith, Bool-cases, if_holds, ==_iff, ◌==◌, text_eq,
}
use wa_agent_pipeline.Base.Int.{ℤ, pos, int_eq}
use wa_agent_pipeline.Session.History.{WebMessage, Conversation, SyncData}
use wa_agent_pipeline.Backfill.{Anchor, Summary}
use wa_agent_pipeline.Backfill.Summaries.{
  timestamp_of, valid_web_message, anchor_of, anchor_from_web_message, begin_summary, note_message,
  add_message, add_messages, add_conversations, summarize_history_sync, has_media_envelope,
}
use wa_agent_pipeline.Backfill.Summaries.Anchored.{
  stamp_nonzero, Anchored, Dated, note_message-Dated-own, note_message-Dated-kept,
  note_requested-Dated, Tallied, note_anchor-Anchored-own, note_requested-Anchored-kept,
  note_anchor-Tallied,
}

abbrev pub InUint64 : {D : Type 0} → Option (WebMessage D) → Type 0
InUint64 none = Unit
InUint64 (some m) = m.timestamp < 2 ^ 64

abbrev pub HasUint64 : {D : Type 0} → Option (Conversation D) → Type 0
HasUint64 none = Unit
HasUint64 (some conv) = All InUint64 conv.messages

-- The timestamps of all messages are of the type uint64.
abbrev pub AllUint64 : {D : Type 0} → List (Option (Conversation D)) → Type 0
AllUint64 convs = All HasUint64 convs

-- The anchor of a valid message of the requested chat, in one of the conversations.
pub record IsReturned {D : Type 0} (requested_chat : Text) (convs : List (Option (Conversation D)))
    (a : Anchor) : Type 0 where
  pub conv : Conversation D
  pub message : WebMessage D
  pub conv_in : In (some conv) convs
  pub message_in : In (some message) conv.messages
  pub valid : valid_web_message message ≡ true
  pub chat : conv.id ≡ requested_chat
  pub anchor_is : a ≡ anchor_of conv.id message

module _ (date : ℤ → ℤ × ℕ × ℕ) (age : ℤ → Option ℤ) {D : Type 0} (anchor : Anchor)
    (requested_chat : Text) where
  -- The summary reaches to a message of a chat.
  pub record Covered (chat_jid : Text) (m : WebMessage D) (s : Summary) : Type 0 where
    pub dated : Dated date anchor (timestamp_of m) s
    pub anchored : chat_jid ≡ requested_chat → Anchored (timestamp_of m) s

  -- One more message, before its anchor is noted.
  abbrev noted : WebMessage D → Summary → Summary
  noted m s = note_message date age anchor (timestamp_of m) (has_media_envelope m.body) s

  abbrev add : Text → WebMessage D → Summary → Summary
  add = add_message date age anchor requested_chat

  add_message-Covered-kept :
      (old_chat : Text) (old : WebMessage D) (chat_jid : Text) (m : WebMessage D) (s : Summary)
      → timestamp_of m ≢ pos 0
      → Covered old_chat old s
      → Covered old_chat old (add chat_jid m s)
  unfolding add_message
  add_message-Covered-kept old_chat old chat_jid m s h v = record {
    dated = note_requested-Dated date anchor (timestamp_of old) _ _ _ (
        note_message-Dated-kept date anchor age (timestamp_of old) (timestamp_of m)
          (has_media_envelope m.body) s h v.dated);
    anchored = λ e.
        note_requested-Anchored-kept (timestamp_of old) _ (anchor_from_web_message chat_jid m)
          (noted m s) (v.anchored e);
  }

  add_message-Covered-own :
      (chat_jid : Text) (m : WebMessage D) (s : Summary)
      → timestamp_of m ≢ pos 0
      → valid_web_message m ≡ true
      → Covered chat_jid m (add chat_jid m s)
  unfolding add_message anchor_from_web_message
  add_message-Covered-own chat_jid m s h valid = record {
    dated =
        note_requested-Dated date anchor (timestamp_of m) _ _ _
          (note_message-Dated-own date anchor age (timestamp_of m) (has_media_envelope m.body) s h);
    anchored = λ e.
        rw ((==_iff chat_jid requested_chat).1 e, valid)
          (note_anchor-Anchored-own (anchor_of chat_jid m) _);
  }

  add_message-Tallied :
      (P : Anchor → Type 0) (chat_jid : Text) (m : WebMessage D) (s : Summary)
      → valid_web_message m ≡ true
      → (chat_jid ≡ requested_chat → P (anchor_of chat_jid m))
      → Tallied P s
      → Tallied P (add chat_jid m s)
  unfolding add_message anchor_from_web_message
  add_message-Tallied P chat_jid m s valid p v = elim (Bool-cases (chat_jid == requested_chat)) [
    | inl asked ↦
        rw (asked, valid)
          (note_anchor-Tallied P (anchor_of chat_jid m) (noted m s)
            (p ((==_iff chat_jid requested_chat).0 asked)) (ground (arith, v.media))
            (omega (arith, v.requested)) v.origin)
    | inr other ↦ rw other (record {
      media = ground (arith, v.media);
      requested = omega (arith, v.requested);
      found = v.found;
      origin = v.origin;
    })
  ]

  abbrev add_all : Text → List (Option (WebMessage D)) → Summary → Summary
  add_all = add_messages date age anchor requested_chat

  add_messages-Covered-kept :
      (old_chat : Text) (old : WebMessage D) (chat_jid : Text) (ms : List (Option (WebMessage D)))
      (s : Summary)
      → All InUint64 ms
      → Covered old_chat old s
      → Covered old_chat old (add_all chat_jid ms s)
  unfolding add_messages
  add_messages-Covered-kept old_chat old chat_jid [] s range v = v
  add_messages-Covered-kept old_chat old chat_jid (none ∷ ms) s range v =
      add_messages-Covered-kept old_chat old chat_jid ms s range.1 v
  add_messages-Covered-kept old_chat old chat_jid (some m ∷ ms) s range v =
      let rest = λ (s' : Summary) (v' : Covered old_chat old s').
        add_messages-Covered-kept old_chat old chat_jid ms s' range.1 v' in
      if_holds (λ s'. Covered old_chat old (add_all chat_jid ms s')) (valid_web_message m)
        (add chat_jid m s) s
        (λ valid.
          rest (add chat_jid m s)
            (add_message-Covered-kept old_chat old chat_jid m s (stamp_nonzero m range.0 valid) v))
        (λ broken. rest s v)

  add_messages-Covered-own :
      (m : WebMessage D) (chat_jid : Text) (ms : List (Option (WebMessage D))) (s : Summary)
      → All InUint64 ms
      → valid_web_message m ≡ true
      → In (some m) ms
      → Covered chat_jid m (add_all chat_jid ms s)
  unfolding add_messages
  add_messages-Covered-own m chat_jid [] s range valid i = absurd i
  add_messages-Covered-own m chat_jid (none ∷ ms) s range valid (inr i) =
      add_messages-Covered-own m chat_jid ms s range.1 valid i
  add_messages-Covered-own m chat_jid (none ∷ ms) s range valid (inl e) = absurd (ground (arith, e))
  add_messages-Covered-own m chat_jid (some m' ∷ ms) s range valid (inl e) =
      let same : m' ≡ m = ground (arith, e) in
      rw same (
        if_holds (λ s'. Covered chat_jid m (add_all chat_jid ms s')) (valid_web_message m)
          (add chat_jid m s) s
          (λ _. add_messages-Covered-kept chat_jid m chat_jid ms (add chat_jid m s) range.1 (
            add_message-Covered-own chat_jid m s (stamp_nonzero m (rw⁻¹ same range.0) valid) valid))
          (λ broken. absurd (cc (valid, broken))))
  add_messages-Covered-own m chat_jid (some m' ∷ ms) s range valid (inr i) =
      add_messages-Covered-own m chat_jid ms _ range.1 valid i

  -- Where `P` holds of the anchors of the valid messages of the requested chat.
  abbrev Anchors : (Anchor → Type 0) → Text → List (Option (WebMessage D)) → Type 0
  Anchors P chat_jid ms =
      (m : WebMessage D)
      → In (some m) ms
      → valid_web_message m ≡ true
      → chat_jid ≡ requested_chat
      → P (anchor_of chat_jid m)

  add_messages-Tallied :
      (P : Anchor → Type 0) (chat_jid : Text) (ms : List (Option (WebMessage D))) (s : Summary)
      → Anchors P chat_jid ms
      → Tallied P s
      → Tallied P (add_all chat_jid ms s)
  unfolding add_messages
  add_messages-Tallied P chat_jid [] s p v = v
  add_messages-Tallied P chat_jid (none ∷ ms) s p v =
      add_messages-Tallied P chat_jid ms s (λ m i. p m (inr i)) v
  add_messages-Tallied P chat_jid (some m ∷ ms) s p v =
      let rest = λ (s' : Summary) (v' : Tallied P s').
        add_messages-Tallied P chat_jid ms s' (λ m' i. p m' (inr i)) v' in
      if_holds (λ s'. Tallied P (add_all chat_jid ms s')) (valid_web_message m) (add chat_jid m s) s
        (λ valid.
          rest (add chat_jid m s)
            (add_message-Tallied P chat_jid m s valid (p m (inl refl) valid) v))
        (λ broken. rest s v)

  abbrev add_each : List (Option (Conversation D)) → Summary → Summary
  add_each = add_conversations date age anchor requested_chat

  abbrev asked : Conversation D → Summary → Summary
  asked conv s = record s {
    contains_requested_chat = s.contains_requested_chat || (conv.id == requested_chat);
  }

  asked-Covered :
      (old_chat : Text) (old : WebMessage D) (conv : Conversation D) (s : Summary)
      → Covered old_chat old s
      → Covered old_chat old (asked conv s)
  asked-Covered old_chat old conv s v = record {
    dated = record {
      some_date = v.dated.some_date;
      not_before = v.dated.not_before;
      not_after = v.dated.not_after;
      same_day = v.dated.same_day;
    };
    anchored = v.anchored;
  }

  add_conversations-Covered-kept :
      (old_chat : Text) (old : WebMessage D) (convs : List (Option (Conversation D))) (s : Summary)
      → AllUint64 convs
      → Covered old_chat old s
      → Covered old_chat old (add_each convs s)
  unfolding add_conversations
  add_conversations-Covered-kept old_chat old [] s range v = v
  add_conversations-Covered-kept old_chat old (none ∷ convs) s range v =
      add_conversations-Covered-kept old_chat old convs s range.1 v
  add_conversations-Covered-kept old_chat old (some conv ∷ convs) s range v =
      add_conversations-Covered-kept old_chat old convs _ range.1 (
        add_messages-Covered-kept old_chat old conv.id conv.messages (asked conv s) range.0
          (asked-Covered old_chat old conv s v))

  add_conversations-Covered-own :
      (conv : Conversation D) (m : WebMessage D) (convs : List (Option (Conversation D)))
      (s : Summary)
      → AllUint64 convs
      → In (some conv) convs
      → In (some m) conv.messages
      → valid_web_message m ≡ true
      → Covered conv.id m (add_each convs s)
  unfolding add_conversations
  add_conversations-Covered-own conv m [] s range i j valid = absurd i
  add_conversations-Covered-own conv m (none ∷ convs) s range (inr i) j valid =
      add_conversations-Covered-own conv m convs s range.1 i j valid
  add_conversations-Covered-own conv m (none ∷ convs) s range (inl e) j valid =
      absurd (ground (arith, e))
  add_conversations-Covered-own conv m (some conv' ∷ convs) s range (inl e) j valid =
      let same : conv' ≡ conv = ground (arith, e) in
      rw same (
        add_conversations-Covered-kept conv.id m convs _ range.1 (
          add_messages-Covered-own m conv.id conv.messages (asked conv s) (rw⁻¹ same range.0) valid
            j))
  add_conversations-Covered-own conv m (some conv' ∷ convs) s range (inr i) j valid =
      add_conversations-Covered-own conv m convs _ range.1 i j valid

  add_conversations-Tallied :
      (P : Anchor → Type 0) (convs : List (Option (Conversation D))) (s : Summary)
      → ((conv : Conversation D) → In (some conv) convs → Anchors P conv.id conv.messages)
      → Tallied P s
      → Tallied P (add_each convs s)
  unfolding add_conversations
  add_conversations-Tallied P [] s p v = v
  add_conversations-Tallied P (none ∷ convs) s p v =
      add_conversations-Tallied P convs s (λ c i. p c (inr i)) v
  add_conversations-Tallied P (some conv ∷ convs) s p v =
      add_conversations-Tallied P convs _ (λ c i. p c (inr i))
        (add_messages-Tallied P conv.id conv.messages (asked conv s) (p conv (inl refl))
          (record { media = v.media; requested = v.requested; found = v.found; origin = v.origin }))

  -- In the summary of an answer whose timestamps are of the type uint64, the dates reach to every
  -- valid message, and a message of the day of the request's anchor before it is reported; where a
  -- message stands in the requested chat an anchor is found that is not later; the anchor found is
  -- that of a valid message of the requested chat; it is found wherever messages of that chat are
  -- counted; and neither these nor the media are more than the messages.
  pub summarize_history_sync-Covered :
      (sort : List Text → List Text) (evt : SyncData D)
      → AllUint64 evt.conversations
      → let s = summarize_history_sync date age anchor requested_chat sort (some evt) in
        ((conv : Conversation D) (m : WebMessage D)
          → In (some conv) evt.conversations
          → In (some m) conv.messages
          → valid_web_message m ≡ true
          → Covered conv.id m s)
        × Tallied (IsReturned requested_chat evt.conversations) s
  unfolding summarize_history_sync
  summarize_history_sync-Covered sort evt range =
      let empty : Tallied (IsReturned requested_chat evt.conversations) (begin_summary evt) =
        record {
          media = ground arith;
          requested = ground arith;
          found = λ h. absurd (h refl);
          origin = λ h. absurd (ground (arith, h));
        } in
      let tallied =
        add_conversations-Tallied (IsReturned requested_chat evt.conversations) evt.conversations
          (begin_summary evt)
          (λ conv i m j valid chat. record {
            conv = conv;
            message = m;
            conv_in = i;
            message_in = j;
            valid = valid;
            chat = chat;
            anchor_is = refl;
          })
          empty in
      (
        λ conv m i j valid.
            let v =
              add_conversations-Covered-own conv m evt.conversations (begin_summary evt) range i j
                valid in
            record {
              dated = record {
                some_date = v.dated.some_date;
                not_before = v.dated.not_before;
                not_after = v.dated.not_after;
                same_day = v.dated.same_day;
              };
              anchored = v.anchored;
            },
        record {
          media = tallied.media;
          requested = tallied.requested;
          found = tallied.found;
          origin = tallied.origin;
        },
      )
