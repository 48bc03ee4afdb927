-- ===== src/Session/History/Accounting.antt =====
-- auth.go: the counts of `handleHistorySync` account for every message and every conversation.
use wa_agent_pipeline.Base.{
  ℕ, zero, suc, ◌+◌, ◌≤◌, Text, ◌≡◌, refl, ◌∙◌, false, Option, none, some, List, [], ◌∷◌, arith,
  Bool-cases, inl, inr, Result, ok, err, length,
}
use wa_agent_pipeline.Base.Int.{ℤ}
use wa_agent_pipeline.Config.Manager.{Manager, is_allowed}
use wa_agent_pipeline.Listener.{Stores, Handler, Handled}
use wa_agent_pipeline.Session.Message.{Incoming}
use wa_agent_pipeline.Session.Handling.{Downloads, history_sync, handle_message_from}
use wa_agent_pipeline.Session.History.{
  Stats, no_stats, WebMessage, Conversation, SyncData, Sync, valid_message, message_count,
  all_messages, counted, dispatch, sync_message, sync_messages, skip_conversation, sync_allowed,
  sync_parsed, parse_chat_jid, sync_conversation, guarded, sync_conversations, sync_all,
  handle_history_sync,
}

-- The messages that the counts say what became of.
abbrev pub settled : Stats → ℕ
settled s = s.dispatched + s.parse_errors + s.skipped_messages

-- The conversations that the counts say what became of.
abbrev pub decided : Stats → ℕ
decided s = s.allowed_conversations + s.skipped_conversations

-- Rows are written by dispatched messages only.
pub record Within (s : Stats) : Type 0 where
  pub inserted : s.rows_inserted ≤ s.dispatched
  pub updated : s.rows_updated ≤ s.dispatched
  pub hydrated : s.media_hydrated ≤ s.dispatched

-- From `s` to `s'`, `k` messages were settled and `n` conversations decided.
record Advanced (k n : ℕ) {C S : Type 0} (s s' : Sync C S) : Type 0 where
  pub messages : settled s'.stats ≡ settled s.stats + k
  pub conversations : decided s'.stats ≡ decided s.stats + n
  pub total : s'.stats.conversations ≡ s.stats.conversations
  pub stopped : s'.stopped ≡ s.stopped
  pub within : Within s.stats → Within s'.stats

Advanced-trans :
    {k n k' n' : ℕ} {C S : Type 0} {s s' s'' : Sync C S}
    → Advanced k n s s'
    → Advanced k' n' s' s''
    → Advanced (k + k') (n + n') s s''
Advanced-trans a b = record {
  messages = omega (arith, a.messages, b.messages);
  conversations = omega (arith, a.conversations, b.conversations);
  total = b.total ∙ a.total;
  stopped = b.stopped ∙ a.stopped;
  within = λ w. b.within (a.within w);
}

Advanced-as :
    {k n k' n' : ℕ} {C S : Type 0} {s s' : Sync C S}
    → k ≡ k'
    → n ≡ n'
    → Advanced k n s s'
    → Advanced k' n' s s'
Advanced-as e f a = record {
  messages = omega (arith, e, a.messages);
  conversations = omega (arith, f, a.conversations);
  total = a.total;
  stopped = a.stopped;
  within = a.within;
}

module _ {D C S : Type 0} (downloads : Downloads D C) (stores : Stores S) (now : ℤ)
    (file_ext : Text → Text) (mime_extensions : Text → List Text) (parse_jid : Text → Option Text)
    (parse_message : Text → WebMessage D → Result Text (Option (Incoming D))) where
  counted-Advanced :
      (s : Sync C S) (out : Handled × C × Handler S)
      → Advanced 1 0 s
          (counted downloads stores now file_ext mime_extensions parse_jid parse_message s out)
  counted-Advanced s (outcome, client, handler) = record {
    messages = ground arith;
    conversations = ground arith;
    total = refl;
    stopped = refl;
    within = λ w. record {
      inserted = ground (arith, w.inserted);
      updated = ground (arith, w.updated);
      hydrated = ground (arith, w.hydrated);
    };
  }

  dispatch-Advanced :
      (s : Sync C S) (r : Result Text (Option (Incoming D)))
      → Advanced 1 0 s
          (dispatch downloads stores now file_ext mime_extensions parse_jid parse_message s r)
  dispatch-Advanced s (err e) = record {
    messages = omega arith;
    conversations = omega arith;
    total = refl;
    stopped = refl;
    within = λ w. record { inserted = w.inserted; updated = w.updated; hydrated = w.hydrated };
  }
  dispatch-Advanced s (ok none) = record {
    messages = omega arith;
    conversations = omega arith;
    total = refl;
    stopped = refl;
    within = λ w. record { inserted = w.inserted; updated = w.updated; hydrated = w.hydrated };
  }
  dispatch-Advanced s (ok (some msg)) = counted-Advanced s (
      handle_message_from downloads stores now file_ext mime_extensions history_sync msg s.client
        s.handler)

  abbrev begun : Sync C S → Sync C S
  begun s = record s { stats = record (s.stats) { messages = suc s.stats.messages } }

  begun-Advanced : (s : Sync C S) → Advanced 0 0 s (begun s)
  begun-Advanced s = record {
    messages = omega arith;
    conversations = omega arith;
    total = refl;
    stopped = refl;
    within = λ w. record { inserted = w.inserted; updated = w.updated; hydrated = w.hydrated };
  }

  abbrev round : Text → Option (WebMessage D) → Sync C S → Sync C S
  round = sync_message downloads stores now file_ext mime_extensions parse_jid parse_message

  sync_message-Advanced :
      (chat : Text) (m : Option (WebMessage D)) (s : Sync C S) → Advanced 1 0 s (round chat m s)
  unfolding sync_message
  sync_message-Advanced chat none s =
      Advanced-trans (begun-Advanced s) (dispatch-Advanced (begun s) (ok none))
  sync_message-Advanced chat (some m) s = elim (Bool-cases (valid_message m)) [
    | inl valid ↦
        rw valid
          (Advanced-trans (begun-Advanced s) (dispatch-Advanced (begun s) (parse_message chat m)))
    | inr broken ↦
        rw broken (Advanced-trans (begun-Advanced s) (dispatch-Advanced (begun s) (ok none)))
  ]

  abbrev loop : Text → List (Option (WebMessage D)) → ℕ → Sync C S → Sync C S
  loop = sync_messages downloads stores now file_ext mime_extensions parse_jid parse_message

  with_checks-Advanced : (s : Sync C S) (checks : ℕ) → Advanced 0 0 s (record s { checks = checks })
  with_checks-Advanced s checks = record {
    messages = omega arith;
    conversations = omega arith;
    total = refl;
    stopped = refl;
    within = λ w. w;
  }

  sync_messages-Advanced :
      (chat : Text) (ms : List (Option (WebMessage D))) (checks : ℕ) (s : Sync C S)
      → length ms ≤ checks
      → Advanced (length ms) 0 s (loop chat ms checks s)
        × ((loop chat ms checks s).checks + length ms ≡ checks)
  unfolding sync_messages
  sync_messages-Advanced chat [] checks s h = (with_checks-Advanced s checks, omega arith)
  sync_messages-Advanced chat (m ∷ ms) zero s h = absurd (omega arith)
  sync_messages-Advanced chat (m ∷ ms) (suc checks) s h =
      let (later, left) = sync_messages-Advanced chat ms checks (round chat m s) (omega arith) in
      (
        Advanced-as (omega arith) (omega arith)
            (Advanced-trans (sync_message-Advanced chat m s) later),
        omega (arith, left),
      )

  abbrev conversation : Manager → Option (Conversation D) → Sync C S → Sync C S
  conversation =
      sync_conversation downloads stores now file_ext mime_extensions parse_jid parse_message

  -- A conversation is decided, its messages are settled, and it uses up a check for each at most.
  abbrev Decides : Option (Conversation D) → Sync C S → Sync C S → Type 0
  Decides conv s s' =
      Advanced (message_count conv) 1 s s' × (s.checks ≤ s'.checks + message_count conv)

  skip-Decides :
      (conv : Option (Conversation D)) (s : Sync C S)
      → Decides conv s (
          skip_conversation downloads stores now file_ext mime_extensions parse_jid parse_message
            conv s)
  skip-Decides conv s = (
    record {
      messages = omega arith;
      conversations = omega arith;
      total = refl;
      stopped = refl;
      within = λ w. record { inserted = w.inserted; updated = w.updated; hydrated = w.hydrated };
    },
    omega arith,
  )

  allowed-Decides :
      (chat : Text) (conv : Conversation D) (s : Sync C S)
      → length conv.messages ≤ s.checks
      → Decides (some conv) s (
          sync_allowed downloads stores now file_ext mime_extensions parse_jid parse_message chat
            conv s)
  allowed-Decides chat conv s h =
      let s₁ = record s {
        stats = record (s.stats) { allowed_conversations = suc s.stats.allowed_conversations };
      } in
      let first : Advanced 0 1 s s₁ = record {
        messages = omega arith;
        conversations = omega arith;
        total = refl;
        stopped = refl;
        within = λ w. record { inserted = w.inserted; updated = w.updated; hydrated = w.hydrated };
      } in
      let (later, left) = sync_messages-Advanced chat conv.messages s.checks s₁ h in
      (Advanced-as (omega arith) (omega arith) (Advanced-trans first later), omega (arith, left))

  parsed-Decides :
      (cfg : Manager) (chat : Option Text) (conv : Conversation D) (s : Sync C S)
      → length conv.messages ≤ s.checks
      → Decides (some conv) s (
          sync_parsed downloads stores now file_ext mime_extensions parse_jid parse_message cfg chat
            conv s)
  parsed-Decides cfg none conv s h = skip-Decides (some conv) s
  parsed-Decides cfg (some chat) conv s h = elim (Bool-cases (is_allowed cfg chat)) [
    | inl listed ↦ rw listed (allowed-Decides chat conv s h)
    | inr foreign ↦ rw foreign (skip-Decides (some conv) s)
  ]

  sync_conversation-Decides :
      (cfg : Manager) (conv : Option (Conversation D)) (s : Sync C S)
      → message_count conv ≤ s.checks
      → Decides conv s (conversation cfg conv s)
  unfolding sync_conversation
  sync_conversation-Decides cfg none s h = skip-Decides none s
  sync_conversation-Decides cfg (some conv) s h =
      parsed-Decides cfg
        (parse_chat_jid downloads stores now file_ext mime_extensions parse_jid parse_message conv)
        conv s h

  abbrev conversations : Manager → List (Option (Conversation D)) → Sync C S → Sync C S
  conversations =
      sync_conversations downloads stores now file_ext mime_extensions parse_jid parse_message

  guarded-Decides :
      (cfg : Manager) (conv : Option (Conversation D)) (s : Sync C S)
      → suc (message_count conv) ≤ s.checks
      → let s' =
          guarded downloads stores now file_ext mime_extensions parse_jid parse_message s.checks
            (conversation cfg conv)
            s in
        Advanced (message_count conv) 1 s s' × (s.checks ≤ s'.checks + suc (message_count conv))
  guarded-Decides cfg conv s h = at s.checks refl h
    where
      at :
          (checks : ℕ)
          → s.checks ≡ checks
          → suc (message_count conv) ≤ checks
          → let s' =
              guarded downloads stores now file_ext mime_extensions parse_jid parse_message checks
                (conversation cfg conv)
                s in
            Advanced (message_count conv) 1 s s' × (s.checks ≤ s'.checks + suc (message_count conv))
      at zero e h = absurd (omega arith)
      at (suc checks) e h =
          let (a, left) =
            sync_conversation-Decides cfg conv (record s { checks = checks }) (omega arith) in
          (
            Advanced-as (omega arith) (omega arith)
                (Advanced-trans (with_checks-Advanced s checks) a),
            omega (arith, left, e),
          )

  sync_conversations-Advanced :
      (cfg : Manager) (convs : List (Option (Conversation D))) (s : Sync C S)
      → s.stopped ≡ false
      → all_messages convs + length convs ≤ s.checks
      → Advanced (all_messages convs) (length convs) s (conversations cfg convs s)
  unfolding sync_conversations all_messages
  sync_conversations-Advanced cfg [] s live h = with_checks-Advanced s s.checks
  sync_conversations-Advanced cfg (conv ∷ convs) s live h =
      let s' =
        guarded downloads stores now file_ext mime_extensions parse_jid parse_message s.checks
          (conversation cfg conv) s in
      let (first, left) = guarded-Decides cfg conv s (omega arith) in
      let goes : s'.stopped ≡ false = first.stopped ∙ live in
      rw goes (
        Advanced-as refl (omega arith) (
          Advanced-trans first
            (sync_conversations-Advanced cfg convs s' goes (omega (arith, left, h)))))

  abbrev begin_sync : SyncData D → ℕ → C → Handler S → Sync C S
  begin_sync evt checks client h = record {
    stats = record (no_stats evt.sync_type) { conversations = length evt.conversations };
    client = client;
    handler = h;
    checks = checks;
    stopped = false;
  }

  sync_all-Advanced :
      (cfg : Option Manager) (evt : SyncData D) (checks : ℕ) (client : C) (h : Handler S)
      → all_messages evt.conversations + length evt.conversations ≤ checks
      → Advanced
          (all_messages evt.conversations)
          (length evt.conversations)
          (begin_sync evt checks client h)
          (sync_all downloads stores now file_ext mime_extensions parse_jid parse_message cfg
            evt.conversations
            (begin_sync evt checks client h))
  sync_all-Advanced none evt checks client h enough = record {
    messages = omega arith;
    conversations = omega arith;
    total = refl;
    stopped = refl;
    within = λ w. record { inserted = w.inserted; updated = w.updated; hydrated = w.hydrated };
  }
  sync_all-Advanced (some cfg) evt checks client h enough =
      sync_conversations-Advanced cfg evt.conversations (begin_sync evt checks client h) refl enough

  -- Where the context is not cancelled for as many checks as there are messages and conversations,
  -- the sync comes to its end, every conversation is counted as allowed or skipped, every message of
  -- every conversation is counted once, as dispatched, not parsed or skipped, and no more rows are
  -- counted as inserted, updated or hydrated than messages were dispatched.
  pub handle_history_sync-accounts :
      (cfg : Option Manager) (evt : SyncData D) (checks : ℕ) (client : C) (h : Handler S)
      → all_messages evt.conversations + length evt.conversations ≤ checks
      → let out =
          handle_history_sync downloads stores now file_ext mime_extensions parse_jid parse_message
            cfg
            (some evt)
            checks
            client
            h in
        (out.stopped ≡ false)
        × (out.stats.conversations ≡ length evt.conversations)
        × (out.stats.conversations ≡ decided out.stats)
        × (all_messages evt.conversations ≡ settled out.stats)
        × Within out.stats
  unfolding handle_history_sync
  handle_history_sync-accounts cfg evt checks client h enough =
      let a = sync_all-Advanced cfg evt checks client h enough in
      (
        a.stopped,
        a.total,
        omega (arith, a.total, a.conversations),
        omega (arith, a.messages),
        a.within (record { inserted = omega arith; updated = omega arith; hydrated = omega arith }),
      )
