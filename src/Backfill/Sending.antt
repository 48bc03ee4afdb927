-- ===== src/Backfill/Sending.antt =====
-- backfill.go: `sendHistorySyncRequest` and the wait before each attempt, `waitForPeerSendReady`. What
-- the clock, the client and the timers answer is given attempt by attempt; durations are in
-- nanoseconds, and errors are written without their figures.
pub mod Range
pub mod Backoff
pub mod Attempts
use wa_agent_pipeline.Base.{
  ℕ, Text, Bool, true, false, ◌&&◌, Option, none, some, List, [], ◌∷◌, ◌++◌, Result, ok, err, ltb,
  ◌==◌, if◌then◌else◌,
}
use wa_agent_pipeline.Base.Int.{ℤ, pos, pos_part, ltb_ℤ, leb_ℤ, ◌-ℤ◌, ◌+ℤ◌, wrap64, int_eq}
use wa_agent_pipeline.Texts.{text}
use wa_agent_pipeline.Session.Connection.{Wait, poll, cancelled, expired}
use wa_agent_pipeline.Backfill.{Anchor}
use wa_agent_pipeline.Backfill.Requests.{Jid, MessageInfo, message_info, or_default}

-- `sendRetryOptions`, less the function for traces.
pub record SendRetryOptions : Type 0 where
  pub ready_timeout : ℤ
  pub stable_duration : ℤ
  pub poll_interval : ℤ
  pub initial_backoff : ℤ
  pub max_backoff : ℤ

-- `defaultSendRetryOptions`
abbrev pub default_send_retry_options : SendRetryOptions
default_send_retry_options = record {
  ready_timeout = pos 10000000000;
  stable_duration = pos 750000000;
  poll_interval = pos 100000000;
  initial_backoff = pos 250000000;
  max_backoff = pos 2000000000;
}

abbrev pub at_most : ℤ → ℤ → ℤ
at_most bound value = if ltb_ℤ bound value then bound else value

unfoldable pub normalize_send_retry_options : SendRetryOptions → SendRetryOptions
normalize_send_retry_options opts =
    let max = or_default opts.max_backoff default_send_retry_options.max_backoff in
    record {
      ready_timeout = or_default opts.ready_timeout default_send_retry_options.ready_timeout;
      stable_duration = if ltb_ℤ opts.stable_duration (pos 0) then pos 0 else opts.stable_duration;
      poll_interval = or_default opts.poll_interval default_send_retry_options.poll_interval;
      initial_backoff =
          at_most max (or_default opts.initial_backoff default_send_retry_options.initial_backoff);
      max_backoff = max;
    }

-- A round of the wait: the clock, the client's answers, and what the select yields.
pub record Poll : Type 0 where
  pub now : ℤ
  pub connected : Bool
  pub logged_in : Bool
  pub select : Wait

abbrev pub is_ready : Poll → Bool
is_ready p = p.connected && p.logged_in

-- `stableSince` after a look at the client.
abbrev since_after : Option ℤ → Poll → Option ℤ
since_after since p =
    if is_ready p then elim since [ none ↦ some p.now | some t ↦ some t ] else none

abbrev pub has_lasted : ℤ → Poll → Option ℤ → Bool
has_lasted stable p none = false
has_lasted stable p (some since) = leb_ℤ stable (p.now -ℤ since)

abbrev is_stable : ℤ → Option ℤ → Poll → Bool
is_stable stable since p =
    if stable == pos 0 then is_ready p else has_lasted stable p (since_after since p)

abbrev selected : Wait → Option (Result Text Unit) → Option (Result Text Unit)
selected poll rest = rest
selected (cancelled e) rest = some (err e)
selected expired rest = some (err (text "timed out waiting for WhatsApp websocket send readiness"))

-- The loop of `waitForPeerSendReady`; it goes on at the end of the list.
unfoldable pub ready_loop : ℤ → Option ℤ → List Poll → Option (Result Text Unit)
unfolding ◌-ℤ◌
ready_loop stable since [] = none
ready_loop stable since (p ∷ rest) =
    let later = ready_loop stable (since_after since p) rest in
    if is_stable stable since p then some (ok tt) else selected p.select later

-- `waitForPeerSendReady`
unfoldable pub wait_for_peer_send_ready : SendRetryOptions → List Poll → Option (Result Text Unit)
unfolding normalize_send_retry_options ready_loop
wait_for_peer_send_ready opts polls =
    ready_loop (normalize_send_retry_options opts).stable_duration none polls

-- An error of SendPeerMessage, and whether it is whatsmeow.ErrNotConnected.
pub record SendError : Type 0 where
  pub message : Text
  pub transient : Bool

-- One round of the loop: the two readings of time.Until(deadline), the wait for the client, what is
-- answered to a request for messages, and what `sleepContext` returns.
pub record Attempt : Type 0 where
  pub until : ℤ
  pub polls : List Poll
  pub sent : MessageInfo → ℕ → Result SendError Text
  pub until_after : ℤ
  pub slept : Option Text

abbrev not_ready : Option Text → Text
not_ready none = text "timed out waiting for WhatsApp websocket send readiness"
not_ready (some e) = text "history sync peer send not ready: " ++ e

abbrev after_failure : Option Text → Text → Text
after_failure none e = e
after_failure (some last) e = e ++ text " after transient send failure: " ++ last

abbrev pub next_backoff : ℤ → ℤ → ℤ
next_backoff max backoff = at_most max (wrap64 (backoff +ℤ backoff))

module _ (opts : SendRetryOptions) (info : MessageInfo) (count : ℕ) where
  abbrev after_sleep : Option Text → Option (Result Text Text) → Option (Result Text Text)
  after_sleep none rest = rest
  after_sleep (some e) rest = some (err e)

  abbrev after_send :
      Attempt → ℤ → Result SendError Text → Option (Result Text Text) → Option (Result Text Text)
  after_send a backoff (ok id) rest = some (ok id)
  after_send a backoff (err e) rest =
      if e.transient
      then if leb_ℤ (at_most a.until_after backoff) (pos 0)
        then some (err (not_ready (some e.message)))
        else after_sleep a.slept rest
      else some (err e.message)

  abbrev last_error : Option Text → Result SendError Text → Option Text
  last_error last (ok id) = last
  last_error last (err e) = some e.message

  abbrev after_ready :
      Attempt
      → ℤ
      → Option Text
      → Option (Result Text Unit)
      → Option (Result Text Text)
      → Option (Result Text Text)
  after_ready a backoff last none rest = none
  after_ready a backoff last (some (err e)) rest = some (err (after_failure last e))
  after_ready a backoff last (some (ok _)) rest = after_send a backoff (a.sent info count) rest

  -- The loop; it goes on at the end of the list.
  unfoldable pub send_loop : ℤ → Option Text → List Attempt → Option (Result Text Text)
  unfolding wait_for_peer_send_ready wrap64 ◌+ℤ◌
  send_loop backoff last [] = none
  send_loop backoff last (a ∷ rest) =
      let later =
        send_loop (next_backoff opts.max_backoff backoff) (last_error last (a.sent info count))
          rest in
      if leb_ℤ a.until (pos 0)
      then some (err (not_ready last))
      else after_ready a backoff last (wait_for_peer_send_ready opts a.polls) later

abbrev pub capped : ℤ → ℕ
capped count = if ltb_ℤ (pos 50) count then 50 else pos_part count

abbrev send_from :
    SendRetryOptions → ℤ → List Attempt → Result Text MessageInfo → Option (Result Text Text)
send_from opts count attempts (err e) = some (err e)
send_from opts count attempts (ok info) =
    send_loop opts info (capped count) opts.initial_backoff none attempts

-- `sendHistorySyncRequest` with a client.
unfoldable pub send_history_sync_request :
    (Text → Result Text Jid)
    → SendRetryOptions
    → Anchor
    → ℤ
    → List Attempt
    → Option (Result Text Text)
unfolding message_info normalize_send_retry_options send_loop
send_history_sync_request parse_jid opts anchor count attempts =
    if leb_ℤ count (pos 0)
    then some (err (text "history sync count must be positive"))
    else send_from (normalize_send_retry_options opts) count attempts
        (message_info parse_jid anchor)
