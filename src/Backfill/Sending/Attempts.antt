-- ===== src/Backfill/Sending/Attempts.antt =====
-- backfill.go: the loop of `sendHistorySyncRequest` ends by its deadline, and what it sends.
use wa_agent_pipeline.Base.{
  ℕ, zero, suc, ◌*◌, ◌≤◌, ◌<◌, Text, ◌≡◌, ◌≢◌, ◌⊎◌, inl, inr, refl, ap, ◌∙◌, true, false, Option,
  none, some, List, [], ◌∷◌, In, All, arith, Bool-cases, Result, ok, err, length,
}
use wa_agent_pipeline.Base.Int.{ℤ, pos, pos_part, ◌≤ℤ◌, ◌-ℤ◌, ltb_ℤ, leb_ℤ, IsInt64}
use wa_agent_pipeline.Backfill.{Anchor}
use wa_agent_pipeline.Backfill.Requests.{Jid, MessageInfo, message_info}
use wa_agent_pipeline.Backfill.Sending.{
  SendRetryOptions, normalize_send_retry_options, at_most, wait_for_peer_send_ready, SendError,
  Attempt, next_backoff, after_sleep, after_send, last_error, after_ready, send_loop, capped,
  send_from, send_history_sync_request,
}
use wa_agent_pipeline.Backfill.Sending.Range.{
  IsNormal, normalize_send_retry_options-IsNormal, capped-range,
}
use wa_agent_pipeline.Backfill.Sending.Backoff.{AtLeast, next_backoff-AtLeast, next_backoff-IsInt64}

-- The first reading of the time that is left, if any, is at most `bound`.
abbrev pub Starts : ℤ → List Attempt → Type 0
Starts bound [] = Unit
Starts bound (a ∷ rest) = a.until ≤ℤ bound

-- Time passes: a later reading is not higher, and a sleep lasts as long as was asked.
abbrev pub Timed : ℤ → ℤ → List Attempt → Type 0
Timed max backoff [] = Unit
Timed max backoff (a ∷ rest) =
    (a.until_after ≤ℤ a.until)
    × Starts (a.until_after -ℤ at_most a.until_after backoff) rest
    × Timed max (next_backoff max backoff) rest

-- Each wait for the client comes to an end: its timer fires.
abbrev pub Awaited : SendRetryOptions → List Attempt → Type 0
Awaited opts attempts = All (λ a. wait_for_peer_send_ready opts a.polls ≢ none) attempts

abbrev Ends : Option (Result Text Text) → Type 0
Ends ran = (r : Result Text Text) × (ran ≡ some r)

sleep-bound :
    (k least : ℕ) (bound until after backoff : ℤ)
    → until ≤ℤ bound
    → after ≤ℤ until
    → pos_part bound ≤ suc k * least
    → pos least ≤ℤ backoff
    → pos_part (after -ℤ at_most after backoff) ≤ k * least
unfolding ◌-ℤ◌
sleep-bound k least bound until after backoff s t h b = elim (Bool-cases (ltb_ℤ after backoff)) [
  | inl short ↦ rw short (ground arith)
  | inr long ↦ rw long (ground (arith, s, t, h, b))
]

-- A sleep is left only where the backoff has not wrapped around.
sleep-AtLeast :
    (least : ℕ) (after backoff : ℤ)
    → AtLeast (pos least) backoff
    → leb_ℤ (at_most after backoff) (pos 0) ≡ false
    → pos least ≤ℤ backoff
sleep-AtLeast least after backoff (inl b) live = b
sleep-AtLeast least after backoff (inr gone) live = elim (Bool-cases (ltb_ℤ after backoff)) [
  | inl short ↦ ground (arith, gone, short, live)
  | inr long ↦ ground (arith, gone, long, live)
]

module _ (opts : SendRetryOptions) (info : MessageInfo) (count : ℕ) where
  after_sleep-Ends :
      (slept : Option Text) (rest : Option (Result Text Text))
      → Ends rest
      → Ends (after_sleep opts info count slept rest)
  after_sleep-Ends none rest e = e
  after_sleep-Ends (some error) rest e = (_, refl)

  after_send-Ends :
      (a : Attempt) (backoff : ℤ) (sent : Result SendError Text) (rest : Option (Result Text Text))
      → (leb_ℤ (at_most a.until_after backoff) (pos 0) ≡ false → Ends rest)
      → Ends (after_send opts info count a backoff sent rest)
  after_send-Ends a backoff (ok id) rest e = (_, refl)
  after_send-Ends a backoff (err error) rest e = elim (Bool-cases error.transient) [
    | inr lasting ↦ rw lasting (_, refl)
    | inl passing ↦ rw passing (elim (Bool-cases (leb_ℤ (at_most a.until_after backoff) (pos 0))) [
      | inl late ↦ rw late (_, refl)
      | inr early ↦ rw early (after_sleep-Ends a.slept rest (e early))
    ])
  ]

  after_ready-Ends :
      (a : Attempt) (backoff : ℤ) (last : Option Text) (ready : Option (Result Text Unit))
      (rest : Option (Result Text Text))
      → ready ≢ none
      → (leb_ℤ (at_most a.until_after backoff) (pos 0) ≡ false → Ends rest)
      → Ends (after_ready opts info count a backoff last ready rest)
  after_ready-Ends a backoff last none rest h e = absurd (h refl)
  after_ready-Ends a backoff last (some (err error)) rest h e = (_, refl)
  after_ready-Ends a backoff last (some (ok _)) rest h e =
      after_send-Ends a backoff (a.sent info count) rest e

  send_loop-Ends :
      (k least : ℕ) (bound backoff : ℤ) (last : Option Text) (attempts : List Attempt)
      → 1 ≤ least
      → pos least ≤ℤ opts.max_backoff
      → IsInt64 opts.max_backoff
      → IsInt64 backoff
      → AtLeast (pos least) backoff
      → pos_part bound ≤ k * least
      → k < length attempts
      → Starts bound attempts
      → Timed opts.max_backoff backoff attempts
      → Awaited opts attempts
      → Ends (send_loop opts info count backoff last attempts)
  unfolding send_loop
  send_loop-Ends k least bound backoff last [] one le range range' b h enough s t w =
      absurd (omega (arith, enough))
  send_loop-Ends zero least bound backoff last (a ∷ rest) one le range range' b h enough s
        (t, next, later) (w, ws) =
      let over : leb_ℤ a.until (pos 0) ≡ true = ground (arith, s, h) in rw over (_, refl)
  send_loop-Ends (suc k) least bound backoff last (a ∷ rest) one le range range' b h enough s
        (t, next, later) (w, ws) =
      elim (Bool-cases (leb_ℤ a.until (pos 0))) [
        | inl over ↦ rw over (_, refl)
        | inr early ↦ rw early (
            after_ready-Ends a backoff last (wait_for_peer_send_ready opts a.polls) _ w (λ live.
              let more : pos least ≤ℤ backoff = sleep-AtLeast least a.until_after backoff b live in
              send_loop-Ends k least (a.until_after -ℤ at_most a.until_after backoff)
                (next_backoff opts.max_backoff backoff)
                (last_error opts info count last (a.sent info count)) rest one le range
                (next_backoff-IsInt64 opts.max_backoff backoff range)
                (next_backoff-AtLeast (pos least) opts.max_backoff backoff (omega (arith, one)) le
                  range' more)
                (sleep-bound k least bound a.until a.until_after backoff s t h more)
                (omega (arith, enough)) next later ws))
      ]

-- What a result with an identifier rests on: one of the attempts, in which the client was ready and
-- the request, of at most 50 messages before the anchor, was answered with the identifier.
pub record Sent (parse_jid : Text → Result Text Jid) (opts : SendRetryOptions) (anchor : Anchor)
    (count : ℤ) (attempts : List Attempt) (id : Text) : Type 0 where
  pub attempt : Attempt
  pub attempt_in : In attempt attempts
  pub info : MessageInfo
  pub info_is : message_info parse_jid anchor ≡ ok info
  pub asked : ℕ
  pub asked_range : (1 ≤ asked) × (asked ≤ 50) × (pos asked ≤ℤ count)
  pub ready : wait_for_peer_send_ready opts attempt.polls ≡ some (ok tt)
  pub answered : attempt.sent info asked ≡ ok id

-- The part of it that the loop decides.
abbrev Answered : SendRetryOptions → MessageInfo → ℕ → List Attempt → Text → Type 0
Answered opts info count attempts id =
    (a : Attempt) × In a attempts
    × (wait_for_peer_send_ready opts a.polls ≡ some (ok tt))
    × (a.sent info count ≡ ok id)

module _ (opts : SendRetryOptions) (info : MessageInfo) (count : ℕ) (id : Text) where
  after_ready-sent :
      (a : Attempt) (backoff : ℤ) (last : Option Text) (ready : Option (Result Text Unit))
      (rest : Option (Result Text Text))
      → after_ready opts info count a backoff last ready rest ≡ some (ok id)
      → ((ready ≡ some (ok tt)) × (a.sent info count ≡ ok id)) ⊎ (rest ≡ some (ok id))
  after_ready-sent a backoff last ready rest h = ground (arith, h)

  send_loop-Answered :
      (backoff : ℤ) (last : Option Text) (attempts : List Attempt)
      → send_loop opts info count backoff last attempts ≡ some (ok id)
      → Answered opts info count attempts id
  unfolding send_loop
  send_loop-Answered backoff last [] h = absurd (ground (arith, h))
  send_loop-Answered backoff last (a ∷ rest) h = elim (Bool-cases (leb_ℤ a.until (pos 0))) [
    | inl over ↦ absurd (ground (arith, rw over at h))
    | inr early ↦
        elim (after_ready-sent a backoff last (wait_for_peer_send_ready opts a.polls) _
          (rw early at h)) [
            | inl (ready, answered) ↦ (a, inl refl, ready, answered)
            | inr later ↦
                let (b, i, ready, answered) =
                  send_loop-Answered (next_backoff opts.max_backoff backoff)
                    (last_error opts info count last (a.sent info count)) rest later in
                (b, inr i, ready, answered)
          ]
  ]

-- What is said of a request that has come to its end.
abbrev Settled :
    (Text → Result Text Jid)
    → SendRetryOptions
    → Anchor
    → ℤ
    → List Attempt
    → Option (Result Text Text)
    → Type 0
Settled parse_jid n anchor count attempts ran =
    (r : Result Text Text) × (ran ≡ some r)
    × ((id : Text) → r ≡ ok id → Sent parse_jid n anchor count attempts id)

module _ (parse_jid : Text → Result Text Jid) (n : SendRetryOptions) (anchor : Anchor) (count : ℤ)
    (attempts : List Attempt) (k : ℕ) (normal : IsNormal n)
    (enough : pos_part n.ready_timeout ≤ k * pos_part n.initial_backoff)
    (long : k < length attempts) (starts : Starts n.ready_timeout attempts)
    (timed : Timed n.max_backoff n.initial_backoff attempts) (awaited : Awaited n attempts) where
  send_from-Settled :
      (info : Result Text MessageInfo)
      → message_info parse_jid anchor ≡ info
      → leb_ℤ count (pos 0) ≡ false
      → Settled parse_jid n anchor count attempts (send_from n count attempts info)
  send_from-Settled (err e) read more = (err e, refl, λ id h. absurd (ground (arith, h)))
  send_from-Settled (ok info) read more =
      let least : pos (pos_part n.initial_backoff) ≡ n.initial_backoff =
        ground (arith, normal.positive) in
      let (r, ran) =
        send_loop-Ends n info (capped count) k (pos_part n.initial_backoff) n.ready_timeout
          n.initial_backoff none attempts (ground (arith, normal.positive))
          (ground (arith, least, normal.ordered)) normal.max_range normal.initial_range
          (inl (ground (arith, least))) enough long starts timed awaited in
      (
        r,
        ran,
        λ id h.
            let (a, i, ready, answered) =
              send_loop-Answered n info (capped count) id n.initial_backoff none attempts
                (ran ∙ ap (λ x. some x) h) in
            record {
              attempt = a;
              attempt_in = i;
              info = info;
              info_is = read;
              asked = capped count;
              asked_range = capped-range count more;
              ready = ready;
              answered = answered;
            },
      )

-- Where time passes, each sleep lasts as long as was asked and each wait for the client comes to an
-- end, more attempts than the ready timeout has first backoffs are enough for sendHistorySyncRequest
-- to return; and an identifier that it returns is the answer to a request of at most `count` and 50
-- messages before the anchor, sent in an attempt that had waited for the client to be ready.
pub send_history_sync_request-Settled :
    (parse_jid : Text → Result Text Jid) (opts : SendRetryOptions) (anchor : Anchor) (count : ℤ)
    (attempts : List Attempt) (k : ℕ)
    → IsInt64 opts.max_backoff
    → IsInt64 opts.initial_backoff
    → pos_part (normalize_send_retry_options opts).ready_timeout
      ≤ k * pos_part (normalize_send_retry_options opts).initial_backoff
    → k < length attempts
    → Starts (normalize_send_retry_options opts).ready_timeout attempts
    → Timed
        (normalize_send_retry_options opts).max_backoff
        (normalize_send_retry_options opts).initial_backoff
        attempts
    → Awaited (normalize_send_retry_options opts) attempts
    → (r : Result Text Text) × (send_history_sync_request parse_jid opts anchor count attempts
        ≡ some r)
      × ((id : Text)
          → r ≡ ok id
          → Sent parse_jid (normalize_send_retry_options opts) anchor count attempts id)
unfolding send_history_sync_request
send_history_sync_request-Settled parse_jid opts anchor count attempts k range range' enough long
      starts timed awaited =
    let normal = normalize_send_retry_options-IsNormal opts range range' in
    elim (Bool-cases (leb_ℤ count (pos 0))) [
      | inl few ↦ rw few (_, refl, λ id h. absurd (ground (arith, h)))
      | inr more ↦ rw more (
          send_from-Settled parse_jid (normalize_send_retry_options opts) anchor count attempts k
            normal enough long starts timed awaited (message_info parse_jid anchor) refl more)
    ]
