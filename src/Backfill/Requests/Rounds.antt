-- ===== src/Backfill/Requests/Rounds.antt =====
-- backfill.go: what one round of the loop of `RunProcessedRequests` asks for.
use wa_agent_pipeline.Base.{
  ℕ, ◌+◌, ◌-◌, Text, ◌≡◌, ◌⊎◌, refl, Option, none, some, List, arith, Bool-cases, inl, inr, Result,
  ok, err, ltb, nat_eq, text_eq,
}
use wa_agent_pipeline.Base.Int.{ℤ}
use wa_agent_pipeline.Session.History.{HistorySync, Stats}
use wa_agent_pipeline.Backfill.{Anchor, Summary}
use wa_agent_pipeline.Backfill.Requests.{
  Failure, Received, wait_for_processed_on_demand, Request, Outside, Progress, called, before,
  advance, noted_answer, ingested, on_answer, wait_for_answer, sent_chunk, backoff_of, after_wait,
  after_send, request_chunk, pause, count_of, request_round,
}

-- The world counts the messages that its requests ask for, `sent`, and the requests, whether they
-- succeed or not; nothing else that the loop calls adds to the counts.
pub record IsMetered {W T : Type 0} (sent requests : W → ℕ) (outside : Outside W T) : Type 0 where
  pub send_adds :
      (a : Anchor) (count : ℕ) (w : W)
      → (sent (outside.send a count w).1 ≡ sent w + count)
        × (requests (outside.send a count w).1 ≡ requests w + 1)
  pub now_keeps :
      (w : W) → (sent (outside.now w).1 ≡ sent w) × (requests (outside.now w).1 ≡ requests w)
  pub sleep_keeps :
      (d : ℤ) (w : W)
      → (sent (outside.sleep d w).1 ≡ sent w) × (requests (outside.sleep d w).1 ≡ requests w)
  pub request_sent_keeps :
      (id : Text) (a : Anchor) (count : ℕ) (w : W)
      → (sent (outside.on_request_sent id a count w).1 ≡ sent w)
        × (requests (outside.on_request_sent id a count w).1 ≡ requests w)
  pub received_keeps :
      (summary : Summary) (w : W)
      → (sent (outside.on_history_sync_received summary w).1 ≡ sent w)
        × (requests (outside.on_history_sync_received summary w).1 ≡ requests w)
  pub ingested_keeps :
      (stats : Stats) (w : W)
      → (sent (outside.on_history_sync_ingested stats w).1 ≡ sent w)
        × (requests (outside.on_history_sync_ingested stats w).1 ≡ requests w)

module _ {W T D : Type 0} (sent requests : W → ℕ) where
  -- From `p` to `p'` the result counts `n` messages and `k` requests more, and the world `m` and `j`.
  pub record Asked (n k m j : ℕ) (p p' : Progress W T D) : Type 0 where
    pub requested : p'.result.requested ≡ p.result.requested + n
    pub chunks : p'.result.chunks ≡ p.result.chunks + k
    pub sent_more : sent p'.world ≡ sent p.world + m
    pub requests_more : requests p'.world ≡ requests p.world + j

  -- One request of `count` messages, which the result counts unless it failed.
  pub record Round (count : ℕ) (p : Progress W T D) (out : Option Failure × Progress W T D)
      : Type 0 where
    pub finished : out.0 ≡ none → Asked count 1 count 1 p out.1
    pub failed : Asked count 1 count 1 p out.1 ⊎ Asked 0 0 count 1 p out.1

  Asked-then :
      {n k m j : ℕ} (p p' p'' : Progress W T D)
      → Asked n k m j p p'
      → Asked 0 0 0 0 p' p''
      → Asked n k m j p p''
  Asked-then p p' p'' a b = record {
    requested = omega (arith, a.requested, b.requested);
    chunks = omega (arith, a.chunks, b.chunks);
    sent_more = omega (arith, a.sent_more, b.sent_more);
    requests_more = omega (arith, a.requests_more, b.requests_more);
  }

  same-Asked : (p : Progress W T D) → Asked 0 0 0 0 p p
  same-Asked p = record {
    requested = omega arith;
    chunks = omega arith;
    sent_more = omega arith;
    requests_more = omega arith;
  }

  module _ (outside : Outside W T) (metered : IsMetered sent requests outside) where
    before-Asked :
        (n k m j : ℕ) (p : Progress W T D) (out : Option Failure × Progress W T D)
        (next : Progress W T D → Option Failure × Progress W T D)
        → Asked n k m j p out.1
        → ((p' : Progress W T D) → Asked 0 0 0 0 p' (next p').1)
        → Asked n k m j p (before outside out next).1
    before-Asked n k m j p (some e, p') next a h = a
    before-Asked n k m j p (none, p') next a h = Asked-then p p' (next p').1 a (h p')

    called-Asked :
        (p : Progress W T D) (out : Option Text × W)
        → (sent out.1 ≡ sent p.world) × (requests out.1 ≡ requests p.world)
        → Asked 0 0 0 0 p (called outside p out).1
    called-Asked p (e, w) (sent_same, requests_same) = record {
      requested = omega arith;
      chunks = omega arith;
      sent_more = omega (arith, sent_same);
      requests_more = omega (arith, requests_same);
    }

    advance-Asked :
        (summary : Summary) (p : Progress W T D) → Asked 0 0 0 0 p (advance outside summary p).1
    advance-Asked summary p = record {
      requested = ground arith;
      chunks = ground arith;
      sent_more = ground arith;
      requests_more = ground arith;
    }

    module _ (date : ℤ → ℤ × ℕ × ℕ) (age : T → ℤ → Option ℤ) (sort : List Text → List Text) where
      ingested-Asked :
          (summary : Summary) (stats : Stats) (p : Progress W T D)
          → Asked 0 0 0 0 p (ingested outside date age sort summary stats p).1
      ingested-Asked summary stats p =
          let call = outside.on_history_sync_ingested stats p.world in
          before-Asked 0 0 0 0 p (called outside p call) (advance outside summary)
            (called-Asked p call (metered.ingested_keeps stats p.world)) (advance-Asked summary)

      noted_answer-Asked :
          (req : Request) (evt : HistorySync D) (stats : Stats) (p : Progress W T D)
          → Asked 0 0 0 0 p (noted_answer outside date age sort req evt stats p).1
      noted_answer-Asked req evt stats p =
          let (sent₁, requests₁) = metered.now_keeps p.world in
          let (sent₂, requests₂) = metered.now_keeps (outside.now p.world).1 in
          record {
            requested = omega arith;
            chunks = omega arith;
            sent_more = omega (arith, sent₁, sent₂);
            requests_more = omega (arith, requests₁, requests₂);
          }

      on_answer-Asked :
          (req : Request) (evt : HistorySync D) (stats : Stats) (p : Progress W T D)
          → Asked 0 0 0 0 p (on_answer outside date age sort req evt stats p).1
      on_answer-Asked req evt stats p =
          let (summary, p') = noted_answer outside date age sort req evt stats p in
          let call = outside.on_history_sync_received summary p'.world in
          before-Asked 0 0 0 0 p (called outside p' call)
            (ingested outside date age sort summary stats)
            (Asked-then p p' _ (noted_answer-Asked req evt stats p)
              (called-Asked p' call (metered.received_keeps summary p'.world)))
            (ingested-Asked summary stats)

      after_wait-Asked :
          (req : Request) (p : Progress W T D)
          (r : Result Failure (HistorySync D × Stats) × List (Received D))
          → Asked 0 0 0 0 p (after_wait outside date age sort req p r).1
      after_wait-Asked req p (err e, rest) = record {
        requested = omega arith;
        chunks = omega arith;
        sent_more = omega arith;
        requests_more = omega arith;
      }
      after_wait-Asked req p (ok (evt, stats), rest) =
          let a = on_answer-Asked req evt stats (record p { received = rest }) in
          record {
            requested = omega (arith, a.requested);
            chunks = omega (arith, a.chunks);
            sent_more = omega (arith, a.sent_more);
            requests_more = omega (arith, a.requests_more);
          }

      after_send-Round :
          (req : Request) (count : ℕ) (p : Progress W T D) (answer : Result Text Text × W)
          → (sent answer.1 ≡ sent p.world + count) × (requests answer.1 ≡ requests p.world + 1)
          → Round count p (after_send outside date age sort req count p answer)
      after_send-Round req count p (err e, w) (sent_more, requests_more) = record {
        finished = λ h. absurd (ground (arith, h));
        failed = inr (record {
          requested = omega arith;
          chunks = omega arith;
          sent_more = sent_more;
          requests_more = requests_more;
        });
      }
      after_send-Round req count p (ok send_id, w) (sent_more, requests_more) =
          let p' = sent_chunk outside date age sort send_id count w p in
          let call = outside.on_request_sent send_id p'.result.anchor count p'.world in
          let counted : Asked count 1 count 1 p p' = record {
            requested = omega arith;
            chunks = omega arith;
            sent_more = sent_more;
            requests_more = requests_more;
          } in
          let a =
            before-Asked count 1 count 1 p (called outside p' call)
              (wait_for_answer outside date age sort req)
              (Asked-then p p' _ counted (
                called-Asked p' call
                  (metered.request_sent_keeps send_id p'.result.anchor count p'.world)))
              (λ p₁.
                after_wait-Asked req p₁ (wait_for_processed_on_demand req.chat_jid p₁.received)) in
          record { finished = λ h. a; failed = inl a }

      request_chunk-Round :
          (req : Request) (count : ℕ) (p : Progress W T D)
          → Round count p (request_chunk outside date age sort req count p)
      unfolding request_chunk
      request_chunk-Round req count p =
          after_send-Round req count p (outside.send p.result.anchor count p.world)
            (metered.send_adds p.result.anchor count p.world)

      pause-Asked :
          (req : Request) (remaining : ℕ) (p : Progress W T D)
          → Asked 0 0 0 0 p (pause outside date age sort req remaining p).1
      pause-Asked req remaining p = elim (Bool-cases (ltb 0 remaining)) [
        | inl more ↦ rw more (
            called-Asked p (outside.sleep (backoff_of req.backoff) p.world)
              (metered.sleep_keeps (backoff_of req.backoff) p.world))
        | inr last ↦ rw last (same-Asked p)
      ]

      before-Round :
          (count : ℕ) (p : Progress W T D) (out : Option Failure × Progress W T D)
          (next : Progress W T D → Option Failure × Progress W T D)
          → Round count p out
          → ((p' : Progress W T D) → Asked 0 0 0 0 p' (next p').1)
          → Round count p (before outside out next)
      before-Round count p (some e, p') next r h = r
      before-Round count p (none, p') next r h =
          let a = Asked-then p p' (next p').1 (r.finished refl) (h p') in
          record { finished = λ _. a; failed = inl a }

      pub request_round-Round :
          (req : Request) (remaining : ℕ) (p : Progress W T D)
          → Round (count_of req remaining) p (request_round outside date age sort req remaining p)
      request_round-Round req remaining p =
          let count = count_of req remaining in
          before-Round count p (request_chunk outside date age sort req count p)
            (pause outside date age sort req (remaining - count)) (request_chunk-Round req count p)
            (pause-Asked req (remaining - count))
