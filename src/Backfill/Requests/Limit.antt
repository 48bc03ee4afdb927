-- ===== src/Backfill/Requests/Limit.antt =====
-- backfill.go: `RunProcessedRequests` ends, within its limit.
use wa_agent_pipeline.Base.{
  ℕ, zero, suc, ◌+◌, ◌-◌, ◌*◌, ◌≤◌, Text, ◌≡◌, refl, false, Option, none, some, List, arith,
  Bool-cases, inl, inr, Result, ok, err, ◌==◌, nat_eq, text_eq,
}
use wa_agent_pipeline.Base.Int.{ℤ, pos, pos_part, leb_ℤ}
use wa_agent_pipeline.Texts.{text}
use wa_agent_pipeline.Backfill.{Anchor}
use wa_agent_pipeline.Backfill.Summaries.{no_anchor}
use wa_agent_pipeline.Backfill.Requests.{
  Failure, failed, Jid, MessageInfo, no_result, requested_from, Received, Request, Outside,
  Progress, count_of, request_round, unless_failed, request_loop, run_processed_requests,
}
use wa_agent_pipeline.Backfill.Requests.Rounds.{IsMetered, Round, request_round-Round}

module _ {W T D : Type 0} (sent requests : W → ℕ) where
  -- What is asked for in the rest of a run, with `remaining` messages to go.
  pub record Within (remaining : ℕ) (p : Progress W T D) (out : Option Failure × Progress W T D)
      : Type 0 where
    pub finished : out.0 ≡ none → out.1.result.requested ≡ p.result.requested + remaining
    pub at_most : out.1.result.requested ≤ p.result.requested + remaining
    pub chunks_le :
        p.result.requested + out.1.result.chunks ≤ out.1.result.requested + p.result.chunks
    pub chunks_ge :
        out.1.result.requested + 50 * p.result.chunks
        ≤ 50 * out.1.result.chunks + p.result.requested
    pub sent_all : out.0 ≡ none → sent out.1.world ≡ sent p.world + remaining
    pub sent_le : sent out.1.world ≤ sent p.world + remaining
    pub requests_le : sent p.world + requests out.1.world ≤ sent out.1.world + requests p.world
    pub requests_ge :
        sent out.1.world + 50 * requests p.world ≤ 50 * requests out.1.world + sent p.world

  -- What is true of a run from the world `w` that has come to an end.
  pub record Limited (limit : ℤ) (w : W) (out : Option Failure × Progress W T D) : Type 0 where
    pub finished : out.0 ≡ none → pos out.1.result.requested ≡ limit
    pub at_most : out.1.result.requested ≤ pos_part limit
    pub chunks_le : out.1.result.chunks ≤ out.1.result.requested
    pub chunks_ge : out.1.result.requested ≤ 50 * out.1.result.chunks
    pub sent_all : out.0 ≡ none → sent out.1.world ≡ sent w + pos_part limit
    pub sent_le : sent out.1.world ≤ sent w + pos_part limit
    pub requests_le : sent w + requests out.1.world ≤ sent out.1.world + requests w
    pub requests_ge : sent out.1.world + 50 * requests w ≤ 50 * requests out.1.world + sent w

  module _ (outside : Outside W T) (metered : IsMetered sent requests outside) where
    module _ (date : ℤ → ℤ × ℕ × ℕ) (age : T → ℤ → Option ℤ) (sort : List Text → List Text) where
      -- A run of the loop comes to its end, within what remains.
      abbrev Ends : Option (Option Failure × Progress W T D) → ℕ → Progress W T D → Type 0
      Ends ran remaining p =
          (out : Option Failure × Progress W T D) × (ran ≡ some out) × Within remaining p out

      unless_failed-Ends :
          (count remaining : ℕ) (p : Progress W T D) (r : Option Failure × Progress W T D)
          → (next : Progress W T D → Option (Option Failure × Progress W T D))
          → Round sent requests count p r
          → (1 ≤ count) × (count ≤ 50) × (count ≤ remaining)
          → ((p' : Progress W T D) → Ends (next p') (remaining - count) p')
          → Ends (unless_failed outside date age sort r next) remaining p
      unless_failed-Ends count remaining p (some e, p') next round (one, fifty, fits) rest = (
        (some e, p'),
        refl,
        elim round.failed [
          | inl a ↦ record {
            finished = λ h. absurd (ground (arith, h));
            at_most = omega (arith, a.requested, fits);
            chunks_le = omega (arith, a.requested, a.chunks, one);
            chunks_ge = omega (arith, a.requested, a.chunks, fifty);
            sent_all = λ h. absurd (ground (arith, h));
            sent_le = omega (arith, a.sent_more, fits);
            requests_le = omega (arith, a.sent_more, a.requests_more, one);
            requests_ge = omega (arith, a.sent_more, a.requests_more, fifty);
          }
          | inr a ↦ record {
            finished = λ h. absurd (ground (arith, h));
            at_most = omega (arith, a.requested, fits);
            chunks_le = omega (arith, a.requested, a.chunks);
            chunks_ge = omega (arith, a.requested, a.chunks);
            sent_all = λ h. absurd (ground (arith, h));
            sent_le = omega (arith, a.sent_more, fits);
            requests_le = omega (arith, a.sent_more, a.requests_more, one);
            requests_ge = omega (arith, a.sent_more, a.requests_more, fifty);
          }
        ],
      )
      unless_failed-Ends count remaining p (none, p') next round (one, fifty, fits) rest =
          let a = round.finished refl in
          let (out, ran, v) = rest p' in
          (
            out,
            ran,
            record {
              finished = λ h. omega (arith, v.finished h, a.requested, fits);
              at_most = omega (arith, v.at_most, a.requested, fits);
              chunks_le = omega (arith, v.chunks_le, a.requested, a.chunks, one);
              chunks_ge = omega (arith, v.chunks_ge, a.requested, a.chunks, fifty);
              sent_all = λ h. omega (arith, v.sent_all h, a.sent_more, fits);
              sent_le = omega (arith, v.sent_le, a.sent_more, fits);
              requests_le = omega (arith, v.requests_le, a.sent_more, a.requests_more, one);
              requests_ge = omega (arith, v.requests_ge, a.sent_more, a.requests_more, fifty);
            },
          )

      nothing_left-Within :
          (remaining : ℕ) (p : Progress W T D) → remaining ≡ 0 → Within remaining p (none, p)
      nothing_left-Within remaining p e = record {
        finished = λ h. omega (arith, e);
        at_most = omega (arith, e);
        chunks_le = omega arith;
        chunks_ge = omega arith;
        sent_all = λ h. omega (arith, e);
        sent_le = omega (arith, e);
        requests_le = omega arith;
        requests_ge = omega arith;
      }

      request_loop-Ends :
          (req : Request) (fuel remaining : ℕ) (p : Progress W T D)
          → remaining ≤ fuel
          → Ends (request_loop outside date age sort req fuel remaining p) remaining p
      unfolding request_loop
      request_loop-Ends req zero remaining p h =
          let e : remaining ≡ 0 = omega (arith, h) in
          ((none, p), ground (arith, e), nothing_left-Within remaining p e)
      request_loop-Ends req (suc fuel) remaining p h = elim (Bool-cases (remaining == 0)) [
        | inl done ↦
            rw done ((none, p), refl, nothing_left-Within remaining p (ground (arith, done)))
        | inr more ↦
            let bounds : (1 ≤ count_of req remaining)
                × (count_of req remaining ≤ 50)
                × (count_of req remaining ≤ remaining) =
              (ground (arith, more), ground (arith, more), ground (arith, more)) in
            rw more (
              unless_failed-Ends (count_of req remaining) remaining p
                (request_round outside date age sort req remaining p) _
                (request_round-Round sent requests outside metered date age sort req remaining p)
                bounds
                (λ p'.
                  request_loop-Ends req fuel (remaining - count_of req remaining) p'
                    (omega (arith, bounds.0, h))))
      ]

      refused-Limited :
          (limit : ℤ) (e : Text) (w : W) (received : List (Received D))
          → Limited limit w (
            some (failed e),
            record { result = no_result no_anchor; world = w; received = received },
          )
      refused-Limited limit e w received = record {
        finished = λ h. absurd (ground (arith, h));
        at_most = omega arith;
        chunks_le = omega arith;
        chunks_ge = omega arith;
        sent_all = λ h. absurd (ground (arith, h));
        sent_le = omega arith;
        requests_le = omega arith;
        requests_ge = omega arith;
      }

      from-Limited :
          (req : Request) (w : W) (received : List (Received D)) (anchor : Anchor)
          (info : Result Text MessageInfo)
          → leb_ℤ req.limit (pos 0) ≡ false
          → (out : Option Failure × Progress W T D) × (requested_from outside date age sort req w
                received anchor info
              ≡ some out)
            × Limited req.limit w out
      from-Limited req w received anchor (err e) positive =
          (_, refl, refused-Limited req.limit e w received)
      from-Limited req w received anchor (ok info) positive =
          let (out, ran, v) =
            request_loop-Ends req (pos_part req.limit) (pos_part req.limit)
              (record { result = no_result anchor; world = w; received = received })
              (omega arith) in
          (
            out,
            ran,
            record {
              finished = λ h. ground (arith, v.finished h, positive);
              at_most = omega (arith, v.at_most);
              chunks_le = omega (arith, v.chunks_le);
              chunks_ge = omega (arith, v.chunks_ge);
              sent_all = v.sent_all;
              sent_le = v.sent_le;
              requests_le = v.requests_le;
              requests_ge = v.requests_ge;
            },
          )

      -- A run, whatever it meets, comes to its end with the fuel that it is given. In a world that
      -- counts the messages asked for, whether the request succeeds or not, and the requests, it asks
      -- for no more messages than its limit, with one request at least for every 50 of them and no
      -- request for none; and where it ends without an error it has asked for as many as its limit.
      -- The same is true of the result's own counts, of the requests that succeeded.
      pub run_processed_requests-Limited :
          (parse_jid : Text → Result Text Jid) (req : Request) (w : W)
          (received : List (Received D))
          → (out : Option Failure × Progress W T D) × (run_processed_requests outside date age sort
                parse_jid req w received
              ≡ some out)
            × Limited req.limit w out
      unfolding run_processed_requests
      run_processed_requests-Limited parse_jid req w received =
          elim (Bool-cases (leb_ℤ req.limit (pos 0))) [
            | inl none_asked ↦
                rw none_asked
                  (_, refl, refused-Limited req.limit (text "limit must be positive") w received)
            | inr positive ↦ rw positive (from-Limited req w received _ _ positive)
          ]
