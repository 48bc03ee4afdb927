-- ===== src/Session/Serve/Shutdown.antt =====
-- auth.go: no result is sent on the closed channel, and `Serve` can always return.
use wa_agent_pipeline.Base.{
  ◌≤◌, ◌<◌, ◌≡◌, ◌≢◌, refl, sym, ap, ◌∙◌, true, false, List, [], ◌∷◌, ◌++◌, arith, length,
  length-append, ltb, leb, Bool-cases, inl, inr, if_holds,
}
use wa_agent_pipeline.Session.History.{HistorySync, Stats, no_stats, is_on_demand}
use wa_agent_pipeline.Session.Serve.{
  result_capacity, Handling, handling, leaving, Stage, rank, serving, handler_removed, disconnected,
  flagged, cancelled, waited, channel_closed, returned, Serving, started, add_sync, arrive,
  report_result, Closing, remove_handler, disconnect, set_closed, cancel, wait, close_channel, join,
  Step, sync_arrives, sync_handled, sync_done, result_received, parent_done, worker_stops, closing,
  Reach, here, next,
}

not_empty : {A : Type 0} (xs ys : List A) (x : A) → xs ++ x ∷ ys ≢ []
not_empty [] ys x e = ground (arith, e)
not_empty (y ∷ xs) ys x e = ground (arith, e)

module _ {D : Type 0} where
  -- No panic; the flag is set before the wait, after which no goroutine is left.
  pub record IsOrderly (s : Serving D) : Type 0 where
    pub no_panic : s.panicked ≡ false
    pub flag : rank flagged ≤ rank s.stage → s.closed ≡ true
    pub idle : rank waited ≤ rank s.stage → s.syncs ≡ []
    pub bounded : length s.results ≤ result_capacity
    pub over : rank cancelled ≤ rank s.stage → s.context_done ≡ true

  started-IsOrderly : IsOrderly started
  started-IsOrderly = record {
    no_panic = refl;
    flag = λ h. absurd (omega (arith, h));
    idle = λ h. refl;
    bounded = omega arith;
    over = λ h. absurd (omega (arith, h));
  }

  Closing-IsOrderly : {s s' : Serving D} → Closing s s' → IsOrderly s → IsOrderly s'
  Closing-IsOrderly (remove_handler e) v = ground (arith, e, v.no_panic)
  Closing-IsOrderly (disconnect e) v = ground (arith, e, v.no_panic)
  Closing-IsOrderly (set_closed e) v = ground (arith, e, v.no_panic)
  Closing-IsOrderly (cancel e) v = ground (arith, e, v.no_panic)
  Closing-IsOrderly (wait e idle) v = ground (arith, e, v.no_panic)
  Closing-IsOrderly (close_channel e) v = ground (arith, e, v.no_panic)
  Closing-IsOrderly (join e f) v = ground (arith, e, v.no_panic)

  before_flag : (s : Serving D) → IsOrderly s → s.closed ≡ false → rank s.stage < rank flagged
  before_flag s v live = ground (arith, v.flag, live)

  arrive-IsOrderly : (evt : HistorySync D) (s : Serving D) → IsOrderly s → IsOrderly (arrive evt s)
  unfolding arrive
  arrive-IsOrderly evt s v =
      if_holds IsOrderly s.closed s (add_sync evt s) (λ shut. v)
        (λ live.
          let early : rank s.stage < rank flagged = before_flag s v live in
          record {
            no_panic = ground (arith, early, v.no_panic);
            flag = λ h. absurd (omega (arith, h, early));
            idle = λ h. absurd (omega (arith, h, early));
            bounded = v.bounded;
            over = v.over;
          })

  report_result-IsOrderly :
      (evt : HistorySync D) (stats : Stats) (s : Serving D)
      → rank s.stage < rank waited
      → IsOrderly s
      → IsOrderly (report_result evt stats s)
  unfolding report_result
  report_result-IsOrderly evt stats s early v =
      if_holds IsOrderly (is_on_demand evt) _ s
        (λ asked.
          if_holds IsOrderly (leb (rank channel_closed) (rank s.stage)) _ _
            (λ late. absurd (ground (arith, late, early)))
            (λ open_yet.
              if_holds IsOrderly (ltb (length s.results) result_capacity) _ s
                (λ room. record {
                  no_panic = v.no_panic;
                  flag = v.flag;
                  idle = v.idle;
                  bounded = ground (arith, room, length-append s.results ((evt, stats) ∷ []));
                  over = v.over;
                })
                (λ full. v)))
        (λ unasked. v)

  -- While a goroutine is left, the wait has not returned.
  before_wait :
      (s : Serving D) (before after : List (Handling D)) (h : Handling D)
      → IsOrderly s
      → s.syncs ≡ before ++ h ∷ after
      → rank s.stage < rank waited
  before_wait s before after h v e = elim (Bool-cases (ltb (rank s.stage) (rank waited))) [
    | inl early ↦ ground (arith, early)
    | inr late ↦ absurd (not_empty before after h (sym e ∙ v.idle (ground (arith, late))))
  ]

  -- The goroutines change, and one of them is left.
  syncs-IsOrderly :
      (s : Serving D) (syncs : List (Handling D))
      → rank s.stage < rank waited
      → IsOrderly s
      → IsOrderly (record s { syncs = syncs })
  syncs-IsOrderly s syncs early v = record {
    no_panic = v.no_panic;
    flag = v.flag;
    idle = λ h. absurd (omega (arith, h, early));
    bounded = v.bounded;
    over = v.over;
  }

  Step-IsOrderly : {s s' : Serving D} → Step s s' → IsOrderly s → IsOrderly s'
  Step-IsOrderly {s} (sync_arrives evt) v = arrive-IsOrderly evt s v
  Step-IsOrderly {s} (sync_handled before after evt stats e) v =
      let early = before_wait s before after (handling evt) v e in
      report_result-IsOrderly evt stats (record s { syncs = before ++ leaving ∷ after }) early
        (syncs-IsOrderly s (before ++ leaving ∷ after) early v)
  Step-IsOrderly {s} (sync_done before after e) v =
      syncs-IsOrderly s (before ++ after) (before_wait s before after leaving v e) v
  Step-IsOrderly (result_received r rest e) v =
      ground (arith, e, v.no_panic, ap (λ l. length {0} l) e)
  Step-IsOrderly parent_done v = ground (arith, v.no_panic)
  Step-IsOrderly (worker_stops e) v = ground (arith, v.no_panic)
  Step-IsOrderly (closing c) v = Closing-IsOrderly c v

  reached-IsOrderly : {s : Serving D} → Reach started s → IsOrderly s
  reached-IsOrderly here = started-IsOrderly
  reached-IsOrderly (next r st) = Step-IsOrderly st (reached-IsOrderly r)

  Reach-trans : {s t u : Serving D} → Reach s t → Reach t u → Reach s u
  Reach-trans r here = r
  Reach-trans r (next r' st) = next (Reach-trans r r') st

  abbrev pub CanReturn : Serving D → Type 0
  CanReturn s = (t : Serving D) × Reach s t × (t.stage ≡ returned)

  Step-CanReturn : {s t : Serving D} → Step s t → CanReturn t → CanReturn s
  Step-CanReturn st (u, r, e) = (u, Reach-trans (next here st) r, e)

  joined-CanReturn :
      (s : Serving D) → s.stage ≡ channel_closed → s.context_done ≡ true → CanReturn s
  joined-CanReturn s e f =
      Step-CanReturn (worker_stops f) (Step-CanReturn (closing (join e refl)) (_, here, refl))

  waited-CanReturn : (s : Serving D) → s.stage ≡ waited → s.context_done ≡ true → CanReturn s
  waited-CanReturn s e f = Step-CanReturn (closing (close_channel e)) (joined-CanReturn _ refl f)

  cancelled-CanReturn :
      (s : Serving D) → s.stage ≡ cancelled → s.context_done ≡ true → s.syncs ≡ [] → CanReturn s
  cancelled-CanReturn s e f idle =
      Step-CanReturn (closing (wait e idle)) (waited-CanReturn _ refl f)

  flagged-CanReturn : (s : Serving D) → s.stage ≡ flagged → s.syncs ≡ [] → CanReturn s
  flagged-CanReturn s e idle =
      Step-CanReturn (closing (cancel e)) (cancelled-CanReturn _ refl refl idle)

  disconnected-CanReturn : (s : Serving D) → s.stage ≡ disconnected → s.syncs ≡ [] → CanReturn s
  disconnected-CanReturn s e idle =
      Step-CanReturn (closing (set_closed e)) (flagged-CanReturn _ refl idle)

  removed-CanReturn : (s : Serving D) → s.stage ≡ handler_removed → s.syncs ≡ [] → CanReturn s
  removed-CanReturn s e idle =
      Step-CanReturn (closing (disconnect e)) (disconnected-CanReturn _ refl idle)

  idle-CanReturn :
      (stage : Stage) (s : Serving D) → s.stage ≡ stage → IsOrderly s → s.syncs ≡ [] → CanReturn s
  idle-CanReturn serving s e v idle =
      Step-CanReturn (closing (remove_handler e)) (removed-CanReturn _ refl idle)
  idle-CanReturn handler_removed s e v idle = removed-CanReturn s e idle
  idle-CanReturn disconnected s e v idle = disconnected-CanReturn s e idle
  idle-CanReturn flagged s e v idle = flagged-CanReturn s e idle
  idle-CanReturn cancelled s e v idle = cancelled-CanReturn s e (v.over (ground (arith, e))) idle
  idle-CanReturn waited s e v idle = waited-CanReturn s e (v.over (ground (arith, e)))
  idle-CanReturn channel_closed s e v idle = joined-CanReturn s e (v.over (ground (arith, e)))
  idle-CanReturn returned s e v idle = (s, here, e)

  report_result-syncs :
      (evt : HistorySync D) (stats : Stats) (s : Serving D)
      → (report_result evt stats s).syncs ≡ s.syncs
  unfolding report_result
  report_result-syncs evt stats s = ground arith

  -- The goroutines that are left go on until none is.
  syncs-CanReturn :
      (syncs : List (Handling D)) (s : Serving D) → s.syncs ≡ syncs → IsOrderly s → CanReturn s
  syncs-CanReturn [] s e v = idle-CanReturn s.stage s refl v e
  syncs-CanReturn (leaving ∷ syncs) s e v =
      let done : Step s (record s { syncs = syncs }) = sync_done [] syncs e in
      Step-CanReturn done (syncs-CanReturn syncs _ refl (Step-IsOrderly done v))
  syncs-CanReturn (handling evt ∷ syncs) s e v =
      let handled = sync_handled [] syncs evt (no_stats []) e in
      let s' = report_result evt (no_stats []) (record s { syncs = leaving ∷ syncs }) in
      let done : Step s' (record s' { syncs = syncs }) =
        sync_done [] syncs
          (report_result-syncs evt (no_stats []) (record s { syncs = leaving ∷ syncs })) in
      Step-CanReturn handled (
        Step-CanReturn done
          (syncs-CanReturn syncs _ refl (Step-IsOrderly done (Step-IsOrderly handled v))))

  -- In every state that Serve reaches from its start nothing has panicked: no result was sent on the
  -- closed channel, and no goroutine was added after the wait. Once the wait is over no goroutine of a
  -- history sync is left, and at most eight results wait. From every such state, whatever history
  -- syncs are being handled, there are steps by which Serve returns.
  pub Reach-IsOrderly : (s : Serving D) → Reach started s → IsOrderly s × CanReturn s
  Reach-IsOrderly s r = let v = reached-IsOrderly r in (v, syncs-CanReturn s.syncs s refl v)
