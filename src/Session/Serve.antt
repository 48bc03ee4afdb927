-- ===== src/Session/Serve.antt =====
-- auth.go: what `Serve` does with history syncs, and how it ends. Each sync is handled by a goroutine
-- of its own, and the deferred function of `Serve` waits for them before it closes the channel of
-- their results. A step is what one goroutine does between two points where another may act: the
-- mutex makes the test of `historySyncClosed` and the call of Add one step.
pub mod Shutdown
use wa_agent_pipeline.Base.{
  ℕ, suc, ◌≤◌, ◌≡◌, Bool, true, false, List, [], ◌∷◌, ◌++◌, length, ltb, leb, if◌then◌else◌,
}
use wa_agent_pipeline.Session.History.{HistorySync, Stats, is_on_demand}

-- `cap(onDemandProcessed)`
abbrev pub result_capacity : ℕ
result_capacity = 8

-- A goroutine of a history sync: before the result is sent, and before Done.
pub data Handling (D : Type 0) : Type 0 where
  handling : HistorySync D → Handling D
  leaving : Handling D

-- Where the deferred function stands: what it has done last.
pub data Stage : Type 0 where
  serving handler_removed disconnected flagged cancelled waited channel_closed returned : Stage

abbrev pub rank : Stage → ℕ
rank serving = 0
rank handler_removed = 1
rank disconnected = 2
rank flagged = 3
rank cancelled = 4
rank waited = 5
rank channel_closed = 6
rank returned = 7

-- `closed` is `historySyncClosed`, `context_done` whether serveCtx is done. A send on the closed
-- channel, and a call of Add after Wait has returned, are panics.
pub record Serving (D : Type 0) : Type 0 where
  pub stage : Stage
  pub closed : Bool
  pub context_done : Bool
  pub syncs : List (Handling D)
  pub results : List (HistorySync D × Stats)
  pub worker_done : Bool
  pub panicked : Bool

module _ {D : Type 0} where
  -- `Serve`, when its event handler is there.
  abbrev pub started : Serving D
  started = record {
    stage = serving;
    closed = false;
    context_done = false;
    syncs = [];
    results = [];
    worker_done = false;
    panicked = false;
  }

  -- historySyncs.Add(1)
  abbrev pub add_sync : HistorySync D → Serving D → Serving D
  add_sync evt s = record s {
    syncs = handling evt ∷ s.syncs;
    panicked = if leb (rank waited) (rank s.stage) then true else s.panicked;
  }

  -- The event handler at a history sync.
  unfoldable pub arrive : HistorySync D → Serving D → Serving D
  arrive evt s = if s.closed then s else add_sync evt s

  -- select { case onDemandProcessed <- result: default: }
  abbrev offer : HistorySync D × Stats → Serving D → Serving D
  offer r s =
      if leb (rank channel_closed) (rank s.stage)
      then record s { panicked = true }
      else if ltb (length s.results) result_capacity
      then record s { results = s.results ++ r ∷ [] }
      else s

  -- What the goroutine does with its statistics.
  unfoldable pub report_result : HistorySync D → Stats → Serving D → Serving D
  report_result evt stats s = if is_on_demand evt then offer (evt, stats) s else s

  -- The steps of the deferred function, in their order: `Wait` returns where no goroutine is left,
  -- and the last receive where the worker has returned.
  pub data Closing (s : Serving D) : Serving D → Type 0 where
    remove_handler : s.stage ≡ serving → Closing s (record s { stage = handler_removed })
    disconnect : s.stage ≡ handler_removed → Closing s (record s { stage = disconnected })
    set_closed : s.stage ≡ disconnected → Closing s (record s { stage = flagged; closed = true })
    cancel : s.stage ≡ flagged → Closing s (record s { stage = cancelled; context_done = true })
    wait : s.stage ≡ cancelled → s.syncs ≡ [] → Closing s (record s { stage = waited })
    close_channel : s.stage ≡ waited → Closing s (record s { stage = channel_closed })
    join :
        s.stage ≡ channel_closed → s.worker_done ≡ true → Closing s (record s { stage = returned })

  pub data Step (s : Serving D) : Serving D → Type 0 where
    sync_arrives : (evt : HistorySync D) → Step s (arrive evt s)
    sync_handled :
        (before after : List (Handling D)) (evt : HistorySync D) (stats : Stats)
        → s.syncs ≡ before ++ handling evt ∷ after
        → Step s (report_result evt stats (record s { syncs = before ++ leaving ∷ after }))
    sync_done :
        (before after : List (Handling D))
        → s.syncs ≡ before ++ leaving ∷ after
        → Step s (record s { syncs = before ++ after })
    result_received :
        (r : HistorySync D × Stats) (rest : List (HistorySync D × Stats))
        → s.results ≡ r ∷ rest
        → Step s (record s { results = rest })
    parent_done : Step s (record s { context_done = true })
    worker_stops : s.context_done ≡ true → Step s (record s { worker_done = true })
    closing : {s' : Serving D} → Closing s s' → Step s s'

  pub data Reach (s : Serving D) : Serving D → Type 0 where
    here : Reach s s
    next : {t u : Serving D} → Reach s t → Step t u → Reach s u
