-- ===== src/Sqlite/Transactions.antt =====
-- sqlite.go: what `WithTx` leaves behind.
use wa_agent_pipeline.Base.{
  ℕ, suc, Text, ◌≡◌, ◌⊎◌, inl, inr, refl, ap, ◌∙◌, none, some, arith, Bool-cases, Option-cases,
  Result-cases, Result, ok, err,
}
use wa_agent_pipeline.Texts.{text}
use wa_agent_pipeline.Sqlite.{
  Db, Engine, Action, finish_tx, pure, ◌>>=◌, query, begin_immediate, rollback, commit, with_tx,
}

-- A closure that runs statements: it begins and ends no transaction.
pub record IsBody {T M A : Type 0} (fn : Action T M A) : Type 0 where
  pub keeps_before : (d : Db T M) → (fn d).1.before ≡ d.before

module _ {T M : Type 0} where
  pub bind_ok :
      {A B : Type 0} (m : Action T M A) (f : A → Action T M B) (d : Db T M) {a : A}
      → (m d).0 ≡ ok a
      → (m >>= f) d ≡ f a (m d).1
  bind_ok m f d h = ground arith

  pub bind_err :
      {A B : Type 0} (m : Action T M A) (f : A → Action T M B) (d : Db T M) {e : Text}
      → (m d).0 ≡ err e
      → (m >>= f) d ≡ (err e, (m d).1)
  bind_err m f d h = ground arith

  pub query-IsBody : {A : Type 0} (f : T → Result Text (A × T)) → IsBody {M = M} (query f)
  unfolding query
  query-IsBody f = record { keeps_before = λ d. ground arith }

  pub pure-IsBody : {A : Type 0} (a : A) → IsBody {T = T} {M = M} (pure a)
  pure-IsBody a = record { keeps_before = λ d. refl }

  pub bind-IsBody :
      {A B : Type 0} (m : Action T M A) (f : A → Action T M B)
      → IsBody m
      → ((a : A) → IsBody (f a))
      → IsBody (m >>= f)
  bind-IsBody m f hm hf = record {
    keeps_before = λ d. elim (Result-cases (m d).0) [
      | inl (e, stop) ↦ rw (bind_err m f d stop) (hm.keeps_before d)
      | inr (a, go) ↦ rw (bind_ok m f d go) ((hf a).keeps_before (m d).1 ∙ hm.keeps_before d)
    ];
  }

  -- The connection after BEGIN IMMEDIATE.
  abbrev pub opened : Db T M → Db T M
  opened d = record d { before = some d.tables; calls = suc d.calls }

  pub with_tx_begun :
      {A : Type 0} (fn : Action T M A) (d : Db T M)
      → d.before ≡ none
      → d.engine.fault d.calls ≡ none
      → with_tx fn d ≡ finish_tx (fn (opened d))
  unfolding with_tx begin_immediate
  with_tx_begun fn d closed began = ground arith

  -- A connection on which `WithTx` returned an error, where its closure ended at the connection
  -- `end`: the tables are as they were; or the engine failed the statement after the closure, the
  -- COMMIT or the ROLLBACK, and the transaction is still open and would restore them.
  pub data Undone (d end d' : Db T M) : Type 0 where
    restored : d'.before ≡ none → d'.tables ≡ d.tables → Undone d end d'
    still_open :
        (e : Text)
        → end.engine.fault end.calls ≡ some e
        → d'.before ≡ some d.tables
        → Undone d end d'

  -- How a transaction that began with the tables `t` ends after its closure.
  finish_tx-cases :
      {A : Type 0} (r : Result Text A) (d : Db T M) (t : T)
      → d.before ≡ some t
      → ((a : A) × (r ≡ ok a)
          × ((finish_tx (r, d)).0 ≡ ok a)
          × ((finish_tx (r, d)).1.before ≡ none)
          × ((finish_tx (r, d)).1.tables ≡ d.tables))
        ⊎ ((e : Text) × ((finish_tx (r, d)).0 ≡ err e)
            × ((((finish_tx (r, d)).1.before ≡ none) × ((finish_tx (r, d)).1.tables ≡ t))
                ⊎ ((fault : Text) × (d.engine.fault d.calls ≡ some fault)
                    × ((finish_tx (r, d)).1.before ≡ some t))))
  unfolding rollback commit
  finish_tx-cases (err e) d t held = elim (Option-cases (d.engine.fault d.calls)) [
    | inl fine ↦ inr (e, refl, inl (ground arith, ground arith))
    | inr (fault, bad) ↦ inr (e, refl, inr (fault, bad, ground arith))
  ]
  finish_tx-cases (ok a) d t held = elim (Option-cases (d.engine.fault d.calls)) [
    | inl done ↦ inl (a, refl, ground arith, ground arith, ground arith)
    | inr (e, bad) ↦ elim (Bool-cases (d.engine.stays_open d.calls)) [
      | inl stays ↦ inr (e, ground arith, inr (e, bad, ground arith))
      | inr ends ↦ inr (e, ground arith, inl (ground arith, ground arith))
    ]
  ]

  -- Where no transaction is open, and the closure runs statements only: if `WithTx` succeeds, no
  -- transaction is open, the closure succeeded and the tables are those that it left; if `WithTx`
  -- fails, the tables are as before and no transaction is open, or the engine failed the statement
  -- that follows the closure, the COMMIT or the ROLLBACK, and the transaction is still open.
  pub with_tx_atomic :
      {A : Type 0} (fn : Action T M A) (d : Db T M)
      → IsBody fn
      → d.before ≡ none
      → ((a : A) × (d₁ : Db T M) × ((with_tx fn d).0 ≡ ok a)
          × ((with_tx fn d).1.before ≡ none)
          × ((fn d₁).0 ≡ ok a)
          × (d₁.tables ≡ d.tables)
          × ((with_tx fn d).1.tables ≡ (fn d₁).1.tables))
        ⊎ ((e : Text) × ((with_tx fn d).0 ≡ err e) × Undone d (fn (opened d)).1 (with_tx fn d).1)
  unfolding with_tx begin_immediate
  with_tx_atomic fn d body closed = elim (Option-cases (d.engine.fault d.calls)) [
    | inr (e, bad) ↦ inr (e, ground arith, restored (ground arith) (ground arith))
    | inl began ↦
        let d₁ = opened d in
        let run = with_tx_begun fn d closed began in
        elim (finish_tx-cases (fn d₁).0 (fn d₁).1 d.tables (body.keeps_before d₁)) [
          | inl (a, ran, done, ended, kept) ↦
              inl (a, d₁, rw run done, rw run ended, ran, refl, rw run kept)
          | inr (e, failed, inl (ended, kept)) ↦
              inr (e, rw run failed, restored (rw run ended) (rw run kept))
          | inr (e, failed, inr (fault, bad, held)) ↦
              inr (e, rw run failed, still_open fault bad (rw run held))
        ]
  ]

  -- While a transaction is open, `WithTx` runs nothing of its closure: it fails, and leaves the
  -- tables and the transaction as they are.
  pub with_tx-open :
      {A : Type 0} (fn : Action T M A) (d : Db T M) (t : T)
      → d.before ≡ some t
      → (e : Text) × ((with_tx fn d).0 ≡ err e)
        × ((with_tx fn d).1.tables ≡ d.tables)
        × ((with_tx fn d).1.before ≡ some t)
  unfolding with_tx begin_immediate
  with_tx-open fn d t held = elim (Option-cases (d.engine.fault d.calls)) [
    | inr (e, bad) ↦ (e, ground arith, ground arith, ground arith)
    | inl began ↦ (
      text "cannot start a transaction within a transaction",
      ground arith,
      ground arith,
      ground arith,
    )
  ]

  commit_quiet :
      {A : Type 0} (r : Result Text A) (d : Db T M) {a : A}
      → r ≡ ok a
      → d.engine.fault d.calls ≡ none
      → finish_tx (r, d) ≡ (ok a, record d { before = none; calls = suc d.calls })
  unfolding commit
  commit_quiet r d e h = ground arith

  -- With an engine that lets every call through, a transaction is its closure.
  pub with_tx_quiet :
      {A : Type 0} (fn : Action T M A) (d : Db T M) {a : A}
      → d.before ≡ none
      → ((n : ℕ) → d.engine.fault n ≡ none)
      → (fn (opened d)).0 ≡ ok a
      → (fn (opened d)).1.engine ≡ d.engine
      → with_tx fn d
        ≡ (ok a, record ((fn (opened d)).1) { before = none; calls = suc (fn (opened d)).1.calls })
  with_tx_quiet fn d {a} closed quiet done same =
      with_tx_begun fn d closed (quiet d.calls)
      ∙ commit_quiet (fn (opened d)).0 (fn (opened d)).1 done (
          ap (λ (g : Engine). g.fault (fn (opened d)).1.calls) same ∙ quiet (fn (opened d)).1.calls)
