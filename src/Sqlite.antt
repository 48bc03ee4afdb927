-- ===== src/Sqlite.antt =====
-- whatsapp-daemon/internal/sqlite/sqlite.go: a connection, as its callers see it. The engine is not
-- under verification: whether its n-th call fails, and whether a failing COMMIT leaves the
-- transaction open, is the environment's choice. What a statement that runs does to the tables is
-- the meaning of the SQL text at its caller. The mutex makes every method one step.
pub mod Transactions
use wa_agent_pipeline.Base.{ℕ, suc, Text, Bool, Option, none, some, Result, ok, err, if◌then◌else◌}
use wa_agent_pipeline.Texts.{text}

pub record Engine : Type 0 where
  pub fault : ℕ → Option Text
  pub stays_open : ℕ → Bool

-- `before` holds the tables as they were when the open transaction began. `memory` is what the
-- program keeps beside the database and writes inside a transaction: no rollback restores it.
pub record Db (T M : Type 0) : Type 0 where
  pub tables : T
  pub before : Option T
  pub memory : M
  pub calls : ℕ
  pub engine : Engine

abbrev pub Action : Type 0 → Type 0 → Type 0 → Type 0
Action T M A = Db T M → Result Text A × Db T M

module _ {T M : Type 0} where
  abbrev pub pure : {A : Type 0} → A → Action T M A
  pure a d = (ok a, d)

  infixl 5 ◌>>=◌ ◌>>◌
  abbrev pub ◌>>=◌ : {A B : Type 0} → Action T M A → (A → Action T M B) → Action T M B
  ◌>>=◌ m f d = let (r, d') = m d in elim r [ err e ↦ (err e, d') | ok a ↦ f a d' ]

  abbrev pub ◌>>◌ : {A B : Type 0} → Action T M A → Action T M B → Action T M B
  m >> k = m >>= λ _. k

  abbrev ran : {A : Type 0} → Result Text (A × T) → Db T M → Result Text A × Db T M
  ran (ok (a, t)) d = (ok a, record d { tables = t })
  ran (err e) d = (err e, d)

  -- `db.query`: one statement, whose constraints may refuse it.
  unfoldable pub query : {A : Type 0} → (T → Result Text (A × T)) → Action T M A
  query f d =
      let d' = record d { calls = suc d.calls } in
      elim (d.engine.fault d.calls) [ some e ↦ (err e, d') | none ↦ ran (f d.tables) d' ]

  abbrev begin_open : Option T → Db T M → Result Text Unit × Db T M
  begin_open (some t) d = (err (text "cannot start a transaction within a transaction"), d)
  begin_open none d = (ok tt, record d { before = some d.tables })

  unfoldable pub begin_immediate : Action T M Unit
  begin_immediate d =
      let d' = record d { calls = suc d.calls } in
      elim (d.engine.fault d.calls) [ some e ↦ (err e, d') | none ↦ begin_open d.before d' ]

  abbrev restore : Option T → Db T M → Db T M
  restore none d = d
  restore (some t) d = record d { tables = t; before = none }

  unfoldable pub rollback : Action T M Unit
  rollback d =
      let d' = record d { calls = suc d.calls } in
      elim (d.engine.fault d.calls) [ some e ↦ (err e, d') | none ↦ (ok tt, restore d.before d') ]

  unfoldable pub commit : Action T M Unit
  commit d =
      let d' = record d { calls = suc d.calls } in
      elim (d.engine.fault d.calls) [
        | some e ↦ (err e, if d.engine.stays_open d.calls then d' else restore d.before d')
        | none ↦ (ok tt, record d' { before = none })
      ]

  -- The value is what the closure leaves in the variables of its caller.
  abbrev finish_tx : {A : Type 0} → Result Text A × Db T M → Result Text A × Db T M
  finish_tx (err e, d) = (err e, (rollback d).1)
  finish_tx (ok a, d) = (commit >> pure a) d

  unfoldable pub with_tx : {A : Type 0} → Action T M A → Action T M A
  unfolding begin_immediate rollback commit
  with_tx fn = begin_immediate >>= λ _ d. finish_tx (fn d)
