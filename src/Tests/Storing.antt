-- ===== src/Tests/Storing.antt =====
-- The theorems on the message store and its connection, at concrete inputs.
use wa_agent_pipeline.Base.{
  ℕ, ◌+◌, nat_eq, Text, ◌≡◌, ◌⊎◌, refl, true, false, none, some, [], ok, err, lookup, ◌==◌, text_eq,
  if◌then◌else◌, beq_text,
}
use wa_agent_pipeline.Texts.{text}
use wa_agent_pipeline.Sqlite.{Db, Action, with_tx, query}
use wa_agent_pipeline.Sqlite.Transactions.{
  Undone, opened, with_tx_atomic, with_tx-open, query-IsBody,
}
use wa_agent_pipeline.Writer.{MessageRow}
use wa_agent_pipeline.Writer.Write.Upserts.{IsOutcome, LeavesRow}
use wa_agent_pipeline.Writer.Write.{write, is_incomplete}
use wa_agent_pipeline.Writer.Write.Row.{keyed, key_of, hash, row_of, HasParent, write_upserts}
use wa_agent_pipeline.Writer.{safe_path_part}
use wa_agent_pipeline.Writer.PathParts.{IsPathPart, safe_path_part-IsPathPart}
use wa_agent_pipeline.Tests.{digest, hello, tables, writer}

hello_is_complete : is_incomplete hello ≡ false
unfolding is_incomplete beq_text
hello_is_complete = refl

hello-HasParent : HasParent (key_of digest writer hello) (row_of digest writer hello) tables
unfolding lookup beq_text
hello-HasParent = refl

write_upserts_example :
    ((write digest none hello writer).error ≡ none)
    × IsOutcome
        (key_of digest writer hello)
        (keyed writer hello)
        (hash digest writer hello)
        (lookup (key_of digest writer hello) [])
        (write digest none hello writer).result
    × ((row : MessageRow) × (lookup
            (key_of digest writer hello)
            (write digest none hello writer).writer.db.tables.messages
          ≡ some row)
        × LeavesRow
            (keyed writer hello)
            (hash digest writer hello)
            (writer.now 0)
            (lookup (key_of digest writer hello) [])
            row)
    × ((j : Text)
        → (j ≡ key_of digest writer hello)
          ⊎ (lookup j (write digest none hello writer).writer.db.tables.messages ≡ lookup j []))
write_upserts_example =
    write_upserts digest writer hello (λ n. refl) refl hello_is_complete refl hello-HasParent

-- A statement that adds one to a counter, and a connection whose third call, the COMMIT, fails.
abbrev increment : Action ℕ Unit Unit
increment = query λ n. ok (tt, n + 1)

abbrev failing_commit : Db ℕ Unit
failing_commit = record {
  tables = 3;
  before = none;
  memory = tt;
  calls = 0;
  engine = record {
    fault = λ n. if n == 2 then some (text "disk I/O error") else none;
    stays_open = λ n. true;
  };
}

with_tx_atomic_example :
    ((a : Unit) × (d₁ : Db ℕ Unit) × ((with_tx increment failing_commit).0 ≡ ok a)
      × ((with_tx increment failing_commit).1.before ≡ none)
      × ((increment d₁).0 ≡ ok a)
      × (d₁.tables ≡ 3)
      × ((with_tx increment failing_commit).1.tables ≡ (increment d₁).1.tables))
    ⊎ ((e : Text) × ((with_tx increment failing_commit).0 ≡ err e)
        × Undone failing_commit
            (increment (opened failing_commit)).1
            (with_tx increment failing_commit).1)
with_tx_atomic_example =
    with_tx_atomic increment failing_commit (query-IsBody λ n. ok (tt, n + 1)) refl

-- The connection after the transaction whose COMMIT failed.
stuck_open : (with_tx increment failing_commit).1.before ≡ some 3
unfolding with_tx query
stuck_open = refl

with_tx-open_example :
    (e : Text) × ((with_tx increment (with_tx increment failing_commit).1).0 ≡ err e)
    × ((with_tx increment (with_tx increment failing_commit).1).1.tables
        ≡ (with_tx increment failing_commit).1.tables)
    × ((with_tx increment (with_tx increment failing_commit).1).1.before ≡ some 3)
with_tx-open_example = with_tx-open increment (with_tx increment failing_commit).1 3 stuck_open

safe_path_part-IsPathPart_example : IsPathPart (safe_path_part (text "../etc"))
safe_path_part-IsPathPart_example = safe_path_part-IsPathPart (text "../etc")
