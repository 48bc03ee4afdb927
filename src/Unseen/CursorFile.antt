-- ===== src/Unseen/CursorFile.antt =====
-- unseen.go: the cursor that one run writes is the one that the next run reads.
use wa_agent_pipeline.Base.{Text, ◌≡◌, none, some, arith, ok, text_eq}
use wa_agent_pipeline.Base.Int.{ℤ, IsInt64}
use wa_agent_pipeline.Texts.Decimal.{print_int, parse-trim_print_int}
use wa_agent_pipeline.Files.{Files, read_file, atomic_write_text}
use wa_agent_pipeline.Files.Atomic.{done, undone, atomic_write_text-Replaced}
use wa_agent_pipeline.Unseen.{parse_cursor, prior_cursor}
use wa_agent_pipeline.Unseen.Cursor.{content_of}

prior_cursor-content_of :
    (path : Text) (fs : Files) (v : ℤ)
    → IsInt64 v
    → content_of path fs ≡ some (print_int v)
    → fs.fault fs.calls ≡ none
    → (prior_cursor path fs).0 ≡ ok v
unfolding prior_cursor read_file parse_cursor
prior_cursor-content_of path fs v range stored fine =
    ground (arith, stored, fine, parse-trim_print_int v range)

-- After a cursor of the type int64 was written with success, and where the next read of a file does
-- not fail, priorCursor returns that cursor.
pub prior_cursor-atomic_write_text :
    (tmp path : Text) (v : ℤ) (fs : Files)
    → IsInt64 v
    → (atomic_write_text tmp path (print_int v) fs).0 ≡ ok tt
    → (atomic_write_text tmp path (print_int v) fs).1.fault
        (atomic_write_text tmp path (print_int v) fs).1.calls
      ≡ none
    → (prior_cursor path (atomic_write_text tmp path (print_int v) fs).1).0 ≡ ok v
prior_cursor-atomic_write_text tmp path v fs range written fine =
    elim (atomic_write_text-Replaced tmp path (print_int v) fs) [
      | done _ full _ ↦ prior_cursor-content_of path _ v range full fine
      | undone e failed _ ↦ absurd (ground (arith, written, failed))
    ]
