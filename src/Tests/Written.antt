-- ===== src/Tests/Written.antt =====
-- The theorems on the cursor file and on health.json, at concrete inputs.
use wa_agent_pipeline.Base.{
  nat_eq, ℕ, ◌≡◌, refl, none, List, [], ◌∷◌, ◌++◌, ok, length, text_eq, arith,
}
use wa_agent_pipeline.Base.Int.{pos, sub64}
use wa_agent_pipeline.Texts.{text}
use wa_agent_pipeline.Texts.Decimal.{print_int}
use wa_agent_pipeline.Files.{atomic_write_text}
use wa_agent_pipeline.Files.Atomic.{Replaced}
use wa_agent_pipeline.Health.{Status, new_status, Report, five_minutes, report, write}
use wa_agent_pipeline.Health.Window.{Pruned, write-Pruned}
use wa_agent_pipeline.Unseen.{prior_cursor}
use wa_agent_pipeline.Unseen.CursorFile.{prior_cursor-atomic_write_text}
use wa_agent_pipeline.Tests.{no_faults}

cursor_written :
    (atomic_write_text (text "seen.tmp") (text "seen") (print_int (pos 10)) no_faults).0 ≡ ok tt
unfolding atomic_write_text
cursor_written = refl

cursor_readable :
    (atomic_write_text (text "seen.tmp") (text "seen") (print_int (pos 10)) no_faults).1.fault
      (atomic_write_text (text "seen.tmp") (text "seen") (print_int (pos 10)) no_faults).1.calls
    ≡ none
unfolding atomic_write_text
cursor_readable = refl

prior_cursor-atomic_write_text_example :
    (prior_cursor
      (text "seen")
      (atomic_write_text (text "seen.tmp") (text "seen") (print_int (pos 10)) no_faults).1).0
    ≡ ok (pos 10)
prior_cursor-atomic_write_text_example =
    prior_cursor-atomic_write_text (text "seen.tmp") (text "seen") (pos 10) no_faults
      (omega arith, omega arith) cursor_written cursor_readable

-- A failure of long ago, and one of the last five minutes.
abbrev failing : Status
failing = record (new_status) { media_failures = pos 50 ∷ pos 900 ∷ [] }

abbrev no_bytes : Report → List ℕ
no_bytes _ = []

write-Pruned_example :
    let out = write no_bytes (text "health.json") (pos 1000) (failing, no_faults) in
    Pruned (sub64 (pos 1000) five_minutes) failing out.1.0
    × Replaced
        (text "health.json" ++ text ".tmp")
        (text "health.json")
        (no_bytes (report (pos 1000) out.1.0) ++ b'\n' ∷ [])
        no_faults
        (out.0, out.1.1)
    × ((report (pos 1000) out.1.0).media_failures_5m ≡ length out.1.0.media_failures)
write-Pruned_example = write-Pruned no_bytes (text "health.json") (pos 1000) failing no_faults
