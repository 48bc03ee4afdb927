-- ===== src/Backfill/Timestamps.antt =====
-- backfill.go: `ParseTimestamp`. A moment is in seconds since 1970 and nanoseconds, and time.Parse
-- a parameter, by its layout.
use wa_agent_pipeline.Base.{
  ℕ, Text, Bool, ◌&&◌, Option, none, some, Result, ok, err, [], ◌==◌, text_eq, nat_eq,
  if◌then◌else◌,
}
use wa_agent_pipeline.Base.Int.{ℤ, negsuc, int_eq}
use wa_agent_pipeline.Texts.{text, trim_space}
use wa_agent_pipeline.Texts.Decimal.{parse_int}

pub record Moment : Type 0 where
  pub unix : ℤ
  pub nanos : ℕ

-- time.Time{}, the start of the year 1
abbrev pub zero_time : Moment
zero_time = record { unix = negsuc 62135596799; nanos = 0 }

abbrev pub is_zero : Moment → Bool
is_zero t = t.unix == negsuc 62135596799 && t.nanos == 0

module _ (parse_time : Text → Text → Option Moment) where
  abbrev as_date : Option Moment → Result Text Moment
  as_date (some t) = ok t
  as_date none = err (text "timestamp must be unix seconds, RFC3339, or YYYY-MM-DD")

  abbrev else_with : Option Moment → Result Text Moment → Result Text Moment
  else_with (some t) r = ok t
  else_with none r = r

  abbrev parse_layouts : Text → Result Text Moment
  parse_layouts value = else_with (parse_time (text "2006-01-02T15:04:05Z07:00") value) (
      else_with (parse_time (text "2006-01-02 15:04:05") value)
        (as_date (parse_time (text "2006-01-02") value)))

  unfoldable pub parse_timestamp : Text → Result Text Moment
  unfolding trim_space parse_int
  parse_timestamp raw =
      let value = trim_space raw in
      if value == [] then ok zero_time else elim (parse_int value) [
        | some secs ↦ ok (record { unix = secs; nanos = 0 })
        | none ↦ parse_layouts value
      ]
