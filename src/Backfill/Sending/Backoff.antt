-- ===== src/Backfill/Sending/Backoff.antt =====
-- backfill.go: the backoff between two attempts never falls below the first, or wraps around.
use wa_agent_pipeline.Base.{◌+◌, ◌^◌, ◌⊎◌, inl, inr, arith, Bool-cases, ltb}
use wa_agent_pipeline.Base.Int.{ℤ, pos, ◌≤ℤ◌, ltb_ℤ, wrap64, ◌+ℤ◌, IsInt64, wrap64-IsInt64, negsuc}
use wa_agent_pipeline.Backfill.Sending.{next_backoff}

-- The backoff never falls below the first, or wraps around to where the loop ends.
abbrev pub AtLeast : ℤ → ℤ → Type 0
AtLeast least backoff = (least ≤ℤ backoff) ⊎ (backoff ≤ℤ pos 0)

doubled-AtLeast :
    (least backoff : ℤ)
    → pos 1 ≤ℤ least
    → IsInt64 backoff
    → least ≤ℤ backoff
    → AtLeast least (wrap64 (backoff +ℤ backoff))
unfolding wrap64 ◌+ℤ◌
doubled-AtLeast least (pos n) one range h = elim (Bool-cases (ltb (n + n) (2 ^ 63))) [
  | inl small ↦ inl (ground (arith, small, one, h))
  | inr large ↦ inr (ground (arith, large, range))
]
doubled-AtLeast least (negsuc n) one range h = absurd (omega (arith, one, h))

pub next_backoff-AtLeast :
    (least max backoff : ℤ)
    → pos 1 ≤ℤ least
    → least ≤ℤ max
    → IsInt64 backoff
    → least ≤ℤ backoff
    → AtLeast least (next_backoff max backoff)
next_backoff-AtLeast least max backoff one le range h =
    elim (doubled-AtLeast least backoff one range h) [
      | inl more ↦ inl (ground (arith, more, le))
      | inr none_left ↦ inr (ground (arith, none_left, one, le))
    ]

pub next_backoff-IsInt64 : (max backoff : ℤ) → IsInt64 max → IsInt64 (next_backoff max backoff)
next_backoff-IsInt64 max backoff range =
    let wrapped = wrap64-IsInt64 (backoff +ℤ backoff) in
    elim (Bool-cases (ltb_ℤ max (wrap64 (backoff +ℤ backoff)))) [
      | inl over ↦ rw over range
      | inr under ↦ rw under wrapped
    ]
