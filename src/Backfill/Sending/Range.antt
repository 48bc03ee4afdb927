-- ===== src/Backfill/Sending/Range.antt =====
-- backfill.go: the options of the retries, normalized, stay positive and of the type int64.
use wa_agent_pipeline.Base.{◌≤◌, ◌≡◌, inl, inr, false, arith, Bool-cases}
use wa_agent_pipeline.Base.Int.{ℤ, pos, ◌≤ℤ◌, ltb_ℤ, leb_ℤ, IsInt64}
use wa_agent_pipeline.Backfill.Requests.{or_default}
use wa_agent_pipeline.Backfill.Sending.{
  SendRetryOptions, default_send_retry_options, normalize_send_retry_options, at_most, capped,
}

-- A duration or its default, and the lower of two: they stay positive and of the type int64.
or_default-range :
    (value default : ℤ)
    → IsInt64 value
    → (pos 1 ≤ℤ default) × IsInt64 default
    → (pos 1 ≤ℤ or_default value default) × IsInt64 (or_default value default)
or_default-range value default range (one, range') = elim (Bool-cases (leb_ℤ value (pos 0))) [
  | inl unset ↦ rw unset (one, range')
  | inr given ↦ rw given (ground (arith, given), range)
]

at_most-range :
    (bound value : ℤ)
    → (pos 1 ≤ℤ bound) × IsInt64 bound
    → pos 1 ≤ℤ value
    → (pos 1 ≤ℤ at_most bound value)
      × (at_most bound value ≤ℤ bound)
      × IsInt64 (at_most bound value)
at_most-range bound value (one, range) one' = elim (Bool-cases (ltb_ℤ bound value)) [
  | inl over ↦ rw over (one, omega arith, range)
  | inr under ↦ rw under (one', ground (arith, under), ground (arith, under, one', range))
]

pub record IsNormal (n : SendRetryOptions) : Type 0 where
  pub positive : pos 1 ≤ℤ n.initial_backoff
  pub ordered : n.initial_backoff ≤ℤ n.max_backoff
  pub max_range : IsInt64 n.max_backoff
  pub initial_range : IsInt64 n.initial_backoff

pub normalize_send_retry_options-IsNormal :
    (opts : SendRetryOptions)
    → IsInt64 opts.max_backoff
    → IsInt64 opts.initial_backoff
    → IsNormal (normalize_send_retry_options opts)
unfolding normalize_send_retry_options
normalize_send_retry_options-IsNormal opts range range' =
    let max =
      or_default-range opts.max_backoff default_send_retry_options.max_backoff range
        (omega arith, (omega arith, omega arith)) in
    let initial =
      or_default-range opts.initial_backoff default_send_retry_options.initial_backoff range'
        (omega arith, (omega arith, omega arith)) in
    let (positive, ordered, initial_range) = at_most-range _ _ max initial.0 in
    record {
      positive = positive;
      ordered = ordered;
      max_range = max.1;
      initial_range = initial_range;
    }

pub capped-range :
    (count : ℤ)
    → leb_ℤ count (pos 0) ≡ false
    → (1 ≤ capped count) × (capped count ≤ 50) × (pos (capped count) ≤ℤ count)
capped-range count more = (ground (arith, more), ground (arith, more), ground (arith, more))
