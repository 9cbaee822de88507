-- ===== src/BlockStorage/Times.antt =====
-- The keys of a time series (`system_time_to_bytes` and `system_time_from_bytes`).
use prellblock.Prelude.{
  ℕ, ◌+◌, ◌-◌, ◌%◌, ◌^◌, ◌≤◌, ◌<◌, ◌≡◌, ltb, leb, Option, none, some, if◌then◌else◌, arith,
}
use prellblock.Api.Account.{Time}

-- The eight big-endian bytes of an `i64`, as the number that they spell: its bit pattern.
abbrev pub TimeKey : Type 0
TimeKey = ℕ

-- `SystemTime::UNIX_EPOCH` on the scale of `Time`.
module _ (unix_epoch : Time) where
  -- `as i64` keeps the low 64 bits; the negation of an `i64` is that of its bit pattern.
  unfoldable pub system_time_to_bytes : Time → TimeKey
  system_time_to_bytes t =
      if leb unix_epoch t
      then (t - unix_epoch) % 2 ^ 64
      else (2 ^ 64 - (unix_epoch - t) % 2 ^ 64) % 2 ^ 64

  -- `none` is a panic: the time is before all that can be written.
  unfoldable pub system_time_from_bytes : TimeKey → Option Time
  system_time_from_bytes bytes =
      if ltb bytes (2 ^ 63)
      then some (unix_epoch + bytes)
      else if leb (2 ^ 64 - bytes) unix_epoch
      then some (unix_epoch - (2 ^ 64 - bytes))
      else none

  -- A time within 2^63 nanoseconds of the epoch, about 292 years, is read as it was written.
  pub system_time_from_bytes-system_time_to_bytes :
      (t : Time)
      → unix_epoch ≤ t + 2 ^ 63
      → t < unix_epoch + 2 ^ 63
      → system_time_from_bytes (system_time_to_bytes t) ≡ some t
  unfolding system_time_to_bytes system_time_from_bytes
  system_time_from_bytes-system_time_to_bytes t h k = ground arith

  -- The keys of such times are in the order of the times if both are on one side of the epoch, but those
  -- before it come after all others.
  pub order-system_time_to_bytes :
      (t u : Time)
      → unix_epoch ≤ t + 2 ^ 63
      → t < u
      → u < unix_epoch + 2 ^ 63
      → (unix_epoch ≤ t → system_time_to_bytes t < system_time_to_bytes u)
        × (u < unix_epoch → system_time_to_bytes t < system_time_to_bytes u)
        × (t < unix_epoch → unix_epoch ≤ u → system_time_to_bytes u < system_time_to_bytes t)
  unfolding system_time_to_bytes
  order-system_time_to_bytes t u a b c = (λ d. ground arith, λ d. ground arith, λ d e. ground arith)
