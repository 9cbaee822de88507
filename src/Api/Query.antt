-- ===== src/Api/Query.antt =====
-- The queries of prellblock-client-api/src/lib.rs: which keys, which blocks, and which values of a series.
use Prim.Native.String.{String}
use prellblock.Prelude.{ℕ, List, Option}
use prellblock.Pinxit.{PeerId}
use prellblock.Api.Account.{Time}
use prellblock.Api.Block.{BlockNumber}

-- `std::ops::Bound`
pub data Bound (T : Type 0) : Type 0 where
  included excluded : T → Bound T
  unbounded : Bound T

pub data Filter (T : Type 0) : Type 0 where
  exact : T → Filter T
  -- the start, and the end, which does not belong to the range
  range : T → T → Filter T
  range_from : T → Filter T

module _ {T : Type 0} where
  unfoldable pub start_bound : Filter T → Bound T
  start_bound (exact value) = included value
  start_bound (range start end) = included start
  start_bound (range_from value) = included value

  unfoldable pub end_bound : Filter T → Bound T
  end_bound (exact value) = included value
  end_bound (range start end) = excluded end
  end_bound (range_from value) = unbounded

  -- `From<T>`, `From<Range<T>>` and `From<RangeFrom<T>>`
  abbrev pub from_value : T → Filter T
  from_value v = exact v

  abbrev pub from_range : T → T → Filter T
  from_range start end = range start end

  abbrev pub from_range_from : T → Filter T
  from_range_from start = range_from start

-- `From<RangeFull> for Filter<String>`
abbrev pub from_range_full : Filter String
from_range_full = range_from ""

-- `Duration`, in nanoseconds
abbrev pub Duration : Type 0
Duration = ℕ

pub data Span : Type 0 where
  count : ℕ → Span
  time : Time → Span
  duration : Duration → Span

pub data Query : Type 0 where
  current_value all_values : Query
  -- the span, the end, and what is skipped
  range : Span → Span → Option Span → Query

pub record GetValue : Type 0 where
  pub peer_ids : List PeerId
  pub filter : Filter String
  pub query : Query

pub record GetAccount : Type 0 where
  pub peer_ids : List PeerId

pub record GetBlock : Type 0 where
  pub filter : Filter BlockNumber

pub record GetCurrentBlockNumber : Type 0 where
