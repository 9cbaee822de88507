-- ===== src/BlockStorage/Series.antt =====
-- How values are read: `read_transactions`, `read_transactions_inner` and `read_time_series` of
-- prellblock/src/block_storage/mod.rs.
pub mod Loop
pub mod Permitted
mod Tests
use Prim.Native.String.{String}
use prellblock.Prelude.{
  ℕ, zero, suc, ◌-◌, ltb, leb, ◌==◌, ◌++◌, List, [], ◌∷◌, map, length, Option, none, some, Bool,
  if◌then◌else◌, Outcome, ok, err, panicked, ◌>>=◌, or_panic,
}
use prellblock.Prelude.Map
use prellblock.Prelude.Map.{Map}
use prellblock.Pinxit.{PeerId, Bytes}
use prellblock.Api.Account.{Time}
use prellblock.Api.Query.{
  Bound, included, excluded, unbounded, Filter, start_bound, end_bound, Duration, Span, count, time,
  duration, Query, current_value, all_values,
}
use mathlib.Core.List.{reverse}
use prellblock.TransactionChecker.{AccountChecker, is_allowed_to_read_key}
use prellblock.BlockStorage.Sled
use prellblock.BlockStorage.Times.{system_time_to_bytes, system_time_from_bytes}
use prellblock.BlockStorage.{Error, encoding, Stored, Codec, or_error, next_back, BlockStorage}

abbrev pub map_bound : {T U : Type 0} → (T → U) → Bound T → Bound U
map_bound f (included v) = included (f v)
map_bound f (excluded v) = excluded (f v)
map_bound f unbounded = unbounded

-- `ReadValuesOfSeries`, by the time at which a value was written
abbrev pub Series : Type 0
Series = Map Stored

abbrev pub Item : Type 0
Item = Outcome Error (Time × Stored)

-- `SystemTime - Duration`, which panics before the earliest time
abbrev pub sub_duration : Time → Duration → Option Time
sub_duration t d = if leb d t then some (t - d) else none

-- The `for` loops that skip a number of items; the end of the items is no error.
pub skip_items : ℕ → List Item → Outcome Error (List Item)
skip_items zero l = ok l
skip_items (suc n) [] = ok []
skip_items (suc n) (o ∷ l) = do skipped ← o; skip_items n l

-- the `while let` loop over `peek`
pub skip_until : Time → List Item → List Item
skip_until skip_to [] = []
skip_until skip_to (err e ∷ l) = err e ∷ l
skip_until skip_to (panicked ∷ l) = panicked ∷ l
skip_until skip_to (ok (key, value) ∷ l) =
    let rest = skip_until skip_to l in if ltb key skip_to then ok (key, value) ∷ l else rest

-- the `match` on the span: nothing is a `break`
abbrev pub step_span : Span → Time → Outcome Error (Option Span)
step_span (count n) key = ok (if n == 0 then none else some (count (n - 1)))
step_span (time t) key = ok (if ltb key t then none else some (time t))
step_span (duration d) key = do t ← or_panic (sub_duration key d); ok (some (time t))

-- the `match` on what is skipped
abbrev pub skip_after : Option Span → Time → List Item → Outcome Error (List Item)
skip_after none key l = ok l
skip_after (some (count n)) key l = skip_items n l
skip_after (some (time t)) key l = ok l
skip_after (some (duration d)) key l = do t ← or_panic (sub_duration key d); ok (skip_until t l)

-- what one turn of the loop has read, and what it leaves
pub record Turn : Type 0 where
  pub key : Time
  pub value : Stored
  pub span : Span
  pub rest : List Item

abbrev pub turn_with :
    Time × Stored → Option Span → List Item → Option Span → Outcome Error (Option Turn)
turn_with (key, value) skip l none = ok none
turn_with (key, value) skip l (some span) = do
  rest ← skip_after skip key l
  ok (some (record { key = key; value = value; span = span; rest = rest }))

unfoldable pub turn : Span → Option Span → Item → List Item → Outcome Error (Option Turn)
unfolding skip_items skip_until
turn span skip o l = do entry ← o; span' ← step_span span entry.0; turn_with entry skip l span'

-- The loop over the items, the last first, on fuel; `none` if that runs out.
unfoldable pub collect : ℕ → Span → Option Span → List Item → Series → Option (Outcome Error Series)
collect zero span skip l transactions = none
collect (suc fuel) span skip [] transactions = some (ok transactions)
collect (suc fuel) span skip (o ∷ l) transactions = elim (turn span skip o l) [
  | err e ↦ some (err e)
  | panicked ↦ some panicked
  | ok none ↦ some (ok transactions)
  | ok (some t) ↦ collect fuel t.span skip t.rest (Map.insert t.key t.value transactions)
]

-- the number of items that the end skips, and the upper bound of the times
abbrev pub skip_end : Span → ℕ
skip_end (count n) = n
skip_end other = 0

abbrev pub end_of : Time → Span → Outcome Error (Bound Time)
end_of now (count n) = ok unbounded
end_of now (time t) = ok (excluded t)
end_of now (duration d) = do t ← or_panic (sub_duration now d); ok (excluded t)

-- `collect` with enough fuel
abbrev pub collected : Option (Outcome Error Series) → Outcome Error Series
collected none = panicked
collected (some r) = r

abbrev pub insert_last : Option Item → Outcome Error Series
insert_last none = ok []
insert_last (some o) = do entry ← o; ok (Map.insert entry.0 entry.1 [])

pub insert_all : List Item → Series → Outcome Error Series
insert_all [] transactions = ok transactions
insert_all (o ∷ l) transactions = do
  entry ← o
  insert_all l (Map.insert entry.0 entry.1 transactions)

-- the `match` on the query, on what `read_time_series` gives for an upper bound
unfoldable pub read_transactions_inner :
    Time → (Bound Time → List Item) → Query → Outcome Error Series
unfolding insert_all collect skip_items
read_transactions_inner now series current_value = insert_last (next_back (series unbounded))
read_transactions_inner now series all_values = insert_all (series unbounded) []
read_transactions_inner now series (Query.range span end skip) = do
  bound ← end_of now end
  items ← skip_items (skip_end end) (reverse (series bound))
  collected (collect (suc (length items)) span skip items [])

module _ (before : String → String → Bool) (numbers : Sled.Sled ℕ ltb)
    (names : Sled.Sled String before) (codec : Codec) where
  abbrev pub read_entry : ℕ × Bytes → Item
  read_entry (key, value) = do
    t ← or_panic (system_time_from_bytes codec.unix_epoch key)
    v ← or_error encoding (codec.decode_value value)
    ok (t, v)

  -- `read_time_series`, from the start to an upper bound
  unfoldable pub read_time_series :
      PeerId → String → BlockStorage before numbers names codec → Bound Time → List Item
  read_time_series peer_id key s end = map read_entry (
      numbers.range unbounded (map_bound (system_time_to_bytes codec.unix_epoch) end)
        (s.series peer_id key))

  -- the closure of `filter_map`, over the keys
  unfoldable pub read_keys :
      Time
      → AccountChecker
      → PeerId
      → Query
      → BlockStorage before numbers names codec
      → List (String × Bytes)
      → Outcome Error (List (String × Series))
  unfolding read_transactions_inner read_time_series
  read_keys now checker peer_id query s [] = ok []
  read_keys now checker peer_id query s ((key, empty) ∷ keys) =
      let rest = read_keys now checker peer_id query s keys in
      if is_allowed_to_read_key checker peer_id key
      then (do
        transactions ← read_transactions_inner now (read_time_series peer_id key s) query
        more ← rest
        ok ((key, transactions) ∷ more))
      else rest

  -- `read_transactions`; the keys of a tree differ, so the list stands for the `HashMap`.
  unfoldable pub read_transactions :
      Time
      → AccountChecker
      → PeerId
      → Filter String
      → Query
      → BlockStorage before numbers names codec
      → Outcome Error (List (String × Series))
  unfolding read_keys
  read_transactions now checker peer_id filter query s =
      read_keys now checker peer_id query s
        (names.range (start_bound filter) (end_bound filter) (s.keys peer_id))
