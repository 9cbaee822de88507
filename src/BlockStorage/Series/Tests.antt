-- ===== src/BlockStorage/Series/Tests.antt =====
-- Tests of the queries, on a series of three values.
use prellblock.Prelude.{
  ℕ, ◌+◌, ◌≤◌, ◌≡◌, ◌≢◌, refl, List, [], ◌∷◌, length, none, some, Outcome, ok, panicked, arith,
}
use prellblock.Prelude.Map
use prellblock.Api.Query.{count, duration}
use prellblock.BlockStorage.{Stored, Error}
use prellblock.BlockStorage.Series.{Series, Item, skip_items, turn, collect}
use prellblock.BlockStorage.Series.Loop.{collect-total, collect-count}

abbrev stored : ℕ → Stored
stored n = (n ∷ [], 0, 0)

-- the last first
abbrev three_items : List Item
three_items = ok (30, stored 3) ∷ ok (20, stored 2) ∷ ok (10, stored 1) ∷ []

abbrev two_values : Series
two_values = (20, stored 2) ∷ (30, stored 3) ∷ []

last_two : collect 4 (count 2) none three_items [] ≡ some (ok two_values)
unfolding collect turn Map.insert Map.remove
last_two = refl

every_other :
    collect 4 (count 9) (some (count 1)) three_items []
    ≡ some (ok ((10, stored 1) ∷ (30, stored 3) ∷ []))
unfolding collect turn skip_items Map.insert Map.remove
every_other = refl

last_fifteen :
    collect 4 (duration 15) none three_items [] ≡ some (ok ((20, stored 2) ∷ (30, stored 3) ∷ []))
unfolding collect turn Map.insert Map.remove
last_fifteen = refl

-- Ten nanoseconds are the most that can be skipped.
collect-total_example :
    (r : Outcome Error Series) × (collect 4 (duration 15) (some (duration 10)) three_items []
      ≡ some r)
    × (r ≢ panicked)
collect-total_example =
    collect-total 4 (duration 15) (some (duration 10)) three_items [] (omega arith) (omega arith)
      (omega arith, (omega arith, (omega arith, tt)))

-- Before the earliest time there is none.
too_early : collect 4 (duration 15) none (ok (10, stored 1) ∷ []) [] ≡ some panicked
unfolding collect turn
too_early = refl

collect-count_example : length two_values ≤ 0 + 2
collect-count_example = collect-count 4 2 none three_items [] two_values last_two
