-- ===== src/RingBuffer.antt =====
-- prellblock/src/consensus/praftbft/ring_buffer.rs: the circular buffer over a window of indices.
-- An index is the `u64` that the index type converts to.
mod Arith
pub mod Access
pub mod Shift
mod Tests
use prellblock.Prelude.{
  ℕ, zero, suc, ◌-◌, ◌%◌, Option, none, some, List, length, get_elem?, set, replicate, ltb, ◌==◌,
  if◌then◌else◌, Outcome, ok, err, panicked, or_panic, ◌>>=◌, add_u64, sub_u64,
}

pub data Error : Type 0 where
  ringbuffer_underflow ringbuffer_overflow : ℕ → Error

pub record RingBuffer (T : Type 0) : Type 0 where
  pub items : List T
  pub start : ℕ

module _ {T : Type 0} where
  unfoldable pub new : T → ℕ → ℕ → RingBuffer T
  new default_item capacity start = record {
    items = replicate capacity default_item;
    start = start;
  }

  -- `end()`
  abbrev pub end_index : RingBuffer T → ℕ
  end_index r = add_u64 r.start (length r.items)

  -- `none` is the division by zero of an empty buffer.
  index2index_unchecked : RingBuffer T → ℕ → Option ℕ
  index2index_unchecked r index =
      if length r.items == 0 then none else some (index % length r.items)

  index2index : RingBuffer T → ℕ → Outcome Error ℕ
  unfolding index2index_unchecked
  index2index r index =
      if ltb index r.start
      then err (ringbuffer_underflow index)
      else if ltb index (end_index r)
      then or_panic (index2index_unchecked r index)
      else err (ringbuffer_overflow index)

  unfoldable pub get : RingBuffer T → ℕ → Outcome Error T
  unfolding index2index
  get r index = do i ← index2index r index; or_panic (get_elem? r.items i)

  -- A mutable reference: the item, and what a write through it makes of the buffer.
  unfoldable pub get_mut : RingBuffer T → ℕ → Outcome Error (T × (T → RingBuffer T))
  unfolding index2index
  get_mut r index = do
    i ← index2index r index
    item ← or_panic (get_elem? r.items i)
    ok (item, λ new_item. record r { items = set r.items i new_item })

  -- `mem::replace(self.first_mut(), new_item)`
  replace_first : RingBuffer T → T → Option (T × RingBuffer T)
  unfolding index2index_unchecked
  replace_first r new_item = elim (index2index_unchecked r r.start) [
    | none ↦ none
    | some i ↦ elim (get_elem? r.items i) [
      | none ↦ none
      | some old_item ↦ some (old_item, record r { items = set r.items i new_item })
    ]
  ]

  -- `none` is a panic.
  unfoldable pub increment : RingBuffer T → T → Option (T × RingBuffer T)
  unfolding replace_first
  increment r new_item = elim (replace_first r new_item) [
    | none ↦ none
    | some (old_item, r') ↦ some (old_item, record r' { start = add_u64 r'.start 1 })
  ]

  -- the rounds of the loop `for _ in start..index`
  increment_times : ℕ → RingBuffer T → T → Option (RingBuffer T)
  unfolding increment
  increment_times zero r new_item = some r
  increment_times (suc n) r new_item = elim (increment r new_item) [
    | none ↦ none
    | some (old_item, r') ↦ increment_times n r' new_item
  ]

  unfoldable pub increment_to : RingBuffer T → ℕ → T → Option (RingBuffer T)
  unfolding increment_times
  increment_to r index new_item = increment_times (index - r.start) r new_item

  unfoldable pub decrement : RingBuffer T → T → Option (T × RingBuffer T)
  unfolding replace_first
  decrement r new_item = replace_first (record r { start = sub_u64 r.start 1 }) new_item
