-- ===== src/RingBuffer/Access.antt =====
-- What `get` and `get_mut` return, on every index.
use prellblock.Prelude.{
  ℕ, ◌+◌, ◌%◌, ◌^◌, ◌≤◌, ◌<◌, ◌≡◌, ◌≢◌, Option, some, length, get_elem?, set, get_elem?_in_range,
  get_elem?-set_self, get_elem?-set_ne, length-set, ltb, ◌==◌, if◌then◌else◌, ok, err, or_panic,
  arith,
}
use prellblock.RingBuffer.{RingBuffer, ringbuffer_underflow, ringbuffer_overflow, get, get_mut}
use native.Mathlib.Decide.{ℕ_discrete}
use prellblock.RingBuffer.Arith.{mod-ne}

-- The buffer holds an item, and its window ends before the indices wrap.
pub record IsValid {T : Type 0} (r : RingBuffer T) : Type 0 where
  pub holds : 0 < length r.items
  pub fits : r.start + length r.items < 2 ^ 64

module _ {T : Type 0} where
  -- the place that stands for an index of the window
  abbrev pub slot : RingBuffer T → ℕ → Option T
  slot r i = get_elem? r.items (i % length r.items)

  pub slot_in_range : {r : RingBuffer T} (i : ℕ) → IsValid r → (a : T) × (slot r i ≡ some a)
  slot_in_range {r} i v = get_elem?_in_range r.items (i % length r.items) (grind (arith, v.holds))

  pub get_lem :
      {r : RingBuffer T} (i : ℕ)
      → IsValid r
      → get r i ≡ (
          if ltb i r.start
          then err (ringbuffer_underflow i)
          else if ltb i (r.start + length r.items)
          then or_panic (slot r i)
          else err (ringbuffer_overflow i))
  unfolding get
  get_lem {r} i v = ground arith

  pub get_in_window :
      {r : RingBuffer T} (i : ℕ)
      → IsValid r
      → r.start ≤ i
      → i < r.start + length r.items
      → get r i ≡ or_panic (slot r i)
  unfolding get
  get_in_window {r} i v h k = ground arith

  -- the buffer with another item at an index of its window
  abbrev pub written : RingBuffer T → ℕ → T → RingBuffer T
  written r i y = record r { items = set r.items (i % length r.items) y }

  pub get_mut_in_window :
      {r : RingBuffer T} (i : ℕ)
      → IsValid r
      → r.start ≤ i
      → i < r.start + length r.items
      → (a : T) × (get r i ≡ ok a) × (get_mut r i ≡ ok (a, written r i))
  unfolding get get_mut
  get_mut_in_window {r} i v h k = let (a, e) = slot_in_range i v in (a, ground arith, ground arith)

  pub written-IsValid : (r : RingBuffer T) (i : ℕ) (y : T) → IsValid r → IsValid (written r i y)
  written-IsValid r i y v = record {
    holds = omega (arith, v.holds, length-set r.items (i % length r.items) y);
    fits = omega (arith, v.fits, length-set r.items (i % length r.items) y);
  }

  pub length-written :
      (r : RingBuffer T) (i : ℕ) (y : T) → length (written r i y).items ≡ length r.items
  length-written r i y = length-set r.items (i % length r.items) y

  -- Outside the window there is nothing to read or to write.
  pub get_mut_outside :
      {r : RingBuffer T} (i : ℕ)
      → IsValid r
      → (i < r.start → get_mut r i ≡ err (ringbuffer_underflow i))
        × (r.start + length r.items ≤ i → get_mut r i ≡ err (ringbuffer_overflow i))
  unfolding get_mut
  get_mut_outside {r} i v = (λ h. ground arith, λ h. ground arith)

  pub get-written_self :
      (r : RingBuffer T) (i : ℕ) (y : T)
      → IsValid r
      → r.start ≤ i
      → i < r.start + length r.items
      → get (written r i y) i ≡ ok y
  unfolding get
  get-written_self r i y v h k = ground (
    arith,
    length-set r.items (i % length r.items) y,
    get_elem?-set_self r.items (i % length r.items) y,
  )

  pub get-written_ne :
      (r : RingBuffer T) (i j : ℕ) (y : T)
      → IsValid r
      → r.start ≤ i
      → i < r.start + length r.items
      → i ≢ j
      → get (written r i y) j ≡ get r j
  unfolding get
  get-written_ne r i j y v h k ne = ground (
    arith,
    length-set r.items (i % length r.items) y,
    get_elem?-set_ne r.items (i % length r.items) (j % length r.items) y,
    mod-ne (length r.items) i j,
    mod-ne (length r.items) j i,
  )

  -- Every index of the window can be read and, through `get_mut`, written: the item that is written is
  -- read at this index afterwards, and every other index reads as before.
  pub get-get_mut :
      (r : RingBuffer T) (i j : ℕ) (y : T)
      → IsValid r
      → r.start ≤ i
      → i < r.start + length r.items
      → (a : T) × (write : T → RingBuffer T) × (get r i ≡ ok a)
        × (get_mut r i ≡ ok (a, write))
        × (get (write y) j ≡ (if i == j then ok y else get r j))
  get-get_mut r i j y v h k =
      let (a, g, e) = get_mut_in_window i v h k in
      (
        a,
        written r i,
        g,
        e,
        elim (ℕ_discrete i j) [
          | yes same ↦ ground (arith, get-written_self r i y v h k)
          | no ne ↦ ground (arith, get-written_ne r i j y v h k ne)
        ],
      )
