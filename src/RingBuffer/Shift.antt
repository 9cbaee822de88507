-- ===== src/RingBuffer/Shift.antt =====
-- How `increment`, `increment_to` and `decrement` move the window.
use prellblock.Prelude.{
  ℕ, zero, suc, ◌+◌, ◌-◌, ◌%◌, ◌^◌, ◌≤◌, ◌<◌, ◌≡◌, refl, some, length, set, get_elem?-set_self,
  get_elem?-set_ne, length-set, set-set_self, ◌∙◌, subst, ok, err, arith,
}
use prellblock.RingBuffer.{
  RingBuffer, ringbuffer_underflow, ringbuffer_overflow, get, increment, increment_to,
  increment_times, decrement,
}
use native.Mathlib.Decide.{dec_lt}
use prellblock.RingBuffer.Arith.{mod-ne, add-mod}
use prellblock.RingBuffer.Access.{IsValid, slot_in_range, get_lem}

-- The window of `r'` is the one of `r` without its first item and with `x` behind its last.
pub record Shifted {T : Type 0} (r : RingBuffer T) (x : T) (r' : RingBuffer T) : Type 0 where
  pub size : length r'.items ≡ length r.items
  pub start_next : r'.start ≡ r.start + 1
  pub below : (i : ℕ) → i ≤ r.start → get r' i ≡ err (ringbuffer_underflow i)
  pub kept : (i : ℕ) → r.start < i → i < r.start + length r.items → get r' i ≡ get r i
  pub new_last : get r' (r.start + length r.items) ≡ ok x
  pub above : (i : ℕ) → r.start + length r.items < i → get r' i ≡ err (ringbuffer_overflow i)

module _ {T : Type 0} where
  abbrev shifted : RingBuffer T → T → RingBuffer T
  shifted r x = record { items = set r.items (r.start % length r.items) x; start = r.start + 1 }

  shifted-IsValid :
      (r : RingBuffer T) (x : T)
      → IsValid r
      → r.start + 1 + length r.items < 2 ^ 64
      → IsValid (shifted r x)
  shifted-IsValid r x v room = record {
    holds = omega (arith, length-set r.items (r.start % length r.items) x);
    fits = omega (arith, length-set r.items (r.start % length r.items) x);
  }

  shifted-Shifted :
      (r : RingBuffer T) (x : T)
      → IsValid r
      → r.start + 1 + length r.items < 2 ^ 64
      → Shifted r x (shifted r x)
  shifted-Shifted r x v room = record {
    size = same;
    start_next = refl;
    below = λ i h. ground (arith, get_lem i v', same);
    kept = λ i h k. ground (
      arith,
      get_lem i v',
      get_lem i v,
      same,
      get_elem?-set_ne r.items (r.start % length r.items) (i % length r.items) x,
      mod-ne (length r.items) r.start i,
    );
    new_last = ground (
      arith,
      get_lem (r.start + length r.items) v',
      same,
      add-mod (length r.items) r.start,
      get_elem?-set_self r.items (r.start % length r.items) x,
    );
    above = λ i h. ground (arith, get_lem i v', same);
  }
    where
      v' : IsValid (shifted r x)
      v' = shifted-IsValid r x v room

      same : length (shifted r x).items ≡ length r.items
      same = length-set r.items (r.start % length r.items) x

  -- `increment` of a valid buffer returns the first item, and leaves a valid buffer whose window has
  -- moved by one: the first index is gone, the new item stands behind the last, all others are kept.
  pub increment_lem :
      (r : RingBuffer T) (x : T)
      → IsValid r
      → r.start + 1 + length r.items < 2 ^ 64
      → (old : T) × (r' : RingBuffer T) × (increment r x ≡ some (old, r'))
        × (get r r.start ≡ ok old)
        × IsValid r'
        × Shifted r x r'
  unfolding increment
  increment_lem r x v room =
      let (a, e) = slot_in_range r.start v in
      (
        a,
        shifted r x,
        ground arith,
        ground (arith, get_lem r.start v),
        shifted-IsValid r x v room,
        shifted-Shifted r x v room,
      )

  -- `decrement` takes back what `increment` did: with the item that `increment` returned it leaves
  -- the buffer as it was, and returns the item that `increment` brought in.
  pub decrement-increment :
      (r : RingBuffer T) (x : T)
      → IsValid r
      → r.start + 1 + length r.items < 2 ^ 64
      → (old : T) × (r' : RingBuffer T) × (increment r x ≡ some (old, r'))
        × (decrement r' old ≡ some (x, r))
  unfolding increment decrement
  decrement-increment r x v room =
      let (a, e) = slot_in_range r.start v in
      (
        a,
        shifted r x,
        ground arith,
        ground (
          arith,
          length-set r.items (r.start % length r.items) x,
          get_elem?-set_self r.items (r.start % length r.items) x,
          set-set_self r.items (r.start % length r.items) x a,
        ),
      )

-- The window of `r'` is that of `r` moved on by `n`, with `x` at every index that is new.
pub record Moved {T : Type 0} (n : ℕ) (r : RingBuffer T) (x : T) (r' : RingBuffer T) : Type 0 where
  pub size : length r'.items ≡ length r.items
  pub start_at : r'.start ≡ r.start + n
  pub kept : (i : ℕ) → r.start + n ≤ i → i < r.start + length r.items → get r' i ≡ get r i
  pub filled :
      (i : ℕ)
      → r.start + length r.items ≤ i
      → r.start + n ≤ i
      → i < r.start + n + length r.items
      → get r' i ≡ ok x

module _ {T : Type 0} where
  Moved-Shifted :
      (n : ℕ) (r s t : RingBuffer T) (x : T)
      → 0 < length r.items
      → Shifted r x s
      → Moved n s x t
      → Moved (suc n) r x t
  Moved-Shifted n r s t x pos a b = record {
    size = cc (a.size, b.size);
    start_at = omega (arith, a.start_next, b.start_at);
    kept = λ i h k.
        b.kept i (omega (arith, a.start_next)) (omega (arith, a.start_next, a.size))
        ∙ a.kept i (omega arith) k;
    filled = λ i h k l. elim (dec_lt i (s.start + length s.items)) [
      | yes p ↦
          b.kept i (omega (arith, a.start_next)) p
          ∙ subst (λ j. get s j ≡ ok x) (omega (arith, a.start_next, a.size)) a.new_last
      | no p ↦
          b.filled i (omega arith) (omega (arith, a.start_next))
            (omega (arith, a.start_next, a.size))
    ];
  }

  increment_times_lem :
      (n : ℕ) (r : RingBuffer T) (x : T)
      → IsValid r
      → r.start + n + length r.items < 2 ^ 64
      → (r' : RingBuffer T) × (increment_times n r x ≡ some r') × IsValid r' × Moved n r x r'
  unfolding increment_times
  increment_times_lem zero r x v room = (
    r,
    refl,
    v,
    record {
      size = refl;
      start_at = omega arith;
      kept = λ i h k. refl;
      filled = λ i h k l. absurd (omega arith);
    },
  )
  increment_times_lem (suc n) r x v room =
      let (old, s, e, first, vs, sh) = increment_lem r x v (omega arith) in
      let (t, e', vt, mv) = increment_times_lem n s x vs (omega (arith, sh.start_next, sh.size)) in
      (t, rw (e, increment_times) e', vt, Moved-Shifted n r s t x v.holds sh mv)

  -- `increment_to index` of a valid buffer, at an index that is not before the window, leaves a valid
  -- buffer whose window starts at `index`: what both windows hold is kept, all else is the new item.
  pub increment_to_lem :
      (r : RingBuffer T) (index : ℕ) (x : T)
      → IsValid r
      → r.start ≤ index
      → index + length r.items < 2 ^ 64
      → (r' : RingBuffer T) × (increment_to r index x ≡ some r')
        × IsValid r'
        × (r'.start ≡ index)
        × Moved (index - r.start) r x r'
  unfolding increment_to
  increment_to_lem r index x v h room =
      let (t, e, vt, mv) = increment_times_lem (index - r.start) r x v (omega arith) in
      (t, e, vt, omega (arith, mv.start_at), mv)
