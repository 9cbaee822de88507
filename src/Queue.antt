-- ===== src/Queue.antt =====
-- prellblock/src/consensus/praftbft/queue.rs: items with the time of their insertion.
pub mod Order
pub mod Oldest
pub mod Removal
mod Tests
use prellblock.Prelude.{
  ℕ, zero, suc, List, [], ◌∷◌, ◌++◌, map, Option, none, some, Bool, true, false, length,
  if◌then◌else◌,
}

-- `Instant` is a number of ticks of the monotonic clock.
pub record Entry (T : Type 0) : Type 0 where
  pub inserted : ℕ
  pub item : T

pub record Queue (T : Type 0) : Type 0 where
  pub entries : List (Entry T)

module _ {T : Type 0} where
  abbrev pub empty : Queue T
  empty = record { entries = [] }

  -- `Entry::new` at the time `now`
  abbrev pub entry_at : ℕ → T → Entry T
  entry_at now item = record { inserted = now; item = item }

  unfoldable pub insert : ℕ → T → Queue T → Queue T
  insert now item q = record { entries = q.entries ++ (entry_at now item ∷ []) }

  abbrev pub len : Queue T → ℕ
  len q = length q.entries

  abbrev front : List (Entry T) → Option (Entry T)
  front [] = none
  front (e ∷ es) = some e

  unfoldable pub peek : Queue T → Option (Entry T)
  peek q = front q.entries

  abbrev pop_front : List (Entry T) → Option (Entry T) × List (Entry T)
  pop_front [] = (none, [])
  pop_front (e ∷ es) = (some e, es)

  abbrev item_of : Option (Entry T) → Option T
  item_of none = none
  item_of (some e) = some e.item

  -- `Iterator::next`
  unfoldable pub next : Queue T → Option T × Queue T
  next q = let (e, rest) = pop_front q.entries in (item_of e, record { entries = rest })

  -- Each item comes with the time at which `Entry::new` runs for it.
  unfoldable pub extend : List (ℕ × T) → Queue T → Queue T
  extend items q = record { entries = q.entries ++ map (λ (p : ℕ × T). entry_at p.0 p.1) items }

  -- `VecDeque::remove`
  abbrev remove_at : ℕ → List (Entry T) → Option (Entry T) × List (Entry T)
  remove_at i [] = (none, [])
  remove_at zero (e ∷ es) = (some e, es)
  remove_at (suc i) (e ∷ es) = let (r, rest) = remove_at i es in (r, e ∷ rest)

  -- The comparison is the `PartialEq` of the items.
  module _ (eq : T → T → Bool) where
    -- `iter().position(|entry| entry.item == *item)`
    position : T → List (Entry T) → Option ℕ
    position item [] = none
    position item (e ∷ es) =
        let later = position item es in
        if eq e.item item then some 0 else elim later [ none ↦ none | some i ↦ some (suc i) ]

    unfoldable pub remove : T → Queue T → Option T × Queue T
    unfolding position
    remove item q = elim (position item q.entries) [
      | none ↦ (none, q)
      | some i ↦ let (e, rest) = remove_at i q.entries in (item_of e, record { entries = rest })
    ]

    unfoldable pub remove_all : List T → Queue T → Queue T
    unfolding remove
    remove_all [] q = q
    remove_all (item ∷ items) q = remove_all items (remove item q).1
