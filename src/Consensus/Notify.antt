-- ===== src/Consensus/Notify.antt =====
-- prellblock/src/consensus/praftbft/notify.rs: tasks that wait until a block number is reached.
pub mod Slab
pub mod Entries
mod Steps
pub mod Runs
mod Tests
use prellblock.Prelude.{
  ℕ, zero, suc, ◌==◌, Bool, true, false, List, [], ◌∷◌, ◌++◌, Option, none, some, if◌then◌else◌,
}
use prellblock.Prelude.Map
use prellblock.Prelude.Map.{Map}
use prellblock.Api.Block.{BlockNumber}
use prellblock.Consensus.Notify.Slab
use prellblock.Consensus.Notify.Slab.{Waker}

pub data Poll : Type 0 where
  ready pending : Poll

-- `index` is 0 if no waker is registered, and one more than its key otherwise: a slab never holds 2 ^ 64
-- entries.
pub record Wait : Type 0 where
  pub index : ℕ
  pub state : BlockNumber

-- `NotifyMap::wait`, and a clone of a `Wait`
abbrev pub wait : BlockNumber → Wait
wait state = record { index = 0; state = state }

module _ (slab : Slab.Slab) where
  open slab use {Wakers, entries, new, set, insert, remove, is_empty}

  abbrev pub NotifyMap : Type 0
  NotifyMap = Map Wakers

  -- the loop over the entries of a list, which takes each waker and wakes it
  pub wake_each : Map (Option Waker) → Wakers → List Waker × Wakers
  wake_each [] wakers = ([], wakers)
  wake_each ((key, none) ∷ l) wakers = wake_each l wakers
  wake_each ((key, some waker) ∷ l) wakers =
      let (woken, rest) = wake_each l (set key none wakers) in (waker ∷ woken, rest)

  abbrev pub notify_list : BlockNumber → NotifyMap → Option Wakers → List Waker × NotifyMap
  notify_list state m none = ([], m)
  notify_list state m (some wakers) =
      let (woken, wakers') = wake_each (entries wakers) wakers in
      (woken, Map.insert state wakers' m)

  unfoldable pub notify_all : BlockNumber → NotifyMap → List Waker × NotifyMap
  unfolding wake_each
  notify_all state m = notify_list state m (Map.find state m)

  -- `drop` of the `NotifyMap`; the tasks that wait keep the map alive.
  pub close : NotifyMap → List Waker × NotifyMap
  unfolding wake_each
  close [] = ([], [])
  close ((state, wakers) ∷ m) =
      let (woken, wakers') = wake_each (entries wakers) wakers in
      let (others, m') = close m in (woken ++ others, (state, wakers') ∷ m')

  -- `none` is a panic.
  abbrev pub Polled : Type 0
  Polled = Option (Poll × (Wait × NotifyMap))

  -- the entry of a waker that is registered
  abbrev pub poll_entry : Waker → Wait → NotifyMap → ℕ → Wakers → Option (Option Waker) → Polled
  poll_entry waker w m index wakers none = none
  poll_entry waker w m index wakers (some none) = some (ready, (w, m))
  poll_entry waker w m index wakers (some (some old)) =
      if old == waker
      then some (pending, (w, m))
      else some (pending, (w, Map.insert w.state (set index (some waker) wakers) m))

  abbrev pub register : Waker → Wait → NotifyMap → Wakers → Polled
  register waker w m wakers =
      let (index, wakers') = insert (some waker) wakers in
      some (pending, (record w { index = suc index }, Map.insert w.state wakers' m))

  -- the `match`
  abbrev pub poll_in : Waker → Wait → NotifyMap → ℕ → Option Wakers → Polled
  poll_in waker w m (suc index) (some wakers) =
      poll_entry waker w m index wakers (Map.find index (entries wakers))
  poll_in waker w m (suc index) none = none
  poll_in waker w m zero (some wakers) = register waker w m wakers
  poll_in waker w m zero none = register waker w m new

  unfoldable pub poll : Waker → Wait → NotifyMap → Polled
  poll waker w m = poll_in waker w m w.index (Map.find w.state m)

  abbrev pub removed : Wait → NotifyMap → Option Wakers → Option NotifyMap
  removed w m none = none
  removed w m (some wakers) =
      some (if is_empty wakers then Map.remove w.state m else Map.insert w.state wakers m)

  abbrev pub drop_in : Wait → NotifyMap → ℕ → Option Wakers → Option NotifyMap
  drop_in w m zero found = some m
  drop_in w m (suc index) none = none
  drop_in w m (suc index) (some wakers) = removed w m (remove index wakers)

  -- `drop` of a `Wait`; `none` is the panic of `unwrap`, or of the slab.
  unfoldable pub drop : Wait → NotifyMap → Option NotifyMap
  drop w m = drop_in w m w.index (Map.find w.state m)
