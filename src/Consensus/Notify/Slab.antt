-- ===== src/Consensus/Notify/Slab.antt =====
-- The crate slab, on which prellblock/src/consensus/praftbft/notify.rs stands and which is not part of
-- the repository: wakers under keys that the slab chooses.
use prellblock.Prelude.{ℕ, ◌≡◌, ◌==◌, Bool, true, [], Option, none, some, if◌then◌else◌}
use prellblock.Prelude.Map
use prellblock.Prelude.Map.{Map}

-- A waker is the number of the task that it wakes.
abbrev pub Waker : Type 0
Waker = ℕ

-- `Slab<Option<Waker>>`
pub record Slab : Type 1 where
  pub Wakers : Type 0
  -- what an iteration meets
  pub entries : Wakers → Map (Option Waker)
  pub new : Wakers
  -- the assignment to an entry
  pub set : ℕ → Option Waker → Wakers → Wakers
  pub insert : Option Waker → Wakers → ℕ × Wakers
  -- `none` is the panic for a key without an entry.
  pub remove : ℕ → Wakers → Option Wakers
  pub is_empty : Wakers → Bool
  pub entries-new : entries new ≡ []
  pub find-set :
      (k j : ℕ) (v a : Option Waker) (s : Wakers)
      → Map.find k (entries s) ≡ some a
      → Map.find j (entries (set k v s)) ≡ (if k == j then some v else Map.find j (entries s))
  -- A key that is given out was free.
  pub find-insert_none :
      (v : Option Waker) (s : Wakers) → Map.find (insert v s).0 (entries s) ≡ none
  pub find-insert :
      (j : ℕ) (v : Option Waker) (s : Wakers)
      → Map.find j (entries (insert v s).1)
        ≡ (if (insert v s).0 == j then some v else Map.find j (entries s))
  pub remove-total :
      (k : ℕ) (a : Option Waker) (s : Wakers)
      → Map.find k (entries s) ≡ some a
      → (s' : Wakers) × (remove k s ≡ some s')
  pub find-remove :
      (k j : ℕ) (s s' : Wakers)
      → remove k s ≡ some s'
      → Map.find j (entries s') ≡ (if k == j then none else Map.find j (entries s))
  pub entries-is_empty : (s : Wakers) → is_empty s ≡ true → entries s ≡ []
