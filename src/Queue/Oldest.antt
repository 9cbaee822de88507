-- ===== src/Queue/Oldest.antt =====
-- Whatever is done to a queue, its first entry is the oldest one.
use prellblock.Prelude.{ℕ, ◌≤◌, ◌≡◌, Bool, List, [], ◌∷◌, some, subst, arith}
use prellblock.Queue.{Entry, Queue, empty, insert, peek, next, extend, remove, remove_all}
use prellblock.Queue.Order.{
  Rising, RisingItems, Rising-bounds, Rising-queue, Rising-insert, Rising-remove, Rising-remove_all,
}

module _ {T : Type 0} (eq : T → T → Bool) where
  -- One operation, from a clock that has reached `hi` to one that has reached `hi'`.
  pub data Step (hi : ℕ) (q : Queue T) : ℕ → Queue T → Type 0 where
    inserts : (now : ℕ) (item : T) → hi ≤ now → Step hi q now (insert now item q)
    extends : (hi' : ℕ) (ps : List (ℕ × T)) → RisingItems hi ps hi' → Step hi q hi' (extend ps q)
    nexts : Step hi q hi (next q).1
    removes : (item : T) → Step hi q hi (remove eq item q).1
    removes_all : (items : List T) → Step hi q hi (remove_all eq items q)

  pub data Reach : ℕ → Queue T → Type 0 where
    start : Reach 0 empty
    step : {hi hi' : ℕ} {q q' : Queue T} → Reach hi q → Step hi q hi' q' → Reach hi' q'

  Step-Rising :
      {hi hi' : ℕ} {q q' : Queue T}
      → Step hi q hi' q'
      → Rising 0 q.entries hi
      → Rising 0 q'.entries hi'
  Step-Rising {hi} {hi'} {q} (inserts now item l) h = Rising-insert 0 hi now item q l h
  Step-Rising {hi} {hi'} {q} (extends m ps k) h = (Rising-queue 0 hi m q ps h k).0
  Step-Rising {hi} {hi'} {q} nexts h = (Rising-queue 0 hi hi q [] h (omega arith)).1
  Step-Rising {hi} {hi'} {q} (removes item) h = Rising-remove eq 0 hi item q h
  Step-Rising {hi} {hi'} {q} (removes_all items) h = Rising-remove_all eq 0 hi items q h

  Reach-Rising : {hi : ℕ} {q : Queue T} → Reach hi q → Rising 0 q.entries hi
  Reach-Rising start = omega arith
  Reach-Rising (step r s) = Step-Rising s (Reach-Rising r)

module _ {T : Type 0} where
  abbrev pub NotBefore : ℕ → List (Entry T) → Type 0
  NotBefore t [] = Unit
  NotBefore t (e ∷ es) = (t ≤ e.inserted) × NotBefore t es

  Rising-NotBefore : (t lo hi : ℕ) (es : List (Entry T)) → t ≤ lo → Rising lo es hi → NotBefore t es
  Rising-NotBefore t lo hi [] l h = tt
  Rising-NotBefore t lo hi (e ∷ es) l h =
      (omega arith, Rising-NotBefore t e.inserted hi es (omega arith) h.1)

-- In a queue that any operations have made of the empty one, `peek` shows an entry that was inserted
-- no later than any other, and not after the present.
pub peek-NotBefore :
    {T : Type 0} (eq : T → T → Bool) {hi : ℕ} {q : Queue T} (e : Entry T)
    → Reach eq hi q
    → peek q ≡ some e
    → NotBefore e.inserted q.entries × (e.inserted ≤ hi)
unfolding peek
peek-NotBefore {T} eq {hi} {q} e r h = go q.entries (Reach-Rising eq r) h
  where
    go :
        (es : List (Entry T))
        → Rising 0 es hi
        → peek (record { entries = es }) ≡ some e
        → NotBefore e.inserted es × (e.inserted ≤ hi)
    go [] u k = cc
    go (f ∷ es) u k =
        let p : f ≡ e = cc in
        subst (λ (x : Entry T). NotBefore x.inserted (f ∷ es) × (x.inserted ≤ hi)) p
          (
            Rising-NotBefore f.inserted f.inserted hi (f ∷ es) (omega arith) (omega arith, u.1),
            Rising-bounds f.inserted hi es u.1,
          )
