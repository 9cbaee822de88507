-- ===== src/Queue/Order.antt =====
-- The queue is in the order of insertion.
use prellblock.Prelude.{
  ℕ, zero, suc, ◌≤◌, ◌≡◌, refl, Bool, List, [], ◌∷◌, ◌++◌, map, Option, none, some, arith,
}
use prellblock.Queue.{
  Entry, Queue, entry_at, insert, next, extend, remove_at, position, remove, remove_all,
}

module _ {T : Type 0} where
  -- The times of insertion rise from the first bound to the second.
  abbrev pub Rising : ℕ → List (Entry T) → ℕ → Type 0
  Rising lo [] hi = lo ≤ hi
  Rising lo (e ∷ es) hi = (lo ≤ e.inserted) × Rising e.inserted es hi

  -- times that rise, as `Entry::new` reads them from the clock
  abbrev pub RisingItems : ℕ → List (ℕ × T) → ℕ → Type 0
  RisingItems lo [] hi = lo ≤ hi
  RisingItems lo (p ∷ ps) hi = (lo ≤ p.0) × RisingItems p.0 ps hi

  pub Rising-bounds : (lo hi : ℕ) (es : List (Entry T)) → Rising lo es hi → lo ≤ hi
  Rising-bounds lo hi [] h = h
  Rising-bounds lo hi (e ∷ es) h = omega (arith, Rising-bounds e.inserted hi es h.1)

  Rising-lower :
      (lo lo' hi : ℕ) (es : List (Entry T)) → lo' ≤ lo → Rising lo es hi → Rising lo' es hi
  Rising-lower lo lo' hi [] l h = omega arith
  Rising-lower lo lo' hi (e ∷ es) l h = (omega arith, h.1)

  Rising-extend :
      (lo hi hi' : ℕ) (es : List (Entry T)) (ps : List (ℕ × T))
      → Rising lo es hi
      → RisingItems hi ps hi'
      → Rising lo (es ++ map (λ (p : ℕ × T). entry_at p.0 p.1) ps) hi'
  Rising-extend lo hi hi' [] ps h k = start lo hi ps h k
    where
      start :
          (lo hi : ℕ) (ps : List (ℕ × T))
          → lo ≤ hi
          → RisingItems hi ps hi'
          → Rising lo (map (λ (p : ℕ × T). entry_at p.0 p.1) ps) hi'
      start lo hi [] h k = omega arith
      start lo hi (p ∷ ps) h k = (omega arith, start p.0 p.0 ps (omega arith) k.1)
  Rising-extend lo hi hi' (e ∷ es) ps h k = (h.0, Rising-extend e.inserted hi hi' es ps h.1 k)

  Rising-remove_at :
      (lo hi i : ℕ) (es : List (Entry T)) → Rising lo es hi → Rising lo (remove_at i es).1 hi
  Rising-remove_at lo hi i [] h = h
  Rising-remove_at lo hi zero (e ∷ es) h = Rising-lower e.inserted lo hi es h.0 h.1
  Rising-remove_at lo hi (suc i) (e ∷ es) h = (h.0, Rising-remove_at e.inserted hi i es h.1)

  -- A queue with rising times has them after `next` and after an `extend` whose times go on rising.
  pub Rising-queue :
      (lo hi hi' : ℕ) (q : Queue T) (ps : List (ℕ × T))
      → Rising lo q.entries hi
      → RisingItems hi ps hi'
      → Rising lo (extend ps q).entries hi' × Rising lo (next q).1.entries hi
  unfolding extend next
  Rising-queue lo hi hi' q ps h k = (Rising-extend lo hi hi' q.entries ps h k, popped q.entries h)
    where
      popped :
          (es : List (Entry T))
          → Rising lo es hi
          → Rising lo (next (record { entries = es })).1.entries hi
      popped [] h = h
      popped (e ∷ es) h = Rising-lower e.inserted lo hi es h.0 h.1

  pub Rising-insert :
      (lo hi now : ℕ) (item : T) (q : Queue T)
      → hi ≤ now
      → Rising lo q.entries hi
      → Rising lo (insert now item q).entries now
  unfolding insert
  Rising-insert lo hi now item q l h =
      Rising-extend lo hi now q.entries ((now, item) ∷ []) h (l, omega arith)

  module _ (eq : T → T → Bool) where
    pub Rising-remove :
        (lo hi : ℕ) (item : T) (q : Queue T)
        → Rising lo q.entries hi
        → Rising lo (remove eq item q).1.entries hi
    unfolding remove
    Rising-remove lo hi item q h = go (position eq item q.entries) refl
      where
        go :
            (o : Option ℕ)
            → position eq item q.entries ≡ o
            → Rising lo (remove eq item q).1.entries hi
        go none e = rw (e, remove) h
        go (some i) e = rw (e, remove) (Rising-remove_at lo hi i q.entries h)

    -- Whatever is removed, the times still rise.
    pub Rising-remove_all :
        (lo hi : ℕ) (items : List T) (q : Queue T)
        → Rising lo q.entries hi
        → Rising lo (remove_all eq items q).entries hi
    unfolding remove_all
    Rising-remove_all lo hi [] q h = h
    Rising-remove_all lo hi (item ∷ items) q h =
        Rising-remove_all lo hi items (remove eq item q).1 (Rising-remove lo hi item q h)
