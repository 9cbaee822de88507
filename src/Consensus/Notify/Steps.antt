-- ===== src/Consensus/Notify/Steps.antt =====
-- What a poll and a drop leave of the wakers that are registered.
use prellblock.Prelude.{
  ℕ, zero, suc, ◌≡◌, refl, sym, ◌∙◌, ap, subst, ◌==◌, Bool, true, false, Option, none, some,
  if◌then◌else◌, Bool-cases, inl, inr, ==_iff, ==_refl, arith,
}
use prellblock.Prelude.Map
use prellblock.Api.Block.{BlockNumber}
use prellblock.Consensus.Notify.Slab
use prellblock.Consensus.Notify.Slab.{Waker}
use prellblock.Consensus.Notify.{
  Poll, ready, pending, Wait, NotifyMap, poll, poll_in, poll_entry, register, drop, drop_in,
  removed,
}
use prellblock.Consensus.Notify.Entries.{entry, entry_in, entry-insert}

module _ (slab : Slab.Slab) where
  open slab use {
    Wakers, entries, new, set, insert, remove, is_empty, entries-new, find-set, find-insert_none,
    find-insert, remove-total, find-remove, entries-is_empty,
  }

  -- The waker that a task has registered is in the map.
  abbrev pub Registered : Wait → NotifyMap slab → Type 0
  Registered w m =
      (k : ℕ) → w.index ≡ suc k → (a : Option Waker) × (entry slab w.state k m ≡ some a)

  -- no entry of a registered task is that of another
  abbrev pub Apart : Wait → Wait → Type 0
  Apart v w = (k : ℕ) → v.index ≡ suc k → w.index ≡ suc k → (v.state == w.state) ≡ false

  -- A list that keeps its entries is put back.
  insert-kept :
      (state : BlockNumber) (s' : Wakers) (m : NotifyMap slab) (o : Option Wakers)
      → Map.find state m ≡ o
      → ((k : ℕ) (a : Option Waker)
          → entry_in slab k o ≡ some a
          → (b : Option Waker) × (Map.find k (entries s') ≡ some b))
      → (v : Wait) → Registered v m
      → Registered v (Map.insert state s' m)
  insert-kept state s' m o e f v r k h =
      let (a, g) = r k h in
      elim (Bool-cases (state == v.state)) [
        | inl i ↦
            let same = (==_iff state v.state).0 i in
            let (b, c) =
              f k a (ap (entry_in slab k) (sym e) ∙ ap (λ t. entry slab t k m) same ∙ g) in
            (b, entry-insert slab state v.state k s' m ∙ ground arith)
        | inr n ↦ (a, entry-insert slab state v.state k s' m ∙ ground arith)
      ]

  -- What a poll leaves: the other tasks keep their entries.
  pub record PollsTo (waker : Waker) (w : Wait) (m : NotifyMap slab)
      (o : Option (Poll × (Wait × NotifyMap slab))) : Type 0 where
    pub answer : Poll
    pub after : Wait
    pub map' : NotifyMap slab
    pub is : o ≡ some (answer, (after, map'))
    pub registered : Registered after map'
    pub others : (v : Wait) → Registered v m → Apart w v → Registered v map' × Apart after v

  poll_entry-PollsTo :
      (waker : Waker) (w : Wait) (m : NotifyMap slab) (k : ℕ) (s : Wakers) (a : Option Waker)
      → Registered w m
      → w.index ≡ suc k
      → Map.find w.state m ≡ some s
      → Map.find k (entries s) ≡ some a
      → PollsTo waker w m (poll_entry slab waker w m k s (some a))
  poll_entry-PollsTo waker w m k s none r x e f = record {
    answer = ready;
    after = w;
    map' = m;
    is = refl;
    registered = r;
    others = λ v q d. (q, d);
  }
  poll_entry-PollsTo waker w m k s (some old) r x e f = go (old == waker)
    where
      stays :
          (j : ℕ) (a : Option Waker)
          → Map.find j (entries s) ≡ some a
          → (b : Option Waker) × (Map.find j (entries (set k (some waker) s)) ≡ some b)
      stays j a h = elim (Bool-cases (k == j)) [
        | inl i ↦ (some waker, find-set k j (some waker) (some old) s f ∙ ground arith)
        | inr n ↦ (a, find-set k j (some waker) (some old) s f ∙ ground arith)
      ]

      go :
          (b : Bool)
          → PollsTo waker w m (
              if b
              then some (pending, (w, m))
              else some (pending, (w, Map.insert w.state (set k (some waker) s) m)))
      go true = record {
        answer = pending;
        after = w;
        map' = m;
        is = refl;
        registered = r;
        others = λ v q d. (q, d);
      }
      go false = record {
        answer = pending;
        after = w;
        map' = Map.insert w.state (set k (some waker) s) m;
        is = refl;
        registered = insert-kept w.state (set k (some waker) s) m (some s) e stays w r;
        others = λ v q d. (insert-kept w.state (set k (some waker) s) m (some s) e stays v q, d);
      }

  register-PollsTo :
      (waker : Waker) (w : Wait) (m : NotifyMap slab) (s : Wakers) (o : Option Wakers)
      → Map.find w.state m ≡ o
      → ((j : ℕ) → entry_in slab j o ≡ Map.find j (entries s))
      → PollsTo waker w m (register slab waker w m s)
  register-PollsTo waker w m s o e same = record {
    answer = pending;
    after = record w { index = suc key };
    map' = Map.insert w.state s' m;
    is = refl;
    registered = λ j h. (
      some waker,
      entry-insert slab w.state w.state j s' m
          ∙ ground (arith, ==_refl w.state, ==_refl key, find-insert j (some waker) s),
    );
    others = λ v q d. (
      insert-kept w.state s' m o e stays v q,
      λ j x y. elim (Bool-cases (w.state == v.state)) [
        | inl i ↦
            let (a, g) = q j y in
            absurd (
              ground (
                arith,
                find-insert_none (some waker) s,
                same j,
                ap (entry_in slab j) (sym e)
                    ∙ ap (λ t. entry slab t j m) ((==_iff w.state v.state).0 i)
                    ∙ g,
              ))
        | inr n ↦ n
      ],
    );
  }
    where
      key : ℕ
      key = (insert (some waker) s).0

      s' : Wakers
      s' = (insert (some waker) s).1

      stays :
          (j : ℕ) (a : Option Waker)
          → entry_in slab j o ≡ some a
          → (b : Option Waker) × (Map.find j (entries s') ≡ some b)
      stays j a h = elim (Bool-cases (key == j)) [
        | inl i ↦ (some waker, find-insert j (some waker) s ∙ ground arith)
        | inr n ↦ (a, find-insert j (some waker) s ∙ ground (arith, same j))
      ]

  pub poll-PollsTo :
      (waker : Waker) (w : Wait) (m : NotifyMap slab)
      → Registered w m
      → PollsTo waker w m (poll slab waker w m)
  unfolding poll
  poll-PollsTo waker w m r = go w.index refl (Map.find w.state m) refl
    where
      go :
          (i : ℕ)
          → w.index ≡ i
          → (o : Option Wakers) → Map.find w.state m ≡ o
          → PollsTo waker w m (poll_in slab waker w m i o)
      go zero x none e =
          register-PollsTo waker w m new none e
            (λ j. sym (ap (Map.find j) entries-new ∙ Map.find-nil j))
      go zero x (some s) e = register-PollsTo waker w m s (some s) e (λ j. refl)
      go (suc k) x none e =
          let (a, g) = r k x in absurd (ground (arith, ap (entry_in slab k) (sym e) ∙ g))
      go (suc k) x (some s) e =
          let (a, g) = r k x in
          let f : Map.find k (entries s) ≡ some a = ap (entry_in slab k) (sym e) ∙ g in
          subst (λ b. PollsTo waker w m (poll_entry slab waker w m k s b)) (sym f)
            (poll_entry-PollsTo waker w m k s a r x e f)

  -- What a drop leaves of the other tasks.
  pub record DropsTo (w : Wait) (m : NotifyMap slab) (o : Option (NotifyMap slab)) : Type 0 where
    pub map' : NotifyMap slab
    pub is : o ≡ some map'
    pub others : (v : Wait) → Registered v m → Apart w v → Registered v map'

  removed-DropsTo :
      (w : Wait) (m : NotifyMap slab) (k : ℕ) (s s' : Wakers)
      → w.index ≡ suc k
      → Map.find w.state m ≡ some s
      → remove k s ≡ some s'
      → DropsTo w m (removed slab w m (some s'))
  removed-DropsTo w m k s s' x e f = record {
    map' = if is_empty s' then Map.remove w.state m else Map.insert w.state s' m;
    is = refl;
    others = λ v q d j y. go v q d j y (is_empty s') refl;
  }
    where
      -- the other tasks of the same number
      left :
          (v : Wait)
          → Registered v m
          → Apart w v
          → (j : ℕ) → v.index ≡ suc j
          → w.state ≡ v.state
          → (a : Option Waker) × (Map.find j (entries s') ≡ some a)
      left v q d j y i =
          let (a, g) = q j y in
          let h : Map.find j (entries s) ≡ some a =
            ap (entry_in slab j) (sym e) ∙ ap (λ t. entry slab t j m) i ∙ g in
          elim (Bool-cases (k == j)) [
            | inl n ↦ absurd (
                ground (
                  arith,
                  d k x (y ∙ ap suc (sym ((==_iff k j).0 n))),
                  ==_refl w.state,
                  ap (λ t. w.state == t) i,
                ))
            | inr n ↦ (a, find-remove k j s s' f ∙ ground arith)
          ]

      go :
          (v : Wait)
          → Registered v m
          → Apart w v
          → (j : ℕ) → v.index ≡ suc j
          → (b : Bool) → is_empty s' ≡ b
          → (a : Option Waker) × (entry slab v.state j
                (if b then Map.remove w.state m else Map.insert w.state s' m)
              ≡ some a)
      go v q d j y b z = elim (Bool-cases (w.state == v.state)) [
        | inl i ↦ let (a, h) = left v q d j y ((==_iff w.state v.state).0 i) in (a, same b z h i)
        | inr n ↦ let (a, h) = q j y in (a, other b n ∙ h)
      ]
        where
          same :
              {a : Option Waker} (b : Bool)
              → is_empty s' ≡ b
              → Map.find j (entries s') ≡ some a
              → (w.state == v.state) ≡ true
              → entry slab v.state j (if b then Map.remove w.state m else Map.insert w.state s' m)
                ≡ some a
          same true z h i =
              absurd (ground (arith, ap (Map.find j) (entries-is_empty s' z) ∙ Map.find-nil j))
          same false z h i = entry-insert slab w.state v.state j s' m ∙ ground arith

          other :
              (b : Bool)
              → (w.state == v.state) ≡ false
              → entry slab v.state j (if b then Map.remove w.state m else Map.insert w.state s' m)
                ≡ entry slab v.state j m
          other true n = ap (entry_in slab j) (Map.find-remove w.state v.state m ∙ ground arith)
          other false n = entry-insert slab w.state v.state j s' m ∙ ground arith

  pub drop-DropsTo : (w : Wait) (m : NotifyMap slab) → Registered w m → DropsTo w m (drop slab w m)
  unfolding drop
  drop-DropsTo w m r = go w.index refl (Map.find w.state m) refl
    where
      go :
          (i : ℕ)
          → w.index ≡ i
          → (o : Option Wakers) → Map.find w.state m ≡ o
          → DropsTo w m (drop_in slab w m i o)
      go zero x o e = record { map' = m; is = refl; others = λ v q d. q }
      go (suc k) x none e =
          let (a, g) = r k x in absurd (ground (arith, ap (entry_in slab k) (sym e) ∙ g))
      go (suc k) x (some s) e =
          let (a, g) = r k x in
          let (s', f) = remove-total k a s (ap (entry_in slab k) (sym e) ∙ g) in
          subst (λ o. DropsTo w m (removed slab w m o)) (sym f) (removed-DropsTo w m k s s' x e f)
