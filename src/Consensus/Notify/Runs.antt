-- ===== src/Consensus/Notify/Runs.antt =====
-- Tasks that wait and are notified, in any order: nothing panics, and no notification is lost that comes
-- after a task has registered its waker.
use prellblock.Prelude.{
  ℕ, suc, ◌≡◌, refl, ◌∙◌, ap, subst, ◌==◌, Bool, true, false, List, [], ◌∷◌, Option, none, some,
  if◌then◌else◌, Bool-cases, inl, inr, ==_iff, ==_refl, arith,
}
use prellblock.Prelude.Map
use prellblock.Prelude.Sets.{contains}
use prellblock.Api.Block.{BlockNumber}
use prellblock.Consensus.Notify.Slab
use prellblock.Consensus.Notify.Slab.{Waker}
use prellblock.Consensus.Notify.{
  Poll, ready, Wait, wait, NotifyMap, notify_all, close, poll, poll_in, poll_entry, drop,
}
use prellblock.Consensus.Notify.Steps.{
  Registered, Apart, PollsTo, poll-PollsTo, DropsTo, drop-DropsTo,
}
use prellblock.Consensus.Notify.Entries.{
  entry, entry_in, notify_all-entry, notify_all-entry_ne, close-entry,
}

-- A task is polled with its waker; it drops what it waits for and waits for another number; a number is
-- reached; the map is dropped.
pub data Action : Type 0 where
  poll_task : ℕ → Waker → Action
  wait_for : ℕ → BlockNumber → Action
  reached : BlockNumber → Action
  closed : Action

module _ (slab : Slab.Slab) where
  -- the map, and for each task what it waits for
  pub record System : Type 0 where
    pub map : NotifyMap slab
    pub waits : ℕ → Wait

  abbrev pub with_wait : ℕ → Wait → System → System
  with_wait i w s = record s { waits = λ j. if i == j then w else s.waits j }

  abbrev pub polled : ℕ → System → Option (Poll × (Wait × NotifyMap slab)) → Option System
  polled i s none = none
  polled i s (some (p, (w, m))) = some (with_wait i w (record s { map = m }))

  abbrev pub waiting_for : ℕ → BlockNumber → System → Option (NotifyMap slab) → Option System
  waiting_for i state s none = none
  waiting_for i state s (some m) = some (with_wait i (wait state) (record s { map = m }))

  -- `none` is a panic.
  unfoldable pub step : Action → System → Option System
  step (poll_task i waker) s = polled i s (poll slab waker (s.waits i) s.map)
  step (wait_for i state) s = waiting_for i state s (drop slab (s.waits i) s.map)
  step (reached state) s = some (record s { map = (notify_all slab state s.map).1 })
  step closed s = some (record s { map = (close slab s.map).1 })

  unfoldable pub run : List Action → System → Option System
  unfolding step
  run [] s = some s
  run (a ∷ l) s = elim (step a s) [ none ↦ none | some s' ↦ run l s' ]

  -- nobody is registered
  abbrev pub start : System
  start = record { map = []; waits = λ i. wait 0 }

  pub record IsSound (s : System) : Type 0 where
    pub registered : (i : ℕ) → Registered slab (s.waits i) s.map
    pub apart : (i j : ℕ) → (i == j) ≡ false → Apart slab (s.waits i) (s.waits j)

  start-IsSound : IsSound start
  start-IsSound = record {
    registered = λ i k e. absurd (ground arith);
    apart = λ i j n k e f. absurd (ground arith);
  }

  -- A task changes, the others keep their entries.
  with_wait-IsSound :
      (i : ℕ) (w : Wait) (s : System) (m : NotifyMap slab)
      → IsSound s
      → Registered slab w m
      → ((j : ℕ) → (i == j) ≡ false → Registered slab (s.waits j) m × Apart slab w (s.waits j))
      → IsSound (with_wait i w (record s { map = m }))
  with_wait-IsSound i w s m c r f = record {
    registered = λ j. go j (i == j) refl;
    apart = λ j k n. two j k n (i == j) refl (i == k) refl;
  }
    where
      go : (j : ℕ) (b : Bool) → (i == j) ≡ b → Registered slab (if b then w else s.waits j) m
      go j true e = r
      go j false e = (f j e).0

      two :
          (j k : ℕ)
          → (j == k) ≡ false
          → (b : Bool) → (i == j) ≡ b
          → (c : Bool) → (i == k) ≡ c
          → Apart slab (if b then w else s.waits j) (if c then w else s.waits k)
      two j k n true e true g =
          absurd (ground (arith, (==_iff i j).0 e, (==_iff i k).0 g, ==_refl i))
      two j k n true e false g = (f k g).1
      two j k n false e true g = λ l x y. ground (arith, (f j e).1 l y x)
      two j k n false e false g = c.apart j k n

  -- a step that does not panic and leaves the map sound
  abbrev Goes : Option System → Type 0
  Goes o = (s' : System) × (o ≡ some s') × IsSound s'

  polled-Goes :
      (i : ℕ) (waker : Waker) (s : System) (o : Option (Poll × (Wait × NotifyMap slab)))
      → IsSound s
      → PollsTo slab waker (s.waits i) s.map o
      → Goes (polled i s o)
  polled-Goes i waker s o c p = (
    with_wait i p.after (record s { map = p.map' }),
    ap (polled i s) p.is,
    with_wait-IsSound i p.after s p.map' c p.registered
        (λ j n. p.others (s.waits j) (c.registered j) (c.apart i j n)),
  )

  waiting_for-Goes :
      (i : ℕ) (state : BlockNumber) (s : System) (o : Option (NotifyMap slab))
      → IsSound s
      → DropsTo slab (s.waits i) s.map o
      → Goes (waiting_for i state s o)
  waiting_for-Goes i state s o c d = (
    with_wait i (wait state) (record s { map = d.map' }),
    ap (waiting_for i state s) d.is,
    with_wait-IsSound i (wait state) s d.map' c (λ k e. absurd (ground arith))
        (λ j n.
          (d.others (s.waits j) (c.registered j) (c.apart i j n), λ k e f. absurd (ground arith))),
  )

  step-Goes : (a : Action) (s : System) → IsSound s → Goes (step a s)
  unfolding step
  step-Goes (poll_task i waker) s c =
      polled-Goes i waker s _ c (poll-PollsTo slab waker (s.waits i) s.map (c.registered i))
  step-Goes (wait_for i state) s c =
      waiting_for-Goes i state s _ c (drop-DropsTo slab (s.waits i) s.map (c.registered i))
  step-Goes (reached state) s c = (
    record s { map = (notify_all slab state s.map).1 },
    refl,
    record {
      registered = λ i k e.
          let (a, g) = c.registered i k e in
          elim (Bool-cases (state == (s.waits i).state)) [
            | inl same ↦ (
              none,
              subst (λ t. entry slab t k (notify_all slab state s.map).1 ≡ some none)
                  ((==_iff state (s.waits i).state).0 same)
                  (notify_all-entry slab state k a s.map (
                    ap (λ t. entry slab t k s.map) ((==_iff state (s.waits i).state).0 same)
                    ∙ g)).0,
            )
            | inr n ↦ (a, notify_all-entry_ne slab state (s.waits i).state k s.map n ∙ g)
          ];
      apart = c.apart;
    },
  )
  step-Goes closed s c = (
    record s { map = (close slab s.map).1 },
    refl,
    record {
      registered = λ i k e.
          let (a, g) = c.registered i k e in
          (none, (close-entry slab (s.waits i).state k a s.map g).0);
      apart = c.apart;
    },
  )

  run-Goes : (l : List Action) (s : System) → IsSound s → Goes (run l s)
  unfolding run
  run-Goes [] s c = (s, refl, c)
  run-Goes (a ∷ l) s c =
      let (s', e, d) = step-Goes a s c in
      let (t, f, g) = run-Goes l s' d in
      (t, ap (λ o. elim o [ none ↦ none | some r ↦ run l r ]) e ∙ f, g)

  -- Whatever tasks wait for, are polled, drop what they wait for and are notified, in any order: neither
  -- the unreachable arm nor an `unwrap` or an index panics.
  pub run-total : (l : List Action) → (s : System) × (run l start ≡ some s)
  run-total l = let (s, e, c) = run-Goes l start start-IsSound in (s, e)

  poll_taken :
      (waker : Waker) (w : Wait) (k : ℕ) (m : NotifyMap slab)
      → w.index ≡ suc k
      → entry slab w.state k m ≡ some none
      → poll slab waker w m ≡ some (ready, (w, m))
  unfolding poll
  poll_taken waker w k m x e = go (Map.find w.state m) e
    where
      go :
          (o : Option (slab.Wakers))
          → entry_in slab k o ≡ some none
          → poll_in slab waker w m w.index o ≡ some (ready, (w, m))
      go none f = absurd (ground arith)
      go (some v) f =
          ap (λ j. poll_in slab waker w m j (some v)) x ∙ ap (poll_entry slab waker w m k v) f

  -- After any run, if the number is reached, or the map is dropped, for which a task has registered
  -- its waker, then a waker that has not been taken before is woken, and the task is ready at its next
  -- poll.
  pub notified-ready :
      (l : List Action) (s : System) (i k : ℕ) (waker : Waker)
      → run l start ≡ some s
      → (s.waits i).index ≡ suc k
      → ((w : Waker)
          → entry slab (s.waits i).state k s.map ≡ some (some w)
          → (contains (notify_all slab (s.waits i).state s.map).0 w ≡ true)
            × (contains (close slab s.map).0 w ≡ true))
        × (poll slab waker (s.waits i) (notify_all slab (s.waits i).state s.map).1
            ≡ some (ready, (s.waits i, (notify_all slab (s.waits i).state s.map).1)))
        × (poll slab waker (s.waits i) (close slab s.map).1
            ≡ some (ready, (s.waits i, (close slab s.map).1)))
  notified-ready l s i k waker h x =
      let (t, e, c) = run-Goes l start start-IsSound in
      let same : t ≡ s = ground arith in
      let c' = subst IsSound same c in
      let (a, g) = c'.registered i k x in
      let (b, d) = notify_all-entry slab (s.waits i).state k a s.map g in
      let (b', d') = close-entry slab (s.waits i).state k a s.map g in
      (
        λ w f. (d w (ground arith), d' w (ground arith)),
        poll_taken waker (s.waits i) k _ x b,
        poll_taken waker (s.waits i) k _ x b',
      )
