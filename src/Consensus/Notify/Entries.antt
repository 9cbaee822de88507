-- ===== src/Consensus/Notify/Entries.antt =====
-- What the operations of a notify map do to the entry of each waker.
use prellblock.Prelude.{
  ℕ, ◌≡◌, refl, ◌∙◌, ap, ◌==◌, Bool, true, false, [], ◌∷◌, Option, none, some, if◌then◌else◌,
  Bool-cases, inl, inr, ==_refl, arith,
}
use prellblock.Prelude.Map
use prellblock.Prelude.Map.{Map}
use prellblock.Prelude.Sets.{contains, contains-append}
use prellblock.Api.Block.{BlockNumber}
use prellblock.Consensus.Notify.Slab
use prellblock.Consensus.Notify.Slab.{Waker}
use prellblock.Consensus.Notify.{NotifyMap, wake_each, notify_list, notify_all, close}

module _ (slab : Slab.Slab) where
  open slab use {Wakers, entries, new, set, insert, remove, is_empty, find-set}

  abbrev pub entry_in : ℕ → Option Wakers → Option (Option Waker)
  entry_in k none = none
  entry_in k (some s) = Map.find k (entries s)

  -- the entry under a key of the list for a number
  abbrev pub entry : BlockNumber → ℕ → NotifyMap slab → Option (Option Waker)
  entry state k m = entry_in k (Map.find state m)

  -- an entry whose waker has been taken
  abbrev pub taken : Option (Option Waker) → Option (Option Waker)
  taken none = none
  taken (some a) = some none

  pub entry-insert :
      (state t : BlockNumber) (k : ℕ) (s : Wakers) (m : NotifyMap slab)
      → entry t k (Map.insert state s m)
        ≡ (if state == t then Map.find k (entries s) else entry t k m)
  entry-insert state t k s m = ap (entry_in k) (Map.find-insert state t s m) ∙ go (state == t)
    where
      go :
          (b : Bool)
          → entry_in k (if b then some s else Map.find t m)
            ≡ (if b then Map.find k (entries s) else entry t k m)
      go true = refl
      go false = refl

  -- each key of the list has an entry
  abbrev Listed : Map (Option Waker) → (ℕ → Option (Option Waker)) → Type 0
  Listed [] f = Unit
  Listed ((j, a) ∷ l) f = ((b : Option Waker) × (f j ≡ some b)) × Listed l f

  Listed-mono :
      (l : Map (Option Waker)) (f g : ℕ → Option (Option Waker))
      → ((j : ℕ) (b : Option Waker) → f j ≡ some b → (c : Option Waker) × (g j ≡ some c))
      → Listed l f
      → Listed l g
  Listed-mono [] f g h u = tt
  Listed-mono ((j, a) ∷ l) f g h ((b, e), u) = (h j b e, Listed-mono l f g h u)

  find-cons :
      (j i : ℕ) (a b : Option Waker) (l : Map (Option Waker))
      → Map.find i l ≡ some b
      → (c : Option Waker) × (Map.find i ((j, a) ∷ l) ≡ some c)
  unfolding Map.find
  find-cons j i a b l e = elim (Bool-cases (j == i)) [
    | inl s ↦ (a, ground arith)
    | inr n ↦ (b, ground arith)
  ]

  Listed-find : (l : Map (Option Waker)) → Listed l (λ j. Map.find j l)
  Listed-find [] = tt
  Listed-find ((j, a) ∷ l) = (
    (a, unfold Map.find in ground (arith, ==_refl j)),
    Listed-mono l (λ i. Map.find i l) (λ i. Map.find i ((j, a) ∷ l)) (λ i b. find-cons j i a b l)
        (Listed-find l),
  )

  abbrev at : Wakers → ℕ → Option (Option Waker)
  at s k = Map.find k (entries s)

  at-set :
      (j k : ℕ) (a b : Option Waker) (s : Wakers)
      → at s j ≡ some a
      → at s k ≡ some b
      → (c : Option Waker) × (at (set j none s) k ≡ some c)
  at-set j k a b s e f = elim (Bool-cases (j == k)) [
    | inl i ↦ (none, ground (arith, find-set j k none a s e))
    | inr n ↦ (b, ground (arith, find-set j k none a s e))
  ]

  -- An entry stays one.
  wake_each-at :
      (l : Map (Option Waker)) (s : Wakers) (k : ℕ) (a : Option Waker)
      → Listed l (at s)
      → at s k ≡ some a
      → (b : Option Waker) × (at (wake_each slab l s).1 k ≡ some b)
  unfolding wake_each
  wake_each-at [] s k a u e = (a, e)
  wake_each-at ((j, none) ∷ l) s k a (h, u) e = wake_each-at l s k a u e
  wake_each-at ((j, some w) ∷ l) s k a ((c, h), u) e =
      let (b, f) = at-set j k c a s h e in
      wake_each-at l (set j none s) k b
        (Listed-mono l (at s) (at (set j none s)) (λ i d. at-set j i c d s h) u) f

  -- A waker that has been taken stays so.
  wake_each-at_none :
      (l : Map (Option Waker)) (s : Wakers) (k : ℕ)
      → Listed l (at s)
      → at s k ≡ some none
      → at (wake_each slab l s).1 k ≡ some none
  unfolding wake_each
  wake_each-at_none [] s k u e = e
  wake_each-at_none ((j, none) ∷ l) s k (h, u) e = wake_each-at_none l s k u e
  wake_each-at_none ((j, some w) ∷ l) s k ((c, h), u) e =
      wake_each-at_none l (set j none s) k
        (Listed-mono l (at s) (at (set j none s)) (λ i d. at-set j i c d s h) u)
        (ground (arith, find-set j k none c s h))

  -- A waker of the list is taken and woken.
  wake_each-woken :
      (l : Map (Option Waker)) (s : Wakers) (k : ℕ) (w : Waker)
      → Listed l (at s)
      → Map.find k l ≡ some (some w)
      → (at (wake_each slab l s).1 k ≡ some none) × (contains (wake_each slab l s).0 w ≡ true)
  unfolding wake_each Map.find
  wake_each-woken [] s k w u e = absurd (ground arith)
  wake_each-woken ((j, none) ∷ l) s k w (h, u) e = wake_each-woken l s k w u (ground arith)
  wake_each-woken ((j, some v) ∷ l) s k w ((c, h), u) e =
      let u' = Listed-mono l (at s) (at (set j none s)) (λ i d. at-set j i c d s h) u in
      elim (Bool-cases (j == k)) [
        | inl i ↦ (
          wake_each-at_none l (set j none s) k u' (ground (arith, find-set j k none c s h)),
          ground (arith, ==_refl w),
        )
        | inr n ↦
            let (a, b) = wake_each-woken l (set j none s) k w u' (ground arith) in (a, ground arith)
      ]

  -- all the wakers of a list
  pub woken_lem :
      (s : Wakers) (k : ℕ) (a : Option Waker)
      → at s k ≡ some a
      → (at (wake_each slab (entries s) s).1 k ≡ some none)
        × ((w : Waker) → a ≡ some w → contains (wake_each slab (entries s) s).0 w ≡ true)
  woken_lem s k none e =
      (wake_each-at_none (entries s) s k (Listed-find (entries s)) e, λ w h. absurd (ground arith))
  woken_lem s k (some v) e =
      let (a, b) = wake_each-woken (entries s) s k v (Listed-find (entries s)) e in
      (a, λ w h. ground arith)

  -- The wakers for a number are taken and woken.
  pub notify_all-entry :
      (state : BlockNumber) (k : ℕ) (a : Option Waker) (m : NotifyMap slab)
      → entry state k m ≡ some a
      → (entry state k (notify_all slab state m).1 ≡ some none)
        × ((w : Waker) → a ≡ some w → contains (notify_all slab state m).0 w ≡ true)
  unfolding notify_all
  notify_all-entry state k a m e = go (Map.find state m) e
    where
      go :
          (o : Option Wakers)
          → entry_in k o ≡ some a
          → (entry state k (notify_list slab state m o).1 ≡ some none)
            × ((w : Waker) → a ≡ some w → contains (notify_list slab state m o).0 w ≡ true)
      go none h = absurd (ground arith)
      go (some s) h =
          let (b, c) = woken_lem s k a h in
          (
            entry-insert state state k (wake_each slab (entries s) s).1 m
                ∙ ground (arith, ==_refl state),
            c,
          )

  -- Those for other numbers stay as they are.
  pub notify_all-entry_ne :
      (state t : BlockNumber) (k : ℕ) (m : NotifyMap slab)
      → (state == t) ≡ false
      → entry t k (notify_all slab state m).1 ≡ entry t k m
  unfolding notify_all
  notify_all-entry_ne state t k m n = go (Map.find state m)
    where
      go : (o : Option Wakers) → entry t k (notify_list slab state m o).1 ≡ entry t k m
      go none = refl
      go (some s) = entry-insert state t k (wake_each slab (entries s) s).1 m ∙ ground arith

  -- When the map is dropped, all wakers are taken and woken.
  pub close-entry :
      (t : BlockNumber) (k : ℕ) (a : Option Waker) (m : NotifyMap slab)
      → entry t k m ≡ some a
      → (entry t k (close slab m).1 ≡ some none)
        × ((w : Waker) → a ≡ some w → contains (close slab m).0 w ≡ true)
  unfolding close Map.find
  close-entry t k a [] e = absurd (ground arith)
  close-entry t k a ((state, s) ∷ m) e = elim (Bool-cases (state == t)) [
    | inl i ↦
        let (b, c) = woken_lem s k a (ground arith) in
        (
          ground arith,
          λ w h.
              ground
                (arith, c w h, contains-append w (wake_each slab (entries s) s).0 (close slab m).0),
        )
    | inr n ↦
        let (b, c) = close-entry t k a m (ground arith) in
        (
          ground arith,
          λ w h.
              ground
                (arith, c w h, contains-append w (wake_each slab (entries s) s).0 (close slab m).0),
        )
  ]
