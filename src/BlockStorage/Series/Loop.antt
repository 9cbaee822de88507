-- ===== src/BlockStorage/Series/Loop.antt =====
-- The loop of a range query ends, and it reads no more than was asked for.
use prellblock.Prelude.{
  ℕ, zero, suc, ◌+◌, ◌-◌, ◌≤◌, ◌<◌, ◌≡◌, ◌≢◌, refl, sym, subst, ap, Bool, true, false, ltb,
  if◌then◌else◌, ◌>>=◌, List, [], ◌∷◌, length, Option, none, some, Outcome, ok, err, panicked,
  >>=-eq-ok, or_panic, arith,
}
use prellblock.Prelude.Map
use prellblock.Prelude.Map.{Map}
use prellblock.Api.Account.{Time}
use prellblock.Api.Query.{Span, count, time, duration}
use prellblock.BlockStorage.{Error, Stored}
use prellblock.BlockStorage.Series.{
  Series, Item, sub_duration, skip_items, skip_until, step_span, skip_after, Turn, turn_with, turn,
  collect,
}

skip_items_shortens : (n : ℕ) (l r : List Item) → skip_items n l ≡ ok r → length r ≤ length l
unfolding skip_items
skip_items_shortens zero l r h = ground arith
skip_items_shortens (suc n) [] r h = ground arith
skip_items_shortens (suc n) (o ∷ l) r h =
    let (e, f, g) = >>=-eq-ok o (λ e. skip_items n l) h in
    omega (arith, skip_items_shortens n l r g)

skip_until_shortens : (t : Time) (l : List Item) → length (skip_until t l) ≤ length l
unfolding skip_until
skip_until_shortens t [] = omega arith
skip_until_shortens t (err e ∷ l) = omega arith
skip_until_shortens t (panicked ∷ l) = omega arith
skip_until_shortens t (ok (key, value) ∷ l) = ground (arith, skip_until_shortens t l)

skip_after_shortens :
    (skip : Option Span) (key : Time) (l r : List Item)
    → skip_after skip key l ≡ ok r
    → length r ≤ length l
skip_after_shortens none key l r h = ground arith
skip_after_shortens (some (count n)) key l r h = skip_items_shortens n l r h
skip_after_shortens (some (time t)) key l r h = ground arith
skip_after_shortens (some (duration d)) key l r h =
    let (t, e, k) = >>=-eq-ok (or_panic (sub_duration key d)) _ h in
    let same : skip_until t l ≡ r = ground arith in
    omega (arith, ap length same, skip_until_shortens t l)

-- What a turn has done that goes on.
record Advances (span : Span) (skip : Option Span) (o : Item) (l : List Item) (t : Turn)
    : Type 0 where
  entry : o ≡ ok (t.key, t.value)
  stepped : step_span span t.key ≡ ok (some t.span)
  shorter : length t.rest ≤ length l

turn_with-Advances :
    (entry : Time × Stored) (span : Span) (skip : Option Span) (l : List Item) (next : Option Span)
    (t : Turn)
    → step_span span entry.0 ≡ ok next
    → turn_with entry skip l next ≡ ok (some t)
    → Advances span skip (ok entry) l t
turn_with-Advances (key, value) span skip l none t e h = cc
turn_with-Advances (key, value) span skip l (some s) t e h =
    let (rest, f, g) = >>=-eq-ok (skip_after skip key l) _ h in
    record {
      entry = ground arith;
      stepped = ground (arith, e, g);
      shorter =
          let same : rest ≡ t.rest = ground (arith, g) in
          omega (arith, ap length same, skip_after_shortens skip key l rest f);
    }

turn-Advances :
    (span : Span) (skip : Option Span) (o : Item) (l : List Item) (t : Turn)
    → turn span skip o l ≡ ok (some t)
    → Advances span skip o l t
unfolding turn
turn-Advances span skip (ok entry) l t h =
    let (next, e, k) = >>=-eq-ok (step_span span entry.0) _ h in
    turn_with-Advances entry span skip l next t e k
turn-Advances span skip (err e) l t h = cc
turn-Advances span skip panicked l t h = cc

-- No item panics, and what is asked for holds of each key.
abbrev pub OnKeys : (Time → Type 0) → List Item → Type 0
OnKeys P [] = Unit
OnKeys P (ok (key, value) ∷ l) = P key × OnKeys P l
OnKeys P (err e ∷ l) = OnKeys P l
OnKeys P (panicked ∷ l) = ⊥

-- A duration reaches back from this time, not to before the earliest one.
abbrev pub Reaches : Span → Time → Type 0
Reaches (count n) key = Unit
Reaches (time t) key = Unit
Reaches (duration d) key = d ≤ key

abbrev pub ReachesSkip : Option Span → Time → Type 0
ReachesSkip none key = Unit
ReachesSkip (some span) key = Reaches span key

OnKeys-skip_until :
    (P : Time → Type 0) (t : Time) (l : List Item) → OnKeys P l → OnKeys P (skip_until t l)
unfolding skip_until
OnKeys-skip_until P t [] a = tt
OnKeys-skip_until P t (err e ∷ l) a = a
OnKeys-skip_until P t (panicked ∷ l) a = a
OnKeys-skip_until P t (ok (key, value) ∷ l) (p, a) = go (ltb key t) (OnKeys-skip_until P t l a)
  where
    go :
        (b : Bool)
        → OnKeys P (skip_until t l)
        → OnKeys P (if b then ok (key, value) ∷ l else skip_until t l)
    go true r = (p, a)
    go false r = r

-- Skipping does not panic, and what is left satisfies what held of all.
record Skips (P : Time → Type 0) (o : Outcome Error (List Item)) : Type 0 where
  returns : o ≢ panicked
  left : (r : List Item) → o ≡ ok r → OnKeys P r

returned : (P : Time → Type 0) (l : List Item) → OnKeys P l → Skips P (ok l)
returned P l a = record {
  returns = λ e. ground arith;
  left = λ r e. let same : l ≡ r = cc in subst (OnKeys P) same a;
}

skip_items-Skips :
    (P : Time → Type 0) (n : ℕ) (l : List Item) → OnKeys P l → Skips P (skip_items n l)
unfolding skip_items
skip_items-Skips P zero l a = returned P l a
skip_items-Skips P (suc n) [] a = returned P [] tt
skip_items-Skips P (suc n) (ok (key, value) ∷ l) (p, a) = skip_items-Skips P n l a
skip_items-Skips P (suc n) (err e ∷ l) a = record {
  returns = λ h. ground arith;
  left = λ r h. absurd (ground arith);
}
skip_items-Skips P (suc n) (panicked ∷ l) a = absurd a

sub_duration-some : (key : Time) (d : ℕ) → d ≤ key → sub_duration key d ≡ some (key - d)
sub_duration-some key d h = ground arith

skip_after-Skips :
    (P : Time → Type 0) (skip : Option Span) (key : Time) (l : List Item)
    → ReachesSkip skip key
    → OnKeys P l
    → Skips P (skip_after skip key l)
skip_after-Skips P none key l h a = returned P l a
skip_after-Skips P (some (count n)) key l h a = skip_items-Skips P n l a
skip_after-Skips P (some (time t)) key l h a = returned P l a
skip_after-Skips P (some (duration d)) key l h a =
    subst (λ o. Skips P (or_panic {E = Error} o >>= λ t. ok (skip_until t l)))
      (sym (sub_duration-some key d h))
      (returned P (skip_until (key - d) l) (OnKeys-skip_until P (key - d) l a))

-- A turn does not panic; after it the span reaches back from every key, and what is skipped still does.
record Proceeds (skip : Option Span) (o : Outcome Error (Option Turn)) : Type 0 where
  returns : o ≢ panicked
  reaches : (t : Turn) → o ≡ ok (some t) → (key : Time) → Reaches t.span key
  left : (t : Turn) → o ≡ ok (some t) → OnKeys (ReachesSkip skip) t.rest

step_span-Reaches : (span s : Span) (key k : Time) → step_span span key ≡ ok (some s) → Reaches s k
step_span-Reaches (count n) (count m) key k h = tt
step_span-Reaches (time t) (count m) key k h = tt
step_span-Reaches (duration d) (count m) key k h = tt
step_span-Reaches (count n) (time t) key k h = tt
step_span-Reaches (time u) (time t) key k h = tt
step_span-Reaches (duration d) (time t) key k h = tt
step_span-Reaches (count n) (duration d) key k h = absurd (ground arith)
step_span-Reaches (time t) (duration d) key k h = absurd (ground arith)
step_span-Reaches (duration c) (duration d) key k h = absurd (ground arith)

turn_with-Proceeds :
    (key : Time) (value : Stored) (skip : Option Span) (l : List Item) (next : Option Span)
    → ((s : Span) → next ≡ some s → (k : Time) → Reaches s k)
    → ReachesSkip skip key
    → OnKeys (ReachesSkip skip) l
    → Proceeds skip (turn_with (key, value) skip l next)
turn_with-Proceeds key value skip l none f h a = record {
  returns = λ e. ground arith;
  reaches = λ t e. absurd (ground arith);
  left = λ t e. absurd (ground arith);
}
turn_with-Proceeds key value skip l (some s) f h a =
    go (skip_after skip key l) (skip_after-Skips (ReachesSkip skip) skip key l h a)
  where
    go :
        (o : Outcome Error (List Item))
        → Skips (ReachesSkip skip) o
        → Proceeds skip
            (o >>= λ rest. ok (some (record { key = key; value = value; span = s; rest = rest })))
    go (ok r) k = record {
      returns = λ e. ground arith;
      reaches = λ t e i.
          let same : s ≡ t.span = ground arith in subst (λ u. Reaches u i) same (f s refl i);
      left = λ t e.
          let same : r ≡ t.rest = ground arith in
          subst (OnKeys (ReachesSkip skip)) same (k.left r refl);
    }
    go (err y) k = record {
      returns = λ e. ground arith;
      reaches = λ t e. absurd (ground arith);
      left = λ t e. absurd (ground arith);
    }
    go panicked k = absurd (k.returns refl)

-- Only the first turn has a duration left.
abbrev pub FirstReaches : Span → List Item → Type 0
FirstReaches span [] = Unit
FirstReaches span (ok (key, value) ∷ l) = Reaches span key
FirstReaches span (err e ∷ l) = Unit
FirstReaches span (panicked ∷ l) = Unit

FirstReaches-all :
    (span : Span) (l : List Item) → ((key : Time) → Reaches span key) → FirstReaches span l
FirstReaches-all span [] f = tt
FirstReaches-all span (ok (key, value) ∷ l) f = f key
FirstReaches-all span (err e ∷ l) f = tt
FirstReaches-all span (panicked ∷ l) f = tt

turn-Proceeds :
    (span : Span) (skip : Option Span) (o : Item) (l : List Item)
    → FirstReaches span (o ∷ l)
    → OnKeys (ReachesSkip skip) (o ∷ l)
    → Proceeds skip (turn span skip o l)
unfolding turn
turn-Proceeds span skip (err e) l a b = record {
  returns = λ h. ground arith;
  reaches = λ t h. absurd (ground arith);
  left = λ t h. absurd (ground arith);
}
turn-Proceeds span skip panicked l a b = absurd b
turn-Proceeds (count n) skip (ok (key, value)) l a (h, b) =
    turn_with-Proceeds key value skip l _
      (λ s e k. step_span-Reaches (count n) s key k (ap (λ o. ok o) e)) h b
turn-Proceeds (time t) skip (ok (key, value)) l a (h, b) =
    turn_with-Proceeds key value skip l _
      (λ s e k. step_span-Reaches (time t) s key k (ap (λ o. ok o) e)) h b
turn-Proceeds (duration d) skip (ok (key, value)) l g (h, b) =
    subst
      (λ o. Proceeds skip (
        or_panic {E = Error} o >>= (λ t. ok (some (time t))) >>= λ s.
        turn_with (key, value) skip l s))
      (sym (sub_duration-some key d g))
      (turn_with-Proceeds key value skip l (some (time (key - d)))
        (λ s e k. let same : time (key - d) ≡ s = ground arith in subst (λ u. Reaches u k) same tt)
        h b)

-- If no item panics, and the duration that is asked for reaches back from the first key to a time, and the
-- one that is skipped from each key, then with more fuel than there are items the loop of a range query
-- ends, by a value or an error and not by a panic.
pub collect-total :
    (fuel : ℕ) (span : Span) (skip : Option Span) (l : List Item) (transactions : Series)
    → length l < fuel
    → FirstReaches span l
    → OnKeys (ReachesSkip skip) l
    → (r : Outcome Error Series) × (collect fuel span skip l transactions ≡ some r) × (r ≢ panicked)
unfolding collect
collect-total zero span skip l transactions h a b = absurd (omega arith)
collect-total (suc fuel) span skip [] transactions h a b =
    (ok transactions, refl, λ e. ground arith)
collect-total (suc fuel) span skip (o ∷ l) transactions h a b =
    go (turn span skip o l) refl (turn-Proceeds span skip o l a b)
      (λ t. collect-total fuel t.span skip t.rest (Map.insert t.key t.value transactions))
  where
    go :
        (r : Outcome Error (Option Turn))
        → turn span skip o l ≡ r
        → Proceeds skip r
        → ((t : Turn)
            → length t.rest < fuel
            → FirstReaches t.span t.rest
            → OnKeys (ReachesSkip skip) t.rest
            → (s : Outcome Error Series) × (collect fuel t.span skip t.rest
                  (Map.insert t.key t.value transactions)
                ≡ some s)
              × (s ≢ panicked))
        → (s : Outcome Error Series) × (collect (suc fuel) span skip (o ∷ l) transactions ≡ some s)
          × (s ≢ panicked)
    go (err e) k p ih = (err e, ground (arith, k), λ i. ground arith)
    go panicked k p ih = absurd (p.returns refl)
    go (ok none) k p ih = (ok transactions, ground (arith, k), λ i. ground arith)
    go (ok (some t)) k p ih =
        let a = turn-Advances span skip o l t k in
        let (s, e, n) =
          ih t (omega (arith, a.shorter)) (FirstReaches-all t.span t.rest (p.reaches t refl))
            (p.left t refl) in
        (s, ground (arith, k, e), n)

length-remove : {V : Type 0} (k : ℕ) (m : Map V) → length (Map.remove k m) ≤ length m
unfolding Map.remove
length-remove k [] = omega arith
length-remove k ((j, v) ∷ m) = ground (arith, length-remove k m)

length-insert :
    {V : Type 0} (k : ℕ) (v : V) (m : Map V) → length (Map.insert k v m) ≤ suc (length m)
unfolding Map.insert
length-insert k v m = omega (arith, length-remove k m)

counted_down :
    (n : ℕ) (key : Time) (span : Span)
    → step_span (count n) key ≡ ok (some span)
    → (m : ℕ) × (span ≡ count m) × (suc m ≡ n)
counted_down n key span h = (n - 1, ground arith, ground arith)

-- A range query that asks for a number of values reads at most so many.
pub collect-count :
    (fuel n : ℕ) (skip : Option Span) (l : List Item) (transactions r : Series)
    → collect fuel (count n) skip l transactions ≡ some (ok r)
    → length r ≤ length transactions + n
unfolding collect
collect-count zero n skip l transactions r h = cc
collect-count (suc fuel) n skip [] transactions r h = ground arith
collect-count (suc fuel) n skip (o ∷ l) transactions r h =
    go (turn (count n) skip o l) refl
      (λ m t. collect-count fuel m skip t.rest (Map.insert t.key t.value transactions) r)
  where
    go :
        (s : Outcome Error (Option Turn))
        → turn (count n) skip o l ≡ s
        → ((m : ℕ) (t : Turn)
            → collect fuel (count m) skip t.rest (Map.insert t.key t.value transactions)
              ≡ some (ok r)
            → length r ≤ length (Map.insert t.key t.value transactions) + m)
        → length r ≤ length transactions + n
    go (err e) k ih = absurd (ground (arith, k))
    go panicked k ih = absurd (ground (arith, k))
    go (ok none) k ih = ground (arith, k)
    go (ok (some t)) k ih =
        let a = turn-Advances (count n) skip o l t k in
        let (m, e, f) = counted_down n t.key t.span a.stepped in
        omega (arith, f, length-insert t.key t.value transactions, ih m t (ground (arith, k, e)))
