-- ===== src/Consensus/Notify/Tests.antt =====
-- Tests of the notifications, with a slab that takes a key above all others.
use prellblock.Prelude.{
  ℕ, suc, ◌+◌, ◌≤◌, ◌≡◌, refl, ap, ◌==◌, Bool, true, false, List, [], ◌∷◌, Option, none, some,
  if◌then◌else◌, Bool-cases, inl, inr, ==_iff, arith,
}
use prellblock.Prelude.Map
use prellblock.Prelude.Map.{Map}
use prellblock.Prelude.Sets.{contains}
use prellblock.Consensus.Notify.Slab
use prellblock.Consensus.Notify.Slab.{Waker}
use prellblock.Consensus.Notify.{
  ready, pending, wait, NotifyMap, wake_each, notify_all, close, poll, drop,
}
use prellblock.Consensus.Notify.Entries.{entry}
use prellblock.Consensus.Notify.Runs.{
  Action, poll_task, wait_for, reached, System, start, step, run, run-total, notified-ready,
}

abbrev Entries : Type 0
Entries = Map (Option Waker)

abbrev key_sum : Entries → ℕ
key_sum [] = 0
key_sum ((k, a) ∷ l) = k + key_sum l

key-le-key_sum : (k : ℕ) (a : Option Waker) (l : Entries) → Map.find k l ≡ some a → k ≤ key_sum l
unfolding Map.find
key-le-key_sum k a [] e = absurd (ground arith)
key-le-key_sum k a ((j, b) ∷ l) e = elim (Bool-cases (j == k)) [
  | inl i ↦ omega (arith, (==_iff j k).0 i)
  | inr n ↦ omega (arith, key-le-key_sum k a l (ground arith))
]

-- above all keys
abbrev free_key : Entries → ℕ
free_key l = suc (key_sum l)

find-free_key : (l : Entries) → Map.find (free_key l) l ≡ none
find-free_key l = go (Map.find (free_key l) l) refl
  where
    go : (o : Option (Option Waker)) → Map.find (free_key l) l ≡ o → o ≡ none
    go none e = refl
    go (some a) e = absurd (omega (arith, key-le-key_sum (free_key l) a l e))

abbrev remove_entry : ℕ → Entries → Option (Option Waker) → Option Entries
remove_entry k l none = none
remove_entry k l (some a) = some (Map.remove k l)

abbrev is_nil : Entries → Bool
is_nil [] = true
is_nil (e ∷ l) = false

is_nil-eq : (l : Entries) → is_nil l ≡ true → l ≡ []
is_nil-eq [] e = refl
is_nil-eq (p ∷ l) e = absurd (ground arith)

find-remove_entry :
    (k j : ℕ) (l l' : Entries) (o : Option (Option Waker))
    → remove_entry k l o ≡ some l'
    → Map.find j l' ≡ (if k == j then none else Map.find j l)
find-remove_entry k j l l' none e = absurd (ground arith)
find-remove_entry k j l l' (some a) e = ground (arith, Map.find-remove k j l)

abbrev toy_slab : Slab.Slab
toy_slab = record {
  Wakers = Entries;
  entries = λ l. l;
  new = [];
  set = λ k v l. Map.insert k v l;
  insert = λ v l. (free_key l, Map.insert (free_key l) v l);
  remove = λ k l. remove_entry k l (Map.find k l);
  is_empty = is_nil;
  entries-new = refl;
  find-set = λ k j v a l e. Map.find-insert k j v l;
  find-insert_none = λ v l. find-free_key l;
  find-insert = λ j v l. Map.find-insert (free_key l) j v l;
  remove-total = λ k a l e. (Map.remove k l, ap (remove_entry k l) e);
  find-remove = λ k j l l' e. find-remove_entry k j l l' (Map.find k l) e;
  entries-is_empty = is_nil-eq;
}

-- Task 1 waits for number 5 and is polled twice, with another waker the second time, and task 2 waits
-- for it too.
abbrev actions : List Action
actions = wait_for 1 5 ∷ poll_task 1 10 ∷ wait_for 2 5 ∷ poll_task 2 20 ∷ poll_task 1 11 ∷ []

abbrev or_start : Option (System toy_slab) → System toy_slab
or_start none = start toy_slab
or_start (some s) = s

abbrev after_actions : System toy_slab
after_actions = or_start (run toy_slab actions (start toy_slab))

run-actions : run toy_slab actions (start toy_slab) ≡ some after_actions
unfolding run step poll drop Map.find Map.insert Map.remove
run-actions = refl

index-actions : (after_actions.waits 1).index ≡ 2
unfolding run step poll drop Map.find Map.insert Map.remove
index-actions = refl

-- Both are woken.
woken-actions : (notify_all toy_slab 5 after_actions.map).0 ≡ 11 ∷ 20 ∷ []
unfolding run step poll drop notify_all wake_each Map.find Map.insert Map.remove
woken-actions = refl

-- A task that drops its wait after the notification, and the last one, which takes the list with it.
dropped :
    run toy_slab (reached 5 ∷ wait_for 1 6 ∷ wait_for 2 6 ∷ []) after_actions
    ≡ some (record {
      map = [];
      waits = λ j. if 2 == j then wait 6 else if 1 == j then wait 6 else after_actions.waits j;
    })
unfolding run step poll drop notify_all wake_each Map.find Map.insert Map.remove
dropped = refl

-- A task that is polled for the first time after the notification waits on.
notified_too_early :
    poll toy_slab 10 (wait 5) (notify_all toy_slab 5 []).1
    ≡ some (pending, (record { index = 2; state = 5 }, (5, (1, some 10) ∷ []) ∷ []))
unfolding poll notify_all Map.find Map.insert Map.remove
notified_too_early = refl

run-total_example : (s : System toy_slab) × (run toy_slab actions (start toy_slab) ≡ some s)
run-total_example = run-total toy_slab actions

abbrev after_notify : NotifyMap toy_slab
after_notify = (notify_all toy_slab (after_actions.waits 1).state after_actions.map).1

abbrev after_close : NotifyMap toy_slab
after_close = (close toy_slab after_actions.map).1

notified-ready_example :
    ((w : Waker)
      → entry toy_slab (after_actions.waits 1).state 1 after_actions.map ≡ some (some w)
      → (contains (notify_all toy_slab (after_actions.waits 1).state after_actions.map).0 w ≡ true)
        × (contains (close toy_slab after_actions.map).0 w ≡ true))
    × (poll toy_slab 11 (after_actions.waits 1) after_notify
        ≡ some (ready, (after_actions.waits 1, after_notify)))
    × (poll toy_slab 11 (after_actions.waits 1) after_close
        ≡ some (ready, (after_actions.waits 1, after_close)))
notified-ready_example =
    notified-ready toy_slab actions after_actions 1 1 11 run-actions index-actions
