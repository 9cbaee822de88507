-- ===== src/Queue/Removal.antt =====
-- What `remove` and `remove_all` take out.
use prellblock.Prelude.{
  ℕ, suc, ◌+◌, ◌-◌, ◌≡◌, refl, ap, ◌⊎◌, inl, inr, Bool, true, false, List, [], ◌∷◌, ◌++◌, none,
  some, Bool-cases, if◌then◌else◌, length, arith,
}
use prellblock.Queue.{Entry, Queue, remove_at, position, remove, remove_all}

module _ {T : Type 0} (eq : T → T → Bool) where
  -- no entry holds an item that equals the given one
  abbrev pub Absent : T → List (Entry T) → Type 0
  Absent item [] = Unit
  Absent item (e ∷ es) = (eq e.item item ≡ false) × Absent item es

  -- `remove` of an item that an entry holds: the first such entry is taken out and its item returned.
  pub record TakesFirst (item : T) (q : Queue T) : Type 0 where
    pub before : List (Entry T)
    pub taken : Entry T
    pub after : List (Entry T)
    pub splits : q.entries ≡ before ++ (taken ∷ after)
    pub first : Absent item before
    pub equal : eq taken.item item ≡ true
    pub result : remove eq item q ≡ (some taken.item, record { entries = before ++ after })

  pub remove-Absent :
      (item : T) (q : Queue T) → Absent item q.entries → remove eq item q ≡ (none, q)
  unfolding remove
  remove-Absent item q a = rw (position_absent q.entries a, remove)
    where
      position_absent : (es : List (Entry T)) → Absent item es → position eq item es ≡ none
      position_absent [] a = refl
      position_absent (e ∷ es) a = ground (arith, position_absent es a.1)

  -- where `position` looks
  record Found (item : T) (es : List (Entry T)) : Type 0 where
    before : List (Entry T)
    taken : Entry T
    after : List (Entry T)
    splits : es ≡ before ++ (taken ∷ after)
    first : Absent item before
    equal : eq taken.item item ≡ true
    at : position eq item es ≡ some (length before)
    out : remove_at (length before) es ≡ (some taken, before ++ after)

  Absent-Found : (item : T) (es : List (Entry T)) → Absent item es ⊎ Found item es
  unfolding position
  Absent-Found item [] = inl tt
  Absent-Found item (e ∷ es) = elim (Bool-cases (eq e.item item)) [
    | inl h ↦ inr (record {
      before = [];
      taken = e;
      after = es;
      splits = refl;
      first = tt;
      equal = h;
      at = ground arith;
      out = refl;
    })
    | inr h ↦ elim (Absent-Found item es) [
      | inl a ↦ inl (h, a)
      | inr f ↦ inr (record {
        before = e ∷ f.before;
        taken = f.taken;
        after = f.after;
        splits = ap (λ l. e ∷ l) f.splits;
        first = (h, f.first);
        equal = f.equal;
        at = ground (arith, f.at);
        out = ground (arith, f.out);
      })
    ]
  ]

  -- `remove` either finds no entry that holds the item, and then changes nothing and returns nothing,
  -- or it takes out the first such entry and returns its item.
  pub remove_lem :
      (item : T) (q : Queue T)
      → (Absent item q.entries × (remove eq item q ≡ (none, q))) ⊎ TakesFirst item q
  unfolding remove
  remove_lem item q = elim (Absent-Found item q.entries) [
    | inl a ↦ inl (a, remove-Absent item q a)
    | inr f ↦ inr (record {
      before = f.before;
      taken = f.taken;
      after = f.after;
      splits = f.splits;
      first = f.first;
      equal = f.equal;
      result = ground (arith, f.at, f.out);
    })
  ]

  -- how many entries, or items, equal the given one
  abbrev pub count : T → List (Entry T) → ℕ
  count k [] = 0
  count k (e ∷ es) = let rest = count k es in if eq e.item k then suc rest else rest

  abbrev pub count_items : T → List T → ℕ
  count_items k [] = 0
  count_items k (x ∷ xs) = let rest = count_items k xs in if eq x k then suc rest else rest

  -- Equal items are equal to the same items.
  pub record IsEquality : Type 0 where
    pub reflexive : (a : T) → eq a a ≡ true
    pub congruent : (a b k : T) → eq a b ≡ true → eq a k ≡ eq b k

  count-append : (k : T) (xs ys : List (Entry T)) → count k (xs ++ ys) ≡ count k xs + count k ys
  count-append k [] ys = omega arith
  count-append k (x ∷ xs) ys = ground (arith, count-append k xs ys)

  count-Absent :
      (item k : T) (es : List (Entry T))
      → IsEquality
      → eq item k ≡ true
      → Absent item es
      → count k es ≡ 0
  count-Absent item k [] eqv h a = refl
  count-Absent item k (e ∷ es) eqv h a = ground (
    arith,
    count-Absent item k es eqv h a.1,
    eqv.congruent item k e.item h,
    eqv.congruent e.item k item,
    eqv.congruent item k item h,
    eqv.reflexive item,
    eqv.reflexive k,
    eqv.reflexive e.item,
  )

  count-remove :
      (item k : T) (q : Queue T)
      → IsEquality
      → count k (remove eq item q).1.entries ≡ count k q.entries - (if eq item k then 1 else 0)
  count-remove item k q eqv = elim (remove_lem item q) [
    | inl (a, e) ↦ ground (arith, count-Absent item k q.entries eqv)
    | inr t ↦ ground (
      arith,
      t.splits,
      t.result,
      t.equal,
      count-append k t.before (t.taken ∷ t.after),
      count-append k t.before t.after,
      eqv.congruent t.taken.item item k t.equal,
    )
  ]

  -- `remove_all` takes one entry out for each item of the list, as far as there are entries: of any
  -- item the queue holds as many fewer as the list holds, and at least none.
  pub count-remove_all :
      (items : List T) (k : T) (q : Queue T)
      → IsEquality
      → count k (remove_all eq items q).entries ≡ count k q.entries - count_items k items
  unfolding remove_all
  count-remove_all [] k q eqv = omega arith
  count-remove_all (item ∷ items) k q eqv =
      ground (arith, count-remove_all items k (remove eq item q).1 eqv, count-remove item k q eqv)
