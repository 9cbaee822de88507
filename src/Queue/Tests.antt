-- ===== src/Queue/Tests.antt =====
-- Tests of the queue.
use prellblock.Prelude.{ℕ, ◌-◌, ◌≤◌, ◌≡◌, refl, Bool, [], ◌∷◌, ◌==◌, ==_refl, arith}
use prellblock.Queue.{Queue, empty, insert, peek, next, remove, remove_all}
use prellblock.Queue.Oldest.{Reach, start, step, inserts, nexts, NotBefore, peek-NotBefore}
use prellblock.Queue.Removal.{IsEquality, count, count_items, count-remove_all}

abbrev eq : ℕ → ℕ → Bool
eq a b = a == b

-- 5, 6 and 5 again, inserted at the times 1, 2 and 4
abbrev three : Queue ℕ
three = record {
  entries =
      record { inserted = 1; item = 5 }
      ∷ record { inserted = 2; item = 6 }
      ∷ record { inserted = 4; item = 5 }
      ∷ [];
}

removed : remove_all eq (5 ∷ 9 ∷ []) three ≡ record {
  entries = record { inserted = 2; item = 6 } ∷ record { inserted = 4; item = 5 } ∷ [];
}
unfolding remove_all remove
removed = refl

eq-IsEquality : IsEquality eq
eq-IsEquality = record { reflexive = λ a. ==_refl a; congruent = λ a b k h. ground arith }

count-remove_all_example :
    count eq 5 (remove_all eq (5 ∷ 9 ∷ []) three).entries
    ≡ count eq 5 three.entries - count_items eq 5 (5 ∷ 9 ∷ [])
count-remove_all_example = count-remove_all eq (5 ∷ 9 ∷ []) 5 three eq-IsEquality

reached : Reach eq 2 (next (insert 2 6 (insert 1 5 empty))).1
reached = step (step (step start (inserts 1 5 (omega arith))) (inserts 2 6 (omega arith))) nexts

peek-NotBefore_test : NotBefore {T = ℕ} 2 (next (insert 2 6 (insert 1 5 empty))).1.entries × (2 ≤ 2)
peek-NotBefore_test =
    peek-NotBefore eq (record { inserted = 2; item = 6 }) reached (unfold peek next insert in refl)
