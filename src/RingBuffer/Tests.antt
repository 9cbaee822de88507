-- ===== src/RingBuffer/Tests.antt =====
-- Tests of the ring buffer.
use prellblock.Prelude.{ℕ, ◌-◌, ◌≡◌, refl, [], ◌∷◌, some, ok, err, arith, ◌==◌, if◌then◌else◌}
use prellblock.RingBuffer.{
  RingBuffer, ringbuffer_overflow, ringbuffer_underflow, get, get_mut, increment, increment_to,
  decrement,
}
use prellblock.RingBuffer.Access.{IsValid, get-get_mut}
use prellblock.RingBuffer.Shift.{Moved, decrement-increment, increment_to_lem}

-- the items 30, 10 and 20 at the indices 3, 4 and 5
abbrev three : RingBuffer ℕ
three = record { items = 30 ∷ 10 ∷ 20 ∷ []; start = 3 }

three-IsValid : IsValid three
three-IsValid = record { holds = omega arith; fits = omega arith }

get_four : get three 4 ≡ ok 10
unfolding get
get_four = refl

get_six : get three 6 ≡ err (ringbuffer_overflow 6)
unfolding get
get_six = refl

get_two : get three 2 ≡ err (ringbuffer_underflow 2)
unfolding get
get_two = refl

get-get_mut_test :
    (a : ℕ) × (write : ℕ → RingBuffer ℕ) × (get three 4 ≡ ok a)
    × (get_mut three 4 ≡ ok (a, write))
    × (get (write 11) 5 ≡ (if 4 == 5 then ok 11 else get three 5))
get-get_mut_test = get-get_mut three 4 5 11 three-IsValid (omega arith) (omega arith)

decrement-increment_test :
    (old : ℕ) × (r' : RingBuffer ℕ) × (increment three 60 ≡ some (old, r'))
    × (decrement r' old ≡ some (60, three))
decrement-increment_test = decrement-increment three 60 three-IsValid (omega arith)

increment_to_lem_test :
    (r' : RingBuffer ℕ) × (increment_to three 5 0 ≡ some r')
    × IsValid r'
    × (r'.start ≡ 5)
    × Moved (5 - 3) three 0 r'
increment_to_lem_test = increment_to_lem three 5 0 three-IsValid (omega arith) (omega arith)
