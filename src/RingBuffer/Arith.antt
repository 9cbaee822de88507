-- ===== src/RingBuffer/Arith.antt =====
-- Indices modulo the length of the buffer.
use prellblock.Prelude.{ℕ, ◌+◌, ◌%◌, ◌<◌, ◌≡◌, ◌≢◌, arith}

-- Two indices of one window have different places.
pub mod-ne : (n i j : ℕ) → i < j → j < i + n → i % n ≢ j % n
mod-ne n i j h k = grind arith

-- The index just past the window takes the place of the first.
pub add-mod : (n i : ℕ) → (i + n) % n ≡ i % n
add-mod n i = grind arith
