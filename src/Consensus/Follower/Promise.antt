-- ===== src/Consensus/Follower/Promise.antt =====
-- What a follower is bound by when it has acknowledged a hash in a round.
use prellblock.Prelude.{◌<◌, ◌≡◌, refl, sym, ◌∙◌, List, none, some, ok, arith}
use prellblock.Api.Block.{Body, BlockHash}
use prellblock.Consensus.Message.{Metadata, InvalidTransaction}
use prellblock.Consensus.Follower.{State}
use prellblock.Consensus.Follower.Handlers.{verify_hash}

-- The unreachable phase, in which a panic of a commit leaves the follower: `phase` panics until the next
-- term.
abbrev pub IsStuck : State → Type 0
IsStuck s =
    (s.block_hash ≡ none) × ((c : Body × List InvalidTransaction) × (s.block_content ≡ some c))

-- The follower has gone on to a later term, or in its term to a later number, or it still has the hash
-- that it has taken, or it is stuck in the round.
pub data Keeps (s s' : State) : Type 0 where
  later_term : s.leader_term < s'.leader_term → Keeps s s'
  later_number : s'.leader_term ≡ s.leader_term → s.block_number < s'.block_number → Keeps s s'
  same_round :
      s'.leader_term ≡ s.leader_term
      → s'.block_number ≡ s.block_number
      → ((h : BlockHash) → s.block_hash ≡ some h → s'.block_hash ≡ some h)
      → (IsStuck s → IsStuck s')
      → Keeps s s'
  stuck :
      s'.leader_term ≡ s.leader_term → s'.block_number ≡ s.block_number → IsStuck s' → Keeps s s'

-- A follower that has acknowledged this is past the round, or holds the hash of it, or is stuck.
pub data Promised (m : Metadata) (s : State) : Type 0 where
  past_term : m.leader_term < s.leader_term → Promised m s
  past_number : m.leader_term ≡ s.leader_term → m.block_number < s.block_number → Promised m s
  current :
      m.leader_term ≡ s.leader_term
      → m.block_number ≡ s.block_number
      → s.block_hash ≡ some m.block_hash
      → Promised m s
  broken :
      m.leader_term ≡ s.leader_term → m.block_number ≡ s.block_number → IsStuck s → Promised m s

-- An acknowledgement of the follower's round that does not contradict the hash that it has, by a
-- follower that is not stuck, and a promise from then on.
pub record Acknowledges (m : Metadata) (s s' : State) : Type 0 where
  pub is_term : m.leader_term ≡ s.leader_term
  pub is_number : m.block_number ≡ s.block_number
  pub unchanged : verify_hash s.block_hash m.block_hash ≡ ok tt
  pub not_stuck : ¬ IsStuck s
  pub promised : Promised m s'

pub Keeps-refl : (s : State) → Keeps s s
Keeps-refl s = same_round refl refl (λ h e. e) (λ k. k)

pub Keeps-trans : (s t u : State) → Keeps s t → Keeps t u → Keeps s u
Keeps-trans s t u (later_term a) (later_term b) = later_term (omega arith)
Keeps-trans s t u (later_term a) (later_number b c) = later_term (omega arith)
Keeps-trans s t u (later_term a) (same_round b c d e) = later_term (omega arith)
Keeps-trans s t u (later_term a) (stuck b c d) = later_term (omega arith)
Keeps-trans s t u (later_number a b) (later_term c) = later_term (omega arith)
Keeps-trans s t u (later_number a b) (later_number c d) = later_number (c ∙ a) (omega arith)
Keeps-trans s t u (later_number a b) (same_round c d e f) = later_number (c ∙ a) (omega arith)
Keeps-trans s t u (later_number a b) (stuck c d e) = later_number (c ∙ a) (omega arith)
Keeps-trans s t u (same_round a b c d) (later_term e) = later_term (omega arith)
Keeps-trans s t u (same_round a b c d) (later_number e f) = later_number (e ∙ a) (omega arith)
Keeps-trans s t u (same_round a b c d) (same_round e f g k) =
    same_round (e ∙ a) (f ∙ b) (λ h i. g h (c h i)) (λ i. k (d i))
Keeps-trans s t u (same_round a b c d) (stuck e f g) = stuck (e ∙ a) (f ∙ b) g
Keeps-trans s t u (stuck a b c) (later_term d) = later_term (omega arith)
Keeps-trans s t u (stuck a b c) (later_number d e) = later_number (d ∙ a) (omega arith)
Keeps-trans s t u (stuck a b c) (same_round d e f g) = stuck (d ∙ a) (e ∙ b) (g c)
Keeps-trans s t u (stuck a b c) (stuck d e f) = stuck (d ∙ a) (e ∙ b) f

pub Promised-Keeps : (m : Metadata) (s s' : State) → Promised m s → Keeps s s' → Promised m s'
Promised-Keeps m s s' (past_term a) (later_term b) = past_term (omega arith)
Promised-Keeps m s s' (past_term a) (later_number b c) = past_term (omega arith)
Promised-Keeps m s s' (past_term a) (same_round b c d e) = past_term (omega arith)
Promised-Keeps m s s' (past_term a) (stuck b c d) = past_term (omega arith)
Promised-Keeps m s s' (past_number a b) (later_term c) = past_term (omega arith)
Promised-Keeps m s s' (past_number a b) (later_number c d) = past_number (a ∙ sym c) (omega arith)
Promised-Keeps m s s' (past_number a b) (same_round c d e f) = past_number (a ∙ sym c) (omega arith)
Promised-Keeps m s s' (past_number a b) (stuck c d e) = past_number (a ∙ sym c) (omega arith)
Promised-Keeps m s s' (current a b c) (later_term d) = past_term (omega arith)
Promised-Keeps m s s' (current a b c) (later_number d e) = past_number (a ∙ sym d) (omega arith)
Promised-Keeps m s s' (current a b c) (same_round d e f g) =
    current (a ∙ sym d) (b ∙ sym e) (f m.block_hash c)
Promised-Keeps m s s' (current a b c) (stuck d e f) = broken (a ∙ sym d) (b ∙ sym e) f
Promised-Keeps m s s' (broken a b c) (later_term d) = past_term (omega arith)
Promised-Keeps m s s' (broken a b c) (later_number d e) = past_number (a ∙ sym d) (omega arith)
Promised-Keeps m s s' (broken a b c) (same_round d e f g) = broken (a ∙ sym d) (b ∙ sym e) (g c)
Promised-Keeps m s s' (broken a b c) (stuck d e f) = broken (a ∙ sym d) (b ∙ sym e) f

-- An acknowledgement of a round has the hash that has been promised in it.
pub Promised-Acknowledges :
    (m m' : Metadata) (s s' : State)
    → Promised m s
    → Acknowledges m' s s'
    → m.leader_term ≡ m'.leader_term
    → m.block_number ≡ m'.block_number
    → m.block_hash ≡ m'.block_hash
Promised-Acknowledges m m' s s' (past_term a) k t n = absurd (omega (arith, k.is_term))
Promised-Acknowledges m m' s s' (past_number a b) k t n = absurd (omega (arith, k.is_number))
Promised-Acknowledges m m' s s' (current a b c) k t n = ground (arith, k.unchanged)
Promised-Acknowledges m m' s s' (broken a b c) k t n = absurd (k.not_stuck c)
