-- ===== src/Consensus/Leader/Batch.antt =====
-- What a round takes from the queue.
use prellblock.Prelude.{
  ℕ, zero, suc, ◌+◌, ◌≤◌, ◌≡◌, ◌⊎◌, refl, ap, inl, inr, List, [], ◌∷◌, ◌++◌, length, Outcome, ok,
  err, panicked, arith,
}
use prellblock.Pinxit.{Signed}
use prellblock.Api.Transaction.{Transaction}
use prellblock.Api.Block.{SignatureList}
use prellblock.Queue.{Entry, Queue, len, next}
use prellblock.Consensus.Error.{Error}
use prellblock.Consensus.Message.{ConsensusMessage}
use prellblock.Consensus.Core.{Externals}
use prellblock.Consensus.Validation.{Sorted}
use prellblock.Consensus.Leader.{
  Leader, take_batch, Surroundings, Round, and_then, commit_phase, append_phase, propose,
  propose_sorted, execute_batch, execute_round, max_transactions_per_block,
}

abbrev pub items : {T : Type 0} → List (Entry T) → List T
items [] = []
items (e ∷ es) = e.item ∷ items es

-- The batch is the front of the queue, it is not longer than the room, and only a full one leaves
-- anything behind.
pub record IsFront {T : Type 0} (room : ℕ) (q : Queue T) (batch : List T) (rest : Queue T)
    : Type 0 where
  pub front : items q.entries ≡ batch ++ items rest.entries
  pub counts : length batch + len rest ≡ len q
  pub bounded : length batch ≤ room
  pub full : (length batch ≡ room) ⊎ (rest.entries ≡ [])

take_entries :
    {T : Type 0} (room : ℕ) (es : List (Entry T))
    → IsFront room
        (record { entries = es })
        (take_batch room (record { entries = es })).0
        (take_batch room (record { entries = es })).1
unfolding take_batch next
take_entries zero es = record {
  front = refl;
  counts = omega arith;
  bounded = omega arith;
  full = inl refl;
}
take_entries (suc room) [] = record {
  front = refl;
  counts = omega arith;
  bounded = omega arith;
  full = inr refl;
}
take_entries (suc room) (e ∷ es) =
    let r = take_entries room es in
    record {
      front = ap (λ l. e.item ∷ l) r.front;
      counts = omega (arith, r.counts);
      bounded = omega (arith, r.bounded);
      full = elim r.full [ inl f ↦ inl (ap suc f) | inr f ↦ inr f ];
    }

pub take_batch-IsFront :
    {T : Type 0} (room : ℕ) (q : Queue T)
    → IsFront room q (take_batch room q).0 (take_batch room q).1
take_batch-IsFront room q = take_entries room q.entries

and_then-queue :
    (l : Leader) (q : Queue (Signed Transaction)) (sent : List ConsensusMessage)
    (o : Outcome Error SignatureList) (next_phase : SignatureList → Round)
    → ((signatures : SignatureList) → (next_phase signatures).queue ≡ q)
    → (and_then l q sent o next_phase).queue ≡ q
and_then-queue l q sent (ok signatures) next_phase h = h signatures
and_then-queue l q sent (err e) next_phase h = refl
and_then-queue l q sent panicked next_phase h = refl

module _ (x : Externals) (around : Surroundings) where
  commit_phase-queue :
      (s : Sorted) (q : Queue (Signed Transaction)) (l : Leader) (sent : List ConsensusMessage)
      (signatures : SignatureList)
      → (commit_phase x around s q l sent signatures).queue ≡ q
  unfolding commit_phase
  commit_phase-queue s q l sent signatures = search and_then-queue

  append_phase-queue :
      (s : Sorted) (q : Queue (Signed Transaction)) (l : Leader) (sent : List ConsensusMessage)
      (signatures : SignatureList)
      → (append_phase x around s q l sent signatures).queue ≡ q
  unfolding append_phase
  append_phase-queue s q l sent signatures = search (and_then-queue, commit_phase-queue)

  propose-queue :
      (s : Sorted) (q : Queue (Signed Transaction)) (l : Leader)
      → (propose x around s q l).queue ≡ q
  unfolding propose
  propose-queue s q l = search (and_then-queue, append_phase-queue)

  propose_sorted-queue :
      (q : Queue (Signed Transaction)) (l : Leader) (o : Outcome Error Sorted)
      → (propose_sorted x around q l o).queue ≡ q
  propose_sorted-queue q l (ok s) = propose-queue s q (record l { transaction_check = s.world })
  propose_sorted-queue q l (err e) = refl
  propose_sorted-queue q l panicked = refl

  -- The queue that a round leaves does not depend on what the others answer.
  pub execute_round-queue :
      (q : Queue (Signed Transaction)) (l : Leader)
      → (execute_round x around q l).queue ≡ (take_batch max_transactions_per_block q).1
  unfolding execute_round execute_batch
  execute_round-queue q l = propose_sorted-queue (take_batch max_transactions_per_block q).1 l _
