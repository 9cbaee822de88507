-- ===== src/Consensus/Leader.antt =====
-- prellblock/src/consensus/praftbft/leader.rs: the rounds of a leader, from a batch of the queue to the
-- commit messages.
mod Batch
pub mod Wakeups
pub mod Majority
mod Committing
pub mod Honest
mod Tests
use prellblock.Prelude.{
  ℕ, zero, suc, List, [], ◌∷◌, ◌++◌, Option, none, some, Bool, true, false, ◌==◌, leb,
  if◌then◌else◌, Outcome, ok, err, panicked, add_u64,
}
use prellblock.Pinxit.{PeerId, Signed}
use prellblock.Api.Account.{Time}
use prellblock.Api.Transaction.{Transaction}
use prellblock.Api.Block.{Body, BlockHash, BlockNumber, LeaderTerm, SignatureList}
use prellblock.Queue.{Queue, len, next}
use prellblock.WorldState.{WorldState}
use prellblock.Consensus.Error.{Error}
use prellblock.Consensus.Message.{
  Metadata, Prepare, Append, Commit, ConsensusMessage, new_view, ConsensusResponse, ok_response,
  verify_metadata,
}
use prellblock.Consensus.Core.{Externals, Reply, leader, broadcast_until_majority}
use prellblock.Consensus.Core.Broadcast.{into_ack_prepare, into_ack_append}
use prellblock.Consensus.Validation.{Sorted, leader_stateful_validate}
use prellblock.Consensus.ViewChange
use prellblock.Consensus.ViewChange.{get_new_view_message}
use prellblock.Consensus.Follower.{State}

pub data Phase : Type 0 where
  waiting prepare append commit : Phase

-- `transaction_check` is the virtual world state of the leader.
pub record Leader : Type 0 where
  pub leader_term : LeaderTerm
  pub block_number : BlockNumber
  pub last_block_hash : BlockHash
  pub phase : Phase
  pub transaction_check : WorldState

-- `Leader::new`, with the current world state
unfoldable pub new : WorldState → Leader
new w = record {
  leader_term = 0;
  block_number = 0;
  last_block_hash = 0;
  phase = waiting;
  transaction_check = w;
}

-- the assignments under the guard
abbrev pub follow : State → Leader → Leader
follow s l = record l {
  leader_term = s.leader_term;
  block_number = s.block_number;
  last_block_hash = s.last_block_hash;
}

-- from the state of the follower and the current world state
unfoldable pub synchronize_from_follower : State → WorldState → Leader → Leader
synchronize_from_follower s w l =
    record (if leb l.leader_term s.leader_term then follow s l else l) { transaction_check = w }

-- `self.leader_term += 1` at the end of a leader term
unfoldable pub finish_leader_term : Leader → Leader
finish_leader_term l = record l { leader_term = add_u64 l.leader_term 1 }

-- `none` is the panic of `leader`.
unfoldable pub is_current_leader : WorldState → PeerId → Leader → Option Bool
is_current_leader w id l = elim (leader w l.leader_term) [
  | none ↦ none
  | some peer_id ↦ some (peer_id == id)
]

abbrev pub metadata_with : BlockHash → Leader → Metadata
metadata_with block_hash l = record {
  leader_term = l.leader_term;
  block_number = l.block_number;
  block_hash = block_hash;
}

abbrev pub max_transactions_per_block : ℕ
max_transactions_per_block = 4000

module _ {T : Type 0} where
  -- The loop at the start of a round, with the number of transactions that still fit.
  unfoldable pub take_batch : ℕ → Queue T → List T × Queue T
  take_batch zero q = ([], q)
  take_batch (suc room) q =
      let (transaction, q') = next q in
      elim transaction [
        | none ↦ ([], q')
        | some t ↦ (let (transactions, rest) = take_batch room q' in (t ∷ transactions, rest))
      ]

-- What a round finds around it: the time of the check, the time stamp of the block, the world state
-- whose peers are asked, and the answers to each message in the order in which they arrive.
pub record Surroundings : Type 0 where
  pub now : Time
  pub timestamp : Time
  pub world : WorldState
  pub answers : ConsensusMessage → List (PeerId × Reply)

-- What a round leaves: the leader, the queue, the messages that it has broadcast, and its result.
pub record Round : Type 0 where
  pub leader : Leader
  pub queue : Queue (Signed Transaction)
  pub sent : List ConsensusMessage
  pub result : Outcome Error (Unit {0})

-- the `?` after a phase
abbrev pub and_then :
    Leader
    → Queue (Signed Transaction)
    → List ConsensusMessage
    → Outcome Error SignatureList
    → (SignatureList → Round)
    → Round
and_then l q sent (ok signatures) next = next signatures
and_then l q sent (err e) next = record { leader = l; queue = q; sent = sent; result = err e }
and_then l q sent panicked next = record { leader = l; queue = q; sent = sent; result = panicked }

abbrev pub in_phase : Phase → Leader → Leader
in_phase p l = record l { phase = p }

-- the end of a round
abbrev pub next_block : BlockHash → Leader → Leader
next_block block_hash l = record l {
  block_number = add_u64 l.block_number 1;
  last_block_hash = block_hash;
}

abbrev pub into_ok : ConsensusResponse → Option (Unit {0})
into_ok ok_response = some tt
into_ok other = none

module _ (x : Externals) (around : Surroundings) where
  -- the three broadcasts
  unfoldable pub broadcast_prepare : Metadata → Outcome Error SignatureList
  broadcast_prepare metadata =
      broadcast_until_majority x into_ack_prepare (λ ack. verify_metadata ack metadata) around.world
        (around.answers (ConsensusMessage.prepare (record { metadata = metadata })))

  unfoldable pub broadcast_append : Append → Outcome Error SignatureList
  broadcast_append message =
      broadcast_until_majority x into_ack_append (λ ack. verify_metadata ack message.metadata)
        around.world (around.answers (ConsensusMessage.append message))

  unfoldable pub broadcast_commit : Commit → Outcome Error SignatureList
  broadcast_commit message =
      broadcast_until_majority x into_ok (λ done. ok tt) around.world
        (around.answers (ConsensusMessage.commit message))

  -- what the messages of a round are made of
  abbrev pub body_of : Sorted → Leader → Body
  body_of s l = record {
    leader_term = l.leader_term;
    height = l.block_number;
    prev_block_hash = l.last_block_hash;
    timestamp = around.timestamp;
    transactions = s.valid;
  }

  abbrev pub prepare_of : Sorted → Leader → Prepare
  prepare_of s l = record { metadata = metadata_with (x.hash (body_of s l)) l }

  abbrev pub append_of : Sorted → SignatureList → Leader → Append
  append_of s signatures l = record {
    metadata = metadata_with (x.hash (body_of s l)) l;
    ackprepare_signatures = signatures;
    valid_transactions = s.valid;
    invalid_transactions = s.invalid;
    timestamp = around.timestamp;
  }

  abbrev pub commit_of : Sorted → SignatureList → Leader → Commit
  commit_of s signatures l = record {
    metadata = metadata_with (x.hash (body_of s l)) l;
    ackappend_signatures = signatures;
  }

  -- the last phase, and what has been sent at its end
  unfoldable pub commit_phase :
      Sorted → Queue (Signed Transaction) → Leader → List ConsensusMessage → SignatureList → Round
  unfolding broadcast_commit
  commit_phase s q l sent ackappend_signatures =
      let message = commit_of s ackappend_signatures l in
      let sent' = sent ++ (ConsensusMessage.commit message ∷ []) in
      and_then (in_phase commit l) q sent' (broadcast_commit message) (λ signatures. record {
        leader = next_block message.metadata.block_hash (in_phase commit l);
        queue = q;
        sent = sent';
        result = ok tt;
      })

  unfoldable pub append_phase :
      Sorted → Queue (Signed Transaction) → Leader → List ConsensusMessage → SignatureList → Round
  unfolding broadcast_append commit_phase
  append_phase s q l sent ackprepare_signatures =
      let message = append_of s ackprepare_signatures l in
      let sent' = sent ++ (ConsensusMessage.append message ∷ []) in
      and_then (in_phase append l) q sent' (broadcast_append message) (commit_phase s q l sent')

  -- the three phases, for a sorted batch
  unfoldable pub propose : Sorted → Queue (Signed Transaction) → Leader → Round
  unfolding broadcast_prepare append_phase
  propose s q l =
      let message = prepare_of s l in
      let sent = ConsensusMessage.prepare message ∷ [] in
      and_then (in_phase prepare l) q sent (broadcast_prepare message.metadata)
        (append_phase s q l sent)

  abbrev pub propose_sorted : Queue (Signed Transaction) → Leader → Outcome Error Sorted → Round
  propose_sorted q l (ok s) = propose s q (record l { transaction_check = s.world })
  propose_sorted q l (err e) = record { leader = l; queue = q; sent = []; result = err e }
  propose_sorted q l panicked = record { leader = l; queue = q; sent = []; result = panicked }

  -- the part of a round after the batch has been taken
  unfoldable pub execute_batch :
      List (Signed Transaction) → Queue (Signed Transaction) → Leader → Round
  unfolding propose
  execute_batch transactions q l =
      propose_sorted q l (leader_stateful_validate x around.now l.transaction_check transactions)

  unfoldable pub execute_round : Queue (Signed Transaction) → Leader → Round
  unfolding execute_batch take_batch
  execute_round q l =
      let (transactions, q') = take_batch max_transactions_per_block q in
      execute_batch transactions q' l

-- `Leader::handle_new_view`: what is broadcast, and the state of the view change; the result of the
-- broadcast is only logged. `none` is the panic of `leader`.
unfoldable pub handle_new_view :
    WorldState
    → PeerId
    → ViewChange.State
    → Leader
    → Option (List ConsensusMessage × ViewChange.State)
handle_new_view w id v l = elim (get_new_view_message w id l.block_number v) [
  | none ↦ none
  | some (message, v') ↦ elim message [ none ↦ some ([], v') | some m ↦ some (new_view m ∷ [], v') ]
]

-- The smallest block: only full ones, unless the wait for a notification has timed out.
abbrev pub min_block_size : Bool → ℕ
min_block_size timed_out = if timed_out then 1 else max_transactions_per_block

-- the `?` after a round, with what the later rounds leave
abbrev pub followed_by : Round → Outcome Error (Unit {0}) → Option Round → Option Round
followed_by r (ok done) none = none
followed_by r (ok done) (some last) = some (record last { sent = r.sent ++ last.sent })
followed_by r (err e) later = some r
followed_by r panicked later = some r

-- The inner loop of `execute_leader_term`; `none` if more rounds follow than there are surroundings.
module _ (x : Externals) (timed_out : Bool) where
  unfoldable pub execute_rounds :
      List Surroundings → Queue (Signed Transaction) → Leader → Option Round
  unfolding execute_round
  execute_rounds [] q l =
      if leb (min_block_size timed_out) (len q)
      then none
      else some (record { leader = l; queue = q; sent = []; result = ok tt })
  execute_rounds (around ∷ later) q l =
      if leb (min_block_size timed_out) (len q)
      then (let r = execute_round x around q l in
          followed_by r r.result (execute_rounds later r.queue r.leader))
      else some (record { leader = l; queue = q; sent = []; result = ok tt })

-- One turn of the outer loop: it starts in the waiting phase.
unfoldable pub execute_leader_term_turn :
    Externals → Bool → List Surroundings → Queue (Signed Transaction) → Leader → Option Round
unfolding execute_rounds
execute_leader_term_turn x timed_out arounds q l =
    execute_rounds x timed_out arounds q (record l { phase = waiting })
