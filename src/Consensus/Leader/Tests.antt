-- ===== src/Consensus/Leader/Tests.antt =====
-- Tests of the rounds of the leader 1 of four RPUs, after their first block.
use prellblock.Prelude.{
  ◌+◌, ◌≡◌, ◌≤◌, refl, true, false, List, [], ◌∷◌, ◌++◌, some, ok, err, length, arith,
}
use prellblock.Prelude.Map
use prellblock.Prelude.Sets.{Distinct, Subset}
use prellblock.Pinxit
use prellblock.Pinxit.{PeerId, Signed}
use prellblock.Api.Account
use prellblock.Api.Account.{is_expired, apply_permissions}
use prellblock.Api.Transaction.{Transaction}
use prellblock.Queue.{Queue, next}
use prellblock.WorldState.{peer_ids, apply_transaction}
use prellblock.TransactionChecker.{
  account_checker, verify_and_apply, verify_permissions_and_apply, verify_is_admin,
}
use prellblock.Consensus.Error.{could_not_get_supermajority}
use prellblock.Consensus.Message.{
  ConsensusMessage, ConsensusResponse, ack_prepare, ack_append, ok_response, response_data,
  verify_metadata,
}
use prellblock.Consensus.Core.{
  Reply, leader, supermajority_reached, receive, broadcast_task, broadcast_until_majority,
}
use prellblock.Consensus.Core.Collected.{asked, NoneExpired}
use prellblock.Consensus.Validation.{Sorted, sort_from, leader_stateful_validate}
use prellblock.Consensus.Follower.{new}
use prellblock.Consensus.Follower.Tests.{list_store}
use prellblock.Consensus.Follower.Handlers.{is_empty}
use prellblock.Consensus.Follower.Handlers.Tests.{
  started, started-IsConsistent, start_node, start_node-IsCoherent, creates,
}
use prellblock.Consensus.Leader.{
  Leader, Surroundings, synchronize_from_follower, take_batch, max_transactions_per_block,
  broadcast_prepare, broadcast_append, broadcast_commit, commit_phase, append_phase, propose,
  execute_batch, execute_round, execute_rounds, Round,
}
use prellblock.Consensus.Leader
use prellblock.Consensus.Leader.Wakeups.{IsDrained, execute_rounds-IsDrained}
use prellblock.Consensus.Leader.Majority.{RoundDone, execute_round-HasMajorities}
use prellblock.Consensus.Leader.Honest.{Awaits, Takes, execute_round-Takes}
use prellblock.Fixtures.{toy, toy_signatures-IsSound}

abbrev first_leader : Leader
first_leader = record {
  leader_term = 0;
  block_number = 1;
  last_block_hash = 1;
  phase = Leader.waiting;
  transaction_check = started;
}

synchronized :
    synchronize_from_follower start_node.state started (Leader.new started) ≡ first_leader
unfolding synchronize_from_follower Leader.new new
synchronized = refl

abbrev one_queued : Queue (Signed Transaction)
one_queued = record { entries = record { inserted = 3; item = creates 5 } ∷ [] }

-- The answers of three peers; the signature is the sum of the peer and of the bytes.
abbrev three_answers : ConsensusResponse → PeerId → List (PeerId × Reply)
three_answers r bytes =
    (1, ok (record { signer = 1; body = r; signature = 1 + bytes }))
    ∷ (2, ok (record { signer = 2; body = r; signature = 2 + bytes }))
    ∷ (3, ok (record { signer = 3; body = r; signature = 3 + bytes }))
    ∷ []

abbrev answers_to : ConsensusMessage → List (PeerId × Reply)
answers_to (ConsensusMessage.prepare m) =
    three_answers (ack_prepare m.metadata) (1 + m.metadata.block_hash)
answers_to (ConsensusMessage.append m) =
    three_answers (ack_append m.metadata) (2 + m.metadata.block_hash)
answers_to other = three_answers ok_response 0

abbrev all_answer : Surroundings
all_answer = record { now = 0; timestamp = 0; world = started; answers = answers_to }

abbrev nobody_answers : Surroundings
nobody_answers = record { now = 0; timestamp = 0; world = started; answers = λ m. [] }

round-ok : (execute_round toy all_answer one_queued first_leader).result ≡ ok tt
unfolding execute_round execute_batch take_batch next propose append_phase commit_phase
    broadcast_prepare broadcast_append broadcast_commit broadcast_until_majority broadcast_task
    receive supermajority_reached response_data verify_metadata Pinxit.verify
    Pinxit.verify_signature Pinxit.verify_signed_batch leader_stateful_validate sort_from
    verify_permissions_and_apply verify_and_apply verify_is_admin account_checker Map.find
    Map.insert Map.remove is_expired apply_transaction apply_permissions Account.new
round-ok = refl

round-refused :
    (execute_round toy nobody_answers one_queued first_leader).result
    ≡ err could_not_get_supermajority
unfolding execute_round execute_batch take_batch next propose append_phase commit_phase
    broadcast_prepare broadcast_append broadcast_commit broadcast_until_majority
    leader_stateful_validate sort_from verify_permissions_and_apply verify_and_apply verify_is_admin
    account_checker Map.find Map.insert Map.remove is_expired apply_transaction apply_permissions
    Account.new Pinxit.verify_signed_batch
round-refused = refl

execute_rounds-IsDrained_example :
    (r : Round) × (execute_rounds toy true (all_answer ∷ []) one_queued first_leader ≡ some r)
    × IsDrained true r
execute_rounds-IsDrained_example =
    execute_rounds-IsDrained toy true (all_answer ∷ []) one_queued first_leader (omega arith)

started-NoneExpired : NoneExpired 0 started
unfolding Map.find is_expired
started-NoneExpired p a f r = ground arith

once : (m : ConsensusMessage) → Distinct (asked (answers_to m))
once (ConsensusMessage.prepare m) = (refl, (refl, (refl, tt)))
once (ConsensusMessage.append m) = (refl, (refl, (refl, tt)))
once (ConsensusMessage.commit m) = (refl, (refl, (refl, tt)))
once (ConsensusMessage.view_change m) = (refl, (refl, (refl, tt)))
once (ConsensusMessage.new_view m) = (refl, (refl, (refl, tt)))
once (ConsensusMessage.synchronization_request m) = (refl, (refl, (refl, tt)))

three_peers : Subset (1 ∷ 2 ∷ 3 ∷ []) (peer_ids started.peers)
three_peers p h = ground arith

peers_only : (m : ConsensusMessage) → Subset (asked (answers_to m)) (peer_ids started.peers)
peers_only (ConsensusMessage.prepare m) = three_peers
peers_only (ConsensusMessage.append m) = three_peers
peers_only (ConsensusMessage.commit m) = three_peers
peers_only (ConsensusMessage.view_change m) = three_peers
peers_only (ConsensusMessage.new_view m) = three_peers
peers_only (ConsensusMessage.synchronization_request m) = three_peers

one_valid :
    (s : Sorted)
    → leader_stateful_validate toy 0 started (take_batch max_transactions_per_block one_queued).0
      ≡ ok s
    → (is_empty s.valid ≡ false) × (length s.invalid ≤ 1)
unfolding take_batch next leader_stateful_validate sort_from verify_permissions_and_apply
    verify_and_apply verify_is_admin account_checker Map.find Map.insert Map.remove is_expired
    apply_transaction apply_permissions Account.new Pinxit.verify_signed_batch
one_valid s h = (ground arith, ground arith)

awaited : Awaits list_store toy first_leader start_node
awaited =
    unfold new in
    record {
      term = refl;
      number = refl;
      last = refl;
      world = refl;
      nothing_prepared = refl;
      nothing_appended = refl;
      nothing_kept = refl;
    }

leads : leader started 0 ≡ some 1
unfolding leader
leads = refl

execute_round-HasMajorities_example : RoundDone toy all_answer one_queued first_leader
execute_round-HasMajorities_example =
    (execute_round-HasMajorities toy all_answer one_queued first_leader started-IsConsistent
      started-NoneExpired once peers_only round-ok).0

execute_round-Takes_example :
    (d : RoundDone toy all_answer one_queued first_leader) × Takes list_store toy all_answer 1
      one_queued first_leader start_node d
execute_round-Takes_example =
    execute_round-Takes list_store toy toy_signatures-IsSound all_answer 1 one_queued first_leader
      start_node start_node-IsCoherent awaited refl started-IsConsistent started-NoneExpired once
      peers_only leads one_valid (λ b h k. (start_node.storage ++ (b ∷ []), refl)) round-ok
