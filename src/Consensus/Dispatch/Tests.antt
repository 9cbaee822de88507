-- ===== src/Consensus/Dispatch/Tests.antt =====
-- Tests of the answers of an RPU, from the state of a follower after the first block.
use prellblock.Prelude.{◌≡◌, refl, false, [], ◌∷◌, map, ok, err, ne-panicked_of_ok}
use prellblock.Prelude.Map
use prellblock.Pinxit
use prellblock.Pinxit.{Signed, Identity, from_secret_key}
use prellblock.Api.Account.{is_expired}
use prellblock.Queue.{peek, insert, empty}
use prellblock.TransactionChecker.{account_checker, verify_is_rpu, not_an_rpu}
use prellblock.Consensus.Error.{
  balise, permission, verify_leader_term, verify_block_number, verify_phase,
}
use prellblock.Consensus.Message.{
  ConsensusMessage, ConsensusResponse, Metadata, ack_prepare, message_data, response_data,
}
use prellblock.Consensus.Core.{leader}
use prellblock.Consensus.Core.Signatures.{IsSignatureOf, IsActiveRpu}
use prellblock.Consensus.ViewChange
use prellblock.Consensus.ViewChange.{broadcast_view_change, request_view_change}
use prellblock.Consensus.Follower.{new, phase, verify_leader, to_prepare}
use prellblock.Consensus.Follower.Coherence.{IsCoherent}
use prellblock.Consensus.Follower.Tests.{list_store}
use prellblock.Consensus.Follower.Handlers.{handle_prepare}
use prellblock.Consensus.Follower.Handlers.Tests.{started, start_node, start_node-IsCoherent}
use prellblock.Consensus.Dispatch.{
  Instance, dispatch, verify_message, handle_message, check_censorship,
}
use prellblock.Consensus.Dispatch.Answered.{handle_message-IsCoherent, handle_message-answered}
use prellblock.Fixtures.{toy, toy_hash, toy_signatures-IsSound, good}

abbrev pub second_rpu : Instance list_store toy
second_rpu = record { follower = start_node; view_change = ViewChange.new }

abbrev pub of_round : Metadata
of_round = record { leader_term = 0; block_number = 1; block_hash = 2 }

abbrev pub from_leader : Signed ConsensusMessage
from_leader = record {
  signer = 1;
  body = ConsensusMessage.prepare (record { metadata = of_round });
  signature = 1;
}

abbrev from_admin : Signed ConsensusMessage
from_admin = record from_leader { signer = 9; signature = 9 }

abbrev acknowledgement : Signed ConsensusResponse
acknowledgement = record { signer = 2; body = ack_prepare of_round; signature = 5 }

prepare-answered :
    (handle_message list_store toy 0
      (map (λ t. (0, t)))
      (from_secret_key toy.ed25519 2)
      (err balise)
      from_leader
      second_rpu).result
    ≡ ok acknowledgement
unfolding handle_message dispatch verify_message account_checker verify_is_rpu Map.find is_expired
    message_data response_data Pinxit.verify Pinxit.verify_signature Pinxit.sign from_secret_key
    handle_prepare new phase verify_phase verify_leader_term verify_leader leader
    verify_block_number to_prepare
prepare-answered = refl

only_rpus :
    (handle_message list_store toy 0
      (map (λ t. (0, t)))
      (from_secret_key toy.ed25519 2)
      (err balise)
      from_admin
      second_rpu).result
    ≡ err (permission (not_an_rpu 9))
unfolding handle_message verify_message account_checker verify_is_rpu Map.find is_expired
only_rpus = refl

handle_message-IsCoherent_example :
    IsCoherent list_store toy_hash
      (handle_message list_store toy 0
        (map (λ t. (0, t)))
        (from_secret_key toy.ed25519 2)
        (err balise)
        from_leader
        second_rpu).instance'.follower
handle_message-IsCoherent_example =
    handle_message-IsCoherent list_store toy 0 (map (λ t. (0, t))) (from_secret_key toy.ed25519 2)
      (err balise) from_leader second_rpu start_node-IsCoherent
      (ne-panicked_of_ok _ acknowledgement prepare-answered)

handle_message-answered_example :
    IsActiveRpu 0 started 1
    × IsSignatureOf toy (message_data from_leader.body) 1 1
    × (Pinxit.verify toy.ed25519 (λ a. toy.encode (response_data a)) acknowledgement
        ≡ ok (record { inner = acknowledgement }))
    × (acknowledgement.signer ≡ 2)
handle_message-answered_example =
    handle_message-answered list_store toy 0 (map (λ t. (0, t))) toy_signatures-IsSound 2
      (err balise) from_leader second_rpu acknowledgement prepare-answered

-- The first transaction of the queue is 10001 milliseconds old, then 10000.
censored :
    check_censorship false 10004 (insert 3 good empty) ViewChange.new ≡ broadcast_view_change 1 ∷ []
unfolding check_censorship peek insert request_view_change ViewChange.new
censored = refl

not_censored : check_censorship false 10003 (insert 3 good empty) ViewChange.new ≡ []
unfolding check_censorship peek insert
not_censored = refl
