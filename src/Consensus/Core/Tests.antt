-- ===== src/Consensus/Core/Tests.antt =====
-- Tests of the signatures, majorities and broadcasts.
use prellblock.Prelude.{ℕ, ◌≤◌, ◌≡◌, ◌↔◌, refl, List, [], ◌∷◌, ok, err, arith}
use prellblock.Prelude.Map
use prellblock.Prelude.Sets.{Distinct}
use prellblock.Pinxit
use prellblock.Pinxit.{PeerId}
use prellblock.Api.Account.{is_expired}
use prellblock.Api.Block.{SignatureList, is_unique}
use prellblock.TransactionChecker.{account_checker, verify_is_rpu}
use prellblock.Consensus.Error.{
  duplicate_signatures, not_enough_signatures, could_not_get_supermajority,
}
use prellblock.Consensus.Message.{
  SignableData, ConsensusResponse, Metadata, ack_prepare, ack_append, response_data,
  verify_metadata,
}
use prellblock.Consensus.Core.{
  Reply, supermajority_reached, verify_rpu_signature, verify_rpu_majority_signatures, receive,
  broadcast_task, broadcast_until_majority,
}
use prellblock.Consensus.Core.Signatures.{IsMajority, verify_rpu_majority_signatures-IsMajority}
use prellblock.Consensus.Core.Quorum.{EachSigned, quorum_intersection}
use prellblock.Consensus.Core.Collected.{NoneExpired}
use prellblock.Consensus.Core.Broadcast.{
  into_ack_prepare, into_ack_append, broadcast-ack_prepare, broadcast-ack_append,
}
use prellblock.Fixtures.{toy, four_rpus, four_rpus-IsConsistent}

abbrev data_of_six : Metadata
data_of_six = record { leader_term = 0; block_number = 0; block_hash = 6 }

abbrev prepare_six : SignableData
prepare_six = response_data (ack_prepare data_of_six)

abbrev append_six : SignableData
append_six = response_data (ack_append data_of_six)

-- by the peers 1, 2, 3 and by 2, 3, 4
abbrev first_three : SignatureList
first_three = (1, 8) ∷ (2, 9) ∷ (3, 10) ∷ []

abbrev last_three : SignatureList
last_three = (2, 10) ∷ (3, 11) ∷ (4, 12) ∷ []

first_three-accepted :
    verify_rpu_majority_signatures toy 0 four_rpus prepare_six first_three ≡ ok tt
unfolding verify_rpu_majority_signatures verify_rpu_signature is_unique supermajority_reached
    response_data Pinxit.verify_signature Map.find is_expired account_checker verify_is_rpu
first_three-accepted = refl

last_three-accepted : verify_rpu_majority_signatures toy 0 four_rpus append_six last_three ≡ ok tt
unfolding verify_rpu_majority_signatures verify_rpu_signature is_unique supermajority_reached
    response_data Pinxit.verify_signature Map.find is_expired account_checker verify_is_rpu
last_three-accepted = refl

two_rejected :
    verify_rpu_majority_signatures toy 0 four_rpus prepare_six ((1, 8) ∷ (2, 9) ∷ [])
    ≡ err not_enough_signatures
unfolding verify_rpu_majority_signatures is_unique supermajority_reached
two_rejected = refl

duplicate_rejected :
    verify_rpu_majority_signatures toy 0 four_rpus prepare_six ((1, 8) ∷ first_three)
    ≡ err duplicate_signatures
unfolding verify_rpu_majority_signatures is_unique
duplicate_rejected = refl

quorum_intersection_example :
    Distinct (2 ∷ 3 ∷ [])
    × (2 ≤ 2)
    × EachSigned toy 0 four_rpus prepare_six (2 ∷ 3 ∷ [])
    × EachSigned toy 0 four_rpus append_six (2 ∷ 3 ∷ [])
quorum_intersection_example =
    quorum_intersection toy 0 four_rpus prepare_six append_six first_three last_three
      four_rpus-IsConsistent first_three-accepted last_three-accepted

verify_rpu_majority_signatures-IsMajority_example :
    (verify_rpu_majority_signatures toy 0 four_rpus prepare_six first_three ≡ ok tt)
    ↔ IsMajority toy 0 four_rpus prepare_six first_three
verify_rpu_majority_signatures-IsMajority_example =
    verify_rpu_majority_signatures-IsMajority toy 0 four_rpus prepare_six first_three

-- The answers of all four peers: the second is an error, the last is signed badly.
abbrev answer : PeerId → ConsensusResponse → ℕ → PeerId × Reply
answer p r signature = (p, ok (record { signer = p; body = r; signature = signature }))

abbrev prepare_answers : List (PeerId × Reply)
prepare_answers =
    answer 1 (ack_prepare data_of_six) 8
    ∷ answer 2 (ack_prepare data_of_six) 9
    ∷ answer 4 (ack_prepare data_of_six) 11
    ∷ answer 3 (ack_prepare data_of_six) 0
    ∷ []

abbrev append_answers : List (PeerId × Reply)
append_answers =
    answer 2 (ack_append data_of_six) 10
    ∷ answer 1 (ack_append data_of_six) 9
    ∷ answer 3 (ack_append data_of_six) 11
    ∷ []

prepare_answers_collected :
    broadcast_until_majority toy into_ack_prepare
      (λ ack. verify_metadata ack data_of_six)
      four_rpus
      prepare_answers
    ≡ ok ((1, 8) ∷ (2, 9) ∷ (4, 11) ∷ [])
unfolding broadcast_until_majority broadcast_task receive supermajority_reached response_data
    verify_metadata Pinxit.verify Pinxit.verify_signature
prepare_answers_collected = refl

append_answers_collected :
    broadcast_until_majority toy into_ack_append
      (λ ack. verify_metadata ack data_of_six)
      four_rpus
      append_answers
    ≡ ok ((2, 10) ∷ (1, 9) ∷ (3, 11) ∷ [])
unfolding broadcast_until_majority broadcast_task receive supermajority_reached response_data
    verify_metadata Pinxit.verify Pinxit.verify_signature
append_answers_collected = refl

too_few_answers :
    broadcast_until_majority toy into_ack_prepare
      (λ ack. verify_metadata ack data_of_six)
      four_rpus
      append_answers
    ≡ err could_not_get_supermajority
unfolding broadcast_until_majority broadcast_task receive supermajority_reached response_data
    verify_metadata Pinxit.verify Pinxit.verify_signature
too_few_answers = refl

four_rpus-NoneExpired : NoneExpired 0 four_rpus
unfolding Map.find is_expired
four_rpus-NoneExpired p a f r = ground arith

broadcast-ack_prepare_test :
    verify_rpu_majority_signatures toy 0 four_rpus prepare_six ((1, 8) ∷ (2, 9) ∷ (4, 11) ∷ [])
    ≡ ok tt
broadcast-ack_prepare_test =
    broadcast-ack_prepare toy 0 four_rpus data_of_six prepare_answers
      ((1, 8) ∷ (2, 9) ∷ (4, 11) ∷ []) four_rpus-IsConsistent four_rpus-NoneExpired
      (refl, (refl, (refl, (refl, tt)))) (λ p h. ground arith) prepare_answers_collected

broadcast-ack_append_test :
    verify_rpu_majority_signatures toy 0 four_rpus append_six ((2, 10) ∷ (1, 9) ∷ (3, 11) ∷ [])
    ≡ ok tt
broadcast-ack_append_test =
    broadcast-ack_append toy 0 four_rpus data_of_six append_answers
      ((2, 10) ∷ (1, 9) ∷ (3, 11) ∷ []) four_rpus-IsConsistent four_rpus-NoneExpired
      (refl, (refl, (refl, tt))) (λ p h. ground arith) append_answers_collected
