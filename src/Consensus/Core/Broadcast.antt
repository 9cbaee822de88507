-- ===== src/Consensus/Core/Broadcast.antt =====
-- What a broadcast collects is what the followers accept.
use prellblock.Prelude.{◌≡◌, List, Option, none, some, ok, arith}
use prellblock.Prelude.Sets.{Distinct, Subset}
use prellblock.Pinxit.{PeerId}
use prellblock.Api.Account.{Time}
use prellblock.Api.Block.{SignatureList}
use prellblock.WorldState.{WorldState, peer_ids}
use prellblock.WorldState.Consistency.{IsConsistent}
use prellblock.Consensus.Message.{
  ConsensusResponse, Metadata, ack_prepare, ack_append, response_data, verify_metadata,
}
use prellblock.Consensus.Core.{
  Externals, Reply, broadcast_until_majority, verify_rpu_majority_signatures,
}
use prellblock.Consensus.Core.Collected.{asked, NoneExpired, broadcast_lem}

-- `into_variant` of the two acknowledgements
abbrev pub into_ack_prepare : ConsensusResponse → Option Metadata
into_ack_prepare (ack_prepare metadata) = some metadata
into_ack_prepare other = none

abbrev pub into_ack_append : ConsensusResponse → Option Metadata
into_ack_append (ack_append metadata) = some metadata
into_ack_append other = none

metadata_eq_lem : (m n : Metadata) → verify_metadata m n ≡ ok tt → m ≡ n
unfolding verify_metadata
metadata_eq_lem m n h = ground arith

module _ (x : Externals) (now : Time) (w : WorldState) (metadata : Metadata)
    (arrivals : List (PeerId × Reply)) (result : SignatureList) (consistent : IsConsistent w)
    (none_expired : NoneExpired now w) (once : Distinct (asked arrivals))
    (peers_only : Subset (asked arrivals) (peer_ids w.peers)) where
  -- What the leader's prepare phase collects for a block is what the followers check of an append
  -- message for it, a majority of signatures of the same acknowledgement, if the world state is
  -- consistent, no RPU has expired, and only its peers are asked, each at most once.
  pub broadcast-ack_prepare :
      broadcast_until_majority x into_ack_prepare (λ ack. verify_metadata ack metadata) w arrivals
        ≡ ok result
      → verify_rpu_majority_signatures x now w (response_data (ack_prepare metadata)) result ≡ ok tt
  broadcast-ack_prepare =
      broadcast_lem x (response_data (ack_prepare metadata)) into_ack_prepare
        (λ ack. verify_metadata ack metadata) only now w arrivals result consistent none_expired
        once peers_only
    where
      only :
          (body : ConsensusResponse) (r : Metadata)
          → into_ack_prepare body ≡ some r
          → verify_metadata r metadata ≡ ok tt
          → response_data body ≡ response_data (ack_prepare metadata)
      only (ack_prepare m) r h k = ground (arith, metadata_eq_lem r metadata k)
      only (ack_append m) r h k = cc
      only (ConsensusResponse.synchronization_response s) r h k = cc
      only ConsensusResponse.ok_response r h k = cc

  -- What the leader's append phase collects for a block is what the followers check of a commit message
  -- for it, if the world state is consistent, no RPU has expired, and only its peers are asked, each at
  -- most once.
  pub broadcast-ack_append :
      broadcast_until_majority x into_ack_append (λ ack. verify_metadata ack metadata) w arrivals
        ≡ ok result
      → verify_rpu_majority_signatures x now w (response_data (ack_append metadata)) result ≡ ok tt
  broadcast-ack_append =
      broadcast_lem x (response_data (ack_append metadata)) into_ack_append
        (λ ack. verify_metadata ack metadata) only now w arrivals result consistent none_expired
        once peers_only
    where
      only :
          (body : ConsensusResponse) (r : Metadata)
          → into_ack_append body ≡ some r
          → verify_metadata r metadata ≡ ok tt
          → response_data body ≡ response_data (ack_append metadata)
      only (ack_append m) r h k = ground (arith, metadata_eq_lem r metadata k)
      only (ack_prepare m) r h k = cc
      only (ConsensusResponse.synchronization_response s) r h k = cc
      only ConsensusResponse.ok_response r h k = cc
