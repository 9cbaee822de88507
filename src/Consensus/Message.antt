-- ===== src/Consensus/Message.antt =====
-- prellblock/src/consensus/praftbft/message: what the RPUs send to one another, and what they sign.
use prellblock.Prelude.{ℕ, Bool, ◌&&◌, ◌==◌, if◌then◌else◌, List, Option, Outcome, ok, err}
use prellblock.Pinxit.{Signed}
use prellblock.Api.Account.{Time}
use prellblock.Api.Transaction.{Transaction}
use prellblock.Api.Block.{Block, BlockHash, BlockNumber, LeaderTerm, SignatureList}
use prellblock.Consensus.Error.{Error, ack_does_not_match}

-- the index at which the transaction would be applied
abbrev pub InvalidTransaction : Type 0
InvalidTransaction = ℕ × Signed Transaction

pub record Metadata : Type 0 where
  pub leader_term : LeaderTerm
  pub block_number : BlockNumber
  pub block_hash : BlockHash

abbrev pub metadata_eq : Metadata → Metadata → Bool
metadata_eq a b =
    a.leader_term == b.leader_term
    && (a.block_number == b.block_number && a.block_hash == b.block_hash)

-- `Metadata::verify`
unfoldable pub verify_metadata : Metadata → Metadata → Outcome Error (Unit {0})
verify_metadata m other = if metadata_eq m other then ok tt else err ack_does_not_match

pub record Prepare : Type 0 where
  pub metadata : Metadata

pub record Append : Type 0 where
  pub metadata : Metadata
  pub ackprepare_signatures : SignatureList
  pub valid_transactions : List (Signed Transaction)
  pub invalid_transactions : List InvalidTransaction
  pub timestamp : Time

pub record Commit : Type 0 where
  pub metadata : Metadata
  pub ackappend_signatures : SignatureList

pub record NewView : Type 0 where
  pub leader_term : LeaderTerm
  pub view_change_signatures : SignatureList
  pub current_block_number : BlockNumber

pub record SynchronizationRequest : Type 0 where
  pub leader_term : LeaderTerm
  pub block_number : BlockNumber
  pub block_hash : BlockHash

pub data ConsensusMessage : Type 0 where
  prepare : Prepare → ConsensusMessage
  append : Append → ConsensusMessage
  commit : Commit → ConsensusMessage
  -- the new leader term
  view_change : LeaderTerm → ConsensusMessage
  new_view : NewView → ConsensusMessage
  synchronization_request : SynchronizationRequest → ConsensusMessage

pub record SynchronizationResponse : Type 0 where
  pub new_view : Option (LeaderTerm × SignatureList)
  pub blocks : List Block

pub data ConsensusResponse : Type 0 where
  ack_prepare ack_append : Metadata → ConsensusResponse
  synchronization_response : SynchronizationResponse → ConsensusResponse
  ok_response : ConsensusResponse

pub data SignableData : Type 0 where
  consensus_message : ConsensusMessage → SignableData
  consensus_response : ConsensusResponse → SignableData
  append_message : Metadata → SignatureList → SignableData

-- `Signable for ConsensusMessage`: the transactions of an append message are signed by their hash.
unfoldable pub message_data : ConsensusMessage → SignableData
message_data (append message) = append_message message.metadata message.ackprepare_signatures
message_data message = consensus_message message

-- `Signable for ConsensusResponse`
unfoldable pub response_data : ConsensusResponse → SignableData
response_data response = consensus_response response
