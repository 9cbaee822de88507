-- ===== src/Consensus/Error.antt =====
-- prellblock/src/consensus/praftbft/error.rs, and the follower's phases.
use prellblock.Prelude.{ℕ, Bool, true, false, ◌==◌, if◌then◌else◌, Outcome, ok, err}
use prellblock.Pinxit
use prellblock.Pinxit.{PeerId}
use prellblock.Api.Transaction.{Transaction}
use prellblock.Api.Block.{BlockHash, BlockNumber, LeaderTerm}
use prellblock.TransactionChecker.{PermissionError}
use prellblock.RingBuffer

-- `follower::Phase`
pub data Phase : Type 0 where
  waiting prepare append : Phase

-- The errors of `balise` and of the block storage are not told apart.
pub data Error : Type 0 where
  unexpected_response balise block_storage : Error
  permission : PermissionError → Error
  not_enough_signatures duplicate_signatures : Error
  invalid_signature : Pinxit.Error → Error
  wrong_leader_term : Error
  wrong_leader invalid_peer : PeerId → Error
  empty_block : Error
  censorship_detected : Transaction → Error
  bad_invalid_transaction_index : ℕ → Error
  ack_does_not_match changed_block_hash block_not_matching_hash : Error
  prev_block_hash_does_not_match : BlockHash → BlockHash → Error
  -- the received number, then the expected one
  wrong_block_number : BlockNumber → BlockNumber → Error
  leader_term_too_small leader_term_too_big : LeaderTerm → Error
  -- the current phase, then the expected one
  wrong_phase : Phase → Phase → Error
  could_not_get_supermajority : Error

-- `From<ring_buffer::Error<LeaderTerm>>`
abbrev pub from_ring_buffer : RingBuffer.Error → Error
from_ring_buffer (RingBuffer.Error.ringbuffer_underflow leader_term) =
    leader_term_too_small leader_term
from_ring_buffer (RingBuffer.Error.ringbuffer_overflow leader_term) =
    leader_term_too_big leader_term

-- `ErrorVerify for LeaderTerm`
unfoldable pub verify_leader_term : LeaderTerm → LeaderTerm → Outcome Error (Unit {0})
verify_leader_term received expected = if received == expected then ok tt else err wrong_leader_term

-- `ErrorVerify for BlockNumber`
unfoldable pub verify_block_number : BlockNumber → BlockNumber → Outcome Error (Unit {0})
verify_block_number received expected =
    if received == expected then ok tt else err (wrong_block_number received expected)

abbrev pub phase_eq : Phase → Phase → Bool
phase_eq waiting waiting = true
phase_eq prepare prepare = true
phase_eq append append = true
phase_eq _ _ = false

-- `Phase::verify`
unfoldable pub verify_phase : Phase → Phase → Outcome Error (Unit {0})
verify_phase current expected =
    if phase_eq current expected then ok tt else err (wrong_phase current expected)
