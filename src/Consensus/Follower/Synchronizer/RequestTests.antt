-- ===== src/Consensus/Follower/Synchronizer/RequestTests.antt =====
-- Tests of the answer to a synchronization request, from a peer with three blocks.
use prellblock.Prelude.{◌≡◌, ◌≢◌, refl, true, List, [], ◌∷◌, none, arith}
use prellblock.Api.Block.{Block}
use prellblock.Consensus.Message.{SynchronizationRequest}
use prellblock.Consensus.Follower.{Node}
use prellblock.Consensus.Follower.Tests.{list_store}
use prellblock.Consensus.Follower.Handlers.Tests.{start_node}
use prellblock.Consensus.Follower.Synchronizer.Request.{
  handle_synchronization_request, handle_synchronization_request-missing,
  handle_synchronization_request-all,
}
use prellblock.Fixtures.{toy_hash, block_at}

abbrev three_blocks : List Block
three_blocks = block_at 0 0 [] ∷ block_at 1 1 [] ∷ block_at 2 2 [] ∷ []

abbrev ahead : Node list_store toy_hash
ahead = record start_node {
  state = record {
    leader_term = 3;
    new_view_signatures = [];
    block_number = 3;
    last_block_hash = 3;
    block_hash = none;
    block_content = none;
    rollback_possible = true;
    buffered_commit_message = none;
  };
  storage = three_blocks;
}

-- from a peer with the first two blocks
abbrev behind_by_one : SynchronizationRequest
behind_by_one = record { leader_term = 3; block_number = 2; block_hash = 2 }

abbrev from_nothing : SynchronizationRequest
from_nothing = record { leader_term = 0; block_number = 0; block_hash = 0 }

handle_synchronization_request-missing_example :
    (behind_by_one.block_hash ≡ 2
      → (handle_synchronization_request list_store toy_hash behind_by_one ahead).blocks
        ≡ block_at 2 2 [] ∷ [])
    × (behind_by_one.block_hash ≢ 2
        → (handle_synchronization_request list_store toy_hash behind_by_one ahead).blocks
          ≡ block_at 1 1 [] ∷ block_at 2 2 [] ∷ [])
handle_synchronization_request-missing_example =
    handle_synchronization_request-missing list_store toy_hash behind_by_one ahead
      (block_at 0 0 [] ∷ []) (block_at 2 2 [] ∷ []) (block_at 1 1 []) (refl, (refl, (refl, tt)))
      refl (omega arith) refl refl

handle_synchronization_request-all_test :
    (handle_synchronization_request list_store toy_hash from_nothing ahead).blocks ≡ three_blocks
handle_synchronization_request-all_test =
    handle_synchronization_request-all list_store toy_hash from_nothing ahead (block_at 0 0 [])
      (block_at 1 1 [] ∷ block_at 2 2 [] ∷ []) (refl, (refl, (refl, tt))) refl refl refl refl
      (λ h. ground (arith, h))
