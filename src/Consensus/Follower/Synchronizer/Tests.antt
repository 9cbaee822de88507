-- ===== src/Consensus/Follower/Synchronizer/Tests.antt =====
-- Tests of the synchronization and of a new view.
use prellblock.Prelude.{
  true, false, ℕ, ◌≡◌, refl, List, [], ◌∷◌, map, none, some, ok, ne-panicked_of_ok,
}
use prellblock.Prelude.Map
use prellblock.Pinxit
use prellblock.Pinxit.{Signed}
use prellblock.Api.Account
use prellblock.Api.Account.{rpu, is_expired, apply_permissions}
use prellblock.Api.Transaction.{Transaction}
use prellblock.Api.Block.{Block, is_unique}
use prellblock.Queue.{empty, remove_all}
use prellblock.WorldState.{WorldState, apply_block, apply_transactions, apply_transaction}
use prellblock.WorldState.Service.{save}
use prellblock.TransactionChecker
use prellblock.TransactionChecker.{
  account_checker, verify_is_rpu, verify_and_apply, verify_permissions_and_apply, verify_is_admin,
  check_all,
}
use prellblock.Consensus.Error.{verify_block_number, verify_leader_term}
use prellblock.Consensus.Message.{
  Append, NewView, SynchronizationResponse, response_data, message_data,
}
use prellblock.Consensus.Core.{
  leader, supermajority_reached, verify_rpu_majority_signatures, verify_rpu_signature,
}
use prellblock.Consensus.Validation.{follower_stateful_validate, validate_loop, apply_until}
use prellblock.Consensus.Follower.{
  Node, phase, verify_leader, body_with, to_append, new, new_leader_term, apply_to_node,
}
use prellblock.Consensus.Follower.Coherence.{IsCoherent}
use prellblock.Consensus.Follower.Tests.{list_store}
use prellblock.Consensus.Follower.Handlers.Tests.{
  start_node, start_node-IsCoherent, creates, started, genesis,
}
use prellblock.Consensus.Follower.Handlers.{handle_append, append_body, verify_append}
use prellblock.Consensus.Follower.Synchronizer.Stale.{apply_synchronized_block-stale_hash}
use prellblock.Consensus.Follower.Synchronizer.{
  synchronize, apply_received, apply_synchronized_block, verify_synchronized_block, take_new_view,
  undo_split, verify_new_view, catch_up, handle_new_view,
}
use prellblock.Consensus.Follower.Synchronizer.Synchronized.{synchronize-IsCoherent}
use prellblock.Consensus.Follower.Synchronizer.NewViews.{NewViewTaken, handle_new_view-NewViewTaken}
use prellblock.Fixtures.{toy, toy_hash, body_at}

abbrev at_ten : List (Signed Transaction) → List (ℕ × Signed Transaction)
at_ten l = map (λ t. (10, t)) l

abbrev second_block : Block
second_block = record {
  body = body_at 1 1 (creates 5 ∷ []);
  signatures = (1, 5) ∷ (2, 6) ∷ (3, 7) ∷ [];
}

abbrev answer : SynchronizationResponse
answer = record { new_view = some (2, (1, 1) ∷ (2, 2) ∷ (4, 4) ∷ []); blocks = second_block ∷ [] }

block-received : (synchronize list_store toy 0 at_ten (ok answer) start_node).result ≡ ok tt
unfolding synchronize take_new_view undo_split apply_received apply_synchronized_block
    verify_synchronized_block new new_leader_term verify_block_number verify_rpu_majority_signatures
    verify_rpu_signature is_unique supermajority_reached response_data message_data
    Pinxit.verify_signature Map.find Map.insert Map.remove is_expired account_checker verify_is_rpu
    TransactionChecker.verify check_all Pinxit.verify_signed_batch verify_permissions_and_apply
    verify_and_apply verify_is_admin apply_to_node apply_block apply_transactions apply_transaction
    apply_permissions Account.new save remove_all
block-received = refl

synchronize-IsCoherent_example :
    IsCoherent list_store toy_hash (synchronize list_store toy 0 at_ten (ok answer) start_node).node
synchronize-IsCoherent_example =
    synchronize-IsCoherent list_store toy 0 at_ten (ok answer) start_node start_node-IsCoherent
      (ne-panicked_of_ok _ tt block-received)

abbrev view_one : NewView
view_one = record {
  leader_term = 1;
  view_change_signatures = (1, 1) ∷ (2, 2) ∷ (4, 4) ∷ [];
  current_block_number = 1;
}

view_one-taken :
    (handle_new_view list_store toy 0 at_ten 2 (ok answer) view_one start_node).result ≡ ok tt
unfolding handle_new_view verify_new_view new leader verify_rpu_majority_signatures
    verify_rpu_signature is_unique supermajority_reached message_data Pinxit.verify_signature
    Map.find is_expired account_checker verify_is_rpu
view_one-taken = refl

handle_new_view-NewViewTaken_example :
    NewViewTaken list_store toy 0 at_ten 2 view_one start_node
      (catch_up list_store toy 0 at_ten 2 (ok answer) view_one start_node).node
      (handle_new_view list_store toy 0 at_ten 2 (ok answer) view_one start_node).node
handle_new_view-NewViewTaken_example =
    handle_new_view-NewViewTaken list_store toy 0 at_ten 2 (ok answer) view_one start_node
      start_node-IsCoherent view_one-taken

-- The hash 3 has been prepared before the block with the hash 2 comes.
abbrev other_prepared : Node list_store toy_hash
other_prepared = record start_node {
  state = record {
    leader_term = 0;
    new_view_signatures = [];
    block_number = 1;
    last_block_hash = 1;
    block_hash = some 3;
    block_content = none;
    rollback_possible = true;
    buffered_commit_message = none;
  };
}

abbrev five_rpus : WorldState
five_rpus = record {
  accounts =
      (
        5,
        record {
          name = "rpu";
          account_type = rpu 5 5;
          expire_at = Account.never;
          writing_rights = false;
          reading_rights = [];
        },
      )
      ∷ started.accounts;
  peers = (1, 1) ∷ (2, 2) ∷ (3, 3) ∷ (4, 4) ∷ (5, 5) ∷ [];
  block_number = 2;
  last_block_hash = 2;
}

abbrev second_node : Node list_store toy_hash
second_node = record {
  state = record {
    leader_term = 0;
    new_view_signatures = [];
    block_number = 2;
    last_block_hash = 2;
    block_hash = some 3;
    block_content = none;
    rollback_possible = false;
    buffered_commit_message = none;
  };
  world = record { current = five_rpus; prev = some started };
  queue = empty;
  storage = genesis ∷ second_block ∷ [];
}

second_block-applied :
    apply_synchronized_block list_store toy 0 second_block other_prepared ≡ ok second_node
unfolding apply_synchronized_block verify_synchronized_block verify_block_number
    verify_rpu_majority_signatures verify_rpu_signature is_unique supermajority_reached
    response_data Pinxit.verify_signature Map.find Map.insert Map.remove is_expired account_checker
    verify_is_rpu TransactionChecker.verify check_all Pinxit.verify_signed_batch
    verify_permissions_and_apply verify_and_apply verify_is_admin apply_to_node apply_block
    apply_transactions apply_transaction apply_permissions Account.new save remove_all
second_block-applied = refl

abbrev append_third : Append
append_third = record {
  metadata = record { leader_term = 0; block_number = 2; block_hash = 3 };
  ackprepare_signatures = (1, 5) ∷ (2, 6) ∷ (3, 7) ∷ (4, 8) ∷ [];
  valid_transactions = creates 6 ∷ [];
  invalid_transactions = [];
  timestamp = 0;
}

third-acknowledged :
    (handle_append list_store toy 0 1 append_third second_node).result ≡ ok append_third.metadata
unfolding handle_append append_body verify_append phase verify_leader_term verify_leader leader
    verify_block_number body_with to_append verify_rpu_majority_signatures verify_rpu_signature
    is_unique supermajority_reached response_data Pinxit.verify_signature Map.find Map.insert
    Map.remove is_expired account_checker verify_is_rpu follower_stateful_validate validate_loop
    apply_until Pinxit.verify_signed_batch verify_permissions_and_apply verify_and_apply
    verify_is_admin apply_transaction apply_permissions Account.new
third-acknowledged = refl

apply_synchronized_block-stale_hash_example : append_third.metadata.block_hash ≡ 3
apply_synchronized_block-stale_hash_example =
    apply_synchronized_block-stale_hash list_store toy 0 second_block other_prepared second_node 3 1
      append_third append_third.metadata refl second_block-applied third-acknowledged
