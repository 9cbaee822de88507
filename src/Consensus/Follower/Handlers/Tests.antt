-- ===== src/Consensus/Follower/Handlers/Tests.antt =====
-- Tests of a round: prepare, append, commit, from the four RPUs after their first block.
use prellblock.Prelude.{
  ◌≡◌, ◌≤◌, refl, true, false, [], ◌∷◌, ◌++◌, none, some, ok, err, panicked, ne-panicked_of_ok,
  arith,
}
use prellblock.Prelude.Map
use prellblock.Prelude.Sets.{Distinct}
use prellblock.Pinxit
use prellblock.Pinxit.{PeerId, Signed, signed_eq}
use prellblock.Api.Account
use prellblock.Api.Account.{is_expired, apply_permissions, rpu, admin, normal}
use prellblock.Api.Transaction.{Transaction, create_account}
use prellblock.Api.Block.{Block, is_unique}
use prellblock.Queue.{empty, remove_all}
use prellblock.WorldState.{
  WorldState, default_world_state, apply_block, apply_transactions, apply_transaction,
}
use prellblock.WorldState.Consistency.{IsConsistent}
use prellblock.WorldState.Service.{from_block_storage, apply_blocks, save}
use prellblock.TransactionChecker.{
  account_checker, verify_is_rpu, verify_and_apply, verify_permissions_and_apply, verify_is_admin,
}
use prellblock.Consensus.Error.{wrong_leader, verify_leader_term, verify_block_number, verify_phase}
use prellblock.Consensus.Message.{Metadata, Prepare, Append, Commit, ack_append, response_data}
use prellblock.Consensus.Core.{
  leader, supermajority_reached, verify_rpu_majority_signatures, verify_rpu_signature,
}
use prellblock.Consensus.Core.Quorum.{EachSigned}
use prellblock.Consensus.Validation.{follower_stateful_validate, validate_loop, apply_until}
use prellblock.Consensus.Follower.{
  left_by_commit, left_by_content, left_by_apply, new, phase, verify_leader, body_with, to_prepare,
  to_append, Node, commit, commit_content, apply_to_node,
}
use prellblock.Consensus.Follower.Coherence.{IsCoherent}
use prellblock.Consensus.Follower.Start.{new-IsCoherent}
use prellblock.Consensus.Follower.Tests.{list_store}
use prellblock.Consensus.Follower.Handlers.{
  handle_prepare, handle_append, handle_commit, append_body, verify_append, commit_in_phase,
  commit_appended, buffer_commit,
}
use prellblock.Consensus.Follower.Handlers.Prepared.{
  handle_prepare-IsCoherent, handle_append-IsCoherent, handle_commit-IsCoherent,
}
use prellblock.Consensus.Follower.Handlers.Decided.{
  Decision, handle_commit-Decision, Accepted, handle_append-Accepted, decisions_intersect,
}
use prellblock.Fixtures.{toy, toy_hash, body_at, block_at, signed_by, no_permissions}

abbrev pub creates : PeerId → Signed Transaction
creates id =
    signed_by 9
      (create_account (record {
        id = id;
        name = "rpu";
        permissions = record no_permissions { account_type = some (rpu id id) };
        timestamp = 0;
      }))
      (3 ∷ id ∷ [])

abbrev pub genesis : Block
genesis = block_at 0 0 (
    creates 1
    ∷ creates 2
    ∷ creates 3
    ∷ creates 4
    ∷ signed_by 9
        (create_account (record {
          id = 9;
          name = "admin";
          permissions = record no_permissions { account_type = some admin };
          timestamp = 0;
        }))
        (3 ∷ 9 ∷ [])
    ∷ [])

abbrev pub started : WorldState
started = record {
  accounts =
      (
        9,
        record {
          name = "admin";
          account_type = admin;
          expire_at = Account.never;
          writing_rights = false;
          reading_rights = [];
        },
      )
      ∷ (
        4,
        record {
          name = "rpu";
          account_type = rpu 4 4;
          expire_at = Account.never;
          writing_rights = false;
          reading_rights = [];
        },
      )
      ∷ (
        3,
        record {
          name = "rpu";
          account_type = rpu 3 3;
          expire_at = Account.never;
          writing_rights = false;
          reading_rights = [];
        },
      )
      ∷ (
        2,
        record {
          name = "rpu";
          account_type = rpu 2 2;
          expire_at = Account.never;
          writing_rights = false;
          reading_rights = [];
        },
      )
      ∷ (
        1,
        record {
          name = "rpu";
          account_type = rpu 1 1;
          expire_at = Account.never;
          writing_rights = false;
          reading_rights = [];
        },
      )
      ∷ [];
  peers = (1, 1) ∷ (2, 2) ∷ (3, 3) ∷ (4, 4) ∷ [];
  block_number = 1;
  last_block_hash = 1;
}

genesis-started :
    from_block_storage toy_hash (genesis ∷ [])
    ≡ ok (record { current = started; prev = some default_world_state })
unfolding from_block_storage apply_blocks apply_block apply_transactions apply_transaction Map.find
    Map.insert Map.remove apply_permissions Account.new
genesis-started = refl

abbrev pub start_node : Node list_store toy_hash
start_node = record {
  state = new started;
  world = record { current = started; prev = some default_world_state };
  queue = empty;
  storage = genesis ∷ [];
}

pub start_node-IsCoherent : IsCoherent list_store toy_hash start_node
start_node-IsCoherent =
    (new-IsCoherent list_store toy_hash (genesis ∷ [])
      (record { current = started; prev = some default_world_state }) empty genesis-started).0

abbrev round : Metadata
round = record { leader_term = 0; block_number = 1; block_hash = 2 }

abbrev prepare_round : Prepare
prepare_round = record { metadata = round }

abbrev prepared_node : Node list_store toy_hash
prepared_node = record start_node {
  state = record {
    leader_term = 0;
    new_view_signatures = [];
    block_number = 1;
    last_block_hash = 1;
    block_hash = some 2;
    block_content = none;
    rollback_possible = true;
    buffered_commit_message = none;
  };
}

round-prepared :
    handle_prepare list_store toy 1 prepare_round start_node
    ≡ record { node = prepared_node; requests_view_change = false; result = ok round }
unfolding handle_prepare new phase verify_phase verify_leader_term verify_leader leader
    verify_block_number to_prepare
round-prepared = refl

not_the_leader :
    (handle_prepare list_store toy 2 prepare_round start_node).result ≡ err (wrong_leader 2)
unfolding handle_prepare new phase verify_phase verify_leader_term verify_leader leader
    verify_block_number to_prepare
not_the_leader = refl

handle_prepare-IsCoherent_test :
    IsCoherent list_store toy_hash (handle_prepare list_store toy 1 prepare_round start_node).node
handle_prepare-IsCoherent_test =
    handle_prepare-IsCoherent list_store toy 1 prepare_round start_node start_node-IsCoherent

prepared_node-IsCoherent : IsCoherent list_store toy_hash prepared_node
prepared_node-IsCoherent =
    rw (round-prepared) at
      (handle_prepare-IsCoherent list_store toy 1 prepare_round start_node start_node-IsCoherent)

abbrev append_round : Append
append_round = record {
  metadata = round;
  ackprepare_signatures = (1, 4) ∷ (2, 5) ∷ (3, 6) ∷ [];
  valid_transactions = creates 5 ∷ [];
  invalid_transactions = [];
  timestamp = 0;
}

abbrev pub appended_node : Node list_store toy_hash
appended_node = record start_node {
  state = record prepared_node.state { block_content = some (body_at 1 1 (creates 5 ∷ []), []) };
}

round-appended :
    handle_append list_store toy 0 1 append_round prepared_node
    ≡ record { node = appended_node; requests_view_change = false; result = ok round }
unfolding handle_append append_body verify_append phase verify_leader_term verify_leader leader
    verify_block_number body_with to_append verify_rpu_majority_signatures verify_rpu_signature
    is_unique supermajority_reached response_data Pinxit.verify_signature Map.find Map.insert
    Map.remove is_expired account_checker verify_is_rpu follower_stateful_validate validate_loop
    apply_until Pinxit.verify_signed_batch verify_permissions_and_apply verify_and_apply
    verify_is_admin apply_transaction apply_permissions Account.new
round-appended = refl

handle_append-IsCoherent_test :
    IsCoherent list_store toy_hash
      (handle_append list_store toy 0 1 append_round prepared_node).node
handle_append-IsCoherent_test =
    handle_append-IsCoherent list_store toy 0 1 append_round prepared_node prepared_node-IsCoherent
      (ne-panicked_of_ok _ round (rw round-appended refl))

handle_append-Accepted_example : Accepted list_store toy 0 append_round prepared_node
handle_append-Accepted_example =
    handle_append-Accepted list_store toy 0 1 append_round prepared_node round
      (rw round-appended refl)

appended_node-IsCoherent : IsCoherent list_store toy_hash appended_node
appended_node-IsCoherent = rw (round-appended) at (handle_append-IsCoherent_test)

abbrev pub commit_round : Commit
commit_round = record { metadata = round; ackappend_signatures = (1, 5) ∷ (2, 6) ∷ (3, 7) ∷ [] }

abbrev pub other_commit : Commit
other_commit = record { metadata = round; ackappend_signatures = (2, 6) ∷ (3, 7) ∷ (4, 8) ∷ [] }

round-committed : (handle_commit list_store toy 0 1 commit_round appended_node).result ≡ ok tt
unfolding handle_commit commit_in_phase commit_appended phase verify_leader_term verify_leader
    leader verify_block_number verify_rpu_majority_signatures verify_rpu_signature is_unique
    supermajority_reached response_data Pinxit.verify_signature Map.find Map.insert Map.remove
    is_expired account_checker verify_is_rpu commit commit_content apply_to_node apply_block
    apply_transactions apply_transaction apply_permissions Account.new save remove_all
round-committed = refl

other-committed : (handle_commit list_store toy 0 1 other_commit appended_node).result ≡ ok tt
unfolding handle_commit commit_in_phase commit_appended phase verify_leader_term verify_leader
    leader verify_block_number verify_rpu_majority_signatures verify_rpu_signature is_unique
    supermajority_reached response_data Pinxit.verify_signature Map.find Map.insert Map.remove
    is_expired account_checker verify_is_rpu commit commit_content apply_to_node apply_block
    apply_transactions apply_transaction apply_permissions Account.new save remove_all
other-committed = refl

round-buffered : (handle_commit list_store toy 0 1 commit_round prepared_node).result ≡ ok tt
unfolding handle_commit commit_in_phase buffer_commit phase verify_leader_term verify_leader leader
    verify_block_number
round-buffered = refl

handle_commit-IsCoherent_test :
    IsCoherent list_store toy_hash
      (handle_commit list_store toy 0 1 commit_round prepared_node).node
handle_commit-IsCoherent_test =
    handle_commit-IsCoherent list_store toy 0 1 commit_round prepared_node prepared_node-IsCoherent
      (ne-panicked_of_ok _ tt round-buffered)

-- The body names another hash than the last one of the world state, so applying the block panics when it
-- is in the storage already: the follower is in the unreachable phase.
abbrev other_last : Node list_store toy_hash
other_last = record appended_node {
  world = record appended_node.world {
    current = record appended_node.world.current { last_block_hash = 7 };
  };
}

commit-panicked : handle_commit list_store toy 0 1 commit_round other_last ≡ record {
  node = record other_last {
    state = record other_last.state { block_hash = none };
    storage =
        other_last.storage
        ++ (record {
          body = body_at 1 1 (creates 5 ∷ []);
          signatures = commit_round.ackappend_signatures;
        }
            ∷ []);
  };
  requests_view_change = false;
  result = panicked;
}
unfolding handle_commit commit_in_phase commit_appended phase verify_leader_term verify_leader
    leader verify_block_number verify_rpu_majority_signatures verify_rpu_signature is_unique
    supermajority_reached response_data Pinxit.verify_signature Map.find Map.insert Map.remove
    is_expired account_checker verify_is_rpu commit commit_content apply_to_node apply_block
    left_by_commit left_by_content left_by_apply remove_all
commit-panicked = refl

pub round-Decision :
    Decision list_store toy 0 commit_round appended_node
      (handle_commit list_store toy 0 1 commit_round appended_node).node
round-Decision =
    handle_commit-Decision list_store toy 0 1 commit_round appended_node appended_node-IsCoherent
      (unfold phase in refl) round-committed

handle_commit-Decision_example :
    Decision list_store toy 0 commit_round appended_node
      (handle_commit list_store toy 0 1 commit_round appended_node).node
handle_commit-Decision_example =
    handle_commit-Decision list_store toy 0 1 commit_round appended_node appended_node-IsCoherent
      (unfold phase in refl) round-committed

pub other-Decision :
    Decision list_store toy 0 other_commit appended_node
      (handle_commit list_store toy 0 1 other_commit appended_node).node
other-Decision =
    handle_commit-Decision list_store toy 0 1 other_commit appended_node appended_node-IsCoherent
      (unfold phase in refl) other-committed

pub started-IsConsistent : IsConsistent started
unfolding Map.find
started-IsConsistent = record {
  peers_distinct = (refl, (refl, (refl, (refl, tt))));
  peers_are_rpus = λ id. ground arith;
}

decisions_intersect_test :
    Distinct (2 ∷ 3 ∷ [])
    × (2 ≤ 2)
    × EachSigned toy 0 started (response_data (ack_append round)) (2 ∷ 3 ∷ [])
    × EachSigned toy 0 started (response_data (ack_append round)) (2 ∷ 3 ∷ [])
decisions_intersect_test =
    decisions_intersect list_store toy 0 commit_round other_commit appended_node appended_node
      (handle_commit list_store toy 0 1 commit_round appended_node).node
      (handle_commit list_store toy 0 1 other_commit appended_node).node started-IsConsistent refl
      round-Decision other-Decision
