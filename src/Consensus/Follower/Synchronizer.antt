-- ===== src/Consensus/Follower/Synchronizer.antt =====
-- prellblock/src/consensus/praftbft/follower/synchronizer.rs from the answer of the asked peer on, and
-- `handle_new_view_message` of follower/mod.rs.
pub mod Synchronized
pub mod NewViews
pub mod Request
mod Stale
mod Tests
mod RequestTests
use prellblock.Prelude.{
  ℕ, Bool, true, false, not, ◌&&◌, ◌||◌, List, [], ◌∷◌, Option, none, some, ◌==◌, ltb, leb,
  if◌then◌else◌, Outcome, ok, err, panicked, ◌>>=◌, ◌>>◌, or_panic, map_err, add_u64,
}
use prellblock.Pinxit.{PeerId, Signed}
use prellblock.Api.Account.{Time}
use prellblock.Api.Transaction.{Transaction}
use prellblock.Api.Block.{Block, BlockHash, LeaderTerm, SignatureList, block_number}
use prellblock.WorldState.{has_peer}
use prellblock.TransactionChecker.{verify}
use prellblock.Consensus.Error.{
  Error, permission, empty_block, prev_block_hash_does_not_match, invalid_peer,
  leader_term_too_small, wrong_leader, verify_block_number,
}
use prellblock.Consensus.Message.{
  NewView, SynchronizationResponse, ConsensusMessage, ack_append, response_data, message_data,
}
use prellblock.Consensus.Core.{Externals, leader, verify_rpu_majority_signatures}
use prellblock.Consensus.Store.{BlockStore}
use prellblock.Consensus.Follower.{
  Node, State, new_leader_term, apply_to_node, rollback_node, left_by_apply, left_by_rollback,
}
use prellblock.Consensus.Follower.Handlers.{Reply, reply, checked, with_state, is_empty}

-- `SYNCHRONIZATION_BLOCK_THRESHOLD`
abbrev threshold : ℕ
threshold = 3

-- `is_synchronization_needed`
unfoldable pub is_synchronization_needed : State → LeaderTerm → ℕ → Bool
is_synchronization_needed s leader_term number =
    ltb s.leader_term leader_term || leb (add_u64 s.block_number threshold) number

module _ (store : BlockStore) (x : Externals) (now : Time) where
  -- the checks of `apply_synchronized_block`
  unfoldable pub verify_synchronized_block : Block → Node store x.hash → Outcome Error (Unit {0})
  verify_synchronized_block block n = do
    verify_block_number block.body.height n.state.block_number
    if block.body.prev_block_hash == n.state.last_block_hash
        then ok tt
        else err (prev_block_hash_does_not_match block.body.prev_block_hash n.state.last_block_hash)
    verify_rpu_majority_signatures x now n.world.current
        (response_data (
          ack_append (record {
            leader_term = block.body.leader_term;
            block_number = block.body.height;
            block_hash = x.hash block.body;
          })))
        block.signatures
    if is_empty block.body.transactions then err empty_block else ok tt
    map_err permission
        (verify x.ed25519 x.encode_transaction now n.world.current block.body.transactions)

  unfoldable pub apply_synchronized_block :
      Block → Node store x.hash → Outcome Error (Node store x.hash)
  unfolding verify_synchronized_block
  apply_synchronized_block block n = do
    verify_synchronized_block block n
    or_panic (apply_to_node store x.hash (x.hash block.body) block n)

  -- What a panic of `apply_synchronized_block` leaves; the checks change nothing.
  unfoldable pub left_by_synchronized : Block → Node store x.hash → Node store x.hash
  left_by_synchronized block n = elim (verify_synchronized_block block n) [
    | ok u ↦ left_by_apply store x.hash block n
    | err e ↦ n
    | panicked ↦ n
  ]

  -- the loop over the blocks that have come; what has been applied before an error stays
  unfoldable pub apply_received : List Block → Node store x.hash → Reply store x (Unit {0})
  unfolding apply_synchronized_block left_by_synchronized
  apply_received [] n = reply store x n (ok tt)
  apply_received (block ∷ blocks) n = elim (ltb block.body.height n.state.block_number) [
    | true ↦ apply_received blocks n
    | false ↦ elim (apply_synchronized_block block n) [
      | ok n' ↦ apply_received blocks n'
      | err e ↦ reply store x n (err e)
      | panicked ↦ reply store x (left_by_synchronized block n) panicked
    ]
  ]

  -- `if let Some((new_leader_term, view_change_signatures)) = response.new_view`
  unfoldable pub take_new_view :
      Option (LeaderTerm × SignatureList) → Node store x.hash → Outcome Error (Node store x.hash)
  take_new_view none n = ok n
  take_new_view (some (term, signatures)) n = do
    verify_rpu_majority_signatures x now n.world.current
        (message_data (ConsensusMessage.view_change term)) signatures
    ok (with_state store x n (new_leader_term term signatures n.state))

  -- A first block with the number but not the hash of the follower's last one is a chain split.
  abbrev pub is_split : Block → State → Bool
  is_split first s =
      s.rollback_possible
      && (add_u64 (block_number first) 1 == s.block_number
          && not (x.hash first.body == s.last_block_hash))

  unfoldable pub undo_split :
      (List (Signed Transaction) → List (ℕ × Signed Transaction))
      → List Block
      → Node store x.hash
      → Outcome Error (Node store x.hash)
  undo_split at_times [] n = ok n
  undo_split at_times (first ∷ blocks) n =
      if is_split first n.state then or_panic (rollback_node store x.hash at_times n) else ok n

  -- After the new view of the answer has been taken; it is the rollback that panics.
  abbrev pub receive_blocks :
      (List (Signed Transaction) → List (ℕ × Signed Transaction))
      → List Block
      → Node store x.hash
      → Outcome Error (Node store x.hash)
      → Reply store x (Unit {0})
  receive_blocks at_times blocks n (ok m) = apply_received blocks m
  receive_blocks at_times blocks n (err e) = reply store x n (err e)
  receive_blocks at_times blocks n panicked =
      reply store x (left_by_rollback store x.hash at_times n) panicked

  abbrev pub receive_answer :
      (List (Signed Transaction) → List (ℕ × Signed Transaction))
      → List Block
      → Node store x.hash
      → Outcome Error (Node store x.hash)
      → Reply store x (Unit {0})
  receive_answer at_times blocks n (ok m) =
      receive_blocks at_times blocks m (undo_split at_times blocks m)
  receive_answer at_times blocks n (err e) = reply store x n (err e)
  receive_answer at_times blocks n panicked = reply store x n panicked

  -- `synchronize`, from the answer of the peer on
  unfoldable pub synchronize :
      (List (Signed Transaction) → List (ℕ × Signed Transaction))
      → Outcome Error SynchronizationResponse
      → Node store x.hash
      → Reply store x (Unit {0})
  unfolding take_new_view undo_split apply_received
  synchronize at_times (ok response) n =
      receive_answer at_times response.blocks n (take_new_view response.new_view n)
  synchronize at_times (err e) n = reply store x n (err e)
  synchronize at_times panicked n = reply store x n panicked

  -- What a new view does beside the node: it asks for a change of its own term, or the term starts.
  pub data NewViewEffect : Type 0 where
    nothing : NewViewEffect
    request_change_in starts_term : LeaderTerm → NewViewEffect

  pub record NewViewReply : Type 0 where
    pub node : Node store x.hash
    pub effect : NewViewEffect
    pub result : Outcome Error (Unit {0})

  -- the checks of a new view after the follower has caught up
  unfoldable pub verify_new_view : PeerId → NewView → Node store x.hash → Outcome Error (Unit {0})
  verify_new_view peer_id message n = do
    if leb message.leader_term n.state.leader_term
        then err (leader_term_too_small message.leader_term)
        else ok tt
    expected ← or_panic (leader n.world.current message.leader_term)
    if expected == peer_id then ok tt else err (wrong_leader peer_id)
    verify_rpu_majority_signatures x now n.world.current
        (message_data (ConsensusMessage.view_change message.leader_term))
        message.view_change_signatures

  abbrev pub accept_new_view : NewView → Bool → Node store x.hash → NewViewReply
  accept_new_view message outdated n =
      if outdated
      then record { node = n; effect = request_change_in message.leader_term; result = ok tt }
      else record {
        node =
            with_state store x n
              (new_leader_term message.leader_term message.view_change_signatures n.state);
        effect = starts_term message.leader_term;
        result = ok tt;
      }

  abbrev pub check_new_view : PeerId → NewView → Bool → Reply store x (Unit {0}) → NewViewReply
  check_new_view peer_id message outdated r =
      elim (r.result >> verify_new_view peer_id message r.node) [
        | ok u ↦ accept_new_view message outdated r.node
        | err e ↦ record { node = r.node; effect = nothing; result = err e }
        | panicked ↦ record { node = r.node; effect = nothing; result = panicked }
      ]

  -- `synchronize_from` the leader, if its number is higher
  abbrev pub catch_up :
      (List (Signed Transaction) → List (ℕ × Signed Transaction))
      → PeerId
      → Outcome Error SynchronizationResponse
      → NewView
      → Node store x.hash
      → Reply store x (Unit {0})
  catch_up at_times peer_id answer message n =
      if ltb n.state.block_number message.current_block_number
      then (if has_peer peer_id n.world.current.peers
          then synchronize at_times answer n
          else reply store x n (err (invalid_peer peer_id)))
      else reply store x n (ok tt)

  -- The leader's number is compared with the one before catching up.
  unfoldable pub handle_new_view :
      (List (Signed Transaction) → List (ℕ × Signed Transaction))
      → PeerId
      → Outcome Error SynchronizationResponse
      → NewView
      → Node store x.hash
      → NewViewReply
  unfolding synchronize verify_new_view
  handle_new_view at_times peer_id answer message n =
      check_new_view peer_id message (ltb message.current_block_number n.state.block_number)
        (catch_up at_times peer_id answer message n)
