-- ===== src/Consensus/Follower/Handlers.antt =====
-- prellblock/src/consensus/praftbft/follower/mod.rs: how a follower handles the messages of a leader,
-- from the state on that `state_in_block` has waited for.
pub mod Prepared
pub mod Promises
pub mod Acknowledged
pub mod Decided
pub mod Tests
use prellblock.Prelude.{
  ℕ, Bool, true, false, not, List, [], ◌∷◌, ◌++◌, Option, none, some, ◌==◌, if◌then◌else◌, Outcome,
  ok, err, panicked, ◌>>=◌, ◌>>◌, or_panic, map_err,
}
use prellblock.Pinxit.{PeerId, Signed}
use prellblock.Api.Account.{Time}
use prellblock.Api.Transaction.{Transaction}
use prellblock.Api.Block.{Body, BlockHash}
use prellblock.Consensus.Error.{
  Error, Phase, waiting, prepare, append, wrong_phase, block_not_matching_hash, changed_block_hash,
  empty_block, verify_leader_term, verify_block_number, verify_phase,
}
use prellblock.Consensus.Message.{
  Metadata, Prepare, Append, Commit, InvalidTransaction, ack_prepare, ack_append, response_data,
}
use prellblock.Consensus.Core.{Externals, verify_rpu_majority_signatures}
use prellblock.Consensus.Validation.{follower_stateful_validate}
use prellblock.Consensus.Store.{BlockStore}
use prellblock.Consensus.Follower.{
  State, phase, verify_leader, body_with, to_prepare, to_append, Node, commit, left_by_commit,
  is_none,
}

abbrev pub is_empty : List (Signed Transaction) → Bool
is_empty [] = true
is_empty (t ∷ ts) = false

-- `leader_term.verify`, `verify_leader` and `block_number.verify`, in this order
abbrev pub verify_metadata_of :
    PeerId → Metadata → State → Outcome Error (Unit {0}) → Outcome Error (Unit {0})
verify_metadata_of peer_id m s leader_verified = do
  verify_leader_term m.leader_term s.leader_term
  leader_verified
  verify_block_number m.block_number s.block_number

-- The hash that a follower already has, against that of a message.
abbrev pub verify_hash : Option BlockHash → BlockHash → Outcome Error (Unit {0})
verify_hash none received = ok tt
verify_hash (some expected) received =
    if received == expected then ok tt else err changed_block_hash

-- the hash of the body, the known hash and that of the message
abbrev pub verify_body : BlockHash → Option BlockHash → BlockHash → Outcome Error (Unit {0})
verify_body hash known received = do
  if hash == received then ok tt else err block_not_matching_hash
  verify_hash known received

-- An append message is taken in the first two phases.
abbrev pub verify_not_appended : Phase → Outcome Error (Unit {0})
verify_not_appended append = err (wrong_phase append prepare)
verify_not_appended other = ok tt

module _ (store : BlockStore) (x : Externals) where
  -- What a handler leaves: the node, whether it has asked for a view change, and its result.
  pub record Reply (R : Type 0) : Type 0 where
    pub node : Node store x.hash
    pub requests_view_change : Bool
    pub result : Outcome Error R

  abbrev pub reply : {R : Type 0} → Node store x.hash → Outcome Error R → Reply R
  reply n o = record { node = n; requests_view_change = false; result = o }

  -- an error inside `request_view_change_on_error`
  abbrev pub faulty : {R : Type 0} → Node store x.hash → Outcome Error R → Reply R
  faulty n o = record { node = n; requests_view_change = true; result = o }

  -- the early return of an error or a panic
  abbrev pub checked : {A R : Type 0} → Node store x.hash → Outcome Error A → Reply R → Reply R
  checked n (ok a) next = next
  checked n (err e) next = reply n (err e)
  checked n panicked next = reply n panicked

  -- the same inside `request_view_change_on_error`; a panic asks for nothing
  abbrev pub checked_faulty :
      {A R : Type 0} → Node store x.hash → Outcome Error A → Reply R → Reply R
  checked_faulty n (ok a) next = next
  checked_faulty n (err e) next = faulty n (err e)
  checked_faulty n panicked next = reply n panicked

  abbrev pub with_state : Node store x.hash → State → Node store x.hash
  with_state n s = record n { state = s }

  -- `state.prepare(..)` and the answer
  abbrev pub prepared : Metadata → Node store x.hash → Option State → Reply Metadata
  prepared m n none = reply n panicked
  prepared m n (some s) = reply (with_state n s) (ok m)

  unfoldable pub handle_prepare : PeerId → Prepare → Node store x.hash → Reply Metadata
  handle_prepare peer_id message n =
      checked n
        (do
          p ← or_panic (phase n.state)
          verify_phase p waiting
          verify_metadata_of peer_id message.metadata n.state
              (verify_leader n.world.current peer_id n.state))
        (prepared message.metadata n (to_prepare message.metadata.block_hash n.state))

  abbrev is_append : Phase → Bool
  is_append append = true
  is_append other = false

  -- `state.commit(..)`, with what a panic of it leaves
  abbrev pub committed : Node store x.hash → Option (Node store x.hash) → Reply (Unit {0})
  committed n none = reply n panicked
  committed n (some n') = reply n' (ok tt)

  module _ (now : Time) where
    -- `handle_commit_message` in the append phase
    unfoldable pub commit_appended : Commit → Node store x.hash → Reply (Unit {0})
    commit_appended message n =
        let n' = with_state n (record n.state { block_hash = some message.metadata.block_hash }) in
        checked_faulty n'
          (verify_rpu_majority_signatures x now n'.world.current
            (response_data (ack_append message.metadata)) message.ackappend_signatures)
          (committed (left_by_commit store x.hash message.ackappend_signatures n')
            (commit store x.hash message.ackappend_signatures n'))

    -- an out-of-order commit message
    unfoldable pub buffer_commit : Commit → Node store x.hash → Reply (Unit {0})
    buffer_commit message n =
        reply
          (with_state n (record n.state {
            block_hash = some message.metadata.block_hash;
            buffered_commit_message = some message;
          }))
          (ok tt)

    -- the `match` on the phase
    unfoldable pub commit_in_phase : Commit → Node store x.hash → Option Phase → Reply (Unit {0})
    unfolding commit_appended buffer_commit
    commit_in_phase message n none = reply n panicked
    commit_in_phase message n (some p) =
        if is_append p
        then commit_appended message n
        else if is_none n.state.buffered_commit_message
        then buffer_commit message n
        else reply n (err (wrong_phase p append))

    unfoldable pub handle_commit : PeerId → Commit → Node store x.hash → Reply (Unit {0})
    unfolding commit_in_phase
    handle_commit peer_id message n =
        checked n
          (do
            verify_metadata_of peer_id message.metadata n.state
                (verify_leader n.world.current peer_id n.state)
            verify_hash n.state.block_hash message.metadata.block_hash)
          (commit_in_phase message n (phase n.state))

    abbrev pub acknowledged : Metadata → Outcome Error (Unit {0}) → Outcome Error Metadata
    acknowledged m panicked = panicked
    acknowledged m (ok u) = ok m
    acknowledged m (err e) = ok m

    -- the out-of-order commit message, if there is one; its error is logged, a panic is one of the task
    abbrev pub apply_buffered :
        PeerId → Metadata → Option Commit → Node store x.hash → Reply Metadata
    apply_buffered peer_id m none n = reply n (ok m)
    apply_buffered peer_id m (some c) n =
        let r =
          handle_commit peer_id c
            (with_state n (record n.state { buffered_commit_message = none })) in
        record {
          node = r.node;
          requests_view_change = r.requests_view_change;
          result = acknowledged m r.result;
        }

    -- what comes after all checks
    abbrev pub appended : PeerId → Metadata → Node store x.hash → Option State → Reply Metadata
    appended peer_id m n none = reply n panicked
    appended peer_id m n (some s) =
        apply_buffered peer_id m s.buffered_commit_message (with_state n s)

    -- the checks after the hash has been taken over
    unfoldable pub verify_append : Append → Body → Node store x.hash → Outcome Error (Unit {0})
    verify_append message body n = do
      verify_rpu_majority_signatures x now n.world.current
          (response_data (ack_prepare message.metadata)) message.ackprepare_signatures
      if is_empty body.transactions then err empty_block else ok tt
      follower_stateful_validate x now n.world.current body.transactions
          message.invalid_transactions

    unfoldable pub append_body : PeerId → Append → Body → Node store x.hash → Reply Metadata
    unfolding verify_append
    append_body peer_id message body n =
        let n' = with_state n (record n.state { block_hash = some message.metadata.block_hash }) in
        checked_faulty n' (verify_append message body n') (
          appended peer_id message.metadata n'
            (to_append body message.invalid_transactions n'.state))

    unfoldable pub handle_append : PeerId → Append → Node store x.hash → Reply Metadata
    unfolding append_body
    handle_append peer_id message n =
        let body = body_with message.valid_transactions message.timestamp n.state in
        checked n
          (do
            p ← or_panic (phase n.state)
            verify_not_appended p
            verify_metadata_of peer_id message.metadata n.state
                (verify_leader n.world.current peer_id n.state))
          (checked_faulty n
            (verify_body (x.hash body) n.state.block_hash message.metadata.block_hash)
            (append_body peer_id message body n))
