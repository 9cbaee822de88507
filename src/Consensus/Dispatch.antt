-- ===== src/Consensus/Dispatch.antt =====
-- prellblock/src/consensus/praftbft/mod.rs: how an RPU answers the messages of the others, from the state
-- on that the follower has waited for; and censorship_checker.rs.
pub mod Answered
pub mod Promises
pub mod Runs
pub mod Tests
use prellblock.Prelude.{
  ℕ, ◌-◌, List, [], ◌∷◌, ◌++◌, length, Option, none, some, Bool, true, false, ltb, if◌then◌else◌,
  Outcome, ok, err, panicked, ◌>>=◌, ◌>>◌, map_err,
}
use prellblock.Pinxit
use prellblock.Pinxit.{PeerId, Signed, Identity, Signature}
use prellblock.Api.Account.{Time}
use prellblock.Api.Transaction.{Transaction}
use prellblock.Api.Block.{LeaderTerm}
use prellblock.Queue.{Queue, Entry, extend, len, peek}
use prellblock.TransactionChecker.{account_checker, verify_is_rpu}
use prellblock.Consensus.Error.{Error, permission, invalid_signature}
use prellblock.Consensus.Message.{
  ConsensusMessage, ConsensusResponse, ack_prepare, ack_append, synchronization_response,
  ok_response, message_data, response_data, SynchronizationResponse,
}
use prellblock.Consensus.Core.{Externals}
use prellblock.Consensus.ViewChange
use prellblock.Consensus.ViewChange.{
  Effect, broadcast_view_change, notify_leader, handle_view_change, request_view_change,
  new_view_received,
}
use prellblock.Consensus.Store.{BlockStore}
use prellblock.Consensus.Follower.{Node}
use prellblock.Consensus.Follower.Handlers.{Reply, handle_prepare, handle_append, handle_commit}
use prellblock.Consensus.Follower.Synchronizer.{
  NewViewReply, NewViewEffect, nothing, request_change_in, starts_term, handle_new_view,
}
use prellblock.Consensus.Follower.Synchronizer.Request.{handle_synchronization_request}
use prellblock.Consensus.Leader.{max_transactions_per_block}

-- `take_transactions`, with the times of the insertion; the leader is woken for more than a full block.
unfoldable pub take_transactions :
    List (ℕ × Signed Transaction)
    → Queue (Signed Transaction)
    → Queue (Signed Transaction) × List Effect
take_transactions transactions q =
    let q' = extend transactions q in
    (q', if ltb max_transactions_per_block (len q') then notify_leader ∷ [] else [])

-- in milliseconds
abbrev pub censorship_timeout : ℕ
censorship_timeout = 10000

-- `map_or(false, |entry| entry.inserted().elapsed() > CENSORSHIP_TIMEOUT)`
abbrev pub is_old : {T : Type 0} → ℕ → Option (Entry T) → Bool
is_old now none = false
is_old now (some e) = ltb censorship_timeout (now - e.inserted)

-- One turn of `CensorshipChecker::execute`; it is notified when blocks are committed.
unfoldable pub check_censorship : {T : Type 0} → Bool → ℕ → Queue T → ViewChange.State → List Effect
check_censorship notified now q v =
    if notified then [] else if is_old now (peek q) then request_view_change v else []

module _ (store : BlockStore) (x : Externals) where
  -- an RPU: its follower and its view change
  pub record Instance : Type 0 where
    pub follower : Node store x.hash
    pub view_change : ViewChange.State

  -- What a message leaves, with the tasks and broadcasts that it starts.
  pub record Handled (R : Type 0) : Type 0 where
    pub instance' : Instance
    pub effects : List Effect
    pub result : Outcome Error R

  abbrev pub refused : {R : Type 0} → Instance → Outcome Error R → Handled R
  refused i o = record { instance' = i; effects = []; result = o }

  -- `get_response_converter`, on the reply of a follower
  abbrev pub converted :
      {R : Type 0}
      → (R → ConsensusResponse)
      → Instance
      → Reply store x R
      → Handled ConsensusResponse
  converted into i r = record {
    instance' = record i { follower = r.node };
    effects = if r.requests_view_change then request_view_change i.view_change else [];
    result = r.result >>= λ a. ok (into a);
  }

  -- A panic poisons the mutex of the view change, whose state is not seen again.
  abbrev pub voted :
      Instance → Outcome Error (ViewChange.State × List Effect) → Handled ConsensusResponse
  voted i (ok (v, effects)) = record {
    instance' = record i { view_change = v };
    effects = effects;
    result = ok ok_response;
  }
  voted i (err e) = refused i (err e)
  voted i panicked = refused i panicked

  module _ (now : Time) (at_times : List (Signed Transaction) → List (ℕ × Signed Transaction)) where
    -- `request_view_change_in_leader_term`, or `Follower::new_leader_term`
    abbrev pub after_new_view :
        NewViewEffect store x now → ViewChange.State → ViewChange.State × List Effect
    after_new_view nothing v = (v, [])
    after_new_view (request_change_in term) v = (v, broadcast_view_change term ∷ [])
    after_new_view (starts_term term) v =
        let (v', effects) = new_view_received term v in (v', effects ++ (notify_leader ∷ []))

    abbrev pub viewed : Instance → NewViewReply store x now → Handled ConsensusResponse
    viewed i r =
        let (v, effects) = after_new_view r.effect i.view_change in
        record {
          instance' = record { follower = r.node; view_change = v };
          effects = effects;
          result = r.result >>= λ done. ok ok_response;
        }

    -- The answer is what the leader sends if the follower has to catch up with it.
    unfoldable pub dispatch :
        Outcome Error SynchronizationResponse
        → PeerId
        → Signature
        → ConsensusMessage
        → Instance
        → Handled ConsensusResponse
    dispatch answer peer_id signature (ConsensusMessage.prepare m) i =
        converted ack_prepare i (handle_prepare store x peer_id m i.follower)
    dispatch answer peer_id signature (ConsensusMessage.append m) i =
        converted ack_append i (handle_append store x now peer_id m i.follower)
    dispatch answer peer_id signature (ConsensusMessage.commit m) i =
        converted (λ done. ok_response) i (handle_commit store x now peer_id m i.follower)
    dispatch answer peer_id signature (ConsensusMessage.view_change term) i = voted i (
        handle_view_change now (length i.follower.world.current.peers) peer_id signature term
          i.view_change)
    dispatch answer peer_id signature (ConsensusMessage.new_view m) i =
        viewed i (handle_new_view store x now at_times peer_id answer m i.follower)
    dispatch answer peer_id signature (ConsensusMessage.synchronization_request m) i =
        refused i
          (ok (synchronization_response (handle_synchronization_request store x.hash m i.follower)))

    -- Only RPUs are allowed, and the signature is verified.
    unfoldable pub verify_message : Signed ConsensusMessage → Instance → Outcome Error (Unit {0})
    verify_message message i = do
      checker ← map_err permission (account_checker now i.follower.world.current message.signer)
      map_err permission (verify_is_rpu checker)
      verified ←
          map_err invalid_signature
            (Pinxit.verify x.ed25519 (λ m. x.encode (message_data m)) message)
      ok tt

    abbrev pub signed_by : Identity → ConsensusResponse → Outcome Error (Signed ConsensusResponse)
    signed_by identity response =
        map_err invalid_signature
          (Pinxit.sign x.ed25519 (λ r. x.encode (response_data r)) response identity)

    abbrev pub answered_by :
        Identity → Handled ConsensusResponse → Handled (Signed ConsensusResponse)
    answered_by identity h = record {
      instance' = h.instance';
      effects = h.effects;
      result = h.result >>= signed_by identity;
    }

    abbrev pub if_verified :
        Instance
        → Outcome Error (Unit {0})
        → Handled (Signed ConsensusResponse)
        → Handled (Signed ConsensusResponse)
    if_verified i (ok done) h = h
    if_verified i (err e) h = refused i (err e)
    if_verified i panicked h = refused i panicked

    unfoldable pub handle_message :
        Identity
        → Outcome Error SynchronizationResponse
        → Signed ConsensusMessage
        → Instance
        → Handled (Signed ConsensusResponse)
    unfolding dispatch
    handle_message identity answer message i =
        if_verified i (verify_message message i)
          (answered_by identity (dispatch answer message.signer message.signature message.body i))
