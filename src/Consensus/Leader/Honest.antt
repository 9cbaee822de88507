-- ===== src/Consensus/Leader/Honest.antt =====
-- The round of a leader and the followers that share its world state: they take every message of it.
use prellblock.Prelude.{
  ◌≤◌, ◌≡◌, refl, sym, ◌∙◌, subst, false, List, [], ◌∷◌, ◌++◌, length, none, some, ok, arith,
  ==_refl,
}
use prellblock.Prelude.Sets.{Distinct, Subset}
use prellblock.Pinxit.{PeerId, Signed}
use prellblock.Pinxit.Laws.{IsSound}
use prellblock.Api.Transaction.{Transaction}
use prellblock.Api.Block.{Block, Body, BlockHash, SignatureList}
use prellblock.Queue.{Queue}
use prellblock.WorldState.{WorldState, peer_ids, apply_block}
use prellblock.WorldState.Consistency.{IsConsistent}
use prellblock.Consensus.Error.{verify_phase, verify_leader_term, verify_block_number}
use prellblock.Consensus.Message.{
  ConsensusMessage, InvalidTransaction, ack_prepare, ack_append, response_data,
}
use prellblock.Consensus.Core.{Externals, leader, verify_rpu_majority_signatures}
use prellblock.Consensus.Core.Collected.{asked, NoneExpired}
use prellblock.Consensus.Validation.{Sorted, leader_stateful_validate, follower_stateful_validate}
use prellblock.Consensus.Validation.Accepted.{follower_stateful_validate-eq-ok}
use prellblock.Consensus.Validation.Agreement.{leader_batch_accepted}
use prellblock.Consensus.Store.{BlockStore}
use prellblock.Consensus.Follower.{
  Node, phase, verify_leader, body_with, to_prepare, to_append, commit, commit_content,
  apply_to_node,
}
use prellblock.Consensus.Follower.Coherence.{IsCoherent}
use prellblock.Consensus.Follower.Handlers.{
  with_state, handle_prepare, handle_append, append_body, verify_append, handle_commit,
  commit_in_phase, commit_appended, is_empty,
}
use prellblock.Consensus.Leader.{
  Leader, Surroundings, prepare_of, append_of, commit_of, body_of, execute_round, take_batch,
  max_transactions_per_block,
}
use prellblock.Consensus.Leader.Majority.{RoundDone, execute_round-HasMajorities}
use prellblock.Consensus.Leader.Committing.{check_all-apply_block}

module _ (store : BlockStore) (x : Externals) where
  open store use {Store, blocks, write_block, blocks-write_block}

  -- The follower waits for the round that the leader starts: it has the leader's term, number, last hash
  -- and virtual world state, nothing is prepared, and no commit message is kept.
  pub record Awaits (l : Leader) (n : Node store x.hash) : Type 0 where
    pub term : n.state.leader_term ≡ l.leader_term
    pub number : n.state.block_number ≡ l.block_number
    pub last : n.state.last_block_hash ≡ l.last_block_hash
    pub world : n.world.current ≡ l.transaction_check
    pub nothing_prepared : n.state.block_hash ≡ none
    pub nothing_appended : n.state.block_content ≡ none
    pub nothing_kept : n.state.buffered_commit_message ≡ none

  -- the follower after the messages
  abbrev pub after_prepare : BlockHash → Node store x.hash → Node store x.hash
  after_prepare h n = with_state store x n (record n.state { block_hash = some h })

  abbrev pub after_append : Body → List InvalidTransaction → Node store x.hash → Node store x.hash
  after_append body invalid n =
      with_state store x n
        (record n.state { block_hash = some (x.hash body); block_content = some (body, invalid) })

  -- A follower takes the three messages of a round one after the other, and stores the block.
  pub record Takes (around : Surroundings) (id : PeerId) (q : Queue (Signed Transaction))
      (l : Leader) (n : Node store x.hash) (d : RoundDone x around q l) : Type 0 where
    pub prepared :
        (handle_prepare store x id (prepare_of x around d.sorted l) n).result
        ≡ ok (prepare_of x around d.sorted l).metadata
    pub appended :
        (handle_append store x around.now id
          (append_of x around d.sorted d.ackprepare_signatures l)
          (handle_prepare store x id (prepare_of x around d.sorted l) n).node).result
        ≡ ok (prepare_of x around d.sorted l).metadata
    pub committed :
        (handle_commit store x around.now id
          (commit_of x around d.sorted d.ackappend_signatures l)
          (handle_append store x around.now id
            (append_of x around d.sorted d.ackprepare_signatures l)
            (handle_prepare store x id (prepare_of x around d.sorted l) n).node).node).result
        ≡ ok tt
    pub stored :
        blocks
          (handle_commit store x around.now id
            (commit_of x around d.sorted d.ackappend_signatures l)
            (handle_append store x around.now id
              (append_of x around d.sorted d.ackprepare_signatures l)
              (handle_prepare store x id
                (prepare_of x around d.sorted l)
                n).node).node).node.storage
        ≡ blocks n.storage
          ++ (record { body = body_of x around d.sorted l; signatures = d.ackappend_signatures }
              ∷ [])

  module _ (around : Surroundings) (id : PeerId) (l : Leader) (n : Node store x.hash) (s : Sorted)
      (awaits : Awaits l n) (leads : leader n.world.current l.leader_term ≡ some id) where
    prepare_taken : handle_prepare store x id (prepare_of x around s l) n ≡ record {
      node = after_prepare (x.hash (body_of x around s l)) n;
      requests_view_change = false;
      result = ok (prepare_of x around s l).metadata;
    }
    unfolding handle_prepare phase verify_phase verify_leader_term verify_leader verify_block_number
        to_prepare
    prepare_taken = ground (
      arith,
      awaits.term,
      awaits.number,
      awaits.nothing_prepared,
      awaits.nothing_appended,
      leads,
      ==_refl id,
    )

    same_body :
        (h : BlockHash)
        → body_with s.valid around.timestamp (record n.state { block_hash = some h })
          ≡ body_of x around s l
    unfolding body_with
    same_body h = ground (arith, awaits.term, awaits.number, awaits.last)

    append_taken :
        (signatures : SignatureList)
        → verify_rpu_majority_signatures x around.now n.world.current
            (response_data (ack_prepare (prepare_of x around s l).metadata))
            signatures
          ≡ ok tt
        → is_empty s.valid ≡ false
        → follower_stateful_validate x around.now n.world.current s.valid s.invalid ≡ ok tt
        → handle_append store x around.now id
            (append_of x around s signatures l)
            (after_prepare (x.hash (body_of x around s l)) n)
          ≡ record {
            node = after_append (body_of x around s l) s.invalid n;
            requests_view_change = false;
            result = ok (prepare_of x around s l).metadata;
          }
    unfolding handle_append append_body verify_append phase verify_phase verify_leader_term
        verify_leader verify_block_number to_append
    append_taken signatures majority nonempty valid = ground (
      arith,
      awaits.term,
      awaits.number,
      awaits.nothing_appended,
      awaits.nothing_kept,
      leads,
      same_body (x.hash (body_of x around s l)),
      ==_refl id,
      ==_refl (x.hash (body_of x around s l)),
      majority,
      nonempty,
      valid,
    )

    commit_taken :
        (signatures : SignatureList) (storage : Store) (w : WorldState)
        → verify_rpu_majority_signatures x around.now n.world.current
            (response_data (ack_append (prepare_of x around s l).metadata))
            signatures
          ≡ ok tt
        → write_block (record { body = body_of x around s l; signatures = signatures }) n.storage
          ≡ some storage
        → apply_block x.hash n.world.current
            (record { body = body_of x around s l; signatures = signatures })
          ≡ ok w
        → ((handle_commit store x around.now id
              (commit_of x around s signatures l)
              (after_append (body_of x around s l) s.invalid n)).result
            ≡ ok tt)
          × ((handle_commit store x around.now id
                (commit_of x around s signatures l)
                (after_append (body_of x around s l) s.invalid n)).node.storage
              ≡ storage)
    unfolding handle_commit commit_in_phase commit_appended phase verify_leader_term verify_leader
        verify_block_number commit commit_content apply_to_node
    commit_taken signatures storage w majority written applied = (
      ground (
        arith,
        awaits.term,
        awaits.number,
        awaits.nothing_kept,
        leads,
        ==_refl id,
        ==_refl (x.hash (body_of x around s l)),
        majority,
        written,
        applied,
      ),
      ground (
        arith,
        awaits.term,
        awaits.number,
        awaits.nothing_kept,
        leads,
        ==_refl id,
        ==_refl (x.hash (body_of x around s l)),
        majority,
        written,
        applied,
      ),
    )

  -- If a round of a leader ends without an error, every coherent follower that waits for it has taken
  -- its three messages one after the other and stored the block with the collected signatures. This
  -- holds if signatures are sound, the follower checks at the leader's time, the consistent world state
  -- in which the leader asks is the follower's, no RPU has expired, only peers are asked, each at most
  -- once, the sender is the leader of the term, the batch has a valid transaction and at most one invalid
  -- one, and the storage takes a block that fits.
  pub execute_round-Takes :
      (sound : IsSound x.ed25519) (around : Surroundings) (id : PeerId)
      (q : Queue (Signed Transaction)) (l : Leader) (n : Node store x.hash)
      → IsCoherent store x.hash n
      → Awaits l n
      → around.world ≡ n.world.current
      → IsConsistent n.world.current
      → NoneExpired around.now n.world.current
      → ((m : ConsensusMessage) → Distinct (asked (around.answers m)))
      → ((m : ConsensusMessage)
          → Subset (asked (around.answers m)) (peer_ids n.world.current.peers))
      → leader n.world.current l.leader_term ≡ some id
      → ((s : Sorted)
          → leader_stateful_validate x around.now l.transaction_check
              (take_batch max_transactions_per_block q).0
            ≡ ok s
          → (is_empty s.valid ≡ false) × (length s.invalid ≤ 1))
      → ((b : Block)
          → b.body.height ≡ n.state.block_number
          → b.body.prev_block_hash ≡ n.state.last_block_hash
          → (storage : Store) × (write_block b n.storage ≡ some storage))
      → (execute_round x around q l).result ≡ ok tt
      → (d : RoundDone x around q l) × Takes around id q l n d
  execute_round-Takes sound around id q l n c a same w none_expired once peers_only leads batch
        stores h =
      let (d, first, second) =
        execute_round-HasMajorities x around q l (subst (λ v. IsConsistent v) (sym same) w)
          (subst (λ v. NoneExpired around.now v) (sym same) none_expired) once
          (λ m.
            subst (λ v. Subset (asked (around.answers m)) (peer_ids v.peers)) (sym same)
              (peers_only m))
          h in
      let (nonempty, few) = batch d.sorted d.is_sorted in
      let valid =
        leader_batch_accepted x sound around.now n.world.current
          (take_batch max_transactions_per_block q).0 d.sorted
          (subst
            (λ v.
              leader_stateful_validate x around.now v (take_batch max_transactions_per_block q).0
              ≡ ok d.sorted)
            (sym a.world) d.is_sorted)
          few in
      let block : Block = record {
        body = body_of x around d.sorted l;
        signatures = d.ackappend_signatures;
      } in
      let (storage, written) = stores block (sym a.number) (sym a.last) in
      let ((after, passes), within) =
        follower_stateful_validate-eq-ok x around.now n.world.current d.sorted.valid
          d.sorted.invalid valid in
      let applied =
        check_all-apply_block x.hash around.now n.world.current after block w
          (sym a.last ∙ c.agrees.last) passes in
      let p = prepare_taken around id l n d.sorted a leads in
      let e =
        append_taken around id l n d.sorted a leads d.ackprepare_signatures
          (subst
            (λ v.
              verify_rpu_majority_signatures x around.now v
                (response_data (ack_prepare (prepare_of x around d.sorted l).metadata))
                d.ackprepare_signatures
              ≡ ok tt)
            same first)
          nonempty valid in
      let f =
        commit_taken around id l n d.sorted a leads d.ackappend_signatures storage _
          (subst
            (λ v.
              verify_rpu_majority_signatures x around.now v
                (response_data (ack_append (prepare_of x around d.sorted l).metadata))
                d.ackappend_signatures
              ≡ ok tt)
            same second)
          written applied in
      (
        d,
        record {
          prepared = rw p refl;
          appended = rw (p, e) refl;
          committed = rw (p, e) f.0;
          stored = rw (p, e, f.1) (blocks-write_block block n.storage storage written);
        },
      )
