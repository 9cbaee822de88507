-- ===== src/Consensus/Follower/Handlers/Decided.antt =====
-- What a follower has checked when it accepts a body, and when it commits one.
use prellblock.Prelude.{
  ◌≡◌, ◌≤◌, refl, sym, ◌∙◌, ap, subst, [], ◌∷◌, ◌++◌, length, Option, none, some, Outcome, ok, err,
  panicked, arith,
}
use prellblock.Prelude.Sets.{Distinct, common}
use prellblock.Pinxit.{PeerId}
use prellblock.Api.Account.{Time}
use prellblock.Api.Block.{Body, signers}
use prellblock.WorldState.Consistency.{IsConsistent}
use prellblock.Consensus.Error.{Error, append, verify_block_number, verify_leader_term}
use prellblock.Consensus.Message.{Metadata, Append, Commit, ack_prepare, ack_append, response_data}
use prellblock.Consensus.Core.{Externals, verify_rpu_majority_signatures}
use prellblock.Consensus.Core.Quorum.{more_than_faulty, EachSigned, quorum_intersection}
use prellblock.Consensus.Validation.{follower_stateful_validate}
use prellblock.Consensus.Store.{BlockStore}
use prellblock.Consensus.Follower.{phase, Node, commit, left_by_commit, body_with, to_append}
use prellblock.Consensus.Follower.Coherence.{IsCoherent}
use prellblock.Consensus.Follower.Rounds.{commit-Committed}
use prellblock.Consensus.Follower.Handlers.{
  Reply, checked, checked_faulty, with_state, committed, verify_hash, verify_body, commit_in_phase,
  commit_appended, handle_commit, handle_append, append_body, verify_append, appended,
}
use prellblock.Consensus.Follower.Handlers.Prepared.{hashed-Coherent}

module _ (store : BlockStore) (x : Externals) where
  open store use {blocks}

  -- The follower has stored its appended body as the next block: a body of the hash and the number of
  -- the message, with signatures of the message's acknowledgement that are accepted as a majority.
  pub record Decision (now : Time) (message : Commit) (n n' : Node store x.hash) : Type 0 where
    pub body : Body
    pub is_hash : x.hash body ≡ message.metadata.block_hash
    pub is_number : body.height ≡ message.metadata.block_number
    pub majority :
        verify_rpu_majority_signatures x now n.world.current
          (response_data (ack_append message.metadata))
          message.ackappend_signatures
        ≡ ok tt
    pub stored :
        blocks n'.storage
        ≡ blocks n.storage
          ++ (record { body = body; signatures = message.ackappend_signatures } ∷ [])
    pub coherent : IsCoherent store x.hash n'

  pub checked-ok :
      {A R : Type 0} (n : Node store x.hash) (o : Outcome Error A) (r : Reply store x R) (a : R)
      → (checked store x n o r).result ≡ ok a
      → ((b : A) × (o ≡ ok b)) × (checked store x n o r ≡ r)
  checked-ok n (ok b) r a h = ((b, refl), refl)
  checked-ok n (err e) r a h = ground arith
  checked-ok n panicked r a h = ground arith

  pub checked_faulty-ok :
      {A R : Type 0} (n : Node store x.hash) (o : Outcome Error A) (r : Reply store x R) (a : R)
      → (checked_faulty store x n o r).result ≡ ok a
      → ((b : A) × (o ≡ ok b)) × (checked_faulty store x n o r ≡ r)
  checked_faulty-ok n (ok b) r a h = ((b, refl), refl)
  checked_faulty-ok n (err e) r a h = ground arith
  checked_faulty-ok n panicked r a h = ground arith

  committed-ok :
      (n : Node store x.hash) (o : Option (Node store x.hash))
      → (committed store x n o).result ≡ ok tt
      → o ≡ some (committed store x n o).node
  committed-ok n none h = ground arith
  committed-ok n (some m) h = refl

  commit_appended-Decision :
      (now : Time) (message : Commit) (n : Node store x.hash)
      → IsCoherent store x.hash n
      → verify_hash n.state.block_hash message.metadata.block_hash ≡ ok tt
      → message.metadata.block_number ≡ n.state.block_number
      → (commit_appended store x now message n).result ≡ ok tt
      → Decision now message n (commit_appended store x now message n).node
  unfolding commit_appended
  commit_appended-Decision now message n c v num h =
      let n' =
        with_state store x n (record n.state { block_hash = some message.metadata.block_hash }) in
      let c' : IsCoherent store x.hash n' =
        hashed-Coherent store x message.metadata.block_hash n.state.buffered_commit_message n c v in
      let o = commit store x.hash message.ackappend_signatures n' in
      let left = left_by_commit store x.hash message.ackappend_signatures n' in
      let ((u, m), e) = checked_faulty-ok n' _ (committed store x left o) tt h in
      let k : (committed store x left o).result ≡ ok tt =
        ap (λ (r : Reply store x (Unit {0})). r.result) (sym e) ∙ h in
      let d =
        commit-Committed store x.hash message.ackappend_signatures n'
          (committed store x left o).node c' (committed-ok left o k) in
      subst (λ (r : Reply store x (Unit {0})). Decision now message n r.node) (sym e)
        (record {
          body = d.body;
          is_hash =
              sym (c'.prepared message.metadata.block_hash (d.body, d.invalid) refl d.content);
          is_number = d.at_number ∙ sym num;
          majority = m;
          stored = d.stored;
          coherent = d.coherent;
        })

  -- If a coherent follower in the append phase answers a commit message without an error, it has
  -- checked the majority of signatures and stored the appended body, whose hash and number are those
  -- of the message, as its next block.
  pub handle_commit-Decision :
      (now : Time) (peer_id : PeerId) (message : Commit) (n : Node store x.hash)
      → IsCoherent store x.hash n
      → phase n.state ≡ some append
      → (handle_commit store x now peer_id message n).result ≡ ok tt
      → Decision now message n (handle_commit store x now peer_id message n).node
  unfolding handle_commit commit_in_phase verify_block_number
  handle_commit-Decision now peer_id message n c in_append h =
      let ((u, v), e) =
        checked-ok n _ (commit_in_phase store x now message n (phase n.state)) tt h in
      let f : handle_commit store x now peer_id message n ≡ commit_appended store x now message n =
        e ∙ ap (commit_in_phase store x now message n) in_append in
      subst (λ (r : Reply store x (Unit {0})). Decision now message n r.node) (sym f)
        (commit_appended-Decision now message n c (ground (arith, v)) (ground (arith, v))
          (ap (λ (r : Reply store x (Unit {0})). r.result) (sym f) ∙ h))

  -- Two followers with the same consistent world state that commit bodies at the same time, by whatever
  -- messages: the acknowledgements of both messages are signed by more common peers than may be faulty.
  pub decisions_intersect :
      (now : Time) (message message' : Commit) (n n' m m' : Node store x.hash)
      → IsConsistent n.world.current
      → n'.world.current ≡ n.world.current
      → Decision now message n m
      → Decision now message' n' m'
      → Distinct
          (common (signers message.ackappend_signatures) (signers message'.ackappend_signatures))
        × (more_than_faulty (length n.world.current.peers)
            ≤ length (
                common
                  (signers message.ackappend_signatures)
                  (signers message'.ackappend_signatures)))
        × EachSigned x now n.world.current
            (response_data (ack_append message.metadata))
            (common (signers message.ackappend_signatures) (signers message'.ackappend_signatures))
        × EachSigned x now n.world.current
            (response_data (ack_append message'.metadata))
            (common (signers message.ackappend_signatures) (signers message'.ackappend_signatures))
  decisions_intersect now message message' n n' m m' c same d d' =
      quorum_intersection x now n.world.current (response_data (ack_append message.metadata))
        (response_data (ack_append message'.metadata)) message.ackappend_signatures
        message'.ackappend_signatures c d.majority
        (subst
          (λ w.
            verify_rpu_majority_signatures x now w (response_data (ack_append message'.metadata))
              message'.ackappend_signatures
            ≡ ok tt)
          same d'.majority)

  -- What a follower has checked of an append message that it acknowledges.
  pub record Accepted (now : Time) (message : Append) (n : Node store x.hash) : Type 0 where
    pub is_hash :
        x.hash (body_with message.valid_transactions message.timestamp n.state)
        ≡ message.metadata.block_hash
    pub unchanged : verify_hash n.state.block_hash message.metadata.block_hash ≡ ok tt
    pub is_term : message.metadata.leader_term ≡ n.state.leader_term
    pub is_number : message.metadata.block_number ≡ n.state.block_number
    pub majority :
        verify_rpu_majority_signatures x now n.world.current
          (response_data (ack_prepare message.metadata))
          message.ackprepare_signatures
        ≡ ok tt
    pub valid :
        follower_stateful_validate x now n.world.current message.valid_transactions
          message.invalid_transactions
        ≡ ok tt

  append_body-verified :
      (now : Time) (peer_id : PeerId) (message : Append) (body : Body) (n : Node store x.hash)
      (m : Metadata)
      → (append_body store x now peer_id message body n).result ≡ ok m
      → (verify_rpu_majority_signatures x now n.world.current
            (response_data (ack_prepare message.metadata))
            message.ackprepare_signatures
          ≡ ok tt)
        × (follower_stateful_validate x now n.world.current body.transactions
              message.invalid_transactions
            ≡ ok tt)
  unfolding append_body verify_append
  append_body-verified now peer_id message body n m h =
      let n' =
        with_state store x n (record n.state { block_hash = some message.metadata.block_hash }) in
      let ((u, v), e) =
        checked_faulty-ok n' _
          (appended store x now peer_id message.metadata n'
            (to_append body message.invalid_transactions n'.state))
          m h in
      (ground (arith, v), ground (arith, v))

  -- If a follower acknowledges an append message, the body that it builds from the message and its own
  -- state has the message's hash, which does not contradict the prepared one; the leader term and the
  -- number are its own; a majority has acknowledged the preparation; and the transactions are valid.
  pub handle_append-Accepted :
      (now : Time) (peer_id : PeerId) (message : Append) (n : Node store x.hash) (m : Metadata)
      → (handle_append store x now peer_id message n).result ≡ ok m
      → Accepted now message n
  unfolding handle_append verify_leader_term verify_block_number
  handle_append-Accepted now peer_id message n m h =
      let body = body_with message.valid_transactions message.timestamp n.state in
      let o = verify_body (x.hash body) n.state.block_hash message.metadata.block_hash in
      let r = append_body store x now peer_id message body n in
      let ((u, v), e) = checked-ok n _ (checked_faulty store x n o r) m h in
      let ((u', v'), e') =
        checked_faulty-ok n o r m (ap (λ (r : Reply store x Metadata). r.result) (sym e) ∙ h) in
      let d = append_body-verified now peer_id message body n m (
        ap (λ (r : Reply store x Metadata). r.result) (sym e')
        ∙ ap (λ (r : Reply store x Metadata). r.result) (sym e)
        ∙ h) in
      record {
        is_hash = ground (arith, v');
        unchanged = ground (arith, v');
        is_term = ground (arith, v);
        is_number = ground (arith, v);
        majority = d.0;
        valid = unfold body_with in d.1;
      }
