-- ===== src/Consensus/Follower/Handlers/Acknowledged.antt =====
-- What a follower acknowledges is of its round, does not contradict what it has, and is a promise.
use prellblock.Prelude.{
  ◌≡◌, refl, sym, ◌∙◌, ap, subst, Option, none, some, Outcome, ok, err, panicked, arith,
}
use prellblock.Pinxit.{PeerId}
use prellblock.Api.Account.{Time}
use prellblock.Consensus.Error.{Error, verify_leader_term, verify_block_number, verify_phase}
use prellblock.Consensus.Message.{Metadata, Prepare, Append, Commit}
use prellblock.Consensus.Core.{Externals}
use prellblock.Consensus.Store.{BlockStore}
use prellblock.Consensus.Follower.{State, body_with, to_prepare, to_append, Node}
use prellblock.Consensus.Follower.Handlers.{
  Reply, checked_faulty, with_state, verify_body, handle_prepare, handle_append, append_body,
  appended, apply_buffered, acknowledged, verify_append, prepared,
}
use prellblock.Consensus.Follower.Promise.{IsStuck, Acknowledges, Promised, Promised-Keeps, current}
use prellblock.Consensus.Follower.Handlers.Promises.{
  or_panic-not-IsStuck, to_prepare_lem, Fits, append_body-Keeps,
}
use prellblock.Consensus.Follower.Handlers.Decided.{
  checked-ok, checked_faulty-ok, handle_append-Accepted,
}

module _ (store : BlockStore) (x : Externals) where
  prepared-Acknowledges :
      (m k : Metadata) (n : Node store x.hash) (o : Option State)
      → to_prepare m.block_hash n.state ≡ o
      → m.leader_term ≡ n.state.leader_term
      → m.block_number ≡ n.state.block_number
      → (prepared store x m n o).result ≡ ok k
      → Acknowledges k n.state (prepared store x m n o).node.state
  prepared-Acknowledges m k n none e t b h = absurd (ground arith)
  prepared-Acknowledges m k n (some s) e t b h =
      let (a, d, c) = to_prepare_lem m.block_hash n.state s e in
      record {
        is_term = ground arith;
        is_number = ground arith;
        unchanged = ground arith;
        not_stuck = λ (i, (f, j)). absurd (ground arith);
        promised = current (ground arith) (ground arith) (ground arith);
      }

  -- of a prepare message
  pub handle_prepare-Acknowledges :
      (peer_id : PeerId) (message : Prepare) (n : Node store x.hash) (m : Metadata)
      → (handle_prepare store x peer_id message n).result ≡ ok m
      → Acknowledges m n.state (handle_prepare store x peer_id message n).node.state
  unfolding handle_prepare verify_leader_term verify_block_number verify_phase
  handle_prepare-Acknowledges peer_id message n m h =
      let o = to_prepare message.metadata.block_hash n.state in
      let ((u, v), e) = checked-ok store x n _ (prepared store x message.metadata n o) m h in
      subst (λ (r : Reply store x Metadata). Acknowledges m n.state r.node.state) (sym e)
        (prepared-Acknowledges message.metadata m n o refl (ground (arith, v)) (ground (arith, v))
          (ap (λ (r : Reply store x Metadata). r.result) (sym e) ∙ h))

  module _ (now : Time) where
    acknowledged_lem :
        (m k : Metadata) (o : Outcome Error (Unit {0}))
        → acknowledged store x now m o ≡ ok k
        → k ≡ m
    acknowledged_lem m k (ok u) h = ground arith
    acknowledged_lem m k (err e) h = ground arith
    acknowledged_lem m k panicked h = absurd (ground arith)

    apply_buffered_lem :
        (peer_id : PeerId) (m k : Metadata) (o : Option Commit) (n : Node store x.hash)
        → (apply_buffered store x now peer_id m o n).result ≡ ok k
        → k ≡ m
    apply_buffered_lem peer_id m k none n h = ground arith
    apply_buffered_lem peer_id m k (some c) n h = acknowledged_lem m k _ h

    appended_lem :
        (peer_id : PeerId) (m k : Metadata) (n : Node store x.hash) (o : Option State)
        → (appended store x now peer_id m n o).result ≡ ok k
        → k ≡ m
    appended_lem peer_id m k n none h = absurd (ground arith)
    appended_lem peer_id m k n (some s) h =
        apply_buffered_lem peer_id m k s.buffered_commit_message (with_state store x n s) h

    -- the answer of an append message is its metadata, and the node is that of the part after the checks
    answer_lem :
        (peer_id : PeerId) (message : Append) (n : Node store x.hash) (k : Metadata)
        → (handle_append store x now peer_id message n).result ≡ ok k
        → (k ≡ message.metadata)
          × (¬ IsStuck n.state)
          × (handle_append store x now peer_id message n
              ≡ append_body store x now peer_id message
                  (body_with message.valid_transactions message.timestamp n.state)
                  n)
    unfolding handle_append append_body
    answer_lem peer_id message n k h =
        let body = body_with message.valid_transactions message.timestamp n.state in
        let o = verify_body (x.hash body) n.state.block_hash message.metadata.block_hash in
        let r = append_body store x now peer_id message body n in
        let n' =
          with_state store x n (record n.state { block_hash = some message.metadata.block_hash }) in
        let (p, e) = checked-ok store x n _ (checked_faulty store x n o r) k h in
        let i = ap (λ (r : Reply store x Metadata). r.result) (sym e) ∙ h in
        let (q, f) = checked_faulty-ok store x n o r k i in
        let j = ap (λ (r : Reply store x Metadata). r.result) (sym f) ∙ i in
        let a =
          appended store x now peer_id message.metadata n'
            (to_append body message.invalid_transactions n'.state) in
        let (s, g) =
          checked_faulty-ok store x n' (verify_append store x now message body n') a k j in
        (
          appended_lem peer_id message.metadata k n'
              (to_append body message.invalid_transactions n'.state)
              (ap (λ (r : Reply store x Metadata). r.result) (sym g) ∙ j),
          or_panic-not-IsStuck n.state _ p.0 p.1,
          e ∙ f,
        )

    -- of an append message
    pub handle_append-Acknowledges :
        (peer_id : PeerId) (message : Append) (n : Node store x.hash) (m : Metadata)
        → Fits store x n
        → (handle_append store x now peer_id message n).result ≡ ok m
        → Acknowledges m n.state (handle_append store x now peer_id message n).node.state
    handle_append-Acknowledges peer_id message n m fits h =
        let a = handle_append-Accepted store x now peer_id message n m h in
        let (same, not_stuck, e) = answer_lem peer_id message n m h in
        let body = body_with message.valid_transactions message.timestamp n.state in
        let s : State = record n.state { block_hash = some message.metadata.block_hash } in
        record {
          is_term = ground (arith, a.is_term);
          is_number = ground (arith, a.is_number);
          unchanged = ground (arith, a.unchanged);
          not_stuck = not_stuck;
          promised =
              subst (λ (r : Reply store x Metadata). Promised m r.node.state) (sym e)
                (Promised-Keeps m s _
                  (current (ground (arith, a.is_term)) (ground (arith, a.is_number)) (ground arith))
                  (append_body-Keeps store x now peer_id message body n fits));
        }
