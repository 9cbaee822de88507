-- ===== src/Consensus/Dispatch/Promises.antt =====
-- What an RPU does with its promises when it handles a message.
use prellblock.Prelude.{
  ℕ, ◌≤◌, ◌≡◌, refl, sym, ◌∙◌, ap, subst, Bool, true, false, List, ◌∷◌, Option, none, some, ltb,
  length, Outcome, ok, err, panicked, ◌>>=◌, ◌>>◌, >>=-eq-ok, arith,
}
use prellblock.Pinxit
use prellblock.Pinxit.{PeerId, Signed, Identity, Signature, Bytes}
use prellblock.Api.Account.{Time}
use prellblock.Api.Transaction.{Transaction}
use prellblock.Consensus.Error.{Error}
use prellblock.Consensus.Message.{
  Metadata, NewView, ConsensusMessage, ConsensusResponse, ack_prepare, ack_append,
  synchronization_response, ok_response, SynchronizationResponse, response_data,
}
use prellblock.Consensus.Core.{Externals}
use prellblock.Consensus.ViewChange
use prellblock.Consensus.ViewChange.{Effect, handle_view_change}
use prellblock.Consensus.Store.{BlockStore}
use prellblock.Consensus.Follower.{State, Node, new_leader_term}
use prellblock.Consensus.Follower.Handlers.{
  Reply, reply, handle_prepare, handle_append, handle_commit,
}
use prellblock.Consensus.Follower.Promise.{Keeps, Keeps-refl, later_term, Acknowledges}
use prellblock.Consensus.Follower.Handlers.Promises.{
  Fits, handle_prepare-Keeps, handle_append-Keeps, handle_commit-Keeps,
}
use prellblock.Consensus.Follower.Handlers.Acknowledged.{
  handle_prepare-Acknowledges, handle_append-Acknowledges,
}
use prellblock.Consensus.Follower.Synchronizer.{
  NewViewReply, NewViewEffect, verify_new_view, accept_new_view, check_new_view, catch_up,
  handle_new_view,
}
use prellblock.Consensus.Follower.Synchronizer.NewViews.{verify_new_view-ok}
use prellblock.Consensus.Dispatch.Answered.{voted-follower}
use prellblock.Consensus.Dispatch.{
  Instance, Handled, dispatch, verify_message, signed_by, if_verified, handle_message, answered_by,
  voted,
}

-- what an answer acknowledges
abbrev pub acknowledged_by : ConsensusResponse → Option Metadata
acknowledged_by (ack_prepare m) = some m
acknowledged_by (ack_append m) = some m
acknowledged_by (synchronization_response r) = none
acknowledged_by ok_response = none

abbrev pub acknowledged_in : Outcome Error (Signed ConsensusResponse) → Option Metadata
acknowledged_in (ok r) = acknowledged_by r.body
acknowledged_in (err e) = none
acknowledged_in panicked = none

abbrev pub with_acknowledged : Option Metadata → List Metadata → List Metadata
with_acknowledged none ms = ms
with_acknowledged (some m) ms = m ∷ ms

-- A new view for which the follower does not have to ask for blocks.
abbrev pub NeedsNoBlocks : ConsensusMessage → State → Type 0
NeedsNoBlocks (ConsensusMessage.prepare m) s = Unit
NeedsNoBlocks (ConsensusMessage.append m) s = Unit
NeedsNoBlocks (ConsensusMessage.commit m) s = Unit
NeedsNoBlocks (ConsensusMessage.view_change term) s = Unit
NeedsNoBlocks (ConsensusMessage.new_view m) s = m.current_block_number ≤ s.block_number
NeedsNoBlocks (ConsensusMessage.synchronization_request m) s = Unit

module _ (store : BlockStore) (x : Externals) where
  module _ (now : Time) (at_times : List (Signed Transaction) → List (ℕ × Signed Transaction)) where
    check_new_view-Keeps :
        (peer_id : PeerId) (message : NewView) (outdated : Bool) (r : Reply store x (Unit {0}))
        → Keeps r.node.state (check_new_view store x now peer_id message outdated r).node.state
    check_new_view-Keeps peer_id message outdated r =
        go outdated r.result (verify_new_view store x now peer_id message r.node) refl
      where
        go :
            (b : Bool) (o p : Outcome Error (Unit {0}))
            → verify_new_view store x now peer_id message r.node ≡ p
            → (let reply : NewViewReply store x now = elim (o >> p) [
              | ok u ↦ accept_new_view store x now message b r.node
              | err e ↦ record { node = r.node; effect = NewViewEffect.nothing; result = err e }
              | panicked ↦ record {
                node = r.node;
                effect = NewViewEffect.nothing;
                result = panicked;
              }
            ] in
                Keeps r.node.state reply.node.state)
        go true (ok u) (ok v) e = Keeps-refl r.node.state
        go false (ok u) (ok v) e =
            let (later, led, majority) =
              verify_new_view-ok store x now at_times peer_id message r.node e in
            unfold new_leader_term in later_term later
        go b (ok u) (err y) e = Keeps-refl r.node.state
        go b (ok u) panicked e = Keeps-refl r.node.state
        go b (err y) p e = Keeps-refl r.node.state
        go b panicked p e = Keeps-refl r.node.state

    handle_new_view-Keeps :
        (peer_id : PeerId) (answer : Outcome Error SynchronizationResponse) (message : NewView)
        (n : Node store x.hash)
        → message.current_block_number ≤ n.state.block_number
        → Keeps n.state (handle_new_view store x now at_times peer_id answer message n).node.state
    unfolding handle_new_view
    handle_new_view-Keeps peer_id answer message n h =
        subst
          (λ (r : Reply store x (Unit {0})).
            Keeps n.state
              (check_new_view store x now peer_id message
                (ltb message.current_block_number n.state.block_number) r).node.state)
          (sym stays)
          (check_new_view-Keeps peer_id message
            (ltb message.current_block_number n.state.block_number) (reply store x n (ok tt)))
      where
        stays : catch_up store x now at_times peer_id answer message n ≡ reply store x n (ok tt)
        stays = ground arith

    dispatch-Keeps :
        (answer : Outcome Error SynchronizationResponse) (peer_id : PeerId) (signature : Signature)
        (message : ConsensusMessage) (i : Instance store x)
        → Fits store x i.follower
        → NeedsNoBlocks message i.follower.state
        → Keeps i.follower.state
            (dispatch store x now at_times answer peer_id signature message
              i).instance'.follower.state
    unfolding dispatch
    dispatch-Keeps answer peer_id signature (ConsensusMessage.prepare m) i f k =
        handle_prepare-Keeps store x peer_id m i.follower
    dispatch-Keeps answer peer_id signature (ConsensusMessage.append m) i f k =
        handle_append-Keeps store x now peer_id m i.follower f
    dispatch-Keeps answer peer_id signature (ConsensusMessage.commit m) i f k =
        handle_commit-Keeps store x now peer_id m i.follower f
    dispatch-Keeps answer peer_id signature (ConsensusMessage.view_change term) i f k =
        subst (λ (n : Node store x.hash). Keeps i.follower.state n.state)
          (sym (voted-follower store x now at_times i _)) (Keeps-refl i.follower.state)
    dispatch-Keeps answer peer_id signature (ConsensusMessage.new_view m) i f k =
        handle_new_view-Keeps peer_id answer m i.follower k
    dispatch-Keeps answer peer_id signature (ConsensusMessage.synchronization_request m) i f k =
        Keeps-refl i.follower.state

    -- an answer without an acknowledgement
    no_acknowledgement :
        (o : Outcome Error (Unit {0})) (r : ConsensusResponse) (m : Metadata) (s s' : State)
        → (o >>= λ done. ok ok_response) ≡ ok r
        → acknowledged_by r ≡ some m
        → Acknowledges m s s'
    no_acknowledgement (ok u) r m s s' h k = absurd (ground arith)
    no_acknowledgement (err e) r m s s' h k = absurd (ground arith)
    no_acknowledgement panicked r m s s' h k = absurd (ground arith)

    voted-Acknowledges :
        (i : Instance store x) (o : Outcome Error (ViewChange.State × List Effect))
        (r : ConsensusResponse) (m : Metadata) (s s' : State)
        → (voted store x i o).result ≡ ok r
        → acknowledged_by r ≡ some m
        → Acknowledges m s s'
    voted-Acknowledges i (ok v) r m s s' h k = absurd (ground arith)
    voted-Acknowledges i (err e) r m s s' h k = absurd (ground arith)
    voted-Acknowledges i panicked r m s s' h k = absurd (ground arith)

    dispatch-Acknowledges :
        (answer : Outcome Error SynchronizationResponse) (peer_id : PeerId) (signature : Signature)
        (message : ConsensusMessage) (i : Instance store x) (r : ConsensusResponse) (m : Metadata)
        → Fits store x i.follower
        → (dispatch store x now at_times answer peer_id signature message i).result ≡ ok r
        → acknowledged_by r ≡ some m
        → Acknowledges m i.follower.state
            (dispatch store x now at_times answer peer_id signature message
              i).instance'.follower.state
    unfolding dispatch
    dispatch-Acknowledges answer peer_id signature (ConsensusMessage.prepare a) i r m f h k =
        let (b, e, g) =
          >>=-eq-ok (handle_prepare store x peer_id a i.follower).result (λ c. ok (ack_prepare c))
            h in
        handle_prepare-Acknowledges store x peer_id a i.follower m
          (e ∙ ap (λ c. ok c) (ground arith))
    dispatch-Acknowledges answer peer_id signature (ConsensusMessage.append a) i r m f h k =
        let (b, e, g) =
          >>=-eq-ok (handle_append store x now peer_id a i.follower).result (λ c. ok (ack_append c))
            h in
        handle_append-Acknowledges store x now peer_id a i.follower m f
          (e ∙ ap (λ c. ok c) (ground arith))
    dispatch-Acknowledges answer peer_id signature (ConsensusMessage.commit a) i r m f h k =
        no_acknowledgement (handle_commit store x now peer_id a i.follower).result r m _ _ h k
    dispatch-Acknowledges answer peer_id signature (ConsensusMessage.view_change term) i r m f h k =
        voted-Acknowledges i
          (handle_view_change now (length i.follower.world.current.peers) peer_id signature term
            i.view_change)
          r m _ _ h k
    dispatch-Acknowledges answer peer_id signature (ConsensusMessage.new_view a) i r m f h k =
        no_acknowledgement (handle_new_view store x now at_times peer_id answer a i.follower).result
          r m _ _ h k
    dispatch-Acknowledges answer peer_id signature (ConsensusMessage.synchronization_request a) i r
          m f h k =
        absurd (ground arith)

    if_verified-Keeps :
        (i : Instance store x) (o : Outcome Error (Unit {0}))
        (h : Handled store x (Signed ConsensusResponse))
        → Keeps i.follower.state h.instance'.follower.state
        → Keeps i.follower.state (if_verified store x now at_times i o h).instance'.follower.state
    if_verified-Keeps i (ok done) h k = k
    if_verified-Keeps i (err e) h k = Keeps-refl i.follower.state
    if_verified-Keeps i panicked h k = Keeps-refl i.follower.state

    pub handle_message-Keeps :
        (identity : Identity) (answer : Outcome Error SynchronizationResponse)
        (message : Signed ConsensusMessage) (i : Instance store x)
        → Fits store x i.follower
        → NeedsNoBlocks message.body i.follower.state
        → Keeps i.follower.state
            (handle_message store x now at_times identity answer message i).instance'.follower.state
    unfolding handle_message
    handle_message-Keeps identity answer message i f k =
        if_verified-Keeps i (verify_message store x now at_times message i) _
          (dispatch-Keeps answer message.signer message.signature message.body i f k)

    signed_by-acknowledged :
        (identity : Identity) (r : ConsensusResponse) (m : Metadata)
        → acknowledged_in (signed_by store x now at_times identity r) ≡ some m
        → acknowledged_by r ≡ some m
    unfolding Pinxit.sign
    signed_by-acknowledged identity r m h = go (x.encode (response_data r)) refl
      where
        go : (b : Option Bytes) → x.encode (response_data r) ≡ b → acknowledged_by r ≡ some m
        go none e = absurd (ground arith)
        go (some b) e = ground arith

    answered-Acknowledges :
        (identity : Identity) (o : Outcome Error (Unit {0})) (i : Instance store x)
        (d : Handled store x ConsensusResponse) (m : Metadata)
        → ((r : ConsensusResponse)
            → d.result ≡ ok r
            → acknowledged_by r ≡ some m
            → Acknowledges m i.follower.state d.instance'.follower.state)
        → acknowledged_in
            (if_verified store x now at_times i o
              (answered_by store x now at_times identity d)).result
          ≡ some m
        → Acknowledges m i.follower.state
            (if_verified store x now at_times i o
              (answered_by store x now at_times identity d)).instance'.follower.state
    answered-Acknowledges identity (ok u) i d m f h = go d.result refl
      where
        go :
            (o : Outcome Error ConsensusResponse)
            → d.result ≡ o
            → Acknowledges m i.follower.state d.instance'.follower.state
        go (ok r) e = f r e (signed_by-acknowledged identity r m (ground arith))
        go (err y) e = absurd (ground arith)
        go panicked e = absurd (ground arith)
    answered-Acknowledges identity (err e) i d m f h = absurd (ground arith)
    answered-Acknowledges identity panicked i d m f h = absurd (ground arith)

    pub handle_message-Acknowledges :
        (identity : Identity) (answer : Outcome Error SynchronizationResponse)
        (message : Signed ConsensusMessage) (i : Instance store x) (m : Metadata)
        → Fits store x i.follower
        → acknowledged_in (handle_message store x now at_times identity answer message i).result
          ≡ some m
        → Acknowledges m i.follower.state
            (handle_message store x now at_times identity answer message i).instance'.follower.state
    unfolding handle_message
    handle_message-Acknowledges identity answer message i m f h =
        answered-Acknowledges identity (verify_message store x now at_times message i) i
          (dispatch store x now at_times answer message.signer message.signature message.body i) m
          (λ r. dispatch-Acknowledges answer message.signer message.signature message.body i r m f)
          h
