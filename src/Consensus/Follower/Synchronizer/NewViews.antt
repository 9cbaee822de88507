-- ===== src/Consensus/Follower/Synchronizer/NewViews.antt =====
-- What a follower has checked when it takes a new view.
use prellblock.Prelude.{
  ℕ, ◌<◌, ◌≡◌, ◌≢◌, refl, Bool, true, false, List, Option, none, some, ltb, if◌then◌else◌, Outcome,
  ok, err, panicked, ◌>>◌, arith,
}
use prellblock.Pinxit.{PeerId, Signed}
use prellblock.Api.Account.{Time}
use prellblock.Api.Transaction.{Transaction}
use prellblock.WorldState.{has_peer}
use prellblock.Consensus.Error.{Error, invalid_peer}
use prellblock.Consensus.Message.{NewView, SynchronizationResponse, ConsensusMessage, message_data}
use prellblock.Consensus.Core.{Externals, leader, verify_rpu_majority_signatures}
use prellblock.Consensus.Store.{BlockStore}
use prellblock.Consensus.Follower.{Node, new_leader_term}
use prellblock.Consensus.Follower.Coherence.{IsCoherent}
use prellblock.Consensus.Follower.Rounds.{new_leader_term-IsCoherent}
use prellblock.Consensus.Follower.Handlers.{Reply, reply}
use prellblock.Consensus.Follower.Synchronizer.{
  synchronize, verify_new_view, accept_new_view, check_new_view, catch_up, handle_new_view,
  NewViewReply, NewViewEffect,
}
use prellblock.Consensus.Follower.Synchronizer.Synchronized.{synchronize-IsCoherent}

module _ (store : BlockStore) (x : Externals) (now : Time)
    (at_times : List (Signed Transaction) → List (ℕ × Signed Transaction)) where
  abbrev Coherent : Node store x.hash → Type 0
  Coherent n = IsCoherent store x.hash n

  -- A panic may leave the follower in between.
  abbrev Survives : Reply store x (Unit {0}) → Type 0
  Survives r = r.result ≢ panicked → Coherent r.node

  catch_up-Survives :
      (peer_id : PeerId) (answer : Outcome Error SynchronizationResponse) (message : NewView)
      (n : Node store x.hash)
      → Coherent n
      → Survives (catch_up store x now at_times peer_id answer message n)
  catch_up-Survives peer_id answer message n c =
      go (ltb n.state.block_number message.current_block_number)
        (has_peer peer_id n.world.current.peers)
    where
      go :
          (b d : Bool)
          → Survives (
              if b
              then (if d
                  then synchronize store x now at_times answer n
                  else reply store x n (err (invalid_peer peer_id)))
              else reply store x n (ok tt))
      go true true = synchronize-IsCoherent store x now at_times answer n c
      go true false = λ h. c
      go false d = λ h. c

  check_new_view-Coherent :
      (peer_id : PeerId) (message : NewView) (outdated : Bool) (r : Reply store x (Unit {0}))
      → Survives r
      → (check_new_view store x now peer_id message outdated r).result ≢ panicked
      → Coherent (check_new_view store x now peer_id message outdated r).node
  check_new_view-Coherent peer_id message outdated r c =
      go outdated r.result (verify_new_view store x now peer_id message r.node) c
    where
      go :
          (b : Bool) (p o : Outcome Error (Unit {0}))
          → (p ≢ panicked → Coherent r.node)
          → (let reply : NewViewReply store x now = elim (p >> o) [
            | ok u ↦ accept_new_view store x now message b r.node
            | err e ↦ record { node = r.node; effect = NewViewEffect.nothing; result = err e }
            | panicked ↦ record { node = r.node; effect = NewViewEffect.nothing; result = panicked }
          ] in
              reply.result ≢ panicked → Coherent reply.node)
      go true (ok v) (ok u) c h = c (λ e. ground arith)
      go false (ok v) (ok u) c h =
          new_leader_term-IsCoherent store x.hash message.leader_term message.view_change_signatures
            r.node (c (λ e. ground arith))
      go b (ok v) (err e) c h = c (λ e. ground arith)
      go b (ok v) panicked c h = absurd (h refl)
      go b (err e) o c h = c (λ e. ground arith)
      go b panicked o c h = absurd (h refl)

  -- A coherent follower is so after any new view that does not panic, accepted or not.
  pub handle_new_view-IsCoherent :
      (peer_id : PeerId) (answer : Outcome Error SynchronizationResponse) (message : NewView)
      (n : Node store x.hash)
      → IsCoherent store x.hash n
      → (handle_new_view store x now at_times peer_id answer message n).result ≢ panicked
      → IsCoherent store x.hash (handle_new_view store x now at_times peer_id answer message n).node
  unfolding handle_new_view
  handle_new_view-IsCoherent peer_id answer message n c =
      check_new_view-Coherent peer_id message
        (ltb message.current_block_number n.state.block_number)
        (catch_up store x now at_times peer_id answer message n)
        (catch_up-Survives peer_id answer message n c)

  -- The term of the message is later than the one of the follower that has caught up, the sender leads
  -- it, and a majority has voted for it. The follower is coherent, and in that term unless its number
  -- was above the sender's.
  pub record NewViewTaken (peer_id : PeerId) (message : NewView) (n caught_up m : Node store x.hash)
      : Type 0 where
    pub later : caught_up.state.leader_term < message.leader_term
    pub led_by_sender : leader caught_up.world.current message.leader_term ≡ some peer_id
    pub majority :
        verify_rpu_majority_signatures x now caught_up.world.current
          (message_data (ConsensusMessage.view_change message.leader_term))
          message.view_change_signatures
        ≡ ok tt
    pub new_term : m.state.leader_term ≡ (
        if ltb message.current_block_number n.state.block_number
        then caught_up.state.leader_term
        else message.leader_term)
    pub coherent : IsCoherent store x.hash m

  pub verify_new_view-ok :
      (peer_id : PeerId) (message : NewView) (n : Node store x.hash)
      → verify_new_view store x now peer_id message n ≡ ok tt
      → (n.state.leader_term < message.leader_term)
        × (leader n.world.current message.leader_term ≡ some peer_id)
        × (verify_rpu_majority_signatures x now n.world.current
              (message_data (ConsensusMessage.view_change message.leader_term))
              message.view_change_signatures
            ≡ ok tt)
  unfolding verify_new_view
  verify_new_view-ok peer_id message n h = go (leader n.world.current message.leader_term) refl
    where
      go :
          (o : Option PeerId)
          → leader n.world.current message.leader_term ≡ o
          → (n.state.leader_term < message.leader_term)
            × (leader n.world.current message.leader_term ≡ some peer_id)
            × (verify_rpu_majority_signatures x now n.world.current
                  (message_data (ConsensusMessage.view_change message.leader_term))
                  message.view_change_signatures
                ≡ ok tt)
      go none e = ground arith
      go (some l) e = (ground arith, ground arith, ground arith)

  check_new_view-taken :
      (peer_id : PeerId) (message : NewView) (n : Node store x.hash) (r : Reply store x (Unit {0}))
      → Survives r
      → (check_new_view store x now peer_id message
          (ltb message.current_block_number n.state.block_number)
          r).result
        ≡ ok tt
      → NewViewTaken peer_id message n r.node
          (check_new_view store x now peer_id message
            (ltb message.current_block_number n.state.block_number)
            r).node
  check_new_view-taken peer_id message n r c h =
      go r.result c (verify_new_view store x now peer_id message r.node) refl
        (ltb message.current_block_number n.state.block_number) refl h
    where
      go :
          (o : Outcome Error (Unit {0}))
          → (o ≢ panicked → Coherent r.node)
          → (p : Outcome Error (Unit {0})) → verify_new_view store x now peer_id message r.node ≡ p
          → (b : Bool) → ltb message.current_block_number n.state.block_number ≡ b
          → (let s : NewViewReply store x now = elim (o >> p) [
            | ok u ↦ accept_new_view store x now message b r.node
            | err e ↦ record { node = r.node; effect = NewViewEffect.nothing; result = err e }
            | panicked ↦ record { node = r.node; effect = NewViewEffect.nothing; result = panicked }
          ] in
              s.result ≡ ok tt)
          → (let s : NewViewReply store x now = elim (o >> p) [
            | ok u ↦ accept_new_view store x now message b r.node
            | err e ↦ record { node = r.node; effect = NewViewEffect.nothing; result = err e }
            | panicked ↦ record { node = r.node; effect = NewViewEffect.nothing; result = panicked }
          ] in
              NewViewTaken peer_id message n r.node s.node)
      go (ok u) c (ok v) e true f k =
          let (later, led, majority) = verify_new_view-ok peer_id message r.node e in
          record {
            later = later;
            led_by_sender = led;
            majority = majority;
            new_term = ground arith;
            coherent = c (λ i. ground arith);
          }
      go (ok u) c (ok v) e false f k =
          let (later, led, majority) = verify_new_view-ok peer_id message r.node e in
          record {
            later = later;
            led_by_sender = led;
            majority = majority;
            new_term = unfold new_leader_term in ground arith;
            coherent =
                new_leader_term-IsCoherent store x.hash message.leader_term
                  message.view_change_signatures r.node (c (λ i. ground arith));
          }
      go (ok u) c (err y) e b f k = ground arith
      go (ok u) c panicked e b f k = ground arith
      go (err y) c p e b f k = ground arith
      go panicked c p e b f k = ground arith

  -- If a coherent follower answers a new view without an error, the term of the message is later than
  -- the one that it has after catching up, the sender leads it and a majority has voted for it. The
  -- follower is coherent, and in that term unless its number was above the sender's.
  pub handle_new_view-NewViewTaken :
      (peer_id : PeerId) (answer : Outcome Error SynchronizationResponse) (message : NewView)
      (n : Node store x.hash)
      → IsCoherent store x.hash n
      → (handle_new_view store x now at_times peer_id answer message n).result ≡ ok tt
      → NewViewTaken peer_id message n
          (catch_up store x now at_times peer_id answer message n).node
          (handle_new_view store x now at_times peer_id answer message n).node
  unfolding handle_new_view
  handle_new_view-NewViewTaken peer_id answer message n c h =
      check_new_view-taken peer_id message n
        (catch_up store x now at_times peer_id answer message n)
        (catch_up-Survives peer_id answer message n c) h
