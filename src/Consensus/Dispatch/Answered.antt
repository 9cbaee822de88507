-- ===== src/Consensus/Dispatch/Answered.antt =====
-- Whom an RPU answers, and what stays true of it.
use prellblock.Prelude.{
  ℕ, ◌≡◌, ◌≢◌, refl, ap, ◌>>=◌, subst, sym, List, Option, none, some, Outcome, ok, err, panicked,
  >>=-eq-ok, map_err, arith,
}
use prellblock.Prelude.Map
use prellblock.Pinxit
use prellblock.Pinxit.{PeerId, Signed, Identity, Signature, Bytes, from_secret_key}
use prellblock.Pinxit.Laws.{IsSound, verify-sign}
use prellblock.Api.Account.{Time, Account}
use prellblock.Api.Transaction.{Transaction}
use prellblock.TransactionChecker.{account_checker, verify_is_rpu}
use prellblock.Consensus.Error.{Error, invalid_signature}
use prellblock.Consensus.Message.{
  ConsensusMessage, ConsensusResponse, ack_append, ok_response, message_data, response_data,
  SynchronizationResponse,
}
use prellblock.Consensus.Core.{Externals}
use prellblock.Consensus.Core.Signatures.{IsSignatureOf, IsActiveRpu}
use prellblock.Consensus.ViewChange
use prellblock.Consensus.ViewChange.{Effect, handle_view_change}
use prellblock.Consensus.Store.{BlockStore}
use prellblock.Consensus.Follower.Coherence.{IsCoherent}
use prellblock.Consensus.Follower.Handlers.Prepared.{
  handle_prepare-IsCoherent, handle_append-IsCoherent, handle_commit-IsCoherent,
}
use prellblock.Consensus.Follower.Synchronizer.NewViews.{handle_new_view-IsCoherent}
use prellblock.Consensus.Dispatch.{
  Instance, Handled, voted, dispatch, verify_message, signed_by, if_verified, handle_message,
  answered_by,
}

module _ (store : BlockStore) (x : Externals) (now : Time)
    (at_times : List (Signed Transaction) → List (ℕ × Signed Transaction)) where
  pub voted-follower :
      (i : Instance store x) (o : Outcome Error (ViewChange.State × List Effect))
      → (voted store x i o).instance'.follower ≡ i.follower
  voted-follower i (ok (v, effects)) = refl
  voted-follower i (err e) = refl
  voted-follower i panicked = refl

  dispatch-IsCoherent :
      (answer : Outcome Error SynchronizationResponse) (peer_id : PeerId) (signature : Signature)
      (message : ConsensusMessage) (i : Instance store x)
      → IsCoherent store x.hash i.follower
      → (dispatch store x now at_times answer peer_id signature message i).result ≢ panicked
      → IsCoherent store x.hash
          (dispatch store x now at_times answer peer_id signature message i).instance'.follower
  unfolding dispatch
  dispatch-IsCoherent answer peer_id signature (ConsensusMessage.prepare m) i c h =
      handle_prepare-IsCoherent store x peer_id m i.follower c
  dispatch-IsCoherent answer peer_id signature (ConsensusMessage.append m) i c h =
      handle_append-IsCoherent store x now peer_id m i.follower c
        (λ e. h (ap (λ o. o >>= λ a. ok (ack_append a)) e))
  dispatch-IsCoherent answer peer_id signature (ConsensusMessage.commit m) i c h =
      handle_commit-IsCoherent store x now peer_id m i.follower c
        (λ e. h (ap (λ o. o >>= λ a. ok ok_response) e))
  dispatch-IsCoherent answer peer_id signature (ConsensusMessage.view_change term) i c h =
      subst (λ n. IsCoherent store x.hash n) (sym (voted-follower i _)) c
  dispatch-IsCoherent answer peer_id signature (ConsensusMessage.new_view m) i c h =
      handle_new_view-IsCoherent store x now at_times peer_id answer m i.follower c
        (λ e. h (ap (λ o. o >>= λ a. ok ok_response) e))
  dispatch-IsCoherent answer peer_id signature (ConsensusMessage.synchronization_request m) i c h =
      c

  if_verified-IsCoherent :
      (identity : Identity) (i : Instance store x) (o : Outcome Error (Unit {0}))
      (d : Handled store x ConsensusResponse)
      → IsCoherent store x.hash i.follower
      → (d.result ≢ panicked → IsCoherent store x.hash d.instance'.follower)
      → (if_verified store x now at_times i o (answered_by store x now at_times identity d)).result
        ≢ panicked
      → IsCoherent store x.hash
          (if_verified store x now at_times i o
            (answered_by store x now at_times identity d)).instance'.follower
  if_verified-IsCoherent identity i (ok done) d c f h =
      f (λ e. h (ap (λ o. o >>= signed_by store x now at_times identity) e))
  if_verified-IsCoherent identity i (err e) d c f h = c
  if_verified-IsCoherent identity i panicked d c f h = c

  -- An RPU whose follower is coherent has a coherent follower after any message that does not make the
  -- task panic, whoever has sent it, and whether it is accepted, refused or fails.
  pub handle_message-IsCoherent :
      (identity : Identity) (answer : Outcome Error SynchronizationResponse)
      (message : Signed ConsensusMessage) (i : Instance store x)
      → IsCoherent store x.hash i.follower
      → (handle_message store x now at_times identity answer message i).result ≢ panicked
      → IsCoherent store x.hash
          (handle_message store x now at_times identity answer message i).instance'.follower
  unfolding handle_message
  handle_message-IsCoherent identity answer message i c =
      if_verified-IsCoherent identity i (verify_message store x now at_times message i)
        (dispatch store x now at_times answer message.signer message.signature message.body i) c
        (dispatch-IsCoherent answer message.signer message.signature message.body i c)

  verify_message-IsSignatureOf :
      (message : Signed ConsensusMessage) (i : Instance store x)
      → verify_message store x now at_times message i ≡ ok tt
      → IsActiveRpu now i.follower.world.current message.signer
        × IsSignatureOf x (message_data message.body) message.signer message.signature
  unfolding verify_message Pinxit.verify Pinxit.verify_signature account_checker verify_is_rpu
  verify_message-IsSignatureOf message i h =
      go (Map.find message.signer i.follower.world.current.accounts) refl
        (x.encode (message_data message.body)) refl
    where
      go :
          (a : Option Account)
          → Map.find message.signer i.follower.world.current.accounts ≡ a
          → (m : Option Bytes) → x.encode (message_data message.body) ≡ m
          → IsActiveRpu now i.follower.world.current message.signer
            × IsSignatureOf x (message_data message.body) message.signer message.signature
      go none e m k = absurd (ground arith)
      go (some a) e none k = absurd (ground arith)
      go (some a) e (some m) k = (
        record {
          account = a;
          active = record { found = e; valid = ground arith };
          rpu_account = ground arith;
        },
        record { bytes = m; encoded = k; valid = ground arith },
      )

  if_verified-ok :
      (i : Instance store x) (o : Outcome Error (Unit {0}))
      (h : Handled store x (Signed ConsensusResponse)) (r : Signed ConsensusResponse)
      → (if_verified store x now at_times i o h).result ≡ ok r
      → (o ≡ ok tt) × (h.result ≡ ok r)
  if_verified-ok i (ok done) h r e = (refl, e)
  if_verified-ok i (err y) h r e = absurd (ground arith)
  if_verified-ok i panicked h r e = absurd (ground arith)

  -- If a message is answered, its sender is an RPU whose account has not expired and has signed it, and
  -- the answer carries a signature of the RPU that verifies.
  pub handle_message-answered :
      (sound : IsSound x.ed25519) (secret : ℕ) (answer : Outcome Error SynchronizationResponse)
      (message : Signed ConsensusMessage) (i : Instance store x) (r : Signed ConsensusResponse)
      → (handle_message store x now at_times
          (from_secret_key x.ed25519 secret)
          answer
          message
          i).result
        ≡ ok r
      → IsActiveRpu now i.follower.world.current message.signer
        × IsSignatureOf x (message_data message.body) message.signer message.signature
        × (Pinxit.verify x.ed25519 (λ a. x.encode (response_data a)) r ≡ ok (record { inner = r }))
        × (r.signer ≡ x.ed25519.public_key secret)
  unfolding handle_message
  handle_message-answered sound secret answer message i r h =
      let (v, k) = if_verified-ok i (verify_message store x now at_times message i) _ r h in
      let (active, is_signed) = verify_message-IsSignatureOf message i v in
      let d =
        dispatch store x now at_times answer message.signer message.signature message.body i in
      let (response, e, f) =
        >>=-eq-ok d.result (signed_by store x now at_times (from_secret_key x.ed25519 secret)) k in
      let (checked, signer, body) =
        verify-sign x.ed25519 sound (λ a. x.encode (response_data a)) secret response r
          (signed_lem _ r f) in
      (active, is_signed, checked, signer)
    where
      signed_lem :
          (o : Outcome Pinxit.Error (Signed ConsensusResponse)) (r : Signed ConsensusResponse)
          → map_err invalid_signature o ≡ ok r
          → o ≡ ok r
      signed_lem (ok s) r h = ground arith
      signed_lem (err e) r h = cc
      signed_lem panicked r h = cc
