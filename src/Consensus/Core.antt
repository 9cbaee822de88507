-- ===== src/Consensus/Core.antt =====
-- prellblock/src/consensus/praftbft/core.rs: leaders, majorities and the signatures that prove them.
pub mod Quorum
pub mod Signatures
pub mod Broadcast
pub mod Collected
mod Tests
use prellblock.Prelude.{
  ℕ, ◌+◌, ◌*◌, ◌/◌, ◌%◌, Bool, true, false, not, List, [], ◌∷◌, ◌++◌, Option, none, some, length,
  get_elem?, ltb, leb, ◌==◌, if◌then◌else◌, Outcome, ok, err, panicked, ◌>>=◌, ◌>>◌, or_panic,
  map_err,
}
use prellblock.Pinxit
use prellblock.Pinxit.{
  PeerId, Signature, Signed, Verified, Ed25519, Bytes, signature_error, signable_error,
}
use prellblock.Api.Account.{Time}
use prellblock.Api.Transaction.{Transaction}
use prellblock.Api.Block.{LeaderTerm, SignatureList, is_unique, Body, BlockHash}
use prellblock.WorldState.{WorldState, Peers}
use prellblock.TransactionChecker.{account_checker, verify_is_rpu}
use prellblock.Consensus.Error.{
  Error, permission, not_enough_signatures, duplicate_signatures, invalid_signature, invalid_peer,
  unexpected_response, could_not_get_supermajority,
}
use prellblock.Consensus.Message.{SignableData, ConsensusResponse, response_data}

-- What the repository takes from ed25519_dalek, postcard and blake2: signatures, the bytes of what is
-- signed, and the hash of a body.
pub record Externals : Type 0 where
  pub ed25519 : Ed25519
  pub encode : SignableData → Option Bytes
  pub encode_transaction : Transaction → Option Bytes
  pub hash : Body → BlockHash

-- `Core::leader`; `none` is a panic.
unfoldable pub leader : WorldState → LeaderTerm → Option PeerId
leader w leader_term =
    if length w.peers == 0 then none else elim (get_elem? w.peers (leader_term % length w.peers)) [
      | none ↦ none
      | some (peer_id, address) ↦ some peer_id
    ]

abbrev pub supermajority : ℕ → ℕ
supermajority peer_count = peer_count * 2 / 3 + 1

-- `none` is the panic for less than four peers.
unfoldable pub supermajority_reached : ℕ → ℕ → Option Bool
supermajority_reached response_len peer_count =
    if ltb peer_count 4 then none else some (leb (supermajority peer_count) response_len)

module _ (x : Externals) (now : Time) (w : WorldState) where
  -- the check of one signature in the loop of `verify_rpu_majority_signatures`
  unfoldable pub verify_rpu_signature : SignableData → PeerId → Signature → Outcome Error (Unit {0})
  verify_rpu_signature message peer_id signature = do
    map_err invalid_signature (Pinxit.verify_signature x.ed25519 x.encode peer_id message signature)
    map_err permission (do c ← account_checker now w peer_id; verify_is_rpu c)

  pub verify_each_signature : SignableData → SignatureList → Outcome Error (Unit {0})
  verify_each_signature message [] = ok tt
  verify_each_signature message ((peer_id, signature) ∷ l) = do
    verify_rpu_signature message peer_id signature
    verify_each_signature message l

  unfoldable pub verify_rpu_majority_signatures :
      SignableData → SignatureList → Outcome Error (Unit {0})
  unfolding verify_each_signature
  verify_rpu_majority_signatures message signatures =
      if not (is_unique signatures) then err duplicate_signatures else do
        reached ← or_panic (supermajority_reached (length signatures) (length w.peers))
        if not reached then err not_enough_signatures else verify_each_signature message signatures

-- `Ok(Some(response)) => responses.push(response)`
abbrev pub push_response : Option (PeerId × Signature) → SignatureList → SignatureList
push_response none responses = responses
push_response (some r) responses = responses ++ (r ∷ [])

-- A peer's answer as the network gives it: the error of `balise`, or a signed response.
abbrev pub Reply : Type 0
Reply = Outcome Error (Signed ConsensusResponse)

module _ (x : Externals) {R : Type 0} (into_variant : ConsensusResponse → Option R) where
  -- `send_signed_message`, from the answer on: the signer, its signature and the response
  unfoldable pub receive : Reply → Outcome Error (PeerId × Signature × R)
  receive reply = do
    response ← reply
    verified ←
        map_err invalid_signature
          (Pinxit.verify x.ed25519 (λ r. x.encode (response_data r)) response)
    elim (into_variant verified.inner.body) [
      | none ↦ err unexpected_response
      | some r ↦ ok (verified.inner.signer, verified.inner.signature, r)
    ]

  -- the task of `broadcast_until_majority` for one peer; an error is logged and gives `none`
  unfoldable pub broadcast_task :
      (R → Outcome Error (Unit {0})) → PeerId → Reply → Option (PeerId × Signature)
  unfolding receive
  broadcast_task verify_response peer_id reply = elim (receive reply) [
    | ok (signer, signature, r) ↦
        if signer == peer_id
        then elim (verify_response r) [
          | ok u ↦ some (signer, signature)
          | err e ↦ none
          | panicked ↦ none
        ]
        else none
    | err e ↦ none
    | panicked ↦ none
  ]

  -- the loop over the answers in the order in which they arrive, each with the peer that was asked
  pub collect_responses :
      (R → Outcome Error (Unit {0}))
      → ℕ
      → List (PeerId × Reply)
      → SignatureList
      → Outcome Error SignatureList
  unfolding broadcast_task
  collect_responses verify_response peers_count [] responses = err could_not_get_supermajority
  collect_responses verify_response peers_count ((peer_id, reply) ∷ arrivals) responses =
      let responses' = push_response (broadcast_task verify_response peer_id reply) responses in
      let rest = collect_responses verify_response peers_count arrivals responses' in
      do
        reached ← or_panic (supermajority_reached (length responses') peers_count)
        if reached then ok responses' else rest

  unfoldable pub broadcast_until_majority :
      (R → Outcome Error (Unit {0}))
      → WorldState
      → List (PeerId × Reply)
      → Outcome Error SignatureList
  unfolding collect_responses
  broadcast_until_majority verify_response w arrivals =
      collect_responses verify_response (length w.peers) arrivals []
