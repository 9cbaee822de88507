-- ===== src/Consensus/Core/Signatures.antt =====
-- What a list of signatures proves that `verify_rpu_majority_signatures` accepts.
use prellblock.Prelude.{◌≤◌, ◌≡◌, ◌↔◌, refl, true, [], ◌∷◌, Option, none, some, length, ok, arith}
use prellblock.Prelude.Map
use prellblock.Prelude.Sets.{Distinct}
use prellblock.Pinxit.{PeerId, Signature, Bytes, verify_signature}
use prellblock.Api.Account.{Account, Time, is_rpu}
use prellblock.Api.Block.{SignatureList, signers}
use prellblock.Api.Block.Unique.{is_unique-Distinct}
use prellblock.WorldState.{WorldState}
use prellblock.TransactionChecker.{account_checker, verify_is_rpu}
use prellblock.TransactionChecker.Authorization.{Active}
use prellblock.Consensus.Message.{SignableData}
use prellblock.Consensus.Core.{
  Externals, supermajority, supermajority_reached, verify_rpu_signature, verify_each_signature,
  verify_rpu_majority_signatures,
}

-- The signature is one of the peer for the message.
pub record IsSignatureOf (x : Externals) (message : SignableData) (p : PeerId) (s : Signature)
    : Type 0 where
  pub bytes : Bytes
  pub encoded : x.encode message ≡ some bytes
  pub valid : x.ed25519.verify p bytes s ≡ true

-- The peer has an account that is an RPU and has not expired.
pub record IsActiveRpu (now : Time) (w : WorldState) (p : PeerId) : Type 0 where
  pub account : Account
  pub active : Active now w p account
  pub rpu_account : is_rpu account.account_type ≡ true

module _ (x : Externals) (now : Time) (w : WorldState) (message : SignableData) where
  abbrev pub AllSigned : SignatureList → Type 0
  AllSigned [] = Unit
  AllSigned ((p, s) ∷ l) = IsSignatureOf x message p s × IsActiveRpu now w p × AllSigned l

  pub record IsMajority (l : SignatureList) : Type 0 where
    pub enough_peers : 4 ≤ length w.peers
    pub distinct : Distinct (signers l)
    pub enough : supermajority (length w.peers) ≤ length l
    pub signed : AllSigned l

  signature_lem :
      (p : PeerId) (s : Signature)
      → verify_rpu_signature x now w message p s ≡ ok tt
      → IsSignatureOf x message p s × IsActiveRpu now w p
  unfolding verify_rpu_signature verify_signature account_checker verify_is_rpu
  signature_lem p s h = go (x.encode message) refl (Map.find p w.accounts) refl
    where
      go :
          (m : Option Bytes)
          → x.encode message ≡ m
          → (a : Option Account) → Map.find p w.accounts ≡ a
          → IsSignatureOf x message p s × IsActiveRpu now w p
      go none e a k = ground arith
      go (some m) e none k = ground arith
      go (some m) e (some a) k = (
        record { bytes = m; encoded = e; valid = ground arith },
        record {
          account = a;
          active = record { found = k; valid = ground arith };
          rpu_account = ground arith;
        },
      )

  signature_ok :
      (p : PeerId) (s : Signature)
      → IsSignatureOf x message p s
      → IsActiveRpu now w p
      → verify_rpu_signature x now w message p s ≡ ok tt
  unfolding verify_rpu_signature verify_signature account_checker verify_is_rpu
  signature_ok p s i r =
      ground (arith, i.encoded, i.valid, r.active.found, r.active.valid, r.rpu_account)

  each_lem : (l : SignatureList) → verify_each_signature x now w message l ≡ ok tt → AllSigned l
  unfolding verify_each_signature
  each_lem [] h = tt
  each_lem ((p, s) ∷ l) h =
      let (i, r) = signature_lem p s (ground arith) in (i, r, each_lem l (ground arith))

  each_ok : (l : SignatureList) → AllSigned l → verify_each_signature x now w message l ≡ ok tt
  unfolding verify_each_signature
  each_ok [] h = refl
  each_ok ((p, s) ∷ l) h = ground (arith, signature_ok p s h.0 h.1, each_ok l h.2)

  -- A list of signatures is accepted exactly if it holds signatures of the message by distinct peers,
  -- each with the unexpired account of an RPU, that are more than two thirds of four or more peers.
  pub verify_rpu_majority_signatures-IsMajority :
      (l : SignatureList)
      → (verify_rpu_majority_signatures x now w message l ≡ ok tt) ↔ IsMajority l
  unfolding verify_rpu_majority_signatures supermajority_reached
  verify_rpu_majority_signatures-IsMajority l = (
    λ h. record {
      enough_peers = ground arith;
      distinct = (is_unique-Distinct l).0 (ground arith);
      enough = ground arith;
      signed = each_lem l (ground arith);
    },
    λ m.
        ground (
          arith,
          (is_unique-Distinct l).1 m.distinct,
          m.enough,
          m.enough_peers,
          each_ok l m.signed,
        ),
  )
