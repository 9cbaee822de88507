-- ===== src/Consensus/Core/Quorum.antt =====
-- Two majorities share more peers than may be faulty.
use prellblock.Prelude.{
  ℕ, suc, ◌+◌, ◌-◌, ◌/◌, ◌≤◌, ◌≡◌, refl, ap, true, ◌==◌, List, [], ◌∷◌, length, Bool-cases, inl,
  inr, ==_iff, ==_refl, ok, subst, arith,
}
use prellblock.Prelude.Sets.{
  contains, Distinct, Subset, common, contains-common, common-Distinct, length-common,
}
use prellblock.Pinxit.{PeerId, Signature}
use prellblock.Api.Account.{Time}
use prellblock.Api.Block.{SignatureList, signers}
use prellblock.WorldState.{WorldState, Peers, peer_ids}
use prellblock.WorldState.Consistency.{IsConsistent}
use prellblock.Consensus.Message.{SignableData}
use prellblock.Consensus.Core.{Externals, verify_rpu_majority_signatures}
use prellblock.Consensus.Core.Signatures.{
  IsSignatureOf, AllSigned, verify_rpu_majority_signatures-IsMajority,
}

-- One more than the peers that may be faulty: f of 3 f + 1.
abbrev pub more_than_faulty : ℕ → ℕ
more_than_faulty peer_count = (peer_count - 1) / 3 + 1

length-signers : (l : SignatureList) → length (signers l) ≡ length l
length-signers [] = refl
length-signers ((p, s) ∷ l) = ap suc (length-signers l)

length-peer_ids : (l : Peers) → length (peer_ids l) ≡ length l
length-peer_ids [] = refl
length-peer_ids ((p, a) ∷ l) = ap suc (length-peer_ids l)

module _ (x : Externals) (now : Time) (w : WorldState) where
  -- a peer of the list has signed
  signature_of :
      (message : SignableData) (p : PeerId) (l : SignatureList)
      → AllSigned x now w message l
      → contains (signers l) p ≡ true
      → (s : Signature) × IsSignatureOf x message p s
  signature_of message p [] a h = cc
  signature_of message p ((q, s) ∷ l) a h = elim (Bool-cases (q == p)) [
    | inl e ↦ (s, subst (λ k. IsSignatureOf x message k s) ((==_iff q p).0 e) a.0)
    | inr n ↦ signature_of message p l a.2 (ground arith)
  ]

  -- Each peer of the list has signed.
  abbrev pub EachSigned : SignableData → List PeerId → Type 0
  EachSigned message [] = Unit
  EachSigned message (p ∷ ps) =
      ((s : Signature) × IsSignatureOf x message p s) × EachSigned message ps

  EachSigned-Subset :
      (message : SignableData) (ps : List PeerId) (l : SignatureList)
      → AllSigned x now w message l
      → Subset ps (signers l)
      → EachSigned message ps
  EachSigned-Subset message [] l a u = tt
  EachSigned-Subset message (p ∷ ps) l a u = (
    signature_of message p l a (u p (ground (arith, ==_refl p))),
    EachSigned-Subset message ps l a (λ q m. u q (ground arith)),
  )

  signers-Subset :
      (message : SignableData) (l : SignatureList)
      → IsConsistent w
      → AllSigned x now w message l
      → Subset (signers l) (peer_ids w.peers)
  signers-Subset message [] c a p h = cc
  signers-Subset message ((q, s) ∷ l) c a p h = elim (Bool-cases (q == p)) [
    | inl e ↦
        subst (λ k. contains (peer_ids w.peers) k ≡ true) ((==_iff q p).0 e)
          (ground (arith, c.peers_are_rpus q, a.1.active.found, a.1.rpu_account))
    | inr n ↦ signers-Subset message l c a.2 p (ground arith)
  ]

  -- Two lists of signatures that are accepted in one consistent world state, for any two messages,
  -- have more signers in common than the peers may have faulty ones, and each of those has signed
  -- both messages.
  pub quorum_intersection :
      (message message' : SignableData) (l l' : SignatureList)
      → IsConsistent w
      → verify_rpu_majority_signatures x now w message l ≡ ok tt
      → verify_rpu_majority_signatures x now w message' l' ≡ ok tt
      → Distinct (common (signers l) (signers l'))
        × (more_than_faulty (length w.peers) ≤ length (common (signers l) (signers l')))
        × EachSigned message (common (signers l) (signers l'))
        × EachSigned message' (common (signers l) (signers l'))
  quorum_intersection message message' l l' c h h' =
      let m = (verify_rpu_majority_signatures-IsMajority x now w message l).0 h in
      let m' = (verify_rpu_majority_signatures-IsMajority x now w message' l').0 h' in
      (
        common-Distinct (signers l) (signers l') m.distinct,
        omega (
          arith,
          m.enough,
          m'.enough,
          m.enough_peers,
          length-signers l,
          length-signers l',
          length-peer_ids w.peers,
          length-common (signers l) (signers l') (peer_ids w.peers) m.distinct m'.distinct
              (signers-Subset message l c m.signed) (signers-Subset message' l' c m'.signed),
        ),
        EachSigned-Subset message (common (signers l) (signers l')) l m.signed
            (λ p k. ground (arith, contains-common p (signers l) (signers l'))),
        EachSigned-Subset message' (common (signers l) (signers l')) l' m'.signed
            (λ p k. ground (arith, contains-common p (signers l) (signers l'))),
      )
