-- ===== src/Consensus/Core/Collected.antt =====
-- What the loop of a broadcast collects.
use prellblock.Prelude.{
  ℕ, ◌≤◌, ◌≡◌, refl, ap, sym, ◌∙◌, inl, inr, true, false, List, [], ◌∷◌, ◌++◌, Option, none, some,
  length, leb, Bool-cases, ==_refl, Outcome, ok, err, panicked, subst, arith,
}
use prellblock.Prelude.Map
use prellblock.Prelude.Sets.{contains, Distinct, Subset, contains-append, append-Distinct}
use prellblock.Pinxit.{PeerId, Signature, verify_signature, verify}
use prellblock.Api.Account.{Account, Time, is_expired, is_rpu}
use prellblock.Api.Block.{SignatureList, signers}
use prellblock.WorldState.{WorldState, peer_ids}
use prellblock.WorldState.Consistency.{IsConsistent}
use prellblock.Consensus.Error.{Error}
use prellblock.Consensus.Message.{SignableData, ConsensusResponse, response_data}
use prellblock.Consensus.Core.{
  Externals, Reply, supermajority, supermajority_reached, push_response, broadcast_task,
  collect_responses, broadcast_until_majority, verify_rpu_majority_signatures,
}
use prellblock.Consensus.Core.Signatures.{
  IsSignatureOf, IsActiveRpu, AllSigned, verify_rpu_majority_signatures-IsMajority,
}

abbrev pub asked : List (PeerId × Reply) → List PeerId
asked [] = []
asked ((p, reply) ∷ arrivals) = p ∷ asked arrivals

-- No account of an RPU has expired.
abbrev pub NoneExpired : Time → WorldState → Type 0
NoneExpired now w =
    (p : PeerId) (a : Account)
    → Map.find p w.accounts ≡ some a
    → is_rpu a.account_type ≡ true
    → is_expired now a.expire_at ≡ false

signers-append :
    (l : SignatureList) (p : PeerId) (s : Signature)
    → signers (l ++ ((p, s) ∷ [])) ≡ signers l ++ (p ∷ [])
signers-append [] p s = refl
signers-append ((q, t) ∷ l) p s = ap (λ k. q ∷ k) (signers-append l p s)

module _ (x : Externals) (message : SignableData) {R : Type 0}
    (into_variant : ConsensusResponse → Option R) (verify_response : R → Outcome Error (Unit {0}))
    (only : (body : ConsensusResponse) (r : R)
      → into_variant body ≡ some r
      → verify_response r ≡ ok tt
      → response_data body ≡ message) where
  task_lem :
      (p q : PeerId) (reply : Reply) (s : Signature)
      → broadcast_task x into_variant verify_response p reply ≡ some (q, s)
      → (q ≡ p) × IsSignatureOf x message p s
  unfolding broadcast_task verify verify_signature
  task_lem p q (err e) s h = cc
  task_lem p q panicked s h = cc
  task_lem p q (ok response) s h =
      go (x.encode (response_data response.body)) refl (into_variant response.body) refl
    where
      go :
          (m : Option (List ℕ))
          → x.encode (response_data response.body) ≡ m
          → (v : Option R) → into_variant response.body ≡ v
          → (q ≡ p) × IsSignatureOf x message p s
      go none e v k = ground arith
      go (some m) e none k = ground arith
      go (some m) e (some r) k =
          let d : response_data response.body ≡ message = only response.body r k (ground arith) in
          let signer : response.signer ≡ p = ground arith in
          (
            ground arith,
            record { bytes = m; encoded = ap x.encode (sym d) ∙ e; valid = ground arith },
          )

  abbrev AllValid : SignatureList → Type 0
  AllValid [] = Unit
  AllValid ((p, s) ∷ l) = IsSignatureOf x message p s × AllValid l

  AllValid-append :
      (l : SignatureList) (p : PeerId) (s : Signature)
      → AllValid l
      → IsSignatureOf x message p s
      → AllValid (l ++ ((p, s) ∷ []))
  AllValid-append [] p s a i = (i, tt)
  AllValid-append ((q, t) ∷ l) p s a i = (a.0, AllValid-append l p s a.1 i)

  -- what the loop has collected when it goes on with `arrivals`
  record Collected (arrivals : List (PeerId × Reply)) (peers : List PeerId) (l : SignatureList)
      : Type 0 where
    distinct : Distinct (signers l)
    apart : (p : PeerId) → contains (signers l) p ≡ true → contains (asked arrivals) p ≡ false
    inside : Subset (signers l) peers
    valid : AllValid l

  Collected-skip :
      (p : PeerId) (reply : Reply) (arrivals : List (PeerId × Reply)) (peers : List PeerId)
      (l : SignatureList)
      → Collected ((p, reply) ∷ arrivals) peers l
      → Collected arrivals peers l
  Collected-skip p reply arrivals peers l c = record {
    distinct = c.distinct;
    apart = λ q h. ground (arith, c.apart q h);
    inside = c.inside;
    valid = c.valid;
  }

  Collected-push :
      (p : PeerId) (s : Signature) (reply : Reply) (arrivals : List (PeerId × Reply))
      (peers : List PeerId) (l : SignatureList)
      → contains peers p ≡ true
      → contains (asked arrivals) p ≡ false
      → IsSignatureOf x message p s
      → Collected ((p, reply) ∷ arrivals) peers l
      → Collected arrivals peers (l ++ ((p, s) ∷ []))
  Collected-push p s reply arrivals peers l m a i c = record {
    distinct = rw (signers-append l p s) (
        append-Distinct (signers l) (p ∷ []) c.distinct (refl, tt)
          (λ q h. ground (arith, c.apart q h)));
    apart = λ q h.
        ground (arith, signers-append l p s, contains-append q (signers l) (p ∷ []), c.apart q);
    inside = λ q h.
        ground (arith, signers-append l p s, contains-append q (signers l) (p ∷ []), c.inside q);
    valid = AllValid-append l p s c.valid i;
  }

  Collected-step :
      (p : PeerId) (reply : Reply) (arrivals : List (PeerId × Reply)) (peers : List PeerId)
      (l : SignatureList)
      → contains peers p ≡ true
      → contains (asked arrivals) p ≡ false
      → Collected ((p, reply) ∷ arrivals) peers l
      → Collected arrivals peers
          (push_response (broadcast_task x into_variant verify_response p reply) l)
  Collected-step p reply arrivals peers l m a c =
      go (broadcast_task x into_variant verify_response p reply) refl
    where
      go :
          (o : Option (PeerId × Signature))
          → broadcast_task x into_variant verify_response p reply ≡ o
          → Collected arrivals peers (push_response o l)
      go none e = Collected-skip p reply arrivals peers l c
      go (some (q, s)) e =
          let (k, i) = task_lem p q reply s e in
          subst (λ r. Collected arrivals peers (l ++ ((r, s) ∷ []))) (sym k)
            (Collected-push p s reply arrivals peers l m a i c)

  Collected-done :
      (arrivals : List (PeerId × Reply)) (peers : List PeerId) (l : SignatureList)
      → Collected arrivals peers l
      → Collected [] peers l
  Collected-done arrivals peers l c = record {
    distinct = c.distinct;
    apart = λ q h. refl;
    inside = c.inside;
    valid = c.valid;
  }

  collect_lem :
      (peers : List PeerId) (n : ℕ) (arrivals : List (PeerId × Reply)) (l result : SignatureList)
      → Distinct (asked arrivals)
      → Subset (asked arrivals) peers
      → Collected arrivals peers l
      → collect_responses x into_variant verify_response n arrivals l ≡ ok result
      → Collected [] peers result × (supermajority n ≤ length result) × (4 ≤ n)
  unfolding collect_responses supermajority_reached
  collect_lem peers n [] l result d u c h = cc
  collect_lem peers n ((p, reply) ∷ arrivals) l result d u c h =
      let l' = push_response (broadcast_task x into_variant verify_response p reply) l in
      let c' : Collected arrivals peers l' =
        Collected-step p reply arrivals peers l (u p (ground (arith, ==_refl p))) d.0 c in
      elim (Bool-cases (leb (supermajority n) (length l'))) [
        | inl e ↦
            let k : l' ≡ result = ground arith in
            (
              subst (λ r. Collected [] peers r) k (Collected-done arrivals peers l' c'),
              ground arith,
              ground arith,
            )
        | inr e ↦
            collect_lem peers n arrivals l' result d.1 (λ q m. u q (ground arith)) c' (ground arith)
      ]

  AllSigned-AllValid :
      (now : Time) (w : WorldState) (l : SignatureList)
      → IsConsistent w
      → NoneExpired now w
      → Subset (signers l) (peer_ids w.peers)
      → AllValid l
      → AllSigned x now w message l
  AllSigned-AllValid now w [] c n u a = tt
  AllSigned-AllValid now w ((p, s) ∷ l) c n u a = (
    a.0,
    active (Map.find p w.accounts) refl,
    AllSigned-AllValid now w l c n (λ q m. u q (ground arith)) a.1,
  )
    where
      active : (o : Option Account) → Map.find p w.accounts ≡ o → IsActiveRpu now w p
      active none e = ground (arith, c.peers_are_rpus p, u p (ground (arith, ==_refl p)))
      active (some b) e =
          let r : is_rpu b.account_type ≡ true =
            ground (arith, c.peers_are_rpus p, u p (ground (arith, ==_refl p))) in
          record { account = b; active = record { found = e; valid = n p b e r }; rpu_account = r }

  -- What a broadcast returns is accepted as a majority, if each peer of the world state is asked at
  -- most once, no other is, and no RPU has expired.
  pub broadcast_lem :
      (now : Time) (w : WorldState) (arrivals : List (PeerId × Reply)) (result : SignatureList)
      → IsConsistent w
      → NoneExpired now w
      → Distinct (asked arrivals)
      → Subset (asked arrivals) (peer_ids w.peers)
      → broadcast_until_majority x into_variant verify_response w arrivals ≡ ok result
      → verify_rpu_majority_signatures x now w message result ≡ ok tt
  unfolding broadcast_until_majority
  broadcast_lem now w arrivals result c n d u h =
      let (k, e, f) =
        collect_lem (peer_ids w.peers) (length w.peers) arrivals [] result d u
          (record { distinct = tt; apart = λ p m. cc; inside = λ p m. cc; valid = tt }) h in
      (verify_rpu_majority_signatures-IsMajority x now w message result).1 (record {
        enough_peers = f;
        distinct = k.distinct;
        enough = e;
        signed = AllSigned-AllValid now w result c n k.inside k.valid;
      })
