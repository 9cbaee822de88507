-- ===== src/Consensus/Leader/Majority.antt =====
-- What a leader has sent, and what it has collected, when a round ends without an error.
use prellblock.Prelude.{
  ◌≡◌, refl, sym, ◌∙◌, ap, List, [], ◌∷◌, ◌++◌, Outcome, ok, err, panicked, arith,
}
use prellblock.Prelude.Sets.{Distinct, Subset}
use prellblock.Pinxit.{Signed}
use prellblock.Api.Transaction.{Transaction}
use prellblock.Api.Block.{SignatureList}
use prellblock.Queue.{Queue}
use prellblock.WorldState.{peer_ids}
use prellblock.WorldState.Consistency.{IsConsistent}
use prellblock.Consensus.Error.{Error}
use prellblock.Consensus.Message.{ConsensusMessage, ack_prepare, ack_append, response_data}
use prellblock.Consensus.Core.{Externals, verify_rpu_majority_signatures}
use prellblock.Consensus.Core.Collected.{asked, NoneExpired}
use prellblock.Consensus.Core.Broadcast.{broadcast-ack_prepare, broadcast-ack_append}
use prellblock.Consensus.Validation.{Sorted, leader_stateful_validate}
use prellblock.Consensus.Leader.{
  Leader, Surroundings, Round, and_then, prepare_of, append_of, commit_of, body_of, in_phase,
  commit, next_block, broadcast_prepare, broadcast_append, commit_phase, append_phase, propose,
  propose_sorted, execute_batch, execute_round, take_batch, max_transactions_per_block,
}

and_then-ok :
    (l : Leader) (q : Queue (Signed Transaction)) (sent : List ConsensusMessage)
    (o : Outcome Error SignatureList) (next_phase : SignatureList → Round)
    → (and_then l q sent o next_phase).result ≡ ok tt
    → (signatures : SignatureList) × (o ≡ ok signatures)
      × (and_then l q sent o next_phase ≡ next_phase signatures)
and_then-ok l q sent (ok signatures) next_phase h = (signatures, refl, refl)
and_then-ok l q sent (err e) next_phase h = ground arith
and_then-ok l q sent panicked next_phase h = ground arith

and_then-done :
    (l : Leader) (q : Queue (Signed Transaction)) (sent : List ConsensusMessage)
    (o : Outcome Error SignatureList) (last : Round)
    → (and_then l q sent o (λ signatures. last)).result ≡ ok tt
    → and_then l q sent o (λ signatures. last) ≡ last
and_then-done l q sent (ok signatures) last h = refl
and_then-done l q sent (err e) last h = ground arith
and_then-done l q sent panicked last h = ground arith

module _ (x : Externals) (around : Surroundings) where
  -- A round that has ended without an error: the sorted batch, the signatures that the first two
  -- phases have collected, the three messages, and the leader after them.
  pub record RoundDone (q : Queue (Signed Transaction)) (l : Leader) : Type 0 where
    pub sorted : Sorted
    pub ackprepare_signatures : SignatureList
    pub ackappend_signatures : SignatureList
    pub is_sorted :
        leader_stateful_validate x around.now l.transaction_check
          (take_batch max_transactions_per_block q).0
        ≡ ok sorted
    pub prepare_collected :
        broadcast_prepare x around (prepare_of x around sorted l).metadata
        ≡ ok ackprepare_signatures
    pub append_collected :
        broadcast_append x around (append_of x around sorted ackprepare_signatures l)
        ≡ ok ackappend_signatures
    pub sent :
        (execute_round x around q l).sent
        ≡ ConsensusMessage.prepare (prepare_of x around sorted l)
          ∷ ConsensusMessage.append (append_of x around sorted ackprepare_signatures l)
          ∷ ConsensusMessage.commit (commit_of x around sorted ackappend_signatures l)
          ∷ []
    pub leader :
        (execute_round x around q l).leader
        ≡ next_block
            (x.hash (body_of x around sorted l))
            (in_phase commit (record l { transaction_check = sorted.world }))

  sorted-ok :
      (q : Queue (Signed Transaction)) (l : Leader) (o : Outcome Error Sorted)
      → (propose_sorted x around q l o).result ≡ ok tt
      → (s : Sorted) × (o ≡ ok s)
  sorted-ok q l (ok s) h = (s, refl)
  sorted-ok q l (err e) h = ground arith
  sorted-ok q l panicked h = ground arith

  -- the three phases
  record ProposalDone (s : Sorted) (q : Queue (Signed Transaction)) (l : Leader) : Type 0 where
    first : SignatureList
    second : SignatureList
    prepared : broadcast_prepare x around (prepare_of x around s l).metadata ≡ ok first
    appended : broadcast_append x around (append_of x around s first l) ≡ ok second
    total : propose x around s q l ≡ record {
      leader = next_block (x.hash (body_of x around s l)) (in_phase commit l);
      queue = q;
      sent =
          ConsensusMessage.prepare (prepare_of x around s l)
          ∷ ConsensusMessage.append (append_of x around s first l)
          ∷ ConsensusMessage.commit (commit_of x around s second l)
          ∷ [];
      result = ok tt;
    }

  commit_phase-ok :
      (s : Sorted) (q : Queue (Signed Transaction)) (l : Leader) (sent : List ConsensusMessage)
      (signatures : SignatureList)
      → (commit_phase x around s q l sent signatures).result ≡ ok tt
      → commit_phase x around s q l sent signatures ≡ record {
        leader = next_block (x.hash (body_of x around s l)) (in_phase commit l);
        queue = q;
        sent = sent ++ (ConsensusMessage.commit (commit_of x around s signatures l) ∷ []);
        result = ok tt;
      }
  unfolding commit_phase
  commit_phase-ok s q l sent signatures h = search (and_then-done, h)

  propose-ProposalDone :
      (s : Sorted) (q : Queue (Signed Transaction)) (l : Leader)
      → (propose x around s q l).result ≡ ok tt
      → ProposalDone s q l
  unfolding propose append_phase commit_phase
  propose-ProposalDone s q l h =
      let (first, e, f) = and_then-ok _ q _ _ _ h in
      let h' = ap (λ (r : Round). r.result) (sym f) ∙ h in
      let (second, e', f') = and_then-ok _ q _ _ _ h' in
      let sent =
        ConsensusMessage.prepare (prepare_of x around s l)
        ∷ ConsensusMessage.append (append_of x around s first l)
        ∷ [] in
      let f'' = commit_phase-ok s q l sent second (ap (λ (r : Round). r.result) (sym f') ∙ h') in
      record { first = first; second = second; prepared = e; appended = e'; total = f ∙ f' ∙ f'' }

  pub execute_round-RoundDone :
      (q : Queue (Signed Transaction)) (l : Leader)
      → (execute_round x around q l).result ≡ ok tt
      → RoundDone q l
  unfolding execute_round execute_batch
  execute_round-RoundDone q l h =
      let rest = (take_batch max_transactions_per_block q).1 in
      let (s, e) = sorted-ok rest l _ h in
      let l' : Leader = record l { transaction_check = s.world } in
      let f : execute_round x around q l ≡ propose x around s rest l' =
        ap (propose_sorted x around rest l) e in
      let d = propose-ProposalDone s rest l' (ap (λ (r : Round). r.result) (sym f) ∙ h) in
      record {
        sorted = s;
        ackprepare_signatures = d.first;
        ackappend_signatures = d.second;
        is_sorted = e;
        prepare_collected = d.prepared;
        append_collected = d.appended;
        sent = ap (λ (r : Round). r.sent) (f ∙ d.total);
        leader = ap (λ (r : Round). r.leader) (f ∙ d.total);
      }

  -- If a round ends without an error, where the world state is consistent, no RPU has expired and only
  -- peers are asked, each at most once, then the leader has sent a prepare, an append and a commit
  -- message of one body, its signatures of both acknowledgements are accepted as majorities, and it goes
  -- on with the next number and the hash of that body.
  pub execute_round-HasMajorities :
      (q : Queue (Signed Transaction)) (l : Leader)
      → IsConsistent around.world
      → NoneExpired around.now around.world
      → ((m : ConsensusMessage) → Distinct (asked (around.answers m)))
      → ((m : ConsensusMessage) → Subset (asked (around.answers m)) (peer_ids around.world.peers))
      → (execute_round x around q l).result ≡ ok tt
      → (d : RoundDone q l) × (verify_rpu_majority_signatures x around.now around.world
            (response_data (ack_prepare (prepare_of x around d.sorted l).metadata))
            d.ackprepare_signatures
          ≡ ok tt)
        × (verify_rpu_majority_signatures x around.now around.world
              (response_data (ack_append (prepare_of x around d.sorted l).metadata))
              d.ackappend_signatures
            ≡ ok tt)
  unfolding broadcast_prepare broadcast_append
  execute_round-HasMajorities q l c none_expired once peers_only h =
      let d = execute_round-RoundDone q l h in
      let prepared = ConsensusMessage.prepare (prepare_of x around d.sorted l) in
      let appended =
        ConsensusMessage.append (append_of x around d.sorted d.ackprepare_signatures l) in
      (
        d,
        broadcast-ack_prepare x around.now around.world (prepare_of x around d.sorted l).metadata
            (around.answers prepared) d.ackprepare_signatures c none_expired (once prepared)
            (peers_only prepared) d.prepare_collected,
        broadcast-ack_append x around.now around.world (prepare_of x around d.sorted l).metadata
            (around.answers appended) d.ackappend_signatures c none_expired (once appended)
            (peers_only appended) d.append_collected,
      )
