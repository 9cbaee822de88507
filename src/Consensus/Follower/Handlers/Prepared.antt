-- ===== src/Consensus/Follower/Handlers/Prepared.antt =====
-- What a follower prepares and appends keeps it coherent, whatever it is sent, unless a task panics.
use prellblock.Prelude.{
  ◌≡◌, ◌≢◌, refl, sym, ◌∙◌, ap, Bool, true, false, List, Option, none, some, if◌then◌else◌, Outcome,
  ok, err, panicked, arith,
}
use prellblock.Pinxit.{PeerId}
use prellblock.Api.Account.{Time}
use prellblock.Api.Block.{Body, BlockHash}
use prellblock.Consensus.Error.{Error, Phase, waiting, prepare, append}
use prellblock.Consensus.Message.{Metadata, Prepare, Append, Commit, InvalidTransaction}
use prellblock.Consensus.Core.{Externals}
use prellblock.Consensus.Store.{BlockStore}
use prellblock.Consensus.Follower.{
  State, phase, is_none, body_with, to_prepare, to_append, Node, commit, left_by_commit,
}
use prellblock.Consensus.Follower.Coherence.{IsCoherent}
use prellblock.Consensus.Follower.Rounds.{
  to_prepare-IsCoherent, to_append-IsCoherent, commit-Committed,
}
use prellblock.Consensus.Follower.Handlers.{
  Reply, checked, checked_faulty, with_state, verify_hash, verify_body, handle_prepare,
  handle_append, handle_commit, commit_in_phase, commit_appended, buffer_commit, append_body,
  appended, apply_buffered, acknowledged, prepared, committed,
}

module _ (store : BlockStore) (x : Externals) where
  abbrev pub Coherent : Node store x.hash → Type 0
  Coherent n = IsCoherent store x.hash n

  pub checked-Coherent :
      {A R : Type 0} (n : Node store x.hash) (o : Outcome Error A) (r : Reply store x R)
      → Coherent n
      → ((a : A) → o ≡ ok a → Coherent r.node)
      → Coherent (checked store x n o r).node
  checked-Coherent n (ok a) r c f = f a refl
  checked-Coherent n (err e) r c f = c
  checked-Coherent n panicked r c f = c

  -- A panic may leave the follower in between.
  abbrev pub Survives : {R : Type 0} → Reply store x R → Type 0
  Survives r = r.result ≢ panicked → Coherent r.node

  pub checked-Survives :
      {A R : Type 0} (n : Node store x.hash) (o : Outcome Error A) (r : Reply store x R)
      → Coherent n
      → ((a : A) → o ≡ ok a → Survives r)
      → Survives (checked store x n o r)
  checked-Survives n (ok a) r c f = f a refl
  checked-Survives n (err e) r c f = λ h. c
  checked-Survives n panicked r c f = λ h. c

  pub checked_faulty-Survives :
      {A R : Type 0} (n : Node store x.hash) (o : Outcome Error A) (r : Reply store x R)
      → Coherent n
      → ((a : A) → o ≡ ok a → Survives r)
      → Survives (checked_faulty store x n o r)
  checked_faulty-Survives n (ok a) r c f = f a refl
  checked_faulty-Survives n (err e) r c f = λ h. c
  checked_faulty-Survives n panicked r c f = λ h. c

  if-Survives :
      {R : Type 0} (b : Bool) (r s : Reply store x R)
      → Coherent r.node
      → Coherent s.node
      → Survives (if b then r else s)
  if-Survives true r s c d = λ h. c
  if-Survives false r s c d = λ h. d

  -- Taking over a hash that does not contradict the known one.
  pub hashed-Coherent :
      (h : BlockHash) (b : Option Commit) (n : Node store x.hash)
      → Coherent n
      → verify_hash n.state.block_hash h ≡ ok tt
      → Coherent (
          with_state store x n
            (record n.state { block_hash = some h; buffered_commit_message = b }))
  unfolding phase
  hashed-Coherent h b n c v = record {
    agrees = record {
      number = c.agrees.number;
      last = c.agrees.last;
      built = c.agrees.built;
      previous = c.agrees.previous;
    };
    in_a_phase = in_phase_of n.state.block_content refl;
    prepared = λ k d i j. same_hash n.state.block_hash refl k d i j;
  }
    where
      in_phase_of :
          (o : Option (Body × List InvalidTransaction))
          → n.state.block_content ≡ o
          → (p : Phase) × (phase
                (record n.state { block_hash = some h; buffered_commit_message = b })
              ≡ some p)
      in_phase_of none e = (prepare, ground arith)
      in_phase_of (some d) e = (append, ground arith)

      same_hash :
          (o : Option BlockHash)
          → n.state.block_hash ≡ o
          → (k : BlockHash) (d : Body × List InvalidTransaction) → some h ≡ some k
          → n.state.block_content ≡ some d
          → k ≡ x.hash d.0
      same_hash none e k d i j = let (p, q) = c.in_a_phase in absurd (ground (arith, e, q))
      same_hash (some l) e k d i j =
          let same : l ≡ k = ground arith in sym same ∙ c.prepared l d e j

  -- A follower that is coherent is so after any prepare message, accepted or not.
  pub handle_prepare-IsCoherent :
      (peer_id : PeerId) (message : Prepare) (n : Node store x.hash)
      → IsCoherent store x.hash n
      → IsCoherent store x.hash (handle_prepare store x peer_id message n).node
  unfolding handle_prepare
  handle_prepare-IsCoherent peer_id message n c =
      checked-Coherent n _ _ c (λ a e. go (to_prepare message.metadata.block_hash n.state) refl)
    where
      go :
          (o : Option State)
          → to_prepare message.metadata.block_hash n.state ≡ o
          → Coherent (prepared store x message.metadata n o).node
      go none e = c
      go (some s) e = (to_prepare-IsCoherent store x.hash message.metadata.block_hash n s c e).0

  module _ (now : Time) where
    commit_appended-Survives :
        (message : Commit) (n : Node store x.hash)
        → Coherent n
        → verify_hash n.state.block_hash message.metadata.block_hash ≡ ok tt
        → Survives (commit_appended store x now message n)
    unfolding commit_appended
    commit_appended-Survives message n c v =
        let n' =
          with_state store x n (record n.state { block_hash = some message.metadata.block_hash }) in
        let c' : Coherent n' =
          hashed-Coherent message.metadata.block_hash n.state.buffered_commit_message n c v in
        checked_faulty-Survives n' _
          (committed store x (left_by_commit store x.hash message.ackappend_signatures n')
            (commit store x.hash message.ackappend_signatures n'))
          c' (λ a e. go c' _ (commit store x.hash message.ackappend_signatures n') refl)
      where
        go :
            {n' : Node store x.hash}
            → Coherent n'
            → (left : Node store x.hash) (o : Option (Node store x.hash))
            → commit store x.hash message.ackappend_signatures n' ≡ o
            → Survives (committed store x left o)
        go c' left none e = λ h. absurd (h refl)
        go {n'} c' left (some m) e =
            λ h. (commit-Committed store x.hash message.ackappend_signatures n' m c' e).coherent

    commit_in_phase-Survives :
        (message : Commit) (n : Node store x.hash) (o : Option Phase)
        → Coherent n
        → verify_hash n.state.block_hash message.metadata.block_hash ≡ ok tt
        → Survives (commit_in_phase store x now message n o)
    unfolding commit_in_phase buffer_commit
    commit_in_phase-Survives message n none c v = λ h. c
    commit_in_phase-Survives message n (some append) c v = commit_appended-Survives message n c v
    commit_in_phase-Survives message n (some waiting) c v =
        if-Survives (is_none n.state.buffered_commit_message) _ _
          (hashed-Coherent message.metadata.block_hash (some message) n c v) c
    commit_in_phase-Survives message n (some prepare) c v =
        if-Survives (is_none n.state.buffered_commit_message) _ _
          (hashed-Coherent message.metadata.block_hash (some message) n c v) c

    -- A follower that is coherent is so after any commit message that does not panic, whether it is
    -- applied, kept for later or refused.
    pub handle_commit-IsCoherent :
        (peer_id : PeerId) (message : Commit) (n : Node store x.hash)
        → IsCoherent store x.hash n
        → (handle_commit store x now peer_id message n).result ≢ panicked
        → IsCoherent store x.hash (handle_commit store x now peer_id message n).node
    unfolding handle_commit
    handle_commit-IsCoherent peer_id message n c =
        checked-Survives n _ _ c
          (λ a e. commit_in_phase-Survives message n (phase n.state) c (ground (arith, e)))

    apply_buffered-Survives :
        (peer_id : PeerId) (m : Metadata) (o : Option Commit) (n : Node store x.hash)
        → Coherent n
        → Survives (apply_buffered store x now peer_id m o n)
    apply_buffered-Survives peer_id m none n c = λ h. c
    apply_buffered-Survives peer_id m (some d) n c = λ h.
        handle_commit-IsCoherent peer_id d
          (with_state store x n (record n.state { buffered_commit_message = none }))
          (record {
            agrees = record {
              number = c.agrees.number;
              last = c.agrees.last;
              built = c.agrees.built;
              previous = c.agrees.previous;
            };
            in_a_phase = (c.in_a_phase.0, unfold phase in c.in_a_phase.1);
            prepared = c.prepared;
          })
          (λ e. h (ap (acknowledged store x now m) e))

    append_body-Survives :
        (peer_id : PeerId) (message : Append) (body : Body) (n : Node store x.hash)
        → Coherent n
        → x.hash body ≡ message.metadata.block_hash
        → verify_hash n.state.block_hash message.metadata.block_hash ≡ ok tt
        → Survives (append_body store x now peer_id message body n)
    unfolding append_body
    append_body-Survives peer_id message body n c same v =
        let n' =
          with_state store x n (record n.state { block_hash = some message.metadata.block_hash }) in
        let c' : Coherent n' =
          hashed-Coherent message.metadata.block_hash n.state.buffered_commit_message n c v in
        checked_faulty-Survives n' _ _ c' (λ a e.
          go c' (ap (λ h. some h) (sym same)) (to_append body message.invalid_transactions n'.state)
            refl)
      where
        go :
            {n' : Node store x.hash}
            → Coherent n'
            → n'.state.block_hash ≡ some (x.hash body)
            → (o : Option State) → to_append body message.invalid_transactions n'.state ≡ o
            → Survives (appended store x now peer_id message.metadata n' o)
        go c' h none e = λ k. c'
        go {n'} c' h (some s) e =
            apply_buffered-Survives peer_id message.metadata s.buffered_commit_message
              (with_state store x n' s)
              (to_append-IsCoherent store x.hash body message.invalid_transactions n' s c' h e).0

    -- A follower that is coherent is so after any append message that does not panic, with the commit
    -- message that may have come before it.
    pub handle_append-IsCoherent :
        (peer_id : PeerId) (message : Append) (n : Node store x.hash)
        → IsCoherent store x.hash n
        → (handle_append store x now peer_id message n).result ≢ panicked
        → IsCoherent store x.hash (handle_append store x now peer_id message n).node
    unfolding handle_append
    handle_append-IsCoherent peer_id message n c = checked-Survives n _ _ c (λ a e.
        checked_faulty-Survives n
          (verify_body (x.hash body) n.state.block_hash message.metadata.block_hash)
          (append_body store x now peer_id message body n) c
          (λ b f.
            append_body-Survives peer_id message body n c (ground (arith, f)) (ground (arith, f))))
      where
        body : Body
        body = body_with message.valid_transactions message.timestamp n.state
