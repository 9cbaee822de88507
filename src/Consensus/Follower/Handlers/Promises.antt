-- ===== src/Consensus/Follower/Handlers/Promises.antt =====
-- What a follower has acknowledged in a round binds it until the round is over.
use prellblock.Prelude.{
  suc, ◌^◌, ◌<◌, ◌≡◌, refl, sym, subst, ◌==◌, ◌>>=◌, >>=-eq-ok, or_panic, Bool, true, false, List,
  Option, none, some, if◌then◌else◌, Outcome, ok, err, panicked, arith,
}
use prellblock.Pinxit.{PeerId}
use prellblock.Api.Account.{Time}
use prellblock.Api.Block.{Block, Body, BlockHash, SignatureList, block_number}
use prellblock.Pinxit.{Signed, signed_eq}
use prellblock.Api.Transaction.{Transaction}
use prellblock.Queue.{Queue, remove_all}
use prellblock.WorldState.Service.{WorldStateReferences}
use prellblock.Consensus.Error.{Error, Phase, waiting, prepare, append}
use prellblock.Consensus.Message.{Metadata, Prepare, Append, Commit, InvalidTransaction}
use prellblock.Consensus.Core.{Externals}
use prellblock.Consensus.Store.{BlockStore}
use prellblock.Consensus.Follower.{
  State, phase, is_none, body_with, to_prepare, to_append, Node, apply_to, apply_to_node,
  commit_content, drop_invalid, commit, in_phase, left_by_apply, left_by_content, left_by_commit,
}
use prellblock.Consensus.Follower.Handlers.{
  Reply, reply, checked, checked_faulty, with_state, verify_hash, verify_body, handle_prepare,
  handle_append, handle_commit, commit_in_phase, commit_appended, buffer_commit, append_body,
  appended, apply_buffered, prepared, committed,
}
use prellblock.Consensus.Follower.Promise.{
  IsStuck, Keeps, later_number, same_round, stuck, Keeps-refl, Keeps-trans,
}

-- a hash that does not contradict the known one
hashed-Keeps :
    (s s' : State) (h : BlockHash)
    → s'.leader_term ≡ s.leader_term
    → s'.block_number ≡ s.block_number
    → s'.block_hash ≡ some h
    → verify_hash s.block_hash h ≡ ok tt
    → ¬ IsStuck s
    → Keeps s s'
hashed-Keeps s s' h a b c v k = same_round a b (λ k e. ground arith) (λ i. absurd (k i))

-- A follower in a phase is not stuck.
pub phase-not-IsStuck : (s : State) (p : Phase) → phase s ≡ some p → ¬ IsStuck s
unfolding phase
phase-not-IsStuck s p e (a, (c, b)) = ground (arith, a, b)

-- A hash is prepared only where there is none, and no body.
pub to_prepare_lem :
    (h : BlockHash) (s s' : State)
    → to_prepare h s ≡ some s'
    → (s.block_hash ≡ none) × (s.block_content ≡ none) × (s' ≡ record s { block_hash = some h })
unfolding to_prepare phase
to_prepare_lem h s s' e = go s.block_hash refl s.block_content refl
  where
    go :
        (b : Option BlockHash)
        → s.block_hash ≡ b
        → (c : Option (Body × List InvalidTransaction)) → s.block_content ≡ c
        → (s.block_hash ≡ none) × (s.block_content ≡ none) × (s' ≡ record s { block_hash = some h })
    go none i none j = (i, j, ground arith)
    go none i (some c) j = absurd (ground arith)
    go (some k) i c j = absurd (ground arith)

pub or_panic-not-IsStuck :
    {A : Type 0} (s : State) (f : Phase → Outcome Error A) (a : A)
    → (or_panic (phase s) >>= f) ≡ ok a
    → ¬ IsStuck s
or_panic-not-IsStuck s f a h =
    let (p, e, k) = >>=-eq-ok (or_panic (phase s)) f h in go (phase s) refl p e
  where
    go :
        (o : Option Phase) → phase s ≡ o → (p : Phase) → or_panic {E = Error} o ≡ ok p → ¬ IsStuck s
    go none i p e = absurd (ground arith)
    go (some q) i p e = phase-not-IsStuck s q i

module _ (store : BlockStore) (x : Externals) where
  open store use {Store, write_block, left_by_write}

  checked-Keeps :
      {A R : Type 0} (s : State) (n : Node store x.hash) (o : Outcome Error A) (r : Reply store x R)
      → Keeps s n.state
      → ((a : A) → o ≡ ok a → Keeps s r.node.state)
      → Keeps s (checked store x n o r).node.state
  checked-Keeps s n (ok a) r c f = f a refl
  checked-Keeps s n (err e) r c f = c
  checked-Keeps s n panicked r c f = c

  checked_faulty-Keeps :
      {A R : Type 0} (s : State) (n : Node store x.hash) (o : Outcome Error A) (r : Reply store x R)
      → Keeps s n.state
      → ((a : A) → o ≡ ok a → Keeps s r.node.state)
      → Keeps s (checked_faulty store x n o r).node.state
  checked_faulty-Keeps s n (ok a) r c f = f a refl
  checked_faulty-Keeps s n (err e) r c f = c
  checked_faulty-Keeps s n panicked r c f = c

  -- Room for one more block number.
  abbrev pub Fits : Node store x.hash → Type 0
  Fits n = suc n.state.block_number < 2 ^ 64

  -- the next number in the same term
  abbrev IsNext : Node store x.hash → Node store x.hash → Type 0
  IsNext n n' =
      (n'.state.leader_term ≡ n.state.leader_term) × (n.state.block_number < n'.state.block_number)

  apply_to_node-IsNext :
      (block_hash : BlockHash) (block : Block) (n n' : Node store x.hash)
      → Fits n
      → apply_to_node store x.hash block_hash block n ≡ some n'
      → IsNext n n'
  unfolding apply_to_node
  apply_to_node-IsNext block_hash block n n' fits h =
      go (write_block block n.storage) refl (apply_to store x.hash block n.world) refl
    where
      go :
          (o : Option Store)
          → write_block block n.storage ≡ o
          → (r : Option WorldStateReferences) → apply_to store x.hash block n.world ≡ r
          → IsNext n n'
      go none e r k = absurd (ground arith)
      go (some s) e none k = absurd (ground arith)
      go (some s) e (some r) k = (ground arith, ground arith)

  commit_content-IsNext :
      (l : SignatureList) (h : Option BlockHash) (c : Option (Body × List InvalidTransaction))
      (n n' : Node store x.hash)
      → Fits n
      → commit_content store x.hash l h c n ≡ some n'
      → IsNext n n'
  unfolding commit_content
  commit_content-IsNext l (some h) (some (body, invalid)) n n' fits e =
      apply_to_node-IsNext h (record { body = body; signatures = l })
        (record n {
          state = record n.state { block_hash = none };
          queue = drop_invalid store x.hash invalid n.queue;
        })
        n' fits e
  commit_content-IsNext l none c n n' fits e = absurd (ground arith)
  commit_content-IsNext l (some h) none n n' fits e = absurd (ground arith)

  commit-IsNext :
      (l : SignatureList) (n n' : Node store x.hash)
      → Fits n
      → commit store x.hash l n ≡ some n'
      → IsNext n n'
  unfolding commit
  commit-IsNext l n n' fits e =
      commit_content-IsNext l n.state.block_hash n.state.block_content n n' fits (ground arith)

  -- A panic while the block is applied leaves the state as it is.
  left_by_apply-state :
      (block : Block) (n : Node store x.hash) → (left_by_apply store x.hash block n).state ≡ n.state
  unfolding left_by_apply
  left_by_apply-state block n =
      go (block_number block == n.state.block_number) (write_block block n.storage)
    where
      queue' : Queue (Signed Transaction)
      queue' = remove_all signed_eq block.body.transactions n.queue

      n' : Node store x.hash
      n' = record n { queue = queue' }

      go :
          (b : Bool) (o : Option Store)
          → (let m : Node store x.hash =
                if b
                then elim o [
                  | none ↦ record n' { storage = left_by_write block n.storage }
                  | some storage ↦ record n' { storage = storage }
                ]
                else n in
              m.state ≡ n.state)
      go true none = refl
      go true (some s) = refl
      go false o = refl

  left_by_content-Keeps :
      (l : SignatureList) (h : Option BlockHash) (c : Option (Body × List InvalidTransaction))
      (n : Node store x.hash)
      → n.state.block_content ≡ c
      → Keeps n.state (left_by_content store x.hash l h c n).state
  unfolding left_by_content
  left_by_content-Keeps l (some h) (some (body, invalid)) n e =
      subst (λ s. Keeps n.state s)
        (sym (
          left_by_apply-state (record { body = body; signatures = l })
            (record n {
              state = record n.state { block_hash = none };
              queue = drop_invalid store x.hash invalid n.queue;
            })))
        (stuck refl refl (refl, ((body, invalid), e)))
  left_by_content-Keeps l none c n e = Keeps-refl n.state
  left_by_content-Keeps l (some h) none n e = Keeps-refl n.state

  -- A panic of a commit changes nothing, or leaves the follower stuck.
  left_by_commit-Keeps :
      (l : SignatureList) (n : Node store x.hash)
      → Keeps n.state (left_by_commit store x.hash l n).state
  unfolding left_by_commit
  left_by_commit-Keeps l n =
      go (in_phase (phase n.state) append) (is_none n.state.buffered_commit_message)
    where
      left : Node store x.hash
      left = left_by_content store x.hash l n.state.block_hash n.state.block_content n

      go :
          (b c : Bool)
          → (let m : Node store x.hash = if b then (if c then left else n) else n in
              Keeps n.state m.state)
      go true true = left_by_content-Keeps l n.state.block_hash n.state.block_content n refl
      go true false = Keeps-refl n.state
      go false c = Keeps-refl n.state

  committed-Keeps :
      (n left : Node store x.hash) (o : Option (Node store x.hash))
      → Keeps n.state left.state
      → ((m : Node store x.hash) → o ≡ some m → IsNext n m)
      → Keeps n.state (committed store x left o).node.state
  committed-Keeps n left none k f = k
  committed-Keeps n left (some m) k f = let (a, b) = f m refl in later_number a b

  -- A prepare message.
  pub handle_prepare-Keeps :
      (peer_id : PeerId) (message : Prepare) (n : Node store x.hash)
      → Keeps n.state (handle_prepare store x peer_id message n).node.state
  unfolding handle_prepare
  handle_prepare-Keeps peer_id message n =
      checked-Keeps n.state n _ _ (Keeps-refl n.state)
        (λ a e. go (to_prepare message.metadata.block_hash n.state) refl)
    where
      go :
          (o : Option State)
          → to_prepare message.metadata.block_hash n.state ≡ o
          → Keeps n.state (prepared store x message.metadata n o).node.state
      go none e = Keeps-refl n.state
      go (some s) e =
          let (a, b, c) = to_prepare_lem message.metadata.block_hash n.state s e in
          same_round (ground arith) (ground arith) (λ h k. ground arith)
            (λ (i, (d, j)). absurd (ground arith))

  module _ (now : Time) where
    commit_appended-Keeps :
        (message : Commit) (n : Node store x.hash)
        → Fits n
        → verify_hash n.state.block_hash message.metadata.block_hash ≡ ok tt
        → ¬ IsStuck n.state
        → Keeps n.state (commit_appended store x now message n).node.state
    unfolding commit_appended
    commit_appended-Keeps message n fits v i =
        let n' =
          with_state store x n (record n.state { block_hash = some message.metadata.block_hash }) in
        let k : Keeps n.state n'.state =
          hashed-Keeps n.state n'.state message.metadata.block_hash refl refl refl v i in
        let left = left_by_commit store x.hash message.ackappend_signatures n' in
        let o = commit store x.hash message.ackappend_signatures n' in
        checked_faulty-Keeps n.state n' _ (committed store x left o) k (λ a e.
          Keeps-trans n.state n'.state (committed store x left o).node.state k (
            committed-Keeps n' left o (left_by_commit-Keeps message.ackappend_signatures n')
              (λ m f. commit-IsNext message.ackappend_signatures n' m fits f)))

    buffer_commit-Keeps :
        (message : Commit) (n : Node store x.hash) (b : Bool)
        → verify_hash n.state.block_hash message.metadata.block_hash ≡ ok tt
        → ¬ IsStuck n.state
        → (e : Error)
        → Keeps n.state
            (if b then buffer_commit store x now message n else reply store x n (err e)).node.state
    unfolding buffer_commit
    buffer_commit-Keeps message n true v i e =
        hashed-Keeps n.state _ message.metadata.block_hash refl refl refl v i
    buffer_commit-Keeps message n false v i e = Keeps-refl n.state

    commit_in_phase-Keeps :
        (message : Commit) (n : Node store x.hash) (o : Option Phase)
        → phase n.state ≡ o
        → Fits n
        → verify_hash n.state.block_hash message.metadata.block_hash ≡ ok tt
        → Keeps n.state (commit_in_phase store x now message n o).node.state
    unfolding commit_in_phase
    commit_in_phase-Keeps message n none e fits v = Keeps-refl n.state
    commit_in_phase-Keeps message n (some append) e fits v =
        commit_appended-Keeps message n fits v (phase-not-IsStuck n.state append e)
    commit_in_phase-Keeps message n (some waiting) e fits v =
        buffer_commit-Keeps message n (is_none n.state.buffered_commit_message) v
          (phase-not-IsStuck n.state waiting e) _
    commit_in_phase-Keeps message n (some prepare) e fits v =
        buffer_commit-Keeps message n (is_none n.state.buffered_commit_message) v
          (phase-not-IsStuck n.state prepare e) _

    -- A commit message, whether it is applied, kept for later or refused.
    pub handle_commit-Keeps :
        (peer_id : PeerId) (message : Commit) (n : Node store x.hash)
        → Fits n
        → Keeps n.state (handle_commit store x now peer_id message n).node.state
    unfolding handle_commit
    handle_commit-Keeps peer_id message n fits =
        checked-Keeps n.state n _ _ (Keeps-refl n.state)
          (λ a e. commit_in_phase-Keeps message n (phase n.state) refl fits (ground (arith, e)))

    apply_buffered-Keeps :
        (peer_id : PeerId) (m : Metadata) (o : Option Commit) (n : Node store x.hash)
        → Fits n
        → Keeps n.state (apply_buffered store x now peer_id m o n).node.state
    apply_buffered-Keeps peer_id m none n fits = Keeps-refl n.state
    apply_buffered-Keeps peer_id m (some c) n fits =
        let n' = with_state store x n (record n.state { buffered_commit_message = none }) in
        Keeps-trans n.state n'.state _ (same_round refl refl (λ h e. e) (λ i. i))
          (handle_commit-Keeps peer_id c n' fits)

    appended-Keeps :
        (peer_id : PeerId) (message : Append) (body : Body) (n : Node store x.hash)
        (o : Option State)
        → Fits n
        → to_append body message.invalid_transactions n.state ≡ o
        → Keeps n.state (appended store x now peer_id message.metadata n o).node.state
    unfolding to_append phase
    appended-Keeps peer_id message body n none fits e = Keeps-refl n.state
    appended-Keeps peer_id message body n (some s) fits e =
        let k : Keeps n.state s =
          same_round (ground arith) (ground arith) (λ h i. ground arith)
            (λ (i, (d, j)). absurd (ground arith)) in
        Keeps-trans n.state s _ k (
          apply_buffered-Keeps peer_id message.metadata s.buffered_commit_message
            (with_state store x n s) (ground arith))

    -- from the moment on at which the hash of the message has been taken over
    pub append_body-Keeps :
        (peer_id : PeerId) (message : Append) (body : Body) (n : Node store x.hash)
        → Fits n
        → Keeps
            (record n.state { block_hash = some message.metadata.block_hash })
            (append_body store x now peer_id message body n).node.state
    unfolding append_body
    append_body-Keeps peer_id message body n fits =
        let n' =
          with_state store x n (record n.state { block_hash = some message.metadata.block_hash }) in
        checked_faulty-Keeps n'.state n' _ _ (Keeps-refl n'.state) (λ a e.
          appended-Keeps peer_id message body n'
            (to_append body message.invalid_transactions n'.state) fits refl)

    -- An append message, with the commit message that may have come before it.
    pub handle_append-Keeps :
        (peer_id : PeerId) (message : Append) (n : Node store x.hash)
        → Fits n
        → Keeps n.state (handle_append store x now peer_id message n).node.state
    unfolding handle_append
    handle_append-Keeps peer_id message n fits =
        let body = body_with message.valid_transactions message.timestamp n.state in
        checked-Keeps n.state n _ _ (Keeps-refl n.state) (λ a e.
          checked_faulty-Keeps n.state n
            (verify_body (x.hash body) n.state.block_hash message.metadata.block_hash)
            (append_body store x now peer_id message body n) (Keeps-refl n.state)
            (λ b f.
              Keeps-trans n.state (record n.state { block_hash = some message.metadata.block_hash })
                _
                (hashed-Keeps n.state _ message.metadata.block_hash refl refl refl
                  (ground (arith, f)) (or_panic-not-IsStuck n.state _ a e))
                (append_body-Keeps peer_id message body n fits)))
