-- ===== src/Consensus/Follower/Synchronizer/Synchronized.antt =====
-- Whatever a peer answers, a follower that synchronizes stays coherent, unless the task panics.
use prellblock.Prelude.{
  ℕ, ◌≡◌, ◌≢◌, refl, subst, Bool, true, false, List, [], ◌∷◌, Option, none, some, ltb,
  if◌then◌else◌, Outcome, ok, err, panicked, or_panic, >>=-eq-ok, arith,
}
use prellblock.Pinxit.{Signed}
use prellblock.Api.Account.{Time}
use prellblock.Api.Transaction.{Transaction}
use prellblock.Api.Block.{Block, LeaderTerm, SignatureList}
use prellblock.Consensus.Error.{Error}
use prellblock.Consensus.Message.{SynchronizationResponse}
use prellblock.Consensus.Core.{Externals}
use prellblock.Consensus.Store.{BlockStore}
use prellblock.Consensus.Follower.{Node, new_leader_term, apply_to_node, rollback_node}
use prellblock.Consensus.Follower.Coherence.{IsCoherent, apply_to_node-IsCoherent}
use prellblock.Consensus.Follower.Rounds.{new_leader_term-IsCoherent, rollback_node-IsCoherent}
use prellblock.Consensus.Follower.Handlers.{Reply, reply}
use prellblock.Consensus.Follower.Synchronizer.{
  verify_synchronized_block, apply_synchronized_block, left_by_synchronized, apply_received,
  take_new_view, undo_split, is_split, receive_blocks, receive_answer, synchronize,
}

pub some_of_or_panic :
    {A : Type 0} (o : Option A) (a : A) → or_panic {E = Error} o ≡ ok a → o ≡ some a
some_of_or_panic none a h = ground arith
some_of_or_panic (some b) a h = ground arith

module _ (store : BlockStore) (x : Externals) (now : Time) where
  abbrev Coherent : Node store x.hash → Type 0
  Coherent n = IsCoherent store x.hash n

  -- A panic may leave the follower in between.
  abbrev Survives : Reply store x (Unit {0}) → Type 0
  Survives r = r.result ≢ panicked → Coherent r.node

  apply_synchronized_block-Coherent :
      (block : Block) (n n' : Node store x.hash)
      → Coherent n
      → apply_synchronized_block store x now block n ≡ ok n'
      → Coherent n'
  unfolding apply_synchronized_block
  apply_synchronized_block-Coherent block n n' c h =
      let (u, v, k) =
        >>=-eq-ok (verify_synchronized_block store x now block n)
          (λ u. or_panic (apply_to_node store x.hash (x.hash block.body) block n)) h in
      (apply_to_node-IsCoherent store x.hash (x.hash block.body) block n n' c.agrees refl
        (some_of_or_panic _ n' k)).0

  apply_received-Survives :
      (blocks : List Block) (n : Node store x.hash)
      → Coherent n
      → Survives (apply_received store x now blocks n)
  unfolding apply_received
  apply_received-Survives [] n c = λ h. c
  apply_received-Survives (block ∷ blocks) n c =
      go (ltb block.body.height n.state.block_number) (apply_synchronized_block store x now block n)
        refl (apply_received-Survives blocks n c) (λ m d. apply_received-Survives blocks m d)
    where
      go :
          (b : Bool) (o : Outcome Error (Node store x.hash))
          → apply_synchronized_block store x now block n ≡ o
          → Survives (apply_received store x now blocks n)
          → ((m : Node store x.hash) → Coherent m → Survives (apply_received store x now blocks m))
          → (let r : Reply store x (Unit {0}) = elim b [
            | true ↦ apply_received store x now blocks n
            | false ↦ elim o [
              | ok n' ↦ apply_received store x now blocks n'
              | err e ↦ reply store x n (err e)
              | panicked ↦ reply store x (left_by_synchronized store x now block n) panicked
            ]
          ] in
              Survives r)
      go true o e d f = d
      go false (ok n') e d f = f n' (apply_synchronized_block-Coherent block n n' c e)
      go false (err y) e d f = λ h. c
      go false panicked e d f = λ h. absurd (h refl)

  take_new_view-Coherent :
      (v : Option (LeaderTerm × SignatureList)) (n n' : Node store x.hash)
      → Coherent n
      → take_new_view store x now v n ≡ ok n'
      → Coherent n'
  unfolding take_new_view
  take_new_view-Coherent none n n' c h = let e : n ≡ n' = cc in subst (λ k. Coherent k) e c
  take_new_view-Coherent (some (term, signatures)) n n' c h =
      let e : record n { state = new_leader_term term signatures n.state } ≡ n' = ground arith in
      subst (λ k. Coherent k) e (new_leader_term-IsCoherent store x.hash term signatures n c)

  module _ (at_times : List (Signed Transaction) → List (ℕ × Signed Transaction)) where
    undo_split-Coherent :
        (blocks : List Block) (n n' : Node store x.hash)
        → Coherent n
        → undo_split store x now at_times blocks n ≡ ok n'
        → Coherent n'
    unfolding undo_split
    undo_split-Coherent [] n n' c h = let e : n ≡ n' = cc in subst (λ k. Coherent k) e c
    undo_split-Coherent (first ∷ blocks) n n' c h = go (is_split store x now first n.state) h
      where
        go :
            (b : Bool)
            → (if b then or_panic {E = Error} (rollback_node store x.hash at_times n) else ok n)
              ≡ ok n'
            → Coherent n'
        go true k = rollback_node-IsCoherent store x.hash at_times n n' c (some_of_or_panic _ n' k)
        go false k = let e : n ≡ n' = cc in subst (λ m. Coherent m) e c

    receive_blocks-Survives :
        (blocks : List Block) (n : Node store x.hash) (o : Outcome Error (Node store x.hash))
        → Coherent n
        → undo_split store x now at_times blocks n ≡ o
        → Survives (receive_blocks store x now at_times blocks n o)
    receive_blocks-Survives blocks n (ok m) c h =
        apply_received-Survives blocks m (undo_split-Coherent blocks n m c h)
    receive_blocks-Survives blocks n (err e) c h = λ k. c
    receive_blocks-Survives blocks n panicked c h = λ k. absurd (k refl)

    receive_answer-Survives :
        (v : Option (LeaderTerm × SignatureList)) (blocks : List Block) (n : Node store x.hash)
        (o : Outcome Error (Node store x.hash))
        → Coherent n
        → take_new_view store x now v n ≡ o
        → Survives (receive_answer store x now at_times blocks n o)
    receive_answer-Survives v blocks n (ok m) c h =
        receive_blocks-Survives blocks m (undo_split store x now at_times blocks m)
          (take_new_view-Coherent v n m c h) refl
    receive_answer-Survives v blocks n (err e) c h = λ k. c
    receive_answer-Survives v blocks n panicked c h = λ k. c

    -- A follower that is coherent is so after a synchronization that does not panic, whatever the asked
    -- peer answers: a new term, a chain split, blocks that are refused, or nothing.
    pub synchronize-IsCoherent :
        (answer : Outcome Error SynchronizationResponse) (n : Node store x.hash)
        → IsCoherent store x.hash n
        → (synchronize store x now at_times answer n).result ≢ panicked
        → IsCoherent store x.hash (synchronize store x now at_times answer n).node
    unfolding synchronize
    synchronize-IsCoherent (ok response) n c =
        receive_answer-Survives response.new_view response.blocks n
          (take_new_view store x now response.new_view n) c refl
    synchronize-IsCoherent (err e) n c = λ h. c
    synchronize-IsCoherent panicked n c = λ h. c
