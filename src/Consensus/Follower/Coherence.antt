-- ===== src/Consensus/Follower/Coherence.antt =====
-- The state of a follower agrees with the world state and the storage that it shares.
use prellblock.Prelude.{
  ◌≡◌, refl, ◌∙◌, ap, false, List, [], ◌∷◌, ◌++◌, Option, none, some, Outcome, ok, err, panicked,
  add_u64, arith,
}
use prellblock.Api.Block.{Block, Body, BlockHash, block_number}
use prellblock.WorldState.{WorldState, default_world_state, BlockError, apply_block}
use prellblock.WorldState.Service.{
  WorldStateReferences, apply_blocks, apply_block_fields, apply_blocks-append, split_last,
  split_last-append, save,
}
use prellblock.Consensus.Error.{Phase, waiting, prepare}
use prellblock.Consensus.Message.{InvalidTransaction}
use prellblock.Consensus.Store.{BlockStore}
use prellblock.Consensus.Follower.{State, phase, Node, apply_to_node, apply_to}

module _ (store : BlockStore) (hash : Body → BlockHash) where
  open store use {Store, blocks, write_block, pop_block, blocks-write_block, blocks-pop_block}

  -- The next block number and the last hash are those of the current world state, which the stored
  -- blocks build; the previous world state, if there is one, is built by all of them but the last.
  pub record IsStored (n : Node store hash) : Type 0 where
    pub number : n.state.block_number ≡ n.world.current.block_number
    pub last : n.state.last_block_hash ≡ n.world.current.last_block_hash
    pub built : apply_blocks hash default_world_state (blocks n.storage) ≡ ok n.world.current
    pub previous :
        (w : WorldState)
        → n.world.prev ≡ some w
        → apply_blocks hash default_world_state (split_last (blocks n.storage)).0 ≡ ok w

  -- Moreover the phase is never the unreachable one, and an appended body has the prepared hash.
  pub record IsCoherent (n : Node store hash) : Type 0 where
    pub agrees : IsStored n
    pub in_a_phase : (p : Phase) × (phase n.state ≡ some p)
    pub prepared :
        (h : BlockHash) (c : Body × List InvalidTransaction)
        → n.state.block_hash ≡ some h
        → n.state.block_content ≡ some c
        → h ≡ hash c.0

  applied_lem :
      (block : Block) (r r' : WorldStateReferences)
      → apply_to store hash block r ≡ some r'
      → (w : WorldState) × (apply_block hash r.current block ≡ ok w) × (r' ≡ save w r)
  applied_lem block r r' h = go (apply_block hash r.current block) refl
    where
      go :
          (o : Outcome BlockError WorldState)
          → apply_block hash r.current block ≡ o
          → (w : WorldState) × (apply_block hash r.current block ≡ ok w) × (r' ≡ save w r)
      go (ok w) e = (w, e, ground arith)
      go (err y) e = ground arith
      go panicked e = ground arith

  pub next_lem :
      (block_hash : BlockHash) (block : Block) (n n' : Node store hash)
      → apply_to_node store hash block_hash block n ≡ some n'
      → (w : WorldState) × (apply_block hash n.world.current block ≡ ok w)
        × (n'.world ≡ save w n.world)
        × (write_block block n.storage ≡ some n'.storage)
        × (block_number block ≡ n.state.block_number)
        × (n'.state.block_number ≡ add_u64 n.state.block_number 1)
        × (n'.state.last_block_hash ≡ block_hash)
        × (n'.state.block_content ≡ none)
        × (n'.state.rollback_possible ≡ false)
        × (n'.state.block_hash ≡ n.state.block_hash)
  unfolding apply_to_node
  next_lem block_hash block n n' h =
      go (write_block block n.storage) refl (apply_to store hash block n.world) refl
    where
      go :
          (o : Option Store)
          → write_block block n.storage ≡ o
          → (r : Option WorldStateReferences) → apply_to store hash block n.world ≡ r
          → (w : WorldState) × (apply_block hash n.world.current block ≡ ok w)
            × (n'.world ≡ save w n.world)
            × (write_block block n.storage ≡ some n'.storage)
            × (block_number block ≡ n.state.block_number)
            × (n'.state.block_number ≡ add_u64 n.state.block_number 1)
            × (n'.state.last_block_hash ≡ block_hash)
            × (n'.state.block_content ≡ none)
            × (n'.state.rollback_possible ≡ false)
            × (n'.state.block_hash ≡ n.state.block_hash)
      go none e r k = ground arith
      go (some s) e none k = ground arith
      go (some s) e (some r) k =
          let (w, a, b) = applied_lem block n.world r k in
          (
            w,
            a,
            ground arith,
            ground arith,
            ground arith,
            ground arith,
            ground arith,
            ground arith,
            ground arith,
            ground arith,
          )

  phase_lem : (s : State) → s.block_content ≡ none → (p : Phase) × (phase s ≡ some p)
  unfolding phase
  phase_lem s h = go s.block_hash refl
    where
      go : (b : Option BlockHash) → s.block_hash ≡ b → (p : Phase) × (phase s ≡ some p)
      go none e = (waiting, ground arith)
      go (some x) e = (prepare, ground arith)

  -- If a block is applied whose hash is the given one, a follower that agrees with its storage is
  -- coherent after it, the block stands last in the storage, and no rollback is possible.
  pub apply_to_node-IsCoherent :
      (block_hash : BlockHash) (block : Block) (n n' : Node store hash)
      → IsStored n
      → block_hash ≡ hash block.body
      → apply_to_node store hash block_hash block n ≡ some n'
      → IsCoherent n'
        × (blocks n'.storage ≡ blocks n.storage ++ (block ∷ []))
        × (n'.state.rollback_possible ≡ false)
  unfolding save
  apply_to_node-IsCoherent block_hash block n n' c same h =
      let (w, a, r, s, num, e0, e1, e2, e3, e4) = next_lem block_hash block n n' h in
      let f = apply_block_fields hash n.world.current w block a in
      let stored = blocks-write_block block n.storage n'.storage s in
      (
        record {
          agrees = record {
            number = ground (arith, c.number);
            last = ground arith;
            built =
                ap (apply_blocks hash default_world_state) stored
                ∙ apply_blocks-append hash default_world_state (blocks n.storage) block
                ∙ ground (arith, c.built);
            previous = λ v k.
                ap (λ l. apply_blocks hash default_world_state (split_last l).0) stored
                ∙ ap (λ l. apply_blocks hash default_world_state l.0)
                    (split_last-append (blocks n.storage) block)
                ∙ ground (arith, c.built);
          };
          in_a_phase = phase_lem n'.state e2;
          prepared = λ x y i j. ground arith;
        },
        stored,
        e3,
      )
