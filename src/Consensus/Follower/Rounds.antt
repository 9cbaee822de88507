-- ===== src/Consensus/Follower/Rounds.antt =====
-- A commit keeps a follower coherent, and a rollback undoes it.
use prellblock.Prelude.{
  ℕ, ◌+◌, ◌^◌, ◌<◌, ◌≡◌, refl, sym, ◌∙◌, ap, false, List, [], ◌∷◌, ◌++◌, Option, none, some, ok,
  subst, add_u64, sub_u64, arith,
}
use prellblock.Pinxit.{Signed}
use prellblock.Api.Transaction.{Transaction}
use prellblock.Api.Block.{Block, Body, BlockHash, LeaderTerm, SignatureList}
use prellblock.Queue.{extend}
use prellblock.WorldState.{WorldState, default_world_state}
use prellblock.WorldState.Service.{apply_blocks, split_last, split_last-append, rollback, save}
use prellblock.Consensus.Error.{waiting, prepare, append}
use prellblock.Consensus.Message.{InvalidTransaction}
use prellblock.Consensus.Store.{BlockStore}
use prellblock.Consensus.Follower.{
  State, phase, to_prepare, to_append, new_leader_term, Node, commit_content, drop_invalid, commit,
  rolled_back, rollback_popped, rollback_node,
}
use prellblock.Consensus.Follower.Coherence.{
  IsStored, IsCoherent, next_lem, apply_to_node-IsCoherent,
}

module _ (store : BlockStore) (hash : Body → BlockHash) where
  open store use {Store, blocks, write_block, pop_block, blocks-write_block, blocks-pop_block}

  -- A new leader term leaves a follower coherent.
  pub new_leader_term-IsCoherent :
      (term : LeaderTerm) (l : SignatureList) (n : Node store hash)
      → IsCoherent store hash n
      → IsCoherent store hash (record n { state = new_leader_term term l n.state })
  unfolding new_leader_term phase
  new_leader_term-IsCoherent term l n c = record {
    agrees = record {
      number = c.agrees.number;
      last = c.agrees.last;
      built = c.agrees.built;
      previous = c.agrees.previous;
    };
    in_a_phase = (waiting, refl);
    prepared = λ h x i j. ground arith;
  }

  -- So does the prepare phase.
  pub to_prepare-IsCoherent :
      (block_hash : BlockHash) (n : Node store hash) (s : State)
      → IsCoherent store hash n
      → to_prepare block_hash n.state ≡ some s
      → IsCoherent store hash (record n { state = s }) × (phase s ≡ some prepare)
  unfolding to_prepare phase
  to_prepare-IsCoherent block_hash n s c h = (
    record {
      agrees = record {
        number = ground (arith, c.agrees.number);
        last = ground (arith, c.agrees.last);
        built = c.agrees.built;
        previous = c.agrees.previous;
      };
      in_a_phase = (prepare, ground arith);
      prepared = λ x y i j. ground arith;
    },
    ground arith,
  )

  -- So does the append phase, with a body of the prepared hash.
  pub to_append-IsCoherent :
      (body : Body) (invalid : List InvalidTransaction) (n : Node store hash) (s : State)
      → IsCoherent store hash n
      → n.state.block_hash ≡ some (hash body)
      → to_append body invalid n.state ≡ some s
      → IsCoherent store hash (record n { state = s }) × (phase s ≡ some append)
  unfolding to_append phase
  to_append-IsCoherent body invalid n s c e h = (
    record {
      agrees = record {
        number = ground (arith, c.agrees.number);
        last = ground (arith, c.agrees.last);
        built = c.agrees.built;
        previous = c.agrees.previous;
      };
      in_a_phase = (append, ground arith);
      prepared = λ x y i j. ground arith;
    },
    ground arith,
  )

  -- What a commit has done: the appended body stands last in the storage with the signatures, the
  -- follower is coherent and waits for the next block, and no rollback is possible.
  pub record Committed (l : SignatureList) (n n' : Node store hash) : Type 0 where
    pub body : Body
    pub invalid : List InvalidTransaction
    pub content : n.state.block_content ≡ some (body, invalid)
    pub coherent : IsCoherent store hash n'
    pub stored :
        blocks n'.storage ≡ blocks n.storage ++ (record { body = body; signatures = l } ∷ [])
    pub final : n'.state.rollback_possible ≡ false
    pub is_waiting : phase n'.state ≡ some waiting
    pub kept_world : n'.world.prev ≡ some n.world.current
    pub counted : n'.state.block_number ≡ add_u64 n.state.block_number 1
    pub at_number : body.height ≡ n.state.block_number

  commit_content_lem :
      (l : SignatureList) (block_hash : BlockHash) (body : Body) (invalid : List InvalidTransaction)
      (n n' : Node store hash)
      → IsStored store hash n
      → block_hash ≡ hash body
      → n.state.block_content ≡ some (body, invalid)
      → commit_content store hash l (some block_hash) (some (body, invalid)) n ≡ some n'
      → Committed l n n'
  unfolding commit_content phase save
  commit_content_lem l block_hash body invalid n n' c e k h =
      let mid : Node store hash = record n {
        state = record n.state { block_hash = none };
        queue = drop_invalid store hash invalid n.queue;
      } in
      let block : Block = record { body = body; signatures = l } in
      let agrees : IsStored store hash mid = record {
        number = c.number;
        last = c.last;
        built = c.built;
        previous = c.previous;
      } in
      let (coherent, stored, final) =
        apply_to_node-IsCoherent store hash block_hash block mid n' agrees e h in
      let (w, a, r, s, num, e0, e1, e2, e3, e4) = next_lem store hash block_hash block mid n' h in
      record {
        body = body;
        invalid = invalid;
        content = k;
        coherent = coherent;
        stored = stored;
        final = final;
        is_waiting = ground arith;
        kept_world = ground arith;
        counted = e0;
        at_number = num;
      }

  -- A commit of a coherent follower that does not panic stores the appended body with the signatures as
  -- the next block and raises the number by one. The follower is coherent and waits for the next block,
  -- it keeps the world state before the block, and no rollback is possible.
  pub commit-Committed :
      (l : SignatureList) (n n' : Node store hash)
      → IsCoherent store hash n
      → commit store hash l n ≡ some n'
      → Committed l n n'
  unfolding commit phase
  commit-Committed l n n' c h = go n.state.block_hash refl n.state.block_content refl
    where
      go :
          (b : Option BlockHash)
          → n.state.block_hash ≡ b
          → (x : Option (Body × List InvalidTransaction)) → n.state.block_content ≡ x
          → Committed l n n'
      go none e none k = ground arith
      go none e (some x) k = ground arith
      go (some b) e none k = ground arith
      go (some b) e (some (body, invalid)) k =
          commit_content_lem l b body invalid n n' c.agrees (c.prepared b (body, invalid) e k) k
            (ground arith)

  -- What a rollback has restored of an earlier follower: the world state, the blocks, the next number
  -- and the last hash. It waits for the next block, and no further rollback is possible.
  pub record Restored (n n' : Node store hash) : Type 0 where
    pub world : n'.world.current ≡ n.world.current
    pub stored : blocks n'.storage ≡ blocks n.storage
    pub number : n'.state.block_number ≡ n.state.block_number
    pub last : n'.state.last_block_hash ≡ n.state.last_block_hash
    pub coherent : IsCoherent store hash n'
    pub is_waiting : phase n'.state ≡ some waiting
    pub final : n'.state.rollback_possible ≡ false

  last_same : (k l : List Block) (b c : Block) → k ++ (b ∷ []) ≡ l ++ (c ∷ []) → (k ≡ l) × (b ≡ c)
  last_same k l b c h =
      let e = sym (split_last-append k b) ∙ ap split_last h ∙ split_last-append l c in
      (ap (λ (p : List Block × Option Block). p.0) e, ground (arith, e))

  -- what is left of a storage after a pop, and the block that was popped
  popped_last :
      (s s' : Store) (b : Block)
      → pop_block s ≡ some (some b, s')
      → split_last (blocks s) ≡ (blocks s', some b)
  popped_last s s' b h = ap split_last (blocks-pop_block b s s' h) ∙ split_last-append (blocks s') b

  rollback_popped-IsCoherent :
      (at_times : List (Signed Transaction) → List (ℕ × Signed Transaction)) (b : Block)
      (storage : Store) (n n' : Node store hash)
      → IsCoherent store hash n
      → pop_block n.storage ≡ some (some b, storage)
      → rollback_popped store hash at_times b storage n ≡ some n'
      → IsCoherent store hash n'
  unfolding rollback_popped rollback phase
  rollback_popped-IsCoherent at_times b storage n n' c pop h = go n.world.prev refl
    where
      go : (o : Option WorldState) → n.world.prev ≡ o → IsCoherent store hash n'
      go none e = ground arith
      go (some w) e =
          let p = popped_last n.storage storage b pop in
          let built : apply_blocks hash default_world_state (blocks storage) ≡ ok w =
            ap (λ (l : List Block × Option Block). apply_blocks hash default_world_state l.0)
              (sym p)
            ∙ c.agrees.previous w e in
          let number : w.block_number ≡ sub_u64 n.state.block_number 1 = ground arith in
          let m : Node store hash = record {
            state = rolled_back store hash w n.state;
            world = record { current = w; prev = none };
            queue = extend (at_times b.body.transactions) n.queue;
            storage = storage;
          } in
          let same : m ≡ n' = ground arith in
          subst (λ k. IsCoherent store hash k) same
            (record {
              agrees = record {
                number = sym number;
                last = refl;
                built = built;
                previous = λ v k. cc;
              };
              in_a_phase = (waiting, refl);
              prepared = λ y z i j. cc;
            })

  -- A rollback of a coherent follower that does not panic leaves a coherent one.
  pub rollback_node-IsCoherent :
      (at_times : List (Signed Transaction) → List (ℕ × Signed Transaction))
      (n n' : Node store hash)
      → IsCoherent store hash n
      → rollback_node store hash at_times n ≡ some n'
      → IsCoherent store hash n'
  unfolding rollback_node
  rollback_node-IsCoherent at_times n n' c h = go (pop_block n.storage) refl
    where
      go : (o : Option (Option Block × Store)) → pop_block n.storage ≡ o → IsCoherent store hash n'
      go none e = ground arith
      go (some (none, s)) e = ground arith
      go (some (some b, s)) e = rollback_popped-IsCoherent at_times b s n n' c e (ground arith)

  -- After a commit of a coherent follower, whose number does not wrap, a rollback panics. After a
  -- change of the leader term it does not, if the storage pops a block: then the follower has again the
  -- world state, the blocks, the number and the last hash that it had before the commit.
  pub commit-rollback :
      (at_times : List (Signed Transaction) → List (ℕ × Signed Transaction)) (l l' : SignatureList)
      (term : LeaderTerm) (n n' : Node store hash) (last : Block) (storage : Store)
      → IsCoherent store hash n
      → n.state.block_number + 1 < 2 ^ 64
      → commit store hash l n ≡ some n'
      → pop_block n'.storage ≡ some (some last, storage)
      → (rollback_node store hash at_times n' ≡ none)
        × ((m : Node store hash) × (rollback_node store hash at_times
                (record n' { state = new_leader_term term l' n'.state })
              ≡ some m)
            × Restored n m)
  unfolding rollback_node rollback_popped new_leader_term rollback phase
  commit-rollback at_times l l' term n n' last storage c fits h pop =
      let d = commit-Committed l n n' c h in
      let p = blocks-pop_block last n'.storage storage pop in
      let block : Block = record { body = d.body; signatures = l } in
      let (same, top) =
        last_same (blocks n.storage) (blocks storage) block last (sym d.stored ∙ p) in
      let height : last.body.height ≡ n.state.block_number =
        sym (ap (λ (b : Block). b.body.height) top) ∙ d.at_number in
      let s : State = new_leader_term term l' n'.state in
      let m : Node store hash = record {
        state = rolled_back store hash n.world.current s;
        world = record { current = n.world.current; prev = none };
        queue = extend (at_times last.body.transactions) n'.queue;
        storage = storage;
      } in
      let number : sub_u64 n'.state.block_number 1 ≡ n.state.block_number =
        omega (arith, d.counted, fits) in
      (
        ground (arith, d.final),
        (
          m,
          ground (arith, d.counted, height, number, d.kept_world, pop, c.agrees.number),
          record {
            world = refl;
            stored = sym same;
            number = number;
            last = sym c.agrees.last;
            coherent = record {
              agrees = record {
                number = number ∙ c.agrees.number;
                last = refl;
                built = ap (apply_blocks hash default_world_state) (sym same) ∙ c.agrees.built;
                previous = λ w e. cc;
              };
              in_a_phase = (waiting, refl);
              prepared = λ x y i j. cc;
            };
            is_waiting = refl;
            final = refl;
          },
        ),
      )
