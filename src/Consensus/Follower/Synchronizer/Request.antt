-- ===== src/Consensus/Follower/Synchronizer/Request.antt =====
-- `handle_synchronization_request` of prellblock/src/consensus/praftbft/follower/synchronizer.rs: what a
-- peer answers that is asked for the blocks that another one misses.
use prellblock.Prelude.{
  ℕ, suc, ◌+◌, ◌≤◌, ◌≡◌, ◌≢◌, refl, ap, subst, ◌∙◌, ◌<◌, ◌^◌, ◌&&◌, List, [], ◌∷◌, ◌++◌, length,
  length-append, Option, none, some, ◌==◌, ltb, leb, if◌then◌else◌, sub_u64, arith,
}
use prellblock.Api.Block.{Block, Body, BlockHash, BlockNumber, LeaderTerm, SignatureList}
use prellblock.Consensus.Message.{SynchronizationRequest, SynchronizationResponse}
use prellblock.Consensus.Store.{BlockStore}
use prellblock.Consensus.Follower.{State, Node}

-- The blocks of `read(start..=end)`.
abbrev pub read_between : BlockNumber → BlockNumber → List Block → List Block
read_between start end [] = []
read_between start end (b ∷ bs) =
    let rest = read_between start end bs in
    if leb start b.body.height && leb b.body.height end then b ∷ rest else rest

abbrev pub new_view_of : LeaderTerm → State → Option (LeaderTerm × SignatureList)
new_view_of term s =
    if term == s.leader_term then none else some (s.leader_term, s.new_view_signatures)

abbrev pub start_of : BlockNumber → BlockNumber
start_of number = if ltb 0 number then sub_u64 number 1 else number

module _ (store : BlockStore) (hash : Body → BlockHash) where
  open store use {blocks}

  -- The first block is left out if its hash is the one that the request names.
  abbrev pub unknown_blocks : BlockHash → List Block → List Block
  unknown_blocks h [] = []
  unknown_blocks h (first ∷ rest) = if h == hash first.body then rest else first ∷ rest

  unfoldable pub handle_synchronization_request :
      SynchronizationRequest → Node store hash → SynchronizationResponse
  handle_synchronization_request message n = record {
    new_view = new_view_of message.leader_term n.state;
    blocks =
        unknown_blocks message.block_hash
          (read_between (start_of message.block_number) n.state.block_number (blocks n.storage));
  }

  -- The blocks carry their numbers, from a number on.
  abbrev pub Numbered : ℕ → List Block → Type 0
  Numbered i [] = Unit
  Numbered i (b ∷ bs) = (b.body.height ≡ i) × Numbered (suc i) bs

  skip_before :
      (i start end : ℕ) (front rest : List Block)
      → Numbered i (front ++ rest)
      → i + length front ≤ start
      → read_between start end (front ++ rest) ≡ read_between start end rest
  skip_before i start end [] rest c h = refl
  skip_before i start end (b ∷ front) rest c h =
      ground (arith, c.0, h, skip_before (suc i) start end front rest c.1 (omega (arith, h)))

  keep_all :
      (i start end : ℕ) (bs : List Block)
      → Numbered i bs
      → start ≤ i
      → i + length bs ≤ suc end
      → read_between start end bs ≡ bs
  keep_all i start end [] c h k = refl
  keep_all i start end (b ∷ bs) c h k =
      ground
        (arith, c.0, h, k, keep_all (suc i) start end bs c.1 (omega (arith, h)) (omega (arith, k)))

  Numbered-rest :
      (i : ℕ) (front rest : List Block)
      → Numbered i (front ++ rest)
      → Numbered (i + length front) rest
  Numbered-rest i [] rest c = subst (λ j. Numbered j rest) (omega arith) c
  Numbered-rest i (b ∷ front) rest c =
      subst (λ j. Numbered j rest) (omega arith) (Numbered-rest (suc i) front rest c.1)

  -- A peer that holds numbered blocks, and knows their number, is asked by one that holds some first
  -- part of its own. If the last block of that is the peer's too, the answer is exactly what comes
  -- behind it; if not, the answer starts with the peer's block of that number.
  pub handle_synchronization_request-missing :
      (message : SynchronizationRequest) (n : Node store hash) (front rest : List Block) (b : Block)
      → Numbered 0 (blocks n.storage)
      → length (blocks n.storage) ≡ n.state.block_number
      → n.state.block_number < 2 ^ 64
      → blocks n.storage ≡ front ++ (b ∷ rest)
      → message.block_number ≡ suc (length front)
      → (message.block_hash ≡ hash b.body
          → (handle_synchronization_request message n).blocks ≡ rest)
        × (message.block_hash ≢ hash b.body
            → (handle_synchronization_request message n).blocks ≡ b ∷ rest)
  unfolding handle_synchronization_request
  handle_synchronization_request-missing message n front rest b c count bound splits number =
      let read : read_between (start_of message.block_number) n.state.block_number
            (blocks n.storage)
          ≡ b ∷ rest =
        ap (read_between (start_of message.block_number) n.state.block_number) splits
        ∙ skip_before 0 (start_of message.block_number) n.state.block_number front (b ∷ rest)
            numbered (ground (arith, number, small))
        ∙ keep_all (0 + length front) (start_of message.block_number) n.state.block_number
            (b ∷ rest) (Numbered-rest 0 front (b ∷ rest) numbered) (ground (arith, number, small))
            (omega (arith, total)) in
      (λ e. ground (arith, read, e), λ e. ground (arith, read, e))
    where
      numbered : Numbered 0 (front ++ (b ∷ rest))
      numbered = subst (λ l. Numbered 0 l) splits c

      total : length front + suc (length rest) ≡ n.state.block_number
      total = omega (arith, ap length splits, count, length-append front (b ∷ rest))

      small : length front < 2 ^ 64
      small = omega (arith, total, bound)

  -- A peer that is asked by one without blocks sends all that it holds, unless the first has the hash
  -- zero, which stands for no block.
  pub handle_synchronization_request-all :
      (message : SynchronizationRequest) (n : Node store hash) (b : Block) (rest : List Block)
      → Numbered 0 (blocks n.storage)
      → length (blocks n.storage) ≡ n.state.block_number
      → blocks n.storage ≡ b ∷ rest
      → message.block_number ≡ 0
      → message.block_hash ≡ 0
      → hash b.body ≢ 0
      → (handle_synchronization_request message n).blocks ≡ blocks n.storage
  unfolding handle_synchronization_request
  handle_synchronization_request-all message n b rest c count splits number none_known nonzero =
      let read : read_between (start_of message.block_number) n.state.block_number
            (blocks n.storage)
          ≡ blocks n.storage =
        keep_all 0 (start_of message.block_number) n.state.block_number (blocks n.storage) c
          (ground (arith, number)) (omega (arith, count)) in
      ground (arith, read, splits, none_known, nonzero)
