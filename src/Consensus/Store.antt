-- ===== src/Consensus/Store.antt =====
-- The block storage as the consensus uses it: `BlockStorage` of prellblock/src/block_storage, behind
-- the operations and the behaviour that the consensus relies on.
use prellblock.Prelude.{◌≡◌, List, [], ◌∷◌, ◌++◌, Option, some}
use prellblock.Api.Block.{Block}

-- `none` is an error of the storage, at which every caller in the consensus panics.
pub record BlockStore : Type 1 where
  pub Store : Type 0
  -- the blocks of `read(..)`, in the order of their numbers
  pub blocks : Store → List Block
  pub write_block : Block → Store → Option Store
  -- the inner option is `none` if there is no block
  pub pop_block : Store → Option (Option Block × Store)
  -- What an error of these two leaves; nothing is known of it.
  pub left_by_write : Block → Store → Store
  pub left_by_pop : Store → Store
  -- A block that is written stands behind all others.
  pub blocks-write_block :
      (b : Block) (s s' : Store) → write_block b s ≡ some s' → blocks s' ≡ blocks s ++ (b ∷ [])
  -- A block that is popped stood behind all others.
  pub blocks-pop_block :
      (b : Block) (s s' : Store)
      → pop_block s ≡ some (some b, s')
      → blocks s ≡ blocks s' ++ (b ∷ [])
