-- ===== src/BlockStorage/Ranges.antt =====
-- A range of blocks that is read from the storage.
use Prim.Native.String.{String}
use prellblock.Prelude.{ℕ, suc, ◌≡◌, refl, ap, ◌∙◌, ltb, List, map, Bool, ok, arith}
use prellblock.Pinxit.{Bytes}
use prellblock.Api.Block.{Block, BlockNumber}
use prellblock.Api.Query.{included}
use prellblock.Consensus.Follower.Synchronizer.Request.{read_between}
use prellblock.BlockStorage.Sled
use prellblock.BlockStorage.Sled.{within}
use prellblock.BlockStorage.{Codec, BlockStorage, read, read_item}
use prellblock.BlockStorage.Chain.{Holds, nothing, block}
use prellblock.BlockStorage.Writing.{IsStorageOf}

module _ (before : String → String → Bool) (numbers : Sled.Sled ℕ ltb)
    (names : Sled.Sled String before) (codec : Codec) where
  range_items :
      (i start end : ℕ) (l : List (ℕ × Bytes)) (bs : List Block)
      → Holds codec i l bs
      → map (read_item before numbers names codec) (within ltb (included start) (included end) l)
        ≡ map (λ b. ok b) (read_between start end bs)
  range_items i start end _ _ (nothing _) = refl
  range_items i start end _ _ (block _ u c l bs f g h) =
      ground (arith, f, g, range_items (suc i) start end l bs h)

  -- What is read from a range of numbers are the blocks whose heights lie in it, in their order.
  pub read-read_between :
      (start end : BlockNumber) (bs : List Block) (s : BlockStorage before numbers names codec)
      → IsStorageOf before numbers names codec bs s
      → read before numbers names codec (included start) (included end) s
        ≡ map (λ b. ok b) (read_between start end bs)
  unfolding read
  read-read_between start end bs s c =
      ap (λ l. map (read_item before numbers names codec) l)
        (numbers.range_lem (included start) (included end) s.blocks)
      ∙ range_items 0 start end (numbers.items s.blocks) bs c.holds
