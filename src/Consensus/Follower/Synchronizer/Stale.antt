-- ===== src/Consensus/Follower/Synchronizer/Stale.antt =====
-- A prepared hash outlives a block that comes by synchronization.
use prellblock.Prelude.{◌≡◌, ◌∙◌, some, ok, or_panic, >>=-eq-ok, arith}
use prellblock.Pinxit.{PeerId}
use prellblock.Api.Account.{Time}
use prellblock.Api.Block.{Block, BlockHash}
use prellblock.Consensus.Message.{Metadata, Append}
use prellblock.Consensus.Core.{Externals}
use prellblock.Consensus.Store.{BlockStore}
use prellblock.Consensus.Follower.{Node, apply_to_node}
use prellblock.Consensus.Follower.Coherence.{next_lem}
use prellblock.Consensus.Follower.Handlers.{handle_append}
use prellblock.Consensus.Follower.Handlers.Decided.{handle_append-Accepted}
use prellblock.Consensus.Follower.Synchronizer.{verify_synchronized_block, apply_synchronized_block}
use prellblock.Consensus.Follower.Synchronizer.Synchronized.{some_of_or_panic}

-- A follower that has prepared a hash and then receives the block by synchronization keeps the hash:
-- of the append messages for the next block, it acknowledges none with another hash.
pub apply_synchronized_block-stale_hash :
    (store : BlockStore) (x : Externals) (now : Time) (block : Block) (n n' : Node store x.hash)
    (h : BlockHash) (peer_id : PeerId) (message : Append) (m : Metadata)
    → n.state.block_hash ≡ some h
    → apply_synchronized_block store x now block n ≡ ok n'
    → (handle_append store x now peer_id message n').result ≡ ok m
    → message.metadata.block_hash ≡ h
unfolding apply_synchronized_block
apply_synchronized_block-stale_hash store x now block n n' h peer_id message m e applied
      acknowledged =
    let (u, v, k) =
      >>=-eq-ok (verify_synchronized_block store x now block n)
        (λ u. or_panic (apply_to_node store x.hash (x.hash block.body) block n)) applied in
    let (w, a, r, s, num, e0, e1, e2, e3, e4) =
      next_lem store x.hash (x.hash block.body) block n n' (some_of_or_panic _ n' k) in
    let known : n'.state.block_hash ≡ some h = e4 ∙ e in
    ground (
      arith,
      known,
      (handle_append-Accepted store x now peer_id message n' m acknowledged).unchanged,
    )
