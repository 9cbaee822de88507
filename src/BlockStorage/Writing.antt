-- ===== src/BlockStorage/Writing.antt =====
-- The block storage keeps a chain of numbered blocks, as the consensus relies on it.
use Prim.Native.String.{String}
use prellblock.Prelude.{
  ℕ, ◌<◌, ◌^◌, ◌≡◌, ◌≢◌, Bool, refl, sym, ◌∙◌, ap, subst, ltb, List, [], ◌∷◌, ◌++◌, length, Option,
  none, some, ok, err, ◌>>=◌, >>=-eq-ok, arith,
}
use prellblock.Pinxit.{Bytes}
use prellblock.Api.Account.{Time}
use prellblock.Api.Block.{Block, BlockHash}
use prellblock.Api.Query.{unbounded}
use prellblock.WorldState.Service.{IsChain, last_hash}
use prellblock.BlockStorage.Sled
use prellblock.BlockStorage.{
  Error, sled, encoding, block_hash_does_not_match, block_height_does_not_fit, Codec, or_error,
  next_back, next_of, verify_next, BlockStorage, read, write_next, write_block, pop_block,
  popped_block, pop_values, opened,
}
use prellblock.BlockStorage.Chain.{
  Holds, nothing, Holds-insert_sorted, Holds-last, Holds-nil, read-Holds, next_of-Holds,
  write_transactions-blocks, pop_values-blocks,
}

IsChain-append :
    (codec : Codec) (p : BlockHash) (bs : List Block) (b : Block)
    → IsChain codec.hash p bs
    → b.body.prev_block_hash ≡ last_hash codec.hash p bs
    → IsChain codec.hash p (bs ++ (b ∷ []))
IsChain-append codec p [] b c h = (h, tt)
IsChain-append codec p (d ∷ bs) b c h = (c.0, IsChain-append codec (codec.hash d.body) bs b c.1 h)

IsChain-front :
    (codec : Codec) (p : BlockHash) (bs : List Block) (b : Block)
    → IsChain codec.hash p (bs ++ (b ∷ []))
    → IsChain codec.hash p bs
IsChain-front codec p [] b c = tt
IsChain-front codec p (d ∷ bs) b c = (c.0, IsChain-front codec (codec.hash d.body) bs b c.1)

module _ (before : String → String → Bool) (numbers : Sled.Sled ℕ ltb)
    (names : Sled.Sled String before) (codec : Codec) where
  abbrev Storage : Type 0
  Storage = BlockStorage before numbers names codec

  -- The storage holds the blocks, each under its number, and they form a hash chain.
  pub record IsStorageOf (bs : List Block) (s : Storage) : Type 0 where
    pub holds : Holds codec 0 (numbers.items s.blocks) bs
    pub chain : IsChain codec.hash 0 bs

  pub opened-IsStorageOf : IsStorageOf [] (opened before numbers names codec)
  opened-IsStorageOf = record {
    holds = subst (λ l. Holds codec 0 l []) (sym numbers.items-empty) (nothing 0);
    chain = tt;
  }

  inserted_lem :
      (bs : List Block) (s : Storage) (b : Block) (value : Bytes) (tree : numbers.Tree)
      → IsStorageOf bs s
      → b.body.prev_block_hash ≡ last_hash codec.hash 0 bs
      → b.body.height ≡ length bs
      → codec.encode_block b ≡ some value
      → numbers.insert b.body.height value s.blocks ≡ some tree
      → IsStorageOf (bs ++ (b ∷ [])) (record s { blocks = tree })
  inserted_lem bs s b value tree c prev number encoded inserted = record {
    holds =
        subst (λ l. Holds codec 0 l (bs ++ (b ∷ [])))
          (sym (numbers.items-insert b.body.height value s.blocks tree inserted))
          (Holds-insert_sorted codec 0 b.body.height value b (numbers.items s.blocks) bs c.holds
            (omega (arith, number)) (codec.decode_block-encode_block b value encoded) refl);
    chain = IsChain-append codec 0 bs b c.chain prev;
  }

  expected_lem :
      (bs : List Block) (s : Storage)
      → IsStorageOf bs s
      → length bs < 2 ^ 64
      → next_of before numbers names codec
          (next_back (read before numbers names codec unbounded unbounded s))
        ≡ ok (last_hash codec.hash 0 bs, length bs)
  expected_lem bs s c m =
      ap (λ l. next_of before numbers names codec (next_back l))
        (read-Holds before numbers names codec s bs c.holds)
      ∙ next_of-Holds before numbers names codec (numbers.items s.blocks) bs c.holds m

  written_lem : {A : Type 0} (e : Error) (o : Option A) (a : A) → or_error e o ≡ ok a → o ≡ some a
  written_lem e none a h = cc
  written_lem e (some b) a h = ground arith

  write_next-IsStorageOf :
      (clock : ℕ → Time) (bs : List Block) (s s' : Storage) (b : Block)
      → IsStorageOf bs s
      → write_next before numbers names codec clock b s (last_hash codec.hash 0 bs, length bs)
        ≡ ok s'
      → (b.body.prev_block_hash ≡ last_hash codec.hash 0 bs)
        × (b.body.height ≡ length bs)
        × IsStorageOf (bs ++ (b ∷ [])) s'
  unfolding write_next
  write_next-IsStorageOf clock bs s s' b c h =
      let (u, e, k) =
        >>=-eq-ok (verify_next before numbers names codec (last_hash codec.hash 0 bs, length bs) b)
          _ h in
      let (value, e', k') = >>=-eq-ok (or_error encoding (codec.encode_block b)) _ k in
      let (tree, e'', k'') =
        >>=-eq-ok (or_error sled (numbers.insert b.body.height value s.blocks)) _ k' in
      let prev : b.body.prev_block_hash ≡ last_hash codec.hash 0 bs = ground (arith, e) in
      let number : b.body.height ≡ length bs = ground (arith, e) in
      let d =
        inserted_lem bs s b value tree c prev number
          (written_lem encoding (codec.encode_block b) value e')
          (written_lem sled (numbers.insert b.body.height value s.blocks) tree e'') in
      let same =
        write_transactions-blocks before numbers names codec clock 0 b.body.transactions
          (record s { blocks = tree }) s' k'' in
      (
        prev,
        number,
        record {
          holds = subst (λ t. Holds codec 0 (numbers.items t) (bs ++ (b ∷ []))) (sym same) d.holds;
          chain = d.chain;
        },
      )

  -- If a block is written, it names the hash of the last block and the number of the blocks that the
  -- storage held, and the storage holds it behind them, as long as a `u64` counts the blocks.
  pub write_block-IsStorageOf :
      (clock : ℕ → Time) (bs : List Block) (s s' : Storage) (b : Block)
      → IsStorageOf bs s
      → length bs < 2 ^ 64
      → write_block before numbers names codec clock b s ≡ ok s'
      → (b.body.prev_block_hash ≡ last_hash codec.hash 0 bs)
        × (b.body.height ≡ length bs)
        × IsStorageOf (bs ++ (b ∷ [])) s'
  unfolding write_block
  write_block-IsStorageOf clock bs s s' b c m h = write_next-IsStorageOf clock bs s s' b c (
      ap (λ o. o >>= λ p. write_next before numbers names codec clock b s p)
        (sym (expected_lem bs s c m))
      ∙ h)

  -- A block that names another hash than that of the last block is refused, and so is one that names it
  -- but has another number than the next.
  pub write_block-refused :
      (clock : ℕ → Time) (bs : List Block) (s : Storage) (b : Block)
      → IsStorageOf bs s
      → length bs < 2 ^ 64
      → (b.body.prev_block_hash ≢ last_hash codec.hash 0 bs
          → write_block before numbers names codec clock b s ≡ err block_hash_does_not_match)
        × (b.body.prev_block_hash ≡ last_hash codec.hash 0 bs
            → b.body.height ≢ length bs
            → write_block before numbers names codec clock b s ≡ err block_height_does_not_fit)
  unfolding write_block write_next
  write_block-refused clock bs s b c m =
      (λ n. ground (arith, expected_lem bs s c m), λ e n. ground (arith, expected_lem bs s c m))

  -- What `pop_block` returns: no block if the storage held none, and else the last one, which it then
  -- holds no more.
  pub data Popped (bs : List Block) : Option Block → Storage → Type 0 where
    no_block : (s : Storage) → bs ≡ [] → IsStorageOf [] s → Popped bs none s
    last_block :
        (front : List Block) (b : Block) (s : Storage)
        → bs ≡ front ++ (b ∷ [])
        → IsStorageOf front s
        → Popped bs (some b) s

  popped_lem :
      (bs : List Block) (s s' : Storage) (tree : numbers.Tree) (e : Option (ℕ × Bytes))
      (o : Option Block)
      → IsStorageOf bs s
      → numbers.pop_max s.blocks ≡ some (e, tree)
      → popped_block before numbers names codec e (record s { blocks = tree }) ≡ ok (o, s')
      → Popped bs o s'
  popped_lem bs s s' tree none o c p h =
      let (was, is) = numbers.empty-pop_max s.blocks tree p in
      let same : s'.blocks ≡ tree = ground (arith, h) in
      let e : bs ≡ [] = Holds-nil codec 0 bs (subst (λ l. Holds codec 0 l bs) was c.holds) in
      subst (λ b. Popped bs b s') (ground (arith, h))
        (no_block s' e (record {
          holds = subst (λ l. Holds codec 0 l []) (sym (ap numbers.items same ∙ is)) (nothing 0);
          chain = tt;
        }))
  popped_lem bs s s' tree (some (k, v)) o c p h =
      let (front, b, e, d, rest) =
        Holds-last codec 0 k v (numbers.items tree) bs (
          subst (λ l. Holds codec 0 l bs) (numbers.items-pop_max (k, v) s.blocks tree p) c.holds) in
      let (b', f, g) = >>=-eq-ok (or_error encoding (codec.decode_block v)) _ h in
      let (u, f', g') =
        >>=-eq-ok
          (pop_values before numbers names codec b'.body.transactions (record s { blocks = tree }))
          _ g in
      let same : s'.blocks ≡ tree =
        ground arith
        ∙ pop_values-blocks before numbers names codec b'.body.transactions
            (record s { blocks = tree }) u f' in
      let returned : some b ≡ o = ground (arith, d, f, g') in
      subst (λ m. Popped bs m s') returned
        (last_block front b s' e (record {
          holds = subst (λ t. Holds codec 0 (numbers.items t) front) (sym same) rest;
          chain = IsChain-front codec 0 front b (subst (λ l. IsChain codec.hash 0 l) e c.chain);
        }))

  -- A block that is popped from the storage was its last, and the storage holds those before it.
  pub pop_block-Popped :
      (bs : List Block) (s s' : Storage) (o : Option Block)
      → IsStorageOf bs s
      → pop_block before numbers names codec s ≡ ok (o, s')
      → Popped bs o s'
  unfolding pop_block
  pop_block-Popped bs s s' o c h =
      let ((e, tree), p, k) = >>=-eq-ok (or_error sled (numbers.pop_max s.blocks)) _ h in
      popped_lem bs s s' tree e o c (written_lem sled (numbers.pop_max s.blocks) (e, tree) p) k
