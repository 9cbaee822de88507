-- ===== src/BlockStorage/Chain.antt =====
-- The block tree as a list of numbered blocks.
use Prim.Native.String.{String}
use prellblock.Prelude.{
  ℕ, suc, ◌+◌, ◌<◌, ◌^◌, ◌≡◌, Bool, refl, sym, ◌∙◌, ap, subst, ltb, List, [], ◌∷◌, ◌++◌, map,
  length, Option, none, some, ok, >>=-eq-ok, arith,
}
use prellblock.Pinxit.{PeerId, Signature, Signed, Bytes}
use prellblock.Api.Account.{Time}
use prellblock.Api.Transaction.{
  Transaction, key_value, update_account, create_account, delete_account,
}
use prellblock.Api.Block.{Block, BlockHash}
use prellblock.Api.Query.{unbounded}
use prellblock.WorldState.Service.{last_hash}
use prellblock.BlockStorage.Sled
use prellblock.BlockStorage.Times.{system_time_to_bytes}
use prellblock.BlockStorage.Sled.{insert_sorted, within}
use prellblock.BlockStorage.{
  Codec, next_back, or_last, next_of, BlockStorage, read, read_item, write_value, write_transaction,
  write_transactions, pop_value, pop_values, or_error, encoding, sled,
}

-- The entries are the blocks, each under its number, from a number on.
pub data Holds (codec : Codec) : ℕ → List (ℕ × Bytes) → List Block → Type 0 where
  nothing : (i : ℕ) → Holds codec i [] []
  block :
      (i : ℕ) (v : Bytes) (b : Block) (l : List (ℕ × Bytes)) (bs : List Block)
      → codec.decode_block v ≡ some b
      → b.body.height ≡ i
      → Holds codec (suc i) l bs
      → Holds codec i ((i, v) ∷ l) (b ∷ bs)

module _ (codec : Codec) where
  -- A block under the number after all others stands behind them.
  pub Holds-insert_sorted :
      (i k : ℕ) (v : Bytes) (b : Block) (l : List (ℕ × Bytes)) (bs : List Block)
      → Holds codec i l bs
      → k ≡ i + length bs
      → codec.decode_block v ≡ some b
      → b.body.height ≡ k
      → Holds codec i (insert_sorted ltb k v l) (bs ++ (b ∷ []))
  Holds-insert_sorted i k v b _ _ (nothing _) e d n =
      let same : i ≡ k = omega (arith, e) in
      subst (λ j. Holds codec i ((j, v) ∷ []) (b ∷ [])) same
        (block i v b [] [] d (n ∙ sym same) (nothing (suc i)))
  Holds-insert_sorted i k v b _ _ (block _ u c l bs f g h) e d n =
      let step : insert_sorted ltb k v ((i, u) ∷ l) ≡ (i, u) ∷ insert_sorted ltb k v l =
        ground (arith, e) in
      subst (λ m. Holds codec i m (c ∷ (bs ++ (b ∷ [])))) (sym step)
        (block i u c (insert_sorted ltb k v l) (bs ++ (b ∷ [])) f g
          (Holds-insert_sorted (suc i) k v b l bs h (omega (arith, e)) d n))

  -- The last entry is the last block.
  pub Holds-last :
      (i k : ℕ) (v : Bytes) (l : List (ℕ × Bytes)) (bs : List Block)
      → Holds codec i (l ++ ((k, v) ∷ [])) bs
      → (front : List Block) × (b : Block) × (bs ≡ front ++ (b ∷ []))
        × (codec.decode_block v ≡ some b)
        × Holds codec i l front
  Holds-last i k v [] _ (block _ _ b _ _ f g (nothing _)) = ([], b, refl, f, nothing i)
  Holds-last i k v ((j, u) ∷ l) _ (block _ _ c _ bs f g h) =
      let (front, b, e, d, rest) = Holds-last (suc i) k v l bs h in
      (c ∷ front, b, ap (λ m. c ∷ m) e, d, block i u c l front f g rest)

  pub Holds-nil : (i : ℕ) (bs : List Block) → Holds codec i [] bs → bs ≡ []
  Holds-nil i _ (nothing _) = refl

next_back-cons : {A : Type 0} (a b : A) (l : List A) → next_back (a ∷ b ∷ l) ≡ next_back (b ∷ l)
next_back-cons a b l = go (next_back l)
  where
    go : (o : Option _) → or_last a (or_last b o) ≡ or_last b o
    go none = refl
    go (some c) = refl

module _ (before : String → String → Bool) (numbers : Sled.Sled ℕ ltb)
    (names : Sled.Sled String before) (codec : Codec) where
  read_items :
      (i : ℕ) (l : List (ℕ × Bytes)) (bs : List Block)
      → Holds codec i l bs
      → map (read_item before numbers names codec) (within ltb unbounded unbounded l)
        ≡ map (λ b. ok b) bs
  read_items i _ _ (nothing _) = refl
  read_items i _ _ (block _ u c l bs f g h) = ground (arith, f, read_items (suc i) l bs h)

  -- `read(..)` gives the blocks in the order of their numbers.
  pub read-Holds :
      (s : BlockStorage before numbers names codec) (bs : List Block)
      → Holds codec 0 (numbers.items s.blocks) bs
      → read before numbers names codec unbounded unbounded s ≡ map (λ b. ok b) bs
  unfolding read
  read-Holds s bs h =
      ap (λ l. map (read_item before numbers names codec) l)
        (numbers.range_lem unbounded unbounded s.blocks)
      ∙ read_items 0 (numbers.items s.blocks) bs h

  next_lem :
      (i : ℕ) (p : BlockHash) (b : Block) (l : List (ℕ × Bytes)) (bs : List Block)
      → Holds codec i l (b ∷ bs)
      → i + suc (length bs) < 2 ^ 64
      → next_of before numbers names codec (next_back (map (λ c. ok c) (b ∷ bs)))
        ≡ ok (last_hash codec.hash p (b ∷ bs), i + suc (length bs))
  next_lem i p b _ [] (block _ u _ l _ f g h) m = ground (arith, g)
  next_lem i p b _ (c ∷ bs) (block _ u _ l _ f g h) m =
      ap (next_of before numbers names codec) (next_back-cons (ok b) (ok c) (map (λ c. ok c) bs))
      ∙ next_lem (suc i) (codec.hash b.body) c l bs h (omega arith)
      ∙ ap (λ n. ok (last_hash codec.hash p (b ∷ c ∷ bs), n)) (omega arith)

  -- The next block names the last hash and the number of blocks, as long as a `u64` holds that.
  pub next_of-Holds :
      (l : List (ℕ × Bytes)) (bs : List Block)
      → Holds codec 0 l bs
      → length bs < 2 ^ 64
      → next_of before numbers names codec (next_back (map (λ c. ok c) bs))
        ≡ ok (last_hash codec.hash 0 bs, length bs)
  next_of-Holds l [] h m = refl
  next_of-Holds l (b ∷ bs) h m =
      next_lem 0 0 b l bs h (omega (arith, m))
      ∙ ap (λ n. ok (last_hash codec.hash 0 (b ∷ bs), n)) (omega arith)

  -- The values are not in the block tree.
  write_transaction-blocks :
      (now : Time) (p : PeerId) (signature : Signature) (t : Transaction)
      (s s' : BlockStorage before numbers names codec)
      → write_transaction before numbers names codec now p signature t s ≡ ok s'
      → s'.blocks ≡ s.blocks
  unfolding write_transaction write_value
  write_transaction-blocks now p signature (key_value params) s s' h =
      let (accounts, e, k) = >>=-eq-ok (or_error sled (numbers.insert p [] s.accounts)) _ h in
      let (named, e', k') = >>=-eq-ok (or_error sled (names.insert params.key [] (s.keys p))) _ k in
      let (data', e'', k'') =
        >>=-eq-ok
          (or_error encoding (codec.encode_value (params.value, params.timestamp, signature))) _
          k' in
      let (tree, e''', k''') =
        >>=-eq-ok
          (or_error sled (
            numbers.insert (system_time_to_bytes codec.unix_epoch now) data'
              (s.series p params.key)))
          _ k'' in
      ground arith
  write_transaction-blocks now p signature (update_account params) s s' h = ground arith
  write_transaction-blocks now p signature (create_account params) s s' h = ground arith
  write_transaction-blocks now p signature (delete_account params) s s' h = ground arith

  pub write_transactions-blocks :
      (clock : ℕ → Time) (i : ℕ) (ts : List (Signed Transaction))
      (s s' : BlockStorage before numbers names codec)
      → write_transactions before numbers names codec clock i ts s ≡ ok s'
      → s'.blocks ≡ s.blocks
  unfolding write_transactions
  write_transactions-blocks clock i [] s s' h = ground arith
  write_transactions-blocks clock i (t ∷ ts) s s' h =
      let (u, e, k) =
        >>=-eq-ok
          (write_transaction before numbers names codec (clock i) t.signer t.signature t.body s)
          (λ u. write_transactions before numbers names codec clock (suc i) ts u) h in
      write_transactions-blocks clock (suc i) ts u s' k
      ∙ write_transaction-blocks (clock i) t.signer t.signature t.body s u e

  pop_value-blocks :
      (p : PeerId) (t : Transaction) (s s' : BlockStorage before numbers names codec)
      → pop_value before numbers names codec p t s ≡ ok s'
      → s'.blocks ≡ s.blocks
  unfolding pop_value
  pop_value-blocks p (key_value params) s s' h =
      let (popped, e, k) =
        >>=-eq-ok (or_error sled (numbers.pop_max (s.series p params.key))) _ h in
      ground arith
  pop_value-blocks p (update_account params) s s' h = ground arith
  pop_value-blocks p (create_account params) s s' h = ground arith
  pop_value-blocks p (delete_account params) s s' h = ground arith

  pub pop_values-blocks :
      (ts : List (Signed Transaction)) (s s' : BlockStorage before numbers names codec)
      → pop_values before numbers names codec ts s ≡ ok s'
      → s'.blocks ≡ s.blocks
  unfolding pop_values
  pop_values-blocks [] s s' h = ground arith
  pop_values-blocks (t ∷ ts) s s' h =
      let (u, e, k) =
        >>=-eq-ok (pop_value before numbers names codec t.signer t.body s)
          (λ u. pop_values before numbers names codec ts u) h in
      pop_values-blocks ts u s' k ∙ pop_value-blocks t.signer t.body s u e
