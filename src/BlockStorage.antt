-- ===== src/BlockStorage.antt =====
-- prellblock/src/block_storage: the blocks on disk, and the values of the accounts in time series.
pub mod Sled
pub mod Times
mod Chain
pub mod Writing
mod Consensus
pub mod Ranges
pub mod Series
pub mod Tests
use Prim.Native.String.{String}
use text.Mathlib.Text.{◌==◌ as str_eq}
use prellblock.Prelude.{
  ℕ, suc, ltb, ◌==◌, ◌≡◌, List, [], ◌∷◌, map, Option, none, some, Bool, true, false, not, ◌&&◌,
  if◌then◌else◌, Outcome, ok, err, panicked, ◌>>=◌, ◌>>◌, add_u64,
}
use prellblock.Pinxit.{PeerId, Signature, Signed, Bytes}
use prellblock.Api.Account.{Time}
use prellblock.Api.Transaction.{
  Transaction, key_value, update_account, create_account, delete_account, KeyValue,
}
use prellblock.Api.Block.{Block, Body, BlockHash, BlockNumber, block_number}
use prellblock.Api.Query.{Bound, unbounded}
use prellblock.BlockStorage.Sled
use prellblock.BlockStorage.Times.{system_time_to_bytes}

pub data Error : Type 0 where
  sled block_hash_does_not_match block_height_does_not_fit encoding : Error

-- What is stored for a value: the value, the time stamp of the client, and the signature.
abbrev pub Stored : Type 0
Stored = Bytes × Time × Signature

-- postcard, which is not part of the repository, the hash of a body, and the start of the UNIX epoch
pub record Codec : Type 0 where
  pub encode_block : Block → Option Bytes
  pub decode_block : Bytes → Option Block
  pub encode_value : Stored → Option Bytes
  pub decode_value : Bytes → Option Stored
  pub hash : Body → BlockHash
  pub unix_epoch : Time
  pub decode_block-encode_block :
      (b : Block) (bytes : Bytes) → encode_block b ≡ some bytes → decode_block bytes ≡ some b
  pub decode_value-encode_value :
      (v : Stored) (bytes : Bytes) → encode_value v ≡ some bytes → decode_value bytes ≡ some v

-- the `?` after a call of sled, or of postcard
abbrev pub or_error : {A : Type 0} → Error → Option A → Outcome Error A
or_error e none = err e
or_error e (some a) = ok a

abbrev pub or_last : {A : Type 0} → A → Option A → Option A
or_last a none = some a
or_last a (some b) = some b

abbrev pub next_back : {A : Type 0} → List A → Option A
next_back [] = none
next_back (a ∷ l) = or_last a (next_back l)

-- `before` is the order of the strings by their bytes.
module _ (before : String → String → Bool) (numbers : Sled.Sled ℕ ltb)
    (names : Sled.Sled String before) (codec : Codec) where
  -- The trees of the database: the blocks by their numbers, the accounts, the names of the series of an
  -- account, and each series by the times. The names of these trees differ, since that of a series
  -- starts with the 32 bytes of the account and a zero.
  pub record BlockStorage : Type 0 where
    pub blocks : numbers.Tree
    pub accounts : numbers.Tree
    pub keys : PeerId → names.Tree
    pub series : PeerId → String → numbers.Tree

  -- an opened tree that is changed
  abbrev pub with_keys : PeerId → names.Tree → BlockStorage → BlockStorage
  with_keys p tree s = record s { keys = λ q. if p == q then tree else s.keys q }

  abbrev pub with_series : PeerId → String → numbers.Tree → BlockStorage → BlockStorage
  with_series p key tree s = record s {
    series = λ q k. if p == q && str_eq key k then tree else s.series q k;
  }

  abbrev read_item : ℕ × Bytes → Outcome Error Block
  read_item (key, value) = or_error encoding (codec.decode_block value)

  -- `BlockStorage::read`
  unfoldable pub read :
      Bound BlockNumber → Bound BlockNumber → BlockStorage → List (Outcome Error Block)
  read start end s = map read_item (numbers.range start end s.blocks)

  -- what the next block has to name
  abbrev pub next_of : Option (Outcome Error Block) → Outcome Error (BlockHash × BlockNumber)
  next_of none = ok (0, 0)
  next_of (some last) = do
    last_block ← last
    ok (codec.hash last_block.body, add_u64 last_block.body.height 1)

  -- The value is written under the time of the clock, not under that of the client.
  unfoldable pub write_value :
      Time → PeerId → KeyValue → Signature → BlockStorage → Outcome Error BlockStorage
  write_value write_time peer_id params signature s = do
    accounts ← or_error sled (numbers.insert peer_id [] s.accounts)
    named ← or_error sled (names.insert params.key [] (s.keys peer_id))
    data' ← or_error encoding (codec.encode_value (params.value, params.timestamp, signature))
    tree ← or_error sled (
        numbers.insert (system_time_to_bytes codec.unix_epoch write_time) data'
          (s.series peer_id params.key))
    ok (
        with_series peer_id params.key tree
          (with_keys peer_id named (record s { accounts = accounts })))

  -- the `match` for one transaction of the loop
  unfoldable pub write_transaction :
      Time → PeerId → Signature → Transaction → BlockStorage → Outcome Error BlockStorage
  unfolding write_value
  write_transaction write_time signer signature (key_value params) s =
      write_value write_time signer params signature s
  write_transaction write_time signer signature (update_account params) s = ok s
  write_transaction write_time signer signature (create_account params) s = ok s
  write_transaction write_time signer signature (delete_account params) s = ok s

  -- The clock gives the time at which each value is written.
  unfoldable pub write_transactions :
      (ℕ → Time) → ℕ → List (Signed Transaction) → BlockStorage → Outcome Error BlockStorage
  unfolding write_transaction
  write_transactions clock index [] s = ok s
  write_transactions clock index (t ∷ ts) s = do
    s' ← write_transaction (clock index) t.signer t.signature t.body s
    write_transactions clock (suc index) ts s'

  -- the two checks
  abbrev pub verify_next : BlockHash × BlockNumber → Block → Outcome Error (Unit {0})
  verify_next (last_block_hash, number) block = do
    if not (block.body.prev_block_hash == last_block_hash)
        then err block_hash_does_not_match
        else ok tt
    if not (block.body.height == number) then err block_height_does_not_fit else ok tt

  -- the part after the last block has been read; an error after the insertion leaves the block in its
  -- tree, and every caller panics at it
  unfoldable pub write_next :
      (ℕ → Time) → Block → BlockStorage → BlockHash × BlockNumber → Outcome Error BlockStorage
  unfolding write_transactions
  write_next clock block s expected = do
    verify_next expected block
    value ← or_error encoding (codec.encode_block block)
    tree ← or_error sled (numbers.insert (block_number block) value s.blocks)
    write_transactions clock 0 block.body.transactions (record s { blocks = tree })

  unfoldable pub write_block : (ℕ → Time) → Block → BlockStorage → Outcome Error BlockStorage
  unfolding read write_next
  write_block clock block s = do
    expected ← next_of (next_back (read unbounded unbounded s))
    write_next clock block s expected

  -- the trees of a new database
  abbrev pub opened : BlockStorage
  opened = record {
    blocks = numbers.empty;
    accounts = numbers.empty;
    keys = λ p. names.empty;
    series = λ p k. numbers.empty;
  }

  pub record GenesisTransactions : Type 0 where
    pub timestamp : Time
    pub transactions : List (Signed Transaction)

  abbrev pub genesis_block : GenesisTransactions → Block
  genesis_block genesis = record {
    body = record {
      leader_term = 0;
      height = 0;
      prev_block_hash = 0;
      timestamp = genesis.timestamp;
      transactions = genesis.transactions;
    };
    signatures = [];
  }

  abbrev pub is_empty : List (ℕ × Bytes) → Bool
  is_empty [] = true
  is_empty (e ∷ l) = false

  -- `BlockStorage::new`, on what the database holds; no genesis for an empty one is a panic.
  unfoldable pub new :
      (ℕ → Time) → Option GenesisTransactions → BlockStorage → Outcome Error BlockStorage
  unfolding write_block
  new clock genesis s =
      if is_empty (numbers.items s.blocks)
      then elim genesis [ none ↦ panicked | some g ↦ write_block clock (genesis_block g) s ]
      else ok s

  -- the `match`: the last value of the series goes, it is not compared with the transaction
  unfoldable pub pop_value : PeerId → Transaction → BlockStorage → Outcome Error BlockStorage
  pop_value signer (key_value params) s = do
    popped ← or_error sled (numbers.pop_max (s.series signer params.key))
    ok (with_series signer params.key popped.1 s)
  pop_value signer (update_account params) s = ok s
  pop_value signer (create_account params) s = ok s
  pop_value signer (delete_account params) s = ok s

  unfoldable pub pop_values : List (Signed Transaction) → BlockStorage → Outcome Error BlockStorage
  unfolding pop_value
  pop_values [] s = ok s
  pop_values (t ∷ ts) s = do s' ← pop_value t.signer t.body s; pop_values ts s'

  -- the part after `pop_max`
  abbrev pub popped_block :
      Option (ℕ × Bytes) → BlockStorage → Outcome Error (Option Block × BlockStorage)
  popped_block none s = ok (none, s)
  popped_block (some (key, value)) s = do
    block ← or_error encoding (codec.decode_block value)
    s' ← pop_values block.body.transactions s
    ok (some block, s')

  unfoldable pub pop_block : BlockStorage → Outcome Error (Option Block × BlockStorage)
  unfolding pop_values
  pop_block s = do
    popped ← or_error sled (numbers.pop_max s.blocks)
    popped_block popped.0 (record s { blocks = popped.1 })
