-- ===== src/BlockStorage/Tests.antt =====
-- Tests of the block storage, on trees that are sorted lists.
use Prim.Native.String.{String}
use prellblock.Prelude.{
  ℕ, ◌+◌, ◌^◌, ◌<◌, ◌≤◌, ◌≡◌, ◌≢◌, refl, sym, subst, ap, ltb, List, [], ◌∷◌, ◌++◌, Bool, false,
  Option, none, some, ok, err, arith,
}
use prellblock.Pinxit.{Bytes, Signed}
use prellblock.Api.Transaction.{Transaction}
use prellblock.Api.Account.{Time}
use prellblock.Api.Block.{Block, Body, SignatureList}
use prellblock.BlockStorage.Sled
use prellblock.BlockStorage.Sled.{insert_sorted, within}
use prellblock.BlockStorage.Times.{
  system_time_to_bytes, system_time_from_bytes, system_time_from_bytes-system_time_to_bytes,
  order-system_time_to_bytes,
}
use prellblock.BlockStorage.{
  block_hash_does_not_match, block_height_does_not_fit, Stored, Codec, BlockStorage, opened, read,
  write_block, write_next, write_transactions, pop_block, pop_values,
}
use prellblock.BlockStorage.Writing.{
  IsStorageOf, opened-IsStorageOf, write_block-IsStorageOf, write_block-refused, Popped,
  pop_block-Popped,
}
use prellblock.Fixtures.{toy_hash, block_at}

pub same_value : {A : Type 0} (a b : A) → some a ≡ some b → a ≡ b
same_value a b h = cc

module _ {K : Type 0} where
  abbrev back_of :
      K × Bytes → Option (K × Bytes) × List (K × Bytes) → Option (K × Bytes) × List (K × Bytes)
  back_of e (none, rest) = (some e, [])
  back_of e (some d, rest) = (some d, e ∷ rest)

  abbrev pop_back : List (K × Bytes) → Option (K × Bytes) × List (K × Bytes)
  pop_back [] = (none, [])
  pop_back (e ∷ l) = back_of e (pop_back l)

  -- what is popped, and what is left
  abbrev IsPopped : List (K × Bytes) → Option (K × Bytes) × List (K × Bytes) → Type 0
  IsPopped l (none, r) = (l ≡ []) × (r ≡ [])
  IsPopped l (some e, r) = l ≡ r ++ (e ∷ [])

  back_of-IsPopped :
      (e : K × Bytes) (l : List (K × Bytes)) (p : Option (K × Bytes) × List (K × Bytes))
      → IsPopped l p
      → IsPopped (e ∷ l) (back_of e p)
  back_of-IsPopped e l (none, r) (h, k) = ap (λ m. e ∷ m) h
  back_of-IsPopped e l (some d, r) h = ap (λ m. e ∷ m) h

  pub pop_back-IsPopped : (l : List (K × Bytes)) → IsPopped l (pop_back l)
  pop_back-IsPopped [] = (refl, refl)
  pop_back-IsPopped (e ∷ l) = back_of-IsPopped e l (pop_back l) (pop_back-IsPopped l)

  abbrev pub sorted_lists : (before : K → K → Bool) → Sled.Sled K before
  sorted_lists before = record {
    Tree = List (K × Bytes);
    empty = [];
    items = λ t. t;
    insert = λ k v t. some (insert_sorted before k v t);
    range = within before;
    pop_max = λ t. some (pop_back t);
    items-empty = refl;
    items-insert = λ k v t t' h. sym (same_value (insert_sorted before k v t) t' h);
    range_lem = λ a b t. refl;
    items-pop_max = λ e t t' h.
        subst (λ p. IsPopped t p) (same_value (pop_back t) (some e, t') h) (pop_back-IsPopped t);
    empty-pop_max = λ t t' h.
        subst (λ p. IsPopped t p) (same_value (pop_back t) (none, t') h) (pop_back-IsPopped t);
  }

-- Toy encodings: only blocks without transactions and signatures have one.
abbrev encode_parts : List (Signed Transaction) → SignatureList → Body → Option Bytes
encode_parts [] [] b = some (b.leader_term ∷ b.height ∷ b.prev_block_hash ∷ b.timestamp ∷ [])
encode_parts ts l b = none

abbrev decode_parts : Bytes → Option Block
decode_parts (term ∷ height ∷ prev ∷ timestamp ∷ []) = some (record {
  body = record {
    leader_term = term;
    height = height;
    prev_block_hash = prev;
    timestamp = timestamp;
    transactions = [];
  };
  signatures = [];
})
decode_parts other = none

pub decoded_lem :
    (ts : List (Signed Transaction)) (l : SignatureList) (b : Block) (bytes : Bytes)
    → b.body.transactions ≡ ts
    → b.signatures ≡ l
    → encode_parts ts l b.body ≡ some bytes
    → decode_parts bytes ≡ some b
decoded_lem [] [] b bytes e f h = ground arith
decoded_lem [] (s ∷ l) b bytes e f h = cc
decoded_lem (t ∷ ts) l b bytes e f h = cc

abbrev encode_stored : Stored → Option Bytes
encode_stored (value, timestamp, signature) = some (timestamp ∷ signature ∷ value)

abbrev decode_stored : Bytes → Option Stored
decode_stored (timestamp ∷ signature ∷ value) = some (value, timestamp, signature)
decode_stored other = none

pub stored_lem :
    (v : Stored) (bytes : Bytes) → encode_stored v ≡ some bytes → decode_stored bytes ≡ some v
stored_lem (value, timestamp, signature) bytes h = ground arith

abbrev pub toy_codec : Codec
toy_codec = record {
  encode_block = λ b. encode_parts b.body.transactions b.signatures b.body;
  decode_block = decode_parts;
  encode_value = encode_stored;
  decode_value = decode_stored;
  hash = toy_hash;
  unix_epoch = 2 ^ 63;
  decode_block-encode_block =
      λ b bytes h. decoded_lem b.body.transactions b.signatures b bytes refl refl h;
  decode_value-encode_value = stored_lem;
}

-- The names are not ordered here.
abbrev pub unordered : String → String → Bool
unordered a b = false

abbrev pub number_trees : Sled.Sled ℕ ltb
number_trees = sorted_lists ltb

abbrev pub name_trees : Sled.Sled String unordered
name_trees = sorted_lists unordered

abbrev pub ToyStorage : Type 0
ToyStorage = BlockStorage unordered number_trees name_trees toy_codec

abbrev pub new_database : ToyStorage
new_database = opened unordered number_trees name_trees toy_codec

abbrev pub clock : ℕ → Time
clock i = 2 ^ 63 + 10 + i

abbrev pub one_block : ToyStorage
one_block = record new_database { blocks = (0, 0 ∷ 0 ∷ 0 ∷ 0 ∷ []) ∷ [] }

first-written :
    write_block unordered number_trees name_trees toy_codec clock (block_at 0 0 []) new_database
    ≡ ok one_block
unfolding write_block read write_next write_transactions
first-written = refl

write_block-IsStorageOf_example :
    (◌≡◌ {A = ℕ} 0 0)
    × (◌≡◌ {A = ℕ} 0 0)
    × IsStorageOf unordered number_trees name_trees toy_codec (block_at 0 0 [] ∷ []) one_block
write_block-IsStorageOf_example =
    write_block-IsStorageOf unordered number_trees name_trees toy_codec clock [] new_database
      one_block (block_at 0 0 []) (opened-IsStorageOf unordered number_trees name_trees toy_codec)
      (omega arith) first-written

one_block-IsStorageOf :
    IsStorageOf unordered number_trees name_trees toy_codec (block_at 0 0 [] ∷ []) one_block
one_block-IsStorageOf =
    (write_block-IsStorageOf unordered number_trees name_trees toy_codec clock [] new_database
      one_block (block_at 0 0 []) (opened-IsStorageOf unordered number_trees name_trees toy_codec)
      (omega arith) first-written).2

first-popped :
    pop_block unordered number_trees name_trees toy_codec one_block
    ≡ ok (some (block_at 0 0 []), new_database)
unfolding pop_block pop_values
first-popped = refl

write_block-refused_example :
    (◌≢◌ {A = ℕ} 7 1
      → write_block unordered number_trees name_trees toy_codec clock (block_at 1 7 []) one_block
        ≡ err block_hash_does_not_match)
    × (◌≡◌ {A = ℕ} 7 1
        → ◌≢◌ {A = ℕ} 1 1
        → write_block unordered number_trees name_trees toy_codec clock (block_at 1 7 []) one_block
          ≡ err block_height_does_not_fit)
write_block-refused_example =
    write_block-refused unordered number_trees name_trees toy_codec clock (block_at 0 0 [] ∷ [])
      one_block (block_at 1 7 []) one_block-IsStorageOf (omega arith)

pop_block-Popped_example :
    Popped unordered number_trees name_trees toy_codec
      (block_at 0 0 [] ∷ [])
      (some (block_at 0 0 []))
      new_database
pop_block-Popped_example =
    pop_block-Popped unordered number_trees name_trees toy_codec (block_at 0 0 [] ∷ []) one_block
      new_database (some (block_at 0 0 [])) one_block-IsStorageOf first-popped

system_time_from_bytes-system_time_to_bytes_example :
    system_time_from_bytes 100 (system_time_to_bytes 100 93) ≡ some 93
system_time_from_bytes-system_time_to_bytes_example =
    system_time_from_bytes-system_time_to_bytes 100 93 (omega arith) (omega arith)

order-system_time_to_bytes_example :
    (100 ≤ 93 → system_time_to_bytes 100 93 < system_time_to_bytes 100 105)
    × (105 < 100 → system_time_to_bytes 100 93 < system_time_to_bytes 100 105)
    × (93 < 100 → 100 ≤ 105 → system_time_to_bytes 100 105 < system_time_to_bytes 100 93)
order-system_time_to_bytes_example =
    order-system_time_to_bytes 100 93 105 (omega arith) (omega arith) (omega arith)
