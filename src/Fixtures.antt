-- ===== src/Fixtures.antt =====
-- The data that the tests share: toy signatures, a chain with four RPUs, an administrator and a user.
use prellblock.Prelude.{
  ℕ, ◌+◌, ◌≡◌, refl, Bool, true, false, ◌==◌, ==_refl, List, [], ◌∷◌, Option, none, some, arith,
}
use prellblock.Prelude.Map
use prellblock.Pinxit.{Bytes, PeerId, Signature, Ed25519, Signed}
use prellblock.Pinxit.Laws.{IsSound, verify_each}
use prellblock.Api.Account.{Account, AccountType, normal, rpu, admin, never, Permissions}
use prellblock.Api.Transaction.{
  Transaction, key_value, update_account, create_account, delete_account,
}
use prellblock.Api.Block.{Block, Body, BlockHash}
use prellblock.WorldState.{WorldState}
use prellblock.WorldState.Consistency.{IsConsistent}
use prellblock.Consensus.Message.{
  SignableData, ConsensusResponse, consensus_response, ack_prepare, ack_append,
}
use prellblock.Consensus.Core.{Externals}

abbrev pub total : Bytes → ℕ
total [] = 0
total (b ∷ bs) = b + total bs

-- A signature is the sum of the key and of the bytes.
abbrev single : Ed25519
single = record {
  public_key = λ secret. secret;
  sign = λ secret m p. secret + total m;
  verify = λ p m s. p + total m == s;
  verify_batch = λ ms ss ps. false;
}

abbrev pub toy_signatures : Ed25519
toy_signatures = record single { verify_batch = verify_each single }

same_each :
    (ms : List Bytes) (ss : List Signature) (ps : List PeerId)
    → verify_each single ms ss ps ≡ verify_each toy_signatures ms ss ps
same_each (m ∷ ms) (s ∷ ss) (p ∷ ps) = ground (arith, same_each ms ss ps)
same_each [] [] [] = refl
same_each [] [] (p ∷ ps) = refl
same_each [] (s ∷ ss) ps = refl
same_each (m ∷ ms) [] ps = refl
same_each (m ∷ ms) (s ∷ ss) [] = refl

pub toy_signatures-IsSound : IsSound toy_signatures
toy_signatures-IsSound = record {
  own_signature = λ secret m. ==_refl (secret + total m);
  batch = same_each;
}

abbrev encode_response : ConsensusResponse → Bytes
encode_response (ack_prepare m) = 1 ∷ m.block_hash ∷ []
encode_response (ack_append m) = 2 ∷ m.block_hash ∷ []
encode_response other = []

abbrev pub toy_encode : SignableData → Option Bytes
toy_encode (consensus_response r) = some (encode_response r)
toy_encode other = some []

abbrev pub toy_encode_transaction : Transaction → Option Bytes
toy_encode_transaction (key_value params) = some (1 ∷ params.value)
toy_encode_transaction (update_account params) = some (2 ∷ params.id ∷ [])
toy_encode_transaction (create_account params) = some (3 ∷ params.id ∷ [])
toy_encode_transaction (delete_account params) = some (4 ∷ params.id ∷ [])

-- The hash of a body is the number after its height.
abbrev pub toy_hash : Body → BlockHash
toy_hash body = body.height + 1

abbrev pub toy : Externals
toy = record {
  ed25519 = toy_signatures;
  encode = toy_encode;
  encode_transaction = toy_encode_transaction;
  hash = toy_hash;
}

abbrev pub account_of : AccountType → Bool → Account
account_of t writes = record {
  name = "account";
  account_type = t;
  expire_at = never;
  writing_rights = writes;
  reading_rights = [];
}

abbrev pub no_permissions : Permissions
no_permissions = record {
  account_type = none;
  expire_at = none;
  has_writing_rights = none;
  reading_rights = none;
}

-- The RPUs 1 to 4, the administrator 9 and the user 7, who may write.
abbrev pub four_rpus : WorldState
four_rpus = record {
  accounts =
      (1, account_of (rpu 11 21) false)
      ∷ (2, account_of (rpu 12 22) false)
      ∷ (3, account_of (rpu 13 23) false)
      ∷ (4, account_of (rpu 14 24) false)
      ∷ (9, account_of admin false)
      ∷ (7, account_of normal true)
      ∷ [];
  peers = (1, 21) ∷ (2, 22) ∷ (3, 23) ∷ (4, 24) ∷ [];
  block_number = 0;
  last_block_hash = 0;
}

pub four_rpus-IsConsistent : IsConsistent four_rpus
unfolding Map.find
four_rpus-IsConsistent = record {
  peers_distinct = (refl, (refl, (refl, (refl, tt))));
  peers_are_rpus = λ id. ground arith;
}

-- a signed transaction, with the signature of the signer
abbrev pub signed_by : PeerId → Transaction → Bytes → Signed Transaction
signed_by p t bytes = record { signer = p; body = t; signature = p + total bytes }

abbrev pub write_one : Transaction
write_one = key_value (record { key = "key"; value = 5 ∷ []; timestamp = 0 })

-- by the user, and by an account that does not exist
abbrev pub good : Signed Transaction
good = signed_by 7 write_one (1 ∷ 5 ∷ [])

abbrev pub bad : Signed Transaction
bad = signed_by 8 write_one (1 ∷ 5 ∷ [])

abbrev pub create_rpu : Transaction
create_rpu = create_account (record {
  id = 5;
  name = "fifth";
  permissions = record no_permissions { account_type = some (rpu 15 25) };
  timestamp = 0;
})

abbrev pub delete_user : Transaction
delete_user = delete_account (record { id = 7; timestamp = 0 })

abbrev pub body_at : ℕ → BlockHash → List (Signed Transaction) → Body
body_at height previous transactions = record {
  leader_term = 0;
  height = height;
  prev_block_hash = previous;
  timestamp = 0;
  transactions = transactions;
}

abbrev pub block_at : ℕ → BlockHash → List (Signed Transaction) → Block
block_at height previous transactions = record {
  body = body_at height previous transactions;
  signatures = [];
}
