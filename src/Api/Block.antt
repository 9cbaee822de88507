-- ===== src/Api/Block.antt =====
-- prellblock-client-api/src/consensus: blocks, their numbers and the lists of signatures.
pub mod Unique
mod Tests
use prellblock.Prelude.{ℕ, List, [], ◌∷◌, Bool, true, false, if◌then◌else◌}
use prellblock.Prelude.Sets.{contains}
use prellblock.Pinxit.{PeerId, Signature, Signed}
use prellblock.Api.Account.{Time}
use prellblock.Api.Transaction.{Transaction}

-- Both are a `u64`.
abbrev pub BlockNumber : Type 0
BlockNumber = ℕ

abbrev pub LeaderTerm : Type 0
LeaderTerm = ℕ

-- The 64 bytes of the hash, as the number that they spell.
abbrev pub BlockHash : Type 0
BlockHash = ℕ

abbrev pub SignatureList : Type 0
SignatureList = List (PeerId × Signature)

pub record Body : Type 0 where
  pub leader_term : LeaderTerm
  pub height : BlockNumber
  pub prev_block_hash : BlockHash
  pub timestamp : Time
  pub transactions : List (Signed Transaction)

pub record Block : Type 0 where
  pub body : Body
  pub signatures : SignatureList

abbrev pub block_number : Block → BlockNumber
block_number b = b.body.height

-- the peers of a signature list
abbrev pub signers : SignatureList → List PeerId
signers [] = []
signers ((peer_id, signature) ∷ l) = peer_id ∷ signers l

-- `all(|(peer_id, _)| set.insert(peer_id))` from the peers that are in the set already
pub all_inserted : List PeerId → SignatureList → Bool
all_inserted set [] = true
all_inserted set ((peer_id, signature) ∷ l) =
    let rest = all_inserted (peer_id ∷ set) l in if contains set peer_id then false else rest

unfoldable pub is_unique : SignatureList → Bool
unfolding all_inserted
is_unique l = all_inserted [] l
