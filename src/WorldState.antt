-- ===== src/WorldState.antt =====
-- prellblock/src/world_state.rs: the accounts and peers that the blocks build up.
mod Inversion
mod Peers
pub mod Consistency
pub mod Panics
pub mod Frame
pub mod Service
mod Tests
use prellblock.Prelude.{
  ℕ, List, [], ◌∷◌, ◌++◌, map, Option, none, some, Bool, true, false, ◌==◌, if◌then◌else◌, add_u64,
  Outcome, ok, err, panicked, ◌>>=◌, or_panic,
}
use prellblock.Prelude.Map
use prellblock.Prelude.Map.{Map}
use prellblock.Prelude.Sets.{contains}
use prellblock.Pinxit.{PeerId, Signed}
use prellblock.Api.Account
use prellblock.Api.Account.{
  AccountType, normal, block_reader, rpu, admin, SocketAddr, Account, Permissions,
  apply_permissions,
}
use prellblock.Api.Transaction.{
  Transaction, key_value, update_account, create_account, delete_account, UpdateAccount,
  CreateAccount, DeleteAccount,
}
use prellblock.Api.Block.{Block, Body, BlockNumber, BlockHash}

abbrev pub Peers : Type 0
Peers = List (PeerId × SocketAddr)

pub record WorldState : Type 0 where
  pub accounts : Map Account
  pub peers : Peers
  pub block_number : BlockNumber
  pub last_block_hash : BlockHash

abbrev pub default_world_state : WorldState
default_world_state = record { accounts = []; peers = []; block_number = 0; last_block_hash = 0 }

abbrev pub peer_ids : Peers → List PeerId
peer_ids [] = []
peer_ids ((id, address) ∷ peers) = id ∷ peer_ids peers

-- `iter().any(|(id, _)| *id == id)`
abbrev pub has_peer : PeerId → Peers → Bool
has_peer id peers = contains (peer_ids peers) id

-- `position` and `remove` of the first entry; `none` if there is none
pub remove_peer : PeerId → Peers → Option Peers
remove_peer id [] = none
remove_peer id ((other, address) ∷ peers) =
    let later = remove_peer id peers in
    if other == id
    then some peers
    else elim later [ none ↦ none | some rest ↦ some ((other, address) ∷ rest) ]

-- `none` is `unreachable!`.
pub add_peer : PeerId → SocketAddr → Peers → Option Peers
add_peer id address peers = if has_peer id peers then none else some (peers ++ ((id, address) ∷ []))

-- What becomes of the peers when an account of the first type gets the second, if any.
pub update_peers : PeerId → AccountType → Option AccountType → Peers → Option Peers
unfolding remove_peer add_peer
update_peers id (rpu t p) none peers = some peers
update_peers id (rpu t p) (some (rpu turi_address peer_address)) peers = some peers
update_peers id (rpu t p) (some other) peers = remove_peer id peers
update_peers id old (some (rpu turi_address peer_address)) peers = add_peer id peer_address peers
update_peers id old new peers = some peers

pub apply_update : WorldState → UpdateAccount → Option WorldState
unfolding update_peers
apply_update w params = elim (Map.find params.id w.accounts) [
  | none ↦ none
  | some account ↦
      elim (update_peers params.id account.account_type params.permissions.account_type w.peers) [
        | none ↦ none
        | some peers ↦ some (record w {
          accounts = Map.insert params.id (apply_permissions account params.permissions) w.accounts;
          peers = peers;
        })
      ]
]

pub create_peers : PeerId → AccountType → Peers → Option Peers
unfolding add_peer
create_peers id (rpu turi_address peer_address) peers = add_peer id peer_address peers
create_peers id other peers = some peers

pub apply_create : WorldState → CreateAccount → Option WorldState
unfolding create_peers
apply_create w params =
    let account = apply_permissions (Account.new params.name) params.permissions in
    elim (Map.find params.id w.accounts) [
      | some old ↦ none
      | none ↦ elim (create_peers params.id account.account_type w.peers) [
        | none ↦ none
        | some peers ↦
            some (record w { accounts = Map.insert params.id account w.accounts; peers = peers })
      ]
    ]

pub apply_delete : WorldState → DeleteAccount → Option WorldState
unfolding remove_peer
apply_delete w params = elim (Map.find params.id w.accounts) [
  | none ↦ none
  | some account ↦ elim (remove_peer params.id w.peers) [
    | none ↦ none
    | some peers ↦ some (record w { accounts = Map.remove params.id w.accounts; peers = peers })
  ]
]

-- `none` is a panic: the code reaches an `unreachable!`.
unfoldable pub apply_transaction : WorldState → Transaction → Option WorldState
unfolding apply_update apply_create apply_delete
apply_transaction w (key_value params) = some w
apply_transaction w (update_account params) = apply_update w params
apply_transaction w (create_account params) = apply_create w params
apply_transaction w (delete_account params) = apply_delete w params

unfoldable pub apply_transactions : WorldState → List (Signed Transaction) → Option WorldState
apply_transactions w [] = some w
apply_transactions w (t ∷ ts) = elim (apply_transaction w t.body) [
  | none ↦ none
  | some w' ↦ apply_transactions w' ts
]

pub data BlockError : Type 0 where
  last_block_hash_differs : BlockError

-- The hash of a body comes from postcard and Blake2b, which are not part of the repository.
module _ (hash : Body → BlockHash) where
  unfoldable pub apply_block : WorldState → Block → Outcome BlockError WorldState
  apply_block w block =
      if block.body.prev_block_hash == w.last_block_hash
      then or_panic (
          apply_transactions
            (record w {
              last_block_hash = hash block.body;
              block_number = add_u64 block.body.height 1;
            })
            block.body.transactions)
      else err last_block_hash_differs
