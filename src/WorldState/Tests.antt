-- ===== src/WorldState/Tests.antt =====
-- Tests of the world state and of its service.
use prellblock.Prelude.{◌≡◌, ◌↔◌, refl, true, false, [], ◌∷◌, ◌++◌, none, some, ok, if◌then◌else◌}
use prellblock.Prelude.Map
use prellblock.Api.Account
use prellblock.Api.Account.{Account, normal, rpu, apply_permissions}
use prellblock.Api.Block.{Block}
use prellblock.WorldState.{
  WorldState, default_world_state, apply_transaction, apply_transactions, apply_block,
}
use prellblock.WorldState.Consistency.{
  IsConsistent, apply_transaction-IsConsistent, default-IsConsistent,
}
use prellblock.WorldState.Panics.{is_unreachable, apply_transaction-eq-none}
use prellblock.WorldState.Frame.{target, target_after, is_target, find-apply_transaction}
use prellblock.WorldState.Service.{
  apply_blocks, from_block_storage, rollback, IsChain, last_hash, apply_blocks-IsChain,
  rollback-from_block_storage,
}
use prellblock.Fixtures.{
  toy_hash, four_rpus, four_rpus-IsConsistent, account_of, create_rpu, delete_user, signed_by,
  block_at,
}

-- after the creation of the fifth RPU
abbrev five_rpus : WorldState
five_rpus = record four_rpus {
  accounts = (5, record (account_of (rpu 15 25) false) { name = "fifth" }) ∷ four_rpus.accounts;
  peers = four_rpus.peers ++ ((5, 25) ∷ []);
}

fifth-applied : apply_transaction four_rpus create_rpu ≡ some five_rpus
unfolding apply_transaction Map.find Map.insert Map.remove apply_permissions Account.new
fifth-applied = refl

apply_transaction-IsConsistent_example : IsConsistent five_rpus
apply_transaction-IsConsistent_example =
    apply_transaction-IsConsistent four_rpus five_rpus create_rpu four_rpus-IsConsistent
      fifth-applied

apply_transaction-eq-none_test :
    (apply_transaction four_rpus delete_user ≡ none) ↔ (is_unreachable four_rpus delete_user ≡ true)
apply_transaction-eq-none_test =
    apply_transaction-eq-none four_rpus delete_user four_rpus-IsConsistent

find-apply_transaction_test :
    (Map.find 5 five_rpus.accounts ≡ (
      if is_target (target create_rpu) 5
      then target_after create_rpu (Map.find 5 four_rpus.accounts)
      else Map.find 5 four_rpus.accounts))
    × (five_rpus.block_number ≡ 0)
    × (five_rpus.last_block_hash ≡ 0)
find-apply_transaction_test = find-apply_transaction four_rpus five_rpus create_rpu 5 fifth-applied

abbrev first_block : Block
first_block = block_at 0 0 (signed_by 9 create_rpu [] ∷ [])

abbrev second_block : Block
second_block = block_at 1 1 []

abbrev after_first : WorldState
after_first = record default_world_state {
  accounts = (5, record (account_of (rpu 15 25) false) { name = "fifth" }) ∷ [];
  peers = (5, 25) ∷ [];
  block_number = 1;
  last_block_hash = 1;
}

abbrev after_second : WorldState
after_second = record after_first { block_number = 2; last_block_hash = 2 }

first_block-applied : apply_block toy_hash default_world_state first_block ≡ ok after_first
unfolding apply_block apply_transactions apply_transaction Map.find Map.insert Map.remove
    apply_permissions Account.new
first_block-applied = refl

both_blocks-applied :
    apply_blocks toy_hash default_world_state (first_block ∷ second_block ∷ []) ≡ ok after_second
unfolding apply_blocks apply_block apply_transactions apply_transaction Map.find Map.insert
    Map.remove apply_permissions Account.new
both_blocks-applied = refl

started :
    from_block_storage toy_hash (first_block ∷ second_block ∷ [])
    ≡ ok (record { current = after_second; prev = some after_first })
unfolding from_block_storage apply_blocks apply_block apply_transactions apply_transaction Map.find
    Map.insert Map.remove apply_permissions Account.new
started = refl

apply_blocks-IsChain_example :
    IsChain toy_hash 0 (first_block ∷ second_block ∷ [])
    × (after_second.last_block_hash ≡ last_hash toy_hash 0 (first_block ∷ second_block ∷ []))
    × IsConsistent after_second
apply_blocks-IsChain_example =
    apply_blocks-IsChain toy_hash default_world_state after_second (first_block ∷ second_block ∷ [])
      default-IsConsistent both_blocks-applied

rollback-from_block_storage_test :
    (apply_blocks toy_hash default_world_state (first_block ∷ second_block ∷ []) ≡ ok after_second)
    × ((rollback (record { current = after_second; prev = some after_first })).0
        ≡ some after_second)
    × (apply_blocks toy_hash default_world_state (first_block ∷ [])
        ≡ ok (rollback (record { current = after_second; prev = some after_first })).1.current)
    × ((rollback (rollback (record { current = after_second; prev = some after_first })).1).0
        ≡ none)
rollback-from_block_storage_test =
    rollback-from_block_storage toy_hash (first_block ∷ []) second_block
      (record { current = after_second; prev = some after_first }) started
