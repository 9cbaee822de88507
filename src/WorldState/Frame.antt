-- ===== src/WorldState/Frame.antt =====
-- What a transaction leaves alone.
use prellblock.Prelude.{◌≡◌, refl, Bool, false, Option, none, some, ◌==◌, if◌then◌else◌, arith}
use prellblock.Prelude.Map
use prellblock.Prelude.Map.{find-insert, find-remove}
use prellblock.Pinxit.{PeerId}
use prellblock.Api.Account.{Account}
use prellblock.Api.Transaction.{
  Transaction, KeyValue, key_value, update_account, create_account, delete_account,
}
use prellblock.Api.Block.{BlockNumber, BlockHash}
use prellblock.WorldState.{WorldState, apply_transaction, apply_update, apply_create, apply_delete}
use prellblock.WorldState.Inversion.{
  apply_update_inversion, apply_create_inversion, apply_delete_inversion, updated, created,
}

-- the account that a transaction changes
abbrev pub target : Transaction → Option PeerId
target (key_value params) = none
target (update_account params) = some params.id
target (create_account params) = some params.id
target (delete_account params) = some params.id

-- what the target becomes, from what it was
abbrev pub target_after : Transaction → Option Account → Option Account
target_after (key_value params) old = old
target_after (update_account params) none = none
target_after (update_account params) (some a) = some (updated a params)
target_after (create_account params) old = some (created params)
target_after (delete_account params) old = none

abbrev pub is_target : Option PeerId → PeerId → Bool
is_target none j = false
is_target (some id) j = id == j

-- The accounts after a transaction: its target is what the transaction makes of it, every other
-- account is as before, and the number and hash of the last block are too.
pub find-apply_transaction :
    (w w' : WorldState) (t : Transaction) (j : PeerId)
    → apply_transaction w t ≡ some w'
    → (Map.find j w'.accounts ≡ (
        if is_target (target t) j
        then target_after t (Map.find j w.accounts)
        else Map.find j w.accounts))
      × (w'.block_number ≡ w.block_number)
      × (w'.last_block_hash ≡ w.last_block_hash)
unfolding apply_transaction
find-apply_transaction w w' (key_value params) j h = (ground arith, ground arith, ground arith)
find-apply_transaction w w' (update_account params) j h =
    let (a, ps, e, u, k) = apply_update_inversion w w' params h in
    (
      ground (arith, find-insert params.id j (updated a params) w.accounts),
      ground arith,
      ground arith,
    )
find-apply_transaction w w' (create_account params) j h =
    let (ps, e, u, k) = apply_create_inversion w w' params h in
    (
      ground (arith, find-insert params.id j (created params) w.accounts),
      ground arith,
      ground arith,
    )
find-apply_transaction w w' (delete_account params) j h =
    let (a, ps, e, u, k) = apply_delete_inversion w w' params h in
    (ground (arith, find-remove params.id j w.accounts), ground arith, ground arith)

pub apply_transaction-key_value :
    (w : WorldState) (params : KeyValue) → apply_transaction w (key_value params) ≡ some w
unfolding apply_transaction
apply_transaction-key_value w params = refl

-- the fields that `apply_block` sets before it applies the transactions
abbrev pub stamped : BlockNumber → BlockHash → WorldState → WorldState
stamped number h w = record w { last_block_hash = h; block_number = number }

-- What a transaction does does not depend on them.
pub apply_transaction-stamped :
    (number : BlockNumber) (h : BlockHash) (w w' : WorldState) (t : Transaction)
    → apply_transaction w t ≡ some w'
    → apply_transaction (stamped number h w) t ≡ some (stamped number h w')
unfolding apply_transaction apply_update apply_create apply_delete
apply_transaction-stamped number h w w' (key_value params) e = ground arith
apply_transaction-stamped number h w w' (update_account params) e =
    let (a, ps, f, u, k) = apply_update_inversion w w' params e in ground (arith, f, u, k)
apply_transaction-stamped number h w w' (create_account params) e =
    let (ps, f, u, k) = apply_create_inversion w w' params e in ground (arith, f, u, k)
apply_transaction-stamped number h w w' (delete_account params) e =
    let (a, ps, f, u, k) = apply_delete_inversion w w' params e in ground (arith, f, u, k)
