-- ===== src/TransactionChecker.antt =====
-- prellblock/src/transaction_checker.rs: what accounts may do.
pub mod Authorization
pub mod Reading
mod Tests
use Prim.Native.String.{String}
use text.Mathlib.Text.{◌==◌ as str_eq}
use prellblock.Prelude.{
  ℕ, List, [], ◌∷◌, Option, none, some, Bool, true, false, ◌||◌, ◌&&◌, not, if◌then◌else◌, Outcome,
  ok, err, panicked, ◌>>=◌, ◌>>◌, or_panic, map_err, map,
}
use prellblock.Prelude.Map
use prellblock.Prelude.Sets.{contains}
use prellblock.Pinxit
use prellblock.Pinxit.{PeerId, Signed, Verified, Ed25519, Bytes}
use prellblock.Api.Account.{
  Account, AccountType, normal, block_reader, rpu, admin, ReadingPermission, blacklist, whitelist,
  ReadingRight, Permission, Time, is_expired, is_rpu,
}
use prellblock.Api.Transaction.{
  Transaction, key_value, update_account, create_account, delete_account,
}
use prellblock.WorldState.{WorldState, apply_transaction}

pub data PermissionError : Type 0 where
  write_denied account_not_found not_an_rpu not_an_admin : PeerId → PermissionError
  invalid_signature : Pinxit.Error → PermissionError
  account_expired cannot_read_blocks account_already_exists : PeerId → PermissionError

pub record AccountChecker : Type 0 where
  pub peer_id : PeerId
  pub account : Account

-- `AccountChecker::new`, at the time `now`
unfoldable pub account_checker : Time → WorldState → PeerId → Outcome PermissionError AccountChecker
account_checker now w peer_id = elim (Map.find peer_id w.accounts) [
  | none ↦ err (account_not_found peer_id)
  | some account ↦
      if is_expired now account.expire_at
      then err (account_expired peer_id)
      else ok (record { peer_id = peer_id; account = account })
]

pub reads_any : List ReadingPermission → PeerId → Bool
reads_any [] peer_id = false
reads_any (whitelist rights ∷ rest) peer_id =
    contains rights.accounts peer_id || reads_any rest peer_id
reads_any (blacklist rights ∷ rest) peer_id = reads_any rest peer_id

unfoldable pub is_allowed_to_read_any_key : AccountChecker → PeerId → Bool
unfolding reads_any
is_allowed_to_read_any_key c peer_id = reads_any c.account.reading_rights peer_id

-- `namespace.iter().any(|permission| permission.scope == key)`
has_scope : List Permission → String → Bool
has_scope [] key = false
has_scope (p ∷ rest) key = str_eq p.scope key || has_scope rest key

-- The test under which the loop does not `continue`.
pub covers : ReadingRight → PeerId → String → Bool
unfolding has_scope
covers rights peer_id key = contains rights.accounts peer_id && has_scope rights.namespace key

pub reads_key : List ReadingPermission → PeerId → String → Bool
unfolding covers
reads_key [] peer_id key = false
reads_key (whitelist rights ∷ rest) peer_id key =
    let later = reads_key rest peer_id key in if covers rights peer_id key then true else later
reads_key (blacklist rights ∷ rest) peer_id key =
    let later = reads_key rest peer_id key in if covers rights peer_id key then false else later

unfoldable pub is_allowed_to_read_key : AccountChecker → PeerId → String → Bool
unfolding reads_key
is_allowed_to_read_key c peer_id key = reads_key c.account.reading_rights peer_id key

abbrev pub is_admin : AccountType → Bool
is_admin admin = true
is_admin other = false

unfoldable pub verify_is_admin : AccountChecker → Outcome PermissionError (Unit {0})
verify_is_admin c = if is_admin c.account.account_type then ok tt else err (not_an_admin c.peer_id)

unfoldable pub verify_is_rpu : AccountChecker → Outcome PermissionError (Unit {0})
verify_is_rpu c = if is_rpu c.account.account_type then ok tt else err (not_an_rpu c.peer_id)

abbrev pub can_read_blocks : AccountType → Bool
can_read_blocks normal = false
can_read_blocks other = true

unfoldable pub verify_can_read_blocks : AccountChecker → Outcome PermissionError (Unit {0})
verify_can_read_blocks c =
    if can_read_blocks c.account.account_type then ok tt else err (cannot_read_blocks c.peer_id)

-- An error leaves the virtual world state as it was, so only a success returns one.
unfoldable pub verify_and_apply :
    AccountChecker → WorldState → Transaction → Outcome PermissionError WorldState
verify_and_apply c w (key_value params) =
    if c.account.writing_rights then ok w else err (write_denied c.peer_id)
verify_and_apply c w (update_account params) = do
  verify_is_admin c
  elim (Map.find params.id w.accounts) [
    | none ↦ err (account_not_found params.id)
    | some account ↦ or_panic (apply_transaction w (update_account params))
  ]
verify_and_apply c w (create_account params) = do
  verify_is_admin c
  elim (Map.find params.id w.accounts) [
    | some account ↦ err (account_already_exists params.id)
    | none ↦ or_panic (apply_transaction w (create_account params))
  ]
verify_and_apply c w (delete_account params) = do
  verify_is_admin c
  elim (Map.find params.id w.accounts) [
    | none ↦ err (account_not_found params.id)
    | some account ↦ or_panic (apply_transaction w (delete_account params))
  ]

-- `TransactionCheck::verify_permissions_and_apply`; the world state is that of the `TransactionCheck`.
unfoldable pub verify_permissions_and_apply :
    Time → WorldState → Verified Transaction → Outcome PermissionError WorldState
unfolding verify_and_apply
verify_permissions_and_apply now w transaction = do
  c ← account_checker now w transaction.inner.signer
  verify_and_apply c w transaction.inner.body

-- `TransactionChecker::verify_permissions`, on a copy of the world state
unfoldable pub verify_permissions :
    Time → WorldState → Verified Transaction → Outcome PermissionError (Unit {0})
unfolding verify_permissions_and_apply
verify_permissions now w transaction = do w' ← verify_permissions_and_apply now w transaction; ok tt

unfoldable pub check_all :
    Time → WorldState → List (Verified Transaction) → Outcome PermissionError WorldState
unfolding verify_permissions_and_apply
check_all now w [] = ok w
check_all now w (t ∷ ts) = do w' ← verify_permissions_and_apply now w t; check_all now w' ts

-- `TransactionChecker::verify`; the virtual world state is dropped.
unfoldable pub verify :
    Ed25519
    → (Transaction → Option Bytes)
    → Time
    → WorldState
    → List (Signed Transaction)
    → Outcome PermissionError (Unit {0})
unfolding check_all
verify e signable_data now w batch = do
  transactions ← map_err invalid_signature (Pinxit.verify_signed_batch e signable_data batch)
  w' ← check_all now w transactions
  ok tt
