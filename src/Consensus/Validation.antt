-- ===== src/Consensus/Validation.antt =====
-- How a leader sorts a batch of transactions, and how a follower checks it: `Leader::stateful_validate`
-- and `Follower::stateful_validate` (follower/stateful_validation.rs).
mod Loop
mod Sorting
pub mod Accepted
pub mod Rejection
pub mod Agreement
mod Tests
use prellblock.Prelude.{
  ℕ, zero, suc, ◌+◌, List, [], ◌∷◌, map, Option, none, some, length, ltb, if◌then◌else◌, Outcome,
  ok, err, panicked, ◌>>=◌, ◌>>◌, map_err,
}
use prellblock.Pinxit
use prellblock.Pinxit.{Signed, Verified}
use prellblock.Api.Account.{Time}
use prellblock.Api.Transaction.{Transaction}
use prellblock.WorldState.{WorldState}
use prellblock.TransactionChecker.{verify_permissions_and_apply}
use prellblock.Consensus.Error.{
  Error, permission, invalid_signature, censorship_detected, bad_invalid_transaction_index,
}
use prellblock.Consensus.Message.{InvalidTransaction}
use prellblock.Consensus.Core.{Externals}

-- What the leader has sorted: the valid and the invalid transactions, and its virtual world state.
pub record Sorted : Type 0 where
  pub valid : List (Signed Transaction)
  pub invalid : List InvalidTransaction
  pub world : WorldState

-- one more transaction in front of what comes after it
abbrev pub push_valid : Signed Transaction → Sorted → Sorted
push_valid t s = record s { valid = t ∷ s.valid }

abbrev pub push_invalid : ℕ → Signed Transaction → Sorted → Sorted
push_invalid index t s = record s { invalid = (index, t) ∷ s.invalid }

-- the loop of the leader, from an index on
unfoldable pub sort_from :
    Time → WorldState → ℕ → List (Verified Transaction) → Outcome Error Sorted
sort_from now w index [] = ok (record { valid = []; invalid = []; world = w })
sort_from now w index (t ∷ ts) = elim (verify_permissions_and_apply now w t) [
  | ok w' ↦ (do s ← sort_from now w' (suc index) ts; ok (push_valid t.inner s))
  | err e ↦ (do s ← sort_from now w (suc index) ts; ok (push_invalid index t.inner s))
  | panicked ↦ panicked
]

-- `Leader::stateful_validate`, on the leader's virtual world state
unfoldable pub leader_stateful_validate :
    Externals → Time → WorldState → List (Signed Transaction) → Outcome Error Sorted
leader_stateful_validate x now w transactions = do
  verified ←
      map_err invalid_signature
        (Pinxit.verify_signed_batch x.ed25519 x.encode_transaction transactions)
  sort_from now w 0 verified

-- Where the follower's loop stands: its world state, the number of transactions that it has applied,
-- and those that it has not.
pub record Progress : Type 0 where
  pub world : WorldState
  pub index : ℕ
  pub pending : List (Verified Transaction)

-- `while index < end_index`
unfoldable pub apply_until :
    Time → ℕ → WorldState → ℕ → List (Verified Transaction) → Outcome Error Progress
apply_until now end_index w index [] =
    if ltb index end_index
    then err (bad_invalid_transaction_index index)
    else ok (record { world = w; index = index; pending = [] })
apply_until now end_index w index (t ∷ ts) =
    if ltb index end_index
    then (do
      w' ← map_err permission (verify_permissions_and_apply now w t)
      apply_until now end_index w' (suc index) ts)
    else ok (record { world = w; index = index; pending = t ∷ ts })

-- `assert_eq!(valid_transactions.len(), 0)`
abbrev all_applied : List (Verified Transaction) → Outcome Error (Unit {0})
all_applied [] = ok tt
all_applied (t ∷ ts) = panicked

-- the `loop`, over the transactions that the leader calls invalid
unfoldable pub validate_loop :
    Time → ℕ → Progress → List (ℕ × Verified Transaction) → Outcome Error (Unit {0})
unfolding apply_until
validate_loop now number_of_valid p [] = do
  q ← apply_until now number_of_valid p.world p.index p.pending
  all_applied q.pending
validate_loop now number_of_valid p ((end_index, t) ∷ invalid) = do
  q ← apply_until now end_index p.world p.index p.pending
  elim (verify_permissions_and_apply now q.world t) [
    | ok w' ↦ err (censorship_detected t.inner.body)
    | err e ↦ validate_loop now number_of_valid q invalid
    | panicked ↦ panicked
  ]

-- `zip`
abbrev pub zip_verified :
    List InvalidTransaction → List (Verified Transaction) → List (ℕ × Verified Transaction)
zip_verified ((index, s) ∷ l) (t ∷ ts) = (index, t) ∷ zip_verified l ts
zip_verified l ts = []

-- `Follower::stateful_validate`, on the world state of the follower
unfoldable pub follower_stateful_validate :
    Externals
    → Time
    → WorldState
    → List (Signed Transaction)
    → List InvalidTransaction
    → Outcome Error (Unit {0})
unfolding validate_loop
follower_stateful_validate x now w valid invalid = do
  valid' ←
      map_err invalid_signature (Pinxit.verify_signed_batch x.ed25519 x.encode_transaction valid)
  invalid' ← map_err invalid_signature (
      Pinxit.verify_signed_batch x.ed25519 x.encode_transaction
        (map (λ (p : InvalidTransaction). p.1) invalid))
  validate_loop now (length valid) (record { world = w; index = 0; pending = valid' })
      (zip_verified invalid invalid')
