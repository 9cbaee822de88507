-- ===== src/Consensus/Leader/Committing.antt =====
-- The transactions that pass the check of a follower can be applied as a block.
use prellblock.Prelude.{◌≡◌, List, [], ◌∷◌, map, some, ok, >>=-eq-ok, add_u64, arith}
use prellblock.Pinxit.{Signed}
use prellblock.Pinxit.Laws.{wrap}
use prellblock.Api.Account.{Time}
use prellblock.Api.Transaction.{Transaction}
use prellblock.Api.Block.{Block, Body, BlockHash, BlockNumber}
use prellblock.WorldState.{WorldState, apply_transactions, apply_block}
use prellblock.WorldState.Frame.{stamped, apply_transaction-stamped}
use prellblock.WorldState.Consistency.{IsConsistent}
use prellblock.TransactionChecker.{verify_permissions_and_apply, check_all}
use prellblock.TransactionChecker.Authorization.{verify_permissions_and_apply-eq-ok}

check_all-apply_transactions :
    (now : Time) (number : BlockNumber) (h : BlockHash) (w w' : WorldState)
    (ts : List (Signed Transaction))
    → IsConsistent w
    → check_all now w (map wrap ts) ≡ ok w'
    → apply_transactions (stamped number h w) ts ≡ some (stamped number h w')
unfolding check_all apply_transactions
check_all-apply_transactions now number h w w' [] c e = ground arith
check_all-apply_transactions now number h w w' (t ∷ ts) c e =
    let (v, k, r) =
      >>=-eq-ok (verify_permissions_and_apply now w (wrap t)) (λ v. check_all now v (map wrap ts))
        e in
    let (a, s, d) = verify_permissions_and_apply-eq-ok now w v (wrap t) c k in
    ground (
      arith,
      apply_transaction-stamped number h w v t.body s,
      check_all-apply_transactions now number h v w' ts d r,
    )

-- A body that names the last hash is applied if its transactions pass the check one after the other.
pub check_all-apply_block :
    (hash : Body → BlockHash) (now : Time) (w w' : WorldState) (b : Block)
    → IsConsistent w
    → b.body.prev_block_hash ≡ w.last_block_hash
    → check_all now w (map wrap b.body.transactions) ≡ ok w'
    → apply_block hash w b ≡ ok (stamped (add_u64 b.body.height 1) (hash b.body) w')
unfolding apply_block
check_all-apply_block hash now w w' b c e k = ground (
  arith,
  e,
  check_all-apply_transactions now (add_u64 b.body.height 1) (hash b.body) w w' b.body.transactions
      c k,
)
