-- ===== src/Consensus/Validation/Rejection.antt =====
-- A batch that no follower accepts, although its leader has sorted it by the rules.
use prellblock.Prelude.{
  ℕ, suc, ◌≤◌, ◌≡◌, ◌≢◌, List, [], ◌∷◌, ◌++◌, map, length, ok, map_err, >>=-eq-ok, subst, arith,
}
use prellblock.Pinxit.{Signed, verify_signed_batch}
use prellblock.Pinxit.Laws.{wrap, verify_signed_batch-eq-ok}
use prellblock.Api.Account.{Time}
use prellblock.Api.Transaction.{Transaction}
use prellblock.WorldState.{WorldState}
use prellblock.Consensus.Error.{invalid_signature}
use prellblock.Consensus.Message.{InvalidTransaction}
use prellblock.Consensus.Core.{Externals}
use prellblock.Consensus.Validation.{
  Sorted, sort_from, leader_stateful_validate, follower_stateful_validate,
}
use prellblock.Consensus.Validation.Accepted.{
  IndicesWithin, length-wrap, follower_stateful_validate-eq-ok,
}
use prellblock.Consensus.Validation.Sorting.{length-sort_from}

-- the loop from the leader, without the check of the signatures
pub sorted_by :
    (x : Externals) (now : Time) (w : WorldState) (batch : List (Signed Transaction)) (s : Sorted)
    → leader_stateful_validate x now w batch ≡ ok s
    → sort_from now w 0 (map wrap batch) ≡ ok s
unfolding leader_stateful_validate
sorted_by x now w batch s h =
    let (vs, e, r) =
      >>=-eq-ok
        (map_err invalid_signature (verify_signed_batch x.ed25519 x.encode_transaction batch))
        (λ vs. sort_from now w 0 vs) h in
    let k : vs ≡ map wrap batch =
      verify_signed_batch-eq-ok x.ed25519 x.encode_transaction batch vs (ground arith) in
    subst (λ l. sort_from now w 0 l ≡ ok s) k r

last_index :
    (n : ℕ) (front : List InvalidTransaction) (i : ℕ) (t : Signed Transaction)
    → IndicesWithin n (front ++ ((i, t) ∷ []))
    → i ≤ n
last_index n [] i t h = h.0
last_index n (p ∷ front) i t h = last_index n front i t h.1

-- If the leader calls two or more transactions of its batch invalid, and the last one of the batch is
-- among them, then no follower accepts what it proposes, from whatever world state and at whatever
-- time: the index of the last transaction is above the number of the valid ones.
pub leader_batch_rejected :
    (x : Externals) (now : Time) (w : WorldState) (batch : List (Signed Transaction)) (s : Sorted)
    (front : List InvalidTransaction) (i : ℕ) (t : Signed Transaction)
    → leader_stateful_validate x now w batch ≡ ok s
    → s.invalid ≡ front ++ ((i, t) ∷ [])
    → suc i ≡ length batch
    → 2 ≤ length s.invalid
    → (y : Externals) (later : Time) (v : WorldState)
    → follower_stateful_validate y later v s.valid s.invalid ≢ ok tt
leader_batch_rejected x now w batch s front i t h e last two y later v k =
    let (found, within) = follower_stateful_validate-eq-ok y later v s.valid s.invalid k in
    let bound =
      last_index (length s.valid) front i t
        (subst (λ l. IndicesWithin (length s.valid) l) e within) in
    let total = length-sort_from now w 0 (map wrap batch) s (sorted_by x now w batch s h) in
    omega (arith, bound, total, length-wrap batch)
