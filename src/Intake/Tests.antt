-- ===== src/Intake/Tests.antt =====
-- Tests of the batches, with one transaction of the user.
use prellblock.Prelude.{ℕ, ◌≡◌, refl, ap, List, [], ◌∷◌, ◌++◌, map, Option, some, false, ok, err}
use prellblock.Prelude.Map
use prellblock.Pinxit
use prellblock.Pinxit.{Signed}
use prellblock.Pinxit.Laws.{wrap}
use prellblock.Api.Account.{is_expired}
use prellblock.Api.Transaction.{Transaction}
use prellblock.Queue.{Queue, empty, extend}
use prellblock.TransactionChecker.{
  account_checker, verify_and_apply, verify_permissions, verify_permissions_and_apply,
  account_not_found,
}
use prellblock.Consensus.Dispatch.{take_transactions}
use prellblock.Intake.{
  permission, Batcher, empty_batcher, add_to_batch, timed_out, send_batch, turi_handle_execute,
  handle_execute, handle_each, handle_execute_batch, PeerResult, broadcast_result,
}
use prellblock.Intake.Delivered.{
  Steps, start, add, send, Steps-kept, queued, AllAuthorized, handle_execute_batch-queued,
}
use prellblock.Fixtures.{
  toy_signatures, toy_encode_transaction, four_rpus, four_rpus-IsConsistent, good, bad,
}

turi_accepts :
    turi_handle_execute toy_signatures toy_encode_transaction 0 four_rpus good empty_batcher
    ≡ ok (record { bucket = good ∷ []; is_notified = false; is_closed = false })
unfolding turi_handle_execute Pinxit.verify Pinxit.verify_signature verify_permissions
    verify_permissions_and_apply account_checker Map.find is_expired verify_and_apply add_to_batch
turi_accepts = refl

turi_refuses :
    turi_handle_execute toy_signatures toy_encode_transaction 0 four_rpus bad empty_batcher
    ≡ err (permission (account_not_found 8))
unfolding turi_handle_execute Pinxit.verify Pinxit.verify_signature verify_permissions
    verify_permissions_and_apply account_checker Map.find is_expired verify_and_apply
turi_refuses = refl

first_error_counts :
    broadcast_result (PeerResult.sent ∷ PeerResult.task_failed ∷ PeerResult.failed ∷ []) ≡ false
unfolding broadcast_result
first_error_counts = refl

abbrev filled : Batcher
filled = record { bucket = good ∷ []; is_notified = false; is_closed = false }

sent-Steps : Steps empty_batcher (good ∷ []) (good ∷ []) empty_batcher
unfolding send_batch add_to_batch
sent-Steps =
    send (good ∷ []) [] (good ∷ []) filled timed_out
      (add [] [] empty_batcher filled good start refl) refl

Steps-kept_example : (good ∷ []) ++ [] ≡ [] ++ (good ∷ [])
Steps-kept_example = Steps-kept empty_batcher empty_batcher (good ∷ []) (good ∷ []) sent-Steps

abbrev at_zero : List (Signed Transaction) → List (ℕ × Signed Transaction)
at_zero ts = map (λ t. (0, t)) ts

at_zero_items :
    (l : List (Signed Transaction)) → map (λ (p : ℕ × Signed Transaction). p.1) (at_zero l) ≡ l
at_zero_items [] = refl
at_zero_items (t ∷ l) = ap (λ m. t ∷ m) (at_zero_items l)

abbrev write_nothing : Signed Transaction → Unit {0} → Option (Unit {0})
write_nothing t d = some tt

abbrev one_entry : Queue (Signed Transaction)
one_entry = record { entries = record { inserted = 0; item = good } ∷ [] }

batch-taken :
    handle_execute_batch toy_signatures toy_encode_transaction 0 four_rpus write_nothing at_zero
      (good ∷ [])
      tt
      empty
    ≡ ok (tt, one_entry, [])
unfolding handle_execute_batch Pinxit.verify_signed_batch handle_each handle_execute
    verify_permissions verify_permissions_and_apply account_checker Map.find is_expired
    verify_and_apply take_transactions extend
batch-taken = refl

handle_execute_batch-queued_example :
    (queued one_entry.entries ≡ [] ++ (good ∷ []))
    × (Pinxit.verify_signed_batch toy_signatures toy_encode_transaction (good ∷ [])
        ≡ ok (map wrap (good ∷ [])))
    × AllAuthorized toy_signatures toy_encode_transaction 0 four_rpus write_nothing (good ∷ [])
handle_execute_batch-queued_example =
    handle_execute_batch-queued toy_signatures toy_encode_transaction 0 four_rpus write_nothing
      at_zero (good ∷ []) tt tt empty one_entry [] four_rpus-IsConsistent at_zero_items batch-taken
