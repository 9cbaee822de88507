-- ===== src/Consensus/Validation/Tests.antt =====
-- Tests of the check of a batch by its leader and by its followers.
use prellblock.Prelude.{◌≡◌, ◌≢◌, refl, [], ◌∷◌, map, ok, err, arith}
use prellblock.Prelude.Map
use prellblock.Pinxit
use prellblock.Pinxit.{Signed}
use prellblock.Pinxit.Laws.{wrap}
use prellblock.Api.Account.{is_expired}
use prellblock.WorldState.{WorldState}
use prellblock.TransactionChecker.{
  account_checker, check_all, verify_and_apply, verify_permissions_and_apply,
}
use prellblock.Consensus.Error.{bad_invalid_transaction_index, censorship_detected}
use prellblock.Consensus.Validation.{
  Sorted, sort_from, leader_stateful_validate, apply_until, validate_loop,
  follower_stateful_validate,
}
use prellblock.Consensus.Validation.Accepted.{IndicesWithin, follower_stateful_validate-eq-ok}
use prellblock.Consensus.Validation.Rejection.{leader_batch_rejected}
use prellblock.Consensus.Validation.Agreement.{leader_batch_accepted}
use prellblock.Fixtures.{toy, toy_signatures-IsSound, four_rpus, good, bad, write_one}

abbrev one_bad : Sorted
one_bad = record { valid = good ∷ good ∷ []; invalid = (1, bad) ∷ []; world = four_rpus }

abbrev two_bad : Sorted
two_bad = record { valid = good ∷ []; invalid = (0, bad) ∷ (2, bad) ∷ []; world = four_rpus }

one_bad-sorted : leader_stateful_validate toy 0 four_rpus (good ∷ bad ∷ good ∷ []) ≡ ok one_bad
unfolding leader_stateful_validate sort_from verify_permissions_and_apply verify_and_apply
    account_checker Map.find is_expired Pinxit.verify_signed_batch
one_bad-sorted = refl

two_bad-sorted : leader_stateful_validate toy 0 four_rpus (bad ∷ good ∷ bad ∷ []) ≡ ok two_bad
unfolding leader_stateful_validate sort_from verify_permissions_and_apply verify_and_apply
    account_checker Map.find is_expired Pinxit.verify_signed_batch
two_bad-sorted = refl

one_bad-accepted :
    follower_stateful_validate toy 0 four_rpus (good ∷ good ∷ []) ((1, bad) ∷ []) ≡ ok tt
one_bad-accepted =
    leader_batch_accepted toy toy_signatures-IsSound 0 four_rpus (good ∷ bad ∷ good ∷ []) one_bad
      one_bad-sorted (omega arith)

leader_batch_accepted_example :
    follower_stateful_validate toy 0 four_rpus (good ∷ good ∷ []) ((1, bad) ∷ []) ≡ ok tt
leader_batch_accepted_example =
    leader_batch_accepted toy toy_signatures-IsSound 0 four_rpus (good ∷ bad ∷ good ∷ []) one_bad
      one_bad-sorted (omega arith)

follower_stateful_validate-eq-ok_example :
    ((w' : WorldState) × (check_all 0 four_rpus (map wrap (good ∷ good ∷ [])) ≡ ok w'))
    × IndicesWithin 2 ((1, bad) ∷ [])
follower_stateful_validate-eq-ok_example =
    follower_stateful_validate-eq-ok toy 0 four_rpus (good ∷ good ∷ []) ((1, bad) ∷ [])
      one_bad-accepted

leader_batch_rejected_example :
    follower_stateful_validate toy 0 four_rpus (good ∷ []) ((0, bad) ∷ (2, bad) ∷ []) ≢ ok tt
leader_batch_rejected_example =
    leader_batch_rejected toy 0 four_rpus (bad ∷ good ∷ bad ∷ []) two_bad ((0, bad) ∷ []) 2 bad
      two_bad-sorted refl refl (omega arith) toy 0 four_rpus

two_bad-rejected :
    follower_stateful_validate toy 0 four_rpus (good ∷ []) ((0, bad) ∷ (2, bad) ∷ [])
    ≡ err (bad_invalid_transaction_index 1)
unfolding follower_stateful_validate validate_loop apply_until verify_permissions_and_apply
    verify_and_apply account_checker Map.find is_expired Pinxit.verify_signed_batch
two_bad-rejected = refl

censorship_found :
    follower_stateful_validate toy 0 four_rpus (good ∷ []) ((1, good) ∷ [])
    ≡ err (censorship_detected write_one)
unfolding follower_stateful_validate validate_loop apply_until verify_permissions_and_apply
    verify_and_apply account_checker Map.find is_expired Pinxit.verify_signed_batch
censorship_found = refl
