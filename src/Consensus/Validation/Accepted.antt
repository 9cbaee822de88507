-- ===== src/Consensus/Validation/Accepted.antt =====
-- What it means that a follower accepts the transactions of a leader.
use prellblock.Prelude.{
  ℕ, suc, ◌+◌, ◌≤◌, ◌≡◌, refl, List, [], ◌∷◌, map, length, ok, map_err, >>=-eq-ok, ap, arith,
}
use prellblock.Pinxit.{Signed, Verified, verify_signed_batch}
use prellblock.Pinxit.Laws.{wrap, verify_signed_batch-eq-ok}
use prellblock.Api.Account.{Time}
use prellblock.Api.Transaction.{Transaction}
use prellblock.WorldState.{WorldState}
use prellblock.TransactionChecker.{check_all}
use prellblock.Consensus.Error.{invalid_signature}
use prellblock.Consensus.Message.{InvalidTransaction}
use prellblock.Consensus.Core.{Externals}
use prellblock.Consensus.Validation.{
  Progress, apply_until, validate_loop, zip_verified, follower_stateful_validate,
}
use prellblock.Consensus.Validation.Loop.{apply_until-Applied}

-- No index is above the number.
abbrev pub IndicesWithin : {A : Type 0} → ℕ → List (ℕ × A) → Type 0
IndicesWithin n [] = Unit
IndicesWithin n ((i, t) ∷ l) = (i ≤ n) × IndicesWithin n l

validate_loop_lem :
    (now : Time) (n : ℕ) (p : Progress) (invalid : List (ℕ × Verified Transaction))
    → p.index + length p.pending ≡ n
    → validate_loop now n p invalid ≡ ok tt
    → IndicesWithin n invalid × ((w' : WorldState) × (check_all now p.world p.pending ≡ ok w'))
unfolding validate_loop
validate_loop_lem now n p [] inv h =
    let (q, e, r) = >>=-eq-ok (apply_until now n p.world p.index p.pending) _ h in
    let a = apply_until-Applied now n p.world p.index p.pending q e in
    (tt, (q.world, a.rest q.world (done q.world q.pending (omega (arith, a.total, a.reached)))))
  where
    done :
        (w : WorldState) (ts : List (Verified Transaction))
        → length ts ≡ 0
        → check_all now w ts ≡ ok w
    done w [] e = unfold check_all in refl
    done w (t ∷ ts) e = absurd (omega arith)
validate_loop_lem now n p ((end_index, t) ∷ invalid) inv h =
    let (q, e, r) = >>=-eq-ok (apply_until now end_index p.world p.index p.pending) _ h in
    let a = apply_until-Applied now end_index p.world p.index p.pending q e in
    let (within, (w', k)) =
      validate_loop_lem now n q invalid (omega (arith, a.total, inv)) (ground arith) in
    ((omega (arith, a.total, a.reached, inv), within), (w', a.rest w' k))

IndicesWithin-zip :
    (n : ℕ) (invalid : List InvalidTransaction)
    → IndicesWithin n
        (zip_verified invalid (map wrap (map (λ (p : InvalidTransaction). p.1) invalid)))
    → IndicesWithin n invalid
IndicesWithin-zip n [] h = tt
IndicesWithin-zip n ((i, t) ∷ invalid) h = (h.0, IndicesWithin-zip n invalid h.1)

pub length-wrap : (l : List (Signed Transaction)) → length (map wrap l) ≡ length l
length-wrap [] = refl
length-wrap (t ∷ l) = ap suc (length-wrap l)

-- If a follower accepts the transactions of a leader, then all that the leader calls valid pass the
-- check one after the other from the follower's world state, and no index of an invalid one is above
-- the number of the valid ones.
pub follower_stateful_validate-eq-ok :
    (x : Externals) (now : Time) (w : WorldState) (valid : List (Signed Transaction))
    (invalid : List InvalidTransaction)
    → follower_stateful_validate x now w valid invalid ≡ ok tt
    → ((w' : WorldState) × (check_all now w (map wrap valid) ≡ ok w'))
      × IndicesWithin (length valid) invalid
unfolding follower_stateful_validate
follower_stateful_validate-eq-ok x now w valid invalid h =
    let (vs, e, r) =
      >>=-eq-ok
        (map_err invalid_signature (verify_signed_batch x.ed25519 x.encode_transaction valid)) _
        h in
    let (is, e', r') =
      >>=-eq-ok
        (map_err invalid_signature (
          verify_signed_batch x.ed25519 x.encode_transaction
            (map (λ (p : InvalidTransaction). p.1) invalid)))
        _ r in
    let (within, found) =
      validate_loop_lem now (length valid)
        (record { world = w; index = 0; pending = map wrap valid })
        (zip_verified invalid (map wrap (map (λ (p : InvalidTransaction). p.1) invalid)))
        (omega (arith, length-wrap valid))
        (rw
          (
            ← batch_ok x valid vs e,
            ← batch_ok x (map (λ (p : InvalidTransaction). p.1) invalid) is e',
          )
          r') in
    (found, IndicesWithin-zip (length valid) invalid within)
  where
    batch_ok :
        (x : Externals) (l : List (Signed Transaction)) (vs : List (Verified Transaction))
        → map_err invalid_signature (verify_signed_batch x.ed25519 x.encode_transaction l) ≡ ok vs
        → vs ≡ map wrap l
    batch_ok x l vs h = verify_signed_batch-eq-ok x.ed25519 x.encode_transaction l vs (ground arith)
