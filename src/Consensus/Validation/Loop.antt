-- ===== src/Consensus/Validation/Loop.antt =====
-- What the follower's loop has applied.
use prellblock.Prelude.{
  ℕ, suc, ◌+◌, ◌≤◌, ◌≡◌, refl, inl, inr, List, [], ◌∷◌, length, ltb, Bool-cases, Outcome, ok, err,
  panicked, map_err, >>=-eq-ok, subst, arith,
}
use prellblock.Pinxit.{Verified}
use prellblock.Api.Account.{Time}
use prellblock.Api.Transaction.{Transaction}
use prellblock.WorldState.{WorldState}
use prellblock.TransactionChecker.{PermissionError, verify_permissions_and_apply, check_all}
use prellblock.Consensus.Error.{permission}
use prellblock.Consensus.Validation.{Progress, apply_until}

ok_of_map_err :
    (o : Outcome PermissionError WorldState) (w' : WorldState)
    → map_err permission o ≡ ok w'
    → o ≡ ok w'
ok_of_map_err (ok w) w' h = ground arith
ok_of_map_err (err e) w' h = cc
ok_of_map_err panicked w' h = cc

check_all-cons :
    (now : Time) (w w' v : WorldState) (t : Verified Transaction) (ts : List (Verified Transaction))
    → verify_permissions_and_apply now w t ≡ ok w'
    → check_all now w' ts ≡ ok v
    → check_all now w (t ∷ ts) ≡ ok v
unfolding check_all
check_all-cons now w w' v t ts h k = ground arith

-- What a run of the inner loop has done: it has applied transactions up to the end index, and what
-- applies the rest from there applies all from the start.
pub record Applied (now : Time) (end_index : ℕ) (w : WorldState) (index : ℕ)
    (ts : List (Verified Transaction)) (q : Progress) : Type 0 where
  pub total : q.index + length q.pending ≡ index + length ts
  pub reached : end_index ≤ q.index
  pub rest :
      (w' : WorldState) → check_all now q.world q.pending ≡ ok w' → check_all now w ts ≡ ok w'

pub apply_until-Applied :
    (now : Time) (end_index : ℕ) (w : WorldState) (index : ℕ) (ts : List (Verified Transaction))
    (q : Progress)
    → apply_until now end_index w index ts ≡ ok q
    → Applied now end_index w index ts q
unfolding apply_until
apply_until-Applied now end_index w index [] q h =
    let k : record { world = w; index = index; pending = [] } ≡ q = ground arith in
    subst (λ r. Applied now end_index w index [] r) k
      (record { total = refl; reached = ground arith; rest = λ w' e. e })
apply_until-Applied now end_index w index (t ∷ ts) q h = elim (Bool-cases (ltb index end_index)) [
  | inr n ↦
      let k : record { world = w; index = index; pending = t ∷ ts } ≡ q = ground arith in
      subst (λ r. Applied now end_index w index (t ∷ ts) r) k
        (record { total = refl; reached = ground arith; rest = λ w' e. e })
  | inl l ↦
      let (w', e, r) =
        >>=-eq-ok (map_err permission (verify_permissions_and_apply now w t))
          (λ w'. apply_until now end_index w' (suc index) ts) {result = q} (ground arith) in
      let a = apply_until-Applied now end_index w' (suc index) ts q r in
      record {
        total = omega (arith, a.total);
        reached = a.reached;
        rest = λ v k. check_all-cons now w w' v t ts (ok_of_map_err _ w' e) (a.rest v k);
      }
]
