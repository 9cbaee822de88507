-- ===== src/Consensus/Validation/Sorting.antt =====
-- What the leader's loop has sorted, when it calls no transaction invalid or one.
use prellblock.Prelude.{
  ℕ, suc, ◌+◌, ◌≡◌, refl, ap, List, [], ◌∷◌, ◌++◌, map, length, Outcome, ok, err, panicked,
  >>=-eq-ok, subst, arith,
}
use prellblock.Pinxit.{Signed, Verified}
use prellblock.Pinxit.Laws.{wrap}
use prellblock.Api.Account.{Time}
use prellblock.Api.Transaction.{Transaction}
use prellblock.WorldState.{WorldState}
use prellblock.TransactionChecker.{PermissionError, verify_permissions_and_apply, check_all}
use prellblock.Consensus.Validation.{Sorted, push_valid, push_invalid, sort_from}

-- the three ways in which the loop takes its first transaction
pub data FirstStep (now : Time) (w : WorldState) (index : ℕ) (t : Verified Transaction)
    (ts : List (Verified Transaction)) (s : Sorted) : Type 0 where
  valid :
      (w' : WorldState) (s' : Sorted)
      → verify_permissions_and_apply now w t ≡ ok w'
      → sort_from now w' (suc index) ts ≡ ok s'
      → s ≡ push_valid t.inner s'
      → FirstStep now w index t ts s
  invalid :
      (e : PermissionError) (s' : Sorted)
      → verify_permissions_and_apply now w t ≡ err e
      → sort_from now w (suc index) ts ≡ ok s'
      → s ≡ push_invalid index t.inner s'
      → FirstStep now w index t ts s

pub first_step :
    (now : Time) (w : WorldState) (index : ℕ) (t : Verified Transaction)
    (ts : List (Verified Transaction)) (s : Sorted)
    → sort_from now w index (t ∷ ts) ≡ ok s
    → FirstStep now w index t ts s
unfolding sort_from
first_step now w index t ts s h = go (verify_permissions_and_apply now w t) refl
  where
    go :
        (o : Outcome PermissionError WorldState)
        → verify_permissions_and_apply now w t ≡ o
        → FirstStep now w index t ts s
    go (ok w') e =
        let (s', k, r) =
          >>=-eq-ok (sort_from now w' (suc index) ts) (λ s'. ok (push_valid t.inner s'))
            {result = s} (ground arith) in
        valid w' s' e k (ground arith)
    go (err x) e =
        let (s', k, r) =
          >>=-eq-ok (sort_from now w (suc index) ts) (λ s'. ok (push_invalid index t.inner s'))
            {result = s} (ground arith) in
        invalid x s' e k (ground arith)
    go panicked e = ground arith

-- Every transaction is sorted one way or the other.
pub length-sort_from :
    (now : Time) (w : WorldState) (index : ℕ) (ts : List (Verified Transaction)) (s : Sorted)
    → sort_from now w index ts ≡ ok s
    → length s.valid + length s.invalid ≡ length ts
length-sort_from now w index [] s h = unfold sort_from in ground arith
length-sort_from now w index (t ∷ ts) s h = elim (first_step now w index t ts s h) [
  | valid w' s' e k r ↦ ground (arith, length-sort_from now w' (suc index) ts s' k)
  | invalid e s' v k r ↦ ground (arith, length-sort_from now w (suc index) ts s' k)
]

pub record NoneInvalid (now : Time) (w : WorldState) (ts : List (Verified Transaction)) (s : Sorted)
    : Type 0 where
  pub all_valid : s.valid ≡ map (λ t. t.inner) ts
  pub passes : check_all now w ts ≡ ok s.world

pub record OneInvalid (now : Time) (w : WorldState) (index : ℕ) (ts : List (Verified Transaction))
    (s : Sorted) (i : ℕ) (t : Signed Transaction) : Type 0 where
  pub front : List (Verified Transaction)
  pub back : List (Verified Transaction)
  pub between : WorldState
  pub error : PermissionError
  pub splits : ts ≡ front ++ (wrap t ∷ back)
  pub others_valid : s.valid ≡ map (λ v. v.inner) (front ++ back)
  pub place : i ≡ index + length front
  pub front_passes : check_all now w front ≡ ok between
  pub fails : verify_permissions_and_apply now between (wrap t) ≡ err error
  pub back_passes : check_all now between back ≡ ok s.world

pub sort_none :
    (now : Time) (w : WorldState) (index : ℕ) (ts : List (Verified Transaction)) (s : Sorted)
    → sort_from now w index ts ≡ ok s
    → s.invalid ≡ []
    → NoneInvalid now w ts s
unfolding check_all
sort_none now w index [] s h n =
    unfold sort_from in record { all_valid = ground arith; passes = ground arith }
sort_none now w index (t ∷ ts) s h n = elim (first_step now w index t ts s h) [
  | valid w' s' e k r ↦
      let i = sort_none now w' (suc index) ts s' k (ground arith) in
      record { all_valid = ground (arith, i.all_valid); passes = ground (arith, i.passes) }
  | invalid e s' v k r ↦ ground arith
]

pub sort_one :
    (now : Time) (w : WorldState) (index : ℕ) (ts : List (Verified Transaction)) (s : Sorted)
    (i : ℕ) (u : Signed Transaction)
    → sort_from now w index ts ≡ ok s
    → s.invalid ≡ (i, u) ∷ []
    → OneInvalid now w index ts s i u
unfolding check_all
sort_one now w index [] s i u h n = unfold sort_from in ground arith
sort_one now w index (t ∷ ts) s i u h n = elim (first_step now w index t ts s h) [
  | valid w' s' e k r ↦
      let o = sort_one now w' (suc index) ts s' i u k (ground arith) in
      record {
        front = t ∷ o.front;
        back = o.back;
        between = o.between;
        error = o.error;
        splits = ap (λ l. t ∷ l) o.splits;
        others_valid = ground (arith, o.others_valid);
        place = omega (arith, o.place);
        front_passes = ground (arith, o.front_passes);
        fails = o.fails;
        back_passes = ground (arith, o.back_passes);
      }
  | invalid e s' v k r ↦
      let m = sort_none now w (suc index) ts s' k (ground arith) in
      let same : t.inner ≡ u = ground arith in
      record {
        front = [];
        back = ts;
        between = w;
        error = e;
        splits = ap (λ x. wrap x ∷ ts) same;
        others_valid = ground (arith, m.all_valid);
        place = ground arith;
        front_passes = refl;
        fails = subst (λ x. verify_permissions_and_apply now w (wrap x) ≡ err e) same v;
        back_passes = ground (arith, m.passes);
      }
]
