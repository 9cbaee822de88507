-- ===== src/Consensus/Validation/Agreement.antt =====
-- When an honest follower agrees with an honest leader about a batch.
use prellblock.Prelude.{
  ℕ, suc, ◌+◌, ◌≤◌, ◌≡◌, refl, ap, sym, ◌∙◌, Bool, true, ◌&&◌, List, [], ◌∷◌, ◌++◌, map, length,
  length-append, Outcome, ok, err, panicked, ◌>>=◌, map_err, >>=-eq-ok, subst, arith,
}
use prellblock.Pinxit.{Signed, Verified, verify_signed_batch}
use prellblock.Pinxit.Laws.{
  IsSound, wrap, all_accepted, accepts-verify_signed_batch, verify_signed_batch-eq-ok,
}
use prellblock.Api.Account.{Time}
use prellblock.Api.Transaction.{Transaction}
use prellblock.WorldState.{WorldState}
use prellblock.TransactionChecker.{verify_permissions_and_apply, check_all}
use prellblock.Consensus.Error.{invalid_signature}
use prellblock.Consensus.Message.{InvalidTransaction}
use prellblock.Consensus.Core.{Externals}
use prellblock.Consensus.Validation.{
  Sorted, sort_from, leader_stateful_validate, apply_until, validate_loop, zip_verified,
  follower_stateful_validate,
}
use prellblock.Consensus.Validation.Accepted.{length-wrap}
use prellblock.Consensus.Validation.Rejection.{sorted_by}
use prellblock.Consensus.Validation.Sorting.{NoneInvalid, OneInvalid, sort_none, sort_one}

-- Transactions that pass one after the other are all applied.
apply_until-check_all :
    (now : Time) (w u : WorldState) (index end_index : ℕ) (front back : List (Verified Transaction))
    → check_all now w front ≡ ok u
    → end_index ≡ index + length front
    → apply_until now end_index w index (front ++ back)
      ≡ ok (record { world = u; index = end_index; pending = back })
unfolding apply_until check_all
apply_until-check_all now w u index end_index [] [] h e = ground arith
apply_until-check_all now w u index end_index [] (t ∷ back) h e = ground arith
apply_until-check_all now w u index end_index (t ∷ front) back h e =
    let (w', k, r) =
      >>=-eq-ok (verify_permissions_and_apply now w t) (λ w'. check_all now w' front) h in
    ground (arith, apply_until-check_all now w' u (suc index) end_index front back r)

append-nil_verified : (l : List (Verified Transaction)) → l ++ [] ≡ l
append-nil_verified [] = refl
append-nil_verified (t ∷ l) = ap (λ k. t ∷ k) (append-nil_verified l)

-- the end of the loop
validate_rest :
    (now : Time) (n : ℕ) (u w' : WorldState) (index : ℕ) (back : List (Verified Transaction))
    → check_all now u back ≡ ok w'
    → n ≡ index + length back
    → validate_loop now n (record { world = u; index = index; pending = back }) [] ≡ ok tt
unfolding validate_loop
validate_rest now n u w' index back h e =
    ground (arith, apply_until-check_all now u w' index n back [] h e, append-nil_verified back)

abbrev signed_well : Externals → List (Signed Transaction) → Bool
signed_well x = all_accepted x.ed25519 x.encode_transaction

module _ (x : Externals) (sound : IsSound x.ed25519) where
  batch_accepted :
      (l : List (Signed Transaction))
      → signed_well x l ≡ true
      → map_err invalid_signature (verify_signed_batch x.ed25519 x.encode_transaction l)
        ≡ ok (map wrap l)
  batch_accepted l h = go (verify_signed_batch x.ed25519 x.encode_transaction l) refl
    where
      go :
          (o : Outcome _ (List (Verified Transaction)))
          → verify_signed_batch x.ed25519 x.encode_transaction l ≡ o
          → map_err invalid_signature o ≡ ok (map wrap l)
      go (ok vs) e =
          ap (λ k. ok k) (verify_signed_batch-eq-ok x.ed25519 x.encode_transaction l vs e)
      go (err y) e =
          ground (arith, accepts-verify_signed_batch x.ed25519 sound x.encode_transaction l)
      go panicked e =
          ground (arith, accepts-verify_signed_batch x.ed25519 sound x.encode_transaction l)

  signed_well_of_leader :
      (now : Time) (w : WorldState) (batch : List (Signed Transaction)) (s : Sorted)
      → leader_stateful_validate x now w batch ≡ ok s
      → signed_well x batch ≡ true
  unfolding leader_stateful_validate
  signed_well_of_leader now w batch s h =
      go (verify_signed_batch x.ed25519 x.encode_transaction batch) refl
    where
      go :
          (o : Outcome _ (List (Verified Transaction)))
          → verify_signed_batch x.ed25519 x.encode_transaction batch ≡ o
          → signed_well x batch ≡ true
      go (ok vs) e =
          ground (arith, accepts-verify_signed_batch x.ed25519 sound x.encode_transaction batch)
      go (err y) e = ground arith
      go panicked e = ground arith

  signed_well-append :
      (k l : List (Signed Transaction))
      → signed_well x (k ++ l) ≡ (signed_well x k && signed_well x l)
  signed_well-append [] l = refl
  signed_well-append (t ∷ k) l = ground (arith, signed_well-append k l)

  follower_on :
      (now : Time) (w : WorldState) (valid : List (Signed Transaction))
      (invalid : List InvalidTransaction)
      → signed_well x valid ≡ true
      → signed_well x (map (λ (p : InvalidTransaction). p.1) invalid) ≡ true
      → validate_loop now
          (length valid)
          (record { world = w; index = 0; pending = map wrap valid })
          (zip_verified invalid (map wrap (map (λ (p : InvalidTransaction). p.1) invalid)))
        ≡ ok tt
      → follower_stateful_validate x now w valid invalid ≡ ok tt
  unfolding follower_stateful_validate
  follower_on now w valid invalid sv si h =
      rw
        (
          batch_accepted valid sv,
          batch_accepted (map (λ (p : InvalidTransaction). p.1) invalid) si,
          ◌>>=◌,
        )
        h

map-wrap-inner : (l : List (Verified Transaction)) → map wrap (map (λ v. v.inner) l) ≡ l
map-wrap-inner [] = refl
map-wrap-inner (t ∷ l) = ap (λ k. t ∷ k) (map-wrap-inner l)

map-inner-wrap : (l : List (Signed Transaction)) → map (λ v. v.inner) (map wrap l) ≡ l
map-inner-wrap [] = refl
map-inner-wrap (t ∷ l) = ap (λ k. t ∷ k) (map-inner-wrap l)

inner-append :
    (k l : List (Verified Transaction))
    → map (λ v. v.inner) (k ++ l) ≡ map (λ v. v.inner) k ++ map (λ v. v.inner) l
inner-append [] l = refl
inner-append (t ∷ k) l = ap (λ m. t.inner ∷ m) (inner-append k l)

validate_none :
    (now : Time) (w : WorldState) (batch : List (Signed Transaction)) (s : Sorted)
    → NoneInvalid now w (map wrap batch) s
    → validate_loop now
        (length s.valid)
        (record { world = w; index = 0; pending = map wrap s.valid })
        []
      ≡ ok tt
validate_none now w batch s n =
    let e : s.valid ≡ batch = n.all_valid ∙ map-inner-wrap batch in
    rw e (
      validate_rest now (length batch) w s.world 0 (map wrap batch) n.passes
        (omega (arith, length-wrap batch)))

validate_one :
    (now : Time) (w : WorldState) (ts : List (Verified Transaction)) (s : Sorted) (i : ℕ)
    (t : Signed Transaction)
    → OneInvalid now w 0 ts s i t
    → validate_loop now
        (length s.valid)
        (record { world = w; index = 0; pending = map wrap s.valid })
        ((i, wrap t) ∷ [])
      ≡ ok tt
unfolding validate_loop
validate_one now w ts s i t o =
    let e : map wrap s.valid ≡ o.front ++ o.back =
      ap (λ l. map wrap l) o.others_valid ∙ map-wrap-inner (o.front ++ o.back) in
    let n : length s.valid ≡ i + length o.back =
      omega (arith, length-wrap s.valid, ap length e, length-append o.front o.back, o.place) in
    ground (
      arith,
      e,
      o.fails,
      apply_until-check_all now w o.between 0 i o.front o.back o.front_passes o.place,
      validate_rest now (length s.valid) o.between s.world i o.back o.back_passes n,
    )

module _ (x : Externals) (sound : IsSound x.ed25519) where
  -- What a leader has sorted with at most one invalid transaction is accepted by a follower that has
  -- the same world state and checks at the same time: it detects no censorship, finds no bad index,
  -- and applies every valid transaction.
  pub leader_batch_accepted :
      (now : Time) (w : WorldState) (batch : List (Signed Transaction)) (s : Sorted)
      → leader_stateful_validate x now w batch ≡ ok s
      → length s.invalid ≤ 1
      → follower_stateful_validate x now w s.valid s.invalid ≡ ok tt
  leader_batch_accepted now w batch s h few = go s.invalid refl few
    where
      sorted : sort_from now w 0 (map wrap batch) ≡ ok s
      sorted = sorted_by x now w batch s h

      well : signed_well x batch ≡ true
      well = signed_well_of_leader x sound now w batch s h

      go :
          (l : List InvalidTransaction)
          → s.invalid ≡ l
          → length l ≤ 1
          → follower_stateful_validate x now w s.valid s.invalid ≡ ok tt
      go [] e m =
          let n = sort_none now w 0 (map wrap batch) s sorted e in
          let same : s.valid ≡ batch = n.all_valid ∙ map-inner-wrap batch in
          subst (λ k. follower_stateful_validate x now w s.valid k ≡ ok tt) (sym e)
            (follower_on x sound now w s.valid [] (ap (signed_well x) same ∙ well) refl
              (validate_none now w batch s n))
      go ((i, t) ∷ []) e m =
          let o = sort_one now w 0 (map wrap batch) s i t sorted e in
          let parts : batch ≡ map (λ v. v.inner) o.front ++ (t ∷ map (λ v. v.inner) o.back) =
            sym (map-inner-wrap batch)
            ∙ ap (λ l. map (λ (v : Verified Transaction). v.inner) l) o.splits
            ∙ inner-append o.front (wrap t ∷ o.back) in
          let both =
            signed_well-append x sound (map (λ (v : Verified Transaction). v.inner) o.front)
              (t ∷ map (λ (v : Verified Transaction). v.inner) o.back) in
          let all = sym (ap (signed_well x) parts) ∙ well in
          subst (λ k. follower_stateful_validate x now w s.valid k ≡ ok tt) (sym e)
            (follower_on x sound now w s.valid ((i, t) ∷ [])
              (ground (
                arith,
                o.others_valid,
                both,
                all,
                inner-append o.front o.back,
                signed_well-append x sound (map (λ (v : Verified Transaction). v.inner) o.front)
                    (map (λ (v : Verified Transaction). v.inner) o.back),
              ))
              (ground (arith, both, all)) (validate_one now w (map wrap batch) s i t o))
      go (p ∷ q ∷ l) e m = absurd (omega arith)
