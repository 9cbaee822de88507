-- ===== src/Intake/Delivered.antt =====
-- No transaction is lost, doubled or reordered on its way, and none comes into a queue unchecked.
use prellblock.Prelude.{
  ℕ, ◌≡◌, refl, ap, sym, ◌∙◌, subst, List, [], ◌∷◌, ◌++◌, map, Option, none, some, Outcome, ok, err,
  panicked, >>=-eq-ok, map_err, arith,
}
use prellblock.Pinxit
use prellblock.Pinxit.{Bytes, Ed25519, Signed, Verified}
use prellblock.Pinxit.Laws.{wrap, verify_signed_batch-eq-ok}
use prellblock.Api.Account.{Time}
use prellblock.Api.Transaction.{Transaction}
use prellblock.Queue.{Queue, Entry, entry_at, extend}
use prellblock.WorldState.{WorldState}
use prellblock.WorldState.Consistency.{IsConsistent}
use prellblock.TransactionChecker.{verify_permissions, verify_permissions_and_apply}
use prellblock.TransactionChecker.Authorization.{Authorized, verify_permissions_and_apply-eq-ok}
use prellblock.Consensus.ViewChange.{Effect}
use prellblock.Consensus.Dispatch.{take_transactions}
use prellblock.Intake.{
  invalid_signature, Batcher, add_to_batch, Wakeup, closed, notified, timed_out, batch_of,
  send_batch, handle_execute, handle_each, handle_execute_batch,
}

-- The steps of a batcher, with what has come and what has been sent, each in its order.
pub data Steps (b : Batcher)
    : List (Signed Transaction) → List (Signed Transaction) → Batcher → Type 0 where
  start : Steps b [] [] b
  add :
      (came sent : List (Signed Transaction)) (b' b'' : Batcher) (t : Signed Transaction)
      → Steps b came sent b'
      → add_to_batch t b' ≡ some b''
      → Steps b (came ++ (t ∷ [])) sent b''
  send :
      (came sent batch : List (Signed Transaction)) (b' : Batcher) (w : Wakeup)
      → Steps b came sent b'
      → (send_batch w b').sent ≡ some batch
      → Steps b came (sent ++ batch) (send_batch w b').batcher
  rest :
      (came sent : List (Signed Transaction)) (b' : Batcher) (w : Wakeup)
      → Steps b came sent b'
      → (send_batch w b').sent ≡ none
      → Steps b came sent (send_batch w b').batcher

bucket-add_to_batch :
    (t : Signed Transaction) (b b' : Batcher)
    → add_to_batch t b ≡ some b'
    → b'.bucket ≡ b.bucket ++ (t ∷ [])
unfolding add_to_batch
bucket-add_to_batch t b b' h = ground arith

some_batch : (l batch : List (Signed Transaction)) → batch_of l ≡ some batch → l ≡ batch
some_batch [] batch h = cc
some_batch (t ∷ l) batch h = ground arith

no_batch : (l : List (Signed Transaction)) → batch_of l ≡ none → l ≡ []
no_batch [] h = refl
no_batch (t ∷ l) h = cc

bucket-send_batch :
    (w : Wakeup) (b : Batcher) (batch : List (Signed Transaction))
    → (send_batch w b).sent ≡ some batch
    → (b.bucket ≡ batch) × ((send_batch w b).batcher.bucket ≡ [])
unfolding send_batch
bucket-send_batch closed b batch h = cc
bucket-send_batch notified b batch h = (some_batch b.bucket batch h, refl)
bucket-send_batch timed_out b batch h = (some_batch b.bucket batch h, refl)

bucket-send_batch-none :
    (w : Wakeup) (b : Batcher)
    → (send_batch w b).sent ≡ none
    → (send_batch w b).batcher.bucket ≡ b.bucket
unfolding send_batch
bucket-send_batch-none closed b h = refl
bucket-send_batch-none notified b h = sym (no_batch b.bucket h)
bucket-send_batch-none timed_out b h = sym (no_batch b.bucket h)

append_assoc : (a b c : List (Signed Transaction)) → (a ++ b) ++ c ≡ a ++ (b ++ c)
append_assoc [] b c = refl
append_assoc (t ∷ a) b c = ap (λ l. t ∷ l) (append_assoc a b c)

append_nil : (a : List (Signed Transaction)) → a ++ [] ≡ a
append_nil [] = refl
append_nil (t ∷ a) = ap (λ l. t ∷ l) (append_nil a)

-- Whatever a batcher does, what it has sent and what is still in its bucket are what was in it at the
-- start and what has come since, in this order.
pub Steps-kept :
    (b b' : Batcher) (came sent : List (Signed Transaction))
    → Steps b came sent b'
    → sent ++ b'.bucket ≡ b.bucket ++ came
Steps-kept b _ _ _ start = sym (append_nil b.bucket)
Steps-kept b _ _ _ (add came sent b' b'' t s h) =
    ap (λ l. sent ++ l) (bucket-add_to_batch t b' b'' h)
    ∙ sym (append_assoc sent b'.bucket (t ∷ []))
    ∙ ap (λ l. l ++ (t ∷ [])) (Steps-kept b b' came sent s)
    ∙ append_assoc b.bucket came (t ∷ [])
Steps-kept b _ _ _ (send came sent batch b' w s h) =
    let (e, f) = bucket-send_batch w b' batch h in
    ap (λ l. (sent ++ batch) ++ l) f
    ∙ append_nil (sent ++ batch)
    ∙ ap (λ l. sent ++ l) (sym e)
    ∙ Steps-kept b b' came sent s
Steps-kept b _ _ _ (rest came sent b' w s h) =
    ap (λ l. sent ++ l) (bucket-send_batch-none w b' h) ∙ Steps-kept b b' came sent s

abbrev pub queued : List (Entry (Signed Transaction)) → List (Signed Transaction)
queued [] = []
queued (e ∷ es) = e.item ∷ queued es

queued-extend :
    (es : List (Entry (Signed Transaction))) (l : List (ℕ × Signed Transaction))
    → queued (es ++ map (λ (p : ℕ × Signed Transaction). entry_at p.0 p.1) l)
      ≡ queued es ++ map (λ (p : ℕ × Signed Transaction). p.1) l
queued-extend [] [] = refl
queued-extend [] (p ∷ l) = ap (λ m. p.1 ∷ m) (queued-extend [] l)
queued-extend (e ∷ es) l = ap (λ m. e.item ∷ m) (queued-extend es l)

module _ (e : Ed25519) (signable_data : Transaction → Option Bytes) (now : Time) (w : WorldState)
    {D : Type 0} (write : Signed Transaction → D → Option D) where
  -- The rules authorize each transaction.
  abbrev pub AllAuthorized : List (Signed Transaction) → Type 0
  AllAuthorized [] = Unit
  AllAuthorized (t ∷ ts) = Authorized now w t.signer t.body × AllAuthorized ts

  handle_execute-Authorized :
      (t : Signed Transaction) (d d' : D)
      → IsConsistent w
      → handle_execute e signable_data now w write (wrap t) d ≡ ok d'
      → Authorized now w t.signer t.body
  unfolding handle_execute verify_permissions
  handle_execute-Authorized t d d' c h = go (verify_permissions_and_apply now w (wrap t)) refl
    where
      go :
          (o : Outcome _ WorldState)
          → verify_permissions_and_apply now w (wrap t) ≡ o
          → Authorized now w t.signer t.body
      go (ok v) k = (verify_permissions_and_apply-eq-ok now w v (wrap t) c k).0
      go (err y) k = absurd (ground (arith, k))
      go panicked k = absurd (ground (arith, k))

  handle_each-AllAuthorized :
      (ts : List (Signed Transaction)) (d d' : D)
      → IsConsistent w
      → handle_each e signable_data now w write (map wrap ts) d ≡ ok d'
      → AllAuthorized ts
  unfolding handle_each
  handle_each-AllAuthorized [] d d' c h = tt
  handle_each-AllAuthorized (t ∷ ts) d d' c h =
      let (v, k, r) = >>=-eq-ok (handle_execute e signable_data now w write (wrap t) d) _ h in
      (handle_execute-Authorized t d v c k, handle_each-AllAuthorized ts v d' c r)

  -- A batch that an RPU with a consistent world state takes from another, and queues with a time for each
  -- transaction, stands in its order behind what was queued, its signatures verify as a batch, and the
  -- rules authorize each of its transactions in the current world state.
  pub handle_execute_batch-queued :
      (at_times : List (Signed Transaction) → List (ℕ × Signed Transaction))
      (batch : List (Signed Transaction)) (d d' : D) (q q' : Queue (Signed Transaction))
      (effects : List Effect)
      → IsConsistent w
      → ((l : List (Signed Transaction))
          → map (λ (p : ℕ × Signed Transaction). p.1) (at_times l) ≡ l)
      → handle_execute_batch e signable_data now w write at_times batch d q ≡ ok (d', q', effects)
      → (queued q'.entries ≡ queued q.entries ++ batch)
        × (Pinxit.verify_signed_batch e signable_data batch ≡ ok (map wrap batch))
        × AllAuthorized batch
  unfolding handle_execute_batch take_transactions extend
  handle_execute_batch-queued at_times batch d d' q q' effects c timed h =
      let (vs, f, k) =
        >>=-eq-ok (map_err invalid_signature (Pinxit.verify_signed_batch e signable_data batch)) _
          h in
      let (d'', f', k') = >>=-eq-ok (handle_each e signable_data now w write vs d) _ k in
      let checked : Pinxit.verify_signed_batch e signable_data batch ≡ ok vs = ground (arith, f) in
      let same : vs ≡ map wrap batch = verify_signed_batch-eq-ok e signable_data batch vs checked in
      let entries : q.entries
            ++ map (λ (p : ℕ × Signed Transaction). entry_at p.0 p.1) (at_times batch)
          ≡ q'.entries =
        ground (arith, k') in
      (
        ap queued (sym entries)
            ∙ queued-extend q.entries (at_times batch)
            ∙ ap (λ l. queued q.entries ++ l) (timed batch),
        checked ∙ ap (λ l. ok l) same,
        handle_each-AllAuthorized batch d d'' c
            (subst (λ l. handle_each e signable_data now w write l d ≡ ok d'') same f'),
      )
