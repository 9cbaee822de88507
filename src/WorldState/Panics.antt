-- ===== src/WorldState/Panics.antt =====
-- When applying a transaction reaches an `unreachable!`.
use prellblock.Prelude.{
  ◌≡◌, refl, ◌↔◌, inl, inr, Bool, true, false, not, [], ◌∷◌, Option, none, some, Option-cases,
  arith,
}
use prellblock.Prelude.Map
use prellblock.Pinxit.{PeerId}
use prellblock.Api.Account.{Account, AccountType, rpu, is_rpu}
use prellblock.Api.Transaction.{
  Transaction, key_value, update_account, create_account, delete_account,
}
use prellblock.WorldState.{
  WorldState, Peers, has_peer, remove_peer, add_peer, update_peers, create_peers, apply_update,
  apply_create, apply_delete, apply_transaction,
}
use prellblock.WorldState.Inversion.{created}
use prellblock.WorldState.Consistency.{IsConsistent, is_rpu_account}

abbrev pub exists : Option Account → Bool
exists none = false
exists (some a) = true

-- The transactions that a world state has no meaning for: a change of an account that does not
-- exist, a second creation, and the deletion of what is not an RPU.
abbrev pub is_unreachable : WorldState → Transaction → Bool
is_unreachable w (key_value params) = false
is_unreachable w (update_account params) = not (exists (Map.find params.id w.accounts))
is_unreachable w (create_account params) = exists (Map.find params.id w.accounts)
is_unreachable w (delete_account params) = not (is_rpu_account (Map.find params.id w.accounts))

abbrev fails : {A : Type 0} → Option A → Bool
fails none = true
fails (some a) = false

fails-remove_peer :
    (id : PeerId) (peers : Peers) → fails (remove_peer id peers) ≡ not (has_peer id peers)
unfolding remove_peer
fails-remove_peer id [] = refl
fails-remove_peer id ((other, address) ∷ peers) = ground (arith, fails-remove_peer id peers)

fails-update_peers :
    (id : PeerId) (old : AccountType) (new : Option AccountType) (peers : Peers)
    → has_peer id peers ≡ is_rpu old
    → fails (update_peers id old new peers) ≡ false
unfolding update_peers add_peer
fails-update_peers id (rpu t p) none peers h = refl
fails-update_peers id (rpu t p) (some (rpu u v)) peers h = refl
fails-update_peers id (rpu t p) (some other) peers h = ground (arith, fails-remove_peer id peers)
fails-update_peers id old (some (rpu u v)) peers h = ground arith
fails-update_peers id old new peers h = ground arith

fails-create_peers :
    (id : PeerId) (new : AccountType) (peers : Peers)
    → has_peer id peers ≡ false
    → fails (create_peers id new peers) ≡ false
unfolding create_peers add_peer
fails-create_peers id (rpu u v) peers h = ground arith
fails-create_peers id other peers h = refl

fails-apply_transaction :
    (w : WorldState) (t : Transaction)
    → IsConsistent w
    → fails (apply_transaction w t) ≡ is_unreachable w t
unfolding apply_transaction apply_update apply_create apply_delete
fails-apply_transaction w (key_value params) c = refl
fails-apply_transaction w (update_account params) c =
    elim (Option-cases (Map.find params.id w.accounts)) [
      | inl e ↦ ground arith
      | inr (a, e) ↦ ground (
        arith,
        c.peers_are_rpus params.id,
        fails-update_peers params.id a.account_type params.permissions.account_type w.peers,
      )
    ]
fails-apply_transaction w (create_account params) c = ground (
  arith,
  c.peers_are_rpus params.id,
  fails-create_peers params.id (created params).account_type w.peers,
)
fails-apply_transaction w (delete_account params) c =
    ground (arith, c.peers_are_rpus params.id, fails-remove_peer params.id w.peers)

fails_iff : {A : Type 0} (o : Option A) → (o ≡ none) ↔ (fails o ≡ true)
fails_iff none = (λ h. refl, λ h. refl)
fails_iff (some a) = (λ h. cc, λ h. cc)

-- In a consistent world state a transaction panics exactly if it updates an account that does not
-- exist, creates one that exists, or deletes one that is not an RPU.
pub apply_transaction-eq-none :
    (w : WorldState) (t : Transaction)
    → IsConsistent w
    → (apply_transaction w t ≡ none) ↔ (is_unreachable w t ≡ true)
apply_transaction-eq-none w t c =
    rw (← fails-apply_transaction w t c) (fails_iff (apply_transaction w t))
