-- ===== src/WorldState/Consistency.antt =====
-- The peers are the accounts that are RPUs, each once.
use prellblock.Prelude.{
  ◌≡◌, inl, inr, Bool, false, List, [], ◌∷◌, Option, none, some, ◌==◌, ==_iff, Option-cases,
  Bool-cases, ◌∙◌, subst, ap, sym, add_u64, arith, ok,
}
use mathlib.Core.Path.{subst₂}
use prellblock.Prelude.Map
use prellblock.Prelude.Map.{Map, find-insert, find-remove}
use prellblock.Prelude.Sets.{Distinct}
use prellblock.WorldState.Inversion.{
  apply_update_inversion, apply_create_inversion, apply_delete_inversion, updated, created,
  account_type-updated,
}
use prellblock.Pinxit.{PeerId, Signed}
use prellblock.Api.Account.{Account, is_rpu}
use prellblock.Api.Transaction.{
  Transaction, key_value, update_account, create_account, delete_account, UpdateAccount,
  CreateAccount, DeleteAccount,
}
use prellblock.Api.Block.{Block, Body, BlockHash}
use prellblock.WorldState.{
  WorldState, peer_ids, has_peer, apply_update, apply_create, apply_delete, apply_transaction,
  apply_transactions, apply_block, default_world_state,
}
use prellblock.WorldState.Peers.{
  PeersFollow, remove_peer-PeersFollow, update_peers-PeersFollow, create_peers-PeersFollow,
}

abbrev pub is_rpu_account : Option Account → Bool
is_rpu_account none = false
is_rpu_account (some a) = is_rpu a.account_type

pub record IsConsistent (w : WorldState) : Type 0 where
  pub peers_distinct : Distinct (peer_ids w.peers)
  pub peers_are_rpus : (id : PeerId) → has_peer id w.peers ≡ is_rpu_account (Map.find id w.accounts)

-- One account changes, and the peers follow.
change-IsConsistent :
    {w : WorldState} (w' : WorldState) (id : PeerId)
    → IsConsistent w
    → ((j : PeerId) → (id == j) ≡ false → Map.find j w'.accounts ≡ Map.find j w.accounts)
    → PeersFollow id (is_rpu_account (Map.find id w'.accounts)) w.peers w'.peers
    → IsConsistent w'
change-IsConsistent {w} w' id c others f = record {
  peers_distinct = f.distinct;
  peers_are_rpus = λ j. elim (Bool-cases (id == j)) [
    | inl e ↦
        subst (λ k. has_peer k w'.peers ≡ is_rpu_account (Map.find k w'.accounts))
          ((==_iff id j).0 e) f.self
    | inr n ↦ f.others j n ∙ c.peers_are_rpus j ∙ ap is_rpu_account (sym (others j n))
  ];
}

apply_update-IsConsistent :
    (w w' : WorldState) (params : UpdateAccount)
    → IsConsistent w
    → apply_update w params ≡ some w'
    → IsConsistent w'
apply_update-IsConsistent w w' params c h =
    let (a, ps, e, u, k) = apply_update_inversion w w' params h in
    change-IsConsistent w' params.id c
      (λ j n. ground (arith, find-insert params.id j (updated a params) w.accounts))
      (subst₂ (λ b qs. PeersFollow params.id b w.peers qs)
        (ground (
          arith,
          find-insert params.id params.id (updated a params) w.accounts,
          account_type-updated a params,
        ))
        (ground arith)
        (update_peers-PeersFollow params.id a.account_type params.permissions.account_type w.peers
          ps c.peers_distinct (ground (arith, c.peers_are_rpus params.id)) u))

apply_create-IsConsistent :
    (w w' : WorldState) (params : CreateAccount)
    → IsConsistent w
    → apply_create w params ≡ some w'
    → IsConsistent w'
apply_create-IsConsistent w w' params c h =
    let (ps, e, u, k) = apply_create_inversion w w' params h in
    change-IsConsistent w' params.id c
      (λ j n. ground (arith, find-insert params.id j (created params) w.accounts))
      (subst₂ (λ b qs. PeersFollow params.id b w.peers qs)
        (ground (arith, find-insert params.id params.id (created params) w.accounts)) (ground arith)
        (create_peers-PeersFollow params.id (created params).account_type w.peers ps
          c.peers_distinct (ground (arith, c.peers_are_rpus params.id)) u))

apply_delete-IsConsistent :
    (w w' : WorldState) (params : DeleteAccount)
    → IsConsistent w
    → apply_delete w params ≡ some w'
    → IsConsistent w'
apply_delete-IsConsistent w w' params c h =
    let (a, ps, e, u, k) = apply_delete_inversion w w' params h in
    change-IsConsistent w' params.id c (λ j n. ground (arith, find-remove params.id j w.accounts))
      (subst₂ (λ b qs. PeersFollow params.id b w.peers qs)
        (ground (arith, find-remove params.id params.id w.accounts)) (ground arith)
        (remove_peer-PeersFollow params.id w.peers ps c.peers_distinct u))

-- A transaction that does not panic keeps the world state consistent: the peers are, each once,
-- exactly the accounts that are RPUs.
pub apply_transaction-IsConsistent :
    (w w' : WorldState) (t : Transaction)
    → IsConsistent w
    → apply_transaction w t ≡ some w'
    → IsConsistent w'
unfolding apply_transaction
apply_transaction-IsConsistent w w' (key_value params) c h =
    let e : w ≡ w' = cc in subst (λ v. IsConsistent v) e c
apply_transaction-IsConsistent w w' (update_account params) c h =
    apply_update-IsConsistent w w' params c h
apply_transaction-IsConsistent w w' (create_account params) c h =
    apply_create-IsConsistent w w' params c h
apply_transaction-IsConsistent w w' (delete_account params) c h =
    apply_delete-IsConsistent w w' params c h

apply_transactions-IsConsistent :
    (w w' : WorldState) (ts : List (Signed Transaction))
    → IsConsistent w
    → apply_transactions w ts ≡ some w'
    → IsConsistent w'
unfolding apply_transactions
apply_transactions-IsConsistent w w' [] c h = let e : w ≡ w' = cc in subst (λ v. IsConsistent v) e c
apply_transactions-IsConsistent w w' (t ∷ ts) c h =
    elim (Option-cases (apply_transaction w t.body)) [
      | inl e ↦ ground arith
      | inr (v, e) ↦
          apply_transactions-IsConsistent v w' ts (apply_transaction-IsConsistent w v t.body c e)
            (rw (e, apply_transactions) at h)
    ]

-- Every block that is applied keeps the world state consistent.
pub apply_block-IsConsistent :
    (hash : Body → BlockHash) (w w' : WorldState) (b : Block)
    → IsConsistent w
    → apply_block hash w b ≡ ok w'
    → IsConsistent w'
unfolding apply_block
apply_block-IsConsistent hash w w' b c h =
    apply_transactions-IsConsistent
      (record w { last_block_hash = hash b.body; block_number = add_u64 b.body.height 1 }) w'
      b.body.transactions
      (record { peers_distinct = c.peers_distinct; peers_are_rpus = c.peers_are_rpus })
      (ground arith)

pub default-IsConsistent : IsConsistent default_world_state
default-IsConsistent = record {
  peers_distinct = tt;
  peers_are_rpus = λ id. ground (arith, Map.find-nil {V = Account} id);
}
