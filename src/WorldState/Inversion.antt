-- ===== src/WorldState/Inversion.antt =====
-- What a successful change of an account has found and written.
use prellblock.Prelude.{◌≡◌, refl, Option, none, some, arith}
use prellblock.Prelude.Map
use prellblock.Api.Account
use prellblock.Api.Account.{Account, apply_permissions, overwrite}
use prellblock.Api.Transaction.{UpdateAccount, CreateAccount, DeleteAccount}
use prellblock.WorldState.{
  WorldState, Peers, remove_peer, update_peers, create_peers, apply_update, apply_create,
  apply_delete,
}

abbrev pub updated : Account → UpdateAccount → Account
updated a params = apply_permissions a params.permissions

abbrev pub created : CreateAccount → Account
created params = apply_permissions (Account.new params.name) params.permissions

pub account_type-updated :
    (a : Account) (params : UpdateAccount)
    → (updated a params).account_type ≡ overwrite a.account_type params.permissions.account_type
unfolding apply_permissions
account_type-updated a params = refl

pub apply_update_inversion :
    (w w' : WorldState) (params : UpdateAccount)
    → apply_update w params ≡ some w'
    → (a : Account) × (ps : Peers) × (Map.find params.id w.accounts ≡ some a)
      × (update_peers params.id a.account_type params.permissions.account_type w.peers ≡ some ps)
      × (w'
          ≡ record w { accounts = Map.insert params.id (updated a params) w.accounts; peers = ps })
unfolding apply_update
apply_update_inversion w w' params h = go (Map.find params.id w.accounts) refl
  where
    go :
        (o : Option Account)
        → Map.find params.id w.accounts ≡ o
        → (a : Account) × (ps : Peers) × (Map.find params.id w.accounts ≡ some a)
          × (update_peers params.id a.account_type params.permissions.account_type w.peers
              ≡ some ps)
          × (w' ≡ record w {
            accounts = Map.insert params.id (updated a params) w.accounts;
            peers = ps;
          })
    go none e = ground arith
    go (some a) e = (a, w'.peers, e, ground arith, ground arith)

pub apply_create_inversion :
    (w w' : WorldState) (params : CreateAccount)
    → apply_create w params ≡ some w'
    → (ps : Peers) × (Map.find params.id w.accounts ≡ none)
      × (create_peers params.id (created params).account_type w.peers ≡ some ps)
      × (w' ≡ record w { accounts = Map.insert params.id (created params) w.accounts; peers = ps })
unfolding apply_create
apply_create_inversion w w' params h = (w'.peers, ground arith, ground arith, ground arith)

pub apply_delete_inversion :
    (w w' : WorldState) (params : DeleteAccount)
    → apply_delete w params ≡ some w'
    → (a : Account) × (ps : Peers) × (Map.find params.id w.accounts ≡ some a)
      × (remove_peer params.id w.peers ≡ some ps)
      × (w' ≡ record w { accounts = Map.remove params.id w.accounts; peers = ps })
unfolding apply_delete
apply_delete_inversion w w' params h = go (Map.find params.id w.accounts) refl
  where
    go :
        (o : Option Account)
        → Map.find params.id w.accounts ≡ o
        → (a : Account) × (ps : Peers) × (Map.find params.id w.accounts ≡ some a)
          × (remove_peer params.id w.peers ≡ some ps)
          × (w' ≡ record w { accounts = Map.remove params.id w.accounts; peers = ps })
    go none e = ground arith
    go (some a) e = (a, w'.peers, e, ground arith, ground arith)
