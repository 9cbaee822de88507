-- ===== src/TransactionChecker/Authorization.antt =====
-- Who may make which transaction.
use prellblock.Prelude.{
  ◌≡◌, ◌↔◌, refl, ◌⊎◌, inl, inr, Bool, true, false, Option, none, some, ◌∙◌, sym, ap, Option-cases,
  Bool-cases, Outcome, ok, err, panicked, ◌>>=◌, or_panic, arith,
}
use prellblock.Prelude.Map
use prellblock.Pinxit.{PeerId, Verified}
use prellblock.Api.Account.{Account, AccountType, admin, Time, is_expired}
use prellblock.Api.Transaction.{
  Transaction, KeyValue, UpdateAccount, CreateAccount, DeleteAccount, key_value, update_account,
  create_account, delete_account,
}
use prellblock.WorldState.{WorldState, apply_transaction}
use prellblock.WorldState.Consistency.{IsConsistent, is_rpu_account, apply_transaction-IsConsistent}
use prellblock.WorldState.Panics.{is_unreachable, apply_transaction-eq-none}
use prellblock.WorldState.Frame.{apply_transaction-key_value}
use prellblock.TransactionChecker.{
  PermissionError, account_not_found, account_expired, write_denied, not_an_admin,
  account_already_exists, is_admin, account_checker, verify_is_admin, verify_and_apply,
  verify_permissions_and_apply,
}

-- the signer's account, which has not expired
pub record Active (now : Time) (w : WorldState) (signer : PeerId) (a : Account) : Type 0 where
  pub found : Map.find signer w.accounts ≡ some a
  pub valid : is_expired now a.expire_at ≡ false

-- The rules of the chain, by the kind of transaction.
pub data Authorized (now : Time) (w : WorldState) (signer : PeerId) : Transaction → Type 0 where
  writes :
      (a : Account) (params : KeyValue)
      → Active now w signer a
      → a.writing_rights ≡ true
      → Authorized now w signer (key_value params)
  updates :
      (a b : Account) (params : UpdateAccount)
      → Active now w signer a
      → a.account_type ≡ admin
      → Map.find params.id w.accounts ≡ some b
      → Authorized now w signer (update_account params)
  creates :
      (a : Account) (params : CreateAccount)
      → Active now w signer a
      → a.account_type ≡ admin
      → Map.find params.id w.accounts ≡ none
      → Authorized now w signer (create_account params)
  deletes :
      (a b : Account) (params : DeleteAccount)
      → Active now w signer a
      → a.account_type ≡ admin
      → Map.find params.id w.accounts ≡ some b
      → Authorized now w signer (delete_account params)

abbrev checked : Time → WorldState → PeerId → Transaction → Outcome PermissionError WorldState
checked now w signer body = account_checker now w signer >>= λ c. verify_and_apply c w body

-- what the check makes of an authorized transaction
checked-Authorized :
    (now : Time) (w : WorldState) (signer : PeerId) (body : Transaction)
    → Authorized now w signer body
    → checked now w signer body ≡ or_panic (apply_transaction w body)
unfolding account_checker verify_and_apply verify_is_admin
checked-Authorized now w signer _ (writes a params active h) =
    ground (arith, apply_transaction-key_value w params)
checked-Authorized now w signer _ (updates a b params active h e) = ground arith
checked-Authorized now w signer _ (creates a params active h e) = ground arith
checked-Authorized now w signer _ (deletes a b params active h e) = ground arith

abbrev Refused : Outcome PermissionError WorldState → Type 0
Refused o = (e : PermissionError) × (o ≡ err e)

-- a transaction is authorized, or refused with an error
rules_or_error :
    (now : Time) (w : WorldState) (signer : PeerId) (body : Transaction)
    → Authorized now w signer body ⊎ Refused (checked now w signer body)
unfolding account_checker verify_and_apply verify_is_admin
rules_or_error now w signer body = elim (Option-cases (Map.find signer w.accounts)) [
  | inl e ↦ inr (account_not_found signer, ground arith)
  | inr (a, e) ↦ elim (Bool-cases (is_expired now a.expire_at)) [
    | inl x ↦ inr (account_expired signer, ground arith)
    | inr x ↦ active a (record { found = e; valid = x }) body
  ]
]
  where
    by_admin :
        (a : Account) (t : AccountType)
        → a.account_type ≡ t
        → (a.account_type ≡ admin) ⊎ (is_admin a.account_type ≡ false)
    by_admin a admin h = inl h
    by_admin a t h = inr (ground arith)

    active :
        (a : Account)
        → Active now w signer a
        → (b : Transaction) → Authorized now w signer b ⊎ Refused (checked now w signer b)
    active a v (key_value params) = elim (Bool-cases a.writing_rights) [
      | inl h ↦ inl (writes a params v h)
      | inr h ↦ inr (write_denied signer, ground arith)
    ]
    active a v (update_account params) = elim (by_admin a a.account_type refl) [
      | inr h ↦ inr (not_an_admin signer, ground arith)
      | inl h ↦ elim (Option-cases (Map.find params.id w.accounts)) [
        | inl e ↦ inr (account_not_found params.id, ground arith)
        | inr (b, e) ↦ inl (updates a b params v h e)
      ]
    ]
    active a v (create_account params) = elim (by_admin a a.account_type refl) [
      | inr h ↦ inr (not_an_admin signer, ground arith)
      | inl h ↦ elim (Option-cases (Map.find params.id w.accounts)) [
        | inl e ↦ inl (creates a params v h e)
        | inr (b, e) ↦ inr (account_already_exists params.id, ground arith)
      ]
    ]
    active a v (delete_account params) = elim (by_admin a a.account_type refl) [
      | inr h ↦ inr (not_an_admin signer, ground arith)
      | inl h ↦ elim (Option-cases (Map.find params.id w.accounts)) [
        | inl e ↦ inr (account_not_found params.id, ground arith)
        | inr (b, e) ↦ inl (deletes a b params v h e)
      ]
    ]

-- an error, not a panic
abbrev pub is_refused : Outcome PermissionError WorldState → Bool
is_refused (ok w) = false
is_refused (err e) = true
is_refused panicked = false

is_refused-or_panic : (o : Option WorldState) → is_refused (or_panic o) ≡ false
is_refused-or_panic none = refl
is_refused-or_panic (some w) = refl

-- The check answers with an error exactly if the rules do not authorize the transaction.
pub verify_permissions_and_apply-Authorized :
    (now : Time) (w : WorldState) (t : Verified Transaction)
    → Authorized now w t.inner.signer t.inner.body
      ↔ (is_refused (verify_permissions_and_apply now w t) ≡ false)
unfolding verify_permissions_and_apply
verify_permissions_and_apply-Authorized now w t = (
  λ a.
      ap is_refused (checked-Authorized now w t.inner.signer t.inner.body a)
      ∙ is_refused-or_panic (apply_transaction w t.inner.body),
  λ h. elim (rules_or_error now w t.inner.signer t.inner.body) [
    | inl a ↦ a
    | inr (e, k) ↦ absurd (ground (arith, k))
  ],
)

-- What an authorized transaction does is what the world state makes of it.
pub verify_permissions_and_apply-eq-apply :
    (now : Time) (w : WorldState) (t : Verified Transaction)
    → Authorized now w t.inner.signer t.inner.body
    → verify_permissions_and_apply now w t ≡ or_panic (apply_transaction w t.inner.body)
unfolding verify_permissions_and_apply
verify_permissions_and_apply-eq-apply now w t a =
    checked-Authorized now w t.inner.signer t.inner.body a

ok-or_panic :
    (o : Option WorldState) (w' : WorldState)
    → or_panic {E = PermissionError} o ≡ ok w'
    → o ≡ some w'
ok-or_panic none w' h = cc
ok-or_panic (some w) w' h = ground arith

-- A transaction that passes the check in a consistent world state is authorized, the result is what
-- the world state makes of it, and that is consistent.
pub verify_permissions_and_apply-eq-ok :
    (now : Time) (w w' : WorldState) (t : Verified Transaction)
    → IsConsistent w
    → verify_permissions_and_apply now w t ≡ ok w'
    → Authorized now w t.inner.signer t.inner.body
      × (apply_transaction w t.inner.body ≡ some w')
      × IsConsistent w'
verify_permissions_and_apply-eq-ok now w w' t c h =
    let a = (verify_permissions_and_apply-Authorized now w t).1 (ap is_refused h) in
    let s =
      ok-or_panic (apply_transaction w t.inner.body) w'
        (sym (verify_permissions_and_apply-eq-apply now w t a) ∙ h) in
    (a, s, apply_transaction-IsConsistent w w' t.inner.body c s)

none_of_panicked : (o : Option WorldState) → or_panic {E = PermissionError} o ≡ panicked → o ≡ none
none_of_panicked none h = refl
none_of_panicked (some w) h = cc

-- the one authorized transaction that has no meaning
unreachable_deletes :
    (now : Time) (w : WorldState) (signer : PeerId) (body : Transaction)
    → Authorized now w signer body
    → is_unreachable w body ≡ true
    → (params : DeleteAccount) × (body ≡ delete_account params)
      × (is_rpu_account (Map.find params.id w.accounts) ≡ false)
unreachable_deletes now w signer _ (writes a params v h) u = cc
unreachable_deletes now w signer _ (updates a b params v h e) u = ground arith
unreachable_deletes now w signer _ (creates a params v h e) u = ground arith
unreachable_deletes now w signer _ (deletes a b params v h e) u = (params, refl, ground arith)

-- The check panics in a consistent world state exactly if an authorized transaction deletes an
-- account that is no RPU.
pub verify_permissions_and_apply-eq-panicked :
    (now : Time) (w : WorldState) (t : Verified Transaction)
    → IsConsistent w
    → (verify_permissions_and_apply now w t ≡ panicked) ↔ (
        Authorized now w t.inner.signer t.inner.body
        × ((params : DeleteAccount) × (t.inner.body ≡ delete_account params)
            × (is_rpu_account (Map.find params.id w.accounts) ≡ false)))
verify_permissions_and_apply-eq-panicked now w t c = (
  λ h.
      let a = (verify_permissions_and_apply-Authorized now w t).1 (ap is_refused h) in
      let n =
        none_of_panicked (apply_transaction w t.inner.body)
          (sym (verify_permissions_and_apply-eq-apply now w t a) ∙ h) in
      (
        a,
        unreachable_deletes now w t.inner.signer t.inner.body a
            ((apply_transaction-eq-none w t.inner.body c).0 n),
      ),
  λ (a, (params, e, k)).
      verify_permissions_and_apply-eq-apply now w t a
      ∙ ground (arith, (apply_transaction-eq-none w t.inner.body c).1 (rw e (ground arith))),
)
