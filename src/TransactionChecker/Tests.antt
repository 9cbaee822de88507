-- ===== src/TransactionChecker/Tests.antt =====
-- Tests of the permissions.
use prellblock.Prelude.{◌≡◌, ◌↔◌, refl, true, false, [], ◌∷◌, some, ok, panicked}
use prellblock.Prelude.Map
use prellblock.Pinxit.{Verified}
use prellblock.Pinxit.Laws.{wrap}
use prellblock.Api.Account.{normal, whitelist, blacklist, is_expired}
use prellblock.Api.Transaction.{Transaction, DeleteAccount, delete_account}
use prellblock.WorldState.{apply_transaction}
use prellblock.WorldState.Consistency.{IsConsistent, is_rpu_account}
use prellblock.TransactionChecker.{
  AccountChecker, account_checker, verify_and_apply, verify_permissions_and_apply, covers,
  is_allowed_to_read_key, is_allowed_to_read_any_key,
}
use prellblock.TransactionChecker.Authorization.{
  Authorized, is_refused, verify_permissions_and_apply-Authorized,
  verify_permissions_and_apply-eq-ok, verify_permissions_and_apply-eq-panicked,
}
use prellblock.TransactionChecker.Reading.{
  FirstFit, is_allowed_to_read_key-FirstFit, is_allowed_to_read_any_key-is_allowed_to_read_key,
}
use prellblock.Fixtures.{
  four_rpus, four_rpus-IsConsistent, good, bad, signed_by, delete_user, account_of,
}

abbrev deletes_user : Verified Transaction
deletes_user = wrap (signed_by 9 delete_user [])

verify_permissions_and_apply-Authorized_example :
    Authorized 0 four_rpus 8 bad.body
    ↔ (is_refused (verify_permissions_and_apply 0 four_rpus (wrap bad)) ≡ false)
verify_permissions_and_apply-Authorized_example =
    verify_permissions_and_apply-Authorized 0 four_rpus (wrap bad)

good-applied : verify_permissions_and_apply 0 four_rpus (wrap good) ≡ ok four_rpus
unfolding verify_permissions_and_apply verify_and_apply account_checker Map.find is_expired
good-applied = refl

verify_permissions_and_apply-eq-ok_test :
    Authorized 0 four_rpus 7 good.body
    × (apply_transaction four_rpus good.body ≡ some four_rpus)
    × IsConsistent four_rpus
verify_permissions_and_apply-eq-ok_test =
    verify_permissions_and_apply-eq-ok 0 four_rpus four_rpus (wrap good) four_rpus-IsConsistent
      good-applied

verify_permissions_and_apply-eq-panicked_example :
    (verify_permissions_and_apply 0 four_rpus deletes_user ≡ panicked) ↔ (
      Authorized 0 four_rpus 9 delete_user
      × ((params : DeleteAccount) × (delete_user ≡ delete_account params)
          × (is_rpu_account (Map.find params.id four_rpus.accounts) ≡ false)))
verify_permissions_and_apply-eq-panicked_example =
    verify_permissions_and_apply-eq-panicked 0 four_rpus deletes_user four_rpus-IsConsistent

-- may read "temp" of the account 3, and no other key
abbrev reader : AccountChecker
reader = record {
  peer_id = 7;
  account = record (account_of normal false) {
    reading_rights =
        blacklist (record { accounts = 3 ∷ []; namespace = record { scope = "secret" } ∷ [] })
        ∷ whitelist (record {
          accounts = 3 ∷ [];
          namespace = record { scope = "temp" } ∷ record { scope = "secret" } ∷ [];
        })
        ∷ [];
  };
}

reads_temp : is_allowed_to_read_key reader 3 "temp" ≡ true
unfolding is_allowed_to_read_key covers
reads_temp = refl

reads_no_secret : is_allowed_to_read_key reader 3 "secret" ≡ false
unfolding is_allowed_to_read_key covers
reads_no_secret = refl

is_allowed_to_read_key-FirstFit_example :
    (is_allowed_to_read_key reader 3 "temp" ≡ true)
    ↔ FirstFit 3 "temp" true reader.account.reading_rights
is_allowed_to_read_key-FirstFit_example = is_allowed_to_read_key-FirstFit reader 3 "temp"

is_allowed_to_read_any_key-is_allowed_to_read_key_test : is_allowed_to_read_any_key reader 3 ≡ true
is_allowed_to_read_any_key-is_allowed_to_read_key_test =
    is_allowed_to_read_any_key-is_allowed_to_read_key reader 3 "temp" reads_temp
