-- ===== src/Pinxit/Tests.antt =====
-- Tests of the signatures.
use prellblock.Prelude.{◌≡◌, refl, false, [], ◌∷◌, map, none, some, ok, if◌then◌else◌}
use prellblock.Pinxit.{Signed, from_secret_key, sign, verify, verify_signed_batch}
use prellblock.Pinxit.Laws.{wrap, all_accepted, accepted, verify-sign, accepted-verify_signed_batch}
use prellblock.Api.Transaction.{Transaction}
use prellblock.Fixtures.{
  toy_signatures, toy_signatures-IsSound, toy_encode_transaction, good, write_one,
}

abbrev forged : Signed Transaction
forged = record good { signature = 0 }

verify-sign_test :
    (verify toy_signatures toy_encode_transaction good ≡ ok (record { inner = good }))
    × (good.signer ≡ 7)
    × (good.body ≡ write_one)
verify-sign_test =
    verify-sign toy_signatures toy_signatures-IsSound toy_encode_transaction 7 write_one good
      (unfold sign from_secret_key in refl)

accepted-verify_signed_batch_example :
    accepted toy_signatures toy_signatures-IsSound toy_encode_transaction
      (verify_signed_batch toy_signatures toy_encode_transaction (good ∷ forged ∷ []))
    ≡ (if all_accepted toy_signatures toy_encode_transaction (good ∷ forged ∷ [])
        then some (map wrap (good ∷ forged ∷ []))
        else none)
accepted-verify_signed_batch_example =
    accepted-verify_signed_batch toy_signatures toy_signatures-IsSound toy_encode_transaction
      (good ∷ forged ∷ [])

forged-refused : all_accepted toy_signatures toy_encode_transaction (good ∷ forged ∷ []) ≡ false
unfolding verify
forged-refused = refl
