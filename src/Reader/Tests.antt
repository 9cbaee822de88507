-- ===== src/Reader/Tests.antt =====
-- Tests of the answers, from a storage with one block and one value.
use prellblock.Prelude.{◌+◌, ◌^◌, ◌≡◌, refl, false, [], ◌∷◌, some, ok, err}
use prellblock.Prelude.Map
use prellblock.Pinxit
use prellblock.Pinxit.{Bytes, Signed}
use prellblock.Api.Account.{block_reader, never, whitelist, is_expired}
use prellblock.Api.Query.{
  GetValue, GetBlock, current_value, from_range_full, from_range_from, start_bound, end_bound,
}
use prellblock.WorldState.{WorldState}
use prellblock.TransactionChecker.{
  AccountChecker, account_checker, is_allowed_to_read_key, is_allowed_to_read_any_key,
  verify_can_read_blocks, account_not_found,
}
use prellblock.TransactionChecker.Authorization.{Active}
use prellblock.BlockStorage.{read}
use prellblock.BlockStorage.Tests.{
  unordered, number_trees, name_trees, toy_codec, ToyStorage, one_block,
}
use prellblock.BlockStorage.Times.{system_time_from_bytes}
use prellblock.BlockStorage.Series.{
  read_transactions, read_keys, read_transactions_inner, read_time_series,
}
use prellblock.Reader.{
  Encoding, permission, ReadValues, handle_get_value, handle_get_block, read_peers, collect_blocks,
}
use prellblock.Reader.Values.{Readable, handle_get_value-Readable}
use prellblock.Fixtures.{toy_signatures, four_rpus, block_at}

abbrev toy_encoding : Encoding
toy_encoding = record {
  ed25519 = toy_signatures;
  get_value = λ m. some [];
  get_account = λ m. some [];
  get_block = λ m. some [];
  get_current_block_number = λ m. some [];
}

-- The account 6 may read the key of the account 7.
abbrev with_reader : WorldState
with_reader = record four_rpus {
  accounts =
      (
        6,
        record {
          name = "reader";
          account_type = block_reader;
          expire_at = never;
          writing_rights = false;
          reading_rights =
              whitelist (record { accounts = 7 ∷ []; namespace = record { scope = "key" } ∷ [] })
              ∷ [];
        },
      )
      ∷ four_rpus.accounts;
}

abbrev one_value : ToyStorage
one_value = record one_block {
  keys = λ p. ("key", []) ∷ ("secret", []) ∷ [];
  series = λ p k. (12, 0 ∷ 7 ∷ 5 ∷ []) ∷ [];
}

abbrev asks_values : Signed GetValue
asks_values = record {
  signer = 6;
  body = record { peer_ids = 7 ∷ 8 ∷ []; filter = from_range_full; query = current_value };
  signature = 6;
}

abbrev the_values : ReadValues
the_values = (7, ("key", (2 ^ 63 + 12, (5 ∷ [], 0, 7)) ∷ []) ∷ []) ∷ []

values-answered :
    handle_get_value toy_encoding 0 with_reader unordered number_trees name_trees toy_codec
      one_value asks_values
    ≡ ok the_values
unfolding handle_get_value Pinxit.verify Pinxit.verify_signature account_checker Map.find is_expired
    read_peers is_allowed_to_read_any_key read_transactions read_keys is_allowed_to_read_key
    read_transactions_inner read_time_series system_time_from_bytes Map.insert Map.remove
    start_bound end_bound
values-answered = refl

handle_get_value-Readable_example :
    (c : AccountChecker) × Active 0 with_reader 6 c.account
    × Readable toy_encoding 0 with_reader unordered number_trees name_trees toy_codec one_value c
        from_range_full the_values
handle_get_value-Readable_example =
    handle_get_value-Readable toy_encoding 0 with_reader unordered number_trees name_trees toy_codec
      one_value asks_values the_values values-answered

stranger :
    handle_get_value toy_encoding 0 four_rpus unordered number_trees name_trees toy_codec one_value
      asks_values
    ≡ err (permission (account_not_found 6))
unfolding handle_get_value Pinxit.verify Pinxit.verify_signature account_checker Map.find is_expired
stranger = refl

abbrev asks_blocks : Signed GetBlock
asks_blocks = record { signer = 6; body = record { filter = from_range_from 0 }; signature = 6 }

blocks-answered :
    handle_get_block toy_encoding 0 with_reader unordered number_trees name_trees toy_codec
      one_value asks_blocks
    ≡ ok (block_at 0 0 [] ∷ [])
unfolding handle_get_block Pinxit.verify Pinxit.verify_signature account_checker Map.find is_expired
    verify_can_read_blocks collect_blocks read start_bound end_bound
blocks-answered = refl
