-- ===== src/Reader.antt =====
-- prellblock/src/reader.rs: the answers to the queries of the clients.
pub mod Values
pub mod Access
mod Tests
use Prim.Native.String.{String}
use prellblock.Prelude.{
  ℕ, ltb, List, [], ◌∷◌, Bool, true, false, Option, none, some, Outcome, ok, err, panicked, ◌>>=◌,
  ◌>>◌, map_err,
}
use prellblock.Prelude.Map
use prellblock.Prelude.Map.{Map}
use prellblock.Pinxit
use prellblock.Pinxit.{PeerId, Bytes, Ed25519, Signed}
use prellblock.Api.Account.{Account, Time}
use prellblock.Api.Block.{Block, BlockNumber}
use prellblock.Api.Query.{
  GetValue, GetAccount, GetBlock, GetCurrentBlockNumber, Filter, Query, start_bound, end_bound,
}
use prellblock.WorldState.{WorldState}
use prellblock.TransactionChecker.{
  PermissionError, AccountChecker, account_checker, is_allowed_to_read_any_key, verify_is_admin,
  verify_can_read_blocks,
}
use prellblock.BlockStorage
use prellblock.BlockStorage.{Codec, BlockStorage, read}
use prellblock.BlockStorage.Sled
use prellblock.BlockStorage.Series.{Series, read_transactions}

-- what the `BoxError` of an answer holds
pub data ReaderError : Type 0 where
  invalid_signature : Pinxit.Error → ReaderError
  permission : PermissionError → ReaderError
  storage : BlockStorage.Error → ReaderError

-- `ReadValues`
abbrev pub ReadValues : Type 0
ReadValues = Map (List (String × Series))

-- The bytes that are signed come from postcard, which is not part of the repository.
pub record Encoding : Type 0 where
  pub ed25519 : Ed25519
  pub get_value : GetValue → Option Bytes
  pub get_account : GetAccount → Option Bytes
  pub get_block : GetBlock → Option Bytes
  pub get_current_block_number : GetCurrentBlockNumber → Option Bytes

-- `filter_map` over the accounts; those that are not found are left out.
pub found_accounts : Map Account → List PeerId → List Account
found_accounts accounts [] = []
found_accounts accounts (p ∷ ps) =
    let rest = found_accounts accounts ps in
    elim (Map.find p accounts) [ none ↦ rest | some a ↦ a ∷ rest ]

-- `collect` into a `Result`
pub collect_blocks :
    List (Outcome BlockStorage.Error Block) → Outcome BlockStorage.Error (List Block)
collect_blocks [] = ok []
collect_blocks (o ∷ l) = let later = collect_blocks l in do b ← o; bs ← later; ok (b ∷ bs)

module _ (encode : Encoding) (now : Time) (w : WorldState) where
  unfoldable pub handle_get_account : Signed GetAccount → Outcome ReaderError (List Account)
  unfolding found_accounts
  handle_get_account message = do
    verified ← map_err invalid_signature (Pinxit.verify encode.ed25519 encode.get_account message)
    checker ← map_err permission (account_checker now w message.signer)
    map_err permission (verify_is_admin checker)
    ok (found_accounts w.accounts message.body.peer_ids)

  unfoldable pub handle_get_current_block_number :
      Signed GetCurrentBlockNumber → Outcome ReaderError BlockNumber
  handle_get_current_block_number message = do
    verified ←
        map_err invalid_signature
          (Pinxit.verify encode.ed25519 encode.get_current_block_number message)
    checker ← map_err permission (account_checker now w message.signer)
    ok w.block_number

  module _ (before : String → String → Bool) (numbers : Sled.Sled ℕ ltb)
      (names : Sled.Sled String before) (codec : Codec)
      (s : BlockStorage before numbers names codec) where
    -- `filter`, `map` and `collect` over the peers
    pub read_peers :
        AccountChecker
        → Filter String
        → Query
        → List PeerId
        → ReadValues
        → Outcome BlockStorage.Error ReadValues
    read_peers checker filter query [] values = ok values
    read_peers checker filter query (p ∷ ps) values = elim (is_allowed_to_read_any_key checker p) [
      | true ↦ do
        transactions ← read_transactions before numbers names codec now checker p filter query s
        read_peers checker filter query ps (Map.insert p transactions values)
      | false ↦ read_peers checker filter query ps values
    ]

    unfoldable pub handle_get_value : Signed GetValue → Outcome ReaderError ReadValues
    unfolding read_peers
    handle_get_value message = do
      verified ← map_err invalid_signature (Pinxit.verify encode.ed25519 encode.get_value message)
      checker ← map_err permission (account_checker now w message.signer)
      map_err storage
          (read_peers checker message.body.filter message.body.query message.body.peer_ids [])

    unfoldable pub handle_get_block : Signed GetBlock → Outcome ReaderError (List Block)
    unfolding collect_blocks
    handle_get_block message = do
      verified ← map_err invalid_signature (Pinxit.verify encode.ed25519 encode.get_block message)
      checker ← map_err permission (account_checker now w message.signer)
      map_err permission (verify_can_read_blocks checker)
      map_err storage (
          collect_blocks (
            read before numbers names codec (start_bound message.body.filter)
              (end_bound message.body.filter) s))
