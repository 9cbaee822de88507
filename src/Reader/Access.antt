-- ===== src/Reader/Access.antt =====
-- Who gets an answer.
use Prim.Native.String.{String}
use prellblock.Prelude.{
  ℕ, ltb, ◌≡◌, refl, List, Bool, true, Option, none, some, ok, >>=-eq-ok, map_err, arith,
}
use prellblock.Prelude.Map
use prellblock.Pinxit
use prellblock.Pinxit.{PeerId, Signed}
use prellblock.Api.Account.{Account, Time}
use prellblock.Api.Block.{Block, BlockNumber}
use prellblock.Api.Query.{GetAccount, GetBlock, GetCurrentBlockNumber, start_bound, end_bound}
use prellblock.WorldState.{WorldState}
use prellblock.TransactionChecker.{
  AccountChecker, account_checker, is_admin, can_read_blocks, verify_is_admin,
  verify_can_read_blocks,
}
use prellblock.TransactionChecker.Authorization.{Active}
use prellblock.BlockStorage.{Codec, BlockStorage, read}
use prellblock.BlockStorage.Sled
use prellblock.Reader.{
  invalid_signature, permission, Encoding, found_accounts, collect_blocks, handle_get_account,
  handle_get_block, handle_get_current_block_number,
}

pub account_checker-Active :
    (now : Time) (w : WorldState) (p : PeerId) (c : AccountChecker)
    → map_err permission (account_checker now w p) ≡ ok c
    → Active now w p c.account × (c.peer_id ≡ p)
unfolding account_checker
account_checker-Active now w p c h = go (Map.find p w.accounts) refl
  where
    go :
        (o : Option Account)
        → Map.find p w.accounts ≡ o
        → Active now w p c.account × (c.peer_id ≡ p)
    go none e = absurd (ground arith)
    go (some a) e = (record { found = ground arith; valid = ground arith }, ground arith)

module _ (encode : Encoding) (now : Time) (w : WorldState) where
  -- Accounts are returned only to an active administrator, and they are those that were found.
  pub handle_get_account-eq-ok :
      (message : Signed GetAccount) (r : List Account)
      → handle_get_account encode now w message ≡ ok r
      → (a : Account) × Active now w message.signer a
        × (is_admin a.account_type ≡ true)
        × (r ≡ found_accounts w.accounts message.body.peer_ids)
  unfolding handle_get_account verify_is_admin
  handle_get_account-eq-ok message r h =
      let (v, e, k) =
        >>=-eq-ok
          (map_err invalid_signature (Pinxit.verify encode.ed25519 encode.get_account message)) _
          h in
      let (c, e', k') = >>=-eq-ok (map_err permission (account_checker now w message.signer)) _ k in
      (c.account, (account_checker-Active now w message.signer c e').0, ground arith, ground arith)

  -- The number of the next block is returned to every active account that signs the request.
  pub handle_get_current_block_number-eq-ok :
      (message : Signed GetCurrentBlockNumber) (n : BlockNumber)
      → handle_get_current_block_number encode now w message ≡ ok n
      → (a : Account) × Active now w message.signer a × (n ≡ w.block_number)
  unfolding handle_get_current_block_number
  handle_get_current_block_number-eq-ok message n h =
      let (v, e, k) =
        >>=-eq-ok
          (map_err invalid_signature
            (Pinxit.verify encode.ed25519 encode.get_current_block_number message))
          _ h in
      let (c, e', k') = >>=-eq-ok (map_err permission (account_checker now w message.signer)) _ k in
      (c.account, (account_checker-Active now w message.signer c e').0, ground arith)

  module _ (before : String → String → Bool) (numbers : Sled.Sled ℕ ltb)
      (names : Sled.Sled String before) (codec : Codec)
      (s : BlockStorage before numbers names codec) where
    -- Blocks are returned only to an active account that may read blocks.
    pub handle_get_block-eq-ok :
        (message : Signed GetBlock) (r : List Block)
        → handle_get_block encode now w before numbers names codec s message ≡ ok r
        → (a : Account) × Active now w message.signer a
          × (can_read_blocks a.account_type ≡ true)
          × (collect_blocks (
                read before numbers names codec
                  (start_bound message.body.filter)
                  (end_bound message.body.filter)
                  s)
              ≡ ok r)
    unfolding handle_get_block verify_can_read_blocks
    handle_get_block-eq-ok message r h =
        let (v, e, k) =
          >>=-eq-ok
            (map_err invalid_signature (Pinxit.verify encode.ed25519 encode.get_block message)) _
            h in
        let (c, e', k') =
          >>=-eq-ok (map_err permission (account_checker now w message.signer)) _ k in
        (
          c.account,
          (account_checker-Active now w message.signer c e').0,
          ground arith,
          ground arith,
        )
