-- ===== src/TransactionChecker/Reading.antt =====
-- Reading rights: the first entry that covers an account and a key decides.
use Prim.Native.String.{String}
use prellblock.Prelude.{
  ◌≡◌, ◌↔◌, inl, inr, Bool, true, false, List, [], ◌∷◌, Bool-cases, if◌then◌else◌, arith,
}
use prellblock.Pinxit.{PeerId}
use prellblock.Api.Account.{ReadingPermission, blacklist, whitelist, ReadingRight}
use prellblock.TransactionChecker.{
  AccountChecker, reads_any, reads_key, covers, is_allowed_to_read_any_key, is_allowed_to_read_key,
}

-- the rights of an entry, and whether it allows what it covers
abbrev pub rights_of : ReadingPermission → ReadingRight
rights_of (whitelist rights) = rights
rights_of (blacklist rights) = rights

abbrev pub allows : ReadingPermission → Bool
allows (whitelist rights) = true
allows (blacklist rights) = false

-- Some entry covers the account and the key, none before it does, and it allows if the test says so.
pub data FirstFit (peer_id : PeerId) (key : String) (b : Bool)
    : List ReadingPermission → Type 0 where
  here :
      (p : ReadingPermission) (rest : List ReadingPermission)
      → covers (rights_of p) peer_id key ≡ true
      → allows p ≡ b
      → FirstFit peer_id key b (p ∷ rest)
  there :
      (p : ReadingPermission) (rest : List ReadingPermission)
      → covers (rights_of p) peer_id key ≡ false
      → FirstFit peer_id key b rest
      → FirstFit peer_id key b (p ∷ rest)

reads_key-cons :
    (p : ReadingPermission) (rest : List ReadingPermission) (peer_id : PeerId) (key : String)
    → reads_key (p ∷ rest) peer_id key
      ≡ (if covers (rights_of p) peer_id key then allows p else reads_key rest peer_id key)
unfolding reads_key
reads_key-cons (whitelist r) rest peer_id key = ground arith
reads_key-cons (blacklist r) rest peer_id key = ground arith

FirstFit-reads_key :
    (peer_id : PeerId) (key : String) (rights : List ReadingPermission)
    → reads_key rights peer_id key ≡ true
    → FirstFit peer_id key true rights
FirstFit-reads_key peer_id key [] h = unfold reads_key in cc
FirstFit-reads_key peer_id key (p ∷ rest) h = elim (Bool-cases (covers (rights_of p) peer_id key)) [
  | inl e ↦ here p rest e (ground (arith, reads_key-cons p rest peer_id key))
  | inr e ↦
      there p rest e
        (FirstFit-reads_key peer_id key rest (ground (arith, reads_key-cons p rest peer_id key)))
]

reads_key-FirstFit :
    (peer_id : PeerId) (key : String) (rights : List ReadingPermission)
    → FirstFit peer_id key true rights
    → reads_key rights peer_id key ≡ true
reads_key-FirstFit peer_id key _ (here p rest e a) =
    ground (arith, reads_key-cons p rest peer_id key)
reads_key-FirstFit peer_id key _ (there p rest e f) =
    ground (arith, reads_key-cons p rest peer_id key, reads_key-FirstFit peer_id key rest f)

-- A key may be read exactly if the first entry that covers the account and the key is a whitelist.
pub is_allowed_to_read_key-FirstFit :
    (c : AccountChecker) (peer_id : PeerId) (key : String)
    → (is_allowed_to_read_key c peer_id key ≡ true)
      ↔ FirstFit peer_id key true c.account.reading_rights
unfolding is_allowed_to_read_key
is_allowed_to_read_key-FirstFit c peer_id key = (
  FirstFit-reads_key peer_id key c.account.reading_rights,
  reads_key-FirstFit peer_id key c.account.reading_rights,
)

reads_any-FirstFit :
    (peer_id : PeerId) (key : String) (rights : List ReadingPermission)
    → FirstFit peer_id key true rights
    → reads_any rights peer_id ≡ true
unfolding reads_any covers
reads_any-FirstFit peer_id key _ (here (whitelist r) rest e a) = ground arith
reads_any-FirstFit peer_id key _ (here (blacklist r) rest e a) = cc
reads_any-FirstFit peer_id key _ (there (whitelist r) rest e f) =
    ground (arith, reads_any-FirstFit peer_id key rest f)
reads_any-FirstFit peer_id key _ (there (blacklist r) rest e f) =
    reads_any-FirstFit peer_id key rest f

-- The reader drops the accounts of which no key at all may be read. This drops no key that may be
-- read: who may read one key of an account may read some key of it.
pub is_allowed_to_read_any_key-is_allowed_to_read_key :
    (c : AccountChecker) (peer_id : PeerId) (key : String)
    → is_allowed_to_read_key c peer_id key ≡ true
    → is_allowed_to_read_any_key c peer_id ≡ true
unfolding is_allowed_to_read_any_key
is_allowed_to_read_any_key-is_allowed_to_read_key c peer_id key h =
    reads_any-FirstFit peer_id key c.account.reading_rights
      ((is_allowed_to_read_key-FirstFit c peer_id key).0 h)
