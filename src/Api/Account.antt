-- ===== src/Api/Account.antt =====
-- prellblock-client-api/src/account.rs
use Prim.Native.String.{String}
use prellblock.Prelude.{ℕ, ltb, List, [], Option, none, some, Bool, true, false}
use prellblock.Pinxit.{PeerId}

-- A socket address, as the number that its bytes spell.
abbrev pub SocketAddr : Type 0
SocketAddr = ℕ

-- A point in time, in nanoseconds from the earliest one.
abbrev pub Time : Type 0
Time = ℕ

pub data AccountType : Type 0 where
  normal block_reader : AccountType
  -- the addresses of the `Turi` and of the `PeerInbox`
  rpu : SocketAddr → SocketAddr → AccountType
  admin : AccountType

-- `matches!(account_type, AccountType::RPU { .. })`
abbrev pub is_rpu : AccountType → Bool
is_rpu (rpu turi_address peer_address) = true
is_rpu other = false

pub data Expiry : Type 0 where
  never : Expiry
  at_date : Time → Expiry

unfoldable pub is_expired : Time → Expiry → Bool
is_expired now never = false
is_expired now (at_date expiry) = ltb expiry now

pub record Permission : Type 0 where
  pub scope : String

pub record ReadingRight : Type 0 where
  pub accounts : List PeerId
  pub namespace : List Permission

pub data ReadingPermission : Type 0 where
  blacklist whitelist : ReadingRight → ReadingPermission

pub record Account : Type 0 where
  pub name : String
  pub account_type : AccountType
  pub expire_at : Expiry
  pub writing_rights : Bool
  pub reading_rights : List ReadingPermission

pub record Permissions : Type 0 where
  pub account_type : Option AccountType
  pub expire_at : Option Expiry
  pub has_writing_rights : Option Bool
  pub reading_rights : Option (List ReadingPermission)

-- `Account::new`
unfoldable pub new : String → Account
new name = record {
  name = name;
  account_type = normal;
  expire_at = never;
  writing_rights = false;
  reading_rights = [];
}

-- `if let Some(value) = field { self.field = value }`
abbrev pub overwrite : {A : Type 0} → A → Option A → A
overwrite old none = old
overwrite old (some value) = value

unfoldable pub apply_permissions : Account → Permissions → Account
apply_permissions a p = record {
  name = a.name;
  account_type = overwrite a.account_type p.account_type;
  expire_at = overwrite a.expire_at p.expire_at;
  writing_rights = overwrite a.writing_rights p.has_writing_rights;
  reading_rights = overwrite a.reading_rights p.reading_rights;
}
