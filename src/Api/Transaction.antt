-- ===== src/Api/Transaction.antt =====
-- `Transaction` of prellblock-client-api/src/lib.rs
use Prim.Native.String.{String}
use prellblock.Pinxit.{PeerId, Bytes}
use prellblock.Api.Account.{Permissions, Time}

pub record KeyValue : Type 0 where
  pub key : String
  pub value : Bytes
  pub timestamp : Time

pub record UpdateAccount : Type 0 where
  pub id : PeerId
  pub permissions : Permissions
  pub timestamp : Time

pub record CreateAccount : Type 0 where
  pub id : PeerId
  pub name : String
  pub permissions : Permissions
  pub timestamp : Time

pub record DeleteAccount : Type 0 where
  pub id : PeerId
  pub timestamp : Time

pub data Transaction : Type 0 where
  key_value : KeyValue → Transaction
  update_account : UpdateAccount → Transaction
  create_account : CreateAccount → Transaction
  delete_account : DeleteAccount → Transaction
