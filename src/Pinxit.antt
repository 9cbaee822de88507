-- ===== src/Pinxit.antt =====
-- pinxit/src: identities, signatures, and values that carry a signature.
pub mod Laws
mod Tests
use prellblock.Prelude.{
  ℕ, List, [], ◌∷◌, Option, none, some, Bool, true, false, if◌then◌else◌, map, Outcome, ok, err,
  panicked, ◌>>=◌, ◌>>◌, ◌==◌,
}

abbrev pub Bytes : Type 0
Bytes = List ℕ

-- A public key, a signature: the number that its bytes spell.
abbrev pub PeerId : Type 0
PeerId = ℕ

abbrev pub Signature : Type 0
Signature = ℕ

-- ed25519_dalek, which is not part of the repository.
pub record Ed25519 : Type 0 where
  pub public_key : ℕ → PeerId
  pub sign : ℕ → Bytes → PeerId → Signature
  pub verify : PeerId → Bytes → Signature → Bool
  pub verify_batch : List Bytes → List Signature → List PeerId → Bool

pub data Error : Type 0 where
  signature_error signable_error : Error

pub record Identity : Type 0 where
  pub id : PeerId
  pub secret : ℕ

pub record Signed (T : Type 0) : Type 0 where
  pub signer : PeerId
  pub body : T
  pub signature : Signature

-- `PartialEq for Signed<T>` compares the signatures only.
abbrev pub signed_eq : {T : Type 0} → Signed T → Signed T → Bool
signed_eq a b = a.signature == b.signature

-- `Verified<T>` and `VerifiedRef<T>` wrap a signed value; the type is the proof of the check.
pub record Verified (T : Type 0) : Type 0 where
  pub inner : Signed T

-- `Identity::from_secret_key`
unfoldable pub from_secret_key : Ed25519 → ℕ → Identity
from_secret_key e secret = record { id = e.public_key secret; secret = secret }

-- `signable_data` is the implementation of `Signable` for the type, with `none` for its error.
module _ (e : Ed25519) {T : Type 0} (signable_data : T → Option Bytes) where
  signable : T → Outcome Error Bytes
  signable message = elim (signable_data message) [
    | none ↦ err signable_error
    | some bytes ↦ ok bytes
  ]

  -- `Signable::sign`, with `Identity::sign`
  unfoldable pub sign : T → Identity → Outcome Error (Signed T)
  unfolding signable
  sign message identity = do
    bytes ← signable message
    ok (record {
      signer = identity.id;
      body = message;
      signature = e.sign identity.secret bytes identity.id;
    })

  -- `PeerId::verify`
  unfoldable pub verify_signature : PeerId → T → Signature → Outcome Error (Unit {0})
  unfolding signable
  verify_signature peer message signature = do
    bytes ← signable message
    if e.verify peer bytes signature then ok tt else err signature_error

  -- `Signed::verify` and `Signed::verify_ref`
  unfoldable pub verify : Signed T → Outcome Error (Verified T)
  unfolding verify_signature
  verify s = do verify_signature s.signer s.body s.signature; ok (record { inner = s })

  -- the loop of `verify_signed_batch_inner` that collects the messages
  collect_messages : List (Signed T) → Outcome Error (List Bytes)
  unfolding signable
  collect_messages [] = ok []
  collect_messages (s ∷ rest) =
      let later = collect_messages rest in
      do bytes ← signable s.body; messages ← later; ok (bytes ∷ messages)

  verify_signed_batch_inner : List (Signed T) → Outcome Error (Unit {0})
  unfolding collect_messages
  verify_signed_batch_inner batch = do
    messages ← collect_messages batch
    if e.verify_batch messages (map (λ s. s.signature) batch) (map (λ s. s.signer) batch)
        then ok tt
        else err signature_error

  -- `verify_signed_batch` and `verify_signed_batch_iter`
  unfoldable pub verify_signed_batch : List (Signed T) → Outcome Error (List (Verified T))
  unfolding verify_signed_batch_inner
  verify_signed_batch batch = do
    verify_signed_batch_inner batch
    ok (map (λ s. record { inner = s }) batch)
