-- ===== src/Pinxit/Laws.antt =====
-- Round trips of signing and verifying, on what ed25519_dalek documents.
use prellblock.Prelude.{
  ℕ, ◌≡◌, refl, ◌∙◌, List, [], ◌∷◌, map, Option, none, some, Option-cases, Bool, true, false, ◌&&◌,
  if◌then◌else◌, inl, inr, Outcome, ok, err, panicked, arith,
}
use prellblock.Pinxit.{
  Ed25519, PeerId, Signature, Bytes, Error, Signed, Verified, from_secret_key, sign, verify,
  collect_messages, verify_signed_batch,
}

-- every signature of the batch, one by one
abbrev pub verify_each : Ed25519 → List Bytes → List Signature → List PeerId → Bool
verify_each e (m ∷ ms) (s ∷ ss) (p ∷ ps) = e.verify p m s && verify_each e ms ss ps
verify_each e [] [] [] = true
verify_each e _ _ _ = false

-- What the library documents: a signature is valid for its key and message, and a batch is valid
-- if and only if each of its signatures is.
pub record IsSound (e : Ed25519) : Type 0 where
  pub own_signature :
      (secret : ℕ) (m : Bytes)
      → e.verify (e.public_key secret) m (e.sign secret m (e.public_key secret)) ≡ true
  pub batch :
      (ms : List Bytes) (ss : List Signature) (ps : List PeerId)
      → e.verify_batch ms ss ps ≡ verify_each e ms ss ps

abbrev pub accepts : {A : Type 0} → Outcome Error A → Bool
accepts (ok a) = true
accepts (err x) = false
accepts panicked = false

-- a value whose signature has been checked
abbrev pub wrap : {T : Type 0} → Signed T → Verified T
wrap s = record { inner = s }

pub verify_signed_batch-eq-ok :
    (e : Ed25519) {T : Type 0} (signable_data : T → Option Bytes) (batch : List (Signed T))
    (vs : List (Verified T))
    → verify_signed_batch e signable_data batch ≡ ok vs
    → vs ≡ map wrap batch
unfolding verify_signed_batch
verify_signed_batch-eq-ok e signable_data batch vs h = ground arith

module _ (e : Ed25519) {T : Type 0} (signable_data : T → Option Bytes) where
  -- Each value is verified by itself.
  abbrev pub all_accepted : List (Signed T) → Bool
  all_accepted [] = true
  all_accepted (s ∷ batch) = accepts (verify e signable_data s) && all_accepted batch

module _ (e : Ed25519) (sound : IsSound e) {T : Type 0} (signable_data : T → Option Bytes) where
  -- What an identity has signed is verified, with the identity as its signer and the message as its
  -- body.
  pub verify-sign :
      (secret : ℕ) (message : T) (s : Signed T)
      → sign e signable_data message (from_secret_key e secret) ≡ ok s
      → (verify e signable_data s ≡ ok (record { inner = s }))
        × (s.signer ≡ e.public_key secret)
        × (s.body ≡ message)
  unfolding sign verify from_secret_key
  verify-sign secret message s h = elim (Option-cases (signable_data message)) [
    | inl n ↦ ground arith
    | inr (m, k) ↦ ground (arith, sound.own_signature secret m)
  ]

  -- the batch check over what `collect_messages` gave
  abbrev each_of : Outcome Error (List Bytes) → List (Signed T) → Bool
  each_of (ok ms) batch =
      verify_each e ms (map (λ s. s.signature) batch) (map (λ s. s.signer) batch)
  each_of (err x) batch = false
  each_of panicked batch = false

  each_of-collect_messages :
      (batch : List (Signed T))
      → each_of (collect_messages e signable_data batch) batch ≡ all_accepted e signable_data batch
  unfolding collect_messages verify
  each_of-collect_messages [] = refl
  each_of-collect_messages (s ∷ batch) =
      go (signable_data s.body) refl (collect_messages e signable_data batch) refl
        (each_of-collect_messages batch)
    where
      go :
          (o : Option Bytes)
          → signable_data s.body ≡ o
          → (c : Outcome Error (List Bytes)) → collect_messages e signable_data batch ≡ c
          → each_of (collect_messages e signable_data batch) batch
            ≡ all_accepted e signable_data batch
          → each_of (collect_messages e signable_data (s ∷ batch)) (s ∷ batch)
            ≡ all_accepted e signable_data (s ∷ batch)
      go none h c k ih = ground arith
      go (some m) h (ok ms) k ih = ground arith
      go (some m) h (err x) k ih = ground arith
      go (some m) h panicked k ih = ground arith

  pub accepts-verify_signed_batch :
      (batch : List (Signed T))
      → accepts (verify_signed_batch e signable_data batch) ≡ all_accepted e signable_data batch
  unfolding verify_signed_batch
  accepts-verify_signed_batch batch =
      go (collect_messages e signable_data batch) refl ∙ each_of-collect_messages batch
    where
      go :
          (c : Outcome Error (List Bytes))
          → collect_messages e signable_data batch ≡ c
          → accepts (verify_signed_batch e signable_data batch)
            ≡ each_of (collect_messages e signable_data batch) batch
      go (ok ms) h = ground (
        arith,
        sound.batch ms (map (λ (s : Signed T). s.signature) batch)
            (map (λ (s : Signed T). s.signer) batch),
      )
      go (err x) h = ground arith
      go panicked h = ground arith

  -- `Result::ok` of a batch check
  abbrev pub accepted : {A : Type 0} → Outcome Error A → Option A
  accepted (ok a) = some a
  accepted (err x) = none
  accepted panicked = none

  -- The batch check accepts exactly the batches of which every value is verified by itself, and then
  -- returns all of them, in order.
  pub accepted-verify_signed_batch :
      (batch : List (Signed T))
      → accepted (verify_signed_batch e signable_data batch)
        ≡ (if all_accepted e signable_data batch then some (map wrap batch) else none)
  accepted-verify_signed_batch batch =
      go (verify_signed_batch e signable_data batch) refl (accepts-verify_signed_batch batch)
    where
      go :
          (o : Outcome Error (List (Verified T)))
          → verify_signed_batch e signable_data batch ≡ o
          → accepts (verify_signed_batch e signable_data batch) ≡ all_accepted e signable_data batch
          → accepted (verify_signed_batch e signable_data batch)
            ≡ (if all_accepted e signable_data batch then some (map wrap batch) else none)
      go (ok vs) h a = ground (arith, verify_signed_batch-eq-ok e signable_data batch vs h)
      go (err y) h a = ground arith
      go panicked h a = ground arith
