-- ===== src/BlockStorage/Series/Permitted.antt =====
-- What a query reads may be read.
use Prim.Native.String.{String}
use prellblock.Prelude.{
  ℕ, ◌≡◌, refl, subst, ltb, List, [], ◌∷◌, Bool, true, false, ◌&&◌, if◌then◌else◌, Outcome, ok,
  ◌>>=◌, >>=-eq-ok, arith,
}
use prellblock.Pinxit.{PeerId, Bytes}
use prellblock.Api.Account.{Time}
use prellblock.Api.Query.{Bound, Filter, start_bound, end_bound, Query}
use prellblock.TransactionChecker.{AccountChecker, is_allowed_to_read_key}
use prellblock.BlockStorage.Sled
use prellblock.BlockStorage.Sled.{above, below, within}
use prellblock.BlockStorage.{Error, Codec, BlockStorage}
use prellblock.BlockStorage.Series.{
  Series, read_transactions_inner, read_time_series, read_keys, read_transactions,
}

module _ (before : String → String → Bool) (numbers : Sled.Sled ℕ ltb)
    (names : Sled.Sled String before) (codec : Codec) (checker : AccountChecker)
    (peer_id : PeerId) where
  -- a key between two bounds that the account may read
  pub record MayRead (start end : Bound String) (key : String) : Type 0 where
    pub allowed : is_allowed_to_read_key checker peer_id key ≡ true
    pub from_start : above before start key ≡ true
    pub to_end : below before end key ≡ true

  abbrev pub AllMayRead : Bound String → Bound String → List (String × Series) → Type 0
  AllMayRead start end [] = Unit
  AllMayRead start end ((key, series) ∷ r) = MayRead start end key × AllMayRead start end r

  abbrev AllWithin : Bound String → Bound String → List (String × Bytes) → Type 0
  AllWithin start end [] = Unit
  AllWithin start end ((key, v) ∷ l) =
      (above before start key ≡ true) × (below before end key ≡ true) × AllWithin start end l

  within-AllWithin :
      (start end : Bound String) (l : List (String × Bytes))
      → AllWithin start end (within before start end l)
  within-AllWithin start end [] = tt
  within-AllWithin start end ((key, v) ∷ l) =
      go (above before start key) (below before end key) refl refl (within-AllWithin start end l)
    where
      go :
          (a b : Bool)
          → above before start key ≡ a
          → below before end key ≡ b
          → AllWithin start end (within before start end l)
          → AllWithin start end
              (if a && b then (key, v) ∷ within before start end l else within before start end l)
      go true true e f ih = (e, f, ih)
      go true false e f ih = ih
      go false b e f ih = ih

  AllMayRead-cons :
      (start end : Bound String) (key : String) (transactions : Outcome Error Series)
      (rest : Outcome Error (List (String × Series))) (r : List (String × Series))
      → MayRead start end key
      → ((m : List (String × Series)) → rest ≡ ok m → AllMayRead start end m)
      → (transactions >>= λ t. rest >>= λ more. ok ((key, t) ∷ more)) ≡ ok r
      → AllMayRead start end r
  AllMayRead-cons start end key transactions rest r may ih h =
      let (t, e, k) = >>=-eq-ok transactions (λ t. rest >>= λ more. ok ((key, t) ∷ more)) h in
      let (more, e', k') = >>=-eq-ok rest (λ more. ok ((key, t) ∷ more)) k in
      let same : (key, t) ∷ more ≡ r = ground (arith, k') in
      subst (λ l. AllMayRead start end l) same (may, ih more e')

  read_keys-AllMayRead :
      (now : Time) (query : Query) (s : BlockStorage before numbers names codec)
      (start end : Bound String) (l : List (String × Bytes)) (r : List (String × Series))
      → AllWithin start end l
      → read_keys before numbers names codec now checker peer_id query s l ≡ ok r
      → AllMayRead start end r
  unfolding read_keys
  read_keys-AllMayRead now query s start end [] r w h =
      let same : [] ≡ r = ground (arith, h) in subst (λ l. AllMayRead start end l) same tt
  read_keys-AllMayRead now query s start end ((key, v) ∷ l) r (a, b, w) h =
      go (is_allowed_to_read_key checker peer_id key) refl
        (λ m. read_keys-AllMayRead now query s start end l m w) h
    where
      rest : Outcome Error (List (String × Series))
      rest = read_keys before numbers names codec now checker peer_id query s l

      go :
          (allowed : Bool)
          → is_allowed_to_read_key checker peer_id key ≡ allowed
          → ((m : List (String × Series)) → rest ≡ ok m → AllMayRead start end m)
          → (if allowed
              then (read_transactions_inner now
                    (read_time_series before numbers names codec peer_id key s)
                    query
                  >>= λ t. rest >>= λ more. ok ((key, t) ∷ more))
              else rest)
            ≡ ok r
          → AllMayRead start end r
      go true e ih k =
          AllMayRead-cons start end key _ rest r
            (record { allowed = e; from_start = a; to_end = b }) ih k
      go false e ih k = ih r k

  -- Each key for which values are returned lies in the filter, and the account may read it.
  pub read_transactions-AllMayRead :
      (now : Time) (filter : Filter String) (query : Query)
      (s : BlockStorage before numbers names codec) (r : List (String × Series))
      → read_transactions before numbers names codec now checker peer_id filter query s ≡ ok r
      → AllMayRead (start_bound filter) (end_bound filter) r
  unfolding read_transactions
  read_transactions-AllMayRead now filter query s r h =
      read_keys-AllMayRead now query s (start_bound filter) (end_bound filter)
        (within before (start_bound filter) (end_bound filter) (names.items (s.keys peer_id))) r
        (within-AllWithin (start_bound filter) (end_bound filter) (names.items (s.keys peer_id)))
        (rw (← names.range_lem (start_bound filter) (end_bound filter) (s.keys peer_id)) h)
