-- ===== src/Reader/Values.antt =====
-- What the values of an answer may be.
use Prim.Native.String.{String}
use prellblock.Prelude.{
  ℕ, ltb, ◌≡◌, subst, List, [], ◌∷◌, Bool, true, some, ok, >>=-eq-ok, map_err, Bool-cases, inl, inr,
  ◌==◌, ==_iff, arith,
}
use prellblock.Prelude.Map
use prellblock.Prelude.Map.{find-insert}
use prellblock.Pinxit
use prellblock.Pinxit.{PeerId, Signed}
use prellblock.Api.Account.{Time}
use prellblock.Api.Query.{GetValue, Filter, Query, start_bound, end_bound}
use prellblock.WorldState.{WorldState}
use prellblock.TransactionChecker.{AccountChecker, account_checker, is_allowed_to_read_any_key}
use prellblock.TransactionChecker.Authorization.{Active}
use prellblock.BlockStorage.{Codec, BlockStorage}
use prellblock.BlockStorage.Sled
use prellblock.BlockStorage.Series.{Series, read_transactions}
use prellblock.BlockStorage.Series.Permitted.{AllMayRead, read_transactions-AllMayRead}
use prellblock.Reader.{
  invalid_signature, permission, Encoding, ReadValues, read_peers, handle_get_value,
}
use prellblock.Reader.Access.{account_checker-Active}

module _ (encode : Encoding) (now : Time) (w : WorldState) (before : String → String → Bool)
    (numbers : Sled.Sled ℕ ltb) (names : Sled.Sled String before) (codec : Codec)
    (s : BlockStorage before numbers names codec) where
  -- Of each account in the answer some key may be read, and each of its keys that is there.
  abbrev pub Readable : AccountChecker → Filter String → ReadValues → Type 0
  Readable c filter values =
      (p : PeerId) (keys : List (String × Series))
      → Map.find p values ≡ some keys
      → (is_allowed_to_read_any_key c p ≡ true)
        × AllMayRead before numbers names codec c p (start_bound filter) (end_bound filter) keys

  Readable-insert :
      (c : AccountChecker) (filter : Filter String) (values : ReadValues) (p : PeerId)
      (keys : List (String × Series))
      → Readable c filter values
      → is_allowed_to_read_any_key c p ≡ true
      → AllMayRead before numbers names codec c p (start_bound filter) (end_bound filter) keys
      → Readable c filter (Map.insert p keys values)
  Readable-insert c filter values p keys r a m q other f = elim (Bool-cases (p == q)) [
    | inl e ↦
        let same : keys ≡ other = ground (arith, e, f, find-insert p q keys values) in
        let id : p ≡ q = (==_iff p q).0 e in
        (
          subst (λ i. is_allowed_to_read_any_key c i ≡ true) id a,
          subst
              (λ i.
                AllMayRead before numbers names codec c i (start_bound filter) (end_bound filter)
                  other)
              id
              (subst
                (λ l.
                  AllMayRead before numbers names codec c p (start_bound filter) (end_bound filter)
                    l)
                same m),
        )
    | inr e ↦ r q other (ground (arith, e, f, find-insert p q keys values))
  ]

  read_peers-Readable :
      (c : AccountChecker) (filter : Filter String) (query : Query) (ps : List PeerId)
      (values r : ReadValues)
      → Readable c filter values
      → read_peers encode now w before numbers names codec s c filter query ps values ≡ ok r
      → Readable c filter r
  unfolding read_peers
  read_peers-Readable c filter query [] values r a h =
      let same : values ≡ r = ground arith in subst (λ v. Readable c filter v) same a
  read_peers-Readable c filter query (p ∷ ps) values r a h =
      elim (Bool-cases (is_allowed_to_read_any_key c p)) [
        | inl e ↦
            let (keys, f, k) =
              >>=-eq-ok (read_transactions before numbers names codec now c p filter query s)
                (λ keys.
                  read_peers encode now w before numbers names codec s c filter query ps
                    (Map.insert p keys values))
                (ground (arith, e, h)) in
            read_peers-Readable c filter query ps (Map.insert p keys values) r
              (Readable-insert c filter values p keys a e (
                read_transactions-AllMayRead before numbers names codec c p now filter query s keys
                  f))
              k
        | inr e ↦ read_peers-Readable c filter query ps values r a (ground (arith, e, h))
      ]

  -- If values are returned, the signer has an account that has not expired, and by its reading rights it
  -- may read some key of each account in the answer, and each key of it there, which lies in the filter.
  pub handle_get_value-Readable :
      (message : Signed GetValue) (r : ReadValues)
      → handle_get_value encode now w before numbers names codec s message ≡ ok r
      → (c : AccountChecker) × Active now w message.signer c.account
        × Readable c message.body.filter r
  unfolding handle_get_value
  handle_get_value-Readable message r h =
      let (v, e, k) =
        >>=-eq-ok
          (map_err invalid_signature (Pinxit.verify encode.ed25519 encode.get_value message)) _ h in
      let (c, e', k') = >>=-eq-ok (map_err permission (account_checker now w message.signer)) _ k in
      (
        c,
        (account_checker-Active now w message.signer c e').0,
        read_peers-Readable c message.body.filter message.body.query message.body.peer_ids [] r
            (λ p keys f. absurd (ground (arith, f, Map.find-nil {V = List (String × Series)} p)))
            (ground (arith, k')),
      )
