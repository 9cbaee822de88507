-- ===== src/Consensus/Dispatch/Runs.antt =====
-- What an RPU acknowledges while it handles messages one after another.
use prellblock.Prelude.{
  ℕ, ◌≡◌, refl, sym, ◌∙◌, ap, subst, List, [], ◌∷◌, Option, none, some, Outcome, arith,
}
use mathlib.Core.List.{Memᴰ}
use mathlib.Core.List.Memᴰ
use prellblock.Pinxit.{Signed, Identity}
use prellblock.Api.Account.{Time}
use prellblock.Api.Transaction.{Transaction}
use prellblock.Consensus.Error.{Error}
use prellblock.Consensus.Message.{Metadata, ConsensusMessage, SynchronizationResponse}
use prellblock.Consensus.Core.{Externals}
use prellblock.Consensus.Store.{BlockStore}
use prellblock.Consensus.Follower.{State}
use prellblock.Consensus.Follower.Promise.{
  Keeps, Promised, Promised-Keeps, Acknowledges, Promised-Acknowledges,
}
use prellblock.Consensus.Follower.Handlers.Promises.{Fits}
use prellblock.Consensus.Dispatch.Promises.{
  acknowledged_in, with_acknowledged, NeedsNoBlocks, handle_message-Keeps,
  handle_message-Acknowledges,
}
use prellblock.Consensus.Dispatch.{Instance, handle_message}

module _ (store : BlockStore) (x : Externals) where
  -- The messages that an RPU has handled one after another, with all that it has acknowledged, the newest
  -- first. The clock, the answer of a leader and the times of insertion are new for each message; no
  -- blocks are fetched.
  pub data Run (identity : Identity) (i : Instance store x)
      : List Metadata → Instance store x → Type 0 where
    start : Run identity i [] i
    handled :
        (ms : List Metadata) (j : Instance store x) (now : Time)
        (at_times : List (Signed Transaction) → List (ℕ × Signed Transaction))
        (answer : Outcome Error SynchronizationResponse) (message : Signed ConsensusMessage)
        → Run identity i ms j
        → Fits store x j.follower
        → NeedsNoBlocks message.body j.follower.state
        → Run identity i
            (with_acknowledged
              (acknowledged_in
                (handle_message store x now at_times identity answer message j).result)
              ms)
            (handle_message store x now at_times identity answer message j).instance'

  -- Everything acknowledged is a promise, and agrees with all that is acknowledged in the same round.
  record IsFaithful (ms : List Metadata) (s : State) : Type 0 where
    promises : (m : Metadata) → Memᴰ m ms → Promised m s
    agree :
        (m m' : Metadata)
        → Memᴰ m ms
        → Memᴰ m' ms
        → m.leader_term ≡ m'.leader_term
        → m.block_number ≡ m'.block_number
        → m.block_hash ≡ m'.block_hash

  with_acknowledged-IsFaithful :
      (o : Option Metadata) (ms : List Metadata) (s s' : State)
      → IsFaithful ms s
      → Keeps s s'
      → ((m : Metadata) → o ≡ some m → Acknowledges m s s')
      → IsFaithful (with_acknowledged o ms) s'
  with_acknowledged-IsFaithful none ms s s' f k a = record {
    promises = λ m h. Promised-Keeps m s s' (f.promises m h) k;
    agree = f.agree;
  }
  with_acknowledged-IsFaithful (some c) ms s s' f k a = record {
    promises = promises;
    agree = agree;
  }
    where
      new : Acknowledges c s s'
      new = a c refl

      promises : (m : Metadata) → Memᴰ m (c ∷ ms) → Promised m s'
      promises m (Memᴰ.head e) = subst (λ d. Promised d s') (sym e) new.promised
      promises m (Memᴰ.tail h) = Promised-Keeps m s s' (f.promises m h) k

      agree :
          (m m' : Metadata)
          → Memᴰ m (c ∷ ms)
          → Memᴰ m' (c ∷ ms)
          → m.leader_term ≡ m'.leader_term
          → m.block_number ≡ m'.block_number
          → m.block_hash ≡ m'.block_hash
      agree m m' (Memᴰ.head e) (Memᴰ.head e') t n = ground arith
      agree m m' (Memᴰ.head e) (Memᴰ.tail h') t n =
          ap (λ (d : Metadata). d.block_hash) e
          ∙ sym (
              Promised-Acknowledges m' c s s' (f.promises m' h') new
                (sym t ∙ ap (λ (d : Metadata). d.leader_term) e)
                (sym n ∙ ap (λ (d : Metadata). d.block_number) e))
      agree m m' (Memᴰ.tail h) (Memᴰ.head e') t n =
          Promised-Acknowledges m c s s' (f.promises m h) new
            (t ∙ ap (λ (d : Metadata). d.leader_term) e')
            (n ∙ ap (λ (d : Metadata). d.block_number) e')
          ∙ sym (ap (λ (d : Metadata). d.block_hash) e')
      agree m m' (Memᴰ.tail h) (Memᴰ.tail h') t n = f.agree m m' h h' t n

  Run-IsFaithful :
      (identity : Identity) (i j : Instance store x) (ms : List Metadata)
      → Run identity i ms j
      → IsFaithful ms j.follower.state
  Run-IsFaithful identity i _ _ start = record {
    promises = λ m h. absurd (Memᴰ.not-nil h);
    agree = λ m m' h h' t n. absurd (Memᴰ.not-nil h);
  }
  Run-IsFaithful identity i _ _ (handled ms j now at_times answer message r f k) =
      with_acknowledged-IsFaithful
        (acknowledged_in (handle_message store x now at_times identity answer message j).result) ms
        j.follower.state
        (handle_message store x now at_times identity answer message j).instance'.follower.state
        (Run-IsFaithful identity i j ms r)
        (handle_message-Keeps store x now at_times identity answer message j f k)
        (λ m. handle_message-Acknowledges store x now at_times identity answer message j m f)

  -- An RPU that handles any messages, whoever sends them, without fetching blocks and with room for the
  -- block numbers, never acknowledges two different hashes for one leader term and block number, be it
  -- for a prepare or an append message.
  pub Run-agrees :
      (identity : Identity) (i j : Instance store x) (ms : List Metadata) (m m' : Metadata)
      → Run identity i ms j
      → Memᴰ m ms
      → Memᴰ m' ms
      → m.leader_term ≡ m'.leader_term
      → m.block_number ≡ m'.block_number
      → m.block_hash ≡ m'.block_hash
  Run-agrees identity i j ms m m' r = let f = Run-IsFaithful identity i j ms r in f.agree m m'
