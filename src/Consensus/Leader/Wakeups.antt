-- ===== src/Consensus/Leader/Wakeups.antt =====
-- The loop of a leader between two notifications ends.
use prellblock.Prelude.{
  ◌≤◌, ◌<◌, ◌≡◌, refl, ap, inl, inr, Bool, true, false, List, [], ◌∷◌, ◌++◌, Option, some, length,
  leb, Bool-cases, Outcome, ok, err, panicked, arith,
}
use prellblock.Pinxit.{Signed}
use prellblock.Api.Transaction.{Transaction}
use prellblock.Queue.{Queue, len}
use prellblock.Consensus.Error.{Error}
use prellblock.Consensus.Core.{Externals}
use prellblock.Consensus.Leader.{
  Leader, Surroundings, Round, execute_round, execute_rounds, followed_by, min_block_size,
  max_transactions_per_block,
}
use prellblock.Consensus.Leader.Batch.{take_batch-IsFront, execute_round-queue}

-- Where the loop stops without an error, less is queued than the smallest block has.
abbrev pub IsDrained : Bool → Round → Type 0
IsDrained timed_out r = r.result ≡ ok tt → len r.queue < min_block_size timed_out

round_shrinks :
    (x : Externals) (around : Surroundings) (q : Queue (Signed Transaction)) (l : Leader)
    → 1 ≤ len q
    → len (execute_round x around q l).queue < len q
round_shrinks x around q l h =
    let f = take_batch-IsFront max_transactions_per_block q in
    rw (execute_round-queue x around q l)
      (elim f.full [ inl e ↦ omega (arith, f.counts, e) | inr e ↦ omega (arith, ap length e) ])

at_least_one :
    (timed_out : Bool) (q : Queue (Signed Transaction))
    → leb (min_block_size timed_out) (len q) ≡ true
    → 1 ≤ len q
at_least_one true q h = ground arith
at_least_one false q h = ground arith

-- A round that fails ends the loop, and one that does not leaves it to the later ones.
followed_by-IsDrained :
    (timed_out : Bool) (r last : Round) (o : Option Round)
    → o ≡ followed_by r r.result (some last)
    → IsDrained timed_out last
    → (r' : Round) × (o ≡ some r') × IsDrained timed_out r'
followed_by-IsDrained timed_out r last o h d = go r.result refl h
  where
    go :
        (s : Outcome Error (Unit {0}))
        → r.result ≡ s
        → o ≡ followed_by r s (some last)
        → (r' : Round) × (o ≡ some r') × IsDrained timed_out r'
    go (ok done) e k = (record last { sent = r.sent ++ last.sent }, k, d)
    go (err y) e k = (r, k, λ f. ground (arith, f, e))
    go panicked e k = (r, k, λ f. ground (arith, f, e))

module _ (x : Externals) (timed_out : Bool) where
  -- With as many rounds as there are queued transactions the loop ends, by an error or a panic of a
  -- round or because fewer transactions are left than the smallest block has, if nothing is queued
  -- meanwhile.
  pub execute_rounds-IsDrained :
      (arounds : List Surroundings) (q : Queue (Signed Transaction)) (l : Leader)
      → len q ≤ length arounds
      → (r : Round) × (execute_rounds x timed_out arounds q l ≡ some r) × IsDrained timed_out r
  unfolding execute_rounds
  execute_rounds-IsDrained [] q l h =
      (record { leader = l; queue = q; sent = []; result = ok tt }, ground arith, λ e. ground arith)
  execute_rounds-IsDrained (around ∷ later) q l h =
      elim (Bool-cases (leb (min_block_size timed_out) (len q))) [
        | inl e ↦
            let r = execute_round x around q l in
            let shrinks = round_shrinks x around q l (at_least_one timed_out q e) in
            let (last, k, d) =
              execute_rounds-IsDrained later r.queue r.leader (omega (arith, shrinks)) in
            followed_by-IsDrained timed_out r last (execute_rounds x timed_out (around ∷ later) q l)
              (ground (arith, e, k)) d
        | inr e ↦ (
          record { leader = l; queue = q; sent = []; result = ok tt },
          ground (arith, e),
          λ f. ground (arith, e),
        )
      ]
