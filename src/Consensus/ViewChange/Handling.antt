-- ===== src/Consensus/ViewChange/Handling.antt =====
-- `handle_view_change`, on every branch.
use prellblock.Prelude.{
  ℕ, ◌+◌, ◌≤◌, ◌<◌, ◌≡◌, ◌⊎◌, inl, inr, List, some, length, ltb, if◌then◌else◌, Outcome, ok, err,
  arith,
}
use prellblock.Prelude.Map
use prellblock.Prelude.Map.{Map}
use prellblock.Prelude.Sets.{Distinct}
use prellblock.Pinxit.{PeerId, Signature}
use prellblock.Api.Account.{Time}
use prellblock.Api.Block.{LeaderTerm, SignatureList, signers}
use prellblock.RingBuffer.Access.{written, get_mut_outside}
use prellblock.Consensus.Error.{Error, leader_term_too_small, leader_term_too_big}
use prellblock.Consensus.Core.{supermajority}
use prellblock.Consensus.ViewChange.{State, Effect, ring_buffer_size, handle_view_change}
use prellblock.Consensus.ViewChange.Terms.{IsValid}

-- The term stays, or it becomes the given later one on the votes of a majority of distinct peers.
pub data TermStep (peers_len : ℕ) (term : LeaderTerm) (s s' : State) : Type 0 where
  stays :
      s'.leader_term ≡ s.leader_term
      → s'.current_signatures ≡ s.current_signatures
      → TermStep peers_len term s s'
  rises :
      (l : SignatureList)
      → s.leader_term < term
      → s'.leader_term ≡ term
      → s'.current_signatures ≡ some l
      → Distinct (signers l)
      → supermajority peers_len ≤ length l
      → TermStep peers_len term s s'

-- What a handled vote does.
pub record Handled (peers_len : ℕ) (term : LeaderTerm) (s : State)
    (o : Outcome Error (State × List Effect)) : Type 0 where
  pub after : State
  pub effects : List Effect
  pub returns : o ≡ ok (after, effects)
  pub valid : IsValid after
  pub step : TermStep peers_len term s after

abbrev voted : State → LeaderTerm → Map Signature → State
voted s term m = record s { future_signatures = written s.future_signatures term m }

-- A vote for a term outside the window is refused: as too small before it, as too big behind it.
pub handle_view_change_outside :
    (now : Time) (n : ℕ) (peer : PeerId) (signature : Signature) (term : LeaderTerm) (s : State)
    → IsValid s
    → (term < s.future_signatures.start) ⊎ (s.future_signatures.start + ring_buffer_size ≤ term)
    → handle_view_change now n peer signature term s
      ≡ err (
          if ltb term s.future_signatures.start
          then leader_term_too_small term
          else leader_term_too_big term)
unfolding handle_view_change
handle_view_change_outside now n peer signature term s v outside =
    let (below, above) = get_mut_outside term v.ring in
    elim outside [
      | inl h ↦ ground (arith, below h)
      | inr h ↦ ground (arith, above (omega (arith, v.size)))
    ]
