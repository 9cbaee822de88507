-- ===== src/Consensus/ViewChange/Tests.antt =====
-- Tests of the votes for a new leader term.
use prellblock.Prelude.{
  ◌≡◌, refl, sym, subst, ◌%◌, inl, inr, List, [], Outcome, ok, err, panicked, get_elem?-replicate,
  arith,
}
use prellblock.Prelude.Map
use prellblock.Prelude.Map.{Map}
use prellblock.Pinxit.{Signature}
use prellblock.Prelude.Sets.{Distinct}
use prellblock.RingBuffer
use prellblock.RingBuffer.{get, get_mut}
use prellblock.Consensus.Core.{supermajority_reached}
use prellblock.RingBuffer.Access
use prellblock.RingBuffer.Access.{get_lem}
use prellblock.Api.Block.{signers}
use prellblock.Consensus.Error.{Error, leader_term_too_big}
use prellblock.Consensus.ViewChange.{
  State, Effect, new, handle_view_change, count_votes, did_reach_supermajority,
}
use prellblock.Consensus.ViewChange.Terms.{IsValid}
use prellblock.Consensus.ViewChange.Votes.{VotersDistinct}
use prellblock.Consensus.ViewChange.Handling.{handle_view_change_outside}

new_ring-IsValid : Access.IsValid new.future_signatures
unfolding new RingBuffer.new
new_ring-IsValid = record { holds = omega arith; fits = omega arith }

new-VotersDistinct : VotersDistinct new.future_signatures
unfolding new RingBuffer.new
new-VotersDistinct i m h =
    let k : m ≡ [] = ground (
      arith,
      get_lem i new_ring-IsValid,
      get_elem?-replicate {A = Map Signature} 64 (i % 64) [] (omega arith),
    ) in
    subst (λ x. Distinct (signers x)) (sym k) tt

new-IsValid : IsValid new
unfolding new RingBuffer.new
new-IsValid = record {
  ring = new_ring-IsValid;
  size = refl;
  starts = inl (refl, refl);
  voters = new-VotersDistinct;
}

handle_view_change_outside_test : handle_view_change 0 4 2 77 64 new ≡ err (leader_term_too_big 64)
unfolding new RingBuffer.new
handle_view_change_outside_test =
    handle_view_change_outside 0 4 2 77 64 new new-IsValid (inr (omega arith))

abbrev after : Outcome Error (State × List Effect) → State
after (ok (s, effects)) = s
after (err e) = new
after panicked = new

abbrev two_votes : State
two_votes = after (handle_view_change 0 4 2 72 0 (after (handle_view_change 0 4 1 71 0 new)))

-- The first window has the term 0, and the third vote for it fails the assertion of a later term.
votes_for_zero : handle_view_change 0 4 3 73 0 two_votes ≡ panicked
unfolding handle_view_change count_votes did_reach_supermajority supermajority_reached new get_mut
    RingBuffer.new Map.find Map.insert Map.remove
votes_for_zero = refl
