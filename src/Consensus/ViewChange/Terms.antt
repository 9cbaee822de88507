-- ===== src/Consensus/ViewChange/Terms.antt =====
-- Leader terms rise, and only on a majority of votes.
use prellblock.Prelude.{
  ℕ, ◌+◌, ◌-◌, ◌^◌, ◌≤◌, ◌<◌, ◌≡◌, refl, ◌∙◌, ap, ◌⊎◌, inr, [], some, length, ok, arith,
}
use prellblock.Prelude.Map.{Map}
use prellblock.Pinxit.{Signature}
use prellblock.Api.Account.{Time}
use prellblock.Api.Block.{LeaderTerm}
use prellblock.RingBuffer.{get}
use prellblock.RingBuffer.Access
use prellblock.RingBuffer.Access.{
  get_lem, written, get_in_window, get_mut_in_window, get_mut_outside, written-IsValid,
  length-written, get-written_self, get-written_ne,
}
use prellblock.RingBuffer.Shift.{increment_lem, increment_to_lem}
use prellblock.Consensus.ViewChange.{State, ring_buffer_size, did_reach_supermajority}
use prellblock.Consensus.ViewChange.Votes.{
  VotersDistinct, VotersDistinct-Shifted, VotersDistinct-Moved,
}

-- The buffer of votes has its full size and starts behind the current term, or with it before the
-- first change; its numbers are far from wrapping; no peer votes twice for a term.
pub record IsValid (s : State) : Type 0 where
  pub ring : Access.IsValid s.future_signatures
  pub size : length s.future_signatures.items ≡ ring_buffer_size
  pub starts :
      ((s.leader_term ≡ 0) × (s.future_signatures.start ≡ 0))
      ⊎ (s.future_signatures.start ≡ s.leader_term + 1)
  pub voters : VotersDistinct s.future_signatures

abbrev pub room : ℕ
room = 2 ^ 64 - 130

-- The state after a change to a new term, whose votes are `m`.
pub record Reached (now : Time) (term : LeaderTerm) (m : Map Signature) (s' : State) : Type 0 where
  pub valid : IsValid s'
  pub term_is : s'.leader_term ≡ term
  pub votes : s'.current_signatures ≡ some m
  pub timer : s'.new_view_time ≡ some now

pub did_reach_lem :
    (now : Time) (term : LeaderTerm) (s : State) (m : Map Signature)
    → IsValid s
    → s.leader_term < term
    → s.future_signatures.start ≤ term
    → term < s.future_signatures.start + ring_buffer_size
    → term < room
    → get s.future_signatures term ≡ ok m
    → (s' : State) × (did_reach_supermajority now term s ≡ some s') × Reached now term m s'
unfolding did_reach_supermajority
did_reach_lem now term s m v up lo hi fits g =
    let (moved, e, vm, st, mv) =
      increment_to_lem s.future_signatures term [] v.ring lo (omega (arith, v.size)) in
    let (old, rest, e', first, vr, sh) =
      increment_lem moved [] vm (omega (arith, v.size, mv.size, st)) in
    let same : get moved moved.start ≡ get s.future_signatures term =
      ap (λ i. get moved i) st ∙ mv.kept term (omega arith) (omega (arith, v.size)) in
    let k : old ≡ m = ground (arith, same) in
    let s' : State = record {
      leader_term = term;
      new_view_time = some now;
      current_signatures = some old;
      future_signatures = rest;
    } in
    (
      s',
      ground arith,
      record {
        valid = record {
          ring = vr;
          size = sh.size ∙ mv.size ∙ v.size;
          starts = inr (omega (arith, sh.start_next, st));
          voters =
              VotersDistinct-Shifted moved rest
                (VotersDistinct-Moved (term - s.future_signatures.start) s.future_signatures moved
                  v.voters vm mv)
                sh;
        };
        term_is = refl;
        votes = ap (λ x. some x) k;
        timer = refl;
      },
    )
