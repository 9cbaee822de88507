-- ===== src/Consensus/ViewChange.antt =====
-- prellblock/src/consensus/praftbft/view_change: the votes for a new leader term.
pub mod Votes
pub mod Terms
pub mod Handling
mod Tests
use prellblock.Prelude.{
  ℕ, ◌+◌, ◌-◌, ◌/◌, Bool, true, false, List, [], ◌∷◌, ◌++◌, Option, none, some, length, ltb, leb,
  ◌==◌, if◌then◌else◌, Outcome, ok, err, panicked, add_u64, sub_u64, map_err,
}
use prellblock.Prelude.Map
use prellblock.Prelude.Map.{Map}
use prellblock.Pinxit.{PeerId, Signature}
use prellblock.Api.Account.{Time}
use prellblock.Api.Block.{BlockNumber, LeaderTerm, SignatureList}
use prellblock.RingBuffer
use prellblock.RingBuffer.{RingBuffer, get_mut, increment, increment_to}
use prellblock.WorldState.{WorldState}
use prellblock.Consensus.Error.{Error, from_ring_buffer}
use prellblock.Consensus.Message.{NewView}
use prellblock.Consensus.Core.{leader, supermajority_reached}

pub record State : Type 0 where
  pub leader_term : LeaderTerm
  pub new_view_time : Option Time
  pub current_signatures : Option SignatureList
  pub future_signatures : RingBuffer (Map Signature)

-- What a call does to others: it starts a broadcast, or wakes a task.
pub data Effect : Type 0 where
  broadcast_view_change : LeaderTerm → Effect
  notify_leader notify_new_view : Effect

abbrev pub ring_buffer_size : ℕ
ring_buffer_size = 64

-- in milliseconds
abbrev new_view_timeout : ℕ
new_view_timeout = 1000

-- `State::new`, with the size that `ViewChange::new` gives
unfoldable pub new : State
new = record {
  leader_term = 0;
  new_view_time = none;
  current_signatures = none;
  future_signatures = RingBuffer.new [] ring_buffer_size 0;
}

-- `none` is the failed assertion, or a panic of the buffer. The signatures of the term come in the
-- order of the map.
unfoldable pub did_reach_supermajority : Time → LeaderTerm → State → Option State
did_reach_supermajority now new_leader_term s =
    if ltb s.leader_term new_leader_term
    then elim (increment_to s.future_signatures new_leader_term []) [
      | none ↦ none
      | some moved ↦ elim (increment moved []) [
        | none ↦ none
        | some (signatures, rest) ↦ some (record {
          leader_term = new_leader_term;
          new_view_time = some now;
          current_signatures = some signatures;
          future_signatures = rest;
        })
      ]
    ]
    else none

-- f + 1
abbrev pub nonfaulty_count : ℕ → ℕ
nonfaulty_count peers_len = sub_u64 peers_len 1 / 3 + 1

-- the broadcast after the f + 1st signature
abbrev pub amplify : ℕ → ℕ → LeaderTerm → List Effect
amplify peers_len votes new_leader_term =
    if votes == nonfaulty_count peers_len then broadcast_view_change new_leader_term ∷ [] else []

-- the part after the signature of a new voter has been inserted
unfoldable pub count_votes : Time → ℕ → LeaderTerm → ℕ → State → Outcome Error (State × List Effect)
unfolding did_reach_supermajority
count_votes now peers_len new_leader_term votes s =
    let effects = amplify peers_len votes new_leader_term in
    elim (supermajority_reached votes peers_len) [
      | none ↦ panicked
      | some false ↦ ok (s, effects)
      | some true ↦ elim (did_reach_supermajority now new_leader_term s) [
        | none ↦ panicked
        | some s' ↦ ok (s', effects ++ (notify_leader ∷ notify_new_view ∷ []))
      ]
    ]

-- An error leaves the state as it was.
unfoldable pub handle_view_change :
    Time → ℕ → PeerId → Signature → LeaderTerm → State → Outcome Error (State × List Effect)
handle_view_change now peers_len peer_id signature new_leader_term s =
    elim (get_mut s.future_signatures new_leader_term) [
      | err e ↦ err (from_ring_buffer e)
      | panicked ↦ panicked
      | ok (signatures, write) ↦
          let signatures' = Map.insert peer_id signature signatures in
          let s' = record s { future_signatures = write signatures' } in
          elim (Map.find peer_id signatures) [
            | some old ↦ ok (s', [])
            | none ↦ count_votes now peers_len new_leader_term (length signatures') s'
          ]
    ]

-- `none` is the panic of `leader` for no peers.
unfoldable pub get_new_view_message :
    WorldState → PeerId → BlockNumber → State → Option (Option NewView × State)
get_new_view_message w id current_block_number s = elim (leader w s.leader_term) [
  | none ↦ none
  | some peer_id ↦
      if peer_id == id
      then elim s.current_signatures [
        | none ↦ some (none, s)
        | some signatures ↦ some (
          some (record {
            leader_term = s.leader_term;
            view_change_signatures = signatures;
            current_block_number = current_block_number;
          }),
          record s { current_signatures = none },
        )
      ]
      else some (none, s)
]

-- the leader term that `request_view_change` broadcasts
unfoldable pub request_view_change : State → List Effect
request_view_change s = broadcast_view_change (add_u64 s.leader_term 1) ∷ []

unfoldable pub new_view_received : LeaderTerm → State → State × List Effect
new_view_received leader_term s =
    if s.leader_term == leader_term
    then (record s { new_view_time = none }, notify_new_view ∷ [])
    else (s, [])

-- The clock of `Instant` does not go back.
unfoldable pub new_view_duration : Time → State → Option ℕ
new_view_duration now s = elim s.new_view_time [ none ↦ none | some start ↦ some (now - start) ]

-- The test says whether the notification comes within the time that is left.
unfoldable pub check_new_view_timeout : ℕ → Bool → State → List Effect
unfolding request_view_change
check_new_view_timeout duration notified s =
    if leb duration new_view_timeout
    then (if notified then [] else request_view_change s)
    else request_view_change s
