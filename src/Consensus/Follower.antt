-- ===== src/Consensus/Follower.antt =====
-- prellblock/src/consensus/praftbft/follower/state.rs and consensus/transaction_applier.rs: the state
-- of a follower beside the storage, the world state and the queue that it shares with the node.
pub mod Coherence
pub mod Rounds
pub mod Promise
pub mod Start
pub mod Handlers
pub mod Synchronizer
pub mod Tests
use prellblock.Prelude.{
  ℕ, ◌+◌, ltb, List, [], ◌∷◌, ◌++◌, map, Option, none, some, Bool, true, false, ◌==◌, if◌then◌else◌,
  Outcome, ok, err, panicked, add_u64, sub_u64,
}
use prellblock.Pinxit.{PeerId, Signed, signed_eq}
use prellblock.Api.Account.{Time}
use prellblock.Api.Transaction.{Transaction}
use prellblock.Api.Block.{
  Block, Body, BlockHash, BlockNumber, LeaderTerm, SignatureList, block_number,
}
use prellblock.Queue
use prellblock.Queue.{Queue, remove_all, extend}
use prellblock.WorldState.{WorldState, apply_block}
use prellblock.WorldState.Service.{WorldStateReferences, rollback, save}
use prellblock.Consensus.Error.{Error, wrong_leader, Phase, waiting, prepare, append, phase_eq}
use prellblock.Consensus.Message.{InvalidTransaction, Commit}
use prellblock.Consensus.Core.{leader}
use prellblock.Consensus.Store.{BlockStore}

pub record State : Type 0 where
  pub leader_term : LeaderTerm
  pub new_view_signatures : SignatureList
  pub block_number : BlockNumber
  pub last_block_hash : BlockHash
  pub block_hash : Option BlockHash
  pub block_content : Option (Body × List InvalidTransaction)
  pub rollback_possible : Bool
  pub buffered_commit_message : Option Commit

-- `State::new`, from the current world state
unfoldable pub new : WorldState → State
new w = record {
  leader_term = 0;
  new_view_signatures = [];
  block_number = w.block_number;
  last_block_hash = w.last_block_hash;
  block_hash = none;
  block_content = none;
  rollback_possible = ltb 0 w.block_number;
  buffered_commit_message = none;
}

-- `none` is `unreachable!`.
abbrev pub phase_of : Option BlockHash → Option (Body × List InvalidTransaction) → Option Phase
phase_of none none = some waiting
phase_of (some hash) none = some prepare
phase_of (some hash) (some content) = some append
phase_of none (some content) = none

unfoldable pub phase : State → Option Phase
phase s = phase_of s.block_hash s.block_content

-- `assert_eq!(self.phase(), expected)`
abbrev pub in_phase : Option Phase → Phase → Bool
in_phase none expected = false
in_phase (some p) expected = phase_eq p expected

unfoldable pub verify_leader : WorldState → PeerId → State → Outcome Error (Unit {0})
verify_leader w peer_id s = elim (leader w s.leader_term) [
  | none ↦ panicked
  | some id ↦ if id == peer_id then ok tt else err (wrong_leader peer_id)
]

unfoldable pub body_with : List (Signed Transaction) → Time → State → Body
body_with transactions timestamp s = record {
  leader_term = s.leader_term;
  height = s.block_number;
  prev_block_hash = s.last_block_hash;
  timestamp = timestamp;
  transactions = transactions;
}

-- `State::prepare`
unfoldable pub to_prepare : BlockHash → State → Option State
unfolding phase
to_prepare block_hash s =
    if in_phase (phase s) waiting then some (record s { block_hash = some block_hash }) else none

-- `State::append`
unfoldable pub to_append : Body → List InvalidTransaction → State → Option State
unfolding phase
to_append body invalid_transactions s =
    if in_phase (phase s) prepare
    then some (record s { block_content = some (body, invalid_transactions) })
    else none

unfoldable pub new_leader_term : LeaderTerm → SignatureList → State → State
new_leader_term leader_term new_view_signatures s = record s {
  leader_term = leader_term;
  new_view_signatures = new_view_signatures;
  block_hash = none;
  block_content = none;
  rollback_possible = true;
  buffered_commit_message = none;
}

abbrev pub is_none : Option Commit → Bool
is_none none = true
is_none (some c) = false

module _ (store : BlockStore) (hash : Body → BlockHash) where
  open store use {Store, blocks, write_block, pop_block, left_by_write, left_by_pop}

  -- A follower with what its `Core` shares with the other components.
  pub record Node : Type 0 where
    pub state : State
    pub world : WorldStateReferences
    pub queue : Queue (Signed Transaction)
    pub storage : Store

  -- `TransactionApplier::apply_block` on the copy of the world state that is saved
  abbrev pub apply_to : Block → WorldStateReferences → Option WorldStateReferences
  apply_to block world = elim (apply_block hash world.current block) [
    | ok w ↦ some (save w world)
    | err e ↦ none
    | panicked ↦ none
  ]

  abbrev next_round : BlockHash → State → State
  next_round block_hash s = record s {
    block_number = add_u64 s.block_number 1;
    last_block_hash = block_hash;
    block_content = none;
    rollback_possible = false;
    buffered_commit_message = none;
  }

  -- `State::apply_block`; `none` is a panic. The tasks that wait for the new number are woken.
  unfoldable pub apply_to_node : BlockHash → Block → Node → Option Node
  apply_to_node block_hash block n =
      if block_number block == n.state.block_number
      then elim (write_block block n.storage) [
        | none ↦ none
        | some storage ↦ elim (apply_to block n.world) [
          | none ↦ none
          | some world ↦ some (record {
            state = next_round block_hash n.state;
            world = world;
            queue = remove_all signed_eq block.body.transactions n.queue;
            storage = storage;
          })
        ]
      ]
      else none

  -- What a panic of `State::apply_block` leaves: the storage and the world state are changed one after
  -- the other, behind the queue and before the state.
  unfoldable pub left_by_apply : Block → Node → Node
  left_by_apply block n =
      if block_number block == n.state.block_number
      then (let n' = record n { queue = remove_all signed_eq block.body.transactions n.queue } in
          elim (write_block block n.storage) [
            | none ↦ record n' { storage = left_by_write block n.storage }
            | some storage ↦ record n' { storage = storage }
          ])
      else n

  abbrev pub drop_invalid :
      List InvalidTransaction → Queue (Signed Transaction) → Queue (Signed Transaction)
  drop_invalid invalid q = remove_all signed_eq (map (λ (p : InvalidTransaction). p.1) invalid) q

  unfoldable pub commit_content :
      SignatureList
      → Option BlockHash
      → Option (Body × List InvalidTransaction)
      → Node
      → Option Node
  unfolding apply_to_node
  commit_content signatures (some block_hash) (some (body, invalid)) n =
      apply_to_node block_hash (record { body = body; signatures = signatures })
        (record n {
          state = record n.state { block_hash = none };
          queue = drop_invalid invalid n.queue;
        })
  commit_content signatures block_hash content n = none

  -- `State::commit`
  unfoldable pub commit : SignatureList → Node → Option Node
  unfolding commit_content phase
  commit signatures n =
      if in_phase (phase n.state) append
      then (if is_none n.state.buffered_commit_message
          then commit_content signatures n.state.block_hash n.state.block_content n
          else none)
      else none

  unfoldable pub left_by_content :
      SignatureList → Option BlockHash → Option (Body × List InvalidTransaction) → Node → Node
  unfolding left_by_apply
  left_by_content signatures (some block_hash) (some (body, invalid)) n =
      left_by_apply (record { body = body; signatures = signatures })
        (record n {
          state = record n.state { block_hash = none };
          queue = drop_invalid invalid n.queue;
        })
  left_by_content signatures block_hash content n = n

  -- What a panic of `State::commit` leaves: behind the assertions, the hash is taken first.
  unfoldable pub left_by_commit : SignatureList → Node → Node
  unfolding left_by_content phase
  left_by_commit signatures n =
      if in_phase (phase n.state) append
      then (if is_none n.state.buffered_commit_message
          then left_by_content signatures n.state.block_hash n.state.block_content n
          else n)
      else n

  abbrev pub rolled_back : WorldState → State → State
  rolled_back w s = record s {
    block_number = sub_u64 s.block_number 1;
    last_block_hash = w.last_block_hash;
    block_hash = none;
    block_content = none;
    rollback_possible = false;
    buffered_commit_message = none;
  }

  -- the part of `State::rollback` after the block has been popped
  pub rollback_popped :
      (List (Signed Transaction) → List (ℕ × Signed Transaction))
      → Block
      → Store
      → Node
      → Option Node
  rollback_popped at_times last_block storage n =
      if add_u64 (block_number last_block) 1 == n.state.block_number
      then (let (old, world) = rollback n.world in
          elim old [
            | none ↦ none
            | some w ↦
                if world.current.block_number == sub_u64 n.state.block_number 1
                then some (record {
                  state = rolled_back world.current n.state;
                  world = world;
                  queue = extend (at_times last_block.body.transactions) n.queue;
                  storage = storage;
                })
                else none
          ])
      else none

  -- `State::rollback`; the function pairs the transactions with the times at which they are queued.
  unfoldable pub rollback_node :
      (List (Signed Transaction) → List (ℕ × Signed Transaction)) → Node → Option Node
  unfolding rollback_popped
  rollback_node at_times n =
      if n.state.rollback_possible
      then elim (pop_block n.storage) [
        | none ↦ none
        | some (last_block, storage) ↦ elim last_block [
          | none ↦ none
          | some b ↦ rollback_popped at_times b storage n
        ]
      ]
      else none

  -- What a panic of `State::rollback` leaves once the block has been popped.
  pub left_by_popped :
      (List (Signed Transaction) → List (ℕ × Signed Transaction)) → Block → Store → Node → Node
  left_by_popped at_times last_block storage n =
      if add_u64 (block_number last_block) 1 == n.state.block_number
      then (let (old, world) = rollback n.world in
          let n' = record n {
            world = world;
            queue = extend (at_times last_block.body.transactions) n.queue;
            storage = storage;
          } in
          elim old [
            | none ↦ n'
            | some w ↦ record n' {
              state = record n.state { block_number = sub_u64 n.state.block_number 1 };
            }
          ])
      else record n { storage = storage }

  -- What a panic of `State::rollback` leaves.
  unfoldable pub left_by_rollback :
      (List (Signed Transaction) → List (ℕ × Signed Transaction)) → Node → Node
  unfolding left_by_popped
  left_by_rollback at_times n =
      if n.state.rollback_possible
      then elim (pop_block n.storage) [
        | none ↦ record n { storage = left_by_pop n.storage }
        | some (last_block, storage) ↦ elim last_block [
          | none ↦ record n { storage = storage }
          | some b ↦ left_by_popped at_times b storage n
        ]
      ]
      else n
