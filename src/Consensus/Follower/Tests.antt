-- ===== src/Consensus/Follower/Tests.antt =====
-- Tests of a follower over a list of blocks as its storage.
use prellblock.Prelude.{
  ℕ, ◌≡◌, refl, inl, inr, true, false, List, [], ◌∷◌, ◌++◌, map, Option, none, some, ok, arith,
}
use prellblock.Pinxit.{Signed}
use prellblock.Api.Transaction.{Transaction}
use prellblock.Api.Block.{Block}
use prellblock.Queue.{empty, remove_all, extend}
use prellblock.WorldState.{WorldState, default_world_state, apply_block, apply_transactions}
use prellblock.WorldState.Service.{
  WorldStateReferences, apply_blocks, split_last, split_last-append, from_block_storage, save,
  rollback,
}
use prellblock.Consensus.Error.{waiting, prepare, append}
use prellblock.Consensus.Store.{BlockStore}
use prellblock.Consensus.Follower.{
  State, new, phase, to_prepare, to_append, new_leader_term, Node, apply_to_node, commit_content,
  commit, rollback_node, rollback_popped, left_by_popped, left_by_rollback,
}
use prellblock.Consensus.Follower.Coherence.{IsCoherent, apply_to_node-IsCoherent}
use prellblock.Consensus.Follower.Rounds.{
  to_prepare-IsCoherent, to_append-IsCoherent, Committed, commit-Committed, Restored,
  commit-rollback,
}
use prellblock.Consensus.Follower.Start.{ends, new-IsCoherent}
use prellblock.Fixtures.{toy_hash, body_at, block_at}

abbrev pub popped : List Block × Option Block → Option (Option Block × List Block)
popped (front, last) = some (last, front)

pub popped_lem :
    (b : Block) (s s' : List Block) → popped (split_last s) ≡ some (some b, s') → s ≡ s' ++ (b ∷ [])
popped_lem b s s' h = elim (ends s) [
  | inl e ↦ ground (arith, e)
  | inr (front, c, e) ↦ ground (arith, e, split_last-append front c)
]

pub written_lem :
    (b : Block) (s s' : List Block) → some (s ++ (b ∷ [])) ≡ some s' → s' ≡ s ++ (b ∷ [])
written_lem b s s' h = ground arith

abbrev pub list_store : BlockStore
list_store = record {
  Store = List Block;
  blocks = λ s. s;
  write_block = λ b s. some (s ++ (b ∷ []));
  pop_block = λ s. popped (split_last s);
  left_by_write = λ b s. s;
  left_by_pop = λ s. s;
  blocks-write_block = written_lem;
  blocks-pop_block = popped_lem;
}

abbrev first_state : WorldState
first_state = record default_world_state { block_number = 1; last_block_hash = 1 }

abbrev first_references : WorldStateReferences
first_references = record { current = first_state; prev = some default_world_state }

abbrev start_node : Node list_store toy_hash
start_node = record {
  state = new first_state;
  world = first_references;
  queue = empty;
  storage = block_at 0 0 [] ∷ [];
}

started : from_block_storage toy_hash (block_at 0 0 [] ∷ []) ≡ ok first_references
unfolding from_block_storage apply_blocks apply_block apply_transactions
started = refl

start_node-IsCoherent :
    IsCoherent list_store toy_hash start_node × (phase (new first_state) ≡ some waiting)
start_node-IsCoherent =
    new-IsCoherent list_store toy_hash (block_at 0 0 [] ∷ []) first_references empty started

new-IsCoherent_example :
    IsCoherent list_store toy_hash start_node × (phase (new first_state) ≡ some waiting)
new-IsCoherent_example =
    new-IsCoherent list_store toy_hash (block_at 0 0 [] ∷ []) first_references empty started

-- in the append phase for the second block
abbrev append_state : State
append_state = record {
  leader_term = 0;
  new_view_signatures = [];
  block_number = 1;
  last_block_hash = 1;
  block_hash = some 2;
  block_content = some (body_at 1 1 [], []);
  rollback_possible = true;
  buffered_commit_message = none;
}

abbrev prepare_state : State
prepare_state = record append_state { block_content = none }

prepare-reached : to_prepare 2 (new first_state) ≡ some prepare_state
unfolding to_prepare new phase
prepare-reached = refl

prepare_node-IsCoherent :
    IsCoherent list_store toy_hash (record start_node { state = prepare_state })
    × (phase prepare_state ≡ some prepare)
prepare_node-IsCoherent =
    to_prepare-IsCoherent list_store toy_hash 2 start_node prepare_state start_node-IsCoherent.0
      prepare-reached

append_node-IsCoherent :
    IsCoherent list_store toy_hash (record start_node { state = append_state })
    × (phase append_state ≡ some append)
append_node-IsCoherent =
    to_append-IsCoherent list_store toy_hash (body_at 1 1 []) []
      (record start_node { state = prepare_state }) append_state prepare_node-IsCoherent.0 refl
      (unfold to_append phase in refl)

abbrev second_state : WorldState
second_state = record default_world_state { block_number = 2; last_block_hash = 2 }

abbrev append_node : Node list_store toy_hash
append_node = record start_node { state = append_state }

abbrev committed_node : Node list_store toy_hash
committed_node = record {
  state = record append_state {
    block_number = 2;
    last_block_hash = 2;
    block_hash = none;
    block_content = none;
    rollback_possible = false;
  };
  world = record { current = second_state; prev = some first_state };
  queue = empty;
  storage = block_at 0 0 [] ∷ block_at 1 1 [] ∷ [];
}

committed : commit list_store toy_hash [] append_node ≡ some committed_node
unfolding commit commit_content apply_to_node phase apply_block apply_transactions save remove_all
committed = refl

commit-Committed_test : Committed list_store toy_hash [] append_node committed_node
commit-Committed_test =
    commit-Committed list_store toy_hash [] append_node committed_node append_node-IsCoherent.0
      committed

apply_to_node-IsCoherent_test :
    IsCoherent list_store toy_hash
      (record committed_node { state = record committed_node.state { block_hash = some 2 } })
    × (◌≡◌ {A = List Block}
        (block_at 0 0 [] ∷ block_at 1 1 [] ∷ [])
        ((block_at 0 0 [] ∷ []) ++ (block_at 1 1 [] ∷ [])))
    × (false ≡ false)
apply_to_node-IsCoherent_test =
    apply_to_node-IsCoherent list_store toy_hash 2 (block_at 1 1 []) append_node
      (record committed_node { state = record committed_node.state { block_hash = some 2 } })
      append_node-IsCoherent.0.agrees refl
      (unfold apply_to_node apply_block apply_transactions save remove_all in refl)

-- all at one time
abbrev at_ten : List (Signed Transaction) → List (ℕ × Signed Transaction)
at_ten l = map (λ t. (10, t)) l

commit-rollback_example :
    (rollback_node list_store toy_hash at_ten committed_node ≡ none)
    × ((m : Node list_store toy_hash) × (rollback_node list_store toy_hash at_ten
            (record committed_node { state = new_leader_term 1 [] committed_node.state })
          ≡ some m)
        × Restored list_store toy_hash append_node m)
commit-rollback_example =
    commit-rollback list_store toy_hash at_ten [] [] 1 append_node committed_node (block_at 1 1 [])
      (block_at 0 0 [] ∷ []) append_node-IsCoherent.0 (omega arith) committed refl

-- Without a previous world state a rollback panics when the block is gone from the storage.
abbrev no_previous : Node list_store toy_hash
no_previous = record start_node { world = record first_references { prev = none } }

rollback-panicked :
    (rollback_node list_store toy_hash (map (λ t. (0, t))) no_previous ≡ none)
    × (left_by_rollback list_store toy_hash (map (λ t. (0, t))) no_previous
        ≡ record no_previous { storage = [] })
unfolding rollback_node left_by_rollback rollback_popped left_by_popped rollback new extend
rollback-panicked = (refl, refl)
