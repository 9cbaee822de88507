-- ===== src/Consensus/Agreement/Tests.antt =====
-- Tests of the agreement: the second RPU prepares the round, and two commit messages for it are applied.
use prellblock.Prelude.{◌≡◌, refl, sym, subst, false, List, [], ◌∷◌, map, err, arith}
use mathlib.Core.List.{Memᴰ}
use prellblock.Prelude.Map
use prellblock.Prelude.Sets.{contains}
use prellblock.Pinxit
use prellblock.Pinxit.{PeerId, Identity, from_secret_key}
use prellblock.Api.Account.{is_expired}
use prellblock.TransactionChecker.{account_checker, verify_is_rpu}
use prellblock.Consensus.Error.{balise, verify_leader_term, verify_block_number, verify_phase}
use prellblock.Consensus.Message.{Metadata, message_data, response_data}
use prellblock.Consensus.Core.{leader}
use prellblock.Consensus.Follower.{new, phase, verify_leader, to_prepare}
use prellblock.Consensus.Follower.Tests.{list_store}
use prellblock.Consensus.Follower.Handlers.{handle_prepare, handle_commit}
use prellblock.Consensus.Follower.Handlers.Tests.{
  commit_round, other_commit, appended_node, started-IsConsistent, round-Decision, other-Decision,
}
use prellblock.Consensus.Dispatch.{Instance, handle_message, dispatch, verify_message}
use prellblock.Consensus.Dispatch.Promises.{acknowledged_in, with_acknowledged}
use prellblock.Consensus.Dispatch.Runs.{Run, start, handled, Run-agrees}
use prellblock.Consensus.Dispatch.Tests.{second_rpu, from_leader, of_round}
use prellblock.Consensus.Agreement.{Correct, decisions_agree}
use prellblock.Fixtures.{toy}

abbrev with_id : PeerId → Identity
with_id p = from_secret_key toy.ed25519 p

abbrev after_prepare : PeerId → Instance list_store toy
after_prepare p =
    (handle_message list_store toy 0 (map (λ t. (0, t))) (with_id p) (err balise) from_leader
      second_rpu).instance'

abbrev acknowledged_once : PeerId → List Metadata
acknowledged_once p =
    with_acknowledged
      (acknowledged_in
        (handle_message list_store toy 0 (map (λ t. (0, t))) (with_id p) (err balise) from_leader
          second_rpu).result)
      []

prepare-Run :
    (p : PeerId) → Run list_store toy (with_id p) second_rpu (acknowledged_once p) (after_prepare p)
prepare-Run p =
    handled [] second_rpu 0 (map (λ t. (0, t))) (err balise) from_leader start
      (unfold new in omega arith) tt

round-acknowledged : (p : PeerId) → acknowledged_once p ≡ of_round ∷ []
unfolding handle_message dispatch verify_message account_checker verify_is_rpu Map.find is_expired
    message_data response_data Pinxit.verify Pinxit.verify_signature Pinxit.sign from_secret_key
    handle_prepare new phase verify_phase verify_leader_term verify_leader leader
    verify_block_number to_prepare
round-acknowledged p = refl

round-Memᴰ : (p : PeerId) → Memᴰ of_round (acknowledged_once p)
round-Memᴰ p = subst (λ ms. Memᴰ of_round ms) (sym (round-acknowledged p)) (Memᴰ.head refl)

all-Correct :
    (p : PeerId) → contains (4 ∷ []) p ≡ false → Correct list_store toy commit_round other_commit p
unfolding from_secret_key
all-Correct p h = record {
  identity = with_id p;
  is_peer = refl;
  first = second_rpu;
  last = after_prepare p;
  acknowledged = acknowledged_once p;
  run = prepare-Run p;
  signed = λ k. round-Memᴰ p;
  signed' = λ k. round-Memᴰ p;
}

Run-agrees_example : of_round.block_hash ≡ of_round.block_hash
Run-agrees_example =
    Run-agrees list_store toy (with_id 2) second_rpu (after_prepare 2) (acknowledged_once 2)
      of_round of_round (prepare-Run 2) (round-Memᴰ 2) (round-Memᴰ 2) refl refl

decisions_agree_example : toy.hash round-Decision.body ≡ toy.hash other-Decision.body
decisions_agree_example =
    decisions_agree list_store toy 0 commit_round other_commit appended_node appended_node
      (handle_commit list_store toy 0 1 commit_round appended_node).node
      (handle_commit list_store toy 0 1 other_commit appended_node).node (4 ∷ [])
      started-IsConsistent refl round-Decision other-Decision (omega arith) all-Correct refl refl
