-- ===== src/WorldState/Peers.antt =====
-- How the peers follow the type of one account.
use prellblock.Prelude.{
  ◌≡◌, refl, inl, inr, Bool, true, false, not, ◌&&◌, ◌||◌, [], ◌∷◌, ◌++◌, Option, none, some, ◌==◌,
  Option-cases, arith,
}
use prellblock.Prelude.Sets.{Distinct}
use prellblock.Pinxit.{PeerId}
use prellblock.Api.Account.{
  AccountType, normal, block_reader, rpu, admin, is_rpu, SocketAddr, overwrite,
}
use prellblock.WorldState.{
  Peers, peer_ids, has_peer, remove_peer, add_peer, update_peers, create_peers,
}

-- Removing a peer leaves the others.
pub has_peer-remove_peer :
    (id j : PeerId) (peers rest : Peers)
    → Distinct (peer_ids peers)
    → remove_peer id peers ≡ some rest
    → has_peer j rest ≡ (has_peer j peers && not (id == j))
unfolding remove_peer
has_peer-remove_peer id j [] rest d h = cc
has_peer-remove_peer id j ((other, address) ∷ peers) rest d h =
    elim (Option-cases (remove_peer id peers)) [
      | inl e ↦ ground arith
      | inr (r, e) ↦ ground (arith, has_peer-remove_peer id j peers r d.1 e)
    ]

Distinct-remove_peer :
    (id : PeerId) (peers rest : Peers)
    → Distinct (peer_ids peers)
    → remove_peer id peers ≡ some rest
    → Distinct (peer_ids rest)
unfolding remove_peer
Distinct-remove_peer id [] rest d h = cc
Distinct-remove_peer id ((other, address) ∷ peers) rest d h =
    elim (Option-cases (remove_peer id peers)) [
      | inl e ↦ ground arith
      | inr (r, e) ↦ ground (
        arith,
        Distinct-remove_peer id peers r d.1 e,
        has_peer-remove_peer id other peers r d.1 e,
      )
    ]

pub remove_peer-eq-none :
    (id : PeerId) (peers : Peers) → has_peer id peers ≡ false → remove_peer id peers ≡ none
unfolding remove_peer
remove_peer-eq-none id [] h = refl
remove_peer-eq-none id ((other, address) ∷ peers) h = ground (arith, remove_peer-eq-none id peers)

pub has_peer_of_remove_peer :
    (id : PeerId) (peers : Peers) → remove_peer id peers ≡ none → has_peer id peers ≡ false
unfolding remove_peer
has_peer_of_remove_peer id [] h = refl
has_peer_of_remove_peer id ((other, address) ∷ peers) h =
    ground (arith, has_peer_of_remove_peer id peers)

pub has_peer-append :
    (j id : PeerId) (address : SocketAddr) (peers : Peers)
    → has_peer j (peers ++ ((id, address) ∷ [])) ≡ (has_peer j peers || id == j)
has_peer-append j id address [] = ground arith
has_peer-append j id address ((other, a) ∷ peers) =
    ground (arith, has_peer-append j id address peers)

Distinct-append :
    (id : PeerId) (address : SocketAddr) (peers : Peers)
    → Distinct (peer_ids peers)
    → has_peer id peers ≡ false
    → Distinct (peer_ids (peers ++ ((id, address) ∷ [])))
Distinct-append id address [] d h = ground arith
Distinct-append id address ((other, a) ∷ peers) d h =
    ground (arith, has_peer-append other id address peers, Distinct-append id address peers d.1)

-- The peers after a change of the account `id`, which then is an RPU if the test says so.
pub record PeersFollow (id : PeerId) (is : Bool) (peers rest : Peers) : Type 0 where
  pub distinct : Distinct (peer_ids rest)
  pub others : (j : PeerId) → (id == j) ≡ false → has_peer j rest ≡ has_peer j peers
  pub self : has_peer id rest ≡ is

pub remove_peer-PeersFollow :
    (id : PeerId) (peers rest : Peers)
    → Distinct (peer_ids peers)
    → remove_peer id peers ≡ some rest
    → PeersFollow id false peers rest
remove_peer-PeersFollow id peers rest d h = record {
  distinct = Distinct-remove_peer id peers rest d h;
  others = λ j n. ground (arith, has_peer-remove_peer id j peers rest d h);
  self = ground (arith, has_peer-remove_peer id id peers rest d h);
}

pub add_peer-PeersFollow :
    (id : PeerId) (address : SocketAddr) (peers rest : Peers)
    → Distinct (peer_ids peers)
    → add_peer id address peers ≡ some rest
    → PeersFollow id true peers rest
unfolding add_peer
add_peer-PeersFollow id address peers rest d h = record {
  distinct = ground (arith, Distinct-append id address peers d);
  others = λ j n. ground (arith, has_peer-append j id address peers);
  self = ground (arith, has_peer-append id id address peers);
}

pub same-PeersFollow :
    (id : PeerId) (b : Bool) (peers rest : Peers)
    → Distinct (peer_ids peers)
    → has_peer id peers ≡ b
    → some peers ≡ some rest
    → PeersFollow id b peers rest
same-PeersFollow id b peers rest d h e = record {
  distinct = ground arith;
  others = λ j n. ground arith;
  self = ground arith;
}

pub update_peers-PeersFollow :
    (id : PeerId) (old : AccountType) (new : Option AccountType) (peers rest : Peers)
    → Distinct (peer_ids peers)
    → has_peer id peers ≡ is_rpu old
    → update_peers id old new peers ≡ some rest
    → PeersFollow id (is_rpu (overwrite old new)) peers rest
unfolding update_peers
update_peers-PeersFollow id (rpu t p) none peers rest d h e =
    same-PeersFollow id true peers rest d h e
update_peers-PeersFollow id (rpu t p) (some (rpu u v)) peers rest d h e =
    same-PeersFollow id true peers rest d h e
update_peers-PeersFollow id (rpu t p) (some other) peers rest d h e =
    remove_peer-PeersFollow id peers rest d e
update_peers-PeersFollow id normal (some (rpu u v)) peers rest d h e =
    add_peer-PeersFollow id v peers rest d e
update_peers-PeersFollow id block_reader (some (rpu u v)) peers rest d h e =
    add_peer-PeersFollow id v peers rest d e
update_peers-PeersFollow id admin (some (rpu u v)) peers rest d h e =
    add_peer-PeersFollow id v peers rest d e
update_peers-PeersFollow id old new peers rest d h e = same-PeersFollow id false peers rest d h e

pub create_peers-PeersFollow :
    (id : PeerId) (new : AccountType) (peers rest : Peers)
    → Distinct (peer_ids peers)
    → has_peer id peers ≡ false
    → create_peers id new peers ≡ some rest
    → PeersFollow id (is_rpu new) peers rest
unfolding create_peers
create_peers-PeersFollow id (rpu u v) peers rest d h e = add_peer-PeersFollow id v peers rest d e
create_peers-PeersFollow id other peers rest d h e = same-PeersFollow id false peers rest d h e
