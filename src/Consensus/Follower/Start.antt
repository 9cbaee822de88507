-- ===== src/Consensus/Follower/Start.antt =====
-- `State::new`: a follower that starts from the stored blocks.
use prellblock.Prelude.{
  ◌≡◌, refl, sym, ◌∙◌, ap, ◌⊎◌, inl, inr, List, [], ◌∷◌, ◌++◌, Option, some, ok, arith,
}
use prellblock.Pinxit.{Signed}
use prellblock.Api.Transaction.{Transaction}
use prellblock.Api.Block.{Block, Body, BlockHash}
use prellblock.Queue.{Queue}
use prellblock.WorldState.{WorldState, default_world_state}
use prellblock.WorldState.Service.{
  WorldStateReferences, apply_blocks, split_last, split_last-append, from_block_storage, rollback,
  rollback-from_block_storage,
}
use prellblock.Consensus.Error.{waiting}
use prellblock.Consensus.Store.{BlockStore}
use prellblock.Consensus.Follower.{phase, new}
use prellblock.Consensus.Follower.Coherence.{IsCoherent}

pub ends :
    (bs : List Block) → (bs ≡ []) ⊎ ((front : List Block) × (b : Block) × (bs ≡ front ++ (b ∷ [])))
ends [] = inl refl
ends (b ∷ bs) = elim (ends bs) [
  | inl e ↦ inr ([], b, ap (λ l. b ∷ l) e)
  | inr (front, c, e) ↦ inr (b ∷ front, c, ap (λ l. b ∷ l) e)
]

module _ (store : BlockStore) (hash : Body → BlockHash) where
  open store use {Store, blocks}

  start_lem :
      (bs : List Block) (r : WorldStateReferences)
      → from_block_storage hash bs ≡ ok r
      → (apply_blocks hash default_world_state bs ≡ ok r.current)
        × ((w : WorldState)
            → r.prev ≡ some w
            → apply_blocks hash default_world_state (split_last bs).0 ≡ ok w)
  unfolding from_block_storage rollback
  start_lem bs r h = elim (ends bs) [
    | inl e ↦ (ground (arith, e), λ w k. ground (arith, e))
    | inr (front, b, e) ↦
        let g = ap (from_block_storage hash) (sym e) ∙ h in
        let a = rollback-from_block_storage hash front b r g in
        (
          ap (apply_blocks hash default_world_state) e ∙ a.0,
          λ w k.
              ap (λ l. apply_blocks hash default_world_state (split_last l).0) e
              ∙ ap (λ (l : List Block × Option Block). apply_blocks hash default_world_state l.0)
                  (split_last-append front b)
              ∙ a.2
              ∙ ground (arith, k),
        )
  ]

  -- A follower that starts with the world state of the stored blocks is coherent and waits for the
  -- next block.
  pub new-IsCoherent :
      (s : Store) (r : WorldStateReferences) (q : Queue (Signed Transaction))
      → from_block_storage hash (blocks s) ≡ ok r
      → IsCoherent store hash (record { state = new r.current; world = r; queue = q; storage = s })
        × (phase (new r.current) ≡ some waiting)
  unfolding new phase
  new-IsCoherent s r q h =
      let (built, previous) = start_lem (blocks s) r h in
      (
        record {
          agrees = record { number = refl; last = refl; built = built; previous = previous };
          in_a_phase = (waiting, refl);
          prepared = λ x y i j. cc;
        },
        refl,
      )
