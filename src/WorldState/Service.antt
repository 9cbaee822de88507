-- ===== src/WorldState/Service.antt =====
-- `WorldStateService`: the current and the previous world state, and the chain that built them.
use prellblock.Prelude.{
  ◌≡◌, refl, ◌∙◌, List, [], ◌∷◌, ◌++◌, Option, none, some, Outcome, ok, err, panicked, ◌>>=◌,
  >>=-eq-ok, Option-cases, inl, inr, arith, add_u64, subst, ap,
}
use prellblock.Pinxit.{Signed}
use prellblock.Api.Transaction.{Transaction}
use prellblock.Api.Block.{Block, Body, BlockHash}
use prellblock.WorldState.{
  WorldState, default_world_state, BlockError, apply_block, apply_transactions, apply_transaction,
}
use prellblock.WorldState.Consistency.{IsConsistent, apply_block-IsConsistent}
use prellblock.WorldState.Frame.{find-apply_transaction}

pub record WorldStateReferences : Type 0 where
  pub current : WorldState
  pub prev : Option WorldState

abbrev pub default_references : WorldStateReferences
default_references = record { current = default_world_state; prev = none }

-- `WorldStateService::rollback` returns the state that it leaves.
unfoldable pub rollback : WorldStateReferences → Option WorldState × WorldStateReferences
rollback r = elim r.prev [
  | none ↦ (none, r)
  | some previous ↦ (some r.current, record { current = previous; prev = none })
]

-- `WritableWorldState::save`
unfoldable pub save : WorldState → WorldStateReferences → WorldStateReferences
save w r = record { current = w; prev = some r.current }

-- `blocks.next_back()`: the blocks that are left, and the last
abbrev pub split_last : List Block → List Block × Option Block
split_last [] = ([], none)
split_last (b ∷ bs) =
    let (front, last) = split_last bs in
    elim last [ none ↦ ([], some b) | some l ↦ (b ∷ front, some l) ]

module _ (hash : Body → BlockHash) where
  unfoldable pub apply_blocks : WorldState → List Block → Outcome BlockError WorldState
  apply_blocks w [] = ok w
  apply_blocks w (b ∷ bs) = do w' ← apply_block hash w b; apply_blocks w' bs

  unfoldable pub from_block_storage : List Block → Outcome BlockError WorldStateReferences
  from_block_storage blocks =
      let (front, last) = split_last blocks in
      do
        w ← apply_blocks default_world_state front
        elim last [
          | none ↦ ok (record { current = w; prev = none })
          | some b ↦ do w' ← apply_block hash w b; ok (record { current = w'; prev = some w })
        ]

  -- Each block names the hash of the one before, the first the given one.
  abbrev pub IsChain : BlockHash → List Block → Type 0
  IsChain previous [] = Unit
  IsChain previous (b ∷ bs) = (b.body.prev_block_hash ≡ previous) × IsChain (hash b.body) bs

  abbrev pub last_hash : BlockHash → List Block → BlockHash
  last_hash previous [] = previous
  last_hash previous (b ∷ bs) = last_hash (hash b.body) bs

pub split_last-append : (bs : List Block) (b : Block) → split_last (bs ++ (b ∷ [])) ≡ (bs, some b)
split_last-append [] b = refl
split_last-append (x ∷ bs) b = ground (arith, split_last-append bs b)

apply_transactions_fields :
    (w w' : WorldState) (ts : List (Signed Transaction))
    → apply_transactions w ts ≡ some w'
    → (w'.block_number ≡ w.block_number) × (w'.last_block_hash ≡ w.last_block_hash)
unfolding apply_transactions
apply_transactions_fields w w' [] h = (ground arith, ground arith)
apply_transactions_fields w w' (t ∷ ts) h = elim (Option-cases (apply_transaction w t.body)) [
  | inl e ↦ ground arith
  | inr (v, e) ↦
      ground (arith, find-apply_transaction w v t.body 0 e, apply_transactions_fields v w' ts)
]

-- A block that is applied continues the chain: it names the hash that the world state had, and the
-- new world state has its hash and the number after its height.
pub apply_block_fields :
    (hash : Body → BlockHash) (w w' : WorldState) (b : Block)
    → apply_block hash w b ≡ ok w'
    → (b.body.prev_block_hash ≡ w.last_block_hash)
      × (w'.last_block_hash ≡ hash b.body)
      × (w'.block_number ≡ add_u64 b.body.height 1)
unfolding apply_block
apply_block_fields hash w w' b h = ground (
  arith,
  apply_transactions_fields
      (record w { last_block_hash = hash b.body; block_number = add_u64 b.body.height 1 }) w'
      b.body.transactions,
)

-- Blocks that are applied one after the other form a hash chain from the hash of the first world
-- state to that of the last, and keep the world state consistent.
pub apply_blocks-IsChain :
    (hash : Body → BlockHash) (w w' : WorldState) (bs : List Block)
    → IsConsistent w
    → apply_blocks hash w bs ≡ ok w'
    → IsChain hash w.last_block_hash bs
      × (w'.last_block_hash ≡ last_hash hash w.last_block_hash bs)
      × IsConsistent w'
unfolding apply_blocks
apply_blocks-IsChain hash w w' [] c h =
    let e : w ≡ w' = cc in (tt, ground arith, subst (λ v. IsConsistent v) e c)
apply_blocks-IsChain hash w w' (b ∷ bs) c h =
    let (v, e, k) = >>=-eq-ok (apply_block hash w b) (λ v. apply_blocks hash v bs) h in
    let f = apply_block_fields hash w v b e in
    let r = apply_blocks-IsChain hash v w' bs (apply_block-IsConsistent hash w v b c e) k in
    ((f.0, subst (λ p. IsChain hash p bs) f.1 r.0), r.1 ∙ ap (λ p. last_hash hash p bs) f.1, r.2)

pub apply_blocks-append :
    (hash : Body → BlockHash) (w : WorldState) (bs : List Block) (b : Block)
    → apply_blocks hash w (bs ++ (b ∷ [])) ≡ (apply_blocks hash w bs >>= λ v. apply_block hash v b)
unfolding apply_blocks
apply_blocks-append hash w [] b = ground arith
apply_blocks-append hash w (x ∷ bs) b =
    go (apply_block hash w x) (λ v. apply_blocks-append hash v bs b)
  where
    go :
        (o : Outcome BlockError WorldState)
        → ((v : WorldState)
            → apply_blocks hash v (bs ++ (b ∷ []))
              ≡ (apply_blocks hash v bs >>= λ u. apply_block hash u b))
        → (o >>= λ v. apply_blocks hash v (bs ++ (b ∷ [])))
          ≡ ((o >>= λ v. apply_blocks hash v bs) >>= λ u. apply_block hash u b)
    go (ok v) ih = ih v
    go (err e) ih = refl
    go panicked ih = refl

-- A start from stored blocks has the world state of all blocks as the current one. The state of all
-- blocks but the last is the one that a rollback returns to, once: after it there is no further one.
pub rollback-from_block_storage :
    (hash : Body → BlockHash) (bs : List Block) (b : Block) (r : WorldStateReferences)
    → from_block_storage hash (bs ++ (b ∷ [])) ≡ ok r
    → (apply_blocks hash default_world_state (bs ++ (b ∷ [])) ≡ ok r.current)
      × ((rollback r).0 ≡ some r.current)
      × (apply_blocks hash default_world_state bs ≡ ok (rollback r).1.current)
      × ((rollback (rollback r).1).0 ≡ none)
unfolding from_block_storage rollback
rollback-from_block_storage hash bs b r h =
    ground (arith, split_last-append bs b, apply_blocks-append hash default_world_state bs b)

-- A rollback undoes a save: it returns the saved world state and leaves the one before it.
pub rollback-save :
    (w : WorldState) (r : WorldStateReferences)
    → ((rollback (save w r)).0 ≡ some w)
      × ((rollback (save w r)).1.current ≡ r.current)
      × ((rollback (rollback (save w r)).1).0 ≡ none)
unfolding rollback save
rollback-save w r = (refl, refl, refl)
