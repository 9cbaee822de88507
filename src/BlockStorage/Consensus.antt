-- ===== src/BlockStorage/Consensus.antt =====
-- The block storage fills the interface that the consensus uses.
use Prim.Native.String.{String}
use prellblock.Prelude.{
  ℕ, ◌^◌, ◌≡◌, Bool, true, false, refl, sym, ◌∙◌, ap, ltb, ltb→lt, List, [], ◌∷◌, ◌++◌, length,
  Option, none, some, Outcome, ok, err, panicked, arith,
}
use prellblock.Api.Account.{Time}
use prellblock.Api.Block.{Block}
use prellblock.Consensus.Store.{BlockStore}
use prellblock.BlockStorage.Sled
use prellblock.BlockStorage.{Error, Codec, BlockStorage, write_block, pop_block}
use prellblock.BlockStorage.Writing.{
  IsStorageOf, write_block-IsStorageOf, Popped, no_block, last_block, pop_block-Popped,
}

module _ (before : String → String → Bool) (numbers : Sled.Sled ℕ ltb)
    (names : Sled.Sled String before) (codec : Codec) where
  -- A storage with the blocks that it holds.
  pub record Chained : Type 0 where
    pub held : List Block
    pub storage : BlockStorage before numbers names codec
    pub is_storage : IsStorageOf before numbers names codec held storage

  written :
      (clock : ℕ → Time) (b : Block) (t : Chained) (bounded : Bool)
      → ltb (length t.held) (2 ^ 64) ≡ bounded
      → (o : Outcome Error (BlockStorage before numbers names codec))
      → write_block before numbers names codec clock b t.storage ≡ o
      → Option Chained
  written clock b t false m o h = none
  written clock b t true m (err e) h = none
  written clock b t true m panicked h = none
  written clock b t true m (ok s) h = some (record {
    held = t.held ++ (b ∷ []);
    storage = s;
    is_storage =
        (write_block-IsStorageOf before numbers names codec clock t.held t.storage s b t.is_storage
          (ltb→lt (length t.held) (2 ^ 64) m) h).2;
  })

  -- a pair that holds the blocks that were before the popped one
  abbrev Shrinks : List Block → Option Block × Chained → Type 0
  Shrinks bs r = (b : Block) → r.0 ≡ some b → bs ≡ r.1.held ++ (b ∷ [])

  popped_of :
      (bs : List Block) (o : Option Block) (s : BlockStorage before numbers names codec)
      → Popped before numbers names codec bs o s
      → (r : Option Block × Chained) × Shrinks bs r
  popped_of bs _ _ (no_block s e c) =
      ((none, record { held = []; storage = s; is_storage = c }), λ b h. cc)
  popped_of bs _ _ (last_block front b s e c) = (
    (some b, record { held = front; storage = s; is_storage = c }),
    λ d h. e ∙ ap (λ k. front ++ (k ∷ [])) (ground arith),
  )

  popped :
      (t : Chained) (o : Outcome Error (Option Block × BlockStorage before numbers names codec))
      → pop_block before numbers names codec t.storage ≡ o
      → Option ((r : Option Block × Chained) × Shrinks t.held r)
  popped t (err e) h = none
  popped t panicked h = none
  popped t (ok (b, s)) h = some (
      popped_of t.held b s
        (pop_block-Popped before numbers names codec t.held t.storage s b t.is_storage h))

  abbrev result_of :
      {bs : List Block}
      → Option ((r : Option Block × Chained) × Shrinks bs r)
      → Option (Option Block × Chained)
  result_of none = none
  result_of (some p) = some p.0

  held-result_of :
      (bs : List Block) (o : Option ((r : Option Block × Chained) × Shrinks bs r)) (b : Block)
      (t' : Chained)
      → result_of o ≡ some (some b, t')
      → bs ≡ t'.held ++ (b ∷ [])
  held-result_of bs none b t' h = cc
  held-result_of bs (some p) b t' h =
      let e : p.0 ≡ (some b, t') = cc in
      p.1 b (ap (λ (r : Option Block × Chained). r.0) e)
      ∙ ap (λ (r : Option Block × Chained). r.1.held ++ (b ∷ [])) e

  abbrev held_of : Option Chained → Option (List Block)
  held_of none = none
  held_of (some t) = some t.held

  held-written :
      (clock : ℕ → Time) (b : Block) (t t' : Chained) (bounded : Bool)
      (m : ltb (length t.held) (2 ^ 64) ≡ bounded)
      (o : Outcome Error (BlockStorage before numbers names codec))
      (h : write_block before numbers names codec clock b t.storage ≡ o)
      → written clock b t bounded m o h ≡ some t'
      → t'.held ≡ t.held ++ (b ∷ [])
  unfolding written
  held-written clock b t t' false m o h e = cc
  held-written clock b t t' true m (err y) h e = cc
  held-written clock b t t' true m panicked h e = cc
  held-written clock b t t' true m (ok s) h e =
      let same : some (t.held ++ (b ∷ [])) ≡ some t'.held = ap (λ o. held_of o) e in
      sym (ground (arith, same))

  -- the storage as long as it has not failed
  abbrev held_by : Option Chained → List Block
  held_by none = []
  held_by (some t) = t.held

  abbrev some_of : Option Chained → Option (Option Chained)
  some_of none = none
  some_of (some t) = some (some t)

  write_held : (ℕ → Time) → Block → Option Chained → Option (Option Chained)
  unfolding written
  write_held clock b none = none
  write_held clock b (some t) = some_of (written clock b t _ refl _ refl)

  abbrev some_pair : Option (Option Block × Chained) → Option (Option Block × Option Chained)
  some_pair none = none
  some_pair (some (b, t)) = some (b, some t)

  pop_held : Option Chained → Option (Option Block × Option Chained)
  pop_held none = none
  pop_held (some t) = some_pair (result_of (popped t _ refl))

  held-write_held :
      (clock : ℕ → Time) (b : Block) (t t' : Option Chained)
      → write_held clock b t ≡ some t'
      → held_by t' ≡ held_by t ++ (b ∷ [])
  unfolding write_held
  held-write_held clock b none t' h = cc
  held-write_held clock b (some t) t' h = go (written clock b t _ refl _ refl) refl h
    where
      go :
          (o : Option Chained)
          → written clock b t _ refl _ refl ≡ o
          → some_of o ≡ some t'
          → held_by t' ≡ t.held ++ (b ∷ [])
      go none e k = cc
      go (some r) e k =
          let same : some r ≡ t' = cc in
          ap held_by (sym same) ∙ held-written clock b t r _ refl _ refl e

  held-pop_held :
      (b : Block) (t t' : Option Chained)
      → pop_held t ≡ some (some b, t')
      → held_by t ≡ held_by t' ++ (b ∷ [])
  unfolding pop_held
  held-pop_held b none t' h = cc
  held-pop_held b (some t) t' h = go (result_of (popped t _ refl)) refl h
    where
      go :
          (o : Option (Option Block × Chained))
          → result_of (popped t _ refl) ≡ o
          → some_pair o ≡ some (some b, t')
          → t.held ≡ held_by t' ++ (b ∷ [])
      go none e k = cc
      go (some (c, r)) e k =
          let same : some r ≡ t' = cc in
          let block : c ≡ some b = cc in
          held-result_of t.held (popped t _ refl) b r (e ∙ ap (λ d. some (d, r)) block)
          ∙ ap (λ u. held_by u ++ (b ∷ [])) same

  -- The interface of the consensus, up to 2^64 blocks and the first error: what that leaves on disk is
  -- not followed any further.
  pub chained_store : (ℕ → Time) → BlockStore
  chained_store clock = record {
    Store = Option Chained;
    blocks = held_by;
    write_block = write_held clock;
    pop_block = pop_held;
    left_by_write = λ b t. none;
    left_by_pop = λ t. none;
    blocks-write_block = held-write_held clock;
    blocks-pop_block = held-pop_held;
  }
