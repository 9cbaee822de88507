-- ===== src/BlockStorage/Sled.antt =====
-- sled, on which prellblock/src/block_storage stands and which is not part of the repository: trees
-- that hold byte strings under ordered keys.
use prellblock.Prelude.{
  ◌≡◌, List, [], ◌∷◌, ◌++◌, Option, none, some, Bool, true, not, ◌&&◌, if◌then◌else◌,
}
use prellblock.Pinxit.{Bytes}
use prellblock.Api.Query.{Bound, included, excluded, unbounded}

module _ {K : Type 0} (before : K → K → Bool) where
  -- what a key is written to, in ascending order
  abbrev pub insert_sorted : K → Bytes → List (K × Bytes) → List (K × Bytes)
  insert_sorted k v [] = (k, v) ∷ []
  insert_sorted k v ((j, u) ∷ l) =
      let rest = insert_sorted k v l in
      if before k j then (k, v) ∷ (j, u) ∷ l else if before j k then (j, u) ∷ rest else (k, v) ∷ l

  abbrev pub above : Bound K → K → Bool
  above (included a) k = not (before k a)
  above (excluded a) k = before a k
  above unbounded k = true

  abbrev pub below : Bound K → K → Bool
  below (included b) k = not (before b k)
  below (excluded b) k = before k b
  below unbounded k = true

  -- what stands between two bounds
  abbrev pub within : Bound K → Bound K → List (K × Bytes) → List (K × Bytes)
  within a b [] = []
  within a b ((k, v) ∷ l) =
      let rest = within a b l in if above a k && below b k then (k, v) ∷ rest else rest

-- `sled::Tree`; the outer `none` is an error of sled. An error while a range is read is not modelled.
pub record Sled (K : Type 0) (before : K → K → Bool) : Type 1 where
  pub Tree : Type 0
  pub empty : Tree
  pub items : Tree → List (K × Bytes)
  pub insert : K → Bytes → Tree → Option Tree
  pub range : Bound K → Bound K → Tree → List (K × Bytes)
  pub pop_max : Tree → Option (Option (K × Bytes) × Tree)
  -- An opened tree that was not there has nothing in it.
  pub items-empty : items empty ≡ []
  pub items-insert :
      (k : K) (v : Bytes) (t t' : Tree)
      → insert k v t ≡ some t'
      → items t' ≡ insert_sorted before k v (items t)
  pub range_lem : (a b : Bound K) (t : Tree) → range a b t ≡ within before a b (items t)
  pub items-pop_max :
      (e : K × Bytes) (t t' : Tree) → pop_max t ≡ some (some e, t') → items t ≡ items t' ++ (e ∷ [])
  pub empty-pop_max : (t t' : Tree) → pop_max t ≡ some (none, t') → (items t ≡ []) × (items t' ≡ [])
