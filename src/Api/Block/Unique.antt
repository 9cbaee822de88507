-- ===== src/Api/Block/Unique.antt =====
-- `SignatureList::is_unique` decides that the peers of the list are distinct.
use prellblock.Prelude.{◌≡◌, ◌↔◌, refl, true, false, List, [], ◌∷◌, arith}
use prellblock.Prelude.Sets.{contains, Distinct}
use prellblock.Pinxit.{PeerId}
use prellblock.Api.Block.{SignatureList, signers, all_inserted, is_unique}

-- no peer of the list is in the set
abbrev Apart : List PeerId → List PeerId → Type 0
Apart set [] = Unit
Apart set (p ∷ l) = (contains set p ≡ false) × Apart set l

Apart-cons :
    (p : PeerId) (set l : List PeerId) → Apart (p ∷ set) l ↔ (Apart set l × (contains l p ≡ false))
Apart-cons p set [] = (λ h. (tt, refl), λ h. tt)
Apart-cons p set (q ∷ l) =
    (λ h. ground (arith, (Apart-cons p set l).0 h.1), λ h. ground (arith, (Apart-cons p set l).1))

all_inserted_iff :
    (set : List PeerId) (l : SignatureList)
    → (all_inserted set l ≡ true) ↔ (Apart set (signers l) × Distinct (signers l))
unfolding all_inserted
all_inserted_iff set [] = (λ h. (tt, tt), λ h. refl)
all_inserted_iff set ((p, s) ∷ l) = (
  λ h. ground (arith, (all_inserted_iff (p ∷ set) l).0, (Apart-cons p set (signers l)).0),
  λ h. ground (arith, (all_inserted_iff (p ∷ set) l).1, (Apart-cons p set (signers l)).1),
)

Apart-nil : (l : List PeerId) → Apart [] l
Apart-nil [] = tt
Apart-nil (p ∷ l) = (refl, Apart-nil l)

-- The test with a growing set passes exactly if no peer stands in the list twice.
pub is_unique-Distinct : (l : SignatureList) → (is_unique l ≡ true) ↔ Distinct (signers l)
unfolding is_unique
is_unique-Distinct l = (
  λ h. ((all_inserted_iff [] l).0 h).1,
  λ d. (all_inserted_iff [] l).1 (Apart-nil (signers l), d),
)
