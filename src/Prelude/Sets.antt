-- ===== src/Prelude/Sets.antt =====
-- Lists of identifiers as finite sets: membership, distinctness, counting.
use Prim.Native.Nat.{ℕ, suc, ◌+◌, ◌≤◌}
use mathlib.Core.Path.{◌≡◌, refl, ap}
use mathlib.Core.Bool.{Bool, true, false, not, ◌&&◌, ◌||◌}
use mathlib.Core.List.{List, [], ◌∷◌, ◌++◌}
use native.Mathlib.Omega.{arith}
use prellblock.Prelude.Tests.{◌==◌, if◌then◌else◌, ==_refl}
use prellblock.Prelude.Lists.{length, length-append}

-- `Vec::contains`, `HashSet::contains`
abbrev pub contains : List ℕ → ℕ → Bool
contains [] a = false
contains (x ∷ xs) a = (x == a) || contains xs a

abbrev pub Distinct : List ℕ → Type 0
Distinct [] = Unit
Distinct (x ∷ xs) = (contains xs x ≡ false) × Distinct xs

abbrev pub Subset : List ℕ → List ℕ → Type 0
Subset xs ys = (a : ℕ) → contains xs a ≡ true → contains ys a ≡ true

-- one occurrence less
abbrev pub erase : ℕ → List ℕ → List ℕ
erase a [] = []
erase a (x ∷ xs) = let rest = erase a xs in if x == a then xs else x ∷ rest

-- the members of the first list that are, or are not, in the second
abbrev pub common : List ℕ → List ℕ → List ℕ
common [] ys = []
common (x ∷ xs) ys = let rest = common xs ys in if contains ys x then x ∷ rest else rest

abbrev pub others : List ℕ → List ℕ → List ℕ
others [] ys = []
others (x ∷ xs) ys = let rest = others xs ys in if contains ys x then rest else x ∷ rest

pub length-erase :
    (a : ℕ) (xs : List ℕ) → contains xs a ≡ true → length (erase a xs) + 1 ≡ length xs
length-erase a [] h = cc
length-erase a (x ∷ xs) h = ground (arith, length-erase a xs)

pub contains-erase_ne :
    (a b : ℕ) (xs : List ℕ)
    → (a == b) ≡ false
    → contains xs b ≡ true
    → contains (erase a xs) b ≡ true
contains-erase_ne a b [] n h = h
contains-erase_ne a b (x ∷ xs) n h = ground (arith, contains-erase_ne a b xs n)

-- a member of the list is not the element that it lacks
ne_of_contains :
    (x a : ℕ) (xs : List ℕ) → contains xs x ≡ false → contains xs a ≡ true → (x == a) ≡ false
ne_of_contains x a [] h k = cc
ne_of_contains x a (y ∷ xs) h k = ground (arith, ne_of_contains x a xs)

-- Distinct members of a list are at most as many as the list is long.
pub length-le-of_Subset : (xs ys : List ℕ) → Distinct xs → Subset xs ys → length xs ≤ length ys
length-le-of_Subset [] ys d s = omega arith
length-le-of_Subset (x ∷ xs) ys d s = omega (
  arith,
  length-le-of_Subset xs (erase x ys) d.1 stays,
  length-erase x ys (s x (ground (arith, ==_refl x))),
)
  where
    stays : Subset xs (erase x ys)
    stays a m = contains-erase_ne x a ys (ne_of_contains x a xs d.0 m) (s a (ground arith))

pub contains-append :
    (a : ℕ) (xs ys : List ℕ) → contains (xs ++ ys) a ≡ (contains xs a || contains ys a)
contains-append a [] ys = refl
contains-append a (x ∷ xs) ys = ground (arith, contains-append a xs ys)

contains-others :
    (a : ℕ) (xs ys : List ℕ) → contains (others xs ys) a ≡ (contains xs a && not (contains ys a))
contains-others a [] ys = refl
contains-others a (x ∷ xs) ys = ground (arith, contains-others a xs ys)

pub contains-common :
    (a : ℕ) (xs ys : List ℕ) → contains (common xs ys) a ≡ (contains xs a && contains ys a)
contains-common a [] ys = refl
contains-common a (x ∷ xs) ys = ground (arith, contains-common a xs ys)

others-Distinct : (xs ys : List ℕ) → Distinct xs → Distinct (others xs ys)
others-Distinct [] ys d = d
others-Distinct (x ∷ xs) ys d = ground (arith, contains-others x xs ys, others-Distinct xs ys d.1)

pub common-Distinct : (xs ys : List ℕ) → Distinct xs → Distinct (common xs ys)
common-Distinct [] ys d = d
common-Distinct (x ∷ xs) ys d = ground (arith, contains-common x xs ys, common-Distinct xs ys d.1)

length-others : (xs ys : List ℕ) → length (common xs ys) + length (others xs ys) ≡ length xs
length-others [] ys = omega arith
length-others (x ∷ xs) ys = ground (arith, length-others xs ys)

pub append-Distinct :
    (xs ys : List ℕ)
    → Distinct xs
    → Distinct ys
    → ((a : ℕ) → contains xs a ≡ true → contains ys a ≡ false)
    → Distinct (xs ++ ys)
append-Distinct [] ys d e f = e
append-Distinct (x ∷ xs) ys d e f = (
  ground (arith, contains-append x xs ys, f x (ground (arith, ==_refl x))),
  append-Distinct xs ys d.1 e (λ a m. f a (ground arith)),
)

-- Two sets of members of `zs` share what their sizes exceed the size of `zs` by.
pub length-common :
    (xs ys zs : List ℕ)
    → Distinct xs
    → Distinct ys
    → Subset xs zs
    → Subset ys zs
    → length xs + length ys ≤ length zs + length (common xs ys)
length-common xs ys zs dx dy sx sy = omega (
  arith,
  length-others xs ys,
  length-append (others xs ys) ys,
  length-le-of_Subset (others xs ys ++ ys) zs apart inside,
)
  where
    apart : Distinct (others xs ys ++ ys)
    apart =
        append-Distinct (others xs ys) ys (others-Distinct xs ys dx) dy
          (λ a m. ground (arith, contains-others a xs ys))

    inside : Subset (others xs ys ++ ys) zs
    inside a m =
        ground (arith, contains-append a (others xs ys) ys, contains-others a xs ys, sx a, sy a)

-- More distinct members than the other list is long: one of them is not in it.
pub member-other :
    (xs ys : List ℕ)
    → Distinct xs
    → suc (length ys) ≤ length xs
    → (a : ℕ) × (contains xs a ≡ true) × (contains ys a ≡ false)
member-other xs ys d h = go (others xs ys) refl
  where
    go :
        (l : List ℕ) → others xs ys ≡ l → (a : ℕ) × (contains xs a ≡ true) × (contains ys a ≡ false)
    go [] e = absurd (
        omega (
          arith,
          length-others xs ys,
          ap length e,
          length-le-of_Subset (common xs ys) ys (common-Distinct xs ys d)
              (λ a m. ground (arith, contains-common a xs ys)),
        ))
    go (a ∷ l) e =
        let m : contains (others xs ys) a ≡ true = ground (arith, ==_refl a) in
        (a, ground (arith, contains-others a xs ys), ground (arith, contains-others a xs ys))
