-- ===== src/Api/Block/Tests.antt =====
-- Tests of the signature lists.
use prellblock.Prelude.{◌≡◌, ◌↔◌, refl, true, false, [], ◌∷◌}
use prellblock.Prelude.Sets.{Distinct}
use prellblock.Api.Block.{is_unique}
use prellblock.Api.Block.Unique.{is_unique-Distinct}

twice : is_unique ((1, 5) ∷ (2, 5) ∷ (1, 6) ∷ []) ≡ false
unfolding is_unique
twice = refl

is_unique-Distinct_test : (is_unique ((1, 5) ∷ (2, 5) ∷ []) ≡ true) ↔ Distinct (1 ∷ 2 ∷ [])
is_unique-Distinct_test = is_unique-Distinct ((1, 5) ∷ (2, 5) ∷ [])
