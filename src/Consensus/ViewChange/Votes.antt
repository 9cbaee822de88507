-- ===== src/Consensus/ViewChange/Votes.antt =====
-- The votes that are counted are those of distinct peers.
use native.Mathlib.Decide.{dec_lt, ℕ_discrete}
use prellblock.Prelude.{
  ℕ, ◌+◌, ◌≡◌, ◌≢◌, refl, sym, ◌∙◌, subst, not, ◌&&◌, ◌==◌, [], ◌∷◌, length, ok, arith,
}
use prellblock.Prelude.Map
use prellblock.Prelude.Map.{Map}
use prellblock.Prelude.Sets.{contains, Distinct}
use prellblock.Pinxit.{PeerId, Signature}
use prellblock.Api.Block.{signers}
use prellblock.RingBuffer.{RingBuffer, get}
use prellblock.RingBuffer.Access.{IsValid, get_lem, written}
use prellblock.RingBuffer.Shift.{Shifted, Moved}

contains-remove :
    (k j : PeerId) (m : Map Signature)
    → contains (signers (Map.remove k m)) j ≡ (contains (signers m) j && not (k == j))
unfolding Map.remove
contains-remove k j [] = refl
contains-remove k j ((i, s) ∷ m) = ground (arith, contains-remove k j m)

Distinct-remove :
    (k : PeerId) (m : Map Signature) → Distinct (signers m) → Distinct (signers (Map.remove k m))
unfolding Map.remove
Distinct-remove k [] d = tt
Distinct-remove k ((i, s) ∷ m) d = ground (arith, Distinct-remove k m d.1, contains-remove k i m)

-- One more vote leaves every voter once in the map.
pub Distinct-insert :
    (k : PeerId) (s : Signature) (m : Map Signature)
    → Distinct (signers m)
    → Distinct (signers (Map.insert k s m))
unfolding Map.insert
Distinct-insert k s m d = (ground (arith, contains-remove k k m), Distinct-remove k m d)

abbrev pub VotersDistinct : RingBuffer (Map Signature) → Type 0
VotersDistinct r = (i : ℕ) (m : Map Signature) → get r i ≡ ok m → Distinct (signers m)

pub VotersDistinct-Shifted :
    (r r' : RingBuffer (Map Signature)) → VotersDistinct r → Shifted r [] r' → VotersDistinct r'
VotersDistinct-Shifted r r' v sh i m h = elim (dec_lt r.start i) [
  | no n ↦ ground (arith, sh.below i (omega arith))
  | yes p ↦ elim (dec_lt i (r.start + length r.items)) [
    | yes q ↦ v i m (sym (sh.kept i p q) ∙ h)
    | no n ↦ elim (dec_lt (r.start + length r.items) i) [
      | yes q ↦ ground (arith, sh.above i q)
      | no l ↦
          let e : i ≡ r.start + length r.items = omega arith in
          let k : m ≡ [] = ground (arith, e, sh.new_last) in
          subst (λ x. Distinct (signers x)) (sym k) tt
    ]
  ]
]

pub VotersDistinct-Moved :
    (n : ℕ) (r r' : RingBuffer (Map Signature))
    → VotersDistinct r
    → IsValid r'
    → Moved n r [] r'
    → VotersDistinct r'
VotersDistinct-Moved n r r' v valid mv i m h = elim (dec_lt i (r.start + n)) [
  | yes p ↦ ground (arith, get_lem i valid, mv.start_at)
  | no p ↦ elim (dec_lt i (r.start + n + length r.items)) [
    | no q ↦ ground (arith, get_lem i valid, mv.start_at, mv.size)
    | yes q ↦ elim (dec_lt i (r.start + length r.items)) [
      | yes l ↦ v i m (sym (mv.kept i (omega arith) l) ∙ h)
      | no l ↦
          let k : m ≡ [] = ground (arith, mv.filled i (omega arith) (omega arith) q) in
          subst (λ x. Distinct (signers x)) (sym k) tt
    ]
  ]
]

pub VotersDistinct-written :
    (r : RingBuffer (Map Signature)) (i : ℕ) (y : Map Signature)
    → VotersDistinct r
    → Distinct (signers y)
    → ((j : ℕ) → i ≢ j → get (written r i y) j ≡ get r j)
    → get (written r i y) i ≡ ok y
    → VotersDistinct (written r i y)
VotersDistinct-written r i y v d others self j m h = elim (ℕ_discrete i j) [
  | yes e ↦ let k : m ≡ y = ground (arith, e, self) in subst (λ x. Distinct (signers x)) (sym k) d
  | no n ↦ v j m (sym (others j n) ∙ h)
]
