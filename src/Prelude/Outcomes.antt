-- ===== src/Prelude/Outcomes.antt =====
-- What a call of the program can do: return, fail with an error, or panic. A panic ends the task.
use mathlib.Core.Path.{◌≡◌, refl}
use mathlib.Core.Logic.{◌≢◌}
use native.Mathlib.Omega.{arith}
use mathlib.Core.Option.{Option, none, some}

pub data Outcome {ℓ κ} (E : Type κ) (A : Type ℓ) : Type (ℓ ⊔ κ) where
  ok : A → Outcome E A
  err : E → Outcome E A
  panicked : Outcome E A

-- The `?` operator.
infixl 5 ◌>>=◌ ◌>>◌
abbrev pub ◌>>=◌ {ℓ κ ι} :
    {E : Type κ} {A : Type ℓ} {B : Type ι} → Outcome E A → (A → Outcome E B) → Outcome E B
panicked >>= f = panicked
err e >>= f = err e
ok a >>= f = f a

abbrev pub ◌>>◌ {κ ι} : {E : Type κ} {B : Type ι} → Outcome E (Unit {0}) → Outcome E B → Outcome E B
first >> next = first >>= λ done. next

-- `unwrap`, and a call that may reach `unreachable!`
abbrev pub or_panic {ℓ κ} : {E : Type κ} {A : Type ℓ} → Option A → Outcome E A
or_panic none = panicked
or_panic (some a) = ok a

-- `Result::map_err`, which `?` makes by `From`
abbrev pub map_err {ℓ κ ι} :
    {E : Type κ} {F : Type ι} {A : Type ℓ} → (E → F) → Outcome E A → Outcome F A
map_err f (ok a) = ok a
map_err f (err e) = err (f e)
map_err f panicked = panicked

module _ {ℓ κ ι} {E : Type κ} {A : Type ℓ} {B : Type ι} where
  -- Two steps return a value if the first returns one from which the second returns it.
  pub >>=-eq-ok :
      (first : Outcome E A) (then_do : A → Outcome E B) {result : B}
      → first >>= then_do ≡ ok result
      → (value : A) × (first ≡ ok value) × (then_do value ≡ ok result)
  >>=-eq-ok panicked then_do h = cc
  >>=-eq-ok (err e) then_do h = cc
  >>=-eq-ok (ok value) then_do h = (value, refl, h)

pub ne-panicked_of_ok : {E A : Type 0} (o : Outcome E A) (a : A) → o ≡ ok a → o ≢ panicked
ne-panicked_of_ok o a h e = ground (arith, h, e)
