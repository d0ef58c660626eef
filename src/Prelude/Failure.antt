-- ===== src/Prelude/Failure.antt =====
-- What a Go function that can fail does: it returns a value, returns an error, or panics (an
-- index or a slice bound out of range).
use mathlib.Core.Path.{◌≡◌, refl}
use mathlib.Core.Option.{Option, none, some}

pub data Outcome {ℓ κ} (E : Type ℓ) (A : Type κ) : Type (ℓ ⊔ κ) where
  ok : A → Outcome E A
  fail : E → Outcome E A
  panic : Outcome E A

infixl 5 ◌>>=◌
abbrev pub ◌>>=◌ {ℓ κ μ} :
    {E : Type ℓ} {A : Type κ} {B : Type μ} → Outcome E A → (A → Outcome E B) → Outcome E B
ok a >>= f = f a
fail e >>= f = fail e
panic >>= f = panic

-- `xs[i]` once the bounds check has been made.
abbrev pub or_panic {ℓ κ} : {E : Type ℓ} {A : Type κ} → Option A → Outcome E A
or_panic none = panic
or_panic (some a) = ok a

-- An error of one kind wrapped as another.
abbrev pub map_fail {ℓ κ μ} :
    {E : Type ℓ} {F : Type μ} {A : Type κ} → (E → F) → Outcome E A → Outcome F A
map_fail f (ok a) = ok a
map_fail f (fail e) = fail (f e)
map_fail f panic = panic

-- What a chain that succeeds went through.
pub bind-eq-ok {ℓ κ μ} :
    {E : Type ℓ} {A : Type κ} {B : Type μ} (m : Outcome E A) (f : A → Outcome E B) {b : B}
    → (m >>= f) ≡ ok b
    → (a : A) × (m ≡ ok a) × (f a ≡ ok b)
bind-eq-ok (ok a) f h = (a, refl, h)
bind-eq-ok (fail e) f h = cc
bind-eq-ok panic f h = cc
