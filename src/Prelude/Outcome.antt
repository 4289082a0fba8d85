-- ===== src/Prelude/Outcome.antt =====
-- What a Go call can do: return a value, return an error, or panic on an index out of range.

pub data Outcome {ℓ κ} (E : Type κ) (A : Type ℓ) : Type (ℓ ⊔ κ) where
  ok : A → Outcome E A
  fail : E → Outcome E A
  panic : Outcome E A

infixl 5 ◌>>=◌
abbrev pub ◌>>=◌ {ℓ κ υ} :
    {E : Type υ} {A : Type ℓ} {B : Type κ} → Outcome E A → (A → Outcome E B) → Outcome E B
ok a >>= f = f a
fail e >>= f = fail e
panic >>= f = panic

-- `x, err := f(); if err != nil { return ..., g(err) }`
abbrev pub map_fail {ℓ κ υ} :
    {E : Type υ} {F : Type κ} {A : Type ℓ} → (E → F) → Outcome E A → Outcome F A
map_fail g (ok a) = ok a
map_fail g (fail e) = fail (g e)
map_fail g panic = panic
