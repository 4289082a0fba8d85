-- ===== src/Prelude/Members.antt =====
-- A walk of a list for an element: Go sets, and loops that compare.
use mathlib.Core.Path.{◌≡◌, sym}
use mathlib.Core.Logic.{◌↔◌, ◌⊎◌, inl, inr}
use mathlib.Core.Bool.{Bool, true, false, ◌||◌}
use mathlib.Core.List.{List, [], ◌∷◌, ◌++◌, Memᴰ}
use mathlib.Core.List.Memᴰ
use native.Mathlib.Omega.{arith}
use container_runtime_securi.Prelude.Tests.{Bool-cases}
use container_runtime_securi.Prelude.Equality.{Comparable, ◌==◌, ==_iff}

module _ {ℓ} {A : Type ℓ} ⦃e : Comparable A⦄ where
  unfoldable pub is_member : List A → A → Bool
  is_member [] a = false
  is_member (b ∷ bs) a = b == a || is_member bs a

  is_member-Memᴰ : (xs : List A) (a : A) → is_member xs a ≡ true → Memᴰ a xs
  unfolding is_member
  is_member-Memᴰ [] a h = absurd cc
  is_member-Memᴰ (b ∷ bs) a h = elim (Bool-cases (b == a)) [
    | inl same ↦ Memᴰ.head (sym ((==_iff b a).0 same))
    | inr other ↦ Memᴰ.tail (is_member-Memᴰ bs a (ground arith))
  ]

  Memᴰ-is_member : (xs : List A) (a : A) → Memᴰ a xs → is_member xs a ≡ true
  unfolding is_member
  Memᴰ-is_member [] a m = elim m [ ]
  Memᴰ-is_member (b ∷ bs) a (Memᴰ.head h) = let same = (==_iff b a).1 (sym h) in ground arith
  Memᴰ-is_member (b ∷ bs) a (Memᴰ.tail m) = let rest = Memᴰ-is_member bs a m in ground arith

  pub is_member_iff : (xs : List A) (a : A) → (is_member xs a ≡ true) ↔ Memᴰ a xs
  is_member_iff xs a = (is_member-Memᴰ xs a, Memᴰ-is_member xs a)

pub Memᴰ-append {ℓ} :
    {A : Type ℓ} (a : A) (xs ys : List A) → Memᴰ a (xs ++ ys) ↔ (Memᴰ a xs ⊎ Memᴰ a ys)
Memᴰ-append a xs ys = (
  Memᴰ.append_cases xs,
  λ h. elim h [ inl m ↦ Memᴰ.append_left ys m | inr m ↦ Memᴰ.append_right xs m ],
)
