-- ===== src/Prelude/Equality.antt =====
-- Go's `==` on numbers, strings, byte strings and struct keys: an interface with its instances.
use Prim.Native.Nat.{ℕ}
use Prim.Native.String.{String}
use mathlib.Core.Path.{◌≡◌, refl}
use mathlib.Core.Logic.{◌↔◌}
use mathlib.Core.Bool.{Bool, true, false, ◌&&◌}
use mathlib.Core.List.{List, [], ◌∷◌}
use native.Mathlib.Omega.{arith}
use text.Mathlib.Text.{◌==◌ as str_eq}
use text.Mathlib.TextEquality.{eq_iff}
use container_runtime_securi.Prelude.Tests.{nat_beq, nat_beq_iff}

pub record Comparable {ℓ} (A : Type ℓ) : Type ℓ where
  pub same : A → A → Bool
  pub same_iff : (a b : A) → (same a b ≡ true) ↔ (a ≡ b)

infix 50 ◌==◌
abbrev pub ◌==◌ {ℓ} : {A : Type ℓ} ⦃e : Comparable A⦄ → A → A → Bool
◌==◌ ⦃e⦄ = e.same

instance abbrev pub string_comparable : Comparable String
string_comparable = record { same = str_eq; same_iff = eq_iff }

instance abbrev pub nat_comparable : Comparable ℕ
nat_comparable = record { same = nat_beq; same_iff = nat_beq_iff }

-- Byte strings, compared byte by byte.
abbrev pub bytes_beq : List ℕ → List ℕ → Bool
bytes_beq [] [] = true
bytes_beq (a ∷ s) (b ∷ t) = nat_beq a b && bytes_beq s t
bytes_beq _ _ = false

pub bytes_beq_iff : (s t : List ℕ) → (bytes_beq s t ≡ true) ↔ (s ≡ t)
bytes_beq_iff [] [] = ground arith
bytes_beq_iff (a ∷ s) (b ∷ t) = ground (arith, bytes_beq_iff s t)
bytes_beq_iff [] (b ∷ t) = ground arith
bytes_beq_iff (a ∷ s) [] = ground arith

instance abbrev pub bytes_comparable : Comparable (List ℕ)
bytes_comparable = record { same = bytes_beq; same_iff = bytes_beq_iff }

pub pair_beq_iff {ℓ κ} :
    {A : Type ℓ} {B : Type κ} ⦃ea : Comparable A⦄ ⦃eb : Comparable B⦄ (p q : A × B)
    → ((ea.same p.0 q.0 && eb.same p.1 q.1) ≡ true) ↔ (p ≡ q)
pair_beq_iff ⦃ea⦄ ⦃eb⦄ p q = ground (arith, ea.same_iff p.0 q.0, eb.same_iff p.1 q.1)

-- A struct key of two fields.
instance abbrev pub pair_comparable {ℓ κ} :
    {A : Type ℓ} {B : Type κ} ⦃ea : Comparable A⦄ ⦃eb : Comparable B⦄ → Comparable (A × B)
pair_comparable ⦃ea⦄ ⦃eb⦄ = record {
  same = λ p q. ea.same p.0 q.0 && eb.same p.1 q.1;
  same_iff = pair_beq_iff;
}

-- The law of `==`, for the tactics.
pub ==_iff {ℓ} : {A : Type ℓ} ⦃e : Comparable A⦄ (a b : A) → ((a == b) ≡ true) ↔ (a ≡ b)
==_iff ⦃e⦄ a b = e.same_iff a b

pub ==_refl {ℓ} : {A : Type ℓ} ⦃e : Comparable A⦄ (a : A) → (a == a) ≡ true
==_refl ⦃e⦄ a = (e.same_iff a a).1 refl
