-- ===== src/Prelude/Slices.antt =====
-- Go byte slices: `data[i]`, `data[lo:hi]` and the fixed-width reads of `encoding/binary`.
-- A slice's capacity is taken to be its length, so `data[lo:hi]` panics when `hi` exceeds it.
use Prim.Native.Nat.{ℕ, zero, suc, ◌+◌, ◌-◌, ◌*◌, ◌/◌, ◌%◌, ◌≤◌, ◌<◌}
use mathlib.Core.Path.{◌≡◌, refl}
use mathlib.Core.Bool.{true, ◌&&◌}
use mathlib.Core.Option.{none, some}
use mathlib.Core.List.{List, [], ◌∷◌}
use native.Mathlib.Omega.{arith}
use container_runtime_securi.Prelude.Tests.{leb, if◌then◌else◌}
use container_runtime_securi.Prelude.Lists.{length, get_elem?, take, drop}
use container_runtime_securi.Prelude.Outcome.{Outcome, ok, panic}

abbrev pub Bytes : Type 0
Bytes = List ℕ

-- Every element is a byte.
abbrev pub AreBytes : Bytes → Type 0
AreBytes [] = Unit
AreBytes (b ∷ s) = (b < 256) × AreBytes s

module _ {κ} {E : Type κ} where
  -- `data[i]`
  unfoldable pub index : Bytes → ℕ → Outcome E ℕ
  index data' i = elim (get_elem? data' i) [ none ↦ panic | some b ↦ ok b ]

  -- `data[lo:hi]`
  unfoldable pub slice : Bytes → ℕ → ℕ → Outcome E Bytes
  slice data' lo hi =
      if leb lo hi && leb hi (length data') then ok (take (hi - lo) (drop lo data')) else panic

-- `binary.LittleEndian.UintN` and `binary.BigEndian.UintN` of the bytes.
abbrev pub le_value : Bytes → ℕ
le_value [] = 0
le_value (b ∷ s) = b + 256 * le_value s

abbrev be_from : ℕ → Bytes → ℕ
be_from acc [] = acc
be_from acc (b ∷ s) = be_from (256 * acc + b) s

abbrev pub be_value : Bytes → ℕ
be_value = be_from 0

-- The little-endian bytes of a number, at a width.
abbrev pub le_bytes : ℕ → ℕ → Bytes
le_bytes zero x = []
le_bytes (suc w) x = (x % 256) ∷ le_bytes w (x / 256)

pub index_ok {κ} :
    {E : Type κ} (s : Bytes) (i : ℕ)
    → i < length s
    → (b : ℕ) × (get_elem? s i ≡ some b) × (index {E = E} s i ≡ ok b)
unfolding index
index_ok [] i h = elim h [ ]
index_ok (b ∷ s) zero h = (b, refl, refl)
index_ok (b ∷ s) (suc i) h = index_ok s i (omega arith)

pub slice_ok {κ} :
    {E : Type κ} (s : Bytes) (lo hi : ℕ)
    → lo ≤ hi
    → hi ≤ length s
    → slice {E = E} s lo hi ≡ ok (take (hi - lo) (drop lo s))
unfolding slice
slice_ok s lo hi h k =
    let fits : (leb lo hi && leb hi (length s)) ≡ true = ground arith in rw fits refl
