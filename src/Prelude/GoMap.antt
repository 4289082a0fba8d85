-- ===== src/Prelude/GoMap.antt =====
-- A Go map as an association list: `m[k]`, `m[k] = v`, `delete(m, k)` and `len(m)`.
use Prim.Native.Nat.{◌+◌, ◌≤◌, ◌<◌}
use mathlib.Core.Path.{◌≡◌, refl}
use mathlib.Core.Bool.{Bool}
use mathlib.Core.Option.{Option, none, some}
use mathlib.Core.List.{List, [], ◌∷◌}
use native.Mathlib.Omega.{arith}
use container_runtime_securi.Prelude.Tests.{if◌then◌else◌, Bool-cases}
use mathlib.Core.Path.{ap, subst, ◌∙◌}
use mathlib.Core.Logic.{inl, inr}
use container_runtime_securi.Prelude.Lists.{length, AllOf}
use container_runtime_securi.Prelude.Equality.{Comparable, ◌==◌, ==_iff}

abbrev pub GoMap {ℓ κ} : Type ℓ → Type κ → Type (ℓ ⊔ κ)
GoMap K V = List (K × V)

module _ {ℓ κ} {K : Type ℓ} {V : Type κ} ⦃e : Comparable K⦄ where
  -- `m[k]`; `none` is a missing key.
  unfoldable pub get : GoMap K V → K → Option V
  get [] k = none
  get ((j, v) ∷ m) k = if j == k then some v else get m k

  -- `m[k] = v`
  unfoldable pub put : GoMap K V → K → V → GoMap K V
  put [] k v = (k, v) ∷ []
  put ((j, w) ∷ m) k v = if j == k then (k, v) ∷ m else (j, w) ∷ put m k v

  -- `delete(m, k)`
  unfoldable pub delete : GoMap K V → K → GoMap K V
  delete [] k = []
  delete ((j, w) ∷ m) k = let rest = delete m k in if j == k then rest else (j, w) ∷ rest

  -- The loop `for k, v := range m { if p(k, v) { delete(m, k) } }`.
  unfoldable pub delete_if : (K → V → Bool) → GoMap K V → GoMap K V
  delete_if p [] = []
  delete_if p ((j, w) ∷ m) = let rest = delete_if p m in if p j w then rest else (j, w) ∷ rest

  -- A map holds a key once.
  abbrev pub IsMap : GoMap K V → Type κ
  IsMap [] = Unit
  IsMap ((j, w) ∷ m) = (get m j ≡ none) × IsMap m

module _ {ℓ κ} {K : Type ℓ} {V : Type κ} ⦃e : Comparable K⦄ where
  pub get-put :
      (m : GoMap K V) (k j : K) (v : V) → get (put m k v) j ≡ (if k == j then some v else get m j)
  unfolding get put
  get-put [] k j v = refl
  get-put ((i, w) ∷ m) k j v =
      ground (arith, e.same_iff k j, e.same_iff i k, e.same_iff i j, get-put m k j v)

  pub get-delete :
      (m : GoMap K V) (k j : K) → get (delete m k) j ≡ (if k == j then none else get m j)
  unfolding get delete
  get-delete [] k j = ground arith
  get-delete ((i, w) ∷ m) k j =
      ground (arith, e.same_iff k j, e.same_iff i k, e.same_iff i j, get-delete m k j)

  pub length-put-le : (m : GoMap K V) (k : K) (v : V) → length (put m k v) ≤ length m + 1
  unfolding put
  length-put-le [] k v = omega arith
  length-put-le ((i, w) ∷ m) k v = ground (arith, length-put-le m k v)

  -- Writing to a key that is there keeps the size.
  pub length-put_old :
      (m : GoMap K V) (k : K) (v w : V) → get m k ≡ some w → length (put m k v) ≡ length m
  unfolding get put
  length-put_old [] k v w h = cc
  length-put_old ((i, u) ∷ m) k v w h = ground (arith, length-put_old m k v w)

  -- Writing to a new key adds one entry.
  pub length-put_new :
      (m : GoMap K V) (k : K) (v : V) → get m k ≡ none → length (put m k v) ≡ length m + 1
  unfolding get put
  length-put_new [] k v h = omega arith
  length-put_new ((i, u) ∷ m) k v h = ground (arith, length-put_new m k v)

  pub length-delete-le : (m : GoMap K V) (k : K) → length (delete m k) ≤ length m
  unfolding delete
  length-delete-le [] k = omega arith
  length-delete-le ((i, w) ∷ m) k = ground (arith, length-delete-le m k)

  pub length-delete-lt :
      (m : GoMap K V) (k : K) (w : V) → get m k ≡ some w → length (delete m k) < length m
  unfolding get delete
  length-delete-lt [] k w h = cc
  length-delete-lt ((i, u) ∷ m) k w h = ground (arith, length-delete-lt m k w, length-delete-le m k)

  pub length-delete_if-le : (p : K → V → Bool) (m : GoMap K V) → length (delete_if p m) ≤ length m
  unfolding delete_if
  length-delete_if-le p [] = omega arith
  length-delete_if-le p ((i, w) ∷ m) = ground (arith, length-delete_if-le p m)

  pub get-delete_if-none :
      (p : K → V → Bool) (m : GoMap K V) (k : K) → get m k ≡ none → get (delete_if p m) k ≡ none
  unfolding get delete_if
  get-delete_if-none p [] k h = refl
  get-delete_if-none p ((i, w) ∷ m) k h = ground (arith, get-delete_if-none p m k)

  -- The sweep removes exactly the entries that pass the test.
  pub get-delete_if :
      (p : K → V → Bool) (m : GoMap K V) (k : K)
      → IsMap m
      → get (delete_if p m) k
        ≡ elim (get m k) [ none ↦ none | some v ↦ if p k v then none else some v ]
  unfolding get delete_if
  get-delete_if p [] k h = refl
  get-delete_if p ((i, w) ∷ m) k h =
      ground (arith, e.same_iff i k, get-delete_if p m k h.1, get-delete_if-none p m i h.0)

  pub put-IsMap : (m : GoMap K V) (k : K) (v : V) → IsMap m → IsMap (put m k v)
  unfolding get put
  put-IsMap [] k v h = (refl, tt)
  put-IsMap ((i, w) ∷ m) k v h =
      ground (arith, e.same_iff i k, e.same_iff k i, get-put m k i v, put-IsMap m k v h.1)

  pub delete-IsMap : (m : GoMap K V) (k : K) → IsMap m → IsMap (delete m k)
  unfolding get delete
  delete-IsMap [] k h = h
  delete-IsMap ((i, w) ∷ m) k h = ground (arith, get-delete m k i, delete-IsMap m k h.1)

  pub delete_if-IsMap : (p : K → V → Bool) (m : GoMap K V) → IsMap m → IsMap (delete_if p m)
  unfolding delete_if
  delete_if-IsMap p [] h = h
  delete_if-IsMap p ((i, w) ∷ m) h =
      ground (arith, get-delete_if-none p m i h.0, delete_if-IsMap p m h.1)

  pub put-AllOf {ι} :
      (P : K × V → Type ι) (m : GoMap K V) (k : K) (v : V)
      → P (k, v)
      → AllOf P m
      → AllOf P (put m k v)
  unfolding put
  put-AllOf P [] k v new h = (new, tt)
  put-AllOf P ((i, w) ∷ m) k v new h = elim (Bool-cases (i == k)) [
    | inl same ↦ rw same (new, h.1)
    | inr other ↦ rw other (h.0, put-AllOf P m k v new h.1)
  ]

  pub delete-AllOf {ι} :
      (P : K × V → Type ι) (m : GoMap K V) (k : K) → AllOf P m → AllOf P (delete m k)
  unfolding delete
  delete-AllOf P [] k h = h
  delete-AllOf P ((i, w) ∷ m) k h = elim (Bool-cases (i == k)) [
    | inl same ↦ rw same (delete-AllOf P m k h.1)
    | inr other ↦ rw other (h.0, delete-AllOf P m k h.1)
  ]

  pub delete_if-AllOf {ι} :
      (P : K × V → Type ι) (q : K → V → Bool) (m : GoMap K V) → AllOf P m → AllOf P (delete_if q m)
  unfolding delete_if
  delete_if-AllOf P q [] h = h
  delete_if-AllOf P q ((i, w) ∷ m) h = elim (Bool-cases (q i w)) [
    | inl gone ↦ rw gone (delete_if-AllOf P q m h.1)
    | inr kept ↦ rw kept (h.0, delete_if-AllOf P q m h.1)
  ]

  pub get-AllOf {ι} :
      (P : K × V → Type ι) (m : GoMap K V) (k : K) (v : V) → get m k ≡ some v → AllOf P m → P (k, v)
  unfolding get
  get-AllOf P [] k v e h = absurd cc
  get-AllOf P ((i, w) ∷ m) k v e h = elim (Bool-cases (i == k)) [
    | inl same ↦
        let key : i ≡ k = (==_iff i k).0 same in
        let value : w ≡ v = ground arith in
        subst P (ap (λ j. (j, w)) key ∙ ap (λ u. (k, u)) value) h.0
    | inr other ↦ get-AllOf P m k v (ground arith) h.1
  ]
