-- ===== src/Prelude/Text.antt =====
-- Go strings that the code takes apart, as byte lists: the functions of `strings` and `fmt` that it calls.
-- `to_lower` is `strings.ToLower` on ASCII, and a literal is the list of its code points.
use Prim.Native.Nat.{ℕ, zero, suc, ◌+◌, ◌-◌, ◌/◌, ◌%◌}
use Prim.Native.Char.{code}
use Prim.Native.String.{String}
use mathlib.Core.Path.{◌≡◌, refl, ap}
use mathlib.Core.Logic.{◌↔◌, inl, inr}
use mathlib.Core.Bool.{Bool, true, false, ◌&&◌, ◌||◌}
use mathlib.Core.List.{List, [], ◌∷◌, ◌++◌, map}
use native.Mathlib.Omega.{arith}
use container_runtime_securi.Prelude.Tests.{
  Bool-cases, ltb, leb, nat_beq, nat_beq_iff, if◌then◌else◌,
}
use container_runtime_securi.Prelude.Lists.{length, drop}
use container_runtime_securi.Prelude.Slices.{Bytes}
use container_runtime_securi.Prelude.Equality.{bytes_beq}

-- The bytes of a literal.
abbrev pub codes : String → Bytes
codes String.[] = []
codes (String.◌∷◌ c s) = code c ∷ codes s

-- `strings.HasPrefix(s, t)`
unfoldable pub has_prefix : Bytes → Bytes → Bool
has_prefix s [] = true
has_prefix [] (d ∷ t) = false
has_prefix (c ∷ s) (d ∷ t) = nat_beq c d && has_prefix s t

-- `strings.HasSuffix(s, t)`
unfoldable pub has_suffix : Bytes → Bytes → Bool
has_suffix s t = leb (length t) (length s) && bytes_beq (drop (length s - length t) s) t

-- `strings.Contains(s, t)`
unfoldable pub contains : Bytes → Bytes → Bool
contains [] t = has_prefix [] t
contains (c ∷ s) t = has_prefix (c ∷ s) t || contains s t

-- A byte put in front of the first field.
abbrev pub to_first : ℕ → List Bytes → List Bytes
to_first c [] = (c ∷ []) ∷ []
to_first c (field ∷ fields) = (c ∷ field) ∷ fields

-- `strings.Split(s, sep)` at a separator of one byte.
unfoldable pub split : Bytes → ℕ → List Bytes
split [] sep = [] ∷ []
split (c ∷ s) sep = let rest = split s sep in if nat_beq c sep then [] ∷ rest else to_first c rest

-- `strings.Join(fields, sep)`
unfoldable pub join : List Bytes → Bytes → Bytes
join [] sep = []
join (field ∷ []) sep = field
join (field ∷ more ∷ fields) sep = field ++ (sep ++ join (more ∷ fields) sep)

-- White space of ASCII.
abbrev is_space : ℕ → Bool
is_space c = nat_beq c 32 || (leb 9 c && leb c 13)

abbrev trim_left : Bytes → Bytes
trim_left [] = []
trim_left (c ∷ s) = let rest = trim_left s in if is_space c then rest else c ∷ s

abbrev trim_right : Bytes → Bytes
trim_right [] = []
trim_right (c ∷ s) =
    let rest = trim_right s in
    elim rest [ [] ↦ if is_space c then [] else c ∷ [] | d ∷ t ↦ c ∷ d ∷ t ]

-- `strings.TrimSpace(s)`
unfoldable pub trim_space : Bytes → Bytes
trim_space s = trim_right (trim_left s)

-- `strings.ToLower(s)`
unfoldable pub to_lower : Bytes → Bytes
to_lower s = map (λ c. if leb 65 c && leb c 90 then c + 32 else c) s

-- `strings.ReplaceAll(s, old, new)`: at each place the text `old`, which is not empty, is passed over
-- as a whole, so the bytes still to skip are counted.
abbrev replace_from : ℕ → Bytes → Bytes → Bytes → Bytes
replace_from skip [] old new = []
replace_from (suc skip) (c ∷ s) old new = replace_from skip s old new
replace_from zero (c ∷ s) old new =
    let found = new ++ replace_from (length old - 1) s old new in
    let kept = c ∷ replace_from 0 s old new in if has_prefix (c ∷ s) old then found else kept

unfoldable pub replace_all : Bytes → Bytes → Bytes → Bytes
replace_all s old new = replace_from 0 s old new

-- The digits of a number in a base, with fuel for one more digit than it has.
abbrev pub digits : ℕ → ℕ → ℕ → Bytes → Bytes
digits zero base n acc = acc
digits (suc fuel) base n acc =
    let d = n % base in
    let shown = (if ltb d 10 then 48 + d else 87 + d) ∷ acc in
    let more = digits fuel base (n / base) shown in if ltb n base then shown else more

-- `%d` and `%x` of a number below 2^64.
unfoldable pub decimal : ℕ → Bytes
decimal n = digits 20 10 n []

unfoldable pub hexadecimal : ℕ → Bytes
hexadecimal n = digits 16 16 n []

pub has_prefix_iff : (s t : Bytes) → (has_prefix s t ≡ true) ↔ ((rest : Bytes) × (s ≡ t ++ rest))
unfolding has_prefix
has_prefix_iff s [] = (λ h. (s, refl), λ h. refl)
has_prefix_iff [] (d ∷ t) = (λ h. absurd cc, λ h. absurd cc)
has_prefix_iff (c ∷ s) (d ∷ t) =
    let rest = has_prefix_iff s t in
    (
      λ h.
          let found = rest.0 (ground arith) in
          let same : c ≡ d = ground (arith, nat_beq_iff c d) in (found.0, cc (found.1, same)),
      λ h.
          let same : c ≡ d = cc h.1 in
          let tail : s ≡ t ++ h.0 = cc h.1 in ground (arith, nat_beq_iff c d, rest.1 (h.0, tail)),
    )

contains_at : (s t pre rest : Bytes) → s ≡ pre ++ (t ++ rest) → contains s t ≡ true
unfolding contains
contains_at [] t [] rest h = (has_prefix_iff [] t).1 (rest, h)
contains_at [] t (p ∷ pre) rest h = absurd cc
contains_at (c ∷ s) t [] rest h = ground (arith, (has_prefix_iff (c ∷ s) t).1 (rest, h))
contains_at (c ∷ s) t (p ∷ pre) rest h =
    let tail : s ≡ pre ++ (t ++ rest) = cc h in ground (arith, contains_at s t pre rest tail)

pub contains_place :
    (s t : Bytes) → contains s t ≡ true → (pre : Bytes) × (rest : Bytes) × (s ≡ pre ++ (t ++ rest))
unfolding contains
contains_place [] t h = let found = (has_prefix_iff [] t).0 h in ([], found.0, found.1)
contains_place (c ∷ s) t h = elim (Bool-cases (has_prefix (c ∷ s) t)) [
  | inl here ↦ let found = (has_prefix_iff (c ∷ s) t).0 here in ([], found.0, found.1)
  | inr not_here ↦
      let found = contains_place s t (ground arith) in (c ∷ found.0, found.1, ap (◌∷◌ c) found.2)
]

pub contains_iff :
    (s t : Bytes)
    → (contains s t ≡ true) ↔ ((pre : Bytes) × (rest : Bytes) × (s ≡ pre ++ (t ++ rest)))
contains_iff s t = (contains_place s t, λ h. contains_at s t h.0 h.1 h.2)

pub split-cons :
    (s : Bytes) (sep : ℕ) → (field : Bytes) × (fields : List Bytes) × (split s sep ≡ field ∷ fields)
unfolding split
split-cons [] sep = ([], [], refl)
split-cons (c ∷ s) sep =
    let rest = split-cons s sep in
    elim (Bool-cases (nat_beq c sep)) [
      | inl cut ↦ ([], split s sep, rw cut)
      | inr held ↦ (c ∷ rest.0, rest.1, rw held (ap (to_first c) rest.2))
    ]

join-to_first :
    (c : ℕ) (field : Bytes) (fields : List Bytes) (sep : Bytes)
    → join (to_first c (field ∷ fields)) sep ≡ c ∷ join (field ∷ fields) sep
unfolding join
join-to_first c field [] sep = refl
join-to_first c field (more ∷ fields) sep = refl

pub join-split : (s : Bytes) (sep : ℕ) → join (split s sep) (sep ∷ []) ≡ s
unfolding join split
join-split [] sep = refl
join-split (c ∷ s) sep =
    let rest = split-cons s sep in
    let tail : join (rest.0 ∷ rest.1) (sep ∷ []) ≡ s = cc (join-split s sep, rest.2) in
    elim (Bool-cases (nat_beq c sep)) [
      | inl cut ↦
          let same : sep ≡ c = ground (arith, nat_beq_iff c sep) in
          let whole : join ([] ∷ rest.0 ∷ rest.1) (sep ∷ []) ≡ c ∷ s = cc (tail, same) in
          rw cut (rw rest.2 whole)
      | inr held ↦
          let whole : join (to_first c (rest.0 ∷ rest.1)) (sep ∷ []) ≡ c ∷ s =
            cc (tail, join-to_first c rest.0 rest.1 (sep ∷ [])) in
          rw held (rw rest.2 whole)
    ]
