-- ===== src/Enrichment/Cgroup/Hex.antt =====
-- What `ExtractContainerID` of pkg/enrichment/container.go takes for a container id.
use container_runtime_securi.Prelude.{
  nat_comparable, string_comparable, bytes_comparable, ◌==◌, ◌≤◌, ◌≡◌, refl, ◌⊎◌, inl, inr, Bool,
  true, false, ◌&&◌, Option, none, some, List, [], ◌∷◌, arith, leb, if◌then◌else◌, Bool-cases,
  length,
}
use container_runtime_securi.Prelude.Slices.{Bytes}
use container_runtime_securi.Prelude.Text.{codes, has_prefix, split, trim_space}
use container_runtime_securi.Enrichment.Cgroup.{
  all_hex, is_hex_string, segment_id, last_segment_id, cgroup_path, line_id, first_line_id,
  extract_container_id,
}

-- Nothing, or at least twelve hexadecimal digits.
abbrev pub IsContainerId : Bytes → Type 0
IsContainerId id = (id ≡ []) ⊎ ((12 ≤ length id) × (all_hex id ≡ true))

-- A text that begins with `crio-` is no hexadecimal number.
crio_not_hex : (seg : Bytes) → all_hex seg ≡ true → has_prefix seg (codes "crio-") ≡ false
unfolding has_prefix
crio_not_hex [] h = refl
crio_not_hex (c ∷ []) h = ground arith
crio_not_hex (c ∷ d ∷ seg) h = ground arith

pod_not_hex : (seg : Bytes) → all_hex seg ≡ true → has_prefix seg (codes "pod") ≡ false
unfolding has_prefix
pod_not_hex [] h = refl
pod_not_hex (c ∷ seg) h = ground arith

segment_id-IsContainerId : (seg : Bytes) → IsContainerId (segment_id seg)
unfolding segment_id is_hex_string
segment_id-IsContainerId seg = elim (Bool-cases (seg == [])) [
  | inl empty ↦ rw empty (inl refl)
  | inr some_bytes ↦ elim (Bool-cases (leb 12 (length seg) && is_hex_string seg)) [
    | inr other ↦ rw (some_bytes, other) (inl refl)
    | inl hex ↦
        let digits : all_hex seg ≡ true = ground arith in
        let not_crio = crio_not_hex seg digits in
        let not_pod = pod_not_hex seg digits in
        rw (some_bytes, hex, not_crio, not_pod) (inr (ground arith, digits))
  ]
]

either-IsContainerId :
    (b : Bool) (x y : Bytes)
    → IsContainerId x
    → IsContainerId y
    → IsContainerId (if b then x else y)
either-IsContainerId true x y h k = h
either-IsContainerId false x y h k = k

last_segment_id-IsContainerId : (segs : List Bytes) → IsContainerId (last_segment_id segs)
unfolding last_segment_id
last_segment_id-IsContainerId [] = inl refl
last_segment_id-IsContainerId (seg ∷ segs) =
    either-IsContainerId (last_segment_id segs == []) (segment_id seg) (last_segment_id segs)
      (segment_id-IsContainerId seg) (last_segment_id-IsContainerId segs)

line_id-IsContainerId : (line : Bytes) → IsContainerId (line_id line)
unfolding line_id
line_id-IsContainerId line =
    either-IsContainerId (trim_space line == []) [] _ (inl refl)
      (found (cgroup_path (trim_space line)))
  where
    found :
        (path : Option Bytes)
        → IsContainerId
            (elim path as (λ _. Bytes) [ none ↦ [] | some p ↦ last_segment_id (split p b'/') ])
    found none = inl refl
    found (some p) = last_segment_id-IsContainerId (split p b'/')

first_line_id-IsContainerId : (lines : List Bytes) → IsContainerId (first_line_id lines)
unfolding first_line_id
first_line_id-IsContainerId [] = inl refl
first_line_id-IsContainerId (line ∷ lines) =
    either-IsContainerId (line_id line == []) (first_line_id lines) (line_id line)
      (first_line_id-IsContainerId lines) (line_id-IsContainerId line)

-- `ExtractContainerID` answers nothing or a text of at least twelve hexadecimal digits.
pub extract_container_id-IsContainerId :
    (cgroup_data : Bytes) → IsContainerId (extract_container_id cgroup_data)
unfolding extract_container_id
extract_container_id-IsContainerId cgroup_data = first_line_id-IsContainerId (split cgroup_data 10)
