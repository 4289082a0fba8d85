-- ===== src/Enrichment/Cgroup.antt =====
-- `ExtractContainerID`, `isHexString` and `parsePID` of pkg/enrichment/container.go. Texts are byte lists.
pub mod Hex
use container_runtime_securi.Prelude.{
  ℕ, zero, suc, nat_comparable, string_comparable, bytes_comparable, Comparable, ◌==◌, ==_iff,
  ==_refl, bytes_beq, bytes_beq_iff, String, ◌<>◌, ◌+◌, ◌-◌, ◌*◌, ◌/◌, ◌%◌, ◌^◌, ◌≤◌, ◌<◌, ◌≡◌,
  refl, sym, ap, ◌∙◌, ◌≢◌, ◌↔◌, ◌⊎◌, inl, inr, Bool, true, false, not, ◌&&◌, ◌||◌, Option, none,
  some, List, [], ◌∷◌, ◌++◌, map, arith, ltb, leb, if◌then◌else◌, Bool-cases, Option-cases, length,
  get_elem?, take, drop, replicate, keep_if, length-append, take-append-drop, length-take,
  length-drop, take_append_left, drop_append_left, length-keep_if-le, drop_behind, get_elem?_behind,
  AllOf, append-AllOf, split-AllOf,
}
use container_runtime_securi.Prelude.Slices.{Bytes}
use container_runtime_securi.Prelude.Text.{codes, has_prefix, split, join, trim_space}

abbrev pub is_hex_digit : ℕ → Bool
is_hex_digit c = (leb 48 c && leb c 57) || ((leb 97 c && leb c 102) || (leb 65 c && leb c 70))

abbrev pub all_hex : Bytes → Bool
all_hex [] = true
all_hex (c ∷ s) = let rest = all_hex s in if not (is_hex_digit c) then false else rest

unfoldable pub is_hex_string : Bytes → Bool
is_hex_string s = all_hex s && ltb 0 (length s)

-- The loop body over the segments: the container id of a segment, or the empty text.
unfoldable pub segment_id : Bytes → Bytes
segment_id seg =
    if seg == []
    then []
    else if leb 12 (length seg) && is_hex_string seg
    then if not (has_prefix seg (codes "pod")) && not (has_prefix seg (codes "crio-"))
      then seg
      else if has_prefix seg (codes "crio-")
      then drop 5 seg
      else seg
    else []

-- The loop over the segments, from the last to the first.
unfoldable pub last_segment_id : List Bytes → Bytes
last_segment_id [] = []
last_segment_id (seg ∷ segs) =
    let rest = last_segment_id segs in if rest == [] then segment_id seg else rest

-- `strings.SplitN(line, ":", 3)` and the path in its third field.
unfoldable pub cgroup_path : Bytes → Option Bytes
cgroup_path line =
    let parts = split line b':' in
    if ltb (length parts) 3 then none else some (join (drop 2 parts) (codes ":"))

unfoldable pub line_id : Bytes → Bytes
line_id line =
    let trimmed = trim_space line in
    if trimmed == []
    then []
    else elim (cgroup_path trimmed) [ none ↦ [] | some path ↦ last_segment_id (split path b'/') ]

unfoldable pub first_line_id : List Bytes → Bytes
first_line_id [] = []
first_line_id (line ∷ lines) =
    let rest = first_line_id lines in if line_id line == [] then rest else line_id line

unfoldable pub extract_container_id : Bytes → Bytes
extract_container_id cgroup_data = first_line_id (split cgroup_data 10)

-- The loop of `parsePID`, whose uint32 wraps around.
unfoldable pub parse_digits : ℕ → Bytes → Option ℕ
parse_digits pid [] = some pid
parse_digits pid (c ∷ s) =
    let rest = parse_digits ((pid * 10 + (c - 48)) % 2 ^ 32) s in
    if ltb c 48 || ltb 57 c then none else rest

unfoldable pub parse_pid : Bytes → Option ℕ
parse_pid s = elim (parse_digits 0 s) [
  | none ↦ none
  | some pid ↦ if pid == 0 then none else some pid
]
