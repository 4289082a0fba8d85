-- ===== src/Ebpf/Dns.antt =====
-- `parseDNSName`, `parseSimpleLabels` and `findDNSSubstringOffset` of pkg/ebpf/dns.go. An iteration of the loop
-- of `parseDNSName` is one function; the loop runs on fuel, and spent fuel is an error of its own.
pub mod Termination
pub mod RoundTrip
pub mod Compression
use container_runtime_securi.Prelude.{
  ℕ, zero, suc, nat_comparable, string_comparable, bytes_comparable, Comparable, ◌==◌, ==_iff,
  ==_refl, bytes_beq, bytes_beq_iff, String, ◌<>◌, ◌+◌, ◌-◌, ◌*◌, ◌/◌, ◌%◌, ◌^◌, ◌≤◌, ◌<◌, ◌≡◌,
  refl, sym, ap, ◌∙◌, ◌≢◌, ◌↔◌, ◌⊎◌, inl, inr, Bool, true, false, not, ◌&&◌, ◌||◌, Option, none,
  some, List, [], ◌∷◌, ◌++◌, map, arith, ltb, leb, if◌then◌else◌, Bool-cases, Option-cases, length,
  get_elem?, take, drop, replicate, keep_if, length-append, take-append-drop, length-take,
  length-drop, take_append_left, drop_append_left, length-keep_if-le, drop_behind, get_elem?_behind,
  AllOf, append-AllOf, split-AllOf,
}
use container_runtime_securi.Prelude.Outcome.{Outcome, ok, fail, panic, ◌>>=◌}
use container_runtime_securi.Prelude.Members.{is_member}
use container_runtime_securi.Prelude.Slices.{Bytes, index, slice}
use container_runtime_securi.Prelude.Text.{codes, join}

pub data DnsError : Type 0 where
  name_beyond_data : DnsError
  compression_loop : DnsError
  pointer_beyond_data : DnsError
  label_too_long : ℕ → DnsError
  label_beyond_data : ℕ → ℕ → ℕ → DnsError
  answer_header_beyond_data : DnsError
  question_name : ℕ → DnsError → DnsError
  question_truncated : ℕ → DnsError
  out_of_fuel : DnsError

-- The variables of the loop; `jump_from` is the offset behind the first pointer followed.
pub record NameState : Type 0 where
  pub offset : ℕ
  pub labels : List Bytes
  pub jump_from : Option ℕ
  pub visited : List ℕ

-- An iteration returns from the function or goes on.
pub data NameStep : Type 0 where
  return : Outcome DnsError (Bytes × ℕ) → NameStep
  continue : NameState → NameStep

-- A checked read, whose panic ends the function.
abbrev pub read : {A : Type 0} → Outcome DnsError A → (A → NameStep) → NameStep
read (ok a) f = f a
read (fail e) f = return (fail e)
read panic f = return panic

abbrev pub join_labels : List Bytes → Bytes
join_labels labels = join labels (codes ".")

-- The offset that a finished name returns.
abbrev pub next_offset : NameState → ℕ
next_offset s = elim s.jump_from [ none ↦ s.offset | some jump ↦ jump ]

-- `length&0xC0 == 0xC0`
abbrev pub is_pointer : ℕ → Bool
is_pointer len = len / 64 % 4 == 3

unfoldable pub follow_pointer : Bytes → NameState → ℕ → NameStep
follow_pointer message s len =
    if leb (length message) s.offset
    then return (fail pointer_beyond_data)
    else read (index message s.offset) (λ low. continue (record s {
      offset = len % 64 * 256 + low;
      jump_from = some (next_offset (record s { offset = s.offset + 1 }));
    }))

unfoldable pub take_label : Bytes → NameState → ℕ → NameStep
take_label message s len =
    if ltb 63 len
    then return (fail (label_too_long len))
    else if ltb (length message) (s.offset + len)
    then return (fail (label_beyond_data s.offset len (length message)))
    else read (slice message s.offset (s.offset + len)) (λ label.
      continue (record s { offset = s.offset + len; labels = s.labels ++ (label ∷ []) }))

-- The iteration behind the length byte, which has been passed.
unfoldable pub length_step : Bytes → NameState → ℕ → NameStep
length_step message s len =
    if len == 0
    then return (ok (join_labels s.labels, next_offset s))
    else if is_pointer len
    then follow_pointer message s len
    else take_label message s len

unfoldable pub name_step : Bytes → NameState → NameStep
name_step message s =
    if leb (length message) s.offset
    then return (fail name_beyond_data)
    else if is_member s.visited s.offset
    then return (fail compression_loop)
    else read (index message s.offset) (λ len.
      length_step message (record s { offset = s.offset + 1; visited = s.offset ∷ s.visited }) len)

unfoldable pub name_loop : ℕ → Bytes → NameState → Outcome DnsError (Bytes × ℕ)
name_loop zero message s = fail out_of_fuel
name_loop (suc fuel) message s = elim (name_step message s) [
  | return r ↦ r
  | continue s' ↦ name_loop fuel message s'
]

unfoldable pub parse_dns_name : Bytes → ℕ → Outcome DnsError (Bytes × ℕ)
parse_dns_name message offset =
    name_loop (length message + 1) message
      (record { offset = offset; labels = []; jump_from = none; visited = [] })

-- The loop of `parseSimpleLabels` from an offset.
unfoldable pub simple_labels : ℕ → Bytes → ℕ → Outcome DnsError (List Bytes)
simple_labels zero rdata offset = fail out_of_fuel
simple_labels (suc fuel) rdata offset = elim (ltb offset (length rdata)) [
  | false ↦ ok []
  | true ↦ index rdata offset >>= λ len.
      let start = offset + 1 in
      elim (len == 0 || (ltb 63 len || ltb (length rdata) (start + len))) [
        | true ↦ ok []
        | false ↦ slice rdata start (start + len) >>= λ label.
            simple_labels fuel rdata (start + len) >>= λ labels. ok (label ∷ labels)
      ]
]

unfoldable pub parse_simple_labels : Bytes → Outcome DnsError Bytes
parse_simple_labels rdata =
    simple_labels (length rdata + 1) rdata 0 >>= λ labels. ok (join_labels labels)

-- The inner loop of `findDNSSubstringOffset` from `rdata[j]`, with the bytes of `rdata` that are left.
unfoldable pub matches_at : Bytes → Bytes → ℕ → ℕ → Outcome DnsError Bool
matches_at message [] i j = ok true
matches_at message (b ∷ rest) i j = index message (i + j) >>= λ c. elim (c == b) [
  | false ↦ ok false
  | true ↦ matches_at message rest i (j + 1)
]

-- The outer loop of `findDNSSubstringOffset` at an offset; `none` is -1.
unfoldable pub find_from : ℕ → Bytes → Bytes → ℕ → Outcome DnsError (Option ℕ)
find_from zero message rdata i = fail out_of_fuel
find_from (suc fuel) message rdata i = elim (leb (i + length rdata) (length message)) [
  | false ↦ ok none
  | true ↦ matches_at message rdata i 0 >>= λ match. elim match [
    | true ↦ ok (some i)
    | false ↦ find_from fuel message rdata (i + 1)
  ]
]

unfoldable pub find_dns_substring_offset : Bytes → Bytes → Outcome DnsError (Option ℕ)
find_dns_substring_offset message rdata = find_from (length message + 2) message rdata 0
