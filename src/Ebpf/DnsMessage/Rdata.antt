-- ===== src/Ebpf/DnsMessage/Rdata.antt =====
-- The reads of a record's data by `formatRData` of pkg/ebpf/dns.go stay within the data.
use container_runtime_securi.Prelude.{
  ℕ, zero, suc, nat_comparable, string_comparable, bytes_comparable, ◌==◌, ◌+◌, ◌-◌, ◌*◌, ◌≤◌, ◌<◌,
  ◌≡◌, refl, Bool, true, false, ◌||◌, Option, none, some, [], ◌∷◌, arith, ltb, leb, if◌then◌else◌,
  length, take, drop,
}
use container_runtime_securi.Prelude.Outcome.{Outcome, ok, fail, panic, ◌>>=◌}
use container_runtime_securi.Prelude.Slices.{Bytes, index, slice, index_ok, slice_ok, be_value}
use container_runtime_securi.Ebpf.Dns.{
  DnsError, parse_dns_name, simple_labels, parse_simple_labels, matches_at, find_from,
  find_dns_substring_offset,
}
use container_runtime_securi.Ebpf.Dns.Termination.{IsReal, Returns, parse_dns_name-Returns}
use container_runtime_securi.Ebpf.DnsMessage.{
  be_at, txt_strings, address_rdata, hex_groups, name_at, name_rdata, mx_rdata, format_rdata,
}

-- A value or an error of the code, and neither a panic nor spent fuel.
abbrev pub IsSound {ℓ} : {A : Type ℓ} → Outcome DnsError A → Type 0
IsSound (ok a) = Unit
IsSound (fail e) = IsReal e
IsSound panic = ⊥

pub bind-IsSound {ℓ κ} :
    {A : Type ℓ} {B : Type κ} (r : Outcome DnsError A) (f : A → Outcome DnsError B)
    → IsSound r
    → ((a : A) → IsSound (f a))
    → IsSound (r >>= f)
bind-IsSound (ok a) f h k = k a
bind-IsSound (fail e) f h k = h
bind-IsSound panic f h k = h

pub name-IsSound : (message : Bytes) (offset : ℕ) → IsSound (parse_dns_name message offset)
name-IsSound message offset =
    go (parse_dns_name message offset) (parse_dns_name-Returns message offset)
  where
    go : (r : Outcome DnsError (Bytes × ℕ)) → Returns message offset r → IsSound r
    go (ok r) h = tt
    go (fail e) h = h
    go panic h = h

pub be_at_ok :
    (bytes : Bytes) (offset width : ℕ)
    → offset + width ≤ length bytes
    → (v : ℕ) × (be_at bytes offset width ≡ ok v)
unfolding be_at
be_at_ok bytes offset width h =
    let field = slice_ok {E = DnsError} bytes offset (offset + width) (omega arith) h in
    (be_value (take (offset + width - offset) (drop offset bytes)), rw field refl)

index-IsSound : (bytes : Bytes) (i : ℕ) → i < length bytes → IsSound (index {E = DnsError} bytes i)
index-IsSound bytes i h = let found = index_ok {E = DnsError} bytes i h in rw found.2 tt

slice-IsSound :
    (bytes : Bytes) (lo hi : ℕ)
    → lo ≤ hi
    → hi ≤ length bytes
    → IsSound (slice {E = DnsError} bytes lo hi)
slice-IsSound bytes lo hi h k = rw (slice_ok {E = DnsError} bytes lo hi h k) tt

be_at-IsSound :
    (bytes : Bytes) (offset width : ℕ)
    → offset + width ≤ length bytes
    → IsSound (be_at bytes offset width)
be_at-IsSound bytes offset width h = rw (be_at_ok bytes offset width h).1 tt

-- A test, with its answer known in each branch.
test-IsSound {ℓ} :
    {A : Type ℓ} (b : Bool) (x y : Outcome DnsError A)
    → (b ≡ true → IsSound x)
    → (b ≡ false → IsSound y)
    → IsSound (elim b as (λ _. Outcome DnsError A) [ true ↦ x | false ↦ y ])
test-IsSound true x y h k = h refl
test-IsSound false x y h k = k refl

if-IsSound {ℓ} :
    {A : Type ℓ} (b : Bool) (x y : Outcome DnsError A)
    → (b ≡ true → IsSound x)
    → (b ≡ false → IsSound y)
    → IsSound (if b then x else y)
if-IsSound true x y h k = h refl
if-IsSound false x y h k = k refl

simple_labels-IsSound :
    (fuel : ℕ) (rdata : Bytes) (offset : ℕ)
    → 0 < fuel
    → length rdata < offset + fuel
    → IsSound (simple_labels fuel rdata offset)
unfolding simple_labels
simple_labels-IsSound zero rdata offset some_fuel h = absurd (omega arith)
simple_labels-IsSound (suc fuel) rdata offset some_fuel h =
    test-IsSound (ltb offset (length rdata)) _ _
      (λ more.
        let inside : offset < length rdata = ground arith in
        bind-IsSound (index rdata offset) _ (index-IsSound rdata offset inside) (λ len.
          test-IsSound (len == 0 || (ltb 63 len || ltb (length rdata) (offset + 1 + len))) _ _
            (λ stop. tt)
            (λ fits.
              bind-IsSound (slice rdata (offset + 1) (offset + 1 + len)) _
                (slice-IsSound rdata (offset + 1) (offset + 1 + len) (omega arith) (ground arith))
                (λ label.
                  bind-IsSound (simple_labels fuel rdata (offset + 1 + len)) _
                    (simple_labels-IsSound fuel rdata (offset + 1 + len) (omega arith)
                      (omega arith))
                    (λ labels. tt)))))
      (λ end. tt)

txt_strings-IsSound :
    (fuel : ℕ) (rdata : Bytes) (off : ℕ)
    → 0 < fuel
    → length rdata < off + fuel
    → IsSound (txt_strings fuel rdata off)
unfolding txt_strings
txt_strings-IsSound zero rdata off some_fuel h = absurd (omega arith)
txt_strings-IsSound (suc fuel) rdata off some_fuel h =
    test-IsSound (ltb off (length rdata)) _ _
      (λ more.
        let inside : off < length rdata = ground arith in
        bind-IsSound (index rdata off) _ (index-IsSound rdata off inside) (λ len.
          test-IsSound (ltb (length rdata) (off + 1 + len)) _ _ (λ stop. tt)
            (λ fits.
              bind-IsSound (slice rdata (off + 1) (off + 1 + len)) _
                (slice-IsSound rdata (off + 1) (off + 1 + len) (omega arith) (ground arith))
                (λ text.
                  bind-IsSound (txt_strings fuel rdata (off + 1 + len)) _
                    (txt_strings-IsSound fuel rdata (off + 1 + len) (omega arith) (omega arith))
                    (λ texts. tt)))))
      (λ end. tt)

parse_simple_labels-IsSound : (rdata : Bytes) → IsSound (parse_simple_labels rdata)
unfolding parse_simple_labels
parse_simple_labels-IsSound rdata =
    bind-IsSound (simple_labels (length rdata + 1) rdata 0) _
      (simple_labels-IsSound (length rdata + 1) rdata 0 (omega arith) (omega arith)) (λ labels. tt)

matches_at-IsSound :
    (message rest : Bytes) (i j : ℕ)
    → i + j + length rest ≤ length message
    → IsSound (matches_at message rest i j)
unfolding matches_at
matches_at-IsSound message [] i j h = tt
matches_at-IsSound message (b ∷ rest) i j h =
    bind-IsSound (index message (i + j)) _ (index-IsSound message (i + j) (omega arith)) (λ c.
      test-IsSound (c == b) _ _ (λ same. matches_at-IsSound message rest i (j + 1) (omega arith))
        (λ other. tt))

find_from-IsSound :
    (fuel : ℕ) (message rdata : Bytes) (i : ℕ)
    → length message + 1 < i + fuel
    → i ≤ length message + 1
    → IsSound (find_from fuel message rdata i)
unfolding find_from
find_from-IsSound zero message rdata i h k = absurd (omega arith)
find_from-IsSound (suc fuel) message rdata i h k =
    test-IsSound (leb (i + length rdata) (length message)) _ _
      (λ fits.
        let inside : i + length rdata ≤ length message = ground arith in
        bind-IsSound (matches_at message rdata i 0) _
          (matches_at-IsSound message rdata i 0 (omega arith))
          (λ match.
            test-IsSound match _ _ (λ found. tt)
              (λ other. find_from-IsSound fuel message rdata (i + 1) (omega arith) (omega arith))))
      (λ over. tt)

name_at-IsSound : (rdata message : Bytes) (place : Option ℕ) → IsSound (name_at rdata message place)
unfolding name_at
name_at-IsSound rdata message none = parse_simple_labels-IsSound rdata
name_at-IsSound rdata message (some offset) =
    named (parse_dns_name message offset) (name-IsSound message offset)
  where
    named :
        (r : Outcome DnsError (Bytes × ℕ))
        → IsSound r
        → IsSound (elim r as (λ _. Outcome DnsError Bytes) [
          | ok n ↦ ok n.0
          | fail e ↦ parse_simple_labels rdata
          | panic ↦ panic
        ])
    named (ok n) h = tt
    named (fail e) h = parse_simple_labels-IsSound rdata
    named panic h = h

name_rdata-IsSound : (rdata message : Bytes) → IsSound (name_rdata rdata message)
unfolding name_rdata find_dns_substring_offset
name_rdata-IsSound rdata message =
    if-IsSound (ltb 0 (length rdata)) _ _
      (λ some_bytes.
        bind-IsSound (find_from (length message + 2) message rdata 0) _
          (find_from-IsSound (length message + 2) message rdata 0 (omega arith) (omega arith))
          (name_at-IsSound rdata message))
      (λ no_bytes. parse_simple_labels-IsSound rdata)

address_rdata-IsSound : (rdata : Bytes) → 4 ≤ length rdata → IsSound (address_rdata rdata)
unfolding address_rdata
address_rdata-IsSound rdata h =
    bind-IsSound (index rdata 0) _ (index-IsSound rdata 0 (omega arith)) (λ a.
      bind-IsSound (index rdata 1) _ (index-IsSound rdata 1 (omega arith)) (λ b.
        bind-IsSound (index rdata 2) _ (index-IsSound rdata 2 (omega arith))
          (λ c. bind-IsSound (index rdata 3) _ (index-IsSound rdata 3 (omega arith)) (λ d. tt))))

hex_groups-IsSound :
    (n : ℕ) (rdata : Bytes) (offset : ℕ)
    → offset + 2 * n ≤ length rdata
    → IsSound (hex_groups n rdata offset)
unfolding hex_groups
hex_groups-IsSound zero rdata offset h = tt
hex_groups-IsSound (suc n) rdata offset h =
    bind-IsSound (be_at rdata offset 2) _ (be_at-IsSound rdata offset 2 (omega arith)) (λ group.
      bind-IsSound (hex_groups n rdata (offset + 2)) _
        (hex_groups-IsSound n rdata (offset + 2) (omega arith)) (λ groups. tt))

mx_rdata-IsSound : (rdata message : Bytes) → 2 ≤ length rdata → IsSound (mx_rdata rdata message)
unfolding mx_rdata
mx_rdata-IsSound rdata message h =
    bind-IsSound (be_at rdata 0 2) _ (be_at-IsSound rdata 0 2 h) (λ preference.
      bind-IsSound (slice rdata 2 (length rdata)) _
        (slice-IsSound rdata 2 (length rdata) h (omega arith))
        (λ exchange.
          bind-IsSound (name_rdata exchange message) _ (name_rdata-IsSound exchange message)
            (λ name. tt)))

-- Data of every type and length is formatted without a read out of bounds.
pub format_rdata-IsSound :
    (rrtype : ℕ) (rdata message : Bytes) → IsSound (format_rdata rrtype rdata message)
unfolding format_rdata
format_rdata-IsSound rrtype rdata message =
    if-IsSound (rrtype == 1) _ _
      (λ a.
        if-IsSound (leb 4 (length rdata)) _ _ (λ long. address_rdata-IsSound rdata (ground arith))
          (λ short. tt))
      (λ not_a.
        if-IsSound (rrtype == 28) _ _
          (λ aaaa.
            if-IsSound (leb 16 (length rdata)) _ _
              (λ long.
                bind-IsSound (hex_groups 8 rdata 0) _ (hex_groups-IsSound 8 rdata 0 (ground arith))
                  (λ groups. tt))
              (λ short. tt))
          (λ not_aaaa.
            if-IsSound (rrtype == 5 || (rrtype == 2 || rrtype == 12)) _ _
              (λ named. name_rdata-IsSound rdata message)
              (λ not_named.
                if-IsSound (rrtype == 15) _ _
                  (λ mx.
                    if-IsSound (leb 2 (length rdata)) _ _
                      (λ long. mx_rdata-IsSound rdata message (ground arith)) (λ short. tt))
                  (λ not_mx.
                    if-IsSound (rrtype == 16) _ _
                      (λ txt.
                        bind-IsSound (txt_strings (length rdata + 1) rdata 0) _
                          (txt_strings-IsSound (length rdata + 1) rdata 0 (omega arith)
                            (omega arith))
                          (λ texts. tt))
                      (λ other. tt)))))
