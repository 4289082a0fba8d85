-- ===== src/Ebpf/Dns/Compression.antt =====
-- Compressed names against `parseDNSName` of pkg/ebpf/dns.go.
use container_runtime_securi.Prelude.{
  suc, nat_comparable, string_comparable, bytes_comparable, ◌+◌, ◌-◌, ◌/◌, ◌%◌, ◌^◌, ◌≤◌, ◌<◌, ◌≡◌,
  refl, sym, ap, ◌∙◌, ◌⊎◌, inl, inr, none, some, List, [], ◌∷◌, ◌++◌, arith, length, length-append,
}
use mathlib.Core.List.{append_assoc}
use container_runtime_securi.Prelude.Outcome.{ok}
use container_runtime_securi.Prelude.Members.{is_member}
use container_runtime_securi.Prelude.Slices.{Bytes}
use container_runtime_securi.Ebpf.Dns.{
  NameState, join_labels, next_offset, name_loop, parse_dns_name,
}
use container_runtime_securi.Ebpf.Dns.RoundTrip.{
  encode_labels, AreLabels, behind_labels, unmarked, behind_labels_offset, behind_labels_labels,
  behind_labels_jump, behind_labels-IsFresh, name_loop_continue, name_loop-labels,
  name_step-pointer, name_loop-name, next_offset_end, length-encode-le,
}

-- Labels that end in a pointer to a name elsewhere in the message are read as both parts, and the next offset is
-- behind the pointer; the labels have 1 to 63 bytes, the target is below 2^14, and the two places do not overlap.
pub parse_dns_name-compressed :
    (m pre more pre' more' : Bytes) (front back : List Bytes)
    → m ≡ pre ++ (encode_labels front ++ ((192 + length pre' / 256) ∷ (length pre' % 256) ∷ more))
    → m ≡ pre' ++ (encode_labels back ++ (0 ∷ more'))
    → length pre' < 2 ^ 14
    → AreLabels front
    → AreLabels back
    → (length pre' + length (encode_labels back) + 1 ≤ length pre)
      ⊎ (length pre + length (encode_labels front) + 2 ≤ length pre')
    → parse_dns_name m (length pre)
      ≡ ok (join_labels (front ++ back), length pre + length (encode_labels front) + 2)
unfolding parse_dns_name is_member
parse_dns_name-compressed m pre more pre' more' front back here there small good good' apart =
    let p = length pre' in
    let high = 192 + p / 256 in
    let a = length (encode_labels front) in
    let b = length (encode_labels back) in
    let s : NameState = record {
      offset = length pre;
      labels = [];
      jump_from = none;
      visited = [];
    } in
    let last = behind_labels s front in
    let size : length m ≡ length pre + (a + (length more + 2)) = rw here (
      omega (
        arith,
        length-append pre (encode_labels front ++ (high ∷ (p % 256) ∷ more)),
        length-append (encode_labels front) (high ∷ (p % 256) ∷ more),
      )) in
    let size' : length m ≡ p + (b + (length more' + 1)) = rw there (
      omega (
        arith,
        length-append pre' (encode_labels back ++ (0 ∷ more')),
        length-append (encode_labels back) (0 ∷ more'),
      )) in
    let short = length-encode-le front in
    let short' = length-encode-le back in
    let room : length front + length back + 2 ≤ length m = elim apart [
      | inl before ↦ omega (arith, size)
      | inr behind ↦ omega (arith, size')
    ] in
    let fuel = length m - length front in
    let split : length m + 1 ≡ length front + suc fuel = omega arith in
    let place : last.offset ≡ length pre + a = behind_labels_offset s front in
    let grouped : m ≡ (pre ++ encode_labels front) ++ (high ∷ (p % 256) ∷ more) =
      here ∙ sym (append_assoc pre (encode_labels front) (high ∷ (p % 256) ∷ more)) in
    let jumped : NameState = record last {
      offset = p;
      visited = last.offset ∷ last.visited;
      jump_from = some (next_offset (record last { offset = last.offset + 1 + 1 }));
    } in
    let jump =
      name_step-pointer m (pre ++ encode_labels front) more last p small grouped
        (omega (arith, place, length-append pre (encode_labels front)))
        (behind_labels-IsFresh s front last.offset refl (inr (omega (arith, place)))) in
    let next =
      next_offset_end (record last { offset = last.offset + 1 + 1 }) none (length pre + a + 2)
        (behind_labels_jump s front) (omega (arith, place)) in
    let tail =
      name_loop-name m pre' more' back fuel jumped there refl good'
        (λ o lo hi.
          unmarked last.offset last.visited o
            (elim apart [ inl before ↦ omega (arith, place) | inr behind ↦ omega (arith, place) ])
            (behind_labels-IsFresh s front o refl
              (elim apart [ inl before ↦ inl (omega arith) | inr behind ↦ inr (omega arith) ])))
        (omega (arith, room)) in
    ap (λ n. name_loop n m s) split
    ∙ (name_loop-labels m pre (high ∷ (p % 256) ∷ more) front (suc fuel) s here refl good
          (λ o lo hi. refl)
        ∙ (name_loop_continue m fuel last jumped jump
            ∙ (tail
                ∙ (ap
                      (λ ls. ok (
                        join_labels (ls ++ back),
                        next_offset (record last { offset = last.offset + 1 + 1 }),
                      ))
                      (behind_labels_labels s front)
                    ∙ ap (λ n. ok (join_labels (front ++ back), n)) next))))
