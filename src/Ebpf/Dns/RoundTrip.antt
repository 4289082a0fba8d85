-- ===== src/Ebpf/Dns/RoundTrip.antt =====
-- Names in wire format against `parseDNSName` of pkg/ebpf/dns.go.
use container_runtime_securi.Prelude.{
  ℕ, suc, nat_comparable, string_comparable, bytes_comparable, ◌==◌, ◌+◌, ◌-◌, ◌*◌, ◌/◌, ◌%◌, ◌^◌,
  ◌≤◌, ◌<◌, ◌≡◌, refl, sym, ap, ◌∙◌, ◌≢◌, ◌⊎◌, inl, inr, true, false, Option, none, some, List, [],
  ◌∷◌, ◌++◌, arith, ltb, leb, length, length-append, take_append_left, drop_behind, AllOf,
}
use mathlib.Core.List.{append_assoc, append-nil}
use container_runtime_securi.Prelude.Outcome.{Outcome, ok}
use container_runtime_securi.Prelude.Members.{is_member}
use container_runtime_securi.Prelude.Slices.{Bytes, index, slice, slice_ok}
use container_runtime_securi.Ebpf.Dns.{
  DnsError, NameState, NameStep, return, continue, join_labels, next_offset, is_pointer,
  follow_pointer, take_label, length_step, name_step, name_loop, parse_dns_name,
}

-- Labels with their length bytes, and a name with its end.
abbrev pub encode_labels : List Bytes → Bytes
encode_labels [] = []
encode_labels (label ∷ labels) = length label ∷ (label ++ encode_labels labels)

abbrev pub AreLabels : List Bytes → Type 0
AreLabels = AllOf (λ label. (0 < length label) × (length label ≤ 63))

index_behind :
    (pre more : Bytes) (b : ℕ) → index {E = DnsError} (pre ++ (b ∷ more)) (length pre) ≡ ok b
unfolding index
index_behind [] more b = refl
index_behind (x ∷ pre) more b = index_behind pre more b

slice_behind :
    (pre label more : Bytes) (b : ℕ)
    → slice {E = DnsError}
        (pre ++ (b ∷ (label ++ more)))
        (length pre + 1)
        (length pre + 1 + length label)
      ≡ ok label
slice_behind pre label more b =
    let whole = pre ++ (b ∷ (label ++ more)) in
    let size : length whole ≡ length pre + (length label + length more + 1) =
      omega (arith, length-append pre (b ∷ (label ++ more)), length-append label more) in
    let width : length pre + 1 + length label - (length pre + 1) ≡ length label = omega arith in
    slice_ok {E = DnsError} whole (length pre + 1) (length pre + 1 + length label) (omega arith)
      (omega (arith, size))
    ∙ rw (width, drop_behind pre (b ∷ (label ++ more)) 1, take_append_left label more) refl

-- The state behind a label.
abbrev pub behind_label : NameState → Bytes → NameState
behind_label s label = record s {
  offset = s.offset + 1 + length label;
  labels = s.labels ++ (label ∷ []);
  visited = s.offset ∷ s.visited;
}

name_step-label :
    (pre label more : Bytes) (s : NameState)
    → s.offset ≡ length pre
    → is_member s.visited s.offset ≡ false
    → 0 < length label
    → length label ≤ 63
    → name_step (pre ++ (length label ∷ (label ++ more))) s ≡ continue (behind_label s label)
unfolding name_step length_step take_label
name_step-label pre label more s at new some_bytes few_bytes =
    let whole = pre ++ (length label ∷ (label ++ more)) in
    let size : length whole ≡ length pre + (length label + length more + 1) =
      omega (arith, length-append pre (length label ∷ (label ++ more)), length-append label more) in
    let inside : leb (length whole) s.offset ≡ false = ground (arith, size) in
    let byte : index {E = DnsError} whole s.offset ≡ ok (length label) =
      rw at (index_behind pre (label ++ more) (length label)) in
    let not_end : (length label == 0) ≡ false = ground arith in
    let quarter : length label / 64 ≡ 0 = omega arith in
    let not_pointer : is_pointer (length label) ≡ false = rw quarter refl in
    let short : ltb 63 (length label) ≡ false = ground arith in
    let fits : ltb (length whole) (s.offset + 1 + length label) ≡ false = ground (arith, size) in
    let label_bytes : slice {E = DnsError} whole (s.offset + 1) (s.offset + 1 + length label)
        ≡ ok label =
      rw at (slice_behind pre label more (length label)) in
    rw (inside, new, byte, not_end, not_pointer, short, fits, label_bytes) refl

abbrev pub behind_labels : NameState → List Bytes → NameState
behind_labels s [] = s
behind_labels s (label ∷ labels) = behind_labels (behind_label s label) labels

-- No offset of a range was visited.
abbrev pub IsFresh : NameState → ℕ → ℕ → Type 0
IsFresh s lo hi = (o : ℕ) → lo ≤ o → o < hi → is_member s.visited o ≡ false

length-encode_cons :
    (label : Bytes) (labels : List Bytes)
    → length (encode_labels (label ∷ labels)) ≡ 1 + length label + length (encode_labels labels)
length-encode_cons label labels = omega (arith, length-append label (encode_labels labels))

pub behind_labels_offset :
    (s : NameState) (labels : List Bytes)
    → (behind_labels s labels).offset ≡ s.offset + length (encode_labels labels)
behind_labels_offset s [] = omega arith
behind_labels_offset s (label ∷ labels) =
    omega
      (arith, behind_labels_offset (behind_label s label) labels, length-encode_cons label labels)

pub behind_labels_labels :
    (s : NameState) (labels : List Bytes) → (behind_labels s labels).labels ≡ s.labels ++ labels
behind_labels_labels s [] = sym (append-nil s.labels)
behind_labels_labels s (label ∷ labels) =
    behind_labels_labels (behind_label s label) labels ∙ append_assoc s.labels (label ∷ []) labels

pub behind_labels_jump :
    (s : NameState) (labels : List Bytes) → (behind_labels s labels).jump_from ≡ s.jump_from
behind_labels_jump s [] = refl
behind_labels_jump s (label ∷ labels) = behind_labels_jump (behind_label s label) labels

pub unmarked :
    (x : ℕ) (visited : List ℕ) (o : ℕ)
    → x ≢ o
    → is_member visited o ≡ false
    → is_member (x ∷ visited) o ≡ false
unfolding is_member
unmarked x visited o h k = ground (arith, k)

-- The labels mark offsets of their own range only.
pub behind_labels-IsFresh :
    (s : NameState) (labels : List Bytes) (o : ℕ)
    → is_member s.visited o ≡ false
    → (o < s.offset) ⊎ (s.offset + length (encode_labels labels) ≤ o)
    → is_member (behind_labels s labels).visited o ≡ false
behind_labels-IsFresh s [] o h k = h
behind_labels-IsFresh s (label ∷ labels) o h k =
    let size = length-encode_cons label labels in
    behind_labels-IsFresh (behind_label s label) labels o
      (unmarked s.offset s.visited o
        (elim k [ inl low ↦ omega arith | inr high ↦ omega (arith, size) ]) h)
      (elim k [ inl low ↦ inl (omega arith) | inr high ↦ inr (omega (arith, size)) ])

abbrev pub run_step : ℕ → Bytes → NameStep → Outcome DnsError (Bytes × ℕ)
run_step fuel m step = elim step [ return r ↦ r | continue s ↦ name_loop fuel m s ]

pub name_loop_continue :
    (m : Bytes) (fuel : ℕ) (s s' : NameState)
    → name_step m s ≡ continue s'
    → name_loop (suc fuel) m s ≡ name_loop fuel m s'
unfolding name_loop
name_loop_continue m fuel s s' h = ap (λ step. run_step fuel m step) h

name_loop_return :
    (m : Bytes) (fuel : ℕ) (s : NameState) (r : Outcome DnsError (Bytes × ℕ))
    → name_step m s ≡ return r
    → name_loop (suc fuel) m s ≡ r
unfolding name_loop
name_loop_return m fuel s r h = ap (λ step. run_step fuel m step) h

pub name_loop-labels :
    (m pre more : Bytes) (labels : List Bytes) (fuel : ℕ) (s : NameState)
    → m ≡ pre ++ (encode_labels labels ++ more)
    → s.offset ≡ length pre
    → AreLabels labels
    → IsFresh s s.offset (s.offset + length (encode_labels labels))
    → name_loop (length labels + fuel) m s ≡ name_loop fuel m (behind_labels s labels)
name_loop-labels m pre more [] fuel s whole at good fresh =
    let none_left : 0 + fuel ≡ fuel = omega arith in ap (λ n. name_loop n m s) none_left
name_loop-labels m pre more (label ∷ labels) fuel s whole at good fresh =
    let shape : m ≡ pre ++ (length label ∷ (label ++ (encode_labels labels ++ more))) =
      whole
      ∙ ap (λ x. pre ++ (length label ∷ x)) (append_assoc label (encode_labels labels) more) in
    let size = length-encode_cons label labels in
    let step : name_step m s ≡ continue (behind_label s label) = rw shape (
      name_step-label pre label (encode_labels labels ++ more) s at
        (fresh s.offset (omega arith) (omega (arith, size))) good.0.0 good.0.1) in
    let one_less : suc (length labels) + fuel ≡ suc (length labels + fuel) = omega arith in
    let pre' = pre ++ (length label ∷ label) in
    let shape' : m ≡ pre' ++ (encode_labels labels ++ more) =
      shape ∙ sym (append_assoc pre (length label ∷ label) (encode_labels labels ++ more)) in
    ap (λ n. name_loop n m s) one_less
    ∙ (name_loop_continue m (length labels + fuel) s (behind_label s label) step
        ∙ name_loop-labels m pre' more labels fuel (behind_label s label) shape'
            (omega (arith, at, length-append pre (length label ∷ label))) good.1
            (λ o lo hi.
              unmarked s.offset s.visited o (omega arith)
                (fresh o (omega arith) (omega (arith, size)))))

name_step-end :
    (m pre more : Bytes) (s : NameState)
    → m ≡ pre ++ (0 ∷ more)
    → s.offset ≡ length pre
    → is_member s.visited s.offset ≡ false
    → name_step m s
      ≡ return (ok (join_labels s.labels, next_offset (record s { offset = s.offset + 1 })))
unfolding name_step length_step
name_step-end m pre more s whole at new =
    let size : length m ≡ length pre + (length more + 1) =
      rw whole (length-append pre (0 ∷ more) ∙ omega arith) in
    let inside : leb (length m) s.offset ≡ false = ground (arith, size) in
    let byte : index {E = DnsError} m s.offset ≡ ok 0 = rw (whole, at) (index_behind pre more 0) in
    rw (inside, new, byte) refl

pub name_step-pointer :
    (m pre more : Bytes) (s : NameState) (p : ℕ)
    → p < 2 ^ 14
    → m ≡ pre ++ ((192 + p / 256) ∷ (p % 256) ∷ more)
    → s.offset ≡ length pre
    → is_member s.visited s.offset ≡ false
    → name_step m s
      ≡ continue (record s {
        offset = p;
        visited = s.offset ∷ s.visited;
        jump_from = some (next_offset (record s { offset = s.offset + 1 + 1 }));
      })
unfolding name_step length_step follow_pointer
name_step-pointer m pre more s p small whole at new =
    let high = 192 + p / 256 in
    let size : length m ≡ length pre + (length more + 2) =
      rw whole (length-append pre (high ∷ (p % 256) ∷ more) ∙ omega arith) in
    let inside : leb (length m) s.offset ≡ false = ground (arith, size) in
    let inside' : leb (length m) (s.offset + 1) ≡ false = ground (arith, size) in
    let byte : index {E = DnsError} m s.offset ≡ ok high =
      rw (whole, at) (index_behind pre ((p % 256) ∷ more) high) in
    let grouped : m ≡ (pre ++ (high ∷ [])) ++ ((p % 256) ∷ more) =
      whole ∙ sym (append_assoc pre (high ∷ []) ((p % 256) ∷ more)) in
    let second : s.offset + 1 ≡ length (pre ++ (high ∷ [])) =
      omega (arith, at, length-append pre (high ∷ [])) in
    let byte' : index {E = DnsError} m (s.offset + 1) ≡ ok (p % 256) =
      rw (grouped, second) (index_behind (pre ++ (high ∷ [])) more (p % 256)) in
    let not_end : (high == 0) ≡ false = ground arith in
    let pointer : is_pointer high ≡ true = ground arith in
    let target : high % 64 * 256 + p % 256 ≡ p = omega arith in
    rw (inside, new, byte, not_end, pointer, inside', byte', target) refl

-- The offset behind a name that ends with a zero byte, if no pointer was followed before it.
abbrev pub end_offset : Option ℕ → ℕ → ℕ
end_offset none offset = offset
end_offset (some jump) offset = jump

pub next_offset_end :
    (s : NameState) (jump : Option ℕ) (offset : ℕ)
    → s.jump_from ≡ jump
    → s.offset ≡ offset
    → next_offset s ≡ end_offset jump offset
next_offset_end s none offset h k = ap (λ j. elim j [ none ↦ s.offset | some jump ↦ jump ]) h ∙ k
next_offset_end s (some j) offset h k = ap (λ o. elim o [ none ↦ s.offset | some jump ↦ jump ]) h

pub length-encode-le : (labels : List Bytes) → length labels ≤ length (encode_labels labels)
length-encode-le [] = omega arith
length-encode-le (label ∷ labels) =
    omega (arith, length-encode-le labels, length-encode_cons label labels)

pub name_loop-name :
    (m pre more : Bytes) (labels : List Bytes) (fuel : ℕ) (s : NameState)
    → m ≡ pre ++ (encode_labels labels ++ (0 ∷ more))
    → s.offset ≡ length pre
    → AreLabels labels
    → IsFresh s s.offset (s.offset + length (encode_labels labels) + 1)
    → length labels < fuel
    → name_loop fuel m s
      ≡ ok (
        join_labels (s.labels ++ labels),
        end_offset s.jump_from (s.offset + length (encode_labels labels) + 1),
      )
name_loop-name m pre more labels fuel s whole at good fresh enough =
    let left = fuel - length labels - 1 in
    let split : fuel ≡ length labels + suc left = omega arith in
    let last = behind_labels s labels in
    let place : last.offset ≡ s.offset + length (encode_labels labels) =
      behind_labels_offset s labels in
    let grouped : m ≡ (pre ++ encode_labels labels) ++ (0 ∷ more) =
      whole ∙ sym (append_assoc pre (encode_labels labels) (0 ∷ more)) in
    let here =
      name_step-end m (pre ++ encode_labels labels) more last grouped
        (omega (arith, place, at, length-append pre (encode_labels labels)))
        (behind_labels-IsFresh s labels last.offset
          (fresh last.offset (omega (arith, place)) (omega (arith, place)))
          (inr (omega (arith, place)))) in
    let next =
      next_offset_end (record last { offset = last.offset + 1 }) s.jump_from
        (s.offset + length (encode_labels labels) + 1) (behind_labels_jump s labels)
        (omega (arith, place)) in
    ap (λ n. name_loop n m s) split
    ∙ (name_loop-labels m pre (0 ∷ more) labels (suc left) s whole at good
          (λ o lo hi. fresh o lo (omega arith))
        ∙ (name_loop_return m left last
              (ok (join_labels last.labels, next_offset (record last { offset = last.offset + 1 })))
              here
            ∙ (ap
                  (λ ls.
                    ok (join_labels ls, next_offset (record last { offset = last.offset + 1 })))
                  (behind_labels_labels s labels)
                ∙ ap (λ n. ok (join_labels (s.labels ++ labels), n)) next)))

-- A name in wire format, with labels of 1 to 63 bytes and no pointer, is read from any place of a message as its
-- labels joined by dots, and the next offset is behind its end.
pub parse_dns_name-encode :
    (pre more : Bytes) (labels : List Bytes)
    → AreLabels labels
    → parse_dns_name (pre ++ (encode_labels labels ++ (0 ∷ more))) (length pre)
      ≡ ok (join_labels labels, length pre + length (encode_labels labels) + 1)
unfolding parse_dns_name is_member
parse_dns_name-encode pre more labels good =
    let m = pre ++ (encode_labels labels ++ (0 ∷ more)) in
    name_loop-name m pre more labels (length m + 1)
      (record { offset = length pre; labels = []; jump_from = none; visited = [] }) refl refl good
      (λ o lo hi. refl)
      (omega (
        arith,
        length-append pre (encode_labels labels ++ (0 ∷ more)),
        length-append (encode_labels labels) (0 ∷ more),
        length-encode-le labels,
      ))
