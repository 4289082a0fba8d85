-- ===== src/Ebpf/Decode/RoundTrip.antt =====
-- The packed layout of `struct scarlet_event` (pkg/ebpf/include/security_scarlet_event.h) and
-- `DecodeEvent` of pkg/ebpf/types.go.
use container_runtime_securi.Prelude.{
  ℕ, zero, suc, nat_comparable, string_comparable, bytes_comparable, ◌+◌, ◌*◌, ◌/◌, ◌^◌, ◌≤◌, ◌<◌,
  ◌≡◌, refl, sym, ap, ◌∙◌, true, false, List, [], ◌∷◌, ◌++◌, arith, ltb, leb, length, length-append,
  take_append_left, drop_append_left,
}
use mathlib.Core.Path.{subst}
use native.Mathlib.Nat.{zero-add}
use container_runtime_securi.Prelude.Outcome.{ok}
use container_runtime_securi.Prelude.Slices.{Bytes, index, slice, le_bytes}
use container_runtime_securi.Ebpf.Event.{
  ScarletEvent, EventPayload, ProcessPayload, FilePayload, NetworkPayload, EscapePayload,
  PrivilegePayload, zero_payload,
}
use container_runtime_securi.Ebpf.Decode.{
  DecodeError, uint_at, uints_at, decode_process, decode_file, decode_network, decode_escape,
  decode_privilege, decode_payload, decode_event,
}
use container_runtime_securi.Ebpf.Decode.Header.{
  le_value-le_bytes, fields_bytes, header_bytes, HasHeader, decode_header_bytes,
}
use container_runtime_securi.Ebpf.Decode.Behind.{
  uint_at_behind, index_behind, uints_at_behind, decode_payload-Behind,
}

-- A list of 32-bit words, in the C layout.
abbrev pub words_bytes : List ℕ → Bytes
words_bytes [] = []
words_bytes (x ∷ xs) = le_bytes 4 x ++ words_bytes xs

abbrev pub AreWords : List ℕ → Type 0
AreWords [] = Unit
AreWords (x ∷ xs) = (x < 2 ^ 32) × AreWords xs

uints_at-words :
    (xs : List ℕ) (tail : Bytes)
    → AreWords xs
    → uints_at (words_bytes xs ++ tail) 0 (length xs) ≡ ok xs
unfolding uints_at
uints_at-words [] tail h = refl
uints_at-words (x ∷ xs) tail h =
    let read : uint_at (words_bytes (x ∷ xs) ++ tail) 0 4 ≡ ok x =
      unfold uint_at slice in ground (arith, le_value-le_bytes 4 x) in
    let rest : uints_at (words_bytes (x ∷ xs) ++ tail) (0 + 4) (length xs) ≡ ok xs =
      uints_at_behind (le_bytes 4 x) (words_bytes xs ++ tail) 0 (length xs)
      ∙ uints_at-words xs tail h.1 in
    rw (read, rest)

length-words : (xs : List ℕ) → length (words_bytes xs) ≡ 4 * length xs
length-words [] = omega arith
length-words (x ∷ xs) = omega (arith, length-words xs)

-- The member of the C union that the category selects.
pub data Content : Type 0 where
  process : ProcessPayload → Content
  file : FilePayload → Content
  network : NetworkPayload → Content
  escape : EscapePayload → Content
  privilege : PrivilegePayload → Content

abbrev pub category_of : Content → ℕ
category_of (process p) = 1
category_of (file p) = 2
category_of (network p) = 3
category_of (escape p) = 4
category_of (privilege p) = 5

abbrev pub payload_of : Content → EventPayload
payload_of (process p) = record zero_payload { process = p }
payload_of (file p) = record zero_payload { file = p }
payload_of (network p) = record zero_payload { network = p }
payload_of (escape p) = record zero_payload { escape = p }
payload_of (privilege p) = record zero_payload { privilege = p }

abbrev pub content_bytes : Content → Bytes → Bytes
content_bytes (process p) tail = p.filename ++ (p.args ++ tail)
content_bytes (file p) tail = p.path ++ (le_bytes 4 p.flags ++ (le_bytes 4 p.mode ++ tail))
content_bytes (network p) tail =
    p.local_addr
    ++ (p.remote_addr
        ++ (le_bytes 2 p.local_port
            ++ (le_bytes 2 p.remote_port ++ (p.protocol ∷ p.family ∷ 0 ∷ 0 ∷ tail))))
content_bytes (escape p) tail =
    le_bytes 4 p.ns_type ++ (words_bytes p.target_ns ++ (p.ns_count ∷ 0 ∷ 0 ∷ 0 ∷ tail))
content_bytes (privilege p) tail =
    le_bytes 4 p.old_uid
    ++ (le_bytes 4 p.new_uid ++ (le_bytes 4 p.capability ++ (le_bytes 4 p.mode_flags ++ tail)))

-- The fields fit their C types.
abbrev pub Fits : Content → Type 0
Fits (process p) = (length p.filename ≡ 256) × (length p.args ≡ 128)
Fits (file p) = (length p.path ≡ 256) × (p.flags < 2 ^ 32) × (p.mode < 2 ^ 32)
Fits (network p) =
    (length p.local_addr ≡ 4)
    × (length p.remote_addr ≡ 4)
    × (p.local_port < 2 ^ 16)
    × (p.remote_port < 2 ^ 16)
    × (p.protocol < 256)
    × (p.family < 256)
Fits (escape p) =
    (p.ns_type < 2 ^ 32) × (length p.target_ns ≡ 8) × AreWords p.target_ns × (p.ns_count < 256)
Fits (privilege p) =
    (p.old_uid < 2 ^ 32) × (p.new_uid < 2 ^ 32) × (p.capability < 2 ^ 32) × (p.mode_flags < 2 ^ 32)

slice_first :
    (xs ys : Bytes) (n : ℕ) → length xs ≡ n → slice {E = DecodeError} (xs ++ ys) 0 n ≡ ok xs
unfolding slice
slice_first xs ys n h = ground (arith, length-append xs ys, take_append_left xs ys)

slice_second :
    (xs ys zs : Bytes) (m n : ℕ)
    → length xs ≡ m
    → length ys ≡ n
    → slice {E = DecodeError} (xs ++ (ys ++ zs)) m (m + n) ≡ ok ys
unfolding slice
slice_second xs ys zs m n p q = ground (
  arith,
  length-append xs (ys ++ zs),
  length-append ys zs,
  drop_append_left xs (ys ++ zs),
  take_append_left ys zs,
)

length-le_bytes : (n x : ℕ) → length (le_bytes n x) ≡ n
length-le_bytes zero x = refl
length-le_bytes (suc n) x = ap suc (length-le_bytes n (x / 256))

word_first : (n x : ℕ) (rest : Bytes) → x < 256 ^ n → uint_at (le_bytes n x ++ rest) 0 n ≡ ok x
unfolding uint_at
word_first n x rest h =
    rw (zero-add, slice_first (le_bytes n x) rest n (length-le_bytes n x))
      (ap ok (le_value-le_bytes n x h))

module _ (xs rest : Bytes) (m : ℕ) (e : length xs ≡ m) where
  uint_at_after : (o n : ℕ) → uint_at (xs ++ rest) (m + o) n ≡ uint_at rest o n
  uint_at_after o n = rw (← e) (uint_at_behind xs rest o n)

  index_after : (o : ℕ) → index {E = DecodeError} (xs ++ rest) (m + o) ≡ index rest o
  index_after o = rw (← e) (index_behind xs rest o)

decode_content :
    (c : Content) (tail : Bytes)
    → Fits c
    → decode_payload (category_of c) (content_bytes c tail) 0 ≡ ok (payload_of c)
unfolding decode_payload
decode_content (process p) tail h =
    let room : leb (0 + 256 + 128) (length (p.filename ++ (p.args ++ tail))) ≡ true =
      ground (arith, length-append p.filename (p.args ++ tail), length-append p.args tail) in
    unfold decode_process in
    rw (
      room,
      slice_first p.filename (p.args ++ tail) 256 h.0,
      slice_second p.filename p.args tail 256 128 h.0 h.1,
    )
decode_content (file p) tail h =
    let words = le_bytes 4 p.flags ++ (le_bytes 4 p.mode ++ tail) in
    let room : leb (0 + 256 + 4 + 4) (length (p.path ++ words)) ≡ true =
      ground (arith, length-append p.path words) in
    unfold decode_file in
    rw (
      room,
      slice_first p.path words 256 h.0,
      uint_at_after p.path words 256 h.0 0 4,
      word_first 4 p.flags (le_bytes 4 p.mode ++ tail) h.1,
      uint_at_after p.path words 256 h.0 4 4,
      uint_at_after (le_bytes 4 p.flags) (le_bytes 4 p.mode ++ tail) 4 refl 0 4,
      word_first 4 p.mode tail h.2,
    )
decode_content (network p) tail h =
    let last = p.protocol ∷ p.family ∷ 0 ∷ 0 ∷ tail in
    let ports = le_bytes 2 p.local_port ++ (le_bytes 2 p.remote_port ++ last) in
    let rest = p.remote_addr ++ ports in
    let room : leb (0 + 4 + 4 + 2 + 2 + 1 + 1 + 2) (length (p.local_addr ++ rest)) ≡ true =
      ground (arith, length-append p.local_addr rest, length-append p.remote_addr ports) in
    unfold decode_network in
    rw
      (
        room,
        slice_first p.local_addr rest 4 h.0,
        slice_second p.local_addr p.remote_addr ports 4 4 h.0 h.1,
        uint_at_after p.local_addr rest 4 h.0 4 2,
        uint_at_after p.remote_addr ports 4 h.1 0 2,
        word_first 2 p.local_port (le_bytes 2 p.remote_port ++ last) h.2,
        uint_at_after p.local_addr rest 4 h.0 6 2,
        uint_at_after p.remote_addr ports 4 h.1 2 2,
        uint_at_after (le_bytes 2 p.local_port) (le_bytes 2 p.remote_port ++ last) 2 refl 0 2,
        word_first 2 p.remote_port last h.3,
        index_after p.local_addr rest 4 h.0 8,
        index_after p.remote_addr ports 4 h.1 4,
        index_after p.local_addr rest 4 h.0 9,
        index_after p.remote_addr ports 4 h.1 5,
      )
      (unfold index in refl)
decode_content (escape p) tail h =
    let last = p.ns_count ∷ 0 ∷ 0 ∷ 0 ∷ tail in
    let rest = words_bytes p.target_ns ++ last in
    let room : leb (0 + 4 + 8 * 4 + 1 + 3) (length (le_bytes 4 p.ns_type ++ rest)) ≡ true =
      ground (arith, length-append (words_bytes p.target_ns) last, length-words p.target_ns) in
    let words : uints_at rest 0 8 ≡ ok p.target_ns =
      subst (λ n. uints_at rest 0 n ≡ ok p.target_ns) h.1 (uints_at-words p.target_ns last h.2) in
    unfold decode_escape in
    rw
      (
        room,
        word_first 4 p.ns_type rest h.0,
        uints_at_behind (le_bytes 4 p.ns_type) rest 0 8,
        words,
        index_after (le_bytes 4 p.ns_type) rest 4 refl 32,
        index_after (words_bytes p.target_ns) last 32 (omega (arith, length-words p.target_ns, h.1))
            0,
      )
      (unfold index in refl)
decode_content (privilege p) tail h =
    unfold decode_privilege uint_at in
    ground (
      arith,
      le_value-le_bytes 4 p.old_uid,
      le_value-le_bytes 4 p.new_uid,
      le_value-le_bytes 4 p.capability,
      le_value-le_bytes 4 p.mode_flags,
    )

content_room : (c : Content) (tail : Bytes) → Fits c → 2 ≤ length (content_bytes c tail)
content_room (process p) tail h = omega (arith, length-append p.filename (p.args ++ tail))
content_room (file p) tail h =
    omega (arith, length-append p.path (le_bytes 4 p.flags ++ (le_bytes 4 p.mode ++ tail)))
content_room (network p) tail h = omega (
  arith,
  length-append p.local_addr (
      p.remote_addr
      ++ (le_bytes 2 p.local_port
          ++ (le_bytes 2 p.remote_port ++ (p.protocol ∷ p.family ∷ 0 ∷ 0 ∷ tail)))),
)
content_room (escape p) tail h = omega arith
content_room (privilege p) tail h = omega arith

-- The record that the probes submit: the header, the selected union member, and what follows it.
abbrev pub event_bytes : ScarletEvent → Content → Bytes → Bytes
event_bytes e c tail = header_bytes e (content_bytes c tail)

-- `DecodeEvent` inverts the C layout: an event whose fields fit their types, laid out as the packed
-- struct with the union member of its category (and any bytes behind it), is read back unchanged.
pub decode_event-bytes :
    (e : ScarletEvent) (c : Content) (tail : Bytes)
    → HasHeader e
    → Fits c
    → e.category ≡ category_of c
    → e.payload ≡ payload_of c
    → decode_event (event_bytes e c tail) ≡ ok e
decode_event-bytes e c tail h fits cat same =
    let rest = content_bytes c tail in
    let long : ltb (length (header_bytes e rest)) 64 ≡ false =
      ground (arith, length-append e.comm rest, content_room c tail fits) in
    let at_62 : length (fields_bytes e e.comm) + 0 ≡ 62 = omega (arith, h.comm) in
    let behind : decode_payload (category_of c) (header_bytes e rest) 62 ≡ ok (payload_of c) =
      ap (λ n. decode_payload (category_of c) (header_bytes e rest) n) (sym at_62)
      ∙ decode_payload-Behind (fields_bytes e e.comm) rest (category_of c) 0
      ∙ decode_content c tail fits in
    let read : decode_payload e.category (header_bytes e rest) 62 ≡ ok e.payload =
      ap (λ k. decode_payload k (header_bytes e rest) 62) cat ∙ behind ∙ ap ok (sym same) in
    unfold decode_event in rw (long, decode_header_bytes e rest h, read)
