-- ===== src/Ebpf/Decode/Behind.antt =====
-- `DecodeEvent` of pkg/ebpf/types.go reads its payload relative to an offset.
use container_runtime_securi.Prelude.{
  ℕ, zero, suc, nat_comparable, string_comparable, bytes_comparable, ◌+◌, ◌≡◌, refl, ◌++◌, arith,
  length, length-append, drop_behind, get_elem?_behind,
}
use native.Mathlib.Nat.{add_assoc}
use container_runtime_securi.Prelude.Slices.{Bytes, index, slice}
use container_runtime_securi.Ebpf.Event.{EventPayload}
use container_runtime_securi.Ebpf.Decode.{
  DecodeError, Decoded, uint_at, uints_at, decode_process, decode_file, decode_network,
  decode_escape, decode_privilege, decode_payload,
}

-- Reading behind a prefix is reading the rest.
module _ (pre rest : Bytes) where
  pub slice_behind :
      (lo hi : ℕ)
      → slice {E = DecodeError} (pre ++ rest) (length pre + lo) (length pre + hi) ≡ slice rest lo hi
  unfolding slice
  slice_behind lo hi = ground (arith, length-append pre rest, drop_behind pre rest lo)

  pub uint_at_behind : (o n : ℕ) → uint_at (pre ++ rest) (length pre + o) n ≡ uint_at rest o n
  unfolding uint_at slice
  uint_at_behind o n = ground (arith, length-append pre rest, drop_behind pre rest o)

  pub index_behind : (o : ℕ) → index {E = DecodeError} (pre ++ rest) (length pre + o) ≡ index rest o
  unfolding index
  index_behind o = rw (get_elem?_behind pre rest o, index)

  pub uints_at_behind : (o n : ℕ) → uints_at (pre ++ rest) (length pre + o) n ≡ uints_at rest o n
  unfolding uints_at
  uints_at_behind o zero = refl
  uints_at_behind o (suc n) = rw (uint_at_behind o 4, add_assoc, uints_at_behind (o + 4) n)

  abbrev pub Behind : (Bytes → ℕ → Decoded EventPayload) → Type 0
  Behind decode = (o : ℕ) → decode (pre ++ rest) (length pre + o) ≡ decode rest o

  pub decode_process-Behind : Behind decode_process
  unfolding decode_process slice
  decode_process-Behind o =
      ground (arith, length-append pre rest, drop_behind pre rest o, drop_behind pre rest (o + 256))

  pub decode_file-Behind : Behind decode_file
  unfolding decode_file slice uint_at
  decode_file-Behind o = ground (
    arith,
    length-append pre rest,
    drop_behind pre rest o,
    drop_behind pre rest (o + 256),
    drop_behind pre rest (o + 256 + 4),
  )

  pub decode_network-Behind : Behind decode_network
  unfolding decode_network slice index uint_at
  decode_network-Behind o = ground (
    arith,
    length-append pre rest,
    drop_behind pre rest o,
    drop_behind pre rest (o + 4),
    drop_behind pre rest (o + 8),
    drop_behind pre rest (o + 10),
    get_elem?_behind pre rest (o + 12),
    get_elem?_behind pre rest (o + 13),
  )

  pub decode_escape-Behind : Behind decode_escape
  unfolding decode_escape index uint_at
  decode_escape-Behind o = ground (
    arith,
    length-append pre rest,
    drop_behind pre rest o,
    uints_at_behind (o + 4) 8,
    get_elem?_behind pre rest (o + 36),
  )

  pub decode_privilege-Behind : Behind decode_privilege
  unfolding decode_privilege uint_at
  decode_privilege-Behind o = ground (
    arith,
    length-append pre rest,
    drop_behind pre rest o,
    drop_behind pre rest (o + 4),
    drop_behind pre rest (o + 8),
    drop_behind pre rest (o + 12),
  )

  pub decode_payload-Behind : (c : ℕ) → Behind (decode_payload c)
  unfolding decode_payload
  decode_payload-Behind c o = ground (
    arith,
    decode_process-Behind o,
    decode_file-Behind o,
    decode_network-Behind o,
    decode_escape-Behind o,
    decode_privilege-Behind o,
  )
