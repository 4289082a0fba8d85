-- ===== src/Ebpf/Decode/Totality.antt =====
-- The reads of `DecodeEvent` of pkg/ebpf/types.go, each with its bounds check.
use container_runtime_securi.Prelude.{
  ℕ, zero, suc, nat_comparable, string_comparable, bytes_comparable, ◌+◌, ◌*◌, ◌≤◌, ◌<◌, ◌≡◌, refl,
  ◌⊎◌, inl, inr, false, arith, ltb, Bool-cases, length,
}
use container_runtime_securi.Prelude.Outcome.{Outcome, ok, fail, panic, ◌>>=◌}
use container_runtime_securi.Prelude.Slices.{Bytes, index, slice, index_ok}
use container_runtime_securi.Ebpf.Event.{ScarletEvent}
use container_runtime_securi.Ebpf.Decode.{
  DecodeError, too_short, uint_at, uints_at, decode_process, decode_file, decode_network,
  decode_escape, decode_privilege, decode_payload, decode_header, decode_event,
}

-- The call returned a value.
abbrev IsOk {ℓ κ} : {E : Type κ} {A : Type ℓ} → Outcome E A → Type 0
IsOk (ok a) = Unit
IsOk (fail e) = ⊥
IsOk panic = ⊥

module _ (bytes : Bytes) where
  uint_at-IsOk : (offset n : ℕ) → offset + n ≤ length bytes → IsOk (uint_at bytes offset n)
  unfolding uint_at
  uint_at-IsOk offset n h = ground arith

  slice-IsOk :
      (lo hi : ℕ) → lo ≤ hi → hi ≤ length bytes → IsOk (slice {E = DecodeError} bytes lo hi)
  unfolding slice
  slice-IsOk lo hi p q = ground arith

  index-IsOk : (i : ℕ) → i < length bytes → IsOk (index {E = DecodeError} bytes i)
  index-IsOk i h = let (b, _, e) = index_ok {E = DecodeError} bytes i h in rw e tt

  decode_header-IsOk : 64 ≤ length bytes → IsOk (decode_header bytes)
  unfolding decode_header
  decode_header-IsOk h = ground (arith, index-IsOk 40, index-IsOk 41)

  decode_process-IsOk : (o : ℕ) → IsOk (decode_process bytes o)
  unfolding decode_process slice
  decode_process-IsOk o = ground arith

  decode_file-IsOk : (o : ℕ) → IsOk (decode_file bytes o)
  unfolding decode_file slice uint_at
  decode_file-IsOk o = ground arith

  decode_network-IsOk : (o : ℕ) → IsOk (decode_network bytes o)
  unfolding decode_network slice uint_at
  decode_network-IsOk o =
      ground (arith, index-IsOk (o + 4 + 4 + 2 + 2), index-IsOk (o + 4 + 4 + 2 + 2 + 1))

  uints_at-IsOk : (o n : ℕ) → o + 4 * n ≤ length bytes → IsOk (uints_at bytes o n)
  unfolding uints_at
  uints_at-IsOk o zero h = tt
  uints_at-IsOk o (suc n) h = ground (arith, uints_at-IsOk (o + 4) n)

  decode_escape-IsOk : (o : ℕ) → IsOk (decode_escape bytes o)
  unfolding decode_escape uint_at
  decode_escape-IsOk o = ground (arith, uints_at-IsOk (o + 4) 8, index-IsOk (o + 4 + 8 * 4))

  decode_privilege-IsOk : (o : ℕ) → IsOk (decode_privilege bytes o)
  unfolding decode_privilege uint_at
  decode_privilege-IsOk o = ground arith

  decode_payload-IsOk : (category o : ℕ) → IsOk (decode_payload category bytes o)
  unfolding decode_payload
  decode_payload-IsOk category o = ground (
    arith,
    decode_process-IsOk o,
    decode_file-IsOk o,
    decode_network-IsOk o,
    decode_escape-IsOk o,
    decode_privilege-IsOk o,
  )

value_of {ℓ κ} : {E : Type κ} {A : Type ℓ} (r : Outcome E A) → IsOk r → (a : A) × (r ≡ ok a)
value_of (ok a) h = (a, refl)
value_of (fail e) h = absurd h
value_of panic h = absurd h

IsOk-bind {ℓ κ υ} :
    {E : Type υ} {A : Type ℓ} {B : Type κ} (m : Outcome E A) (f : A → Outcome E B)
    → IsOk m
    → ((a : A) → IsOk (f a))
    → IsOk (m >>= f)
IsOk-bind (ok a) f h k = k a
IsOk-bind (fail e) f h k = absurd h
IsOk-bind panic f h k = absurd h

decode_long : (bytes : Bytes) → 64 ≤ length bytes → IsOk (decode_event bytes)
unfolding decode_event
decode_long bytes h =
    let long : ltb (length bytes) 64 ≡ false = ground arith in
    rw long (
      IsOk-bind (decode_header bytes) _ (decode_header-IsOk bytes h) λ (e, o).
        IsOk-bind (decode_payload e.category bytes o) _ (decode_payload-IsOk bytes e.category o)
          λ payload. tt)

-- A record of fewer than 64 bytes is refused with its length. Any other record, whatever its
-- category and its bytes, is decoded to an event: no read leaves the buffer.
pub decode_event-total :
    (bytes : Bytes)
    → ((length bytes < 64) × (decode_event bytes ≡ fail (too_short (length bytes))))
      ⊎ ((e : ScarletEvent) × (64 ≤ length bytes) × (decode_event bytes ≡ ok e))
decode_event-total bytes = elim (Bool-cases (ltb (length bytes) 64)) [
  | inl short ↦ inl (unfold decode_event in (ground arith, rw short))
  | inr long ↦
      let h : 64 ≤ length bytes = ground arith in
      let (e, p) = value_of (decode_event bytes) (decode_long bytes h) in inr (e, h, p)
]
