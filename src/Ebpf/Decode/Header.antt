-- ===== src/Ebpf/Decode/Header.antt =====
-- The packed header of `struct scarlet_event` (pkg/ebpf/include/security_scarlet_event.h), which
-- `DecodeEvent` of pkg/ebpf/types.go reads.
use container_runtime_securi.Prelude.{
  ℕ, zero, suc, nat_comparable, string_comparable, bytes_comparable, ◌/◌, ◌^◌, ◌<◌, ◌≡◌, ◌∷◌, ◌++◌,
  arith, length, length-append, take_append_left,
}
use native.Mathlib.Nat.{pow-suc}
use container_runtime_securi.Prelude.Outcome.{ok}
use container_runtime_securi.Prelude.Slices.{Bytes, le_value, le_bytes}
use container_runtime_securi.Ebpf.Event.{ScarletEvent, zero_payload}
use container_runtime_securi.Ebpf.Decode.{decode_header}

pub le_value-le_bytes : (w x : ℕ) → x < 256 ^ w → le_value (le_bytes w x) ≡ x
le_value-le_bytes zero x h = omega arith
le_value-le_bytes (suc w) x h =
    omega (arith, pow-suc 256 w, le_value-le_bytes w (x / 256) (omega (arith, pow-suc 256 w)))

-- The header of the struct in front of `comm`.
abbrev pub fields_bytes : ScarletEvent → Bytes → Bytes
fields_bytes e behind =
    le_bytes 8 e.timestamp_ns
    ++ (le_bytes 4 e.pid
        ++ (le_bytes 4 e.tgid
            ++ (le_bytes 4 e.ppid
                ++ (le_bytes 4 e.uid
                    ++ (le_bytes 4 e.gid
                        ++ (le_bytes 8 e.cgroup_id
                            ++ (le_bytes 4 e.pid_ns_level
                                ++ (e.category
                                    ∷ e.event_type
                                    ∷ (le_bytes 2 e.syscall_nr ++ (0 ∷ 0 ∷ behind))))))))))

-- The header in front of the rest of the record.
abbrev pub header_bytes : ScarletEvent → Bytes → Bytes
header_bytes e rest = fields_bytes e (e.comm ++ rest)

-- The header's fields fit their C types.
pub record HasHeader (e : ScarletEvent) : Type 0 where
  pub timestamp_ns : e.timestamp_ns < 2 ^ 64
  pub pid : e.pid < 2 ^ 32
  pub tgid : e.tgid < 2 ^ 32
  pub ppid : e.ppid < 2 ^ 32
  pub uid : e.uid < 2 ^ 32
  pub gid : e.gid < 2 ^ 32
  pub cgroup_id : e.cgroup_id < 2 ^ 64
  pub pid_ns_level : e.pid_ns_level < 2 ^ 32
  pub category : e.category < 256
  pub event_type : e.event_type < 256
  pub syscall_nr : e.syscall_nr < 2 ^ 16
  pub comm : length e.comm ≡ 16

module _ (e : ScarletEvent) (rest : Bytes) (h : HasHeader e) where
  pub decode_header_bytes :
      decode_header (header_bytes e rest) ≡ ok (record e { payload = zero_payload }, 62)
  unfolding decode_header
  decode_header_bytes = ground (
    arith,
    le_value-le_bytes 8 e.timestamp_ns,
    le_value-le_bytes 4 e.pid,
    le_value-le_bytes 4 e.tgid,
    le_value-le_bytes 4 e.ppid,
    le_value-le_bytes 4 e.uid,
    le_value-le_bytes 4 e.gid,
    le_value-le_bytes 8 e.cgroup_id,
    le_value-le_bytes 4 e.pid_ns_level,
    le_value-le_bytes 2 e.syscall_nr,
    take_append_left e.comm rest,
    length-append e.comm rest,
  )
