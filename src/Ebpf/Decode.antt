-- ===== src/Ebpf/Decode.antt =====
-- `DecodeEvent` of pkg/ebpf/types.go: a ring buffer record to an event.
pub mod Totality
pub mod Header
pub mod Behind
pub mod RoundTrip
use container_runtime_securi.Prelude.{
  ℕ, zero, suc, nat_comparable, ◌+◌, ◌*◌, Bool, true, false, List, [], ◌∷◌, length, ltb, leb, ◌==◌,
  if◌then◌else◌,
}
use container_runtime_securi.Prelude.Outcome.{Outcome, ok, fail, ◌>>=◌}
use container_runtime_securi.Prelude.Slices.{Bytes, index, slice, le_value}
use container_runtime_securi.Ebpf.Event.{
  ScarletEvent, EventPayload, cat_process, cat_file, cat_network, cat_escape, cat_privilege,
  max_comm_len, max_path_len, max_args_len, zero_payload,
}

pub data DecodeError : Type 0 where
  too_short : ℕ → DecodeError

abbrev pub Decoded : Type 0 → Type 0
Decoded = Outcome DecodeError

-- `binary.LittleEndian.UintN(data[offset : offset+n])`
pub uint_at : Bytes → ℕ → ℕ → Decoded ℕ
unfolding slice
uint_at bytes offset n = do s ← slice bytes offset (offset + n); ok (le_value s)

-- The loop over `TargetNS`, with the rounds that are left.
pub uints_at : Bytes → ℕ → ℕ → Decoded (List ℕ)
unfolding uint_at
uints_at bytes offset zero = ok []
uints_at bytes offset (suc n) = do
  x ← uint_at bytes offset 4
  rest ← uints_at bytes (offset + 4) n
  ok (x ∷ rest)

pub decode_process : Bytes → ℕ → Decoded EventPayload
decode_process bytes offset =
    if leb (offset + max_path_len + max_args_len) (length bytes)
    then (do
      filename ← slice bytes offset (offset + max_path_len)
      args ← slice bytes (offset + max_path_len) (offset + max_path_len + max_args_len)
      ok (record zero_payload { process = record { filename = filename; args = args } }))
    else ok zero_payload

pub decode_file : Bytes → ℕ → Decoded EventPayload
decode_file bytes offset =
    if leb (offset + max_path_len + 4 + 4) (length bytes)
    then (do
      path ← slice bytes offset (offset + max_path_len)
      flags ← uint_at bytes (offset + max_path_len) 4
      mode ← uint_at bytes (offset + max_path_len + 4) 4
      ok (record zero_payload { file = record { path = path; flags = flags; mode = mode } }))
    else ok zero_payload

pub decode_network : Bytes → ℕ → Decoded EventPayload
decode_network bytes offset =
    if leb (offset + 4 + 4 + 2 + 2 + 1 + 1 + 2) (length bytes)
    then (do
      local_addr ← slice bytes offset (offset + 4)
      remote_addr ← slice bytes (offset + 4) (offset + 4 + 4)
      local_port ← uint_at bytes (offset + 4 + 4) 2
      remote_port ← uint_at bytes (offset + 4 + 4 + 2) 2
      protocol ← index bytes (offset + 4 + 4 + 2 + 2)
      family ← index bytes (offset + 4 + 4 + 2 + 2 + 1)
      ok (record zero_payload {
        network = record {
          local_addr = local_addr;
          remote_addr = remote_addr;
          local_port = local_port;
          remote_port = remote_port;
          protocol = protocol;
          family = family;
        };
      }))
    else ok zero_payload

pub decode_escape : Bytes → ℕ → Decoded EventPayload
decode_escape bytes offset =
    if leb (offset + 4 + 8 * 4 + 1 + 3) (length bytes)
    then (do
      ns_type ← uint_at bytes offset 4
      target_ns ← uints_at bytes (offset + 4) 8
      ns_count ← index bytes (offset + 4 + 8 * 4)
      ok (record zero_payload {
        escape = record { ns_type = ns_type; target_ns = target_ns; ns_count = ns_count };
      }))
    else ok zero_payload

pub decode_privilege : Bytes → ℕ → Decoded EventPayload
decode_privilege bytes offset =
    if leb (offset + 4 * 4) (length bytes)
    then (do
      old_uid ← uint_at bytes offset 4
      new_uid ← uint_at bytes (offset + 4) 4
      capability ← uint_at bytes (offset + 4 + 4) 4
      mode_flags ← uint_at bytes (offset + 4 + 4 + 4) 4
      ok (record zero_payload {
        privilege = record {
          old_uid = old_uid;
          new_uid = new_uid;
          capability = capability;
          mode_flags = mode_flags;
        };
      }))
    else ok zero_payload

-- The `switch e.Category`.
pub decode_payload : ℕ → Bytes → ℕ → Decoded EventPayload
decode_payload category bytes offset =
    if category == cat_process
    then decode_process bytes offset
    else if category == cat_file
    then decode_file bytes offset
    else if category == cat_network
    then decode_network bytes offset
    else if category == cat_escape
    then decode_escape bytes offset
    else if category == cat_privilege
    then decode_privilege bytes offset
    else ok zero_payload

-- The fixed fields, and the offset behind them.
pub decode_header : Bytes → Decoded (ScarletEvent × ℕ)
unfolding slice index uint_at
decode_header bytes = do
  timestamp_ns ← uint_at bytes 0 8
  pid ← uint_at bytes 8 4
  tgid ← uint_at bytes 12 4
  ppid ← uint_at bytes 16 4
  uid ← uint_at bytes 20 4
  gid ← uint_at bytes 24 4
  cgroup_id ← uint_at bytes 28 8
  pid_ns_level ← uint_at bytes 36 4
  category ← index bytes 40
  event_type ← index bytes 41
  syscall_nr ← uint_at bytes 42 2
  comm ← slice bytes 46 (46 + max_comm_len)
  ok (
    record {
      timestamp_ns = timestamp_ns;
      pid = pid;
      tgid = tgid;
      ppid = ppid;
      uid = uid;
      gid = gid;
      cgroup_id = cgroup_id;
      pid_ns_level = pid_ns_level;
      category = category;
      event_type = event_type;
      syscall_nr = syscall_nr;
      comm = comm;
      payload = zero_payload;
    },
    46 + max_comm_len,
  )

pub decode_event : Bytes → Decoded ScarletEvent
decode_event bytes = if ltb (length bytes) 64 then fail (too_short (length bytes)) else (do
  (e, offset) ← decode_header bytes
  payload ← decode_payload e.category bytes offset
  ok (record e { payload = payload }))
