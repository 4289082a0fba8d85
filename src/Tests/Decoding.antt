-- ===== src/Tests/Decoding.antt =====
-- Tests of the event decoder.
use container_runtime_securi.Prelude.{
  nat_comparable, string_comparable, bytes_comparable, ◌≤◌, ◌<◌, ◌≡◌, refl, ◌⊎◌, [], arith,
  replicate,
}
use container_runtime_securi.Prelude.Outcome.{ok, fail}
use container_runtime_securi.Prelude.Slices.{Bytes}
use container_runtime_securi.Ebpf.Event.{ScarletEvent}
use container_runtime_securi.Ebpf.Decode.{too_short, decode_event}
use container_runtime_securi.Ebpf.Decode.RoundTrip.{
  Content, network, payload_of, event_bytes, decode_event-bytes,
}
use container_runtime_securi.Ebpf.Decode.Totality.{decode_event-total}
use container_runtime_securi.Tests.{raw_event, payload}

abbrev content : Content
content = network payload.network

abbrev connect : ScarletEvent
connect = record raw_event { category = 3; payload = payload_of content }

decode_event-bytes_example : decode_event (event_bytes connect content []) ≡ ok connect
decode_event-bytes_example =
    decode_event-bytes connect content []
      (record {
        timestamp_ns = omega arith;
        pid = omega arith;
        tgid = omega arith;
        ppid = omega arith;
        uid = omega arith;
        gid = omega arith;
        cgroup_id = omega arith;
        pid_ns_level = omega arith;
        category = omega arith;
        event_type = omega arith;
        syscall_nr = omega arith;
        comm = refl;
      })
      (refl, refl, omega arith, omega arith, omega arith, omega arith) refl refl

abbrev zeros : Bytes
zeros = replicate 63 0

decode_event-total_example :
    ((63 < 64) × (decode_event zeros ≡ fail (too_short 63)))
    ⊎ ((e : ScarletEvent) × (64 ≤ 63) × (decode_event zeros ≡ ok e))
decode_event-total_example = decode_event-total zeros
