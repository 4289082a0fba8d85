-- ===== src/Ebpf/Event.antt =====
-- The event record of pkg/ebpf/types.go, with its payloads. A fixed array of bytes is a byte list.
use container_runtime_securi.Prelude.{ℕ, List, replicate}
use container_runtime_securi.Prelude.Slices.{Bytes}

pub record ProcessPayload : Type 0 where
  pub filename : Bytes
  pub args : Bytes

pub record FilePayload : Type 0 where
  pub path : Bytes
  pub flags : ℕ
  pub mode : ℕ

pub record NetworkPayload : Type 0 where
  pub local_addr : Bytes
  pub remote_addr : Bytes
  pub local_port : ℕ
  pub remote_port : ℕ
  pub protocol : ℕ
  pub family : ℕ

pub record EscapePayload : Type 0 where
  pub ns_type : ℕ
  pub target_ns : List ℕ
  pub ns_count : ℕ

pub record PrivilegePayload : Type 0 where
  pub old_uid : ℕ
  pub new_uid : ℕ
  pub capability : ℕ
  pub mode_flags : ℕ

pub record EventPayload : Type 0 where
  pub process : ProcessPayload
  pub file : FilePayload
  pub network : NetworkPayload
  pub escape : EscapePayload
  pub privilege : PrivilegePayload

pub record ScarletEvent : Type 0 where
  pub timestamp_ns : ℕ
  pub pid : ℕ
  pub tgid : ℕ
  pub ppid : ℕ
  pub uid : ℕ
  pub gid : ℕ
  pub cgroup_id : ℕ
  pub pid_ns_level : ℕ
  pub category : ℕ
  pub event_type : ℕ
  pub syscall_nr : ℕ
  pub comm : Bytes
  pub payload : EventPayload

abbrev pub cat_process : ℕ
cat_process = 1

abbrev pub cat_file : ℕ
cat_file = 2

abbrev pub cat_network : ℕ
cat_network = 3

abbrev pub cat_escape : ℕ
cat_escape = 4

abbrev pub cat_privilege : ℕ
cat_privilege = 5

abbrev pub cat_credential : ℕ
cat_credential = 6

abbrev pub max_comm_len : ℕ
max_comm_len = 16

abbrev pub max_path_len : ℕ
max_path_len = 256

abbrev pub max_args_len : ℕ
max_args_len = 128

-- The zero value of the payload union.
unfoldable pub zero_payload : EventPayload
zero_payload = record {
  process = record { filename = replicate max_path_len 0; args = replicate max_args_len 0 };
  file = record { path = replicate max_path_len 0; flags = 0; mode = 0 };
  network = record {
    local_addr = replicate 4 0;
    remote_addr = replicate 4 0;
    local_port = 0;
    remote_port = 0;
    protocol = 0;
    family = 0;
  };
  escape = record { ns_type = 0; target_ns = replicate 8 0; ns_count = 0 };
  privilege = record { old_uid = 0; new_uid = 0; capability = 0; mode_flags = 0 };
}
