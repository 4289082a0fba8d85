-- ===== src/Ebpf/Fields.antt =====
-- The event type and category names, the accessors of `ScarletEvent` and the tables of known paths, ports,
-- addresses and programs of pkg/ebpf/types.go. A text is a byte list.
use container_runtime_securi.Prelude.{
  ℕ, nat_comparable, string_comparable, bytes_comparable, ◌==◌, Bool, false, not, ◌||◌, none, some,
  List, [], ◌∷◌, ◌++◌, ltb, if◌then◌else◌, get_elem?,
}
use container_runtime_securi.Prelude.GoMap
use container_runtime_securi.Prelude.GoMap.{GoMap}
use container_runtime_securi.Prelude.Members.{is_member}
use container_runtime_securi.Prelude.Slices.{Bytes}
use container_runtime_securi.Prelude.Text.{codes, has_prefix, decimal}
use container_runtime_securi.Ebpf.Event.{
  ScarletEvent, cat_process, cat_file, cat_network, cat_escape, cat_privilege, cat_credential,
}

abbrev pub category_name : GoMap ℕ Bytes
category_name =
    (cat_process, codes "PROCESS")
    ∷ (cat_file, codes "FILE")
    ∷ (cat_network, codes "NETWORK")
    ∷ (cat_escape, codes "ESCAPE")
    ∷ (cat_privilege, codes "PRIVILEGE")
    ∷ (cat_credential, codes "CREDENTIAL")
    ∷ []

abbrev pub evt_exec : ℕ
evt_exec = 1

abbrev pub evt_fork : ℕ
evt_fork = 2

abbrev pub evt_exit : ℕ
evt_exit = 3

abbrev pub evt_file_open : ℕ
evt_file_open = 10

abbrev pub evt_file_unlink : ℕ
evt_file_unlink = 11

abbrev pub evt_file_memfd : ℕ
evt_file_memfd = 12

abbrev pub evt_file_rename : ℕ
evt_file_rename = 13

abbrev pub evt_net_connect : ℕ
evt_net_connect = 20

abbrev pub evt_net_listen : ℕ
evt_net_listen = 21

abbrev pub evt_net_state : ℕ
evt_net_state = 22

abbrev pub evt_net_udp : ℕ
evt_net_udp = 23

abbrev pub evt_setns : ℕ
evt_setns = 30

abbrev pub evt_unshare : ℕ
evt_unshare = 31

abbrev pub evt_mount : ℕ
evt_mount = 32

abbrev pub evt_ptrace : ℕ
evt_ptrace = 33

abbrev pub evt_module_load : ℕ
evt_module_load = 34

abbrev pub evt_bpf_load : ℕ
evt_bpf_load = 35

abbrev pub evt_setuid : ℕ
evt_setuid = 40

abbrev pub evt_setresuid : ℕ
evt_setresuid = 41

abbrev pub evt_capset : ℕ
evt_capset = 42

abbrev pub evt_chmod : ℕ
evt_chmod = 43

abbrev pub evt_cred_access : ℕ
evt_cred_access = 50

abbrev pub event_type_name : GoMap ℕ Bytes
event_type_name =
    (evt_exec, codes "EXEC")
    ∷ (evt_fork, codes "FORK")
    ∷ (evt_exit, codes "EXIT")
    ∷ (evt_file_open, codes "FILE_OPEN")
    ∷ (evt_file_unlink, codes "FILE_UNLINK")
    ∷ (evt_file_memfd, codes "FILE_MEMFD")
    ∷ (evt_file_rename, codes "FILE_RENAME")
    ∷ (evt_net_connect, codes "NET_CONNECT")
    ∷ (evt_net_listen, codes "NET_LISTEN")
    ∷ (evt_net_state, codes "NET_STATE")
    ∷ (evt_net_udp, codes "NET_UDP")
    ∷ (evt_setns, codes "SETNS")
    ∷ (evt_unshare, codes "UNSHARE")
    ∷ (evt_mount, codes "MOUNT")
    ∷ (evt_ptrace, codes "PTRACE")
    ∷ (evt_module_load, codes "MODULE_LOAD")
    ∷ (evt_bpf_load, codes "BPF_LOAD")
    ∷ (evt_setuid, codes "SETUID")
    ∷ (evt_setresuid, codes "SETRESUID")
    ∷ (evt_capset, codes "CAPSET")
    ∷ (evt_chmod, codes "CHMOD")
    ∷ (evt_cred_access, codes "CRED_ACCESS")
    ∷ []

-- `UNKNOWN(%d)` for a key that the table does not have.
unfoldable pub name_of : GoMap ℕ Bytes → ℕ → Bytes
name_of names key = elim (GoMap.get names key) [
  | none ↦ codes "UNKNOWN(" ++ (decimal key ++ codes ")")
  | some name ↦ name
]

unfoldable pub category_string : ScarletEvent → Bytes
category_string e = name_of category_name e.category

unfoldable pub event_type_string : ScarletEvent → Bytes
event_type_string e = name_of event_type_name e.event_type

-- `nullTerminatedString`: the bytes before the first zero.
unfoldable pub null_terminated : Bytes → Bytes
null_terminated [] = []
null_terminated (b ∷ bs) = let rest = null_terminated bs in if b == 0 then [] else b ∷ rest

unfoldable pub comm_string : ScarletEvent → Bytes
comm_string e = null_terminated e.comm

unfoldable pub filename : ScarletEvent → Bytes
filename e = null_terminated e.payload.process.filename

unfoldable pub args : ScarletEvent → Bytes
args e = null_terminated e.payload.process.args

unfoldable pub file_path : ScarletEvent → Bytes
file_path e = null_terminated e.payload.file.path

unfoldable pub byte_at : Bytes → ℕ → ℕ
byte_at bs i = elim (get_elem? bs i) [ none ↦ 0 | some b ↦ b ]

-- `%d.%d.%d.%d` of the first four bytes.
unfoldable pub dotted_quad : Bytes → Bytes
dotted_quad addr =
    decimal (byte_at addr 0)
    ++ (codes "."
        ++ (decimal (byte_at addr 1)
            ++ (codes "."
                ++ (decimal (byte_at addr 2) ++ (codes "." ++ decimal (byte_at addr 3))))))

unfoldable pub remote_ip : ScarletEvent → Bytes
remote_ip e = dotted_quad e.payload.network.remote_addr

unfoldable pub local_ip : ScarletEvent → Bytes
local_ip e = dotted_quad e.payload.network.local_addr

unfoldable pub remote_port : ScarletEvent → ℕ
remote_port e = e.payload.network.remote_port

unfoldable pub local_port : ScarletEvent → ℕ
local_port e = e.payload.network.local_port

unfoldable pub is_container : ScarletEvent → Bool
is_container e = ltb 0 e.pid_ns_level

unfoldable pub is_host : ScarletEvent → Bool
is_host e = e.pid_ns_level == 0

abbrev pub sensitive_paths : List Bytes
sensitive_paths =
    codes "/etc/shadow"
    ∷ codes "/etc/passwd"
    ∷ codes "/etc/sudoers"
    ∷ codes "/root/.ssh"
    ∷ codes "/root/.ssh/"
    ∷ codes "/var/run/docker.sock"
    ∷ codes "/proc/1/ns"
    ∷ codes "/proc/1/environ"
    ∷ codes "/proc/1/maps"
    ∷ codes "/proc/kallsyms"
    ∷ codes "/proc/self/exe"
    ∷ codes "/proc/self/fd"
    ∷ codes "/var/run/secrets/kubernetes.io/"
    ∷ []

unfoldable pub starts_with_any : List Bytes → Bytes → Bool
starts_with_any [] path = false
starts_with_any (prefix ∷ prefixes) path = has_prefix path prefix || starts_with_any prefixes path

unfoldable pub is_sensitive_path : Bytes → Bool
is_sensitive_path path = starts_with_any sensitive_paths path

unfoldable pub event_is_sensitive_path : ScarletEvent → Bool
event_is_sensitive_path e =
    if not (e.category == cat_file) then false else is_sensitive_path (file_path e)

abbrev pub miner_pool_ports : List ℕ
miner_pool_ports =
    25 ∷ 3333 ∷ 3334 ∷ 3335 ∷ 3336 ∷ 3357 ∷ 4444 ∷ 5555 ∷ 5556 ∷ 5588 ∷ 5730 ∷ 6099 ∷ 6666 ∷ 7777
    ∷ 7778 ∷ 8333 ∷ 8888 ∷ 8899 ∷ 9332 ∷ 9999 ∷ 14433 ∷ 14444 ∷ 45560 ∷ 45700 ∷ []

unfoldable pub is_miner_pool_port : ℕ → Bool
is_miner_pool_port port = is_member miner_pool_ports port

abbrev pub c2_ports : List ℕ
c2_ports = 4444 ∷ 1337 ∷ 31337 ∷ 6666 ∷ 8080 ∷ 9001 ∷ 1234 ∷ 4443 ∷ []

unfoldable pub is_c2_port : ℕ → Bool
is_c2_port port = is_member c2_ports port

abbrev pub cloud_metadata_ips : List Bytes
cloud_metadata_ips = codes "169.254.169.254" ∷ codes "168.63.129.16" ∷ []

unfoldable pub is_cloud_metadata_ip : Bytes → Bool
is_cloud_metadata_ip ip = is_member cloud_metadata_ips ip

abbrev pub shell_binaries : List Bytes
shell_binaries =
    codes "bash"
    ∷ codes "sh"
    ∷ codes "zsh"
    ∷ codes "dash"
    ∷ codes "ksh"
    ∷ codes "tcsh"
    ∷ codes "fish"
    ∷ codes "csh"
    ∷ []

unfoldable pub is_shell_process : Bytes → Bool
is_shell_process comm = is_member shell_binaries comm

abbrev pub miner_binaries : List Bytes
miner_binaries =
    codes "xmrig"
    ∷ codes "ccminer"
    ∷ codes "t-rex"
    ∷ codes "nanominer"
    ∷ codes "pwnrig"
    ∷ codes "minerd"
    ∷ codes "xmr-stak"
    ∷ codes "cpuminer"
    ∷ codes "cgminer"
    ∷ codes "bfgminer"
    ∷ codes "claymore"
    ∷ codes "ethminer"
    ∷ codes "phoenixminer"
    ∷ codes "nbminer"
    ∷ codes "lolMiner"
    ∷ []

unfoldable pub is_miner_process : Bytes → Bool
is_miner_process comm = is_member miner_binaries comm
