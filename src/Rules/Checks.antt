-- ===== src/Rules/Checks.antt =====
-- The compiled checks and expressions of pkg/rules/compiler.go. A closure over an event is a function of the event.
-- Where the code reads the first value of a check, the parser of conditions has given it one; here no value is the
-- empty text.
use container_runtime_securi.Prelude.{
  ℕ, nat_comparable, string_comparable, bytes_comparable, ◌==◌, ◌/◌, ◌%◌, Bool, true, false, not,
  ◌&&◌, ◌||◌, List, [], ◌∷◌, map, if◌then◌else◌,
}
use container_runtime_securi.Prelude.Members.{is_member}
use container_runtime_securi.Prelude.Slices.{Bytes}
use container_runtime_securi.Prelude.Text.{
  codes, has_prefix, contains, to_lower, trim_space, decimal,
}
use container_runtime_securi.Ebpf.Event.{cat_file, cat_network}
use container_runtime_securi.Ebpf.Fields.{
  comm_string, filename, args, file_path, remote_ip, remote_port, starts_with_any,
  event_is_sensitive_path, is_miner_pool_port, is_cloud_metadata_ip, is_shell_process,
  is_miner_process, evt_exec, evt_fork, evt_exit, evt_file_open, evt_file_unlink, evt_file_memfd,
  evt_file_rename, evt_net_connect, evt_net_listen, evt_net_udp, evt_setns, evt_unshare, evt_mount,
  evt_ptrace, evt_module_load, evt_bpf_load, evt_setuid, evt_capset, evt_chmod,
}
use container_runtime_securi.Rules.Types.{EnrichedEventForRule}

pub record ConditionCheck : Type 0 where
  pub field : Bytes
  pub op : Bytes
  pub values : List Bytes

pub data ConditionExpr : Type 0 where
  and_expr : ConditionExpr → ConditionExpr → ConditionExpr
  or_expr : ConditionExpr → ConditionExpr → ConditionExpr
  not_expr : ConditionExpr → ConditionExpr
  leaf : ConditionCheck → ConditionExpr

abbrev pub first_value : List Bytes → Bytes
first_value [] = []
first_value (v ∷ values) = v

-- `len(check.Values) > 0 && check.Values[0] == text`
abbrev pub first_is : ConditionCheck → Bytes → Bool
first_is check text = elim check.values [ [] ↦ false | v ∷ values ↦ v == text ]

-- A case of a switch on texts.
abbrev pub is_one_of : Bytes → List Bytes → Bool
is_one_of text cases = is_member cases text

unfoldable pub syscall_to_event_type : Bytes → ℕ
syscall_to_event_type text =
    let name = to_lower (trim_space text) in
    if is_one_of name (codes "execve" ∷ codes "execveat" ∷ [])
    then evt_exec
    else if is_one_of name (codes "fork" ∷ codes "clone" ∷ codes "clone3" ∷ [])
    then evt_fork
    else if is_one_of name (codes "exit" ∷ codes "exit_group" ∷ [])
    then evt_exit
    else if is_one_of name (codes "open" ∷ codes "openat" ∷ codes "openat2" ∷ codes "creat" ∷ [])
    then evt_file_open
    else if is_one_of name (codes "unlinkat" ∷ codes "unlink" ∷ [])
    then evt_file_unlink
    else if name == codes "memfd_create"
    then evt_file_memfd
    else if is_one_of name (codes "renameat" ∷ codes "renameat2" ∷ codes "rename" ∷ [])
    then evt_file_rename
    else if is_one_of name (codes "connect" ∷ codes "sendto" ∷ codes "sendmsg" ∷ [])
    then evt_net_connect
    else if name == codes "listen"
    then evt_net_listen
    else if name == codes "setns"
    then evt_setns
    else if name == codes "unshare"
    then evt_unshare
    else if name == codes "mount"
    then evt_mount
    else if name == codes "ptrace"
    then evt_ptrace
    else if is_one_of name (codes "init_module" ∷ codes "finit_module" ∷ [])
    then evt_module_load
    else if name == codes "bpf"
    then evt_bpf_load
    else if is_one_of name (codes "setuid" ∷ codes "setresuid" ∷ [])
    then evt_setuid
    else if name == codes "capset"
    then evt_capset
    else if is_one_of name (codes "chmod" ∷ codes "fchmodat" ∷ codes "fchmod" ∷ [])
    then evt_chmod
    else if is_one_of name (codes "dup2" ∷ codes "dup3" ∷ codes "dup" ∷ [])
    then evt_net_connect
    else 0

-- The event types of the known names in a list.
unfoldable pub known_types : List Bytes → List ℕ
known_types [] = []
known_types (v ∷ values) =
    let rest = known_types values in
    let et = syscall_to_event_type v in if not (et == 0) then et ∷ rest else rest

unfoldable pub event_type_check : ConditionCheck → EnrichedEventForRule → Bool
event_type_check check event =
    if check.op == codes "="
    then elim check.values [
      | [] ↦ false
      | v ∷ values ↦
          if not (syscall_to_event_type v == 0)
          then syscall_to_event_type v == event.raw.event_type
          else false
    ]
    else if check.op == codes "in"
    then is_member (known_types check.values) event.raw.event_type
    else check.op == codes "any"

unfoldable pub macro_check : ConditionCheck → EnrichedEventForRule → Bool
macro_check check event =
    let raw = event.raw in
    if check.field == codes "spawned_process"
    then raw.event_type == evt_exec
    else if check.field == codes "setns_call"
    then raw.event_type == evt_setns
    else if check.field == codes "net_outbound"
    then raw.category == cat_network
      && (raw.event_type == evt_net_connect || raw.event_type == evt_net_udp)
    else if check.field == codes "shell_procs"
    then is_shell_process (comm_string raw)
    else if check.field == codes "miner_procs"
    then is_miner_process (comm_string raw)
    else if check.field == codes "minerpool_connection"
    then if not (raw.category == cat_network) then false else is_miner_pool_port (remote_port raw)
    else if check.field == codes "sensitive_file_read"
    then raw.category == cat_file && event_is_sensitive_path raw
    else if check.field == codes "cloud_metadata_access"
    then if not (raw.category == cat_network) then false else is_cloud_metadata_ip (remote_ip raw)
    else if check.field == codes "open_write"
    then if not (raw.category == cat_file) || not (raw.event_type == evt_file_open)
      then false
      else not (raw.payload.file.flags % 2 == 0) || not (raw.payload.file.flags / 2 % 2 == 0)
    else false

unfoldable pub contains_any : Bytes → List Bytes → Bool
contains_any text [] = false
contains_any text (v ∷ values) = contains text (to_lower v) || contains_any text values

unfoldable pub any_open_flag : ℕ → List Bytes → Bool
any_open_flag flags [] = false
any_open_flag flags (v ∷ values) =
    let rest = any_open_flag flags values in
    if to_lower v == codes "o_wronly" && not (flags % 2 == 0)
    then true
    else if to_lower v == codes "o_rdwr" && not (flags / 2 % 2 == 0)
    then true
    else rest

-- The bits 04000 and 02000 of the mode.
unfoldable pub any_mode_flag : ℕ → List Bytes → Bool
any_mode_flag mode_flags [] = false
any_mode_flag mode_flags (v ∷ values) =
    let rest = any_mode_flag mode_flags values in
    if contains (to_lower v) (codes "s_isuid") && not (mode_flags / 2048 % 2 == 0)
    then true
    else if contains (to_lower v) (codes "s_isgid") && not (mode_flags / 1024 % 2 == 0)
    then true
    else rest

unfoldable pub field_check : Bytes → ConditionCheck → EnrichedEventForRule → Bool
field_check field check event =
    let raw = event.raw in
    let value_set = map to_lower check.values in
    let first = first_value check.values in
    if field == codes "proc.name"
    then if check.op == codes "in"
      then is_member value_set (to_lower (comm_string raw))
      else if check.op == codes "contains"
      then contains (to_lower (comm_string raw)) first
      else false
    else if field == codes "proc.cmdline"
    then contains_any (to_lower (args raw)) check.values
    else if field == codes "proc.exe"
    then if check.op == codes "startswith"
      then has_prefix (filename raw) first
      else if check.op == codes "contains"
      then contains (to_lower (filename raw)) first
      else false
    else if field == codes "proc.cwd"
    then if check.op == codes "startswith" then has_prefix (filename raw) first else false
    else if field == codes "fd.rport"
    then if check.op == codes "in"
      then is_member value_set (decimal (remote_port raw))
      else if check.op == codes "not_in"
      then not (is_member value_set (decimal (remote_port raw)))
      else if check.op == codes "="
      then decimal (remote_port raw) == first
      else false
    else if field == codes "fd.rip" || field == codes "fd.rip.name"
    then if check.op == codes "in"
      then is_member value_set (remote_ip raw)
      else if check.op == codes "not_in"
      then not (is_member value_set (remote_ip raw))
      else if check.op == codes "contains"
      then contains (remote_ip raw) first
      else false
    else if field == codes "fd.name"
    then if check.op == codes "pmatch"
      then starts_with_any check.values (file_path raw)
      else if check.op == codes "contains"
      then contains (file_path raw) first
      else false
    else if field == codes "evt.arg.nstype"
    then if check.op == codes "="
      then decimal raw.payload.escape.ns_type == first
      else if check.op == codes "in"
      then is_member value_set (decimal raw.payload.escape.ns_type)
      else false
    else if field == codes "evt.arg.flags"
    then any_open_flag raw.payload.file.flags check.values
    else if field == codes "evt.arg.mode"
    then any_mode_flag raw.payload.privilege.mode_flags check.values
    else false

abbrev pub is_attributed : EnrichedEventForRule → Bool
is_attributed event = event.container_attributed && not (event.container_id == [])

unfoldable pub single_check : ConditionCheck → EnrichedEventForRule → Bool
single_check check event =
    let field = check.field in
    if field == codes "container"
    then is_attributed event
    else if field == codes "evt.type"
    then event_type_check check event
    else if is_one_of field (
        codes "spawned_process"
        ∷ codes "setns_call"
        ∷ codes "net_outbound"
        ∷ codes "open_write"
        ∷ codes "minerpool_connection"
        ∷ codes "sensitive_file_read"
        ∷ codes "cloud_metadata_access"
        ∷ codes "shell_procs"
        ∷ codes "miner_procs"
        ∷ [])
    then macro_check check event
    else if field == codes "container.id"
    then if check.op == codes "!=" && first_is check (codes "host")
      then is_attributed event
      else false
    else if is_one_of field (
        codes "proc.name"
        ∷ codes "proc.cmdline"
        ∷ codes "proc.exe"
        ∷ codes "proc.cwd"
        ∷ codes "fd.rport"
        ∷ codes "fd.name"
        ∷ codes "evt.arg.flags"
        ∷ codes "evt.arg.mode"
        ∷ codes "evt.arg.nstype"
        ∷ [])
    then field_check field check event
    else if is_one_of field (codes "fd.rip" ∷ codes "fd.rip.name" ∷ [])
    then field_check (codes "fd.rip") check event
    else if field == codes "fd.type"
    then if check.op == codes "="
      then if first_is check (codes "socket")
        then event.raw.category == cat_network
        else if first_is check (codes "file")
        then event.raw.category == cat_file
        else false
      else false
    else if field == codes "evt.is_open_exec"
    then event.raw.category == cat_file && not (event.raw.payload.file.flags % 2 == 0)
    else if field == codes "evt.dir"
    then check.op == codes "=" && first_is check (codes "<")
    else if field == codes "passthrough"
    then check.op == codes "true"
    else false

-- `compileExpr`
unfoldable pub compile_expr : ConditionExpr → EnrichedEventForRule → Bool
compile_expr (and_expr left right) event = compile_expr left event && compile_expr right event
compile_expr (or_expr left right) event = compile_expr left event || compile_expr right event
compile_expr (not_expr inner) event = not (compile_expr inner event)
compile_expr (leaf check) event = single_check check event
