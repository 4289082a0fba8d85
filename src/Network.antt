-- ===== src/Network.antt =====
-- The network enforcer of pkg/enforcement/network.go. `net.IP` is what the code asks of it: the four bytes
-- that `To4` gives, if any, and `IsUnspecified`. The calls of the kernel-side updater are recorded, the
-- newest first; their errors are only logged in the source. Start, Stop and the logs are left out.
pub mod Blocking
pub mod Kernel
use container_runtime_securi.Prelude.{
  ℕ, zero, suc, nat_comparable, string_comparable, bytes_comparable, Comparable, ◌==◌, ==_iff,
  ==_refl, bytes_beq, bytes_beq_iff, String, ◌<>◌, ◌+◌, ◌-◌, ◌*◌, ◌/◌, ◌%◌, ◌^◌, ◌≤◌, ◌<◌, ◌≡◌,
  refl, sym, ap, ◌∙◌, ◌≢◌, ◌↔◌, ◌⊎◌, inl, inr, Bool, true, false, not, ◌&&◌, ◌||◌, Option, none,
  some, List, [], ◌∷◌, ◌++◌, map, arith, ltb, leb, if◌then◌else◌, Bool-cases, Option-cases, length,
  get_elem?, take, drop, replicate, keep_if, length-append, take-append-drop, length-take,
  length-drop, take_append_left, drop_append_left, length-keep_if-le, drop_behind, get_elem?_behind,
  AllOf, append-AllOf, split-AllOf,
}
use container_runtime_securi.Prelude.{pair_comparable}
use container_runtime_securi.Prelude.GoMap
use container_runtime_securi.Prelude.GoMap.{GoMap}
use container_runtime_securi.Pipeline.AuditLog.{increment}

abbrev pub protocol_any : ℕ
protocol_any = 0

abbrev pub protocol_tcp : ℕ
protocol_tcp = 6

abbrev pub block_type_combined : ℕ
block_type_combined = 4

-- Four bytes, the first of the address first.
pub record Quad : Type 0 where
  pub b0 : ℕ
  pub b1 : ℕ
  pub b2 : ℕ
  pub b3 : ℕ

pub record Ip : Type 0 where
  pub to4 : Option Quad
  pub is_unspecified : Bool

-- `IPToUint32`: shifts and `|` of disjoint bytes are a sum.
unfoldable pub ip_to_uint32 : Ip → ℕ
ip_to_uint32 ip = elim ip.to4 [
  | none ↦ 0
  | some q ↦ q.b0 * 2 ^ 24 + q.b1 * 2 ^ 16 + q.b2 * 2 ^ 8 + q.b3
]

unfoldable pub uint32_to_ip : ℕ → Quad
uint32_to_ip n = record {
  b0 = n / 2 ^ 24 % 2 ^ 8;
  b1 = n / 2 ^ 16 % 2 ^ 8;
  b2 = n / 2 ^ 8 % 2 ^ 8;
  b3 = n % 2 ^ 8;
}

pub record BlocklistEntry : Type 0 where
  pub dest_ip : Ip
  pub dest_port : ℕ
  pub protocol : ℕ
  pub block_type : ℕ
  pub rule_id : String
  pub reason : String
  pub ttl : ℕ
  pub added_at : ℕ
  pub expires_at : ℕ

-- Destination address, destination port and protocol.
abbrev pub BlocklistKey : Type 0
BlocklistKey = ℕ × (ℕ × ℕ)

pub data KernelCall : Type 0 where
  update_entry : BlocklistKey → KernelCall
  delete_entry : BlocklistKey → KernelCall

pub record NetworkEnforcer : Type 0 where
  pub entries : GoMap BlocklistKey BlocklistEntry
  pub default_ttl : ℕ
  pub has_tc_loader : Bool
  pub blocks_added : GoMap String ℕ
  pub blocks_expired : ℕ
  pub blocks_removed : ℕ
  pub calls : List KernelCall

abbrev pub minute : ℕ
minute = 60 * 1000000000

unfoldable pub new_network_enforcer : NetworkEnforcer
new_network_enforcer = record {
  entries = [];
  default_ttl = 5 * minute;
  has_tc_loader = false;
  blocks_added = [];
  blocks_expired = 0;
  blocks_removed = 0;
  calls = [];
}

unfoldable pub set_tc_loader : NetworkEnforcer → Bool → NetworkEnforcer
set_tc_loader ne loader = record ne { has_tc_loader = loader }

-- `updateBPFMap` and `deleteFromBPFMap`: without a loader there is only a log line.
unfoldable pub call_loader : NetworkEnforcer → KernelCall → List KernelCall
call_loader ne call = if ne.has_tc_loader then call ∷ ne.calls else ne.calls

unfoldable pub new_entry : Ip → ℕ → ℕ → String → String → ℕ → ℕ → BlocklistEntry
new_entry ip port protocol rule_id reason ttl now = record {
  dest_ip = ip;
  dest_port = port;
  protocol = protocol;
  block_type = block_type_combined;
  rule_id = rule_id;
  reason = reason;
  ttl = ttl;
  added_at = now;
  expires_at = now + ttl;
}

-- `BlockWithTTL`: whether it succeeds, and the enforcer after it.
unfoldable pub block_with_ttl :
    NetworkEnforcer → Ip → ℕ → ℕ → String → String → ℕ → ℕ → NetworkEnforcer × Bool
block_with_ttl ne ip port protocol rule_id reason ttl now =
    let addr = ip_to_uint32 ip in
    let key : BlocklistKey = (addr, (port, protocol)) in
    if addr == 0 && not ip.is_unspecified then (ne, false) else (
      record ne {
        entries = GoMap.put ne.entries key (new_entry ip port protocol rule_id reason ttl now);
        blocks_added = increment ne.blocks_added rule_id;
        calls = call_loader ne (update_entry key);
      },
      true,
    )

unfoldable pub rule_ttl : NetworkEnforcer → String → ℕ
rule_ttl ne rule_id =
    if rule_id == "R009"
    then 10 * minute
    else if rule_id == "R027"
    then 5 * minute
    else if rule_id == "R019"
    then 30 * minute
    else ne.default_ttl

unfoldable pub block_from_rule :
    NetworkEnforcer → String → Ip → ℕ → ℕ → String → ℕ → NetworkEnforcer × Bool
block_from_rule ne rule_id ip port protocol reason now =
    block_with_ttl ne ip port protocol rule_id reason (rule_ttl ne rule_id) now

-- The branches of `Unblock`: a key without an entry changes nothing.
unfoldable pub unblock_found :
    NetworkEnforcer → BlocklistKey → Option BlocklistEntry → NetworkEnforcer
unblock_found ne key none = ne
unblock_found ne key (some entry) = record ne {
  entries = GoMap.delete ne.entries key;
  blocks_removed = ne.blocks_removed + 1;
  calls = call_loader ne (delete_entry key);
}

unfoldable pub unblock : NetworkEnforcer → Ip → ℕ → ℕ → NetworkEnforcer
unblock ne ip port protocol =
    let key : BlocklistKey = (ip_to_uint32 ip, (port, protocol)) in
    unblock_found ne key (GoMap.get ne.entries key)

-- An entry under the key that has not expired at `now`.
unfoldable pub is_active : NetworkEnforcer → BlocklistKey → ℕ → Bool
is_active ne key now = elim (GoMap.get ne.entries key) [
  | none ↦ false
  | some entry ↦ ltb now entry.expires_at
]

unfoldable pub is_blocked : NetworkEnforcer → Ip → ℕ → ℕ → ℕ → Bool
is_blocked ne ip port protocol now =
    let addr = ip_to_uint32 ip in
    is_active ne (addr, (port, protocol)) now
    || is_active ne (addr, (port, 0)) now
    || is_active ne (addr, (0, 0)) now
    || is_active ne (0, (port, protocol)) now
    || is_active ne (0, (port, 0)) now

-- The calls of the loop of `removeExpiredBlocks`, one for each entry that goes.
unfoldable pub expiry_calls :
    GoMap BlocklistKey BlocklistEntry → ℕ → List KernelCall → List KernelCall
expiry_calls [] now calls = calls
expiry_calls ((key, entry) ∷ rest) now calls =
    expiry_calls rest now (if ltb entry.expires_at now then delete_entry key ∷ calls else calls)

unfoldable pub remove_expired_blocks : NetworkEnforcer → ℕ → NetworkEnforcer
remove_expired_blocks ne now =
    let kept = GoMap.delete_if (λ key entry. ltb entry.expires_at now) ne.entries in
    record ne {
      entries = kept;
      blocks_expired = ne.blocks_expired + (length ne.entries - length kept);
      calls = if ne.has_tc_loader then expiry_calls ne.entries now ne.calls else ne.calls;
    }
