-- ===== src/Network/Blocking.antt =====
-- Addresses and single blocks of the network enforcer (pkg/enforcement/network.go).
use container_runtime_securi.Prelude.{
  ℕ, nat_comparable, string_comparable, bytes_comparable, ==_refl, String, ◌+◌, ◌^◌, ◌≤◌, ◌<◌, ◌≡◌,
  refl, ap, ◌∙◌, Bool, true, false, some, arith, ltb,
}
use container_runtime_securi.Prelude.{pair_comparable}
use container_runtime_securi.Prelude.GoMap
use container_runtime_securi.Prelude.GoMap.{
  GoMap, IsMap, get-put, get-delete, get-delete_if, put-IsMap, delete-IsMap, delete_if-IsMap,
}
use container_runtime_securi.Network.{
  Quad, Ip, ip_to_uint32, uint32_to_ip, BlocklistEntry, BlocklistKey, NetworkEnforcer, new_entry,
  block_with_ttl, is_active, is_blocked,
}

abbrev pub IsByte : ℕ → Type 0
IsByte b = b < 2 ^ 8

-- From the number of an IPv4 address, whose four parts are bytes, `Uint32ToIP` gives back these bytes, and
-- the number is below 2^32.
pub uint32_to_ip-ip_to_uint32 :
    (q : Quad) (unspecified : Bool)
    → IsByte q.b0
    → IsByte q.b1
    → IsByte q.b2
    → IsByte q.b3
    → (uint32_to_ip (ip_to_uint32 (record { to4 = some q; is_unspecified = unspecified })) ≡ q)
      × (ip_to_uint32 (record { to4 = some q; is_unspecified = unspecified }) < 2 ^ 32)
unfolding uint32_to_ip ip_to_uint32
uint32_to_ip-ip_to_uint32 q unspecified h0 h1 h2 h3 = ground arith

block_with_ttl-entries :
    (ne : NetworkEnforcer) (ip : Ip) (port protocol : ℕ) (rule_id reason : String) (ttl now : ℕ)
    → (block_with_ttl ne ip port protocol rule_id reason ttl now).1 ≡ true
    → (block_with_ttl ne ip port protocol rule_id reason ttl now).0.entries
      ≡ GoMap.put ne.entries
          (ip_to_uint32 ip, (port, protocol))
          (new_entry ip port protocol rule_id reason ttl now)
unfolding block_with_ttl
block_with_ttl-entries ne ip port protocol rule_id reason ttl now h = ground arith

new_entry-expires_at :
    (ip : Ip) (port protocol : ℕ) (rule_id reason : String) (ttl now : ℕ)
    → (new_entry ip port protocol rule_id reason ttl now).expires_at ≡ now + ttl
unfolding new_entry
new_entry-expires_at ip port protocol rule_id reason ttl now = refl

is_active-put :
    (ne : NetworkEnforcer) (m : GoMap BlocklistKey BlocklistEntry) (key : BlocklistKey)
    (e : BlocklistEntry) (now : ℕ)
    → ne.entries ≡ GoMap.put m key e
    → is_active ne key now ≡ ltb now e.expires_at
unfolding is_active
is_active-put ne m key e now h = ground (arith, get-put m key key e, ==_refl key)

-- After a block that succeeds, its destination counts as blocked at every time before the TTL has passed,
-- and the entry under its own key is not active at any time from then on.
pub is_blocked-block_with_ttl :
    (ne : NetworkEnforcer) (ip : Ip) (port protocol : ℕ) (rule_id reason : String)
    (ttl now later : ℕ)
    → (block_with_ttl ne ip port protocol rule_id reason ttl now).1 ≡ true
    → (later < now + ttl
        → is_blocked
            (block_with_ttl ne ip port protocol rule_id reason ttl now).0
            ip
            port
            protocol
            later
          ≡ true)
      × (now + ttl ≤ later
          → is_active
              (block_with_ttl ne ip port protocol rule_id reason ttl now).0
              (ip_to_uint32 ip, (port, protocol))
              later
            ≡ false)
unfolding is_blocked
is_blocked-block_with_ttl ne ip port protocol rule_id reason ttl now later h =
    let key : BlocklistKey = (ip_to_uint32 ip, (port, protocol)) in
    let after = (block_with_ttl ne ip port protocol rule_id reason ttl now).0 in
    let active : is_active after key later ≡ ltb later (now + ttl) =
      is_active-put after ne.entries key (new_entry ip port protocol rule_id reason ttl now) later
        (block_with_ttl-entries ne ip port protocol rule_id reason ttl now h)
      ∙ ap (ltb later) (new_entry-expires_at ip port protocol rule_id reason ttl now) in
    (
      λ early. let now_active : is_active after key later ≡ true = ground arith in rw now_active,
      λ late. ground arith,
    )
