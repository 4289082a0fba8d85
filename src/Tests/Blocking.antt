-- ===== src/Tests/Blocking.antt =====
-- Tests of the network enforcer.
use container_runtime_securi.Prelude.{
  nat_comparable, string_comparable, bytes_comparable, ◌^◌, ◌≤◌, ◌<◌, ◌≡◌, refl, true, false, some,
  List, [], ◌∷◌, arith,
}
use container_runtime_securi.Network.{
  Quad, Ip, NetworkEnforcer, new_network_enforcer, set_tc_loader, ip_to_uint32, uint32_to_ip,
  block_with_ttl, is_active, is_blocked,
}
use container_runtime_securi.Network.Blocking.{uint32_to_ip-ip_to_uint32, is_blocked-block_with_ttl}
use container_runtime_securi.Network.Kernel.{
  Op, block, lift, expire, run, IsMirrored, run_new-IsMirrored,
}

abbrev quad : Quad
quad = record { b0 = 169; b1 = 254; b2 = 169; b3 = 254 }

abbrev metadata_ip : Ip
metadata_ip = record { to4 = some quad; is_unspecified = false }

uint32_to_ip-ip_to_uint32_example :
    (uint32_to_ip (ip_to_uint32 metadata_ip) ≡ quad) × (ip_to_uint32 metadata_ip < 2 ^ 32)
uint32_to_ip-ip_to_uint32_example =
    uint32_to_ip-ip_to_uint32 quad false (omega arith) (omega arith) (omega arith) (omega arith)

abbrev fresh : NetworkEnforcer
fresh = set_tc_loader new_network_enforcer true

accepted : (block_with_ttl fresh metadata_ip 80 0 "R019" "ssrf" 30 100).1 ≡ true
unfolding block_with_ttl ip_to_uint32
accepted = refl

is_blocked-block_with_ttl_example :
    (110 < 130
      → is_blocked
          (block_with_ttl fresh metadata_ip 80 0 "R019" "ssrf" 30 100).0
          metadata_ip
          80
          0
          110
        ≡ true)
    × (130 ≤ 110
        → is_active
            (block_with_ttl fresh metadata_ip 80 0 "R019" "ssrf" 30 100).0
            (ip_to_uint32 metadata_ip, (80, 0))
            110
          ≡ false)
is_blocked-block_with_ttl_example =
    is_blocked-block_with_ttl fresh metadata_ip 80 0 "R019" "ssrf" 30 100 110 accepted

abbrev ops : List Op
ops = block metadata_ip 80 0 "R019" "ssrf" 30 100 ∷ expire 120 ∷ lift metadata_ip 80 0 ∷ []

run_new-IsMirrored_example : IsMirrored (run fresh ops)
run_new-IsMirrored_example = run_new-IsMirrored ops
