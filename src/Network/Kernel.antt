-- ===== src/Network/Kernel.antt =====
-- The calls that the network enforcer makes to the kernel-side updater (pkg/enforcement/network.go).
use container_runtime_securi.Prelude.{
  ℕ, nat_comparable, string_comparable, bytes_comparable, ◌==◌, ==_iff, String, ◌≡◌, refl, inl, inr,
  Bool, true, false, not, ◌&&◌, ◌||◌, Option, none, some, List, [], ◌∷◌, arith, ltb, if◌then◌else◌,
  Bool-cases,
}
use container_runtime_securi.Prelude.{pair_comparable}
use container_runtime_securi.Prelude.GoMap
use container_runtime_securi.Prelude.GoMap.{
  GoMap, IsMap, get-put, get-delete, get-delete_if, put-IsMap, delete-IsMap, delete_if-IsMap,
}
use container_runtime_securi.Network.{
  Ip, ip_to_uint32, BlocklistEntry, BlocklistKey, KernelCall, update_entry, delete_entry,
  NetworkEnforcer, call_loader, new_entry, block_with_ttl, unblock_found, unblock, expiry_calls,
  remove_expired_blocks, new_network_enforcer, set_tc_loader,
}

-- Whether the kernel's map holds the key after these calls, the newest first, all of which succeeded.
unfoldable pub in_kernel : List KernelCall → BlocklistKey → Bool
in_kernel [] key = false
in_kernel (update_entry k ∷ calls) key = k == key || in_kernel calls key
in_kernel (delete_entry k ∷ calls) key = not (k == key) && in_kernel calls key

abbrev pub has_entry : GoMap BlocklistKey BlocklistEntry → BlocklistKey → Bool
has_entry m key = elim (GoMap.get m key) [ none ↦ false | some entry ↦ true ]

-- There is a loader, the entries are a map, and the kernel holds the same keys.
pub record IsMirrored (ne : NetworkEnforcer) : Type 0 where
  pub loader : ne.has_tc_loader ≡ true
  pub entries : IsMap ne.entries
  pub keys : (key : BlocklistKey) → in_kernel ne.calls key ≡ has_entry ne.entries key

-- The operations that change the entries.
pub data Op : Type 0 where
  block : Ip → ℕ → ℕ → String → String → ℕ → ℕ → Op
  lift : Ip → ℕ → ℕ → Op
  expire : ℕ → Op

unfoldable pub apply : NetworkEnforcer → Op → NetworkEnforcer
apply ne (block ip port protocol rule_id reason ttl now) =
    (block_with_ttl ne ip port protocol rule_id reason ttl now).0
apply ne (lift ip port protocol) = unblock ne ip port protocol
apply ne (expire now) = remove_expired_blocks ne now

unfoldable pub run : NetworkEnforcer → List Op → NetworkEnforcer
run ne [] = ne
run ne (op ∷ ops) = run (apply ne op) ops

empty_keys : (key : BlocklistKey) → in_kernel [] key ≡ has_entry [] key
unfolding in_kernel GoMap.get
empty_keys key = refl

put-keys :
    (m : GoMap BlocklistKey BlocklistEntry) (calls : List KernelCall) (k : BlocklistKey)
    (e : BlocklistEntry) (key : BlocklistKey)
    → in_kernel calls key ≡ has_entry m key
    → in_kernel (update_entry k ∷ calls) key ≡ has_entry (GoMap.put m k e) key
unfolding in_kernel
put-keys m calls k e key h = ground (arith, get-put m k key e)

delete-keys :
    (m : GoMap BlocklistKey BlocklistEntry) (calls : List KernelCall) (k key : BlocklistKey)
    → in_kernel calls key ≡ has_entry m key
    → in_kernel (delete_entry k ∷ calls) key ≡ has_entry (GoMap.delete m k) key
unfolding in_kernel
delete-keys m calls k key h = ground (arith, get-delete m k key)

block-IsMirrored :
    (ne : NetworkEnforcer) (ip : Ip) (port protocol : ℕ) (rule_id reason : String) (ttl now : ℕ)
    → IsMirrored ne
    → IsMirrored (block_with_ttl ne ip port protocol rule_id reason ttl now).0
unfolding block_with_ttl call_loader
block-IsMirrored ne ip port protocol rule_id reason ttl now h =
    let key : BlocklistKey = (ip_to_uint32 ip, (port, protocol)) in
    let e = new_entry ip port protocol rule_id reason ttl now in
    elim (Bool-cases (ip_to_uint32 ip == 0 && not ip.is_unspecified)) [
      | inl invalid ↦ rw invalid h
      | inr valid ↦
          rw (valid, h.loader)
            (record {
              loader = refl;
              entries = put-IsMap ne.entries key e h.entries;
              keys = λ k. put-keys ne.entries ne.calls key e k (h.keys k);
            })
    ]

unblock_found-IsMirrored :
    (ne : NetworkEnforcer) (key : BlocklistKey) (found : Option BlocklistEntry)
    → IsMirrored ne
    → IsMirrored (unblock_found ne key found)
unfolding unblock_found call_loader
unblock_found-IsMirrored ne key none h = h
unblock_found-IsMirrored ne key (some entry) h = rw h.loader (record {
  loader = refl;
  entries = delete-IsMap ne.entries key h.entries;
  keys = λ k. delete-keys ne.entries ne.calls key k (h.keys k);
})

in_kernel-expiry_calls :
    (m : GoMap BlocklistKey BlocklistEntry) (now : ℕ) (calls : List KernelCall) (key : BlocklistKey)
    → IsMap m
    → in_kernel (expiry_calls m now calls) key ≡ elim (GoMap.get m key) [
      | none ↦ in_kernel calls key
      | some e ↦ if ltb e.expires_at now then false else in_kernel calls key
    ]
unfolding expiry_calls in_kernel GoMap.get
in_kernel-expiry_calls [] now calls key h = refl
in_kernel-expiry_calls ((k, e) ∷ m) now calls key h = elim (Bool-cases (ltb e.expires_at now)) [
  | inl expired ↦ rw expired (
      ground
        (arith, in_kernel-expiry_calls m now (delete_entry k ∷ calls) key h.1, ==_iff k key, h.0))
  | inr live ↦
      rw live (ground (arith, in_kernel-expiry_calls m now calls key h.1, ==_iff k key, h.0))
]

expire-IsMirrored :
    (ne : NetworkEnforcer) (now : ℕ) → IsMirrored ne → IsMirrored (remove_expired_blocks ne now)
unfolding remove_expired_blocks
expire-IsMirrored ne now h =
    let sweep : BlocklistKey → BlocklistEntry → Bool = λ key entry. ltb entry.expires_at now in
    rw h.loader (record {
      loader = refl;
      entries = delete_if-IsMap sweep ne.entries h.entries;
      keys = λ key. ground (
        arith,
        in_kernel-expiry_calls ne.entries now ne.calls key h.entries,
        get-delete_if sweep ne.entries key h.entries,
        h.keys key,
      );
    })

apply-IsMirrored : (ne : NetworkEnforcer) (op : Op) → IsMirrored ne → IsMirrored (apply ne op)
unfolding apply unblock
apply-IsMirrored ne (block ip port protocol rule_id reason ttl now) h =
    block-IsMirrored ne ip port protocol rule_id reason ttl now h
apply-IsMirrored ne (lift ip port protocol) h =
    unblock_found-IsMirrored ne (ip_to_uint32 ip, (port, protocol))
      (GoMap.get ne.entries (ip_to_uint32 ip, (port, protocol))) h
apply-IsMirrored ne (expire now) h = expire-IsMirrored ne now h

run-IsMirrored : (ne : NetworkEnforcer) (ops : List Op) → IsMirrored ne → IsMirrored (run ne ops)
unfolding run
run-IsMirrored ne [] h = h
run-IsMirrored ne (op ∷ ops) h = run-IsMirrored (apply ne op) ops (apply-IsMirrored ne op h)

-- From a new enforcer with a loader, after any sequence of blocks, unblocks and expiry sweeps, the entries
-- hold each key once and the kernel's map, if every call of it succeeds, holds exactly their keys.
pub run_new-IsMirrored :
    (ops : List Op) → IsMirrored (run (set_tc_loader new_network_enforcer true) ops)
unfolding set_tc_loader new_network_enforcer
run_new-IsMirrored ops =
    run-IsMirrored (set_tc_loader new_network_enforcer true) ops
      (record { loader = refl; entries = tt; keys = λ key. empty_keys key })
