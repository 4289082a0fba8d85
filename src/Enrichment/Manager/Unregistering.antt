-- ===== src/Enrichment/Manager/Unregistering.antt =====
-- What the `Manager` of pkg/enrichment/container.go forgets when a container is unregistered.
use container_runtime_securi.Prelude.{
  ℕ, nat_comparable, string_comparable, bytes_comparable, ◌==◌, ==_iff, ◌≡◌, refl, ap, ◌∙◌, inl,
  inr, Bool, true, false, not, ◌&&◌, ◌||◌, Option, none, some, arith, if◌then◌else◌, Bool-cases,
}
use mathlib.Core.Path.{subst}
use container_runtime_securi.Prelude.GoMap
use container_runtime_securi.Prelude.GoMap.{GoMap, get-delete, get-delete_if, delete-IsMap}
use container_runtime_securi.Prelude.Slices.{Bytes}
use container_runtime_securi.Enrichment.Lru.{discard, touch, reap}
use container_runtime_securi.Enrichment.Lru.Links.{has_key-put_old, has_key-delete}
use container_runtime_securi.Enrichment.Manager.{
  CriCache, CriCacheEntry, Manager, get_container, delete_container, delete_container_found,
  is_known, unregister_container, prune_cgroup_map, reap_tick, container_found,
}

-- After the prune a cgroup maps to a container exactly if it did before and the CRI cache knows the container, if
-- the map holds each cgroup once.
prune_cgroup_map_lem :
    (m : Manager) (now cgroup_id : ℕ)
    → GoMap.IsMap m.cgroup_map
    → GoMap.get (prune_cgroup_map m now).cgroup_map cgroup_id
      ≡ elim (GoMap.get m.cgroup_map cgroup_id) [
        | none ↦ none
        | some container_id ↦ if is_known m.cri_cache container_id then some container_id else none
      ]
unfolding prune_cgroup_map
prune_cgroup_map_lem m now cgroup_id h =
    get-delete_if (λ i container_id. not (is_known m.cri_cache container_id)) m.cgroup_map cgroup_id
      h
    ∙ ground arith

is_known-container_found :
    (c : CriCache) (id other : Bytes) (now : ℕ) (found : Option CriCacheEntry)
    → GoMap.get c.lru.entries id ≡ found
    → is_known (container_found c id now found).0 other ≡ is_known c other
unfolding container_found touch
is_known-container_found c id other now none at = refl
is_known-container_found c id other now (some entry) at =
    has_key-put_old c.lru.entries id other (record entry { last_access = now })
      (ap (λ o. elim o [ none ↦ false | some held ↦ true ]) at)

is_known-delete_container_found :
    (c : CriCache) (id other : Bytes) (found : Option CriCacheEntry)
    → GoMap.get c.lru.entries id ≡ found
    → is_known (delete_container_found c id found) other
      ≡ (if id == other then false else is_known c other)
unfolding delete_container_found discard
is_known-delete_container_found c id other none at = elim (Bool-cases (id == other)) [
  | inl same ↦
      let gone = subst (λ i. GoMap.get c.lru.entries i ≡ none) ((==_iff id other).0 same) at in
      rw same (ap (λ o. elim o [ none ↦ false | some e ↦ true ]) gone)
  | inr apart ↦ rw apart refl
]
is_known-delete_container_found c id other (some entry) at = has_key-delete c.lru.entries id other

-- Unregistering makes the CRI cache forget the container and no other.
pub unregister_container_lem :
    (m : Manager) (id other : Bytes) (now : ℕ)
    → is_known (unregister_container m id now).cri_cache other
      ≡ (if id == other then false else is_known m.cri_cache other)
unfolding unregister_container get_container delete_container
unregister_container_lem m id other now =
    let looked = (get_container m.cri_cache id now).0 in
    is_known-delete_container_found looked id other (GoMap.get looked.lru.entries id) refl
    ∙ ap (λ b. if id == other then false else b)
        (is_known-container_found m.cri_cache id other now (GoMap.get m.cri_cache.lru.entries id)
          refl)

-- The cgroup that the CRI cache holds for a container, and 0 for none.
abbrev pub cgroup_of : Manager → Bytes → ℕ
cgroup_of m id = elim (GoMap.get m.cri_cache.lru.entries id) [
  | none ↦ 0
  | some entry ↦ entry.info.cgroup_id
]

-- The cgroup is the one that the CRI cache holds for the container.
abbrev pub is_cgroup_of : Manager → Bytes → ℕ → Bool
is_cgroup_of m id cgroup_id = not (cgroup_of m id == 0) && cgroup_of m id == cgroup_id

unregistered_found :
    (c : CriCache) (cgroups : GoMap ℕ Bytes) (id : Bytes) (now cgroup_id : ℕ)
    (found : Option CriCacheEntry)
    → let held : ℕ = elim found [ none ↦ 0 | some entry ↦ entry.info.cgroup_id ] in
      GoMap.get
        (elim (container_found c id now found).1 [
          | none ↦ cgroups
          | some info ↦
              if not (info.cgroup_id == 0) then GoMap.delete cgroups info.cgroup_id else cgroups
        ])
        cgroup_id
      ≡ (if not (held == 0) && held == cgroup_id then none else GoMap.get cgroups cgroup_id)
unfolding container_found
unregistered_found c cgroups id now cgroup_id none = refl
unregistered_found c cgroups id now cgroup_id (some entry) =
    ground (arith, get-delete cgroups entry.info.cgroup_id cgroup_id)

unregistered_IsMap :
    (c : CriCache) (cgroups : GoMap ℕ Bytes) (id : Bytes) (now : ℕ) (found : Option CriCacheEntry)
    → GoMap.IsMap cgroups
    → GoMap.IsMap (elim (container_found c id now found).1 as (λ _. GoMap ℕ Bytes) [
      | none ↦ cgroups
      | some info ↦
          if not (info.cgroup_id == 0) then GoMap.delete cgroups info.cgroup_id else cgroups
    ])
unfolding container_found
unregistered_IsMap c cgroups id now none h = h
unregistered_IsMap c cgroups id now (some entry) h = elim (Bool-cases (entry.info.cgroup_id == 0)) [
  | inl zero' ↦ rw zero' h
  | inr some_cgroup ↦ rw some_cgroup (delete-IsMap cgroups entry.info.cgroup_id h)
]

-- The prune behind the removal of a cgroup.
forget :
    (id : Bytes) (removed : Bool) (found left : Option Bytes) (known known' : Bytes → Bool)
    → left ≡ (if removed then none else found)
    → ((c : Bytes) → known' c ≡ (if id == c then false else known c))
    → elim left [ none ↦ none | some c ↦ if known' c then some c else none ] ≡ elim found [
      | none ↦ none
      | some c ↦ if removed || (id == c || not (known c)) then none else some c
    ]
forget id removed none left known known' h k = ground (arith, h)
forget id true (some c) left known known' h k = rw h refl
forget id false (some c) left known known' h k = rw (h, k c) (ground arith)

-- After `UnregisterContainer` and a later tick of the reaper a cgroup maps to a container exactly if it did before,
-- the container is another one that the CRI cache knows, and the cgroup is not the one that the CRI cache held
-- for the removed container, if the map held each cgroup once.
pub unregister_container-reap_tick :
    (m : Manager) (id : Bytes) (now later cgroup_id : ℕ)
    → GoMap.IsMap m.cgroup_map
    → GoMap.get (reap_tick (unregister_container m id now) later).cgroup_map cgroup_id
      ≡ elim (GoMap.get m.cgroup_map cgroup_id) [
        | none ↦ none
        | some other ↦
            if is_cgroup_of m id cgroup_id || (id == other || not (is_known m.cri_cache other))
            then none
            else some other
      ]
unfolding reap_tick unregister_container get_container
unregister_container-reap_tick m id now later cgroup_id h =
    let gone = unregister_container m id now in
    let reaped : Manager = record gone { pid_cache = reap gone.pid_cache later } in
    let entry = GoMap.get m.cri_cache.lru.entries id in
    let pruned =
      prune_cgroup_map_lem reaped later cgroup_id
        (unregistered_IsMap m.cri_cache m.cgroup_map id now entry h) in
    let left = unregistered_found m.cri_cache m.cgroup_map id now cgroup_id entry in
    pruned
    ∙ forget id (is_cgroup_of m id cgroup_id) (GoMap.get m.cgroup_map cgroup_id) _
        (is_known m.cri_cache) (is_known gone.cri_cache) left
        (λ other. unregister_container_lem m id other now)
