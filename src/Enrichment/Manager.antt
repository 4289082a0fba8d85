-- ===== src/Enrichment/Manager.antt =====
-- The state and the handlers of `Manager` of pkg/enrichment/container.go, with its CRI cache and its Kubernetes
-- cache. Reading /proc/<pid>/cgroup and the clock are arguments, and so is the order of a walk of the cgroup map.
-- The cache hands out pointers to its container records; here a record is changed in the cache alone.
pub mod Resolving
pub mod Unregistering
use container_runtime_securi.Prelude.{
  ℕ, zero, suc, nat_comparable, string_comparable, bytes_comparable, Comparable, ◌==◌, ==_iff,
  ==_refl, bytes_beq, bytes_beq_iff, String, ◌<>◌, ◌+◌, ◌-◌, ◌*◌, ◌/◌, ◌%◌, ◌^◌, ◌≤◌, ◌<◌, ◌≡◌,
  refl, sym, ap, ◌∙◌, ◌≢◌, ◌↔◌, ◌⊎◌, inl, inr, Bool, true, false, not, ◌&&◌, ◌||◌, Option, none,
  some, List, [], ◌∷◌, ◌++◌, map, arith, ltb, leb, if◌then◌else◌, Bool-cases, Option-cases, length,
  get_elem?, take, drop, replicate, keep_if, length-append, take-append-drop, length-take,
  length-drop, take_append_left, drop_append_left, length-keep_if-le, drop_behind, get_elem?_behind,
  AllOf, append-AllOf, split-AllOf,
}
use container_runtime_securi.Prelude.GoMap
use container_runtime_securi.Prelude.GoMap.{GoMap}
use container_runtime_securi.Prelude.Members.{is_member}
use container_runtime_securi.Prelude.Slices.{Bytes}
use container_runtime_securi.Enrichment.Lru.{
  Lru, discard, store, touch, sweep, PidCache, new_pid_cache, get_pid, set_pid, reap, prune_pids,
}
use container_runtime_securi.Enrichment.Cgroup.{extract_container_id, parse_pid}

pub record ContainerInfo : Type 0 where
  pub id : Bytes
  pub name : Bytes
  pub image : Bytes
  pub image_digest : Bytes
  pub pod_name : Bytes
  pub namespace : Bytes
  pub service_account : Bytes
  pub labels : GoMap Bytes Bytes
  pub started_at : ℕ
  pub privileged : Bool
  pub capabilities : List Bytes
  pub cgroup_id : ℕ

pub record PodInfo : Type 0 where
  pub name : Bytes
  pub namespace : Bytes
  pub service_account : Bytes
  pub labels : GoMap Bytes Bytes
  pub containers : List Bytes

pub record CriCacheEntry : Type 0 where
  pub info : ContainerInfo
  pub last_access : ℕ

pub record CriCache : Type 0 where
  pub max_size : ℕ
  pub lru : Lru Bytes CriCacheEntry

unfoldable pub new_cri_cache : ℕ → CriCache
new_cri_cache max_size = record { max_size = max_size; lru = record { entries = []; order = [] } }

-- `CRICache.Get`: the cache with the access time, and the container.
unfoldable pub container_found :
    CriCache → Bytes → ℕ → Option CriCacheEntry → CriCache × Option ContainerInfo
container_found c id now none = (c, none)
container_found c id now (some entry) =
    (record c { lru = touch c.lru id (record entry { last_access = now }) }, some entry.info)

unfoldable pub get_container : CriCache → Bytes → ℕ → CriCache × Option ContainerInfo
get_container c id now = container_found c id now (GoMap.get c.lru.entries id)

unfoldable pub set_container : CriCache → Bytes → ContainerInfo → ℕ → CriCache
set_container c id info now =
    let full = ltb 0 c.max_size && leb c.max_size (length c.lru.entries) in
    record c { lru = store full c.lru id (record { info = info; last_access = now }) }

unfoldable pub delete_container_found : CriCache → Bytes → Option CriCacheEntry → CriCache
delete_container_found c id none = c
delete_container_found c id (some entry) = record c { lru = discard c.lru id }

unfoldable pub delete_container : CriCache → Bytes → CriCache
delete_container c id = delete_container_found c id (GoMap.get c.lru.entries id)

unfoldable pub cri_cache_size : CriCache → ℕ
cri_cache_size c = length c.lru.entries

unfoldable pub get_all_container_ids : CriCache → List Bytes
get_all_container_ids c = map (λ entry. entry.0) c.lru.entries

unfoldable pub prune_containers : CriCache → ℕ → ℕ → CriCache × ℕ
prune_containers c idle_threshold now =
    let kept : CriCache = record c {
      lru = sweep (λ entry. ltb idle_threshold (now - entry.last_access)) c.lru;
    } in
    (kept, length c.lru.entries - length kept.lru.entries)

-- `K8sCache`, by its map of pods.
unfoldable pub get_pod : GoMap Bytes PodInfo → Bytes → Option PodInfo
get_pod pods key = GoMap.get pods key

unfoldable pub set_pod : GoMap Bytes PodInfo → Bytes → PodInfo → GoMap Bytes PodInfo
set_pod pods key pod = GoMap.put pods key pod

unfoldable pub delete_pod : GoMap Bytes PodInfo → Bytes → GoMap Bytes PodInfo
delete_pod pods key = GoMap.delete pods key

unfoldable pub lookup_by_container_id : GoMap Bytes PodInfo → Bytes → Option PodInfo
lookup_by_container_id [] container_id = none
lookup_by_container_id ((key, pod) ∷ pods) container_id =
    let rest = lookup_by_container_id pods container_id in
    if is_member pod.containers container_id then some pod else rest

pub record Manager : Type 0 where
  pub pid_cache : PidCache
  pub cri_cache : CriCache
  pub cgroup_map : GoMap ℕ Bytes

-- `NewManager`: the defaults are 10000 places and five minutes.
unfoldable pub new_manager : ℕ → ℕ → Manager
new_manager pid_cache_size pid_cache_ttl = record {
  pid_cache =
      new_pid_cache (if pid_cache_size == 0 then 10000 else pid_cache_size)
        (if pid_cache_ttl == 0 then 5 * 60 * 10 ^ 9 else pid_cache_ttl);
  cri_cache = new_cri_cache 0;
  cgroup_map = [];
}

unfoldable pub register_container : Manager → ContainerInfo → ℕ → Manager
register_container m info now = record m {
  cri_cache = set_container m.cri_cache info.id info now;
  cgroup_map =
      if not (info.cgroup_id == 0)
      then GoMap.put m.cgroup_map info.cgroup_id info.id
      else m.cgroup_map;
}

unfoldable pub unregister_container : Manager → Bytes → ℕ → Manager
unregister_container m container_id now =
    let looked = get_container m.cri_cache container_id now in
    record m {
      cri_cache = delete_container looked.0 container_id;
      cgroup_map = elim looked.1 [
        | none ↦ m.cgroup_map
        | some info ↦
            if not (info.cgroup_id == 0)
            then GoMap.delete m.cgroup_map info.cgroup_id
            else m.cgroup_map
      ];
    }

abbrev put_all : GoMap Bytes Bytes → GoMap Bytes Bytes → GoMap Bytes Bytes
put_all labels [] = labels
put_all labels ((k, v) ∷ pod_labels) = put_all (GoMap.put labels k v) pod_labels

-- The loop body of `HandlePodAdded`.
unfoldable pub enrich_container : CriCache → PodInfo → Bytes → ℕ → CriCache
enrich_container c pod container_id now =
    let looked = get_container c container_id now in
    elim looked.1 [
      | none ↦ looked.0
      | some info ↦
          set_container looked.0 container_id
            (record info {
              pod_name = pod.name;
              namespace = pod.namespace;
              service_account = pod.service_account;
              labels = put_all info.labels pod.labels;
            })
            now
    ]

unfoldable pub enrich_containers : CriCache → PodInfo → List Bytes → ℕ → CriCache
enrich_containers c pod [] now = c
enrich_containers c pod (container_id ∷ ids) now =
    enrich_containers (enrich_container c pod container_id now) pod ids now

-- `HandlePodAdded` and `HandlePodUpdated`.
unfoldable pub handle_pod_added : Manager → PodInfo → ℕ → Manager
handle_pod_added m pod now = record m {
  cri_cache = enrich_containers m.cri_cache pod pod.containers now;
}

-- The lookups of the prune loop, which mark the containers as used.
unfoldable pub touch_containers : CriCache → GoMap ℕ Bytes → ℕ → CriCache
touch_containers c [] now = c
touch_containers c ((cgroup_id, container_id) ∷ rest) now =
    touch_containers (get_container c container_id now).0 rest now

abbrev pub is_known : CriCache → Bytes → Bool
is_known c container_id = elim (GoMap.get c.lru.entries container_id) [
  | none ↦ false
  | some entry ↦ true
]

unfoldable pub prune_cgroup_map : Manager → ℕ → Manager
prune_cgroup_map m now = record m {
  cri_cache = touch_containers m.cri_cache m.cgroup_map now;
  cgroup_map =
      GoMap.delete_if (λ cgroup_id container_id. not (is_known m.cri_cache container_id))
        m.cgroup_map;
}

unfoldable pub reap_tick : Manager → ℕ → Manager
reap_tick m now = prune_cgroup_map (record m { pid_cache = reap m.pid_cache now }) now

unfoldable pub prune_caches : Manager → ℕ → ℕ → Manager × ℕ
prune_caches m idle_threshold now =
    let pids = prune_pids m.pid_cache idle_threshold now in
    let containers = prune_containers m.cri_cache idle_threshold now in
    let pruned = prune_cgroup_map (record m { pid_cache = pids.0; cri_cache = containers.0 }) now in
    (pruned, pids.1 + containers.1 + (length m.cgroup_map - length pruned.cgroup_map))

module _ (read_cgroup : ℕ → Option Bytes) where
  unfoldable pub resolve_from_proc : ℕ → Bytes
  resolve_from_proc pid = elim (read_cgroup pid) [
    | none ↦ []
    | some cgroup_data ↦ extract_container_id cgroup_data
  ]

  -- The second and the third tier, by what the cgroup map has.
  unfoldable pub resolve_found : Manager → ℕ → ℕ → Option Bytes → Manager × Bytes
  resolve_found m pid now (some container_id) =
      (record m { pid_cache = set_pid m.pid_cache pid container_id now }, container_id)
  resolve_found m pid now none =
      let container_id = resolve_from_proc pid in
      if not (container_id == [])
      then (record m { pid_cache = set_pid m.pid_cache pid container_id now }, container_id)
      else (m, container_id)

  unfoldable pub resolve_uncached : Manager → ℕ → ℕ → ℕ → Manager × Bytes
  resolve_uncached m cgroup_id pid now = resolve_found m pid now (GoMap.get m.cgroup_map cgroup_id)

  unfoldable pub resolve_container_id : Manager → ℕ → ℕ → ℕ → Manager × Bytes
  resolve_container_id m cgroup_id pid now =
      let cached = get_pid m.pid_cache pid now in
      let looked : Manager = record m { pid_cache = cached.0 } in
      if not (cached.1 == []) then (looked, cached.1) else resolve_uncached looked cgroup_id pid now

  -- `discoverContainers`, by the names of the directories of /proc.
  unfoldable pub discover_containers : PidCache → List Bytes → ℕ → PidCache
  discover_containers c [] now = c
  discover_containers c (name ∷ names) now =
      let found : PidCache = elim (parse_pid name) [
        | none ↦ c
        | some pid ↦
            let container_id = resolve_from_proc pid in
            if not (container_id == []) then set_pid c pid container_id now else c
      ] in
      discover_containers found names now
