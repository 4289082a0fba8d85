-- ===== src/Enrichment/Lru.antt =====
-- The caches of pkg/enrichment/container.go: `PIDCache` and `CRICache` share the map of entries and the list in the
-- order of use, which is held as its keys from the head (the most recent) to the tail. Times are arguments.
pub mod Links
pub mod Bounds
pub mod Keeping
use container_runtime_securi.Prelude.{
  ℕ, zero, suc, nat_comparable, string_comparable, bytes_comparable, Comparable, ◌==◌, ==_iff,
  ==_refl, bytes_beq, bytes_beq_iff, String, ◌<>◌, ◌+◌, ◌-◌, ◌*◌, ◌/◌, ◌%◌, ◌^◌, ◌≤◌, ◌<◌, ◌≡◌,
  refl, sym, ap, ◌∙◌, ◌≢◌, ◌↔◌, ◌⊎◌, inl, inr, Bool, true, false, not, ◌&&◌, ◌||◌, Option, none,
  some, List, [], ◌∷◌, ◌++◌, map, arith, ltb, leb, if◌then◌else◌, Bool-cases, Option-cases, length,
  get_elem?, take, drop, replicate, keep_if, length-append, take-append-drop, length-take,
  length-drop, take_append_left, drop_append_left, length-keep_if-le, drop_behind, get_elem?_behind,
  AllOf, append-AllOf, split-AllOf,
}
use container_runtime_securi.Prelude.GoMap
use container_runtime_securi.Prelude.GoMap.{GoMap}
use container_runtime_securi.Prelude.Slices.{Bytes}

pub record Lru (K V : Type 0) : Type 0 where
  pub entries : GoMap K V
  pub order : List K

module _ {K : Type 0} ⦃e : Comparable K⦄ where
  -- `removeEntry`
  unfoldable pub remove_entry : List K → K → List K
  remove_entry order k = keep_if (λ j. not (j == k)) order

  -- `addToFront`
  unfoldable pub add_to_front : List K → K → List K
  add_to_front order k = k ∷ order

  unfoldable pub move_to_front : List K → K → List K
  move_to_front [] k = add_to_front [] k
  move_to_front (head ∷ order) k =
      if head == k then head ∷ order else add_to_front (remove_entry (head ∷ order) k) k

-- `c.tail`
unfoldable pub tail_of : {K : Type 0} → List K → Option K
tail_of [] = none
tail_of (k ∷ []) = some k
tail_of (k ∷ j ∷ order) = tail_of (j ∷ order)

module _ {K V : Type 0} ⦃e : Comparable K⦄ where
  -- `removeEntry` and `delete` of a key.
  unfoldable pub discard : Lru K V → K → Lru K V
  discard c k = record { entries = GoMap.delete c.entries k; order = remove_entry c.order k }

  unfoldable pub evict_entry : Lru K V → Option K → Lru K V
  evict_entry c none = c
  evict_entry c (some victim) = discard c victim

  unfoldable pub evict_lru : Lru K V → Lru K V
  evict_lru c = evict_entry c (tail_of c.order)

  -- `Set` behind the lookup of the key, with the test whether the cache is full.
  unfoldable pub store_found : Bool → Lru K V → K → V → Option V → Lru K V
  store_found full c k v (some old) = record {
    entries = GoMap.put c.entries k v;
    order = move_to_front c.order k;
  }
  store_found full c k v none =
      let room = if full then evict_lru c else c in
      record { entries = GoMap.put room.entries k v; order = add_to_front room.order k }

  unfoldable pub store : Bool → Lru K V → K → V → Lru K V
  store full c k v = store_found full c k v (GoMap.get c.entries k)

  -- A new value for a key that is there, which keeps its place.
  unfoldable pub touch : Lru K V → K → V → Lru K V
  touch c k v = record c { entries = GoMap.put c.entries k v }

  -- The loop that removes the entries that pass a test.
  unfoldable pub sweep : (V → Bool) → Lru K V → Lru K V
  sweep test c = record {
    entries = GoMap.delete_if (λ k v. test v) c.entries;
    order =
        keep_if (λ k. elim (GoMap.get c.entries k) [ none ↦ true | some v ↦ not (test v) ]) c.order;
  }

pub record PidCacheEntry : Type 0 where
  pub container_id : Bytes
  pub expiry : ℕ
  pub last_access : ℕ

pub record PidCache : Type 0 where
  pub size : ℕ
  pub ttl : ℕ
  pub lru : Lru ℕ PidCacheEntry

unfoldable pub new_pid_cache : ℕ → ℕ → PidCache
new_pid_cache size ttl = record {
  size = size;
  ttl = ttl;
  lru = record { entries = []; order = [] };
}

-- The cache with the entry's access time, and the container id, which is empty for no entry.
unfoldable pub get_found : PidCache → ℕ → ℕ → Option PidCacheEntry → PidCache × Bytes
get_found c pid now none = (c, [])
get_found c pid now (some entry) =
    let used : PidCache = record c { lru = touch c.lru pid (record entry { last_access = now }) } in
    if ltb now entry.expiry then (used, entry.container_id) else (c, [])

unfoldable pub get_pid : PidCache → ℕ → ℕ → PidCache × Bytes
get_pid c pid now = get_found c pid now (GoMap.get c.lru.entries pid)

unfoldable pub set_pid : PidCache → ℕ → Bytes → ℕ → PidCache
set_pid c pid container_id now =
    let entry : PidCacheEntry = record {
      container_id = container_id;
      expiry = now + c.ttl;
      last_access = now;
    } in
    record c { lru = store (leb c.size (length c.lru.entries)) c.lru pid entry }

unfoldable pub reap : PidCache → ℕ → PidCache
reap c now = record c { lru = sweep (λ entry. ltb entry.expiry now) c.lru }

unfoldable pub prune_pids : PidCache → ℕ → ℕ → PidCache × ℕ
prune_pids c idle_threshold now =
    let kept : PidCache = record c {
      lru = sweep (λ entry. ltb idle_threshold (now - entry.last_access)) c.lru;
    } in
    (kept, length c.lru.entries - length kept.lru.entries)

unfoldable pub pid_cache_size : PidCache → ℕ
pid_cache_size c = length c.lru.entries
