-- ===== src/Enrichment/Lru/Bounds.antt =====
-- The size of the caches of pkg/enrichment/container.go.
use container_runtime_securi.Prelude.{
  ℕ, nat_comparable, string_comparable, bytes_comparable, Comparable, ◌+◌, ◌-◌, ◌≤◌, ◌<◌, ◌≡◌, refl,
  sym, ap, ◌∙◌, inl, inr, Bool, true, Option, none, some, List, [], ◌∷◌, arith, ltb, leb,
  if◌then◌else◌, Bool-cases, Option-cases, length,
}
use mathlib.Core.Path.{subst}
use container_runtime_securi.Prelude.GoMap
use container_runtime_securi.Prelude.GoMap.{
  GoMap, get-put, get-delete, get-delete_if, put-IsMap, delete-IsMap, delete_if-IsMap,
  length-put_old, length-put_new, length-delete-lt, length-delete_if-le, length-put-le,
}
use container_runtime_securi.Prelude.Members.{is_member}
use container_runtime_securi.Prelude.Slices.{Bytes}
use container_runtime_securi.Enrichment.Lru.{
  Lru, tail_of, discard, evict_entry, evict_lru, store_found, store, touch, sweep, PidCacheEntry,
  PidCache, new_pid_cache, get_found, get_pid, set_pid, reap, prune_pids,
}
use container_runtime_securi.Enrichment.Lru.Links.{
  has_key, IsLinked, tail_of-none, tail_of-is_member, store-IsLinked, touch-IsLinked,
  sweep-IsLinked,
}

module _ {K V : Type 0} ⦃e : Comparable K⦄ where
  some_key : (m : GoMap K V) → 0 < length m → (k : K) × (has_key m k ≡ true)
  unfolding GoMap.get
  some_key [] h = absurd (omega arith)
  some_key ((j, w) ∷ m) h = (j, ground (arith, e.same_iff j j))

  length-discard-lt :
      (c : Lru K V) (victim : K)
      → has_key c.entries victim ≡ true
      → length (evict_entry c (some victim)).entries < length c.entries
  unfolding evict_entry discard
  length-discard-lt c victim held = elim (Option-cases (GoMap.get c.entries victim)) [
    | inl missing ↦ absurd (ground arith)
    | inr (v, found) ↦ length-delete-lt c.entries victim v found
  ]

  -- A cache that is not empty has a tail, and eviction makes room.
  length-evict_lru-lt :
      (c : Lru K V)
      → IsLinked c
      → 0 < length c.entries
      → length (evict_lru c).entries < length c.entries
  unfolding evict_lru
  length-evict_lru-lt c h some_entries = elim (Option-cases (tail_of c.order)) [
    | inl no_tail ↦
        let key = some_key c.entries some_entries in
        absurd (cc (h.2 key.0, key.1, tail_of-none c.order key.0 no_tail))
    | inr (victim, at) ↦
        let held : has_key c.entries victim ≡ true =
          sym (h.2 victim) ∙ tail_of-is_member c.order victim at in
        subst (λ t. length (evict_entry c t).entries < length c.entries) (sym at)
          (length-discard-lt c victim held)
  ]

  store_found-le :
      (size : ℕ) (c : Lru K V) (k : K) (v : V) (found : Option V)
      → GoMap.get c.entries k ≡ found
      → IsLinked c
      → 0 < size
      → length c.entries ≤ size
      → length (store_found (leb size (length c.entries)) c k v found).entries ≤ size
  unfolding store_found
  store_found-le size c k v (some old) at h some_places few =
      let same = length-put_old c.entries k v old at in omega (arith, same)
  store_found-le size c k v none at h some_places few =
      elim (Bool-cases (leb size (length c.entries))) [
        | inl full ↦
            let less = length-evict_lru-lt c h (ground arith) in
            let one_more = length-put-le (evict_lru c).entries k v in rw full (omega arith)
        | inr room ↦
            let one_more = length-put-le c.entries k v in
            let space : length c.entries < size = ground arith in rw room (omega arith)
      ]

-- The calls of a PID cache.
pub data PidCall : Type 0 where
  get_call : ℕ → ℕ → PidCall
  set_call : ℕ → Bytes → ℕ → PidCall
  reap_call : ℕ → PidCall
  prune_call : ℕ → ℕ → PidCall

abbrev pub after_call : PidCache → PidCall → PidCache
after_call c (get_call pid now) = (get_pid c pid now).0
after_call c (set_call pid container_id now) = set_pid c pid container_id now
after_call c (reap_call now) = reap c now
after_call c (prune_call idle_threshold now) = (prune_pids c idle_threshold now).0

abbrev pub after_calls : PidCache → List PidCall → PidCache
after_calls c [] = c
after_calls c (call ∷ calls) = after_calls (after_call c call) calls

-- The invariant: the map and the list agree, and the cache keeps its size.
abbrev pub IsBounded : ℕ → PidCache → Type 0
IsBounded size c = (c.size ≡ size) × IsLinked c.lru × (length c.lru.entries ≤ size)

get_found-IsBounded :
    (size : ℕ) (c : PidCache) (pid now : ℕ) (found : Option PidCacheEntry)
    → GoMap.get c.lru.entries pid ≡ found
    → IsBounded size c
    → IsBounded size (get_found c pid now found).0
unfolding get_found touch
get_found-IsBounded size c pid now none at h = h
get_found-IsBounded size c pid now (some entry) at h = elim (Bool-cases (ltb now entry.expiry)) [
  | inl live ↦
      let used : PidCacheEntry = record entry { last_access = now } in
      let same = length-put_old c.lru.entries pid used entry at in
      rw live (h.0, touch-IsLinked c.lru pid used entry at h.1, omega (arith, same, h.2))
  | inr expired ↦ rw expired h
]

pub after_call-IsBounded :
    (size : ℕ) (c : PidCache) (call : PidCall)
    → 0 < size
    → IsBounded size c
    → IsBounded size (after_call c call)
unfolding get_pid set_pid store reap prune_pids sweep
after_call-IsBounded size c (get_call pid now) some_places h =
    get_found-IsBounded size c pid now (GoMap.get c.lru.entries pid) refl h
after_call-IsBounded size c (set_call pid container_id now) some_places h =
    let full = leb c.size (length c.lru.entries) in
    (
      h.0,
      store-IsLinked full c.lru pid _ h.1,
      rw h.0
          (store_found-le size c.lru pid _ (GoMap.get c.lru.entries pid) refl h.1 some_places h.2),
    )
after_call-IsBounded size c (reap_call now) some_places h = (
  h.0,
  sweep-IsLinked _ c.lru h.1,
  omega (arith, h.2, length-delete_if-le (λ k (v : PidCacheEntry). ltb v.expiry now) c.lru.entries),
)
after_call-IsBounded size c (prune_call idle_threshold now) some_places h = (
  h.0,
  sweep-IsLinked _ c.lru h.1,
  omega (
    arith,
    h.2,
    length-delete_if-le (λ k (v : PidCacheEntry). ltb idle_threshold (now - v.last_access))
        c.lru.entries,
  ),
)

-- From a new PID cache of at least one place, after any sequence of gets, sets, reaps and prunes the cache holds at
-- most as many entries as its size, each key once, and its list of use has exactly the keys of its map, each once.
pub after_calls-IsBounded :
    (size ttl : ℕ) (calls : List PidCall)
    → 0 < size
    → IsBounded size (after_calls (new_pid_cache size ttl) calls)
unfolding new_pid_cache is_member GoMap.get
after_calls-IsBounded size ttl calls some_places =
    go (new_pid_cache size ttl) calls (refl, (tt, tt, λ k. refl), omega arith)
  where
    go :
        (c : PidCache) (calls : List PidCall)
        → IsBounded size c
        → IsBounded size (after_calls c calls)
    go c [] h = h
    go c (call ∷ calls) h =
        go (after_call c call) calls (after_call-IsBounded size c call some_places h)

pub get_found-live :
    (c : PidCache) (pid now : ℕ) (entry : PidCacheEntry)
    → (get_found c pid now (some entry)).1
      ≡ (if ltb now entry.expiry then entry.container_id else [])
unfolding get_found
get_found-live c pid now entry = ground arith

pub get-store_found :
    (full : Bool) (c : Lru ℕ PidCacheEntry) (k : ℕ) (v : PidCacheEntry)
    (found : Option PidCacheEntry)
    → GoMap.get (store_found full c k v found).entries k ≡ some v
unfolding store_found
get-store_found full c k v (some old) = ground (arith, get-put c.entries k k v)
get-store_found full c k v none =
    let room = if full then evict_lru c else c in ground (arith, get-put room.entries k k v)

-- A container id that was stored for a PID is found until its TTL has passed, and from then on none is.
get_pid-set_pid :
    (c : PidCache) (pid : ℕ) (container_id : Bytes) (now later : ℕ)
    → (get_pid (set_pid c pid container_id now) pid later).1
      ≡ (if ltb later (now + c.ttl) then container_id else [])
unfolding get_pid set_pid store
get_pid-set_pid c pid container_id now later =
    let after = set_pid c pid container_id now in
    let entry : PidCacheEntry = record {
      container_id = container_id;
      expiry = now + c.ttl;
      last_access = now;
    } in
    let held =
      get-store_found (leb c.size (length c.lru.entries)) c.lru pid entry
        (GoMap.get c.lru.entries pid) in
    ap (λ found. (get_found after pid later found).1) held ∙ get_found-live after pid later entry
