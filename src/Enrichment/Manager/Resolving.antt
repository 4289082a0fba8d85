-- ===== src/Enrichment/Manager/Resolving.antt =====
-- Resolution by the `Manager` of pkg/enrichment/container.go.
use container_runtime_securi.Prelude.{
  ℕ, nat_comparable, string_comparable, bytes_comparable, ◌==◌, ==_iff, ◌+◌, ◌≤◌, ◌<◌, ◌≡◌, refl,
  sym, ap, ◌∙◌, ◌≢◌, inl, inr, Option, none, some, List, [], arith, Bool-cases, length, AllOf,
}
use mathlib.Core.Path.{subst}
use container_runtime_securi.Prelude.GoMap
use container_runtime_securi.Prelude.GoMap.{GoMap, get-put, get-delete, get-delete_if}
use container_runtime_securi.Prelude.Slices.{Bytes}
use container_runtime_securi.Enrichment.Lru.{PidCache, PidCacheEntry, get_found, get_pid, set_pid}
use container_runtime_securi.Enrichment.Lru.Bounds.{
  PidCall, get_call, after_calls, IsBounded, after_call-IsBounded,
}
use container_runtime_securi.Enrichment.Lru.Keeping.{IsQuiet, stores, get_pid-after_calls}
use container_runtime_securi.Enrichment.Manager.{
  Manager, resolve_from_proc, resolve_found, resolve_uncached, resolve_container_id,
}

-- What `get_pid` and `set_pid` leave as it is.
get_found_ttl :
    (c : PidCache) (pid now : ℕ) (found : Option PidCacheEntry)
    → (get_found c pid now found).0.ttl ≡ c.ttl
unfolding get_found
get_found_ttl c pid now none = refl
get_found_ttl c pid now (some entry) = ground arith

get_pid_ttl : (c : PidCache) (pid now : ℕ) → (get_pid c pid now).0.ttl ≡ c.ttl
unfolding get_pid
get_pid_ttl c pid now = get_found_ttl c pid now (GoMap.get c.lru.entries pid)

module _ (read_cgroup : ℕ → Option Bytes) where
  -- What a lookup behind a miss answers, if it answers at all, is stored for the PID.
  resolve_found-set_pid :
      (m : Manager) (pid now : ℕ) (found : Option Bytes)
      → (resolve_found read_cgroup m pid now found).1 ≢ []
      → (resolve_found read_cgroup m pid now found).0.pid_cache
        ≡ set_pid m.pid_cache pid (resolve_found read_cgroup m pid now found).1 now
  unfolding resolve_found
  resolve_found-set_pid m pid now (some id) h = refl
  resolve_found-set_pid m pid now none h =
      let id = resolve_from_proc read_cgroup pid in
      elim (Bool-cases (id == [])) [
        | inl empty ↦ absurd (h (rw empty ((==_iff id []).0 empty)))
        | inr some_bytes ↦ rw some_bytes refl
      ]

  resolve_cached :
      (m : Manager) (cgroup_id pid now : ℕ)
      → (get_pid m.pid_cache pid now).1 ≢ []
      → (resolve_container_id read_cgroup m cgroup_id pid now).1 ≡ (get_pid m.pid_cache pid now).1
  unfolding resolve_container_id
  resolve_cached m cgroup_id pid now h = elim (Bool-cases ((get_pid m.pid_cache pid now).1 == [])) [
    | inl empty ↦ absurd (h ((==_iff (get_pid m.pid_cache pid now).1 []).0 empty))
    | inr hit ↦ rw hit refl
  ]

  resolve_missed :
      (m : Manager) (cgroup_id pid now : ℕ)
      → (get_pid m.pid_cache pid now).1 ≡ []
      → resolve_container_id read_cgroup m cgroup_id pid now
        ≡ resolve_found read_cgroup
            (record m { pid_cache = (get_pid m.pid_cache pid now).0 })
            pid
            now
            (GoMap.get m.cgroup_map cgroup_id)
  unfolding resolve_container_id resolve_uncached
  resolve_missed m cgroup_id pid now h = rw h refl

  -- The PID of a container that was resolved while the PID was not cached resolves to the same container until the
  -- TTL has passed, whatever cgroup it is asked with and whatever happens to the other caches, if the calls of
  -- the PID cache in between are lookups, stores for other PIDs for which the cache has room, and reaps not after
  -- the TTL; the cache was well formed before, with at least one place.
  pub resolve_container_id-kept :
      (m m' : Manager) (cgroup_id cgroup_id' pid now later : ℕ) (calls : List PidCall)
      → 0 < m.pid_cache.size
      → IsBounded m.pid_cache.size m.pid_cache
      → (get_pid m.pid_cache pid now).1 ≡ []
      → (resolve_container_id read_cgroup m cgroup_id pid now).1 ≢ []
      → AllOf (IsQuiet pid (now + m.pid_cache.ttl)) calls
      → length (resolve_container_id read_cgroup m cgroup_id pid now).0.pid_cache.lru.entries
          + stores calls
        ≤ m.pid_cache.size
      → m'.pid_cache
        ≡ after_calls (resolve_container_id read_cgroup m cgroup_id pid now).0.pid_cache calls
      → later < now + m.pid_cache.ttl
      → (resolve_container_id read_cgroup m' cgroup_id' pid later).1
        ≡ (resolve_container_id read_cgroup m cgroup_id pid now).1
  resolve_container_id-kept m m' cgroup_id cgroup_id' pid now later calls places bounded miss h
        quiet room between soon =
      let looked : Manager = record m { pid_cache = (get_pid m.pid_cache pid now).0 } in
      let first = resolve_container_id read_cgroup m cgroup_id pid now in
      let found = GoMap.get m.cgroup_map cgroup_id in
      let same : first ≡ resolve_found read_cgroup looked pid now found =
        resolve_missed m cgroup_id pid now miss in
      let stored : first.0.pid_cache ≡ set_pid looked.pid_cache pid first.1 now =
        subst (λ r. r.1 ≢ [] → r.0.pid_cache ≡ set_pid looked.pid_cache pid r.1 now) (sym same)
          (resolve_found-set_pid looked pid now found) h in
      let still =
        after_call-IsBounded m.pid_cache.size m.pid_cache (get_call pid now) places bounded in
      let size : looked.pid_cache.size ≡ m.pid_cache.size = still.0 in
      let ttl : looked.pid_cache.ttl ≡ m.pid_cache.ttl = get_pid_ttl m.pid_cache pid now in
      let kept =
        get_pid-after_calls looked.pid_cache pid first.1 now later calls (omega (arith, size))
          (subst (λ n. IsBounded n looked.pid_cache) (sym size) still)
          (subst (λ t. AllOf (IsQuiet pid (now + t)) calls) (sym ttl) quiet)
          (subst (λ c. length c.lru.entries + stores calls ≤ looked.pid_cache.size) stored
            (omega (arith, size, room)))
          (omega (arith, ttl, soon)) in
      let hit : (get_pid m'.pid_cache pid later).1 ≡ first.1 =
        subst (λ c. (get_pid c pid later).1 ≡ first.1)
          (sym (between ∙ ap (λ c. after_calls c calls) stored)) kept in
      resolve_cached m' cgroup_id' pid later (subst (λ id. id ≢ []) (sym hit) h) ∙ hit
