-- ===== src/Enrichment/Lru/Keeping.antt =====
-- How long `PIDCache` of pkg/enrichment/container.go keeps an entry while other calls run.
use container_runtime_securi.Prelude.{
  ℕ, nat_comparable, string_comparable, bytes_comparable, ◌==◌, ==_iff, ◌+◌, ◌≤◌, ◌<◌, ◌≡◌, refl,
  sym, ap, ◌∙◌, ◌≢◌, inl, inr, true, false, Option, none, some, List, [], ◌∷◌, arith, ltb, leb,
  Bool-cases, length, AllOf,
}
use mathlib.Core.Path.{subst}
use container_runtime_securi.Prelude.GoMap
use container_runtime_securi.Prelude.GoMap.{
  get-put, get-delete_if, length-put_old, length-put-le, length-delete_if-le,
}
use container_runtime_securi.Prelude.Slices.{Bytes}
use container_runtime_securi.Enrichment.Lru.{
  store_found, store, touch, sweep, PidCacheEntry, PidCache, get_found, get_pid, set_pid, reap,
}
use container_runtime_securi.Enrichment.Lru.Bounds.{
  PidCall, get_call, set_call, reap_call, prune_call, after_call, after_calls, IsBounded,
  after_call-IsBounded, get_found-live, get-store_found,
}

-- A call that leaves the entry of a PID: a lookup, a store for another PID, or a reap that is not after its expiry.
abbrev pub IsQuiet : ℕ → ℕ → PidCall → Type 0
IsQuiet pid expiry (get_call other now) = Unit
IsQuiet pid expiry (set_call other container_id now) = other ≢ pid
IsQuiet pid expiry (reap_call now) = now ≤ expiry
IsQuiet pid expiry (prune_call idle_threshold now) = ⊥

-- The stores among the calls.
abbrev pub stores : List PidCall → ℕ
stores [] = 0
stores (set_call pid container_id now ∷ calls) = stores calls + 1
stores (get_call pid now ∷ calls) = stores calls
stores (reap_call now ∷ calls) = stores calls
stores (prune_call idle_threshold now ∷ calls) = stores calls

-- The cache has an entry for the PID with this container and this expiry.
abbrev Holds : ℕ → Bytes → ℕ → PidCache → Type 0
Holds pid container_id expiry c =
    (entry : PidCacheEntry) × (GoMap.get c.lru.entries pid ≡ some entry)
    × (entry.container_id ≡ container_id)
    × (entry.expiry ≡ expiry)

-- The entry is there, and there is room for a number of stores.
abbrev Keeps : ℕ → ℕ → Bytes → ℕ → PidCache → Type 0
Keeps room pid container_id expiry c =
    Holds pid container_id expiry c × (length c.lru.entries + room ≤ c.size)

differ : (i j : ℕ) → i ≢ j → (i == j) ≡ false
differ i j h = elim (Bool-cases (i == j)) [
  | inl same ↦ absurd (h ((==_iff i j).0 same))
  | inr apart ↦ apart
]

get_found-Keeps :
    (room pid other now : ℕ) (container_id : Bytes) (expiry : ℕ) (c : PidCache)
    (found : Option PidCacheEntry)
    → GoMap.get c.lru.entries other ≡ found
    → Keeps room pid container_id expiry c
    → Keeps room pid container_id expiry (get_found c other now found).0
unfolding get_found touch
get_found-Keeps room pid other now container_id expiry c none at h = h
get_found-Keeps room pid other now container_id expiry c (some seen) at
      ((entry, has, same_id, same_expiry), few) =
    elim (Bool-cases (ltb now seen.expiry)) [
      | inr expired ↦ rw expired ((entry, has, same_id, same_expiry), few)
      | inl live ↦
          let used : PidCacheEntry = record seen { last_access = now } in
          let size = length-put_old c.lru.entries other used seen at in
          let written = get-put c.lru.entries other pid used in
          elim (Bool-cases (other == pid)) [
            | inl same ↦
                let equal : seen ≡ entry =
                  let seen_there : GoMap.get c.lru.entries pid ≡ some seen =
                    subst (λ i. GoMap.get c.lru.entries i ≡ some seen) ((==_iff other pid).0 same)
                      at in
                  cc (has, seen_there) in
                rw live (
                  (
                    used,
                    written ∙ (rw same refl),
                    ap (λ e. e.container_id) equal ∙ same_id,
                    ap (λ e. e.expiry) equal ∙ same_expiry,
                  ),
                  omega (arith, size, few),
                )
            | inr apart ↦
                rw live (
                  (entry, written ∙ (rw apart has), same_id, same_expiry),
                  omega (arith, size, few),
                )
          ]
    ]

store_found-Keeps :
    (room pid other : ℕ) (v : PidCacheEntry) (container_id : Bytes) (expiry : ℕ) (c : PidCache)
    (found : Option PidCacheEntry)
    → other ≢ pid
    → Keeps (room + 1) pid container_id expiry c
    → Keeps room pid container_id expiry (record c { lru = store_found false c.lru other v found })
unfolding store_found
store_found-Keeps room pid other v container_id expiry c none apart
      ((entry, has, same_id, same_expiry), few) =
    let size = length-put-le c.lru.entries other v in
    let written = get-put c.lru.entries other pid v in
    (
      (entry, written ∙ (rw (differ other pid apart) has), same_id, same_expiry),
      omega (arith, size, few),
    )
store_found-Keeps room pid other v container_id expiry c (some old) apart
      ((entry, has, same_id, same_expiry), few) =
    let size = length-put-le c.lru.entries other v in
    let written = get-put c.lru.entries other pid v in
    (
      (entry, written ∙ (rw (differ other pid apart) has), same_id, same_expiry),
      omega (arith, size, few),
    )

after_call-Keeps :
    (room pid : ℕ) (container_id : Bytes) (expiry : ℕ) (c : PidCache) (call : PidCall)
    → IsBounded c.size c
    → IsQuiet pid expiry call
    → Keeps (room + stores (call ∷ [])) pid container_id expiry c
    → Keeps room pid container_id expiry (after_call c call)
unfolding get_pid set_pid store reap sweep
after_call-Keeps room pid container_id expiry c (get_call other now) bounded quiet h =
    get_found-Keeps room pid other now container_id expiry c (GoMap.get c.lru.entries other) refl
      (h.0, omega (arith, h.1))
after_call-Keeps room pid container_id expiry c (set_call other id now) bounded quiet h =
    let space : leb c.size (length c.lru.entries) ≡ false = (let few = h.1 in ground arith) in
    rw space (
      store_found-Keeps room pid other _ container_id expiry c (GoMap.get c.lru.entries other) quiet
        h)
after_call-Keeps room pid container_id expiry c (reap_call now) bounded quiet
      ((entry, has, same_id, same_expiry), few) =
    let swept =
      get-delete_if (λ k (v : PidCacheEntry). ltb v.expiry now) c.lru.entries pid bounded.1.0 in
    let kept : ltb entry.expiry now ≡ false = (let at = same_expiry in ground arith) in
    let size = length-delete_if-le (λ k (v : PidCacheEntry). ltb v.expiry now) c.lru.entries in
    ((entry, swept ∙ (rw (has, kept) refl), same_id, same_expiry), omega (arith, size, few))
after_call-Keeps room pid container_id expiry c (prune_call idle_threshold now) bounded quiet h =
    absurd quiet

stores-cons :
    (call : PidCall) (calls : List PidCall)
    → stores (call ∷ calls) ≡ stores calls + stores (call ∷ [])
stores-cons (set_call pid container_id now) calls = omega arith
stores-cons (get_call pid now) calls = omega arith
stores-cons (reap_call now) calls = omega arith
stores-cons (prune_call idle_threshold now) calls = omega arith

after_calls-Keeps :
    (pid : ℕ) (container_id : Bytes) (expiry : ℕ) (calls : List PidCall) (c : PidCache)
    → 0 < c.size
    → IsBounded c.size c
    → AllOf (IsQuiet pid expiry) calls
    → Keeps (stores calls) pid container_id expiry c
    → Keeps 0 pid container_id expiry (after_calls c calls)
after_calls-Keeps pid container_id expiry [] c places bounded quiet h = h
after_calls-Keeps pid container_id expiry (call ∷ calls) c places bounded quiet h =
    let next = after_call c call in
    let still = after_call-IsBounded c.size c call places bounded in
    after_calls-Keeps pid container_id expiry calls next (omega (arith, still.0))
      (subst (λ n. IsBounded n next) (sym still.0) still) quiet.1
      (after_call-Keeps (stores calls) pid container_id expiry c call bounded quiet.0
        (h.0, omega (arith, h.1, stores-cons call calls)))

-- A stored container id is found until its TTL has passed, after calls that are quiet for the PID and for whose
-- stores the cache has room.
pub get_pid-after_calls :
    (c : PidCache) (pid : ℕ) (container_id : Bytes) (now later : ℕ) (calls : List PidCall)
    → 0 < c.size
    → IsBounded c.size c
    → AllOf (IsQuiet pid (now + c.ttl)) calls
    → length (set_pid c pid container_id now).lru.entries + stores calls ≤ c.size
    → later < now + c.ttl
    → (get_pid (after_calls (set_pid c pid container_id now) calls) pid later).1 ≡ container_id
unfolding get_pid set_pid store
get_pid-after_calls c pid container_id now later calls places bounded quiet room soon =
    let entry : PidCacheEntry = record {
      container_id = container_id;
      expiry = now + c.ttl;
      last_access = now;
    } in
    let stored = set_pid c pid container_id now in
    let held =
      get-store_found (leb c.size (length c.lru.entries)) c.lru pid entry
        (GoMap.get c.lru.entries pid) in
    let bounded' = after_call-IsBounded c.size c (set_call pid container_id now) places bounded in
    let kept =
      after_calls-Keeps pid container_id (now + c.ttl) calls stored places bounded' quiet
        ((entry, held, refl, refl), room) in
    let after = after_calls stored calls in
    let live : ltb later kept.0.0.expiry ≡ true = (let at = kept.0.3 in ground arith) in
    ap (λ found. (get_found after pid later found).1) kept.0.1
    ∙ get_found-live after pid later kept.0.0
    ∙ rw live kept.0.2
