-- ===== src/Pipeline/Coalescer/Conservation.antt =====
-- The counts of the coalescer (pkg/pipeline/coalescer.go) over a sequence of alerts.
use container_runtime_securi.Prelude.{
  ℕ, nat_comparable, string_comparable, bytes_comparable, ◌+◌, ◌%◌, ◌^◌, ◌≤◌, ◌<◌, ◌≡◌, refl, ap,
  ◌∙◌, inl, inr, true, false, Option, none, some, List, [], ◌∷◌, map, arith, if◌then◌else◌,
  Option-cases, length,
}
use container_runtime_securi.Prelude.{pair_comparable}
use container_runtime_securi.Prelude.GoMap
use container_runtime_securi.Prelude.GoMap.{GoMap, length-put_new}
use container_runtime_securi.Pipeline.Coalescer.{
  Alert, CoalesceEntry, CoalesceKey, Coalescer, key_of, add_found, add, flushed_alert, flush,
  new_coalescer,
}

-- Alerts added in order, each at its time: the coalescer after them, and those that `Add` returned to
-- the caller to emit at once.
unfoldable pub add_all : Coalescer → List (Alert × ℕ) → Coalescer × List Alert
add_all c [] = (c, [])
add_all c ((alert, now) ∷ rest) =
    let one = add c alert now in
    let more = add_all one.0 rest in (more.0, if one.1 then more.1 else alert ∷ more.1)

-- The number of alerts that the groups of a map stand for.
unfoldable pub total : GoMap CoalesceKey CoalesceEntry → ℕ
total [] = 0
total ((k, e) ∷ m) = e.count + total m

-- What a flushed alert stands for.
abbrev pub weight : Alert → ℕ
weight alert = if alert.coalesced then alert.event_count else 1

unfoldable pub total_weight : List Alert → ℕ
total_weight [] = 0
total_weight (a ∷ rest) = weight a + total_weight rest

total-put_new :
    (m : GoMap CoalesceKey CoalesceEntry) (k : CoalesceKey) (e : CoalesceEntry)
    → GoMap.get m k ≡ none
    → total (GoMap.put m k e) ≡ total m + e.count
unfolding GoMap.get GoMap.put total
total-put_new [] k e h = omega arith
total-put_new ((j, w) ∷ m) k e h = ground (arith, total-put_new m k e)

total-put_old :
    (m : GoMap CoalesceKey CoalesceEntry) (k : CoalesceKey) (e w : CoalesceEntry)
    → GoMap.get m k ≡ some w
    → total (GoMap.put m k e) + w.count ≡ total m + e.count
unfolding GoMap.get GoMap.put total
total-put_old [] k e w h = cc
total-put_old ((j, u) ∷ m) k e w h = ground (arith, total-put_old m k e w)

count_of_get-le :
    (m : GoMap CoalesceKey CoalesceEntry) (k : CoalesceKey) (w : CoalesceEntry)
    → GoMap.get m k ≡ some w
    → w.count ≤ total m
unfolding GoMap.get total
count_of_get-le [] k w h = cc
count_of_get-le ((j, u) ∷ m) k w h = ground (arith, count_of_get-le m k w)

add-found :
    (c : Coalescer) (alert : Alert) (now : ℕ) (found : Option CoalesceEntry)
    → GoMap.get c.entries (key_of alert) ≡ found
    → add c alert now ≡ add_found c alert now found
unfolding add
add-found c alert now found e = ap (add_found c alert now) e

total-add :
    (c : Coalescer) (alert : Alert) (now : ℕ)
    → total c.entries + 1 < 2 ^ 64
    → total ((add c alert now).0.entries) ≡ total c.entries + 1
unfolding add_found
total-add c alert now h = elim (Option-cases (GoMap.get c.entries (key_of alert))) [
  | inl e ↦ rw (add-found c alert now none e) (
      total-put_new c.entries (key_of alert) (record { first = alert; count = 1; last_seen = now })
        e)
  | inr (w, e) ↦
      let room = count_of_get-le c.entries (key_of alert) w e in
      let same : (w.count + 1) % 2 ^ 64 ≡ w.count + 1 = omega arith in
      let new = record w { count = w.count + 1; last_seen = now } in
      rw (add-found c alert now (some w) e, same)
        (omega (arith, total-put_old c.entries (key_of alert) new w e))
]

-- Below 2^64 alerts, every alert that was added is counted in exactly one group.
pub total-add_all :
    (c : Coalescer) (alerts : List (Alert × ℕ))
    → total c.entries + length alerts < 2 ^ 64
    → total ((add_all c alerts).0.entries) ≡ total c.entries + length alerts
unfolding add_all
total-add_all c [] h = omega arith
total-add_all c ((alert, now) ∷ rest) h =
    let one = total-add c alert now (omega arith) in
    omega (arith, total-add_all ((add c alert now).0) rest (omega arith))

-- Every group counts at least its first alert, which is not itself a coalesced one.
abbrev pub AreFresh : GoMap CoalesceKey CoalesceEntry → Type 0
AreFresh [] = Unit
AreFresh ((k, e) ∷ m) = ((1 ≤ e.count) × (e.first.coalesced ≡ false)) × AreFresh m

put-AreFresh :
    (m : GoMap CoalesceKey CoalesceEntry) (k : CoalesceKey) (e : CoalesceEntry)
    → 1 ≤ e.count
    → e.first.coalesced ≡ false
    → AreFresh m
    → AreFresh (GoMap.put m k e)
unfolding GoMap.put
put-AreFresh [] k e h f all = ((h, f), tt)
put-AreFresh ((j, w) ∷ m) k e h f all = ground (arith, put-AreFresh m k e h f all.1)

get-AreFresh :
    (m : GoMap CoalesceKey CoalesceEntry) (k : CoalesceKey) (w : CoalesceEntry)
    → GoMap.get m k ≡ some w
    → AreFresh m
    → w.first.coalesced ≡ false
unfolding GoMap.get
get-AreFresh [] k w h all = cc
get-AreFresh ((j, u) ∷ m) k w h all = ground (arith, get-AreFresh m k w)

add-AreFresh :
    (c : Coalescer) (alert : Alert) (now : ℕ)
    → total c.entries + 1 < 2 ^ 64
    → alert.coalesced ≡ false
    → AreFresh c.entries
    → AreFresh ((add c alert now).0.entries)
unfolding add_found
add-AreFresh c alert now h f all = elim (Option-cases (GoMap.get c.entries (key_of alert))) [
  | inl e ↦ rw (add-found c alert now none e) (
      put-AreFresh c.entries (key_of alert) (record { first = alert; count = 1; last_seen = now })
        (omega arith) f all)
  | inr (w, e) ↦
      let room = count_of_get-le c.entries (key_of alert) w e in
      let same : (w.count + 1) % 2 ^ 64 ≡ w.count + 1 = omega arith in
      rw (add-found c alert now (some w) e, same)
        (put-AreFresh c.entries (key_of alert) (record w { count = w.count + 1; last_seen = now })
          (omega arith) (get-AreFresh c.entries (key_of alert) w e all) all)
]

-- None of the alerts is a coalesced one already.
abbrev pub AreSingle : List (Alert × ℕ) → Type 0
AreSingle [] = Unit
AreSingle ((alert, now) ∷ rest) = (alert.coalesced ≡ false) × AreSingle rest

add_all-AreFresh :
    (c : Coalescer) (alerts : List (Alert × ℕ))
    → total c.entries + length alerts < 2 ^ 64
    → AreSingle alerts
    → AreFresh c.entries
    → AreFresh ((add_all c alerts).0.entries)
unfolding add_all
add_all-AreFresh c [] h single all = all
add_all-AreFresh c ((alert, now) ∷ rest) h single all =
    let one = total-add c alert now (omega arith) in
    add_all-AreFresh (add c alert now).0 rest (omega arith) single.1
      (add-AreFresh c alert now (omega arith) single.0 all)

total_weight_flushed :
    (m : GoMap CoalesceKey CoalesceEntry)
    → AreFresh m
    → total_weight (map (λ e. flushed_alert e.1) m) ≡ total m
unfolding total_weight total flushed_alert
total_weight_flushed [] h = refl
total_weight_flushed ((k, e) ∷ m) h = ground (arith, total_weight_flushed m h.1)

total_empty : total [] ≡ 0
unfolding total
total_empty = refl

-- Between two flushes of an empty coalescer, with fewer than 2^64 alerts and none of them coalesced
-- before: the event counts of the flushed alerts, one for an alert that is not coalesced, add up to the
-- number of alerts added.
pub flush-add_all :
    (window : ℕ) (alerts : List (Alert × ℕ))
    → length alerts < 2 ^ 64
    → AreSingle alerts
    → total_weight (flush ((add_all (new_coalescer window) alerts).0) true).1 ≡ length alerts
unfolding flush new_coalescer
flush-add_all window alerts h single =
    let c : Coalescer = record { window = window; entries = [] } in
    let none_yet : total c.entries ≡ 0 = total_empty in
    let fresh = add_all-AreFresh c alerts (omega arith) single tt in
    total_weight_flushed ((add_all c alerts).0.entries) fresh
    ∙ omega (arith, total-add_all c alerts (omega arith))

length-add :
    (c : Coalescer) (alert : Alert) (now : ℕ)
    → length ((add c alert now).0.entries)
      ≡ (if (add c alert now).1 then length c.entries else length c.entries + 1)
unfolding add_found
length-add c alert now = elim (Option-cases (GoMap.get c.entries (key_of alert))) [
  | inl e ↦ rw (add-found c alert now none e) (
      length-put_new c.entries (key_of alert) (record { first = alert; count = 1; last_seen = now })
        e)
  | inr (w, e) ↦ rw (add-found c alert now (some w) e) (
      GoMap.length-put_old c.entries (key_of alert)
        (record w { count = (w.count + 1) % 2 ^ 64; last_seen = now }) w e)
]

-- While alerts are added, the groups grow by exactly the number of the alerts that `Add` hands back for
-- immediate emission.
pub length-add_all :
    (c : Coalescer) (alerts : List (Alert × ℕ))
    → length ((add_all c alerts).0.entries) ≡ length c.entries + length (add_all c alerts).1
unfolding add_all
length-add_all c [] = omega arith
length-add_all c ((alert, now) ∷ rest) =
    ground (arith, length-add c alert now, length-add_all (add c alert now).0 rest)
