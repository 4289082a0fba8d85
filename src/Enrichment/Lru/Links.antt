-- ===== src/Enrichment/Lru/Links.antt =====
-- The invariant of the caches of pkg/enrichment/container.go: their map and their list agree.
use container_runtime_securi.Prelude.{
  nat_comparable, string_comparable, bytes_comparable, Comparable, ◌==◌, ◌≡◌, refl, sym, ap, ◌∙◌,
  inl, inr, Bool, true, false, not, ◌&&◌, ◌||◌, Option, none, some, List, [], ◌∷◌, arith,
  if◌then◌else◌, Bool-cases, keep_if,
}
use mathlib.Core.Path.{subst}
use container_runtime_securi.Prelude.GoMap
use container_runtime_securi.Prelude.GoMap.{
  GoMap, get-put, get-delete, get-delete_if, put-IsMap, delete-IsMap, delete_if-IsMap,
  length-put_old, length-put_new, length-delete-lt, length-delete_if-le, length-put-le,
}
use container_runtime_securi.Prelude.Members.{is_member}
use container_runtime_securi.Enrichment.Lru.{
  Lru, remove_entry, add_to_front, move_to_front, tail_of, discard, evict_entry, evict_lru,
  store_found, store, touch, sweep,
}

module _ {K : Type 0} ⦃e : Comparable K⦄ where
  abbrev pub IsDistinct : List K → Type 0
  IsDistinct [] = Unit
  IsDistinct (k ∷ order) = (is_member order k ≡ false) × IsDistinct order

  pub is_member-keep_if :
      (p : K → Bool) (order : List K) (j : K)
      → is_member (keep_if p order) j ≡ (is_member order j && p j)
  unfolding is_member
  is_member-keep_if p [] j = refl
  is_member-keep_if p (k ∷ order) j = elim (Bool-cases (k == j)) [
    | inl same ↦
        let here : p k ≡ p j = ap p ((e.same_iff k j).0 same) in
        ground (arith, here, is_member-keep_if p order j)
    | inr other ↦ ground (arith, is_member-keep_if p order j)
  ]

  pub keep_if-IsDistinct :
      (p : K → Bool) (order : List K) → IsDistinct order → IsDistinct (keep_if p order)
  keep_if-IsDistinct p [] h = h
  keep_if-IsDistinct p (k ∷ order) h = elim (Bool-cases (p k)) [
    | inl kept ↦ rw kept (is_member-keep_if p order k ∙ rw h.0 refl, keep_if-IsDistinct p order h.1)
    | inr gone ↦ rw gone (keep_if-IsDistinct p order h.1)
  ]

  pub is_member-remove_entry :
      (order : List K) (k j : K)
      → is_member (remove_entry order k) j ≡ (if k == j then false else is_member order j)
  unfolding remove_entry
  is_member-remove_entry order k j =
      ground (arith, is_member-keep_if (λ i. not (i == k)) order j, e.same_iff k j, e.same_iff j k)

  pub add_to_front-IsDistinct :
      (order : List K) (k : K)
      → is_member order k ≡ false
      → IsDistinct order
      → IsDistinct (add_to_front order k)
  unfolding add_to_front
  add_to_front-IsDistinct order k h d = (h, d)

  pub remove_entry-IsDistinct :
      (order : List K) (k : K) → IsDistinct order → IsDistinct (remove_entry order k)
  unfolding remove_entry
  remove_entry-IsDistinct order k d = keep_if-IsDistinct (λ i. not (i == k)) order d

  pub move_to_front-IsDistinct :
      (order : List K) (k : K) → IsDistinct order → IsDistinct (move_to_front order k)
  unfolding move_to_front add_to_front is_member
  move_to_front-IsDistinct [] k d = (refl, tt)
  move_to_front-IsDistinct (head ∷ order) k d = elim (Bool-cases (head == k)) [
    | inl first ↦ rw first d
    | inr other ↦ rw other (
      is_member-remove_entry (head ∷ order) k k ∙ ground (arith, e.same_iff k k),
      remove_entry-IsDistinct (head ∷ order) k d,
    )
  ]

  pub is_member-move_to_front :
      (order : List K) (k j : K)
      → is_member order k ≡ true
      → is_member (move_to_front order k) j ≡ is_member order j
  unfolding move_to_front add_to_front is_member
  is_member-move_to_front [] k j h = absurd cc
  is_member-move_to_front (head ∷ order) k j h = ground (
    arith,
    is_member-remove_entry (head ∷ order) k j,
    e.same_iff k j,
    e.same_iff head k,
    e.same_iff head j,
  )

  pub tail_of-is_member :
      (order : List K) (k : K) → tail_of order ≡ some k → is_member order k ≡ true
  unfolding tail_of is_member
  tail_of-is_member [] k h = absurd cc
  tail_of-is_member (i ∷ []) k h = ground (arith, e.same_iff i k)
  tail_of-is_member (i ∷ j ∷ order) k h = ground (arith, tail_of-is_member (j ∷ order) k h)

  pub tail_of-some : (k : K) (order : List K) → (j : K) × (tail_of (k ∷ order) ≡ some j)
  unfolding tail_of
  tail_of-some k [] = (k, refl)
  tail_of-some k (j ∷ order) = tail_of-some j order

  pub tail_of-none : (order : List K) (k : K) → tail_of order ≡ none → is_member order k ≡ false
  unfolding is_member
  tail_of-none [] k h = refl
  tail_of-none (j ∷ order) k h = let found = (tail_of-some j order).1 in absurd (cc (found, h))

module _ {K V : Type 0} ⦃e : Comparable K⦄ where
  -- A key of the map.
  abbrev pub has_key : GoMap K V → K → Bool
  has_key m k = elim (GoMap.get m k) [ none ↦ false | some v ↦ true ]

  -- The map holds a key once, and the list has exactly the keys of the map, each once.
  abbrev pub IsLinked : Lru K V → Type 0
  IsLinked c =
      GoMap.IsMap c.entries
      × IsDistinct c.order
      × ((k : K) → is_member c.order k ≡ has_key c.entries k)

  pub has_key-put :
      (m : GoMap K V) (k j : K) (v : V) → has_key (GoMap.put m k v) j ≡ (k == j || has_key m j)
  has_key-put m k j v = ground (arith, get-put m k j v)

  -- Writing to a key that is there keeps the keys.
  pub has_key-put_old :
      (m : GoMap K V) (k j : K) (v : V)
      → has_key m k ≡ true
      → has_key (GoMap.put m k v) j ≡ has_key m j
  has_key-put_old m k j v h = has_key-put m k j v ∙ elim (Bool-cases (k == j)) [
    | inl same ↦ rw same (sym (subst (λ i. has_key m i ≡ true) ((e.same_iff k j).0 same) h))
    | inr other ↦ rw other refl
  ]

  pub has_key-delete :
      (m : GoMap K V) (k j : K)
      → has_key (GoMap.delete m k) j ≡ (if k == j then false else has_key m j)
  has_key-delete m k j = ground (arith, get-delete m k j)

  pub discard-IsLinked : (c : Lru K V) (k : K) → IsLinked c → IsLinked (discard c k)
  unfolding discard
  discard-IsLinked c k h = (
    delete-IsMap c.entries k h.0,
    remove_entry-IsDistinct c.order k h.1,
    λ j.
        is_member-remove_entry c.order k j
        ∙ (ap (λ b. if k == j then false else b) (h.2 j) ∙ sym (has_key-delete c.entries k j)),
  )

  pub evict_entry-IsLinked :
      (c : Lru K V) (victim : Option K) → IsLinked c → IsLinked (evict_entry c victim)
  unfolding evict_entry
  evict_entry-IsLinked c none h = h
  evict_entry-IsLinked c (some victim) h = discard-IsLinked c victim h

  pub has_key-evict_entry :
      (c : Lru K V) (victim : Option K) (k : K)
      → has_key c.entries k ≡ false
      → has_key (evict_entry c victim).entries k ≡ false
  unfolding evict_entry discard
  has_key-evict_entry c none k h = h
  has_key-evict_entry c (some victim) k h = ground (arith, has_key-delete c.entries victim k, h)

  -- The cache with room for a new key.
  abbrev pub room_of : Bool → Lru K V → Lru K V
  room_of full c = if full then evict_lru c else c

  pub room_of-IsLinked : (full : Bool) (c : Lru K V) → IsLinked c → IsLinked (room_of full c)
  unfolding evict_lru
  room_of-IsLinked false c h = h
  room_of-IsLinked true c h = evict_entry-IsLinked c (tail_of c.order) h

  pub has_key-room_of :
      (full : Bool) (c : Lru K V) (k : K)
      → has_key c.entries k ≡ false
      → has_key (room_of full c).entries k ≡ false
  unfolding evict_lru
  has_key-room_of false c k h = h
  has_key-room_of true c k h = has_key-evict_entry c (tail_of c.order) k h

  pub store_found-IsLinked :
      (full : Bool) (c : Lru K V) (k : K) (v : V) (found : Option V)
      → GoMap.get c.entries k ≡ found
      → IsLinked c
      → IsLinked (store_found full c k v found)
  unfolding store_found add_to_front is_member
  store_found-IsLinked full c k v (some old) at h =
      let held : is_member c.order k ≡ true = ground (arith, h.2 k) in
      (
        put-IsMap c.entries k v h.0,
        move_to_front-IsDistinct c.order k h.1,
        λ j.
            is_member-move_to_front c.order k j held
            ∙ (h.2 j ∙ sym (has_key-put_old c.entries k j v (sym (h.2 k) ∙ held))),
      )
  store_found-IsLinked full c k v none at h =
      let room = room_of full c in
      let linked = room_of-IsLinked full c h in
      let new : has_key room.entries k ≡ false = has_key-room_of full c k (ground arith) in
      (
        put-IsMap room.entries k v linked.0,
        (linked.2 k ∙ new, linked.1),
        λ j. ap (λ b. k == j || b) (linked.2 j) ∙ sym (has_key-put room.entries k j v),
      )

  pub store-IsLinked :
      (full : Bool) (c : Lru K V) (k : K) (v : V) → IsLinked c → IsLinked (store full c k v)
  unfolding store
  store-IsLinked full c k v h = store_found-IsLinked full c k v (GoMap.get c.entries k) refl h

  pub touch-IsLinked :
      (c : Lru K V) (k : K) (v old : V)
      → GoMap.get c.entries k ≡ some old
      → IsLinked c
      → IsLinked (touch c k v)
  unfolding touch
  touch-IsLinked c k v old at h = (
    put-IsMap c.entries k v h.0,
    h.1,
    λ j. h.2 j ∙ sym (has_key-put_old c.entries k j v (ground arith)),
  )

  pub sweep-IsLinked : (test : V → Bool) (c : Lru K V) → IsLinked c → IsLinked (sweep test c)
  unfolding sweep
  sweep-IsLinked test c h = (
    delete_if-IsMap (λ k v. test v) c.entries h.0,
    keep_if-IsDistinct _ c.order h.1,
    λ j.
        is_member-keep_if _ c.order j
        ∙ ground (arith, h.2 j, get-delete_if (λ k v. test v) c.entries j h.0),
  )
