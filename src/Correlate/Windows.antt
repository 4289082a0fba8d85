-- ===== src/Correlate/Windows.antt =====
-- The number of windows of the correlation engine (pkg/correlate/correlate.go).
use container_runtime_securi.Prelude.{
  ℕ, nat_comparable, string_comparable, bytes_comparable, ◌==◌, ==_iff, ==_refl, String, ◌+◌, ◌%◌,
  ◌^◌, ◌≤◌, ◌<◌, ◌≡◌, refl, sym, ap, ◌≢◌, inl, inr, Bool, true, false, not, ◌&&◌, ◌||◌, Option,
  none, some, List, [], ◌∷◌, arith, ltb, leb, if◌then◌else◌, Bool-cases, Option-cases, length,
  AllOf,
}
use mathlib.Core.Path.{subst}
use mathlib.Core.Option.{some_inj}
use container_runtime_securi.Prelude.{pair_comparable, map_AllOf}
use container_runtime_securi.Prelude.GoMap
use container_runtime_securi.Prelude.GoMap.{
  GoMap, get-put, put-AllOf, delete-AllOf, delete_if-AllOf, get-AllOf, length-put-le,
  length-put_old, length-delete-lt, length-delete_if-le,
}
use container_runtime_securi.Correlate.{
  Signal, CorrelationSpec, CorrelationResult, SignalWindow, WindowKey, matches, is_expired,
  Correlator, signal_matches_rule, older, eldest, evict, evict_eldest_window, Readings, make_room,
  new_window, open_window, obtain, record_signal, build_group_key, visit_rule, visit_rules,
  process_signal,
}

-- No window belongs to a rule with an empty id.
abbrev pub AreNamed : GoMap WindowKey SignalWindow → Type 0
AreNamed m = AllOf (λ p. p.0.0 ≢ "") m

-- A property of all windows, and of the best so far, is one of the window that eviction finds.
eldest-keeps :
    (P : WindowKey × ℕ → Type 0) (m : GoMap WindowKey SignalWindow) (best : Option (WindowKey × ℕ))
    (found : WindowKey × ℕ)
    → AllOf (λ p. P (p.0, p.1.started)) m
    → ((b : WindowKey × ℕ) → best ≡ some b → P b)
    → eldest best m ≡ some found
    → P found
unfolding eldest older
eldest-keeps P [] best found all first h = first found h
eldest-keeps P ((k, w) ∷ m) none found all first h =
    eldest-keeps P m (some (k, w.started)) found all.1 (λ b e. subst P (some_inj.0 e) all.0) h
eldest-keeps P ((k, w) ∷ m) (some old) found all first h =
    eldest-keeps P m (some (if ltb w.started old.1 then (k, w.started) else old)) found all.1
      (λ b e. subst P (some_inj.0 e) (elim (Bool-cases (ltb w.started old.1)) [
        | inl earlier ↦ rw earlier all.0
        | inr later ↦ rw later (first old refl)
      ]))
      h

eldest-some : (m : GoMap WindowKey SignalWindow) (b : WindowKey × ℕ) → eldest (some b) m ≢ none
unfolding eldest older
eldest-some [] b h = cc
eldest-some ((k, w) ∷ m) b h = eldest-some m (if ltb w.started b.1 then (k, w.started) else b) h

abbrev Held : GoMap WindowKey SignalWindow → WindowKey → Type 0
Held m key = (w : SignalWindow) × (GoMap.get m key ≡ some w)

all-Held : (m : GoMap WindowKey SignalWindow) → AllOf (λ p. Held m p.0) m
unfolding GoMap.get
all-Held [] = tt
all-Held ((k, w) ∷ m) = (
  (w, rw (==_refl k)),
  map_AllOf (λ p. Held m p.0) (λ p. Held ((k, w) ∷ m) p.0)
      (λ p held. elim (Bool-cases (k == p.0)) [
        | inl same ↦ (w, rw same)
        | inr other ↦ (held.0, rw other held.1)
      ])
      m (all-Held m),
)

eldest_nonempty : (m : GoMap WindowKey SignalWindow) → 1 ≤ length m → eldest none m ≢ none
unfolding eldest older
eldest_nonempty [] h e = omega arith
eldest_nonempty ((k, w) ∷ m) h e = eldest-some m (k, w.started) e

evict-found :
    (c : Correlator) (found : Option (WindowKey × ℕ))
    → eldest none c.windows ≡ found
    → evict_eldest_window c ≡ evict c found
unfolding evict_eldest_window
evict-found c found e = ap (evict c) e

-- Eviction makes room, and keeps the names.
evict-lt :
    (c : Correlator)
    → AreNamed c.windows
    → 1 ≤ length c.windows
    → length ((evict_eldest_window c).windows) < length c.windows
unfolding evict
evict-lt c named size = elim (Option-cases (eldest none c.windows)) [
  | inl e ↦ absurd (eldest_nonempty c.windows size e)
  | inr (found, e) ↦
      let held =
        eldest-keeps (λ b. Held c.windows b.0) c.windows none found (all-Held c.windows)
          (λ b h. absurd cc) e in
      let name = eldest-keeps (λ b. b.0.0 ≢ "") c.windows none found named (λ b h. absurd cc) e in
      let test : found.0.0 == "" ≡ false = ground (arith, ==_iff found.0.0 "") in
      rw (evict-found c (some found) e, test) (length-delete-lt c.windows found.0 held.0 held.1)
]

pub evict-AllOf :
    (P : WindowKey × SignalWindow → Type 0) (c : Correlator)
    → AllOf P c.windows
    → AllOf P ((evict_eldest_window c).windows)
unfolding evict
evict-AllOf P c h = elim (Option-cases (eldest none c.windows)) [
  | inl e ↦ rw (evict-found c none e) h
  | inr (found, e) ↦ elim (Bool-cases (found.0.0 == "")) [
    | inl blank ↦ rw (evict-found c (some found) e, blank) h
    | inr named ↦ rw (evict-found c (some found) e, named) (delete-AllOf P c.windows found.0 h)
  ]
]

evict-max : (c : Correlator) → (evict_eldest_window c).max_windows ≡ c.max_windows
unfolding evict
evict-max c = elim (Option-cases (eldest none c.windows)) [
  | inl e ↦ rw (evict-found c none e)
  | inr (found, e) ↦
      rw (evict-found c (some found) e)
        (elim (Bool-cases (found.0.0 == "")) [ inl blank ↦ rw blank | inr named ↦ rw named ])
]

-- The invariant of the bound.
pub record IsBounded (c : Correlator) : Type 0 where
  pub capacity : 1 ≤ c.max_windows
  pub size : length c.windows ≤ c.max_windows
  pub named : AreNamed c.windows

make_room-IsBounded :
    (c : Correlator)
    → IsBounded c
    → (IsBounded (make_room c)) × (length ((make_room c).windows) < c.max_windows)
unfolding make_room
make_room-IsBounded c h = elim (Bool-cases (leb c.max_windows (length c.windows))) [
  | inl full ↦
      let less = evict-lt c h.named (ground (arith, h.capacity)) in
      let same = evict-max c in
      rw full (
        record {
          capacity = omega (arith, h.capacity);
          size = omega (arith, h.size);
          named = evict-AllOf (λ p. p.0.0 ≢ "") c h.named;
        },
        omega (arith, h.size),
      )
  | inr room ↦ rw room (h, ground arith)
]

make_room-max : (c : Correlator) → (make_room c).max_windows ≡ c.max_windows
unfolding make_room
make_room-max c = elim (Bool-cases (leb c.max_windows (length c.windows))) [
  | inl full ↦ rw full (evict-max c)
  | inr room ↦ rw room
]

-- A window in use: its correlator is bounded, and holds it under its key.
record IsObtained (key : WindowKey) (p : Correlator × SignalWindow) : Type 0 where
  bounded : IsBounded p.0
  held : GoMap.get p.0.windows key ≡ some p.1

open_window-IsObtained :
    (c : Correlator) (key : WindowKey) (spec : CorrelationSpec) (now : ℕ)
    → key.0 ≢ ""
    → IsBounded c
    → IsObtained key (open_window c key spec now)
unfolding open_window
open_window-IsObtained c key spec now name h =
    let room = make_room-IsBounded c h in
    let window = new_window key spec now in
    let capacity : (make_room c).max_windows ≡ c.max_windows = make_room-max c in
    record {
      bounded = record {
        capacity = room.0.capacity;
        size = omega (arith, room.1, length-put-le ((make_room c).windows) key window);
        named = put-AllOf (λ p. p.0.0 ≢ "") (make_room c).windows key window name room.0.named;
      };
      held = rw (get-put ((make_room c).windows) key key window, ==_refl key);
    }

counted_expiry :
    (c : Correlator) (b : Bool) (n : ℕ)
    → IsBounded c
    → IsBounded (if b then record c { windows_expired = n } else c)
counted_expiry c true n h = record { capacity = h.capacity; size = h.size; named = h.named }
counted_expiry c false n h = h

obtain-IsObtained :
    (c : Correlator) (key : WindowKey) (spec : CorrelationSpec) (t : Readings)
    (found : Option SignalWindow)
    → GoMap.get c.windows key ≡ found
    → key.0 ≢ ""
    → IsBounded c
    → IsObtained key (obtain c key spec t found)
unfolding obtain
obtain-IsObtained c key spec t none e name h = open_window-IsObtained c key spec t.opened name h
obtain-IsObtained c key spec t (some w) e name h = elim (Bool-cases (is_expired w t.asked)) [
  | inl expired ↦ rw expired (
      open_window-IsObtained
        (if is_expired w t.counted
          then record c { windows_expired = (c.windows_expired + 1) % 2 ^ 64 }
          else c)
        key spec t.opened name
        (counted_expiry c (is_expired w t.counted) ((c.windows_expired + 1) % 2 ^ 64) h))
  | inr live ↦ rw live (record { bounded = h; held = e })
]

record_signal-IsBounded :
    (key : WindowKey) (signal : Signal) (now : ℕ) (p : Correlator × SignalWindow)
    → key.0 ≢ ""
    → IsObtained key p
    → IsBounded ((record_signal key signal now p).0)
unfolding record_signal
record_signal-IsBounded key signal now (c, got) name h =
    let added : SignalWindow = record got { signals = GoMap.put got.signals signal.name signal } in
    let window : SignalWindow = record added {
      fired = got.fired || (not got.fired && matches added);
    } in
    record {
      capacity = h.bounded.capacity;
      size = omega (arith, h.bounded.size, length-put_old c.windows key window got h.held);
      named = put-AllOf (λ p. p.0.0 ≢ "") c.windows key window name h.bounded.named;
    }

module _ (decimal : ℕ → String) where
  visit_rule-IsBounded :
      (c : Correlator) (signal : Signal) (rule_id : String) (spec : CorrelationSpec) (t : Readings)
      → rule_id ≢ ""
      → IsBounded c
      → IsBounded ((visit_rule decimal c signal rule_id spec t).0)
  unfolding visit_rule
  visit_rule-IsBounded c signal rule_id spec t name h =
      let key : WindowKey = (rule_id, build_group_key decimal signal spec) in
      elim (Bool-cases (signal_matches_rule signal spec.signals)) [
        | inl relevant ↦ rw relevant (
            record_signal-IsBounded key signal t.closed
              (obtain c key spec t (GoMap.get c.windows key)) name
              (obtain-IsObtained c key spec t (GoMap.get c.windows key) refl name h))
        | inr other ↦ rw other h
      ]

  visit_rules-IsBounded :
      (c : Correlator) (signal : Signal) (order : List ((String × CorrelationSpec) × Readings))
      → AllOf (λ turn. turn.0.0 ≢ "") order
      → IsBounded c
      → IsBounded ((visit_rules decimal c signal order).0)
  unfolding visit_rules
  visit_rules-IsBounded c signal [] names h = h
  visit_rules-IsBounded c signal ((rule, t) ∷ rest) names h =
      let one = visit_rule decimal c signal rule.0 rule.1 t in
      let bounded = visit_rule-IsBounded c signal rule.0 rule.1 t names.0 h in
      let shape : Option CorrelationResult → Type 0 = λ o. IsBounded (
        (elim o as (λ _. Correlator × Option CorrelationResult) [
          | some result ↦ (one.0, some result)
          | none ↦ visit_rules decimal one.0 signal rest
        ]).0) in
      elim (Option-cases one.1) [
        | inl e ↦ subst shape (sym e) (visit_rules-IsBounded one.0 signal rest names.1 bounded)
        | inr (result, e) ↦ subst shape (sym e) bounded
      ]

  -- From a state with at least one place for windows, no more windows than places and no window of a rule
  -- with an empty id: processing a signal leads to such a state, in whatever order the rules are walked
  -- and whatever the clock reads, if no rule id in the walk is empty.
  pub process_signal-IsBounded :
      (c : Correlator) (signal : Signal) (order : List ((String × CorrelationSpec) × Readings))
      → AllOf (λ turn. turn.0.0 ≢ "") order
      → IsBounded c
      → IsBounded ((process_signal decimal c signal order).0)
  unfolding process_signal
  process_signal-IsBounded c signal order names h =
      visit_rules-IsBounded (record c { signals_processed = (c.signals_processed + 1) % 2 ^ 64 })
        signal order names (record { capacity = h.capacity; size = h.size; named = h.named })
