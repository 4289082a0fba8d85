-- ===== src/Correlate/Grouping.antt =====
-- The signals of a window and of a result (pkg/correlate/correlate.go).
use container_runtime_securi.Prelude.{
  ℕ, nat_comparable, string_comparable, bytes_comparable, ◌==◌, ==_iff, String, ◌+◌, ◌%◌, ◌^◌, ◌≡◌,
  refl, sym, ap, ◌∙◌, ◌≢◌, ◌⊎◌, inl, inr, Bool, true, not, ◌&&◌, ◌||◌, Option, none, some, List, [],
  ◌∷◌, map, arith, leb, if◌then◌else◌, Bool-cases, Option-cases, length, AllOf,
}
use mathlib.Core.Path.{subst}
use mathlib.Core.Option.{some_inj}
use container_runtime_securi.Prelude.{pair_comparable}
use container_runtime_securi.Prelude.GoMap
use container_runtime_securi.Prelude.GoMap.{
  GoMap, get-put, put-AllOf, delete-AllOf, delete_if-AllOf, get-AllOf, length-put-le,
  length-put_old, length-delete-lt, length-delete_if-le,
}
use container_runtime_securi.Correlate.{
  Signal, CorrelationSpec, CorrelationResult, SignalWindow, WindowKey, logic_all, all_present,
  matches, is_expired, Correlator, signal_matches_rule, Readings, make_room, new_window,
  open_window, obtain, build_result, record_signal, build_group_key, visit_rule, visit_rules,
  process_signal,
}
use container_runtime_securi.Correlate.Windows.{evict-AllOf}

-- A signal of the name is in the list.
abbrev pub Seen : String → List Signal → Type 0
Seen name [] = ⊥
Seen name (s ∷ rest) = (s.name ≡ name) ⊎ Seen name rest

none-some : {r : CorrelationResult} → none ≢ some r
none-some e = cc

matches-fired :
    (w : SignalWindow) (b : Bool) → matches w ≡ true → matches (record w { fired = b }) ≡ true
unfolding matches
matches-fired w b h = h

module _ (decimal : ℕ → String) (table : String → CorrelationSpec) where
  -- A window belongs to its key and its rule, and its signals to its group.
  pub record IsOwn (key : WindowKey) (w : SignalWindow) : Type 0 where
    pub rule_id : w.rule_id ≡ key.0
    pub group_key : w.group_key ≡ key.1
    pub spec : w.spec ≡ table key.0
    pub signals :
        AllOf
          (λ s. (s.1.name ≡ s.0) × (build_group_key decimal s.1 (table key.0) ≡ key.1))
          w.signals

  abbrev pub AreGrouped : GoMap WindowKey SignalWindow → Type 0
  AreGrouped m = AllOf (λ p. IsOwn p.0 p.1) m

  -- What a fired result promises: its signals are of one group, and for the logic "all" every signal of the
  -- rule is among them.
  pub record IsCorrelated (r : CorrelationResult) : Type 0 where
    pub grouped :
        AllOf (λ s. build_group_key decimal s (table r.rule_id) ≡ r.group_key) r.matched_signals
    pub complete :
        (table r.rule_id).logic ≡ logic_all
        → AllOf (λ name. Seen name r.matched_signals) (table r.rule_id).signals

  make_room-AreGrouped :
      (c : Correlator) → AreGrouped c.windows → AreGrouped ((make_room c).windows)
  unfolding make_room
  make_room-AreGrouped c h = elim (Bool-cases (leb c.max_windows (length c.windows))) [
    | inl full ↦ rw full (evict-AllOf (λ p. IsOwn p.0 p.1) c h)
    | inr room ↦ rw room h
  ]

  open_window-AreGrouped :
      (c : Correlator) (key : WindowKey) (now : ℕ)
      → AreGrouped c.windows
      → AreGrouped ((open_window c key (table key.0) now).0.windows)
        × IsOwn key ((open_window c key (table key.0) now).1)
  unfolding open_window new_window
  open_window-AreGrouped c key now h =
      let own : IsOwn key (new_window key (table key.0) now) = record {
        rule_id = refl;
        group_key = refl;
        spec = refl;
        signals = tt;
      } in
      (
        put-AllOf (λ p. IsOwn p.0 p.1) (make_room c).windows key (new_window key (table key.0) now)
            own (make_room-AreGrouped c h),
        own,
      )

  obtain-AreGrouped :
      (c : Correlator) (key : WindowKey) (t : Readings) (found : Option SignalWindow)
      → GoMap.get c.windows key ≡ found
      → AreGrouped c.windows
      → AreGrouped ((obtain c key (table key.0) t found).0.windows)
        × IsOwn key ((obtain c key (table key.0) t found).1)
  unfolding obtain
  obtain-AreGrouped c key t none e h = open_window-AreGrouped c key t.opened h
  obtain-AreGrouped c key t (some w) e h = elim (Bool-cases (is_expired w t.asked)) [
    | inl expired ↦ rw expired (elim (Bool-cases (is_expired w t.counted)) [
      | inl again ↦ rw again (
          open_window-AreGrouped (record c { windows_expired = (c.windows_expired + 1) % 2 ^ 64 })
            key t.opened h)
      | inr just_now ↦ rw just_now (open_window-AreGrouped c key t.opened h)
    ])
    | inr live ↦ rw live (h, get-AllOf (λ p. IsOwn p.0 p.1) c.windows key w e h)
  ]

  Seen-get :
      (m : GoMap String Signal) (name : String) (s : Signal) (key : WindowKey)
      → GoMap.get m name ≡ some s
      → AllOf (λ p. (p.1.name ≡ p.0) × (build_group_key decimal p.1 (table key.0) ≡ key.1)) m
      → Seen name (map (λ p. p.1) m)
  unfolding GoMap.get
  Seen-get [] name s key e h = absurd cc
  Seen-get ((n, x) ∷ m) name s key e h = elim (Bool-cases (n == name)) [
    | inl same ↦ inl (h.0.0 ∙ (==_iff n name).0 same)
    | inr other ↦ inr (Seen-get m name s key (ground arith) h.1)
  ]

  all_present-Seen :
      (names : List String) (m : GoMap String Signal) (key : WindowKey)
      → all_present names m ≡ true
      → AllOf (λ p. (p.1.name ≡ p.0) × (build_group_key decimal p.1 (table key.0) ≡ key.1)) m
      → AllOf (λ name. Seen name (map (λ p. p.1) m)) names
  unfolding all_present
  all_present-Seen [] m key e h = tt
  all_present-Seen (name ∷ rest) m key e h = elim (Option-cases (GoMap.get m name)) [
    | inl missing ↦ ground arith
    | inr (s, there) ↦ (Seen-get m name s key there h, all_present-Seen rest m key (ground arith) h)
  ]

  grouped_signals :
      (m : GoMap String Signal) (key : WindowKey)
      → AllOf (λ p. (p.1.name ≡ p.0) × (build_group_key decimal p.1 (table key.0) ≡ key.1)) m
      → AllOf (λ s. build_group_key decimal s (table key.0) ≡ key.1) (map (λ p. p.1) m)
  grouped_signals [] key h = tt
  grouped_signals ((n, s) ∷ m) key h = (h.0.1, grouped_signals m key h.1)

  own_key : (key : WindowKey) (w : SignalWindow) → IsOwn key w → (w.rule_id, w.group_key) ≡ key
  own_key key w own = ap (λ i. (i, w.group_key)) own.rule_id ∙ ap (λ g. (key.0, g)) own.group_key

  build_result-IsCorrelated :
      (key : WindowKey) (w : SignalWindow) (signal : Signal) (now : ℕ)
      → IsOwn key w
      → matches w ≡ true
      → IsCorrelated (build_result w signal now)
  unfolding build_result matches
  build_result-IsCorrelated key w signal now own fires = record {
    grouped =
        subst
          (λ k. AllOf (λ s. build_group_key decimal s (table k.0) ≡ k.1) (map (λ p. p.1) w.signals))
          (sym (own_key key w own)) (grouped_signals w.signals key own.signals);
    complete = λ all.
        let same : w.spec ≡ table w.rule_id = own.spec ∙ ap table (sym own.rule_id) in
        let logic : w.spec.logic == logic_all ≡ true =
          (==_iff w.spec.logic logic_all).1 (ap (λ spec. spec.logic) same ∙ all) in
        let present : all_present w.spec.signals w.signals ≡ true = ground arith in
        subst (λ spec. AllOf (λ name. Seen name (map (λ p. p.1) w.signals)) spec.signals) same
          (all_present-Seen w.spec.signals w.signals key present own.signals);
  }

  add_signal-IsOwn :
      (key : WindowKey) (signal : Signal) (w : SignalWindow) (fired : Bool)
      → build_group_key decimal signal (table key.0) ≡ key.1
      → IsOwn key w
      → IsOwn key (record w { signals = GoMap.put w.signals signal.name signal; fired = fired })
  add_signal-IsOwn key signal w fired group own = record {
    rule_id = own.rule_id;
    group_key = own.group_key;
    spec = own.spec;
    signals =
        put-AllOf (λ s. (s.1.name ≡ s.0) × (build_group_key decimal s.1 (table key.0) ≡ key.1))
          w.signals signal.name signal (refl, group) own.signals;
  }

  -- A turn of the loop, after its two effects: the windows stay grouped, and a result is correlated.
  abbrev Turned : Correlator × Option CorrelationResult → Type 0
  Turned p = AreGrouped p.0.windows × ((r : CorrelationResult) → p.1 ≡ some r → IsCorrelated r)

  record_signal-Turned :
      (key : WindowKey) (signal : Signal) (now : ℕ) (p : Correlator × SignalWindow)
      → build_group_key decimal signal (table key.0) ≡ key.1
      → AreGrouped p.0.windows × IsOwn key p.1
      → Turned (record_signal key signal now p)
  unfolding record_signal
  record_signal-Turned key signal now (c, got) group h =
      let added : SignalWindow = record got {
        signals = GoMap.put got.signals signal.name signal;
      } in
      let fires = not got.fired && matches added in
      let window : SignalWindow = record added { fired = got.fired || fires } in
      let own = add_signal-IsOwn key signal got (got.fired || fires) group h.1 in
      (
        put-AllOf (λ p. IsOwn p.0 p.1) c.windows key window own h.0,
        λ r e. elim (Bool-cases fires) [
          | inl yes_fires ↦
              let matched : matches window ≡ true =
                matches-fired added (got.fired || fires) (ground arith) in
              subst IsCorrelated
                (some_inj.0 (
                  sym
                    (ap (λ b. if b then some (build_result window signal now) else none) yes_fires)
                  ∙ e))
                (build_result-IsCorrelated key window signal now own matched)
          | inr silent ↦ absurd (
              none-some (
                sym (ap (λ b. if b then some (build_result window signal now) else none) silent)
                ∙ e))
        ],
      )

  visit_rule-Turned :
      (c : Correlator) (signal : Signal) (rule_id : String) (t : Readings)
      → AreGrouped c.windows
      → Turned (visit_rule decimal c signal rule_id (table rule_id) t)
  unfolding visit_rule
  visit_rule-Turned c signal rule_id t h =
      let key : WindowKey = (rule_id, build_group_key decimal signal (table rule_id)) in
      elim (Bool-cases (signal_matches_rule signal (table rule_id).signals)) [
        | inl relevant ↦ rw relevant (
            record_signal-Turned key signal t.closed
              (obtain c key (table rule_id) t (GoMap.get c.windows key)) refl
              (obtain-AreGrouped c key t (GoMap.get c.windows key) refl h))
        | inr other ↦ rw other (h, λ r e. absurd (none-some e))
      ]

  visit_rules-Turned :
      (c : Correlator) (signal : Signal) (order : List ((String × CorrelationSpec) × Readings))
      → AllOf (λ turn. turn.0.1 ≡ table turn.0.0) order
      → AreGrouped c.windows
      → Turned (visit_rules decimal c signal order)
  unfolding visit_rules
  visit_rules-Turned c signal [] current h = (h, λ r e. absurd (none-some e))
  visit_rules-Turned c signal ((rule, t) ∷ rest) current h =
      let one = visit_rule decimal c signal rule.0 rule.1 t in
      let turned : Turned one =
        subst (λ spec. Turned (visit_rule decimal c signal rule.0 spec t)) (sym current.0)
          (visit_rule-Turned c signal rule.0 t h) in
      let shape : Option CorrelationResult → Type 0 = λ o.
        Turned (elim o as (λ _. Correlator × Option CorrelationResult) [
          | some result ↦ (one.0, some result)
          | none ↦ visit_rules decimal one.0 signal rest
        ]) in
      elim (Option-cases one.1) [
        | inl e ↦ subst shape (sym e) (visit_rules-Turned one.0 signal rest current.1 turned.0)
        | inr (result, e) ↦ subst shape (sym e) (turned.0, λ r same. turned.1 r (e ∙ same))
      ]

  -- If every window belongs to its key (its rule, that rule's specification in the table, and only signals
  -- of its group), and the walk visits rules with their specifications in the table: after a signal
  -- every window still does, and a result, if there is one, has only signals of its own group, and for the
  -- logic "all" a signal of every name that the rule lists.
  pub process_signal-IsCorrelated :
      (c : Correlator) (signal : Signal) (order : List ((String × CorrelationSpec) × Readings))
      → AllOf (λ turn. turn.0.1 ≡ table turn.0.0) order
      → AreGrouped c.windows
      → AreGrouped ((process_signal decimal c signal order).0.windows)
        × ((r : CorrelationResult)
            → (process_signal decimal c signal order).1 ≡ some r
            → IsCorrelated r)
  unfolding process_signal
  process_signal-IsCorrelated c signal order current h =
      visit_rules-Turned (record c { signals_processed = (c.signals_processed + 1) % 2 ^ 64 })
        signal order current h
