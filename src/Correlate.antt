-- ===== src/Correlate.antt =====
-- The correlation engine of pkg/correlate/correlate.go. A Go map is walked in no fixed order: the
-- association list's order stands for one walk of the windows, and the walk of the rules is an argument.
-- `time.Now()` is read up to four times for a rule; the readings are an argument too. The result channel,
-- the free-text description and the goroutines that call the operations are left out.
pub mod Windows
pub mod Grouping
pub mod Firing
use container_runtime_securi.Prelude.{
  ℕ, zero, suc, nat_comparable, string_comparable, bytes_comparable, Comparable, ◌==◌, ==_iff,
  ==_refl, bytes_beq, bytes_beq_iff, String, ◌<>◌, ◌+◌, ◌-◌, ◌*◌, ◌/◌, ◌%◌, ◌^◌, ◌≤◌, ◌<◌, ◌≡◌,
  refl, sym, ap, ◌∙◌, ◌≢◌, ◌↔◌, ◌⊎◌, inl, inr, Bool, true, false, not, ◌&&◌, ◌||◌, Option, none,
  some, List, [], ◌∷◌, ◌++◌, map, arith, ltb, leb, if◌then◌else◌, Bool-cases, Option-cases, length,
  get_elem?, take, drop, replicate, keep_if, length-append, take-append-drop, length-take,
  length-drop, take_append_left, drop_append_left, length-keep_if-le, drop_behind, get_elem?_behind,
  AllOf, append-AllOf, split-AllOf,
}
use container_runtime_securi.Prelude.{pair_comparable}
use container_runtime_securi.Prelude.GoMap
use container_runtime_securi.Prelude.GoMap.{GoMap}

pub record Signal : Type 0 where
  pub name : String
  pub timestamp : ℕ
  pub pid : ℕ
  pub container_id : String
  pub namespace : String
  pub rule_id : String
  pub extra : GoMap String String

abbrev pub logic_all : String
logic_all = "all"

abbrev pub logic_any : String
logic_any = "any"

pub record CorrelationSpec : Type 0 where
  pub rule_id : String
  pub window : ℕ
  pub signals : List String
  pub logic : String
  pub group_by : List String

pub record CorrelationResult : Type 0 where
  pub rule_id : String
  pub matched_signals : List Signal
  pub window_start : ℕ
  pub window_end : ℕ
  pub group_key : String
  pub pid : ℕ
  pub container_id : String
  pub namespace : String

pub record SignalWindow : Type 0 where
  pub rule_id : String
  pub group_key : String
  pub spec : CorrelationSpec
  pub signals : GoMap String Signal
  pub started : ℕ
  pub fired : Bool

-- Rule id and group key.
abbrev pub WindowKey : Type 0
WindowKey = String × String

unfoldable pub all_present : List String → GoMap String Signal → Bool
all_present [] signals = true
all_present (name ∷ rest) signals = elim (GoMap.get signals name) [
  | none ↦ false
  | some s ↦ all_present rest signals
]

unfoldable pub matches : SignalWindow → Bool
matches sw =
    if sw.spec.logic == logic_all
    then all_present sw.spec.signals sw.signals
    else if sw.spec.logic == logic_any
    then ltb 0 (length sw.signals)
    else length sw.signals == length sw.spec.signals

unfoldable pub is_expired : SignalWindow → ℕ → Bool
is_expired sw now = ltb sw.spec.window (now - sw.started)

pub record Correlator : Type 0 where
  pub rules : GoMap String CorrelationSpec
  pub windows : GoMap WindowKey SignalWindow
  pub max_windows : ℕ
  pub correlations_fired : ℕ
  pub signals_processed : ℕ
  pub windows_created : ℕ
  pub windows_expired : ℕ

unfoldable pub new_correlator : Correlator
new_correlator = record {
  rules = [];
  windows = [];
  max_windows = 10000;
  correlations_fired = 0;
  signals_processed = 0;
  windows_created = 0;
  windows_expired = 0;
}

unfoldable pub add_rule : Correlator → CorrelationSpec → Correlator
add_rule c spec = record c { rules = GoMap.put c.rules spec.rule_id spec }

unfoldable pub remove_rule : Correlator → String → Correlator
remove_rule c rule_id = record c {
  rules = GoMap.delete c.rules rule_id;
  windows = GoMap.delete_if (λ key w. key.0 == rule_id) c.windows;
}

unfoldable pub signal_matches_rule : Signal → List String → Bool
signal_matches_rule signal [] = false
signal_matches_rule signal (name ∷ rest) = signal.name == name || signal_matches_rule signal rest

-- One turn of the loop of `evictEldestWindow`: the first of the earliest start so far.
unfoldable pub older : Option (WindowKey × ℕ) → WindowKey × ℕ → Option (WindowKey × ℕ)
older none p = some p
older (some best) p = some (if ltb p.1 best.1 then p else best)

unfoldable pub eldest :
    Option (WindowKey × ℕ) → GoMap WindowKey SignalWindow → Option (WindowKey × ℕ)
eldest best [] = best
eldest best ((key, w) ∷ rest) = eldest (older best (key, w.started)) rest

unfoldable pub evict : Correlator → Option (WindowKey × ℕ) → Correlator
evict c none = c
evict c (some best) =
    if best.0.0 == "" then c else record c { windows = GoMap.delete c.windows best.0 }

unfoldable pub evict_eldest_window : Correlator → Correlator
evict_eldest_window c = evict c (eldest none c.windows)

-- The readings of the clock in one turn of the loop of `ProcessSignal`: when the window's expiry is
-- tested, when it is tested again for the statistics, when a window starts and when a result ends.
pub record Readings : Type 0 where
  pub asked : ℕ
  pub counted : ℕ
  pub opened : ℕ
  pub closed : ℕ

unfoldable pub make_room : Correlator → Correlator
make_room c = if leb c.max_windows (length c.windows) then evict_eldest_window c else c

unfoldable pub new_window : WindowKey → CorrelationSpec → ℕ → SignalWindow
new_window key spec now = record {
  rule_id = key.0;
  group_key = key.1;
  spec = spec;
  signals = [];
  started = now;
  fired = false;
}

unfoldable pub open_window :
    Correlator → WindowKey → CorrelationSpec → ℕ → Correlator × SignalWindow
open_window c key spec now =
    let window = new_window key spec now in
    let room = make_room c in
    (
      record room {
        windows = GoMap.put room.windows key window;
        windows_created = (room.windows_created + 1) % 2 ^ 64;
      },
      window,
    )

-- Get or create the window, from the look-up of its key.
unfoldable pub obtain :
    Correlator
    → WindowKey
    → CorrelationSpec
    → Readings
    → Option SignalWindow
    → Correlator × SignalWindow
obtain c key spec t none = open_window c key spec t.opened
obtain c key spec t (some w) =
    let counted : Correlator =
      if is_expired w t.counted
      then record c { windows_expired = (c.windows_expired + 1) % 2 ^ 64 }
      else c in
    if is_expired w t.asked then open_window counted key spec t.opened else (c, w)

-- `buildResult`; the window holds at least the signal just added, whose fields stand for the index 0 of an
-- empty list, where the Go code would panic.
unfoldable pub build_result : SignalWindow → Signal → ℕ → CorrelationResult
build_result w signal now =
    let matched = map (λ p. p.1) w.signals in
    let head : Signal = elim (get_elem? matched 0) [ none ↦ signal | some s ↦ s ] in
    record {
      rule_id = w.rule_id;
      matched_signals = matched;
      window_start = w.started;
      window_end = now;
      group_key = w.group_key;
      pid = head.pid;
      container_id = head.container_id;
      namespace = head.namespace;
    }

-- The signal enters its window, which fires at most once.
unfoldable pub record_signal :
    WindowKey → Signal → ℕ → Correlator × SignalWindow → Correlator × Option CorrelationResult
record_signal key signal now (c, got) =
    let added : SignalWindow = record got { signals = GoMap.put got.signals signal.name signal } in
    let fires = not got.fired && matches added in
    let window : SignalWindow = record added { fired = got.fired || fires } in
    (
      record c {
        windows = GoMap.put c.windows key window;
        correlations_fired =
            if fires then (c.correlations_fired + 1) % 2 ^ 64 else c.correlations_fired;
      },
      if fires then some (build_result window signal now) else none,
    )

module _ (decimal : ℕ → String) where
  unfoldable pub group_part : Signal → String → String
  group_part signal field =
      if field == "proc.pid" || field == "pid"
      then "pid:" <> decimal signal.pid
      else if field == "container.id" || field == "container_id"
      then "cid:" <> signal.container_id
      else if field == "namespace"
      then "ns:" <> signal.namespace
      else elim (GoMap.get signal.extra field) [ none ↦ "" | some v ↦ field <> ":" <> v ]

  unfoldable pub group_parts : Signal → List String → String → String
  group_parts signal [] key = key
  group_parts signal (field ∷ rest) key = group_parts signal rest (key <> group_part signal field)

  unfoldable pub build_group_key : Signal → CorrelationSpec → String
  build_group_key signal spec =
      let key = group_parts signal spec.group_by "" in if key == "" then "global" else key

  -- One turn of the loop of `ProcessSignal`.
  unfoldable pub visit_rule :
      Correlator
      → Signal
      → String
      → CorrelationSpec
      → Readings
      → Correlator × Option CorrelationResult
  visit_rule c signal rule_id spec t =
      let key : WindowKey = (rule_id, build_group_key signal spec) in
      if signal_matches_rule signal spec.signals
      then record_signal key signal t.closed (obtain c key spec t (GoMap.get c.windows key))
      else (c, none)

  -- The loop, which returns at the first rule that fires.
  unfoldable pub visit_rules :
      Correlator
      → Signal
      → List ((String × CorrelationSpec) × Readings)
      → Correlator × Option CorrelationResult
  visit_rules c signal [] = (c, none)
  visit_rules c signal ((rule, t) ∷ rest) =
      let one = visit_rule c signal rule.0 rule.1 t in
      elim one.1 [ some result ↦ (one.0, some result) | none ↦ visit_rules one.0 signal rest ]

  unfoldable pub process_signal :
      Correlator
      → Signal
      → List ((String × CorrelationSpec) × Readings)
      → Correlator × Option CorrelationResult
  process_signal c signal order =
      visit_rules (record c { signals_processed = (c.signals_processed + 1) % 2 ^ 64 }) signal order

unfoldable pub purge_expired_windows : Correlator → ℕ → Correlator
purge_expired_windows c now =
    let kept = GoMap.delete_if (λ key w. is_expired w now) c.windows in
    record c {
      windows = kept;
      windows_expired = (c.windows_expired + (length c.windows - length kept)) % 2 ^ 64;
    }
