-- ===== src/Tests/Correlating.antt =====
-- Tests of the correlation engine.
use container_runtime_securi.Prelude.{
  nat_comparable, string_comparable, bytes_comparable, ==_iff, String, ◌≡◌, refl, sym, ◌∙◌, ◌≢◌,
  true, false, Option, none, some, List, [], ◌∷◌, arith,
}
use mathlib.Core.Path.{subst}
use mathlib.Core.Option.{some_inj}
use container_runtime_securi.Prelude.{pair_comparable}
use container_runtime_securi.Prelude.GoMap
use container_runtime_securi.Correlate.{
  Signal, CorrelationSpec, CorrelationResult, SignalWindow, WindowKey, logic_any, Correlator,
  Readings, remove_rule, matches, is_expired, signal_matches_rule, make_room, new_window,
  open_window, obtain, build_result, record_signal, group_part, group_parts, build_group_key,
  visit_rule, process_signal,
}
use container_runtime_securi.Correlate.Windows.{IsBounded, process_signal-IsBounded}
use container_runtime_securi.Correlate.Grouping.{
  AreGrouped, IsCorrelated, process_signal-IsCorrelated,
}
use container_runtime_securi.Correlate.Firing.{visit_rule-fires_once, remove_rule_lem}
use container_runtime_securi.Tests.{os}

abbrev correlator : Correlator
correlator = record {
  rules = [];
  windows = [];
  max_windows = 1;
  correlations_fired = 0;
  signals_processed = 0;
  windows_created = 0;
  windows_expired = 0;
}

abbrev shell : Signal
shell = record {
  name = "shell_procs";
  timestamp = 1;
  pid = 7;
  container_id = "c1";
  namespace = "prod";
  rule_id = "";
  extra = [];
}

abbrev any_shell : CorrelationSpec
any_shell = record {
  rule_id = "R014";
  window = 5;
  signals = "shell_procs" ∷ [];
  logic = logic_any;
  group_by = "namespace" ∷ [];
}

abbrev at_once : Readings
at_once = record { asked = 1; counted = 1; opened = 1; closed = 2 }

abbrev walk : List ((String × CorrelationSpec) × Readings)
walk = (("R014", any_shell), at_once) ∷ []

abbrev r014 : String
r014 = "R014"

named : r014 ≢ ""
named e = ground (arith, ==_iff r014 "")

process_signal-IsBounded_example : IsBounded ((process_signal os.decimal correlator shell walk).0)
process_signal-IsBounded_example =
    process_signal-IsBounded os.decimal correlator shell walk (named, tt)
      (record { capacity = omega arith; size = omega arith; named = tt })

process_signal-IsCorrelated_example :
    AreGrouped os.decimal
      (λ id. any_shell)
      ((process_signal os.decimal correlator shell walk).0.windows)
    × ((r : CorrelationResult)
        → (process_signal os.decimal correlator shell walk).1 ≡ some r
        → IsCorrelated os.decimal (λ id. any_shell) r)
process_signal-IsCorrelated_example =
    process_signal-IsCorrelated os.decimal (λ id. any_shell) correlator shell walk (refl, tt) tt

abbrev once : Correlator × Option CorrelationResult
once = visit_rule os.decimal correlator shell "R014" any_shell at_once

abbrev fired_result : CorrelationResult
fired_result = record {
  rule_id = "R014";
  matched_signals = shell ∷ [];
  window_start = 1;
  window_end = 2;
  group_key = "ns:prod";
  pid = 7;
  container_id = "c1";
  namespace = "prod";
}

abbrev fired_window : SignalWindow
fired_window = record {
  rule_id = "R014";
  group_key = "ns:prod";
  spec = any_shell;
  signals = ("shell_procs", shell) ∷ [];
  started = 1;
  fired = true;
}

once_fires : once.1 ≡ some fired_result
unfolding visit_rule signal_matches_rule build_group_key group_parts group_part obtain open_window
    make_room new_window record_signal matches build_result GoMap.get GoMap.put
once_fires = refl

once_stores :
    GoMap.get once.0.windows ("R014", build_group_key os.decimal shell any_shell)
    ≡ some fired_window
unfolding visit_rule signal_matches_rule build_group_key group_parts group_part obtain open_window
    make_room new_window record_signal matches build_result GoMap.get GoMap.put
once_stores = refl

still_open : is_expired fired_window 4 ≡ false
unfolding is_expired
still_open = refl

visit_rule-fires_once_example :
    (visit_rule os.decimal once.0 shell "R014" any_shell
      (record { asked = 4; counted = 4; opened = 4; closed = 4 })).1
    ≡ none
visit_rule-fires_once_example =
    visit_rule-fires_once os.decimal correlator shell shell "R014" any_shell at_once
      (record { asked = 4; counted = 4; opened = 4; closed = 4 }) fired_result once_fires refl
      (λ w e. subst (λ v. is_expired v 4 ≡ false) (some_inj.0 (sym once_stores ∙ e)) still_open)

abbrev busy : Correlator
busy = record correlator {
  rules = ("R014", any_shell) ∷ [];
  windows = (("R014", "ns:prod"), fired_window) ∷ [];
}

abbrev shell_key : WindowKey
shell_key = ("R014", "ns:prod")

empty_window : GoMap.get {V = SignalWindow} [] shell_key ≡ none
unfolding GoMap.get
empty_window = refl

remove_rule_lem_example :
    (GoMap.get (remove_rule busy "R014").rules "R014" ≡ none)
    × ((GoMap.get (remove_rule busy "R014").windows ("R014", "ns:prod") ≡ none)
        × ((other : String)
            → other ≢ "R014"
            → GoMap.get (remove_rule busy "R014").windows (other, "ns:prod")
              ≡ GoMap.get busy.windows (other, "ns:prod")))
remove_rule_lem_example = remove_rule_lem busy "R014" "ns:prod" (empty_window, tt)
