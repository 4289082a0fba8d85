-- ===== src/Correlate/Firing.antt =====
-- Repeated signals and the removal of rules (pkg/correlate/correlate.go).
use container_runtime_securi.Prelude.{
  ℕ, nat_comparable, string_comparable, bytes_comparable, ◌==◌, ==_iff, ==_refl, String, ◌≡◌, refl,
  sym, ap, ◌∙◌, ◌≢◌, inl, inr, Bool, true, false, not, ◌&&◌, ◌||◌, Option, none, some, arith,
  if◌then◌else◌, Bool-cases,
}
use mathlib.Core.Option.{some_inj}
use container_runtime_securi.Prelude.{pair_comparable}
use container_runtime_securi.Prelude.GoMap
use container_runtime_securi.Prelude.GoMap.{
  GoMap, get-put, put-AllOf, delete-AllOf, delete_if-AllOf, get-AllOf, length-put-le,
  length-put_old, length-delete-lt, length-delete_if-le,
}
use container_runtime_securi.Correlate.{
  Signal, CorrelationSpec, CorrelationResult, SignalWindow, WindowKey, matches, is_expired,
  Correlator, remove_rule, signal_matches_rule, Readings, obtain, build_result, record_signal,
  build_group_key, visit_rule,
}
use container_runtime_securi.Prelude.GoMap.{IsMap, get-delete, get-delete_if}

-- A window that has fired holds its key, with the start that the result names.
record HasFired (c : Correlator) (key : WindowKey) (r : CorrelationResult) : Type 0 where
  window : SignalWindow
  held : GoMap.get c.windows key ≡ some window
  fired : window.fired ≡ true
  started : window.started ≡ r.window_start

some-none : {r : CorrelationResult} → none ≢ some r
some-none e = cc

record_signal-HasFired :
    (key : WindowKey) (signal : Signal) (now : ℕ) (p : Correlator × SignalWindow)
    (r : CorrelationResult)
    → (record_signal key signal now p).1 ≡ some r
    → HasFired (record_signal key signal now p).0 key r
unfolding record_signal build_result
record_signal-HasFired key signal now (c, got) r e =
    let added : SignalWindow = record got { signals = GoMap.put got.signals signal.name signal } in
    let fires = not got.fired && matches added in
    let window : SignalWindow = record added { fired = got.fired || fires } in
    elim (Bool-cases fires) [
      | inl yes_fires ↦ record {
        window = window;
        held = rw (get-put c.windows key key window, ==_refl key);
        fired = ground arith;
        started =
            ap (λ q. q.window_start)
              (some_inj.0 (
                sym (ap (λ b. if b then some (build_result window signal now) else none) yes_fires)
                ∙ e));
      }
      | inr silent ↦ absurd (
          some-none
            (sym (ap (λ b. if b then some (build_result window signal now) else none) silent) ∙ e))
    ]

obtain-live :
    (c : Correlator) (key : WindowKey) (spec : CorrelationSpec) (t : Readings) (w : SignalWindow)
    → is_expired w t.asked ≡ false
    → obtain c key spec t (some w) ≡ (c, w)
unfolding obtain
obtain-live c key spec t w live = rw live

fired_silent :
    (key : WindowKey) (signal : Signal) (now : ℕ) (c : Correlator) (w : SignalWindow)
    → w.fired ≡ true
    → (record_signal key signal now (c, w)).1 ≡ none
unfolding record_signal
fired_silent key signal now c w h = ground arith

module _ (decimal : ℕ → String) where
  visit_rule-HasFired :
      (c : Correlator) (signal : Signal) (rule_id : String) (spec : CorrelationSpec) (t : Readings)
      (r : CorrelationResult)
      → (visit_rule decimal c signal rule_id spec t).1 ≡ some r
      → HasFired
          (visit_rule decimal c signal rule_id spec t).0
          (rule_id, build_group_key decimal signal spec)
          r
  unfolding visit_rule
  visit_rule-HasFired c signal rule_id spec t r e =
      let key : WindowKey = (rule_id, build_group_key decimal signal spec) in
      let acted =
        record_signal key signal t.closed (obtain c key spec t (GoMap.get c.windows key)) in
      let shape : Bool → Type 0 = λ b.
        (if b then acted else (c, none)).1 ≡ some r
        → HasFired (if b then acted else (c, none)).0 key r in
      let all : (b : Bool) → shape b = λ b. elim b as shape [
        | true ↦
            record_signal-HasFired key signal t.closed
              (obtain c key spec t (GoMap.get c.windows key)) r
        | false ↦ λ silent. absurd (some-none silent)
      ] in
      all (signal_matches_rule signal spec.signals) e

  visit_rule_silent :
      (c : Correlator) (signal : Signal) (rule_id : String) (spec : CorrelationSpec) (t : Readings)
      (w : SignalWindow)
      → GoMap.get c.windows (rule_id, build_group_key decimal signal spec) ≡ some w
      → w.fired ≡ true
      → is_expired w t.asked ≡ false
      → (visit_rule decimal c signal rule_id spec t).1 ≡ none
  unfolding visit_rule
  visit_rule_silent c signal rule_id spec t w held fired live =
      let key : WindowKey = (rule_id, build_group_key decimal signal spec) in
      let same : obtain c key spec t (GoMap.get c.windows key) ≡ (c, w) =
        ap (obtain c key spec t) held ∙ obtain-live c key spec t w live in
      let silent : (record_signal key signal t.closed
            (obtain c key spec t (GoMap.get c.windows key))).1
          ≡ none =
        ap (λ p. (record_signal key signal t.closed p).1) same
        ∙ fired_silent key signal t.closed c w fired in
      elim (Bool-cases (signal_matches_rule signal spec.signals)) [
        | inl relevant ↦ rw relevant silent
        | inr other ↦ rw other
      ]

  -- A rule that has fired for a group does not fire again at a second signal of this group that comes next
  -- and finds the window not yet expired.
  pub visit_rule-fires_once :
      (c : Correlator) (first second : Signal) (rule_id : String) (spec : CorrelationSpec)
      (t t' : Readings) (r : CorrelationResult)
      → (visit_rule decimal c first rule_id spec t).1 ≡ some r
      → build_group_key decimal second spec ≡ build_group_key decimal first spec
      → ((w : SignalWindow)
          → GoMap.get
              (visit_rule decimal c first rule_id spec t).0.windows
              (rule_id, build_group_key decimal second spec)
            ≡ some w
          → is_expired w t'.asked ≡ false)
      → (visit_rule decimal (visit_rule decimal c first rule_id spec t).0 second rule_id spec t').1
        ≡ none
  visit_rule-fires_once c first second rule_id spec t t' r e same live =
      let fired = visit_rule-HasFired c first rule_id spec t r e in
      let after = (visit_rule decimal c first rule_id spec t).0 in
      let held : GoMap.get after.windows (rule_id, build_group_key decimal second spec)
          ≡ some fired.window =
        ap (λ g. GoMap.get after.windows (rule_id, g)) same ∙ fired.held in
      visit_rule_silent after second rule_id spec t' fired.window held fired.fired
        (live fired.window held)

when_own :
    (found : Option SignalWindow) (b : Bool)
    → b ≡ true
    → elim found as (λ _. Option SignalWindow) [ none ↦ none | some w ↦ if b then none else some w ]
      ≡ none
when_own none b h = refl
when_own (some w) b h = rw h

when_other :
    (found : Option SignalWindow) (b : Bool)
    → b ≡ false
    → elim found as (λ _. Option SignalWindow) [ none ↦ none | some w ↦ if b then none else some w ]
      ≡ found
when_other none b h = refl
when_other (some w) b h = rw h

-- After `RemoveRule` the rule is gone, none of its windows is left, and the windows of other rules are as
-- before, if the windows are a map (each key once).
pub remove_rule_lem :
    (c : Correlator) (rule_id group : String)
    → IsMap c.windows
    → (GoMap.get (remove_rule c rule_id).rules rule_id ≡ none)
      × ((GoMap.get (remove_rule c rule_id).windows (rule_id, group) ≡ none)
          × ((other : String)
              → other ≢ rule_id
              → GoMap.get (remove_rule c rule_id).windows (other, group)
                ≡ GoMap.get c.windows (other, group)))
unfolding remove_rule
remove_rule_lem c rule_id group h =
    let sweep = λ (key : WindowKey) (w : SignalWindow). key.0 == rule_id in
    let swept : (id : String)
        → GoMap.get (GoMap.delete_if sweep c.windows) (id, group)
          ≡ elim (GoMap.get c.windows (id, group)) [
            | none ↦ none
            | some w ↦ if id == rule_id then none else some w
          ] =
      λ id. get-delete_if sweep c.windows (id, group) h in
    (
      rw (get-delete c.rules rule_id rule_id, ==_refl rule_id),
      (
        swept rule_id
            ∙ when_own (GoMap.get c.windows (rule_id, group)) (rule_id == rule_id)
                (==_refl rule_id),
        λ other differs.
            swept other
            ∙ when_other (GoMap.get c.windows (other, group)) (other == rule_id)
                (ground (arith, ==_iff other rule_id)),
      ),
    )
