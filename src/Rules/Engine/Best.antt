-- ===== src/Rules/Engine/Best.antt =====
-- What the evaluation of pkg/rules/engine.go picks from its candidates.
use container_runtime_securi.Prelude.{
  nat_comparable, string_comparable, bytes_comparable, ◌==◌, ◌≡◌, refl, sym, ◌∙◌, inl, inr, Bool,
  true, false, not, ◌&&◌, ◌||◌, Option, none, some, List, [], ◌∷◌, ◌++◌, arith, if◌then◌else◌,
  Bool-cases,
}
use mathlib.Core.Path.{subst}
use mathlib.Core.List.{Memᴰ, append_assoc, append-nil}
use mathlib.Core.List.Memᴰ
use container_runtime_securi.Prelude.GoMap.{GoMap}
use container_runtime_securi.Prelude.Slices.{Bytes}
use container_runtime_securi.Pipeline.Event.{RuleMatch}
use container_runtime_securi.Rules.{is_more_severe}
use container_runtime_securi.Rules.Severity.{is_more_severe_order}
use container_runtime_securi.Rules.Types.{EnrichedEventForRule, CompiledRule}
use container_runtime_securi.Rules.Exceptions.{match_exception}
use container_runtime_securi.Rules.Engine.{
  rule_match, keep_severest, evaluate_rule, evaluate_rules, evaluate, Engine, candidates,
}

-- A rule applies to an event of its category, if its condition holds and no exception does.
abbrev pub applies : CompiledRule → EnrichedEventForRule → Bool
applies rule event =
    (rule.category == 0 || rule.category == event.raw.category)
    && (rule.condition event && not (match_exception rule event))

displaced_by :
    (x b m : RuleMatch)
    → is_more_severe x b ≡ true
    → is_more_severe m b ≡ false
    → is_more_severe m x ≡ false
displaced_by x b m h k =
    ground
      (arith, is_more_severe_order m x b, is_more_severe_order m b x, is_more_severe_order x b m)

module _ (walk : GoMap Bytes Bytes → List (Bytes × Bytes)) where
  -- Nothing where no rule applies, and else the match of a rule that applies, with none more severe.
  abbrev pub IsSeverest : List CompiledRule → EnrichedEventForRule → Option RuleMatch → Type 0
  IsSeverest rules event none = (rule : CompiledRule) → Memᴰ rule rules → applies rule event ≡ false
  IsSeverest rules event (some m) =
      ((rule : CompiledRule) × Memᴰ rule rules
        × (applies rule event ≡ true)
        × (m ≡ rule_match walk rule event))
      × ((rule : CompiledRule)
          → Memᴰ rule rules
          → applies rule event ≡ true
          → is_more_severe (rule_match walk rule event) m ≡ false)

  evaluate_rule-applies :
      (best : Option RuleMatch) (rule : CompiledRule) (event : EnrichedEventForRule)
      → evaluate_rule walk best rule event
        ≡ (if applies rule event then keep_severest best (rule_match walk rule event) else best)
  unfolding evaluate_rule
  evaluate_rule-applies best rule event = ground arith

  keep_severest-IsSeverest :
      (rules : List CompiledRule) (rule : CompiledRule) (event : EnrichedEventForRule)
      (best : Option RuleMatch)
      → applies rule event ≡ true
      → IsSeverest rules event best
      → IsSeverest (rules ++ (rule ∷ [])) event (keep_severest best (rule_match walk rule event))
  unfolding keep_severest
  keep_severest-IsSeverest rules rule event none h k =
      let m = rule_match walk rule event in
      (
        (rule, Memᴰ.append_right rules (Memᴰ.head refl), h, refl),
        λ r at on. elim (Memᴰ.append_cases rules at) [
          | inl before ↦ absurd (cc (k r before, on))
          | inr last ↦
              subst (λ x. is_more_severe (rule_match walk x event) m ≡ false)
                (sym (Memᴰ.eq_of_singleton last)) (is_more_severe_order m m m).0
        ],
      )
  keep_severest-IsSeverest rules rule event (some b) h k =
      let m = rule_match walk rule event in
      elim (Bool-cases (is_more_severe m b)) [
        | inl more ↦ rw more (
          (rule, Memᴰ.append_right rules (Memᴰ.head refl), h, refl),
          λ r at on. elim (Memᴰ.append_cases rules at) [
            | inl before ↦ displaced_by m b (rule_match walk r event) more (k.1 r before on)
            | inr last ↦
                subst (λ x. is_more_severe (rule_match walk x event) m ≡ false)
                  (sym (Memᴰ.eq_of_singleton last)) (is_more_severe_order m m m).0
          ],
        )
        | inr less ↦ rw less (
          (k.0.0, Memᴰ.append_left (rule ∷ []) k.0.1, k.0.2, k.0.3),
          λ r at on. elim (Memᴰ.append_cases rules at) [
            | inl before ↦ k.1 r before on
            | inr last ↦
                subst (λ x. is_more_severe (rule_match walk x event) b ≡ false)
                  (sym (Memᴰ.eq_of_singleton last)) less
          ],
        )
      ]

  skip-IsSeverest :
      (rules : List CompiledRule) (rule : CompiledRule) (event : EnrichedEventForRule)
      (best : Option RuleMatch)
      → applies rule event ≡ false
      → IsSeverest rules event best
      → IsSeverest (rules ++ (rule ∷ [])) event best
  skip-IsSeverest rules rule event none h k = λ r at. elim (Memᴰ.append_cases rules at) [
    | inl before ↦ k r before
    | inr last ↦ subst (λ x. applies x event ≡ false) (sym (Memᴰ.eq_of_singleton last)) h
  ]
  skip-IsSeverest rules rule event (some b) h k = (
    (k.0.0, Memᴰ.append_left (rule ∷ []) k.0.1, k.0.2, k.0.3),
    λ r at on. elim (Memᴰ.append_cases rules at) [
      | inl before ↦ k.1 r before on
      | inr last ↦
          let off = subst (λ x. applies x event ≡ false) (sym (Memᴰ.eq_of_singleton last)) h in
          absurd (cc (off, on))
    ],
  )

  evaluate_rule-IsSeverest :
      (rules : List CompiledRule) (rule : CompiledRule) (event : EnrichedEventForRule)
      (best : Option RuleMatch)
      → IsSeverest rules event best
      → IsSeverest (rules ++ (rule ∷ [])) event (evaluate_rule walk best rule event)
  evaluate_rule-IsSeverest rules rule event best k = elim (Bool-cases (applies rule event)) [
    | inl on ↦
        let step : evaluate_rule walk best rule event
            ≡ keep_severest best (rule_match walk rule event) =
          evaluate_rule-applies best rule event ∙ rw on refl in
        subst (IsSeverest (rules ++ (rule ∷ [])) event) (sym step)
          (keep_severest-IsSeverest rules rule event best on k)
    | inr off ↦
        let step : evaluate_rule walk best rule event ≡ best =
          evaluate_rule-applies best rule event ∙ rw off refl in
        subst (IsSeverest (rules ++ (rule ∷ [])) event) (sym step)
          (skip-IsSeverest rules rule event best off k)
  ]

  evaluate_rules-IsSeverest :
      (before rules : List CompiledRule) (event : EnrichedEventForRule) (best : Option RuleMatch)
      → IsSeverest before event best
      → IsSeverest (before ++ rules) event (evaluate_rules walk best rules event)
  unfolding evaluate_rules
  evaluate_rules-IsSeverest before [] event best k = rw append-nil k
  evaluate_rules-IsSeverest before (rule ∷ rules) event best k =
      let step = evaluate_rule-IsSeverest before rule event best k in
      subst (λ all. IsSeverest all event (evaluate_rules walk best (rule ∷ rules) event))
        (append_assoc before (rule ∷ []) rules)
        (evaluate_rules-IsSeverest (before ++ (rule ∷ [])) rules event
          (evaluate_rule walk best rule event) step)

  -- Evaluation answers nothing if no candidate applies to the event, and else the match of a candidate that
  -- applies, such that no candidate that applies has a more severe one.
  pub evaluate-IsSeverest :
      (e : Engine) (event : EnrichedEventForRule)
      → IsSeverest (candidates e event) event (evaluate walk e event).1
  unfolding evaluate
  evaluate-IsSeverest e event =
      evaluate_rules-IsSeverest [] (candidates e event) event none
        (λ r at. absurd (Memᴰ.not-nil at))
