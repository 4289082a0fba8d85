-- ===== src/Rules/Engine/Catalog.antt =====
-- The engine of pkg/rules/engine.go after a load of compiled rules.
use container_runtime_securi.Prelude.{
  ℕ, nat_comparable, string_comparable, bytes_comparable, ◌==◌, ==_iff, ◌≡◌, refl, sym, ap, ◌∙◌,
  ◌↔◌, ◌⊎◌, inl, inr, true, false, Option, none, some, List, [], ◌∷◌, ◌++◌, if◌then◌else◌,
  Bool-cases,
}
use mathlib.Core.Path.{subst}
use mathlib.Core.List.{Memᴰ}
use mathlib.Core.List.Memᴰ
use container_runtime_securi.Prelude.GoMap
use container_runtime_securi.Prelude.GoMap.{GoMap, get-put}
use container_runtime_securi.Prelude.Slices.{Bytes}
use container_runtime_securi.Pipeline.Event.{RuleMatch}
use container_runtime_securi.Rules.{is_more_severe}
use container_runtime_securi.Rules.Types.{EnrichedEventForRule, CompiledRule}
use container_runtime_securi.Rules.Engine.{
  Engine, bucket, file_rule, add_compiled_rule, add_compiled_rules, empty_engine, reload,
  candidates, rule_match, evaluate,
}
use container_runtime_securi.Rules.Engine.Candidates.{
  InBuckets, candidates-InBuckets, candidates-covers,
}
use container_runtime_securi.Rules.Engine.Best.{applies, IsSeverest, evaluate-IsSeverest}

bucket-put :
    (b : GoMap ℕ (List CompiledRule)) (t k : ℕ) (rules : List CompiledRule)
    → bucket (GoMap.put b t rules) k ≡ (if t == k then rules else bucket b k)
unfolding bucket
bucket-put b t k rules =
    let found : Option (List CompiledRule) → List CompiledRule =
      λ o. elim o [ none ↦ [] | some held ↦ held ] in
    let shape = ap found (get-put b t k rules) in
    elim (Bool-cases (t == k)) [
      | inl same ↦ rw same (shape ∙ rw same refl)
      | inr other ↦ rw other (shape ∙ rw other refl)
    ]

-- A rule of a bucket was there before, or is the rule filed under that key.
bucket-file_rule :
    (b : GoMap ℕ (List CompiledRule)) (rule : CompiledRule) (ts : List ℕ) (k : ℕ) (r : CompiledRule)
    → Memᴰ r (bucket (file_rule b rule ts) k) ↔ (Memᴰ r (bucket b k) ⊎ ((r ≡ rule) × Memᴰ k ts))
unfolding file_rule
bucket-file_rule b rule [] k r =
    (inl, λ h. elim h [ inl m ↦ m | inr new ↦ absurd (Memᴰ.not-nil new.1) ])
bucket-file_rule b rule (t ∷ ts) k r =
    let filed = bucket b t ++ (rule ∷ []) in
    let b' = GoMap.put b t filed in
    let rest = bucket-file_rule b' rule ts k r in
    elim (Bool-cases (t == k)) [
      | inl same ↦
          let key : t ≡ k = (==_iff t k).0 same in
          let shape : bucket b' k ≡ filed = bucket-put b t k filed ∙ rw same refl in
          (
            λ m. elim (rest.0 m) [
              | inl before ↦ elim (Memᴰ.append_cases (bucket b t) (subst (Memᴰ r) shape before)) [
                | inl old ↦ inl (subst (λ j. Memᴰ r (bucket b j)) key old)
                | inr last ↦ inr (Memᴰ.eq_of_singleton last, Memᴰ.head (sym key))
              ]
              | inr new ↦ inr (new.0, Memᴰ.tail new.1)
            ],
            λ h. rest.1 (elim h [
              | inl old ↦ inl (
                  subst (Memᴰ r) (sym shape)
                    (Memᴰ.append_left (rule ∷ []) (subst (λ j. Memᴰ r (bucket b j)) (sym key) old)))
              | inr new ↦
                  inl
                    (subst (Memᴰ r) (sym shape) (Memᴰ.append_right (bucket b t) (Memᴰ.head new.0)))
            ]),
          )
      | inr other ↦
          let shape : bucket b' k ≡ bucket b k = bucket-put b t k filed ∙ rw other refl in
          (
            λ m. elim (rest.0 m) [
              | inl before ↦ inl (subst (Memᴰ r) shape before)
              | inr new ↦ inr (new.0, Memᴰ.tail new.1)
            ],
            λ h. rest.1 (elim h [
              | inl old ↦ inl (subst (Memᴰ r) (sym shape) old)
              | inr new ↦ elim (Memᴰ.cases_cons new.1) [
                | inl e ↦ absurd (cc ((==_iff t k).1 (sym e), other))
                | inr m ↦ inr (new.0, m)
              ]
            ]),
          )
    ]

bucket-add_compiled_rule :
    (e : Engine) (rule : CompiledRule) (k : ℕ) (r : CompiledRule)
    → Memᴰ r (bucket (add_compiled_rule e rule).buckets k)
      ↔ (Memᴰ r (bucket e.buckets k) ⊎ ((r ≡ rule) × Memᴰ k rule.event_types))
unfolding add_compiled_rule
bucket-add_compiled_rule e rule k r = bucket-file_rule e.buckets rule rule.event_types k r

bucket-add_compiled_rules :
    (e : Engine) (rules : List CompiledRule) (k : ℕ) (r : CompiledRule)
    → Memᴰ r (bucket (add_compiled_rules e rules).buckets k)
      ↔ (Memᴰ r (bucket e.buckets k) ⊎ (Memᴰ r rules × Memᴰ k r.event_types))
unfolding add_compiled_rules
bucket-add_compiled_rules e [] k r =
    (inl, λ h. elim h [ inl m ↦ m | inr new ↦ absurd (Memᴰ.not-nil new.0) ])
bucket-add_compiled_rules e (rule ∷ rules) k r =
    let rest = bucket-add_compiled_rules (add_compiled_rule e rule) rules k r in
    let first = bucket-add_compiled_rule e rule k r in
    (
      λ m. elim (rest.0 m) [
        | inl before ↦ elim (first.0 before) [
          | inl old ↦ inl old
          | inr new ↦ inr (Memᴰ.head new.0, subst (λ x. Memᴰ k x.event_types) (sym new.0) new.1)
        ]
        | inr later ↦ inr (Memᴰ.tail later.0, later.1)
      ],
      λ h. rest.1 (elim h [
        | inl old ↦ inl (first.1 (inl old))
        | inr new ↦ elim (Memᴰ.cases_cons new.0) [
          | inl e' ↦ inl (first.1 (inr (e', subst (λ x. Memᴰ k x.event_types) e' new.1)))
          | inr m ↦ inr (m, new.1)
        ]
      ]),
    )

-- Rules that share an id are the same rule.
abbrev pub AreDistinct : List CompiledRule → Type 0
AreDistinct rules = (r s : CompiledRule) → Memᴰ r rules → Memᴰ s rules → r.id ≡ s.id → r ≡ s

-- The rule lists the event's type, its category's number or the wildcard 0.
abbrev pub Concerns : CompiledRule → EnrichedEventForRule → Type 0
Concerns rule event =
    Memᴰ event.raw.event_type rule.event_types
    ⊎ (Memᴰ event.raw.category rule.event_types ⊎ Memᴰ 0 rule.event_types)

reload-bucket :
    (e : Engine) (rules : List CompiledRule) (k : ℕ) (r : CompiledRule)
    → Memᴰ r (bucket (reload e rules).buckets k) ↔ (Memᴰ r rules × Memᴰ k r.event_types)
unfolding reload bucket empty_engine GoMap.get
reload-bucket e rules k r =
    let all =
      bucket-add_compiled_rules (record empty_engine { eval_count = e.eval_count }) rules k r in
    (
      λ m. elim (all.0 m) [ inl none' ↦ absurd (Memᴰ.not-nil none') | inr new ↦ new ],
      λ h. all.1 (inr h),
    )

reload-InBuckets :
    (e : Engine) (rules : List CompiledRule) (event : EnrichedEventForRule) (r : CompiledRule)
    → InBuckets (reload e rules) event r ↔ (Memᴰ r rules × Concerns r event)
reload-InBuckets e rules event r =
    let typed = reload-bucket e rules event.raw.event_type r in
    let by_category = reload-bucket e rules event.raw.category r in
    let wild = reload-bucket e rules 0 r in
    (
      λ h. elim h [
        | inl m ↦ let k = typed.0 m in (k.0, inl k.1)
        | inr (inl m) ↦ let k = by_category.0 m in (k.0, inr (inl k.1))
        | inr (inr m) ↦ let k = wild.0 m in (k.0, inr (inr k.1))
      ],
      λ h. elim h.1 [
        | inl m ↦ inl (typed.1 (h.0, m))
        | inr (inl m) ↦ inr (inl (by_category.1 (h.0, m)))
        | inr (inr m) ↦ inr (inr (wild.1 (h.0, m)))
      ],
    )

-- After a load of rules with distinct ids, the candidates for an event are exactly the loaded rules that list
-- its event type, the number of its category or the wildcard 0.
pub candidates-reload :
    (e : Engine) (rules : List CompiledRule) (event : EnrichedEventForRule)
    → AreDistinct rules
    → (r : CompiledRule)
    → Memᴰ r (candidates (reload e rules) event) ↔ (Memᴰ r rules × Concerns r event)
candidates-reload e rules event distinct r =
    let listed = λ (s : CompiledRule) (m : Memᴰ s (candidates (reload e rules) event)).
      (reload-InBuckets e rules event s).0 (candidates-InBuckets (reload e rules) event s m) in
    (
      listed r,
      λ h.
          let found =
            candidates-covers (reload e rules) event r ((reload-InBuckets e rules event r).1 h) in
          let same : found.0 ≡ r = distinct found.0 r (listed found.0 found.1).0 h.0 found.2 in
          subst (λ x. Memᴰ x (candidates (reload e rules) event)) same found.1,
    )

module _ (walk : GoMap Bytes Bytes → List (Bytes × Bytes)) where
  -- What the evaluation may answer, in terms of the loaded rules alone.
  abbrev pub IsAnswer : List CompiledRule → EnrichedEventForRule → Option RuleMatch → Type 0
  IsAnswer rules event none =
      (rule : CompiledRule) → Memᴰ rule rules → Concerns rule event → applies rule event ≡ false
  IsAnswer rules event (some m) =
      ((rule : CompiledRule) × Memᴰ rule rules
        × Concerns rule event
        × (applies rule event ≡ true)
        × (m ≡ rule_match walk rule event))
      × ((rule : CompiledRule)
          → Memᴰ rule rules
          → Concerns rule event
          → applies rule event ≡ true
          → is_more_severe (rule_match walk rule event) m ≡ false)

  severest-IsAnswer :
      (e : Engine) (rules : List CompiledRule) (event : EnrichedEventForRule) (o : Option RuleMatch)
      → AreDistinct rules
      → IsSeverest walk (candidates (reload e rules) event) event o
      → IsAnswer rules event o
  severest-IsAnswer e rules event none distinct h =
      λ rule m c. h rule ((candidates-reload e rules event distinct rule).1 (m, c))
  severest-IsAnswer e rules event (some m) distinct h =
      let from = (candidates-reload e rules event distinct h.0.0).0 h.0.1 in
      (
        (h.0.0, from.0, from.1, h.0.2, h.0.3),
        λ rule at c on. h.1 rule ((candidates-reload e rules event distinct rule).1 (at, c)) on,
      )

  -- After a load of rules with distinct ids, `Evaluate` answers nothing if no loaded rule concerns the event
  -- (lists its type, its category's number or 0) and applies to it (its category fits, its condition holds and
  -- no exception does, whatever its action is), and else the match of such a rule, such that no such rule has a
  -- more severe match.
  pub evaluate-IsAnswer :
      (e : Engine) (rules : List CompiledRule) (event : EnrichedEventForRule)
      → AreDistinct rules
      → IsAnswer rules event (evaluate walk (reload e rules) event).1
  evaluate-IsAnswer e rules event distinct =
      severest-IsAnswer e rules event (evaluate walk (reload e rules) event).1 distinct
        (evaluate-IsSeverest walk (reload e rules) event)
