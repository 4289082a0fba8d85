-- ===== src/Rules/Engine/Candidates.antt =====
-- Which rules the buckets of pkg/rules/engine.go give an event.
use container_runtime_securi.Prelude.{
  nat_comparable, string_comparable, bytes_comparable, String, ◌≡◌, refl, sym, ap, ◌∙◌, ◌⊎◌, inl,
  inr, true, List, [], ◌∷◌, ◌++◌, map, Bool-cases,
}
use mathlib.Core.Path.{subst}
use mathlib.Core.List.{Memᴰ}
use mathlib.Core.List.Memᴰ
use container_runtime_securi.Prelude.Members.{is_member, is_member_iff}
use container_runtime_securi.Rules.Types.{EnrichedEventForRule, CompiledRule}
use container_runtime_securi.Rules.Engine.{
  Engine, bucket, append_if_unseen, append_unseen, candidates,
}

abbrev ids : List CompiledRule → List String
ids rules = map (λ rule. rule.id) rules

-- Every id seen is the id of a rule of the list.
abbrev AreSeen : List CompiledRule → List String → Type 0
AreSeen rules seen =
    (id : String) → Memᴰ id seen → (rule : CompiledRule) × Memᴰ rule rules × (rule.id ≡ id)

append_if_unseen_cases :
    (cs : List CompiledRule) (seen : List String) (rule : CompiledRule)
    → (is_member seen rule.id ≡ true) × (append_if_unseen cs seen rule ≡ (cs, seen))
      ⊎ (append_if_unseen cs seen rule ≡ (cs ++ (rule ∷ []), rule.id ∷ seen))
unfolding append_if_unseen
append_if_unseen_cases cs seen rule = elim (Bool-cases (is_member seen rule.id)) [
  | inl old ↦ inl (old, rw old refl)
  | inr new ↦ inr (rw new refl)
]

append_unseen-keeps :
    (cs : List CompiledRule) (seen : List String) (rules : List CompiledRule) (r : CompiledRule)
    → Memᴰ r cs
    → Memᴰ r (append_unseen cs seen rules).0
unfolding append_unseen
append_unseen-keeps cs seen [] r m = m
append_unseen-keeps cs seen (rule ∷ rules) r m =
    let grown = append_if_unseen cs seen rule in
    append_unseen-keeps grown.0 grown.1 rules r (elim (append_if_unseen_cases cs seen rule) [
      | inl old ↦ subst (λ g. Memᴰ r g.0) (sym old.1) m
      | inr new ↦ subst (λ g. Memᴰ r g.0) (sym new) (Memᴰ.append_left (rule ∷ []) m)
    ])

append_unseen-source :
    (cs : List CompiledRule) (seen : List String) (rules : List CompiledRule) (r : CompiledRule)
    → Memᴰ r (append_unseen cs seen rules).0
    → Memᴰ r cs ⊎ Memᴰ r rules
unfolding append_unseen
append_unseen-source cs seen [] r m = inl m
append_unseen-source cs seen (rule ∷ rules) r m =
    let grown = append_if_unseen cs seen rule in
    elim (append_unseen-source grown.0 grown.1 rules r m) [
      | inr there ↦ inr (Memᴰ.tail there)
      | inl here ↦ elim (append_if_unseen_cases cs seen rule) [
        | inl old ↦ inl (subst (λ g. Memᴰ r g.0) old.1 here)
        | inr new ↦ elim (Memᴰ.append_cases cs (subst (λ g. Memᴰ r g.0) new here)) [
          | inl before ↦ inl before
          | inr last ↦ inr (Memᴰ.head (Memᴰ.eq_of_singleton last))
        ]
      ]
    ]

append_if_unseen-AreSeen :
    (cs : List CompiledRule) (seen : List String) (rule : CompiledRule)
    → AreSeen cs seen
    → AreSeen (append_if_unseen cs seen rule).0 (append_if_unseen cs seen rule).1
append_if_unseen-AreSeen cs seen rule k = elim (append_if_unseen_cases cs seen rule) [
  | inl old ↦ subst (λ g. AreSeen g.0 g.1) (sym old.1) k
  | inr new ↦
      subst (λ g. AreSeen g.0 g.1) (sym new)
        (λ id m. elim (Memᴰ.cases_cons m) [
          | inl e ↦ (rule, Memᴰ.append_right cs (Memᴰ.head refl), sym e)
          | inr before ↦
              let found = k id before in (found.0, Memᴰ.append_left (rule ∷ []) found.1, found.2)
        ])
]

append_unseen-AreSeen :
    (cs : List CompiledRule) (seen : List String) (rules : List CompiledRule)
    → AreSeen cs seen
    → AreSeen (append_unseen cs seen rules).0 (append_unseen cs seen rules).1
unfolding append_unseen
append_unseen-AreSeen cs seen [] k = k
append_unseen-AreSeen cs seen (rule ∷ rules) k =
    let grown = append_if_unseen cs seen rule in
    append_unseen-AreSeen grown.0 grown.1 rules (append_if_unseen-AreSeen cs seen rule k)

-- After the merge there is a candidate with the rule's id.
append_unseen-covers :
    (cs : List CompiledRule) (seen : List String) (rules : List CompiledRule) (r : CompiledRule)
    → AreSeen cs seen
    → Memᴰ r rules
    → (s : CompiledRule) × Memᴰ s (append_unseen cs seen rules).0 × (s.id ≡ r.id)
unfolding append_unseen
append_unseen-covers cs seen [] r k m = elim m [ ]
append_unseen-covers cs seen (rule ∷ rules) r k (Memᴰ.tail m) =
    let grown = append_if_unseen cs seen rule in
    append_unseen-covers grown.0 grown.1 rules r (append_if_unseen-AreSeen cs seen rule k) m
append_unseen-covers cs seen (rule ∷ rules) r k (Memᴰ.head e) =
    let grown = append_if_unseen cs seen rule in
    let named : rule.id ≡ r.id = ap (λ x. x.id) (sym e) in
    elim (append_if_unseen_cases cs seen rule) [
      | inl old ↦
          let found = k rule.id ((is_member_iff seen rule.id).0 old.0) in
          let held = subst (λ g. Memᴰ found.0 g.0) (sym old.1) found.1 in
          (found.0, append_unseen-keeps grown.0 grown.1 rules found.0 held, found.2 ∙ named)
      | inr new ↦
          let held = subst (λ g. Memᴰ rule g.0) (sym new) (Memᴰ.append_right cs (Memᴰ.head refl)) in
          (rule, append_unseen-keeps grown.0 grown.1 rules rule held, named)
    ]

ids-AreSeen : (rules : List CompiledRule) → AreSeen rules (ids rules)
ids-AreSeen [] id m = elim m [ ]
ids-AreSeen (rule ∷ rules) id (Memᴰ.head e) = (rule, Memᴰ.head refl, sym e)
ids-AreSeen (rule ∷ rules) id (Memᴰ.tail m) =
    let found = ids-AreSeen rules id m in (found.0, Memᴰ.tail found.1, found.2)

-- The buckets that an event looks into.
abbrev pub InBuckets : Engine → EnrichedEventForRule → CompiledRule → Type 0
InBuckets e event r =
    Memᴰ r (bucket e.buckets event.raw.event_type)
    ⊎ (Memᴰ r (bucket e.buckets event.raw.category) ⊎ Memᴰ r (bucket e.buckets 0))

pub candidates-InBuckets :
    (e : Engine) (event : EnrichedEventForRule) (r : CompiledRule)
    → Memᴰ r (candidates e event)
    → InBuckets e event r
unfolding candidates
candidates-InBuckets e event r m =
    let first = bucket e.buckets event.raw.event_type in
    let merged = append_unseen first (ids first) (bucket e.buckets event.raw.category) in
    elim (append_unseen-source merged.0 merged.1 (bucket e.buckets 0) r m) [
      | inr wild ↦ inr (inr wild)
      | inl before ↦
          elim (append_unseen-source first (ids first) (bucket e.buckets event.raw.category) r
            before) [ inl typed ↦ inl typed | inr by_category ↦ inr (inl by_category) ]
    ]

pub candidates-covers :
    (e : Engine) (event : EnrichedEventForRule) (r : CompiledRule)
    → InBuckets e event r
    → (s : CompiledRule) × Memᴰ s (candidates e event) × (s.id ≡ r.id)
unfolding candidates
candidates-covers e event r k =
    let first = bucket e.buckets event.raw.event_type in
    let second = bucket e.buckets event.raw.category in
    let merged = append_unseen first (ids first) second in
    let keeps = append_unseen-keeps merged.0 merged.1 (bucket e.buckets 0) in
    elim k [
      | inl typed ↦ (r, keeps r (append_unseen-keeps first (ids first) second r typed), refl)
      | inr (inl by_category) ↦
          let found =
            append_unseen-covers first (ids first) second r (ids-AreSeen first) by_category in
          (found.0, keeps found.0 found.1, found.2)
      | inr (inr wild) ↦
          append_unseen-covers merged.0 merged.1 (bucket e.buckets 0) r
            (append_unseen-AreSeen first (ids first) second (ids-AreSeen first)) wild
    ]
