-- ===== src/Rules/Exceptions/Rows.antt =====
-- What an exception of pkg/rules/engine.go means, by position in its lists.
use container_runtime_securi.Prelude.{
  ℕ, zero, suc, nat_comparable, string_comparable, bytes_comparable, String, ◌≡◌, refl, sym, ◌↔◌,
  inl, inr, Bool, true, some, List, [], ◌∷◌, arith, Bool-cases, get_elem?, drop,
}
use mathlib.Core.Path.{subst}
use mathlib.Core.List.{Memᴰ}
use mathlib.Core.List.Memᴰ
use container_runtime_securi.Prelude.Slices.{Bytes}
use container_runtime_securi.Rules.Types.{EnrichedEventForRule, RuleException, CompiledRule}
use container_runtime_securi.Rules.Exceptions.{
  resolve_event_field, match_field, first_comp, match_value_row, match_any_row, evaluate_exception,
  match_any_exception, match_exception,
}

-- The comparator of a field: `=` where the list is too short or holds the empty text.
abbrev comp_at : List String → ℕ → String
comp_at comps i = first_comp (drop i comps)

comp_at-drop : (comps : List String) (i : ℕ) → comp_at (drop 1 comps) i ≡ comp_at comps (suc i)
comp_at-drop [] zero = refl
comp_at-drop [] (suc i) = refl
comp_at-drop (c ∷ comps) i = refl

module _ (compare : String → Bytes → Bytes → Bool) where
  -- Every field of the row has a value that its comparator accepts.
  abbrev pub RowHolds : List String → List String → List Bytes → EnrichedEventForRule → Type 0
  RowHolds fields comps row event =
      (i : ℕ) (field : String)
      → get_elem? fields i ≡ some field
      → (value : Bytes) × (get_elem? row i ≡ some value)
        × (compare (comp_at comps i) (resolve_event_field field event) value ≡ true)

  match_value_row-RowHolds :
      (fields comps : List String) (row : List Bytes) (event : EnrichedEventForRule)
      → match_value_row compare fields comps row event ≡ true
      → RowHolds fields comps row event
  unfolding match_value_row
  match_value_row-RowHolds [] comps row event h i field at = absurd cc
  match_value_row-RowHolds (f ∷ fields) comps [] event h i field at = absurd cc
  match_value_row-RowHolds (f ∷ fields) comps (v ∷ row) event h zero field at =
      let same : f ≡ field = ground arith in
      (
        v,
        refl,
        subst (λ g. compare (first_comp comps) (resolve_event_field g event) v ≡ true) same
            (ground arith),
      )
  match_value_row-RowHolds (f ∷ fields) comps (v ∷ row) event h (suc i) field at =
      let rest =
        match_value_row-RowHolds fields (drop 1 comps) row event (ground arith) i field at in
      (
        rest.0,
        rest.1,
        subst (λ c. compare c (resolve_event_field field event) rest.0 ≡ true)
            (comp_at-drop comps i) rest.2,
      )

  RowHolds-match_value_row :
      (fields comps : List String) (row : List Bytes) (event : EnrichedEventForRule)
      → RowHolds fields comps row event
      → match_value_row compare fields comps row event ≡ true
  unfolding match_value_row
  RowHolds-match_value_row [] comps row event h = refl
  RowHolds-match_value_row (f ∷ fields) comps [] event h =
      let missing = h 0 f refl in absurd (cc missing.1)
  RowHolds-match_value_row (f ∷ fields) comps (v ∷ row) event h =
      let here = h 0 f refl in
      let same : v ≡ here.0 = cc here.1 in
      let first =
        subst (λ w. compare (first_comp comps) (resolve_event_field f event) w ≡ true) (sym same)
          here.2 in
      let rest = RowHolds-match_value_row fields (drop 1 comps) row event (λ i field at.
        let found = h (suc i) field at in
        (
          found.0,
          found.1,
          subst (λ c. compare c (resolve_event_field field event) found.0 ≡ true)
              (sym (comp_at-drop comps i)) found.2,
        )) in
      ground (arith, first, rest)

  any_row-Memᴰ :
      (fields comps : List String) (rows : List (List Bytes)) (event : EnrichedEventForRule)
      → match_any_row compare fields comps rows event ≡ true
      → (row : List Bytes) × Memᴰ row rows × RowHolds fields comps row event
  unfolding match_any_row
  any_row-Memᴰ fields comps [] event h = absurd cc
  any_row-Memᴰ fields comps (row ∷ rows) event h =
      elim (Bool-cases (match_value_row compare fields comps row event)) [
        | inl here ↦ (row, Memᴰ.head refl, match_value_row-RowHolds fields comps row event here)
        | inr not_here ↦
            let found = any_row-Memᴰ fields comps rows event (ground arith) in
            (found.0, Memᴰ.tail found.1, found.2)
      ]

  Memᴰ-any_row :
      (fields comps : List String) (row : List Bytes) (rows : List (List Bytes))
      (event : EnrichedEventForRule)
      → Memᴰ row rows
      → RowHolds fields comps row event
      → match_any_row compare fields comps rows event ≡ true
  unfolding match_any_row
  Memᴰ-any_row fields comps row [] event m holds = elim m [ ]
  Memᴰ-any_row fields comps row (r ∷ rows) event (Memᴰ.head e) holds =
      let first =
        RowHolds-match_value_row fields comps r event
          (subst (λ x. RowHolds fields comps x event) e holds) in
      ground (arith, first)
  Memᴰ-any_row fields comps row (r ∷ rows) event (Memᴰ.tail m) holds =
      ground (arith, Memᴰ-any_row fields comps row rows event m holds)

  -- A row of the exception accepts the event in all its fields.
  abbrev pub Excepts : RuleException → EnrichedEventForRule → Type 0
  Excepts exc event =
      (row : List Bytes) × Memᴰ row exc.values × RowHolds exc.fields exc.comps row event

  pub match_any_row_iff :
      (exc : RuleException) (event : EnrichedEventForRule)
      → (match_any_row compare exc.fields exc.comps exc.values event ≡ true) ↔ Excepts exc event
  match_any_row_iff exc event = (
    any_row-Memᴰ exc.fields exc.comps exc.values event,
    λ h. Memᴰ-any_row exc.fields exc.comps h.0 exc.values event h.1 h.2,
  )

match_any_exception_iff :
    (excs : List RuleException) (event : EnrichedEventForRule)
    → (match_any_exception excs event ≡ true)
      ↔ ((exc : RuleException) × Memᴰ exc excs × Excepts match_field exc event)
unfolding match_any_exception evaluate_exception
match_any_exception_iff [] event = (λ h. absurd cc, λ h. absurd (Memᴰ.not-nil h.1))
match_any_exception_iff (exc ∷ excs) event =
    let here = match_any_row_iff match_field exc event in
    let rest = match_any_exception_iff excs event in
    (
      λ h. elim (Bool-cases (match_any_row match_field exc.fields exc.comps exc.values event)) [
        | inl hit ↦ (exc, Memᴰ.head refl, here.0 hit)
        | inr miss ↦ let found = rest.0 (ground arith) in (found.0, Memᴰ.tail found.1, found.2)
      ],
      λ h. elim (Memᴰ.cases_cons h.1) [
        | inl e ↦
            let hit = here.1 (subst (λ x. Excepts match_field x event) e h.2) in ground (arith, hit)
        | inr m ↦ ground (arith, rest.1 (h.0, m, h.2))
      ],
    )

-- An exception suppresses a rule, whatever its action is, exactly when one of the rule's exceptions has a row in
-- which every field has a value that the field's comparator accepts.
pub match_exception_iff :
    (rule : CompiledRule) (event : EnrichedEventForRule)
    → (match_exception rule event ≡ true)
      ↔ ((exc : RuleException) × Memᴰ exc rule.exceptions × Excepts match_field exc event)
unfolding match_exception
match_exception_iff rule event = match_any_exception_iff rule.exceptions event
