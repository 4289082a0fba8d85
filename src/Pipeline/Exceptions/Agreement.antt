-- ===== src/Pipeline/Exceptions/Agreement.antt =====
-- The comparisons of pkg/pipeline/exceptions.go against those of pkg/rules/engine.go.
use container_runtime_securi.Prelude.{
  ℕ, nat_comparable, string_comparable, bytes_comparable, ◌==◌, ==_iff, String, ◌+◌, ◌-◌, ◌<◌, ◌≡◌,
  refl, sym, ap, ◌∙◌, ◌≢◌, inl, inr, false, ◌&&◌, List, [], ◌∷◌, ◌++◌, map, arith, leb, Bool-cases,
  length, take, drop, length-append, take_append_left, drop_append_left,
}
use mathlib.Core.List.{append_assoc, append-nil}
use container_runtime_securi.Prelude.Slices.{Bytes}
use container_runtime_securi.Prelude.Text.{
  has_prefix, contains, split, split-cons, to_first, trim_space,
}
use container_runtime_securi.Prelude.Members.{is_member}
use container_runtime_securi.Rules.Exceptions
use container_runtime_securi.Rules.Exceptions.{
  engine_list_contains, any_trimmed, match_any_row, match_value_row, first_comp,
}
use container_runtime_securi.Pipeline.Exceptions.{
  list_contains_from, list_contains, contains_substring, match_field,
}

has_prefix-take :
    (s t : Bytes) → has_prefix s t ≡ (leb (length t) (length s) && take (length t) s == t)
unfolding has_prefix
has_prefix-take s [] = ground arith
has_prefix-take [] (d ∷ t) = ground arith
has_prefix-take (c ∷ s) (d ∷ t) = ground (arith, has_prefix-take s t)

too_short : (s t : Bytes) → length s < length t → contains s t ≡ false
unfolding contains
too_short [] t h = ground (arith, has_prefix-take [] t)
too_short (c ∷ s) t h = ground (arith, has_prefix-take (c ∷ s) t, too_short s t)

contains_substring-contains : (s t : Bytes) → contains_substring s t ≡ contains s t
unfolding contains_substring contains
contains_substring-contains [] t = ground (arith, has_prefix-take [] t)
contains_substring-contains (c ∷ s) t =
    ground (arith, has_prefix-take (c ∷ s) t, contains_substring-contains s t, too_short s t)

-- The fields of a text behind an item that has begun.
abbrev behind_item : Bytes → List Bytes → List Bytes
behind_item item [] = item ∷ []
behind_item item (field ∷ fields) = (item ++ field) ∷ fields

behind_item-to_first :
    (item : Bytes) (b : ℕ) (fields : List Bytes)
    → behind_item (item ++ (b ∷ [])) fields ≡ behind_item item (to_first b fields)
behind_item-to_first item b [] = refl
behind_item-to_first item b (field ∷ fields) =
    ap (λ f. f ∷ fields) (append_assoc item (b ∷ []) field)

current_item :
    (pre item rest : Bytes) (start i : ℕ)
    → start ≡ length pre
    → i ≡ length pre + length item
    → take (i - start) (drop start (pre ++ (item ++ rest))) ≡ item
current_item pre item rest start i at_start at_i =
    let width : i - start ≡ length item = omega arith in
    rw (width, at_start, drop_append_left pre (item ++ rest), take_append_left item rest) refl

behind_nothing : (s : Bytes) (sep : ℕ) → behind_item [] (split s sep) ≡ split s sep
behind_nothing s sep = let shape = (split-cons s sep).2 in rw shape refl

list_contains_from-is_member :
    (value pre item rest list : Bytes) (start i : ℕ)
    → list ≡ pre ++ (item ++ rest)
    → start ≡ length pre
    → i ≡ length pre + length item
    → list_contains_from list value start i rest
      ≡ is_member (behind_item item (split rest b',')) value
unfolding list_contains_from split is_member
list_contains_from-is_member value pre item [] list start i whole at_start at_i =
    let shown : take (i - start) (drop start list) ≡ item =
      rw whole (current_item pre item [] start i at_start at_i) in
    rw (shown, append-nil item) (ground arith)
list_contains_from-is_member value pre item (b ∷ rest) list start i whole at_start at_i =
    let shown : take (i - start) (drop start list) ≡ item =
      rw whole (current_item pre item (b ∷ rest) start i at_start at_i) in
    let longer = item ++ (b ∷ []) in
    let grown : item ++ (b ∷ rest) ≡ longer ++ rest = sym (append_assoc item (b ∷ []) rest) in
    let next : list_contains_from list value (i + 1) (i + 1) rest
        ≡ is_member (behind_item [] (split rest b',')) value =
      list_contains_from-is_member value (pre ++ longer) [] rest list (i + 1) (i + 1)
        (whole ∙ (ap (λ x. pre ++ x) grown ∙ sym (append_assoc pre longer rest)))
        (omega (arith, length-append pre longer, length-append item (b ∷ [])))
        (omega (arith, length-append pre longer, length-append item (b ∷ []))) in
    let same : list_contains_from list value start (i + 1) rest
        ≡ is_member (behind_item longer (split rest b',')) value =
      list_contains_from-is_member value pre longer rest list start (i + 1)
        (whole ∙ ap (λ x. pre ++ x) grown) at_start (omega (arith, length-append item (b ∷ []))) in
    elim (Bool-cases (b == b',')) [
      | inl cut ↦
          let later : list_contains_from list value (i + 1) (i + 1) rest
              ≡ is_member (split rest b',') value =
            next ∙ ap (λ fs. is_member fs value) (behind_nothing rest b',') in
          rw (cut, shown, append-nil item) (ground (arith, later))
      | inr held ↦
          rw held
            (same ∙ ap (λ fs. is_member fs value) (behind_item-to_first item b (split rest b',')))
    ]

-- The loop over the commas finds a value exactly when it is one of the fields between them.
list_contains-is_member :
    (list value : Bytes) → list_contains list value ≡ is_member (split list b',') value
unfolding list_contains
list_contains-is_member list value =
    list_contains_from-is_member value [] [] list list 0 0 refl refl refl
    ∙ ap (λ fs. is_member fs value) (behind_nothing list b',')

any_trimmed-is_member :
    (items : List Bytes) (value : Bytes)
    → any_trimmed items value ≡ is_member (map trim_space items) value
unfolding is_member
any_trimmed-is_member [] value = refl
any_trimmed-is_member (item ∷ items) value = ground (arith, any_trimmed-is_member items value)

in_list-agree :
    (list value : Bytes)
    → map trim_space (split list b',') ≡ split list b','
    → list_contains list value ≡ engine_list_contains list value
unfolding engine_list_contains
in_list-agree list value trimmed =
    list_contains-is_member list value
    ∙ sym (any_trimmed-is_member (split list b',') value ∙ ap (λ fs. is_member fs value) trimmed)

-- The pipeline's comparison and the rule engine's give the same answer, if the comparator is not `endswith`
-- and, where it is `in`, no item of the list has white space around it.
pub match_field-agree :
    (comp : String) (event_value expected_value : Bytes)
    → comp ≢ "endswith"
    → (comp ≡ "in" → map trim_space (split expected_value b',') ≡ split expected_value b',')
    → match_field comp event_value expected_value
      ≡ Exceptions.match_field comp event_value expected_value
unfolding match_field Exceptions.match_field
match_field-agree comp event_value expected_value not_suffix trimmed = ground (
  arith,
  ==_iff comp "endswith",
  ==_iff comp "in",
  in_list-agree expected_value event_value,
  contains_substring-contains event_value expected_value,
  has_prefix-take event_value expected_value,
)
