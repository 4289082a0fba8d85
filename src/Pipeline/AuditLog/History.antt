-- ===== src/Pipeline/AuditLog/History.antt =====
-- The audit log of pkg/pipeline/enforcement_log.go against the full history of decisions.
use container_runtime_securi.Prelude.{
  ℕ, zero, suc, nat_comparable, string_comparable, bytes_comparable, ◌==◌, ==_iff, String, ◌+◌, ◌-◌,
  ◌≤◌, ◌≡◌, refl, sym, ap, ◌∙◌, inl, inr, true, not, none, some, List, [], ◌∷◌, ◌++◌, arith, ltb,
  leb, if◌then◌else◌, Bool-cases, Option-cases, length, drop, keep_if, length-append, length-drop,
}
use container_runtime_securi.Prelude.GoMap
use container_runtime_securi.Prelude.GoMap.{GoMap, get-put}
use container_runtime_securi.Pipeline.AuditLog.{
  EnforcementResult, EnforcementAuditLog, EnforcementSummary, record_result, recent, count_entries,
  increment, count_reasons, count_by_reason, count_rules, count_by_rule, is_kill, successful_kills,
  skipped_enforcements, summarise_entry, summarise, summary,
}
use Prim.Native.Nat.{min}
use native.Mathlib.Nat.{zero-add, suc-add}
use mathlib.Core.List.{append-nil, append_assoc}

-- Recording a history of decisions, oldest first.
unfoldable pub record_all : EnforcementAuditLog → List EnforcementResult → EnforcementAuditLog
record_all l [] = l
record_all l (x ∷ xs) = record_all (record_result l x) xs

-- The last `n` elements.
abbrev pub last_of {ℓ} : {A : Type ℓ} → ℕ → List A → List A
last_of n xs = drop (length xs - n) xs

drop-append_le {ℓ} :
    {A : Type ℓ} (n : ℕ) (xs ys : List A) → n ≤ length xs → drop n (xs ++ ys) ≡ drop n xs ++ ys
drop-append_le zero xs ys h = refl
drop-append_le (suc n) [] ys h = absurd (omega arith)
drop-append_le (suc n) (x ∷ xs) ys h = drop-append_le n xs ys (omega arith)

drop-drop {ℓ} : {A : Type ℓ} (n : ℕ) (xs : List A) → drop 1 (drop n xs) ≡ drop (suc n) xs
drop-drop zero xs = refl
drop-drop (suc n) [] = refl
drop-drop (suc n) (x ∷ xs) = drop-drop n xs

drop_all {ℓ} : {A : Type ℓ} (n : ℕ) (xs : List A) → length xs ≤ n → drop n xs ≡ []
drop_all zero [] h = refl
drop_all zero (x ∷ xs) h = absurd (omega arith)
drop_all (suc n) [] h = refl
drop_all (suc n) (x ∷ xs) h = drop_all n xs (omega arith)

drop-add {ℓ} : {A : Type ℓ} (m n : ℕ) (xs : List A) → drop n (drop m xs) ≡ drop (m + n) xs
drop-add zero n xs = rw zero-add
drop-add (suc m) zero [] = sym (drop_all (suc m + zero) [] (omega arith))
drop-add (suc m) (suc n) [] = sym (drop_all (suc m + suc n) [] (omega arith))
drop-add (suc m) n (x ∷ xs) = rw suc-add (drop-add m n xs)

-- One more decision moves the window of the last `m` by one.
last_of-append {ℓ} :
    {A : Type ℓ} (m : ℕ) (h : List A) (x : A)
    → 1 ≤ m
    → last_of m (h ++ (x ∷ []))
      ≡ (if leb m (length (last_of m h)) then drop 1 (last_of m h) else last_of m h) ++ (x ∷ [])
last_of-append m h x pos = elim (Bool-cases (leb m (length h))) [
  | inl full ↦
      let size : length h + 1 - m ≡ suc (length h - m) = ground arith in
      let kept : length (last_of m h) ≡ m = ground (arith, length-drop (length h - m) h) in
      let test : leb m (length (last_of m h)) ≡ true = ground arith in
      rw (length-append h (x ∷ []), size, test, drop-drop (length h - m) h)
        (drop-append_le (suc (length h - m)) h (x ∷ []) (ground arith))
  | inr room ↦
      let size : length h + 1 - m ≡ 0 = ground arith in
      let none_over : length h - m ≡ 0 = ground arith in
      rw (length-append h (x ∷ []), size, none_over, room)
]

record_all-last :
    (l : EnforcementAuditLog) (h xs : List EnforcementResult)
    → 1 ≤ l.max_size
    → l.entries ≡ last_of l.max_size h
    → (record_all l xs).entries ≡ last_of l.max_size (h ++ xs)
unfolding record_all record_result
record_all-last l h [] pos e = rw append-nil e
record_all-last l h (x ∷ xs) pos e =
    let step : (record_result l x).entries ≡ last_of l.max_size (h ++ (x ∷ [])) =
      rw (e, last_of-append l.max_size h x pos) in
    record_all-last (record_result l x) (h ++ (x ∷ [])) xs pos step
    ∙ ap (last_of l.max_size) (append_assoc h (x ∷ []) xs)

entries-record_all :
    (l : EnforcementAuditLog) (xs : List EnforcementResult)
    → 1 ≤ l.max_size
    → l.entries ≡ []
    → (record_all l xs).entries ≡ last_of l.max_size xs
entries-record_all l xs pos e =
    record_all-last l [] xs pos (e ∙ sym (drop_all (0 - l.max_size) [] (omega arith)))

recent-eq-last : (l : EnforcementAuditLog) (n : ℕ) → recent l n ≡ last_of n l.entries
unfolding recent
recent-eq-last l n = elim (Bool-cases (ltb (length l.entries) n)) [
  | inl more ↦
      let whole : length l.entries - n ≡ 0 = ground arith in
      let itself : length l.entries - length l.entries ≡ 0 = omega arith in
      ground (arith, drop_all (length l.entries - n) l.entries)
  | inr fewer ↦ ground (arith, drop_all (length l.entries - n) l.entries)
]

-- `Recent(n)` after any history of decisions, from an empty log of at least one place: the last `n` decisions of the
-- history, or the last `max_size` if that is less, in order.
pub recent-record_all :
    (l : EnforcementAuditLog) (xs : List EnforcementResult) (n : ℕ)
    → 1 ≤ l.max_size
    → l.entries ≡ []
    → recent (record_all l xs) n ≡ last_of (min n l.max_size) xs
recent-record_all l xs n pos e =
    let m = l.max_size in
    let all : (record_all l xs).entries ≡ last_of m xs = entries-record_all l xs pos e in
    let size : length (last_of m xs) ≡ length xs - (length xs - m) =
      length-drop (length xs - m) xs in
    let offset : length xs - m + (length (last_of m xs) - n) ≡ length xs - min n m = omega arith in
    recent-eq-last (record_all l xs) n
    ∙ rw (all, drop-add (length xs - m) (length (last_of m xs) - n) xs, offset)

-- After any history of decisions, from an empty log of at least one place, the log holds as many entries
-- as there were decisions, or `max_size` if that is less.
pub count_entries-record_all :
    (l : EnforcementAuditLog) (xs : List EnforcementResult)
    → 1 ≤ l.max_size
    → l.entries ≡ []
    → count_entries (record_all l xs) ≡ min (length xs) l.max_size
unfolding count_entries
count_entries-record_all l xs pos e =
    let all : (record_all l xs).entries ≡ last_of l.max_size xs = entries-record_all l xs pos e in
    rw all (omega (arith, length-drop (length xs - l.max_size) xs))

-- What a counter map holds for a key, 0 if nothing.
abbrev pub counted : GoMap String ℕ → String → ℕ
counted m key = elim (GoMap.get m key) [ none ↦ 0 | some n ↦ n ]

counted-increment :
    (m : GoMap String ℕ) (k j : String)
    → counted (increment m k) j ≡ (if k == j then counted m j + 1 else counted m j)
unfolding increment
counted-increment m k j = elim (Option-cases (GoMap.get m k)) [
  | inl e ↦ ground (arith, e, get-put m k j 1, ==_iff k j)
  | inr (n, e) ↦ ground (arith, e, get-put m k j (n + 1), ==_iff k j)
]

counted-count_reasons :
    (m : GoMap String ℕ) (xs : List EnforcementResult) (r : String)
    → counted (count_reasons m xs) r ≡ counted m r + length (keep_if (λ x. x.reason == r) xs)
unfolding count_reasons
counted-count_reasons m [] r = omega arith
counted-count_reasons m (x ∷ xs) r =
    ground
      (arith, counted-count_reasons (increment m x.reason) xs r, counted-increment m x.reason r)

-- `CountByReason` gives each reason the number of the entries that carry it.
pub counted-count_by_reason :
    (l : EnforcementAuditLog) (r : String)
    → counted (count_by_reason l) r ≡ length (keep_if (λ x. x.reason == r) l.entries)
unfolding count_by_reason
counted-count_by_reason l r =
    counted-count_reasons [] l.entries r ∙ (unfold GoMap.get in omega arith)

summarise_lem :
    (s : EnforcementSummary) (xs : List EnforcementResult)
    → summarise s xs ≡ record {
      total_decisions = s.total_decisions;
      successful_kills = s.successful_kills + length (keep_if is_kill xs);
      skipped_enforcements = s.skipped_enforcements + length (keep_if (λ x. not x.success) xs);
      by_reason = count_reasons s.by_reason xs;
      by_rule = count_rules s.by_rule xs;
    }
unfolding summarise summarise_entry count_reasons count_rules
summarise_lem s [] = ground arith
summarise_lem s (x ∷ xs) = ground (arith, summarise_lem (summarise_entry s x) xs)

-- The one-pass `Summary` agrees with the five separate queries.
pub summary_lem :
    (l : EnforcementAuditLog)
    → summary l ≡ record {
      total_decisions = count_entries l;
      successful_kills = successful_kills l;
      skipped_enforcements = skipped_enforcements l;
      by_reason = count_by_reason l;
      by_rule = count_by_rule l;
    }
unfolding summary count_entries successful_kills skipped_enforcements count_by_reason count_by_rule
summary_lem l = rw summarise_lem (ground arith)

kills_and_skips :
    (xs : List EnforcementResult)
    → length (keep_if is_kill xs) + length (keep_if (λ x. not x.success) xs) ≤ length xs
unfolding is_kill
kills_and_skips [] = omega arith
kills_and_skips (x ∷ xs) = ground (arith, kills_and_skips xs)
