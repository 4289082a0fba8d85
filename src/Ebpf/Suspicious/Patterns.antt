-- ===== src/Ebpf/Suspicious/Patterns.antt =====
-- What the checks of query names of pkg/ebpf/dns.go find.
use container_runtime_securi.Prelude.{
  ℕ, nat_comparable, string_comparable, bytes_comparable, ◌==◌, ◌+◌, ◌≤◌, ◌<◌, ◌≡◌, refl, inl, inr,
  Bool, true, false, ◌&&◌, ◌||◌, List, [], ◌∷◌, ◌++◌, arith, ltb, leb, if◌then◌else◌, Bool-cases,
  length, AllOf,
}
use container_runtime_securi.Prelude.Float.{FloatArithmetic}
use container_runtime_securi.Prelude.Slices.{Bytes}
use container_runtime_securi.Prelude.Text.{contains, contains_place, to_lower}
use container_runtime_securi.Ebpf.Sni.{contains_some, reason_if, is_sni_mining_pool}
use container_runtime_securi.Ebpf.Suspicious.{
  is_known_mining_pool_domain, c2_patterns, is_known_malware_c2_domain, is_long_subdomain,
  has_random_labels, has_high_entropy, check_suspicious_dns,
}

abbrev pub dots : Bytes → ℕ
dots [] = 0
dots (c ∷ s) = (if c == b'.' then 1 else 0) + dots s

dots-append : (s t : Bytes) → dots (s ++ t) ≡ dots s + dots t
dots-append [] t = omega arith
dots-append (c ∷ s) t = let rest = dots-append s t in omega arith

lower_dot : (c : ℕ) → ((if leb 65 c && leb c 90 then c + 32 else c) == b'.') ≡ (c == b'.')
lower_dot c = ground arith

dots-to_lower : (s : Bytes) → dots (to_lower s) ≡ dots s
unfolding to_lower
dots-to_lower [] = refl
dots-to_lower (c ∷ s) =
    let rest = dots-to_lower s in let same = lower_dot c in rw same (rw rest refl)

contains-dots : (s t : Bytes) → contains s t ≡ true → dots t ≤ dots s
contains-dots s t h =
    let place = contains_place s t h in
    let whole = dots-append place.0 (t ++ place.1) in
    let part = dots-append t place.1 in rw place.2 (omega arith)

contains_some-dots :
    (s : Bytes) (patterns : List Bytes)
    → AllOf (λ p. 2 ≤ dots p) patterns
    → dots s < 2
    → contains_some s patterns ≡ false
contains_some-dots s [] all few = refl
contains_some-dots s (p ∷ patterns) all few = elim (Bool-cases (contains s p)) [
  | inl found ↦ let bound = contains-dots s p found in let wanted = all.0 in absurd (omega arith)
  | inr absent ↦ rw absent (contains_some-dots s patterns all.1 few)
]

-- `isKnownMalwareC2Domain` refuses every name with fewer than two dots, thus every domain of two labels, whatever
-- its last label is.
pub is_known_malware_c2_domain-few :
    (name : Bytes) → dots name < 2 → is_known_malware_c2_domain name ≡ false
unfolding is_known_malware_c2_domain
is_known_malware_c2_domain-few name few =
    contains_some-dots (to_lower name) c2_patterns
      ((omega arith, (omega arith, (omega arith, (omega arith, (omega arith, (omega arith, tt)))))))
      (let same = dots-to_lower name in omega arith)

-- A name that the check of server names takes for a mining pool's is one for the check of query names.
pub is_known_mining_pool_domain-sni :
    (name : Bytes) → is_sni_mining_pool name ≡ true → is_known_mining_pool_domain name ≡ true
unfolding is_known_mining_pool_domain is_sni_mining_pool
is_known_mining_pool_domain-sni name h = ground arith

reason_if-some :
    (b : Bool) (name : Bytes) (reasons : List Bytes) (rest : Bool)
    → ltb 0 (length reasons) ≡ rest
    → ltb 0 (length (reason_if b name reasons)) ≡ (b || rest)
reason_if-some true name reasons rest h = ground arith
reason_if-some false name reasons rest h = h

one_reason : (b : Bool) (name : Bytes) → ltb 0 (length (reason_if b name [])) ≡ b
one_reason true name = refl
one_reason false name = refl

module _ (float : FloatArithmetic) (walk : List (ℕ × ℕ) → List (ℕ × ℕ)) where
  -- `CheckSuspiciousDNS` calls a query suspicious exactly if one of its five checks does.
  pub check_suspicious_dns-is_suspicious :
      (name : Bytes) (qtype : ℕ)
      → (check_suspicious_dns float walk name qtype).is_suspicious ≡ (
          is_long_subdomain name
          || (has_random_labels name
              || (has_high_entropy float walk name
                  || (is_known_mining_pool_domain name || is_known_malware_c2_domain name))))
  unfolding check_suspicious_dns
  check_suspicious_dns-is_suspicious name qtype = reason_if-some (is_long_subdomain name) _ _ _ (
      reason_if-some (has_random_labels name) _ _ _ (
        reason_if-some (has_high_entropy float walk name) _ _ _
          (reason_if-some (is_known_mining_pool_domain name) _ _ _ (one_reason _ _))))
