-- ===== src/Ebpf/Suspicious.antt =====
-- `CheckSuspiciousDNS` and its checks of query names of pkg/ebpf/dns.go. A rune is a byte here, as in ASCII; the
-- order in which the map of frequencies is walked is an argument.
pub mod Patterns
use container_runtime_securi.Prelude.{
  ℕ, zero, suc, nat_comparable, string_comparable, bytes_comparable, Comparable, ◌==◌, ==_iff,
  ==_refl, bytes_beq, bytes_beq_iff, String, ◌<>◌, ◌+◌, ◌-◌, ◌*◌, ◌/◌, ◌%◌, ◌^◌, ◌≤◌, ◌<◌, ◌≡◌,
  refl, sym, ap, ◌∙◌, ◌≢◌, ◌↔◌, ◌⊎◌, inl, inr, Bool, true, false, not, ◌&&◌, ◌||◌, Option, none,
  some, List, [], ◌∷◌, ◌++◌, map, arith, ltb, leb, if◌then◌else◌, Bool-cases, Option-cases, length,
  get_elem?, take, drop, replicate, keep_if, length-append, take-append-drop, length-take,
  length-drop, take_append_left, drop_append_left, length-keep_if-le, drop_behind, get_elem?_behind,
  AllOf, append-AllOf, split-AllOf,
}
use container_runtime_securi.Prelude.Float.{FloatArithmetic}
use container_runtime_securi.Prelude.Members.{is_member}
use container_runtime_securi.Prelude.GoMap.{GoMap}
use container_runtime_securi.Prelude.Slices.{Bytes}
use container_runtime_securi.Prelude.Text.{codes, split, contains, to_lower}
use container_runtime_securi.Ebpf.Sni.{contains_some, reason_if}

pub record SuspiciousDnsQuery : Type 0 where
  pub query_name : Bytes
  pub query_type : ℕ
  pub patterns : List Bytes
  pub is_suspicious : Bool

unfoldable pub is_long_subdomain : Bytes → Bool
is_long_subdomain name = ltb 5 (length (split name b'.'))

-- The keys of the map `chars`.
abbrev pub unique : Bytes → Bytes
unique [] = []
unique (c ∷ s) = let rest = unique s in if is_member rest c then rest else c ∷ rest

-- The quotient of two such lengths is more than 0.8 as a float64 exactly if it is more than 4/5.
unfoldable pub has_random_labels : Bytes → Bool
has_random_labels name = elim (split name b'.') [
  | [] ↦ false
  | label ∷ labels ↦
      if ltb (length labels) 1 || ltb (length label) 8
      then false
      else ltb (4 * length label) (5 * length (unique label)) && leb 8 (length label)
]

unfoldable pub is_known_mining_pool_domain : Bytes → Bool
is_known_mining_pool_domain name = contains_some (to_lower name) (
    codes "miningpoolhub"
    ∷ codes "nanopool"
    ∷ codes "ethermine"
    ∷ codes "f2pool"
    ∷ codes "antpool"
    ∷ codes "slushpool"
    ∷ codes "nicehash"
    ∷ codes "minergate"
    ∷ codes "coinhive"
    ∷ codes "cryptoloot"
    ∷ codes "hashflare"
    ∷ codes "genesis-mining"
    ∷ codes "pool.minexmr"
    ∷ codes "stratum"
    ∷ codes "xmrpool"
    ∷ codes "dwarfpool"
    ∷ codes "mining.flexpool"
    ∷ codes "pool.hashrate"
    ∷ [])

abbrev pub c2_patterns : List Bytes
c2_patterns =
    codes ".onion." ∷ codes ".bit." ∷ codes ".tk." ∷ codes ".ml." ∷ codes ".ga." ∷ codes ".cf." ∷ []

unfoldable pub is_known_malware_c2_domain : Bytes → Bool
is_known_malware_c2_domain name = contains_some (to_lower name) c2_patterns

-- `freq[c]++`, on counts that a float64 holds exactly.
abbrev pub count_rune : ℕ → List (ℕ × ℕ) → List (ℕ × ℕ)
count_rune c [] = (c, 1) ∷ []
count_rune c ((d, n) ∷ freq) =
    let rest = count_rune c freq in if c == d then (d, n + 1) ∷ freq else (d, n) ∷ rest

abbrev pub frequencies : Bytes → List (ℕ × ℕ) → List (ℕ × ℕ)
frequencies [] freq = freq
frequencies (c ∷ s) freq = frequencies s (count_rune c freq)

module _ (float : FloatArithmetic) where
  unfoldable pub shannon_log2 : float.F → float.F
  shannon_log2 p =
      if float.le p (float.of_nat 0)
      then float.of_nat 0
      else if float.eq p (float.of_nat 1)
      then float.of_nat 0
      else if float.eq p (float.literal 1 2)
      then float.minus (float.of_nat 1)
      else if float.le (float.literal 4 10) p
      then float.minus (float.literal 125 100)
      else if float.le (float.literal 2 10) p
      then float.minus (float.literal 225 100)
      else if float.le (float.literal 1 10) p
      then float.minus (float.literal 325 100)
      else if float.le (float.literal 5 100) p
      then float.minus (float.literal 425 100)
      else float.minus (float.of_nat 5)

  unfoldable pub entropy_from : ℕ → List (ℕ × ℕ) → float.F → float.F
  entropy_from n [] entropy = entropy
  entropy_from n ((c, count) ∷ freq) entropy =
      let p = float.div (float.of_nat count) (float.of_nat n) in
      let less = float.sub entropy (float.mul p (shannon_log2 p)) in
      entropy_from n freq (if float.lt (float.of_nat 0) p then less else entropy)

  module _ (walk : List (ℕ × ℕ) → List (ℕ × ℕ)) where
    unfoldable pub has_high_entropy : Bytes → Bool
    has_high_entropy name =
        if ltb (length name) 10
        then false
        else float.lt (float.literal 35 10)
            (entropy_from (length name) (walk (frequencies name [])) (float.of_nat 0))

    unfoldable pub check_suspicious_dns : Bytes → ℕ → SuspiciousDnsQuery
    check_suspicious_dns name qtype =
        let patterns = reason_if (is_long_subdomain name) (codes "long_subdomain") (
          reason_if (has_random_labels name) (codes "random_labels") (
            reason_if (has_high_entropy name) (codes "high_entropy") (
              reason_if (is_known_mining_pool_domain name) (codes "known_mining_pool")
                (reason_if (is_known_malware_c2_domain name) (codes "known_malware_c2") [])))) in
        record {
          query_name = name;
          query_type = qtype;
          patterns = patterns;
          is_suspicious = ltb 0 (length patterns);
        }
