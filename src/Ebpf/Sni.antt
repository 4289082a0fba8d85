-- ===== src/Ebpf/Sni.antt =====
-- The parser of TLS ClientHello messages and the checks of server names of pkg/ebpf/types.go. The loops over
-- extensions and over names run on fuel; a read out of bounds is a panic.
pub mod Totality
use container_runtime_securi.Prelude.{
  ℕ, zero, suc, nat_comparable, string_comparable, bytes_comparable, Comparable, ◌==◌, ==_iff,
  ==_refl, bytes_beq, bytes_beq_iff, String, ◌<>◌, ◌+◌, ◌-◌, ◌*◌, ◌/◌, ◌%◌, ◌^◌, ◌≤◌, ◌<◌, ◌≡◌,
  refl, sym, ap, ◌∙◌, ◌≢◌, ◌↔◌, ◌⊎◌, inl, inr, Bool, true, false, not, ◌&&◌, ◌||◌, Option, none,
  some, List, [], ◌∷◌, ◌++◌, map, arith, ltb, leb, if◌then◌else◌, Bool-cases, Option-cases, length,
  get_elem?, take, drop, replicate, keep_if, length-append, take-append-drop, length-take,
  length-drop, take_append_left, drop_append_left, length-keep_if-le, drop_behind, get_elem?_behind,
  AllOf, append-AllOf, split-AllOf,
}
use container_runtime_securi.Prelude.Outcome.{Outcome, ok, fail, panic, ◌>>=◌}
use container_runtime_securi.Prelude.Slices.{Bytes, index, slice, be_value}
use container_runtime_securi.Prelude.Text.{codes, split, contains, has_suffix, to_lower}

-- The code returns no error here; the one of the model is spent fuel.
pub data SniError : Type 0 where
  spent : SniError

pub record TlsSniResult : Type 0 where
  pub sni : Bytes
  pub tls_version : ℕ
  pub has_sni : Bool
  pub is_suspicious : Bool
  pub suspicious_reasons : List Bytes

abbrev pub contains_some : Bytes → List Bytes → Bool
contains_some text [] = false
contains_some text (p ∷ patterns) = contains text p || contains_some text patterns

abbrev pub has_some_suffix : Bytes → List Bytes → Bool
has_some_suffix text [] = false
has_some_suffix text (p ∷ patterns) = has_suffix text p || has_some_suffix text patterns

unfoldable pub is_sni_mining_pool : Bytes → Bool
is_sni_mining_pool sni = contains_some (to_lower sni) (
    codes "miningpoolhub"
    ∷ codes "nanopool"
    ∷ codes "ethermine"
    ∷ codes "f2pool"
    ∷ codes "antpool"
    ∷ codes "slushpool"
    ∷ codes "nicehash"
    ∷ codes "minergate"
    ∷ codes "coinhive"
    ∷ codes "cryptoloot"
    ∷ codes "hashflare"
    ∷ codes "genesis-mining"
    ∷ codes "stratum"
    ∷ codes "xmrpool"
    ∷ codes "dwarfpool"
    ∷ [])

unfoldable pub is_sni_suspicious_tld : Bytes → Bool
is_sni_suspicious_tld sni = has_some_suffix (to_lower sni) (
    codes ".tk"
    ∷ codes ".ml"
    ∷ codes ".ga"
    ∷ codes ".cf"
    ∷ codes ".gq"
    ∷ codes ".bid"
    ∷ codes ".click"
    ∷ codes ".download"
    ∷ [])

unfoldable pub is_sni_long_random : Bytes → Bool
is_sni_long_random sni = elim (split sni b'.') [
  | [] ↦ false
  | label ∷ labels ↦ if leb 1 (length labels) then leb 20 (length label) else false
]

unfoldable pub is_sni_tor_hidden_service : Bytes → Bool
is_sni_tor_hidden_service sni = has_suffix (to_lower sni) (codes ".onion")

abbrev pub count_digits : Bytes → ℕ
count_digits [] = 0
count_digits (c ∷ s) = (if leb 48 c && leb c 57 then 1 else 0) + count_digits s

abbrev pub count_all_digits : List Bytes → ℕ
count_all_digits [] = 0
count_all_digits (p ∷ parts) = count_digits p + count_all_digits parts

unfoldable pub is_sni_ip_address : Bytes → Bool
is_sni_ip_address sni =
    let parts = split sni b'.' in
    if length parts == 4 then leb (length sni - 3) (count_all_digits parts) else false

abbrev pub reason_if : Bool → Bytes → List Bytes → List Bytes
reason_if true name reasons = name ∷ reasons
reason_if false name reasons = reasons

unfoldable pub check_suspicious_sni : Bytes → List Bytes
check_suspicious_sni sni = reason_if (is_sni_mining_pool sni) (codes "mining_pool_domain") (
    reason_if (is_sni_suspicious_tld sni) (codes "suspicious_tld") (
      reason_if (is_sni_long_random sni) (codes "long_random_subdomain") (
        reason_if (is_sni_tor_hidden_service sni) (codes "tor_hidden_service")
          (reason_if (is_sni_ip_address sni) (codes "ip_address_sni") []))))

-- `binary.BigEndian.Uint16(data[offset : offset+2])`
unfoldable pub u16_at : Bytes → ℕ → Outcome SniError ℕ
u16_at bytes offset = slice bytes offset (offset + 2) >>= λ field. ok (be_value field)

-- The loop over the names of an extension.
unfoldable pub sni_names : ℕ → Bytes → ℕ → Outcome SniError Bytes
sni_names zero bytes offset = fail spent
sni_names (suc fuel) bytes offset = elim (leb (offset + 3) (length bytes)) [
  | false ↦ ok []
  | true ↦ index bytes offset >>= λ name_type. u16_at bytes (offset + 1) >>= λ name_len.
      let start = offset + 3 in
      elim (name_type == 0 && leb (start + name_len) (length bytes)) [
        | true ↦ slice bytes start (start + name_len)
        | false ↦ sni_names fuel bytes (start + name_len)
      ]
]

-- The length of the list is read and not used.
unfoldable pub parse_sni_extension : Bytes → Outcome SniError Bytes
parse_sni_extension bytes =
    if ltb (length bytes) 2
    then ok []
    else u16_at bytes 0 >>= λ list_len. sni_names (length bytes + 1) bytes 2

-- The loop over the extensions up to their end: the first server name that is not empty, or none.
unfoldable pub sni_extensions : ℕ → Bytes → ℕ → ℕ → Outcome SniError Bytes
sni_extensions zero payload ext_end offset = fail spent
sni_extensions (suc fuel) payload ext_end offset = elim (leb (offset + 4) ext_end) [
  | false ↦ ok []
  | true ↦ u16_at payload offset >>= λ ext_type. u16_at payload (offset + 2) >>= λ ext_len.
      let start = offset + 4 in
      elim (ltb ext_end (start + ext_len)) [
        | true ↦ ok []
        | false ↦ elim (ext_type == 0) [
          | false ↦ sni_extensions fuel payload ext_end (start + ext_len)
          | true ↦ slice payload start (start + ext_len) >>= λ ext.
              parse_sni_extension ext >>= λ sni. elim (sni == []) [
                | true ↦ sni_extensions fuel payload ext_end (start + ext_len)
                | false ↦ ok sni
              ]
        ]
      ]
]

-- The extensions' offset and end, or nothing where the message ends too early.
unfoldable pub extensions_at : Bytes → ℕ → Outcome SniError (Option (ℕ × ℕ))
extensions_at payload offset =
    if ltb (length payload) (offset + 2)
    then ok none
    else (u16_at payload offset >>= λ ext_len.
        let ext_end = offset + 2 + ext_len in
        if ext_len == 0
        then ok none
        else ok
            (some (offset + 2, if ltb (length payload) ext_end then length payload else ext_end)))

unfoldable pub compression_at : Bytes → ℕ → Outcome SniError (Option (ℕ × ℕ))
compression_at payload offset =
    if ltb (length payload) (offset + 1)
    then ok none
    else (index payload offset >>= λ compression_len.
        if ltb (length payload) (offset + 1 + compression_len)
        then ok none
        else extensions_at payload (offset + 1 + compression_len))

-- Too long a list of cipher suites counts up to the end of the payload.
unfoldable pub cipher_suites_at : Bytes → ℕ → Outcome SniError (Option (ℕ × ℕ))
cipher_suites_at payload offset =
    if ltb (length payload) (offset + 2)
    then ok none
    else (u16_at payload offset >>= λ suites_len.
        let start = offset + 2 in
        compression_at payload (
          if ltb (length payload) (start + suites_len) then length payload else start + suites_len))

unfoldable pub session_id_at : Bytes → ℕ → Outcome SniError (Option (ℕ × ℕ))
session_id_at payload offset =
    if ltb (length payload) (offset + 1)
    then ok none
    else (index payload offset >>= λ session_id_len.
        if ltb (length payload) (offset + 1 + session_id_len)
        then ok none
        else cipher_suites_at payload (offset + 1 + session_id_len))

-- From the handshake header: its four bytes, the version and the random bytes are passed.
unfoldable pub client_hello_at : Bytes → ℕ → Outcome SniError (Option (ℕ × ℕ))
client_hello_at payload offset =
    if ltb (length payload) (offset + 4)
    then ok none
    else (index payload offset >>= λ handshake_type.
        if not (handshake_type == 1)
        then ok none
        else if ltb (length payload) (offset + 4 + 2)
        then ok none
        else if ltb (length payload) (offset + 4 + 2 + 32)
        then ok none
        else session_id_at payload (offset + 4 + 2 + 32))

abbrev pub no_sni : ℕ → TlsSniResult
no_sni version = record {
  sni = [];
  tls_version = version;
  has_sni = false;
  is_suspicious = false;
  suspicious_reasons = [];
}

unfoldable pub name_result : ℕ → Bytes → TlsSniResult
name_result version sni =
    let reasons = check_suspicious_sni sni in
    if sni == [] then no_sni version else record {
      sni = sni;
      tls_version = version;
      has_sni = true;
      is_suspicious = ltb 0 (length reasons);
      suspicious_reasons = reasons;
    }

unfoldable pub find_name : Bytes → Option (ℕ × ℕ) → Outcome SniError Bytes
find_name payload none = ok []
find_name payload (some (offset, ext_end)) =
    sni_extensions (length payload + 1) payload ext_end offset

unfoldable pub extract_tls_client_hello_sni : Bytes → Outcome SniError TlsSniResult
extract_tls_client_hello_sni payload =
    if ltb (length payload) 5
    then ok (no_sni 0)
    else (index payload 0 >>= λ content_type.
        if not (content_type == 22)
        then ok (no_sni 0)
        else (u16_at payload 1 >>= λ version. client_hello_at payload 5 >>= λ found.
            find_name payload found >>= λ sni. ok (name_result version sni)))
