-- ===== src/Tests/Names.antt =====
-- Tests of the parsers of DNS and TLS messages.
use container_runtime_securi.Prelude.{
  nat_comparable, string_comparable, bytes_comparable, ◌≡◌, refl, inl, true, false, List, [], ◌∷◌,
  ◌++◌, arith, replicate,
}
use container_runtime_securi.Prelude.Outcome.{ok}
use container_runtime_securi.Prelude.Slices.{Bytes, index, slice}
use container_runtime_securi.Prelude.Text.{codes, contains, to_lower, has_prefix, has_suffix, split}
use container_runtime_securi.Ebpf.Dns.{parse_dns_name, join_labels}
use container_runtime_securi.Ebpf.Dns.Termination.{Returns, parse_dns_name-Returns}
use container_runtime_securi.Ebpf.Dns.RoundTrip.{encode_labels, AreLabels, parse_dns_name-encode}
use container_runtime_securi.Ebpf.Dns.Compression.{parse_dns_name-compressed}
use container_runtime_securi.Ebpf.Suspicious.{is_known_malware_c2_domain}
use container_runtime_securi.Ebpf.Suspicious.Patterns.{is_known_malware_c2_domain-few}
use container_runtime_securi.Ebpf.Sni.{
  extract_tls_client_hello_sni, client_hello_at, session_id_at, cipher_suites_at, compression_at,
  extensions_at, find_name, sni_extensions, parse_sni_extension, sni_names, u16_at, name_result,
  check_suspicious_sni, is_sni_mining_pool, is_sni_suspicious_tld, is_sni_long_random,
  is_sni_tor_hidden_service, is_sni_ip_address,
}
use container_runtime_securi.Ebpf.Sni.Totality.{
  Gives, IsConsistent, extract_tls_client_hello_sni-Gives,
}
use container_runtime_securi.Ebpf.DnsMessage.{parse_dns_message}
use container_runtime_securi.Ebpf.DnsMessage.Totality.{IsParsed, parse_dns_message-IsParsed}

abbrev example_com : List Bytes
example_com = codes "example" ∷ codes "com" ∷ []

-- A pointer to itself.
abbrev looping : Bytes
looping = 192 ∷ 0 ∷ []

parse_dns_name-Returns_example : Returns looping 0 (parse_dns_name looping 0)
parse_dns_name-Returns_example = parse_dns_name-Returns looping 0

example_com-AreLabels : AreLabels example_com
example_com-AreLabels = ((omega arith, omega arith), ((omega arith, omega arith), tt))

abbrev header : Bytes
header = replicate 12 0

parse_dns_name-encode_example :
    parse_dns_name (header ++ (encode_labels example_com ++ (0 ∷ 1 ∷ []))) 12
    ≡ ok (join_labels example_com, 25)
parse_dns_name-encode_example =
    parse_dns_name-encode header (1 ∷ []) example_com example_com-AreLabels

abbrev www : List Bytes
www = codes "www" ∷ []

abbrev compressed : Bytes
compressed = header ++ (encode_labels example_com ++ (0 ∷ (encode_labels www ++ (192 ∷ 12 ∷ []))))

parse_dns_name-compressed_example :
    parse_dns_name compressed 25 ≡ ok (join_labels (www ++ example_com), 31)
parse_dns_name-compressed_example =
    parse_dns_name-compressed compressed (header ++ (encode_labels example_com ++ (0 ∷ []))) []
      header (encode_labels www ++ (192 ∷ 12 ∷ [])) www example_com refl refl (omega arith)
      ((omega arith, omega arith), tt) example_com-AreLabels (inl (omega arith))

-- A message with one answer, an address record of two bytes.
abbrev short_address : Bytes
short_address =
    (0 ∷ 0 ∷ 128 ∷ 0 ∷ 0 ∷ 0 ∷ 0 ∷ 1 ∷ 0 ∷ 0 ∷ 0 ∷ 0 ∷ [])
    ++ (0 ∷ 0 ∷ 1 ∷ 0 ∷ 1 ∷ 0 ∷ 0 ∷ 0 ∷ 60 ∷ 0 ∷ 2 ∷ 9 ∷ 9 ∷ [])

parse_dns_message-IsParsed_example : IsParsed short_address (parse_dns_message short_address)
parse_dns_message-IsParsed_example = parse_dns_message-IsParsed short_address

-- A ClientHello with one extension, the server name `a.tk`.
abbrev client_hello : Bytes
client_hello =
    (22 ∷ 3 ∷ 1 ∷ 0 ∷ 58 ∷ 1 ∷ 0 ∷ 0 ∷ 54 ∷ 3 ∷ 3 ∷ [])
    ++ (replicate 32 7
        ++ ((0 ∷ 0 ∷ 2 ∷ 19 ∷ 1 ∷ 1 ∷ 0 ∷ 0 ∷ 13 ∷ [])
            ++ ((0 ∷ 0 ∷ 0 ∷ 9 ∷ 0 ∷ 7 ∷ 0 ∷ 0 ∷ 4 ∷ []) ++ codes "a.tk")))

client_hello_named :
    extract_tls_client_hello_sni client_hello
    ≡ ok (record {
      sni = codes "a.tk";
      tls_version = 769;
      has_sni = true;
      is_suspicious = true;
      suspicious_reasons = codes "suspicious_tld" ∷ [];
    })
unfolding extract_tls_client_hello_sni client_hello_at session_id_at cipher_suites_at compression_at
    extensions_at find_name sni_extensions parse_sni_extension sni_names u16_at name_result
    check_suspicious_sni is_sni_mining_pool is_sni_suspicious_tld is_sni_long_random
    is_sni_tor_hidden_service is_sni_ip_address index slice contains to_lower has_prefix has_suffix
    split
client_hello_named = refl

extract_tls_client_hello_sni-Gives_example :
    Gives IsConsistent (extract_tls_client_hello_sni client_hello)
extract_tls_client_hello_sni-Gives_example = extract_tls_client_hello_sni-Gives client_hello

is_known_malware_c2_domain-few_example : is_known_malware_c2_domain (codes "evil.tk") ≡ false
is_known_malware_c2_domain-few_example =
    is_known_malware_c2_domain-few (codes "evil.tk") (omega arith)

c2_subdomain : is_known_malware_c2_domain (codes "evil.tk.com") ≡ true
unfolding is_known_malware_c2_domain contains has_prefix to_lower
c2_subdomain = refl
