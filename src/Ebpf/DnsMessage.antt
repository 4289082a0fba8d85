-- ===== src/Ebpf/DnsMessage.antt =====
-- `ParseDNSMessage`, `parseDNSAnswer`, `formatRData` and the flags of a DNS message of pkg/ebpf/dns.go.
pub mod Rdata
pub mod Totality
use container_runtime_securi.Prelude.{
  ℕ, zero, suc, nat_comparable, string_comparable, bytes_comparable, Comparable, ◌==◌, ==_iff,
  ==_refl, bytes_beq, bytes_beq_iff, String, ◌<>◌, ◌+◌, ◌-◌, ◌*◌, ◌/◌, ◌%◌, ◌^◌, ◌≤◌, ◌<◌, ◌≡◌,
  refl, sym, ap, ◌∙◌, ◌≢◌, ◌↔◌, ◌⊎◌, inl, inr, Bool, true, false, not, ◌&&◌, ◌||◌, Option, none,
  some, List, [], ◌∷◌, ◌++◌, map, arith, ltb, leb, if◌then◌else◌, Bool-cases, Option-cases, length,
  get_elem?, take, drop, replicate, keep_if, length-append, take-append-drop, length-take,
  length-drop, take_append_left, drop_append_left, length-keep_if-le, drop_behind, get_elem?_behind,
  AllOf, append-AllOf, split-AllOf,
}
use container_runtime_securi.Prelude.GoMap
use container_runtime_securi.Prelude.GoMap.{GoMap}
use container_runtime_securi.Prelude.Outcome.{Outcome, ok, fail, panic, ◌>>=◌, map_fail}
use container_runtime_securi.Prelude.Slices.{Bytes, index, slice, be_value}
use container_runtime_securi.Prelude.Text.{codes, join, decimal, hexadecimal}
use container_runtime_securi.Ebpf.Dns.{
  DnsError, out_of_fuel, answer_header_beyond_data, question_name, question_truncated,
  parse_dns_name, parse_simple_labels, find_dns_substring_offset,
}

abbrev pub dns_port : ℕ
dns_port = 53

abbrev pub dns_header_size : ℕ
dns_header_size = 12

abbrev pub dns_type_a : ℕ
dns_type_a = 1

abbrev pub dns_type_ns : ℕ
dns_type_ns = 2

abbrev pub dns_type_cname : ℕ
dns_type_cname = 5

abbrev pub dns_type_soa : ℕ
dns_type_soa = 6

abbrev pub dns_type_ptr : ℕ
dns_type_ptr = 12

abbrev pub dns_type_mx : ℕ
dns_type_mx = 15

abbrev pub dns_type_txt : ℕ
dns_type_txt = 16

abbrev pub dns_type_aaaa : ℕ
dns_type_aaaa = 28

abbrev pub dns_type_srv : ℕ
dns_type_srv = 33

abbrev pub dns_type_any : ℕ
dns_type_any = 255

pub record DnsHeader : Type 0 where
  pub id : ℕ
  pub flags : ℕ
  pub qd_count : ℕ
  pub an_count : ℕ
  pub ns_count : ℕ
  pub ar_count : ℕ

pub record DnsQuestion : Type 0 where
  pub name : Bytes
  pub qtype : ℕ
  pub class : ℕ

pub record DnsAnswer : Type 0 where
  pub name : Bytes
  pub rrtype : ℕ
  pub class : ℕ
  pub ttl : ℕ
  pub rd_length : ℕ
  pub rdata : Bytes

pub record DnsMessage : Type 0 where
  pub header : DnsHeader
  pub questions : List DnsQuestion
  pub answers : List DnsAnswer
  pub raw : Bytes

-- The tests of bits 15 and 9, and the fields of the flags.
unfoldable pub is_query : DnsMessage → Bool
is_query m = m.header.flags / 32768 % 2 == 0

unfoldable pub is_response : DnsMessage → Bool
is_response m = not (m.header.flags / 32768 % 2 == 0)

unfoldable pub rcode : DnsMessage → ℕ
rcode m = m.header.flags % 16 % 256

unfoldable pub op_code : DnsMessage → ℕ
op_code m = m.header.flags / 2048 % 16 % 256

unfoldable pub is_truncated : DnsMessage → Bool
is_truncated m = not (m.header.flags / 512 % 2 == 0)

-- `binary.BigEndian.UintN(data[offset : offset+width])`
unfoldable pub be_at : Bytes → ℕ → ℕ → Outcome DnsError ℕ
be_at bytes offset width = slice bytes offset (offset + width) >>= λ field. ok (be_value field)

-- The loop over the strings of a TXT record.
unfoldable pub txt_strings : ℕ → Bytes → ℕ → Outcome DnsError (List Bytes)
txt_strings zero rdata off = fail out_of_fuel
txt_strings (suc fuel) rdata off = elim (ltb off (length rdata)) [
  | false ↦ ok []
  | true ↦ index rdata off >>= λ len.
      let start = off + 1 in
      elim (ltb (length rdata) (start + len)) [
        | true ↦ ok []
        | false ↦ slice rdata start (start + len) >>= λ text.
            txt_strings fuel rdata (start + len) >>= λ texts. ok (text ∷ texts)
      ]
]

-- `%d.%d.%d.%d` of `rdata[0]` to `rdata[3]`.
unfoldable pub address_rdata : Bytes → Outcome DnsError Bytes
address_rdata rdata = index rdata 0 >>= λ a. index rdata 1 >>= λ b. index rdata 2 >>= λ c.
    index rdata 3 >>= λ d.
    ok (join (decimal a ∷ decimal b ∷ decimal c ∷ decimal d ∷ []) (codes "."))

-- The arguments of `%x:%x:...`: numbers of two bytes from an offset.
unfoldable pub hex_groups : ℕ → Bytes → ℕ → Outcome DnsError (List Bytes)
hex_groups zero rdata offset = ok []
hex_groups (suc n) rdata offset = be_at rdata offset 2 >>= λ group.
    hex_groups n rdata (offset + 2) >>= λ groups. ok (hexadecimal group ∷ groups)

abbrev pub byte_count : Bytes → Bytes
byte_count rdata = codes "(" ++ (decimal (length rdata) ++ codes " bytes)")

-- The name at the place of the record in the message; an error means the fallback.
unfoldable pub name_at : Bytes → Bytes → Option ℕ → Outcome DnsError Bytes
name_at rdata message none = parse_simple_labels rdata
name_at rdata message (some offset) = elim (parse_dns_name message offset) [
  | ok r ↦ ok r.0
  | fail e ↦ parse_simple_labels rdata
  | panic ↦ panic
]

-- The case of a name.
unfoldable pub name_rdata : Bytes → Bytes → Outcome DnsError Bytes
name_rdata rdata message =
    if ltb 0 (length rdata)
    then find_dns_substring_offset message rdata >>= name_at rdata message
    else parse_simple_labels rdata

-- The case of a mail exchange, whose name stands behind two bytes.
unfoldable pub mx_rdata : Bytes → Bytes → Outcome DnsError Bytes
mx_rdata rdata message = be_at rdata 0 2 >>= λ preference.
    slice rdata 2 (length rdata) >>= λ exchange.
    name_rdata exchange message >>= λ name. ok (decimal preference ++ (codes " " ++ name))

unfoldable pub format_rdata : ℕ → Bytes → Bytes → Outcome DnsError Bytes
format_rdata rrtype rdata message =
    if rrtype == dns_type_a
    then if leb 4 (length rdata) then address_rdata rdata else ok (byte_count rdata)
    else if rrtype == dns_type_aaaa
    then if leb 16 (length rdata)
      then hex_groups 8 rdata 0 >>= (λ groups. ok (join groups (codes ":")))
      else ok (byte_count rdata)
    else if rrtype == dns_type_cname || (rrtype == dns_type_ns || rrtype == dns_type_ptr)
    then name_rdata rdata message
    else if rrtype == dns_type_mx
    then if leb 2 (length rdata) then mx_rdata rdata message else ok (byte_count rdata)
    else if rrtype == dns_type_txt
    then txt_strings (length rdata + 1) rdata 0 >>= (λ texts. ok (join texts (codes " ")))
    else ok (byte_count rdata)

-- The answer behind its name, whose header is there.
unfoldable pub answer_body : Bytes → Bytes → ℕ → Outcome DnsError (DnsAnswer × ℕ)
answer_body message name offset = be_at message offset 2 >>= λ rrtype.
    be_at message (offset + 2) 2 >>= λ class. be_at message (offset + 4) 4 >>= λ ttl.
    be_at message (offset + 8) 2 >>= λ rd_length.
    let start = offset + 10 in
    let answer : Bytes → DnsAnswer = λ text. record {
      name = name;
      rrtype = rrtype;
      class = class;
      ttl = ttl;
      rd_length = rd_length;
      rdata = text;
    } in
    if ltb (length message) (start + rd_length)
    then ok (
      answer (
          codes "(truncated: need "
          ++ (decimal rd_length
              ++ (codes " bytes, have " ++ (decimal (length message - start) ++ codes ")")))),
      length message,
    )
    else slice message start (start + rd_length) >>= λ rdata.
        format_rdata rrtype rdata message >>= λ text. ok (answer text, start + rd_length)

unfoldable pub parse_dns_answer : Bytes → ℕ → Outcome DnsError (DnsAnswer × ℕ)
parse_dns_answer message offset = parse_dns_name message offset >>= λ named.
    if ltb (length message) (named.1 + 10)
    then fail answer_header_beyond_data
    else answer_body message named.0 named.1

unfoldable pub parse_question : Bytes → ℕ → ℕ → Outcome DnsError (DnsQuestion × ℕ)
parse_question message i offset =
    map_fail (question_name i) (parse_dns_name message offset) >>= λ named.
    if ltb (length message) (named.1 + 4)
    then fail (question_truncated i)
    else be_at message named.1 2 >>= λ qtype. be_at message (named.1 + 2) 2 >>= λ class.
        ok (record { name = named.0; qtype = qtype; class = class }, named.1 + 4)

-- The loop over the questions that are left: the questions read, and the offset behind them or the error.
unfoldable pub parse_questions : ℕ → Bytes → ℕ → ℕ → List DnsQuestion × Outcome DnsError ℕ
parse_questions zero message i offset = ([], ok offset)
parse_questions (suc n) message i offset = elim (parse_question message i offset) [
  | ok r ↦ let rest = parse_questions n message (i + 1) r.1 in (r.0 ∷ rest.0, rest.1)
  | fail e ↦ ([], fail e)
  | panic ↦ ([], panic)
]

-- The loop over the answers, which ends at the first that does not parse.
unfoldable pub parse_answers : ℕ → Bytes → ℕ → List DnsAnswer × Outcome DnsError ℕ
parse_answers zero message offset = ([], ok offset)
parse_answers (suc n) message offset = elim (parse_dns_answer message offset) [
  | ok r ↦ let rest = parse_answers n message r.1 in (r.0 ∷ rest.0, rest.1)
  | fail e ↦ ([], ok offset)
  | panic ↦ ([], panic)
]

-- What `ParseDNSMessage` returns: an error alone, a message with or without an error, or a panic.
pub data DnsParse : Type 0 where
  refused : ℕ → DnsParse
  parsed : DnsMessage → Option DnsError → DnsParse
  crashed : DnsParse

unfoldable pub parse_header : Bytes → Outcome DnsError DnsHeader
parse_header message = be_at message 0 2 >>= λ id. be_at message 2 2 >>= λ flags.
    be_at message 4 2 >>= λ qd_count. be_at message 6 2 >>= λ an_count.
    be_at message 8 2 >>= λ ns_count. be_at message 10 2 >>= λ ar_count. ok (record {
      id = id;
      flags = flags;
      qd_count = qd_count;
      an_count = an_count;
      ns_count = ns_count;
      ar_count = ar_count;
    })

-- The answers are read if the questions were.
unfoldable pub finish_message : Bytes → DnsHeader → List DnsQuestion × Outcome DnsError ℕ → DnsParse
finish_message message header (questions, fail e) =
    parsed (record { header = header; questions = questions; answers = []; raw = message }) (some e)
finish_message message header (questions, panic) = crashed
finish_message message header (questions, ok offset) =
    let answered = parse_answers header.an_count message offset in
    elim answered.1 [
      | panic ↦ crashed
      | _ ↦
          parsed
            (record { header = header; questions = questions; answers = answered.0; raw = message })
            none
    ]

unfoldable pub parse_dns_message : Bytes → DnsParse
parse_dns_message message =
    if ltb (length message) dns_header_size
    then refused (length message)
    else elim (parse_header message) [
      | ok header ↦
          finish_message message header (parse_questions header.qd_count message 0 dns_header_size)
      | fail e ↦ crashed
      | panic ↦ crashed
    ]

abbrev pub dns_type_name : GoMap ℕ Bytes
dns_type_name =
    (dns_type_a, codes "A")
    ∷ (dns_type_ns, codes "NS")
    ∷ (dns_type_cname, codes "CNAME")
    ∷ (dns_type_soa, codes "SOA")
    ∷ (dns_type_ptr, codes "PTR")
    ∷ (dns_type_mx, codes "MX")
    ∷ (dns_type_txt, codes "TXT")
    ∷ (dns_type_aaaa, codes "AAAA")
    ∷ (dns_type_srv, codes "SRV")
    ∷ (dns_type_any, codes "ANY")
    ∷ []

unfoldable pub dns_type_name_string : ℕ → Bytes
dns_type_name_string t = elim (GoMap.get dns_type_name t) [
  | none ↦ codes "TYPE" ++ decimal t
  | some name ↦ name
]
