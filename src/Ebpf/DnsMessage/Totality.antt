-- ===== src/Ebpf/DnsMessage/Totality.antt =====
-- The errors and the bounds of `ParseDNSMessage` of pkg/ebpf/dns.go.
use container_runtime_securi.Prelude.{
  ℕ, zero, suc, nat_comparable, string_comparable, bytes_comparable, ◌+◌, ◌-◌, ◌≤◌, ◌<◌, ◌≡◌, refl,
  ap, inl, inr, none, some, List, [], ◌∷◌, arith, ltb, Bool-cases, length, take, drop,
}
use container_runtime_securi.Prelude.Outcome.{Outcome, ok, fail, panic, map_fail}
use container_runtime_securi.Prelude.Slices.{Bytes, slice_ok}
use container_runtime_securi.Ebpf.Dns.{DnsError, question_name, parse_dns_name}
use container_runtime_securi.Ebpf.Dns.Termination.{IsReal}
use container_runtime_securi.Ebpf.DnsMessage.Rdata.{
  IsSound, bind-IsSound, name-IsSound, be_at_ok, format_rdata-IsSound,
}
use container_runtime_securi.Ebpf.DnsMessage.{
  DnsHeader, DnsQuestion, DnsAnswer, format_rdata, answer_body, parse_dns_answer, parse_question,
  parse_questions, parse_answers, DnsParse, refused, parsed, crashed, parse_header, finish_message,
  parse_dns_message,
}

answer_body-IsSound :
    (message name : Bytes) (offset : ℕ)
    → offset + 10 ≤ length message
    → IsSound (answer_body message name offset)
unfolding answer_body
answer_body-IsSound message name offset h =
    let rrtype = be_at_ok message offset 2 (omega arith) in
    let class = be_at_ok message (offset + 2) 2 (omega arith) in
    let ttl = be_at_ok message (offset + 4) 4 (omega arith) in
    let rd_length = be_at_ok message (offset + 8) 2 (omega arith) in
    let end = offset + 10 + rd_length.0 in
    elim (Bool-cases (ltb (length message) end)) [
      | inl over ↦ rw (rrtype.1, class.1, ttl.1, rd_length.1, over) tt
      | inr fits ↦
          let rdata = take (end - (offset + 10)) (drop (offset + 10) message) in
          let read =
            slice_ok {E = DnsError} message (offset + 10) end (omega arith) (ground arith) in
          rw (rrtype.1, class.1, ttl.1, rd_length.1, fits, read)
            (bind-IsSound (format_rdata rrtype.0 rdata message) _
              (format_rdata-IsSound rrtype.0 rdata message) (λ text. tt))
    ]

parse_dns_answer-IsSound :
    (message : Bytes) (offset : ℕ) → IsSound (parse_dns_answer message offset)
unfolding parse_dns_answer
parse_dns_answer-IsSound message offset =
    bind-IsSound (parse_dns_name message offset) _ (name-IsSound message offset) (λ named.
      elim (Bool-cases (ltb (length message) (named.1 + 10))) [
        | inl over ↦ rw over tt
        | inr fits ↦ rw fits (answer_body-IsSound message named.0 named.1 (ground arith))
      ])

parse_question-IsSound :
    (message : Bytes) (i offset : ℕ) → IsSound (parse_question message i offset)
unfolding parse_question
parse_question-IsSound message i offset =
    bind-IsSound (map_fail (question_name i) (parse_dns_name message offset)) _
      (wrapped (parse_dns_name message offset) (name-IsSound message offset))
      (λ named. elim (Bool-cases (ltb (length message) (named.1 + 4))) [
        | inl over ↦ rw over tt
        | inr fits ↦
            let qtype = be_at_ok message named.1 2 (ground arith) in
            let class = be_at_ok message (named.1 + 2) 2 (ground arith) in
            rw (fits, qtype.1, class.1) tt
      ])
  where
    wrapped :
        (r : Outcome DnsError (Bytes × ℕ)) → IsSound r → IsSound (map_fail (question_name i) r)
    wrapped (ok r) h = tt
    wrapped (fail e) h = h
    wrapped panic h = h

-- The questions read are as many as were to be read, or fewer if one of them is an error.
abbrev AreRead {ℓ} : {A : Type ℓ} → ℕ → List A × Outcome DnsError ℕ → Type 0
AreRead n (records, ok offset) = length records ≡ n
AreRead n (records, fail e) = (length records < n) × IsReal e
AreRead n (records, panic) = ⊥

more-AreRead {ℓ} :
    {A : Type ℓ} (n : ℕ) (a : A) (r : List A × Outcome DnsError ℕ)
    → AreRead n r
    → AreRead (suc n) (a ∷ r.0, r.1)
more-AreRead n a (records, ok offset) h = ap suc h
more-AreRead n a (records, fail e) h = (omega (arith, h.0), h.1)
more-AreRead n a (records, panic) h = h

parse_questions-AreRead :
    (n : ℕ) (message : Bytes) (i offset : ℕ) → AreRead n (parse_questions n message i offset)
unfolding parse_questions
parse_questions-AreRead zero message i offset = refl
parse_questions-AreRead (suc n) message i offset =
    go (parse_question message i offset) (parse_question-IsSound message i offset)
      (λ next. parse_questions-AreRead n message (i + 1) next)
  where
    go :
        (r : Outcome DnsError (DnsQuestion × ℕ))
        → IsSound r
        → ((next : ℕ) → AreRead n (parse_questions n message (i + 1) next))
        → AreRead (suc n) (elim r as (λ _. List DnsQuestion × Outcome DnsError ℕ) [
          | ok q ↦ (
            q.0 ∷ (parse_questions n message (i + 1) q.1).0,
            (parse_questions n message (i + 1) q.1).1,
          )
          | fail e ↦ ([], fail e)
          | panic ↦ ([], panic)
        ])
    go (ok q) h rest = more-AreRead n q.0 (parse_questions n message (i + 1) q.1) (rest q.1)
    go (fail e) h rest = (omega arith, h)
    go panic h rest = h

-- No panic, and no more answers than were to be read.
abbrev AreSome : ℕ → List DnsAnswer × Outcome DnsError ℕ → Type 0
AreSome n (answers, ok offset) = length answers ≤ n
AreSome n (answers, fail e) = length answers ≤ n
AreSome n (answers, panic) = ⊥

more-AreSome :
    (n : ℕ) (a : DnsAnswer) (r : List DnsAnswer × Outcome DnsError ℕ)
    → AreSome n r
    → AreSome (suc n) (a ∷ r.0, r.1)
more-AreSome n a (answers, ok offset) h = omega arith
more-AreSome n a (answers, fail e) h = omega arith
more-AreSome n a (answers, panic) h = h

parse_answers-AreSome :
    (n : ℕ) (message : Bytes) (offset : ℕ) → AreSome n (parse_answers n message offset)
unfolding parse_answers
parse_answers-AreSome zero message offset = omega arith
parse_answers-AreSome (suc n) message offset =
    go (parse_dns_answer message offset) (parse_dns_answer-IsSound message offset)
      (λ next. parse_answers-AreSome n message next)
  where
    go :
        (r : Outcome DnsError (DnsAnswer × ℕ))
        → IsSound r
        → ((next : ℕ) → AreSome n (parse_answers n message next))
        → AreSome (suc n) (elim r as (λ _. List DnsAnswer × Outcome DnsError ℕ) [
          | ok a ↦ (a.0 ∷ (parse_answers n message a.1).0, (parse_answers n message a.1).1)
          | fail e ↦ ([], ok offset)
          | panic ↦ ([], panic)
        ])
    go (ok a) h rest = more-AreSome n a.0 (parse_answers n message a.1) (rest a.1)
    go (fail e) h rest = omega arith
    go panic h rest = h

-- What the parser may return, by the message that it gets.
abbrev pub IsParsed : Bytes → DnsParse → Type 0
IsParsed message (refused n) = (length message < 12) × (n ≡ length message)
IsParsed message (parsed m none) =
    (12 ≤ length message)
    × (m.raw ≡ message)
    × (length m.questions ≡ m.header.qd_count)
    × (length m.answers ≤ m.header.an_count)
IsParsed message (parsed m (some e)) =
    (12 ≤ length message)
    × (m.raw ≡ message)
    × (length m.questions < m.header.qd_count)
    × (m.answers ≡ [])
    × IsReal e
IsParsed message crashed = ⊥

finish_message-IsParsed :
    (message : Bytes) (header : DnsHeader) (asked : List DnsQuestion × Outcome DnsError ℕ)
    → 12 ≤ length message
    → AreRead header.qd_count asked
    → IsParsed message (finish_message message header asked)
unfolding finish_message
finish_message-IsParsed message header (questions, fail e) long h = (long, refl, h.0, refl, h.1)
finish_message-IsParsed message header (questions, panic) long h = h
finish_message-IsParsed message header (questions, ok offset) long h =
    go (parse_answers header.an_count message offset)
      (parse_answers-AreSome header.an_count message offset)
  where
    go :
        (answered : List DnsAnswer × Outcome DnsError ℕ)
        → AreSome header.an_count answered
        → IsParsed message (elim answered.1 as (λ _. DnsParse) [
          | panic ↦ crashed
          | _ ↦
              parsed
                (record {
                  header = header;
                  questions = questions;
                  answers = answered.0;
                  raw = message;
                })
                none
        ])
    go (answers, ok end) k = (long, refl, h, k)
    go (answers, fail e) k = (long, refl, h, k)
    go (answers, panic) k = k

parse_header_ok :
    (message : Bytes)
    → 12 ≤ length message
    → (header : DnsHeader) × (parse_header message ≡ ok header)
unfolding parse_header
parse_header_ok message h =
    let id = be_at_ok message 0 2 (omega arith) in
    let flags = be_at_ok message 2 2 (omega arith) in
    let qd_count = be_at_ok message 4 2 (omega arith) in
    let an_count = be_at_ok message 6 2 (omega arith) in
    let ns_count = be_at_ok message 8 2 (omega arith) in
    let ar_count = be_at_ok message 10 2 (omega arith) in
    (
      record {
        id = id.0;
        flags = flags.0;
        qd_count = qd_count.0;
        an_count = an_count.0;
        ns_count = ns_count.0;
        ar_count = ar_count.0;
      },
      rw (id.1, flags.1, qd_count.1, an_count.1, ns_count.1, ar_count.1) refl,
    )

-- `ParseDNSMessage` refuses a message of fewer than 12 bytes with its length. Any other gives a message, never a
-- panic: either with all the questions of the header and no more answers than it announces, or with an error of
-- the code, fewer questions and no answers.
pub parse_dns_message-IsParsed : (message : Bytes) → IsParsed message (parse_dns_message message)
unfolding parse_dns_message
parse_dns_message-IsParsed message = elim (Bool-cases (ltb (length message) 12)) [
  | inl short ↦ rw short (ground arith, refl)
  | inr long ↦
      let header = parse_header_ok message (ground arith) in
      rw (long, header.1)
        (finish_message-IsParsed message header.0 (parse_questions header.0.qd_count message 0 12)
          (ground arith) (parse_questions-AreRead header.0.qd_count message 0 12))
]
