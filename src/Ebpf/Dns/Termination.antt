-- ===== src/Ebpf/Dns/Termination.antt =====
-- The loop of `parseDNSName` of pkg/ebpf/dns.go: its measure and its bounds.
use container_runtime_securi.Prelude.{
  ℕ, zero, suc, nat_comparable, string_comparable, bytes_comparable, ◌==◌, ==_iff, ◌+◌, ◌≤◌, ◌<◌,
  ◌≡◌, refl, inl, inr, false, Option, none, some, List, [], ◌∷◌, arith, ltb, leb, if◌then◌else◌,
  Bool-cases, length,
}
use container_runtime_securi.Prelude.Outcome.{Outcome, ok, fail, panic}
use container_runtime_securi.Prelude.Members.{is_member}
use container_runtime_securi.Prelude.Slices.{Bytes, index_ok, slice_ok}
use container_runtime_securi.Ebpf.Dns.{
  DnsError, out_of_fuel, question_name, NameState, NameStep, return, continue, next_offset,
  is_pointer, follow_pointer, take_label, length_step, name_step, name_loop, parse_dns_name,
}

-- How many offsets below a bound were not visited.
abbrev unvisited : ℕ → List ℕ → ℕ
unvisited zero visited = 0
unvisited (suc n) visited =
    let rest = unvisited n visited in if is_member visited n then rest else rest + 1

unvisited_none : (n : ℕ) → unvisited n [] ≡ n
unfolding is_member
unvisited_none zero = refl
unvisited_none (suc n) = omega (arith, unvisited_none n)

unvisited_above :
    (n o : ℕ) (visited : List ℕ) → n ≤ o → unvisited n (o ∷ visited) ≡ unvisited n visited
unfolding is_member
unvisited_above zero o visited h = refl
unvisited_above (suc n) o visited h = ground (arith, unvisited_above n o visited)

unvisited-lt :
    (n o : ℕ) (visited : List ℕ)
    → o < n
    → is_member visited o ≡ false
    → unvisited n (o ∷ visited) + 1 ≡ unvisited n visited
unfolding is_member
unvisited-lt zero o visited h k = absurd (omega arith)
unvisited-lt (suc n) o visited h k = elim (Bool-cases (o == n)) [
  | inl same ↦
      let e : o ≡ n = (==_iff o n).0 same in
      let above = unvisited_above n o visited (omega arith) in ground (arith, above, k, e)
  | inr other ↦ ground (arith, unvisited-lt n o visited, ==_iff o n)
]

-- An error of the code, and not the spent fuel of the model.
abbrev pub IsReal : DnsError → Type 0
IsReal out_of_fuel = ⊥
IsReal (question_name i e) = IsReal e
IsReal _ = Unit

-- What a call from an offset may answer: a name with an offset behind the first and within the data, or an
-- error, but neither a panic nor spent fuel.
abbrev pub Returns : Bytes → ℕ → Outcome DnsError (Bytes × ℕ) → Type 0
Returns message start (ok r) = (start < r.1) × (r.1 ≤ length message)
Returns message start (fail e) = IsReal e
Returns message start panic = ⊥

-- The loop has passed the first offset, or jumped from behind it.
abbrev HasPassed : Bytes → ℕ → ℕ → Option ℕ → Type 0
HasPassed message start offset none = start ≤ offset
HasPassed message start offset (some jump) = (start < jump) × (jump ≤ length message)

next_offset_bounds :
    (message : Bytes) (start : ℕ) (s : NameState)
    → HasPassed message start s.offset s.jump_from
    → s.offset < length message
    → (start < next_offset (record s { offset = s.offset + 1 }))
      × (next_offset (record s { offset = s.offset + 1 }) ≤ length message)
next_offset_bounds message start s h below = go s.jump_from h
  where
    go :
        (jump : Option ℕ)
        → HasPassed message start s.offset jump
        → (start < (elim jump [ none ↦ s.offset + 1 | some j ↦ j ]))
          × ((elim jump [ none ↦ s.offset + 1 | some j ↦ j ]) ≤ length message)
    go none k = (omega arith, omega arith)
    go (some j) k = k

-- The step returns as a call may, or goes on with more offsets visited.
abbrev IsGoodStep : Bytes → ℕ → ℕ → NameStep → Type 0
IsGoodStep message start left (return r) = Returns message start r
IsGoodStep message start left (continue s) =
    HasPassed message start s.offset s.jump_from × (unvisited (length message) s.visited < left)

take_label-IsGoodStep :
    (message : Bytes) (start left : ℕ) (s : NameState) (len : ℕ)
    → HasPassed message start s.offset s.jump_from
    → unvisited (length message) s.visited < left
    → IsGoodStep message start left (take_label message s len)
unfolding take_label
take_label-IsGoodStep message start left s len h k = elim (Bool-cases (ltb 63 len)) [
  | inl long ↦ rw long tt
  | inr short ↦ elim (Bool-cases (ltb (length message) (s.offset + len))) [
    | inl over ↦ rw (short, over) tt
    | inr fits ↦
        rw
          (
            short,
            fits,
            slice_ok {E = DnsError} message s.offset (s.offset + len) (omega arith) (ground arith),
          )
          (later s.jump_from h, k)
  ]
]
  where
    later :
        (jump : Option ℕ)
        → HasPassed message start s.offset jump
        → HasPassed message start (s.offset + len) jump
    later none p = omega arith
    later (some j) p = p

follow_pointer-IsGoodStep :
    (message : Bytes) (start left : ℕ) (s : NameState) (len : ℕ)
    → HasPassed message start s.offset s.jump_from
    → unvisited (length message) s.visited < left
    → IsGoodStep message start left (follow_pointer message s len)
unfolding follow_pointer
follow_pointer-IsGoodStep message start left s len h k =
    elim (Bool-cases (leb (length message) s.offset)) [
      | inl over ↦ rw over tt
      | inr fits ↦
          let below : s.offset < length message = ground arith in
          let found = index_ok {E = DnsError} message s.offset below in
          rw (fits, found.2) (next_offset_bounds message start s h below, k)
    ]

length_step-IsGoodStep :
    (message : Bytes) (start left : ℕ) (s : NameState) (len : ℕ)
    → HasPassed message start s.offset s.jump_from
    → (start < next_offset s) × (next_offset s ≤ length message)
    → unvisited (length message) s.visited < left
    → IsGoodStep message start left (length_step message s len)
unfolding length_step
length_step-IsGoodStep message start left s len h b k = elim (Bool-cases (len == 0)) [
  | inl end ↦ rw end b
  | inr more ↦ elim (Bool-cases (is_pointer len)) [
    | inl pointer ↦ rw (more, pointer) (follow_pointer-IsGoodStep message start left s len h k)
    | inr label ↦ rw (more, label) (take_label-IsGoodStep message start left s len h k)
  ]
]

name_step-IsGoodStep :
    (message : Bytes) (start : ℕ) (s : NameState)
    → HasPassed message start s.offset s.jump_from
    → IsGoodStep message start (unvisited (length message) s.visited) (name_step message s)
unfolding name_step
name_step-IsGoodStep message start s h = elim (Bool-cases (leb (length message) s.offset)) [
  | inl over ↦ rw over tt
  | inr fits ↦ elim (Bool-cases (is_member s.visited s.offset)) [
    | inl seen ↦ rw (fits, seen) tt
    | inr new ↦
        let below : s.offset < length message = ground arith in
        let found = index_ok {E = DnsError} message s.offset below in
        rw (fits, new, found.2)
          (length_step-IsGoodStep message start (unvisited (length message) s.visited)
            (record s { offset = s.offset + 1; visited = s.offset ∷ s.visited }) found.0
            (later s.jump_from h) (next_offset_bounds message start s h below)
            (omega (arith, unvisited-lt (length message) s.offset s.visited below new)))
  ]
]
  where
    later :
        (jump : Option ℕ)
        → HasPassed message start s.offset jump
        → HasPassed message start (s.offset + 1) jump
    later none p = omega arith
    later (some j) p = p

-- What a step leads to, if the loop goes on well.
step-Returns :
    (message : Bytes) (start left : ℕ) (loop : NameState → Outcome DnsError (Bytes × ℕ))
    (step : NameStep)
    → IsGoodStep message start left step
    → ((s : NameState)
        → HasPassed message start s.offset s.jump_from
        → unvisited (length message) s.visited < left
        → Returns message start (loop s))
    → Returns message start (elim step [ return r ↦ r | continue s' ↦ loop s' ])
step-Returns message start left loop (return r) good rest = good
step-Returns message start left loop (continue s) good rest = rest s good.0 good.1

name_loop-Returns :
    (fuel : ℕ) (message : Bytes) (start : ℕ) (s : NameState)
    → HasPassed message start s.offset s.jump_from
    → unvisited (length message) s.visited < fuel
    → Returns message start (name_loop fuel message s)
unfolding name_loop
name_loop-Returns zero message start s h k = absurd (omega arith)
name_loop-Returns (suc fuel) message start s h k =
    step-Returns message start (unvisited (length message) s.visited) (name_loop fuel message)
      (name_step message s) (name_step-IsGoodStep message start s h)
      (λ s' h' k'. name_loop-Returns fuel message start s' h' (omega arith))

-- `parseDNSName` returns on every message and from every offset, with fuel of one more than the message's
-- length: it reads nothing out of bounds, and a name comes with an offset behind the first one and within the
-- message.
pub parse_dns_name-Returns :
    (message : Bytes) (start : ℕ) → Returns message start (parse_dns_name message start)
unfolding parse_dns_name
parse_dns_name-Returns message start =
    name_loop-Returns (length message + 1) message start
      (record { offset = start; labels = []; jump_from = none; visited = [] }) (omega arith)
      (omega (arith, unvisited_none (length message)))
